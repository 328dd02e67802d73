-- ===== src/Access/Rc522/Frame.antt =====
-- What talking to a reader leaves alone: the devices, their number, the active one and the callbacks.
use Prim.Native.Nat.{bit_and}
use iot_repo.Base.{
  ℕ, zero, suc, ◌+◌, ◌%◌, ◌≡◌, ◌∙◌, refl, not, ◌&&◌, Bool-cases, inl, inr, ◌==◌, if◌then◌else◌,
}
use iot_repo.Base.Text.{Bytes}
use iot_repo.Access.Rc522.{
  Spi, Driver, is_ok, is_some, rc522_write_n, rc522_write, rc522_read, rc522_set_bitmask,
  rc522_clear_bitmask, rc522_antenna_on, crc_wait, rc522_calculate_crc, card_wait, read_fifo,
  read_result, card_result, rc522_card_write, rc522_request, rc522_anticoll, halt_card,
  rc522_get_tag,
}

pub record Kept (m m' : Driver) : Type 0 where
  pub hndls : m'.hndls ≡ m.hndls
  pub device_count : m'.device_count ≡ m.device_count
  pub active_hndl : m'.active_hndl ≡ m.active_hndl
  pub called : m'.called ≡ m.called

pub Kept-refl : (m : Driver) → Kept m m
Kept-refl m = record { hndls = refl; device_count = refl; active_hndl = refl; called = refl }

pub Kept-trans : {a b c : Driver} → Kept a b → Kept b c → Kept a c
Kept-trans p q = record {
  hndls = q.hndls ∙ p.hndls;
  device_count = q.device_count ∙ p.device_count;
  active_hndl = q.active_hndl ∙ p.active_hndl;
  called = q.called ∙ p.called;
}

module _ (spi : Spi) where
  pub write_n-Kept : (a : ℕ) (d : Bytes) (m : Driver) → Kept m (rc522_write_n spi a d m).1
  unfolding rc522_write_n
  write_n-Kept a d m = record {
    hndls = refl;
    device_count = refl;
    active_hndl = refl;
    called = refl;
  }

  pub write-Kept : (a v : ℕ) (m : Driver) → Kept m (rc522_write spi a v m).1
  unfolding rc522_write
  write-Kept a v m = write_n-Kept a _ m

  pub read-Kept : (a : ℕ) (m : Driver) → Kept m (rc522_read spi a m).1
  unfolding rc522_read
  read-Kept a m = record { hndls = refl; device_count = refl; active_hndl = refl; called = refl }

  pub set_bitmask-Kept : (a k : ℕ) (m : Driver) → Kept m (rc522_set_bitmask spi a k m).1
  unfolding rc522_set_bitmask
  set_bitmask-Kept a k m = Kept-trans (read-Kept a m) (write-Kept a _ _)

  pub clear_bitmask-Kept : (a k : ℕ) (m : Driver) → Kept m (rc522_clear_bitmask spi a k m).1
  unfolding rc522_clear_bitmask
  clear_bitmask-Kept a k m = Kept-trans (read-Kept a m) (write-Kept a _ _)

  pub antenna_on-Kept : (m : Driver) → Kept m (rc522_antenna_on spi m).1
  unfolding rc522_antenna_on
  antenna_on-Kept m =
      let m1 = (rc522_read spi 0x14 m).1 in
      let r = rc522_set_bitmask spi 0x14 0x03 m1 in
      let before = Kept-trans (read-Kept 0x14 m) (set_bitmask-Kept 0x14 0x03 m1) in
      elim (Bool-cases (is_ok r.0)) [
        | inl ok ↦ rw ok (Kept-trans before (write-Kept 0x26 0x60 r.1))
        | inr failed ↦ rw failed before
      ]

  crc_wait-Kept : (i : ℕ) (m : Driver) → Kept m (crc_wait spi i m)
  unfolding crc_wait
  crc_wait-Kept zero m = Kept-refl m
  crc_wait-Kept (suc i) m =
      let (nn, m1) = rc522_read spi 0x05 m in
      elim (Bool-cases (not (i == 0) && (bit_and nn 0x04 == 0))) [
        | inl more ↦ rw (crc_wait, more) (Kept-trans (read-Kept 0x05 m) (crc_wait-Kept i m1))
        | inr over ↦ rw (crc_wait, over) (read-Kept 0x05 m)
      ]

  calculate_crc-Kept : (d : Bytes) (m : Driver) → Kept m (rc522_calculate_crc spi d m).1
  unfolding rc522_calculate_crc
  calculate_crc-Kept d m = Kept-trans (clear_bitmask-Kept 0x05 0x04 m) (
      Kept-trans (set_bitmask-Kept 0x0A 0x80 _) (
        Kept-trans (write_n-Kept 0x09 d _) (
          Kept-trans (write-Kept 0x01 0x03 _)
            (Kept-trans (crc_wait-Kept 255 _) (Kept-trans (read-Kept 0x22 _) (read-Kept 0x21 _))))))

  card_wait-Kept : (w i : ℕ) (m : Driver) → Kept m (card_wait spi w i m).1
  unfolding card_wait
  card_wait-Kept w zero m = Kept-refl m
  card_wait-Kept w (suc i) m =
      let (nn, m1) = rc522_read spi 0x04 m in
      elim (Bool-cases (not (i == 0) && ((bit_and nn 0x01 == 0) && (bit_and nn w == 0)))) [
        | inl more ↦ rw (card_wait, more) (Kept-trans (read-Kept 0x04 m) (card_wait-Kept w i m1))
        | inr over ↦ rw (card_wait, over) (read-Kept 0x04 m)
      ]

  read_fifo-Kept : (n : ℕ) (m : Driver) → Kept m (read_fifo spi n m).1
  unfolding read_fifo
  read_fifo-Kept zero m = Kept-refl m
  read_fifo-Kept (suc n) m = Kept-trans (read-Kept 0x09 m) (read_fifo-Kept n _)

  read_result-Kept : (m : Driver) → Kept m (read_result spi m).1
  unfolding read_result
  read_result-Kept m =
      let (nn, m1) = rc522_read spi 0x0A m in
      let (control, m2) = rc522_read spi 0x0C m1 in
      let last_bits = bit_and control 0x07 in
      let res_n = if not (last_bits == 0) then (nn + 255 + last_bits) % 256 else nn in
      Kept-trans (read-Kept 0x0A m) (Kept-trans (read-Kept 0x0C m1) (read_fifo-Kept res_n m2))

  card_result-Kept : (cmd i : ℕ) (m : Driver) → Kept m (card_result spi cmd i m).1
  unfolding card_result
  card_result-Kept cmd i m =
      let (errors, m1) = rc522_read spi 0x06 m in
      elim (Bool-cases (i == 0)) [
        | inl late ↦ rw late (Kept-refl m)
        | inr in_time ↦
            rw in_time (elim (Bool-cases ((bit_and errors 0x1B == 0) && (cmd == 0x0C))) [
              | inl good ↦ rw good (Kept-trans (read-Kept 0x06 m) (read_result-Kept m1))
              | inr bad ↦ rw bad (read-Kept 0x06 m)
            ])
      ]

  -- A command that transmits and receives.
  transceive-Kept : (d : Bytes) (m : Driver) → Kept m (rc522_card_write spi 0x0C d m).1
  unfolding rc522_card_write
  transceive-Kept d m = Kept-trans (write-Kept 0x02 _ m) (
      Kept-trans (clear_bitmask-Kept 0x04 0x80 _) (
        Kept-trans (set_bitmask-Kept 0x0A 0x80 _) (
          Kept-trans (write-Kept 0x01 0x00 _) (
            Kept-trans (write_n-Kept 0x09 d _) (
              Kept-trans (write-Kept 0x01 0x0C _) (
                Kept-trans (set_bitmask-Kept 0x0D 0x80 _) (
                  Kept-trans (card_wait-Kept 0x30 1000 _)
                    (Kept-trans (clear_bitmask-Kept 0x0D 0x80 _) (card_result-Kept 0x0C _ _)))))))))

  request-Kept : (m : Driver) → Kept m (rc522_request spi m).1
  unfolding rc522_request
  request-Kept m = Kept-trans (write-Kept 0x0D 0x07 m) (transceive-Kept _ _)

  anticoll-Kept : (m : Driver) → Kept m (rc522_anticoll spi m).1
  unfolding rc522_anticoll
  anticoll-Kept m = Kept-trans (write-Kept 0x0D 0x00 m) (transceive-Kept _ _)

  halt_card-Kept : (m : Driver) → Kept m (halt_card spi m)
  unfolding halt_card
  halt_card-Kept m =
      Kept-trans (calculate_crc-Kept _ m)
        (Kept-trans (transceive-Kept _ _) (clear_bitmask-Kept 0x08 0x08 _))

  pub get_tag-Kept : (m : Driver) → Kept m (rc522_get_tag spi m).1
  unfolding rc522_get_tag
  get_tag-Kept m =
      let (answer, m1) = rc522_request spi m in
      let (result, m2) = rc522_anticoll spi m1 in
      let asked = Kept-trans (request-Kept m) (anticoll-Kept m1) in
      elim (Bool-cases (is_some answer)) [
        | inr alone ↦ rw alone (request-Kept m)
        | inl there ↦ rw there (elim (Bool-cases (is_some result)) [
          | inr lost ↦ rw lost asked
          | inl found ↦ rw found (Kept-trans asked (halt_card-Kept m2))
        ])
      ]
