-- ===== src/Access/Rc522/Calls.antt =====
-- How often the driver turns to the bus, whatever the reader answers.
use Prim.Native.Nat.{bit_and}
use iot_repo.Base.{
  ℕ, zero, suc, ◌+◌, ◌*◌, ◌%◌, ◌≡◌, ◌≤◌, ◌<◌, refl, not, ◌&&◌, ◌||◌, Bool-cases, inl, inr, ◌==◌,
  if◌then◌else◌, Option, none, some, arith,
}
use iot_repo.Base.Text.{Bytes}
use iot_repo.Access.Rc522.{
  Spi, Device, Driver, is_some, rc522_write_n, rc522_write, rc522_read, rc522_set_bitmask,
  rc522_clear_bitmask, crc_wait, rc522_calculate_crc, card_wait, read_fifo, read_result,
  card_result, rc522_card_write, rc522_request, rc522_anticoll, halt_card, rc522_get_tag,
}
use iot_repo.Access.Rc522.Scan.{update, report_tag, scan_device, scan_from, rc522_task}

-- From the one driver to the other there are at most n calls.
pub record Within (n : ℕ) (m m' : Driver) : Type 0 where
  pub calls : m'.calls ≤ m.calls + n

no_call : (m : Driver) → Within 0 m m
no_call m = record { calls = omega arith }

in_turn : {a b c : Driver} (p q : ℕ) → Within p a b → Within q b c → Within (p + q) a c
in_turn p q first second = record { calls = omega (arith, first.calls, second.calls) }

relax : {a b : Driver} (p q : ℕ) → p ≤ q → Within p a b → Within q a b
relax p q le h = record { calls = omega (arith, le, h.calls) }

module _ (spi : Spi) where
  write_n-Within : (a : ℕ) (d : Bytes) (m : Driver) → Within 1 m (rc522_write_n spi a d m).1
  unfolding rc522_write_n
  write_n-Within a d m = record { calls = omega arith }

  write-Within : (a v : ℕ) (m : Driver) → Within 1 m (rc522_write spi a v m).1
  unfolding rc522_write
  write-Within a v m = write_n-Within a _ m

  read-Within : (a : ℕ) (m : Driver) → Within 1 m (rc522_read spi a m).1
  unfolding rc522_read
  read-Within a m = record { calls = omega arith }

  set_bitmask-Within : (a k : ℕ) (m : Driver) → Within 2 m (rc522_set_bitmask spi a k m).1
  unfolding rc522_set_bitmask
  set_bitmask-Within a k m = in_turn 1 1 (read-Within a m) (write-Within a _ _)

  clear_bitmask-Within : (a k : ℕ) (m : Driver) → Within 2 m (rc522_clear_bitmask spi a k m).1
  unfolding rc522_clear_bitmask
  clear_bitmask-Within a k m = in_turn 1 1 (read-Within a m) (write-Within a _ _)

  -- The wait for the CRC unit ends.
  crc_wait-Within : (i : ℕ) (m : Driver) → Within i m (crc_wait spi i m)
  unfolding crc_wait
  crc_wait-Within zero m = no_call m
  crc_wait-Within (suc i) m =
      let (nn, m1) = rc522_read spi 0x05 m in
      elim (Bool-cases (not (i == 0) && (bit_and nn 0x04 == 0))) [
        | inl more ↦
            rw (crc_wait, more)
              (relax (1 + i) (suc i) (omega arith)
                (in_turn 1 i (read-Within 0x05 m) (crc_wait-Within i m1)))
        | inr over ↦ rw (crc_wait, over) (relax 1 (suc i) (omega arith) (read-Within 0x05 m))
      ]

  calculate_crc-Within : (d : Bytes) (m : Driver) → Within 263 m (rc522_calculate_crc spi d m).1
  unfolding rc522_calculate_crc
  calculate_crc-Within d m = in_turn 2 261 (clear_bitmask-Within 0x05 0x04 m) (
      in_turn 2 259 (set_bitmask-Within 0x0A 0x80 _) (
        in_turn 1 258 (write_n-Within 0x09 d _) (
          in_turn 1 257 (write-Within 0x01 0x03 _) (
            in_turn 255 2 (crc_wait-Within 255 _)
              (in_turn 1 1 (read-Within 0x22 _) (read-Within 0x21 _))))))

  -- The wait for the card ends.
  card_wait-Within : (w i : ℕ) (m : Driver) → Within i m (card_wait spi w i m).1
  unfolding card_wait
  card_wait-Within w zero m = no_call m
  card_wait-Within w (suc i) m =
      let (nn, m1) = rc522_read spi 0x04 m in
      elim (Bool-cases (not (i == 0) && ((bit_and nn 0x01 == 0) && (bit_and nn w == 0)))) [
        | inl more ↦
            rw (card_wait, more)
              (relax (1 + i) (suc i) (omega arith)
                (in_turn 1 i (read-Within 0x04 m) (card_wait-Within w i m1)))
        | inr over ↦ rw (card_wait, over) (relax 1 (suc i) (omega arith) (read-Within 0x04 m))
      ]

  read_fifo-Within : (n : ℕ) (m : Driver) → Within n m (read_fifo spi n m).1
  unfolding read_fifo
  read_fifo-Within zero m = no_call m
  read_fifo-Within (suc n) m =
      relax (1 + n) (suc n) (omega arith) (in_turn 1 n (read-Within 0x09 m) (read_fifo-Within n _))

  read_small : (a : ℕ) (m : Driver) → (rc522_read spi a m).0 < 256
  unfolding rc522_read
  read_small a m = omega arith

  read_result-Within : (m : Driver) → Within 257 m (read_result spi m).1
  unfolding read_result
  read_result-Within m =
      let (nn, m1) = rc522_read spi 0x0A m in
      let (control, m2) = rc522_read spi 0x0C m1 in
      let last_bits = bit_and control 0x07 in
      let res_n = if not (last_bits == 0) then (nn + 255 + last_bits) % 256 else nn in
      let small : res_n ≤ 255 = ground (arith, read_small 0x0A m) in
      in_turn 1 256 (read-Within 0x0A m)
        (in_turn 1 255 (read-Within 0x0C m1) (relax res_n 255 small (read_fifo-Within res_n m2)))

  card_result-Within : (cmd i : ℕ) (m : Driver) → Within 258 m (card_result spi cmd i m).1
  unfolding card_result
  card_result-Within cmd i m =
      let (errors, m1) = rc522_read spi 0x06 m in
      elim (Bool-cases (i == 0)) [
        | inl late ↦ rw late (relax 0 258 (omega arith) (no_call m))
        | inr in_time ↦
            rw in_time (elim (Bool-cases ((bit_and errors 0x1B == 0) && (cmd == 0x0C))) [
              | inl good ↦ rw good (in_turn 1 257 (read-Within 0x06 m) (read_result-Within m1))
              | inr bad ↦ rw bad (relax 1 258 (omega arith) (read-Within 0x06 m))
            ])
      ]

  -- A command that transmits and receives.
  transceive-Within : (d : Bytes) (m : Driver) → Within 1270 m (rc522_card_write spi 0x0C d m).1
  unfolding rc522_card_write
  transceive-Within d m = in_turn 1 1269 (write-Within 0x02 _ m) (
      in_turn 2 1267 (clear_bitmask-Within 0x04 0x80 _) (
        in_turn 2 1265 (set_bitmask-Within 0x0A 0x80 _) (
          in_turn 1 1264 (write-Within 0x01 0x00 _) (
            in_turn 1 1263 (write_n-Within 0x09 d _) (
              in_turn 1 1262 (write-Within 0x01 0x0C _) (
                in_turn 2 1260 (set_bitmask-Within 0x0D 0x80 _) (
                  in_turn 1000 260 (card_wait-Within 0x30 1000 _) (
                    in_turn 2 258 (clear_bitmask-Within 0x0D 0x80 _)
                      (card_result-Within 0x0C _ _)))))))))

  request-Within : (m : Driver) → Within 1271 m (rc522_request spi m).1
  unfolding rc522_request
  request-Within m = in_turn 1 1270 (write-Within 0x0D 0x07 m) (transceive-Within _ _)

  anticoll-Within : (m : Driver) → Within 1271 m (rc522_anticoll spi m).1
  unfolding rc522_anticoll
  anticoll-Within m = in_turn 1 1270 (write-Within 0x0D 0x00 m) (transceive-Within _ _)

  halt_card-Within : (m : Driver) → Within 1535 m (halt_card spi m)
  unfolding halt_card
  halt_card-Within m =
      in_turn 263 1272 (calculate_crc-Within _ m)
        (in_turn 1270 2 (transceive-Within _ _) (clear_bitmask-Within 0x08 0x08 _))

  get_tag-Within : (m : Driver) → Within 4077 m (rc522_get_tag spi m).1
  unfolding rc522_get_tag
  get_tag-Within m =
      let (answer, m1) = rc522_request spi m in
      let (result, m2) = rc522_anticoll spi m1 in
      let asked = in_turn 1271 1271 (request-Within m) (anticoll-Within m1) in
      elim (Bool-cases (is_some answer)) [
        | inr alone ↦ rw alone (relax 1271 4077 (omega arith) (request-Within m))
        | inl there ↦ rw there (elim (Bool-cases (is_some result)) [
          | inr lost ↦ rw lost (relax 2542 4077 (omega arith) asked)
          | inl found ↦ rw found (in_turn 2542 1535 asked (halt_card-Within m2))
        ])
      ]

  calls-update : (f : Device → Device) (i : ℕ) (m : Driver) → (update f i m).calls ≡ m.calls
  unfolding update
  calls-update f i m = refl

  calls-report_tag :
      (i : ℕ) (d : Device) (o : Option Bytes) (m : Driver) → (report_tag i d o m).calls ≡ m.calls
  unfolding report_tag
  calls-report_tag i d none m = refl
  calls-report_tag i d (some s) m = ground arith

  scan_device-Within :
      (i : ℕ) (d : Option Device) (m : Driver) → Within 4077 m (scan_device spi i d m)
  unfolding scan_device update
  scan_device-Within i none m = relax 0 4077 (omega arith) (no_call m)
  scan_device-Within i (some d) m =
      let (o, m1) = rc522_get_tag spi m in
      elim (Bool-cases (not d.running || not d.scan_started)) [
        | inl idle ↦ rw idle (relax 0 4077 (omega arith) (no_call m))
        | inr busy ↦
            rw busy
              record { calls = omega (arith, calls-report_tag i d o m1, (get_tag-Within m).calls) }
      ]

  scan_from-Within : (left i : ℕ) (m : Driver) → Within (left * 4077) m (scan_from spi left i m)
  unfolding scan_from
  scan_from-Within zero i m = no_call m
  scan_from-Within (suc left) i m =
      let m' = record m { active_hndl = some i } in
      let later = scan_from-Within left (i + 1) (scan_device spi i (m.hndls i) m') in
      record { calls = omega (arith, (scan_device-Within i (m.hndls i) m').calls, later.calls) }

  -- A round of the task ends after at most 4077 calls of the bus per reader, whatever the readers
  -- answer.
  pub calls-rc522_task : (m : Driver) → (rc522_task spi m).calls ≤ m.calls + m.device_count * 4077
  unfolding rc522_task
  calls-rc522_task m = (scan_from-Within m.device_count 0 m).calls
