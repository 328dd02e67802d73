-- ===== src/Access/Rc522.antt =====
-- access-controller/rc522.c: the driver of the two card readers. The SPI bus and FreeRTOS are
-- parameters, and the n-th call is answered by the bus at n. A read that fails stops the program at
-- an assert, so it has no answer here.
pub mod Frame
pub mod Tags
pub mod Scan
pub mod Startup
pub mod Calls
pub mod Overlap
use Prim.Native.Nat.{bit_and, bit_or}
use iot_repo.Base.{
  ℕ, zero, suc, ◌+◌, ◌-◌, ◌*◌, ◌%◌, ◌^◌, Bool, true, false, not, ◌&&◌, List, [], ◌∷◌, Option, none,
  some, length, ltb, leb, ◌==◌, if◌then◌else◌,
}
use iot_repo.Base.Text.{Bytes}

pub data EspErr : Type 0 where
  esp_ok esp_fail esp_err_no_mem esp_err_invalid_arg esp_err_invalid_state : EspErr

abbrev pub is_ok : EspErr → Bool
is_ok esp_ok = true
is_ok _ = false

pub record Spi : Type 0 where
  -- the byte that a register holds when it is read, and what spi_device_transmit returns for a write
  pub read : ℕ → ℕ → ℕ
  pub transmit : ℕ → EspErr
  -- spi_bus_initialize, spi_bus_add_device, whether both calloc succeed, whether xTaskCreate does
  pub bus_initialize : ℕ → EspErr
  pub add_device : ℕ → EspErr
  pub first_calloc : ℕ → Bool
  pub second_calloc : ℕ → Bool
  pub task_create : ℕ → Bool
  -- the number of VSPI_HOST
  pub vspi_host : ℕ

-- rc522_config_t. Pins go by their numbers; `callback` is whether there is one.
pub record Config : Type 0 where
  pub miso_io : ℕ
  pub mosi_io : ℕ
  pub sck_io : ℕ
  pub sda_io : ℕ
  pub spi_host_id : ℕ
  pub callback : Bool
  pub scan_interval_ms : ℕ
  pub task_stack_size : ℕ
  pub task_priority : ℕ

-- `spi` is whether the device has an SPI handle.
pub record Device : Type 0 where
  pub running : Bool
  pub config : Config
  pub spi : Bool
  pub scan_started : Bool
  pub tag_was_present_last_time : Bool

-- A handle is an index into `hndls`: active_hndl only ever points to one of these. `writes` are the
-- bytes sent, `called` the callbacks made with the index of the reader, the newest first.
pub record Driver : Type 0 where
  pub hndls : ℕ → Option Device
  pub device_count : ℕ
  pub active_hndl : Option ℕ
  pub spi_bus_initialized : Bool
  pub task_created : Bool
  pub calls : ℕ
  pub writes : List Bytes
  pub called : List (ℕ × Bytes)

abbrev pub fresh : Driver
fresh = record {
  hndls = λ i. none;
  device_count = 0;
  active_hndl = none;
  spi_bus_initialized = false;
  task_created = false;
  calls = 0;
  writes = [];
  called = [];
}

abbrev pub is_some : Option Bytes → Bool
is_some none = false
is_some (some s) = true

-- A result that is kept only if it has the given number of bytes.
abbrev pub of_length : ℕ → Option Bytes → Option Bytes
of_length n none = none
of_length n (some s) = if length s == n then some s else none

-- `result |= ((uint64_t) sn[i] << (i * 8))` for i from 4 down to 0; 0 for NULL.
unfoldable pub sn_to_u64_from : (ℕ → ℕ) → ℕ → ℕ → ℕ
sn_to_u64_from sn zero result = result
sn_to_u64_from sn (suc i) result = sn_to_u64_from sn i (bit_or result (sn i * 2 ^ (i * 8) % 2 ^ 64))

unfoldable pub rc522_sn_to_u64 : Option (ℕ → ℕ) → ℕ
unfolding sn_to_u64_from
rc522_sn_to_u64 none = 0
rc522_sn_to_u64 (some sn) = sn_to_u64_from sn 5 0

module _ (spi : Spi) where
  unfoldable pub rc522_write_n : ℕ → Bytes → Driver → EspErr × Driver
  rc522_write_n addr bytes m = (
    spi.transmit m.calls,
    record m { calls = m.calls + 1; writes = (bit_and ((addr * 2) % 256) 0x7E ∷ bytes) ∷ m.writes },
  )

  unfoldable pub rc522_write : ℕ → ℕ → Driver → EspErr × Driver
  unfolding rc522_write_n
  rc522_write addr val m = rc522_write_n addr (val ∷ []) m

  unfoldable pub rc522_read : ℕ → Driver → ℕ × Driver
  rc522_read addr m = (spi.read addr m.calls % 256, record m { calls = m.calls + 1 })

  unfoldable pub rc522_set_bitmask : ℕ → ℕ → Driver → EspErr × Driver
  unfolding rc522_write rc522_read
  rc522_set_bitmask addr mask m =
      let (v, m1) = rc522_read addr m in rc522_write addr (bit_or v mask) m1

  -- `& ~mask` on a byte.
  unfoldable pub rc522_clear_bitmask : ℕ → ℕ → Driver → EspErr × Driver
  unfolding rc522_write rc522_read
  rc522_clear_bitmask addr mask m =
      let (v, m1) = rc522_read addr m in rc522_write addr (bit_and v (255 - mask)) m1

  -- `~ (rc522_read(0x14) & 0x03)` is never 0.
  unfoldable pub rc522_antenna_on : Driver → EspErr × Driver
  unfolding rc522_read rc522_set_bitmask rc522_write
  rc522_antenna_on m =
      let (v, m1) = rc522_read 0x14 m in
      let (ret, m2) = rc522_set_bitmask 0x14 0x03 m1 in
      if is_ok ret then rc522_write 0x26 0x60 m2 else (ret, m2)

  -- The loop that waits for the CRC unit, with the count that is left.
  unfoldable pub crc_wait : ℕ → Driver → Driver
  unfolding rc522_read
  crc_wait zero m = m
  crc_wait (suc i) m =
      let (nn, m1) = rc522_read 0x05 m in
      elim (not (i == 0) && (bit_and nn 0x04 == 0)) [ true ↦ crc_wait i m1 | false ↦ m1 ]

  unfoldable pub rc522_calculate_crc : Bytes → Driver → Bytes × Driver
  unfolding rc522_clear_bitmask rc522_set_bitmask rc522_write_n rc522_write crc_wait rc522_read
  rc522_calculate_crc bytes m =
      let m1 = (rc522_clear_bitmask 0x05 0x04 m).1 in
      let m2 = (rc522_set_bitmask 0x0A 0x80 m1).1 in
      let m3 = (rc522_write_n 0x09 bytes m2).1 in
      let m4 = crc_wait 255 ((rc522_write 0x01 0x03 m3).1) in
      let (high, m5) = rc522_read 0x22 m4 in
      let (low, m6) = rc522_read 0x21 m5 in (high ∷ low ∷ [], m6)

  -- The loop that waits for the card: the count that is left, 0 on a time out.
  unfoldable pub card_wait : ℕ → ℕ → Driver → ℕ × Driver
  unfolding rc522_read
  card_wait irq_wait zero m = (0, m)
  card_wait irq_wait (suc i) m =
      let (nn, m1) = rc522_read 0x04 m in
      elim (not (i == 0) && ((bit_and nn 0x01 == 0) && (bit_and nn irq_wait == 0))) [
        | true ↦ card_wait irq_wait i m1
        | false ↦ (i, m1)
      ]

  unfoldable pub read_fifo : ℕ → Driver → Bytes × Driver
  unfolding rc522_read
  read_fifo zero m = ([], m)
  read_fifo (suc n) m =
      let (v, m1) = rc522_read 0x09 m in let (rest, m2) = read_fifo n m1 in (v ∷ rest, m2)

  -- What the card sent, *res_n bytes, a uint8_t.
  unfoldable pub read_result : Driver → Option Bytes × Driver
  unfolding rc522_read read_fifo
  read_result m =
      let (nn, m1) = rc522_read 0x0A m in
      let (control, m2) = rc522_read 0x0C m1 in
      let last_bits = bit_and control 0x07 in
      let res_n = if not (last_bits == 0) then (nn + 255 + last_bits) % 256 else nn in
      let (result, m3) = read_fifo res_n m2 in (some result, m3)

  -- The part behind the wait, with the count that it left.
  unfoldable pub card_result : ℕ → ℕ → Driver → Option Bytes × Driver
  unfolding rc522_read read_result
  card_result cmd i m =
      let (errors, m1) = rc522_read 0x06 m in
      if i == 0
      then (none, m)
      else if (bit_and errors 0x1B == 0) && (cmd == 0x0C)
      then read_result m1
      else (none, m1)

  -- The result and *res_n in one: a list of *res_n bytes, or NULL.
  unfoldable pub rc522_card_write : ℕ → Bytes → Driver → Option Bytes × Driver
  unfolding rc522_write rc522_write_n rc522_clear_bitmask rc522_set_bitmask card_wait card_result
  rc522_card_write cmd bytes m =
      let irq = if cmd == 0x0E then 0x12 else if cmd == 0x0C then 0x77 else 0 in
      let irq_wait = if cmd == 0x0E then 0x10 else if cmd == 0x0C then 0x30 else 0 in
      let m1 = (rc522_write 0x02 (bit_or irq 0x80) m).1 in
      let m2 = (rc522_clear_bitmask 0x04 0x80 m1).1 in
      let m3 = (rc522_set_bitmask 0x0A 0x80 m2).1 in
      let m4 = (rc522_write 0x01 0x00 m3).1 in
      let m5 = (rc522_write_n 0x09 bytes m4).1 in
      let m6 = (rc522_write 0x01 cmd m5).1 in
      let m7 = if cmd == 0x0C then (rc522_set_bitmask 0x0D 0x80 m6).1 else m6 in
      let (i, m8) = card_wait irq_wait 1000 m7 in
      let m9 = (rc522_clear_bitmask 0x0D 0x80 m8).1 in card_result cmd i m9

  -- `*res_n * 8 != 0x10`: two bytes.
  unfoldable pub rc522_request : Driver → Option Bytes × Driver
  unfolding rc522_write rc522_card_write
  rc522_request m =
      let (result, m1) = rc522_card_write 0x0C (0x26 ∷ []) ((rc522_write 0x0D 0x07 m).1) in
      (of_length 2 result, m1)

  unfoldable pub rc522_anticoll : Driver → Option Bytes × Driver
  unfolding rc522_write rc522_card_write
  rc522_anticoll m =
      let (result, m1) = rc522_card_write 0x0C (0x93 ∷ 0x20 ∷ []) ((rc522_write 0x0D 0x00 m).1) in
      (of_length 5 result, m1)

  -- The card is told to halt.
  unfoldable pub halt_card : Driver → Driver
  unfolding rc522_calculate_crc rc522_card_write rc522_clear_bitmask
  halt_card m =
      let (crc, m1) = rc522_calculate_crc (0x50 ∷ 0x00 ∷ []) m in
      let m2 = (rc522_card_write 0x0C (0x50 ∷ 0x00 ∷ crc) m1).1 in
      (rc522_clear_bitmask 0x08 0x08 m2).1

  unfoldable pub rc522_get_tag : Driver → Option Bytes × Driver
  unfolding rc522_request rc522_anticoll halt_card
  rc522_get_tag m =
      let (answer, m1) = rc522_request m in
      let (result, m2) = rc522_anticoll m1 in
      if not (is_some answer)
      then (none, m1)
      else if not (is_some result)
      then (none, m2)
      else (result, halt_card m2)
