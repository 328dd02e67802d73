-- ===== src/Register.antt =====
-- register_controller/register_controller.ino: the kit at which the workers' cards are read in. The
-- MFRC522 library, the serial port and the clock are parameters, and the n-th call is answered by
-- the board at n.
pub mod Cards
pub mod Running
mod Tests
use iot_repo.Base.{
  ℕ, zero, suc, ◌+◌, Bool, true, false, not, ◌&&◌, List, [], ◌∷◌, ◌++◌, Option, none, some, ltb,
  if◌then◌else◌, sub32,
}
use iot_repo.Base.Text.{Bytes, codes}

-- What PICC_ReadCardSerial leaves in `uid`.
pub record Uid : Type 0 where
  pub uid_byte : ℕ → ℕ
  pub size : ℕ

pub record Kit : Type 0 where
  pub millis : ℕ → ℕ
  -- whether Serial is ready
  pub serial : ℕ → Bool
  pub picc_is_new_card_present : ℕ → Bool
  -- `none` where the call returns false
  pub picc_read_card_serial : ℕ → Option Uid
  -- what Serial.print(n, HEX) prints
  pub print_hex : ℕ → Bytes

-- `printed` is what went out on the serial port; `halted` and `stopped` count PICC_HaltA and
-- PCD_StopCrypto1; `delayed` is the sum of the delays in milliseconds.
pub record Register : Type 0 where
  pub initialised : Bool
  pub printed : Bytes
  pub halted : ℕ
  pub stopped : ℕ
  pub delayed : ℕ
  pub calls : ℕ

abbrev pub fresh : Register
fresh = record {
  initialised = false;
  printed = [];
  halted = 0;
  stopped = 0;
  delayed = 0;
  calls = 0;
}

abbrev pub before_uid : Bytes
before_uid = codes "{\"type\":\"card_read\",\"source\":\"register_controller\",\"uid\":\""

abbrev pub after_uid : Bytes
after_uid = codes "\"}" ++ (13 ∷ 10 ∷ [])

-- SPI.begin(), PCD_Init(), and a delay.
unfoldable pub init_reader : Option Register → Option Register
init_reader none = none
init_reader (some m) = some (record m { initialised = true; delayed = m.delayed + 4 })

module _ (b : Kit) where
  -- The body of the loop of sendCardRead.
  unfoldable pub print_byte : ℕ → Bytes
  print_byte n = if ltb n 0x10 then codes "0" ++ b.print_hex n else b.print_hex n

  -- Its loop from byte i on, with the bytes that are left.
  unfoldable pub uid_text : (ℕ → ℕ) → ℕ → ℕ → Bytes
  unfolding print_byte
  uid_text uid_byte zero i = []
  uid_text uid_byte (suc left) i = print_byte (uid_byte i) ++ uid_text uid_byte left (i + 1)

  -- What sendCardRead prints.
  unfoldable pub card_read : Uid → Bytes
  unfolding uid_text
  card_read uid = before_uid ++ (uid_text uid.uid_byte uid.size 0 ++ after_uid)

  unfoldable pub send_card_read : Uid → Register → Register
  unfolding card_read
  send_card_read uid m = record m { printed = m.printed ++ card_read uid }

  -- The wait for the serial port, behind the first reading of the clock, on fuel.
  unfoldable pub wait_serial : ℕ → ℕ → Register → Option Register
  wait_serial zero t m = none
  wait_serial (suc fuel) t m =
      let polled = record m { calls = m.calls + 1 } in
      let timed = record m { calls = m.calls + 2 } in
      elim (not (b.serial m.calls)) [
        | false ↦ some polled
        | true ↦ elim (ltb (sub32 (b.millis (m.calls + 1)) t) 2000) [
          | true ↦ wait_serial fuel t timed
          | false ↦ some timed
        ]
      ]

  unfoldable pub setup : ℕ → Register → Option Register
  unfolding wait_serial init_reader
  setup fuel m =
      init_reader (wait_serial fuel (b.millis m.calls) (record m { calls = m.calls + 1 }))

  -- The part of `loop` behind the reading of the card.
  unfoldable pub read_card : Option Uid → Register → Register
  unfolding send_card_read
  read_card none m = m
  read_card (some uid) m =
      let sent = send_card_read uid m in
      record sent { halted = m.halted + 1; stopped = m.stopped + 1; delayed = m.delayed + 300 }

  unfoldable pub loop : Register → Register
  unfolding read_card
  loop m =
      let asked = record m { calls = m.calls + 1 } in
      if not (b.picc_is_new_card_present m.calls)
      then asked
      else (read_card (b.picc_read_card_serial (m.calls + 1)) (record m { calls = m.calls + 2 }))

  unfoldable pub run : ℕ → Register → Register
  unfolding loop
  run zero m = m
  run (suc k) m = loop (run k m)
