-- ===== src/Register/Tests.antt =====
-- Runs of the kit at concrete inputs.
use iot_repo.Base.{
  ℕ, ◌+◌, ◌*◌, ◌%◌, ◌<◌, ◌≡◌, refl, true, false, [], ◌∷◌, some, ltb, if◌then◌else◌, arith,
}
use iot_repo.Base.Text.{Bytes, codes}
use iot_repo.Access.{hex_digit, hex_byte, uid_str}
use iot_repo.Register.{Uid, Kit, uid_text}
use iot_repo.Register.Cards.{PrintsHex, uid_text-not_uid_str}

abbrev print_hex : ℕ → Bytes
print_hex n = if ltb n 16 then hex_digit n ∷ [] else hex_byte n

print_hex-PrintsHex : PrintsHex print_hex
print_hex-PrintsHex = record {
  one_digit = λ n small. ground (arith, small);
  two_digits = λ n large small. ground (arith, large);
}

-- The bytes of a card: 0A 1B 2C 3D, and the check byte behind them.
abbrev card_byte : ℕ → ℕ
card_byte i = (10 + 17 * i) % 256

abbrev card : Uid
card = record { uid_byte = card_byte; size = 4 }

-- A kit without a serial port, whose clock goes on by 100 milliseconds a call, and to which the card is held.
abbrev bench : Kit
bench = record {
  millis = λ n. 100 * n;
  serial = λ n. false;
  picc_is_new_card_present = λ n. true;
  picc_read_card_serial = λ n. some card;
  print_hex = print_hex;
}

card_byte_small : (i : ℕ) → card_byte i < 256
card_byte_small i = omega arith

-- What is registered for the card.
registered_text : uid_text bench card_byte 4 0 ≡ codes "0A1B2C3D"
unfolding uid_text
registered_text = refl

uid_text-not_uid_str_example : ¬ (uid_text bench card_byte 4 0 ≡ uid_str card_byte)
uid_text-not_uid_str_example =
    uid_text-not_uid_str bench print_hex-PrintsHex card card_byte card_byte_small (omega arith)
