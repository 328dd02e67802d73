-- ===== src/Register/Cards.antt =====
-- What the kit prints for a card, beside what the door publishes for it.
use iot_repo.Base.{
  ℕ, zero, suc, ◌+◌, ◌*◌, ◌≡◌, ◌≢◌, ◌≤◌, ◌/◌, ◌%◌, ltb→lt, suc, ◌<◌, refl, ap₂, [], ◌∷◌, length,
  length-append, ltb, inl, inr, arith, ap, Bool-cases,
}
use iot_repo.Base.Text.{Bytes}
use iot_repo.Access.{hex_digit, hex_byte, uid_str}
use iot_repo.Register.{Uid, Kit, print_byte, uid_text}

-- Print::print(n, HEX) prints the digits of n in base 16, in capitals and without a leading 0.
pub record PrintsHex (print_hex : ℕ → Bytes) : Type 0 where
  pub one_digit : (n : ℕ) → n < 16 → print_hex n ≡ hex_digit n ∷ []
  pub two_digits : (n : ℕ) → 16 ≤ n → n < 256 → print_hex n ≡ hex_byte n

leading_zero : (n : ℕ) → n < 16 → b'0' ∷ hex_digit n ∷ [] ≡ hex_byte n
leading_zero n h =
    let high : 0 ≡ n / 16 = omega arith in
    let low : n ≡ n % 16 = omega arith in ap₂ (λ x y. hex_digit x ∷ hex_digit y ∷ []) high low

length-uid_str : (sn : ℕ → ℕ) → length (uid_str sn) ≡ 10
unfolding uid_str
length-uid_str sn = refl

module _ (b : Kit) (hex : PrintsHex b.print_hex) where
  print_byte-hex_byte : (n : ℕ) → n < 256 → print_byte b n ≡ hex_byte n
  unfolding print_byte
  print_byte-hex_byte n h = elim (Bool-cases (ltb n 0x10)) [
    | inl small ↦
        rw (small, hex.one_digit n (ground (arith, small))) (leading_zero n (ltb→lt n 16 small))
    | inr large ↦ rw (large, hex.two_digits n (ground (arith, large)) h) refl
  ]

  length-uid_text :
      (uid_byte : ℕ → ℕ) (left i : ℕ)
      → ((j : ℕ) → uid_byte j < 256)
      → length (uid_text b uid_byte left i) ≡ left * 2
  unfolding uid_text
  length-uid_text uid_byte zero i small = refl
  length-uid_text uid_byte (suc left) i small = omega (
    arith,
    length-append (print_byte b (uid_byte i)) (uid_text b uid_byte left (i + 1)),
    ap length (print_byte-hex_byte (uid_byte i) (small i)),
    length-uid_text uid_byte left (i + 1) small,
  )

  -- Where Serial.print prints hexadecimal digits in capitals and without a leading zero, the text
  -- that is registered for a card whose UID is not five bytes long (each below 256) is never a text
  -- that the door publishes, whatever bytes the door reads.
  pub uid_text-not_uid_str :
      (uid : Uid) (sn : ℕ → ℕ)
      → ((j : ℕ) → uid.uid_byte j < 256)
      → uid.size ≢ 5
      → ¬ (uid_text b uid.uid_byte uid.size 0 ≡ uid_str sn)
  uid_text-not_uid_str uid sn small other e =
      other (
        omega
          (arith, ap length e, length-uid_str sn, length-uid_text uid.uid_byte uid.size 0 small))
