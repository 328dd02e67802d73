-- ===== src/Base/Atoi.antt =====
-- `atoi` of the C library of the ESP32: strtol in base 10, which saturates at a 32-bit long.
use Prim.Native.Nat.{ℕ, ◌+◌, ◌-◌, ◌*◌, ◌^◌, ◌≤◌, ◌<◌, min}
use mathlib.Core.Path.{◌≡◌, refl}
use mathlib.Core.Bool.{Bool, ◌&&◌, ◌||◌}
use mathlib.Core.List.{[], ◌∷◌, foldl}
use native.Mathlib.Omega.{arith}
use iot_repo.Base.Tests.{leb, ◌==◌, if◌then◌else◌}
use iot_repo.Base.Lists.{All}
use iot_repo.Base.Int.{ℤ, pos, neg}
use iot_repo.Base.Text.{Bytes}

abbrev pub is_digit : ℕ → Bool
is_digit c = leb b'0' c && leb c b'9'

abbrev pub is_space : ℕ → Bool
is_space c = c == 32 || (leb 9 c && leb c 13)

-- The number that the leading digits spell behind `acc`.
unfoldable pub scan_digits : ℕ → Bytes → ℕ
scan_digits acc [] = acc
scan_digits acc (c ∷ s) =
    let rest = scan_digits (acc * 10 + (c - b'0')) s in if is_digit c then rest else acc

unfoldable pub signed_digits : Bytes → ℤ
unfolding scan_digits neg
signed_digits [] = pos 0
signed_digits (c ∷ s) =
    if c == b'-'
    then neg (pos (min (scan_digits 0 s) (2 ^ 31)))
    else pos (min (scan_digits 0 (if c == b'+' then s else c ∷ s)) (2 ^ 31 - 1))

unfoldable pub atoi : Bytes → ℤ
unfolding signed_digits
atoi [] = pos 0
atoi (c ∷ s) = let rest = atoi s in if is_space c then rest else signed_digits (c ∷ s)

abbrev pub IsDigit : ℕ → Type 0
IsDigit c = (b'0' ≤ c) × (c ≤ b'9')

-- The number that digits spell behind `acc`.
abbrev pub decimal : ℕ → Bytes → ℕ
decimal = foldl (λ n c. n * 10 + (c - b'0'))

scan_digits-decimal : (ds : Bytes) (acc : ℕ) → All IsDigit ds → scan_digits acc ds ≡ decimal acc ds
unfolding scan_digits
scan_digits-decimal [] acc h = refl
scan_digits-decimal (c ∷ ds) acc h =
    ground (arith, scan_digits-decimal ds (acc * 10 + (c - b'0')) h.1)

pub atoi-decimal :
    (ds : Bytes) → All IsDigit ds → decimal 0 ds < 2 ^ 31 → atoi ds ≡ pos (decimal 0 ds)
unfolding atoi signed_digits
atoi-decimal [] h small = refl
atoi-decimal (c ∷ ds) h small = ground (arith, scan_digits-decimal (c ∷ ds) 0 h)
