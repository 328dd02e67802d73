-- ===== src/Devkit/ServoMotor/Angle.antt =====
-- The pulse widths that the servo driver commands.
use iot_repo.Base.{ℕ, ◌+◌, ◌-◌, ◌*◌, ◌/◌, ◌≤◌, ◌≡◌, ◌⊎◌, inl, inr, refl, arith}
use iot_repo.Base.Int.{ℤ, pos, negsuc, pos_part, neg_part, ◌+ℤ◌, ◌-ℤ◌, neg, ◌≤ℤ◌}
use iot_repo.Board.{Board}
use iot_repo.Board.Constrain.{constrain_bounds, constrain_inside}
use iot_repo.Devkit.ServoMotor.{ServoMotor, pulse_for, set_angle, center, sort, disable}

-- The range that `begin` sets, and a pulse that is off or inside the range.
pub record InRange (s : ServoMotor) : Type 0 where
  pub low : s.min_us ≡ pos 544
  pub high : s.max_us ≡ pos 2400
  pub pulse : (s.pulse_us ≡ 0) ⊎ ((544 ≤ s.pulse_us) × (s.pulse_us ≤ 2400))

pulse_for_exact :
    (s : ServoMotor) (d : ℕ)
    → s.min_us ≡ pos 544
    → s.max_us ≡ pos 2400
    → d ≤ 180
    → pulse_for s (pos d) ≡ 544 + 1856 * d / 180
unfolding pulse_for
pulse_for_exact s d lo hi h = ground arith

shifted :
    (d : ℤ)
    → negsuc 89 ≤ℤ d
    → d ≤ℤ pos 90
    → (d +ℤ pos 90 ≡ pos (90 + pos_part d - neg_part d)) × (90 + pos_part d - neg_part d ≤ 180)
unfolding ◌+ℤ◌
shifted d lo hi = ground arith

module _ (b : Board) where
  -- The pulse for an angle in the range of the driver: 544 us at -90 degrees, 2400 us at 90.
  pub pulse_us-set_angle :
      (deg : ℤ) (s : ServoMotor)
      → InRange s
      → negsuc 89 ≤ℤ deg
      → deg ≤ℤ pos 90
      → (set_angle b deg s).pulse_us ≡ 544 + 1856 * (90 + pos_part deg - neg_part deg) / 180
  unfolding set_angle
  pulse_us-set_angle deg s r lo hi =
      rw (constrain_inside b deg (negsuc 89) (pos 90) lo hi, (shifted deg lo hi).0)
        (pulse_for_exact s _ r.low r.high (shifted deg lo hi).1)

  -- Any angle at all, an int of any size, is driven to a pulse between the two limits.
  pub set_angle-InRange : (deg : ℤ) (s : ServoMotor) → InRange s → InRange (set_angle b deg s)
  unfolding set_angle
  set_angle-InRange deg s r =
      let d = b.constrain deg (negsuc 89) (pos 90) in
      let (lo, hi) = constrain_bounds b deg (negsuc 89) (pos 90) (omega arith) in
      let (e, k_le) = shifted d lo hi in
      let k = 90 + pos_part d - neg_part d in
      let exact = pulse_for_exact s k r.low r.high k_le in
      record { low = r.low; high = r.high; pulse = rw (e, exact) (inr (omega arith, omega arith)) }

  pub center-InRange : (s : ServoMotor) → InRange s → InRange (center b s)
  unfolding center
  center-InRange s r = set_angle-InRange (pos 0) s r

  pub sort-InRange : (deg : ℤ) (s : ServoMotor) → InRange s → InRange (sort b deg s)
  unfolding sort
  sort-InRange deg s r = set_angle-InRange (neg deg) s r

pub disable-InRange : (s : ServoMotor) → InRange s → InRange (disable s)
unfolding disable
disable-InRange s r = record { low = r.low; high = r.high; pulse = inl refl }

module _ (b : Board) where
  -- For angles up to 90 degrees, the wider the sorting angle the shorter the pulse, which is never
  -- longer than that of the centre, 1472 us.
  pub sort_antitone :
      (a c : ℕ) (s : ServoMotor)
      → InRange s
      → a ≤ c
      → c ≤ 90
      → ((sort b (pos c) s).pulse_us ≤ (sort b (pos a) s).pulse_us)
        × ((sort b (pos a) s).pulse_us ≤ (center b s).pulse_us)
        × ((center b s).pulse_us ≡ 1472)
  unfolding sort center neg ◌-ℤ◌
  sort_antitone a c s r ac c90 = ground (
    arith,
    pulse_us-set_angle b (neg (pos a)) s r,
    pulse_us-set_angle b (neg (pos c)) s r,
    pulse_us-set_angle b (pos 0) s r,
  )
