-- ===== src/Devkit/DcMotor/Ramp.antt =====
-- The duty cycle that the motor driver commands, and its linear slowing down.
use iot_repo.Base.{ℕ, ◌+◌, ◌-◌, ◌*◌, ◌^◌, ◌≤◌, ◌<◌, ◌≡◌, ap, ◌∙◌, sub32, arith}
use iot_repo.Base.Int.{ℤ, pos, pos_part, ◌-ℤ◌, ◌≤ℤ◌, to_u32}
use iot_repo.Board.{Board}
use iot_repo.Board.Constrain.{constrain_bounds, constrain_inside}
use iot_repo.Devkit.DcMotor.{DcMotor, brake, drive, start_soft_stop, ramp_speed, update_soft_stop}

-- The duty cycle of the 8-bit channel and the speed at which a soft stop started.
pub record InRange (m : DcMotor) : Type 0 where
  pub duty : m.duty ≤ 255
  pub start_low : pos 0 ≤ℤ m.soft_start_speed
  pub start_high : m.soft_start_speed ≤ℤ pos 255

pub brake-InRange : (m : DcMotor) → InRange m → InRange (brake m)
unfolding brake
brake-InRange m r = ground arith

duty_of : (v : ℤ) → pos 0 ≤ℤ v → v ≤ℤ pos 255 → to_u32 (pos 255 -ℤ v) ≡ 255 - pos_part v
unfolding ◌-ℤ◌
duty_of v lo hi = ground arith

product_small : (start e d : ℕ) → start ≤ 255 → d ≤ 2 ^ 20 → e < d → start * e < 2 ^ 31
product_small start e d s h k = grind arith

module _ (b : Board) where
  drive_duty :
      (speed : ℤ) (m : DcMotor)
      → (drive b speed m).duty ≡ 255 - pos_part (b.constrain speed (pos 0) (pos 255))
  unfolding drive
  drive_duty speed m =
      let (lo, hi) = constrain_bounds b speed (pos 0) (pos 255) (omega arith) in duty_of _ lo hi

  -- A speed of the channel's range is driven as its complement.
  pub drive_exact :
      (speed : ℤ) (m : DcMotor)
      → pos 0 ≤ℤ speed
      → speed ≤ℤ pos 255
      → (drive b speed m).duty ≡ 255 - pos_part speed
  drive_exact speed m lo hi =
      drive_duty speed m
      ∙ ap (λ v. 255 - pos_part v) (constrain_inside b speed (pos 0) (pos 255) lo hi)

  pub drive-InRange : (speed : ℤ) (m : DcMotor) → InRange m → InRange (drive b speed m)
  drive-InRange speed m r = record {
    duty = omega (arith, drive_duty speed m);
    start_low = unfold drive in r.start_low;
    start_high = unfold drive in r.start_high;
  }

  pub start_soft_stop-InRange :
      (n : ℕ) (speed : ℤ) (duration : ℕ) (m : DcMotor)
      → InRange m
      → InRange (start_soft_stop b n speed duration m)
  unfolding start_soft_stop
  start_soft_stop-InRange n speed duration m r =
      let (lo, hi) = constrain_bounds b speed (pos 0) (pos 255) (omega arith) in
      record { duty = r.duty; start_low = lo; start_high = hi }

  ramp_speed_bounds :
      (e : ℕ) (m : DcMotor) → (pos 0 ≤ℤ ramp_speed b e m) × (ramp_speed b e m ≤ℤ pos 255)
  unfolding ramp_speed
  ramp_speed_bounds e m = constrain_bounds b _ (pos 0) (pos 255) (omega arith)

  ramp_duty : (e : ℕ) (m : DcMotor) → to_u32 (pos 255 -ℤ ramp_speed b e m) ≤ 255
  ramp_duty e m =
      let (lo, hi) = ramp_speed_bounds e m in omega (arith, duty_of (ramp_speed b e m) lo hi)

  -- Whatever the clock says, one update keeps the duty cycle in the range of the channel.
  pub update_soft_stop-InRange :
      (n : ℕ) (m : DcMotor) → InRange m → InRange (update_soft_stop b n m).0
  unfolding update_soft_stop
  update_soft_stop-InRange n m r = ground (arith, ramp_duty (sub32 (b.millis n) m.soft_start_ms) m)

  -- The clock is read once at most.
  pub update_soft_stop_calls :
      (n : ℕ) (m : DcMotor)
      → (n ≤ (update_soft_stop b n m).2) × ((update_soft_stop b n m).2 ≤ n + 1)
  unfolding update_soft_stop
  update_soft_stop_calls n m = ground arith
