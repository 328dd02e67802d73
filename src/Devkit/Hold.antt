-- ===== src/Devkit/Hold.antt =====
-- Slowing down in CAMERA_HOLD, and what comes of the blanking of S6 behind it.
use native.Mathlib.Decide.{dec_lt}
use iot_repo.Base.{
  ℕ, zero, suc, ◌+◌, ◌-◌, ◌*◌, ◌/◌, ◌%◌, ◌^◌, ◌≤◌, ◌<◌, ◌≡◌, ◌∙◌, ap, sym, subst, refl, false, some,
  sub32, arith,
}
use iot_repo.Base.Int.{pos, ◌<ℤ◌}
use iot_repo.Board.{Board}
use iot_repo.Devkit.Commands.{release_hold}
use iot_repo.Devkit.DcMotor.{DcMotor, brake, drive, update_soft_stop}
use iot_repo.Devkit.DcMotor.Ramp.{drive_exact}
use iot_repo.Devkit.Loops.{
  hold_speed, hold_slow_down, hold_blink, hold_motor, hold_timeout, camera_hold_loop,
}
use iot_repo.Devkit.Machine.{conveying, Machine, process_sorters}
use iot_repo.Devkit.Transition.{transition}

product_small : (s e : ℕ) → s ≤ 255 → s * (450 - e) < 2 ^ 31
product_small s e h = grind arith

-- The speed that is left after `e` of the 450 ms.
hold_speed_exact : (s e : ℕ) → s ≤ 255 → hold_speed (pos s) e ≡ pos (s * (450 - e) / 450)
unfolding hold_speed
hold_speed_exact s e h =
    let small = product_small s e h in
    let once : s % 2 ^ 32 ≡ s = omega arith in
    let twice : (s * (450 - e)) % 2 ^ 32 ≡ s * (450 - e) = omega arith in
    rw (once, twice) (ground arith)

part_le : (s r : ℕ) → r ≤ 450 → s * r / 450 ≤ s
part_le s r h = grind arith

rest_le : (s e : ℕ) → s * (450 - e) / 450 ≤ s
rest_le s e = part_le s (450 - e) (omega arith)

rest_late : (s e : ℕ) → 450 ≤ e → s * (450 - e) / 450 ≡ 0
rest_late s e h = let gone : 450 - e ≡ 0 = omega arith in rw gone (omega arith)

rest_mono : (s e f : ℕ) → e ≤ f → s * (450 - f) / 450 ≤ s * (450 - e) / 450
rest_mono s e f h = grind arith

module _ (b : Board) where
  driven :
      (s e : ℕ) (m : Machine)
      → s ≤ 255
      → (drive b (hold_speed (pos s) e) m.dc_motor).duty ≡ 255 - s * (450 - e) / 450
  driven s e m h =
      ap (λ v. (drive b v m.dc_motor).duty) (hold_speed_exact s e h)
      ∙ drive_exact b (pos (s * (450 - e) / 450)) m.dc_motor (omega arith)
          (omega (arith, rest_le s e))

  -- The duty cycle behind the reading of the clock.
  hold_slow_down_exact :
      (s : ℕ) (m : Machine)
      → m.dc_soft_stop_start_speed ≡ pos s
      → 0 < s
      → s ≤ 255
      → (hold_slow_down b m).dc_motor.duty
        ≡ 255 - s * (450 - sub32 (b.millis m.calls) m.dc_soft_stop_start_ms) / 450
  unfolding hold_slow_down brake
  hold_slow_down_exact s m e positive h =
      let elapsed = sub32 (b.millis m.calls) m.dc_soft_stop_start_ms in
      ground (arith, driven s elapsed m h, rest_late s elapsed)

  stops_ramp :
      (m : Machine)
      → pos 0 <ℤ m.dc_soft_stop_start_speed
      → (hold_slow_down b m).dc_motor.soft_stopping ≡ false
  unfolding hold_slow_down brake drive
  stops_ramp m positive = ground arith

  -- While the Context slows the motor down, the motor driver's own ramp leaves the motor as it is.
  pub hold_motor_unused :
      (m : Machine)
      → pos 0 <ℤ m.dc_soft_stop_start_speed
      → (hold_motor b (hold_blink b (hold_slow_down b m))).dc_motor ≡ (hold_slow_down b m).dc_motor
  unfolding hold_motor hold_blink update_soft_stop
  hold_motor_unused m positive = rw (stops_ramp m positive)

  -- A pass in CAMERA_HOLD up to the look at the time out.
  pub motion : Machine → Machine
  motion m =
      let m' = hold_motor b (hold_blink b (hold_slow_down b m)) in
      process_sorters b (record m' { calls = m'.calls + 1 })

  pub motions : ℕ → Machine → Machine
  motions zero m = m
  motions (suc k) m = motions k (motion m)

  -- The motor stands still, and nothing slows it down any more.
  record IsStill (m : Machine) : Type 0 where
    over : m.dc_soft_stop_start_speed ≡ pos 0
    ramp_off : m.dc_motor.soft_stopping ≡ false
    braked : m.dc_motor.duty ≡ 255

  motion-IsStill : (m : Machine) → IsStill m → IsStill (motion m)
  unfolding motion process_sorters hold_slow_down hold_motor hold_blink update_soft_stop
  motion-IsStill m h = ground arith

  motions_braked : (k : ℕ) (m : Machine) → IsStill m → (motions k m).dc_motor.duty ≡ 255
  unfolding motions
  motions_braked zero m h = h.braked
  motions_braked (suc k) m h = motions_braked k (motion m) (motion-IsStill m h)

  -- Behind one pass with that speed at the start: the motor slows down, or it stands for good.
  pub data Slowing (s : ℕ) (m x : Machine) : Type 0 where
    slows :
        sub32 (b.millis m.calls) m.dc_soft_stop_start_ms < 450
        → x.dc_motor.duty ≡ 255 - s * (450 - sub32 (b.millis m.calls) m.dc_soft_stop_start_ms) / 450
        → x.dc_soft_stop_start_speed ≡ pos s
        → x.dc_soft_stop_start_ms ≡ m.dc_soft_stop_start_ms
        → Slowing s m x
    stands :
        450 ≤ sub32 (b.millis m.calls) m.dc_soft_stop_start_ms
        → ((k : ℕ) → (motions k x).dc_motor.duty ≡ 255)
        → Slowing s m x

  motion_duty :
      (s : ℕ) (m : Machine)
      → m.dc_soft_stop_start_speed ≡ pos s
      → 0 < s
      → s ≤ 255
      → (motion m).dc_motor.duty
        ≡ 255 - s * (450 - sub32 (b.millis m.calls) m.dc_soft_stop_start_ms) / 450
  unfolding motion process_sorters
  motion_duty s m e positive h =
      ap (λ (x : DcMotor). x.duty)
        (hold_motor_unused m (subst (λ v. pos 0 <ℤ v) (sym e) (ground arith)))
      ∙ hold_slow_down_exact s m e positive h

  motion_slows :
      (s : ℕ) (m : Machine)
      → m.dc_soft_stop_start_speed ≡ pos s
      → 0 < s
      → sub32 (b.millis m.calls) m.dc_soft_stop_start_ms < 450
      → ((motion m).dc_soft_stop_start_speed ≡ pos s)
        × ((motion m).dc_soft_stop_start_ms ≡ m.dc_soft_stop_start_ms)
  unfolding motion process_sorters hold_slow_down hold_motor hold_blink
  motion_slows s m e positive early = ground arith

  motion_stops :
      (s : ℕ) (m : Machine)
      → m.dc_soft_stop_start_speed ≡ pos s
      → 0 < s
      → 450 ≤ sub32 (b.millis m.calls) m.dc_soft_stop_start_ms
      → IsStill (motion m)
  unfolding motion process_sorters hold_slow_down hold_motor hold_blink update_soft_stop brake
  motion_stops s m e positive late = ground arith

  motion_lem :
      (s : ℕ) (m : Machine)
      → m.dc_soft_stop_start_speed ≡ pos s
      → 0 < s
      → s ≤ 255
      → Slowing s m (motion m)
  motion_lem s m e positive h =
      let elapsed = sub32 (b.millis m.calls) m.dc_soft_stop_start_ms in
      elim (dec_lt elapsed 450) [
        | yes early ↦
            let (speed, start) = motion_slows s m e positive early in
            slows early (motion_duty s m e positive h) speed start
        | no late ↦
            let over : 450 ≤ elapsed = omega arith in
            stands over (λ k. motions_braked k (motion m) (motion_stops s m e positive over))
      ]

  -- From a set speed of 1 to 255, a pass in CAMERA_HOLD is what it does up to the look at the time
  -- out, and that look. In the first part, a pass that reads the clock less than 450 ms behind the
  -- start of the slowing down sets the duty cycle to the complement of a speed that falls in a
  -- straight line to 0 in 450 ms, and keeps the set speed and the time for the next pass; one that
  -- reads it 450 ms or more behind the start brakes the motor, and it stays braked through any
  -- number of further passes of the hold, whatever the clock reads.
  pub motion-Slowing :
      (s : ℕ) (m : Machine)
      → m.dc_soft_stop_start_speed ≡ pos s
      → 0 < s
      → s ≤ 255
      → (camera_hold_loop b m ≡ hold_timeout b (motion m)) × Slowing s m (motion m)
  unfolding camera_hold_loop motion
  motion-Slowing s m e positive h = (refl, motion_lem s m e positive h)

  -- The release of a hold ends in CONVEYING with no blanking in force.
  pub release_hold_blanks_nothing :
      (m : Machine)
      → ((release_hold b m).camera_blank_until ≡ 0)
        × ((release_hold b m).current_state ≡ some conveying)
  unfolding release_hold transition
  release_hold_blanks_nothing m = (refl, refl)
