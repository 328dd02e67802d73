-- ===== src/Devkit/Invariant/Loops.antt =====
-- The invariant and onLoop of the states.
use iot_repo.Base.{ℕ, ◌+◌, ◌≡◌, ◌∙◌, refl, sym, subst, Option, none, some, sub32, arith}
use iot_repo.Base.Int.{ℤ, pos, ◌≤ℤ◌}
use iot_repo.Board.{Board}
use iot_repo.Devkit.Commands.{start_blank}
use iot_repo.Devkit.DcMotor.{DcMotor, brake, drive}
use iot_repo.Devkit.DcMotor.Ramp
use iot_repo.Devkit.Loops.{
  hold_speed, idle_loop, watch_s6, conveying_loop, hold_slow_down, hold_blink, hold_motor,
  hold_timeout, camera_hold_loop, paused_loop, state_loop,
}
use iot_repo.Devkit.Machine.{
  StateId, idle, conveying, camera_hold, paused, error, Machine, send, sync_s6, track_s6,
  process_sorters,
}
use iot_repo.Devkit.Invariant.{IsSlowing, Holds, Inv}
use iot_repo.Devkit.Invariant.Same.{Same, Holds-same, Inv-Same}
use iot_repo.Devkit.Invariant.Transitions.{transition_conveying-Inv, transition_camera_hold-Inv}

module _ (b : Board) where
  process_sorters-Same : (m : Machine) → Same m (process_sorters b m)
  unfolding process_sorters
  process_sorters-Same m = record {
    current_state = refl;
    dc_motor = refl;
    servo_a = refl;
    servo_b = refl;
    dc_speed = refl;
    start_speed = refl;
    sort_deg_a = refl;
    sort_deg_b = refl;
    blank = refl;
  }

  idle_loop-Inv : (m : Machine) → Inv m → Inv (idle_loop b m)
  unfolding idle_loop
  idle_loop-Inv m i = Inv-Same m _ (ground arith) i

  -- The sorters' sensors do not touch what the invariant reads, however often the clock was read.
  sorters-Inv : (n : ℕ) (m : Machine) → Inv m → Inv (process_sorters b (record m { calls = n }))
  sorters-Inv n m i =
      let m' : Machine = record m { calls = n } in
      Inv-Same m' _ (process_sorters-Same m') (Inv-Same m m' (ground arith) i)

  paused_loop-Inv : (m : Machine) → Inv m → Inv (paused_loop b m)
  unfolding paused_loop
  paused_loop-Inv m i = sorters-Inv (m.calls + 1) m i

  track_s6-Inv : (m : Machine) → Inv m → Inv (track_s6 b m)
  unfolding track_s6
  track_s6-Inv m i = Inv-Same m _ (ground arith) i

  watch_s6-Inv : (now : ℕ) (m : Machine) → Inv m → Inv (watch_s6 b now m)
  unfolding watch_s6
  watch_s6-Inv now m i =
      let seen = track_s6-Inv m i in
      rw i.no_blank (
        ground (arith, seen, transition_camera_hold-Inv b (track_s6 b m) seen.limits seen.no_blank))

  conveying_loop-Inv : (m : Machine) → Inv m → Inv (conveying_loop b m)
  unfolding conveying_loop
  conveying_loop-Inv m i = watch_s6-Inv (b.millis m.calls) _ (sorters-Inv (m.calls + 1) m i)

  -- In CAMERA_HOLD the motor may be given any duty cycle of its range.
  new_motor-Inv :
      (m : Machine) (motor : DcMotor) (speed : ℤ) (n : ℕ)
      → m.current_state ≡ some camera_hold
      → Inv m
      → Ramp.InRange motor
      → pos 0 ≤ℤ speed
      → speed ≤ℤ pos 255
      → Inv (record m { dc_motor = motor; dc_soft_stop_start_speed = speed; calls = n })
  new_motor-Inv m motor speed n e i r lo hi =
      let m' : Machine = record m {
        dc_motor = motor;
        dc_soft_stop_start_speed = speed;
        calls = n;
      } in
      record {
        limits = ground arith;
        no_blank = i.no_blank;
        state = subst (λ s. Holds s m') (sym e) (record { start_low = lo; start_high = hi });
      }

  slowing : (m : Machine) → m.current_state ≡ some camera_hold → Inv m → IsSlowing m
  slowing m e i = subst (λ s. Holds s m) e i.state

  hold_slow_down-Inv :
      (m : Machine) → m.current_state ≡ some camera_hold → Inv m → Inv (hold_slow_down b m)
  unfolding hold_slow_down
  hold_slow_down-Inv m e i =
      let speed = m.dc_soft_stop_start_speed in
      let v = hold_speed speed (sub32 (b.millis m.calls) m.dc_soft_stop_start_ms) in
      let s = slowing m e i in
      let r = i.limits.motor in
      ground (
        arith,
        new_motor-Inv m (brake m.dc_motor) (pos 0) (m.calls + 1) e i
            (Ramp.brake-InRange m.dc_motor r) (omega arith) (omega arith),
        new_motor-Inv m (drive b v m.dc_motor) speed (m.calls + 1) e i
            (Ramp.drive-InRange b v m.dc_motor r) s.start_low s.start_high,
      )

  pub current_state-hold_slow_down :
      (m : Machine) → (hold_slow_down b m).current_state ≡ m.current_state
  unfolding hold_slow_down
  current_state-hold_slow_down m = ground arith

  hold_blink-Inv : (m : Machine) → Inv m → Inv (hold_blink b m)
  unfolding hold_blink
  hold_blink-Inv m i = Inv-Same m _ (ground arith) i

  hold_motor-Inv : (m : Machine) → m.current_state ≡ some camera_hold → Inv m → Inv (hold_motor b m)
  unfolding hold_motor
  hold_motor-Inv m e i =
      let s = slowing m e i in
      new_motor-Inv m _ _ _ e i (Ramp.update_soft_stop-InRange b m.calls m.dc_motor i.limits.motor)
        s.start_low s.start_high

  hold_timeout-Inv : (m : Machine) → Inv m → Inv (hold_timeout b m)
  unfolding hold_timeout
  hold_timeout-Inv m i =
      let held =
        send "CAMERA_TIMEOUT" (sync_s6 b (start_blank b (record m { calls = m.calls + 1 }))) in
      ground (
        arith,
        transition_conveying-Inv b held (ground arith)
            (Holds-same m held m.current_state refl refl refl i.state),
        Inv-Same m (record m { calls = m.calls + 1 }) (ground arith) i,
      )

  camera_hold_loop-Inv :
      (m : Machine) → m.current_state ≡ some camera_hold → Inv m → Inv (camera_hold_loop b m)
  unfolding camera_hold_loop
  camera_hold_loop-Inv m e i =
      let slowed = hold_slow_down-Inv m e i in
      let kept = current_state-hold_slow_down m ∙ e in
      let blinked = hold_blink-Inv (hold_slow_down b m) slowed in
      let moved =
        hold_motor-Inv (hold_blink b (hold_slow_down b m)) (unfold hold_blink in kept) blinked in
      hold_timeout-Inv _ (sorters-Inv _ _ moved)

  -- The handler of any state, and the invariant holds behind it.
  pub state_loop-Inv :
      (s : Option StateId) (m : Machine) → m.current_state ≡ s → Inv m → Inv (state_loop b s m)
  unfolding state_loop
  state_loop-Inv none m e i = i
  state_loop-Inv (some idle) m e i = idle_loop-Inv m i
  state_loop-Inv (some conveying) m e i = conveying_loop-Inv m i
  state_loop-Inv (some camera_hold) m e i = camera_hold_loop-Inv m e i
  state_loop-Inv (some paused) m e i = paused_loop-Inv m i
  state_loop-Inv (some error) m e i = absurd (subst (λ s. Holds s m) e i.state)
