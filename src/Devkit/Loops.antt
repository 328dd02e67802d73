-- ===== src/Devkit/Loops.antt =====
-- onLoop of the five states (fsm/*_state.cpp).
use iot_repo.Base.{
  ℕ, ◌+◌, ◌-◌, ◌*◌, ◌/◌, ◌%◌, ◌^◌, true, false, not, ◌&&◌, Option, none, some, ltb, leb, sub32,
  if◌then◌else◌,
}
use iot_repo.Base.Int.{ℤ, pos, ltb_ℤ, to_u32, to_int}
use iot_repo.Board.{Board}
use iot_repo.Devkit.Commands.{start_blank}
use iot_repo.Devkit.Config.{camera_wait_max_ms, dc_soft_stop_duration_ms, led_blink_ms}
use iot_repo.Devkit.DcMotor.{brake, drive, update_soft_stop}
use iot_repo.Devkit.RgbLed.{update_blink}
use iot_repo.Devkit.ProximitySensor.{is_detected}
use iot_repo.Devkit.Machine.{
  StateId, idle, conveying, camera_hold, paused, error, Machine, send, sync_s6, track_s6,
  process_sorters,
}
use iot_repo.Devkit.Transition.{transition}

-- `(int)((unsigned long)start * (duration - elapsed) / duration)`, raised to 0.
unfoldable pub hold_speed : ℤ → ℕ → ℤ
hold_speed start elapsed =
    let speed =
      to_int (
        (to_u32 start * (dc_soft_stop_duration_ms - elapsed))
        % 2 ^ 32
        / dc_soft_stop_duration_ms) in
    if ltb_ℤ speed (pos 0) then pos 0 else speed

module _ (b : Board) where
  unfoldable pub idle_loop : Machine → Machine
  idle_loop m =
      let s = m.sensors in
      let t5 = is_detected b m.calls s.s5 in
      let t3 = is_detected b (m.calls + 2) s.s3 in
      let t4 = is_detected b (m.calls + 4) s.s4 in
      record m {
        sensors = record s {
          s3 = t3;
          s4 = t4;
          s5 = t5;
          s3_prev = t3.stable_state;
          s4_prev = t4.stable_state;
          s5_prev = t5.stable_state;
        };
        calls = m.calls + 6;
      }

  -- While blanking, S6 is only tracked. `now` is the reading of the clock at the head of the pass.
  unfoldable pub watch_s6 : ℕ → Machine → Machine
  unfolding track_s6 sync_s6
  watch_s6 now m =
      let seen = track_s6 b m in
      if ltb 0 m.camera_blank_until
      then (if leb m.camera_blank_until now
          then sync_s6 b (record m { camera_blank_until = 0 })
          else seen)
      else if seen.sensors.s6_prev && not m.sensors.s6_prev
      then transition b (some camera_hold) seen
      else seen

  unfoldable pub conveying_loop : Machine → Machine
  unfolding process_sorters watch_s6
  conveying_loop m =
      watch_s6 (b.millis m.calls) (process_sorters b (record m { calls = m.calls + 1 }))

  -- The slowing down that the Context keeps, over DC_SOFT_STOP_DURATION_MS.
  unfoldable pub hold_slow_down : Machine → Machine
  hold_slow_down m =
      let elapsed = sub32 (b.millis m.calls) m.dc_soft_stop_start_ms in
      let m' = record m { calls = m.calls + 1 } in
      if ltb_ℤ (pos 0) m.dc_soft_stop_start_speed
      then (if leb dc_soft_stop_duration_ms elapsed
          then record m' { dc_motor = brake m.dc_motor; dc_soft_stop_start_speed = pos 0 }
          else record m' {
            dc_motor = drive b (hold_speed m.dc_soft_stop_start_speed elapsed) m.dc_motor;
          })
      else m

  unfoldable pub hold_blink : Machine → Machine
  hold_blink m = record m {
    led = update_blink b m.calls led_blink_ms false true false m.led;
    calls = m.calls + 1;
  }

  unfoldable pub hold_motor : Machine → Machine
  hold_motor m =
      let (motor, done, n) = update_soft_stop b m.calls m.dc_motor in
      record m { dc_motor = motor; calls = n }

  unfoldable pub hold_timeout : Machine → Machine
  unfolding start_blank sync_s6 send
  hold_timeout m =
      let m' = record m { calls = m.calls + 1 } in
      if leb camera_wait_max_ms (sub32 (b.millis m.calls) m.enter_ms)
      then transition b (some conveying) (send "CAMERA_TIMEOUT" (sync_s6 b (start_blank b m')))
      else m'

  -- `processSorters(millis())` reads the clock once more.
  unfoldable pub camera_hold_loop : Machine → Machine
  unfolding hold_slow_down hold_blink hold_motor process_sorters hold_timeout
  camera_hold_loop m =
      let m' = hold_motor (hold_blink (hold_slow_down m)) in
      hold_timeout (process_sorters b (record m' { calls = m'.calls + 1 }))

  unfoldable pub paused_loop : Machine → Machine
  unfolding process_sorters
  paused_loop m = process_sorters b (record m { calls = m.calls + 1 })

  unfoldable pub error_loop : Machine → Machine
  error_loop m = record m {
    led = update_blink b m.calls led_blink_ms true false false m.led;
    calls = m.calls + 1;
  }

  unfoldable pub state_loop : Option StateId → Machine → Machine
  state_loop none m = m
  state_loop (some idle) m = idle_loop m
  state_loop (some conveying) m = conveying_loop m
  state_loop (some camera_hold) m = camera_hold_loop m
  state_loop (some paused) m = paused_loop m
  state_loop (some error) m = error_loop m
