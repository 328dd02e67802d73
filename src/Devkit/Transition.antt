-- ===== src/Devkit/Transition.antt =====
-- Context::transition (fsm/context.cpp), with the onEnter and onExit of the five states.
use iot_repo.Base.{◌+◌, Option, none, some, ltb, if◌then◌else◌}
use iot_repo.Base.Int.{pos}
use iot_repo.Board.{Board}
use iot_repo.Devkit.DcMotor.{brake, drive, start_soft_stop}
use iot_repo.Devkit.ServoMotor.{center, disable}
use iot_repo.Devkit.RgbLed.{red, green, yellow, stop_blink}
use iot_repo.Devkit.Config.{dc_soft_stop_duration_ms, soft_stop_duration_ms}
use iot_repo.Devkit.Machine.{
  StateId, idle, conveying, camera_hold, paused, error, Machine, flush_all, send, send_status,
  sync_all_sensors,
}

-- The delay of 200 ms between the servos' centring and their release only lets time pass.
module _ (b : Board) where
  unfoldable pub idle_enter : Machine → Machine
  unfolding flush_all send_status
  idle_enter m = send_status "IDLE" (
      flush_all (record m {
        dc_motor = brake m.dc_motor;
        servo_a = disable (center b m.servo_a);
        servo_b = disable (center b m.servo_b);
        led = red m.led;
      }))

  unfoldable pub conveying_enter : Machine → Machine
  unfolding send_status sync_all_sensors
  conveying_enter m =
      send_status "RUNNING"
        (record (sync_all_sensors b
          (record m { dc_motor = drive b m.dc_speed m.dc_motor; led = green m.led })) {
            camera_blank_until = 0;
          })

  -- Three readings of the clock: the motor's, `_enterMs`, and that of the Context.
  unfoldable pub camera_hold_enter : Machine → Machine
  unfolding send
  camera_hold_enter m =
      let n = m.calls in
      let started = record m {
        dc_motor = start_soft_stop b n m.dc_speed soft_stop_duration_ms m.dc_motor;
        enter_ms = b.millis (n + 1);
        calls = n + 2;
      } in
      send "CAMERA_DETECT" (
        if ltb 0 dc_soft_stop_duration_ms
        then record started {
          dc_soft_stop_start_speed = m.dc_speed;
          dc_soft_stop_start_ms = b.millis (n + 2);
          calls = n + 3;
        }
        else record started { dc_motor = brake started.dc_motor })

  unfoldable pub paused_enter : Machine → Machine
  unfolding send_status
  paused_enter m =
      send_status "PAUSED" (record m { dc_motor = brake m.dc_motor; led = yellow m.led })

  unfoldable pub error_enter : Machine → Machine
  unfolding flush_all send_status
  error_enter m = send_status "ERROR" (
      flush_all (record m {
        dc_motor = brake m.dc_motor;
        servo_a = center b m.servo_a;
        servo_b = center b m.servo_b;
      }))

  unfoldable pub on_enter : StateId → Machine → Machine
  unfolding idle_enter conveying_enter camera_hold_enter paused_enter error_enter
  on_enter idle m = idle_enter m
  on_enter conveying m = conveying_enter m
  on_enter camera_hold m = camera_hold_enter m
  on_enter paused m = paused_enter m
  on_enter error m = error_enter m

unfoldable pub on_exit : StateId → Machine → Machine
on_exit idle m = m
on_exit conveying m = m
on_exit camera_hold m = record m { dc_soft_stop_start_speed = pos 0; led = stop_blink m.led }
on_exit paused m = m
on_exit error m = record m { led = stop_blink m.led }

unfoldable pub leave : Option StateId → Machine → Machine
unfolding on_exit
leave none m = m
leave (some s) m = on_exit s m

module _ (b : Board) where
  unfoldable pub enter : Option StateId → Machine → Machine
  unfolding on_enter
  enter none m = m
  enter (some s) m = on_enter b s m

  unfoldable pub transition : Option StateId → Machine → Machine
  unfolding leave enter
  transition new_state m =
      enter new_state (record (leave m.current_state m) { current_state = new_state })
