-- ===== src/Devkit/Commands.antt =====
-- onCommand of the five states (fsm/*_state.cpp), and the callback of main.cpp that calls it.
use iot_repo.Base.{◌+◌, Bool, false, Option, none, some, add32, ◌==◌, if◌then◌else◌}
use iot_repo.Base.Int.{ℤ, pos, negsuc}
use iot_repo.Board.{Board}
use iot_repo.Devkit.Command.{
  CommandType, Command, sort_start, sort_stop, sort_pause, sort_resume, sort_dir_1l, sort_dir_2l,
  sort_dir_warn, dc_speed, servo_deg_a, servo_deg_b,
}
use iot_repo.Devkit.Config.{camera_blank_ms}
use iot_repo.Devkit.DcMotor.{drive}
use iot_repo.Devkit.ServoMotor.{ServoMotor, center, sort}
use iot_repo.Devkit.Machine.{
  StateId, idle, conveying, camera_hold, paused, error, Machine, send_status, sync_s6,
}
use iot_repo.Devkit.Mqtt.{is_unknown}
use iot_repo.Devkit.Transition.{transition}

-- `deg == 0` on an int.
abbrev pub is_zero : ℤ → Bool
is_zero (pos n) = n == 0
is_zero (negsuc n) = false

module _ (b : Board) where
  -- `if (deg == 0) center(); else sort(deg);`
  unfoldable pub move_servo : ℤ → ServoMotor → ServoMotor
  move_servo deg s = if is_zero deg then center b s else sort b deg s

  unfoldable pub set_speed : ℤ → Machine → Machine
  set_speed value m = record m { dc_speed = b.constrain value (pos 150) (pos 255) }

  unfoldable pub set_servo_a : ℤ → Machine → Machine
  set_servo_a value m =
      let deg = b.constrain value (pos 0) (pos 45) in
      record m { sort_deg_a = deg; servo_a = move_servo deg m.servo_a }

  unfoldable pub set_servo_b : ℤ → Machine → Machine
  set_servo_b value m =
      let deg = b.constrain value (pos 0) (pos 45) in
      record m { sort_deg_b = deg; servo_b = move_servo deg m.servo_b }

  unfoldable pub idle_command : CommandType → ℤ → Machine → Machine
  unfolding set_speed set_servo_a set_servo_b
  idle_command sort_start v m = transition b (some conveying) m
  idle_command sort_dir_1l v m = m
  idle_command sort_dir_2l v m = m
  idle_command dc_speed v m = set_speed v m
  idle_command servo_deg_a v m = set_servo_a v m
  idle_command servo_deg_b v m = set_servo_b v m
  idle_command _ v m = m

  unfoldable pub conveying_command : CommandType → ℤ → Machine → Machine
  unfolding send_status set_speed set_servo_a set_servo_b
  conveying_command sort_start v m = send_status "RUNNING" m
  conveying_command sort_stop v m = transition b (some idle) m
  conveying_command sort_pause v m = transition b (some paused) m
  conveying_command dc_speed v m =
      let m' = set_speed v m in record m' { dc_motor = drive b m'.dc_speed m'.dc_motor }
  conveying_command servo_deg_a v m = set_servo_a v m
  conveying_command servo_deg_b v m = set_servo_b v m
  conveying_command _ v m = m

  -- `cameraBlankUntil = millis() + CAMERA_BLANK_MS`, one call.
  unfoldable pub start_blank : Machine → Machine
  start_blank m = record m {
    camera_blank_until = add32 (b.millis m.calls) camera_blank_ms;
    calls = m.calls + 1;
  }

  -- What the three SORT_DIR commands and the timeout do.
  unfoldable pub release_hold : Machine → Machine
  unfolding start_blank sync_s6
  release_hold m = transition b (some conveying) (sync_s6 b (start_blank m))

  unfoldable pub camera_hold_command : CommandType → ℤ → Machine → Machine
  unfolding release_hold set_speed set_servo_a set_servo_b
  camera_hold_command sort_dir_1l v m = release_hold m
  camera_hold_command sort_dir_2l v m = release_hold m
  camera_hold_command sort_dir_warn v m = release_hold m
  camera_hold_command sort_stop v m = transition b (some idle) m
  camera_hold_command sort_pause v m = transition b (some paused) m
  camera_hold_command dc_speed v m = set_speed v m
  camera_hold_command servo_deg_a v m = set_servo_a v m
  camera_hold_command servo_deg_b v m = set_servo_b v m
  camera_hold_command _ v m = m

  unfoldable pub paused_command : CommandType → ℤ → Machine → Machine
  unfolding set_speed set_servo_a set_servo_b
  paused_command sort_resume v m = transition b (some conveying) m
  paused_command sort_dir_1l v m = m
  paused_command sort_dir_2l v m = m
  paused_command sort_stop v m = transition b (some idle) m
  paused_command dc_speed v m = set_speed v m
  paused_command servo_deg_a v m = set_servo_a v m
  paused_command servo_deg_b v m = set_servo_b v m
  paused_command _ v m = m

  unfoldable pub error_command : CommandType → ℤ → Machine → Machine
  error_command sort_stop v m = transition b (some idle) m
  error_command _ v m = m

  unfoldable pub state_command : StateId → CommandType → ℤ → Machine → Machine
  state_command idle t v m = idle_command t v m
  state_command conveying t v m = conveying_command t v m
  state_command camera_hold t v m = camera_hold_command t v m
  state_command paused t v m = paused_command t v m
  state_command error t v m = error_command t v m

  unfoldable pub command_in : Option StateId → Command → Machine → Machine
  command_in none cmd m = m
  command_in (some s) cmd m =
      if is_unknown cmd.type then m else state_command s cmd.type cmd.value m

  -- `onCommand` of main.cpp.
  unfoldable pub on_command : Command → Machine → Machine
  unfolding command_in
  on_command cmd m = command_in m.current_state cmd m
