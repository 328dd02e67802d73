-- ===== src/Devkit/Invariant/Commands.antt =====
-- The invariant and onCommand of the states.
use iot_repo.Base.{◌≡◌, ◌≢◌, refl, sym, subst, inl, inr, Bool-cases, Option, none, some, arith}
use iot_repo.Base.Int.{ℤ, pos}
use iot_repo.Board.{Board}
use iot_repo.Board.Constrain.{constrain_bounds}
use iot_repo.Devkit.Command.{
  CommandType, Command, sort_start, sort_stop, sort_pause, sort_resume, sort_dir_1l, sort_dir_2l,
  sort_dir_warn, dc_speed, servo_deg_a, servo_deg_b,
}
use iot_repo.Devkit.Commands.{
  move_servo, set_speed, set_servo_a, set_servo_b, idle_command, conveying_command, start_blank,
  release_hold, camera_hold_command, paused_command, state_command, command_in, on_command,
}
use iot_repo.Devkit.DcMotor.{drive}
use iot_repo.Devkit.DcMotor.Ramp
use iot_repo.Devkit.ServoMotor.{ServoMotor}
use iot_repo.Devkit.ServoMotor.Angle
use iot_repo.Devkit.Mqtt.{is_unknown}
use iot_repo.Devkit.Machine.{StateId, idle, conveying, camera_hold, paused, error, Machine, sync_s6}
use iot_repo.Devkit.Invariant.{Limits, Holds, Inv}
use iot_repo.Devkit.Invariant.Same.{Holds-same, Inv-Same}
use iot_repo.Devkit.Invariant.Transitions.{
  drive_exact, transition_idle-Inv, transition_conveying-Inv, transition_paused-Inv,
}

module _ (b : Board) where
  move_servo-InRange :
      (deg : ℤ) (s : ServoMotor) → Angle.InRange s → Angle.InRange (move_servo b deg s)
  unfolding move_servo
  move_servo-InRange deg s r =
      ground (arith, Angle.center-InRange b s r, Angle.sort-InRange b deg s r)

  set_speed-Limits : (v : ℤ) (m : Machine) → Limits m → Limits (set_speed b v m)
  unfolding set_speed
  set_speed-Limits v m l = ground (arith, constrain_bounds b v (pos 150) (pos 255))

  set_servo_a-Limits : (v : ℤ) (m : Machine) → Limits m → Limits (set_servo_a b v m)
  unfolding set_servo_a
  set_servo_a-Limits v m l =
      let deg = b.constrain v (pos 0) (pos 45) in
      ground
        (arith, constrain_bounds b v (pos 0) (pos 45), move_servo-InRange deg m.servo_a l.pulse_a)

  set_servo_b-Limits : (v : ℤ) (m : Machine) → Limits m → Limits (set_servo_b b v m)
  unfolding set_servo_b
  set_servo_b-Limits v m l =
      let deg = b.constrain v (pos 0) (pos 45) in
      ground
        (arith, constrain_bounds b v (pos 0) (pos 45), move_servo-InRange deg m.servo_b l.pulse_b)

  -- The servos and, outside CONVEYING, the speed are set with no effect on the motor.
  set_servo_a-Holds :
      (v : ℤ) (m : Machine) (s : Option StateId) → Holds s m → Holds s (set_servo_a b v m)
  unfolding set_servo_a
  set_servo_a-Holds v m none h = h
  set_servo_a-Holds v m (some idle) h = ground arith
  set_servo_a-Holds v m (some conveying) h = ground arith
  set_servo_a-Holds v m (some camera_hold) h = ground arith
  set_servo_a-Holds v m (some paused) h = ground arith
  set_servo_a-Holds v m (some error) h = h

  set_servo_b-Holds :
      (v : ℤ) (m : Machine) (s : Option StateId) → Holds s m → Holds s (set_servo_b b v m)
  unfolding set_servo_b
  set_servo_b-Holds v m none h = h
  set_servo_b-Holds v m (some idle) h = ground arith
  set_servo_b-Holds v m (some conveying) h = ground arith
  set_servo_b-Holds v m (some camera_hold) h = ground arith
  set_servo_b-Holds v m (some paused) h = ground arith
  set_servo_b-Holds v m (some error) h = h

  set_servo_a-Inv : (v : ℤ) (m : Machine) → Inv m → Inv (set_servo_a b v m)
  set_servo_a-Inv v m i = record {
    limits = set_servo_a-Limits v m i.limits;
    no_blank = unfold set_servo_a in i.no_blank;
    state = unfold set_servo_a in set_servo_a-Holds v m m.current_state i.state;
  }

  set_servo_b-Inv : (v : ℤ) (m : Machine) → Inv m → Inv (set_servo_b b v m)
  set_servo_b-Inv v m i = record {
    limits = set_servo_b-Limits v m i.limits;
    no_blank = unfold set_servo_b in i.no_blank;
    state = unfold set_servo_b in set_servo_b-Holds v m m.current_state i.state;
  }

  -- At rest or slowing down, a new speed waits for the next start.
  set_speed-Holds :
      (v : ℤ) (m : Machine) (s : Option StateId)
      → s ≢ some conveying
      → Holds s m
      → Holds s (set_speed b v m)
  unfolding set_speed
  set_speed-Holds v m none n h = h
  set_speed-Holds v m (some idle) n h = ground arith
  set_speed-Holds v m (some conveying) n h = absurd (n refl)
  set_speed-Holds v m (some camera_hold) n h = ground arith
  set_speed-Holds v m (some paused) n h = ground arith
  set_speed-Holds v m (some error) n h = h

  set_speed-Inv :
      (v : ℤ) (m : Machine) → m.current_state ≢ some conveying → Inv m → Inv (set_speed b v m)
  set_speed-Inv v m n i = record {
    limits = set_speed-Limits v m i.limits;
    no_blank = unfold set_speed in i.no_blank;
    state = unfold set_speed in set_speed-Holds v m m.current_state n i.state;
  }

  -- In CONVEYING the motor follows the new speed.
  drive_speed-Inv :
      (v : ℤ) (m : Machine)
      → m.current_state ≡ some conveying
      → Inv m
      → let m' = set_speed b v m in Inv (record m' { dc_motor = drive b m'.dc_speed m'.dc_motor })
  unfolding set_speed
  drive_speed-Inv v m e i =
      let speed = b.constrain v (pos 150) (pos 255) in
      let (lo, hi) = constrain_bounds b v (pos 150) (pos 255) (omega arith) in
      let exact = drive_exact b speed m.dc_motor (omega arith) hi in
      let m' : Machine = record m { dc_speed = speed; dc_motor = drive b speed m.dc_motor } in
      record {
        limits = ground (arith, Ramp.drive-InRange b speed m.dc_motor i.limits.motor);
        no_blank = i.no_blank;
        state =
            subst (λ s. Holds s m') (sym e)
              (record {
                driven = exact.0;
                motor_steady = exact.1;
                steady = (subst (λ s. Holds s m) e i.state).steady;
              });
      }

  -- Holding is ended with a blanking time that CONVEYING drops at once.
  pub release_hold-Inv : (m : Machine) → Inv m → Inv (release_hold b m)
  unfolding release_hold
  release_hold-Inv m i =
      transition_conveying-Inv b (sync_s6 b (start_blank b m)) (ground arith)
        (Holds-same m _ m.current_state refl refl refl i.state)

  idle_command-Inv :
      (t : CommandType) (v : ℤ) (m : Machine)
      → m.current_state ≡ some idle
      → Inv m
      → Inv (idle_command b t v m)
  unfolding idle_command
  idle_command-Inv sort_start v m e i = transition_conveying-Inv b m i.limits i.state
  idle_command-Inv dc_speed v m e i = set_speed-Inv v m (λ p. cc) i
  idle_command-Inv servo_deg_a v m e i = set_servo_a-Inv v m i
  idle_command-Inv servo_deg_b v m e i = set_servo_b-Inv v m i
  idle_command-Inv _ v m e i = i

  conveying_command-Inv :
      (t : CommandType) (v : ℤ) (m : Machine)
      → m.current_state ≡ some conveying
      → Inv m
      → Inv (conveying_command b t v m)
  unfolding conveying_command
  conveying_command-Inv sort_start v m e i = Inv-Same m _ (ground arith) i
  conveying_command-Inv sort_stop v m e i = transition_idle-Inv b m i.limits
  conveying_command-Inv sort_pause v m e i = transition_paused-Inv b m i.limits i.no_blank i.state
  conveying_command-Inv dc_speed v m e i = drive_speed-Inv v m e i
  conveying_command-Inv servo_deg_a v m e i = set_servo_a-Inv v m i
  conveying_command-Inv servo_deg_b v m e i = set_servo_b-Inv v m i
  conveying_command-Inv _ v m e i = i

  camera_hold_command-Inv :
      (t : CommandType) (v : ℤ) (m : Machine)
      → m.current_state ≡ some camera_hold
      → Inv m
      → Inv (camera_hold_command b t v m)
  unfolding camera_hold_command
  camera_hold_command-Inv sort_dir_1l v m e i = release_hold-Inv m i
  camera_hold_command-Inv sort_dir_2l v m e i = release_hold-Inv m i
  camera_hold_command-Inv sort_dir_warn v m e i = release_hold-Inv m i
  camera_hold_command-Inv sort_stop v m e i = transition_idle-Inv b m i.limits
  camera_hold_command-Inv sort_pause v m e i = transition_paused-Inv b m i.limits i.no_blank i.state
  camera_hold_command-Inv dc_speed v m e i = set_speed-Inv v m (λ p. cc) i
  camera_hold_command-Inv servo_deg_a v m e i = set_servo_a-Inv v m i
  camera_hold_command-Inv servo_deg_b v m e i = set_servo_b-Inv v m i
  camera_hold_command-Inv _ v m e i = i

  paused_command-Inv :
      (t : CommandType) (v : ℤ) (m : Machine)
      → m.current_state ≡ some paused
      → Inv m
      → Inv (paused_command b t v m)
  unfolding paused_command
  paused_command-Inv sort_resume v m e i = transition_conveying-Inv b m i.limits i.state
  paused_command-Inv sort_stop v m e i = transition_idle-Inv b m i.limits
  paused_command-Inv dc_speed v m e i = set_speed-Inv v m (λ p. cc) i
  paused_command-Inv servo_deg_a v m e i = set_servo_a-Inv v m i
  paused_command-Inv servo_deg_b v m e i = set_servo_b-Inv v m i
  paused_command-Inv _ v m e i = i

  state_command-Inv :
      (s : StateId) (t : CommandType) (v : ℤ) (m : Machine)
      → m.current_state ≡ some s
      → Inv m
      → Inv (state_command b s t v m)
  unfolding state_command
  state_command-Inv idle t v m e i = idle_command-Inv t v m e i
  state_command-Inv conveying t v m e i = conveying_command-Inv t v m e i
  state_command-Inv camera_hold t v m e i = camera_hold_command-Inv t v m e i
  state_command-Inv paused t v m e i = paused_command-Inv t v m e i
  state_command-Inv error t v m e i = absurd (subst (λ s. Holds s m) e i.state)

  command_in-Inv :
      (s : Option StateId) (cmd : Command) (m : Machine)
      → m.current_state ≡ s
      → Inv m
      → Inv (command_in b s cmd m)
  unfolding command_in
  command_in-Inv none cmd m e i = i
  command_in-Inv (some s) cmd m e i = elim (Bool-cases (is_unknown cmd.type)) [
    | inl ignored ↦ rw ignored i
    | inr known ↦ rw known (state_command-Inv s cmd.type cmd.value m e i)
  ]

  -- Any command that the MQTT callback hands on keeps the invariant.
  pub on_command-Inv : (cmd : Command) (m : Machine) → Inv m → Inv (on_command b cmd m)
  unfolding on_command
  on_command-Inv cmd m i = command_in-Inv m.current_state cmd m refl i
