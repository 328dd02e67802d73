-- ===== src/Devkit/Tests.antt =====
-- Runs of the conveyor firmware at concrete inputs.
use iot_repo.Base.{
  ltb, ℕ, ◌*◌, ◌≤◌, ◌≡◌, ◌≢◌, refl, Bool, true, false, [], ◌∷◌, ◌++◌, some, if◌then◌else◌, arith,
}
use iot_repo.Base.Int.{pos, ltb_ℤ}
use iot_repo.Base.Text.{codes}
use iot_repo.Board.{Message, Board}
use iot_repo.Devkit.Command.{sort_start, sort_dir_warn, plain, parse, unknown}
use iot_repo.Devkit.Command.Wire.{Spells, parse_sound}
use iot_repo.Devkit.Commands.{on_command}
use iot_repo.Devkit.DcMotor.{DcMotor, brake}
use iot_repo.Devkit.Diagram.{next, current_state-on_command, camera_hold_loop_times_out}
use iot_repo.Devkit.Hold.{Slowing, motion, motion-Slowing}
use iot_repo.Devkit.Arrival.{Says, Noticed, conveying_loop-Noticed}
use iot_repo.Devkit.Invariant.{Inv}
use iot_repo.Devkit.Invariant.Reach.{run-Inv}
use iot_repo.Devkit.Loops.{conveying_loop, camera_hold_loop, hold_slow_down, hold_timeout}
use iot_repo.Devkit.Machine.{conveying, camera_hold, Machine, process_sorters}
use iot_repo.Devkit.Main.{fresh, run}
use iot_repo.Devkit.Mqtt.{raw_callback}
use iot_repo.Devkit.ProximitySensor.{ProximitySensor, read_raw, detects, is_detected, debounce}
use iot_repo.Devkit.ProximitySensor
use iot_repo.Devkit.ProximitySensor.Debounce.{Sample, replay, settled, stable_state-replay}
use iot_repo.Devkit.ServoMotor.{ServoMotor, center, sort, set_angle}
use iot_repo.Devkit.ServoMotor
use iot_repo.Devkit.Protocol.{Follows}
use iot_repo.Devkit.Protocol.Runs.{run-Traced}
use iot_repo.Devkit.Transition.{transition}
use iot_repo.Devkit.Wifi.{Wifi}
use iot_repo.Devkit.Sorters.{Asked, events, effects-process_sorters}

abbrev start_message : Message
start_message = record { topic = codes "device/control"; payload = codes "SORT_START" }

-- A board with the given clock and link, on which every sensor sees something and each delivery
-- brings one SORT_START.
abbrev bench : (ℕ → ℕ) → Bool → Board
bench clock up = record {
  millis = clock;
  digital_read = λ pin n. 0;
  analog_read = λ pin n. 900;
  mqtt_connected = λ n. up;
  mqtt_connect = λ n. true;
  mqtt_loop = λ n. start_message ∷ [];
  constrain = λ x lo hi. if ltb_ℤ x lo then lo else if ltb_ℤ hi x then hi else x;
  constrain_lem = λ x lo hi. refl;
}

abbrev ticking : Board
ticking = bench (λ n. 20 * n) true

abbrev in_conveying : Machine
in_conveying = record fresh { current_state = some conveying }

-- A hold that began at 4000 ms, at the default speed.
abbrev in_hold : Machine
in_hold = record fresh {
  current_state = some camera_hold;
  enter_ms = 4000;
  dc_soft_stop_start_speed = pos 175;
  dc_soft_stop_start_ms = 4000;
}

run-Inv_example : Inv (run ticking 4 "192.168.0.2")
run-Inv_example = run-Inv ticking 4 "192.168.0.2"

current_state-on_command_example :
    (on_command ticking (plain sort_dir_warn) in_hold).current_state
    ≡ some (next camera_hold sort_dir_warn)
current_state-on_command_example =
    current_state-on_command ticking camera_hold (plain sort_dir_warn) in_hold refl

abbrev stuck : ℕ → Board
stuck t = bench (λ n. t) true

-- S6 has seen something since 100 ms, and is not remembered as detected.
abbrev arriving : Machine
arriving = record in_conveying {
  sensors = record (fresh.sensors) {
    s6 = record (ProximitySensor.fresh) {
      is_digital = true;
      active_low = true;
      last_state = true;
      last_change = 100;
    };
  };
}

arriving-Says : (n : ℕ) → arriving.calls ≤ n → Says (stuck 5000) arriving.sensors.s6 n
unfolding detects read_raw
arriving-Says n later = refl

conveying_loop-Noticed_example : Noticed (stuck 5000) arriving
conveying_loop-Noticed_example =
    conveying_loop-Noticed (stuck 5000) arriving refl refl refl arriving-Says
      (λ n later soon. omega arith)

-- It is announced.
arriving_announced : (conveying_loop (stuck 5000) arriving).current_state ≡ some camera_hold
unfolding conveying_loop is_detected transition
arriving_announced = refl

camera_hold_loop_times_out_example :
    (camera_hold_loop (stuck 5000) in_hold).current_state ≡ some conveying
camera_hold_loop_times_out_example =
    camera_hold_loop_times_out (stuck 5000) in_hold (λ n later. omega arith)

known : (parse (codes "SERVO_B:30")).type ≢ unknown
unfolding parse
known h = cc

heard :
    raw_callback (record (fresh.mqtt) { has_callback = true }) start_message
    ≡ some (plain sort_start)
unfolding raw_callback parse
heard = refl

parse_sound_example : Spells (codes "SERVO_B:30") (parse (codes "SERVO_B:30"))
parse_sound_example = parse_sound (codes "SERVO_B:30") known

-- A sensor that was synchronised while nothing was seen.
abbrev clear : ProximitySensor
clear = ProximitySensor.fresh

abbrev seen : ℕ → Sample
seen t = record { level = true; time = t }

stable_state-replay_example :
    (replay clear (seen 70 ∷ seen 40 ∷ seen 20 ∷ [])).stable_state
    ≡ settled 50 false (seen 70 ∷ seen 40 ∷ seen 20 ∷ [])
stable_state-replay_example = stable_state-replay (seen 70 ∷ seen 40 ∷ seen 20 ∷ []) clear refl refl

motion-Slowing_example :
    (camera_hold_loop (stuck 4180) in_hold
      ≡ hold_timeout (stuck 4180) (motion (stuck 4180) in_hold))
    × Slowing (stuck 4180) 175 in_hold (motion (stuck 4180) in_hold)
motion-Slowing_example = motion-Slowing (stuck 4180) 175 in_hold refl (omega arith) (omega arith)

-- It stands behind 450 ms.
standing : (hold_slow_down (stuck 4450) in_hold).dc_motor.duty ≡ 255
unfolding hold_slow_down brake
standing = refl

effects-process_sorters_example :
    let m' = process_sorters ticking in_hold in
    Asked ticking in_hold.calls m'.calls in_hold.sensors.s1 m'.sensors.s1
    × Asked ticking in_hold.calls m'.calls in_hold.sensors.s2 m'.sensors.s2
    × Asked ticking in_hold.calls m'.calls in_hold.sensors.s3 m'.sensors.s3
    × Asked ticking in_hold.calls m'.calls in_hold.sensors.s4 m'.sensors.s4
    × Asked ticking in_hold.calls m'.calls in_hold.sensors.s5 m'.sensors.s5
    × (m'.effects ≡ events in_hold.sensors m'.sensors ++ [])
    × (m'.sensors.s1_prev ≡ m'.sensors.s1.stable_state)
    × (m'.sensors.s2_prev ≡ m'.sensors.s2.stable_state)
    × (m'.sensors.s3_prev ≡ m'.sensors.s3.stable_state)
    × (m'.sensors.s4_prev ≡ m'.sensors.s4.stable_state)
    × (m'.sensors.s5_prev ≡ m'.sensors.s5.stable_state)
    × (m'.sensors.s6 ≡ in_hold.sensors.s6)
    × (m'.sensors.s6_prev ≡ in_hold.sensors.s6_prev)
effects-process_sorters_example = effects-process_sorters ticking in_hold

-- The clock stands at 7000 ms with the link down.
abbrev offline : Board
offline = bench (λ n. 7000) false

abbrev servo : ServoMotor
servo = ServoMotor.fresh

abbrev slowing : DcMotor
slowing = record (fresh.dc_motor) {
  soft_stopping = true;
  soft_start_speed = pos 175;
  soft_duration_ms = 250;
  soft_start_ms = 4000;
}

run-Traced_example : let m = run ticking 4 "192.168.0.2" in Follows m.effects m.current_state
run-Traced_example = run-Traced ticking 4 "192.168.0.2"

-- A network that is there from the third look on.
abbrev slow_network : Wifi
slow_network = record { connected = λ n. ltb 1 n; local_ip = λ n. codes "192.168.0.7" }
