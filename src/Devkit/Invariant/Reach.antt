-- ===== src/Devkit/Invariant/Reach.antt =====
-- The invariant over whole runs of the firmware.
use Prim.Native.String.{String}
use iot_repo.Base.{ℕ, zero, suc, ◌+◌, refl, inl, List, [], ◌∷◌, Option, none, some, arith}
use iot_repo.Board.{Board, Message}
use iot_repo.Devkit.Command.{Command}
use iot_repo.Devkit.DcMotor
use iot_repo.Devkit.Machine.{StateId, Machine}
use iot_repo.Devkit.Main.{
  fresh, reconnect_now, republish, setup, receive, deliver, mqtt_loop, watch_connection,
  debug_output, loop, run,
}
use iot_repo.Devkit.Mqtt.{raw_callback}
use iot_repo.Devkit.ServoMotor
use iot_repo.Devkit.ServoMotor.Angle
use iot_repo.Devkit.Invariant.{Inv}
use iot_repo.Devkit.Invariant.Same.{Same, Inv-Same}
use iot_repo.Devkit.Invariant.Transitions.{transition_idle-Inv}
use iot_repo.Devkit.Invariant.Commands.{on_command-Inv}
use iot_repo.Devkit.Invariant.Loops.{state_loop-Inv}

republish-Same : (s : Option StateId) (m : Machine) → Same m (republish s m)
unfolding republish
republish-Same none m = ground arith
republish-Same (some s) m = ground arith

module _ (b : Board) where
  setup-Inv : (broker : String) → Inv (setup b broker fresh)
  unfolding setup DcMotor.begin ServoMotor.begin
  setup-Inv broker = transition_idle-Inv b _ (record {
    speed_low = omega arith;
    speed_high = omega arith;
    deg_a_low = omega arith;
    deg_a_high = omega arith;
    deg_b_low = omega arith;
    deg_b_high = omega arith;
    motor = omega arith;
    pulse_a = Angle.center-InRange b _ (record { low = refl; high = refl; pulse = inl refl });
    pulse_b = Angle.center-InRange b _ (record { low = refl; high = refl; pulse = inl refl });
  })

  receive-Inv : (c : Option Command) (m : Machine) → Inv m → Inv (receive b c m)
  unfolding receive
  receive-Inv none m i = i
  receive-Inv (some cmd) m i = on_command-Inv b cmd m i

  -- Whatever messages arrive, in whatever order.
  deliver-Inv : (msgs : List Message) (m : Machine) → Inv m → Inv (deliver b msgs m)
  unfolding deliver
  deliver-Inv [] m i = i
  deliver-Inv (msg ∷ msgs) m i = deliver-Inv msgs _ (receive-Inv (raw_callback m.mqtt msg) m i)

  mqtt_loop-Inv : (m : Machine) → Inv m → Inv (mqtt_loop b m)
  unfolding mqtt_loop
  mqtt_loop-Inv m i =
      let later : Machine = record m { calls = m.calls + 2 } in
      let now = b.millis (m.calls + 1) in
      let r = reconnect_now b later in
      let same = Inv-Same m later (ground arith) i in
      ground (
        arith,
        deliver-Inv (b.mqtt_loop (m.calls + 1)) later same,
        same,
        Inv-Same m (record r { mqtt = record (r.mqtt) { last_retry_ms = now } }) (ground arith) i,
      )

  watch_connection-Inv : (m : Machine) → Inv m → Inv (watch_connection b m)
  unfolding watch_connection
  watch_connection-Inv m i = Inv-Same m _ (ground (arith, republish-Same m.current_state m)) i

  debug_output-Inv : (m : Machine) → Inv m → Inv (debug_output b m)
  unfolding debug_output
  debug_output-Inv m i = Inv-Same m _ (ground arith) i

  loop-Inv : (m : Machine) → Inv m → Inv (loop b m)
  unfolding loop
  loop-Inv m i =
      state_loop-Inv b _ _ refl (debug_output-Inv _ (watch_connection-Inv _ (mqtt_loop-Inv m i)))

  -- After setup and any number of passes, whatever the board answers and whatever messages arrive,
  -- speed (150 to 255), sorting angles (0 to 45), servo pulses (off or 544 to 2400 us) and duty
  -- cycle (at most 255) are in range, no blanking is in force, the motor is braked in IDLE and
  -- PAUSED and driven at the set speed in CONVEYING, any slowing down in CAMERA_HOLD starts from a
  -- speed of 0 to 255, and the controller has a state, which is never ERROR.
  pub run-Inv : (k : ℕ) (broker : String) → Inv (run b k broker)
  unfolding run
  run-Inv zero broker = setup-Inv broker
  run-Inv (suc k) broker = loop-Inv (run b k broker) (run-Inv k broker)
