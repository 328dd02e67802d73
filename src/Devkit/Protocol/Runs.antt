-- ===== src/Devkit/Protocol/Runs.antt =====
-- The passes of the loop and whole runs, in the grammar of the log.
use Prim.Native.String.{String}
use iot_repo.Base.{
  ℕ, zero, suc, ◌+◌, ◌≡◌, ◌∙◌, refl, sym, subst, Bool, true, false, not, ◌&&◌, Bool-cases, inl, inr,
  List, [], ◌∷◌, Option, none, some, if◌then◌else◌,
}
use iot_repo.Board.{Board, Message}
use iot_repo.Devkit.Command.{Command}
use iot_repo.Devkit.Commands.{start_blank}
use iot_repo.Devkit.Loops.{
  idle_loop, watch_s6, conveying_loop, hold_slow_down, hold_blink, hold_motor, hold_timeout,
  camera_hold_loop, paused_loop, error_loop, state_loop,
}
use iot_repo.Devkit.Machine.{
  StateId, idle, conveying, camera_hold, paused, error, name, Machine, report, send, send_status,
  sync_s6, track_s6, process_sorters,
}
use iot_repo.Devkit.Main.{
  fresh, reconnect_now, begin_mqtt, republish, setup, receive, deliver, mqtt_loop, watch_connection,
  debug_output, loop, run,
}
use iot_repo.Devkit.Mqtt.{Effect, raw_callback, reconnect}
use iot_repo.Devkit.Invariant.Loops.{current_state-hold_slow_down}
use iot_repo.Devkit.Transition.{transition}
use iot_repo.Devkit.Protocol.{
  status, event, IsBackground, connects, subscribes, s1_seen, s2_seen, s3_seen, s4_seen, s5_seen,
  Follows, off, background, stops, detects, times_out, returns,
}
use iot_repo.Devkit.Protocol.Words.{Traced, transition-Traced, on_command-Traced}

report-Follows :
    (det prev : Bool) (text : String) (l : List Effect) (s : Option StateId)
    → IsBackground (event text)
    → Follows l s
    → Follows (report det prev text l) s
unfolding report
report-Follows det prev text l s quiet h = elim (Bool-cases (det && not prev)) [
  | inl edge ↦ rw edge (background quiet h)
  | inr no_edge ↦ rw no_edge h
]

reconnect-Follows :
    (connected success : Bool) (l : List Effect) (s : Option StateId)
    → Follows l s
    → Follows (reconnect connected success l) s
unfolding reconnect
reconnect-Follows true success l s h = h
reconnect-Follows false true l s h = background subscribes (background connects h)
reconnect-Follows false false l s h = background connects h

republish-Traced :
    (s : Option StateId) (m : Machine) → m.current_state ≡ s → Traced m → Traced (republish s m)
unfolding republish send_status
republish-Traced none m e h = h
republish-Traced (some s) m e h =
    subst (Follows (status (name s) ∷ m.effects)) (sym e) (returns (subst (Follows m.effects) e h))

-- A test that decides between two machines.
either-Traced : (t : Bool) (x y : Machine) → Traced x → Traced y → Traced (if t then x else y)
either-Traced true x y hx hy = hx
either-Traced false x y hx hy = hy

module _ (b : Board) where
  process_sorters-Traced : (m : Machine) → Traced m → Traced (process_sorters b m)
  unfolding process_sorters
  process_sorters-Traced m h = report-Follows _ _ _ _ _ s5_seen (
      report-Follows _ _ _ _ _ s4_seen (
        report-Follows _ _ _ _ _ s3_seen
          (report-Follows _ _ _ _ _ s2_seen (report-Follows _ _ _ _ _ s1_seen h))))

  watch_s6-Traced :
      (now : ℕ) (m : Machine)
      → m.current_state ≡ some conveying
      → Traced m
      → Traced (watch_s6 b now m)
  unfolding watch_s6
  watch_s6-Traced now m e h =
      let seen = track_s6 b m in
      let h' : Follows m.effects (some conveying) = subst (Follows m.effects) e h in
      let at_edge : Traced (transition b (some camera_hold) seen) =
        transition-Traced b camera_hold seen (detects (unfold track_s6 in h')) in
      let kept : Traced seen = unfold track_s6 in h in
      let over : Traced (sync_s6 b (record m { camera_blank_until = 0 })) = unfold sync_s6 in h in
      either-Traced _ _ _ (either-Traced _ _ _ over kept) (either-Traced _ _ _ at_edge kept)

  hold_timeout-Traced :
      (m : Machine) → m.current_state ≡ some camera_hold → Traced m → Traced (hold_timeout b m)
  unfolding hold_timeout
  hold_timeout-Traced m e h =
      let late =
        send "CAMERA_TIMEOUT" (sync_s6 b (start_blank b (record m { calls = m.calls + 1 }))) in
      let h' : Follows m.effects (some camera_hold) = subst (Follows m.effects) e h in
      either-Traced _ _ _
        (transition-Traced b conveying late (unfold send sync_s6 start_blank in times_out h')) h

  hold_slow_down-Traced : (m : Machine) → Traced m → Traced (hold_slow_down b m)
  unfolding hold_slow_down
  hold_slow_down-Traced m h = either-Traced _ _ _ (either-Traced _ _ _ h h) h

  camera_hold_loop-Traced :
      (m : Machine) → m.current_state ≡ some camera_hold → Traced m → Traced (camera_hold_loop b m)
  unfolding camera_hold_loop
  camera_hold_loop-Traced m e h =
      let slowed = hold_slow_down b m in
      let moved = hold_motor b (hold_blink b slowed) in
      let h' : Traced (record moved { calls = moved.calls + 1 }) =
        unfold hold_motor hold_blink in (hold_slow_down-Traced m h) in
      let sorted = process_sorters b (record moved { calls = moved.calls + 1 }) in
      let e' : sorted.current_state ≡ some camera_hold =
        unfold process_sorters hold_motor hold_blink in (current_state-hold_slow_down b m ∙ e) in
      hold_timeout-Traced sorted e'
        (process_sorters-Traced (record moved { calls = moved.calls + 1 }) h')

  conveying_loop-Traced :
      (m : Machine) → m.current_state ≡ some conveying → Traced m → Traced (conveying_loop b m)
  unfolding conveying_loop
  conveying_loop-Traced m e h =
      let m' : Machine = record m { calls = m.calls + 1 } in
      watch_s6-Traced (b.millis m.calls) (process_sorters b m') (unfold process_sorters in e)
        (process_sorters-Traced m' h)

  state_loop-Traced :
      (s : Option StateId) (m : Machine)
      → m.current_state ≡ s
      → Traced m
      → Traced (state_loop b s m)
  unfolding state_loop
  state_loop-Traced none m e h = h
  state_loop-Traced (some idle) m e h = unfold idle_loop in h
  state_loop-Traced (some conveying) m e h = conveying_loop-Traced m e h
  state_loop-Traced (some camera_hold) m e h = camera_hold_loop-Traced m e h
  state_loop-Traced (some paused) m e h =
      unfold paused_loop in (process_sorters-Traced (record m { calls = m.calls + 1 }) h)
  state_loop-Traced (some error) m e h = unfold error_loop in h

  reconnect_now-Traced : (m : Machine) → Traced m → Traced (reconnect_now b m)
  unfolding reconnect_now
  reconnect_now-Traced m h = reconnect-Follows _ _ _ _ h

  receive-Traced : (c : Option Command) (m : Machine) → Traced m → Traced (receive b c m)
  unfolding receive
  receive-Traced none m h = h
  receive-Traced (some c) m h = on_command-Traced b c m h

  deliver-Traced : (msgs : List Message) (m : Machine) → Traced m → Traced (deliver b msgs m)
  unfolding deliver
  deliver-Traced [] m h = h
  deliver-Traced (msg ∷ msgs) m h =
      deliver-Traced msgs _ (receive-Traced (raw_callback m.mqtt msg) m h)

  mqtt_loop-Traced : (m : Machine) → Traced m → Traced (mqtt_loop b m)
  unfolding mqtt_loop
  mqtt_loop-Traced m h =
      let later : Machine = record m { calls = m.calls + 2 } in
      either-Traced _ _ _ (either-Traced _ _ _ (reconnect_now-Traced later h) h)
        (deliver-Traced (b.mqtt_loop (m.calls + 1)) later h)

  watch_connection-Traced : (m : Machine) → Traced m → Traced (watch_connection b m)
  unfolding watch_connection
  watch_connection-Traced m h = either-Traced _ _ _ (republish-Traced m.current_state m refl h) h

  debug_output-Traced : (m : Machine) → Traced m → Traced (debug_output b m)
  unfolding debug_output
  debug_output-Traced m h = either-Traced _ _ _ h h

  loop-Traced : (m : Machine) → Traced m → Traced (loop b m)
  unfolding loop
  loop-Traced m h =
      let m' = debug_output b (watch_connection b (mqtt_loop b m)) in
      state_loop-Traced m'.current_state m' refl
        (debug_output-Traced _ (watch_connection-Traced _ (mqtt_loop-Traced m h)))

  setup-Traced : (broker : String) → Traced (setup b broker fresh)
  unfolding setup begin_mqtt reconnect_now
  setup-Traced broker = transition-Traced b idle _ (stops (reconnect-Follows _ _ [] none off))

  -- The MQTT log of every run is a word of the grammar of announcements, and leads to the state
  -- that the controller is in.
  pub run-Traced :
      (k : ℕ) (broker : String) → Follows (run b k broker).effects (run b k broker).current_state
  unfolding run
  run-Traced zero broker = setup-Traced broker
  run-Traced (suc k) broker = loop-Traced (run b k broker) (run-Traced k broker)
