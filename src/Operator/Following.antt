-- ===== src/Operator/Following.antt =====
-- The conveyor as the operator's buttons go by it: the messages of a run of the conveyor, handed to
-- the page in their order and without a loss.
use Prim.Native.String.{String}
use iot_repo.Base.{ℕ, ◌≡◌, refl, ◌∙◌, List, [], ◌∷◌, ◌++◌, Option, none, some, if◌then◌else◌}
use iot_repo.Base.Text.{Bytes, codes, bytes_eq}
use iot_repo.Board.{Board}
use iot_repo.Devkit.Machine.{StateId, idle, conveying, camera_hold, paused, error, name}
use iot_repo.Devkit.Main
use iot_repo.Devkit.Mqtt.{
  Effect, publish, subscribe, connect, status_json, topic_sensor, topic_status,
}
use iot_repo.Devkit.Protocol.{
  event, IsBackground, connects, subscribes, s1_seen, s2_seen, s3_seen, s4_seen, s5_seen, Follows,
  off, background, stops, starts, repeats, detects, releases, times_out, pauses, pauses_hold,
  resumes, returns,
}
use iot_repo.Devkit.Protocol.Runs.{run-Traced}
use iot_repo.Operator.{FsmState, fsm_idle, fsm_running, fsm_paused, SensorEvent, Operator, World}
use iot_repo.Operator.Words.{sensor_event, state_named, fsm_state}
use iot_repo.Operator.States.{handle_sensor, handle_status}
use iot_repo.Operator.Page.{Event, status_received, sensor_received, handle, run}
use iot_repo.Operator.Watching.{
  Keeps, IsReport, camera, s1, s2, s3, s4, s5, handle_sensor-Keeps, handle_status_shown,
}

-- What the page gets of a call of the conveyor's MQTT client.
pub heard_events : Effect → List Event
heard_events (publish topic payload) =
    if bytes_eq (codes topic) (codes topic_status)
    then status_received (codes payload) ∷ []
    else if bytes_eq (codes topic) (codes topic_sensor)
    then sensor_received (codes payload) ∷ []
    else []
heard_events (subscribe topic qos) = []
heard_events connect = []

-- The events of a log, the last one first as in the log.
pub events_of : List Effect → List Event
events_of [] = []
events_of (e ∷ l) = heard_events e ++ events_of l

-- What the buttons should go by. The program has no word for ERROR, which counts as idle here.
pub shown_of : StateId → FsmState
shown_of idle = fsm_idle
shown_of conveying = fsm_running
shown_of camera_hold = fsm_running
shown_of paused = fsm_paused
shown_of error = fsm_idle

-- JSON of the conveyor's form is read.
pub record ReadsStatus (w : World) : Type 0 where
  pub of_running : w.json_state (codes (status_json "RUNNING")) ≡ some (codes "RUNNING")
  pub of_name : (s : StateId) → w.json_state (codes (status_json (name s))) ≡ some (codes (name s))

-- The state of the buttons after a log that leads to a state; before the first state, any.
abbrev pub Shows : Operator → Option StateId → Type 0
Shows m none = Unit
Shows m (some s) = m.current_fsm_state ≡ shown_of s

-- What does not change what is shown.
still : (x m : Operator) (s : Option StateId) → Keeps x m → Shows m s → Shows x s
still x m none same h = tt
still x m (some s) same h = same ∙ h

module _ (w : World) where
  report-Shows :
      (text : Bytes) {e : SensorEvent} (s : Option StateId) (m : Operator)
      → sensor_event text ≡ some e
      → IsReport e
      → Shows m s
      → Shows (handle_sensor w text m) s
  report-Shows text s m read r h =
      still (handle_sensor w text m) m s (handle_sensor-Keeps w text m read r) h

  background-Shows :
      {e : Effect} (l : List Effect) (s : Option StateId) (m : Operator)
      → IsBackground e
      → Shows (run w (events_of l) m) s
      → Shows (run w (events_of (e ∷ l)) m) s
  unfolding events_of heard_events run handle sensor_event
  background-Shows l s m connects h = h
  background-Shows l s m subscribes h = h
  background-Shows l s m s1_seen h =
      report-Shows (codes "S1_DETECTED") s (run w (events_of l) m) refl s1 h
  background-Shows l s m s2_seen h =
      report-Shows (codes "S2_DETECTED") s (run w (events_of l) m) refl s2 h
  background-Shows l s m s3_seen h =
      report-Shows (codes "S3_DETECTED") s (run w (events_of l) m) refl s3 h
  background-Shows l s m s4_seen h =
      report-Shows (codes "S4_DETECTED") s (run w (events_of l) m) refl s4 h
  background-Shows l s m s5_seen h =
      report-Shows (codes "S5_DETECTED") s (run w (events_of l) m) refl s5 h

module _ (w : World) (reads : ReadsStatus w) where
  idle-Shows :
      (m : Operator) → (handle_status w (codes (status_json "IDLE")) m).current_fsm_state ≡ fsm_idle
  idle-Shows m =
      handle_status_shown w (codes (status_json "IDLE")) m
        (unfold fsm_state state_named in (rw (reads.of_name idle) refl))

  paused-Shows :
      (m : Operator)
      → (handle_status w (codes (status_json "PAUSED")) m).current_fsm_state ≡ fsm_paused
  paused-Shows m =
      handle_status_shown w (codes (status_json "PAUSED")) m
        (unfold fsm_state state_named in (rw (reads.of_name paused) refl))

  running-Shows :
      (m : Operator)
      → (handle_status w (codes (status_json "RUNNING")) m).current_fsm_state ≡ fsm_running
  running-Shows m =
      handle_status_shown w (codes (status_json "RUNNING")) m
        (unfold fsm_state state_named in (rw reads.of_running refl))

  -- CONVEYING, CAMERA_HOLD and ERROR are words that the program does not know.
  name-Shows :
      (s : StateId) (m : Operator)
      → m.current_fsm_state ≡ shown_of s
      → (handle_status w (codes (status_json (name s))) m).current_fsm_state ≡ shown_of s
  unfolding shown_of
  name-Shows idle m h = idle-Shows m
  name-Shows paused m h = paused-Shows m
  name-Shows conveying m h =
      unfold handle_status fsm_state state_named in (rw (reads.of_name conveying) h)
  name-Shows camera_hold m h =
      unfold handle_status fsm_state state_named in (rw (reads.of_name camera_hold) h)
  name-Shows error m h = unfold handle_status fsm_state state_named in (rw (reads.of_name error) h)

  log-Shows :
      {l : List Effect} {s : Option StateId} (m : Operator)
      → Follows l s
      → Shows (run w (events_of l) m) s
  unfolding events_of heard_events run handle sensor_event shown_of
  log-Shows m off = tt
  log-Shows m (background {l} {s} b h) = background-Shows w l s m b (log-Shows m h)
  log-Shows m (stops {l} h) = idle-Shows (run w (events_of l) m)
  log-Shows m (starts {l} h) = running-Shows (run w (events_of l) m)
  log-Shows m (repeats {l} h) = running-Shows (run w (events_of l) m)
  log-Shows m (detects {l} h) =
      report-Shows w (codes "CAMERA_DETECT") (some camera_hold) (run w (events_of l) m) refl camera
        (log-Shows m h)
  log-Shows m (releases {l} h) = running-Shows (run w (events_of l) m)
  log-Shows m (times_out {l} h) = running-Shows (run w (events_of (event "CAMERA_TIMEOUT" ∷ l)) m)
  log-Shows m (pauses {l} h) = paused-Shows (run w (events_of l) m)
  log-Shows m (pauses_hold {l} h) = paused-Shows (run w (events_of l) m)
  log-Shows m (resumes {l} h) = running-Shows (run w (events_of l) m)
  log-Shows m (returns {l} {s} h) = name-Shows s (run w (events_of l) m) (log-Shows m h)

  -- Where JSON of the conveyor's form is read: after all messages of any run of the conveyor, in
  -- their order and without a loss, the state that the operator's buttons go by is that of the
  -- conveyor, where it has one (CONVEYING and CAMERA_HOLD are RUNNING, ERROR is IDLE), whatever the
  -- operator's program did before.
  pub run-Shows :
      (b : Board) (k : ℕ) (broker : String) (m : Operator)
      → let conveyor = Main.run b k broker in
        Shows (run w (events_of conveyor.effects) m) conveyor.current_state
  run-Shows b k broker m = log-Shows m (run-Traced b k broker)
