-- ===== src/Operator/Running.antt =====
-- What any sequence of events of the operator's program keeps.
pub mod Buttons
pub mod Events
use iot_repo.Base.{
  ℕ, zero, suc, ◌+◌, ◌≤◌, ◌≡◌, refl, ◌∙◌, sym, ap, subst, Bool, true, false, Bool-cases,
  Option-cases, inl, inr, List, [], ◌∷◌, Option, none, some, if◌then◌else◌, All, arith,
}
use iot_repo.Base.Text.{Bytes, codes}
use iot_repo.Operator.{
  FsmState, fsm_idle, fsm_running, fsm_paused, SensorEvent, camera_detect, StateName, idle_state,
  active_state, paused_state, Station, station_1l, station_2l, QrGate, closed_gate, Process,
  ProcessState, no_process, Call, control, api_process_start, api_process_stop, Operator, World,
  publish, is_some, is_active, fresh,
}
use iot_repo.Operator.Words.{sensor_event, fsm_state, extract_item_code}
use iot_repo.Operator.Gate.{set_process_active}
use iot_repo.Operator.Callbacks.{update_buttons, refresh_classify_list}
use iot_repo.Operator.Counting.{find_process}
use iot_repo.Operator.Transition.{pause, resume, transition_to}
use iot_repo.Operator.States.{
  event_in, known_event, handle_sensor, qr_in, handle_qr, status_in, known_status, handle_status,
  servo_timeout_in, handle_servo_timeout,
}
use iot_repo.Operator.Page.{
  shutdown, target_pid, stop_target, stop, stop_timer, pause_in, on_pause_clicked, with_order,
  started, start, start_found, on_start_clicked, on_stop_clicked, on_servo_timeout,
  on_classify_qr_decoded, Event, status_received, sensor_received, qr_decoded, servo_timeout,
  start_clicked, stop_clicked, pause_clicked, refreshed, closed, handle, run,
}
use iot_repo.Operator.Heard.{Heard, heard, starts, stops, pauses, resumes}
use iot_repo.Operator.Working.{
  is_idle, routed, one_if, with_detection, Sound, Working, say, clear, widen, either,
  publish-Working,
}
use iot_repo.Operator.Working.Finishing.{handle_sort_timeout-Working}
use iot_repo.Operator.Working.Answers.{active_qr-Working, active_status-Working}
use iot_repo.Operator.Working.Sensors.{active_event-Working, paused_event-Working}

-- What every event leaves: the invariant, and nothing of a process in the idle state.
pub record Kept (n : ℕ) (m : Operator) : Type 0 where
  pub sound : Sound n m.state.process_id m.qr_gate m.spin_boxes m.effects
  pub at_rest : is_idle m.current_state ≡ true → (m.state ≡ no_process) × (m.qr_gate ≡ closed_gate)

-- The bottles that the camera has seen, as the program hears of them.
abbrev pub heard_of : Option SensorEvent → ℕ → ℕ
heard_of none n = n
heard_of (some e) n = with_detection e n

abbrev pub detected_by : Event → ℕ → ℕ
detected_by (sensor_received text) n = heard_of (sensor_event text) n
detected_by _ n = n

unfoldable pub detections : List Event → ℕ
detections [] = 0
detections (e ∷ es) = detected_by e (detections es)

pub awake-Kept : {n : ℕ} (m : Operator) → Working n m → Kept n m
awake-Kept m (awake, h) = record { sound = h; at_rest = λ asleep. cc }

pub awake :
    {s : StateName} (m : Operator)
    → m.current_state ≡ s
    → is_idle s ≡ false
    → is_idle m.current_state ≡ false
awake m e up = ap is_idle e ∙ up
