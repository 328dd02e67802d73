-- ===== src/Operator/Running/Events.antt =====
-- The invariant behind every event, and behind any sequence of them.
use iot_repo.Base.{ℕ, ◌≡◌, refl, List, [], ◌∷◌, Option, none, some, arith}
use iot_repo.Base.Text.{Bytes}
use iot_repo.Operator.{
  FsmState, SensorEvent, StateName, idle_state, active_state, paused_state, Station, Operator,
  World, fresh,
}
use iot_repo.Operator.Words.{sensor_event, fsm_state, extract_item_code}
use iot_repo.Operator.Callbacks.{update_buttons}
use iot_repo.Operator.States.{
  event_in, known_event, handle_sensor, qr_in, handle_qr, status_in, known_status, handle_status,
  servo_timeout_in, handle_servo_timeout,
}
use iot_repo.Operator.Page.{
  stop_timer, on_pause_clicked, on_servo_timeout, on_classify_qr_decoded, Event, status_received,
  sensor_received, qr_decoded, servo_timeout, start_clicked, stop_clicked, pause_clicked,
  dc_applied, dc_edited, servo_a_edited, servo_b_edited, refreshed, closed, handle, run,
}
use iot_repo.Operator.Working.{routed, with_detection, KeepsRange}
use iot_repo.Operator.Working.Boxes.{hardware-InRange}
use iot_repo.Operator.Working.Finishing.{handle_sort_timeout-Working}
use iot_repo.Operator.Working.Answers.{active_qr-Working, active_status-Working}
use iot_repo.Operator.Working.Sensors.{active_event-Working, paused_event-Working}
use iot_repo.Operator.Running.{Kept, heard_of, detected_by, detections, awake-Kept, awake}
use iot_repo.Operator.Running.Buttons.{
  pause_in-Kept, stop_timer-Kept, shutdown-Kept, update_buttons-Kept, widen-Kept,
  refresh_classify_list-Kept, on_dc_apply-Kept, set_dc_spin-Kept, set_servo_a_spin-Kept,
  set_servo_b_spin-Kept, on_start_clicked-Kept, on_stop_clicked-Kept,
}

module _ (w : World) where
  qr_in-Kept :
      {n : ℕ} (s : StateName) (code : Option Bytes) (m : Operator)
      → m.current_state ≡ s
      → Kept n m
      → Kept n (qr_in w s code m)
  qr_in-Kept idle_state code m e h = h
  qr_in-Kept active_state code m e h =
      awake-Kept _ (active_qr-Working w code m (awake m e refl, h.sound))
  qr_in-Kept paused_state code m e h = h

  status_in-Kept :
      {n : ℕ} (s : StateName) (f : FsmState) (m : Operator)
      → m.current_state ≡ s
      → Kept n m
      → Kept n (status_in w s f m)
  status_in-Kept idle_state f m e h = update_buttons-Kept f m h
  status_in-Kept active_state f m e h =
      awake-Kept _ (active_status-Working w f (update_buttons f m) (awake m e refl, h.sound))
  status_in-Kept paused_state f m e h = update_buttons-Kept f m h

  known_status-Kept :
      {n : ℕ} (o : Option FsmState) (m : Operator) → Kept n m → Kept n (known_status w o m)
  known_status-Kept none m h = h
  known_status-Kept (some f) m h = status_in-Kept m.current_state f m refl h

  module _ (keeps : KeepsRange w) where
    servo_timeout_in-Kept :
        {n : ℕ} (s : StateName) (station : Station) (m : Operator)
        → m.current_state ≡ s
        → Kept n m
        → Kept n (servo_timeout_in w s station m)
    servo_timeout_in-Kept idle_state station m e h = h
    servo_timeout_in-Kept active_state station m e h =
        awake-Kept _ (handle_sort_timeout-Working w keeps station m (awake m e refl, h.sound))
    servo_timeout_in-Kept paused_state station m e h = h

    event_in-Kept :
        {n : ℕ} (s : StateName) (event : SensorEvent) (m : Operator)
        → m.current_state ≡ s
        → Kept n m
        → Kept (with_detection event n) (event_in w s event m)
    event_in-Kept idle_state event m e h = widen-Kept event m h
    event_in-Kept active_state event m e h =
        awake-Kept _ (active_event-Working w keeps event m (awake m e refl, h.sound))
    event_in-Kept paused_state event m e h =
        awake-Kept _ (paused_event-Working w keeps event m (awake m e refl, h.sound))

    known_event-Kept :
        {n : ℕ} (o : Option SensorEvent) (m : Operator)
        → Kept n m
        → Kept (heard_of o n) (known_event w o m)
    known_event-Kept none m h = h
    known_event-Kept (some event) m h = event_in-Kept m.current_state event m refl h

    handle-Kept :
        {n : ℕ} (e : Event) (m : Operator) → Kept n m → Kept (detected_by e n) (handle w e m)
    unfolding handle handle_status handle_sensor handle_qr on_servo_timeout handle_servo_timeout
        on_pause_clicked on_classify_qr_decoded
    handle-Kept (status_received text) m h = known_status-Kept (fsm_state w text) m h
    handle-Kept (sensor_received text) m h = known_event-Kept (sensor_event text) m h
    handle-Kept (qr_decoded text) m h =
        qr_in-Kept m.current_state (extract_item_code w text) m refl h
    handle-Kept (servo_timeout station) m h =
        servo_timeout_in-Kept (stop_timer station m).current_state station (stop_timer station m)
          refl (stop_timer-Kept station m h)
    handle-Kept (start_clicked pid) m h = on_start_clicked-Kept w keeps pid m h
    handle-Kept (stop_clicked pid) m h = on_stop_clicked-Kept w keeps pid m h
    handle-Kept pause_clicked m h = pause_in-Kept m.current_fsm_state m h
    handle-Kept dc_applied m h = on_dc_apply-Kept m h
    handle-Kept (dc_edited v) m h = set_dc_spin-Kept w keeps v m h
    handle-Kept (servo_a_edited v) m h = set_servo_a_spin-Kept w keeps v m h
    handle-Kept (servo_b_edited v) m h = set_servo_b_spin-Kept w keeps v m h
    handle-Kept refreshed m h = refresh_classify_list-Kept w m h
    handle-Kept closed m h = shutdown-Kept m h

    -- Where a QSpinBox keeps its value within its range, after any sequence of messages, codes,
    -- timers, buttons, values entered in the spin boxes and refreshes: the QR gate is on only while
    -- there is a process; in the idle state there is nothing of a process and the gate is as at the
    -- start; the bottles sent to a station, with one more for an open gate, are at most the
    -- CAMERA_DETECT events received; the boxes show a speed from 150 to 255 and angles up to 45;
    -- and every text that the page and the controller published on device/control is one of the
    -- program's commands, which the conveyor's parser reads as just that command.
    pub run-Kept : (es : List Event) → Kept (detections es) (run w es (fresh w))
    unfolding run detections routed
    run-Kept [] = record {
      sound = record {
        guarded = λ e. cc;
        budget = omega arith;
        ranged = hardware-InRange w keeps;
        understood = tt;
      };
      at_rest = λ asleep. (refl, refl);
    }
    run-Kept (e ∷ es) = handle-Kept e (run w es (fresh w)) (run-Kept es)
