-- ===== src/Operator/Page.antt =====
-- process_controller.py and classify_page.py: a process started, stopped and shut down, what the page
-- passes to the controller, and any sequence of its events.
use iot_repo.Base.{
  ℕ, zero, suc, ◌+◌, false, List, [], ◌∷◌, ◌++◌, ◌==◌, Option, none, some, if◌then◌else◌,
}
use iot_repo.Base.Text.{Bytes, codes}
use iot_repo.Operator.{
  FsmState, fsm_running, fsm_paused, idle_state, active_state, Station, station_1l, station_2l,
  closed_gate, Process, Order, api_process_start, api_process_stop, no_process, Operator, World,
  publish, is_active,
}
use iot_repo.Operator.Words.{extract_item_code, str}
use iot_repo.Operator.Callbacks.{
  set_dc_spin, set_servo_a_spin, set_servo_b_spin, update_buttons, reset_monitor,
  on_process_stopped, refresh_classify_list,
}
use iot_repo.Operator.Counting.{find_process}
use iot_repo.Operator.Transition.{transition_to, pause, resume}
use iot_repo.Operator.States.{handle_sensor, handle_qr, handle_status, handle_servo_timeout}

-- The items of the first order of that id; of none, none.
unfoldable pub items_of : ℕ → List Order → List Bytes
items_of order_id [] = []
items_of order_id (o ∷ os) =
    let rest = items_of order_id os in if o.order_id == order_id then o.items else rest

abbrev pub fetched_items : ℕ → Option (List Order) → List Bytes
fetched_items order_id none = []
fetched_items order_id (some orders) = items_of order_id orders

-- `pid or self._state.process_id`, where no selection is 0.
abbrev pub target_pid : ℕ → Option ℕ → Option ℕ
target_pid zero running = running
target_pid (suc pid) running = some (suc pid)

unfoldable pub shutdown : Operator → Operator
shutdown m =
    let told = if is_active m then publish (codes "SORT_STOP") m else m in
    record told { state = no_process; qr_gate = closed_gate }

abbrev pub stop_timer : Station → Operator → Operator
stop_timer station_1l m = record m { timer_servo_1l = false }
stop_timer station_2l m = record m { timer_servo_2l = false }

abbrev pub pause_in : FsmState → Operator → Operator
pause_in fsm_paused m = resume m
pause_in _ m = pause m

unfoldable pub on_dc_apply : Operator → Operator
on_dc_apply m = publish (codes "DC_SPEED:" ++ str m.spin_boxes.dc_spin) m

unfoldable pub on_pause_clicked : Operator → Operator
unfolding pause resume
on_pause_clicked m = pause_in m.current_fsm_state m

module _ (w : World) where
  abbrev pub stop_target : Option ℕ → Operator → Operator
  stop_target none m = m
  stop_target (some pid) m = on_process_stopped w (
      transition_to idle_state
        (publish (codes "SORT_STOP") (record m { effects = api_process_stop pid ∷ m.effects })))

  unfoldable pub stop : ℕ → Operator → Operator
  unfolding transition_to on_process_stopped
  stop pid m = stop_target (target_pid pid m.state.process_id) m

  -- The items of the order of the process, fetched if it has one.
  unfoldable pub with_order : ℕ → Operator → Operator
  unfolding items_of
  with_order zero m = m
  with_order (suc n) m = record m {
    state = record m.state { order_items = fetched_items (suc n) (w.list_orders m.calls) };
    calls = m.calls + 1;
  }

  -- What `start` does once the server has started the process.
  unfoldable pub started : Process → Operator → Operator
  unfolding transition_to with_order
  started p m = update_buttons fsm_running (
      publish (codes "SORT_START") (
        transition_to active_state (
          with_order p.order_id (record m {
            state = record no_process { process_id = some p.process_id; process_data = some p };
            qr_gate = closed_gate;
          }))))

  unfoldable pub start : Process → Operator → Operator
  unfolding started
  start p m =
      let asked = record m {
        effects = api_process_start p.process_id ∷ m.effects;
        calls = m.calls + 1;
      } in
      if w.process_start m.calls then started p asked else asked

  abbrev pub start_found : Option Process → Operator → Operator
  start_found none m = m
  start_found (some p) m = reset_monitor w (start p m)

  -- Nothing is selected at none.
  unfoldable pub on_start_clicked : Option ℕ → Operator → Operator
  unfolding find_process refresh_classify_list start reset_monitor
  on_start_clicked none m = m
  on_start_clicked (some pid) m =
      refresh_classify_list w (start_found (find_process pid m.classify_processes) m)

  unfoldable pub on_stop_clicked : ℕ → Operator → Operator
  unfolding stop refresh_classify_list
  on_stop_clicked pid m = refresh_classify_list w (stop pid m)

  unfoldable pub on_servo_timeout : Station → Operator → Operator
  unfolding handle_servo_timeout
  on_servo_timeout station m = handle_servo_timeout w station (stop_timer station m)

  unfoldable pub on_classify_qr_decoded : Bytes → Operator → Operator
  unfolding handle_qr extract_item_code
  on_classify_qr_decoded text m = handle_qr w (extract_item_code w text) m

-- What reaches the page: messages, codes that the camera reads, timers, buttons, values entered in
-- the spin boxes, and its end. Which buttons and boxes are enabled is not kept: any may be used at
-- any time.
pub data Event : Type 0 where
  status_received sensor_received qr_decoded : Bytes → Event
  servo_timeout : Station → Event
  start_clicked : Option ℕ → Event
  stop_clicked : ℕ → Event
  pause_clicked dc_applied refreshed closed : Event
  dc_edited servo_a_edited servo_b_edited : ℕ → Event

module _ (w : World) where
  unfoldable pub handle : Event → Operator → Operator
  unfolding handle_status handle_sensor on_classify_qr_decoded on_servo_timeout on_start_clicked
      on_stop_clicked on_pause_clicked on_dc_apply set_dc_spin set_servo_a_spin set_servo_b_spin
      refresh_classify_list shutdown
  handle (status_received text) m = handle_status w text m
  handle (sensor_received text) m = handle_sensor w text m
  handle (qr_decoded text) m = on_classify_qr_decoded w text m
  handle (servo_timeout station) m = on_servo_timeout w station m
  handle (start_clicked pid) m = on_start_clicked w pid m
  handle (stop_clicked pid) m = on_stop_clicked w pid m
  handle pause_clicked m = on_pause_clicked m
  handle dc_applied m = on_dc_apply m
  handle (dc_edited v) m = set_dc_spin w v m
  handle (servo_a_edited v) m = set_servo_a_spin w v m
  handle (servo_b_edited v) m = set_servo_b_spin w v m
  handle refreshed m = refresh_classify_list w m
  handle closed m = shutdown m

  -- The events, the last one first.
  unfoldable pub run : List Event → Operator → Operator
  unfolding handle
  run [] m = m
  run (e ∷ es) m = handle e (run es m)
