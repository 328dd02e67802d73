-- ===== src/Operator/States.antt =====
-- states/active.py, states/paused.py and states/idle.py: what each state makes of a QR code, of the
-- events of the sensors, of the conveyor's status and of a timer that has run out.
use iot_repo.Base.{
  ℕ, ◌+◌, ◌-◌, Bool, true, false, Option, none, some, ltb, [], ◌∷◌, ◌++◌, if◌then◌else◌,
}
use iot_repo.Base.Text.{Bytes, codes}
use iot_repo.Operator.{
  SortDirection, line_1l, line_2l, warn, FsmState, fsm_idle, fsm_running, fsm_paused, SensorEvent,
  proximity_on, proximity_off, camera_detect, s1_detected, s2_detected, s3_detected, s4_detected,
  s5_detected, camera_timeout, sort_timeout_1l, sort_timeout_2l, StateName, idle_state,
  active_state, paused_state, Station, station_1l, station_2l, success_1l, success_2l, unclassified,
  Operator, World, publish, is_active,
}
use iot_repo.Operator.Words.{is_empty, strip, direction_text, sensor_event, fsm_state, classify}
use iot_repo.Operator.Gate.{QrRejectReason, open_camera_gate, try_accept, accept}
use iot_repo.Operator.Callbacks.{
  on_open_servo_1l, on_open_servo_2l, on_center_servo_1l, on_center_servo_2l, update_buttons,
}
use iot_repo.Operator.Counting.{cleanup_if_empty, handle_sort_result}
use iot_repo.Operator.Transition.{pause, set_item, set_station_1l, set_station_2l}

abbrev pub watchdog_interval : ℕ
watchdog_interval = 10000

-- The codes of "(오류)" and "(미인식)".
abbrev pub error_code : Bytes
error_code = 0x28 ∷ 0xC624 ∷ 0xB958 ∷ 0x29 ∷ []

abbrev pub unread_code : Bytes
unread_code = 0x28 ∷ 0xBBF8 ∷ 0xC778 ∷ 0xC2DD ∷ 0x29 ∷ []

abbrev pub queue_size : Option (Bytes × SortDirection) → ℕ
queue_size none = 0
queue_size (some item) = 1

unfoldable pub camera_detected : Operator → Operator
unfolding open_camera_gate
camera_detected m = record m {
  qr_gate = open_camera_gate m.qr_gate;
  state = record m.state { expected_total_count = m.state.expected_total_count + 1 };
}

-- What the item in flight is sorted to when the sensor at the end sees it.
abbrev pub removed_dir : Option (Bytes × SortDirection) → Option SortDirection
removed_dir none = none
removed_dir (some item) = some item.1

-- The station of the item that was removed is given up, with its servo centred or not.
unfoldable pub give_up : Bool → Option SortDirection → Operator → Operator
give_up centring (some line_1l) m =
    if m.state.station_1l_active
    then set_station_1l false (if centring then on_center_servo_1l m else m)
    else m
give_up centring (some line_2l) m =
    if m.state.station_2l_active
    then set_station_2l false (if centring then on_center_servo_2l m else m)
    else m
give_up centring _ m = m

abbrev pub centred : Station → Operator → Operator
centred station_1l m = set_station_1l false (on_center_servo_1l m)
centred station_2l m = set_station_2l false (on_center_servo_2l m)

-- A code that is missing or blank.
unfoldable pub code_missing : Operator → Operator
code_missing m = publish (codes "SORT_DIR:WARN") (set_item (some (error_code, warn)) m)

abbrev pub open_for_1l : Operator → Option (Bytes × SortDirection) → Operator
open_for_1l m (some (code, line_1l)) = on_open_servo_1l (set_station_1l true m)
open_for_1l m _ = m

abbrev pub open_for_2l : Operator → Option (Bytes × SortDirection) → Operator
open_for_2l m (some (code, line_2l)) = on_open_servo_2l (set_station_2l true m)
open_for_2l m _ = m

unfoldable pub handle_s1_detected : Operator → Operator
handle_s1_detected m = open_for_1l m m.state.current_item

unfoldable pub handle_s2_detected : Operator → Operator
handle_s2_detected m = open_for_2l m m.state.current_item

module _ (w : World) where
  unfoldable pub sorted_1l : Operator → Operator
  unfolding handle_sort_result cleanup_if_empty
  sorted_1l m = cleanup_if_empty (
      handle_sort_result w success_1l (set_item none (set_station_1l false (on_center_servo_1l m))))

  unfoldable pub sorted_2l : Operator → Operator
  unfolding handle_sort_result cleanup_if_empty
  sorted_2l m = cleanup_if_empty (
      handle_sort_result w success_2l (set_item none (set_station_2l false (on_center_servo_2l m))))

  -- The event of the last sensor; only the active state centres the servo.
  unfoldable pub passed_all : Bool → Operator → Operator
  unfolding handle_sort_result cleanup_if_empty give_up
  passed_all centring m = cleanup_if_empty (
      handle_sort_result w unclassified
        (give_up centring (removed_dir m.state.current_item) (set_item none m)))

  -- The count as unclassified, which both states do on a timeout.
  unfoldable pub timed_out : Station → Operator → Operator
  unfolding handle_sort_result cleanup_if_empty
  timed_out station m =
      cleanup_if_empty (handle_sort_result w unclassified (set_item none (centred station m)))

  -- ActiveState._handle_sort_timeout.
  unfoldable pub handle_sort_timeout : Station → Operator → Operator
  unfolding timed_out pause
  handle_sort_timeout station m = pause (timed_out station m)

  abbrev pub active_event : SensorEvent → Operator → Operator
  active_event camera_detect m = camera_detected m
  active_event camera_timeout m = set_item (some (unread_code, warn)) m
  active_event proximity_on m = m
  active_event proximity_off m = m
  active_event s1_detected m = handle_s1_detected m
  active_event s2_detected m = handle_s2_detected m
  active_event s3_detected m = sorted_1l m
  active_event s4_detected m = sorted_2l m
  active_event s5_detected m = passed_all true m
  active_event sort_timeout_1l m = handle_sort_timeout station_1l m
  active_event sort_timeout_2l m = handle_sort_timeout station_2l m

  abbrev pub paused_event : SensorEvent → Operator → Operator
  paused_event s3_detected m = sorted_1l m
  paused_event s4_detected m = sorted_2l m
  paused_event s5_detected m = passed_all false m
  paused_event sort_timeout_1l m = timed_out station_1l m
  paused_event sort_timeout_2l m = timed_out station_2l m
  paused_event _ m = m

  abbrev pub event_in : StateName → SensorEvent → Operator → Operator
  event_in idle_state event m = m
  event_in active_state event m = active_event event m
  event_in paused_state event m = paused_event event m

  abbrev pub known_event : Option SensorEvent → Operator → Operator
  known_event none m = m
  known_event (some event) m = event_in m.current_state event m

  unfoldable pub handle_sensor : Bytes → Operator → Operator
  unfolding sensor_event
  handle_sensor payload m = known_event (sensor_event payload) m

  -- A code that the gate lets through.
  unfoldable pub enqueue : Bytes → Operator → Operator
  unfolding accept classify direction_text
  enqueue code m =
      let direction = classify w code m.state.order_items in
      publish (codes "SORT_DIR:" ++ direction_text direction) (
        set_item (some (code, direction)) (record m {
          qr_gate = accept w (w.monotonic m.calls) code m.qr_gate;
          calls = m.calls + 1;
        }))

  abbrev pub unless_rejected : Option QrRejectReason → Bytes → Operator → Operator
  unless_rejected (some reason) code m = m
  unless_rejected none code m = enqueue code m

  -- The clock counts as read even where the gate turns the code away before it asks.
  unfoldable pub take_code : Bytes → Operator → Operator
  unfolding try_accept enqueue
  take_code code m =
      unless_rejected
        (try_accept w (w.monotonic m.calls) code (queue_size m.state.current_item) m.qr_gate) code
        (record m { calls = m.calls + 1 })

  abbrev pub active_qr : Option Bytes → Operator → Operator
  active_qr none m = code_missing m
  active_qr (some code) m = if is_empty (strip code) then code_missing m else take_code code m

  abbrev pub qr_in : StateName → Option Bytes → Operator → Operator
  qr_in active_state code m = active_qr code m
  qr_in _ code m = m

  unfoldable pub handle_qr : Option Bytes → Operator → Operator
  unfolding take_code strip
  handle_qr code m = qr_in m.current_state code m

  unfoldable pub watchdog : Operator → Operator
  watchdog m =
      let now = w.monotonic m.calls in
      let asked = record m { calls = m.calls + 1 } in
      if is_active m
      then (if ltb (now - m.last_watchdog_ts) watchdog_interval
          then asked
          else publish (codes "SORT_START") (record asked { last_watchdog_ts = now }))
      else m

  abbrev pub active_status : FsmState → Operator → Operator
  active_status fsm_idle m = watchdog m
  active_status fsm_running m = record m { last_watchdog_ts = 0 }
  active_status fsm_paused m = m

  -- on_fsm_state_changed comes first in every state.
  abbrev pub status_in : StateName → FsmState → Operator → Operator
  status_in active_state s m = active_status s (update_buttons s m)
  status_in _ s m = update_buttons s m

  abbrev pub known_status : Option FsmState → Operator → Operator
  known_status none m = m
  known_status (some s) m = status_in m.current_state s m

  unfoldable pub handle_status : Bytes → Operator → Operator
  unfolding watchdog
  handle_status payload m = known_status (fsm_state w payload) m

  abbrev pub servo_timeout_in : StateName → Station → Operator → Operator
  servo_timeout_in active_state station m = handle_sort_timeout station m
  servo_timeout_in _ station m = m

  unfoldable pub handle_servo_timeout : Station → Operator → Operator
  unfolding handle_sort_timeout
  handle_servo_timeout station m = servo_timeout_in m.current_state station m
