-- ===== src/Operator/Watching.antt =====
-- What leaves the state that the operator's buttons go by as it is, and what sets it.
use iot_repo.Base.{
  ℕ, ◌≡◌, refl, ◌∙◌, Bool, true, false, Option-cases, inl, inr, Option, none, some, if◌then◌else◌,
}
use iot_repo.Base.Text.{Bytes}
use iot_repo.Operator.{
  SortDirection, line_1l, line_2l, warn, FsmState, fsm_idle, fsm_running, fsm_paused, SensorEvent,
  camera_detect, s1_detected, s2_detected, s3_detected, s4_detected, s5_detected, camera_timeout,
  StateName, idle_state, active_state, paused_state, QtyField, success_1l, success_2l, unclassified,
  Process, Operator, World, is_active,
}
use iot_repo.Operator.Words.{sensor_event, fsm_state}
use iot_repo.Operator.Callbacks.{
  on_center_servo_1l, on_center_servo_2l, refresh_classify_list, on_process_completed,
  reset_monitor, update_buttons,
}
use iot_repo.Operator.Counting.{
  cleanup_if_empty, complete, count_process, count_found, count_for, handle_sort_result,
}
use iot_repo.Operator.States.{
  removed_dir, camera_detected, give_up, open_for_1l, open_for_2l, handle_s1_detected,
  handle_s2_detected, sorted_1l, sorted_2l, passed_all, active_event, paused_event, event_in,
  handle_sensor, watchdog, active_status, status_in, handle_status,
}
use iot_repo.Operator.Transition.{set_item, set_station_1l, set_station_2l}

abbrev pub Keeps : Operator → Operator → Type 0
Keeps x m = x.current_fsm_state ≡ m.current_fsm_state

-- A test between two operators.
either_kept : (t : Bool) (x y m : Operator) → Keeps x m → Keeps y m → Keeps (if t then x else y) m
either_kept true x y m hx hy = hx
either_kept false x y m hx hy = hy

cleanup_if_empty-Keeps : (m : Operator) → Keeps (cleanup_if_empty m) m
unfolding cleanup_if_empty
cleanup_if_empty-Keeps m = elim (Option-cases m.state.current_item) [
  | inl empty ↦ rw empty refl
  | inr (item, e) ↦ rw e refl
]

give_up-Keeps :
    (centring : Bool) (d : Option SortDirection) (m : Operator) → Keeps (give_up centring d m) m
unfolding give_up
give_up-Keeps true (some line_1l) m = either_kept m.state.station_1l_active _ m m refl refl
give_up-Keeps false (some line_1l) m = either_kept m.state.station_1l_active _ m m refl refl
give_up-Keeps true (some line_2l) m = either_kept m.state.station_2l_active _ m m refl refl
give_up-Keeps false (some line_2l) m = either_kept m.state.station_2l_active _ m m refl refl
give_up-Keeps centring (some warn) m = refl
give_up-Keeps centring none m = refl

-- The events that the conveyor sends.
pub data IsReport : SensorEvent → Type 0 where
  camera : IsReport camera_detect
  late : IsReport camera_timeout
  s1 : IsReport s1_detected
  s2 : IsReport s2_detected
  s3 : IsReport s3_detected
  s4 : IsReport s4_detected
  s5 : IsReport s5_detected

module _ (w : World) where
  count_process-Keeps :
      (pid : ℕ) (field : QtyField) (p : Process) (m : Operator)
      → Keeps (count_process w pid field p m) m
  unfolding count_process complete on_process_completed reset_monitor refresh_classify_list
  count_process-Keeps pid field p m = either_kept _ _ _ m refl refl

  count_found-Keeps :
      (pid : ℕ) (field : QtyField) (m : Operator) (o : Option Process)
      → Keeps (count_found w pid field m o) m
  count_found-Keeps pid field m none = refl
  count_found-Keeps pid field m (some p) = count_process-Keeps pid field p m

  count_for-Keeps :
      (field : QtyField) (m : Operator) (o : Option ℕ) → Keeps (count_for w field m o) m
  count_for-Keeps field m none = refl
  count_for-Keeps field m (some pid) = count_found-Keeps pid field m _

  handle_sort_result-Keeps :
      (field : QtyField) (x m : Operator)
      → Keeps x m
      → Keeps (cleanup_if_empty (handle_sort_result w field x)) m
  unfolding handle_sort_result
  handle_sort_result-Keeps field x m h =
      cleanup_if_empty-Keeps (handle_sort_result w field x)
      ∙ count_for-Keeps field x x.state.process_id
      ∙ h

  passed_all-Keeps : (centring : Bool) (m : Operator) → Keeps (passed_all w centring m) m
  unfolding passed_all
  passed_all-Keeps centring m =
      let given = give_up centring (removed_dir m.state.current_item) (set_item none m) in
      handle_sort_result-Keeps unclassified given m
        (give_up-Keeps centring (removed_dir m.state.current_item) (set_item none m))

  open_for_1l-Keeps :
      (m : Operator) (o : Option (Bytes × SortDirection)) → Keeps (open_for_1l m o) m
  open_for_1l-Keeps m none = refl
  open_for_1l-Keeps m (some (code, line_1l)) = refl
  open_for_1l-Keeps m (some (code, line_2l)) = refl
  open_for_1l-Keeps m (some (code, warn)) = refl

  open_for_2l-Keeps :
      (m : Operator) (o : Option (Bytes × SortDirection)) → Keeps (open_for_2l m o) m
  open_for_2l-Keeps m none = refl
  open_for_2l-Keeps m (some (code, line_1l)) = refl
  open_for_2l-Keeps m (some (code, line_2l)) = refl
  open_for_2l-Keeps m (some (code, warn)) = refl

  active_event-Keeps : {e : SensorEvent} (m : Operator) → IsReport e → Keeps (active_event w e m) m
  unfolding camera_detected handle_s1_detected handle_s2_detected sorted_1l sorted_2l
  active_event-Keeps m camera = refl
  active_event-Keeps m late = refl
  active_event-Keeps m s1 = open_for_1l-Keeps m m.state.current_item
  active_event-Keeps m s2 = open_for_2l-Keeps m m.state.current_item
  active_event-Keeps m s3 =
      handle_sort_result-Keeps success_1l
        (set_item none (set_station_1l false (on_center_servo_1l m))) m refl
  active_event-Keeps m s4 =
      handle_sort_result-Keeps success_2l
        (set_item none (set_station_2l false (on_center_servo_2l m))) m refl
  active_event-Keeps m s5 = passed_all-Keeps true m

  paused_event-Keeps : {e : SensorEvent} (m : Operator) → IsReport e → Keeps (paused_event w e m) m
  unfolding sorted_1l sorted_2l
  paused_event-Keeps m camera = refl
  paused_event-Keeps m late = refl
  paused_event-Keeps m s1 = refl
  paused_event-Keeps m s2 = refl
  paused_event-Keeps m s3 =
      handle_sort_result-Keeps success_1l
        (set_item none (set_station_1l false (on_center_servo_1l m))) m refl
  paused_event-Keeps m s4 =
      handle_sort_result-Keeps success_2l
        (set_item none (set_station_2l false (on_center_servo_2l m))) m refl
  paused_event-Keeps m s5 = passed_all-Keeps false m

  event_in-Keeps :
      {e : SensorEvent} (s : StateName) (m : Operator) → IsReport e → Keeps (event_in w s e m) m
  event_in-Keeps idle_state m r = refl
  event_in-Keeps active_state m r = active_event-Keeps m r
  event_in-Keeps paused_state m r = paused_event-Keeps m r

  -- An event of the conveyor is read, and does not change what is shown.
  pub handle_sensor-Keeps :
      (text : Bytes) {e : SensorEvent} (m : Operator)
      → sensor_event text ≡ some e
      → IsReport e
      → Keeps (handle_sensor w text m) m
  unfolding handle_sensor
  handle_sensor-Keeps text m read r = rw read (event_in-Keeps m.current_state m r)

  watchdog-Keeps : (m : Operator) → Keeps (watchdog w m) m
  unfolding watchdog
  watchdog-Keeps m = either_kept (is_active m) _ m m (either_kept _ _ _ m refl refl) refl

  active_status-Keeps : (s : FsmState) (m : Operator) → Keeps (active_status w s m) m
  active_status-Keeps fsm_idle m = watchdog-Keeps m
  active_status-Keeps fsm_running m = refl
  active_status-Keeps fsm_paused m = refl

  status_in_shown :
      (s : StateName) (f : FsmState) (m : Operator) → (status_in w s f m).current_fsm_state ≡ f
  status_in_shown idle_state f m = refl
  status_in_shown active_state f m = active_status-Keeps f (update_buttons f m)
  status_in_shown paused_state f m = refl

  pub handle_status_shown :
      (text : Bytes) {f : FsmState} (m : Operator)
      → fsm_state w text ≡ some f
      → (handle_status w text m).current_fsm_state ≡ f
  unfolding handle_status
  handle_status_shown text {f} m read = rw read (status_in_shown m.current_state f m)
