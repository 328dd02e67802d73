-- ===== src/Operator/Working/Finishing.antt =====
-- The invariant behind a count, a timeout and a pause.
use iot_repo.Base.{ℕ, ◌+◌, refl, Bool, false, Option-cases, inl, inr, ◌∷◌, Option, none, some}
use iot_repo.Base.Text.{codes}
use iot_repo.Operator.{
  SortDirection, line_1l, line_2l, warn, paused_state, Station, station_1l, station_2l, QtyField,
  success_1l, success_2l, unclassified, Process, api_process_stop, api_process_update, Operator,
  World, is_active, publish, no_process, closed_gate,
}
use iot_repo.Operator.Callbacks.{
  on_center_servo_1l, on_center_servo_2l, refresh_classify_list, on_process_completed,
  reset_monitor,
}
use iot_repo.Operator.Counting.{
  cleanup_if_empty, complete, with_qty, qty, count_process, count_found, count_for, store_process,
  handle_sort_result,
}
use iot_repo.Operator.Transition.{set_item, set_station_1l, set_station_2l, pause, transition_to}
use iot_repo.Operator.States.{
  removed_dir, give_up, sorted_1l, sorted_2l, passed_all, centred, timed_out, handle_sort_timeout,
}
use iot_repo.Operator.Heard.{stops, pauses, Heard, centres_a, centres_b}
use iot_repo.Operator.Working.Boxes.{reset_monitor-Sound}
use iot_repo.Operator.Working.{KeepsRange, Working, say, clear, either, publish-Working}

pub cleanup_if_empty-Working : {n : ℕ} (m : Operator) → Working n m → Working n (cleanup_if_empty m)
unfolding cleanup_if_empty
cleanup_if_empty-Working m h = elim (Option-cases m.state.current_item) [
  | inl empty ↦ rw empty h
  | inr (item, e) ↦ rw e h
]

pub centre_1l-Working : {n : ℕ} (m : Operator) → Working n m → Working n (on_center_servo_1l m)
centre_1l-Working m h = publish-Working m centres_a refl h

pub centre_2l-Working : {n : ℕ} (m : Operator) → Working n m → Working n (on_center_servo_2l m)
centre_2l-Working m h = publish-Working m centres_b refl h

pub give_up-Working :
    {n : ℕ} (centring : Bool) (d : Option SortDirection) (m : Operator)
    → Working n m
    → Working n (give_up centring d m)
unfolding give_up
give_up-Working {n} centring (some line_1l) m h =
    either (Working n) m.state.station_1l_active _ m
      (either (Working n) centring (on_center_servo_1l m) m (centre_1l-Working m h) h) h
give_up-Working {n} centring (some line_2l) m h =
    either (Working n) m.state.station_2l_active _ m
      (either (Working n) centring (on_center_servo_2l m) m (centre_2l-Working m h) h) h
give_up-Working centring (some warn) m h = h
give_up-Working centring none m h = h

pub pause-Working : {n : ℕ} (m : Operator) → Working n m → Working n (pause m)
unfolding pause transition_to
pause-Working {n} m h =
    either (Working n) (is_active m) _ m
      (publish-Working (record m { current_state = paused_state }) pauses refl (refl, h.1)) h

module _ (w : World) (keeps : KeepsRange w) where
  pub complete-Working :
      {n : ℕ} (pid : ℕ) (m : Operator) → Working n m → Working n (complete w pid m)
  unfolding complete on_process_completed refresh_classify_list reset_monitor
  complete-Working pid m h =
      let (awake, stopped) = publish-Working m stops refl h in
      let told = publish (codes "SORT_STOP") m in
      (
        awake,
        reset_monitor-Sound w keeps
            (record told {
              effects = api_process_stop pid ∷ told.effects;
              state = no_process;
              qr_gate = closed_gate;
            })
            (clear (say (api_process_stop pid) (unfold Heard in tt) refl stopped)),
      )

  pub count_process-Working :
      {n : ℕ} (pid : ℕ) (field : QtyField) (p : Process) (m : Operator)
      → Working n m
      → Working n (count_process w pid field p m)
  unfolding count_process refresh_classify_list
  count_process-Working {n} pid field p m (awake, h) =
      let shown = refresh_classify_list w (record m {
        effects = api_process_update pid field (qty field p + 1) ∷ m.effects;
        classify_processes =
            store_process pid (with_qty field (qty field p + 1) p) m.classify_processes;
      }) in
      let kept : Working n shown =
        (awake, say (api_process_update pid field _) (unfold Heard in tt) refl h) in
      either (Working n) _ (complete w pid shown) shown (complete-Working pid shown kept) kept

  pub count_found-Working :
      {n : ℕ} (pid : ℕ) (field : QtyField) (m : Operator) (o : Option Process)
      → Working n m
      → Working n (count_found w pid field m o)
  count_found-Working pid field m none h = h
  count_found-Working pid field m (some p) h = count_process-Working pid field p m h

  pub count_for-Working :
      {n : ℕ} (field : QtyField) (m : Operator) (o : Option ℕ)
      → Working n m
      → Working n (count_for w field m o)
  count_for-Working field m none h = h
  count_for-Working field m (some pid) h = count_found-Working pid field m _ h

  pub handle_sort_result-Working :
      {n : ℕ} (field : QtyField) (m : Operator)
      → Working n m
      → Working n (handle_sort_result w field m)
  unfolding handle_sort_result
  handle_sort_result-Working field m h = count_for-Working field m m.state.process_id h

  pub sorted_1l-Working : {n : ℕ} (m : Operator) → Working n m → Working n (sorted_1l w m)
  unfolding sorted_1l
  sorted_1l-Working m h = cleanup_if_empty-Working _ (
      handle_sort_result-Working success_1l
        (set_item none (set_station_1l false (on_center_servo_1l m))) (centre_1l-Working m h))

  pub sorted_2l-Working : {n : ℕ} (m : Operator) → Working n m → Working n (sorted_2l w m)
  unfolding sorted_2l
  sorted_2l-Working m h = cleanup_if_empty-Working _ (
      handle_sort_result-Working success_2l
        (set_item none (set_station_2l false (on_center_servo_2l m))) (centre_2l-Working m h))

  pub passed_all-Working :
      {n : ℕ} (centring : Bool) (m : Operator) → Working n m → Working n (passed_all w centring m)
  unfolding passed_all
  passed_all-Working centring m h = cleanup_if_empty-Working _ (
      handle_sort_result-Working unclassified
        (give_up centring (removed_dir m.state.current_item) (set_item none m))
        (give_up-Working centring (removed_dir m.state.current_item) (set_item none m) h))

  pub timed_out-Working :
      {n : ℕ} (station : Station) (m : Operator) → Working n m → Working n (timed_out w station m)
  unfolding timed_out
  timed_out-Working station_1l m h = cleanup_if_empty-Working _ (
      handle_sort_result-Working unclassified (set_item none (centred station_1l m))
        (centre_1l-Working m h))
  timed_out-Working station_2l m h = cleanup_if_empty-Working _ (
      handle_sort_result-Working unclassified (set_item none (centred station_2l m))
        (centre_2l-Working m h))

  pub handle_sort_timeout-Working :
      {n : ℕ} (station : Station) (m : Operator)
      → Working n m
      → Working n (handle_sort_timeout w station m)
  unfolding handle_sort_timeout
  handle_sort_timeout-Working station m h =
      pause-Working (timed_out w station m) (timed_out-Working station m h)
