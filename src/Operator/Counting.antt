-- ===== src/Operator/Counting.antt =====
-- states/active.py: _handle_sort_result and _cleanup_if_empty, which the states share.
use iot_repo.Base.{
  ℕ, ◌+◌, Bool, false, ◌&&◌, List, [], ◌∷◌, Option, none, some, ltb, leb, ◌==◌, if◌then◌else◌,
}
use iot_repo.Base.Text.{codes}
use iot_repo.Operator.{
  QtyField, success_1l, success_2l, unclassified, Process, closed_gate, no_process,
  api_process_update, api_process_stop, Operator, World, publish,
}
use iot_repo.Operator.Callbacks.{refresh_classify_list, on_process_completed}

-- The first process of that id.
unfoldable pub find_process : ℕ → List Process → Option Process
find_process pid [] = none
find_process pid (p ∷ ps) =
    let rest = find_process pid ps in if p.process_id == pid then some p else rest

-- That process changed in place.
unfoldable pub store_process : ℕ → Process → List Process → List Process
store_process pid q [] = []
store_process pid q (p ∷ ps) =
    let rest = store_process pid q ps in if p.process_id == pid then q ∷ ps else p ∷ rest

abbrev pub qty : QtyField → Process → ℕ
qty success_1l p = p.success_1l_qty
qty success_2l p = p.success_2l_qty
qty unclassified p = p.unclassified_qty

abbrev pub with_qty : QtyField → ℕ → Process → Process
with_qty success_1l n p = record p { success_1l_qty = n }
with_qty success_2l n p = record p { success_2l_qty = n }
with_qty unclassified n p = record p { unclassified_qty = n }

abbrev pub sorted_total : Process → ℕ
sorted_total p = p.success_1l_qty + p.success_2l_qty + p.unclassified_qty

abbrev pub is_complete : Process → Bool
is_complete p = ltb 0 p.order_total_qty && leb p.order_total_qty (sorted_total p)

abbrev pub cleanup_stations : Operator → Operator
cleanup_stations m = record m {
  state = record m.state { station_1l_active = false; station_2l_active = false };
}

unfoldable pub cleanup_if_empty : Operator → Operator
cleanup_if_empty m = elim m.state.current_item [ none ↦ cleanup_stations m | some item ↦ m ]

module _ (w : World) where
  -- The process is over.
  unfoldable pub complete : ℕ → Operator → Operator
  complete pid m =
      let stopped = publish (codes "SORT_STOP") m in
      on_process_completed w (record stopped {
        effects = api_process_stop pid ∷ stopped.effects;
        state = no_process;
        qr_gate = closed_gate;
      })

  -- The count goes to the server, which may refuse it, and into the list; then the callback fetches
  -- the list again.
  unfoldable pub count_process : ℕ → QtyField → Process → Operator → Operator
  unfolding complete
  count_process pid field p m =
      let new_qty = qty field p + 1 in
      let counted = with_qty field new_qty p in
      let shown = refresh_classify_list w (record m {
        effects = api_process_update pid field new_qty ∷ m.effects;
        classify_processes = store_process pid counted m.classify_processes;
      }) in
      if is_complete counted then complete pid shown else shown

  abbrev pub count_found : ℕ → QtyField → Operator → Option Process → Operator
  count_found pid field m none = m
  count_found pid field m (some p) = count_process pid field p m

  abbrev pub count_for : QtyField → Operator → Option ℕ → Operator
  count_for field m none = m
  count_for field m (some pid) = count_found pid field m (find_process pid m.classify_processes)

  unfoldable pub handle_sort_result : QtyField → Operator → Operator
  unfolding find_process count_process
  handle_sort_result field m = count_for field m m.state.process_id
