-- ===== src/Operator/Counts.antt =====
-- What a bottle that is through changes: the count of the process, and its end.
use iot_repo.Base.{
  ℕ, ◌+◌, ◌≤◌, ◌<◌, ◌≡◌, ◌≢◌, refl, ◌∙◌, sym, ap, subst, true, false, ◌⊎◌, inl, inr, Bool-cases,
  ◌==◌, List, ◌∷◌, ◌++◌, some, arith,
}
use iot_repo.Base.Text.{Bytes, codes}
use iot_repo.Operator.{
  QtyField, success_1l, success_2l, unclassified, closed_gate, Process, no_process, SpinBoxes, Call,
  control, api_process_stop, api_process_update, Operator, World, hardware,
}
use iot_repo.Operator.Words.{str}
use iot_repo.Operator.Callbacks.{
  value_changed, reset_monitor, refresh_classify_list, on_process_completed,
}
use iot_repo.Operator.Counting.{
  find_process, qty, with_qty, sorted_total, is_complete, complete, count_process, count_found,
  count_for, handle_sort_result,
}

-- The order has as many bottles as are counted with one more.
pub Last : Process → Type 0
Last p = (0 < p.order_total_qty) × (p.order_total_qty ≤ sorted_total p + 1)

-- A servo's box that is set to an angle sends it where it showed another, and else nothing.
abbrev pub Turned : Bytes → ℕ → ℕ → List Call → List Call → Type 0
Turned prefix old new before after =
    ((old ≡ new) × (after ≡ before))
    ⊎ ((old ≢ new) × (after ≡ control (prefix ++ str new) ∷ before))

-- The boxes of the servos at their angles again, first that of A and then that of B.
abbrev pub Recalled : SpinBoxes → SpinBoxes → List Call → List Call → Type 0
Recalled old new before after =
    (between : List Call) × (Turned (codes "SERVO_A:") old.servo_a_spin new.servo_a_spin before
        between
      × Turned (codes "SERVO_B:") old.servo_b_spin new.servo_b_spin between after)

-- One more bottle of a process: the server is told, and behind the last one the conveyor and the server
-- are stopped and everything is reset; before it, the process, the gate and the boxes stay.
pub data Counted (w : World) (pid : ℕ) (field : QtyField) (p : Process) (m x : Operator)
    : Type 0 where
  goes_on :
      ¬ (Last p)
      → x.state ≡ m.state
      → x.qr_gate ≡ m.qr_gate
      → x.spin_boxes ≡ m.spin_boxes
      → x.effects ≡ api_process_update pid field (qty field p + 1) ∷ m.effects
      → Counted w pid field p m x
  completes :
      Last p
      → x.state ≡ no_process
      → x.qr_gate ≡ closed_gate
      → (x.timer_servo_1l ≡ false) × (x.timer_servo_2l ≡ false)
      → x.spin_boxes ≡ hardware w
      → Recalled m.spin_boxes
          (hardware w)
          (api_process_stop pid
            ∷ control (codes "SORT_STOP")
            ∷ api_process_update pid field (qty field p + 1)
            ∷ m.effects)
          x.effects
      → Counted w pid field p m x

is_complete-Last :
    (field : QtyField) (p : Process)
    → is_complete (with_qty field (qty field p + 1) p) ≡ true
    → Last p
unfolding Last
is_complete-Last success_1l p e = (ground arith, ground arith)
is_complete-Last success_2l p e = (ground arith, ground arith)
is_complete-Last unclassified p e = (ground arith, ground arith)

not_complete :
    (field : QtyField) (p : Process)
    → is_complete (with_qty field (qty field p + 1) p) ≡ false
    → ¬ (Last p)
unfolding Last
not_complete success_1l p e (a, b) = ground arith
not_complete success_2l p e (a, b) = ground arith
not_complete unclassified p e (a, b) = ground arith

value_changed-Turned :
    (prefix : Bytes) (old new : ℕ) (log : List Call)
    → Turned prefix old new log (value_changed prefix old new log)
unfolding value_changed
value_changed-Turned prefix old new log = elim (Bool-cases (new == old)) [
  | inl e ↦ rw e (inl (ground arith, refl))
  | inr e ↦ rw e (inr (ground arith, refl))
]

module _ (w : World) where
  count_process-Counted :
      (pid : ℕ) (field : QtyField) (p : Process) (m : Operator)
      → Counted w pid field p m (count_process w pid field p m)
  unfolding count_process complete on_process_completed reset_monitor refresh_classify_list
  count_process-Counted pid field p m =
      let told =
        api_process_stop pid
        ∷ control (codes "SORT_STOP")
        ∷ api_process_update pid field (qty field p + 1)
        ∷ m.effects in
      let a_sent =
        value_changed (codes "SERVO_A:") m.spin_boxes.servo_a_spin (hardware w).servo_a_spin told in
      elim (Bool-cases (is_complete (with_qty field (qty field p + 1) p))) [
        | inl e ↦ rw e (
            completes (is_complete-Last field p e) refl refl (refl, refl) refl
              (
                a_sent,
                (
                  value_changed-Turned (codes "SERVO_A:") m.spin_boxes.servo_a_spin
                      (hardware w).servo_a_spin told,
                  value_changed-Turned (codes "SERVO_B:") m.spin_boxes.servo_b_spin
                      (hardware w).servo_b_spin a_sent,
                ),
              ))
        | inr e ↦ rw e (goes_on (not_complete field p e) refl refl refl refl)
      ]

  -- A process that runs and is in the list is the one that is counted.
  handle_sort_result-count_process :
      (pid : ℕ) (field : QtyField) (p : Process) (m : Operator)
      → m.state.process_id ≡ some pid
      → find_process pid m.classify_processes ≡ some p
      → handle_sort_result w field m ≡ count_process w pid field p m
  unfolding handle_sort_result
  handle_sort_result-count_process pid field p m running found =
      ap (count_for w field m) running ∙ ap (count_found w pid field m) found

  -- For a process that runs and is in the list, one bottle more has the server told of that count
  -- plus one; where the order has not more bottles than that total (and has any) the conveyor and
  -- the process are stopped, the process, the gate and the timers are reset, and the spin boxes
  -- show the values of the hardware again, each servo whose box showed another angle being sent its
  -- own, A before B; otherwise the process, the gate and the boxes stay, and nothing more is sent.
  pub handle_sort_result-Counted :
      (pid : ℕ) (field : QtyField) (p : Process) (m : Operator)
      → m.state.process_id ≡ some pid
      → find_process pid m.classify_processes ≡ some p
      → Counted w pid field p m (handle_sort_result w field m)
  handle_sort_result-Counted pid field p m running found =
      subst (Counted w pid field p m)
        (sym (handle_sort_result-count_process pid field p m running found))
        (count_process-Counted pid field p m)
