-- ===== src/Operator/Callbacks.antt =====
-- classify_page.py: the spin boxes, and what the callbacks of the controller keep or send. Labels,
-- tables and the camera preview are left out.
use iot_repo.Base.{ℕ, ◌+◌, true, false, ◌++◌, ◌==◌, List, ◌∷◌, Option, none, some, if◌then◌else◌}
use iot_repo.Base.Text.{Bytes, codes}
use iot_repo.Operator.{
  FsmState, fsm_idle, Process, Call, control, Operator, World, or_default, publish,
}
use iot_repo.Operator.Words.{str}

-- The timers run for SERVO_COUNT_TIMEOUT_MS.
abbrev pub on_center_servo_1l : Operator → Operator
on_center_servo_1l m = publish (codes "SERVO_A:0") (record m { timer_servo_1l = false })

abbrev pub on_center_servo_2l : Operator → Operator
on_center_servo_2l m = publish (codes "SERVO_B:0") (record m { timer_servo_2l = false })

abbrev pub update_buttons : FsmState → Operator → Operator
update_buttons shown m = record m { current_fsm_state = shown }

-- valueChanged comes only for another value, and is connected to the publishing of that value.
unfoldable pub value_changed : Bytes → ℕ → ℕ → List Call → List Call
value_changed prefix old new log = if new == old then log else control (prefix ++ str new) ∷ log

abbrev pub on_open_servo_1l : Operator → Operator
on_open_servo_1l m =
    publish (codes "SERVO_A:" ++ str m.spin_boxes.servo_a_spin) (record m { timer_servo_1l = true })

abbrev pub on_open_servo_2l : Operator → Operator
on_open_servo_2l m =
    publish (codes "SERVO_B:" ++ str m.spin_boxes.servo_b_spin) (record m { timer_servo_2l = true })

-- The list stays where it cannot be fetched.
abbrev pub listed : Option (List Process) → List Process → List Process
listed none processes = processes
listed (some processes) _ = processes

module _ (w : World) where
  -- setValue and the editing of each of the three boxes. No signal of the first is connected.
  unfoldable pub set_dc_spin : ℕ → Operator → Operator
  set_dc_spin v m = record m {
    spin_boxes = record (m.spin_boxes) { dc_spin = w.spin_value 150 255 v };
  }

  unfoldable pub set_servo_a_spin : ℕ → Operator → Operator
  unfolding value_changed
  set_servo_a_spin v m =
      let new = w.spin_value 0 45 v in
      record m {
        spin_boxes = record (m.spin_boxes) { servo_a_spin = new };
        effects = value_changed (codes "SERVO_A:") m.spin_boxes.servo_a_spin new m.effects;
      }

  unfoldable pub set_servo_b_spin : ℕ → Operator → Operator
  unfolding value_changed
  set_servo_b_spin v m =
      let new = w.spin_value 0 45 v in
      record m {
        spin_boxes = record (m.spin_boxes) { servo_b_spin = new };
        effects = value_changed (codes "SERVO_B:") m.spin_boxes.servo_b_spin new m.effects;
      }

  -- The boxes go back to the values of the hardware, the angles with their signals.
  unfoldable pub reset_monitor : Operator → Operator
  unfolding set_dc_spin set_servo_a_spin set_servo_b_spin
  reset_monitor m =
      let stopped = record m { timer_servo_1l = false; timer_servo_2l = false } in
      set_servo_b_spin (or_default 35 w.found_deg_b) (
        set_servo_a_spin (or_default 45 w.found_deg_a)
          (set_dc_spin (or_default 180 w.found_speed) stopped))

  unfoldable pub on_process_stopped : Operator → Operator
  unfolding reset_monitor
  on_process_stopped m = update_buttons fsm_idle (reset_monitor m)

  unfoldable pub refresh_classify_list : Operator → Operator
  refresh_classify_list m = record m {
    classify_processes = listed (w.list_processes m.calls) m.classify_processes;
    calls = m.calls + 1;
  }

  unfoldable pub on_process_completed : Operator → Operator
  unfolding reset_monitor refresh_classify_list
  on_process_completed m = refresh_classify_list (reset_monitor m)
