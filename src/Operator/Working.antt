-- ===== src/Operator/Working.antt =====
-- What the operator's program keeps while a process may run.
pub mod Boxes
pub mod Finishing
pub mod Answers
pub mod Sensors
use iot_repo.Base.{
  ℕ, zero, suc, ◌+◌, ◌-◌, ◌≤◌, ◌≡◌, refl, ◌∙◌, sym, ap, subst, Bool, true, false, not, ◌&&◌, ◌||◌,
  Bool-cases, Option-cases, inl, inr, List, [], ◌∷◌, ◌++◌, Option, none, some, if◌then◌else◌, leb,
  ltb, All, arith,
}
use iot_repo.Base.Text.{Bytes, codes, bytes_eq}
use iot_repo.Devkit.Command.{plain, sort_dir_1l, sort_dir_2l, sort_dir_warn, Command}
use iot_repo.Operator.{
  SortDirection, line_1l, line_2l, warn, FsmState, fsm_idle, fsm_running, fsm_paused, SensorEvent,
  proximity_on, proximity_off, camera_detect, s1_detected, s2_detected, s3_detected, s4_detected,
  s5_detected, camera_timeout, sort_timeout_1l, sort_timeout_2l, StateName, idle_state,
  active_state, paused_state, Station, station_1l, station_2l, QtyField, success_1l, success_2l,
  unclassified, QrGate, closed_gate, Process, SpinBoxes, Call, control, api_process_start,
  api_process_stop, api_process_update, Operator, World, publish, is_some, is_active,
}
use iot_repo.Operator.Words.{str, direction_text, classify, strip, is_empty}
use iot_repo.Operator.Gate.{
  QrRejectReason, open_camera_gate, try_accept, accept, set_process_active,
}
use iot_repo.Operator.Callbacks.{
  on_center_servo_1l, on_center_servo_2l, on_open_servo_1l, on_open_servo_2l, refresh_classify_list,
  on_process_completed,
}
use iot_repo.Operator.Counting.{
  cleanup_if_empty, complete, is_complete, with_qty, qty, count_process, count_found, count_for,
  find_process, store_process, handle_sort_result,
}
use iot_repo.Operator.Transition.{
  set_item, set_station_1l, set_station_2l, pause, resume, transition_to,
}
use iot_repo.Operator.States.{
  watchdog_interval, open_for_1l, open_for_2l, removed_dir, queue_size, camera_detected, give_up,
  handle_s1_detected, handle_s2_detected, sorted_1l, sorted_2l, passed_all, centred, timed_out,
  handle_sort_timeout, active_event, paused_event, enqueue, unless_rejected, take_code,
  code_missing, active_qr, watchdog, active_status,
}
use iot_repo.Operator.Heard.{
  Sends, starts, stops, pauses, resumes, sorts, turns_a, turns_b, Heard, heard, centres_a,
  centres_b,
}

abbrev pub is_idle : StateName → Bool
is_idle idle_state = true
is_idle _ = false

-- One bottle more where the camera has seen one.
abbrev pub with_detection : SensorEvent → ℕ → ℕ
with_detection camera_detect n = 1 + n
with_detection _ n = n

detection_more : (e : SensorEvent) (n : ℕ) → n ≤ with_detection e n
detection_more proximity_on n = omega arith
detection_more proximity_off n = omega arith
detection_more camera_detect n = omega arith
detection_more s1_detected n = omega arith
detection_more s2_detected n = omega arith
detection_more s3_detected n = omega arith
detection_more s4_detected n = omega arith
detection_more s5_detected n = omega arith
detection_more camera_timeout n = omega arith
detection_more sort_timeout_1l n = omega arith
detection_more sort_timeout_2l n = omega arith

-- The bottles that the program has sent to a station.
abbrev pub is_route : Call → Bool
is_route (control text) = bytes_eq text (codes "SORT_DIR:1L") || bytes_eq text (codes "SORT_DIR:2L")
is_route _ = false

abbrev pub one_if : Bool → ℕ
one_if true = 1
one_if false = 0

unfoldable pub routed : List Call → ℕ
routed [] = 0
routed (c ∷ l) = one_if (is_route c) + routed l

-- The ranges that the page gives the spin boxes.
pub record InRange (s : SpinBoxes) : Type 0 where
  pub speed : (150 ≤ s.dc_spin) × (s.dc_spin ≤ 255)
  pub angle_a : s.servo_a_spin ≤ 45
  pub angle_b : s.servo_b_spin ≤ 45

-- A QSpinBox keeps its value within its range.
abbrev pub KeepsRange : World → Type 0
KeepsRange w = (lo hi v : ℕ) → lo ≤ hi → (lo ≤ w.spin_value lo hi v) × (w.spin_value lo hi v ≤ hi)

-- Of a state, a process, a gate, the spin boxes and a log behind at most that many bottles at the camera.
pub record Sound (n : ℕ) (pid : Option ℕ) (g : QrGate) (s : SpinBoxes) (l : List Call)
    : Type 0 where
  -- The gate is open for a process only.
  pub guarded : g.process_active ≡ true → is_some pid ≡ true
  -- An open gate is a bottle that is not routed yet.
  pub budget : routed l + one_if g.camera_gate_open ≤ n
  pub ranged : InRange s
  pub understood : All Heard l

abbrev pub Working : ℕ → Operator → Type 0
Working n m =
    (is_idle m.current_state ≡ false) × Sound n m.state.process_id m.qr_gate m.spin_boxes m.effects

-- Calls that route nothing.
pub say :
    {n : ℕ} {pid : Option ℕ} {g : QrGate} {s : SpinBoxes} {l : List Call} (c : Call)
    → Heard c
    → is_route c ≡ false
    → Sound n pid g s l
    → Sound n pid g s (c ∷ l)
unfolding routed
say {n} {g} c understood quiet h = record {
  guarded = h.guarded;
  budget = rw quiet (omega (arith, h.budget));
  ranged = h.ranged;
  understood = (understood, h.understood);
}

pub widen :
    {n : ℕ} {pid : Option ℕ} {g : QrGate} {s : SpinBoxes} {l : List Call} (e : SensorEvent)
    → Sound n pid g s l
    → Sound (with_detection e n) pid g s l
widen {n} e h =
    let more : n ≤ with_detection e n = detection_more e n in
    record {
      guarded = h.guarded;
      budget = omega (arith, h.budget, more);
      ranged = h.ranged;
      understood = h.understood;
    }

-- The process and the gate are cleared.
pub clear :
    {n : ℕ} {pid : Option ℕ} {g : QrGate} {s : SpinBoxes} {l : List Call}
    → Sound n pid g s l
    → Sound n none closed_gate s l
clear {g} h = record {
  guarded = λ e. cc;
  budget = omega (arith, h.budget);
  ranged = h.ranged;
  understood = h.understood;
}

-- A command that is no route.
pub publish-Working :
    {n : ℕ} {text : Bytes} {c : Command} (m : Operator)
    → Sends text c
    → is_route (control text) ≡ false
    → Working n m
    → Working n (publish text m)
publish-Working m sent quiet (awake, h) = (awake, say (control _) (heard sent) quiet h)

pub either : {A : Type 0} (P : A → Type 0) (t : Bool) (x y : A) → P x → P y → P (if t then x else y)
either P true x y hx hy = hx
either P false x y hx hy = hy
