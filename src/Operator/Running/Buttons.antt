-- ===== src/Operator/Running/Buttons.antt =====
-- The invariant behind the buttons of the page.
use iot_repo.Base.{
  ℕ, zero, suc, ◌+◌, ◌≡◌, refl, true, Bool-cases, inl, inr, List, ◌∷◌, Option, none, some,
}
use iot_repo.Base.Text.{codes}
use iot_repo.Operator.{
  FsmState, fsm_idle, fsm_running, fsm_paused, SensorEvent, idle_state, active_state, paused_state,
  Station, station_1l, station_2l, QrGate, closed_gate, Process, SpinBoxes, no_process, Call,
  api_process_start, api_process_stop, Operator, World, publish, is_some, is_active,
}
use iot_repo.Operator.Gate.{set_process_active}
use iot_repo.Operator.Callbacks.{
  set_dc_spin, set_servo_a_spin, set_servo_b_spin, update_buttons, reset_monitor,
  on_process_stopped, refresh_classify_list,
}
use iot_repo.Operator.Counting.{find_process}
use iot_repo.Operator.Transition.{pause, resume, transition_to}
use iot_repo.Operator.Page.{
  shutdown, target_pid, stop_target, stop, stop_timer, on_dc_apply, pause_in, with_order, started,
  start, start_found, on_start_clicked, on_stop_clicked,
}
use iot_repo.Operator.Heard.{Heard, heard, starts, stops, pauses, resumes, speeds}
use iot_repo.Operator.Working.{
  with_detection, KeepsRange, Sound, say, clear, widen, either, publish-Working,
}
use iot_repo.Operator.Working.Boxes.{
  set_dc_spin-Sound, set_servo_a_spin-Sound, set_servo_b_spin-Sound, reset_monitor-Sound,
}
use iot_repo.Operator.Running.{Kept, awake-Kept}

pub pause-Kept : {n : ℕ} (m : Operator) → Kept n m → Kept n (pause m)
unfolding pause transition_to
pause-Kept {n} m h =
    let left = record m { current_state = paused_state } in
    either (Kept n) (is_active m) (update_buttons fsm_paused (publish (codes "SORT_PAUSE") left)) m
      (awake-Kept (update_buttons fsm_paused (publish (codes "SORT_PAUSE") left))
        (publish-Working left pauses refl (refl, h.sound)))
      h

-- The gate goes on for a process.
activate :
    {n : ℕ} {pid : Option ℕ} {g : QrGate} {s : SpinBoxes} {l : List Call}
    → is_some pid ≡ true
    → Sound n pid g s l
    → Sound n pid (set_process_active true g) s l
unfolding set_process_active
activate busy h = record {
  guarded = λ e. busy;
  budget = h.budget;
  ranged = h.ranged;
  understood = h.understood;
}

pub resume-Kept : {n : ℕ} (m : Operator) → Kept n m → Kept n (resume m)
unfolding resume transition_to
resume-Kept {n} m h = elim (Bool-cases (is_active m)) [
  | inl busy ↦ rw busy (
      let entered = transition_to active_state m in
      let told = publish (codes "SORT_RESUME") entered in
      awake-Kept (update_buttons fsm_running told)
        (publish-Working entered resumes refl (refl, activate busy h.sound)))
  | inr free ↦ rw free h
]

pub stop_timer-Kept :
    {n : ℕ} (station : Station) (m : Operator) → Kept n m → Kept n (stop_timer station m)
stop_timer-Kept station_1l m h = record { sound = h.sound; at_rest = h.at_rest }
stop_timer-Kept station_2l m h = record { sound = h.sound; at_rest = h.at_rest }

pub shutdown-Kept : {n : ℕ} (m : Operator) → Kept n m → Kept n (shutdown m)
unfolding shutdown
shutdown-Kept {n} m h = record {
  sound = clear (
      either (λ x. Sound n m.state.process_id m.qr_gate x.spin_boxes x.effects) (is_active m)
        (publish (codes "SORT_STOP") m) m (say _ (heard stops) refl h.sound) h.sound);
  at_rest = λ asleep. (refl, refl);
}

pub pause_in-Kept : {n : ℕ} (s : FsmState) (m : Operator) → Kept n m → Kept n (pause_in s m)
pause_in-Kept fsm_paused m h = resume-Kept m h
pause_in-Kept fsm_idle m h = pause-Kept m h
pause_in-Kept fsm_running m h = pause-Kept m h

pub update_buttons-Kept :
    {n : ℕ} (s : FsmState) (m : Operator) → Kept n m → Kept n (update_buttons s m)
update_buttons-Kept s m h = record { sound = h.sound; at_rest = h.at_rest }

pub widen-Kept : {n : ℕ} (e : SensorEvent) (m : Operator) → Kept n m → Kept (with_detection e n) m
widen-Kept e m h = record { sound = widen e h.sound; at_rest = h.at_rest }

-- The speed that is sent is one of the box.
pub on_dc_apply-Kept : {n : ℕ} (m : Operator) → Kept n m → Kept n (on_dc_apply m)
unfolding on_dc_apply
on_dc_apply-Kept m h = record {
  sound = say _ (heard (speeds m.spin_boxes.dc_spin h.sound.ranged.speed.1)) refl h.sound;
  at_rest = h.at_rest;
}

module _ (w : World) where
  pub refresh_classify_list-Kept :
      {n : ℕ} (m : Operator) → Kept n m → Kept n (refresh_classify_list w m)
  unfolding refresh_classify_list
  refresh_classify_list-Kept m h = record { sound = h.sound; at_rest = h.at_rest }

  pub with_order-Sound :
      {n : ℕ} (order_id : ℕ) (m : Operator)
      → is_active m ≡ true
      → Sound n m.state.process_id m.qr_gate m.spin_boxes m.effects
      → let x = with_order w order_id m in
        (is_active x ≡ true) × Sound n x.state.process_id x.qr_gate x.spin_boxes x.effects
  unfolding with_order
  with_order-Sound zero m busy h = (busy, h)
  with_order-Sound (suc k) m busy h = (busy, h)

  pub started-Kept :
      {n : ℕ} (p : Process) (m : Operator)
      → Sound n m.state.process_id m.qr_gate m.spin_boxes m.effects
      → Kept n (started w p m)
  unfolding started transition_to
  started-Kept p m h =
      let chosen = record m {
        state = record no_process { process_id = some p.process_id; process_data = some p };
        qr_gate = closed_gate;
      } in
      let ordered = with_order w p.order_id chosen in
      let (busy, sound) = with_order-Sound p.order_id chosen refl (record {
        guarded = λ e. refl;
        budget = (clear h).budget;
        ranged = h.ranged;
        understood = h.understood;
      }) in
      let entered = transition_to active_state ordered in
      let told = publish (codes "SORT_START") entered in
      awake-Kept (update_buttons fsm_running told)
        (publish-Working entered starts refl (refl, activate busy sound))

  pub start-Kept : {n : ℕ} (p : Process) (m : Operator) → Kept n m → Kept n (start w p m)
  unfolding start
  start-Kept {n} p m h =
      let asked = record m {
        effects = api_process_start p.process_id ∷ m.effects;
        calls = m.calls + 1;
      } in
      let told = say (api_process_start p.process_id) (unfold Heard in tt) refl h.sound in
      either (Kept n) (w.process_start m.calls) (started w p asked) asked
        (started-Kept p asked told) (record { sound = told; at_rest = h.at_rest })

  module _ (keeps : KeepsRange w) where
    pub reset_monitor-Kept : {n : ℕ} (m : Operator) → Kept n m → Kept n (reset_monitor w m)
    unfolding reset_monitor
    reset_monitor-Kept m h = record {
      sound = reset_monitor-Sound w keeps m h.sound;
      at_rest = h.at_rest;
    }

    pub stop_target-Kept :
        {n : ℕ} (o : Option ℕ) (m : Operator) → Kept n m → Kept n (stop_target w o m)
    unfolding transition_to on_process_stopped
    stop_target-Kept none m h = h
    stop_target-Kept (some pid) m h =
        let told = record m { effects = api_process_stop pid ∷ m.effects } in
        let stopped = transition_to idle_state (publish (codes "SORT_STOP") told) in
        update_buttons-Kept fsm_idle (reset_monitor w stopped) (
          reset_monitor-Kept stopped (record {
            sound = clear (
                say _ (heard stops) refl
                  (say (api_process_stop pid) (unfold Heard in tt) refl h.sound));
            at_rest = λ asleep. (refl, refl);
          }))

    pub start_found-Kept :
        {n : ℕ} (o : Option Process) (m : Operator) → Kept n m → Kept n (start_found w o m)
    start_found-Kept none m h = h
    start_found-Kept (some p) m h = reset_monitor-Kept (start w p m) (start-Kept p m h)

    pub on_start_clicked-Kept :
        {n : ℕ} (pid : Option ℕ) (m : Operator) → Kept n m → Kept n (on_start_clicked w pid m)
    unfolding on_start_clicked
    on_start_clicked-Kept none m h = h
    on_start_clicked-Kept (some pid) m h =
        refresh_classify_list-Kept (start_found w (find_process pid m.classify_processes) m)
          (start_found-Kept (find_process pid m.classify_processes) m h)

    pub on_stop_clicked-Kept :
        {n : ℕ} (pid : ℕ) (m : Operator) → Kept n m → Kept n (on_stop_clicked w pid m)
    unfolding on_stop_clicked stop
    on_stop_clicked-Kept pid m h =
        let target = target_pid pid m.state.process_id in
        refresh_classify_list-Kept (stop_target w target m) (stop_target-Kept target m h)

    pub set_dc_spin-Kept : {n : ℕ} (v : ℕ) (m : Operator) → Kept n m → Kept n (set_dc_spin w v m)
    unfolding set_dc_spin
    set_dc_spin-Kept v m h = record {
      sound = set_dc_spin-Sound w keeps v m h.sound;
      at_rest = h.at_rest;
    }

    pub set_servo_a_spin-Kept :
        {n : ℕ} (v : ℕ) (m : Operator) → Kept n m → Kept n (set_servo_a_spin w v m)
    unfolding set_servo_a_spin
    set_servo_a_spin-Kept v m h = record {
      sound = set_servo_a_spin-Sound w keeps v m h.sound;
      at_rest = h.at_rest;
    }

    pub set_servo_b_spin-Kept :
        {n : ℕ} (v : ℕ) (m : Operator) → Kept n m → Kept n (set_servo_b_spin w v m)
    unfolding set_servo_b_spin
    set_servo_b_spin-Kept v m h = record {
      sound = set_servo_b_spin-Sound w keeps v m h.sound;
      at_rest = h.at_rest;
    }
