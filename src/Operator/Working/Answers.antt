-- ===== src/Operator/Working/Answers.antt =====
-- The invariant behind a code of the camera and a status of the conveyor.
use iot_repo.Base.{
  ℕ, ◌+◌, ◌-◌, ◌≤◌, ◌≡◌, refl, subst, true, List, ◌∷◌, ◌++◌, Option, none, some, if◌then◌else◌, ltb,
  arith,
}
use iot_repo.Base.Text.{Bytes, codes}
use iot_repo.Operator.{
  SortDirection, line_1l, line_2l, warn, FsmState, fsm_idle, fsm_running, fsm_paused, QrGate, Call,
  control, Operator, World, publish, is_active,
}
use iot_repo.Operator.Words.{direction_text, classify, strip, is_empty}
use iot_repo.Operator.Gate.{QrRejectReason, try_accept, accept}
use iot_repo.Operator.States.{
  watchdog_interval, queue_size, enqueue, unless_rejected, take_code, code_missing, active_qr,
  watchdog, active_status,
}
use iot_repo.Operator.Heard.{starts, sorts, heard}
use iot_repo.Operator.Working.{one_if, routed, Working, either, publish-Working}

pub code_missing-Working : {n : ℕ} (m : Operator) → Working n m → Working n (code_missing m)
unfolding code_missing direction_text
code_missing-Working m h = publish-Working m (sorts warn) refl h

routed-sorts :
    (l : List Call) (d : SortDirection)
    → routed (control (codes "SORT_DIR:" ++ direction_text d) ∷ l) ≤ 1 + routed l
unfolding routed direction_text
routed-sorts l line_1l = omega arith
routed-sorts l line_2l = omega arith
routed-sorts l warn = omega arith

module _ (w : World) where
  pub watchdog-Working : {n : ℕ} (m : Operator) → Working n m → Working n (watchdog w m)
  unfolding watchdog
  watchdog-Working {n} m h =
      let now = w.monotonic m.calls in
      let asked = record m { calls = m.calls + 1 } in
      let woken = record asked { last_watchdog_ts = now } in
      let sent = publish (codes "SORT_START") woken in
      let t = ltb (now - m.last_watchdog_ts) watchdog_interval in
      either (Working n) (is_active m) (if t then asked else sent) m
        (either (Working n) t asked sent h (publish-Working woken starts refl h)) h

  -- A code passes the filter of an open gate of a running process only.
  pub try_accept-open :
      (now : ℕ) (code : Bytes) (size : ℕ) (g : QrGate)
      → try_accept w now code size g ≡ none
      → (g.process_active ≡ true) × ((g.camera_gate_open ≡ true) × (size ≡ 0))
  unfolding try_accept
  try_accept-open now code size g passed = (ground arith, (ground arith, ground arith))

  pub enqueue-Working :
      {n : ℕ} (code : Bytes) (m : Operator)
      → m.qr_gate.camera_gate_open ≡ true
      → Working n m
      → Working n (enqueue w code m)
  unfolding enqueue accept
  enqueue-Working {n} code m opened (awake, h) =
      let d = classify w code m.state.order_items in
      let room = subst (λ t. routed m.effects + one_if t ≤ n) opened h.budget in
      (
        awake,
        record {
          guarded = h.guarded;
          ranged = h.ranged;
          budget = omega (arith, room, routed-sorts m.effects d);
          understood = (heard (sorts d), h.understood);
        },
      )

  pub unless_rejected-Working :
      {n : ℕ} (o : Option QrRejectReason) (code : Bytes) (m : Operator)
      → (o ≡ none → m.qr_gate.camera_gate_open ≡ true)
      → Working n m
      → Working n (unless_rejected w o code m)
  unless_rejected-Working (some reason) code m opened h = h
  unless_rejected-Working none code m opened h = enqueue-Working code m (opened refl) h

  pub take_code-Working :
      {n : ℕ} (code : Bytes) (m : Operator) → Working n m → Working n (take_code w code m)
  unfolding take_code
  take_code-Working code m h =
      let asked = record m { calls = m.calls + 1 } in
      unless_rejected-Working _ code asked
        (λ passed.
          (try_accept-open (w.monotonic m.calls) code (queue_size m.state.current_item) m.qr_gate
            passed).1.0)
        h

  pub active_qr-Working :
      {n : ℕ} (code : Option Bytes) (m : Operator) → Working n m → Working n (active_qr w code m)
  active_qr-Working none m h = code_missing-Working m h
  active_qr-Working {n} (some code) m h =
      either (Working n) (is_empty (strip code)) (code_missing m) (take_code w code m)
        (code_missing-Working m h) (take_code-Working code m h)

  pub active_status-Working :
      {n : ℕ} (s : FsmState) (m : Operator) → Working n m → Working n (active_status w s m)
  active_status-Working fsm_idle m h = watchdog-Working m h
  active_status-Working fsm_running m h = h
  active_status-Working fsm_paused m h = h
