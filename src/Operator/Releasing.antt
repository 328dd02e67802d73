-- ===== src/Operator/Releasing.antt =====
-- A code at the camera, from the operator's program to the conveyor that waits for it.
use iot_repo.Base.{
  ◌+◌, ◌≡◌, refl, ◌∙◌, sym, ap, subst, Bool, true, false, [], ◌∷◌, ◌++◌, Option, none, some,
  if◌then◌else◌,
}
use iot_repo.Base.Text.{Bytes, codes}
use iot_repo.Board.{Board, Message}
use iot_repo.Devkit.Command.{parse}
use iot_repo.Devkit.Diagram.{next, current_state-on_command}
use iot_repo.Devkit.Machine.{Machine, StateId, camera_hold, conveying}
use iot_repo.Devkit.Main.{deliver, receive}
use iot_repo.Devkit.Mqtt.{raw_callback, topic_control}
use iot_repo.Operator.{
  SortDirection, line_1l, line_2l, warn, control, active_state, Operator, World,
}
use iot_repo.Operator.Words.{strip, is_empty, classify, direction_text}
use iot_repo.Operator.Gate.{QrRejectReason, try_accept, accept}
use iot_repo.Operator.States.{
  queue_size, enqueue, unless_rejected, take_code, code_missing, active_qr, qr_in, handle_qr,
  error_code,
}
use iot_repo.Operator.Heard.{dir_command}

-- A text on the topic of the commands.
abbrev pub told : Bytes → Message
told text = record { topic = codes topic_control; payload = text }

-- A text that takes every conveyor from a state to a state.
unfoldable pub Moves : Bytes → StateId → StateId → Type 0
Moves text from to =
    (b : Board) (m : Machine)
    → m.mqtt.has_callback ≡ true
    → m.current_state ≡ some from
    → (deliver b (told text ∷ []) m).current_state ≡ some to

-- A text that makes every conveyor that waits at the camera go on.
abbrev pub Releases : Bytes → Type 0
Releases text = Moves text camera_hold conveying

raw_callback-sorts :
    (d : SortDirection) (m : Machine)
    → m.mqtt.has_callback ≡ true
    → raw_callback m.mqtt (told (codes "SORT_DIR:" ++ direction_text d)) ≡ some (dir_command d)
unfolding raw_callback direction_text parse
raw_callback-sorts line_1l m set = rw set refl
raw_callback-sorts line_2l m set = rw set refl
raw_callback-sorts warn m set = rw set refl

next-dir_command : (d : SortDirection) → next camera_hold (dir_command d).type ≡ conveying
unfolding next
next-dir_command line_1l = refl
next-dir_command line_2l = refl
next-dir_command warn = refl

sorts-Releases : (d : SortDirection) → Releases (codes "SORT_DIR:" ++ direction_text d)
unfolding Moves deliver receive
sorts-Releases d b m set waits = rw (raw_callback-sorts d m set) (
    current_state-on_command b camera_hold (dir_command d) m waits
    ∙ ap (λ (s : StateId). some s) (next-dir_command d))

abbrev pub is_missing : Option Bytes → Bool
is_missing none = true
is_missing (some code) = is_empty (strip code)

-- What a code does to a running process: a blank or missing one and one that the gate takes become the item
-- in flight and release the conveyor; of one that the gate refuses only the clock has been read.
pub data Reading (w : World) (m : Operator) : Option Bytes → Operator → Type 0 where
  missing :
      {code : Option Bytes} {x : Operator}
      → is_missing code ≡ true
      → x.state.current_item ≡ some (error_code, warn)
      → x.effects ≡ control (codes "SORT_DIR:WARN") ∷ m.effects
      → Releases (codes "SORT_DIR:WARN")
      → Reading w m code x
  refused :
      {code : Bytes} {x : Operator} (reason : QrRejectReason)
      → try_accept w (w.monotonic m.calls) code (queue_size m.state.current_item) m.qr_gate
        ≡ some reason
      → x ≡ record m { calls = m.calls + 1 }
      → Reading w m (some code) x
  taken :
      {code : Bytes} {x : Operator} (text : Bytes)
      → try_accept w (w.monotonic m.calls) code (queue_size m.state.current_item) m.qr_gate ≡ none
      → x.state.current_item ≡ some (code, classify w code m.state.order_items)
      → x.qr_gate.camera_gate_open ≡ false
      → x.effects ≡ control text ∷ m.effects
      → Releases text
      → Reading w m (some code) x

code_missing-Reading :
    (w : World) (code : Option Bytes) (m : Operator)
    → is_missing code ≡ true
    → Reading w m code (code_missing m)
unfolding code_missing
code_missing-Reading w code m e =
    missing e refl refl (unfold direction_text in (sorts-Releases warn))

module _ (w : World) where
  unless_rejected-Reading :
      (code : Bytes) (m : Operator) (o : Option QrRejectReason)
      → try_accept w (w.monotonic m.calls) code (queue_size m.state.current_item) m.qr_gate ≡ o
      → Reading w m (some code) (unless_rejected w o code (record m { calls = m.calls + 1 }))
  unfolding enqueue accept
  unless_rejected-Reading code m (some reason) e = refused reason e refl
  unless_rejected-Reading code m none e =
      taken (codes "SORT_DIR:" ++ direction_text (classify w code m.state.order_items)) e refl refl
        refl (sorts-Releases (classify w code m.state.order_items))

  either_code :
      (t : Bool) (code : Bytes) (m : Operator)
      → is_empty (strip code) ≡ t
      → Reading w m (some code) (if t then code_missing m else take_code w code m)
  unfolding take_code
  either_code true code m e = code_missing-Reading w (some code) m e
  either_code false code m e = unless_rejected-Reading code m _ refl

  active_qr-Reading : (code : Option Bytes) (m : Operator) → Reading w m code (active_qr w code m)
  active_qr-Reading none m = code_missing-Reading w none m refl
  active_qr-Reading (some code) m = either_code (is_empty (strip code)) code m refl

  -- In the active state, a missing or blank code becomes the item in flight as a warning and WARN
  -- is sent; a code that the gate refuses changes nothing but that the clock was read; a code that
  -- the gate takes becomes the item in flight with its direction, closes the gate and has a text
  -- sent. Either text takes every conveyor that waits in CAMERA_HOLD, with its callback set, to
  -- CONVEYING.
  pub handle_qr-Reading :
      (code : Option Bytes) (m : Operator)
      → m.current_state ≡ active_state
      → Reading w m code (handle_qr w code m)
  unfolding handle_qr
  handle_qr-Reading code m e =
      subst (λ s. Reading w m code (qr_in w s code m)) (sym e) (active_qr-Reading code m)
