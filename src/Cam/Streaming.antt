-- ===== src/Cam/Streaming.antt =====
-- When the camera streams, and what it sends.
use iot_repo.Base.{
  ℕ, zero, suc, ◌+◌, ◌≡◌, ◌∙◌, refl, sym, ap, ap₂, append-nil, Bool, true, ◌&&◌, Bool-cases, inl,
  inr, List, [], ◌∷◌, ◌++◌, Option, none, some, if◌then◌else◌, arith,
}
use iot_repo.Base.Text.{Bytes, codes, c_str, bytes_eq, after_prefix}
use iot_repo.Board.{Message}
use iot_repo.Cam.Udp.{send_frame}
use iot_repo.Cam.Mqtt.{
  StreamingState, idle, streaming, Action, nothing, stream, adjust, of_rest, raw_callback,
  message_text,
}
use iot_repo.Cam.Main.{
  CamBoard, CamMachine, handle_frame, apply, handle_streaming, run_state, run_fsm, deliver,
  reconnect, mqtt_loop, loop, run,
}

-- What the last order among the messages asks for.
abbrev is_order : Message → Bytes → Bool
is_order msg text =
    bytes_eq (c_str msg.topic) (codes "device/control") && bytes_eq (message_text msg.payload) text

pub ordered : List Message → StreamingState → StreamingState
ordered [] s = s
ordered (msg ∷ msgs) s = ordered msgs (
    if is_order msg (codes "SORT_START")
    then streaming
    else if is_order msg (codes "SORT_STOP")
    then idle
    else s)

-- What no message and no pass of the loop but a frame touches.
record Kept (m m' : CamMachine) : Type 0 where
  streamer : m'.streamer ≡ m.streamer
  sent : m'.sent ≡ m.sent
  held : m'.held ≡ m.held
  has_state : m'.mqtt.has_state ≡ m.mqtt.has_state

apply_state : (a : Action) (m : CamMachine) → Kept m (apply a m)
unfolding apply
apply_state nothing m = ground arith
apply_state (stream s) m = ground arith
apply_state (adjust s v) m = ground arith

rest_state :
    (o : Option Bytes) (has_sensor : Bool) (m : CamMachine)
    → (apply (of_rest has_sensor o) m).streaming_state ≡ m.streaming_state
unfolding apply
rest_state none has_sensor m = refl
rest_state (some cmd) has_sensor m = ground arith

apply-raw_callback :
    (has_sensor : Bool) (msg : Message) (m : CamMachine)
    → m.mqtt.has_state ≡ true
    → (apply (raw_callback has_sensor m.mqtt msg) m).streaming_state ≡ (
        if is_order msg (codes "SORT_START")
        then streaming
        else if is_order msg (codes "SORT_STOP")
        then idle
        else m.streaming_state)
unfolding raw_callback apply
apply-raw_callback has_sensor msg m h =
    let text = message_text msg.payload in
    elim (Bool-cases (bytes_eq (c_str msg.topic) (codes "device/control"))) [
      | inr elsewhere ↦ rw elsewhere refl
      | inl topic ↦ rw topic (elim (Bool-cases (bytes_eq text (codes "SORT_START"))) [
        | inl start ↦ rw (start, h) refl
        | inr not_start ↦ rw not_start (elim (Bool-cases (bytes_eq text (codes "SORT_STOP"))) [
          | inl stop ↦ rw (stop, h) refl
          | inr not_stop ↦ rw not_stop (rest_state (after_prefix (codes "CAM:") text) has_sensor m)
        ])
      ])
    ]

-- The frame that a pass takes: only while streaming.
unfoldable pub taken : StreamingState → Option Bytes → Option Bytes
taken streaming o = o
taken idle o = none

handle_frame_sent :
    (o : Option Bytes) (m : CamMachine)
    → ((handle_frame o m).sent ≡ m.sent ++ (send_frame o m.streamer).1)
      × ((handle_frame o m).streamer ≡ (send_frame o m.streamer).0)
unfolding handle_frame
handle_frame_sent none m = unfold send_frame in (sym (append-nil m.sent), refl)
handle_frame_sent (some fb) m = (refl, refl)

module _ (b : CamBoard) where
  deliver_keeps : (msgs : List Message) (m : CamMachine) → Kept m (deliver b msgs m)
  unfolding deliver
  deliver_keeps [] m = ground arith
  deliver_keeps (msg ∷ msgs) m =
      let m' : CamMachine = record m { calls = m.calls + 1 } in
      let a = raw_callback (b.has_sensor m.calls) m.mqtt msg in
      let first = apply_state a m' in
      let rest = deliver_keeps msgs (apply a m') in
      record {
        streamer = rest.streamer ∙ first.streamer;
        sent = rest.sent ∙ first.sent;
        held = rest.held ∙ first.held;
        has_state = rest.has_state ∙ first.has_state;
      }

  -- After any messages the camera streams as the last SORT_START or SORT_STOP among them says, and
  -- stays as it was if there is none.
  pub streaming_state-deliver :
      (msgs : List Message) (m : CamMachine)
      → m.mqtt.has_state ≡ true
      → (deliver b msgs m).streaming_state ≡ ordered msgs m.streaming_state
  unfolding deliver ordered
  streaming_state-deliver [] m h = refl
  streaming_state-deliver (msg ∷ msgs) m h =
      let m' : CamMachine = record m { calls = m.calls + 1 } in
      let a = raw_callback (b.has_sensor m.calls) m.mqtt msg in
      streaming_state-deliver msgs (apply a m') ((apply_state a m').has_state ∙ h)
      ∙ ap (ordered msgs) (apply-raw_callback (b.has_sensor m.calls) msg m' h)

  mqtt_loop_keeps : (m : CamMachine) → Kept m (mqtt_loop b m)
  unfolding mqtt_loop reconnect
  mqtt_loop_keeps m =
      let later : CamMachine = record m { calls = m.calls + 2 } in
      let d = deliver_keeps (b.mqtt_loop (m.calls + 1)) later in ground arith

  handle_frame_held : (o : Option Bytes) (m : CamMachine) → (handle_frame o m).held ≡ m.held
  unfolding handle_frame
  handle_frame_held none m = refl
  handle_frame_held (some fb) m = omega arith

  run_state_held : (s : StreamingState) (m : CamMachine) → (run_state b s m).held ≡ m.held
  unfolding run_state handle_streaming
  run_state_held idle m = refl
  run_state_held streaming m = handle_frame_held (b.fb_get m.calls) _

  loop_held : (m : CamMachine) → (loop b m).held ≡ m.held
  unfolding loop run_fsm
  loop_held m = run_state_held _ (mqtt_loop b m) ∙ (mqtt_loop_keeps m).held

  -- However long the loop runs, every frame buffer taken from the driver is given back.
  pub held-run : (k : ℕ) (m : CamMachine) → (run b k m).held ≡ m.held
  unfolding run
  held-run zero m = refl
  held-run (suc k) m = loop_held (run b k m) ∙ held-run k m

  run_state_sent :
      (s : StreamingState) (m : CamMachine)
      → let o = taken s (b.fb_get m.calls) in
        ((run_state b s m).sent ≡ m.sent ++ (send_frame o m.streamer).1)
        × ((run_state b s m).streamer ≡ (send_frame o m.streamer).0)
  unfolding run_state handle_streaming taken
  run_state_sent idle m = handle_frame_sent none m
  run_state_sent streaming m =
      handle_frame_sent (b.fb_get m.calls) (record m { calls = m.calls + 1 })

  -- A pass sends the packets of the frame that it takes, if it streams, behind all those before,
  -- and nothing else; only then does the image number change.
  pub sent-loop :
      (m : CamMachine)
      → let heard = mqtt_loop b m in
        let o = taken heard.streaming_state (b.fb_get heard.calls) in
        ((loop b m).sent ≡ m.sent ++ (send_frame o m.streamer).1)
        × ((loop b m).streamer ≡ (send_frame o m.streamer).0)
  unfolding loop run_fsm
  sent-loop m =
      let heard = mqtt_loop b m in
      let k = mqtt_loop_keeps m in
      let o = taken heard.streaming_state (b.fb_get heard.calls) in
      let (sent, after) = run_state_sent heard.streaming_state heard in
      (
        sent ∙ ap₂ (λ a t. a ++ (send_frame o t).1) k.sent k.streamer,
        after ∙ ap (λ t. (send_frame o t).0) k.streamer,
      )
