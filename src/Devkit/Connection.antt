-- ===== src/Devkit/Connection.antt =====
-- The MQTT side of the loop: retries, the messages that are heard, and the state that is published.
use text.Mathlib.TextEquality.{eq_iff}
use iot_repo.Base.{
  ℕ, ◌+◌, ◌≤◌, ◌<◌, ◌≡◌, ◌≢◌, ◌∙◌, sym, ap, subst, Bool, true, false, ◌∷◌, some, sub32, arith,
}
use iot_repo.Base.Text.{codes, c_str, bytes_eq, bytes_eq_sound}
use iot_repo.Board.{Board, Message}
use iot_repo.Devkit.Command.{Command, unknown, parse}
use iot_repo.Devkit.Command.Wire.{Spells, parse_sound}
use iot_repo.Devkit.Machine.{conveying, Machine, send_status}
use iot_repo.Devkit.Main.{reconnect_now, mqtt_loop, republish, watch_connection}
use iot_repo.Devkit.Mqtt.{
  MqttManager, status_json, publish, publish_status, raw_callback, is_unknown, message_text,
  topic_control, topic_status,
}

false_ne_true : ◌≢◌ {A = Bool} false true
false_ne_true h = cc

known_of : (c : Command) → is_unknown c.type ≡ false → c.type ≢ unknown
known_of c h e = false_ne_true (sym h ∙ ap is_unknown e)

accepted :
    (mgr : MqttManager) (msg : Message) (c : Command)
    → raw_callback mgr msg ≡ some c
    → (bytes_eq (c_str msg.topic) (codes topic_control) ≡ true)
      × (is_unknown (parse (message_text msg.payload)).type ≡ false)
      × (parse (message_text msg.payload) ≡ c)
unfolding raw_callback
accepted mgr msg c h = ground arith

-- A command is handed on only from the topic device/control, and only one that the first 127 bytes
-- of the message spell.
pub raw_callback_sound :
    (mgr : MqttManager) (msg : Message) (c : Command)
    → raw_callback mgr msg ≡ some c
    → (c_str msg.topic ≡ codes topic_control) × Spells (message_text msg.payload) c
unfolding raw_callback
raw_callback_sound mgr msg c h =
    let text = message_text msg.payload in
    let cmd = parse text in
    let (topic, heard, same) = accepted mgr msg c h in
    (bytes_eq_sound _ _ topic, subst (Spells text) same (parse_sound text (known_of cmd heard)))

module _ (b : Board) where
  -- Behind an attempt to connect, a pass without a connection within five seconds calls nothing of
  -- the MQTT client.
  pub mqtt_loop_backs_off :
      (m : Machine) (n : ℕ)
      → b.mqtt_connected m.calls ≡ false
      → 5000 < sub32 (b.millis (m.calls + 1)) m.mqtt.last_retry_ms
      → b.mqtt_connected n ≡ false
      → sub32 (b.millis (n + 1)) (b.millis (m.calls + 1)) ≤ 5000
      → let tried = record (mqtt_loop b m) { calls = n } in
        (mqtt_loop b tried).effects ≡ (mqtt_loop b m).effects
  unfolding mqtt_loop reconnect_now
  mqtt_loop_backs_off m n off late off' early = ground arith

  -- When the connection comes back in CONVEYING, what is published is not what publishing RUNNING
  -- would be.
  pub republished_not_running :
      (m : Machine)
      → m.current_state ≡ some conveying
      → m.mqtt_prev_connected ≡ false
      → b.mqtt_connected m.calls ≡ true
      → (watch_connection b m).effects ≢ (send_status "RUNNING" m).effects
  unfolding watch_connection republish send_status publish_status status_json
  republished_not_running m e off on same =
      names_differ (published (rw (on, off, e, republish) at same))
    where
      published :
          publish topic_status (status_json "CONVEYING") ∷ m.effects
            ≡ publish topic_status (status_json "RUNNING") ∷ m.effects
          → status_json "CONVEYING" ≡ status_json "RUNNING"
      published h = cc

      names_differ : status_json "CONVEYING" ≢ status_json "RUNNING"
      names_differ h = ground (arith, eq_iff (status_json "CONVEYING") (status_json "RUNNING"))
