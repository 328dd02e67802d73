-- ===== src/Devkit/Mqtt.antt =====
-- net/mqtt_manager.h and net/mqtt_manager.cpp: what the conveyor publishes and subscribes, and the
-- callback of the MQTT client. The client itself and debug output on the serial line are outside.
use Prim.Native.String.{String, slice}
use Prim.Native.String
use iot_repo.Base.{
  ℕ, Bool, true, false, not, ◌&&◌, List, ◌∷◌, Option, none, some, take, if◌then◌else◌,
}
use iot_repo.Base.Text.{Bytes, codes, c_str, bytes_eq}
use iot_repo.Board.{Message}
use iot_repo.Devkit.Command.{CommandType, Command, parse, unknown}

-- A call of the MQTT client: publish(topic, payload), subscribe(topic, qos), or connect.
pub data Effect : Type 0 where
  publish : String → String → Effect
  subscribe : String → ℕ → Effect
  connect : Effect

abbrev pub topic_control : String
topic_control = "device/control"

abbrev pub topic_sensor : String
topic_sensor = "device/sensor"

abbrev pub topic_status : String
topic_status = "device/status"

-- `has_callback` is whether `_onCommand` is set.
pub record MqttManager : Type 0 where
  pub broker : String
  pub port : ℕ
  pub last_retry_ms : ℕ
  pub has_callback : Bool

abbrev pub fresh : MqttManager
fresh = record { broker = ""; port = 1883; last_retry_ms = 0; has_callback = false }

-- snprintf into `char buf[64]`: 63 bytes at most.
unfoldable pub status_json : String → String
status_json name = slice (String.◌++◌ "{\"state\":\"" (String.◌++◌ name "\"}")) 0 63

unfoldable pub publish_status : String → List Effect → List Effect
publish_status name log = publish topic_status (status_json name) ∷ log

-- With the connection up nothing is done; the last argument is the result of connect().
unfoldable pub reconnect : Bool → Bool → List Effect → List Effect
reconnect connected success log =
    if connected
    then log
    else if success
    then subscribe topic_control 1 ∷ connect ∷ log
    else connect ∷ log

abbrev pub is_unknown : CommandType → Bool
is_unknown unknown = true
is_unknown _ = false

-- `char msg[128]` holds 127 bytes of the payload and a NUL.
abbrev pub message_text : Bytes → Bytes
message_text payload = c_str (take 127 payload)

-- The command that the callback hands on, if any.
unfoldable pub raw_callback : MqttManager → Message → Option Command
raw_callback mgr msg =
    let cmd = parse (message_text msg.payload) in
    if not (bytes_eq (c_str msg.topic) (codes topic_control))
    then none
    else if mgr.has_callback && not (is_unknown cmd.type)
    then some cmd
    else none
