-- ===== src/Cam/Main.antt =====
-- main.cpp and stream/camera_capture.cpp of the camera: `setup`, and the loop with its streaming
-- states. Frame buffers belong to the camera driver; `held` counts those not given back.
use Prim.Native.String.{String}
use iot_repo.Base.{
  ℕ, zero, suc, ◌+◌, ◌-◌, Bool, true, not, List, [], ◌∷◌, ◌++◌, Option, none, some, ltb, sub32,
  if◌then◌else◌,
}
use iot_repo.Base.Int.{ℤ, pos}
use iot_repo.Base.Text.{Bytes}
use iot_repo.Board.{Message}
use iot_repo.Cam.Config.{CameraConfig, camera_cfg, udp_port, frame_interval_ms}
use iot_repo.Cam.Udp.{UdpStreamer, send_frame}
use iot_repo.Cam.Udp
use iot_repo.Cam.Mqtt.{
  StreamingState, idle, streaming, Setting, vflip, MqttManager, Action, nothing, stream, adjust,
  raw_callback,
}
use iot_repo.Cam.Mqtt

-- What the camera takes from outside: the clock, the MQTT client, and the camera driver. As for the
-- conveyor, the n-th call is answered by the board at n.
pub record CamBoard : Type 0 where
  pub millis : ℕ → ℕ
  pub mqtt_connected : ℕ → Bool
  pub mqtt_connect : ℕ → Bool
  pub mqtt_loop : ℕ → List Message
  -- esp_camera_init(..) == ESP_OK, esp_camera_sensor_get() != NULL, and esp_camera_fb_get()
  pub camera_init : CameraConfig → ℕ → Bool
  pub has_sensor : ℕ → Bool
  pub fb_get : ℕ → Option Bytes

-- `subscribed` counts subscriptions to device/control; `applied` holds the sensor settings made,
-- the newest first; `sent` the packets in the order in which they went out; `delayed` is the sum of
-- the pauses between frames in milliseconds.
pub record CamMachine : Type 0 where
  pub streamer : UdpStreamer
  pub mqtt : MqttManager
  pub streaming_state : StreamingState
  pub subscribed : ℕ
  pub applied : List (Setting × ℤ)
  pub sent : List Bytes
  pub held : ℕ
  pub delayed : ℕ
  pub calls : ℕ

abbrev pub fresh : CamMachine
fresh = record {
  streamer = Udp.fresh;
  mqtt = Mqtt.fresh;
  streaming_state = idle;
  subscribed = 0;
  applied = [];
  sent = [];
  held = 0;
  delayed = 0;
  calls = 0;
}

-- CameraCapture::returnFrame.
unfoldable pub return_frame : Option Bytes → CamMachine → CamMachine
return_frame none m = m
return_frame (some fb) m = record m { held = m.held - 1 }

-- The body of `if (fb)`.
unfoldable pub handle_frame : Option Bytes → CamMachine → CamMachine
unfolding return_frame
handle_frame none m = m
handle_frame (some fb) m =
    let (streamer, packets) = send_frame (some fb) m.streamer in
    return_frame (some fb)
      (record m { streamer = streamer; sent = m.sent ++ packets; held = m.held + 1 })

unfoldable pub apply : Action → CamMachine → CamMachine
apply nothing m = m
apply (stream s) m = record m { streaming_state = s }
apply (adjust s v) m = record m { applied = (s, v) ∷ m.applied }

module _ (b : CamBoard) where
  unfoldable pub handle_streaming : CamMachine → CamMachine
  unfolding handle_frame
  handle_streaming m =
      let m' = handle_frame (b.fb_get m.calls) (record m { calls = m.calls + 1 }) in
      record m' { delayed = m'.delayed + frame_interval_ms }

  unfoldable pub run_state : StreamingState → CamMachine → CamMachine
  run_state streaming m = handle_streaming m
  run_state idle m = m

  unfoldable pub run_fsm : CamMachine → CamMachine
  run_fsm m = run_state m.streaming_state m

  -- Each message asks once for the sensor.
  unfoldable pub deliver : List Message → CamMachine → CamMachine
  unfolding apply
  deliver [] m = m
  deliver (msg ∷ msgs) m =
      deliver msgs
        (apply (raw_callback (b.has_sensor m.calls) m.mqtt msg) (record m { calls = m.calls + 1 }))

  -- connected(), then connect(), calls n and n + 1.
  unfoldable pub reconnect : CamMachine → CamMachine
  reconnect m =
      let m' = record m { calls = m.calls + 2 } in
      if b.mqtt_connected m.calls
      then m'
      else if b.mqtt_connect (m.calls + 1)
      then record m' { subscribed = m.subscribed + 1 }
      else m'

  unfoldable pub mqtt_loop : CamMachine → CamMachine
  unfolding deliver reconnect
  mqtt_loop m =
      let n = m.calls in
      let now = b.millis (n + 1) in
      let later = record m { calls = n + 2 } in
      if not (b.mqtt_connected n)
      then (if ltb 5000 (sub32 now m.mqtt.last_retry_ms)
          then (let r = reconnect later in
              record r { mqtt = record (r.mqtt) { last_retry_ms = now } })
          else later)
      else deliver (b.mqtt_loop (n + 1)) later

  -- CameraCapture::begin; `none` is the endless wait of `setup` behind a camera that fails.
  unfoldable pub camera_begin : CamMachine → Option CamMachine
  camera_begin m =
      let m' = record m { calls = m.calls + 2 } in
      if not (b.camera_init camera_cfg m.calls)
      then none
      else if b.has_sensor (m.calls + 1)
      then some (record m' { applied = (vflip, pos 1) ∷ m.applied })
      else some m'

  unfoldable pub begin_all : String → String → Option CamMachine → Option CamMachine
  unfolding reconnect Udp.begin
  begin_all broker udp_ip none = none
  begin_all broker udp_ip (some m) = some (
      reconnect (record m {
        streamer = Udp.begin udp_ip udp_port m.streamer;
        mqtt = record (m.mqtt) { broker = broker; port = 1883; has_state = true };
      }))

  unfoldable pub setup : String → String → Option CamMachine
  unfolding camera_begin begin_all
  setup broker udp_ip = begin_all broker udp_ip (camera_begin fresh)

  unfoldable pub loop : CamMachine → CamMachine
  loop m = run_fsm (mqtt_loop m)

  unfoldable pub run : ℕ → CamMachine → CamMachine
  run zero m = m
  run (suc k) m = loop (run k m)
