-- ===== src/Devkit/Main.antt =====
-- main.cpp: `setup` and `loop`, with MqttManager::begin and MqttManager::loop.
use Prim.Native.String.{String}
use iot_repo.Base.{
  ℕ, zero, suc, ◌+◌, true, false, not, ◌&&◌, List, [], ◌∷◌, Option, none, some, ltb, leb, sub32,
  if◌then◌else◌,
}
use iot_repo.Base.Int.{pos}
use iot_repo.Board.{Board, Message}
use iot_repo.Devkit.Command.{Command}
use iot_repo.Devkit.Config
use iot_repo.Devkit.DcMotor
use iot_repo.Devkit.ServoMotor
use iot_repo.Devkit.RgbLed
use iot_repo.Devkit.ProximitySensor
use iot_repo.Devkit.Mqtt.{MqttManager, raw_callback, reconnect}
use iot_repo.Devkit.Mqtt
use iot_repo.Devkit.Machine.{StateId, idle, name, Sensors, Machine, send_status}
use iot_repo.Devkit.Commands.{on_command}
use iot_repo.Devkit.Loops.{state_loop}
use iot_repo.Devkit.Transition.{transition}

abbrev fresh_sensors : Sensors
fresh_sensors = record {
  s1 = ProximitySensor.fresh;
  s2 = ProximitySensor.fresh;
  s3 = ProximitySensor.fresh;
  s4 = ProximitySensor.fresh;
  s5 = ProximitySensor.fresh;
  s6 = ProximitySensor.fresh;
  s1_prev = false;
  s2_prev = false;
  s3_prev = false;
  s4_prev = false;
  s5_prev = false;
  s6_prev = false;
}

-- The statics before `setup`.
abbrev pub fresh : Machine
fresh = record {
  current_state = none;
  dc_motor = DcMotor.fresh;
  servo_a = ServoMotor.fresh;
  servo_b = ServoMotor.fresh;
  led = RgbLed.fresh;
  sensors = fresh_sensors;
  mqtt = Mqtt.fresh;
  dc_speed = Config.default_speed;
  dc_soft_stop_start_speed = pos 0;
  dc_soft_stop_start_ms = 0;
  sort_deg_a = Config.sort_deg_a_default;
  sort_deg_b = Config.sort_deg_b_default;
  camera_blank_until = 0;
  enter_ms = 0;
  mqtt_prev_connected = false;
  last_dbg = 0;
  calls = 0;
  effects = [];
}

analog : ℕ → ProximitySensor.ProximitySensor → ProximitySensor.ProximitySensor
analog pin s = ProximitySensor.begin pin Config.sensor_threshold Config.debounce_ms false false s

unfoldable pub begin_sensors : Sensors → Sensors
unfolding analog ProximitySensor.begin
begin_sensors s = record s {
  s1 = ProximitySensor.begin Config.pin_sort_pos_1l 0 Config.debounce_s1_ms true true s.s1;
  s2 = analog Config.pin_sort_pos_2l s.s2;
  s3 = analog Config.pin_sort_confirm_1l s.s3;
  s4 = analog Config.pin_sort_confirm_2l s.s4;
  s5 = analog Config.pin_sort_confirm_uncl s.s5;
  s6 = ProximitySensor.begin Config.pin_camera_detect 0 Config.debounce_s6_ms true true s.s6;
}

unfoldable pub republish : Option StateId → Machine → Machine
unfolding send_status
republish none m = m
republish (some s) m = send_status (name s) m

module _ (b : Board) where
  -- MqttManager::reconnect, calls n and n + 1: connected() and connect().
  unfoldable pub reconnect_now : Machine → Machine
  unfolding reconnect
  reconnect_now m = record m {
    effects = reconnect (b.mqtt_connected m.calls) (b.mqtt_connect (m.calls + 1)) m.effects;
    calls = m.calls + 2;
  }

  unfoldable pub begin_mqtt : String → Machine → Machine
  unfolding reconnect_now
  begin_mqtt broker m =
      reconnect_now
        (record m { mqtt = record (m.mqtt) { broker = broker; port = 1883; has_callback = true } })

  -- `broker` is injected at build time. wifi_manager::connect, which waits for the network, comes
  -- before begin_mqtt and keeps no state.
  unfoldable pub setup : String → Machine → Machine
  unfolding begin_sensors begin_mqtt
  setup broker m = transition b (some idle) (
      begin_mqtt broker (record m {
        dc_motor = DcMotor.begin Config.pin_dc_in1 Config.dc_ledc_channel m.dc_motor;
        servo_a = ServoMotor.begin b 0 Config.servo_min_us Config.servo_max_us m.servo_a;
        servo_b = ServoMotor.begin b 1 Config.servo_min_us Config.servo_max_us m.servo_b;
        led = RgbLed.begin Config.pin_led_r Config.pin_led_g Config.pin_led_b m.led;
        sensors = begin_sensors m.sensors;
      }))

  unfoldable pub receive : Option Command → Machine → Machine
  receive none m = m
  receive (some cmd) m = on_command b cmd m

  unfoldable pub deliver : List Message → Machine → Machine
  unfolding receive
  deliver [] m = m
  deliver (msg ∷ msgs) m = deliver msgs (receive (raw_callback m.mqtt msg) m)

  -- Call n is connected(). Behind it come either the clock and perhaps a reconnect, or loop().
  unfoldable pub mqtt_loop : Machine → Machine
  unfolding reconnect_now deliver
  mqtt_loop m =
      let n = m.calls in
      let now = b.millis (n + 1) in
      let later = record m { calls = n + 2 } in
      if not (b.mqtt_connected n)
      then (if ltb 5000 (sub32 now m.mqtt.last_retry_ms)
          then (let r = reconnect_now later in
              record r { mqtt = record (r.mqtt) { last_retry_ms = now } })
          else later)
      else deliver (b.mqtt_loop (n + 1)) later

  -- A connection that has come back has the state published again.
  unfoldable pub watch_connection : Machine → Machine
  unfolding republish
  watch_connection m =
      let now_conn = b.mqtt_connected m.calls in
      let m' = if now_conn && not m.mqtt_prev_connected then republish m.current_state m else m in
      record m' { mqtt_prev_connected = now_conn; calls = m.calls + 1 }

  -- The debug line reads the six sensors.
  unfoldable pub debug_output : Machine → Machine
  debug_output m =
      let now = b.millis m.calls in
      if leb 1000 (sub32 now m.last_dbg)
      then record m { last_dbg = now; calls = m.calls + 7 }
      else record m { calls = m.calls + 1 }

  unfoldable pub loop : Machine → Machine
  loop m =
      let m' = debug_output (watch_connection (mqtt_loop m)) in state_loop b m'.current_state m'

  -- `setup`, then passes of `loop`.
  unfoldable pub run : ℕ → String → Machine
  run zero broker = setup broker fresh
  run (suc k) broker = loop (run k broker)
