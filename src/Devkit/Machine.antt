-- ===== src/Devkit/Machine.antt =====
-- fsm/context.h and fsm/context.cpp: the state of the whole controller. The record joins the Context
-- with the objects that it refers to and with the statics of main.cpp and camera_hold_state.h.
-- `calls` numbers the calls that read from outside (iot_repo.Board), and `effects` lists the calls
-- of the MQTT client, newest first. Serial output and delays change nothing here.
use Prim.Native.String.{String}
use iot_repo.Base.{ℕ, ◌+◌, Bool, not, ◌&&◌, List, ◌∷◌, Option, if◌then◌else◌}
use iot_repo.Base.Int.{ℤ, pos}
use iot_repo.Board.{Board}
use iot_repo.Devkit.DcMotor.{DcMotor}
use iot_repo.Devkit.ServoMotor.{ServoMotor}
use iot_repo.Devkit.RgbLed.{RgbLed}
use iot_repo.Devkit.ProximitySensor.{ProximitySensor, is_detected, sync}
use iot_repo.Devkit.Mqtt.{MqttManager, Effect, publish, publish_status, topic_sensor}

-- The five state objects of main.cpp.
pub data StateId : Type 0 where
  idle conveying camera_hold paused error : StateId

-- `name()` of each class.
abbrev pub name : StateId → String
name idle = "IDLE"
name conveying = "CONVEYING"
name camera_hold = "CAMERA_HOLD"
name paused = "PAUSED"
name error = "ERROR"

pub record Sensors : Type 0 where
  pub s1 : ProximitySensor
  pub s2 : ProximitySensor
  pub s3 : ProximitySensor
  pub s4 : ProximitySensor
  pub s5 : ProximitySensor
  pub s6 : ProximitySensor
  pub s1_prev : Bool
  pub s2_prev : Bool
  pub s3_prev : Bool
  pub s4_prev : Bool
  pub s5_prev : Bool
  pub s6_prev : Bool

pub record Machine : Type 0 where
  pub current_state : Option StateId
  pub dc_motor : DcMotor
  pub servo_a : ServoMotor
  pub servo_b : ServoMotor
  pub led : RgbLed
  pub sensors : Sensors
  pub mqtt : MqttManager
  pub dc_speed : ℤ
  pub dc_soft_stop_start_speed : ℤ
  pub dc_soft_stop_start_ms : ℕ
  pub sort_deg_a : ℤ
  pub sort_deg_b : ℤ
  pub camera_blank_until : ℕ
  pub enter_ms : ℕ
  pub mqtt_prev_connected : Bool
  pub last_dbg : ℕ
  pub calls : ℕ
  pub effects : List Effect

unfoldable pub flush_all : Machine → Machine
flush_all m = record m { camera_blank_until = 0; dc_soft_stop_start_speed = pos 0 }

unfoldable pub send : String → Machine → Machine
send payload m = record m { effects = publish topic_sensor payload ∷ m.effects }

unfoldable pub send_status : String → Machine → Machine
unfolding publish_status
send_status state_name m = record m { effects = publish_status state_name m.effects }

-- `if (det && !prev) publish(event)` of one sensor.
unfoldable pub report : Bool → Bool → String → List Effect → List Effect
report det prev event log = if det && not prev then publish topic_sensor event ∷ log else log

module _ (b : Board) where
  -- Three calls for each sensor: sync, then isDetected.
  unfoldable pub sync_all : ℕ → Sensors → Sensors
  sync_all n s =
      let t1 = is_detected b (n + 1) (sync b n s.s1) in
      let t2 = is_detected b (n + 4) (sync b (n + 3) s.s2) in
      let t3 = is_detected b (n + 7) (sync b (n + 6) s.s3) in
      let t4 = is_detected b (n + 10) (sync b (n + 9) s.s4) in
      let t5 = is_detected b (n + 13) (sync b (n + 12) s.s5) in
      let t6 = is_detected b (n + 16) (sync b (n + 15) s.s6) in
      record {
        s1 = t1;
        s2 = t2;
        s3 = t3;
        s4 = t4;
        s5 = t5;
        s6 = t6;
        s1_prev = t1.stable_state;
        s2_prev = t2.stable_state;
        s3_prev = t3.stable_state;
        s4_prev = t4.stable_state;
        s5_prev = t5.stable_state;
        s6_prev = t6.stable_state;
      }

  unfoldable pub sync_all_sensors : Machine → Machine
  unfolding sync_all
  sync_all_sensors m = record m { sensors = sync_all m.calls m.sensors; calls = m.calls + 18 }

  -- `ctx.s6.sync(); ctx.s6Prev = ctx.s6.isDetected();`
  unfoldable pub sync_s6 : Machine → Machine
  sync_s6 m =
      let t6 = is_detected b (m.calls + 1) (sync b m.calls m.sensors.s6) in
      record m {
        sensors = record (m.sensors) { s6 = t6; s6_prev = t6.stable_state };
        calls = m.calls + 3;
      }

  -- `ctx.s6Prev = ctx.s6.isDetected();`
  unfoldable pub track_s6 : Machine → Machine
  track_s6 m =
      let t6 = is_detected b m.calls m.sensors.s6 in
      record m {
        sensors = record (m.sensors) { s6 = t6; s6_prev = t6.stable_state };
        calls = m.calls + 2;
      }

  -- Its argument `now` is not used there. S1 to S5 in turn, two calls each.
  unfoldable pub process_sorters : Machine → Machine
  process_sorters m =
      let s = m.sensors in
      let n = m.calls in
      let t1 = is_detected b n s.s1 in
      let t2 = is_detected b (n + 2) s.s2 in
      let t3 = is_detected b (n + 4) s.s3 in
      let t4 = is_detected b (n + 6) s.s4 in
      let t5 = is_detected b (n + 8) s.s5 in
      record m {
        sensors = record s {
          s1 = t1;
          s2 = t2;
          s3 = t3;
          s4 = t4;
          s5 = t5;
          s1_prev = t1.stable_state;
          s2_prev = t2.stable_state;
          s3_prev = t3.stable_state;
          s4_prev = t4.stable_state;
          s5_prev = t5.stable_state;
        };
        calls = n + 10;
        effects = report t5.stable_state s.s5_prev "S5_DETECTED" (
            report t4.stable_state s.s4_prev "S4_DETECTED" (
              report t3.stable_state s.s3_prev "S3_DETECTED" (
                report t2.stable_state s.s2_prev "S2_DETECTED"
                  (report t1.stable_state s.s1_prev "S1_DETECTED" m.effects))));
      }
