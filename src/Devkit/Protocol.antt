-- ===== src/Devkit/Protocol.antt =====
-- What a subscriber sees of the conveyor: a grammar of the MQTT log, and the firmware's log against it.
pub mod Words
pub mod Runs
use Prim.Native.String.{String}
use iot_repo.Base.{
  ℕ, zero, suc, ◌+◌, ◌≡◌, ◌∙◌, refl, sym, ap, subst, Bool, true, false, not, ◌&&◌, Bool-cases, inl,
  inr, List, [], ◌∷◌, Option, none, some, leb, sub32, if◌then◌else◌, arith,
}
use iot_repo.Devkit.Machine.{StateId, idle, conveying, camera_hold, paused, error, name}
use iot_repo.Devkit.Mqtt.{
  Effect, publish, subscribe, connect, status_json, topic_control, topic_sensor, topic_status,
}

abbrev pub status : String → Effect
status text = publish topic_status (status_json text)

abbrev pub event : String → Effect
event text = publish topic_sensor text

-- Calls of the client that say nothing of the state.
pub data IsBackground : Effect → Type 0 where
  connects : IsBackground connect
  subscribes : IsBackground (subscribe topic_control 1)
  s1_seen : IsBackground (event "S1_DETECTED")
  s2_seen : IsBackground (event "S2_DETECTED")
  s3_seen : IsBackground (event "S3_DETECTED")
  s4_seen : IsBackground (event "S4_DETECTED")
  s5_seen : IsBackground (event "S5_DETECTED")

-- The logs, newest first, with the state that each leads to.
pub data Follows : List Effect → Option StateId → Type 0 where
  off : Follows [] none
  background :
      {e : Effect} {l : List Effect} {s : Option StateId}
      → IsBackground e
      → Follows l s
      → Follows (e ∷ l) s
  stops :
      {l : List Effect} {s : Option StateId} → Follows l s → Follows (status "IDLE" ∷ l) (some idle)
  starts :
      {l : List Effect} → Follows l (some idle) → Follows (status "RUNNING" ∷ l) (some conveying)
  repeats :
      {l : List Effect}
      → Follows l (some conveying)
      → Follows (status "RUNNING" ∷ l) (some conveying)
  detects :
      {l : List Effect}
      → Follows l (some conveying)
      → Follows (event "CAMERA_DETECT" ∷ l) (some camera_hold)
  releases :
      {l : List Effect}
      → Follows l (some camera_hold)
      → Follows (status "RUNNING" ∷ l) (some conveying)
  times_out :
      {l : List Effect}
      → Follows l (some camera_hold)
      → Follows (status "RUNNING" ∷ event "CAMERA_TIMEOUT" ∷ l) (some conveying)
  pauses :
      {l : List Effect} → Follows l (some conveying) → Follows (status "PAUSED" ∷ l) (some paused)
  pauses_hold :
      {l : List Effect} → Follows l (some camera_hold) → Follows (status "PAUSED" ∷ l) (some paused)
  resumes :
      {l : List Effect} → Follows l (some paused) → Follows (status "RUNNING" ∷ l) (some conveying)
  -- The connection has come back.
  returns :
      {l : List Effect} {s : StateId} → Follows l (some s) → Follows (status (name s) ∷ l) (some s)
