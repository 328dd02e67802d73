-- ===== src/Cam/Mqtt.antt =====
-- net/mqtt_manager.h, net/mqtt_manager.cpp and stream_state.h of the camera: what a message does.
pub mod Settings
use Prim.Native.String.{String}
use iot_repo.Base.{
  ℕ, Bool, true, false, not, List, [], ◌∷◌, Option, none, some, length, take, leb, ◌==◌,
  if◌then◌else◌,
}
use iot_repo.Base.Int.{ℤ}
use iot_repo.Base.Atoi.{atoi}
use iot_repo.Base.Text.{Bytes, codes, c_str, bytes_eq, after_prefix}
use iot_repo.Board.{Message}

pub data StreamingState : Type 0 where
  idle streaming : StreamingState

-- The functions of sensor_t that a setting can call.
pub data Setting : Type 0 where
  quality framesize brightness contrast saturation sharpness special_effect : Setting
  whitebal awb_gain wb_mode exposure_ctrl aec2 ae_level aec_value gain_ctrl agc_gain : Setting
  gainceiling bpc wpc raw_gma lenc hmirror vflip dcw : Setting

-- `has_state` is whether `_streamingState` is set.
pub record MqttManager : Type 0 where
  pub broker : String
  pub port : ℕ
  pub last_retry_ms : ℕ
  pub has_state : Bool

abbrev pub fresh : MqttManager
fresh = record { broker = ""; port = 1883; last_retry_ms = 0; has_state = false }

-- strchr(cmd, ':'): what stands before the first colon, and what stands behind it.
abbrev pub split_cons : ℕ → Option (Bytes × Bytes) → Option (Bytes × Bytes)
split_cons c none = none
split_cons c (some (key, value)) = some (c ∷ key, value)

unfoldable pub split_colon : Bytes → Option (Bytes × Bytes)
split_colon [] = none
split_colon (c ∷ s) = if c == b':' then some ([], s) else split_cons c (split_colon s)

-- The key of each setting.
abbrev pub key : Setting → String
key quality = "quality"
key framesize = "framesize"
key brightness = "brightness"
key contrast = "contrast"
key saturation = "saturation"
key sharpness = "sharpness"
key special_effect = "special_effect"
key whitebal = "whitebal"
key awb_gain = "awb_gain"
key wb_mode = "wb_mode"
key exposure_ctrl = "exposure_ctrl"
key aec2 = "aec2"
key ae_level = "ae_level"
key aec_value = "aec_value"
key gain_ctrl = "gain_ctrl"
key agc_gain = "agc_gain"
key gainceiling = "gainceiling"
key bpc = "bpc"
key wpc = "wpc"
key raw_gma = "raw_gma"
key lenc = "lenc"
key hmirror = "hmirror"
key vflip = "vflip"
key dcw = "dcw"

-- The order in which the keys are compared.
abbrev pub settings : List Setting
settings =
    quality ∷ framesize ∷ brightness ∷ contrast ∷ saturation ∷ sharpness ∷ special_effect ∷ whitebal
    ∷ awb_gain ∷ wb_mode ∷ exposure_ctrl ∷ aec2 ∷ ae_level ∷ aec_value ∷ gain_ctrl ∷ agc_gain
    ∷ gainceiling ∷ bpc ∷ wpc ∷ raw_gma ∷ lenc ∷ hmirror ∷ vflip ∷ dcw ∷ []

unfoldable pub find_setting : Bytes → List Setting → Option Setting
find_setting k [] = none
find_setting k (s ∷ rest) = if bytes_eq k (codes (key s)) then some s else find_setting k rest

abbrev pub with_value : Bytes → Option Setting → Option (Setting × ℤ)
with_value value none = none
with_value value (some s) = some (s, atoi value)

-- `char key[32]`: a key of 32 bytes or more is refused.
abbrev pub parse_setting : Option (Bytes × Bytes) → Option (Setting × ℤ)
parse_setting none = none
parse_setting (some (k, value)) =
    if leb 32 (length k) then none else with_value value (find_setting k settings)

-- The call of the sensor that a command makes, if any; the flag says whether there is a sensor.
unfoldable pub handle_camera_command : Bool → Bytes → Option (Setting × ℤ)
unfolding split_colon find_setting
handle_camera_command has_sensor cmd =
    if not has_sensor then none else parse_setting (split_colon cmd)

-- What a message makes the firmware do.
pub data Action : Type 0 where
  nothing : Action
  stream : StreamingState → Action
  adjust : Setting → ℤ → Action

abbrev pub of_setting : Option (Setting × ℤ) → Action
of_setting none = nothing
of_setting (some (s, v)) = adjust s v

abbrev pub of_rest : Bool → Option Bytes → Action
of_rest has_sensor none = nothing
of_rest has_sensor (some cmd) = of_setting (handle_camera_command has_sensor cmd)

-- `char msg[64]` holds 63 bytes of the payload and a NUL.
abbrev pub message_text : Bytes → Bytes
message_text payload = c_str (take 63 payload)

abbrev pub set_state : MqttManager → StreamingState → Action
set_state mgr s = if mgr.has_state then stream s else nothing

unfoldable pub raw_callback : Bool → MqttManager → Message → Action
raw_callback has_sensor mgr msg =
    let text = message_text msg.payload in
    if not (bytes_eq (c_str msg.topic) (codes "device/control"))
    then nothing
    else if bytes_eq text (codes "SORT_START")
    then set_state mgr streaming
    else if bytes_eq text (codes "SORT_STOP")
    then set_state mgr idle
    else of_rest has_sensor (after_prefix (codes "CAM:") text)
