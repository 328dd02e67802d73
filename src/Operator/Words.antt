-- ===== src/Operator/Words.antt =====
-- The texts of the operator's program: str.strip, the payloads of device/sensor and device/status,
-- item codes, and classifier.py.
use iot_repo.Base.{
  ℕ, ◌+◌, ◌/◌, ◌%◌, ◌&&◌, ◌||◌, Bool, true, false, List, [], ◌∷◌, Option, none, some, ltb, leb,
  ◌==◌, if◌then◌else◌,
}
use iot_repo.Base.Text.{Bytes, codes, bytes_eq, after_prefix}
use iot_repo.Operator.{
  SortDirection, line_1l, line_2l, warn, FsmState, fsm_idle, fsm_running, fsm_paused, SensorEvent,
  proximity_on, proximity_off, camera_detect, s1_detected, s2_detected, s3_detected, s4_detected,
  s5_detected, camera_timeout, sort_timeout_1l, sort_timeout_2l, World,
}

-- The white space of str.strip.
abbrev pub is_blank : ℕ → Bool
is_blank c =
    (leb 9 c && leb c 13)
    || ((leb 28 c && leb c 32)
        || (c == 0x85
            || (c == 0xA0
                || (c == 0x1680
                    || ((leb 0x2000 c && leb c 0x200A)
                        || (c == 0x2028
                            || (c == 0x2029 || (c == 0x202F || (c == 0x205F || c == 0x3000)))))))))

unfoldable pub left_strip : Bytes → Bytes
left_strip [] = []
left_strip (c ∷ s) = let rest = left_strip s in if is_blank c then rest else c ∷ s

-- A blank goes where only blanks follow.
abbrev pub strip_step : ℕ → Bytes → Bytes
strip_step c [] = if is_blank c then [] else c ∷ []
strip_step c (d ∷ s) = c ∷ d ∷ s

unfoldable pub right_strip : Bytes → Bytes
right_strip [] = []
right_strip (c ∷ s) = strip_step c (right_strip s)

unfoldable pub strip : Bytes → Bytes
unfolding left_strip right_strip
strip s = right_strip (left_strip s)

-- str of a number below 1000: the spin boxes hold 255 at most.
unfoldable pub str : ℕ → Bytes
str n =
    if ltb n 10
    then (48 + n) ∷ []
    else if ltb n 100
    then (48 + n / 10) ∷ (48 + n % 10) ∷ []
    else (48 + n / 100) ∷ (48 + n / 10 % 10) ∷ (48 + n % 10) ∷ []

abbrev pub is_empty : Bytes → Bool
is_empty [] = true
is_empty (c ∷ s) = false

-- The value of a direction.
unfoldable pub direction_text : SortDirection → Bytes
direction_text line_1l = codes "1L"
direction_text line_2l = codes "2L"
direction_text warn = codes "WARN"

-- SensorEvent.from_payload.
unfoldable pub sensor_event : Bytes → Option SensorEvent
sensor_event payload =
    if bytes_eq payload (codes "PROXIMITY:1")
    then some proximity_on
    else if bytes_eq payload (codes "PROXIMITY:0")
    then some proximity_off
    else if bytes_eq payload (codes "CAMERA_DETECT")
    then some camera_detect
    else if bytes_eq payload (codes "S1_DETECTED")
    then some s1_detected
    else if bytes_eq payload (codes "S2_DETECTED")
    then some s2_detected
    else if bytes_eq payload (codes "S3_DETECTED")
    then some s3_detected
    else if bytes_eq payload (codes "S4_DETECTED")
    then some s4_detected
    else if bytes_eq payload (codes "S5_DETECTED")
    then some s5_detected
    else if bytes_eq payload (codes "CAMERA_TIMEOUT")
    then some camera_timeout
    else if bytes_eq payload (codes "SORT_TIMEOUT:1L")
    then some sort_timeout_1l
    else if bytes_eq payload (codes "SORT_TIMEOUT:2L")
    then some sort_timeout_2l
    else none

-- FsmState(name), none where it raises.
unfoldable pub state_named : Bytes → Option FsmState
state_named name =
    if bytes_eq name (codes "IDLE")
    then some fsm_idle
    else if bytes_eq name (codes "RUNNING")
    then some fsm_running
    else if bytes_eq name (codes "PAUSED")
    then some fsm_paused
    else none

-- `s.endswith(suffix)`.
unfoldable pub ends_with : Bytes → Bytes → Bool
ends_with suffix [] = bytes_eq [] suffix
ends_with suffix (c ∷ s) = bytes_eq (c ∷ s) suffix || ends_with suffix s

module _ (w : World) where
  abbrev pub state_name : Bytes → Option Bytes → Bytes
  state_name payload none = strip payload
  state_name payload (some name) = name

  -- FsmState.from_payload.
  unfoldable pub fsm_state : Bytes → Option FsmState
  unfolding state_named
  fsm_state payload = state_named (state_name payload (w.json_state payload))

  -- `text or None`.
  abbrev pub some_text : Bytes → Option Bytes
  some_text text = if is_empty text then none else some text

  abbrev pub stripped_code : Option Bytes → Option Bytes
  stripped_code none = none
  stripped_code (some text) = some_text (strip text)

  abbrev pub code_of : Bytes → Option Bytes → Option Bytes
  code_of text none = some_text text
  code_of text (some rest) = stripped_code (w.json_item_code text)

  -- A text that starts with a brace is read as JSON.
  unfoldable pub extract_item_code : Bytes → Option Bytes
  unfolding strip
  extract_item_code text = code_of (strip text) (after_prefix (codes "{") (strip text))

  -- Whether some item has the code, as the classifier compares them.
  unfoldable pub is_ordered : Bytes → List Bytes → Bool
  is_ordered code [] = false
  is_ordered code (item ∷ items) = bytes_eq (w.lower (strip item)) code || is_ordered code items

  -- SuffixClassifier.classify.
  unfoldable pub classify : Bytes → List Bytes → SortDirection
  unfolding is_ordered ends_with
  classify item_code order_items =
      let code = w.lower (strip item_code) in
      if is_ordered code order_items
      then (if ends_with (codes "_1l") code
          then line_1l
          else if ends_with (codes "_2l") code
          then line_2l
          else warn)
      else warn
