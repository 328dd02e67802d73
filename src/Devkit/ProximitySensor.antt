-- ===== src/Devkit/ProximitySensor.antt =====
-- peripheral/proximity_sensor.h and peripheral/proximity_sensor.cpp.
pub mod Debounce
use iot_repo.Base.{ℕ, ◌+◌, Bool, true, false, not, ◌&&◌, leb, ◌==◌, differ, sub32, if◌then◌else◌}
use iot_repo.Base.Int.{ℤ, pos, negsuc}
use iot_repo.Board.{Board}

-- `pulldown` says which pin mode `begin` chose.
pub record ProximitySensor : Type 0 where
  pub pin : ℤ
  pub threshold : ℕ
  pub debounce_ms : ℕ
  pub last_state : Bool
  pub stable_state : Bool
  pub last_change : ℕ
  pub is_digital : Bool
  pub active_low : Bool
  pub pulldown : Bool

-- The object before `begin`.
abbrev pub fresh : ProximitySensor
fresh = record {
  pin = negsuc 0;
  threshold = 1000;
  debounce_ms = 50;
  last_state = false;
  stable_state = false;
  last_change = 0;
  is_digital = false;
  active_low = false;
  pulldown = false;
}

unfoldable pub begin : ℕ → ℕ → ℕ → Bool → Bool → ProximitySensor → ProximitySensor
begin pin threshold debounce_ms is_digital active_low s = record s {
  pin = pos pin;
  threshold = threshold;
  debounce_ms = debounce_ms;
  is_digital = is_digital;
  active_low = active_low;
  pulldown = not (pin == 34) && (not (pin == 35) && (not (pin == 36) && not (pin == 39)));
}

-- What one raw reading says: active low or high for a digital sensor, else the threshold.
unfoldable pub detects : ProximitySensor → ℕ → Bool
detects s raw =
    if s.is_digital then (if s.active_low then raw == 0 else raw == 1) else leb s.threshold raw

-- The part of `isDetected` behind the reading, given what it says and the time.
unfoldable pub debounce : Bool → ℕ → ProximitySensor → ProximitySensor
debounce detected now s =
    let changed = differ detected s.last_state in
    let since = (if changed then now else s.last_change) in
    record s {
      last_state = detected;
      last_change = since;
      stable_state = if leb s.debounce_ms (sub32 now since) then detected else s.stable_state;
    }

module _ (b : Board) where
  unfoldable pub read_raw : ℕ → ProximitySensor → ℕ
  read_raw n s = if s.is_digital then b.digital_read s.pin n else b.analog_read s.pin n

  -- Two calls, the reading n and the clock n + 1. The result is the new `stable_state`.
  unfoldable pub is_detected : ℕ → ProximitySensor → ProximitySensor
  unfolding read_raw detects debounce
  is_detected n s = debounce (detects s (read_raw n s)) (b.millis (n + 1)) s

  -- One call, the reading.
  unfoldable pub sync : ℕ → ProximitySensor → ProximitySensor
  unfolding read_raw detects
  sync n s =
      let detected = detects s (read_raw n s) in
      record s { last_state = detected; stable_state = detected; last_change = 0 }
