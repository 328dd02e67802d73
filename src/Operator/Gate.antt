-- ===== src/Operator/Gate.antt =====
-- qr_gate.py: the filter before a QR code is taken.
use iot_repo.Base.{
  ℕ, ◌-◌, Bool, true, false, not, ◌&&◌, [], Option, none, some, ltb, leb, if◌then◌else◌,
}
use iot_repo.Base.Text.{Bytes, bytes_eq}
use iot_repo.Operator.{QrGate, closed_gate, World}
use iot_repo.Operator.Words.{is_empty, strip}

pub data QrRejectReason : Type 0 where
  cooldown gate_closed duplicate queue_full process_inactive : QrRejectReason

abbrev pub min_qr_interval : ℕ
min_qr_interval = 1500

abbrev pub max_sort_queue_size : ℕ
max_sort_queue_size = 1

unfoldable pub open_camera_gate : QrGate → QrGate
open_camera_gate g = record g { camera_gate_open = true; last_registered_code = none }

unfoldable pub set_process_active : Bool → QrGate → QrGate
set_process_active true g = record g { process_active = true }
set_process_active false g = closed_gate

module _ (w : World) where
  -- A code as the gate compares it; of no code the empty text.
  abbrev pub comparable : Option Bytes → Bytes
  comparable none = []
  comparable (some code) = if is_empty code then [] else w.lower (strip code)

  -- `now` is the clock when it is read; before the clock is less than the last time, it is cooling
  -- down either way.
  unfoldable pub try_accept : ℕ → Bytes → ℕ → QrGate → Option QrRejectReason
  try_accept now item_code current_queue_size g =
      let code = comparable (some item_code) in
      if not g.process_active
      then some process_inactive
      else if ltb (now - g.last_enqueue_ts) min_qr_interval
      then some cooldown
      else if not g.camera_gate_open
      then some gate_closed
      else if not (is_empty code) && bytes_eq code (comparable g.last_registered_code)
      then some duplicate
      else if leb max_sort_queue_size current_queue_size
      then some queue_full
      else none

  unfoldable pub accept : ℕ → Bytes → QrGate → QrGate
  accept now item_code g = record g {
    last_enqueue_ts = now;
    last_registered_code = if is_empty item_code then none else some (w.lower (strip item_code));
    camera_gate_open = false;
  }
