-- ===== src/Devkit/Wifi.antt =====
-- net/wifi_manager.cpp, the same text on the conveyor and on the camera. The WiFi library is a
-- parameter, and the n-th WiFi.status() is answered at n; the network's name and password are those
-- of the build.
pub mod Waiting
use iot_repo.Base.{
  ℕ, zero, suc, ◌+◌, Bool, true, false, not, List, [], ◌∷◌, ◌++◌, Option, none, some,
}
use iot_repo.Base.Text.{Bytes, codes}

pub record Wifi : Type 0 where
  -- WiFi.status() == WL_CONNECTED
  pub connected : ℕ → Bool
  -- WiFi.localIP().toString()
  pub local_ip : ℕ → Bytes

-- `delayed` is the sum of the delays in milliseconds, `printed` what went out on the serial port.
pub record Net : Type 0 where
  pub station : Bool
  pub begun : List (Bytes × Bytes)
  pub sleep : Bool
  pub delayed : ℕ
  pub printed : Bytes
  pub calls : ℕ

abbrev pub fresh : Net
fresh = record { station = false; begun = []; sleep = true; delayed = 0; printed = []; calls = 0 }

abbrev pub begin : Bytes → Bytes → Net → Net
begin ssid pass m = record m {
  station = true;
  begun = (ssid, pass) ∷ m.begun;
  sleep = false;
  printed = m.printed ++ codes "[WiFi] connecting";
}

-- One round of the loop behind a status that is not connected.
abbrev pub wait_once : Net → Net
wait_once m = record m {
  delayed = m.delayed + 500;
  printed = m.printed ++ codes ".";
  calls = m.calls + 1;
}

module _ (w : Wifi) where
  unfoldable pub report_ip : Net → Net
  report_ip m = record m {
    printed = m.printed ++ ((10 ∷ codes "[WiFi] OK IP=") ++ (w.local_ip m.calls ++ (10 ∷ [])));
  }

  -- The loop, on fuel.
  unfoldable pub wait_connected : ℕ → Net → Option Net
  wait_connected zero m = none
  wait_connected (suc fuel) m = elim (not (w.connected m.calls)) [
    | true ↦ wait_connected fuel (wait_once m)
    | false ↦ some (record m { calls = m.calls + 1 })
  ]

  abbrev then_report : Option Net → Option Net
  then_report none = none
  then_report (some m) = some (report_ip m)

  unfoldable pub connect : ℕ → Bytes → Bytes → Net → Option Net
  unfolding wait_connected report_ip
  connect fuel ssid pass m = then_report (wait_connected fuel (begin ssid pass m))
