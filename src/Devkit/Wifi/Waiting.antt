-- ===== src/Devkit/Wifi/Waiting.antt =====
-- How long `connect` waits.
use iot_repo.Base.{
  ℕ, zero, suc, ◌+◌, ◌*◌, ◌≡◌, ◌<◌, ◌∙◌, refl, ap, sym, not, true, false, some, arith,
}
use iot_repo.Base.Text.{Bytes}
use iot_repo.Devkit.Wifi.{Wifi, Net, begin, wait_once, report_ip, wait_connected, connect}

module _ (w : Wifi) where
  -- Behind the first status that is connected, the k-th from now.
  wait_connected_lem :
      (k fuel : ℕ) (m : Net)
      → ((j : ℕ) → j < k → w.connected (m.calls + j) ≡ false)
      → w.connected (m.calls + k) ≡ true
      → k < fuel
      → (m' : Net) × (wait_connected w fuel m ≡ some m')
        × (m'.delayed ≡ m.delayed + 500 * k)
        × (m'.calls ≡ m.calls + k + 1)
  unfolding wait_connected
  wait_connected_lem k zero m before now h = elim h [ ]
  wait_connected_lem zero (suc fuel) m before now h =
      let here : m.calls + 0 ≡ m.calls = omega arith in
      let ready : not (w.connected m.calls) ≡ false = ap not (sym (ap w.connected here) ∙ now) in
      rw (wait_connected, ready) (record m { calls = m.calls + 1 }, refl, omega arith, omega arith)
  wait_connected_lem (suc k) (suc fuel) m before now h =
      let here : m.calls + 0 ≡ m.calls = omega arith in
      let next : (j : ℕ) → m.calls + suc j ≡ m.calls + 1 + j = λ j. omega arith in
      let waiting : not (w.connected m.calls) ≡ true =
        ap not (sym (ap w.connected here) ∙ before 0 (omega arith)) in
      let (m', found, delayed, calls) =
        wait_connected_lem k fuel (wait_once m)
          (λ j lt. sym (ap w.connected (next j)) ∙ before (suc j) (omega (arith, lt)))
          (sym (ap w.connected (next k)) ∙ now) (omega (arith, h)) in
      rw (wait_connected, waiting) (m', found, omega (arith, delayed), omega (arith, calls))

  -- Where the k-th status, counted from 0, is the first that is connected, k + 1 rounds are enough:
  -- connect ends, after k pauses of 500 milliseconds and k + 1 looks at the status.
  pub connect-ends :
      (k fuel : ℕ) (ssid pass : Bytes) (m : Net)
      → ((j : ℕ) → j < k → w.connected (m.calls + j) ≡ false)
      → w.connected (m.calls + k) ≡ true
      → k < fuel
      → (m' : Net) × (connect w fuel ssid pass m ≡ some m')
        × (m'.delayed ≡ m.delayed + 500 * k)
        × (m'.calls ≡ m.calls + k + 1)
  unfolding connect report_ip
  connect-ends k fuel ssid pass m before now h =
      let (m', found, delayed, calls) =
        wait_connected_lem k fuel (begin ssid pass m) before now h in
      rw found (report_ip w m', refl, delayed, calls)
