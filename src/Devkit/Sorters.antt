-- ===== src/Devkit/Sorters.antt =====
-- What the sensors S1 to S5 are asked and report.
use Prim.Native.String.{String}
use iot_repo.Base.{
  ℕ, ◌+◌, ◌≤◌, ◌≡◌, refl, Bool, true, false, List, [], ◌∷◌, ◌++◌, append_assoc, arith,
}
use iot_repo.Board.{Board}
use iot_repo.Devkit.Machine.{Sensors, Machine, report, process_sorters}
use iot_repo.Devkit.ProximitySensor.{ProximitySensor, is_detected}
use iot_repo.Devkit.Mqtt.{Effect, publish, topic_sensor}

-- A sensor that is detected now and was not in the pass before.
abbrev rising : Bool → Bool → String → List Effect
rising true false event = publish topic_sensor event ∷ []
rising _ _ event = []

-- The events of one pass, the newest first.
pub events : Sensors → Sensors → List Effect
events before after =
    rising after.s5.stable_state before.s5_prev "S5_DETECTED"
    ++ (rising after.s4.stable_state before.s4_prev "S4_DETECTED"
        ++ (rising after.s3.stable_state before.s3_prev "S3_DETECTED"
            ++ (rising after.s2.stable_state before.s2_prev "S2_DETECTED"
                ++ rising after.s1.stable_state before.s1_prev "S1_DETECTED")))

report-rising :
    (now prev : Bool) (event : String) (log : List Effect)
    → report now prev event log ≡ rising now prev event ++ log
unfolding report
report-rising true true event log = refl
report-rising true false event log = refl
report-rising false true event log = refl
report-rising false false event log = refl

module _ (b : Board) where
  -- A sensor that was asked once, with both calls of isDetected at or behind the first number and
  -- before the second.
  abbrev pub Asked : ℕ → ℕ → ProximitySensor → ProximitySensor → Type 0
  Asked first end before after =
      (n : ℕ) × ((first ≤ n) × ((n + 2 ≤ end) × (after ≡ is_detected b n before)))

  -- In one pass each of S1 to S5 is asked once, itself and no other; one event is published for
  -- each that it is detected by and that was not remembered as detected, in that order, and
  -- nothing else; what the sensors said is remembered, and S6 is left alone.
  pub effects-process_sorters :
      (m : Machine)
      → let m' = process_sorters b m in
        Asked m.calls m'.calls m.sensors.s1 m'.sensors.s1
        × Asked m.calls m'.calls m.sensors.s2 m'.sensors.s2
        × Asked m.calls m'.calls m.sensors.s3 m'.sensors.s3
        × Asked m.calls m'.calls m.sensors.s4 m'.sensors.s4
        × Asked m.calls m'.calls m.sensors.s5 m'.sensors.s5
        × (m'.effects ≡ events m.sensors m'.sensors ++ m.effects)
        × (m'.sensors.s1_prev ≡ m'.sensors.s1.stable_state)
        × (m'.sensors.s2_prev ≡ m'.sensors.s2.stable_state)
        × (m'.sensors.s3_prev ≡ m'.sensors.s3.stable_state)
        × (m'.sensors.s4_prev ≡ m'.sensors.s4.stable_state)
        × (m'.sensors.s5_prev ≡ m'.sensors.s5.stable_state)
        × (m'.sensors.s6 ≡ m.sensors.s6)
        × (m'.sensors.s6_prev ≡ m.sensors.s6_prev)
  unfolding process_sorters events
  effects-process_sorters m = (
    (m.calls, (omega arith, (omega arith, refl))),
    (m.calls + 2, (omega arith, (omega arith, refl))),
    (m.calls + 4, (omega arith, (omega arith, refl))),
    (m.calls + 6, (omega arith, (omega arith, refl))),
    (m.calls + 8, (omega arith, (omega arith, refl))),
    simp (report-rising, append_assoc),
    refl,
    refl,
    refl,
    refl,
    refl,
    refl,
    refl,
  )
