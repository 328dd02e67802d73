-- ===== src/Devkit/Arrival.antt =====
-- A product that stands before S6 while the conveyor runs.
use iot_repo.Base.{
  ℕ, zero, suc, ◌+◌, ◌≤◌, ◌<◌, ◌≡◌, refl, ◌∙◌, sym, ap, subst, Bool, true, false, not, ◌&&◌,
  Bool-cases, inl, inr, some, ltb, leb, if◌then◌else◌, sub32, arith,
}
use iot_repo.Board.{Board}
use iot_repo.Devkit.Loops.{watch_s6, conveying_loop}
use iot_repo.Devkit.Machine.{Machine, conveying, camera_hold, sync_s6, track_s6, process_sorters}
use iot_repo.Devkit.ProximitySensor.{ProximitySensor, read_raw, detects, debounce, is_detected}
use iot_repo.Devkit.Transition.{transition}

module _ (b : Board) where
  -- What one reading of a sensor says.
  abbrev pub Says : ProximitySensor → ℕ → Type 0
  Says s n = detects s (read_raw b n s) ≡ true

  -- A sensor that has said so for the debouncing time, and one that already counted as detected.
  settles :
      (n : ℕ) (s : ProximitySensor)
      → Says s n
      → s.last_state ≡ true
      → s.debounce_ms ≤ sub32 (b.millis (n + 1)) s.last_change
      → (is_detected b n s).stable_state ≡ true
  unfolding is_detected debounce
  settles n s says before long = ground arith

  stays :
      (n : ℕ) (s : ProximitySensor)
      → Says s n
      → s.stable_state ≡ true
      → (is_detected b n s).stable_state ≡ true
  unfolding is_detected debounce
  stays n s says stable = ground arith

  Says-is_detected : (n k : ℕ) (s : ProximitySensor) → Says s k → Says (is_detected b n s) k
  unfolding is_detected debounce read_raw detects
  Says-is_detected n k s says = says

  -- In CONVEYING with no blanking, S6 remembered as detected and saying so from now on.
  record IsKnown (m : Machine) : Type 0 where
    conveys : m.current_state ≡ some conveying
    no_blank : m.camera_blank_until ≡ 0
    remembered : m.sensors.s6_prev ≡ true
    stable : m.sensors.s6.stable_state ≡ true
    says : (n : ℕ) → m.calls ≤ n → Says m.sensors.s6 n

  -- The pass up to the look at S6, with S6 asked.
  pub looked : Machine → Machine
  looked m = track_s6 b (process_sorters b (record m { calls = m.calls + 1 }))

  -- Behind a test for an edge with no blanking in force.
  watch_s6-eq :
      (now : ℕ) (x : Machine) {t : Bool}
      → x.camera_blank_until ≡ 0
      → ((track_s6 b x).sensors.s6_prev && not x.sensors.s6_prev) ≡ t
      → watch_s6 b now x
        ≡ (if t then transition b (some camera_hold) (track_s6 b x) else track_s6 b x)
  unfolding watch_s6
  watch_s6-eq now x {t} blank e =
      let seen = track_s6 b x in
      let blanked =
        (if leb x.camera_blank_until now
          then sync_s6 b (record x { camera_blank_until = 0 })
          else seen) in
      let look : Bool → Machine = λ t. if t then transition b (some camera_hold) seen else seen in
      ap
        (λ (until : ℕ).
          if ltb 0 until then blanked else look (seen.sensors.s6_prev && not x.sensors.s6_prev))
        blank
      ∙ ap look e

  no_edge :
      (m : Machine)
      → m.camera_blank_until ≡ 0
      → m.sensors.s6_prev ≡ true
      → conveying_loop b m ≡ looked m
  unfolding conveying_loop looked process_sorters
  no_edge m blank known = watch_s6-eq (b.millis m.calls) _ {t = false} blank (ground arith)

  looked-IsKnown :
      (m : Machine)
      → m.current_state ≡ some conveying
      → m.camera_blank_until ≡ 0
      → (is_detected b (m.calls + 1 + 10) m.sensors.s6).stable_state ≡ true
      → ((n : ℕ) → m.calls ≤ n → Says m.sensors.s6 n)
      → IsKnown (looked m)
  unfolding looked process_sorters track_s6
  looked-IsKnown m conveys blank detected says = record {
    conveys = conveys;
    no_blank = blank;
    remembered = detected;
    stable = detected;
    says = λ n later.
        Says-is_detected (m.calls + 1 + 10) n m.sensors.s6 (says n (omega (arith, later)));
  }

  edge :
      (m : Machine)
      → m.camera_blank_until ≡ 0
      → m.sensors.s6_prev ≡ false
      → (is_detected b (m.calls + 1 + 10) m.sensors.s6).stable_state ≡ true
      → conveying_loop b m ≡ transition b (some camera_hold) (looked m)
  unfolding conveying_loop looked process_sorters track_s6
  edge m blank free detected = watch_s6-eq (b.millis m.calls) _ {t = true} blank (ground arith)

  current_state-camera_hold :
      (m : Machine) → (transition b (some camera_hold) m).current_state ≡ some camera_hold
  unfolding transition
  current_state-camera_hold m = refl

  -- Any number of passes in CONVEYING.
  pub conveying_loops : ℕ → Machine → Machine
  conveying_loops zero m = m
  conveying_loops (suc k) m = conveying_loops k (conveying_loop b m)

  conveying_loop-IsKnown : (m : Machine) → IsKnown m → IsKnown (conveying_loop b m)
  conveying_loop-IsKnown m h = subst IsKnown (sym (no_edge m h.no_blank h.remembered)) (
      looked-IsKnown m h.conveys h.no_blank
        (stays (m.calls + 1 + 10) m.sensors.s6 (h.says _ (omega arith)) h.stable) h.says)

  known_conveys :
      (k : ℕ) (m : Machine) → IsKnown m → (conveying_loops k m).current_state ≡ some conveying
  unfolding conveying_loops
  known_conveys zero m h = h.conveys
  known_conveys (suc k) m h = known_conveys k (conveying_loop b m) (conveying_loop-IsKnown m h)

  remembered_conveys :
      (k : ℕ) (m : Machine)
      → m.current_state ≡ some conveying
      → IsKnown (conveying_loop b m)
      → (conveying_loops k m).current_state ≡ some conveying
  unfolding conveying_loops
  remembered_conveys zero m conveys h = conveys
  remembered_conveys (suc k) m conveys h = known_conveys k (conveying_loop b m) h

  -- A product that is new is announced at once, and one that is known is not announced again.
  pub data Noticed (m : Machine) : Type 0 where
    announced :
        m.sensors.s6_prev ≡ false
        → (conveying_loop b m).current_state ≡ some camera_hold
        → Noticed m
    known :
        m.sensors.s6_prev ≡ true
        → ((k : ℕ) → (conveying_loops k m).current_state ≡ some conveying)
        → Noticed m

  -- In CONVEYING with no blanking asked for, where S6 says from now on that it sees something, as it
  -- said when it was last asked, and the clock of this pass, up to the look at S6, reads the
  -- debouncing time or more since it first said so: if S6 was not remembered as detected, this pass goes to CAMERA_HOLD; if it
  -- was, no number of passes leaves CONVEYING, whatever the clock reads later.
  pub conveying_loop-Noticed :
      (m : Machine)
      → m.current_state ≡ some conveying
      → m.camera_blank_until ≡ 0
      → m.sensors.s6.last_state ≡ true
      → ((n : ℕ) → m.calls ≤ n → Says m.sensors.s6 n)
      → ((n : ℕ)
          → m.calls ≤ n
          → n < (looked m).calls
          → m.sensors.s6.debounce_ms ≤ sub32 (b.millis n) m.sensors.s6.last_change)
      → Noticed m
  unfolding looked process_sorters track_s6
  conveying_loop-Noticed m conveys blank before says long =
      let detected =
        settles (m.calls + 1 + 10) m.sensors.s6 (says _ (omega arith)) before
          (long _ (omega arith) (omega arith)) in
      elim (Bool-cases m.sensors.s6_prev) [
        | inl remembered ↦
            let after =
              subst IsKnown (sym (no_edge m blank remembered))
                (looked-IsKnown m conveys blank detected says) in
            known remembered (λ k. remembered_conveys k m conveys after)
        | inr free ↦ announced free (
            ap (λ (x : Machine). x.current_state) (edge m blank free detected)
            ∙ current_state-camera_hold (looked m))
      ]
