-- ===== src/Devkit/ProximitySensor/Debounce.antt =====
-- The debouncing of a sensor, over a history of samples.
use iot_repo.Base.{ℕ, ◌≡◌, Bool, List, [], ◌∷◌, refl, leb, differ, sub32, if◌then◌else◌, arith}
use iot_repo.Devkit.ProximitySensor.{ProximitySensor, debounce}

-- One poll of the sensor: what the reading says, and the clock behind it.
pub record Sample : Type 0 where
  pub level : Bool
  pub time : ℕ

-- A history has its newest sample first, and begins with a sensor that `sync` left at `level`.
pub level_of : Bool → List Sample → Bool
level_of level [] = level
level_of level (x ∷ h) = x.level

-- When the level that the history ends with began: 0 where it has stood since the sync.
pub run_start : Bool → List Sample → ℕ
run_start level [] = 0
run_start level (x ∷ h) =
    let earlier = run_start level h in if differ x.level (level_of level h) then x.time else earlier

-- The output that the history asks for: a level is taken over when it has stood for the given time.
pub settled : ℕ → Bool → List Sample → Bool
settled wait level [] = level
settled wait level (x ∷ h) =
    let before = settled wait level h in
    if leb wait (sub32 x.time (run_start level (x ∷ h))) then x.level else before

pub replay : ProximitySensor → List Sample → ProximitySensor
replay s [] = s
replay s (x ∷ h) = debounce x.level x.time (replay s h)

record Agrees (wait : ℕ) (level : Bool) (h : List Sample) (s : ProximitySensor) : Type 0 where
  wait_kept : s.debounce_ms ≡ wait
  last : s.last_state ≡ level_of level h
  since : s.last_change ≡ run_start level h
  stable : s.stable_state ≡ settled wait level h

debounce-Agrees :
    (wait : ℕ) (level : Bool) (x : Sample) (h : List Sample) (s : ProximitySensor)
    → Agrees wait level h s
    → Agrees wait level (x ∷ h) (debounce x.level x.time s)
unfolding debounce settled run_start level_of
debounce-Agrees wait level x h s a = ground arith

replay-Agrees :
    (h : List Sample) (s : ProximitySensor)
    → s.last_state ≡ s.stable_state
    → s.last_change ≡ 0
    → Agrees s.debounce_ms s.stable_state h (replay s h)
unfolding replay
replay-Agrees [] s e z = record {
  wait_kept = refl;
  last = unfold level_of in e;
  since = unfold run_start in z;
  stable = unfold settled in refl;
}
replay-Agrees (x ∷ h) s e z = debounce-Agrees _ _ x h (replay s h) (replay-Agrees h s e z)

-- Behind a sync, the state that isDetected returns after any history of samples is the debounced
-- level that the history asks for.
pub stable_state-replay :
    (h : List Sample) (s : ProximitySensor)
    → s.last_state ≡ s.stable_state
    → s.last_change ≡ 0
    → (replay s h).stable_state ≡ settled s.debounce_ms s.stable_state h
stable_state-replay h s e z = (replay-Agrees h s e z).stable
