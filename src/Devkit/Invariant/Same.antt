-- ===== src/Devkit/Invariant/Same.antt =====
-- Controllers that agree in what the invariant reads.
use iot_repo.Base.{◌≡◌, ◌∙◌, sym, subst, Option, none, some, arith}
use iot_repo.Devkit.Machine.{StateId, idle, conveying, camera_hold, paused, error, Machine}
use iot_repo.Devkit.Invariant.{Limits, Holds, Inv}

-- What a state promises depends on the motor, the speed and the soft stop alone.
pub Holds-same :
    (m m' : Machine) (s : Option StateId)
    → m'.dc_motor ≡ m.dc_motor
    → m'.dc_speed ≡ m.dc_speed
    → m'.dc_soft_stop_start_speed ≡ m.dc_soft_stop_start_speed
    → Holds s m
    → Holds s m'
Holds-same m m' none p q r h = h
Holds-same m m' (some idle) p q r h = ground arith
Holds-same m m' (some conveying) p q r h = ground arith
Holds-same m m' (some camera_hold) p q r h = ground arith
Holds-same m m' (some paused) p q r h = ground arith
Holds-same m m' (some error) p q r h = h

-- What the invariant reads is the same in both.
pub record Same (m m' : Machine) : Type 0 where
  pub current_state : m'.current_state ≡ m.current_state
  pub dc_motor : m'.dc_motor ≡ m.dc_motor
  pub servo_a : m'.servo_a ≡ m.servo_a
  pub servo_b : m'.servo_b ≡ m.servo_b
  pub dc_speed : m'.dc_speed ≡ m.dc_speed
  pub start_speed : m'.dc_soft_stop_start_speed ≡ m.dc_soft_stop_start_speed
  pub sort_deg_a : m'.sort_deg_a ≡ m.sort_deg_a
  pub sort_deg_b : m'.sort_deg_b ≡ m.sort_deg_b
  pub blank : m'.camera_blank_until ≡ m.camera_blank_until

Limits-Same : (m m' : Machine) → Same m m' → Limits m → Limits m'
Limits-Same m m' s l = ground arith

pub Inv-Same : (m m' : Machine) → Same m m' → Inv m → Inv m'
Inv-Same m m' s i = record {
  limits = Limits-Same m m' s i.limits;
  no_blank = s.blank ∙ i.no_blank;
  state =
      subst (λ c. Holds c m') (sym s.current_state)
        (Holds-same m m' m.current_state s.dc_motor s.dc_speed s.start_speed i.state);
}
