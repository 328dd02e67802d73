-- ===== src/Devkit/Invariant.antt =====
-- What holds of the controller between two passes of its loop.
pub mod Same
pub mod Transitions
pub mod Commands
pub mod Loops
pub mod Reach
use iot_repo.Base.{ℕ, ◌-◌, ◌≤◌, ◌≡◌, Bool, false, Option, none, some}
use iot_repo.Base.Int.{ℤ, pos, pos_part, ◌≤ℤ◌}
use iot_repo.Devkit.DcMotor.Ramp
use iot_repo.Devkit.ServoMotor.Angle
use iot_repo.Devkit.Machine.{StateId, idle, conveying, camera_hold, paused, error, Machine}

-- The ranges of speed, angles, pulses and duty cycle.
pub record Limits (m : Machine) : Type 0 where
  pub speed_low : pos 150 ≤ℤ m.dc_speed
  pub speed_high : m.dc_speed ≤ℤ pos 255
  pub deg_a_low : pos 0 ≤ℤ m.sort_deg_a
  pub deg_a_high : m.sort_deg_a ≤ℤ pos 45
  pub deg_b_low : pos 0 ≤ℤ m.sort_deg_b
  pub deg_b_high : m.sort_deg_b ≤ℤ pos 45
  pub motor : Ramp.InRange m.dc_motor
  pub pulse_a : Angle.InRange m.servo_a
  pub pulse_b : Angle.InRange m.servo_b

-- The motor is braked and nothing slows it down.
pub record IsStopped (m : Machine) : Type 0 where
  pub braked : m.dc_motor.duty ≡ 255
  pub motor_steady : m.dc_motor.soft_stopping ≡ false
  pub steady : m.dc_soft_stop_start_speed ≡ pos 0

-- The motor runs at the speed that was set.
pub record IsDriven (m : Machine) : Type 0 where
  pub driven : m.dc_motor.duty ≡ 255 - pos_part m.dc_speed
  pub motor_steady : m.dc_motor.soft_stopping ≡ false
  pub steady : m.dc_soft_stop_start_speed ≡ pos 0

-- A soft stop from a speed of the channel may be going on.
pub record IsSlowing (m : Machine) : Type 0 where
  pub start_low : pos 0 ≤ℤ m.dc_soft_stop_start_speed
  pub start_high : m.dc_soft_stop_start_speed ≤ℤ pos 255

-- What each state has the motor do; ERROR and the lack of a state are ruled out.
abbrev pub Holds : Option StateId → Machine → Type 0
Holds none m = ⊥
Holds (some idle) m = IsStopped m
Holds (some conveying) m = IsDriven m
Holds (some camera_hold) m = IsSlowing m
Holds (some paused) m = IsStopped m
Holds (some error) m = ⊥

pub record Inv (m : Machine) : Type 0 where
  pub limits : Limits m
  pub no_blank : m.camera_blank_until ≡ 0
  pub state : Holds m.current_state m
