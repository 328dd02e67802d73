-- ===== src/Devkit/DcMotor.antt =====
-- motor/dc_motor.h and motor/dc_motor.cpp.
pub mod Ramp
use iot_repo.Base.{
  ℕ, ◌+◌, ◌-◌, ◌*◌, ◌/◌, ◌%◌, ◌^◌, Bool, true, false, not, leb, sub32, if◌then◌else◌,
}
use iot_repo.Base.Int.{ℤ, pos, negsuc, ◌-ℤ◌, to_u32, to_int}
use iot_repo.Board.{Board}

-- `duty` and `in1_high` are what the LEDC channel and the IN1 pin were last set to.
pub record DcMotor : Type 0 where
  pub channel : ℕ
  pub in1_pin : ℤ
  pub soft_stopping : Bool
  pub soft_start_speed : ℤ
  pub soft_duration_ms : ℕ
  pub soft_start_ms : ℕ
  pub in1_high : Bool
  pub duty : ℕ

-- The object before `begin`; the pin and the channel are not driven yet.
abbrev pub fresh : DcMotor
fresh = record {
  channel = 0;
  in1_pin = negsuc 0;
  soft_stopping = false;
  soft_start_speed = pos 0;
  soft_duration_ms = 0;
  soft_start_ms = 0;
  in1_high = false;
  duty = 0;
}

unfoldable pub brake : DcMotor → DcMotor
brake m = record m { soft_stopping = false; duty = 255 }

-- ledcSetup and ledcAttachPin only configure the peripheral.
unfoldable pub begin : ℕ → ℕ → DcMotor → DcMotor
unfolding brake
begin in1 ch m = brake (record m { in1_pin = pos in1; channel = ch; in1_high = true })

module _ (b : Board) where
  unfoldable pub drive : ℤ → DcMotor → DcMotor
  drive speed m =
      let v = b.constrain speed (pos 0) (pos 255) in
      record m { soft_stopping = false; duty = to_u32 (pos 255 -ℤ v) }

  -- Reads the clock once, as call n.
  unfoldable pub start_soft_stop : ℕ → ℤ → ℕ → DcMotor → DcMotor
  start_soft_stop n start_speed duration m = record m {
    soft_stopping = true;
    soft_start_speed = b.constrain start_speed (pos 0) (pos 255);
    soft_duration_ms = duration;
    soft_start_ms = b.millis n;
  }

  -- (long)_softStartSpeed * elapsed / _softDurationMs is computed in unsigned long.
  unfoldable pub ramp_speed : ℕ → DcMotor → ℤ
  unfolding ◌-ℤ◌
  ramp_speed elapsed m =
      b.constrain
        (m.soft_start_speed
          -ℤ to_int ((to_u32 m.soft_start_speed * elapsed) % 2 ^ 32 / m.soft_duration_ms))
        (pos 0) (pos 255)

  -- The motor, whether it has stopped, and the number of the next call: the clock is read only
  -- while the motor slows down.
  unfoldable pub update_soft_stop : ℕ → DcMotor → DcMotor × Bool × ℕ
  unfolding brake
  update_soft_stop n m =
      let elapsed = sub32 (b.millis n) m.soft_start_ms in
      if not m.soft_stopping
      then (m, true, n)
      else if leb m.soft_duration_ms elapsed
      then (brake m, true, n + 1)
      else (record m { duty = to_u32 (pos 255 -ℤ ramp_speed elapsed m) }, false, n + 1)
