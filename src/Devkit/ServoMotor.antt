-- ===== src/Devkit/ServoMotor.antt =====
-- motor/servo_motor.h and motor/servo_motor.cpp. MCPWM set-up only configures the peripheral.
pub mod Angle
use iot_repo.Base.{ℕ, ◌+◌, ◌*◌, ◌/◌, ◌%◌, ◌^◌}
use iot_repo.Base.Int.{ℤ, pos, negsuc, ◌+ℤ◌, ◌-ℤ◌, neg, to_u32}
use iot_repo.Board.{Board}

-- `pulse_us` is the pulse width that the MCPWM unit was last set to.
pub record ServoMotor : Type 0 where
  pub unit : ℕ
  pub min_us : ℤ
  pub max_us : ℤ
  pub pulse_us : ℕ

abbrev pub fresh : ServoMotor
fresh = record { unit = 0; min_us = pos 544; max_us = pos 2400; pulse_us = 0 }

abbrev pub center_deg : ℤ
center_deg = pos 0

unfoldable pub disable : ServoMotor → ServoMotor
disable s = record s { pulse_us = 0 }

-- (uint32_t)(_maxUs - _minUs) * deg180 / 180 is computed in uint32_t.
unfoldable pub pulse_for : ServoMotor → ℤ → ℕ
unfolding ◌-ℤ◌
pulse_for s deg180 =
    (to_u32 s.min_us + (to_u32 (s.max_us -ℤ s.min_us) * to_u32 deg180) % 2 ^ 32 / 180) % 2 ^ 32

module _ (b : Board) where
  unfoldable pub set_angle : ℤ → ServoMotor → ServoMotor
  unfolding pulse_for ◌+ℤ◌
  set_angle deg s =
      let d = b.constrain deg (negsuc 89) (pos 90) in
      record s { pulse_us = pulse_for s (d +ℤ pos 90) }

  unfoldable pub center : ServoMotor → ServoMotor
  unfolding set_angle
  center s = set_angle center_deg s

  unfoldable pub sort : ℤ → ServoMotor → ServoMotor
  unfolding set_angle neg
  sort deg s = set_angle (neg deg) s

  unfoldable pub begin : ℕ → ℤ → ℤ → ServoMotor → ServoMotor
  unfolding center
  begin unit lo hi s = center (record s { unit = unit; min_us = lo; max_us = hi })
