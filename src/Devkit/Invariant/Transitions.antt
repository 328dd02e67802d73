-- ===== src/Devkit/Invariant/Transitions.antt =====
-- The invariant and the transitions.
use iot_repo.Base.{◌-◌, ◌≡◌, ◌∙◌, refl, false, Option, none, some, arith}
use iot_repo.Base.Int.{ℤ, pos, pos_part, ◌≤ℤ◌}
use iot_repo.Board.{Board}
use iot_repo.Devkit.DcMotor.{DcMotor, brake, drive}
use iot_repo.Devkit.DcMotor.Ramp
use iot_repo.Devkit.ServoMotor.Angle
use iot_repo.Devkit.Machine.{StateId, idle, conveying, camera_hold, paused, error, Machine}
use iot_repo.Devkit.Transition.{
  leave, transition, idle_enter, conveying_enter, camera_hold_enter, paused_enter,
}
use iot_repo.Devkit.Invariant.{Limits, Holds, Inv}

leave-Limits : (s : Option StateId) (m : Machine) → Limits m → Limits (leave s m)
unfolding leave
leave-Limits none m l = l
leave-Limits (some idle) m l = l
leave-Limits (some conveying) m l = l
leave-Limits (some camera_hold) m l = ground arith
leave-Limits (some paused) m l = l
leave-Limits (some error) m l = ground arith

-- Whatever state is left, no soft stop of the Context outlives it.
leave_steady :
    (s : Option StateId) (m : Machine) → Holds s m → (leave s m).dc_soft_stop_start_speed ≡ pos 0
unfolding leave
leave_steady none m h = absurd h
leave_steady (some idle) m h = h.steady
leave_steady (some conveying) m h = h.steady
leave_steady (some camera_hold) m h = refl
leave_steady (some paused) m h = h.steady
leave_steady (some error) m h = absurd h

leave_blank :
    (s : Option StateId) (m : Machine) → (leave s m).camera_blank_until ≡ m.camera_blank_until
unfolding leave
leave_blank none m = refl
leave_blank (some idle) m = refl
leave_blank (some conveying) m = refl
leave_blank (some camera_hold) m = refl
leave_blank (some paused) m = refl
leave_blank (some error) m = refl

module _ (b : Board) where
  idle_enter-Inv :
      (m : Machine) → Limits m → Inv (idle_enter b (record m { current_state = some idle }))
  unfolding idle_enter brake
  idle_enter-Inv m l = ground (
    arith,
    Ramp.brake-InRange m.dc_motor,
    Angle.disable-InRange _ (Angle.center-InRange b m.servo_a l.pulse_a),
    Angle.disable-InRange _ (Angle.center-InRange b m.servo_b l.pulse_b),
  )

  pub drive_exact :
      (v : ℤ) (m : DcMotor)
      → pos 0 ≤ℤ v
      → v ≤ℤ pos 255
      → ((drive b v m).duty ≡ 255 - pos_part v) × ((drive b v m).soft_stopping ≡ false)
  drive_exact v m lo hi = (Ramp.drive_exact b v m lo hi, unfold drive in refl)

  conveying_enter-Inv :
      (m : Machine)
      → Limits m
      → m.dc_soft_stop_start_speed ≡ pos 0
      → Inv (conveying_enter b (record m { current_state = some conveying }))
  unfolding conveying_enter
  conveying_enter-Inv m l steady =
      ground (arith, Ramp.drive-InRange b m.dc_speed m.dc_motor, drive_exact m.dc_speed m.dc_motor)

  camera_hold_enter-Inv :
      (m : Machine)
      → Limits m
      → m.camera_blank_until ≡ 0
      → Inv (camera_hold_enter b (record m { current_state = some camera_hold }))
  unfolding camera_hold_enter
  camera_hold_enter-Inv m l blank =
      ground (arith, Ramp.start_soft_stop-InRange b m.calls m.dc_speed 250 m.dc_motor)

  paused_enter-Inv :
      (m : Machine)
      → Limits m
      → m.camera_blank_until ≡ 0
      → m.dc_soft_stop_start_speed ≡ pos 0
      → Inv (paused_enter b (record m { current_state = some paused }))
  unfolding paused_enter brake
  paused_enter-Inv m l blank steady = ground (arith, Ramp.brake-InRange m.dc_motor)

  -- To IDLE from anywhere.
  pub transition_idle-Inv : (m : Machine) → Limits m → Inv (transition b (some idle) m)
  unfolding transition
  transition_idle-Inv m l =
      idle_enter-Inv (leave m.current_state m) (leave-Limits m.current_state m l)

  -- To CONVEYING, whatever blanking is asked for.
  pub transition_conveying-Inv :
      (m : Machine) → Limits m → Holds m.current_state m → Inv (transition b (some conveying) m)
  unfolding transition
  transition_conveying-Inv m l h =
      conveying_enter-Inv (leave m.current_state m) (leave-Limits m.current_state m l)
        (leave_steady m.current_state m h)

  pub transition_camera_hold-Inv :
      (m : Machine) → Limits m → m.camera_blank_until ≡ 0 → Inv (transition b (some camera_hold) m)
  unfolding transition
  transition_camera_hold-Inv m l blank =
      camera_hold_enter-Inv (leave m.current_state m) (leave-Limits m.current_state m l)
        (leave_blank m.current_state m ∙ blank)

  pub transition_paused-Inv :
      (m : Machine)
      → Limits m
      → m.camera_blank_until ≡ 0
      → Holds m.current_state m
      → Inv (transition b (some paused) m)
  unfolding transition
  transition_paused-Inv m l blank h =
      paused_enter-Inv (leave m.current_state m) (leave-Limits m.current_state m l)
        (leave_blank m.current_state m ∙ blank) (leave_steady m.current_state m h)
