-- ===== src/Operator/Working/Boxes.antt =====
-- The invariant behind another value of a spin box.
use iot_repo.Base.{ℕ, ◌≤◌, refl, false, ◌==◌, List, ◌∷◌, ◌++◌, Option, arith}
use iot_repo.Base.Text.{codes}
use iot_repo.Operator.{QrGate, SpinBoxes, Call, control, Operator, World, hardware, or_default}
use iot_repo.Operator.Words.{str}
use iot_repo.Operator.Callbacks.{
  value_changed, set_dc_spin, set_servo_a_spin, set_servo_b_spin, reset_monitor,
}
use iot_repo.Operator.Heard.{turns_a, turns_b, heard}
use iot_repo.Operator.Working.{InRange, KeepsRange, Sound, say, either}

moved :
    {n : ℕ} {pid : Option ℕ} {g : QrGate} {s t : SpinBoxes} {l : List Call}
    → InRange t
    → Sound n pid g s l
    → Sound n pid g t l
moved ranged h = record {
  guarded = h.guarded;
  budget = h.budget;
  ranged = ranged;
  understood = h.understood;
}

changed_a :
    {n : ℕ} {pid : Option ℕ} {g : QrGate} {s : SpinBoxes} {l : List Call} (old new : ℕ)
    → new ≤ 45
    → Sound n pid g s l
    → Sound n pid g s (value_changed (codes "SERVO_A:") old new l)
unfolding value_changed
changed_a {n} {pid} {g} {s} {l} old new small h =
    either (Sound n pid g s) (new == old) l (control (codes "SERVO_A:" ++ str new) ∷ l) h
      (say _ (heard (turns_a new small)) refl h)

changed_b :
    {n : ℕ} {pid : Option ℕ} {g : QrGate} {s : SpinBoxes} {l : List Call} (old new : ℕ)
    → new ≤ 45
    → Sound n pid g s l
    → Sound n pid g s (value_changed (codes "SERVO_B:") old new l)
unfolding value_changed
changed_b {n} {pid} {g} {s} {l} old new small h =
    either (Sound n pid g s) (new == old) l (control (codes "SERVO_B:" ++ str new) ∷ l) h
      (say _ (heard (turns_b new small)) refl h)

module _ (w : World) (keeps : KeepsRange w) where
  pub set_dc_spin-Sound :
      {n : ℕ} {pid : Option ℕ} {g : QrGate} (v : ℕ) (m : Operator)
      → Sound n pid g m.spin_boxes m.effects
      → let x = set_dc_spin w v m in Sound n pid g x.spin_boxes x.effects
  unfolding set_dc_spin
  set_dc_spin-Sound v m h =
      moved
        (record {
          speed = keeps 150 255 v (omega arith);
          angle_a = h.ranged.angle_a;
          angle_b = h.ranged.angle_b;
        })
        h

  pub set_servo_a_spin-Sound :
      {n : ℕ} {pid : Option ℕ} {g : QrGate} (v : ℕ) (m : Operator)
      → Sound n pid g m.spin_boxes m.effects
      → let x = set_servo_a_spin w v m in Sound n pid g x.spin_boxes x.effects
  unfolding set_servo_a_spin
  set_servo_a_spin-Sound v m h =
      let small = (keeps 0 45 v (omega arith)).1 in
      changed_a m.spin_boxes.servo_a_spin (w.spin_value 0 45 v) small
        (moved (record { speed = h.ranged.speed; angle_a = small; angle_b = h.ranged.angle_b }) h)

  pub set_servo_b_spin-Sound :
      {n : ℕ} {pid : Option ℕ} {g : QrGate} (v : ℕ) (m : Operator)
      → Sound n pid g m.spin_boxes m.effects
      → let x = set_servo_b_spin w v m in Sound n pid g x.spin_boxes x.effects
  unfolding set_servo_b_spin
  set_servo_b_spin-Sound v m h =
      let small = (keeps 0 45 v (omega arith)).1 in
      changed_b m.spin_boxes.servo_b_spin (w.spin_value 0 45 v) small
        (moved (record { speed = h.ranged.speed; angle_a = h.ranged.angle_a; angle_b = small }) h)

  pub reset_monitor-Sound :
      {n : ℕ} {pid : Option ℕ} {g : QrGate} (m : Operator)
      → Sound n pid g m.spin_boxes m.effects
      → let x = reset_monitor w m in Sound n pid g x.spin_boxes x.effects
  unfolding reset_monitor
  reset_monitor-Sound m h =
      let stopped = record m { timer_servo_1l = false; timer_servo_2l = false } in
      let slow = set_dc_spin w (or_default 180 w.found_speed) stopped in
      let turned = set_servo_a_spin w (or_default 45 w.found_deg_a) slow in
      set_servo_b_spin-Sound (or_default 35 w.found_deg_b) turned (
        set_servo_a_spin-Sound (or_default 45 w.found_deg_a) slow
          (set_dc_spin-Sound (or_default 180 w.found_speed) stopped h))

  -- What the page opens with.
  pub hardware-InRange : InRange (hardware w)
  hardware-InRange = record {
    speed = keeps 150 255 (or_default 180 w.found_speed) (omega arith);
    angle_a = (keeps 0 45 (or_default 45 w.found_deg_a) (omega arith)).1;
    angle_b = (keeps 0 45 (or_default 35 w.found_deg_b) (omega arith)).1;
  }
