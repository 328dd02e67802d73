-- ===== src/Access/Closing.antt =====
-- The door over any sequence of callbacks.
use iot_repo.Base.{
  ℕ, suc, ◌-◌, ◌≤◌, ◌≡◌, ◌∙◌, refl, Bool, true, false, List, [], ◌∷◌, ltb, if◌then◌else◌, arith,
}
use iot_repo.Base.Int.{pos}
use iot_repo.Access.{
  Door, led_state, servo_degree_to_duty, count_down, close_door, set_servo_angle,
  door_service_callback, Event, timer, service, entrance, exit, boot, timer_callback, handle,
  handle_all,
}

-- The lamp, the servo and the count agree, and the door is open for five seconds at most.
pub record Agrees (d : Door) : Type 0 where
  pub short : d.door_open_countdown ≤ 5
  pub lamp : d.led ≡ ltb 0 d.door_open_countdown
  pub servo : d.duty ≡ (
      if ltb 0 d.door_open_countdown
      then servo_degree_to_duty (pos 90)
      else servo_degree_to_duty (pos 0))

pub count_down-Agrees : (d : Door) → Agrees d → Agrees (count_down d)
unfolding count_down close_door set_servo_angle
count_down-Agrees d a = ground arith

pub door_service_callback-Agrees :
    (wanted : Bool) (d : Door) → Agrees (door_service_callback wanted d).0
unfolding door_service_callback close_door set_servo_angle
door_service_callback-Agrees true d = record { short = omega arith; lamp = refl; servo = refl }
door_service_callback-Agrees false d = record { short = omega arith; lamp = refl; servo = refl }

-- Callbacks among which the service is not called.
abbrev pub Quiet : List Event → Type 0
Quiet [] = Unit
Quiet (service wanted ∷ es) = ⊥
Quiet (_ ∷ es) = Quiet es

-- How many of the callbacks count a second.
pub seconds : List Event → ℕ
seconds [] = 0
seconds (timer true ∷ es) = suc (seconds es)
seconds (_ ∷ es) = seconds es

pub count_down_lem : (d : Door) → (count_down d).door_open_countdown ≡ d.door_open_countdown - 1
unfolding count_down close_door set_servo_angle
count_down_lem d = ground arith

module _ (gpio_get_level : Bool → Bool) where
  handle-Agrees : (e : Event) (d : Door) → Agrees d → Agrees (handle gpio_get_level e d)
  unfolding handle timer_callback
  handle-Agrees (timer true) d a =
      count_down-Agrees _ (record { short = a.short; lamp = a.lamp; servo = a.servo })
  handle-Agrees (timer false) d a = a
  handle-Agrees (service wanted) d a = door_service_callback-Agrees wanted d
  handle-Agrees (entrance sn) d a = record { short = a.short; lamp = a.lamp; servo = a.servo }
  handle-Agrees (exit sn) d a = record { short = a.short; lamp = a.lamp; servo = a.servo }

  handle_all_keeps :
      (es : List Event) (d : Door) → Agrees d → Agrees (handle_all gpio_get_level es d)
  unfolding handle_all
  handle_all_keeps [] d a = a
  handle_all_keeps (e ∷ es) d a = handle_all_keeps es _ (handle-Agrees e d a)

  -- Whatever callbacks come, in whatever order, behind a boot with the pin low, the lamp is on and
  -- the servo at 90 degrees exactly while seconds are left to count, of which there are five at
  -- most; else the lamp is off and the servo at 0.
  pub handle_all-Agrees : (es : List Event) → Agrees (handle_all gpio_get_level es (boot false))
  handle_all-Agrees es =
      handle_all_keeps es (boot false) (record { short = omega arith; lamp = refl; servo = refl })

  door_open_countdown-handle_all :
      (es : List Event) (d : Door)
      → Quiet es
      → (handle_all gpio_get_level es d).door_open_countdown ≡ d.door_open_countdown - seconds es
  unfolding handle_all handle timer_callback seconds
  door_open_countdown-handle_all [] d q = omega arith
  door_open_countdown-handle_all (timer true ∷ es) d q =
      door_open_countdown-handle_all es _ q
      ∙ omega (
        arith,
        count_down_lem (record d { published = led_state (gpio_get_level d.led) ∷ d.published }),
      )
  door_open_countdown-handle_all (timer false ∷ es) d q = door_open_countdown-handle_all es d q
  door_open_countdown-handle_all (service wanted ∷ es) d q = absurd q
  door_open_countdown-handle_all (entrance sn ∷ es) d q = door_open_countdown-handle_all es _ q
  door_open_countdown-handle_all (exit sn ∷ es) d q = door_open_countdown-handle_all es _ q

  countdown-opened :
      (es : List Event) (d : Door)
      → Quiet es
      → (handle_all gpio_get_level es (door_service_callback true d).0).door_open_countdown
        ≡ 5 - seconds es
  unfolding door_service_callback
  countdown-opened es d q = door_open_countdown-handle_all es (door_service_callback true d).0 q

  -- Once the service has opened the door and is not called again, the lamp is on and the servo at
  -- 90 degrees until the timer has called five times; from then on the lamp is off and the servo at
  -- 0.
  pub led-handle_all :
      (es : List Event) (d : Door)
      → Quiet es
      → let later = handle_all gpio_get_level es (door_service_callback true d).0 in
        (later.led ≡ ltb (seconds es) 5)
        × (later.duty ≡ servo_degree_to_duty (if ltb (seconds es) 5 then pos 90 else pos 0))
  led-handle_all es d q =
      let start = (door_service_callback true d).0 in
      let a = handle_all_keeps es start (door_service_callback-Agrees true d) in
      let left = countdown-opened es d q in ground arith
