-- ===== src/Access.antt =====
-- access-controller/app.c: the door of the factory. The ROS client library and the reader driver call
-- the callbacks; what they print and whether a publish fails changes nothing.
pub mod Closing
pub mod Rc522
pub mod Manager
mod Tests
use Prim.Native.String.{String}
use iot_repo.Base.{
  ℕ, suc, ◌+◌, ◌-◌, ◌*◌, ◌/◌, ◌%◌, Bool, true, false, List, [], ◌∷◌, ◌++◌, ltb, ◌==◌, take,
  if◌then◌else◌,
}
use iot_repo.Base.Int.{ℤ, pos, negsuc, ◌+ℤ◌, neg, to_u32}
use iot_repo.Base.Text.{Bytes}

-- What is published: the state of the door, or a tag on the topic of its reader.
pub data Publication : Type 0 where
  led_state : Bool → Publication
  tag : String → Bytes → Publication

-- `led` and `duty` are what the pin and the LEDC channel were last set to. door_open_countdown is
-- only ever set to 5 or 0, or counted down while it is positive. `published` has the newest first.
pub record Door : Type 0 where
  pub led : Bool
  pub duty : ℕ
  pub door_open_countdown : ℕ
  pub published : List Publication

-- ((2500 - 500) * degree) / 180, which C rounds towards 0.
abbrev pub offset_us : ℤ → ℤ
offset_us (pos n) = pos (2000 * n / 180)
offset_us (negsuc n) = neg (pos (2000 * suc n / 180))

-- (2^13 - 1) * cal_pulsewidth / 20000 in double, cut off: the quotient is never so near to a whole
-- number that rounding moves it over.
unfoldable pub servo_degree_to_duty : ℤ → ℕ
unfolding ◌+ℤ◌ neg
servo_degree_to_duty degree = 8191 * to_u32 (pos 500 +ℤ offset_us degree) / 20000

unfoldable pub set_servo_angle : ℤ → Door → Door
set_servo_angle degree d = record d { duty = servo_degree_to_duty degree }

unfoldable pub close_door : Door → Door
unfolding set_servo_angle
close_door d = set_servo_angle (pos 0) (record d { led = false })

-- The count of one second; at 0 the door closes.
unfoldable pub count_down : Door → Door
unfolding close_door
count_down d =
    let d' = record d { door_open_countdown = d.door_open_countdown - 1 } in
    if ltb 0 d.door_open_countdown
    then (if d'.door_open_countdown == 0 then close_door d' else d')
    else d

-- The response of the service: success and message.
pub record Response : Type 0 where
  pub success : Bool
  pub message : String

unfoldable pub door_service_callback : Bool → Door → Door × Response
unfolding set_servo_angle close_door
door_service_callback true d = (
  record (set_servo_angle (pos 90) (record d { led = true })) { door_open_countdown = 5 },
  record { success = true; message = "Door Opened" },
)
door_service_callback false d = (
  record (close_door d) { door_open_countdown = 0 },
  record { success = true; message = "Door Closed" },
)

-- One character of %X.
abbrev pub hex_digit : ℕ → ℕ
hex_digit n = if ltb n 10 then b'0' + n else b'A' + (n - 10)

-- %02X of a byte.
abbrev pub hex_byte : ℕ → Bytes
hex_byte n = hex_digit (n / 16) ∷ hex_digit (n % 16) ∷ []

-- `char uid_str[20]` holds 19 characters and a NUL.
unfoldable pub uid_str : (ℕ → ℕ) → Bytes
uid_str sn = take 19 (
    hex_byte (sn 0)
    ++ (hex_byte (sn 1) ++ (hex_byte (sn 2) ++ (hex_byte (sn 3) ++ hex_byte (sn 4)))))

unfoldable pub rfid_callback_entrance : (ℕ → ℕ) → Door → Door
rfid_callback_entrance sn d = record d {
  published = tag "/rfid_entrance_door" (uid_str sn) ∷ d.published;
}

unfoldable pub rfid_callback_exit : (ℕ → ℕ) → Door → Door
rfid_callback_exit sn d = record d { published = tag "/rfid_exit_door" (uid_str sn) ∷ d.published }

-- What the executor and the readers' tasks call, in whatever order.
pub data Event : Type 0 where
  timer : Bool → Event
  service : Bool → Event
  entrance exit : (ℕ → ℕ) → Event

-- The door that appMain leaves, with the level at which the pin starts.
abbrev pub boot : Bool → Door
boot level = record {
  led = level;
  duty = servo_degree_to_duty (pos 0);
  door_open_countdown = 0;
  published = [];
}

-- gpio_get_level: the level that is read back from a pin last set to the given one.
module _ (gpio_get_level : Bool → Bool) where
  -- The flag is `timer != NULL`.
  unfoldable pub timer_callback : Bool → Door → Door
  unfolding count_down
  timer_callback false d = d
  timer_callback true d =
      count_down (record d { published = led_state (gpio_get_level d.led) ∷ d.published })

  unfoldable pub handle : Event → Door → Door
  unfolding timer_callback door_service_callback rfid_callback_entrance rfid_callback_exit
  handle (timer present) d = timer_callback present d
  handle (service wanted) d = (door_service_callback wanted d).0
  handle (entrance sn) d = rfid_callback_entrance sn d
  handle (exit sn) d = rfid_callback_exit sn d

  unfoldable pub handle_all : List Event → Door → Door
  unfolding handle
  handle_all [] d = d
  handle_all (e ∷ es) d = handle_all es (handle e d)
