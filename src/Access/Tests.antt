-- ===== src/Access/Tests.antt =====
-- The door at concrete inputs.
use iot_repo.Base.{
  ℕ, ◌+◌, ◌≤◌, some, none, ◌*◌, ◌%◌, ◌<◌, ◌≡◌, refl, Bool, true, false, List, [], ◌∷◌, ltb, ◌==◌,
  if◌then◌else◌, arith,
}
use iot_repo.Base.Int.{pos}
use iot_repo.Access.{
  uid_str, count_down, servo_degree_to_duty, door_service_callback, Event, timer, service, entrance,
  exit, boot, handle_all,
}
use iot_repo.Access.Closing.{Agrees, handle_all-Agrees, seconds, led-handle_all}
use iot_repo.Access.Rc522.{
  rc522_sn_to_u64, Config, esp_ok, Spi, Device, Driver, rc522_get_tag, fresh,
}
use iot_repo.Access.Manager.{
  no_reply, reply, enter, Site, FactoryEvent, second, card_at, call_door_service, spin_once,
  factory_run,
}
use iot_repo.Access.Manager.Approval.{Approved, led-factory_run, spin_once_silenced}
use iot_repo.Access.Rc522.Overlap.{second_reader_lost}
use iot_repo.Access.Rc522.Calls.{calls-rc522_task}
use iot_repo.Access.Rc522.Scan.{rc522_task, finish, rc522_start}
use iot_repo.Access.Rc522.Startup.{rc522_start_unnoticed}

abbrev level : Bool → Bool
level x = x

abbrev card : ℕ → ℕ
card i = (171 + i * 40) % 256

abbrev busy : List Event
busy =
    entrance card
    ∷ service true
    ∷ timer true
    ∷ timer true
    ∷ exit card
    ∷ service false
    ∷ timer true
    ∷ []

handle_all-Agrees_example : Agrees (handle_all level busy (boot false))
handle_all-Agrees_example = handle_all-Agrees level busy

abbrev quiet : List Event
quiet = timer true ∷ exit card ∷ timer true ∷ timer false ∷ timer true ∷ timer true ∷ []

led-handle_all_example :
    let later = handle_all level quiet (door_service_callback true (boot false)).0 in
    (later.led ≡ ltb (seconds quiet) 5)
    × (later.duty ≡ servo_degree_to_duty (if ltb (seconds quiet) 5 then pos 90 else pos 0))
led-handle_all_example = led-handle_all level quiet (boot false) tt

-- The duty cycles of the two angles, of 8192.
closed_duty : servo_degree_to_duty (pos 0) ≡ 204
unfolding servo_degree_to_duty
closed_duty = refl

open_duty : servo_degree_to_duty (pos 90) ≡ 614
unfolding servo_degree_to_duty
open_duty = refl

-- A bus on which every call succeeds and every register reads as the given byte.
abbrev bus : ℕ → Spi
bus byte = record {
  read = λ addr n. byte;
  transmit = λ n. esp_ok;
  bus_initialize = λ n. esp_ok;
  add_device = λ n. esp_ok;
  first_calloc = λ n. true;
  second_calloc = λ n. true;
  vspi_host = 2;
  task_create = λ n. true;
}

-- A reader with a card: the answer to the request has two bytes, that to anticollision five.
abbrev card_bus : Spi
card_bus = record (bus 0x20) {
  read = λ addr n. if addr == 0x0A then (if ltb n 25 then 2 else 5) else 0x20;
}

abbrev config : Config
config = record {
  miso_io = 19;
  mosi_io = 23;
  sck_io = 18;
  sda_io = 5;
  spi_host_id = 0;
  callback = true;
  scan_interval_ms = 0;
  task_stack_size = 0;
  task_priority = 0;
}

abbrev scanning : Device
scanning = record {
  running = true;
  config = config;
  spi = true;
  scan_started = true;
  tag_was_present_last_time = false;
}

abbrev two_readers : Driver
two_readers = record fresh { hndls = λ i. some scanning; device_count = 2 }

-- The card is found.
two_readers_tag :
    (rc522_get_tag card_bus two_readers).0 ≡ some (0x20 ∷ 0x20 ∷ 0x20 ∷ 0x20 ∷ 0x20 ∷ [])
unfolding rc522_get_tag
two_readers_tag = refl

rc522_start_unnoticed_example :
    ((rc522_start (bus 0) config fresh).0 ≡ esp_ok)
    × ((rc522_start (bus 0) config fresh).1.device_count ≡ 0)
rc522_start_unnoticed_example =
    rc522_start_unnoticed (bus 0) config fresh (omega arith) (λ n. refl) (λ n. refl) (λ n. refl)
      (λ n. refl) (λ n. refl) (λ n. refl)

-- No wait is cut short by an answer that never comes.
calls-rc522_task_example :
    (rc522_task (bus 0) two_readers).calls ≤ two_readers.calls + two_readers.device_count * 4077
calls-rc522_task_example = calls-rc522_task (bus 0) two_readers

sn_to_u64_test : rc522_sn_to_u64 (some (λ i. i + 1)) ≡ 0x0504030201
unfolding rc522_sn_to_u64
sn_to_u64_test = refl

abbrev waiting : Device
waiting = record scanning { running = false; scan_started = false }

-- The first reader scans, and the second is about to be started.
abbrev one_and_a_half : Driver
one_and_a_half = record fresh {
  hndls = λ i. if i == 1 then some waiting else some scanning;
  device_count = 1;
  active_hndl = some 1;
}

second_reader_lost_example :
    let alone = (finish card_bus esp_ok one_and_a_half).1 in
    let overlapped = (finish card_bus esp_ok (rc522_task card_bus one_and_a_half)).1 in
    (alone.device_count ≡ 2)
    × (alone.hndls 1 ≡ some (record waiting { running = true }))
    × (overlapped.device_count ≡ 2)
    × (overlapped.hndls 1 ≡ some waiting)
second_reader_lost_example =
    second_reader_lost card_bus esp_ok one_and_a_half waiting refl refl refl

-- A server that approves the first card and then answers no more.
abbrev site : Site
site = record {
  request_tcp_server = λ n uid d. if n == 0 then reply true else no_reply;
  wait_for_service = λ n. true;
  gpio_get_level = λ l. l;
}

abbrev card_held : FactoryEvent
card_held = card_at enter card

lit : (factory_run site (second ∷ second ∷ card_held ∷ [])).door.led ≡ true
unfolding factory_run call_door_service door_service_callback count_down
lit = refl

lost :
    site.request_tcp_server (factory_run site (card_held ∷ [])).manager.calls (uid_str card) enter
    ≡ no_reply
unfolding factory_run call_door_service
lost = refl

led-factory_run_example : (n : ℕ) × ((n < 5) × Approved site n (second ∷ second ∷ card_held ∷ []))
led-factory_run_example = led-factory_run site (second ∷ second ∷ card_held ∷ []) lit

spin_once_silenced_example :
    let m = (factory_run site (second ∷ card_held ∷ card_held ∷ [])).manager in
    spin_once site enter [] m ≡ (m, none)
spin_once_silenced_example =
    spin_once_silenced site (second ∷ []) (card_held ∷ []) card enter [] lost
