-- ===== src/Operator/Tests.antt =====
-- The operator's program at concrete inputs.
use iot_repo.Base.{
  ℕ, ◌+◌, ◌*◌, ◌≡◌, ◌↔◌, refl, true, ◌&&◌, List, [], ◌∷◌, map, Option, none, some, ltb, leb, ◌==◌,
  if◌then◌else◌, arith,
}
use iot_repo.Base.Int.{ltb_ℤ}
use iot_repo.Base.Text.{Bytes, codes, after_prefix}
use iot_repo.Board.{Board}
use iot_repo.Devkit.Machine.{idle, conveying, camera_hold, paused, error}
use iot_repo.Devkit.Main
use iot_repo.Devkit.Mqtt.{status_json}
use iot_repo.Operator.{
  fsm_idle, line_1l, active_state, success_1l, Process, Order, Operator, World, control,
  api_process_start, api_process_stop, api_process_update, fresh, hardware, no_process,
}
use iot_repo.Operator.Words.{strip, str, classify, fsm_state}
use iot_repo.Operator.Gate.{try_accept, set_process_active}
use iot_repo.Operator.Callbacks.{on_process_completed}
use iot_repo.Operator.Counting.{find_process, handle_sort_result}
use iot_repo.Operator.States.{
  camera_detected, handle_s1_detected, sorted_1l, handle_qr, handle_status,
}
use iot_repo.Operator.Page.{
  Event, sensor_received, qr_decoded, start_clicked, dc_applied, servo_a_edited, refreshed, run,
}
use iot_repo.Operator.Working.{KeepsRange}
use iot_repo.Operator.Running.{Kept, detections}
use iot_repo.Operator.Running.Events.{run-Kept}
use iot_repo.Operator.Following.{ReadsStatus, Shows, events_of, run-Shows}
use iot_repo.Operator.Releasing.{Reading, Moves, handle_qr-Reading}
use iot_repo.Operator.Camera.{
  CameraEvent, frame_read, bottle_seen, emitted, was_reset, worker_cooldown, read_all, Spaced,
  read_all-Spaced,
}
use iot_repo.Operator.Counts.{Counted, handle_sort_result-Counted}
use iot_repo.Operator.Deciding.{Passes, try_accept-Passes, Sorted, classify-Sorted}
use iot_repo.Operator.Restarting.{effects-handle_status}

abbrev to_lower : ℕ → ℕ
to_lower c = if leb b'A' c && leb c b'Z' then c + 32 else c

abbrev up_to_quote : Bytes → Bytes
up_to_quote [] = []
up_to_quote (c ∷ s) = if c == 34 then [] else c ∷ up_to_quote s

abbrev quoted : Option Bytes → Option Bytes
quoted none = none
quoted (some rest) = some (up_to_quote rest)

-- A process of two bottles, and its order.
abbrev two_bottles : Process
two_bottles = record {
  process_id = 7;
  order_id = 3;
  success_1l_qty = 0;
  success_2l_qty = 0;
  unclassified_qty = 1;
  order_total_qty = 2;
}

abbrev order : Order
order = record { order_id = 3; items = codes "Soy_1L" ∷ codes "Soy_2L" ∷ [] }

-- A clock of two seconds a call, and a server that answers or not.
abbrev bench : Option (List Process) → World
bench answer = record {
  lower = map to_lower;
  json_state = λ text. quoted (after_prefix (codes "{\"state\":\"") text);
  json_item_code = λ text. quoted (after_prefix (codes "{\"item_code\":\"") text);
  monotonic = λ n. 2000 * (n + 9);
  process_start = λ n. true;
  list_orders = λ n. some (order ∷ []);
  list_processes = λ n. answer;
  found_speed = some 175;
  found_deg_a = some 43;
  found_deg_b = some 35;
  spin_value = λ lo hi v. if ltb v lo then lo else if ltb hi v then hi else v;
}

abbrev online : World
online = bench (some (two_bottles ∷ []))

online-KeepsRange : KeepsRange online
online-KeepsRange lo hi v h = ground arith

-- A bottle of one litre, with another angle for its servo, the last event first.
abbrev bottle : List Event
bottle =
    sensor_received (codes "S3_DETECTED")
    ∷ sensor_received (codes "S1_DETECTED")
    ∷ qr_decoded (codes " soy_1l ")
    ∷ sensor_received (codes "CAMERA_DETECT")
    ∷ servo_a_edited 20
    ∷ dc_applied
    ∷ start_clicked (some 7)
    ∷ refreshed
    ∷ []

-- What is sent for it; behind the last bottle the servo gets its own angle back.
bottle_sent :
    (run online bottle (fresh online)).effects
    ≡ control (codes "SERVO_A:43")
      ∷ api_process_stop 7
      ∷ control (codes "SORT_STOP")
      ∷ api_process_update 7 success_1l 1
      ∷ control (codes "SERVO_A:0")
      ∷ control (codes "SERVO_A:20")
      ∷ control (codes "SORT_DIR:1L")
      ∷ control (codes "SERVO_A:20")
      ∷ control (codes "DC_SPEED:175")
      ∷ control (codes "SORT_START")
      ∷ api_process_start 7
      ∷ []
unfolding run camera_detected set_process_active handle_s1_detected sorted_1l on_process_completed
    str
bottle_sent = refl

run-Kept_example : Kept (detections bottle) (run online bottle (fresh online))
run-Kept_example = run-Kept online online-KeepsRange bottle

online-ReadsStatus : ReadsStatus online
unfolding status_json
online-ReadsStatus = record {
  of_running = refl;
  of_name = elim [
    | idle ↦ refl
    | conveying ↦ refl
    | camera_hold ↦ refl
    | paused ↦ refl
    | error ↦ refl
  ];
}

-- A conveyor on which every sensor sees something, with a START in each delivery.
abbrev board : Board
board = record {
  millis = λ n. 100 * n;
  digital_read = λ pin n. 0;
  analog_read = λ pin n. 900;
  mqtt_connected = λ n. true;
  mqtt_connect = λ n. true;
  mqtt_loop = λ n. record { topic = codes "device/control"; payload = codes "SORT_START" } ∷ [];
  constrain = λ x lo hi. if ltb_ℤ x lo then lo else if ltb_ℤ hi x then hi else x;
  constrain_lem = λ x lo hi. refl;
}

run-Shows_example :
    Shows
      (run online (events_of (Main.run board 2 "broker").effects) (fresh online))
      (Main.run board 2 "broker").current_state
run-Shows_example = run-Shows online online-ReadsStatus board 2 "broker" (fresh online)

-- A process that runs and waits for a bottle, with another angle for one servo.
abbrev waiting : Operator
waiting = record (fresh online) {
  spin_boxes = record (hardware online) { servo_a_spin = 20 };
  current_state = active_state;
  state = record no_process { process_id = some 7; order_items = order.items };
  qr_gate = record {
    last_enqueue_ts = 0;
    last_registered_code = none;
    camera_gate_open = true;
    process_active = true;
  };
  classify_processes = two_bottles ∷ [];
}

handle_qr-Reading_example :
    Reading online waiting
      (some (codes "soy_1l"))
      (handle_qr online (some (codes "soy_1l")) waiting)
handle_qr-Reading_example = handle_qr-Reading online (some (codes "soy_1l")) waiting refl

found : find_process 7 (two_bottles ∷ []) ≡ some two_bottles
unfolding find_process
found = refl

handle_sort_result-Counted_example :
    Counted online 7 success_1l two_bottles waiting (handle_sort_result online success_1l waiting)
handle_sort_result-Counted_example =
    handle_sort_result-Counted online 7 success_1l two_bottles waiting refl found

try_accept-Passes_example :
    (try_accept online 5000 (codes "soy_1l") 0 waiting.qr_gate ≡ none)
    ↔ Passes online 5000 (codes "soy_1l") 0 waiting.qr_gate
try_accept-Passes_example = try_accept-Passes online 5000 (codes "soy_1l") 0 waiting.qr_gate

-- It is taken, and sorted to the first station.
taken : try_accept online 5000 (codes "soy_1l") 0 waiting.qr_gate ≡ none
unfolding try_accept strip
taken = refl

to_first : classify online (codes " SOY_1l") order.items ≡ line_1l
unfolding classify strip
to_first = refl

classify-Sorted_example :
    Sorted online
      (online.lower (strip (codes " SOY_1l")))
      order.items
      (classify online (codes " SOY_1l") order.items)
classify-Sorted_example = classify-Sorted online (codes " SOY_1l") order.items

read_idle : fsm_state online (codes "{\"state\":\"IDLE\"}") ≡ some fsm_idle
unfolding fsm_state
read_idle = refl

effects-handle_status_example :
    let once = handle_status online (codes "{\"state\":\"IDLE\"}") waiting in
    (once.effects ≡ control (codes "SORT_START") ∷ [])
    × (Moves (codes "SORT_START") idle conveying
        × ((handle_status online (codes "{\"state\":\"IDLE\"}") once).effects ≡ once.effects))
effects-handle_status_example =
    effects-handle_status online (codes "{\"state\":\"IDLE\"}") waiting refl refl read_idle
      (omega arith) (omega arith)

-- A code seen again within the cooldown and behind it, and behind a reset.
abbrev frames : List CameraEvent
frames =
    frame_read 5200 (codes "soy_1l" ∷ [])
    ∷ bottle_seen
    ∷ frame_read 4200 (codes "soy_1l" ∷ [])
    ∷ frame_read 3500 (codes "soy_2l" ∷ [])
    ∷ frame_read 3000 (codes " " ∷ codes " soy_1l " ∷ [])
    ∷ []

frames_handed :
    (read_all worker_cooldown frames).handed
    ≡ emitted 5200 (codes "soy_1l") ∷ was_reset ∷ emitted 3000 (codes "soy_1l") ∷ []
unfolding read_all strip
frames_handed = refl

read_all-Spaced_example : Spaced worker_cooldown (read_all worker_cooldown frames).handed
read_all-Spaced_example = read_all-Spaced worker_cooldown frames
