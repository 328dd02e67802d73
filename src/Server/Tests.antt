-- ===== src/Server/Tests.antt =====
-- The server at concrete inputs.
use iot_repo.Base.{ℕ, zero, suc, ◌<◌, ◌≡◌, refl, true, [], ◌∷◌, ◌++◌, some, arith}
use iot_repo.Base.Text.{Bytes, codes, bytes_eq}
use iot_repo.Operator.{success_1l}
use iot_repo.Operator.Words.{strip}
use iot_repo.Access.{uid_str}
use iot_repo.Access.Manager.{enter, second, card_at, factory_run}
use iot_repo.Server.{Host, running, Db, RequestBody, empty_body, Request, ServerState, returned}
use iot_repo.Server.Processes.{
  order_total, get_order_row, sum_expected, get_process, update_process, start_process,
}
use iot_repo.Server.Orders.{new_process, set_order_status}
use iot_repo.Server.Requests.{handle_request, serve}
use iot_repo.Server.Open.{with_token, handle_request-with_token}
use iot_repo.Server.Sound.{Sound}
use iot_repo.Server.Sound.Serving.{serve-Sound}
use iot_repo.Server.Counted.{Told, count_request, update_process-Told}
use iot_repo.Server.Started.{Started, start_process-Started}
use iot_repo.Server.Redelivered.{then_with, Upper, set_order_status_twice}
use iot_repo.Server.Door.{Link, Registered, led-Registered}
use iot_repo.Server.Frames.{Socket, got, send_frame, read_frame, out_of_fuel}
use iot_repo.Server.Frames.RoundTrip.{Delivers, read_frame-send_frame, read_frame_fed}
use iot_repo.Server.Clients.{Message, Line, client_run}
use iot_repo.Server.Clients.Answers.{
  Works, Readable, frames, answer_all, connected_client, client_run-answer_all,
}

abbrev host : Host
host = record {
  upper = λ s. s;
  encode = λ s. s;
  collation = λ s. s;
  checkpw = λ plain hashed. bytes_eq plain hashed;
  hashpw = λ plain salt. plain;
}

-- Two processes, the newer one running, of an order of ten bottles, and one worker.
abbrev two_processes : Db
two_processes = record {
  processes = record (new_process 2 1) { status = running } ∷ new_process 1 1 ∷ [];
  orders =
      record {
        order_id = 1;
        status = codes "PENDING";
        order_items = record { order_item_id = 5; expected_qty = 10 } ∷ [];
      }
      ∷ [];
  workers =
      record { worker_id = 1; admin_id = 1; name = codes "Kim"; card_uid = codes "0102030404" }
      ∷ [];
  access_logs = [];
  admins = record { admin_id = 1; password_hash = [] } ∷ [];
  next_process_id = 3;
  next_worker_id = 2;
}

two_processes-Sound : Sound host two_processes
unfolding order_total get_order_row sum_expected
two_processes-Sound = record {
  falling = (omega arith, (omega arith, tt));
  one_runs = omega arith;
  fits = ((10, (refl, omega arith)), ((10, (refl, omega arith)), tt));
  keys = (omega arith, tt);
  distinct = (tt, tt);
  known = tt;
}

abbrev state : ServerState
state = record { db = two_processes; sessions = [] }

abbrev asking : Bytes → RequestBody → Request
asking action body = record { action = action; body = body; now = 7; uuid4 = codes "t"; salt = 0 }

abbrev start_one : Request
start_one = asking (codes "process_start") (record empty_body { process_id = some 1 })

abbrev new_worker : Request
new_worker = asking (codes "create_worker") (record empty_body {
  admin_id = some 1;
  name = some (codes "Lee");
  card_uid = some (codes "11");
})

serve-Sound_example : Sound host (serve host (new_worker ∷ start_one ∷ []) state).db
serve-Sound_example = serve-Sound host (new_worker ∷ start_one ∷ []) state two_processes-Sound

handle_request-with_token_example :
    handle_request host (with_token (some (codes "x")) new_worker) state
    ≡ handle_request host new_worker state
handle_request-with_token_example =
    handle_request-with_token host (some (codes "x")) new_worker state (unfold strip in refl)

update_process-Told_example :
    Told success_1l 1
      (new_process 1 1)
      two_processes
      (update_process 1 (count_request success_1l 1) two_processes)
update_process-Told_example =
    update_process-Told host success_1l 1 (new_process 1 1) two_processes two_processes-Sound
      (unfold get_process in refl)

start_process-Started_example : Started 1 7 two_processes (start_process 1 7 two_processes)
start_process-Started_example = start_process-Started host 1 7 two_processes two_processes-Sound

capitals : Upper host
capitals = record { pending = refl; delivered = refl }

set_order_status_twice_example :
    (new : Db) × ((then_with
          (then_with
            (set_order_status host 1 (codes "DELIVERED") two_processes)
            (set_order_status host 1 (codes "PENDING")))
          (set_order_status host 1 (codes "DELIVERED"))
        ≡ returned (some 4) new)
      × (new.processes ≡ new_process 4 1 ∷ new_process 3 1 ∷ two_processes.processes))
set_order_status_twice_example =
    set_order_status_twice host capitals 1 two_processes
      (record {
        order_id = 1;
        status = codes "PENDING";
        order_items = record { order_item_id = 5; expected_qty = 10 } ∷ [];
      })
      (unfold get_order_row in refl) (unfold strip in refl)

-- One byte at a time.
abbrev slow : Socket
slow = record { recv = λ k m. some 1 }

slow-Delivers : Delivers slow
slow-Delivers k m = (0, refl)

read_frame-send_frame_example :
    (j : ℕ) × (read_frame slow 0 (send_frame (codes "{}") ++ codes "x")
      ≡ got (codes "{}") (codes "x") j)
read_frame-send_frame_example =
    read_frame-send_frame slow (codes "{}") (codes "x") 0 slow-Delivers (omega arith) (omega arith)

read_frame_fed_example : ¬ (read_frame slow 0 (send_frame (codes "{}")) ≡ out_of_fuel)
read_frame_fed_example = read_frame_fed slow 0 (send_frame (codes "{}"))

abbrev ask_start : Message
ask_start = record {
  id = 1;
  action = codes "process_start";
  body = record empty_body { process_id = some 1 };
}

abbrev line : Line
line = record {
  sock = slow;
  loads = λ s. some ask_start;
  dumps = λ id reply. codes "{}";
  sends = λ i. true;
  clock = λ i. 7;
  uuid4 = λ i. [];
  salt = λ i. 0;
}

line-Works : Works line
line-Works = record { delivers = slow-Delivers; sends_all = λ i. refl }

abbrev encode : Message → Bytes
encode m = codes "{}"

ask_start-Readable : Readable line encode ask_start
ask_start-Readable = record { loads_encode = refl; not_empty = omega arith; small = omega arith }

client_run-answer_all_example :
    let done = answer_all host line 0 (ask_start ∷ ask_start ∷ []) state [] in
    (j : ℕ) × (client_run host line 2
        (connected_client 0 0 (frames encode (ask_start ∷ ask_start ∷ []) ++ []) state [])
      ≡ connected_client j 2 [] done.0 done.1)
client_run-answer_all_example =
    client_run-answer_all host line encode line-Works (ask_start ∷ ask_start ∷ []) 0 0 [] state []
      (ask_start-Readable, (ask_start-Readable, tt))

-- The card 01 02 03 04 with its check byte 04.
abbrev card : ℕ → ℕ
card zero = 1
card (suc zero) = 2
card (suc (suc zero)) = 3
card (suc (suc (suc n))) = 4

abbrev network : Link
network = record {
  reached = λ n. true;
  at = λ n. state;
  clock = λ n. n;
  wait_for_service = λ n. true;
  gpio_get_level = λ on. on;
}

led-Registered_example :
    (n : ℕ) × ((n < 5) × Registered host network n (second ∷ card_at enter card ∷ []))
unfolding iot_repo.Access.door_service_callback
led-Registered_example =
    led-Registered host network (second ∷ card_at enter card ∷ [])
      (unfold factory_run handle_request uid_str in refl)
