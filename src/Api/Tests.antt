-- ===== src/Api/Tests.antt =====
-- The operator's client at concrete inputs.
use iot_repo.Base.{
  false, ◌+◌, ◌*◌, List, map, none, ltb, ◌==◌, if◌then◌else◌, ◌≡◌, refl, true, [], ◌∷◌, ◌++◌, some,
  Option, arith,
}
use iot_repo.Base.Text.{Bytes, codes, bytes_eq}
use iot_repo.Server.{Host, Db, empty_body, count_body, good, ServerState}
use iot_repo.Server.Requests.{handle_request}
use iot_repo.Access.{hex_digit, hex_byte}
use iot_repo.Register.{Uid, Kit, uid_text, card_read}
use iot_repo.Server.Broadcast.{Peer, with_frame, serial_line}
use iot_repo.Api.Cards.{living, CardReadable, card_read_heard}
use iot_repo.Server.Frames.{send_frame, Socket, read_frame}
use iot_repo.Server.Frames.RoundTrip.{Delivers}
use iot_repo.Server.Clients.{Message, Line, request_at, client_run}
use iot_repo.Server.Clients.Answers.{Works, Readable, frames, connected_client}
use iot_repo.Api.{
  Api, card_message, replied, Incoming, response, fresh, request, requested, gave_up, received,
  reader_pass,
}
use iot_repo.Api.Settled.{Settled, run-Settled}
use iot_repo.Api.Answered.{next_message, ReplyReadable, request_answered}

-- Two requests; the second one is answered, the first one given up and answered too late.
run-Settled_example : Settled (
    received (response 1 (good (count_body 1)))
    ∷ gave_up 1
    ∷ received (response 2 (good (count_body 1)))
    ∷ requested true
    ∷ requested true
    ∷ [])
run-Settled_example = run-Settled (
    received (response 1 (good (count_body 1)))
    ∷ gave_up 1
    ∷ received (response 2 (good (count_body 1)))
    ∷ requested true
    ∷ requested true
    ∷ [])

abbrev host : Host
host = record {
  upper = λ s. s;
  encode = λ s. s;
  collation = λ s. s;
  checkpw = λ plain hashed. bytes_eq plain hashed;
  hashpw = λ plain salt. plain;
}

abbrev empty_db : Db
empty_db = record {
  processes = [];
  orders = [];
  workers = [];
  access_logs = [];
  admins = record { admin_id = 1; password_hash = [] } ∷ [];
  next_process_id = 1;
  next_worker_id = 1;
}

abbrev state : ServerState
state = record { db = empty_db; sessions = [] }

-- A connection that hands out two bytes at a time.
abbrev slow : Socket
slow = record { recv = λ k m. some 2 }

slow-Delivers : Delivers slow
slow-Delivers k m = (1, refl)

abbrev count_message : Message
count_message = next_message fresh (codes "admin_count") empty_body

abbrev line : Line
line = record {
  sock = slow;
  loads = λ s. some count_message;
  dumps = λ id reply. codes "{\"count\":1}";
  sends = λ i. true;
  clock = λ i. 7;
  uuid4 = λ i. [];
  salt = λ i. 0;
}

line-Works : Works line
line-Works = record { delivers = slow-Delivers; sends_all = λ i. refl }

abbrev encode : Message → Bytes
encode m = codes "{}"

abbrev loads : Bytes → Option Incoming
loads s = some (response 1 (good (count_body 1)))

count_message-Readable : Readable line encode count_message
count_message-Readable = record {
  loads_encode = refl;
  not_empty = omega arith;
  small = omega arith;
}

count-ReplyReadable :
    ReplyReadable line loads 1 (handle_request host (request_at line 0 count_message) state).0
unfolding handle_request
count-ReplyReadable = record { loads_dumps = refl; not_empty = omega arith; small = omega arith }

request_answered_example :
    let answer = handle_request host (request_at line 0 count_message) state in
    let served =
      client_run host line 1
        (connected_client 0 0 (frames encode (count_message ∷ []) ++ []) state []) in
    (frame : Bytes) × ((served.sent ≡ frame ∷ [])
      × ((served.server ≡ answer.1)
          × ((reader_pass loads
                (read_frame slow 0 (frame ++ codes "x"))
                (request true fresh)).results
              ≡ (1, replied answer.0) ∷ [])))
request_answered_example =
    request_answered host line encode line-Works slow slow-Delivers loads fresh
      (codes "admin_count") empty_body 0 0 0 [] (codes "x") state count_message-Readable
      count-ReplyReadable

-- A kit to which the card 0A 1B 2C 3D is held.
abbrev bench : Kit
bench = record {
  millis = λ n. 100 * n;
  serial = λ n. false;
  picc_is_new_card_present = λ n. true;
  picc_read_card_serial = λ n. none;
  print_hex = λ n. if ltb n 16 then hex_digit n ∷ [] else hex_byte n;
}

abbrev card : Uid
card = record { uid_byte = λ i. 10 + 17 * i; size = 4 }

abbrev card_loads : Bytes → Option Incoming
card_loads s = some (card_message (codes "0A1B2C3D"))

abbrev listening : Api
listening = record fresh { has_callback = true }

abbrev two_peers : List Peer
two_peers = record { peer = 1; sent = [] } ∷ record { peer = 2; sent = [] } ∷ []

card-CardReadable : CardReadable (λ s. true) card_loads (uid_text bench card.uid_byte 4 0)
unfolding uid_text
card-CardReadable = record { card = refl; loads_line = refl; some_uid = refl; small = omega arith }

card_read_heard_example :
    (line : Bytes) × ((serial_line (λ s. true) (λ p. p == 2) (card_read bench card) two_peers
        ≡ map (with_frame line) (living (λ p. p == 2) two_peers))
      × ((reader_pass card_loads (read_frame slow 0 (send_frame line ++ codes "x")) listening).heard
          ≡ uid_text bench card.uid_byte 4 0 ∷ []))
card_read_heard_example =
    card_read_heard (λ s. true) card_loads bench card (λ p. p == 2) two_peers slow listening
      (codes "x") 0 card-CardReadable slow-Delivers refl
