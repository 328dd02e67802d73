-- ===== src/Api.antt =====
-- soy-pc/api/client.py: requests to the server and the thread that reads what the server sends. Several
-- threads may ask at once; what happens is a sequence of events.
pub mod Settled
pub mod Answered
pub mod Cards
mod Tests
use iot_repo.Base.{
  Option, none, some, ℕ, ◌+◌, Bool, true, false, not, ◌&&◌, List, [], ◌∷◌, ◌==◌, if◌then◌else◌,
}
use iot_repo.Base.Text.{Bytes}
use iot_repo.Operator.Words.{is_empty}
use iot_repo.Server.{Reply}
use iot_repo.Server.Frames.{Received, got, lost, out_of_fuel}

-- What _request returns or raises.
pub data Result : Type 0 where
  replied : Reply → Result
  send_failed timed_out : Result

-- A message of the server: the answer to a request, a card read at the kit, or something else.
pub data Incoming : Type 0 where
  response : ℕ → Reply → Incoming
  card_message : Bytes → Incoming
  other : Incoming

-- `pending` is the keys of _pending, `results` what the threads that asked have got, and `heard` the
-- calls of the callback, all with the last one first.
pub record Api : Type 0 where
  pub request_id : ℕ
  pub pending : List ℕ
  pub results : List (ℕ × Result)
  pub has_callback : Bool
  pub heard : List Bytes

abbrev pub fresh : Api
fresh = record { request_id = 0; pending = []; results = []; has_callback = false; heard = [] }

-- `rid in _pending`.
unfoldable pub is_pending : ℕ → List ℕ → Bool
is_pending rid [] = false
is_pending rid (i ∷ is) = let rest = is_pending rid is in if i == rid then true else rest

-- _pending.pop(rid).
unfoldable pub pop : ℕ → List ℕ → List ℕ
pop rid [] = []
pop rid (i ∷ is) = let rest = pop rid is in if i == rid then is else i ∷ rest

abbrev pub settle : ℕ → Result → Api → Api
settle rid r a = record a { pending = pop rid a.pending; results = (rid, r) ∷ a.results }

-- _request up to the wait; what it sends has the new id, and may fail to go out.
unfoldable pub request : Bool → Api → Api
unfolding pop
request sends a =
    let rid = a.request_id + 1 in
    let waiting = record a { request_id = rid; pending = rid ∷ a.pending } in
    if sends then waiting else settle rid send_failed waiting

-- The end of the wait of a thread that has no answer yet.
unfoldable pub give_up : ℕ → Api → Api
unfolding is_pending pop
give_up rid a = if is_pending rid a.pending then settle rid timed_out a else a

-- What _reader_loop does with a message.
unfoldable pub receive : Incoming → Api → Api
unfolding is_pending pop
receive (response rid r) a = if is_pending rid a.pending then settle rid (replied r) a else a
receive (card_message uid) a =
    if not (is_empty uid) && a.has_callback then record a { heard = uid ∷ a.heard } else a
receive other a = a

-- What _reader_loop does with what it reads; what is no JSON object is passed over.
abbrev pub take_message : Option Incoming → Api → Api
take_message none a = a
take_message (some m) a = receive m a

unfoldable pub reader_pass : (Bytes → Option Incoming) → Received → Api → Api
unfolding receive
reader_pass loads (got payload rest k) a = take_message (loads payload) a
reader_pass loads lost a = a
reader_pass loads out_of_fuel a = a

pub data Event : Type 0 where
  requested : Bool → Event
  gave_up : ℕ → Event
  received : Incoming → Event
  callback_set : Bool → Event

unfoldable pub handle : Event → Api → Api
unfolding request give_up receive
handle (requested sends) a = request sends a
handle (gave_up rid) a = give_up rid a
handle (received m) a = receive m a
handle (callback_set on) a = record a { has_callback = on }

-- The events, the last one first.
unfoldable pub run : List Event → Api
unfolding handle
run [] = fresh
run (e ∷ es) = handle e (run es)
