-- ===== src/Api/Settled.antt =====
-- What becomes of every request.
use iot_repo.Base.{
  not, ℕ, ◌+◌, ◌≡◌, Bool, true, false, Bool-cases, inl, inr, List, [], ◌∷◌, ◌==◌, ltb, leb, ◌&&◌,
  if◌then◌else◌, All, arith,
}
use iot_repo.Operator.Words.{is_empty}
use iot_repo.Server.{Reply}
use iot_repo.Api.{
  Result, replied, send_failed, timed_out, Incoming, response, card_message, other, Api, is_pending,
  pop, settle, request, give_up, receive, Event, requested, gave_up, received, callback_set, handle,
  run,
}

abbrev pub times : ℕ → List ℕ → ℕ
times i [] = 0
times i (j ∷ js) = (if j == i then 1 else 0) + times i js

abbrev pub settled_times : ℕ → List (ℕ × Result) → ℕ
settled_times i [] = 0
settled_times i ((j, r) ∷ rs) = (if j == i then 1 else 0) + settled_times i rs

-- 1 for an id that was given out, 0 for another.
abbrev pub issued : ℕ → ℕ → ℕ
issued i last = if ltb 0 i && leb i last then 1 else 0

-- The server's message with that answer to that request is among the events.
pub data Came (rid : ℕ) (r : Reply) : List Event → Type 0 where
  came_now : {es : List Event} → Came rid r (received (response rid r) ∷ es)
  came_before : {e : Event} {es : List Event} → Came rid r es → Came rid r (e ∷ es)

-- An answer that a thread has got came from the server.
abbrev pub Genuine : List Event → ℕ × Result → Type 0
Genuine es (rid, replied r) = Came rid r es
Genuine es (rid, send_failed) = Unit
Genuine es (rid, timed_out) = Unit

times-pop :
    (i rid : ℕ) (ps : List ℕ)
    → is_pending rid ps ≡ true
    → times i (pop rid ps) + (if rid == i then 1 else 0) ≡ times i ps
unfolding is_pending pop
times-pop i rid [] h = cc
times-pop i rid (j ∷ ps) h = ground (arith, times-pop i rid ps, h)

Genuine-later : (e : Event) (es : List Event) (x : ℕ × Result) → Genuine es x → Genuine (e ∷ es) x
Genuine-later e es (rid, replied r) g = came_before g
Genuine-later e es (rid, send_failed) g = tt
Genuine-later e es (rid, timed_out) g = tt

All-later :
    (e : Event) (es : List Event) (rs : List (ℕ × Result))
    → All (Genuine es) rs
    → All (Genuine (e ∷ es)) rs
All-later e es [] g = tt
All-later e es (x ∷ rs) (a, g) = (Genuine-later e es x a, All-later e es rs g)

-- Each id given out is once among those that wait or those that are settled, and no other is.
abbrev pub Once : Api → Type 0
Once a = (i : ℕ) → times i a.pending + settled_times i a.results ≡ issued i a.request_id

settle-Once :
    (rid : ℕ) (r : Result) (a : Api)
    → is_pending rid a.pending ≡ true
    → Once a
    → Once (settle rid r a)
settle-Once rid r a waits once i = omega (arith, once i, times-pop i rid a.pending waits)

request-Once : (sends : Bool) (a : Api) → Once a → Once (request sends a)
unfolding request
request-Once true a once i = ground (arith, once i)
request-Once false a once i = ground (arith, once i)

give_up-Once : (rid : ℕ) (a : Api) → Once a → Once (give_up rid a)
unfolding give_up
give_up-Once rid a once = elim (Bool-cases (is_pending rid a.pending)) [
  | inl waits ↦ rw waits (settle-Once rid timed_out a waits once)
  | inr settled ↦ rw settled once
]

receive-Once : (m : Incoming) (a : Api) → Once a → Once (receive m a)
unfolding receive
receive-Once (response rid r) a once = elim (Bool-cases (is_pending rid a.pending)) [
  | inl waits ↦ rw waits (settle-Once rid (replied r) a waits once)
  | inr settled ↦ rw settled once
]
receive-Once (card_message uid) a once = elim (Bool-cases (not (is_empty uid) && a.has_callback)) [
  | inl called ↦ rw called once
  | inr quiet ↦ rw quiet once
]
receive-Once other a once = once

handle-Once : (e : Event) (a : Api) → Once a → Once (handle e a)
unfolding handle
handle-Once (requested sends) a once = request-Once sends a once
handle-Once (gave_up rid) a once = give_up-Once rid a once
handle-Once (received m) a once = receive-Once m a once
handle-Once (callback_set on) a once = once

handle-Genuine :
    (e : Event) (es : List Event) (a : Api)
    → All (Genuine es) a.results
    → All (Genuine (e ∷ es)) (handle e a).results
unfolding handle request give_up receive
handle-Genuine (requested true) es a g = All-later (requested true) es a.results g
handle-Genuine (requested false) es a g = (tt, All-later (requested false) es a.results g)
handle-Genuine (gave_up rid) es a g =
    let kept = All-later (gave_up rid) es a.results g in
    elim (Bool-cases (is_pending rid a.pending)) [
      | inl waits ↦ rw waits (tt, kept)
      | inr settled ↦ rw settled kept
    ]
handle-Genuine (received (response rid r)) es a g =
    let kept = All-later (received (response rid r)) es a.results g in
    elim (Bool-cases (is_pending rid a.pending)) [
      | inl waits ↦ rw waits (came_now, kept)
      | inr settled ↦ rw settled kept
    ]
handle-Genuine (received (card_message uid)) es a g =
    let kept = All-later (received (card_message uid)) es a.results g in
    elim (Bool-cases (not (is_empty uid) && a.has_callback)) [
      | inl called ↦ rw called kept
      | inr quiet ↦ rw quiet kept
    ]
handle-Genuine (received other) es a g = All-later (received other) es a.results g
handle-Genuine (callback_set on) es a g = All-later (callback_set on) es a.results g

run-Once : (es : List Event) → Once (run es)
unfolding run
run-Once [] i = ground arith
run-Once (e ∷ es) i = handle-Once e (run es) (run-Once es) i

run-Genuine : (es : List Event) → All (Genuine es) (run es).results
unfolding run
run-Genuine [] = tt
run-Genuine (e ∷ es) = handle-Genuine e es (run es) (run-Genuine es)

-- Every id that was given out waits or has its result, and never twice; and an answer is one that
-- came for that id.
pub record Settled (es : List Event) : Type 0 where
  pub once : Once (run es)
  pub genuine : All (Genuine es) (run es).results

-- Whatever requests, messages of the server, ends of waits and changes of the callback come, in any
-- order: every id that was given out waits for its answer or has its result, never both and never
-- twice, no other id does, and an answer that a request has got is one that the server sent for its
-- id.
pub run-Settled : (es : List Event) → Settled es
run-Settled es = record { once = run-Once es; genuine = run-Genuine es }
