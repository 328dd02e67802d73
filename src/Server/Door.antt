-- ===== src/Server/Door.antt =====
-- The node at the factory door with the server: access-controller/FactoryDoor_subscriber.py,
-- request_tcp_server, and app/requests/workers.py.
use iot_repo.Base.{
  ℕ, suc, ◌<◌, ◌≡◌, refl, ◌∙◌, sym, ap, Bool, true, false, Bool-cases, inl, inr, List, [], ◌∷◌,
  Option, none, some, if◌then◌else◌, arith,
}
use iot_repo.Base.Text.{Bytes, codes}
use iot_repo.Operator.Words.{strip, is_empty}
use iot_repo.Access.{uid_str}
use iot_repo.Access.Manager.{
  Direction, enter, leave, reply, no_reply, Site, FactoryEvent, second, card_at, factory_run,
}
use iot_repo.Access.Manager.Approval.{Approved, approves, other_card, passes, led-factory_run}
use iot_repo.Server.{
  Host, Worker, Failure, no_such_card, card_uid_required, Request, empty_body, Reply, good, bad,
  ServerState,
}
use iot_repo.Server.Unique.{find_card-same_text}
use iot_repo.Server.Workers.{same_text, find_card, create_access_log, get_worker_by_card_uid}
use iot_repo.Server.Handled.{processes_handle, orders_handle}
use iot_repo.Server.Login.{auth_handle}
use iot_repo.Server.Open.{handle_request-handle_no_auth}
use iot_repo.Server.Requests.{
  get_worker_by_uid, card_found, answered, workers_handle, handle_no_auth, handle_request,
}

abbrev pub direction_word : Direction → Bytes
direction_word enter = codes "enter"
direction_word leave = codes "exit"

-- What request_tcp_server sends.
abbrev pub card_request : Bytes → Direction → ℕ → Request
card_request uid d now = record {
  action = codes "get_worker_by_uid";
  body = record empty_body { card_uid = some uid; direction = some (direction_word d) };
  now = now;
  uuid4 = [];
  salt = 0;
}

-- The node reads `ok` of the reply.
abbrev pub ok_of : Reply → Bool
ok_of (good body) = true
ok_of (bad e) = false

-- The worker has the card, and the server has put down who went which way and when.
pub record LetIn (h : Host) (uid : Bytes) (d : Direction) (now : ℕ) (s : ServerState) : Type 0 where
  pub worker : Worker
  pub found : find_card h (strip uid) s.db.workers ≡ some worker
  pub has_card : same_text h worker.card_uid (strip uid) ≡ true
  pub put_down :
      (handle_request h (card_request uid d now) s).1.db.access_logs
      ≡ record { worker_id = worker.worker_id; direction = direction_word d; checked_at = now }
        ∷ s.db.access_logs

module _ (h : Host) where
  handle_no_auth-get_worker_by_uid :
      (uid : Bytes) (d : Direction) (now : ℕ) (s : ServerState)
      → handle_no_auth h (card_request uid d now) s ≡ get_worker_by_uid h (card_request uid d now) s
  unfolding handle_no_auth auth_handle orders_handle processes_handle workers_handle strip
  handle_no_auth-get_worker_by_uid uid d now s = refl

  handle_request-get_worker_by_uid :
      (uid : Bytes) (d : Direction) (now : ℕ) (s : ServerState)
      → handle_request h (card_request uid d now) s
        ≡ answered h s (get_worker_by_uid h (card_request uid d now) s)
  handle_request-get_worker_by_uid uid d now s =
      handle_request-handle_no_auth h (card_request uid d now) s
      ∙ ap (answered h s) (handle_no_auth-get_worker_by_uid uid d now s)

  -- What is put down about a worker that is found.
  card_found_log :
      (uid : Bytes) (d : Direction) (now : ℕ) (s : ServerState) (u : Worker)
      → (answered h s (card_found h (card_request uid d now) s (some u))).1.db.access_logs
        ≡ record { worker_id = u.worker_id; direction = direction_word d; checked_at = now }
          ∷ s.db.access_logs
  unfolding create_access_log
  card_found_log uid enter now s u = refl
  card_found_log uid leave now s u = refl

  -- A reply with an error is no approval.
  turned_down :
      {A : Type 0} (uid : Bytes) (d : Direction) (now : ℕ) (s : ServerState) (e : Failure)
      → handle_request h (card_request uid d now) s ≡ (bad e, s)
      → ok_of (handle_request h (card_request uid d now) s).0 ≡ true
      → A
  turned_down uid d now s e served ok =
      let turned : false ≡ true = sym (ap (λ (x : Reply × ServerState). ok_of x.0) served) ∙ ok in
      cc

  found_LetIn :
      (uid : Bytes) (d : Direction) (now : ℕ) (s : ServerState) (o : Option Worker)
      → find_card h (strip uid) s.db.workers ≡ o
      → handle_request h (card_request uid d now) s
        ≡ answered h s (card_found h (card_request uid d now) s o)
      → ok_of (handle_request h (card_request uid d now) s).0 ≡ true
      → LetIn h uid d now s
  found_LetIn uid d now s none e served ok = turned_down uid d now s no_such_card served ok
  found_LetIn uid d now s (some u) e served ok = record {
    worker = u;
    found = e;
    has_card = find_card-same_text h (strip uid) s.db.workers u e;
    put_down =
        ap (λ (x : Reply × ServerState). x.1.db.access_logs) served ∙ card_found_log uid d now s u;
  }

  approved-LetIn :
      (uid : Bytes) (d : Direction) (now : ℕ) (s : ServerState)
      → ok_of (handle_request h (card_request uid d now) s).0 ≡ true
      → LetIn h uid d now s
  unfolding get_worker_by_card_uid
  approved-LetIn uid d now s ok =
      let served = handle_request-get_worker_by_uid uid d now s in
      elim (Bool-cases (is_empty uid)) [
        | inl blank ↦
            let refused : answered h s (get_worker_by_uid h (card_request uid d now) s)
                ≡ (bad card_uid_required, s) =
              rw blank refl in
            turned_down uid d now s card_uid_required (served ∙ refused) ok
        | inr given ↦
            found_LetIn uid d now s (find_card h (strip uid) s.db.workers) refl
              (served ∙ rw given refl) ok
      ]

-- The network: whether the server is reached, when, and in which state it is.
pub record Link : Type 0 where
  pub reached : ℕ → Bool
  pub at : ℕ → ServerState
  pub clock : ℕ → ℕ
  pub wait_for_service : ℕ → Bool
  pub gpio_get_level : Bool → Bool

module _ (h : Host) (link : Link) where
  -- The node with that server behind it.
  abbrev pub site : Site
  site = record {
    request_tcp_server = λ n uid d.
        if link.reached n
        then reply (ok_of (handle_request h (card_request uid d (link.clock n)) (link.at n)).0)
        else no_reply;
    wait_for_service = link.wait_for_service;
    gpio_get_level = link.gpio_get_level;
  }

  -- That many seconds ago a worker with the card was let in.
  pub data Registered : ℕ → List FactoryEvent → Type 0 where
    lets_in :
        {d : Direction} {sn : ℕ → ℕ} {es : List FactoryEvent}
        → LetIn h
            (uid_str sn)
            d
            (link.clock (factory_run site es).manager.calls)
            (link.at (factory_run site es).manager.calls)
        → Registered 0 (card_at d sn ∷ es)
    other_came :
        {n : ℕ} {d : Direction} {sn : ℕ → ℕ} {es : List FactoryEvent}
        → Registered n es
        → Registered n (card_at d sn ∷ es)
    later : {n : ℕ} {es : List FactoryEvent} → Registered n es → Registered (suc n) (second ∷ es)

  approval-ok :
      (n : ℕ) (uid : Bytes) (d : Direction)
      → site.request_tcp_server n uid d ≡ reply true
      → ok_of (handle_request h (card_request uid d (link.clock n)) (link.at n)).0 ≡ true
  approval-ok n uid d e = elim (Bool-cases (link.reached n)) [
    | inl there ↦ ground (arith, there, e)
    | inr gone ↦ ground (arith, gone, e)
  ]

  Approved-Registered : (n : ℕ) (es : List FactoryEvent) → Approved site n es → Registered n es
  Approved-Registered _ _ (approves {d} {sn} {es} alive e) =
      let n = (factory_run site es).manager.calls in
      lets_in (
        approved-LetIn h (uid_str sn) d (link.clock n) (link.at n) (approval-ok n (uid_str sn) d e))
  Approved-Registered _ _ (other_card {n} {d} {sn} {es} a) = other_came (Approved-Registered n es a)
  Approved-Registered _ _ (passes {n} {es} a) = later (Approved-Registered n es a)

  -- Whatever cards and seconds come, in whatever states the server is asked, when the door stands
  -- open then, less than five seconds of the timer ago, a card was at a reader that the database
  -- held a worker for, and the server put down that worker, the direction and the time in the log.
  pub led-Registered :
      (es : List FactoryEvent)
      → (factory_run site es).door.led ≡ true
      → (n : ℕ) × ((n < 5) × Registered n es)
  led-Registered es lit =
      let opened = led-factory_run site es lit in
      (opened.0, (opened.1.0, Approved-Registered opened.0 es opened.1.1))
