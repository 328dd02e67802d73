-- ===== src/Server/Sound/Serving.antt =====
-- Sequences of requests and the rows of the database: workers.py, auth.py and __init__.py.
use Prim.Native.String.{String}
use iot_repo.Base.{
  subst, sym, ℕ, ◌≡◌, refl, Bool, not, List, [], ◌∷◌, Option, none, some, ltb, length,
}
use iot_repo.Base.Text.{Bytes, codes, bytes_eq}
use iot_repo.Operator.Words.{strip, is_empty}
use iot_repo.Server.{Host, Worker, Db, Request, no_body, worker_body, Reply, ServerState}
use iot_repo.Server.Workers.{
  get_first_admin_id, delete_worker, create_access_log, create_worker, update_worker, find_card,
  get_worker_by_card_uid, verify_admin_password, password_bytes, set_first,
}
use iot_repo.Server.Handled.{Handled, or_empty, processes_handle, orders_handle}
use iot_repo.Server.Login.{login, admin_login, register_first_admin, auth_handle}
use iot_repo.Server.Requests.{
  logged, card_found, get_worker_by_uid, create_worker_action, update_worker_action,
  delete_worker_action, workers_handle, handle_no_auth, handle_request, answered, serve,
}
use iot_repo.Server.Open.{handle_request-handle_no_auth}
use iot_repo.Server.Unique.{find_card-Known}
use iot_repo.Server.Sound.{Sound}
use iot_repo.Server.Sound.Registry.{
  delete_worker-Keeps, create_worker-Keeps, update_worker-Keeps, create_access_log-Sound,
  set_first-Keeps,
}
use iot_repo.Server.Sound.Kept.{
  Kept, kept_declined, kept_replied, kept_failed, if-Kept, or_next-Kept, passing-Kept,
  catching-Kept, processes_handle-Kept, orders_handle-Kept,
}

module _ (h : Host) where
  logged-Kept :
      (s : ServerState) (u : Worker) (o : Option Db)
      → Sound h s.db
      → ((db : Db) → o ≡ some db → Sound h db)
      → Kept h (logged s u o)
  logged-Kept s u none i f = kept_replied i
  logged-Kept s u (some db) i f = kept_replied (f db refl)

  card_found-Kept :
      (uid : Bytes) (r : Request) (s : ServerState) (o : Option Worker)
      → find_card h uid s.db.workers ≡ o
      → Sound h s.db
      → Kept h (card_found h r s o)
  card_found-Kept uid r s none e i = kept_replied i
  card_found-Kept uid r s (some u) e i =
      let there = find_card-Known h uid s.db.workers u e in
      logged-Kept s u (create_access_log u.worker_id r.body.direction r.now s.db) i (λ db wrote.
        create_access_log-Sound h u.worker_id there.0 r.body.direction r.now s.db db there.1 wrote
          i)

  get_worker_by_uid-Kept :
      (r : Request) (s : ServerState) → Sound h s.db → Kept h (get_worker_by_uid h r s)
  unfolding get_worker_by_card_uid
  get_worker_by_uid-Kept r s i =
      if-Kept h (is_empty (or_empty r.body.card_uid)) _ _ (kept_replied i) (
        card_found-Kept (strip (or_empty r.body.card_uid)) r s
          (get_worker_by_card_uid h (or_empty r.body.card_uid) s.db) refl i)

  create_worker_action-Kept :
      (r : Request) (s : ServerState) (o : Option ℕ)
      → Sound h s.db
      → Kept h (create_worker_action h r s o)
  create_worker_action-Kept r s none i = kept_replied i
  create_worker_action-Kept r s (some aid) i =
      let name = or_empty r.body.name in
      let uid = or_empty r.body.card_uid in
      passing-Kept h s worker_body (create_worker h aid name uid s.db)
        (create_worker-Keeps h aid name uid s.db i)

  update_worker_action-Kept :
      (r : Request) (s : ServerState) (o : Option ℕ)
      → Sound h s.db
      → Kept h (update_worker_action h r s o)
  update_worker_action-Kept r s none i = kept_replied i
  update_worker_action-Kept r s (some wid) i =
      passing-Kept h s worker_body (update_worker h wid r.body.name r.body.card_uid s.db)
        (update_worker-Keeps h wid r.body.name r.body.card_uid s.db i)

  delete_worker_action-Kept :
      (s : ServerState) (o : Option ℕ) → Sound h s.db → Kept h (delete_worker_action s o)
  delete_worker_action-Kept s none i = kept_replied i
  delete_worker_action-Kept s (some wid) i =
      passing-Kept h s (λ _. no_body) (delete_worker wid s.db) (delete_worker-Keeps h wid s.db i)

  workers_handle-Kept :
      (r : Request) (s : ServerState) → Sound h s.db → Kept h (workers_handle h r s)
  unfolding workers_handle
  workers_handle-Kept r s i =
      let is : String → Bool = λ name. bytes_eq r.action (codes name) in
      if-Kept h (is "list_access_logs") _ _ (kept_replied i) (
        if-Kept h (is "get_worker_by_uid") _ _ (get_worker_by_uid-Kept r s i) (
          if-Kept h (is "get_first_admin_id") _ _ (kept_replied i) (
            if-Kept h (is "list_workers") _ _ (kept_replied i) (
              if-Kept h (is "create_worker") _ _ (create_worker_action-Kept r s r.body.admin_id i) (
                if-Kept h (is "update_worker") _ _
                  (update_worker_action-Kept r s r.body.worker_id i)
                  (if-Kept h (is "delete_worker") _ _
                    (delete_worker_action-Kept s r.body.worker_id i) (kept_replied i)))))))

  login-Kept :
      (r : Request) (s : ServerState) (o : Option ℕ) → Sound h s.db → Kept h (login h r s o)
  login-Kept r s none i = kept_replied i
  login-Kept r s (some aid) i = kept_replied i

  admin_login-Kept : (r : Request) (s : ServerState) → Sound h s.db → Kept h (admin_login h r s)
  admin_login-Kept r s i =
      let password = strip (or_empty r.body.password) in
      if-Kept h (is_empty password) _ _ (kept_replied i) (
        if-Kept h (not (verify_admin_password h password s.db)) _ _ (kept_replied i)
          (login-Kept r s (get_first_admin_id s.db.admins) i))

  register_first_admin-Kept :
      (r : Request) (s : ServerState) → Sound h s.db → Kept h (register_first_admin h r s)
  register_first_admin-Kept r s i =
      let password = strip (or_empty r.body.password) in
      let hashed = h.hashpw (password_bytes h (strip password)) r.salt in
      if-Kept h (is_empty password) _ _ (kept_replied i) (
        if-Kept h (ltb (length password) 4) _ _ (kept_replied i) (
          catching-Kept h s (λ _. no_body) (set_first h hashed s.db s.db.admins) i
            (set_first-Keeps h hashed s.db s.db.admins i)))

  auth_handle-Kept : (r : Request) (s : ServerState) → Sound h s.db → Kept h (auth_handle h r s)
  unfolding auth_handle
  auth_handle-Kept r s i =
      let is : String → Bool = λ name. bytes_eq (strip r.action) (codes name) in
      if-Kept h (is "admin_login") _ _ (admin_login-Kept r s i) (
        if-Kept h (is "admin_logout") _ _
          (if-Kept h (is_empty (or_empty r.body.auth_token)) _ _ (kept_replied i) (kept_replied i))
          (if-Kept h (is "admin_count") _ _ (kept_replied i) (
            if-Kept h (is "first_admin_needs_password") _ _ (kept_replied i) (
              if-Kept h (is "register_first_admin") _ _ (register_first_admin-Kept r s i)
                kept_declined))))

  answered-Sound :
      (s : ServerState) (x : Handled) → Sound h s.db → Kept h x → Sound h (answered h s x).1.db
  answered-Sound s _ i kept_declined = i
  answered-Sound s _ i (kept_replied j) = j
  answered-Sound s _ i kept_failed = i

  handle_request-Sound :
      (r : Request) (s : ServerState) → Sound h s.db → Sound h (handle_request h r s).1.db
  unfolding handle_no_auth
  handle_request-Sound r s i =
      subst (λ (x : Reply × ServerState). Sound h x.1.db)
        (sym (handle_request-handle_no_auth h r s))
        (answered-Sound s (handle_no_auth h r s) i (
          or_next-Kept h (auth_handle h r s) _ (auth_handle-Kept r s i) (
            or_next-Kept h (orders_handle h r s) _ (orders_handle-Kept h r s i) (
              or_next-Kept h (processes_handle r s) _ (processes_handle-Kept h r s i)
                (workers_handle-Kept r s i)))))

  -- From a sound database, any sequence of requests leaves a sound one: one process runs at most;
  -- every process is of an order that is there and has not more bottles than that; no card is
  -- registered twice, as the database compares texts; every entry of the door's log is of a worker
  -- who is there; and the keys stay in order.
  pub serve-Sound : (rs : List Request) (s : ServerState) → Sound h s.db → Sound h (serve h rs s).db
  unfolding serve
  serve-Sound [] s i = i
  serve-Sound (r ∷ rs) s i = handle_request-Sound r (serve h rs s) (serve-Sound rs s i)
