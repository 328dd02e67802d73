-- ===== src/Server/Open.antt =====
-- Requests with and without a login.
use iot_repo.Base.{ℕ, ◌≡◌, refl, ◌∙◌, sym, ap, Bool, true, false, Option, none, some, if◌then◌else◌}
use iot_repo.Base.Text.{Bytes, codes, bytes_eq}
use Prim.Native.String.{String}
use iot_repo.Operator.Words.{strip, is_empty}
use iot_repo.Server.{
  Host, Failure, Worker, Db, Outcome, returned, raised, ReplyBody, no_body, worker_body, Request,
  Reply, ServerState,
}
use iot_repo.Server.Workers.{
  create_worker, update_worker, delete_worker, create_access_log, get_worker_by_card_uid,
}
use iot_repo.Server.Handled.{
  or_empty, passing, Handled, declined, replied, failed, or_next, processes_handle, orders_handle,
}
use iot_repo.Server.Login.{auth_handle}
use iot_repo.Server.Requests.{
  logged, card_found, create_worker_action, update_worker_action, delete_worker_action,
  workers_handle, handle_no_auth, answered, admin_part, handle_request,
}

-- The same request with another token.
abbrev pub with_token : Option Bytes → Request → Request
with_token token r = record r { body = record r.body { auth_token = token } }

data Answers : Handled → Type 0 where
  replies : {y : Reply} {s : ServerState} → Answers (replied y s)
  fails : {e : Failure} → Answers (failed e)

if-Answers : (t : Bool) (x y : Handled) → Answers x → Answers y → Answers (if t then x else y)
if-Answers true x y a b = a
if-Answers false x y a b = b

or_next-Answers : (x y : Handled) → Answers y → Answers (or_next x y)
or_next-Answers declined y b = b
or_next-Answers (replied z s) y b = replies
or_next-Answers (failed e) y b = fails

or_next-left : (x y : Handled) → Answers x → or_next x y ≡ x
or_next-left _ y replies = refl
or_next-left _ y fails = refl

passing-Answers :
    {A : Type 0} (s : ServerState) (show : A → ReplyBody) (o : Outcome A)
    → Answers (passing s show o)
passing-Answers s show (returned a db) = replies
passing-Answers s show (raised e) = fails

logged-Answers : (s : ServerState) (u : Worker) (o : Option Db) → Answers (logged s u o)
logged-Answers s u none = replies
logged-Answers s u (some db) = replies

module _ (h : Host) where
  card_found-Answers :
      (r : Request) (s : ServerState) (o : Option Worker) → Answers (card_found h r s o)
  card_found-Answers r s none = replies
  card_found-Answers r s (some u) =
      logged-Answers s u (create_access_log u.worker_id r.body.direction r.now s.db)

  create_worker_action-Answers :
      (r : Request) (s : ServerState) (o : Option ℕ) → Answers (create_worker_action h r s o)
  create_worker_action-Answers r s none = replies
  create_worker_action-Answers r s (some aid) =
      passing-Answers s worker_body
        (create_worker h aid (or_empty r.body.name) (or_empty r.body.card_uid) s.db)

  update_worker_action-Answers :
      (r : Request) (s : ServerState) (o : Option ℕ) → Answers (update_worker_action h r s o)
  update_worker_action-Answers r s none = replies
  update_worker_action-Answers r s (some wid) =
      passing-Answers s worker_body (update_worker h wid r.body.name r.body.card_uid s.db)

  delete_worker_action-Answers :
      (s : ServerState) (o : Option ℕ) → Answers (delete_worker_action s o)
  delete_worker_action-Answers s none = replies
  delete_worker_action-Answers s (some wid) =
      passing-Answers s (λ _. no_body) (delete_worker wid s.db)

  -- The last handler declines nothing.
  workers_handle-Answers : (r : Request) (s : ServerState) → Answers (workers_handle h r s)
  unfolding workers_handle
  workers_handle-Answers r s =
      let is : String → Bool = λ name. bytes_eq r.action (codes name) in
      if-Answers (is "list_access_logs") _ _ replies (
        if-Answers (is "get_worker_by_uid") _ _
          (if-Answers (is_empty (or_empty r.body.card_uid)) _ _ replies
            (card_found-Answers r s (get_worker_by_card_uid h (or_empty r.body.card_uid) s.db)))
          (if-Answers (is "get_first_admin_id") _ _ replies (
            if-Answers (is "list_workers") _ _ replies (
              if-Answers (is "create_worker") _ _ (create_worker_action-Answers r s r.body.admin_id)
                (if-Answers (is "update_worker") _ _
                  (update_worker_action-Answers r s r.body.worker_id)
                  (if-Answers (is "delete_worker") _ _
                    (delete_worker_action-Answers s r.body.worker_id) replies))))))

  handle_no_auth-Answers : (r : Request) (s : ServerState) → Answers (handle_no_auth h r s)
  unfolding handle_no_auth
  handle_no_auth-Answers r s = or_next-Answers (auth_handle h r s) _ (
      or_next-Answers (orders_handle h r s) _
        (or_next-Answers (processes_handle r s) _ (workers_handle-Answers r s)))

  -- The part for those who need no login answers every request.
  pub handle_request-handle_no_auth :
      (r : Request) (s : ServerState) → handle_request h r s ≡ answered h s (handle_no_auth h r s)
  unfolding handle_request
  handle_request-handle_no_auth r s =
      ap (answered h s)
        (or_next-left (handle_no_auth h r s) (admin_part h r s) (handle_no_auth-Answers r s))

  handle_no_auth-with_token :
      (token : Option Bytes) (r : Request) (s : ServerState)
      → bytes_eq (strip r.action) (codes "admin_logout") ≡ false
      → handle_no_auth h (with_token token r) s ≡ handle_no_auth h r s
  unfolding handle_no_auth auth_handle orders_handle processes_handle workers_handle
  handle_no_auth-with_token token r s other = rw other refl

  -- Whatever token a request carries, valid, invalid or none, a request other than admin_logout is
  -- answered the same and leaves the same state.
  pub handle_request-with_token :
      (token : Option Bytes) (r : Request) (s : ServerState)
      → bytes_eq (strip r.action) (codes "admin_logout") ≡ false
      → handle_request h (with_token token r) s ≡ handle_request h r s
  handle_request-with_token token r s other =
      handle_request-handle_no_auth (with_token token r) s
      ∙ ap (answered h s) (handle_no_auth-with_token token r s other)
      ∙ sym (handle_request-handle_no_auth r s)
