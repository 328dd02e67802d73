-- ===== src/Server/Requests.antt =====
-- soy-server/app/requests/workers.py, and __init__.py and pc_bridge.py, where a request is handed from
-- one handler to the next.
use iot_repo.Base.{List, [], ◌∷◌, ℕ, Bool, not, ◌&&◌, List, Option, none, some, if◌then◌else◌}
use iot_repo.Base.Text.{Bytes, codes, bytes_eq}
use iot_repo.Operator.Words.{is_empty}
use iot_repo.Server.{
  Host, Worker, Db, unknown_action, card_uid_required, admin_id_required, worker_id_required,
  no_such_card, log_refused, admin_login_required, Request, no_body, report, first_admin_body,
  worker_body, workers_body, Reply, good, bad, ServerState,
}
use iot_repo.Server.Workers.{
  get_first_admin_id, delete_worker, create_access_log, create_worker, update_worker,
  get_worker_by_card_uid,
}
use iot_repo.Server.Handled.{
  Handled, declined, replied, failed, refuse, passing, or_empty, or_next, processes_handle,
  orders_handle,
}
use iot_repo.Server.Login.{has_session, auth_handle}

-- workers.handle: a card that is known is logged.
abbrev pub logged : ServerState → Worker → Option Db → Handled
logged s u none = refuse s log_refused
logged s u (some db) = replied (good (worker_body u)) (record s { db = db })

abbrev pub with_worker : ServerState → Option ℕ → (ℕ → Handled) → Handled
with_worker s none f = refuse s worker_id_required
with_worker s (some wid) f = f wid

abbrev pub delete_worker_action : ServerState → Option ℕ → Handled
delete_worker_action s wid =
    with_worker s wid (λ wid. passing s (λ _. no_body) (delete_worker wid s.db))

-- reporting.handle.
abbrev pub reporting_handle : Request → ServerState → Handled
reporting_handle r s =
    if bytes_eq r.action (codes "list_inventory")
    then replied (good report) s
    else if bytes_eq r.action (codes "list_inventory_status_stats")
    then replied (good report) s
    else declined

module _ (h : Host) where
  abbrev pub card_found : Request → ServerState → Option Worker → Handled
  card_found r s none = refuse s no_such_card
  card_found r s (some u) = logged s u (create_access_log u.worker_id r.body.direction r.now s.db)

  abbrev pub get_worker_by_uid : Request → ServerState → Handled
  get_worker_by_uid r s =
      if is_empty (or_empty r.body.card_uid)
      then refuse s card_uid_required
      else card_found r s (get_worker_by_card_uid h (or_empty r.body.card_uid) s.db)

  abbrev pub create_worker_action : Request → ServerState → Option ℕ → Handled
  create_worker_action r s none = refuse s admin_id_required
  create_worker_action r s (some aid) =
      passing s worker_body
        (create_worker h aid (or_empty r.body.name) (or_empty r.body.card_uid) s.db)

  abbrev pub update_worker_action : Request → ServerState → Option ℕ → Handled
  update_worker_action r s wid =
      with_worker s wid
        (λ wid. passing s worker_body (update_worker h wid r.body.name r.body.card_uid s.db))

  unfoldable pub workers_handle : Request → ServerState → Handled
  unfolding create_access_log get_worker_by_card_uid create_worker update_worker delete_worker
  workers_handle r s =
      if bytes_eq r.action (codes "list_access_logs")
      then replied (good report) s
      else if bytes_eq r.action (codes "get_worker_by_uid")
      then get_worker_by_uid r s
      else if bytes_eq r.action (codes "get_first_admin_id")
      then replied (good (first_admin_body (get_first_admin_id s.db.admins))) s
      else if bytes_eq r.action (codes "list_workers")
      then replied (good (workers_body s.db.workers)) s
      else if bytes_eq r.action (codes "create_worker")
      then create_worker_action r s r.body.admin_id
      else if bytes_eq r.action (codes "update_worker")
      then update_worker_action r s r.body.worker_id
      else if bytes_eq r.action (codes "delete_worker")
      then delete_worker_action s r.body.worker_id
      else refuse s unknown_action

  unfoldable pub handle_no_auth : Request → ServerState → Handled
  unfolding auth_handle orders_handle processes_handle workers_handle
  handle_no_auth r s =
      or_next (auth_handle h r s)
        (or_next (orders_handle h r s) (or_next (processes_handle r s) (workers_handle r s)))

  unfoldable pub handle_admin_only : Request → ServerState → Handled
  unfolding orders_handle processes_handle workers_handle
  handle_admin_only r s = or_next (orders_handle h r s) (
      or_next (workers_handle r s)
        (or_next (reporting_handle r s) (or_next (processes_handle r s) (refuse s unknown_action))))

  -- _require_admin.
  abbrev pub require_admin : Bytes → List (Bytes × ℕ) → Bool
  require_admin token sessions = not (is_empty token) && has_session token sessions

  abbrev pub admin_part : Request → ServerState → Handled
  admin_part r s =
      if require_admin (or_empty r.body.auth_token) s.sessions
      then handle_admin_only r s
      else refuse s admin_login_required

  -- An exception is answered with its text.
  abbrev pub answered : ServerState → Handled → Reply × ServerState
  answered s declined = (bad unknown_action, s)
  answered s (replied y t) = (y, t)
  answered s (failed e) = (bad e, s)

  unfoldable pub handle_request : Request → ServerState → Reply × ServerState
  unfolding handle_no_auth handle_admin_only
  handle_request r s = answered s (or_next (handle_no_auth r s) (admin_part r s))

  -- The requests, the last one first.
  unfoldable pub serve : List Request → ServerState → ServerState
  unfolding handle_request
  serve [] s = s
  serve (r ∷ rs) s = (handle_request r (serve rs s)).1
