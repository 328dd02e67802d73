-- ===== src/Server/Handled.antt =====
-- soy-server/app/requests: what a handler makes of a request, processes.py and orders.py.
use iot_repo.Base.{ℕ, [], Option, none, some, if◌then◌else◌}
use iot_repo.Base.Text.{Bytes, codes, bytes_eq}
use iot_repo.Server.{
  Host, OrderRow, Failure, order_not_found, order_item_not_found, process_id_required,
  order_id_required, order_item_id_required, status_required, already_delivered, Outcome, returned,
  raised, Request, ReplyBody, report, order_body, orders_body, order_id_body, delivered_body,
  status_body, process_body, processes_body, Reply, good, bad, ServerState,
}
use iot_repo.Server.Processes.{
  get_order_row, list_processes, start_process, stop_process, update_process,
}
use iot_repo.Server.Orders.{
  get_order_id_by_order_item_id, set_order_delivered_and_create_process, set_order_status,
}

-- None, an answer, or an exception, behind which nothing is changed.
pub data Handled : Type 0 where
  declined : Handled
  replied : Reply → ServerState → Handled
  failed : Failure → Handled

abbrev pub refuse : ServerState → Failure → Handled
refuse s e = replied (bad e) s

-- An exception of the service goes on to the caller.
abbrev pub passing : {A : Type 0} → ServerState → (A → ReplyBody) → Outcome A → Handled
passing s show (returned a db) = replied (good (show a)) (record s { db = db })
passing s show (raised e) = failed e

-- An exception of the service is answered here.
abbrev pub catching : {A : Type 0} → ServerState → (A → ReplyBody) → Outcome A → Handled
catching s show (returned a db) = replied (good (show a)) (record s { db = db })
catching s show (raised e) = refuse s e

-- `text or ""`.
abbrev pub or_empty : Option Bytes → Bytes
or_empty none = []
or_empty (some text) = text

-- The next handler is asked where one declines.
abbrev pub or_next : Handled → Handled → Handled
or_next declined next = next
or_next (replied y s) next = replied y s
or_next (failed e) next = failed e

-- processes.handle.
abbrev pub with_process : ServerState → Option ℕ → (ℕ → Handled) → Handled
with_process s none f = refuse s process_id_required
with_process s (some pid) f = f pid

unfoldable pub processes_handle : Request → ServerState → Handled
unfolding list_processes start_process stop_process update_process
processes_handle r s =
    if bytes_eq r.action (codes "list_processes")
    then replied (good (processes_body (list_processes s.db))) s
    else if bytes_eq r.action (codes "list_item_sorting_logs")
    then replied (good report) s
    else if bytes_eq r.action (codes "process_start")
    then with_process s r.body.process_id
        (λ pid. catching s process_body (start_process pid r.now s.db))
    else if bytes_eq r.action (codes "process_stop")
    then with_process s r.body.process_id
        (λ pid. catching s process_body (stop_process pid r.now s.db))
    else if bytes_eq r.action (codes "process_update")
    then with_process s r.body.process_id
        (λ pid. catching s process_body (update_process pid r.body s.db))
    else declined

abbrev pub found_order : ServerState → Option OrderRow → Handled
found_order s none = refuse s order_not_found
found_order s (some o) = replied (good (order_body o)) s

abbrev pub get_order : ServerState → Option ℕ → Handled
get_order s none = refuse s order_id_required
get_order s (some oid) = found_order s (get_order_row oid s.db.orders)

abbrev pub found_order_id : ServerState → Option ℕ → Handled
found_order_id s none = refuse s order_item_not_found
found_order_id s (some oid) = replied (good (order_id_body oid)) s

abbrev pub get_order_id : ServerState → Option ℕ → Handled
get_order_id s none = refuse s order_item_id_required
get_order_id s (some iid) = found_order_id s (get_order_id_by_order_item_id iid s.db.orders)

module _ (h : Host) where
  abbrev pub delivered_outcome : ℕ → ServerState → Outcome (Option ℕ) → Handled
  delivered_outcome oid s (returned none db) =
      replied (bad already_delivered) (record s { db = db })
  delivered_outcome oid s (returned (some pid) db) =
      replied (good (delivered_body oid pid)) (record s { db = db })
  delivered_outcome oid s (raised e) = refuse s e

  abbrev pub deliver : ServerState → ℕ → Handled
  deliver s oid = delivered_outcome oid s (set_order_delivered_and_create_process h oid s.db)

  abbrev pub deliver_of_item : ServerState → Option ℕ → Handled
  deliver_of_item s none = refuse s order_item_not_found
  deliver_of_item s (some oid) = deliver s oid

  abbrev pub mark_delivered : ServerState → Option ℕ → Option ℕ → Handled
  mark_delivered s none none = refuse s order_id_required
  mark_delivered s none (some iid) =
      deliver_of_item s (get_order_id_by_order_item_id iid s.db.orders)
  mark_delivered s (some oid) iid = deliver s oid

  abbrev pub set_status : ServerState → Option ℕ → Option Bytes → Handled
  set_status s none status = refuse s order_id_required
  set_status s (some oid) none = refuse s status_required
  set_status s (some oid) (some status) =
      catching s (status_body oid) (set_order_status h oid status s.db)

  -- orders.handle.
  unfoldable pub orders_handle : Request → ServerState → Handled
  unfolding get_order_row get_order_id_by_order_item_id set_order_delivered_and_create_process
      set_order_status
  orders_handle r s =
      if bytes_eq r.action (codes "list_orders")
      then replied (good (orders_body s.db.orders)) s
      else if bytes_eq r.action (codes "get_order")
      then get_order s r.body.order_id
      else if bytes_eq r.action (codes "get_order_id_by_order_item_id")
      then get_order_id s r.body.order_item_id
      else if bytes_eq r.action (codes "order_mark_delivered")
      then mark_delivered s r.body.order_id r.body.order_item_id
      else if bytes_eq r.action (codes "order_set_status")
      then set_status s r.body.order_id r.body.status
      else declined
