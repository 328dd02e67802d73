-- ===== src/Server/Sound/Kept.antt =====
-- Handlers and the rows of the database: processes.py and orders.py.
use Prim.Native.String.{String}
use iot_repo.Base.{ℕ, Bool, true, false, Option, none, some, if◌then◌else◌}
use iot_repo.Base.Text.{Bytes, codes, bytes_eq}
use iot_repo.Server.{
  Host, OrderRow, Failure, Outcome, returned, raised, Request, ReplyBody, process_body, status_body,
  Reply, ServerState,
}
use iot_repo.Server.Processes.{get_order_row, start_process, stop_process, update_process}
use iot_repo.Server.Orders.{
  get_order_id_by_order_item_id, set_order_delivered_and_create_process, set_order_status,
}
use iot_repo.Server.Handled.{
  Handled, declined, replied, failed, passing, catching, or_next, with_process, found_order,
  get_order, found_order_id, get_order_id, delivered_outcome, deliver, deliver_of_item,
  mark_delivered, set_status, processes_handle, orders_handle,
}
use iot_repo.Server.Sound.{
  Sound, Keeps, keeps_returned, keeps_raised, start_process-Keeps, stop_process-Keeps,
  update_process-Keeps,
}
use iot_repo.Server.Sound.Deliveries.{deliver-Keeps, set_order_status-Keeps}

module _ (h : Host) where
  pub data Kept : Handled → Type 0 where
    kept_declined : Kept declined
    kept_replied : {y : Reply} {s : ServerState} → Sound h s.db → Kept (replied y s)
    kept_failed : {e : Failure} → Kept (failed e)

  pub if-Kept : (t : Bool) (x y : Handled) → Kept x → Kept y → Kept (if t then x else y)
  if-Kept true x y a b = a
  if-Kept false x y a b = b

  pub or_next-Kept : (x y : Handled) → Kept x → Kept y → Kept (or_next x y)
  or_next-Kept declined y a b = b
  or_next-Kept (replied z s) y a b = a
  or_next-Kept (failed e) y a b = a

  pub passing-Kept :
      {A : Type 0} (s : ServerState) (show : A → ReplyBody) (o : Outcome A)
      → Keeps h o
      → Kept (passing s show o)
  passing-Kept s show _ (keeps_returned i) = kept_replied i
  passing-Kept s show _ keeps_raised = kept_failed

  pub catching-Kept :
      {A : Type 0} (s : ServerState) (show : A → ReplyBody) (o : Outcome A)
      → Sound h s.db
      → Keeps h o
      → Kept (catching s show o)
  catching-Kept s show _ i (keeps_returned j) = kept_replied j
  catching-Kept s show _ i keeps_raised = kept_replied i

  with_process-Kept :
      (s : ServerState) (o : Option ℕ) (f : ℕ → Handled)
      → Sound h s.db
      → ((pid : ℕ) → Kept (f pid))
      → Kept (with_process s o f)
  with_process-Kept s none f i k = kept_replied i
  with_process-Kept s (some pid) f i k = k pid

  pub processes_handle-Kept :
      (r : Request) (s : ServerState) → Sound h s.db → Kept (processes_handle r s)
  unfolding processes_handle
  processes_handle-Kept r s i =
      let is : String → Bool = λ name. bytes_eq r.action (codes name) in
      if-Kept (is "list_processes") _ _ (kept_replied i) (
        if-Kept (is "list_item_sorting_logs") _ _ (kept_replied i) (
          if-Kept (is "process_start") _ _
            (with_process-Kept s r.body.process_id
              (λ pid. catching s process_body (start_process pid r.now s.db)) i
              (λ pid.
                catching-Kept s process_body (start_process pid r.now s.db) i
                  (start_process-Keeps h pid r.now s.db i)))
            (if-Kept (is "process_stop") _ _
              (with_process-Kept s r.body.process_id
                (λ pid. catching s process_body (stop_process pid r.now s.db)) i
                (λ pid.
                  catching-Kept s process_body (stop_process pid r.now s.db) i
                    (stop_process-Keeps h pid r.now s.db i)))
              (if-Kept (is "process_update") _ _
                (with_process-Kept s r.body.process_id
                  (λ pid. catching s process_body (update_process pid r.body s.db)) i
                  (λ pid.
                    catching-Kept s process_body (update_process pid r.body s.db) i
                      (update_process-Keeps h pid r.body s.db i)))
                kept_declined))))

  found_order-Kept : (s : ServerState) (o : Option OrderRow) → Sound h s.db → Kept (found_order s o)
  found_order-Kept s none i = kept_replied i
  found_order-Kept s (some o) i = kept_replied i

  get_order-Kept : (s : ServerState) (o : Option ℕ) → Sound h s.db → Kept (get_order s o)
  get_order-Kept s none i = kept_replied i
  get_order-Kept s (some oid) i = found_order-Kept s (get_order_row oid s.db.orders) i

  found_order_id-Kept : (s : ServerState) (o : Option ℕ) → Sound h s.db → Kept (found_order_id s o)
  found_order_id-Kept s none i = kept_replied i
  found_order_id-Kept s (some o) i = kept_replied i

  get_order_id-Kept : (s : ServerState) (o : Option ℕ) → Sound h s.db → Kept (get_order_id s o)
  get_order_id-Kept s none i = kept_replied i
  get_order_id-Kept s (some iid) i =
      found_order_id-Kept s (get_order_id_by_order_item_id iid s.db.orders) i

  delivered_outcome-Kept :
      (oid : ℕ) (s : ServerState) (o : Outcome (Option ℕ))
      → Sound h s.db
      → Keeps h o
      → Kept (delivered_outcome h oid s o)
  delivered_outcome-Kept oid s (returned none db) i (keeps_returned j) = kept_replied j
  delivered_outcome-Kept oid s (returned (some pid) db) i (keeps_returned j) = kept_replied j
  delivered_outcome-Kept oid s (raised e) i k = kept_replied i

  deliver-Kept : (s : ServerState) (oid : ℕ) → Sound h s.db → Kept (deliver h s oid)
  deliver-Kept s oid i =
      delivered_outcome-Kept oid s (set_order_delivered_and_create_process h oid s.db) i
        (deliver-Keeps h oid s.db i)

  deliver_of_item-Kept :
      (s : ServerState) (o : Option ℕ) → Sound h s.db → Kept (deliver_of_item h s o)
  deliver_of_item-Kept s none i = kept_replied i
  deliver_of_item-Kept s (some oid) i = deliver-Kept s oid i

  mark_delivered-Kept :
      (s : ServerState) (oid iid : Option ℕ) → Sound h s.db → Kept (mark_delivered h s oid iid)
  mark_delivered-Kept s none none i = kept_replied i
  mark_delivered-Kept s none (some iid) i =
      deliver_of_item-Kept s (get_order_id_by_order_item_id iid s.db.orders) i
  mark_delivered-Kept s (some oid) iid i = deliver-Kept s oid i

  set_status-Kept :
      (s : ServerState) (oid : Option ℕ) (status : Option Bytes)
      → Sound h s.db
      → Kept (set_status h s oid status)
  set_status-Kept s none status i = kept_replied i
  set_status-Kept s (some oid) none i = kept_replied i
  set_status-Kept s (some oid) (some status) i =
      catching-Kept s (status_body oid) (set_order_status h oid status s.db) i
        (set_order_status-Keeps h oid status s.db i)

  pub orders_handle-Kept :
      (r : Request) (s : ServerState) → Sound h s.db → Kept (orders_handle h r s)
  unfolding orders_handle
  orders_handle-Kept r s i =
      let is : String → Bool = λ name. bytes_eq r.action (codes name) in
      if-Kept (is "list_orders") _ _ (kept_replied i) (
        if-Kept (is "get_order") _ _ (get_order-Kept s r.body.order_id i) (
          if-Kept (is "get_order_id_by_order_item_id") _ _
            (get_order_id-Kept s r.body.order_item_id i)
            (if-Kept (is "order_mark_delivered") _ _
              (mark_delivered-Kept s r.body.order_id r.body.order_item_id i)
              (if-Kept (is "order_set_status") _ _
                (set_status-Kept s r.body.order_id r.body.status i) kept_declined))))
