-- ===== src/Server/Orders.antt =====
-- soy-server/app/services/orders.py: orders listed, delivered and put back.
use iot_repo.Base.{
  ℕ, ◌+◌, Bool, true, false, List, [], ◌∷◌, Option, none, some, ◌==◌, if◌then◌else◌,
}
use iot_repo.Base.Text.{Bytes, codes, bytes_eq}
use iot_repo.Operator.Words.{strip}
use iot_repo.Server.{
  Host, not_started, ProcessRow, OrderItem, OrderRow, Db, order_not_found, already_delivered,
  status_invalid, Outcome, returned, raised, is_delivered,
}
use iot_repo.Server.Processes.{get_order_row}

-- The item of that id, of any order.
unfoldable pub has_item : ℕ → List OrderItem → Bool
has_item iid [] = false
has_item iid (i ∷ is) = let rest = has_item iid is in if i.order_item_id == iid then true else rest

unfoldable pub get_order_id_by_order_item_id : ℕ → List OrderRow → Option ℕ
unfolding has_item
get_order_id_by_order_item_id iid [] = none
get_order_id_by_order_item_id iid (o ∷ os) =
    let rest = get_order_id_by_order_item_id iid os in
    if has_item iid o.order_items then some o.order_id else rest

-- `order.status = status`, written by the flush.
unfoldable pub save_status : ℕ → Bytes → List OrderRow → List OrderRow
save_status oid status [] = []
save_status oid status (o ∷ os) =
    let rest = save_status oid status os in
    if o.order_id == oid then record o { status = status } ∷ os else o ∷ rest

abbrev pub new_process : ℕ → ℕ → ProcessRow
new_process pid oid = record {
  process_id = pid;
  order_id = oid;
  start_time = none;
  end_time = none;
  status = not_started;
  total_qty = 0;
  success_1l_qty = 0;
  success_2l_qty = 0;
  unclassified_qty = 0;
}

module _ (h : Host) where
  -- The order becomes DELIVERED and gets a process, in one session.
  abbrev pub deliver_found : ℕ → Db → Option OrderRow → Outcome (Option ℕ)
  deliver_found oid db none = raised order_not_found
  deliver_found oid db (some o) =
      if is_delivered h o.status
      then returned none db
      else returned (some db.next_process_id) (record db {
        orders = save_status oid (codes "DELIVERED") db.orders;
        processes = new_process db.next_process_id oid ∷ db.processes;
        next_process_id = db.next_process_id + 1;
      })

  -- The id of the process, or none for the message that the order was delivered before.
  unfoldable pub set_order_delivered_and_create_process : ℕ → Db → Outcome (Option ℕ)
  unfolding get_order_row save_status
  set_order_delivered_and_create_process oid db = deliver_found oid db (get_order_row oid db.orders)

  -- The message is raised.
  abbrev pub or_refused : Outcome (Option ℕ) → Outcome (Option ℕ)
  or_refused (returned none db) = raised already_delivered
  or_refused (returned (some pid) db) = returned (some pid) db
  or_refused (raised e) = raised e

  abbrev pub pending_found : ℕ → Db → Option OrderRow → Outcome (Option ℕ)
  pending_found oid db none = raised order_not_found
  pending_found oid db (some o) =
      returned none (record db { orders = save_status oid (codes "PENDING") db.orders })

  -- The id of the process, where one is created.
  unfoldable pub set_order_status : ℕ → Bytes → Db → Outcome (Option ℕ)
  unfolding set_order_delivered_and_create_process get_order_row save_status
  set_order_status oid status db =
      let target = h.upper (strip status) in
      if bytes_eq target (codes "DELIVERED")
      then or_refused (set_order_delivered_and_create_process oid db)
      else if bytes_eq target (codes "PENDING")
      then pending_found oid db (get_order_row oid db.orders)
      else raised status_invalid
