-- ===== src/Server/Redelivered.antt =====
-- An order that is delivered, put back and delivered again.
use iot_repo.Base.{
  ℕ, ◌+◌, ◌≡◌, refl, ◌∙◌, ap, false, Bool-cases, inl, inr, List, [], ◌∷◌, none, some, ◌==◌, arith,
}
use iot_repo.Base.Text.{Bytes, codes}
use iot_repo.Operator.Words.{strip}
use iot_repo.Server.{Host, OrderRow, Db, Outcome, returned, raised, is_delivered}
use iot_repo.Server.Processes.{get_order_row}
use iot_repo.Server.Orders.{
  save_status, new_process, set_order_delivered_and_create_process, set_order_status,
}

-- What the next call finds.
abbrev pub then_with : {A : Type 0} → Outcome A → (Db → Outcome A) → Outcome A
then_with (returned a db) f = f db
then_with (raised e) f = raised e

-- Capitals stay.
pub record Upper (h : Host) : Type 0 where
  pub pending : h.upper (codes "PENDING") ≡ codes "PENDING"
  pub delivered : h.upper (codes "DELIVERED") ≡ codes "DELIVERED"

get_order_row-save_status :
    (oid : ℕ) (status : Bytes) (os : List OrderRow) (o : OrderRow)
    → get_order_row oid os ≡ some o
    → get_order_row oid (save_status oid status os) ≡ some (record o { status = status })
unfolding get_order_row save_status
get_order_row-save_status oid status [] o e = cc
get_order_row-save_status oid status (x ∷ os) o e = elim (Bool-cases (x.order_id == oid)) [
  | inl same ↦
      let it : x ≡ o = ground (arith, same, e) in
      rw (same, same) (ap (λ (y : OrderRow). some (record y { status = status })) it)
  | inr other ↦
      rw (other, other) (get_order_row-save_status oid status os o (ground (arith, other, e)))
]

module _ (h : Host) (upper : Upper h) where
  pending_is_open : is_delivered h (codes "PENDING") ≡ false
  unfolding strip
  pending_is_open = rw upper.pending refl

  set_order_status_delivered :
      (oid : ℕ) (db : Db) (o : OrderRow)
      → get_order_row oid db.orders ≡ some o
      → is_delivered h o.status ≡ false
      → set_order_status h oid (codes "DELIVERED") db
        ≡ returned (some db.next_process_id) (record db {
          orders = save_status oid (codes "DELIVERED") db.orders;
          processes = new_process db.next_process_id oid ∷ db.processes;
          next_process_id = db.next_process_id + 1;
        })
  unfolding set_order_status set_order_delivered_and_create_process strip
  set_order_status_delivered oid db o there new = rw (upper.delivered, there, new) refl

  set_order_status_pending :
      (oid : ℕ) (db : Db) (o : OrderRow)
      → get_order_row oid db.orders ≡ some o
      → set_order_status h oid (codes "PENDING") db
        ≡ returned none (record db { orders = save_status oid (codes "PENDING") db.orders })
  unfolding set_order_status strip
  set_order_status_pending oid db o there = rw (upper.pending, there) refl

  -- Where str.upper leaves PENDING and DELIVERED as they are, an order that is not delivered, set
  -- to DELIVERED, back to PENDING and to DELIVERED again has two new processes.
  pub set_order_status_twice :
      (oid : ℕ) (db : Db) (o : OrderRow)
      → get_order_row oid db.orders ≡ some o
      → is_delivered h o.status ≡ false
      → let deliver = set_order_status h oid (codes "DELIVERED") in
        let put_back = set_order_status h oid (codes "PENDING") in
        (new : Db) × ((then_with (then_with (deliver db) put_back) deliver
            ≡ returned (some (db.next_process_id + 1)) new)
          × (new.processes
              ≡ new_process (db.next_process_id + 1) oid
                ∷ new_process db.next_process_id oid
                ∷ db.processes))
  set_order_status_twice oid db o there open' =
      let once = record db {
        orders = save_status oid (codes "DELIVERED") db.orders;
        processes = new_process db.next_process_id oid ∷ db.processes;
        next_process_id = db.next_process_id + 1;
      } in
      let back = record once { orders = save_status oid (codes "PENDING") once.orders } in
      let there' = get_order_row-save_status oid (codes "DELIVERED") db.orders o there in
      let there'' =
        get_order_row-save_status oid (codes "PENDING") once.orders
          (record o { status = codes "DELIVERED" }) there' in
      let deliver = set_order_status h oid (codes "DELIVERED") in
      let put_back = set_order_status h oid (codes "PENDING") in
      (
        record back {
          orders = save_status oid (codes "DELIVERED") back.orders;
          processes = new_process back.next_process_id oid ∷ back.processes;
          next_process_id = back.next_process_id + 1;
        },
        (
          ap (λ x. then_with (then_with x put_back) deliver)
                (set_order_status_delivered oid db o there open')
              ∙ ap (λ x. then_with x deliver) (set_order_status_pending oid once _ there')
              ∙ set_order_status_delivered oid back _ there'' pending_is_open,
          refl,
        ),
      )
