-- ===== src/Server/Sound/Deliveries.antt =====
-- The services of orders and the rows of the database.
use iot_repo.Base.{ℕ, ◌+◌, ◌≡◌, refl, Bool-cases, inl, inr, ◌∷◌, Option, none, some, arith}
use iot_repo.Base.Text.{Bytes, codes, bytes_eq}
use iot_repo.Operator.Words.{strip}
use iot_repo.Server.{Host, OrderRow, Db, Outcome, returned, raised, is_delivered}
use iot_repo.Server.Processes.{get_order_row}
use iot_repo.Server.Orders.{
  deliver_found, set_order_delivered_and_create_process, or_refused, pending_found,
  set_order_status, new_process, save_status,
}
use iot_repo.Server.Totals.{All-save_status, new_process-Fits}
use iot_repo.Server.Sound.{Sound, Keeps, keeps_returned, keeps_raised}

module _ (h : Host) where
  save_status-Sound :
      (oid : ℕ) (status : Bytes) (db : Db)
      → Sound h db
      → Sound h (record db { orders = save_status oid status db.orders })
  save_status-Sound oid status db i = record {
    falling = i.falling;
    one_runs = i.one_runs;
    fits = All-save_status oid status db.orders db.processes i.fits;
    keys = i.keys;
    distinct = i.distinct;
    known = i.known;
  }

  new_process-Sound :
      (oid : ℕ) (o : OrderRow) (db : Db)
      → get_order_row oid db.orders ≡ some o
      → Sound h db
      → Sound h (record db {
        processes = new_process db.next_process_id oid ∷ db.processes;
        next_process_id = db.next_process_id + 1;
      })
  new_process-Sound oid o db e i = record {
    falling = (omega arith, i.falling);
    one_runs = omega (arith, i.one_runs);
    fits = (new_process-Fits db.next_process_id oid o db.orders e, i.fits);
    keys = i.keys;
    distinct = i.distinct;
    known = i.known;
  }

  deliver_found-Keeps :
      (oid : ℕ) (db : Db) (o : Option OrderRow)
      → get_order_row oid db.orders ≡ o
      → Sound h db
      → Keeps h (deliver_found h oid db o)
  deliver_found-Keeps oid db none e i = keeps_raised
  deliver_found-Keeps oid db (some o) e i = elim (Bool-cases (is_delivered h o.status)) [
    | inl before ↦ rw before (keeps_returned i)
    | inr now ↦ rw now (
        keeps_returned (
          save_status-Sound oid (codes "DELIVERED")
            (record db {
              processes = new_process db.next_process_id oid ∷ db.processes;
              next_process_id = db.next_process_id + 1;
            })
            (new_process-Sound oid o db e i)))
  ]

  pub deliver-Keeps :
      (oid : ℕ) (db : Db) → Sound h db → Keeps h (set_order_delivered_and_create_process h oid db)
  unfolding set_order_delivered_and_create_process
  deliver-Keeps oid db i = deliver_found-Keeps oid db (get_order_row oid db.orders) refl i

  or_refused-Keeps : (o : Outcome (Option ℕ)) → Keeps h o → Keeps h (or_refused h o)
  or_refused-Keeps (returned none db) k = keeps_raised
  or_refused-Keeps (returned (some pid) db) k = k
  or_refused-Keeps (raised e) k = k

  pending_found-Keeps :
      (oid : ℕ) (db : Db) (o : Option OrderRow) → Sound h db → Keeps h (pending_found h oid db o)
  pending_found-Keeps oid db none i = keeps_raised
  pending_found-Keeps oid db (some o) i =
      keeps_returned (save_status-Sound oid (codes "PENDING") db i)

  pub set_order_status-Keeps :
      (oid : ℕ) (status : Bytes) (db : Db) → Sound h db → Keeps h (set_order_status h oid status db)
  unfolding set_order_status
  set_order_status-Keeps oid status db i =
      elim (Bool-cases (bytes_eq (h.upper (strip status)) (codes "DELIVERED"))) [
        | inl to ↦ rw to (
            or_refused-Keeps (set_order_delivered_and_create_process h oid db)
              (deliver-Keeps oid db i))
        | inr other ↦ elim (Bool-cases (bytes_eq (h.upper (strip status)) (codes "PENDING"))) [
          | inl back ↦ rw (other, back) (pending_found-Keeps oid db (get_order_row oid db.orders) i)
          | inr neither ↦ rw (other, neither) keeps_raised
        ]
      ]
