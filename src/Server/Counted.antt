-- ===== src/Server/Counted.antt =====
-- soy-pc/api/client.py, process_update, with the server: the count that the operator's controller sends
-- meets the row from which the server made the list that the controller counts in.
use iot_repo.Base.{
  ℕ, ◌+◌, ◌≤◌, ◌<◌, ◌≡◌, refl, ◌∙◌, sym, ap, subst, true, false, Bool-cases, inl, inr, List, some,
  arith,
}
use iot_repo.Base.Int.{pos}
use iot_repo.Operator.{QtyField, success_1l, success_2l, unclassified, Process}
use iot_repo.Operator.Counting.{qty, with_qty, sorted_total}
use iot_repo.Server.{
  Host, ProcessRow, Db, process_qty_exceeds_order_total, Outcome, returned, raised, RequestBody,
  empty_body,
}
use iot_repo.Server.Processes.{
  get_process, save_process, order_total, total_or_0, counted, exceeds, update_found,
  update_process, classified_total,
}
use iot_repo.Server.Running.{get_process-id, get_process-save_process}
use iot_repo.Server.Totals.{Fits, All-get_process}
use iot_repo.Server.Sound.{Sound}

-- What process_update sends.
abbrev pub count_request : QtyField → ℕ → RequestBody
count_request success_1l n = record empty_body { success_1l_qty = some (pos n) }
count_request success_2l n = record empty_body { success_2l_qty = some (pos n) }
count_request unclassified n = record empty_body { unclassified_qty = some (pos n) }

-- A row as it comes in the list of processes.
abbrev pub listed : Db → ProcessRow → Process
listed db p = record {
  process_id = p.process_id;
  order_id = p.order_id;
  success_1l_qty = p.success_1l_qty;
  success_2l_qty = p.success_2l_qty;
  unclassified_qty = p.unclassified_qty;
  order_total_qty = total_or_0 (order_total p.order_id db.orders);
}

-- One more bottle of the row at the server: it is counted and listed, where the order has more bottles
-- than are counted, and refused where it has not.
pub data Told (field : QtyField) (pid : ℕ) (row : ProcessRow) (db : Db) (o : Outcome ProcessRow)
    : Type 0 where
  counts :
      {q : ProcessRow} {new : Db}
      → sorted_total (listed db row) < (listed db row).order_total_qty
      → o ≡ returned q new
      → get_process pid new.processes ≡ some q
      → listed new q ≡ with_qty field (qty field (listed db row) + 1) (listed db row)
      → Told field pid row db o
  refuses :
      (listed db row).order_total_qty ≤ sorted_total (listed db row)
      → o ≡ raised process_qty_exceeds_order_total
      → Told field pid row db o

shown :
    (field : QtyField) (p : ProcessRow) (ps : List ProcessRow) (db : Db)
    → let n = qty field (listed db p) + 1 in
      listed (record db { processes = ps }) (counted (count_request field n) p)
      ≡ with_qty field n (listed db p)
shown success_1l p ps db = refl
shown success_2l p ps db = refl
shown unclassified p ps db = refl

one_more :
    (field : QtyField) (p : ProcessRow) (db : Db)
    → classified_total (counted (count_request field (qty field (listed db p) + 1)) p)
      ≡ classified_total p + 1
one_more success_1l p db = omega arith
one_more success_2l p db = omega arith
one_more unclassified p db = omega arith

-- The list shows the sum of the counts and the total of the order.
listed_total :
    (p : ProcessRow) (db : Db) (t : ℕ)
    → order_total p.order_id db.orders ≡ some t
    → (listed db p).order_total_qty ≡ t
listed_total p db t e = ap total_or_0 e

update_found-Told :
    (field : QtyField) (pid : ℕ) (p : ProcessRow) (db : Db)
    → get_process pid db.processes ≡ some p
    → Fits db.orders p
    → Told field pid p db
        (update_found pid (count_request field (qty field (listed db p) + 1)) db (some p))
update_found-Told field pid p db found (t, (e, fits)) =
    let body = count_request field (qty field (listed db p) + 1) in
    let q = counted body p in
    elim (Bool-cases (exceeds q (order_total p.order_id db.orders))) [
      | inl more ↦
          let over : exceeds q (some t) ≡ true = ap (exceeds q) (sym e) ∙ more in
          rw more (refuses (grind (arith, over, one_more field p db, listed_total p db t e)) refl)
      | inr ok ↦
          let under : exceeds q (some t) ≡ false = ap (exceeds q) (sym e) ∙ ok in
          rw ok (
            counts (grind (arith, under, one_more field p db, listed_total p db t e)) refl
              (get_process-save_process pid p q db.processes found
                (get_process-id pid db.processes p found))
              (shown field p (save_process pid q db.processes) db))
    ]

-- In a sound database, where the operator's program sends one bottle more than the list of
-- processes shows: if the order has more bottles than are counted, the server takes it and lists
-- the row with that count one higher and nothing else of what is listed changed; if not, it refuses
-- it.
pub update_process-Told :
    (h : Host) (field : QtyField) (pid : ℕ) (row : ProcessRow) (db : Db)
    → Sound h db
    → get_process pid db.processes ≡ some row
    → Told field pid row db
        (update_process pid (count_request field (qty field (listed db row) + 1)) db)
unfolding update_process
update_process-Told h field pid row db i found =
    let body = count_request field (qty field (listed db row) + 1) in
    subst (λ o. Told field pid row db (update_found pid body db o)) (sym found)
      (update_found-Told field pid row db found
        (All-get_process (Fits db.orders) pid db.processes row i.fits found))
