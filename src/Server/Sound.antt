-- ===== src/Server/Sound.antt =====
-- The services of processes and the rows of the database.
pub mod Deliveries
pub mod Registry
pub mod Kept
pub mod Serving
use iot_repo.Base.{
  ℕ, ◌+◌, ◌≤◌, ◌≡◌, refl, ◌∙◌, sym, ap, subst, Bool, true, false, not, Bool-cases, Option-cases,
  inl, inr, List, [], ◌∷◌, Option, none, some, ltb, if◌then◌else◌, All, arith, ◌||◌,
}
use iot_repo.Base.Text.{Bytes, codes, bytes_eq}
use iot_repo.Operator.Words.{strip, is_empty}
use iot_repo.Server.{
  Host, running, ProcessRow, OrderRow, Worker, AccessLog, Admin, Db, Failure, Outcome, returned,
  raised, RequestBody, is_delivered,
}
use iot_repo.Server.Processes.{
  get_process, get_order_row, order_total, get_running_process, pause_other, started_at,
  start_found, start_process, stop_found, stop_process, paused_at, counted, exceeds, update_found,
  update_process, is_running, save_process, classified_total,
}
use iot_repo.Server.Orders.{
  deliver_found, set_order_delivered_and_create_process, or_refused, pending_found,
  set_order_status, new_process, save_status,
}
use iot_repo.Server.Workers.{
  get_worker, delete_found, delete_worker, create_access_log, is_taken, is_logged, create_worker,
  update_worker_found, update_worker, find_card, get_worker_by_card_uid, set_first, has_admin,
  stripped_or,
}
use iot_repo.Server.Running.{
  Falling, running_count, get_process-id, save_process-Falling, save_process-waiting,
  save_process-same, pause_other-Falling, started-running_count,
}
use iot_repo.Server.Totals.{
  Fits, All-get_process, All-save_process, All-pause_other, All-save_status, new_process-Fits,
}
use iot_repo.Server.Cards.{
  Keys, Known, get_worker-id, save_worker-Keys, remove_worker-Keys, All-create, All-save_worker,
  All-remove_worker,
}
use iot_repo.Server.Unique.{
  Distinct, not_taken-Free, save_worker-Distinct, remove_worker-Distinct, find_card-Known,
}

-- One process runs at most; no process has more bottles than its order, which is there; no card is
-- registered twice; every log is of a worker who is there; and the keys are in order.
pub record Sound (h : Host) (db : Db) : Type 0 where
  pub falling : Falling db.next_process_id db.processes
  pub one_runs : running_count db.processes ≤ 1
  pub fits : All (Fits db.orders) db.processes
  pub keys : Keys db.next_worker_id db.workers
  pub distinct : Distinct h db.workers
  pub known : All (Known db.workers) db.access_logs

module _ (h : Host) where
  -- What a service leaves where it returns.
  pub data Keeps {A : Type 0} : Outcome A → Type 0 where
    keeps_returned : {a : A} {db : Db} → Sound h db → Keeps (returned a db)
    keeps_raised : {e : Failure} → Keeps (raised e)

  start_found-Keeps :
      (pid now : ℕ) (db : Db) (o : Option ProcessRow)
      → get_process pid db.processes ≡ o
      → Sound h db
      → Keeps (start_found pid now db o)
  start_found-Keeps pid now db none e i = keeps_raised
  start_found-Keeps pid now db (some p) e i =
      let q = started_at now p in
      let r = get_running_process db.processes in
      keeps_returned (record {
        falling =
            save_process-Falling pid q db.next_process_id (pause_other pid now r db.processes)
              (get_process-id pid db.processes p e)
              (pause_other-Falling pid now db.next_process_id r db.processes i.falling);
        one_runs =
            started-running_count pid now db.next_process_id q r db.processes refl i.falling
              i.one_runs;
        fits =
            All-save_process (Fits db.orders) pid q (pause_other pid now r db.processes)
              (All-get_process (Fits db.orders) pid db.processes p i.fits e)
              (All-pause_other db.orders pid now r db.processes i.fits);
        keys = i.keys;
        distinct = i.distinct;
        known = i.known;
      })

  pub start_process-Keeps : (pid now : ℕ) (db : Db) → Sound h db → Keeps (start_process pid now db)
  unfolding start_process
  start_process-Keeps pid now db i =
      start_found-Keeps pid now db (get_process pid db.processes) refl i

  stop_found-Keeps :
      (pid now : ℕ) (db : Db) (o : Option ProcessRow)
      → get_process pid db.processes ≡ o
      → Sound h db
      → Keeps (stop_found pid now db o)
  stop_found-Keeps pid now db none e i = keeps_raised
  stop_found-Keeps pid now db (some p) e i =
      let q = paused_at now p in
      keeps_returned (record {
        falling =
            save_process-Falling pid q db.next_process_id db.processes
              (get_process-id pid db.processes p e) i.falling;
        one_runs = omega (arith, save_process-waiting pid q db.processes refl, i.one_runs);
        fits =
            All-save_process (Fits db.orders) pid q db.processes
              (All-get_process (Fits db.orders) pid db.processes p i.fits e) i.fits;
        keys = i.keys;
        distinct = i.distinct;
        known = i.known;
      })

  pub stop_process-Keeps : (pid now : ℕ) (db : Db) → Sound h db → Keeps (stop_process pid now db)
  unfolding stop_process
  stop_process-Keeps pid now db i =
      stop_found-Keeps pid now db (get_process pid db.processes) refl i

  -- What does not exceed fits.
  counted-Fits :
      (orders : List OrderRow) (p q : ProcessRow)
      → q.order_id ≡ p.order_id
      → Fits orders p
      → exceeds q (order_total q.order_id orders) ≡ false
      → Fits orders q
  counted-Fits orders p q same (t, (e, b)) ok =
      let there : order_total q.order_id orders ≡ some t =
        ap (λ k. order_total k orders) same ∙ e in
      let no : exceeds q (some t) ≡ false = ap (exceeds q) (sym there) ∙ ok in
      (t, (there, ground (arith, no)))

  update_found-Keeps :
      (pid : ℕ) (body : RequestBody) (db : Db) (o : Option ProcessRow)
      → get_process pid db.processes ≡ o
      → Sound h db
      → Keeps (update_found pid body db o)
  update_found-Keeps pid body db none e i = keeps_raised
  update_found-Keeps pid body db (some p) e i =
      let q = counted body p in
      elim (Bool-cases (exceeds q (order_total q.order_id db.orders))) [
        | inl more ↦ rw more keeps_raised
        | inr ok ↦ rw ok (
            keeps_returned (record {
              falling =
                  save_process-Falling pid q db.next_process_id db.processes
                    (get_process-id pid db.processes p e) i.falling;
              one_runs = omega (arith, save_process-same pid p q db.processes e refl, i.one_runs);
              fits =
                  All-save_process (Fits db.orders) pid q db.processes
                    (counted-Fits db.orders p q refl
                      (All-get_process (Fits db.orders) pid db.processes p i.fits e) ok)
                    i.fits;
              keys = i.keys;
              distinct = i.distinct;
              known = i.known;
            }))
      ]

  pub update_process-Keeps :
      (pid : ℕ) (body : RequestBody) (db : Db) → Sound h db → Keeps (update_process pid body db)
  unfolding update_process
  update_process-Keeps pid body db i =
      update_found-Keeps pid body db (get_process pid db.processes) refl i
