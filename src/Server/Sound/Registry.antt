-- ===== src/Server/Sound/Registry.antt =====
-- The services of workers and of the log and the rows of the database.
use iot_repo.Base.{
  ℕ, ◌≡◌, refl, ◌∙◌, sym, ap, subst, false, Bool-cases, inl, inr, List, [], ◌∷◌, Option, none, some,
  arith, ◌||◌,
}
use iot_repo.Base.Text.{Bytes, codes, bytes_eq}
use iot_repo.Operator.Words.{strip, is_empty}
use iot_repo.Server.{AccessLog, Host, Worker, AccessLog, Admin, Db}
use iot_repo.Server.Workers.{
  get_worker, delete_found, delete_worker, create_access_log, is_taken, is_logged, create_worker,
  update_worker_found, update_worker, set_first, has_admin, stripped_or,
}
use iot_repo.Server.Sound.{Sound, Keeps, keeps_returned, keeps_raised}
use iot_repo.Server.Cards.{
  get_worker-id, save_worker-Keys, remove_worker-Keys, All-create, All-save_worker,
  All-remove_worker,
}
use iot_repo.Server.Unique.{not_taken-Free, save_worker-Distinct, remove_worker-Distinct}

module _ (h : Host) where
  delete_found-Keeps :
      (wid : ℕ) (db : Db) (o : Option Worker) → Sound h db → Keeps h (delete_found wid db o)
  delete_found-Keeps wid db none i = keeps_raised
  delete_found-Keeps wid db (some u) i = elim (Bool-cases (is_logged wid db.access_logs)) [
    | inl used ↦ rw used keeps_raised
    | inr free ↦ rw free (
        keeps_returned (record {
          falling = i.falling;
          one_runs = i.one_runs;
          fits = i.fits;
          keys = remove_worker-Keys wid db.next_worker_id db.workers i.keys;
          distinct = remove_worker-Distinct h wid db.workers i.distinct;
          known = All-remove_worker wid db.workers db.access_logs free i.known;
        }))
  ]

  pub delete_worker-Keeps : (wid : ℕ) (db : Db) → Sound h db → Keeps h (delete_worker wid db)
  unfolding delete_worker
  delete_worker-Keeps wid db i = delete_found-Keeps wid db (get_worker wid db.workers) i

  pub create_worker-Keeps :
      (aid : ℕ) (name uid : Bytes) (db : Db)
      → Sound h db
      → Keeps h (create_worker h aid name uid db)
  unfolding create_worker
  create_worker-Keeps aid name uid db i = elim (Bool-cases (has_admin aid db.admins)) [
    | inr missing ↦ rw missing keeps_raised
    | inl there ↦ elim (Bool-cases (is_taken h db.next_worker_id (strip uid) db.workers)) [
      | inl taken ↦ rw (there, taken) keeps_raised
      | inr free ↦
          rw (there, free)
            (keeps_returned (record {
              falling = i.falling;
              one_runs = i.one_runs;
              fits = i.fits;
              keys = (omega arith, i.keys);
              distinct = (
                not_taken-Free h db.next_worker_id (strip uid) db.next_worker_id db.workers i.keys
                    (omega arith) free,
                i.distinct,
              );
              known = All-create _ db.workers db.access_logs i.known;
            }))
    ]
  ]

  update_worker_found-Keeps :
      (wid : ℕ) (name uid : Option Bytes) (db : Db) (o : Option Worker)
      → get_worker wid db.workers ≡ o
      → Sound h db
      → Keeps h (update_worker_found h wid name uid db o)
  update_worker_found-Keeps wid name uid db none e i = keeps_raised
  update_worker_found-Keeps wid name uid db (some u) e i =
      let v = record u {
        name = stripped_or h u.name name;
        card_uid = stripped_or h u.card_uid uid;
      } in
      let same : u.worker_id ≡ wid = get_worker-id wid db.workers u e in
      elim (Bool-cases (is_taken h u.worker_id v.card_uid db.workers)) [
        | inl taken ↦ rw taken keeps_raised
        | inr free ↦
            let free' : is_taken h wid v.card_uid db.workers ≡ false =
              ap (λ k. is_taken h k v.card_uid db.workers) (sym same) ∙ free in
            rw free (
              keeps_returned (record {
                falling = i.falling;
                one_runs = i.one_runs;
                fits = i.fits;
                keys = save_worker-Keys wid v db.next_worker_id db.workers same i.keys;
                distinct =
                    save_worker-Distinct h wid v db.next_worker_id db.workers i.keys free'
                      i.distinct;
                known = All-save_worker wid v db.workers db.access_logs same i.known;
              }))
      ]

  pub update_worker-Keeps :
      (wid : ℕ) (name uid : Option Bytes) (db : Db)
      → Sound h db
      → Keeps h (update_worker h wid name uid db)
  unfolding update_worker
  update_worker-Keeps wid name uid db i =
      update_worker_found-Keeps wid name uid db (get_worker wid db.workers) refl i

  -- The door's log is written for a worker that was found.
  pub create_access_log-Sound :
      (wid : ℕ) (u : Worker) (direction : Option Bytes) (now : ℕ) (db new : Db)
      → get_worker wid db.workers ≡ some u
      → create_access_log wid direction now db ≡ some new
      → Sound h db
      → Sound h new
  unfolding create_access_log
  create_access_log-Sound wid u none now db new there e i = cc
  create_access_log-Sound wid u (some direction) now db new there e i =
      elim (Bool-cases (bytes_eq direction (codes "enter") || bytes_eq direction (codes "exit"))) [
        | inl ok ↦
            let log : AccessLog = record {
              worker_id = wid;
              direction = direction;
              checked_at = now;
            } in
            let same : record db { access_logs = log ∷ db.access_logs } ≡ new =
              ground (arith, ok, e) in
            subst (Sound h) same (record {
              falling = i.falling;
              one_runs = i.one_runs;
              fits = i.fits;
              keys = i.keys;
              distinct = i.distinct;
              known = ((u, there), i.known);
            })
        | inr not_ok ↦ absurd (ground (arith, not_ok, e))
      ]

  pub set_first-Keeps :
      (hashed : Bytes) (db : Db) (as' : List Admin)
      → Sound h db
      → Keeps h (set_first h hashed db as')
  set_first-Keeps hashed db [] i = keeps_raised
  set_first-Keeps hashed db (a ∷ rest) i = elim (Bool-cases (is_empty (strip a.password_hash))) [
    | inl needed ↦ rw needed (
        keeps_returned (record {
          falling = i.falling;
          one_runs = i.one_runs;
          fits = i.fits;
          keys = i.keys;
          distinct = i.distinct;
          known = i.known;
        }))
    | inr set ↦ rw set keeps_raised
  ]
