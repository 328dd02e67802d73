-- ===== src/Server/Workers.antt =====
-- soy-server/app/services/workers.py and app/auth.py: workers, the log of the door, and the
-- administrator's password.
use iot_repo.Base.{
  ℕ, ◌+◌, Bool, true, false, not, ◌&&◌, ◌||◌, List, [], ◌∷◌, Option, none, some, ◌==◌,
  if◌then◌else◌, take, length,
}
use iot_repo.Base.Text.{Bytes, codes, bytes_eq}
use iot_repo.Operator.Words.{strip, is_empty}
use iot_repo.Server.{
  Host, Worker, AccessLog, Admin, Db, worker_not_found, worker_create_conflict, integrity_error,
  no_admin, password_set, Outcome, returned, raised,
}

unfoldable pub get_worker : ℕ → List Worker → Option Worker
get_worker wid [] = none
get_worker wid (u ∷ us) =
    let rest = get_worker wid us in if u.worker_id == wid then some u else rest

unfoldable pub save_worker : ℕ → Worker → List Worker → List Worker
save_worker wid v [] = []
save_worker wid v (u ∷ us) =
    let rest = save_worker wid v us in if u.worker_id == wid then v ∷ us else u ∷ rest

unfoldable pub remove_worker : ℕ → List Worker → List Worker
remove_worker wid [] = []
remove_worker wid (u ∷ us) =
    let rest = remove_worker wid us in if u.worker_id == wid then us else u ∷ rest

unfoldable pub has_admin : ℕ → List Admin → Bool
has_admin aid [] = false
has_admin aid (a ∷ bs) = let rest = has_admin aid bs in if a.admin_id == aid then true else rest

-- Whether a log refers to the worker.
unfoldable pub is_logged : ℕ → List AccessLog → Bool
is_logged wid [] = false
is_logged wid (l ∷ ls) = let rest = is_logged wid ls in if l.worker_id == wid then true else rest

abbrev pub get_first_admin_id : List Admin → Option ℕ
get_first_admin_id [] = none
get_first_admin_id (a ∷ bs) = some a.admin_id

abbrev pub count_admins : List Admin → ℕ
count_admins bs = length bs

-- first_admin_needs_password.
abbrev pub first_admin_needs_password : List Admin → Bool
first_admin_needs_password [] = false
first_admin_needs_password (a ∷ bs) = is_empty (strip a.password_hash)

-- delete_worker; a worker that a log refers to stays.
abbrev pub delete_found : ℕ → Db → Option Worker → Outcome Unit
delete_found wid db none = raised worker_not_found
delete_found wid db (some u) =
    if is_logged wid db.access_logs
    then raised integrity_error
    else returned tt (record db { workers = remove_worker wid db.workers })

unfoldable pub delete_worker : ℕ → Db → Outcome Unit
unfolding get_worker is_logged remove_worker
delete_worker wid db = delete_found wid db (get_worker wid db.workers)

-- False for a direction that the log does not know.
unfoldable pub create_access_log : ℕ → Option Bytes → ℕ → Db → Option Db
create_access_log wid none now db = none
create_access_log wid (some direction) now db =
    if bytes_eq direction (codes "enter") || bytes_eq direction (codes "exit")
    then some (record db {
      access_logs =
          record { worker_id = wid; direction = direction; checked_at = now } ∷ db.access_logs;
    })
    else none

module _ (h : Host) where
  abbrev pub same_text : Bytes → Bytes → Bool
  same_text a b = bytes_eq (h.collation a) (h.collation b)

  -- Whether another worker has the card.
  unfoldable pub is_taken : ℕ → Bytes → List Worker → Bool
  is_taken wid uid [] = false
  is_taken wid uid (u ∷ us) =
      (not (u.worker_id == wid) && same_text u.card_uid uid) || is_taken wid uid us

  unfoldable pub create_worker : ℕ → Bytes → Bytes → Db → Outcome Worker
  unfolding has_admin is_taken strip
  create_worker aid name uid db =
      let u : Worker = record {
        worker_id = db.next_worker_id;
        admin_id = aid;
        name = strip name;
        card_uid = strip uid;
      } in
      if not (has_admin aid db.admins)
      then raised integrity_error
      else if is_taken u.worker_id u.card_uid db.workers
      then raised worker_create_conflict
      else returned u
          (record db { workers = u ∷ db.workers; next_worker_id = db.next_worker_id + 1 })

  abbrev pub stripped_or : Bytes → Option Bytes → Bytes
  stripped_or old none = old
  stripped_or old (some text) = strip text

  abbrev pub update_worker_found :
      ℕ → Option Bytes → Option Bytes → Db → Option Worker → Outcome Worker
  update_worker_found wid name uid db none = raised worker_not_found
  update_worker_found wid name uid db (some u) =
      let v = record u { name = stripped_or u.name name; card_uid = stripped_or u.card_uid uid } in
      if is_taken v.worker_id v.card_uid db.workers
      then raised worker_create_conflict
      else returned v (record db { workers = save_worker wid v db.workers })

  unfoldable pub update_worker : ℕ → Option Bytes → Option Bytes → Db → Outcome Worker
  unfolding get_worker save_worker is_taken
  update_worker wid name uid db = update_worker_found wid name uid db (get_worker wid db.workers)

  unfoldable pub find_card : Bytes → List Worker → Option Worker
  find_card uid [] = none
  find_card uid (u ∷ us) =
      let rest = find_card uid us in if same_text u.card_uid uid then some u else rest

  unfoldable pub get_worker_by_card_uid : Bytes → Db → Option Worker
  unfolding find_card strip
  get_worker_by_card_uid uid db = find_card (strip uid) db.workers

  -- _password_bytes.
  abbrev pub password_bytes : Bytes → Bytes
  password_bytes plain = take 72 (h.encode plain)

  abbrev pub verify_first : Bytes → List Admin → Bool
  verify_first plain [] = false
  verify_first plain (a ∷ bs) =
      not (is_empty a.password_hash) && h.checkpw (password_bytes plain) a.password_hash

  abbrev pub verify_admin_password : Bytes → Db → Bool
  verify_admin_password plain db = verify_first plain db.admins

  abbrev pub set_first : Bytes → Db → List Admin → Outcome Unit
  set_first hashed db [] = raised no_admin
  set_first hashed db (a ∷ bs) =
      if is_empty (strip a.password_hash)
      then returned tt (record db { admins = record a { password_hash = hashed } ∷ bs })
      else raised password_set

  abbrev pub set_first_admin_password : Bytes → ℕ → Db → Outcome Unit
  set_first_admin_password plain salt db =
      set_first (h.hashpw (password_bytes (strip plain)) salt) db db.admins
