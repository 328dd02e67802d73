-- ===== src/Server/Started.antt =====
-- Which process runs behind a start.
use iot_repo.Base.{
  ℕ, ◌≤◌, ◌≡◌, refl, true, Bool-cases, inl, inr, List, [], ◌∷◌, Option, none, some, ◌==◌, arith,
}
use iot_repo.Server.{Host, ProcessRow, Db, process_not_found, Outcome, returned, raised}
use iot_repo.Server.Processes.{
  get_process, save_process, is_running, or_now, pause_running, get_running_process, pause_other,
  started_at, start_found, start_process,
}
use iot_repo.Server.Running.{
  running_count, get_process-id, get_process-save_process, started-running_count,
}
use iot_repo.Server.Sound.{Sound}

runs_counted :
    (k : ℕ) (ps : List ProcessRow) (r : ProcessRow)
    → get_process k ps ≡ some r
    → is_running r.status ≡ true
    → 1 ≤ running_count ps
unfolding get_process
runs_counted k [] r e t = cc
runs_counted k (p ∷ ps) r e t = ground (arith, runs_counted k ps r, t)

-- Where one row runs at most, two that run are the same.
one_runs_lem :
    (j k : ℕ) (ps : List ProcessRow) (p q : ProcessRow)
    → running_count ps ≤ 1
    → get_process j ps ≡ some p
    → is_running p.status ≡ true
    → get_process k ps ≡ some q
    → is_running q.status ≡ true
    → j ≡ k
unfolding get_process
one_runs_lem j k [] p q one a s b t = cc
one_runs_lem j k (x ∷ ps) p q one a s b t =
    ground
      (arith, one_runs_lem j k ps p q, runs_counted j ps p, runs_counted k ps q, one, a, s, b, t)

-- What a start does.
pub data Started (pid now : ℕ) (db : Db) (o : Outcome ProcessRow) : Type 0 where
  not_there :
      get_process pid db.processes ≡ none → o ≡ raised process_not_found → Started pid now db o
  starts :
      {p q : ProcessRow} {new : Db}
      → get_process pid db.processes ≡ some p
      → o ≡ returned q new
      → get_process pid new.processes ≡ some q
      → is_running q.status ≡ true
      → (q.start_time ≡ or_now now p.start_time) × (q.end_time ≡ none)
      → ((k : ℕ) (r : ProcessRow)
          → get_process k new.processes ≡ some r
          → is_running r.status ≡ true
          → k ≡ pid)
      → Started pid now db o

get_process-pause_running :
    (pid now : ℕ) (ps : List ProcessRow) (p : ProcessRow)
    → get_process pid ps ≡ some p
    → (q : ProcessRow) × (get_process pid (pause_running now ps) ≡ some q)
unfolding get_process pause_running
get_process-pause_running pid now [] p e = cc
get_process-pause_running pid now (x ∷ ps) p e = elim (Bool-cases (is_running x.status)) [
  | inl runs ↦ rw runs (elim (Bool-cases (x.process_id == pid)) [
    | inl same ↦ rw same (_, refl)
    | inr other ↦ rw other (p, ground (arith, other, e))
  ])
  | inr waits ↦ rw waits (elim (Bool-cases (x.process_id == pid)) [
    | inl same ↦ rw same (x, refl)
    | inr other ↦ rw other (get_process-pause_running pid now ps p (ground (arith, other, e)))
  ])
]

get_process-pause_other :
    (pid now : ℕ) (o : Option ProcessRow) (ps : List ProcessRow) (p : ProcessRow)
    → get_process pid ps ≡ some p
    → (q : ProcessRow) × (get_process pid (pause_other pid now o ps) ≡ some q)
get_process-pause_other pid now none ps p e = (p, e)
get_process-pause_other pid now (some r) ps p e = elim (Bool-cases (r.process_id == pid)) [
  | inl same ↦ rw same (p, e)
  | inr other ↦ rw other (get_process-pause_running pid now ps p e)
]

start_found-Started :
    (h : Host) (pid now : ℕ) (db : Db) (o : Option ProcessRow)
    → get_process pid db.processes ≡ o
    → Sound h db
    → Started pid now db (start_found pid now db o)
start_found-Started h pid now db none e i = not_there e refl
start_found-Started h pid now db (some p) e i =
    let r = get_running_process db.processes in
    let q = started_at now p in
    let kept = get_process-pause_other pid now r db.processes p e in
    let there : get_process pid (save_process pid q (pause_other pid now r db.processes)) ≡ some q =
      get_process-save_process pid kept.0 q (pause_other pid now r db.processes) kept.1
        (get_process-id pid db.processes p e) in
    let one : running_count (save_process pid q (pause_other pid now r db.processes)) ≤ 1 =
      started-running_count pid now db.next_process_id q r db.processes refl i.falling i.one_runs in
    starts e refl there refl (refl, refl)
      (λ k x found runs.
        one_runs_lem k pid (save_process pid q (pause_other pid now r db.processes)) x q one found
          runs there refl)

-- In a sound database, starting a process that is not there raises and changes nothing; starting
-- one that is there has it running, with the time of its first start and without an end, and no
-- other process runs.
pub start_process-Started :
    (h : Host) (pid now : ℕ) (db : Db) → Sound h db → Started pid now db (start_process pid now db)
unfolding start_process
start_process-Started h pid now db i =
    start_found-Started h pid now db (get_process pid db.processes) refl i
