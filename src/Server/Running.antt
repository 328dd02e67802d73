-- ===== src/Server/Running.antt =====
-- Rows of processes: their keys, and how many of them run.
use iot_repo.Base.{
  ℕ, suc, ◌+◌, ◌-◌, ◌≤◌, ◌<◌, ◌≡◌, refl, ap, subst, Bool, true, false, Bool-cases, inl, inr, List,
  [], ◌∷◌, Option, none, some, ◌==◌, arith,
}
use iot_repo.Server.{ProcessRow}
use iot_repo.Server.Processes.{
  is_running, get_process, save_process, get_running_process, pause_running, pause_other,
}

-- The keys fall from the newest row on, all below the next key.
abbrev pub Falling : ℕ → List ProcessRow → Type 0
Falling bound [] = Unit
Falling bound (p ∷ ps) = (p.process_id < bound) × Falling p.process_id ps

abbrev pub one_if : Bool → ℕ
one_if true = 1
one_if false = 0

abbrev pub running_count : List ProcessRow → ℕ
running_count [] = 0
running_count (p ∷ ps) = one_if (is_running p.status) + running_count ps

pub get_process-id :
    (pid : ℕ) (ps : List ProcessRow) (p : ProcessRow)
    → get_process pid ps ≡ some p
    → p.process_id ≡ pid
unfolding get_process
get_process-id pid [] p e = cc
get_process-id pid (q ∷ ps) p e = ground (arith, get_process-id pid ps p)

pub get_process-save_process :
    (pid : ℕ) (p q : ProcessRow) (ps : List ProcessRow)
    → get_process pid ps ≡ some p
    → q.process_id ≡ pid
    → get_process pid (save_process pid q ps) ≡ some q
unfolding get_process save_process
get_process-save_process pid p q [] found e = cc
get_process-save_process pid p q (r ∷ ps) found e = elim (Bool-cases (r.process_id == pid)) [
  | inl same ↦ rw same (ground (arith, e))
  | inr other ↦
      rw (other, other) (get_process-save_process pid p q ps (ground (arith, other, found)) e)
]

-- Saving a row under its own key keeps the keys.
pub save_process-Falling :
    (pid : ℕ) (q : ProcessRow) (bound : ℕ) (ps : List ProcessRow)
    → q.process_id ≡ pid
    → Falling bound ps
    → Falling bound (save_process pid q ps)
unfolding save_process
save_process-Falling pid q bound [] e h = tt
save_process-Falling pid q bound (p ∷ ps) e (a, h) = elim (Bool-cases (p.process_id == pid)) [
  | inl same ↦ rw same (ground arith, subst (λ k. Falling k ps) (ground arith) h)
  | inr other ↦ rw other (a, save_process-Falling pid q p.process_id ps e h)
]

pub pause_running-Falling :
    (now bound : ℕ) (ps : List ProcessRow) → Falling bound ps → Falling bound (pause_running now ps)
unfolding pause_running
pause_running-Falling now bound [] h = tt
pause_running-Falling now bound (p ∷ ps) (a, h) = elim (Bool-cases (is_running p.status)) [
  | inl runs ↦ rw runs (a, h)
  | inr waits ↦ rw waits (a, pause_running-Falling now p.process_id ps h)
]

-- One more row runs at most.
save_process-running_count :
    (pid : ℕ) (q : ProcessRow) (ps : List ProcessRow)
    → running_count (save_process pid q ps) ≤ suc (running_count ps)
unfolding save_process
save_process-running_count pid q [] = omega arith
save_process-running_count pid q (p ∷ ps) = ground (arith, save_process-running_count pid q ps)

get_running_process-none :
    (ps : List ProcessRow) → get_running_process ps ≡ none → running_count ps ≡ 0
unfolding get_running_process
get_running_process-none [] e = refl
get_running_process-none (p ∷ ps) e = ground (arith, get_running_process-none ps)

pause_running-running_count :
    (now : ℕ) (ps : List ProcessRow) → running_count (pause_running now ps) ≡ running_count ps - 1
unfolding pause_running
pause_running-running_count now [] = refl
pause_running-running_count now (p ∷ ps) = ground (arith, pause_running-running_count now ps)

-- A row saved that runs no more does not add to them, and one that runs as before changes nothing.
pub save_process-waiting :
    (pid : ℕ) (q : ProcessRow) (ps : List ProcessRow)
    → is_running q.status ≡ false
    → running_count (save_process pid q ps) ≤ running_count ps
unfolding save_process
save_process-waiting pid q [] waits = omega arith
save_process-waiting pid q (p ∷ ps) waits = ground (arith, save_process-waiting pid q ps waits)

pub save_process-same :
    (pid : ℕ) (p q : ProcessRow) (ps : List ProcessRow)
    → get_process pid ps ≡ some p
    → q.status ≡ p.status
    → running_count (save_process pid q ps) ≡ running_count ps
unfolding save_process get_process
save_process-same pid p q [] found e = cc
save_process-same pid p q (r ∷ ps) found e = elim (Bool-cases (r.process_id == pid)) [
  | inl same ↦ rw same (ap (λ t. one_if (is_running t) + running_count ps) (ground (arith, found)))
  | inr other ↦ rw other (
      ap (λ n. one_if (is_running r.status) + n)
        (save_process-same pid p q ps (ground (arith, found)) e))
]

get_running_process-Falling :
    (bound : ℕ) (ps : List ProcessRow) (r : ProcessRow)
    → Falling bound ps
    → get_running_process ps ≡ some r
    → r.process_id < bound
unfolding get_running_process
get_running_process-Falling bound [] r h e = cc
get_running_process-Falling bound (p ∷ ps) r (a, h) e =
    ground (arith, get_running_process-Falling p.process_id ps r h)

-- Where the row itself is the one that runs, it stays the only one.
save_process-only :
    (pid bound : ℕ) (q r : ProcessRow) (ps : List ProcessRow)
    → Falling bound ps
    → running_count ps ≤ 1
    → get_running_process ps ≡ some r
    → r.process_id ≡ pid
    → running_count (save_process pid q ps) ≤ 1
unfolding save_process get_running_process
save_process-only pid bound q r [] h one e same = omega arith
save_process-only pid bound q r (p ∷ ps) (a, h) one e same =
    elim (Bool-cases (is_running p.status)) [
      | inl runs ↦ ground (arith, runs, e, one, same)
      | inr waits ↦
          let below = get_running_process-Falling p.process_id ps r h (ground (arith, waits, e)) in
          let rest =
            save_process-only pid p.process_id q r ps h (ground (arith, waits, one))
              (ground (arith, waits, e)) same in
          ground (arith, below, rest, waits, same)
    ]

pub pause_other-Falling :
    (pid now bound : ℕ) (o : Option ProcessRow) (ps : List ProcessRow)
    → Falling bound ps
    → Falling bound (pause_other pid now o ps)
pause_other-Falling pid now bound none ps h = h
pause_other-Falling pid now bound (some r) ps h = elim (Bool-cases (r.process_id == pid)) [
  | inl same ↦ rw same h
  | inr other ↦ rw other (pause_running-Falling now bound ps h)
]

-- Behind a start one process runs at most, whatever was started.
pub started-running_count :
    (pid now bound : ℕ) (q : ProcessRow) (o : Option ProcessRow) (ps : List ProcessRow)
    → get_running_process ps ≡ o
    → Falling bound ps
    → running_count ps ≤ 1
    → running_count (save_process pid q (pause_other pid now o ps)) ≤ 1
started-running_count pid now bound q none ps e h one =
    grind (arith, save_process-running_count pid q ps, get_running_process-none ps e)
started-running_count pid now bound q (some r) ps e h one =
    elim (Bool-cases (r.process_id == pid)) [
      | inl same ↦ rw same (save_process-only pid bound q r ps h one e (ground (arith, same)))
      | inr other ↦ rw other (
          grind (
            arith,
            save_process-running_count pid q (pause_running now ps),
            pause_running-running_count now ps,
          ))
    ]
