-- ===== src/Server/Cards.antt =====
-- Rows of workers: their keys, their cards, and the log that refers to them.
use iot_repo.Base.{
  ℕ, ◌<◌, ◌≡◌, refl, subst, false, Bool-cases, inl, inr, List, [], ◌∷◌, some, ◌==◌, All, arith,
}
use iot_repo.Base.Text.{Bytes, bytes_eq}
use iot_repo.Server.{Worker, AccessLog}
use iot_repo.Server.Workers.{get_worker, save_worker, remove_worker, is_logged}

abbrev pub Keys : ℕ → List Worker → Type 0
Keys bound [] = Unit
Keys bound (u ∷ us) = (u.worker_id < bound) × Keys u.worker_id us

-- A log stays with a worker who is there.
abbrev pub Known : List Worker → AccessLog → Type 0
Known us l = (u : Worker) × (get_worker l.worker_id us ≡ some u)

pub bytes_eq_sym : (a b : Bytes) → bytes_eq a b ≡ bytes_eq b a
bytes_eq_sym [] [] = refl
bytes_eq_sym [] (d ∷ b) = refl
bytes_eq_sym (c ∷ a) [] = refl
bytes_eq_sym (c ∷ a) (d ∷ b) = ground (arith, bytes_eq_sym a b)

pub get_worker-id :
    (wid : ℕ) (us : List Worker) (u : Worker) → get_worker wid us ≡ some u → u.worker_id ≡ wid
unfolding get_worker
get_worker-id wid [] u e = cc
get_worker-id wid (v ∷ us) u e = ground (arith, get_worker-id wid us u)

pub save_worker-Keys :
    (wid : ℕ) (v : Worker) (bound : ℕ) (us : List Worker)
    → v.worker_id ≡ wid
    → Keys bound us
    → Keys bound (save_worker wid v us)
unfolding save_worker
save_worker-Keys wid v bound [] e h = tt
save_worker-Keys wid v bound (u ∷ us) e (a, h) = elim (Bool-cases (u.worker_id == wid)) [
  | inl same ↦ rw same (ground arith, subst (λ k. Keys k us) (ground arith) h)
  | inr other ↦ rw other (a, save_worker-Keys wid v u.worker_id us e h)
]

Keys-below : (a b : ℕ) (us : List Worker) → a < b → Keys a us → Keys b us
Keys-below a b [] h k = tt
Keys-below a b (u ∷ us) h (c, k) = (omega (arith, h, c), k)

pub remove_worker-Keys :
    (wid bound : ℕ) (us : List Worker) → Keys bound us → Keys bound (remove_worker wid us)
unfolding remove_worker
remove_worker-Keys wid bound [] h = tt
remove_worker-Keys wid bound (u ∷ us) (a, h) = elim (Bool-cases (u.worker_id == wid)) [
  | inl same ↦ rw same (Keys-below u.worker_id bound us a h)
  | inr other ↦ rw other (a, remove_worker-Keys wid u.worker_id us h)
]

save_worker-Known :
    (wid : ℕ) (v : Worker) (us : List Worker) (l : AccessLog)
    → v.worker_id ≡ wid
    → Known us l
    → Known (save_worker wid v us) l
unfolding save_worker get_worker
save_worker-Known wid v [] l e (u, k) = cc
save_worker-Known wid v (x ∷ us) l e (u, k) = elim (Bool-cases (x.worker_id == l.worker_id)) [
  | inl it ↦ elim (Bool-cases (x.worker_id == wid)) [
    | inl same ↦ rw same (v, ground (arith, it, same, e))
    | inr other ↦ rw (other, it) (x, refl)
  ]
  | inr not_it ↦ elim (Bool-cases (x.worker_id == wid)) [
    | inl same ↦ rw same (u, ground (arith, not_it, same, e, k))
    | inr other ↦ rw (other, not_it) (save_worker-Known wid v us l e (u, ground (arith, not_it, k)))
  ]
]

remove_worker-Known :
    (wid : ℕ) (us : List Worker) (l : AccessLog)
    → (l.worker_id == wid) ≡ false
    → Known us l
    → Known (remove_worker wid us) l
unfolding remove_worker get_worker
remove_worker-Known wid [] l e (u, k) = cc
remove_worker-Known wid (x ∷ us) l e (u, k) = elim (Bool-cases (x.worker_id == wid)) [
  | inl same ↦ rw same (u, ground (arith, same, e, k))
  | inr other ↦ rw other (elim (Bool-cases (x.worker_id == l.worker_id)) [
    | inl it ↦ rw it (x, refl)
    | inr not_it ↦ rw not_it (remove_worker-Known wid us l e (u, ground (arith, not_it, k)))
  ])
]

pub All-create :
    (v : Worker) (us : List Worker) (ls : List AccessLog)
    → All (Known us) ls
    → All (Known (v ∷ us)) ls
unfolding get_worker
All-create v us [] h = tt
All-create v us (l ∷ ls) ((u, k), h) = (
  elim (Bool-cases (v.worker_id == l.worker_id)) [
    | inl it ↦ rw it (v, refl)
    | inr not_it ↦ rw not_it (u, k)
  ],
  All-create v us ls h,
)

pub All-save_worker :
    (wid : ℕ) (v : Worker) (us : List Worker) (ls : List AccessLog)
    → v.worker_id ≡ wid
    → All (Known us) ls
    → All (Known (save_worker wid v us)) ls
All-save_worker wid v us [] e h = tt
All-save_worker wid v us (l ∷ ls) e (k, h) =
    (save_worker-Known wid v us l e k, All-save_worker wid v us ls e h)

pub All-remove_worker :
    (wid : ℕ) (us : List Worker) (ls : List AccessLog)
    → is_logged wid ls ≡ false
    → All (Known us) ls
    → All (Known (remove_worker wid us)) ls
unfolding is_logged
All-remove_worker wid us [] e h = tt
All-remove_worker wid us (l ∷ ls) e (k, h) = elim (Bool-cases (l.worker_id == wid)) [
  | inl same ↦ absurd (ground (arith, same, e))
  | inr other ↦ (
    remove_worker-Known wid us l other k,
    All-remove_worker wid us ls (ground (arith, other, e)) h,
  )
]
