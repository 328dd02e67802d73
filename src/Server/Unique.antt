-- ===== src/Server/Unique.antt =====
-- Rows of workers: no card twice, as the database compares texts.
use iot_repo.Base.{
  ℕ, ◌+◌, ◌<◌, ◌≡◌, refl, ◌∙◌, subst, true, false, Bool-cases, inl, inr, List, [], ◌∷◌, some, ◌==◌,
  All, arith,
}
use iot_repo.Base.Text.{Bytes}
use iot_repo.Server.{Host, Worker}
use iot_repo.Server.Workers.{get_worker, save_worker, remove_worker, same_text, is_taken, find_card}
use iot_repo.Server.Cards.{Keys, bytes_eq_sym}

module _ {κ} (P : Worker → Type κ) where
  All-remove : (wid : ℕ) (us : List Worker) → All P us → All P (remove_worker wid us)
  unfolding remove_worker
  All-remove wid [] h = tt
  All-remove wid (u ∷ us) (a, h) = elim (Bool-cases (u.worker_id == wid)) [
    | inl same ↦ rw same h
    | inr other ↦ rw other (a, All-remove wid us h)
  ]

  All-save :
      (wid : ℕ) (v : Worker) (us : List Worker) → P v → All P us → All P (save_worker wid v us)
  unfolding save_worker
  All-save wid v [] b h = tt
  All-save wid v (u ∷ us) b (a, h) = elim (Bool-cases (u.worker_id == wid)) [
    | inl same ↦ rw same (b, h)
    | inr other ↦ rw other (a, All-save wid v us b h)
  ]

module _ (h : Host) where
  abbrev pub Free : Bytes → Worker → Type 0
  Free uid u = same_text h u.card_uid uid ≡ false

  abbrev pub Distinct : List Worker → Type 0
  Distinct [] = Unit
  Distinct (u ∷ us) = All (Free u.card_uid) us × Distinct us

  -- The key of no row is the new one.
  pub not_taken-Free :
      (wid : ℕ) (uid : Bytes) (bound : ℕ) (us : List Worker)
      → Keys bound us
      → (bound < wid + 1)
      → is_taken h wid uid us ≡ false
      → All (Free uid) us
  unfolding is_taken
  not_taken-Free wid uid bound [] k b e = tt
  not_taken-Free wid uid bound (u ∷ us) (a, k) b e = (
    ground (arith, a, b, e),
    not_taken-Free wid uid u.worker_id us k (omega (arith, a, b)) (ground (arith, a, b, e)),
  )

  pub save_worker-Distinct :
      (wid : ℕ) (v : Worker) (bound : ℕ) (us : List Worker)
      → Keys bound us
      → is_taken h wid v.card_uid us ≡ false
      → Distinct us
      → Distinct (save_worker wid v us)
  unfolding save_worker is_taken
  save_worker-Distinct wid v bound [] k e d = tt
  save_worker-Distinct wid v bound (u ∷ us) (a, k) e (f, d) =
      elim (Bool-cases (u.worker_id == wid)) [
        | inl same ↦ rw same (
          not_taken-Free wid v.card_uid u.worker_id us k (ground (arith, same))
              (ground (arith, same, e)),
          d,
        )
        | inr other ↦ rw other (
          All-save (Free u.card_uid) wid v us
              (bytes_eq_sym (h.collation v.card_uid) (h.collation u.card_uid)
                ∙ ground (arith, other, e))
              f,
          save_worker-Distinct wid v u.worker_id us k (ground (arith, other, e)) d,
        )
      ]

  pub remove_worker-Distinct :
      (wid : ℕ) (us : List Worker) → Distinct us → Distinct (remove_worker wid us)
  unfolding remove_worker
  remove_worker-Distinct wid [] d = tt
  remove_worker-Distinct wid (u ∷ us) (f, d) = elim (Bool-cases (u.worker_id == wid)) [
    | inl same ↦ rw same d
    | inr other ↦ rw other (All-remove (Free u.card_uid) wid us f, remove_worker-Distinct wid us d)
  ]

  -- Whoever a card is of can be found by the key.
  pub find_card-Known :
      (uid : Bytes) (us : List Worker) (u : Worker)
      → find_card h uid us ≡ some u
      → (w : Worker) × (get_worker u.worker_id us ≡ some w)
  unfolding find_card get_worker
  find_card-Known uid [] u e = cc
  find_card-Known uid (v ∷ us) u e = elim (Bool-cases (v.worker_id == u.worker_id)) [
    | inl it ↦ rw it (v, refl)
    | inr not_it ↦ elim (Bool-cases (same_text h v.card_uid uid)) [
      | inl card ↦ absurd (ground (arith, not_it, card, e))
      | inr no_card ↦ rw not_it (find_card-Known uid us u (ground (arith, no_card, e)))
    ]
  ]

  -- Who is found has the card.
  pub find_card-same_text :
      (uid : Bytes) (us : List Worker) (u : Worker)
      → find_card h uid us ≡ some u
      → same_text h u.card_uid uid ≡ true
  unfolding find_card
  find_card-same_text uid [] u e = cc
  find_card-same_text uid (v ∷ us) u e = elim (Bool-cases (same_text h v.card_uid uid)) [
    | inl card ↦
        let same : v ≡ u = ground (arith, card, e) in
        subst (λ (x : Worker). same_text h x.card_uid uid ≡ true) same card
    | inr no_card ↦ find_card-same_text uid us u (ground (arith, no_card, e))
  ]
