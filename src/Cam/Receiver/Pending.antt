-- ===== src/Cam/Receiver/Pending.antt =====
-- Which chunks of a frame are stored between two packets.
use mathlib.Core.List.{Permᴰ}
use iot_repo.Base.{
  ℕ, zero, suc, ◌+◌, ◌<◌, ◌≡◌, ◌∙◌, ◌⊎◌, inl, inr, refl, ap, ap₂, sym, List, [], ◌∷◌, ◌++◌, none,
  some, ◌==◌, ltb, lookup, insert, lookup-insert, arith, Bool-cases, ltb→lt, ==_iff,
}
use iot_repo.Base.Text.{Bytes}
use iot_repo.Cam.Udp.{payload}
use iot_repo.Cam.Udp.Chunks.{payloads}
use iot_repo.Cam.Receiver.Indices.{count, count-Permᴰ, indices, count-indices}
use iot_repo.Cam.Receiver.{chunk, join}

-- What an index of the frame is between two packets: still to come, or stored.
pub Pending : Bytes → ℕ → List ℕ → List (ℕ × Bytes) → ℕ → Type 0
Pending buf total rest chunks i =
    ((count i rest ≡ 1) × (i < total) × (lookup i chunks ≡ none))
    ⊎ ((count i rest ≡ 0) × (i < total → lookup i chunks ≡ some (payload buf i)))

head-count : (j : ℕ) (rest : List ℕ) → 0 < count j (j ∷ rest)
unfolding count
head-count j rest = ground arith

pub head-Pending :
    (buf : Bytes) (total j : ℕ) (rest : List ℕ) (chunks : List (ℕ × Bytes))
    → Pending buf total (j ∷ rest) chunks j
    → (count j rest ≡ 0) × (j < total) × (lookup j chunks ≡ none)
unfolding Pending count
head-Pending buf total j rest chunks h = elim h [
  | inl to_come ↦ (ground (arith, to_come.0), to_come.1, to_come.2)
  | inr stored ↦ ground (arith, stored.0)
]

-- Storing the chunk that came leaves the others as they were.
pub insert-Pending :
    (buf : Bytes) (total j : ℕ) (rest : List ℕ) (chunks : List (ℕ × Bytes)) (i : ℕ)
    → Pending buf total (j ∷ rest) chunks j
    → Pending buf total (j ∷ rest) chunks i
    → Pending buf total rest (insert j (payload buf j) chunks) i
unfolding Pending count
insert-Pending buf total j rest chunks i hj hi = elim (Bool-cases (j == i)) [
  | inl same ↦ inr (
    ap (λ k. count k rest) (sym ((==_iff j i).0 same))
        ∙ (head-Pending buf total j rest chunks hj).0,
    λ _. lookup-insert j i (payload buf j) chunks ∙ rw (same, (==_iff j i).0 same) refl,
  )
  | inr other ↦
      let kept : lookup i (insert j (payload buf j) chunks) ≡ lookup i chunks =
        lookup-insert j i (payload buf j) chunks ∙ rw other refl in
      let counted : count i (j ∷ rest) ≡ count i rest = rw other (omega arith) in
      elim hi [
        | inl to_come ↦ inl (sym counted ∙ to_come.0, to_come.1, kept ∙ to_come.2)
        | inr stored ↦ inr (sym counted ∙ stored.0, λ lt. kept ∙ stored.1 lt)
      ]
]

pub first_Pending :
    (buf : Bytes) (total : ℕ) (order : List ℕ) (i : ℕ)
    → Permᴰ order (indices total 0)
    → Pending buf total order [] i
unfolding Pending lookup
first_Pending buf total order i p = elim (Bool-cases (ltb i total)) [
  | inl lt ↦
      inl (count-Permᴰ i p ∙ count-indices i total 0 ∙ ground (arith, lt), ltb→lt i total lt, refl)
  | inr ge ↦
      inr (
        count-Permᴰ i p ∙ count-indices i total 0 ∙ ground (arith, ge),
        λ lt. ground (arith, lt, ge),
      )
]

chunk-lookup :
    (i : ℕ) (part : Bytes) (chunks : List (ℕ × Bytes))
    → lookup i chunks ≡ some part
    → chunk i chunks ≡ part
unfolding chunk
chunk-lookup i part chunks h = rw (chunk, h) refl

-- The chunks that are there make up the frame.
pub join-payloads :
    (buf : Bytes) (chunks : List (ℕ × Bytes)) (left i : ℕ)
    → ((j : ℕ) → j < i + left → lookup j chunks ≡ some (payload buf j))
    → join chunks left i ≡ payloads buf left i
unfolding join payloads
join-payloads buf chunks zero i h = refl
join-payloads buf chunks (suc left) i h =
    ap₂ (◌++◌) (chunk-lookup i (payload buf i) chunks (h i (omega arith)))
      (join-payloads buf chunks left (i + 1) (λ j lt. h j (omega (arith, lt))))

pub all_stored :
    (buf : Bytes) (total : ℕ) (chunks : List (ℕ × Bytes)) (i : ℕ)
    → Pending buf total [] chunks i
    → i < total
    → lookup i chunks ≡ some (payload buf i)
unfolding Pending count
all_stored buf total chunks i h lt = elim h [
  | inl to_come ↦ ground (arith, to_come.0)
  | inr stored ↦ stored.1 lt
]
