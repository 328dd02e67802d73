-- ===== src/Cam/Receiver/Indices.antt =====
-- The indices of a frame's chunks and their rearrangements.
use mathlib.Core.List.{Permᴰ, cons≢nil, head-eq_of_cons-eq, tail-eq_of_cons-eq}
use iot_repo.Base.{
  ℕ, zero, suc, ◌+◌, ◌≡◌, ◌∙◌, refl, ap₂, List, [], ◌∷◌, map, length, ltb, ◌==◌, if◌then◌else◌,
  arith,
}

-- How often a number occurs.
unfoldable pub count : ℕ → List ℕ → ℕ
count i [] = 0
count i (j ∷ js) = (if j == i then 1 else 0) + count i js

pub count-Permᴰ : (i : ℕ) {js ks : List ℕ} → Permᴰ js ks → count i js ≡ count i ks
unfolding count
count-Permᴰ i Permᴰ.nil = refl
count-Permᴰ i (Permᴰ.cons e p) = rw (e, count-Permᴰ i p) refl
count-Permᴰ i (Permᴰ.swap e f) = rw (e, f) (omega arith)
count-Permᴰ i (Permᴰ.trans p q) = count-Permᴰ i p ∙ count-Permᴰ i q

pub length-Permᴰ : {js ks : List ℕ} → Permᴰ js ks → length js ≡ length ks
length-Permᴰ Permᴰ.nil = refl
length-Permᴰ (Permᴰ.cons e p) = omega (arith, length-Permᴰ p)
length-Permᴰ (Permᴰ.swap e f) = refl
length-Permᴰ (Permᴰ.trans p q) = length-Permᴰ p ∙ length-Permᴰ q

-- The indices from i on.
unfoldable pub indices : ℕ → ℕ → List ℕ
indices zero i = []
indices (suc left) i = i ∷ indices left (i + 1)

pub length-indices : (left i : ℕ) → length (indices left i) ≡ left
unfolding indices
length-indices zero i = refl
length-indices (suc left) i = omega (arith, length-indices left (i + 1))

pub count-indices :
    (j left i : ℕ)
    → count j (indices left i) ≡ (if ltb j i then 0 else if ltb j (i + left) then 1 else 0)
unfolding count indices
count-indices j zero i = ground arith
count-indices j (suc left) i = ground (arith, count-indices j left (i + 1))

pub unchanged {ℓ} : {A : Type ℓ} (xs : List A) → Permᴰ xs xs
unchanged [] = Permᴰ.nil
unchanged (x ∷ xs) = Permᴰ.cons refl (unchanged xs)

-- A rearrangement of the values is the values of a rearrangement.
pub rearranged {ℓ} :
    {A : Type ℓ} (f : ℕ → A) {xs ys : List A}
    → Permᴰ xs ys
    → (js : List ℕ) → ys ≡ map f js
    → (ks : List ℕ) × Permᴰ ks js × (xs ≡ map f ks)
rearranged f Permᴰ.nil js e = (js, unchanged js, e)
rearranged f (Permᴰ.cons e p) [] e' = elim (cons≢nil e') [ ]
rearranged f (Permᴰ.cons e p) (j ∷ js) e' =
    let rest = rearranged f p js (tail-eq_of_cons-eq e') in
    (j ∷ rest.0, Permᴰ.cons refl rest.1, ap₂ (◌∷◌) (e ∙ head-eq_of_cons-eq e') rest.2)
rearranged f (Permᴰ.swap e g) [] e' = elim (cons≢nil e') [ ]
rearranged f (Permᴰ.swap e g) (j ∷ []) e' = elim (cons≢nil (tail-eq_of_cons-eq e')) [ ]
rearranged f (Permᴰ.swap e g) (j ∷ k ∷ js) e' = (
  k ∷ j ∷ js,
  Permᴰ.swap refl refl,
  let tails = tail-eq_of_cons-eq e' in
      ap₂ (◌∷◌) (e ∙ head-eq_of_cons-eq tails)
        (ap₂ (◌∷◌) (g ∙ head-eq_of_cons-eq e') (tail-eq_of_cons-eq tails)),
)
rearranged f (Permᴰ.trans p q) js e =
    let middle = rearranged f q js e in
    let outer = rearranged f p middle.0 middle.2 in (outer.0, Permᴰ.trans outer.1 middle.1, outer.2)
