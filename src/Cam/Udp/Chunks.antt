-- ===== src/Cam/Udp/Chunks.antt =====
-- How the chunks of a frame make up the frame.
use iot_repo.Base.{
  ℕ, zero, suc, ◌+◌, ◌-◌, ◌*◌, ◌/◌, ◌^◌, ◌≤◌, ◌<◌, ◌≡◌, ◌∙◌, refl, ap, sym, [], ◌∷◌, ◌++◌, length,
  take, drop, Bool-cases, inl, inr, take_all, take-append-drop, length-take, length-drop, ltb,
  if◌then◌else◌, arith,
}
use iot_repo.Base.Text.{Bytes}
use iot_repo.Cam.Udp.{payload, total_chunks}

-- The payloads from round i on.
unfoldable pub payloads : Bytes → ℕ → ℕ → Bytes
payloads buf zero i = []
payloads buf (suc left) i = payload buf i ++ payloads buf left (i + 1)

pub total_chunks_exact :
    (buf : Bytes) → length buf + 1023 < 2 ^ 32 → total_chunks buf ≡ (length buf + 1023) / 1024
unfolding total_chunks
total_chunks_exact buf h = omega arith

drop-nil : (n : ℕ) → drop {A = ℕ} n [] ≡ []
drop-nil zero = refl
drop-nil (suc n) = refl

drop-drop : (a c : ℕ) (xs : Bytes) → drop c (drop a xs) ≡ drop (a + c) xs
drop-drop zero c xs = let e : c ≡ 0 + c = omega arith in ap (λ n. drop n xs) e
drop-drop (suc a) c [] = drop-nil c ∙ sym (drop-nil (suc a + c))
drop-drop (suc a) c (x ∷ xs) =
    let e : suc (a + c) ≡ suc a + c = omega arith in drop-drop a c xs ∙ ap (λ n. drop n (x ∷ xs)) e

drop_all : (n : ℕ) (xs : Bytes) → length xs ≤ n → drop n xs ≡ []
drop_all zero [] h = refl
drop_all zero (x ∷ xs) h = elim h [ ]
drop_all (suc n) [] h = refl
drop_all (suc n) (x ∷ xs) h = drop_all n xs (omega arith)

take_min : (c n : ℕ) (xs : Bytes) → length xs ≡ n → take (if ltb c n then c else n) xs ≡ take c xs
take_min c n xs e = elim (Bool-cases (ltb c n)) [
  | inl more ↦ rw more
  | inr rest ↦ rw rest (take_all n xs (omega arith) ∙ sym (take_all c xs (ground arith)))
]

-- A chunk is the next 1024 bytes, or what is left of the frame.
payload-take : (buf : Bytes) (i : ℕ) → payload buf i ≡ take 1024 (drop (i * 1024) buf)
unfolding payload
payload-take buf i =
    take_min 1024 (length buf - i * 1024) (drop (i * 1024) buf) (length-drop (i * 1024) buf)

payload-append_drop :
    (buf : Bytes) (i : ℕ) → payload buf i ++ drop ((i + 1) * 1024) buf ≡ drop (i * 1024) buf
payload-append_drop buf i =
    let e : (i + 1) * 1024 ≡ i * 1024 + 1024 = omega arith in
    rw (payload-take buf i, e, ← drop-drop (i * 1024) 1024 buf)
      (take-append-drop 1024 (drop (i * 1024) buf))

payloads-drop :
    (buf : Bytes) (left i : ℕ)
    → length buf ≤ (i + left) * 1024
    → payloads buf left i ≡ drop (i * 1024) buf
unfolding payloads
payloads-drop buf zero i h = sym (drop_all (i * 1024) buf (omega arith))
payloads-drop buf (suc left) i h =
    rw (payloads-drop buf left (i + 1) (omega arith)) (payload-append_drop buf i)

-- The payloads of all the rounds, one behind another, are the frame: no byte is lost, repeated or
-- moved.
pub payloads-total_chunks :
    (buf : Bytes) → length buf + 1023 < 2 ^ 32 → payloads buf (total_chunks buf) 0 ≡ buf
payloads-total_chunks buf h =
    rw (total_chunks_exact buf h) (payloads-drop buf ((length buf + 1023) / 1024) 0 (omega arith))

-- Every chunk but those behind the last byte has something in it, and none is too large.
pub length-payload :
    (buf : Bytes) (i : ℕ)
    → length buf + 1023 < 2 ^ 32
    → i < total_chunks buf
    → (0 < length (payload buf i)) × (length (payload buf i) ≤ 1024)
length-payload buf i h lt = rw (payload-take buf i) (
  omega (
    arith,
    length-take 1024 (drop (i * 1024) buf),
    length-drop (i * 1024) buf,
    total_chunks_exact buf h,
  ),
  omega (arith, length-take 1024 (drop (i * 1024) buf)),
)
