-- ===== src/Server/Frames/RoundTrip.antt =====
-- Frames sent and frames read.
use Prim.Native.Nat.{min}
use mathlib.Core.List.{append-nil}
use iot_repo.Base.{
  lt→ltb, ℕ, zero, suc, ◌+◌, ◌^◌, ◌≤◌, ◌<◌, ◌≡◌, ◌≢◌, refl, ◌∙◌, sym, ap, false, ◌||◌, Bool-cases,
  inl, inr, [], ◌∷◌, ◌++◌, Option, none, some, ltb, ◌==◌, length, take, drop, append_assoc,
  take-append-drop, length-take, length-drop, length-append, arith,
}
use iot_repo.Base.Text.{Bytes}
use iot_repo.Operator.Words.{is_empty}
use iot_repo.Server.Frames.{
  Socket, Received, got, lost, out_of_fuel, max_frame_payload, asked, chunk, pack, unpack,
  send_frame, read_exact, read_payload, after_header, read_frame,
}

take-append : (c : ℕ) (p t : Bytes) → c ≤ length p → take c (p ++ t) ≡ take c p
take-append zero p t h = refl
take-append (suc c) [] t h = absurd (omega (arith, h))
take-append (suc c) (x ∷ p) t h = ap (◌∷◌ x) (take-append c p t (omega (arith, h)))

drop-append : (c : ℕ) (p t : Bytes) → c ≤ length p → drop c (p ++ t) ≡ drop c p ++ t
drop-append zero p t h = refl
drop-append (suc c) [] t h = absurd (omega (arith, h))
drop-append (suc c) (x ∷ p) t h = drop-append c p t (omega (arith, h))

not_empty : (s : Bytes) → 0 < length s → is_empty s ≡ false
not_empty [] h = absurd (omega (arith, h))
not_empty (c ∷ s) h = refl

unpack-pack : (n : ℕ) → n < 2 ^ 32 → unpack (pack n) ≡ some n
unpack-pack n h = ap some (omega (arith, h))

rejoined : (m : ℕ) (buf p : Bytes) → (buf ++ take m p) ++ drop m p ≡ buf ++ p
rejoined m buf p =
    append_assoc buf (take m p) (drop m p) ∙ ap (λ s. buf ++ s) (take-append-drop m p)

not_empty_length : (s : Bytes) → is_empty s ≡ false → 0 < length s
not_empty_length [] h = cc
not_empty_length (c ∷ s) h = omega arith

-- While bytes are to come, recv gives at least one.
abbrev pub Delivers : Socket → Type 0
Delivers w = (k m : ℕ) → (size : ℕ) × (w.recv k m ≡ some (suc size))

module _ (w : Socket) where
  read_exact_held :
      (fuel n : ℕ) (buf rest : Bytes) (k : ℕ)
      → n ≤ length buf
      → read_exact w fuel n buf k rest ≡ got buf rest k
  unfolding read_exact
  read_exact_held zero n buf rest k h = ground (arith, h)
  read_exact_held (suc fuel) n buf rest k h = ground (arith, h)

  -- One call of recv is not more than one byte less to read.
  read_exact_fed :
      (fuel n : ℕ) (buf rest : Bytes) (k : ℕ)
      → n ≤ length buf + fuel
      → read_exact w fuel n buf k rest ≢ out_of_fuel
  unfolding read_exact
  read_exact_fed zero n buf rest k h e = ground (arith, h, e)
  read_exact_fed (suc fuel) n buf rest k h e =
      let c = chunk n buf rest (w.recv k (asked n buf)) in
      elim (Bool-cases (ltb (length buf) n)) [
        | inr full ↦ ground (arith, full, e)
        | inl open' ↦ elim (Bool-cases (is_empty c)) [
          | inl ended ↦ ground (arith, open', ended, e)
          | inr more ↦
              read_exact_fed fuel n (buf ++ c) (drop (length c) rest) (k + 1)
                (omega (arith, h, length-append buf c, not_empty_length c more))
                (ground (arith, open', more, e))
        ]
      ]

  read_payload_fed : (rest : Bytes) (k : ℕ) (o : Option ℕ) → read_payload w rest k o ≢ out_of_fuel
  read_payload_fed rest k none e = cc
  read_payload_fed rest k (some n) e = elim (Bool-cases (n == 0 || ltb max_frame_payload n)) [
    | inl refused ↦ ground (arith, refused, e)
    | inr taken ↦ read_exact_fed n n [] rest k (omega arith) (ground (arith, taken, e))
  ]

  after_header_fed : (r : Received) → r ≢ out_of_fuel → after_header w r ≢ out_of_fuel
  after_header_fed (got header rest k) h = read_payload_fed rest k (unpack header)
  after_header_fed lost h = λ e. cc
  after_header_fed out_of_fuel h = h

  -- Reading a frame never runs out of fuel: no more calls of recv are made than bytes are asked
  -- for, whatever the connection hands out.
  pub read_frame_fed : (k : ℕ) (rest : Bytes) → read_frame w k rest ≢ out_of_fuel
  unfolding read_frame
  read_frame_fed k rest =
      after_header_fed (read_exact w 4 4 [] k rest) (read_exact_fed 4 4 [] rest k (omega arith))

  read_exact_step :
      (fuel n : ℕ) (buf c p rest : Bytes) (k : ℕ)
      → length buf < n
      → chunk n buf rest (w.recv k (asked n buf)) ≡ c
      → 0 < length c
      → drop (length c) rest ≡ p
      → read_exact w (suc fuel) n buf k rest ≡ read_exact w fuel n (buf ++ c) (k + 1) p
  unfolding read_exact
  read_exact_step fuel n buf c p rest k short e some_bytes left =
      rw (e, lt→ltb (length buf) n short, not_empty c some_bytes, left) refl

  read_exact_joined :
      (fuel n m : ℕ) (buf p t : Bytes) (k j : ℕ)
      → read_exact w (suc fuel) n buf k (p ++ t)
        ≡ read_exact w fuel n (buf ++ take m p) (k + 1) (drop m p ++ t)
      → read_exact w fuel n (buf ++ take m p) (k + 1) (drop m p ++ t)
        ≡ got ((buf ++ take m p) ++ drop m p) t j
      → read_exact w (suc fuel) n buf k (p ++ t) ≡ got (buf ++ p) t j
  read_exact_joined fuel n m buf p t k j step rest =
      step ∙ rest ∙ ap (λ b. got b t j) (rejoined m buf p)

  -- The bytes asked for are read, and no others.
  read_exact_whole :
      (fuel n : ℕ) (buf p t : Bytes) (k : ℕ)
      → Delivers w
      → n ≡ length buf + length p
      → length p ≤ fuel
      → (j : ℕ) × (read_exact w fuel n buf k (p ++ t) ≡ got (buf ++ p) t j)
  read_exact_whole fuel n buf [] t k d e h = (
    k,
    read_exact_held fuel n buf t k (omega (arith, e)) ∙ ap (λ b. got b t k) (sym (append-nil buf)),
  )
  read_exact_whole zero n buf (x ∷ q) t k d e h = absurd (omega (arith, h))
  read_exact_whole (suc fuel) n buf (x ∷ q) t k d e h =
      let p = x ∷ q in
      let size = (d k (asked n buf)).0 in
      let m = min (suc size) (asked n buf) in
      let fits : m ≤ length p = omega (arith, e) in
      let c = take m p in
      let c_length : length c ≡ m = omega (arith, length-take m p, fits) in
      let read : chunk n buf (p ++ t) (w.recv k (asked n buf)) ≡ c =
        ap (chunk n buf (p ++ t)) (d k (asked n buf)).1 ∙ take-append m p t fits in
      let left : drop (length c) (p ++ t) ≡ drop m p ++ t =
        ap (λ l. drop l (p ++ t)) c_length ∙ drop-append m p t fits in
      let step =
        read_exact_step fuel n buf c (drop m p ++ t) (p ++ t) k (omega (arith, e)) read
          (omega (arith, c_length, e)) left in
      let rest =
        read_exact_whole fuel n (buf ++ c) (drop m p) t (k + 1) d
          (omega (arith, e, length-append buf c, length-drop m p, c_length, fits))
          (omega (arith, h, length-drop m p, e)) in
      (rest.0, read_exact_joined fuel n m buf p t k rest.0 step rest.1)

  read_payload_taken :
      (p t : Bytes) (k : ℕ)
      → 0 < length p
      → length p ≤ max_frame_payload
      → read_payload w (p ++ t) k (some (length p))
        ≡ read_exact w (length p) (length p) [] k (p ++ t)
  read_payload_taken p t k some_bytes small = ground (arith, some_bytes, small)

  -- Where recv gives at least a byte while bytes are to come, a frame sent with a payload of 1 byte
  -- to 1 MB is read as that payload, however the connection cuts it, and what comes behind it is
  -- left unread.
  pub read_frame-send_frame :
      (p t : Bytes) (k : ℕ)
      → Delivers w
      → 0 < length p
      → length p ≤ max_frame_payload
      → (j : ℕ) × (read_frame w k (send_frame p ++ t) ≡ got p t j)
  unfolding read_frame send_frame
  read_frame-send_frame p t k d some_bytes small =
      let header = read_exact_whole 4 4 [] (pack (length p)) (p ++ t) k d refl (omega arith) in
      let payload =
        read_exact_whole (length p) (length p) [] p t header.0 d (omega arith) (omega arith) in
      (
        payload.0,
        ap (after_header w)
              (ap (read_exact w 4 4 [] k) (append_assoc (pack (length p)) p t) ∙ header.1)
            ∙ ap (read_payload w (p ++ t) header.0) (unpack-pack (length p) (omega (arith, small)))
            ∙ read_payload_taken p t header.0 some_bytes small
            ∙ payload.1,
      )
