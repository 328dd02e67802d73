-- ===== src/Cam/Receiver/Bound.antt =====
-- How many images the receiver holds.
use iot_repo.Base.{
  ℕ, ◌+◌, ◌≤◌, ◌<◌, ◌≡◌, ◌⊎◌, inl, inr, refl, sym, ◌∙◌, lookup-insert_self, [], ◌∷◌, some, length,
  take, drop, Bool-cases, Option-cases, not, ◌||◌, ltb, if◌then◌else◌, lookup, insert, delete,
  arith,
}
use iot_repo.Base.Text.{Bytes, bytes_eq, codes}
use iot_repo.Cam.Receiver.{
  Buffer, Buffers, oldest, evict, open_buffer, store_chunk, receive_packet, unpack,
}

length-delete : (k : ℕ) (d : Buffers) → length (delete k d) ≤ length d
unfolding delete
length-delete k [] = omega arith
length-delete k ((j, b) ∷ d) = ground (arith, length-delete k d)

data HasKey : ℕ → Buffers → Type 0 where
  here : {k j : ℕ} {b : Buffer} {d : Buffers} → j ≡ k → HasKey k ((j, b) ∷ d)
  there : {k : ℕ} {e : ℕ × Buffer} {d : Buffers} → HasKey k d → HasKey k (e ∷ d)

length-delete_key : (k : ℕ) (d : Buffers) → HasKey k d → length (delete k d) < length d
unfolding delete
length-delete_key k [] m = elim m [ ]
length-delete_key k ((j, b) ∷ d) (here e) = ground (arith, length-delete k d)
length-delete_key k ((j, b) ∷ d) (there m) = ground (arith, length-delete_key k d m)

-- The oldest is the first key or one of the others.
oldest-HasKey : (k : ℕ) (d : Buffers) → (oldest k d ≡ k) ⊎ HasKey (oldest k d) d
unfolding oldest
oldest-HasKey k [] = inl refl
oldest-HasKey k ((j, c) ∷ d) = elim (oldest-HasKey (if ltb j k then j else k) d) [
  | inl e ↦ elim (Bool-cases (ltb j k)) [
    | inl less ↦ inr (here (sym (e ∙ rw less refl)))
    | inr more ↦ inl (e ∙ rw more refl)
  ]
  | inr m ↦ inr (there m)
]

shorter_without_oldest :
    (k : ℕ) (b : Buffer) (d : Buffers)
    → length (delete (oldest k d) ((k, b) ∷ d)) < length ((k, b) ∷ d)
shorter_without_oldest k b d = elim (oldest-HasKey k d) [
  | inl e ↦ length-delete_key (oldest k d) ((k, b) ∷ d) (here (sym e))
  | inr m ↦ length-delete_key (oldest k d) ((k, b) ∷ d) (there m)
]

length-evict : (d : Buffers) → length d ≤ 3 → length (evict d) ≤ 2
unfolding evict
length-evict [] h = omega arith
length-evict ((k, b) ∷ d) h = ground (arith, shorter_without_oldest k b d)

length-insert_present :
    (k : ℕ) (b c : Buffer) (d : Buffers) → lookup k d ≡ some c → length (insert k b d) ≡ length d
unfolding lookup insert
length-insert_present k b c [] h = cc
length-insert_present k b c ((j, e) ∷ d) h = ground (arith, length-insert_present k b c d)

length-insert : (k : ℕ) (b : Buffer) (d : Buffers) → length (insert k b d) ≤ length d + 1
unfolding insert
length-insert k b [] = omega arith
length-insert k b ((j, e) ∷ d) = ground (arith, length-insert k b d)

-- Opening a buffer keeps the bound, and the image has an entry behind it.
length-open_buffer :
    (image_id total : ℕ) (buffers : Buffers)
    → length buffers ≤ 3
    → let opened = open_buffer image_id total buffers in
      (length opened.1 ≤ 3) × (b : Buffer) × (lookup image_id opened.1 ≡ some b)
unfolding open_buffer
length-open_buffer image_id total buffers h = elim (Option-cases (lookup image_id buffers)) [
  | inl missing ↦
      rw (open_buffer, missing)
        (
          omega (
            arith,
            length-insert image_id record { total = total; chunks = [] } (evict buffers),
            length-evict buffers h,
          ),
          record { total = total; chunks = [] },
          lookup-insert_self image_id record { total = total; chunks = [] } (evict buffers),
        )
  | inr found ↦ rw (open_buffer, found.1) (h, found.0, found.1)
]

length-store_chunk :
    (image_id total index : ℕ) (part : Bytes) (buffers : Buffers)
    → length buffers ≤ 3
    → length (store_chunk image_id total index part buffers).0 ≤ 3
unfolding store_chunk
length-store_chunk image_id total index part buffers h =
    let opened = length-open_buffer image_id total buffers h in
    let o = open_buffer image_id total buffers in
    let filled : Buffer = record (o.0) { chunks = insert index part (o.0.chunks) } in
    let kept = length-insert_present image_id filled opened.1 o.1 opened.2 in
    let counted = length-delete image_id (insert image_id filled o.1) in
    elim (Bool-cases (ltb (length filled.chunks) filled.total)) [
      | inl waiting ↦ rw (store_chunk, waiting) (omega (arith, kept, opened.0))
      | inr complete ↦ rw (store_chunk, complete) (omega (arith, counted, kept, opened.0))
    ]

-- A receiver that holds chunks of at most three images does so behind any datagram.
pub length-receive_packet :
    (packet : Bytes) (buffers : Buffers)
    → length buffers ≤ 3
    → length (receive_packet packet buffers).0 ≤ 3
unfolding receive_packet
length-receive_packet packet buffers h =
    elim (Bool-cases (ltb (length packet) 10 || not (bytes_eq (take 3 packet) (codes "IMG")))) [
      | inl foreign ↦ rw (receive_packet, foreign) h
      | inr ours ↦
          rw (receive_packet, ours)
            (length-store_chunk (unpack 4 packet) (unpack 6 packet) (unpack 8 packet)
              (drop 10 packet) buffers h)
    ]
