-- ===== src/Cam/Receiver/Others.antt =====
-- The images that a packet is not about.
use iot_repo.Base.{
  ℕ, zero, suc, ◌+◌, ◌≤◌, ◌<◌, ◌≡◌, ◌≢◌, ◌∙◌, inl, inr, refl, ap, List, [], ◌∷◌, ◌++◌, Option, none,
  some, length, Bool-cases, Option-cases, false, ltb, ◌==◌, lookup, insert, delete, lookup-insert,
  arith,
}
use iot_repo.Base.Text.{Bytes}
use iot_repo.Cam.Udp.{packet, payload, send_chunks}
use iot_repo.Cam.Receiver.{
  Buffer, Buffers, oldest, evict, open_buffer, store_chunk, receive_packet, receive, and_then,
}
use iot_repo.Cam.Receiver.Steps.{receive_packet-packet}

missing-delete : (j k : ℕ) (d : Buffers) → lookup j d ≡ none → lookup j (delete k d) ≡ none
unfolding lookup delete
missing-delete j k [] h = refl
missing-delete j k ((i, b) ∷ d) h = ground (arith, missing-delete j k d)

missing-evict : (j : ℕ) (d : Buffers) → lookup j d ≡ none → lookup j (evict d) ≡ none
unfolding evict
missing-evict j [] h = h
missing-evict j ((k, b) ∷ d) h = ground (arith, missing-delete j (oldest k d) ((k, b) ∷ d) h)

missing-insert :
    (j k : ℕ) (b : Buffer) (d : Buffers)
    → j ≢ k
    → lookup j d ≡ none
    → lookup j (insert k b d) ≡ none
missing-insert j k b d other h =
    let differs : (k == j) ≡ false = ground arith in lookup-insert k j b d ∙ rw differs h

missing-open_buffer :
    (j image_id total : ℕ) (buffers : Buffers)
    → j ≢ image_id
    → lookup j buffers ≡ none
    → lookup j (open_buffer image_id total buffers).1 ≡ none
unfolding open_buffer
missing-open_buffer j image_id total buffers other h =
    elim (Option-cases (lookup image_id buffers)) [
      | inl missing ↦
          rw (open_buffer, missing)
            (missing-insert j image_id record { total = total; chunks = [] } (evict buffers) other
              (missing-evict j buffers h))
      | inr found ↦ rw (open_buffer, found.1) h
    ]

missing-store_chunk :
    (j image_id total index : ℕ) (part : Bytes) (buffers : Buffers)
    → j ≢ image_id
    → lookup j buffers ≡ none
    → lookup j (store_chunk image_id total index part buffers).0 ≡ none
unfolding store_chunk
missing-store_chunk j image_id total index part buffers other h =
    let o = open_buffer image_id total buffers in
    let filled : Buffer = record (o.0) { chunks = insert index part (o.0.chunks) } in
    let stored =
      missing-insert j image_id filled o.1 other
        (missing-open_buffer j image_id total buffers other h) in
    elim (Bool-cases (ltb (length filled.chunks) filled.total)) [
      | inl waiting ↦ rw (store_chunk, waiting) stored
      | inr complete ↦
          rw (store_chunk, complete) (missing-delete j image_id (insert image_id filled o.1) stored)
    ]

-- Receiving the packets of one image brings no other image in.
pub missing-send_chunks :
    (j : ℕ) (buf : Bytes) (image_id total left i : ℕ) (buffers : Buffers)
    → image_id < 65536
    → total < 65536
    → i + left ≤ total
    → j ≢ image_id
    → lookup j buffers ≡ none
    → lookup j (receive (send_chunks buf image_id total left i) buffers).0 ≡ none
unfolding receive send_chunks
missing-send_chunks j buf image_id total zero i buffers a b bound other h = h
missing-send_chunks j buf image_id total (suc left) i buffers a b bound other h =
    let stored : lookup j (receive_packet (packet buf image_id total i) buffers).0 ≡ none =
      rw (receive_packet-packet buf image_id total i buffers a b (omega (arith, bound)))
        (missing-store_chunk j image_id total i (payload buf i) buffers other h) in
    missing-send_chunks j buf image_id total left (i + 1)
      (receive_packet (packet buf image_id total i) buffers).0 a b (omega (arith, bound)) other
      stored

and_then_append :
    (o : Option Bytes) (xs ys : List Bytes) → and_then o (xs ++ ys) ≡ and_then o xs ++ ys
and_then_append none xs ys = refl
and_then_append (some frame) xs ys = refl

-- One run of packets behind another.
pub receive-append :
    (xs ys : List Bytes) (buffers : Buffers)
    → let first = receive xs buffers in
      ((receive (xs ++ ys) buffers).0 ≡ (receive ys first.0).0)
      × ((receive (xs ++ ys) buffers).1 ≡ first.1 ++ (receive ys first.0).1)
unfolding receive
receive-append [] ys buffers = (refl, refl)
receive-append (x ∷ xs) ys buffers =
    let rest = receive-append xs ys (receive_packet x buffers).0 in
    (
      rest.0,
      ap (and_then (receive_packet x buffers).1) rest.1
          ∙ and_then_append (receive_packet x buffers).1 (receive xs (receive_packet x buffers).0).1
              _,
    )
