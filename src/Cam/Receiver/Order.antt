-- ===== src/Cam/Receiver/Order.antt =====
-- The packets of one frame in any order of arrival.
use mathlib.Core.List.{Permᴰ}
use iot_repo.Base.{
  ℕ, ◌+◌, ◌*◌, ◌/◌, ◌≤◌, ◌<◌, ◌≡◌, refl, sym, subst, List, [], ◌∷◌, map, none, some, length, lookup,
  insert, length-insert_new, arith,
}
use iot_repo.Base.Text.{Bytes}
use iot_repo.Cam.Udp.{payload, packet, total_chunks, UdpStreamer, send_frame}
use iot_repo.Cam.Udp.Chunks.{payloads, payloads-total_chunks, total_chunks_exact}
use iot_repo.Cam.Receiver.Indices.{length-Permᴰ, indices, length-indices, rearranged}
use iot_repo.Cam.Receiver.{Buffers, open_buffer, store_chunk, receive}
use iot_repo.Cam.Receiver.Steps.{
  receive_packet-packet, send_frame-map, store_last, store_early, receive_silent, first_buffer,
}
use iot_repo.Cam.Receiver.Pending.{
  Pending, head-Pending, insert-Pending, first_Pending, join-payloads, all_stored,
}

-- One frame came out, and its image has no buffer any more.
Completed : ℕ → Bytes → Buffers × List Bytes → Type 0
Completed image_id frame got = (got.1 ≡ frame ∷ []) × (lookup image_id got.0 ≡ none)

-- The rest of the frame's packets, when the buffer of the image holds the chunks before them.
receive_rest :
    (buf : Bytes) (image_id total : ℕ) (chunks : List (ℕ × Bytes)) (j : ℕ) (rest : List ℕ)
    (buffers : Buffers)
    → image_id < 65536
    → total < 65536
    → (open_buffer image_id total buffers).0 ≡ record { total = total; chunks = chunks }
    → length chunks + length (j ∷ rest) ≡ total
    → ((i : ℕ) → Pending buf total (j ∷ rest) chunks i)
    → Completed image_id
        (payloads buf total 0)
        (receive (map (packet buf image_id total) (j ∷ rest)) buffers)
unfolding receive Completed
receive_rest buf image_id total chunks j [] buffers a b opened len h =
    let next = head-Pending buf total j [] chunks (h j) in
    let full : length (insert j (payload buf j) chunks) ≡ total =
      omega (arith, len, length-insert_new j (payload buf j) chunks next.2) in
    let last = store_last image_id total j (payload buf j) chunks buffers opened full in
    let whole = join-payloads buf (insert j (payload buf j) chunks) total 0 (λ i lt.
      all_stored buf total (insert j (payload buf j) chunks) i
        (insert-Pending buf total j [] chunks i (h j) (h i)) (omega arith)) in
    rw
      (
        receive_packet-packet buf image_id total j buffers a b (omega (arith, next.1)),
        last.0,
        whole,
      )
      (refl, last.1)
receive_rest buf image_id total chunks j (k ∷ rest) buffers a b opened len h =
    let next = head-Pending buf total j (k ∷ rest) chunks (h j) in
    let stored : length (insert j (payload buf j) chunks) ≡ length chunks + 1 =
      length-insert_new j (payload buf j) chunks next.2 in
    let early =
      store_early image_id total j (payload buf j) chunks buffers opened (omega (arith, len)) in
    let later =
      receive_rest buf image_id total (insert j (payload buf j) chunks) k rest
        (store_chunk image_id total j (payload buf j) buffers).0 a b early.1 (omega (arith, len))
        (λ i. insert-Pending buf total j (k ∷ rest) chunks i (h j) (h i)) in
    subst (Completed image_id (payloads buf total 0))
      (sym (
        receive_silent (packet buf image_id total j) (map (packet buf image_id total) (k ∷ rest))
          buffers (store_chunk image_id total j (payload buf j) buffers)
          (receive_packet-packet buf image_id total j buffers a b (omega (arith, next.1))) early.0))
      later

receive_order :
    (buf : Bytes) (image_id total : ℕ) (order : List ℕ) (buffers : Buffers)
    → 0 < total
    → total < 65536
    → image_id < 65536
    → lookup image_id buffers ≡ none
    → Permᴰ order (indices total 0)
    → Completed image_id
        (payloads buf total 0)
        (receive (map (packet buf image_id total) order) buffers)
receive_order buf image_id total [] buffers pos b a new p =
    ground (arith, length-Permᴰ p, length-indices total 0)
receive_order buf image_id total (j ∷ rest) buffers pos b a new p =
    receive_rest buf image_id total [] j rest buffers a b (first_buffer image_id total buffers new)
      (omega (arith, length-Permᴰ p, length-indices total 0))
      (λ i. first_Pending buf total (j ∷ rest) i p)

-- The packets of one frame (not empty, and of at most 65,535 chunks), received each once and in any
-- order by a receiver without a buffer for that image, show exactly one frame, which is the frame
-- that was sent byte for byte; and the image's buffer is gone behind them.
pub receive-send_frame :
    (buf : Bytes) (s : UdpStreamer) (packets : List Bytes) (buffers : Buffers)
    → 0 < length buf
    → length buf ≤ 65535 * 1024
    → s.image_id < 65536
    → lookup s.image_id buffers ≡ none
    → Permᴰ packets (send_frame (some buf) s).1
    → let got = receive packets buffers in (got.1 ≡ buf ∷ []) × (lookup s.image_id got.0 ≡ none)
unfolding Completed
receive-send_frame buf s packets buffers some_bytes fits a new p =
    let total : total_chunks buf ≡ (length buf + 1023) / 1024 =
      total_chunks_exact buf (omega arith) in
    let order =
      rearranged (packet buf s.image_id (total_chunks buf)) p (indices (total_chunks buf) 0)
        (send_frame-map buf s some_bytes) in
    let got =
      receive_order buf s.image_id (total_chunks buf) order.0 buffers (omega (arith, total))
        (omega (arith, total)) a new order.1 in
    let whole =
      subst
        (λ frame.
          Completed s.image_id frame
            (receive (map (packet buf s.image_id (total_chunks buf)) order.0) buffers))
        (payloads-total_chunks buf (omega arith)) got in
    subst (λ ps. Completed s.image_id buf (receive ps buffers)) (sym order.2) whole
