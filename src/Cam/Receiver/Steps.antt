-- ===== src/Cam/Receiver/Steps.antt =====
-- Single packets of the streamer at the receiver.
use iot_repo.Base.{
  ℕ, zero, suc, ◌+◌, ◌*◌, ◌/◌, ◌%◌, ◌≤◌, ◌<◌, ◌≡◌, ◌∙◌, refl, ap, List, [], ◌∷◌, ◌++◌, map, Option,
  none, some, length, true, false, ◌==◌, ltb, lookup, insert, lookup-insert_self,
  lookup-delete_self, arith,
}
use iot_repo.Base.Text.{Bytes, codes}
use iot_repo.Cam.Udp.{
  payload, packet, total_chunks, UdpStreamer, send_frame, send_chunks, low_bytes, header,
}
use iot_repo.Cam.Receiver.Indices.{indices}
use iot_repo.Cam.Receiver.{
  Buffers, open_buffer, join, store_chunk, receive_packet, receive, unpack, and_then,
}

unpack_low : (n : ℕ) → n < 65536 → n % 256 + 256 * (n / 256 % 256) ≡ n
unpack_low n h = omega arith

long : (packet : Bytes) → 10 ≤ length packet → ltb (length packet) 10 ≡ false
long packet h = ground arith

-- A datagram with the streamer's header, byte for byte.
store_after_header :
    (frame_type a b c d e f : ℕ) (part : Bytes) (buffers : Buffers)
    → receive_packet (codes "IMG" ++ (frame_type ∷ a ∷ b ∷ c ∷ d ∷ e ∷ f ∷ part)) buffers
      ≡ store_chunk (a + 256 * b) (c + 256 * d) (e + 256 * f) part buffers
unfolding receive_packet unpack
store_after_header frame_type a b c d e f part buffers =
    rw
      (
        receive_packet,
        long (codes "IMG" ++ (frame_type ∷ a ∷ b ∷ c ∷ d ∷ e ∷ f ∷ part)) (omega arith),
      )
      refl

-- A packet of the streamer is stored as the chunk that it carries.
pub receive_packet-packet :
    (buf : Bytes) (image_id total i : ℕ) (buffers : Buffers)
    → image_id < 65536
    → total < 65536
    → i < 65536
    → receive_packet (packet buf image_id total i) buffers
      ≡ store_chunk image_id total i (payload buf i) buffers
unfolding packet header low_bytes
receive_packet-packet buf image_id total i buffers a b c =
    store_after_header b'S' (image_id % 256) (image_id / 256 % 256) (total % 256)
      (total / 256 % 256) (i % 256) (i / 256 % 256) (payload buf i) buffers
    ∙ rw (unpack_low image_id a, unpack_low total b, unpack_low i c) refl

send_chunks-map :
    (buf : Bytes) (image_id total left i : ℕ)
    → send_chunks buf image_id total left i ≡ map (packet buf image_id total) (indices left i)
unfolding send_chunks indices
send_chunks-map buf image_id total zero i = refl
send_chunks-map buf image_id total (suc left) i =
    ap (◌∷◌ (packet buf image_id total i)) (send_chunks-map buf image_id total left (i + 1))

pub send_frame-map :
    (buf : Bytes) (s : UdpStreamer)
    → 0 < length buf
    → (send_frame (some buf) s).1
      ≡ map (packet buf s.image_id (total_chunks buf)) (indices (total_chunks buf) 0)
unfolding send_frame
send_frame-map buf s h =
    let some_bytes : (length buf == 0) ≡ false = ground arith in
    rw some_bytes (send_chunks-map buf s.image_id (total_chunks buf) (total_chunks buf) 0)

-- The chunk that completes the frame.
pub store_last :
    (image_id total j : ℕ) (part : Bytes) (chunks : List (ℕ × Bytes)) (buffers : Buffers)
    → (open_buffer image_id total buffers).0 ≡ record { total = total; chunks = chunks }
    → length (insert j part chunks) ≡ total
    → let stored = store_chunk image_id total j part buffers in
      (stored.1 ≡ some (join (insert j part chunks) total 0)) × (lookup image_id stored.0 ≡ none)
unfolding store_chunk
store_last image_id total j part chunks buffers e full =
    let complete : ltb (length (insert j part chunks)) total ≡ false = ground arith in
    rw (store_chunk, e, complete)
      (
        refl,
        lookup-delete_self image_id (
            insert image_id record { total = total; chunks = insert j part chunks }
              (open_buffer image_id total buffers).1),
      )

-- A chunk before it.
pub store_early :
    (image_id total j : ℕ) (part : Bytes) (chunks : List (ℕ × Bytes)) (buffers : Buffers)
    → (open_buffer image_id total buffers).0 ≡ record { total = total; chunks = chunks }
    → length (insert j part chunks) < total
    → let stored = store_chunk image_id total j part buffers in
      (stored.1 ≡ none)
      × ((open_buffer image_id total stored.0).0
          ≡ record { total = total; chunks = insert j part chunks })
unfolding store_chunk open_buffer
store_early image_id total j part chunks buffers e more =
    let waiting : ltb (length (insert j part chunks)) total ≡ true = ground arith in
    rw (store_chunk, e, waiting)
      (
        refl,
        rw
            (
              open_buffer,
              lookup-insert_self image_id record { total = total; chunks = insert j part chunks }
                  (open_buffer image_id total buffers).1,
            )
            refl,
      )

pub receive_silent :
    (first : Bytes) (packets : List Bytes) (buffers : Buffers) (stored : Buffers × Option Bytes)
    → receive_packet first buffers ≡ stored
    → stored.1 ≡ none
    → receive (first ∷ packets) buffers ≡ receive packets stored.0
unfolding receive
receive_silent first packets buffers stored e silent =
    let step : receive (first ∷ packets) buffers ≡ (
      (receive packets (receive_packet first buffers).0).0,
      and_then (receive_packet first buffers).1
          (receive packets (receive_packet first buffers).0).1,
    ) =
      refl in
    step ∙ rw (e, silent) refl

pub first_buffer :
    (image_id total : ℕ) (buffers : Buffers)
    → lookup image_id buffers ≡ none
    → (open_buffer image_id total buffers).0 ≡ record { total = total; chunks = [] }
unfolding open_buffer
first_buffer image_id total buffers h = rw (open_buffer, h) refl
