-- ===== src/Cam/Receiver/Frames.antt =====
-- Whole frame buffers, sent and received.
use iot_repo.Base.{
  ℕ, ◌+◌, ◌*◌, ◌/◌, ◌≤◌, ◌<◌, ◌≡◌, ◌≢◌, ◌∙◌, inl, inr, refl, sym, subst, List, [], ◌∷◌, Option,
  none, some, length, Bool-cases, false, ◌==◌, ==_iff, if◌then◌else◌, lookup, arith,
}
use iot_repo.Base.Text.{Bytes}
use iot_repo.Cam.Udp.{UdpStreamer, send_frame, send_chunks, total_chunks}
use iot_repo.Cam.Udp.Chunks.{total_chunks_exact}
use iot_repo.Cam.Receiver.{Buffers, receive}
use iot_repo.Cam.Receiver.Indices.{unchanged}
use iot_repo.Cam.Receiver.Others.{missing-send_chunks}
use iot_repo.Cam.Receiver.Order.{receive-send_frame}

-- The frame that a frame buffer makes the operator see: an empty one makes none.
pub shown : Option Bytes → List Bytes
shown none = []
shown (some buf) = if length buf == 0 then [] else buf ∷ []

-- No image is incomplete.
unfoldable pub Quiet : Buffers → Type 0
Quiet buffers = (j : ℕ) → lookup j buffers ≡ none

-- A frame buffer whose chunks can be numbered in 16 bits.
unfoldable pub Fits : Option Bytes → Type 0
Fits o = (buf : Bytes) → o ≡ some buf → length buf ≤ 65535 * 1024

-- What a receiver makes of the packets of a frame buffer.
unfoldable pub Seen : List Bytes → Buffers × List Bytes → Type 0
Seen frames got = (got.1 ≡ frames) × Quiet got.0

send_frame-send_chunks :
    (buf : Bytes) (s : UdpStreamer)
    → (length buf == 0) ≡ false
    → (send_frame (some buf) s).1
      ≡ send_chunks buf s.image_id (total_chunks buf) (total_chunks buf) 0
unfolding send_frame
send_frame-send_chunks buf s h = rw h refl

nothing_sent :
    (o : Option Bytes) (s : UdpStreamer) (buffers : Buffers)
    → (send_frame o s).1 ≡ []
    → shown o ≡ []
    → Quiet buffers
    → Seen (shown o) (receive (send_frame o s).1 buffers)
unfolding receive Seen
nothing_sent o s buffers e f quiet = rw (e, f) (refl, quiet)

-- The packets of a frame leave no image incomplete.
quiet_behind :
    (buf : Bytes) (s : UdpStreamer) (buffers : Buffers) (j : ℕ)
    → (length buf == 0) ≡ false
    → length buf ≤ 65535 * 1024
    → s.image_id < 65536
    → lookup s.image_id (receive (send_frame (some buf) s).1 buffers).0 ≡ none
    → lookup j buffers ≡ none
    → lookup j (receive (send_frame (some buf) s).1 buffers).0 ≡ none
quiet_behind buf s buffers j bytes fits a gone missing = elim (Bool-cases (j == s.image_id)) [
  | inl same ↦
      subst (λ i. lookup i (receive (send_frame (some buf) s).1 buffers).0 ≡ none)
        (sym ((==_iff j s.image_id).0 same)) gone
  | inr other ↦
      let total : total_chunks buf ≡ (length buf + 1023) / 1024 =
        total_chunks_exact buf (omega arith) in
      let differs : j ≢ s.image_id = ground (arith, other) in
      subst (λ packets. lookup j (receive packets buffers).0 ≡ none)
        (sym (send_frame-send_chunks buf s bytes))
        (missing-send_chunks j buf s.image_id (total_chunks buf) (total_chunks buf) 0 buffers a
          (omega (arith, total)) (omega arith) differs missing)
]

pub receive_frame :
    (o : Option Bytes) (s : UdpStreamer) (buffers : Buffers)
    → Fits o
    → s.image_id < 65536
    → Quiet buffers
    → Seen (shown o) (receive (send_frame o s).1 buffers)
unfolding Seen Quiet Fits
receive_frame none s buffers fits a quiet =
    nothing_sent none s buffers (unfold send_frame in refl) (unfold shown in refl) quiet
receive_frame (some buf) s buffers fits a quiet = elim (Bool-cases (length buf == 0)) [
  | inl empty ↦
      nothing_sent (some buf) s buffers (unfold send_frame in rw empty refl)
        (unfold shown in rw empty refl) quiet
  | inr bytes ↦
      let sent = (send_frame (some buf) s).1 in
      let got =
        receive-send_frame buf s sent buffers (ground (arith, bytes)) (fits buf refl) a
          (quiet s.image_id) (unchanged sent) in
      let seen : shown (some buf) ≡ buf ∷ [] = unfold shown in rw bytes refl in
      (got.0 ∙ sym seen, λ j. quiet_behind buf s buffers j bytes (fits buf refl) a got.1 (quiet j))
]
