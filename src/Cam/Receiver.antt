-- ===== src/Cam/Receiver.antt =====
-- soy-pc/features/worker/threads.py, UdpCameraThread: how the operator program puts the packets of
-- the camera together again. A dictionary is an association list; the decoding of the picture is
-- not part of it.
pub mod Indices
mod Steps
mod Pending
pub mod Others
pub mod Frames
pub mod Order
pub mod Bound
use iot_repo.Base.{
  ℕ, zero, suc, ◌+◌, ◌*◌, List, [], ◌∷◌, ◌++◌, Option, none, some, Bool, true, false, not, ◌||◌,
  ◌==◌, length, take, drop, ltb, if◌then◌else◌, lookup, insert, delete,
}
use iot_repo.Base.Text.{Bytes, codes, bytes_eq}

-- {"total": .., "chunks": {..}}
pub record Buffer : Type 0 where
  pub total : ℕ
  pub chunks : List (ℕ × Bytes)

abbrev pub Buffers : Type 0
Buffers = List (ℕ × Buffer)

-- struct.unpack_from("<H", data, n)[0], of which the caller has checked the length.
unfoldable pub unpack : ℕ → Bytes → ℕ
unpack n packet = elim (drop n packet) [
  | [] ↦ 0
  | low ∷ rest ↦ elim rest [ [] ↦ 0 | high ∷ _ ↦ low + 256 * high ]
]

-- min(buffers.keys()), of a first key and the other entries.
unfoldable pub oldest : ℕ → Buffers → ℕ
oldest k [] = k
oldest k ((j, _) ∷ buffers) = oldest (if ltb j k then j else k) buffers

-- Room for a new image.
unfoldable pub evict : Buffers → Buffers
unfolding oldest delete
evict [] = []
evict ((k, b) ∷ buffers) =
    if ltb 2 (length ((k, b) ∷ buffers))
    then delete (oldest k buffers) ((k, b) ∷ buffers)
    else ((k, b) ∷ buffers)

-- buffers[image_id], created when it is missing.
unfoldable pub open_buffer : ℕ → ℕ → Buffers → Buffer × Buffers
unfolding lookup insert evict
open_buffer image_id total buffers = elim (lookup image_id buffers) [
  | some buf ↦ (buf, buffers)
  | none ↦
      let buf : Buffer = record { total = total; chunks = [] } in
      (buf, insert image_id buf (evict buffers))
]

-- buf["chunks"].get(i, b"")
unfoldable pub chunk : ℕ → List (ℕ × Bytes) → Bytes
unfolding lookup
chunk i chunks = elim (lookup i chunks) [ some part ↦ part | none ↦ [] ]

-- b"".join(..) over the rounds that are left, from index i on.
unfoldable pub join : List (ℕ × Bytes) → ℕ → ℕ → Bytes
join chunks zero i = []
join chunks (suc left) i = chunk i chunks ++ join chunks left (i + 1)

-- A chunk that was received: the buffers behind it, and the frame that it completes.
unfoldable pub store_chunk : ℕ → ℕ → ℕ → Bytes → Buffers → Buffers × Option Bytes
unfolding insert delete open_buffer join
store_chunk image_id total index part buffers =
    let opened = open_buffer image_id total buffers in
    let buf = opened.0 in
    let filled = record buf { chunks = insert index part buf.chunks } in
    let stored = insert image_id filled opened.1 in
    if ltb (length filled.chunks) filled.total
    then (stored, none)
    else (delete image_id stored, some (join filled.chunks filled.total 0))

-- One round of the loop on a datagram.
unfoldable pub receive_packet : Bytes → Buffers → Buffers × Option Bytes
unfolding unpack store_chunk
receive_packet packet buffers =
    if ltb (length packet) 10 || not (bytes_eq (take 3 packet) (codes "IMG"))
    then (buffers, none)
    else store_chunk (unpack 4 packet) (unpack 6 packet) (unpack 8 packet) (drop 10 packet) buffers

abbrev pub and_then : Option Bytes → List Bytes → List Bytes
and_then none frames = frames
and_then (some frame) frames = frame ∷ frames

-- The datagrams in the order of their arrival, and the frames that they complete.
unfoldable pub receive : List Bytes → Buffers → Buffers × List Bytes
unfolding receive_packet
receive [] buffers = (buffers, [])
receive (packet ∷ packets) buffers =
    let first = receive_packet packet buffers in
    let later = receive packets first.0 in (later.0, and_then first.1 later.1)
