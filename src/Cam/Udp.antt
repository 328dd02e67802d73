-- ===== src/Cam/Udp.antt =====
-- stream/udp_streamer.h and stream/udp_streamer.cpp: a frame is cut into chunks of 1024 bytes, and
-- each goes out as one packet behind a header of 10 bytes. What a failed endPacket changes is only
-- the delay behind it.
pub mod Chunks
use Prim.Native.String.{String}
use iot_repo.Base.{
  ℕ, zero, suc, ◌+◌, ◌-◌, ◌*◌, ◌/◌, ◌%◌, ◌^◌, List, [], ◌∷◌, ◌++◌, Option, none, some, length, take,
  drop, ltb, ◌==◌, if◌then◌else◌,
}
use iot_repo.Base.Text.{Bytes, codes}

pub record UdpStreamer : Type 0 where
  pub dest_ip : String
  pub dest_port : ℕ
  pub image_id : ℕ

abbrev pub fresh : UdpStreamer
fresh = record { dest_ip = ""; dest_port = 8021; image_id = 0 }

abbrev pub max_udp_payload : ℕ
max_udp_payload = 1024

unfoldable pub begin : String → ℕ → UdpStreamer → UdpStreamer
begin ip port s = record s { dest_ip = ip; dest_port = port }

-- The two low bytes of a value as they lie in memory, low byte first.
unfoldable pub low_bytes : ℕ → Bytes
low_bytes n = (n % 256) ∷ (n / 256 % 256) ∷ []

-- Three writes of the packet: "IMG" and 'S', then the three numbers.
unfoldable pub header : ℕ → ℕ → ℕ → Bytes
unfolding low_bytes
header image_id total i = codes "IMGS" ++ (low_bytes image_id ++ (low_bytes total ++ low_bytes i))

-- `fb->buf + offset` for `payloadSize` bytes.
unfoldable pub payload : Bytes → ℕ → Bytes
payload buf i =
    let offset = i * max_udp_payload in
    let rest = length buf - offset in
    take (if ltb max_udp_payload rest then max_udp_payload else rest) (drop offset buf)

unfoldable pub packet : Bytes → ℕ → ℕ → ℕ → Bytes
packet buf image_id total i = header image_id total i ++ payload buf i

-- The loop from round i on, with the rounds that are left.
unfoldable pub send_chunks : Bytes → ℕ → ℕ → ℕ → ℕ → List Bytes
send_chunks buf image_id total zero i = []
send_chunks buf image_id total (suc left) i =
    packet buf image_id total i ∷ send_chunks buf image_id total left (i + 1)

-- `fb->len` is a 32-bit size_t.
unfoldable pub total_chunks : Bytes → ℕ
total_chunks buf = (length buf + max_udp_payload + (2 ^ 32 - 1)) % 2 ^ 32 / max_udp_payload

-- The streamer behind the call, and the packets in the order in which they go out.
unfoldable pub send_frame : Option Bytes → UdpStreamer → UdpStreamer × List Bytes
unfolding send_chunks total_chunks
send_frame none s = (s, [])
send_frame (some buf) s =
    let total = total_chunks buf in
    if length buf == 0 then (s, []) else (
      record s { image_id = (s.image_id + 1) % 2 ^ 16 },
      send_chunks buf s.image_id total total 0,
    )
