-- ===== src/Server/Frames.antt =====
-- soy-server/app/pc_bridge.py and soy-pc/api/client.py: frames with a length of four bytes before them.
-- The socket is outside: it says how many bytes the n-th recv hands out.
pub mod RoundTrip
use Prim.Native.Nat.{min}
use iot_repo.Base.{
  ℕ, zero, suc, ◌+◌, ◌-◌, ◌*◌, ◌/◌, ◌%◌, ◌^◌, Bool, ◌||◌, List, [], ◌∷◌, ◌++◌, Option, none, some,
  ltb, ◌==◌, if◌then◌else◌, length, take, drop,
}
use iot_repo.Base.Text.{Bytes}
use iot_repo.Operator.Words.{is_empty}

-- At most so many bytes of what is still to come, or none where recv raises.
pub record Socket : Type 0 where
  pub recv : ℕ → ℕ → Option ℕ

-- Bytes read, what is still to come and the calls made; an end or an error of the connection; or the
-- fuel used up.
pub data Received : Type 0 where
  got : Bytes → Bytes → ℕ → Received
  lost out_of_fuel : Received

abbrev pub max_frame_payload : ℕ
max_frame_payload = 1024 * 1024

-- What recv is asked for.
abbrev pub asked : ℕ → Bytes → ℕ
asked n buf = min 4096 (n - length buf)

-- What it hands out: none where it raises.
abbrev pub chunk : ℕ → Bytes → Bytes → Option ℕ → Bytes
chunk n buf rest none = []
chunk n buf rest (some size) = take (min size (asked n buf)) rest

-- struct.pack(">I", n), below 2 ^ 32.
abbrev pub pack : ℕ → Bytes
pack n = (n / 2 ^ 24 % 256) ∷ (n / 2 ^ 16 % 256) ∷ (n / 2 ^ 8 % 256) ∷ (n % 256) ∷ []

-- struct.unpack(">I", header), of four bytes.
abbrev pub unpack : Bytes → Option ℕ
unpack (a ∷ b ∷ c ∷ d ∷ []) = some (a * 2 ^ 24 + b * 2 ^ 16 + c * 2 ^ 8 + d)
unpack _ = none

-- What sendall is given.
unfoldable pub send_frame : Bytes → Bytes
send_frame payload = pack (length payload) ++ payload

module _ (w : Socket) where
  -- _read_exact, from the bytes that it has. A chunk without a byte is the end.
  unfoldable pub read_exact : ℕ → ℕ → Bytes → ℕ → Bytes → Received
  read_exact zero n buf k rest = if ltb (length buf) n then out_of_fuel else got buf rest k
  read_exact (suc fuel) n buf k rest =
      let c = chunk n buf rest (w.recv k (asked n buf)) in
      let more = read_exact fuel n (buf ++ c) (k + 1) (drop (length c) rest) in
      if ltb (length buf) n then (if is_empty c then lost else more) else got buf rest k

  abbrev pub read_payload : Bytes → ℕ → Option ℕ → Received
  read_payload rest k none = lost
  read_payload rest k (some n) =
      if n == 0 || ltb max_frame_payload n then lost else read_exact n n [] k rest

  abbrev pub after_header : Received → Received
  after_header (got header rest k) = read_payload rest k (unpack header)
  after_header lost = lost
  after_header out_of_fuel = out_of_fuel

  -- _read_frame, with as many rounds as bytes are asked for.
  unfoldable pub read_frame : ℕ → Bytes → Received
  unfolding read_exact
  read_frame k rest = after_header (read_exact 4 4 [] k rest)
