-- ===== src/Server/Broadcast.antt =====
-- soy-server/app/pc_bridge.py, _serial_loop and _broadcast_card_read: what the registration kit prints
-- goes to every connection.
use iot_repo.Base.{ℕ, Bool, List, [], ◌∷◌, if◌then◌else◌}
use iot_repo.Base.Text.{Bytes}
use iot_repo.Operator.Words.{strip, is_empty}
use iot_repo.Server.Frames.{send_frame}

-- A connection, with what the server has sent on it, the last frame first.
pub record Peer : Type 0 where
  pub peer : ℕ
  pub sent : List Bytes

abbrev pub with_frame : Bytes → Peer → Peer
with_frame payload p = record p { sent = send_frame payload ∷ p.sent }

-- A connection on which the frame cannot be sent is closed and left out.
unfoldable pub broadcast : (ℕ → Bool) → Bytes → List Peer → List Peer
unfolding send_frame strip
broadcast sends line [] = []
broadcast sends line (p ∷ ps) =
    let rest = broadcast sends line ps in
    if sends p.peer then with_frame (strip line) p ∷ rest else rest

-- A line from the serial port; `is_card` is whether it is the JSON of a card_read.
unfoldable pub serial_line : (Bytes → Bool) → (ℕ → Bool) → Bytes → List Peer → List Peer
unfolding broadcast strip
serial_line is_card sends raw ps =
    let line = strip raw in
    if is_empty line then ps else if is_card line then broadcast sends line ps else ps
