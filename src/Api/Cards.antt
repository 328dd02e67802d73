-- ===== src/Api/Cards.antt =====
-- A card held to the registration kit, from what the kit prints to the callback of the operator's program:
-- register_controller.ino, _serial_loop of pc_bridge.py and _reader_loop of api/client.py.
use iot_repo.Base.{
  ℕ, ◌≤◌, ◌≡◌, refl, ◌∙◌, sym, ap, Bool, true, false, Bool-cases, inl, inr, List, [], ◌∷◌, ◌++◌,
  map, Option, some, length, append_assoc, if◌then◌else◌, arith,
}
use iot_repo.Base.Text.{Bytes, codes}
use iot_repo.Operator.Words.{left_strip, right_strip, strip_step, strip, is_empty}
use iot_repo.Register.{Uid, Kit, before_uid, after_uid, uid_text, card_read}
use iot_repo.Server.Frames.{Socket, max_frame_payload, send_frame, read_frame}
use iot_repo.Server.Frames.RoundTrip.{Delivers, read_frame-send_frame}
use iot_repo.Server.Broadcast.{Peer, with_frame, broadcast, serial_line}
use iot_repo.Api.{Incoming, card_message, Api, receive, take_message, reader_pass}

-- The line of a card, without its end.
abbrev pub card_line : Bytes → Bytes
card_line uid = before_uid ++ (uid ++ codes "\"}")

-- The connections on which frames go out.
unfoldable pub living : (ℕ → Bool) → List Peer → List Peer
living sends [] = []
living sends (p ∷ ps) = let rest = living sends ps in if sends p.peer then p ∷ rest else rest

right_strip-append :
    (s t r : Bytes) (d : ℕ) → right_strip t ≡ d ∷ r → right_strip (s ++ t) ≡ s ++ (d ∷ r)
unfolding right_strip
right_strip-append [] t r d h = h
right_strip-append (c ∷ []) t r d h = ap (strip_step c) h
right_strip-append (c ∷ e ∷ s) t r d h = ap (strip_step c) (right_strip-append (e ∷ s) t r d h)

broadcast-living :
    (sends : ℕ → Bool) (line : Bytes) (ps : List Peer)
    → broadcast sends line ps ≡ map (with_frame (strip line)) (living sends ps)
unfolding broadcast living
broadcast-living sends line [] = refl
broadcast-living sends line (p ∷ ps) = elim (Bool-cases (sends p.peer)) [
  | inl works ↦ rw works (ap (◌∷◌ (with_frame (strip line) p)) (broadcast-living sends line ps))
  | inr dead ↦ rw dead (broadcast-living sends line ps)
]

-- The blanks behind a line of a card are stripped, and nothing else is.
strip_ended :
    (uid tail : Bytes)
    → right_strip tail ≡ codes "\"}"
    → strip (before_uid ++ (uid ++ tail)) ≡ card_line uid
unfolding strip left_strip
strip_ended uid tail h =
    ap right_strip (sym (append_assoc before_uid uid tail))
    ∙ right_strip-append (before_uid ++ uid) tail (125 ∷ []) 34 h
    ∙ append_assoc before_uid uid (codes "\"}")

strip-after_uid : right_strip after_uid ≡ codes "\"}"
unfolding right_strip
strip-after_uid = refl

strip-card_line : (uid : Bytes) → strip (card_line uid) ≡ card_line uid
unfolding right_strip
strip-card_line uid = strip_ended uid (codes "\"}") refl

-- The JSON of the line is a card_read with that text, and fits a frame.
pub record CardReadable (is_card : Bytes → Bool) (loads : Bytes → Option Incoming) (uid : Bytes)
    : Type 0 where
  pub card : is_card (card_line uid) ≡ true
  pub loads_line : loads (card_line uid) ≡ some (card_message uid)
  pub some_uid : is_empty uid ≡ false
  pub small : length (card_line uid) ≤ max_frame_payload

module _ (is_card : Bytes → Bool) (loads : Bytes → Option Incoming) where
  serial_line-card_read :
      (b : Kit) (uid : Uid) (sends : ℕ → Bool) (ps : List Peer)
      → CardReadable is_card loads (uid_text b uid.uid_byte uid.size 0)
      → serial_line is_card sends (card_read b uid) ps
        ≡ map (with_frame (card_line (uid_text b uid.uid_byte uid.size 0))) (living sends ps)
  unfolding serial_line card_read
  serial_line-card_read b uid sends ps readable =
      let text = uid_text b uid.uid_byte uid.size 0 in
      rw (strip_ended text after_uid strip-after_uid, readable.card)
        (broadcast-living sends (card_line text) ps
          ∙ ap (λ line. map (with_frame line) (living sends ps)) (strip-card_line text))

  reader_pass-card_line :
      (v : Socket) (a : Api) (uid u : Bytes) (n : ℕ)
      → Delivers v
      → CardReadable is_card loads uid
      → a.has_callback ≡ true
      → (reader_pass loads (read_frame v n (send_frame (card_line uid) ++ u)) a).heard
        ≡ uid ∷ a.heard
  unfolding reader_pass receive
  reader_pass-card_line v a uid u n delivers readable called =
      let frame =
        read_frame-send_frame v (card_line uid) u n delivers (omega arith) readable.small in
      ap (λ x. (reader_pass loads x a).heard) frame.1
      ∙ ap (λ o. (take_message o a).heard) readable.loads_line
      ∙ rw (readable.some_uid, called) refl

  -- Where the JSON of the kit's line is read as a card_read with the text of the UID (which is not
  -- empty) and fits a frame: what the kit prints for a card goes out as one frame, with one text,
  -- on every connection of the server on which it can be sent, and the others are closed; and a
  -- client with a callback that reads this frame, however its connection cuts it and whatever
  -- follows, calls the callback with the UID as the kit prints it.
  pub card_read_heard :
      (b : Kit) (uid : Uid) (sends : ℕ → Bool) (ps : List Peer) (v : Socket) (a : Api) (u : Bytes)
      (n : ℕ)
      → CardReadable is_card loads (uid_text b uid.uid_byte uid.size 0)
      → Delivers v
      → a.has_callback ≡ true
      → let text = uid_text b uid.uid_byte uid.size 0 in
        (line : Bytes) × ((serial_line is_card sends (card_read b uid) ps
            ≡ map (with_frame line) (living sends ps))
          × ((reader_pass loads (read_frame v n (send_frame line ++ u)) a).heard ≡ text ∷ a.heard))
  card_read_heard b uid sends ps v a u n readable delivers called = (
    card_line (uid_text b uid.uid_byte uid.size 0),
    (
      serial_line-card_read b uid sends ps readable,
      reader_pass-card_line v a (uid_text b uid.uid_byte uid.size 0) u n delivers readable called,
    ),
  )
