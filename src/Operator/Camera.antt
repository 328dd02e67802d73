-- ===== src/Operator/Camera.antt =====
-- soy-pc/features/worker/threads.py: which of the codes that the detector finds are handed on, in
-- QRDecodeWorker and CameraQRThread. The detector and the clock are parameters; times are whole
-- milliseconds.
use iot_repo.Base.{
  ℕ, ◌+◌, ◌≤◌, ◌≡◌, ◌≢◌, refl, subst, Bool, true, false, not, ◌&&◌, Bool-cases, inl, inr, List, [],
  ◌∷◌, Option, none, some, ltb, if◌then◌else◌, arith,
}
use iot_repo.Base.Text.{Bytes, bytes_eq, bytes_eq_refl}
use iot_repo.Operator.Words.{is_empty, strip}

-- The cooldown of the worker, and that of the local camera.
abbrev pub worker_cooldown : ℕ
worker_cooldown = 1000

abbrev pub camera_cooldown : ℕ
camera_cooldown = 2000

-- What happened, newest first: a code handed on at a time, or a reset.
pub data Handed : Type 0 where
  emitted : ℕ → Bytes → Handed
  was_reset : Handed

pub record QrReader : Type 0 where
  pub last_decoded : Option Bytes
  pub cooldown_until : ℕ
  pub handed : List Handed

abbrev pub reader : QrReader
reader = record { last_decoded = none; cooldown_until = 0; handed = [] }

-- `qr_data != self._last_decoded`.
abbrev pub differs : Bytes → Option Bytes → Bool
differs code none = true
differs code (some last) = not (bytes_eq code last)

-- The loop over the texts up to its break.
unfoldable pub first_new : Option Bytes → List Bytes → Option Bytes
first_new last [] = none
first_new last (text ∷ texts) =
    let rest = first_new last texts in
    if not (is_empty (strip text)) && differs (strip text) last then some (strip text) else rest

abbrev pub hand_on : ℕ → ℕ → Option Bytes → QrReader → QrReader
hand_on cooldown now none r = r
hand_on cooldown now (some code) r = record {
  last_decoded = some code;
  cooldown_until = now + cooldown;
  handed = emitted now code ∷ r.handed;
}

-- One frame, with what the detector finds in it.
unfoldable pub decode_frame : ℕ → ℕ → List Bytes → QrReader → QrReader
unfolding first_new
decode_frame cooldown now texts r =
    if ltb now r.cooldown_until then r else hand_on cooldown now (first_new r.last_decoded texts) r

unfoldable pub reset_cooldown : QrReader → QrReader
reset_cooldown r = record { last_decoded = none; cooldown_until = 0; handed = was_reset ∷ r.handed }

-- The queue of the worker holds one frame; a new one takes the place of the old one.
unfoldable pub put_frame {ℓ} : {A : Type ℓ} → A → Option A → Option A
put_frame frame waiting = some frame

pub data CameraEvent : Type 0 where
  frame_read : ℕ → List Bytes → CameraEvent
  bottle_seen : CameraEvent

-- The events, the last one first.
unfoldable pub read_all : ℕ → List CameraEvent → QrReader
unfolding decode_frame reset_cooldown
read_all cooldown [] = reader
read_all cooldown (frame_read now texts ∷ es) =
    decode_frame cooldown now texts (read_all cooldown es)
read_all cooldown (bottle_seen ∷ es) = reset_cooldown (read_all cooldown es)

-- No code is blank, and of two with no reset between them the later one comes a cooldown or more behind
-- the other and differs from it.
pub Spaced : ℕ → List Handed → Type 0
Spaced cooldown [] = Unit
Spaced cooldown (was_reset ∷ l) = Spaced cooldown l
Spaced cooldown (emitted now code ∷ []) = code ≢ []
Spaced cooldown (emitted now code ∷ was_reset ∷ l) = (code ≢ []) × Spaced cooldown l
Spaced cooldown (emitted now code ∷ emitted before other ∷ l) =
    (code ≢ [])
    × ((before + cooldown ≤ now) × ((code ≢ other) × Spaced cooldown (emitted before other ∷ l)))

-- What is remembered of the code handed on last: the code, and when the cooldown behind it ends.
abbrev Memory : ℕ → Option Bytes → ℕ → List Handed → Type 0
Memory cooldown last until [] = Unit
Memory cooldown last until (was_reset ∷ l) = Unit
Memory cooldown last until (emitted before other ∷ l) =
    (last ≡ some other) × (until ≡ before + cooldown)

differs_sound : (code other : Bytes) → differs code (some other) ≡ true → code ≢ other
differs_sound code other e same =
    let equal : bytes_eq code other ≡ true =
      subst (λ o. bytes_eq code o ≡ true) same (bytes_eq_refl code) in
    ground arith

not_empty : (text : Bytes) → is_empty text ≡ false → text ≢ []
not_empty [] e = cc
not_empty (c ∷ text) e = λ none_there. cc

first_new_sound :
    (last : Option Bytes) (texts : List Bytes) (code : Bytes)
    → first_new last texts ≡ some code
    → (code ≢ []) × (differs code last ≡ true)
unfolding first_new
first_new_sound last [] code e = cc
first_new_sound last (text ∷ texts) code e = elim (Bool-cases (is_empty (strip text))) [
  | inl blank ↦ first_new_sound last texts code (rw blank at e)
  | inr full ↦ elim (Bool-cases (differs (strip text) last)) [
    | inl new ↦
        let found : some (strip text) ≡ some code = rw (full, new) at e in
        let same : strip text ≡ code = cc in
        subst (λ c. (c ≢ []) × (differs c last ≡ true)) same (not_empty (strip text) full, new)
    | inr old ↦ first_new_sound last texts code (rw (full, old) at e)
  ]
]

emitted-Spaced :
    (cooldown now until : ℕ) (last : Option Bytes) (code : Bytes) (l : List Handed)
    → code ≢ []
    → differs code last ≡ true
    → until ≤ now
    → Memory cooldown last until l
    → Spaced cooldown l
    → Spaced cooldown (emitted now code ∷ l)
unfolding Spaced
emitted-Spaced cooldown now until last code [] full new late memory h = full
emitted-Spaced cooldown now until last code (was_reset ∷ l) full new late memory h = (full, h)
emitted-Spaced cooldown now until last code (emitted before other ∷ l) full new late (same, ends)
      h =
    (
      full,
      (
        omega (arith, late, ends),
        (differs_sound code other (subst (λ o. differs code o ≡ true) same new), h),
      ),
    )

record Kept (cooldown : ℕ) (r : QrReader) : Type 0 where
  spaced : Spaced cooldown r.handed
  memory : Memory cooldown r.last_decoded r.cooldown_until r.handed

hand_on-Kept :
    (cooldown now : ℕ) (r : QrReader) (o : Option Bytes)
    → r.cooldown_until ≤ now
    → ((code : Bytes) → o ≡ some code → (code ≢ []) × (differs code r.last_decoded ≡ true))
    → Kept cooldown r
    → Kept cooldown (hand_on cooldown now o r)
hand_on-Kept cooldown now r none late found h = h
hand_on-Kept cooldown now r (some code) late found h = record {
  spaced =
      emitted-Spaced cooldown now r.cooldown_until r.last_decoded code r.handed (found code refl).0
        (found code refl).1 late h.memory h.spaced;
  memory = (refl, refl);
}

read_all-Kept : (cooldown : ℕ) (es : List CameraEvent) → Kept cooldown (read_all cooldown es)
unfolding read_all decode_frame reset_cooldown Spaced
read_all-Kept cooldown [] = record { spaced = tt; memory = tt }
read_all-Kept cooldown (bottle_seen ∷ es) = record {
  spaced = (read_all-Kept cooldown es).spaced;
  memory = tt;
}
read_all-Kept cooldown (frame_read now texts ∷ es) =
    let r = read_all cooldown es in
    elim (Bool-cases (ltb now r.cooldown_until)) [
      | inl early ↦ rw early (read_all-Kept cooldown es)
      | inr late ↦ rw late (
          hand_on-Kept cooldown now r (first_new r.last_decoded texts) (ground arith)
            (λ code e. first_new_sound r.last_decoded texts code e) (read_all-Kept cooldown es))
    ]

-- Whatever frames are read and resets come: no code handed on is blank, and of two codes handed on
-- one behind the other with no reset between them the later one comes at least the cooldown after
-- the other and differs from it.
pub read_all-Spaced :
    (cooldown : ℕ) (es : List CameraEvent) → Spaced cooldown (read_all cooldown es).handed
read_all-Spaced cooldown es = (read_all-Kept cooldown es).spaced
