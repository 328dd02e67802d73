-- ===== src/Register/Running.antt =====
-- The kit over any number of rounds, and its start.
use iot_repo.Base.{
  if◌then◌else◌, ℕ, zero, suc, ◌+◌, ◌*◌, ◌≡◌, ◌≤◌, ◌<◌, ◌∙◌, refl, ap, sym, List, [], ◌∷◌, ◌++◌,
  append_assoc, append-nil, Option, none, some, length, length-append, ltb, not, true, false, ◌⊎◌,
  subst, sub32, Bool-cases, inl, inr, arith,
}
use iot_repo.Base.Text.{Bytes}
use iot_repo.Register.{
  Uid, Kit, Register, card_read, send_card_read, read_card, loop, run, wait_serial, init_reader,
  setup,
}

-- The lines for a list of cards, one behind another.
pub lines : Kit → List Uid → Bytes
lines b [] = []
lines b (uid ∷ uids) = card_read b uid ++ lines b uids

-- A card behind the others.
lines_snoc :
    (b : Kit) (uids : List Uid) (uid : Uid)
    → lines b (uids ++ (uid ∷ [])) ≡ lines b uids ++ card_read b uid
unfolding lines
lines_snoc b [] uid = append-nil (card_read b uid)
lines_snoc b (u ∷ uids) uid =
    ap (λ t. card_read b u ++ t) (lines_snoc b uids uid)
    ∙ sym (append_assoc (card_read b u) (lines b uids) (card_read b uid))

-- What the kit has done with the cards it has read: one line for each, and each was halted.
pub record Served (b : Kit) (uids : List Uid) (start m : Register) : Type 0 where
  pub printed : m.printed ≡ start.printed ++ lines b uids
  pub halted : m.halted ≡ start.halted + length uids
  pub stopped : m.stopped ≡ start.stopped + length uids
  pub delayed : m.delayed ≡ start.delayed + 300 * length uids

card_of : Option Uid → List Uid
card_of none = []
card_of (some uid) = uid ∷ []

-- Whether the wait returns.
Returns : Option Register → Type 0
Returns o = (m : Register) × (o ≡ some m)

init_reader-Returns :
    (o : Option Register)
    → Returns o
    → (m : Register) × (init_reader o ≡ some m) × (m.initialised ≡ true)
unfolding Returns init_reader
init_reader-Returns none r = cc
init_reader-Returns (some m) r =
    (record m { initialised = true; delayed = m.delayed + 4 }, refl, refl)

module _ (b : Kit) where
  send-Served :
      (uid : Uid) (uids : List Uid) (start m : Register)
      → Served b uids start m
      → Served b (uids ++ (uid ∷ [])) start (read_card b (some uid) m)
  unfolding read_card send_card_read
  send-Served uid uids start m h =
      let longer = length-append uids (uid ∷ []) in
      record {
        printed =
            ap (λ t. t ++ card_read b uid) h.printed
            ∙ append_assoc start.printed (lines b uids) (card_read b uid)
            ∙ ap (λ t. start.printed ++ t) (sym (lines_snoc b uids uid));
        halted = omega (arith, longer, h.halted);
        stopped = omega (arith, longer, h.stopped);
        delayed = omega (arith, longer, h.delayed);
      }

  read_card-Served :
      (o : Option Uid) (uids : List Uid) (start m : Register)
      → Served b uids start m
      → Served b (uids ++ card_of o) start (read_card b o m)
  unfolding read_card card_of
  read_card-Served none uids start m h = subst (λ us. Served b us start m) (sym (append-nil uids)) h
  read_card-Served (some uid) uids start m h = send-Served uid uids start m h

  asked-Served :
      (uids : List Uid) (start m : Register) (n : ℕ)
      → Served b uids start m
      → Served b uids start (record m { calls = n })
  asked-Served uids start m n h = record {
    printed = h.printed;
    halted = h.halted;
    stopped = h.stopped;
    delayed = h.delayed;
  }

  -- The card that a round reads: there is a new one, and its serial number can be read.
  pub round_card : Register → List Uid
  round_card m =
      if b.picc_is_new_card_present m.calls
      then card_of (b.picc_read_card_serial (m.calls + 1))
      else []

  -- The cards that that many rounds read, in their order.
  pub cards_read : ℕ → Register → List Uid
  cards_read zero start = []
  cards_read (suc k) start = cards_read k start ++ round_card (run b k start)

  loop-Served :
      (uids : List Uid) (start m : Register)
      → Served b uids start m
      → Served b (uids ++ round_card m) start (loop b m)
  unfolding loop round_card
  loop-Served uids start m h = elim (Bool-cases (b.picc_is_new_card_present m.calls)) [
    | inr absent ↦
        let same : uids ++ [] ≡ uids = append-nil uids in
        rw (absent, same) (asked-Served uids start m (m.calls + 1) h)
    | inl there ↦ rw there (
        read_card-Served (b.picc_read_card_serial (m.calls + 1)) uids start
          (record m { calls = m.calls + 2 }) (asked-Served uids start m (m.calls + 2) h))
  ]

  -- However many rounds the kit makes, it prints whole lines only, one for each card that it has
  -- read, in their order; and each of these cards was halted, with a pause of 300 milliseconds
  -- behind it.
  pub run-Served : (k : ℕ) (start : Register) → Served b (cards_read k start) start (run b k start)
  unfolding run lines cards_read
  run-Served zero start = record {
    printed = sym (append-nil start.printed);
    halted = omega arith;
    stopped = omega arith;
    delayed = omega arith;
  }
  run-Served (suc k) start =
      loop-Served (cards_read k start) start (run b k start) (run-Served k start)

  -- One round: it returns at once, or behind it.
  wait_serial-round :
      (fuel t : ℕ) (m : Register)
      → ltb (sub32 (b.millis (m.calls + 1)) t) 2000 ≡ false
        ⊎ Returns (wait_serial b fuel t (record m { calls = m.calls + 2 }))
      → Returns (wait_serial b (suc fuel) t m)
  unfolding wait_serial Returns
  wait_serial-round fuel t m h = elim (Bool-cases (not (b.serial m.calls))) [
    | inr ready ↦ rw (wait_serial, ready) (record m { calls = m.calls + 1 }, refl)
    | inl waiting ↦ elim (Bool-cases (ltb (sub32 (b.millis (m.calls + 1)) t) 2000)) [
      | inr late ↦ rw (wait_serial, waiting, late) (record m { calls = m.calls + 2 }, refl)
      | inl early ↦ elim h [ inl late ↦ cc | inr rest ↦ rw (wait_serial, waiting, early) rest ]
    ]
  ]

  wait_serial-Returns :
      (k fuel t : ℕ) (m : Register)
      → 2000 ≤ sub32 (b.millis (m.calls + 2 * k + 1)) t
      → k < fuel
      → Returns (wait_serial b fuel t m)
  wait_serial-Returns k zero t m late h = elim h [ ]
  wait_serial-Returns zero (suc fuel) t m late h =
      let here : m.calls + 2 * 0 + 1 ≡ m.calls + 1 = omega arith in
      let over = subst (λ n. 2000 ≤ sub32 (b.millis n) t) here late in
      wait_serial-round fuel t m (inl (ground (arith, over)))
  wait_serial-Returns (suc k) (suc fuel) t m late h =
      let later : m.calls + 2 * suc k + 1 ≡ m.calls + 2 + 2 * k + 1 = omega arith in
      wait_serial-round fuel t m (
        inr (
          wait_serial-Returns k fuel t (record m { calls = m.calls + 2 })
            (subst (λ n. 2000 ≤ sub32 (b.millis n) t) later late) (omega (arith, h))))

  -- Where the reading of the clock in round k + 1 of the wait is 2000 milliseconds or more behind
  -- the first reading, k + 1 rounds are enough for setup to end with the reader initialised,
  -- whether or not the serial port is ever ready.
  pub setup-ends :
      (k fuel : ℕ) (m : Register)
      → 2000 ≤ sub32 (b.millis (m.calls + 1 + 2 * k + 1)) (b.millis m.calls)
      → k < fuel
      → (m' : Register) × (setup b fuel m ≡ some m') × (m'.initialised ≡ true)
  unfolding setup
  setup-ends k fuel m late h =
      init_reader-Returns _
        (wait_serial-Returns k fuel (b.millis m.calls) (record m { calls = m.calls + 1 }) late h)
