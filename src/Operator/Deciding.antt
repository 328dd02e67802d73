-- ===== src/Operator/Deciding.antt =====
-- When a code is taken, and where its bottle goes.
use iot_repo.Base.{
  ℕ, ◌-◌, ◌≤◌, ◌≡◌, ◌≢◌, ◌↔◌, refl, sym, ap, subst, Bool, true, false, not, ◌&&◌, ◌⊎◌, inl, inr,
  Bool-cases, List, [], ◌∷◌, ◌++◌, none, some, if◌then◌else◌, arith,
}
use iot_repo.Base.Text.{Bytes, codes, bytes_eq, bytes_eq_sound, bytes_eq_refl}
use iot_repo.Operator.{SortDirection, line_1l, line_2l, warn, QrGate, World}
use iot_repo.Operator.Words.{is_empty, strip, ends_with, is_ordered, classify}
use iot_repo.Operator.Gate.{try_accept, comparable, min_qr_interval}

-- A text that ends in a suffix.
abbrev pub EndsIn : Bytes → Bytes → Type 0
EndsIn suffix s = (start : Bytes) × (s ≡ start ++ suffix)

ends_with_sound : (suffix s : Bytes) → ends_with suffix s ≡ true → EndsIn suffix s
unfolding ends_with
ends_with_sound suffix [] e = ([], bytes_eq_sound [] suffix e)
ends_with_sound suffix (c ∷ s) e = elim (Bool-cases (bytes_eq (c ∷ s) suffix)) [
  | inl whole ↦ ([], bytes_eq_sound (c ∷ s) suffix whole)
  | inr longer ↦
      let (start, same) = ends_with_sound suffix s (rw longer at e) in (c ∷ start, ap (◌∷◌ c) same)
]

ends_with_complete : (suffix start : Bytes) → ends_with suffix (start ++ suffix) ≡ true
unfolding ends_with
ends_with_complete [] [] = refl
ends_with_complete (c ∷ suffix) [] = rw (bytes_eq_refl (c ∷ suffix)) refl
ends_with_complete suffix (c ∷ start) = elim (Bool-cases (bytes_eq (c ∷ start ++ suffix) suffix)) [
  | inl whole ↦ rw whole refl
  | inr longer ↦ rw longer (ends_with_complete suffix start)
]

not_EndsIn : (suffix s : Bytes) → ends_with suffix s ≡ false → ¬ (EndsIn suffix s)
not_EndsIn suffix s e (start, same) =
    let yes : ends_with suffix s ≡ true =
      subst (λ x. ends_with suffix x ≡ true) (sym same) (ends_with_complete suffix start) in
    cc

-- The test for the same code again.
abbrev pub is_repeated : Bytes → Bytes → Bool
is_repeated code last = not (is_empty code) && bytes_eq code last

repeated_sound : (code last : Bytes) → is_repeated code last ≡ false → (code ≡ []) ⊎ (code ≢ last)
repeated_sound [] last e = inl refl
repeated_sound (c ∷ code) last e = inr (λ same.
    let again : bytes_eq (c ∷ code) last ≡ true =
      subst (λ l. bytes_eq (c ∷ code) l ≡ true) same (bytes_eq_refl (c ∷ code)) in
    cc)

repeated_complete :
    (code last : Bytes) → (code ≡ []) ⊎ (code ≢ last) → is_repeated code last ≡ false
repeated_complete [] last h = refl
repeated_complete (c ∷ code) last (inl none_there) = cc
repeated_complete (c ∷ code) last (inr apart) = elim (Bool-cases (bytes_eq (c ∷ code) last)) [
  | inl same ↦ absurd (apart (bytes_eq_sound (c ∷ code) last same))
  | inr differs ↦ differs
]

module _ (w : World) where
  -- An item of the order whose code is the same but for blanks around it and for capitals.
  pub Ordered : Bytes → List Bytes → Type 0
  Ordered code items =
      (item : Bytes) × ((before after : List Bytes) × ((items ≡ before ++ (item ∷ after))
          × (w.lower (strip item) ≡ code)))

  is_ordered_sound :
      (code : Bytes) (items : List Bytes) → is_ordered w code items ≡ true → Ordered code items
  unfolding is_ordered Ordered
  is_ordered_sound code [] e = cc
  is_ordered_sound code (item ∷ items) e =
      elim (Bool-cases (bytes_eq (w.lower (strip item)) code)) [
        | inl here ↦ (item, ([], items, (refl, bytes_eq_sound _ code here)))
        | inr later ↦
            let (found, (before, after, (split, same))) =
              is_ordered_sound code items (rw later at e) in
            (found, (item ∷ before, after, (ap (◌∷◌ item) split, same)))
      ]

  is_ordered_complete :
      (item : Bytes) (before after : List Bytes)
      → is_ordered w (w.lower (strip item)) (before ++ (item ∷ after)) ≡ true
  unfolding is_ordered
  is_ordered_complete item [] after = rw (bytes_eq_refl (w.lower (strip item))) refl
  is_ordered_complete item (other ∷ before) after =
      elim (Bool-cases (bytes_eq (w.lower (strip other)) (w.lower (strip item)))) [
        | inl here ↦ rw here refl
        | inr later ↦ rw later (is_ordered_complete item before after)
      ]

  not_Ordered :
      (code : Bytes) (items : List Bytes) → is_ordered w code items ≡ false → ¬ (Ordered code items)
  unfolding Ordered
  not_Ordered code items e (item, (before, after, (split, same))) =
      let yes : is_ordered w code items ≡ true =
        subst (λ c. is_ordered w c items ≡ true) same
          (subst (λ l. is_ordered w (w.lower (strip item)) l ≡ true) (sym split)
            (is_ordered_complete item before after)) in
      cc

  pub record Passes (now : ℕ) (code : Bytes) (size : ℕ) (g : QrGate) : Type 0 where
    pub running : g.process_active ≡ true
    pub rested : min_qr_interval ≤ now - g.last_enqueue_ts
    pub bottle : g.camera_gate_open ≡ true
    pub new :
        (comparable w (some code) ≡ [])
        ⊎ (comparable w (some code) ≢ comparable w g.last_registered_code)
    pub free : size ≡ 0

  try_accept_sound :
      (now : ℕ) (code : Bytes) (size : ℕ) (g : QrGate)
      → try_accept w now code size g ≡ none
      → Passes now code size g
  unfolding try_accept
  try_accept_sound now code size g e = record {
    running = ground arith;
    rested = ground arith;
    bottle = ground arith;
    new =
        repeated_sound (comparable w (some code)) (comparable w g.last_registered_code)
          (ground arith);
    free = ground arith;
  }

  try_accept_complete :
      (now : ℕ) (code : Bytes) (size : ℕ) (g : QrGate)
      → Passes now code size g
      → try_accept w now code size g ≡ none
  unfolding try_accept
  try_accept_complete now code size g h = ground (
    arith,
    h.running,
    h.rested,
    h.bottle,
    h.free,
    repeated_complete (comparable w (some code)) (comparable w g.last_registered_code) h.new,
  )

  -- The gate lets a code through exactly when the process is on, 1.5 seconds have passed since the
  -- last one, the camera has seen a bottle, the code is blank or not the last one (but for blanks
  -- around and capitals), and nothing is in flight.
  pub try_accept-Passes :
      (now : ℕ) (code : Bytes) (size : ℕ) (g : QrGate)
      → (try_accept w now code size g ≡ none) ↔ Passes now code size g
  try_accept-Passes now code size g =
      (try_accept_sound now code size g, try_accept_complete now code size g)

  -- A bottle that is sent to a station is of the order and has the station's suffix.
  pub Sorted : Bytes → List Bytes → SortDirection → Type 0
  Sorted code items line_1l = Ordered code items × EndsIn (codes "_1l") code
  Sorted code items line_2l = Ordered code items × EndsIn (codes "_2l") code
  Sorted code items warn =
      ¬ (Ordered code items) ⊎ (¬ (EndsIn (codes "_1l") code) × ¬ (EndsIn (codes "_2l") code))

  by_suffix :
      (code : Bytes) (items : List Bytes)
      → Ordered code items
      → Sorted code items (
          if ends_with (codes "_1l") code
          then line_1l
          else if ends_with (codes "_2l") code
          then line_2l
          else warn)
  unfolding Sorted
  by_suffix code items ordered = elim (Bool-cases (ends_with (codes "_1l") code)) [
    | inl one ↦ rw one (ordered, ends_with_sound (codes "_1l") code one)
    | inr not_one ↦ rw not_one (elim (Bool-cases (ends_with (codes "_2l") code)) [
      | inl two ↦ rw two (ordered, ends_with_sound (codes "_2l") code two)
      | inr not_two ↦
          rw not_two
            (inr (not_EndsIn (codes "_1l") code not_one, not_EndsIn (codes "_2l") code not_two))
    ])
  ]

  -- A bottle sent to the first station has, but for blanks around and capitals, the code of an item
  -- of the order, and it ends in _1l; one sent to the second station likewise in _2l; a warning is
  -- for a code that no item of the order has or that ends in neither.
  pub classify-Sorted :
      (item_code : Bytes) (items : List Bytes)
      → Sorted (w.lower (strip item_code)) items (classify w item_code items)
  unfolding classify Sorted
  classify-Sorted item_code items =
      let code = w.lower (strip item_code) in
      elim (Bool-cases (is_ordered w code items)) [
        | inr absent ↦ rw absent (inl (not_Ordered code items absent))
        | inl ordered ↦ rw ordered (by_suffix code items (is_ordered_sound code items ordered))
      ]
