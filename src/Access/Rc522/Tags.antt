-- ===== src/Access/Rc522/Tags.antt =====
-- Which cards are reported, and how.
use iot_repo.Base.{
  ℕ, ◌≡◌, ◌∙◌, refl, ap, sym, subst, Bool, true, false, not, ◌||◌, List, [], ◌∷◌, ◌++◌, Option,
  none, some, length, ==_iff, arith,
}
use iot_repo.Base.Text.{Bytes}
use iot_repo.Access.Rc522.{
  rc522_write, rc522_card_write, Spi, Device, Driver, is_some, of_length, rc522_anticoll,
  rc522_get_tag,
}
use iot_repo.Access.Rc522.Frame.{get_tag-Kept}
use iot_repo.Access.Rc522.Scan.{update, report_tag, scan_device}

of_length_sound : (n : ℕ) (o : Option Bytes) (s : Bytes) → of_length n o ≡ some s → length s ≡ n
of_length_sound n none s h = cc
of_length_sound n (some t) s h = ground (arith, ==_iff (length t) n)

-- A card that was not there the last time.
pub arrival : ℕ → Bool → Option Bytes → List (ℕ × Bytes)
arrival i false (some serial_no) = (i, serial_no) ∷ []
arrival i _ _ = []

none-some {ℓ} : {A : Type ℓ} {a : A} → none ≡ some a → ⊥
none-some h = cc

report_lem :
    (i : ℕ) (d : Device) (o : Option Bytes) (m : Driver)
    → d.config.callback ≡ true
    → ((report_tag i d o m).called ≡ arrival i d.tag_was_present_last_time o ++ m.called)
      × ((report_tag i d o m).hndls ≡ m.hndls)
unfolding report_tag arrival
report_lem i d none m e = ground arith
report_lem i d (some s) m e = ground arith

called-update : (f : Device → Device) (i : ℕ) (m : Driver) → (update f i m).called ≡ m.called
unfolding update
called-update f i m = refl

update_lem :
    (f : Device → Device) (i : ℕ) (d : Device) (m : Driver)
    → m.hndls i ≡ some d
    → (update f i m).hndls i ≡ some (f d)
unfolding update
update_lem f i d m e = rw ((==_iff i i).1 refl, e) refl

module _ (spi : Spi) where
  length-anticoll : (m : Driver) (s : Bytes) → (rc522_anticoll spi m).0 ≡ some s → length s ≡ 5
  unfolding rc522_anticoll
  length-anticoll m s h =
      let asked = (rc522_write spi 0x0D 0x00 m).1 in
      of_length_sound 5 (rc522_card_write spi 0x0C (0x93 ∷ 0x20 ∷ []) asked).0 s h

  -- What looking at a device that runs leaves.
  scanned : ℕ → Device → Driver → Driver
  scanned i d m =
      let (o, m1) = rc522_get_tag spi m in
      update (λ d'. record d' { tag_was_present_last_time = is_some o }) i (report_tag i d o m1)

  scan_device-scanned :
      (i : ℕ) (d : Device) (m : Driver)
      → d.running ≡ true
      → d.scan_started ≡ true
      → scan_device spi i (some d) m ≡ scanned i d m
  unfolding scan_device scanned
  scan_device-scanned i d m running started =
      let busy : (not d.running || not d.scan_started) ≡ false = ground arith in rw busy refl

  scanned_lem :
      (i : ℕ) (d : Device) (m : Driver)
      → m.hndls i ≡ some d
      → d.config.callback ≡ true
      → let o = (rc522_get_tag spi m).0 in
        ((scanned i d m).called ≡ arrival i d.tag_was_present_last_time o ++ m.called)
        × ((scanned i d m).hndls i ≡ some (record d { tag_was_present_last_time = is_some o }))
  unfolding scanned
  scanned_lem i d m at_i has_callback =
      let (o, m1) = rc522_get_tag spi m in
      let k = get_tag-Kept spi m in
      let (reported, same) = report_lem i d o m1 has_callback in
      let f = (λ (d' : Device). record d' { tag_was_present_last_time = is_some o }) in
      (
        called-update f i (report_tag i d o m1)
            ∙ reported
            ∙ ap (λ c. arrival i d.tag_was_present_last_time o ++ c) k.called,
        update_lem f i d (report_tag i d o m1) (ap (λ h. h i) (same ∙ k.hndls) ∙ at_i),
      )

  -- Looking at a device that runs, scans and has a callback calls it exactly when a card is there
  -- that was not there the last time, and remembers whether one is there.
  pub scan_device-arrival :
      (i : ℕ) (d : Device) (m : Driver)
      → m.hndls i ≡ some d
      → d.running ≡ true
      → d.scan_started ≡ true
      → d.config.callback ≡ true
      → let o = (rc522_get_tag spi m).0 in
        let m' = scan_device spi i (some d) m in
        (m'.called ≡ arrival i d.tag_was_present_last_time o ++ m.called)
        × (m'.hndls i ≡ some (record d { tag_was_present_last_time = is_some o }))
  scan_device-arrival i d m at_i running started has_callback =
      let o = (rc522_get_tag spi m).0 in
      subst
        (λ (m' : Driver).
          (m'.called ≡ arrival i d.tag_was_present_last_time o ++ m.called)
          × (m'.hndls i ≡ some (record d { tag_was_present_last_time = is_some o })))
        (sym (scan_device-scanned i d m running started)) (scanned_lem i d m at_i has_callback)
