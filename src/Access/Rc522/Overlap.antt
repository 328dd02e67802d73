-- ===== src/Access/Rc522/Overlap.antt =====
-- A round of the task in the middle of the start-up of the second reader.
use iot_repo.Base.{
  ℕ, ◌+◌, ◌≡◌, ◌≢◌, ◌∙◌, refl, ap, sym, true, false, not, ◌&&◌, subst, ◌||◌, Option, none, some,
  ◌==◌, Bool-cases, inl, inr, arith,
}
use iot_repo.Base.Text.{Bytes}
use iot_repo.Access.Rc522.{EspErr, Spi, Device, Driver, is_some, rc522_read, rc522_get_tag}
use iot_repo.Access.Rc522.Frame.{get_tag-Kept}
use iot_repo.Access.Rc522.Scan.{
  update, update_active, report_tag, scan_device, scan_from, rc522_task, finish,
}

-- Device j and the count are as they were, and the active device too.
record Apart (j : ℕ) (m m' : Driver) : Type 0 where
  device : m'.hndls j ≡ m.hndls j
  device_count : m'.device_count ≡ m.device_count
  active_hndl : m'.active_hndl ≡ m.active_hndl

untouched : (j : ℕ) (m : Driver) → Apart j m m
untouched j m = record { device = refl; device_count = refl; active_hndl = refl }

update-Apart : (f : Device → Device) (i j : ℕ) (m : Driver) → j ≢ i → Apart j m (update f i m)
unfolding update
update-Apart f i j m other =
    let differs : (j == i) ≡ false = ground arith in
    record { device = rw differs refl; device_count = refl; active_hndl = refl }

report_tag-Apart :
    (i j : ℕ) (d : Device) (o : Option Bytes) (m : Driver) → Apart j m (report_tag i d o m)
unfolding report_tag
report_tag-Apart i j d none m = untouched j m
report_tag-Apart i j d (some s) m =
    elim (Bool-cases (not d.tag_was_present_last_time && d.config.callback)) [
      | inl new ↦ rw new record { device = refl; device_count = refl; active_hndl = refl }
      | inr old ↦ rw old (untouched j m)
    ]

Apart-trans : {j : ℕ} {a b c : Driver} → Apart j a b → Apart j b c → Apart j a c
Apart-trans p q = record {
  device = q.device ∙ p.device;
  device_count = q.device_count ∙ p.device_count;
  active_hndl = q.active_hndl ∙ p.active_hndl;
}

-- What a round over one device leaves for the second.
AfterRound : Driver → Driver → Type 0
AfterRound m m' =
    (m'.hndls 1 ≡ m.hndls 1) × (m'.device_count ≡ m.device_count) × (m'.active_hndl ≡ some 0)

module _ (spi : Spi) where
  scan_device-Apart :
      (i j : ℕ) (o : Option Device) (m : Driver) → j ≢ i → Apart j m (scan_device spi i o m)
  unfolding scan_device
  scan_device-Apart i j none m other = untouched j m
  scan_device-Apart i j (some d) m other =
      let (tag, m1) = rc522_get_tag spi m in
      let k = get_tag-Kept spi m in
      let asked : Apart j m m1 = record {
        device = ap (λ h. h j) k.hndls;
        device_count = k.device_count;
        active_hndl = k.active_hndl;
      } in
      elim (Bool-cases (not d.running || not d.scan_started)) [
        | inl idle ↦ rw idle (untouched j m)
        | inr busy ↦ rw busy (
            Apart-trans asked (
              Apart-trans (report_tag-Apart i j d tag m1) (
                update-Apart (λ d'. record d' { tag_was_present_last_time = is_some tag }) i j
                  (report_tag i d tag m1) other)))
      ]

  scan_one : (m : Driver) → AfterRound m (scan_from spi 1 0 m)
  unfolding AfterRound scan_from
  scan_one m =
      let m' : Driver = record m { active_hndl = some 0 } in
      let h = scan_device-Apart 0 1 (m.hndls 0) m' (omega arith) in
      (h.device, h.device_count, h.active_hndl)

  task_of_one : (m : Driver) → m.device_count ≡ 1 → AfterRound m (rc522_task spi m)
  unfolding rc522_task
  task_of_one m one = subst (λ n. AfterRound m (scan_from spi n 0 m)) (sym one) (scan_one m)

  finish_marks :
      (err : EspErr) (m : Driver) (i : ℕ)
      → m.active_hndl ≡ some i
      → m.device_count ≡ 1
      → let m' = (finish spi err m).1 in
        (m'.device_count ≡ 2)
        × (m'.hndls 1 ≡ (update (λ d. record d { running = true }) i m).hndls 1)
  unfolding finish update_active rc522_read
  finish_marks err m i active one =
      let later : (m.device_count + 1 == 1) ≡ false = ground arith in
      let marked =
        ap (λ h. (update_active (λ d. record d { running = true }) h m).hndls 1) active in
      rw later (omega (arith, one), marked)

  -- At the end of the start-up of the second reader, it is counted and runs; if a round of the task
  -- over the first reader comes just before this end, the second reader is counted too, but stays
  -- as it was: where it did not run, it does not run.
  pub second_reader_lost :
      (err : EspErr) (m : Driver) (d : Device)
      → m.active_hndl ≡ some 1
      → m.device_count ≡ 1
      → m.hndls 1 ≡ some d
      → let alone = (finish spi err m).1 in
        let overlapped = (finish spi err (rc522_task spi m)).1 in
        (alone.device_count ≡ 2)
        × (alone.hndls 1 ≡ some (record d { running = true }))
        × (overlapped.device_count ≡ 2)
        × (overlapped.hndls 1 ≡ some d)
  unfolding AfterRound
  second_reader_lost err m d active one second =
      let (device, device_count, first) = task_of_one m one in
      let alone = finish_marks err m 1 active one in
      let overlapped = finish_marks err (rc522_task spi m) 0 first (device_count ∙ one) in
      (
        alone.0,
        alone.1 ∙ unfold update in rw second refl,
        overlapped.0,
        overlapped.1 ∙ unfold update in (device ∙ second),
      )
