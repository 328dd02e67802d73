-- ===== src/Access/Rc522/Startup.antt =====
-- What rc522_init makes of the number of devices.
use iot_repo.Base.{
  ℕ, ◌+◌, ◌≤◌, ◌<◌, ◌≡◌, ◌∙◌, refl, sym, subst, true, false, Option, none, some, ==_iff, Bool-cases,
  inl, inr, leb, ◌==◌, if◌then◌else◌, arith,
}
use iot_repo.Access.Rc522.{
  Config, Spi, EspErr, esp_ok, is_ok, Device, Driver, rc522_write, rc522_write_n, rc522_read,
}
use iot_repo.Access.Rc522.Frame.{Kept, Kept-trans, write-Kept, read-Kept, antenna_on-Kept}
use iot_repo.Access.Rc522.Scan.{
  new_device, device_at, update, update_active, set_scan_started, rc522_start2, open_bus,
  add_device, with_bus, spi_init_of, rc522_spi_init, rw_test, configure, finish, init_device,
  init_with, rc522_init, then_start, rc522_start,
}

-- The number of devices and the active one are the same.
record Counted (m m' : Driver) : Type 0 where
  device_count : m'.device_count ≡ m.device_count
  active_hndl : m'.active_hndl ≡ m.active_hndl

update_active-Counted :
    (f : Device → Device) (a : Option ℕ) (m : Driver) → Counted m (update_active f a m)
unfolding update_active update
update_active-Counted f none m = record { device_count = refl; active_hndl = refl }
update_active-Counted f (some i) m = record { device_count = refl; active_hndl = refl }

Counted-trans : {a b c : Driver} → Counted a b → Counted b c → Counted a c
Counted-trans p q = record {
  device_count = q.device_count ∙ p.device_count;
  active_hndl = q.active_hndl ∙ p.active_hndl;
}

module _ (spi : Spi) where
  open_bus-Counted : (m : Driver) → Counted m (open_bus spi m).1
  unfolding open_bus
  open_bus-Counted m = ground arith

  add_device-Counted : (m : Driver) → Counted m (add_device spi m).1
  unfolding add_device
  add_device-Counted m =
      let u =
        update_active-Counted (λ d. record d { spi = is_ok (spi.add_device m.calls) }) m.active_hndl
          (record m { calls = m.calls + 1 }) in
      record { device_count = u.device_count; active_hndl = u.active_hndl }

  with_bus-Counted : (r : EspErr × Driver) → Counted r.1 (with_bus spi r).1
  with_bus-Counted (esp_ok, m) = add_device-Counted m
  with_bus-Counted (_, m) = record { device_count = refl; active_hndl = refl }

  spi_init_of-Counted : (d : Option Device) (m : Driver) → Counted m (spi_init_of spi d m).1
  unfolding spi_init_of
  spi_init_of-Counted none m = record { device_count = refl; active_hndl = refl }
  spi_init_of-Counted (some d) m = elim (Bool-cases d.spi) [
    | inl there ↦ rw there (record { device_count = refl; active_hndl = refl })
    | inr absent ↦
        rw absent (Counted-trans (open_bus-Counted m) (with_bus-Counted (open_bus spi m)))
  ]

  spi_init-Counted : (m : Driver) → Counted m (rc522_spi_init spi m).1
  unfolding rc522_spi_init
  spi_init-Counted m = spi_init_of-Counted _ m

  rw_test-Kept : (i : ℕ) (m : Driver) → Kept m (rw_test spi i m).2
  unfolding rw_test
  rw_test-Kept i m =
      let r = rc522_write spi 0x24 i m in
      elim (Bool-cases (is_ok r.0)) [
        | inl ok ↦ rw ok (Kept-trans (write-Kept spi 0x24 i m) (read-Kept spi 0x24 r.1))
        | inr failed ↦ rw failed (write-Kept spi 0x24 i m)
      ]

  configure-Kept : (m : Driver) → Kept m (configure spi m)
  unfolding configure
  configure-Kept m = Kept-trans (write-Kept spi 0x01 0x0F m) (
      Kept-trans (write-Kept spi 0x2A 0x8D _) (
        Kept-trans (write-Kept spi 0x2B 0x3E _) (
          Kept-trans (write-Kept spi 0x2D 0x1E _) (
            Kept-trans (write-Kept spi 0x2C 0x00 _) (
              Kept-trans (write-Kept spi 0x15 0x40 _)
                (Kept-trans (write-Kept spi 0x11 0x3D _) (antenna_on-Kept spi _)))))))

  device_count-finish :
      (err : EspErr) (m : Driver) → (finish spi err m).1.device_count ≡ m.device_count + 1
  unfolding finish rc522_read
  device_count-finish err m =
      ground (arith, update_active-Counted (λ d. record d { running = true }) m.active_hndl m)

  device_count-init_device :
      (config : Config) (m : Driver)
      → (init_device spi config m).1.device_count ≤ m.device_count + 1
  unfolding init_device
  device_count-init_device config m =
      let i = m.device_count in
      let stored : Driver = record m {
        hndls = λ j. if j == i then some (new_device spi.vspi_host config) else m.hndls j;
        active_hndl = some i;
      } in
      let r = rc522_spi_init spi stored in
      let t = rw_test spi 0x25 r.1 in
      let u = rw_test spi 0x26 t.2 in
      let c1 = (spi_init-Counted stored).device_count in
      let c2 = (rw_test-Kept 0x25 r.1).device_count in
      let c3 = (rw_test-Kept 0x26 t.2).device_count in
      let c4 = (configure-Kept u.2).device_count in
      let c5 = device_count-finish u.1 (configure spi u.2) in ground arith

  -- From at most two devices, which is what `hndls` has room for, rc522_init counts at most two.
  pub device_count-rc522_init :
      (config : Option Config) (m : Driver)
      → m.device_count ≤ 2
      → (rc522_init spi config m).1.device_count ≤ 2
  unfolding rc522_init init_with
  device_count-rc522_init none m h = h
  device_count-rc522_init (some config) m h =
      ground (arith, device_count-init_device config (record m { calls = m.calls + 2 }))

  with_bus_ok :
      (r : EspErr × Driver)
      → r.0 ≡ esp_ok
      → ((n : ℕ) → spi.add_device n ≡ esp_ok)
      → (with_bus spi r).0 ≡ esp_ok
  unfolding add_device
  with_bus_ok (esp_ok, m) e add = add m.calls
  with_bus_ok (_, m) e add = e

  open_bus_ok :
      (m : Driver) → ((n : ℕ) → spi.bus_initialize n ≡ esp_ok) → (open_bus spi m).0 ≡ esp_ok
  unfolding open_bus
  open_bus_ok m bus = ground (arith, bus m.calls)

  spi_init_new :
      (config : Config) (m : Driver)
      → device_at m m.active_hndl ≡ some (new_device spi.vspi_host config)
      → ((n : ℕ) → spi.bus_initialize n ≡ esp_ok)
      → ((n : ℕ) → spi.add_device n ≡ esp_ok)
      → (rc522_spi_init spi m).0 ≡ esp_ok
  unfolding rc522_spi_init spi_init_of
  spi_init_new config m e bus add =
      subst (λ (d : Option Device). (spi_init_of spi d m).0 ≡ esp_ok) (sym e)
        (with_bus_ok (open_bus spi m) (open_bus_ok m bus) add)

  rw_test_zero :
      (m : Driver)
      → ((n : ℕ) → spi.transmit n ≡ esp_ok)
      → ((n : ℕ) → spi.read 0x24 n ≡ 0)
      → ((rw_test spi 0x25 m).0 ≡ false) × ((rw_test spi 0x25 m).1 ≡ esp_ok)
  unfolding rw_test rc522_write rc522_write_n rc522_read
  rw_test_zero m transmit zeros = rw (transmit m.calls, zeros (m.calls + 1)) (refl, refl)

  init_device_unnoticed :
      (config : Config) (m : Driver)
      → ((n : ℕ) → spi.bus_initialize n ≡ esp_ok)
      → ((n : ℕ) → spi.add_device n ≡ esp_ok)
      → ((n : ℕ) → spi.transmit n ≡ esp_ok)
      → ((n : ℕ) → spi.read 0x24 n ≡ 0)
      → ((init_device spi config m).0 ≡ esp_ok)
        × ((init_device spi config m).1.device_count ≡ m.device_count)
        × ((init_device spi config m).1.active_hndl ≡ some m.device_count)
  unfolding init_device
  init_device_unnoticed config m bus add transmit zeros =
      let i = m.device_count in
      let stored : Driver = record m {
        hndls = λ j. if j == i then some (new_device spi.vspi_host config) else m.hndls j;
        active_hndl = some i;
      } in
      let r = rc522_spi_init spi stored in
      let opened = spi_init_new config stored (rw ((==_iff i i).1 refl) refl) bus add in
      let (failed, no_error) = rw_test_zero r.1 transmit zeros in
      let c = spi_init-Counted stored in
      let k = rw_test-Kept 0x25 r.1 in
      rw (opened, failed) (no_error, k.device_count ∙ c.device_count, k.active_hndl ∙ c.active_hndl)

  started :
      (m : Driver) (i : ℕ)
      → m.active_hndl ≡ some i
      → ((rc522_start2 m).0 ≡ esp_ok) × ((rc522_start2 m).1.device_count ≡ m.device_count)
  unfolding rc522_start2 set_scan_started update
  started m i a = rw a (refl, refl)

  start_ok :
      (r : EspErr × Driver) (i : ℕ)
      → r.0 ≡ esp_ok
      → r.1.active_hndl ≡ some i
      → ((then_start r).0 ≡ esp_ok) × ((then_start r).1.device_count ≡ r.1.device_count)
  start_ok (esp_ok, m) i e a = started m i a
  start_ok (_, m) i e a = cc

  rc522_init_unnoticed :
      (config : Config) (m : Driver)
      → m.device_count < 2
      → ((n : ℕ) → spi.first_calloc n ≡ true)
      → ((n : ℕ) → spi.second_calloc n ≡ true)
      → ((n : ℕ) → spi.bus_initialize n ≡ esp_ok)
      → ((n : ℕ) → spi.add_device n ≡ esp_ok)
      → ((n : ℕ) → spi.transmit n ≡ esp_ok)
      → ((n : ℕ) → spi.read 0x24 n ≡ 0)
      → ((rc522_init spi (some config) m).0 ≡ esp_ok)
        × ((rc522_init spi (some config) m).1.device_count ≡ m.device_count)
        × ((rc522_init spi (some config) m).1.active_hndl ≡ some m.device_count)
  unfolding rc522_init init_with
  rc522_init_unnoticed config m room c1 c2 bus add transmit zeros =
      let free : leb 2 m.device_count ≡ false = ground arith in
      rw (free, c1 m.calls, c2 (m.calls + 1))
        (init_device_unnoticed config (record m { calls = m.calls + 2 }) bus add transmit zeros)

  -- Where every call succeeds and the test register always reads as 0, rc522_start with room for a
  -- device returns ESP_OK and counts no device.
  pub rc522_start_unnoticed :
      (config : Config) (m : Driver)
      → m.device_count < 2
      → ((n : ℕ) → spi.first_calloc n ≡ true)
      → ((n : ℕ) → spi.second_calloc n ≡ true)
      → ((n : ℕ) → spi.bus_initialize n ≡ esp_ok)
      → ((n : ℕ) → spi.add_device n ≡ esp_ok)
      → ((n : ℕ) → spi.transmit n ≡ esp_ok)
      → ((n : ℕ) → spi.read 0x24 n ≡ 0)
      → ((rc522_start spi config m).0 ≡ esp_ok)
        × ((rc522_start spi config m).1.device_count ≡ m.device_count)
  unfolding rc522_start
  rc522_start_unnoticed config m room c1 c2 bus add transmit zeros =
      let r = rc522_init spi (some config) m in
      let (no_error, same, active) =
        rc522_init_unnoticed config m room c1 c2 bus add transmit zeros in
      let (started, kept) = start_ok r m.device_count no_error active in (started, kept ∙ same)
