-- ===== src/Access/Rc522/Scan.antt =====
-- access-controller/rc522.c: rc522_init, rc522_start and the task that scans the readers.
use mathlib.Core.Option
use iot_repo.Base.{
  ℕ, zero, suc, ◌+◌, ◌*◌, Bool, true, false, not, ◌&&◌, ◌||◌, ◌∷◌, Option, none, some, ltb, leb,
  ◌==◌, if◌then◌else◌,
}
use iot_repo.Base.Text.{Bytes}
use iot_repo.Access.Rc522.{
  EspErr, esp_ok, esp_err_no_mem, esp_err_invalid_arg, esp_err_invalid_state, is_ok, Spi, Config,
  Device, Driver, is_some, rc522_write, rc522_read, rc522_antenna_on, rc522_get_tag,
}

-- A setting that was left at 0.
abbrev pub or_default : ℕ → ℕ → ℕ
or_default standard n = if n == 0 then standard else n

-- The config that rc522_init keeps.
unfoldable pub with_defaults : ℕ → Config → Config
with_defaults vspi_host config = record {
  miso_io = or_default 25 config.miso_io;
  mosi_io = or_default 23 config.mosi_io;
  sck_io = or_default 19 config.sck_io;
  sda_io = or_default 22 config.sda_io;
  spi_host_id = or_default vspi_host config.spi_host_id;
  callback = config.callback;
  scan_interval_ms = if ltb config.scan_interval_ms 50 then 125 else config.scan_interval_ms;
  task_stack_size = or_default (4 * 1024) config.task_stack_size;
  task_priority = or_default 4 config.task_priority;
}

abbrev pub new_device : ℕ → Config → Device
new_device vspi_host config = record {
  running = false;
  config = with_defaults vspi_host config;
  spi = false;
  scan_started = false;
  tag_was_present_last_time = false;
}

-- Changes the device that a handle points to.
unfoldable pub update : (Device → Device) → ℕ → Driver → Driver
update f i m = record m { hndls = λ j. if j == i then Option.map f (m.hndls j) else m.hndls j }

unfoldable pub update_active : (Device → Device) → Option ℕ → Driver → Driver
unfolding update
update_active f none m = m
update_active f (some i) m = update f i m

abbrev pub device_at : Driver → Option ℕ → Option Device
device_at m none = none
device_at m (some i) = m.hndls i

unfoldable pub rc522_is_inited : Driver → Bool
rc522_is_inited m = ltb 0 m.device_count

-- Both act on the device that was last made active.
unfoldable pub set_scan_started : Bool → Driver → EspErr × Driver
unfolding update_active
set_scan_started started m = elim m.active_hndl [
  | none ↦ (esp_err_invalid_state, m)
  | some i ↦ (esp_ok, update (λ d. record d { scan_started = started }) i m)
]

unfoldable pub rc522_start2 : Driver → EspErr × Driver
rc522_start2 m = set_scan_started true m

unfoldable pub rc522_pause : Driver → EspErr × Driver
rc522_pause m = set_scan_started false m

-- `if(cb) { cb(serial_no); }` for a card that was not there the last time.
unfoldable pub report_tag : ℕ → Device → Option Bytes → Driver → Driver
report_tag i d none m = m
report_tag i d (some serial_no) m =
    if not d.tag_was_present_last_time && d.config.callback
    then record m { called = (i, serial_no) ∷ m.called }
    else m

abbrev pub then_start : EspErr × Driver → EspErr × Driver
then_start (esp_ok, m) = rc522_start2 m
then_start (err, m) = (err, m)

module _ (spi : Spi) where
  -- The bus is opened once only.
  unfoldable pub open_bus : Driver → EspErr × Driver
  open_bus m =
      let err = spi.bus_initialize m.calls in
      let m' = record m { calls = m.calls + 1 } in
      if m.spi_bus_initialized
      then (esp_ok, m)
      else if is_ok err
      then (esp_ok, record m' { spi_bus_initialized = true })
      else (err, m')

  unfoldable pub add_device : Driver → EspErr × Driver
  unfolding update_active
  add_device m =
      let err = spi.add_device m.calls in
      (
        err,
        update_active (λ d. record d { spi = is_ok err }) m.active_hndl
            (record m { calls = m.calls + 1 }),
      )

  abbrev pub with_bus : EspErr × Driver → EspErr × Driver
  with_bus (esp_ok, m) = add_device m
  with_bus (err, m) = (err, m)

  unfoldable pub spi_init_of : Option Device → Driver → EspErr × Driver
  unfolding open_bus add_device
  spi_init_of none m = (esp_err_invalid_state, m)
  spi_init_of (some d) m = if d.spi then (esp_err_invalid_state, m) else with_bus (open_bus m)

  unfoldable pub rc522_spi_init : Driver → EspErr × Driver
  unfolding spi_init_of
  rc522_spi_init m = spi_init_of (device_at m m.active_hndl) m

  -- One round of the test: whether it passes, and what the write returned.
  unfoldable pub rw_test : ℕ → Driver → Bool × EspErr × Driver
  unfolding rc522_write rc522_read
  rw_test i m =
      let (err, m1) = rc522_write spi 0x24 i m in
      let (v, m2) = rc522_read spi 0x24 m1 in
      if not (is_ok err) then (false, err, m1) else (v == i, err, m2)

  unfoldable pub configure : Driver → Driver
  unfolding rc522_write rc522_antenna_on
  configure m =
      let m1 = (rc522_write spi 0x01 0x0F m).1 in
      let m2 = (rc522_write spi 0x2A 0x8D m1).1 in
      let m3 = (rc522_write spi 0x2B 0x3E m2).1 in
      let m4 = (rc522_write spi 0x2D 0x1E m3).1 in
      let m5 = (rc522_write spi 0x2C 0x00 m4).1 in
      let m6 = (rc522_write spi 0x15 0x40 m5).1 in
      let m7 = (rc522_write spi 0x11 0x3D m6).1 in (rc522_antenna_on spi m7).1

  -- A task is created for the first device only; if that fails, the error returned is that of the
  -- last write, which was none. The last read is that of the firmware version.
  unfoldable pub finish : EspErr → Driver → EspErr × Driver
  unfolding update_active rc522_read
  finish err m =
      let m1 = update_active (λ d. record d { running = true }) m.active_hndl m in
      let m2 = record m1 { device_count = m.device_count + 1 } in
      let created = spi.task_create m2.calls in
      let m3 = record m2 { calls = m2.calls + 1; task_created = created } in
      if not (m2.device_count == 1)
      then (esp_ok, (rc522_read spi 0x37 m2).1)
      else if created
      then (esp_ok, (rc522_read spi 0x37 m3).1)
      else (err, m3)

  -- From the new handle on.
  unfoldable pub init_device : Config → Driver → EspErr × Driver
  unfolding rc522_spi_init rw_test configure finish
  init_device config m =
      let i = m.device_count in
      let stored = record m {
        hndls = λ j. if j == i then some (new_device spi.vspi_host config) else m.hndls j;
        active_hndl = some i;
      } in
      let (err, m1) = rc522_spi_init stored in
      let (first, err1, m2) = rw_test 0x25 m1 in
      let (second, err2, m3) = rw_test 0x26 m2 in
      if not (is_ok err)
      then (err, m1)
      else if not first
      then (err1, m2)
      else if not second
      then (err2, m3)
      else finish err2 (configure m3)

  unfoldable pub init_with : Config → Driver → EspErr × Driver
  init_with config m =
      let n = m.calls in
      if leb 2 m.device_count
      then (esp_err_no_mem, m)
      else if not (spi.first_calloc n)
      then (esp_err_no_mem, record m { calls = n + 1 })
      else if not (spi.second_calloc (n + 1))
      then (esp_err_no_mem, record m { calls = n + 2 })
      else init_device config (record m { calls = n + 2 })

  unfoldable pub rc522_init : Option Config → Driver → EspErr × Driver
  unfolding init_with init_device
  rc522_init none m = (esp_err_invalid_arg, m)
  rc522_init (some config) m = init_with config m

  unfoldable pub rc522_start : Config → Driver → EspErr × Driver
  unfolding rc522_init rc522_start2
  rc522_start config m = then_start (rc522_init (some config) m)

  unfoldable pub scan_device : ℕ → Option Device → Driver → Driver
  unfolding rc522_get_tag report_tag update
  scan_device i none m = m
  scan_device i (some d) m =
      let (serial_no, m1) = rc522_get_tag spi m in
      if not d.running || not d.scan_started
      then m
      else update (λ d'. record d' { tag_was_present_last_time = is_some serial_no }) i
          (report_tag i d serial_no m1)

  -- The for loop of the task from device i on, with the rounds that are left.
  unfoldable pub scan_from : ℕ → ℕ → Driver → Driver
  unfolding scan_device
  scan_from zero i m = m
  scan_from (suc left) i m =
      scan_from left (i + 1) (scan_device i (m.hndls i) (record m { active_hndl = some i }))

  -- One round of the task.
  unfoldable pub rc522_task : Driver → Driver
  unfolding scan_from
  rc522_task m = scan_from m.device_count 0 m

  -- That many rounds of the task.
  unfoldable pub rounds : ℕ → Driver → Driver
  rounds zero m = m
  rounds (suc k) m = rc522_task (rounds k m)
