-- ===== src/Operator/Restarting.antt =====
-- The conveyor that has stopped by itself while a process runs.
use iot_repo.Base.{
  ◌+◌, ◌-◌, ◌≤◌, ◌<◌, ◌≡◌, refl, ◌∙◌, sym, ap, subst, Bool, true, false, ltb, if◌then◌else◌, lt→ltb,
  ◌∷◌, some, arith,
}
use iot_repo.Base.Text.{Bytes, codes}
use iot_repo.Devkit.Command.{parse, plain, sort_start}
use iot_repo.Devkit.Diagram.{next, current_state-on_command}
use iot_repo.Devkit.Machine.{Machine, idle, conveying}
use iot_repo.Devkit.Main.{deliver, receive}
use iot_repo.Devkit.Mqtt.{raw_callback}
use iot_repo.Operator.{fsm_idle, active_state, control, Operator, World, publish, is_active}
use iot_repo.Operator.Words.{fsm_state}
use iot_repo.Operator.Callbacks.{update_buttons}
use iot_repo.Operator.States.{watchdog, watchdog_interval, status_in, known_status, handle_status}
use iot_repo.Operator.Releasing.{Moves, told}

raw_callback-start :
    (m : Machine)
    → m.mqtt.has_callback ≡ true
    → raw_callback m.mqtt (told (codes "SORT_START")) ≡ some (plain sort_start)
unfolding raw_callback parse
raw_callback-start m set = rw set refl

start-Moves : Moves (codes "SORT_START") idle conveying
unfolding Moves deliver receive next
start-Moves b m set waits =
    rw (raw_callback-start m set) (current_state-on_command b idle (plain sort_start) m waits)

decided : {t s : Bool} (x y : Operator) → t ≡ s → (if t then x else y) ≡ (if s then x else y)
decided x y e = ap (λ t. if t then x else y) e

module _ (w : World) where
  handle_status-watchdog :
      (text : Bytes) (m : Operator)
      → m.current_state ≡ active_state
      → fsm_state w text ≡ some fsm_idle
      → handle_status w text m ≡ watchdog w (update_buttons fsm_idle m)
  unfolding handle_status
  handle_status-watchdog text m e read =
      ap (λ o. known_status w o m) read ∙ ap (λ s. status_in w s fsm_idle m) e

  -- The clock has been read.
  abbrev asked : Operator → Operator
  asked m = record m { calls = m.calls + 1 }

  -- A START is sent again.
  abbrev restarted : Operator → Operator
  restarted m =
      publish (codes "SORT_START") (record (asked m) { last_watchdog_ts = w.monotonic m.calls })

  watchdog-due :
      (m : Operator)
      → is_active m ≡ true
      → ltb (w.monotonic m.calls - m.last_watchdog_ts) watchdog_interval ≡ false
      → watchdog w m ≡ restarted m
  unfolding watchdog
  watchdog-due m busy due =
      decided
        (if ltb (w.monotonic m.calls - m.last_watchdog_ts) watchdog_interval
          then asked m
          else restarted m)
        m busy
      ∙ decided (asked m) (restarted m) due

  effects-watchdog :
      (m : Operator)
      → is_active m ≡ true
      → ltb (w.monotonic m.calls - m.last_watchdog_ts) watchdog_interval ≡ true
      → (watchdog w m).effects ≡ m.effects
  unfolding watchdog
  effects-watchdog m busy soon =
      ap (λ (x : Operator). x.effects)
        (decided
            (if ltb (w.monotonic m.calls - m.last_watchdog_ts) watchdog_interval
              then asked m
              else restarted m)
            m busy
          ∙ decided (asked m) (restarted m) soon)

  -- When an active process hears that the conveyor is IDLE, ten seconds or more after it last sent
  -- START for that, it sends START, which takes every conveyor in IDLE, with its callback set, to
  -- CONVEYING; the same message less than ten seconds later sends nothing.
  pub effects-handle_status :
      (text : Bytes) (m : Operator)
      → m.current_state ≡ active_state
      → is_active m ≡ true
      → fsm_state w text ≡ some fsm_idle
      → watchdog_interval ≤ w.monotonic m.calls - m.last_watchdog_ts
      → w.monotonic (m.calls + 1) - w.monotonic m.calls < watchdog_interval
      → let once = handle_status w text m in
        (once.effects ≡ control (codes "SORT_START") ∷ m.effects)
        × (Moves (codes "SORT_START") idle conveying
            × ((handle_status w text once).effects ≡ once.effects))
  effects-handle_status text m e busy read due soon =
      let shown = update_buttons fsm_idle m in
      let sent : handle_status w text m ≡ restarted shown =
        handle_status-watchdog text m e read ∙ watchdog-due shown busy (ground arith) in
      let silent : (handle_status w text (restarted shown)).effects ≡ (restarted shown).effects =
        ap (λ (x : Operator). x.effects) (handle_status-watchdog text (restarted shown) e read)
        ∙ effects-watchdog (update_buttons fsm_idle (restarted shown)) busy (lt→ltb _ _ soon) in
      (
        ap (λ (x : Operator). x.effects) sent,
        (start-Moves, subst (λ x. (handle_status w text x).effects ≡ x.effects) (sym sent) silent),
      )
