-- ===== src/Devkit/Diagram.antt =====
-- The state diagram, and the handlers.
use iot_repo.Base.{
  ℕ, ◌+◌, ◌≤◌, ◌≡◌, ◌∙◌, ap, sym, subst, refl, true, Option, some, leb, sub32, arith,
}
use iot_repo.Base.Int.{ℤ}
use iot_repo.Board.{Board}
use iot_repo.Devkit.Command.{
  CommandType, Command, sort_start, sort_stop, sort_pause, sort_resume, sort_dir_1l, sort_dir_2l,
  sort_dir_warn, unknown,
}
use iot_repo.Devkit.Commands.{
  idle_command, conveying_command, release_hold, camera_hold_command, paused_command, error_command,
  state_command, command_in, on_command,
}
use iot_repo.Devkit.DcMotor.Ramp.{update_soft_stop_calls}
use iot_repo.Devkit.Loops.{hold_slow_down, hold_blink, hold_motor, hold_timeout, camera_hold_loop}
use iot_repo.Devkit.Machine.{
  StateId, idle, conveying, camera_hold, paused, error, Machine, process_sorters,
}
use iot_repo.Devkit.Transition.{transition}

-- SORT_STOP stops from anywhere; each other command moves from one state or two.
unfoldable pub next : StateId → CommandType → StateId
next s sort_stop = idle
next idle sort_start = conveying
next paused sort_resume = conveying
next conveying sort_pause = paused
next camera_hold sort_pause = paused
next camera_hold sort_dir_1l = conveying
next camera_hold sort_dir_2l = conveying
next camera_hold sort_dir_warn = conveying
next s _ = s

module _ (b : Board) where
  current_state-transition :
      (s : StateId) (m : Machine) → (transition b (some s) m).current_state ≡ some s
  unfolding transition
  current_state-transition idle m = refl
  current_state-transition conveying m = refl
  current_state-transition camera_hold m = refl
  current_state-transition paused m = refl
  current_state-transition error m = refl

  current_state-release_hold : (m : Machine) → (release_hold b m).current_state ≡ some conveying
  unfolding release_hold
  current_state-release_hold m = current_state-transition conveying _

  current_state-state_command :
      (s : StateId) (t : CommandType) (v : ℤ) (m : Machine)
      → m.current_state ≡ some s
      → (state_command b s t v m).current_state ≡ some (next s t)
  unfolding state_command idle_command conveying_command camera_hold_command paused_command
      error_command next
  current_state-state_command idle sort_start v m e = current_state-transition conveying m
  current_state-state_command idle _ v m e = e
  current_state-state_command conveying sort_stop v m e = current_state-transition idle m
  current_state-state_command conveying sort_pause v m e = current_state-transition paused m
  current_state-state_command conveying _ v m e = e
  current_state-state_command camera_hold sort_dir_1l v m e = current_state-release_hold m
  current_state-state_command camera_hold sort_dir_2l v m e = current_state-release_hold m
  current_state-state_command camera_hold sort_dir_warn v m e = current_state-release_hold m
  current_state-state_command camera_hold sort_stop v m e = current_state-transition idle m
  current_state-state_command camera_hold sort_pause v m e = current_state-transition paused m
  current_state-state_command camera_hold _ v m e = e
  current_state-state_command paused sort_resume v m e = current_state-transition conveying m
  current_state-state_command paused sort_stop v m e = current_state-transition idle m
  current_state-state_command paused _ v m e = e
  current_state-state_command error sort_stop v m e = current_state-transition idle m
  current_state-state_command error _ v m e = e

  next_unknown : (s : StateId) → next s unknown ≡ s
  unfolding next
  next_unknown idle = refl
  next_unknown _ = refl

  command_in_lem :
      (s : StateId) (t : CommandType) (v : ℤ) (m : Machine)
      → m.current_state ≡ some s
      → (command_in b (some s) (record { type = t; value = v }) m).current_state ≡ some (next s t)
  unfolding command_in
  command_in_lem s unknown v m e = e ∙ ap some (sym (next_unknown s))
  command_in_lem s t v m e = current_state-state_command s t v m e

  -- A command takes the controller from its state to the next state of the diagram and nowhere
  -- else.
  pub current_state-on_command :
      (s : StateId) (c : Command) (m : Machine)
      → m.current_state ≡ some s
      → (on_command b c m).current_state ≡ some (next s c.type)
  unfolding on_command
  current_state-on_command s c m e =
      subst
        (λ (from : Option StateId). (command_in b from c m).current_state ≡ some (next s c.type))
        (sym e) (command_in_lem s c.type c.value m e)

  hold_timeout_over :
      (m : Machine)
      → 1000 ≤ sub32 (b.millis m.calls) m.enter_ms
      → (hold_timeout b m).current_state ≡ some conveying
  unfolding hold_timeout
  hold_timeout_over m over =
      let late : leb 1000 (sub32 (b.millis m.calls) m.enter_ms) ≡ true = ground arith in
      rw late (current_state-transition conveying _)

  -- What a pass in CAMERA_HOLD does before it looks at the time out.
  before_timeout : Machine → Machine
  before_timeout m =
      let m' = hold_motor b (hold_blink b (hold_slow_down b m)) in
      process_sorters b (record m' { calls = m'.calls + 1 })

  hold_slow_down_keeps :
      (m : Machine)
      → ((hold_slow_down b m).enter_ms ≡ m.enter_ms)
        × ((hold_slow_down b m).current_state ≡ m.current_state)
        × (m.calls ≤ (hold_slow_down b m).calls)
  unfolding hold_slow_down
  hold_slow_down_keeps m = ground arith

  before_timeout_keeps :
      (m : Machine)
      → ((before_timeout m).enter_ms ≡ m.enter_ms)
        × ((before_timeout m).current_state ≡ m.current_state)
        × (m.calls ≤ (before_timeout m).calls)
  unfolding before_timeout hold_motor hold_blink process_sorters
  before_timeout_keeps m =
      let m' = hold_slow_down b m in
      let (entered, kept, later) = hold_slow_down_keeps m in
      (entered, kept, omega (arith, update_soft_stop_calls b (m'.calls + 1) m'.dc_motor))

  -- Where the clock reads a second or more since CAMERA_HOLD was entered, a pass in CAMERA_HOLD
  -- goes to CONVEYING, whatever the motor and the sensors do.
  pub camera_hold_loop_times_out :
      (m : Machine)
      → ((n : ℕ) → m.calls ≤ n → 1000 ≤ sub32 (b.millis n) m.enter_ms)
      → (camera_hold_loop b m).current_state ≡ some conveying
  unfolding camera_hold_loop before_timeout
  camera_hold_loop_times_out m late =
      let (entered, kept, later) = before_timeout_keeps m in
      hold_timeout_over (before_timeout m) (
        subst (λ (t : ℕ). 1000 ≤ sub32 (b.millis (before_timeout m).calls) t) (sym entered)
          (late (before_timeout m).calls later))
