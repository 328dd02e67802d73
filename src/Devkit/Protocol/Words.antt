-- ===== src/Devkit/Protocol/Words.antt =====
-- The log of each operation of the firmware, and of whole runs, in the grammar.
use iot_repo.Base.{
  ◌≡◌, ◌∙◌, refl, sym, ap, subst, Bool-cases, inl, inr, List, ◌∷◌, Option, none, some,
}
use iot_repo.Base.Int.{ℤ}
use iot_repo.Board.{Board}
use iot_repo.Devkit.Command.{
  CommandType, Command, sort_start, sort_stop, sort_pause, sort_resume, sort_dir_1l, sort_dir_2l,
  sort_dir_warn,
}
use iot_repo.Devkit.Commands.{
  idle_command, conveying_command, release_hold, start_blank, camera_hold_command, paused_command,
  error_command, state_command, command_in, on_command,
}
use iot_repo.Devkit.Machine.{StateId, idle, conveying, camera_hold, paused, error, Machine, sync_s6}
use iot_repo.Devkit.Mqtt.{Effect, is_unknown}
use iot_repo.Devkit.Transition.{leave, enter, on_enter, transition}
use iot_repo.Devkit.Protocol.{
  status, event, Follows, stops, starts, repeats, releases, pauses, pauses_hold, resumes,
}

-- The log of a controller leads to its state.
abbrev pub Traced : Machine → Type 0
Traced m = Follows m.effects m.current_state

-- What entering a state publishes.
abbrev pub announce : StateId → Effect
announce idle = status "IDLE"
announce conveying = status "RUNNING"
announce camera_hold = event "CAMERA_DETECT"
announce paused = status "PAUSED"
announce error = status "ERROR"

effects-leave : (s : Option StateId) (m : Machine) → (leave s m).effects ≡ m.effects
unfolding leave
effects-leave none m = refl
effects-leave (some idle) m = refl
effects-leave (some conveying) m = refl
effects-leave (some camera_hold) m = refl
effects-leave (some paused) m = refl
effects-leave (some error) m = refl

module _ (b : Board) where
  effects-on_enter : (t : StateId) (m : Machine) → (on_enter b t m).effects ≡ announce t ∷ m.effects
  unfolding on_enter
  effects-on_enter idle m = refl
  effects-on_enter conveying m = refl
  effects-on_enter camera_hold m = refl
  effects-on_enter paused m = refl
  effects-on_enter error m = refl

  current_state-on_enter :
      (t : StateId) (m : Machine) → (on_enter b t m).current_state ≡ m.current_state
  unfolding on_enter
  current_state-on_enter idle m = refl
  current_state-on_enter conveying m = refl
  current_state-on_enter camera_hold m = refl
  current_state-on_enter paused m = refl
  current_state-on_enter error m = refl

  -- A transition is allowed where the grammar has its announcement.
  pub transition-Traced :
      (t : StateId) (m : Machine)
      → Follows (announce t ∷ m.effects) (some t)
      → Traced (transition b (some t) m)
  unfolding transition enter
  transition-Traced t m allowed =
      let left : Machine = record (leave m.current_state m) { current_state = some t } in
      let log : (on_enter b t left).effects ≡ announce t ∷ m.effects =
        effects-on_enter t left ∙ ap (λ l. announce t ∷ l) (effects-leave m.current_state m) in
      subst (λ (s : Option StateId). Follows (on_enter b t left).effects s)
        (sym (current_state-on_enter t left))
        (subst (λ (l : List Effect). Follows l (some t)) (sym log) allowed)

  release_hold-Traced :
      (m : Machine) → Follows m.effects (some camera_hold) → Traced (release_hold b m)
  unfolding release_hold
  release_hold-Traced m h =
      transition-Traced conveying (sync_s6 b (start_blank b m))
        (releases (unfold sync_s6 start_blank in h))

  idle_command-Traced :
      (t : CommandType) (v : ℤ) (m : Machine)
      → Follows m.effects (some idle)
      → Traced m
      → Traced (idle_command b t v m)
  unfolding idle_command
  idle_command-Traced sort_start v m h same = transition-Traced conveying m (starts h)
  idle_command-Traced _ v m h same = same

  conveying_command-Traced :
      (t : CommandType) (v : ℤ) (m : Machine)
      → m.current_state ≡ some conveying
      → Follows m.effects (some conveying)
      → Traced m
      → Traced (conveying_command b t v m)
  unfolding conveying_command
  conveying_command-Traced sort_start v m e h same =
      subst (Follows (status "RUNNING" ∷ m.effects)) (sym e) (repeats h)
  conveying_command-Traced sort_stop v m e h same = transition-Traced idle m (stops h)
  conveying_command-Traced sort_pause v m e h same = transition-Traced paused m (pauses h)
  conveying_command-Traced _ v m e h same = same

  camera_hold_command-Traced :
      (t : CommandType) (v : ℤ) (m : Machine)
      → Follows m.effects (some camera_hold)
      → Traced m
      → Traced (camera_hold_command b t v m)
  unfolding camera_hold_command
  camera_hold_command-Traced sort_dir_1l v m h same = release_hold-Traced m h
  camera_hold_command-Traced sort_dir_2l v m h same = release_hold-Traced m h
  camera_hold_command-Traced sort_dir_warn v m h same = release_hold-Traced m h
  camera_hold_command-Traced sort_stop v m h same = transition-Traced idle m (stops h)
  camera_hold_command-Traced sort_pause v m h same = transition-Traced paused m (pauses_hold h)
  camera_hold_command-Traced _ v m h same = same

  paused_command-Traced :
      (t : CommandType) (v : ℤ) (m : Machine)
      → Follows m.effects (some paused)
      → Traced m
      → Traced (paused_command b t v m)
  unfolding paused_command
  paused_command-Traced sort_resume v m h same = transition-Traced conveying m (resumes h)
  paused_command-Traced sort_stop v m h same = transition-Traced idle m (stops h)
  paused_command-Traced _ v m h same = same

  error_command-Traced :
      (t : CommandType) (v : ℤ) (m : Machine)
      → Follows m.effects (some error)
      → Traced m
      → Traced (error_command b t v m)
  unfolding error_command
  error_command-Traced sort_stop v m h same = transition-Traced idle m (stops h)
  error_command-Traced _ v m h same = same

  state_command-Traced :
      (s : StateId) (t : CommandType) (v : ℤ) (m : Machine)
      → m.current_state ≡ some s
      → Follows m.effects (some s)
      → Traced m
      → Traced (state_command b s t v m)
  unfolding state_command
  state_command-Traced idle t v m e h same = idle_command-Traced t v m h same
  state_command-Traced conveying t v m e h same = conveying_command-Traced t v m e h same
  state_command-Traced camera_hold t v m e h same = camera_hold_command-Traced t v m h same
  state_command-Traced paused t v m e h same = paused_command-Traced t v m h same
  state_command-Traced error t v m e h same = error_command-Traced t v m h same

  command_in-Traced :
      (s : Option StateId) (c : Command) (m : Machine)
      → m.current_state ≡ s
      → Traced m
      → Traced (command_in b s c m)
  unfolding command_in
  command_in-Traced none c m e same = same
  command_in-Traced (some s) c m e same = elim (Bool-cases (is_unknown c.type)) [
    | inl ignored ↦ rw ignored same
    | inr known ↦
        rw known (state_command-Traced s c.type c.value m e (subst (Follows m.effects) e same) same)
  ]

  pub on_command-Traced : (c : Command) (m : Machine) → Traced m → Traced (on_command b c m)
  unfolding on_command
  on_command-Traced c m same = command_in-Traced m.current_state c m refl same
