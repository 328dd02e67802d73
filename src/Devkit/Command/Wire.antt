-- ===== src/Devkit/Command/Wire.antt =====
-- The texts of the commands, and `Command::parse` on them.
use iot_repo.Base.{
  ◌^◌, ◌<◌, ◌≡◌, ◌≢◌, inl, inr, refl, sym, subst, if◌then◌else◌, ◌++◌, Bool-cases, Option-cases,
  All,
}
use iot_repo.Base.Int.{pos}
use iot_repo.Base.Atoi.{atoi, IsDigit, decimal, atoi-decimal}
use iot_repo.Base.Text.{Bytes, codes, bytes_eq, bytes_eq_sound, after_prefix, after_prefix_sound}
use iot_repo.Devkit.Command.{
  CommandType, Command, or_valued, plain, sort_start, sort_stop, sort_pause, sort_resume,
  sort_dir_1l, sort_dir_2l, sort_dir_warn, dc_speed, servo_deg_a, servo_deg_b, unknown, parse,
}

-- A message that spells a command.
pub data Spells : Bytes → Command → Type 0 where
  start : Spells (codes "SORT_START") (record { type = sort_start; value = pos 0 })
  stop : Spells (codes "SORT_STOP") (record { type = sort_stop; value = pos 0 })
  pause : Spells (codes "SORT_PAUSE") (record { type = sort_pause; value = pos 0 })
  resume : Spells (codes "SORT_RESUME") (record { type = sort_resume; value = pos 0 })
  dir_1l : Spells (codes "SORT_DIR:1L") (record { type = sort_dir_1l; value = pos 0 })
  dir_2l : Spells (codes "SORT_DIR:2L") (record { type = sort_dir_2l; value = pos 0 })
  dir_warn : Spells (codes "SORT_DIR:WARN") (record { type = sort_dir_warn; value = pos 0 })
  speed :
      (args : Bytes)
      → Spells (codes "DC_SPEED:" ++ args) (record { type = dc_speed; value = atoi args })
  deg_a :
      (args : Bytes)
      → Spells (codes "SERVO_A:" ++ args) (record { type = servo_deg_a; value = atoi args })
  deg_b :
      (args : Bytes)
      → Spells (codes "SERVO_B:" ++ args) (record { type = servo_deg_b; value = atoi args })

-- Every message that spells a command is parsed to it.
pub parse_complete : {msg : Bytes} {c : Command} → Spells msg c → parse msg ≡ c
unfolding parse
parse_complete start = refl
parse_complete stop = refl
parse_complete pause = refl
parse_complete resume = refl
parse_complete dir_1l = refl
parse_complete dir_2l = refl
parse_complete dir_warn = refl
parse_complete (speed args) = refl
parse_complete (deg_a args) = refl
parse_complete (deg_b args) = refl

-- One `strcmp` of the chain: the branch taken spells its command if the others do.
step_text :
    (msg text : Bytes) (c other : Command)
    → Spells text c
    → (other.type ≢ unknown → Spells msg other)
    → (if bytes_eq msg text then c else other).type ≢ unknown
    → Spells msg (if bytes_eq msg text then c else other)
step_text msg text c other here rest known = elim (Bool-cases (bytes_eq msg text)) [
  | inl same ↦ rw same (subst (λ m. Spells m c) (sym (bytes_eq_sound msg text same)) here)
  | inr not_same ↦ rw not_same (rest (rw not_same at known))
]

-- One `strncmp` of the chain.
step_prefix :
    (msg prefix : Bytes) (t : CommandType) (other : Command)
    → ((args : Bytes) → Spells (prefix ++ args) (record { type = t; value = atoi args }))
    → (other.type ≢ unknown → Spells msg other)
    → (or_valued t (after_prefix prefix msg) other).type ≢ unknown
    → Spells msg (or_valued t (after_prefix prefix msg) other)
step_prefix msg prefix t other here rest known = elim (Option-cases (after_prefix prefix msg)) [
  | inl missing ↦ rw missing (rest (rw missing at known))
  | inr (args, found) ↦ rw found (
      subst (λ m. Spells m (record { type = t; value = atoi args }))
        (sym (after_prefix_sound prefix msg args found)) (here args))
]

-- What is not parsed as UNKNOWN spells the command that it is parsed to.
pub parse_sound : (msg : Bytes) → (parse msg).type ≢ unknown → Spells msg (parse msg)
unfolding parse
parse_sound msg = step_text msg _ _ _ start (
    step_text msg _ _ _ stop (
      step_text msg _ _ _ pause (
        step_text msg _ _ _ resume (
          step_text msg _ _ _ dir_1l (
            step_text msg _ _ _ dir_2l (
              step_text msg _ _ _ dir_warn (
                step_prefix msg (codes "DC_SPEED:") _ _ speed (
                  step_prefix msg (codes "SERVO_A:") _ _ deg_a (
                    step_prefix msg (codes "SERVO_B:") _ (plain unknown) deg_b
                      (λ none_fits. absurd (none_fits refl)))))))))))

-- A speed written in decimal digits is received as that number, if an int holds it.
pub parse-dc_speed :
    (ds : Bytes)
    → All IsDigit ds
    → decimal 0 ds < 2 ^ 31
    → parse (codes "DC_SPEED:" ++ ds) ≡ record { type = dc_speed; value = pos (decimal 0 ds) }
parse-dc_speed ds h small = rw (parse_complete (speed ds), atoi-decimal ds h small)

-- An angle written in decimal digits is received as that number, for either servo.
pub parse-servo_deg :
    (ds : Bytes)
    → All IsDigit ds
    → decimal 0 ds < 2 ^ 31
    → (parse (codes "SERVO_A:" ++ ds) ≡ record { type = servo_deg_a; value = pos (decimal 0 ds) })
      × (parse (codes "SERVO_B:" ++ ds) ≡ record { type = servo_deg_b; value = pos (decimal 0 ds) })
parse-servo_deg ds h small = (
  rw (parse_complete (deg_a ds), atoi-decimal ds h small),
  rw (parse_complete (deg_b ds), atoi-decimal ds h small),
)
