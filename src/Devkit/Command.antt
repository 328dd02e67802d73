-- ===== src/Devkit/Command.antt =====
-- command.h and command.cpp: the commands of the topic device/control.
pub mod Wire
use iot_repo.Base.{
  ℕ, ◌+◌, ◌-◌, ◌*◌, ◌^◌, Bool, ◌&&◌, ◌||◌, [], ◌∷◌, Option, none, some, leb, ◌==◌, if◌then◌else◌,
}
use iot_repo.Base.Int.{ℤ, pos, neg}
use iot_repo.Base.Atoi.{atoi}
use iot_repo.Base.Text.{Bytes, codes, bytes_eq, after_prefix}

pub data CommandType : Type 0 where
  sort_start sort_stop sort_pause sort_resume : CommandType
  sort_dir_1l sort_dir_2l sort_dir_warn : CommandType
  dc_speed servo_deg_a servo_deg_b : CommandType
  unknown : CommandType

pub record Command : Type 0 where
  pub type : CommandType
  pub value : ℤ

abbrev pub plain : CommandType → Command
plain t = record { type = t; value = pos 0 }

-- `strncmp(msg, prefix, n) == 0`, then `atoi(msg + n)`.
abbrev pub or_valued : CommandType → Option Bytes → Command → Command
or_valued t (some args) other = record { type = t; value = atoi args }
or_valued t none other = other

unfoldable pub parse_valued : Bytes → Command
parse_valued msg = or_valued dc_speed (after_prefix (codes "DC_SPEED:") msg) (
    or_valued servo_deg_a (after_prefix (codes "SERVO_A:") msg)
      (or_valued servo_deg_b (after_prefix (codes "SERVO_B:") msg) (plain unknown)))

unfoldable pub parse : Bytes → Command
unfolding parse_valued
parse msg =
    if bytes_eq msg (codes "SORT_START")
    then plain sort_start
    else if bytes_eq msg (codes "SORT_STOP")
    then plain sort_stop
    else if bytes_eq msg (codes "SORT_PAUSE")
    then plain sort_pause
    else if bytes_eq msg (codes "SORT_RESUME")
    then plain sort_resume
    else if bytes_eq msg (codes "SORT_DIR:1L")
    then plain sort_dir_1l
    else if bytes_eq msg (codes "SORT_DIR:2L")
    then plain sort_dir_2l
    else if bytes_eq msg (codes "SORT_DIR:WARN")
    then plain sort_dir_warn
    else parse_valued msg
