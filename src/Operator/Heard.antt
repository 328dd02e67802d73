-- ===== src/Operator/Heard.antt =====
-- What the operator's program tells the conveyor, read by the conveyor's parser.
use iot_repo.Base.{
  ℕ, suc, take, ◌≤◌, ◌≡◌, refl, ◌++◌, ltb, ltb→lt, All, Bool-cases, inl, inr, arith,
}
use iot_repo.Base.Text.{Bytes, codes, c_str}
use iot_repo.Base.Int.{pos}
use iot_repo.Base.Atoi.{atoi, IsDigit, decimal, atoi-decimal}
use iot_repo.Devkit.Command.{
  Command, plain, sort_start, sort_stop, sort_pause, sort_resume, sort_dir_1l, sort_dir_2l,
  sort_dir_warn, dc_speed, servo_deg_a, servo_deg_b, parse,
}
use iot_repo.Devkit.Mqtt.{message_text}
use iot_repo.Operator.{
  SortDirection, line_1l, line_2l, warn, Call, control, api_process_start, api_process_stop,
  api_process_update,
}
use iot_repo.Operator.Words.{str, direction_text}

abbrev pub dir_command : SortDirection → Command
dir_command line_1l = plain sort_dir_1l
dir_command line_2l = plain sort_dir_2l
dir_command warn = plain sort_dir_warn

-- A text of the program, with the command that it stands for.
pub data Sends : Bytes → Command → Type 0 where
  starts : Sends (codes "SORT_START") (plain sort_start)
  stops : Sends (codes "SORT_STOP") (plain sort_stop)
  pauses : Sends (codes "SORT_PAUSE") (plain sort_pause)
  resumes : Sends (codes "SORT_RESUME") (plain sort_resume)
  sorts : (d : SortDirection) → Sends (codes "SORT_DIR:" ++ direction_text d) (dir_command d)
  turns_a :
      (n : ℕ)
      → n ≤ 45
      → Sends (codes "SERVO_A:" ++ str n) (record { type = servo_deg_a; value = pos n })
  turns_b :
      (n : ℕ)
      → n ≤ 45
      → Sends (codes "SERVO_B:" ++ str n) (record { type = servo_deg_b; value = pos n })
  speeds :
      (n : ℕ)
      → n ≤ 255
      → Sends (codes "DC_SPEED:" ++ str n) (record { type = dc_speed; value = pos n })

-- A text that the conveyor takes as the command that it stands for.
unfoldable pub Heard : Call → Type 0
Heard (control text) = (c : Command) × (Sends text c × (parse (message_text text) ≡ c))
Heard (api_process_start pid) = Unit
Heard (api_process_stop pid) = Unit
Heard (api_process_update pid field n) = Unit

str-IsDigit : (n : ℕ) → n ≤ 255 → All IsDigit (str n)
unfolding str
str-IsDigit n small = elim (Bool-cases (ltb n 10)) [
  | inl one ↦ rw one (grind (arith, ltb→lt n 10 one), tt)
  | inr more ↦ rw more (elim (Bool-cases (ltb n 100)) [
    | inl two ↦ rw two (grind (arith, ltb→lt n 100 two), (omega arith, tt))
    | inr three ↦ rw three (omega (arith, small), (omega (arith, small), (omega arith, tt)))
  ])
]

decimal-str : (n : ℕ) → decimal 0 (str n) ≡ n
unfolding str
decimal-str n = ground arith

-- What the buffer of 128 bytes keeps of a number behind its prefix.
c_str-take : (k n : ℕ) → c_str (take (suc (suc (suc (suc k)))) (str n)) ≡ str n
unfolding str
c_str-take k n = elim (Bool-cases (ltb n 10)) [
  | inl one ↦ rw one (ground arith)
  | inr more ↦ rw more (elim (Bool-cases (ltb n 100)) [
    | inl two ↦ rw two (ground arith)
    | inr three ↦ rw three (ground arith)
  ])
]

atoi-str : (k n : ℕ) → n ≤ 255 → atoi (c_str (take (suc (suc (suc (suc k)))) (str n))) ≡ pos n
atoi-str k n small =
    let value = decimal-str n in
    rw (c_str-take k n, atoi-decimal (str n) (str-IsDigit n small) (omega (arith, value)), value)
      refl

-- The conveyor takes every text of the program as the command that the text stands for.
parse-message_text : {text : Bytes} {c : Command} → Sends text c → parse (message_text text) ≡ c
unfolding parse direction_text
parse-message_text starts = refl
parse-message_text stops = refl
parse-message_text pauses = refl
parse-message_text resumes = refl
parse-message_text (sorts line_1l) = refl
parse-message_text (sorts line_2l) = refl
parse-message_text (sorts warn) = refl
parse-message_text (turns_a n small) = rw (atoi-str 115 n (omega arith)) refl
parse-message_text (turns_b n small) = rw (atoi-str 115 n (omega arith)) refl
parse-message_text (speeds n small) = rw (atoi-str 114 n small) refl

pub heard : {text : Bytes} {c : Command} → Sends text c → Heard (control text)
unfolding Heard
heard {c} sent = (c, (sent, parse-message_text sent))

-- Centring a servo sends the angle 0.
pub centres_a : Sends (codes "SERVO_A:0") (record { type = servo_deg_a; value = pos 0 })
centres_a = unfold str in (turns_a 0 (omega arith))

pub centres_b : Sends (codes "SERVO_B:0") (record { type = servo_deg_b; value = pos 0 })
centres_b = unfold str in (turns_b 0 (omega arith))
