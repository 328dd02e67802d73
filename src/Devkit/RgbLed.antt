-- ===== src/Devkit/RgbLed.antt =====
-- peripheral/rgb_led.h and peripheral/rgb_led.cpp, with the `State` of fsm.h that `forState` takes.
pub mod Blink
use iot_repo.Base.{ℕ, Bool, true, false, not, leb, sub32, if◌then◌else◌}
use iot_repo.Base.Int.{ℤ, pos, negsuc}
use iot_repo.Board.{Board}

pub data State : Type 0 where
  idle running paused error : State

-- `r`, `g` and `b` are the levels that the three pins were last set to.
pub record RgbLed : Type 0 where
  pub r_pin : ℤ
  pub g_pin : ℤ
  pub b_pin : ℤ
  pub blinking : Bool
  pub blink_on : Bool
  pub last_blink_ms : ℕ
  pub r : Bool
  pub g : Bool
  pub b : Bool

abbrev pub fresh : RgbLed
fresh = record {
  r_pin = negsuc 0;
  g_pin = negsuc 0;
  b_pin = negsuc 0;
  blinking = false;
  blink_on = false;
  last_blink_ms = 0;
  r = false;
  g = false;
  b = false;
}

unfoldable pub set : Bool → Bool → Bool → RgbLed → RgbLed
set r g b l = record l { r = r; g = g; b = b }

unfoldable pub stop_blink : RgbLed → RgbLed
stop_blink l = record l { blinking = false; blink_on = false; last_blink_ms = 0 }

unfoldable pub red : RgbLed → RgbLed
unfolding set stop_blink
red l = set true false false (stop_blink l)

unfoldable pub green : RgbLed → RgbLed
unfolding set stop_blink
green l = set false true false (stop_blink l)

unfoldable pub blue : RgbLed → RgbLed
unfolding set stop_blink
blue l = set false false true (stop_blink l)

unfoldable pub yellow : RgbLed → RgbLed
unfolding set stop_blink
yellow l = set true true false (stop_blink l)

unfoldable pub off : RgbLed → RgbLed
unfolding set stop_blink
off l = set false false false (stop_blink l)

unfoldable pub begin : ℕ → ℕ → ℕ → RgbLed → RgbLed
unfolding off
begin r g b l = off (record l { r_pin = pos r; g_pin = pos g; b_pin = pos b })

unfoldable pub for_state : State → RgbLed → RgbLed
unfolding red green yellow
for_state idle l = red l
for_state running l = green l
for_state paused l = yellow l
for_state error l = record l { blinking = true }

module _ (board : Board) where
  -- Reads the clock once, as call n.
  unfoldable pub update_blink : ℕ → ℕ → Bool → Bool → Bool → RgbLed → RgbLed
  unfolding set
  update_blink n blink_ms r g b l =
      let now = board.millis n in
      let l' = record l { blinking = true; last_blink_ms = now; blink_on = not l.blink_on } in
      if leb blink_ms (sub32 now l.last_blink_ms)
      then (if not l.blink_on then set r g b l' else set false false false l')
      else record l { blinking = true }
