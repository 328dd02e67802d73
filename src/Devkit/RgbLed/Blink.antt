-- ===== src/Devkit/RgbLed/Blink.antt =====
-- The blinking of the lamp.
use iot_repo.Base.{ℕ, ◌≤◌, ◌<◌, ◌≡◌, Bool, not, sub32, arith}
use iot_repo.Board.{Board}
use iot_repo.Devkit.RgbLed.{RgbLed, update_blink}

module _ (board : Board) where
  -- Once an update has turned the lamp over, the updates within the period change nothing.
  pub update_blink_steady :
      (n k ms : ℕ) (r g b : Bool) (l : RgbLed)
      → ms ≤ sub32 (board.millis n) l.last_blink_ms
      → sub32 (board.millis k) (board.millis n) < ms
      → let l' = update_blink board n ms r g b l in
        (l'.blink_on ≡ not l.blink_on) × (update_blink board k ms r g b l' ≡ l')
  unfolding update_blink
  update_blink_steady n k ms r g b l over within = ground arith
