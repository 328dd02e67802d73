-- ===== src/Board/Constrain.antt =====
-- What follows from the documented behaviour of constrain.
use iot_repo.Base.{◌≡◌, arith}
use iot_repo.Base.Int.{ℤ, ◌≤ℤ◌}
use iot_repo.Board.{Board}

module _ (b : Board) where
  pub constrain_bounds :
      (x lo hi : ℤ) → lo ≤ℤ hi → (lo ≤ℤ b.constrain x lo hi) × (b.constrain x lo hi ≤ℤ hi)
  constrain_bounds x lo hi h = ground (arith, b.constrain_lem x lo hi)

  -- A value in the range is kept.
  pub constrain_inside : (x lo hi : ℤ) → lo ≤ℤ x → x ≤ℤ hi → b.constrain x lo hi ≡ x
  constrain_inside x lo hi h k = ground (arith, b.constrain_lem x lo hi)
