-- ===== src/Js/Numbers.antt =====
-- A Number that passes for a safe integer.
use myne.Base.{◌≡◌, ok, arith}
use myne.Base.Int.{ℤ}
use myne.Js.{number, safe_integer}

pub safe_integer-number : (r z : ℤ) → safe_integer (number r) ≡ ok z → z ≡ r
unfolding safe_integer
safe_integer-number r z h = ground arith
