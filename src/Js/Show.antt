-- ===== src/Js/Show.antt =====
-- The text of an integer, in decimal digits.
use Prim.Native.String.{◌++◌ as append}
use myne.Base.{ℕ, zero, suc, ◌/◌, ◌%◌, String, ltb, if◌then◌else◌}
use myne.Base.Int.{ℤ, pos, negsuc}

show_digit : ℕ → String
show_digit zero = "0"
show_digit (suc zero) = "1"
show_digit (suc (suc zero)) = "2"
show_digit (suc (suc (suc zero))) = "3"
show_digit (suc (suc (suc (suc zero)))) = "4"
show_digit (suc (suc (suc (suc (suc zero))))) = "5"
show_digit (suc (suc (suc (suc (suc (suc zero)))))) = "6"
show_digit (suc (suc (suc (suc (suc (suc (suc zero))))))) = "7"
show_digit (suc (suc (suc (suc (suc (suc (suc (suc zero)))))))) = "8"
show_digit _ = "9"

-- A number has at most as many digits as it counts, so the fuel `suc n` suffices.
show_from : ℕ → ℕ → String
show_from zero n = ""
show_from (suc f) n =
    let more = append (show_from f (n / 10)) (show_digit (n % 10)) in
    if ltb n 10 then show_digit n else more

unfoldable pub show_nat : ℕ → String
unfolding show_digit show_from
show_nat n = show_from (suc n) n

unfoldable pub show_int : ℤ → String
unfolding show_nat
show_int (pos n) = show_nat n
show_int (negsuc n) = append "-" (show_nat (suc n))
