-- ===== src/Js/Pattern.antt =====
-- The regular expressions of the worker scripts, as tests on the code units of a text.
use myne.Base.{
  true, if◌then◌else◌, ℕ, String, List, [], ◌∷◌, Bool, false, ◌&&◌, ◌||◌, ◌==◌, leb, every, length,
}
use myne.Js.Parse.{codes}

unfoldable pub is_digit : ℕ → Bool
is_digit c = leb b'0' c && leb c b'9'

canonical_codes : List ℕ → Bool
canonical_codes [] = false
canonical_codes (c ∷ []) = is_digit c
canonical_codes (c ∷ cs) = leb b'1' c && leb c b'9' && every is_digit cs

-- `/^(?:0|[1-9][0-9]*)$/`
unfoldable pub is_canonical_numeric : String → Bool
unfolding codes is_digit canonical_codes
is_canonical_numeric s = canonical_codes (codes s)

digit_codes : List ℕ → Bool
digit_codes [] = false
digit_codes cs = every is_digit cs

-- `/^\d+$/`
unfoldable pub is_digits : String → Bool
unfolding codes is_digit digit_codes
is_digits s = digit_codes (codes s)

is_lower_hex : ℕ → Bool
is_lower_hex c = (leb b'0' c && leb c b'9') || (leb b'a' c && leb c b'f')

-- `/^[0-9a-f]{64}$/`
unfoldable pub is_hex_32 : String → Bool
unfolding codes is_lower_hex
is_hex_32 s = length (codes s) == 64 && every is_lower_hex (codes s)

scientific_exponent : List ℕ → Bool
scientific_exponent (c ∷ d ∷ cs) = c == b'e' && d == b'+' && digit_codes cs
scientific_exponent _ = false

-- The digits behind the point, at least one, and the exponent.
scientific_fraction : Bool → List ℕ → Bool
scientific_fraction seen [] = false
scientific_fraction seen (c ∷ cs) =
    let more = scientific_fraction true cs in
    if is_digit c then more else seen && scientific_exponent (c ∷ cs)

scientific_codes : List ℕ → Bool
scientific_codes (c ∷ d ∷ cs) =
    leb b'1' c
    && leb c b'9'
    && (if d == b'.' then scientific_fraction false cs else scientific_exponent (d ∷ cs))
scientific_codes _ = false

-- `/^[1-9](?:\.[0-9]+)?e\+[0-9]+$/`
unfoldable pub is_scientific : String → Bool
unfolding codes is_digit digit_codes scientific_exponent scientific_fraction scientific_codes
is_scientific s = scientific_codes (codes s)
