-- ===== src/Js/Parse.antt =====
-- `BigInt(text)`: white space round the number is skipped, the empty text is 0, and a text is
-- decimal digits with an optional sign, or hexadecimal, octal or binary digits behind a prefix.
use Prim.Native.Char.{code}
use mathlib.Core.List.{reverse}
use mathlib.Core.Option
use myne.Base.{
  arith, length, zero, ◌/◌, true, ◌%◌, false, ◌^◌, suc, not, refl, ◌≡◌, ℕ, ◌+◌, ◌-◌, ◌*◌, String,
  Bool, ◌&&◌, ◌||◌, Option, none, some, List, [], ◌∷◌, Result, ok, err, syntax_error, ◌==◌, leb,
  ltb, if◌then◌else◌,
}
use myne.Base.Int.{ℤ, pos, sub_ℕ}

-- The code units of a text (the scripts' numerals are ASCII).
unfoldable pub codes : String → List ℕ
codes String.[] = []
codes (String.◌∷◌ c s) = code c ∷ codes s

-- StringToBigInt's WhiteSpace and LineTerminator.
is_space : ℕ → Bool
is_space c =
    (leb 9 c && leb c 13)
    || c == 32
    || c == 0xa0
    || c == 0x1680
    || (leb 0x2000 c && leb c 0x200a)
    || c == 0x2028
    || c == 0x2029
    || c == 0x202f
    || c == 0x205f
    || c == 0x3000
    || c == 0xfeff

trim_start : List ℕ → List ℕ
trim_start [] = []
trim_start (c ∷ cs) = let rest = trim_start cs in if is_space c then rest else c ∷ cs

trim : List ℕ → List ℕ
trim cs = reverse (trim_start (reverse (trim_start cs)))

-- A character that is no digit counts as 36, above every base.
digit_value : ℕ → ℕ
digit_value c =
    if leb b'0' c && leb c b'9'
    then c - b'0'
    else if leb b'a' c && leb c b'z'
    then c - b'a' + 10
    else if leb b'A' c && leb c b'Z'
    then c - b'A' + 10
    else 36

digits_from : ℕ → ℕ → List ℕ → Option ℕ
digits_from base acc [] = some acc
digits_from base acc (c ∷ cs) =
    let rest = digits_from base (acc * base + digit_value c) cs in
    if ltb (digit_value c) base then rest else none

-- At least one digit.
digits : ℕ → List ℕ → Option ℕ
digits base [] = none
digits base cs = digits_from base 0 cs

or_syntax : (ℕ → ℤ) → Option ℕ → Result ℤ
or_syntax f none = err syntax_error
or_syntax f (some n) = ok (f n)

-- The letter behind a leading 0 chooses the base.
prefixed : ℕ → List ℕ → List ℕ → Result ℤ
prefixed c cs whole =
    if c == b'x' || c == b'X'
    then or_syntax pos (digits 16 cs)
    else if c == b'o' || c == b'O'
    then or_syntax pos (digits 8 cs)
    else if c == b'b' || c == b'B'
    then or_syntax pos (digits 2 cs)
    else or_syntax pos (digits 10 whole)

parse_codes : List ℕ → Result ℤ
parse_codes [] = ok (pos 0)
parse_codes (c ∷ []) = or_syntax pos (digits 10 (c ∷ []))
parse_codes (c ∷ d ∷ cs) =
    if c == b'-'
    then or_syntax (λ n. sub_ℕ 0 n) (digits 10 (d ∷ cs))
    else if c == b'+'
    then or_syntax pos (digits 10 (d ∷ cs))
    else if c == b'0'
    then prefixed d cs (c ∷ d ∷ cs)
    else or_syntax pos (digits 10 (c ∷ d ∷ cs))

unfoldable pub parse_bigint : String → Result ℤ
unfolding codes trim trim_start is_space digits digits_from digit_value or_syntax prefixed
    parse_codes
parse_bigint s = parse_codes (trim (codes s))

-- The digits in front, the number of them, and the rest.
span_digits : ℕ → ℕ → List ℕ → ℕ × ℕ × List ℕ
span_digits acc n [] = (acc, n, [])
span_digits acc n (c ∷ cs) =
    let more = span_digits (acc * 10 + digit_value c) (n + 1) cs in
    if ltb (digit_value c) 10 then more else (acc, n, c ∷ cs)

-- `m * 10 ^ (up - down)`, if that is an integer.
scaled : ℕ → ℕ → ℕ → Option ℕ
scaled m up down =
    let shift = 10 ^ (down - up) in
    if leb down up
    then some (m * 10 ^ (up - down))
    else if m % shift == 0
    then some (m / shift)
    else none

-- The exponent behind `e`, once the mantissa and the length of its fraction are read.
exponent : ℕ → ℕ → List ℕ → Option ℕ
exponent m down [] = none
exponent m down (c ∷ cs) =
    if c == b'-'
    then signed false cs
    else if c == b'+'
    then signed true cs
    else signed true (c ∷ cs)
  where
    finish : Bool → ℕ × ℕ × List ℕ → Option ℕ
    finish up (e, zero, rest) = none
    finish true (e, suc n, []) = scaled m e down
    finish false (e, suc n, []) = scaled m 0 (down + e)
    finish up (e, suc n, c' ∷ rest) = none

    signed : Bool → List ℕ → Option ℕ
    signed up ds = finish up (span_digits 0 0 ds)

after_mantissa : ℕ → ℕ → List ℕ → Option ℕ
after_mantissa m down [] = scaled m 0 down
after_mantissa m down (c ∷ cs) = if c == b'e' || c == b'E' then exponent m down cs else none

-- A mantissa has a digit before or behind its point.
fraction : ℕ → ℕ → List ℕ → Option ℕ
fraction m n [] = if n == 0 then none else after_mantissa m 0 []
fraction m n (c ∷ cs) =
    if c == b'.'
    then behind (span_digits m 0 cs)
    else if n == 0
    then none
    else after_mantissa m 0 (c ∷ cs)
  where
    behind : ℕ × ℕ × List ℕ → Option ℕ
    behind (m', n', rest) = if n + n' == 0 then none else after_mantissa m' n' rest

unsigned : List ℕ → Option ℕ
unsigned cs = start (span_digits 0 0 cs)
  where
    start : ℕ × ℕ × List ℕ → Option ℕ
    start (m, n, rest) = fraction m n rest

to_option : Result ℤ → Option ℤ
to_option (ok z) = some z
to_option (err e) = none

decimal_codes : List ℕ → Option ℤ
decimal_codes [] = some (pos 0)
decimal_codes (c ∷ cs) =
    if c == b'-'
    then Option.map (λ n. sub_ℕ 0 n) (unsigned cs)
    else if c == b'+'
    then Option.map pos (unsigned cs)
    else Option.map pos (unsigned (c ∷ cs))

is_prefixed : List ℕ → Bool
is_prefixed (c ∷ d ∷ cs) =
    c == b'0'
    && not (ltb (digit_value d) 10)
    && not (d == b'.')
    && not (d == b'e')
    && not (d == b'E')
is_prefixed _ = false

-- `Number(text)` where it is an integer: decimals with a fraction and an exponent, and the prefixes
-- of `BigInt`. The value is exact (it is not rounded to a double).
unfoldable pub parse_integer : String → Option ℤ
unfolding codes trim trim_start is_space parse_codes digits digits_from digit_value or_syntax
    prefixed span_digits scaled exponent after_mantissa fraction unsigned to_option decimal_codes
    is_prefixed
parse_integer s =
    let cs = trim (codes s) in
    if is_prefixed cs then to_option (parse_codes cs) else decimal_codes cs

parses_exponent : parse_integer "1.50e1" ≡ some (pos 15)
unfolding parse_integer
parses_exponent = refl

parses_padded : parse_bigint " -42 " ≡ ok (sub_ℕ 0 42)
unfolding parse_bigint
parses_padded = refl

hex_from : ℕ → List ℕ → ℕ
hex_from acc [] = acc
hex_from acc (c ∷ cs) = hex_from (acc * 16 + digit_value c) cs

-- `BigInt('0x' + text)` of hexadecimal digits.
unfoldable pub parse_hex_32 : String → ℕ
unfolding codes digit_value hex_from
parse_hex_32 s = hex_from 0 (codes s)

hex_pairs : List ℕ → List ℕ
hex_pairs (c ∷ d ∷ cs) = (digit_value c * 16 + digit_value d) ∷ hex_pairs cs
hex_pairs _ = []

-- `Buffer.from(text, 'hex')` of an even number of hexadecimal digits.
unfoldable pub hex_bytes : String → List ℕ
unfolding codes digit_value hex_pairs
hex_bytes s = hex_pairs (codes s)

length-hex_pairs : (n : ℕ) (cs : List ℕ) → length cs ≡ n + n → length (hex_pairs cs) ≡ n
unfolding hex_pairs
length-hex_pairs zero [] e = refl
length-hex_pairs zero (c ∷ cs) e = absurd (omega arith)
length-hex_pairs (suc n) [] e = absurd (omega arith)
length-hex_pairs (suc n) (c ∷ []) e = absurd (omega arith)
length-hex_pairs (suc n) (c ∷ d ∷ cs) e = omega (arith, length-hex_pairs n cs (omega arith))

pub length-hex_bytes : (s : String) → length (codes s) ≡ 64 → length (hex_bytes s) ≡ 32
unfolding hex_bytes
length-hex_bytes s e = length-hex_pairs 32 (codes s) e
