-- ===== src/Js.antt =====
-- The JavaScript values that the worker scripts read from database rows and RPC responses, with
-- the conversions of the language that the scripts call: `String(v)`, `BigInt(v)` and the tests
-- of `Number`. Lossless for the values below; objects and functions are not among them.
mod Show
mod Parse
pub mod Pattern
pub mod Numbers
use Prim.Native.String.{◌++◌ as append}
use myne.Base.{
  ◌||◌, str_eq, not, assert, ◌-◌, ◌^◌, ℕ, ◌+◌, ◌≤◌, String, Bool, true, false, Option, none, some,
  Result, ok, err, syntax_error, assertion, Thrown, guard, ◌>>=◌, ◌>>◌, if◌then◌else◌, leb, ltb,
}
use myne.Base.Int.{eqb_ℤ, ℤ, pos, negsuc, leb_ℤ}
use Show.{show_int}
use Parse.{parse_bigint, parse_integer}
unfoldable pub use Parse.{parse_hex_32, hex_bytes, codes}
pub use Parse.{length-hex_bytes}

-- `number z` is a Number that is an integer below 10^21 in size, which prints in digits.
-- `other_number s` is any other Number (NaN, an infinity, a fraction, a larger one), by its text.
pub data Value : Type 0 where
  undefined null : Value
  boolean : Bool → Value
  number : ℤ → Value
  other_number : String → Value
  bigint : ℤ → Value
  text : String → Value

-- `value === null || value === undefined`
unfoldable pub is_nullish : Value → Bool
is_nullish undefined = true
is_nullish null = true
is_nullish _ = false

-- `String(value)`
unfoldable pub to_string : Value → String
unfolding show_int
to_string undefined = "undefined"
to_string null = "null"
to_string (boolean true) = "true"
to_string (boolean false) = "false"
to_string (number z) = show_int z
to_string (other_number s) = s
to_string (bigint z) = show_int z
to_string (text s) = s

-- `BigInt(String(value))`: only the text of a number or a text can be read.
unfoldable pub bigint_of : Value → Result ℤ
unfolding parse_bigint
bigint_of undefined = err syntax_error
bigint_of null = err syntax_error
bigint_of (boolean b) = err syntax_error
bigint_of (number z) = ok z
bigint_of (other_number s) = err syntax_error
bigint_of (bigint z) = ok z
bigint_of (text s) = parse_bigint s

-- `BigInt(value?.toString?.() ?? value ?? 0)`
unfoldable pub as_bigint : Value → Result ℤ
unfolding bigint_of
as_bigint undefined = ok (pos 0)
as_bigint null = ok (pos 0)
as_bigint v = bigint_of v

-- `Number.isSafeInteger`: the largest is 2^53 - 1.
unfoldable pub is_safe_int : ℤ → Bool
is_safe_int (pos n) = ltb n (2 ^ 53)
is_safe_int (negsuc n) = ltb n (2 ^ 53 - 1)

-- `assert.ok(Number.isSafeInteger(value))`, with the integer for what follows.
unfoldable pub safe_integer : Value → Result ℤ
unfolding is_safe_int
safe_integer (number z) = if is_safe_int z then ok z else err assertion
safe_integer _ = err assertion

-- `assert.ok(parsed >= 0n)`, with the number for what follows.
unfoldable pub non_negative : Thrown → ℤ → Result ℕ
non_negative e (pos n) = ok n
non_negative e (negsuc n) = err e

-- `Boolean(value)`
unfoldable pub truthy : Value → Bool
truthy undefined = false
truthy null = false
truthy (boolean b) = b
truthy (number z) = not (eqb_ℤ z (pos 0))
truthy (other_number s) = not (str_eq s "NaN")
truthy (bigint z) = not (eqb_ℤ z (pos 0))
truthy (text s) = not (str_eq s "")

-- `String(value ?? '')`
unfoldable pub text_or_empty : Value → String
unfolding is_nullish to_string
text_or_empty v = if is_nullish v then "" else to_string v

-- `String(value || '')`
unfoldable pub text_or_blank : Value → String
unfolding truthy to_string
text_or_blank v = if truthy v then to_string v else ""

-- `Number(value)` where `Number.isInteger` holds of it, and `none` where it does not.
unfoldable pub integer_of : Value → Option ℤ
unfolding parse_integer
integer_of undefined = none
integer_of null = some (pos 0)
integer_of (boolean b) = some (pos (if b then 1 else 0))
integer_of (number z) = some z
integer_of (other_number s) = none
integer_of (bigint z) = some z
integer_of (text s) = parse_integer s

is_blank_text : Value → Bool
is_blank_text (text s) = str_eq s ""
is_blank_text _ = false

-- `value === null || value === undefined || value === ''`
unfoldable pub is_missing : Value → Bool
unfolding is_nullish is_blank_text
is_missing v = is_nullish v || is_blank_text v

-- `requiredNonNegativeBigInt` of Protocol/scripts/round-reconciliation-policy.mjs.
unfoldable pub required_non_negative_bigint : Value → Result ℕ
unfolding is_missing as_bigint non_negative
required_non_negative_bigint v = do
  assert (not (is_missing v))
  parsed ← as_bigint v
  non_negative assertion parsed
