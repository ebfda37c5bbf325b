-- ===== src/Recovery/Scan/Base58.antt =====
-- The base-58 digits of some bytes stand for the same number.
use native.Mathlib.Nat.{mul-le-mul_right, div-add-mod}
use myne.Base.{
  ℕ, zero, suc, ◌+◌, ◌*◌, ◌/◌, ◌%◌, ◌==◌, ==_iff, ◌≡◌, ◌<◌, ◌≤◌, List, [], ◌∷◌, ◌++◌, refl, arith,
  All, Bool-cases, inl, inr, sym, ◌∙◌, ap,
}
use myne.Recovery.Scan.{big_endian, digits_58, leading_zeroes, fuel_for, base_58_digits}

-- What digits say in base 58, after a value.
pub value_58 : ℕ → List ℕ → ℕ
value_58 value [] = value
value_58 value (digit ∷ digits) = value_58 (value * 58 + digit) digits

abbrev pub IsByte : ℕ → Type 0
IsByte byte = byte < 256

-- `58 ^ n`
bound : ℕ → ℕ
bound zero = 1
bound (suc n) = 58 * bound n

smaller : (value b : ℕ) → value < 58 * b → value / 58 < b
smaller value b h = grind (arith, div-add-mod value 58)

split_58 : (value : ℕ) → value / 58 * 58 + value % 58 ≡ value
split_58 value = omega arith

digits_step :
    (fuel value : ℕ) (encoded : List ℕ)
    → value_58 0 (digits_58 fuel (value / 58) ((value % 58) ∷ encoded))
      ≡ value_58 (value / 58) ((value % 58) ∷ encoded)
    → value_58 0 (digits_58 fuel (value / 58) ((value % 58) ∷ encoded)) ≡ value_58 value encoded
unfolding value_58
digits_step fuel value encoded h = h ∙ ap (λ v. value_58 v encoded) (split_58 value)

digits_58-value :
    (fuel value : ℕ) (encoded : List ℕ)
    → value < bound fuel
    → value_58 0 (digits_58 fuel value encoded) ≡ value_58 value encoded
unfolding digits_58 bound
digits_58-value zero value encoded h =
    let none_left : value ≡ 0 = omega arith in ap (λ v. value_58 v encoded) (sym none_left)
digits_58-value (suc fuel) value encoded h = elim (Bool-cases (value == 0)) [
  | inl is_zero ↦ rw is_zero (ap (λ v. value_58 v encoded) (sym ((==_iff value 0).0 is_zero)))
  | inr more ↦ rw more (
      digits_step fuel value encoded
        (digits_58-value fuel (value / 58) ((value % 58) ∷ encoded) (smaller value (bound fuel) h)))
]

assoc : (v k : ℕ) → (v + 1) * 3364 * k ≡ (v + 1) * (58 * (58 * k))
assoc v k = grind arith

scaled : (v b k : ℕ) → b < 256 → (v * 256 + b + 1) * k ≤ (v + 1) * (58 * (58 * k))
scaled v b k h =
    omega (
      arith,
      mul-le-mul_right {m = v * 256 + b + 1} {n = (v + 1) * 3364} k (omega arith),
      assoc v k,
    )

big_endian-bound :
    (value : ℕ) (bytes : List ℕ)
    → All IsByte bytes
    → big_endian value bytes < (value + 1) * bound (fuel_for bytes)
unfolding big_endian fuel_for bound
big_endian-bound value [] b = omega arith
big_endian-bound value (byte ∷ bytes) (b, bs) = omega (
  arith,
  big_endian-bound (value * 256 + byte) bytes bs,
  scaled value byte (bound (fuel_for bytes)) b,
)

leading_zeroes-value :
    (bytes digits : List ℕ) → value_58 0 (leading_zeroes bytes ++ digits) ≡ value_58 0 digits
unfolding leading_zeroes value_58
leading_zeroes-value [] digits = refl
leading_zeroes-value (byte ∷ bytes) digits = elim (Bool-cases (byte == 0)) [
  | inl is_zero ↦ rw is_zero (leading_zeroes-value bytes digits)
  | inr other ↦ rw other refl
]

-- Reading the base-58 digits of any bytes gives back the number that the bytes stand for.
pub base_58_digits-value :
    (bytes : List ℕ) → All IsByte bytes → value_58 0 (base_58_digits bytes) ≡ big_endian 0 bytes
unfolding base_58_digits value_58
base_58_digits-value bytes b =
    leading_zeroes-value bytes _
    ∙ digits_58-value (fuel_for bytes) (big_endian 0 bytes) []
        (omega (arith, big_endian-bound 0 bytes b))
