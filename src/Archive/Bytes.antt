-- ===== src/Archive/Bytes.antt =====
-- Byte strings: decided equality, joined parts, and numbers in eight bytes.
use myne.Archive.Proof.{bytes_le, u64_le}
use myne.Base.{
  ℕ, zero, suc, ◌+◌, ◌*◌, ◌/◌, ◌^◌, ◌<◌, ◌==◌, ==_iff, ◌≡◌, ◌≢◌, refl, sym, ap, ◌∙◌, String,
  Bool-cases, List, [], ◌∷◌, ◌++◌, length, ◌⊎◌, inl, inr, arith,
}

-- Two inputs with one digest.
abbrev pub Collision : (List ℕ → String) → Type 0
Collision hash = (x : List ℕ) × (y : List ℕ) × (x ≢ y) × (hash x ≡ hash y)

dec_bytes : (xs ys : List ℕ) → (xs ≡ ys) ⊎ (xs ≢ ys)
dec_bytes [] [] = inl refl
dec_bytes [] (y ∷ ys) = inr (λ e. cc)
dec_bytes (x ∷ xs) [] = inr (λ e. cc)
dec_bytes (x ∷ xs) (y ∷ ys) = elim (dec_bytes xs ys) [
  | inr differ ↦ inr (λ e. differ (cc))
  | inl same ↦ elim (Bool-cases (x == y)) [
    | inl equal ↦ inl (ground (arith, ==_iff x y))
    | inr other ↦ inr (λ e. absurd (ground (arith, ==_iff x y)))
  ]
]

-- Equal digests have equal inputs, or are a collision.
pub same_input :
    (hash : List ℕ → String) (x y : List ℕ) → hash x ≡ hash y → (x ≡ y) ⊎ Collision hash
same_input hash x y e = elim (dec_bytes x y) [
  | inl same ↦ inl same
  | inr differ ↦ inr (x, y, differ, e)
]

pub same_parts :
    (xs ys us vs : List ℕ) → length xs ≡ length ys → xs ++ us ≡ ys ++ vs → (xs ≡ ys) × (us ≡ vs)
same_parts [] [] us vs l e = (refl, e)
same_parts [] (y ∷ ys) us vs l e = absurd (omega arith)
same_parts (x ∷ xs) [] us vs l e = absurd (omega arith)
same_parts (x ∷ xs) (y ∷ ys) us vs l e =
    let (same, rest) = same_parts xs ys us vs (omega arith) (cc) in (cc, rest)

pub length-bytes_le : (k n : ℕ) → length (bytes_le k n) ≡ k
unfolding bytes_le
length-bytes_le zero n = refl
length-bytes_le (suc k) n = omega (arith, length-bytes_le k (n / 256))

-- The bytes, the lowest first, as a number.
value_le : List ℕ → ℕ
value_le [] = 0
value_le (b ∷ bs) = b + 256 * value_le bs

value_le-bytes_le : (k n : ℕ) → n < 256 ^ k → value_le (bytes_le k n) ≡ n
unfolding bytes_le value_le
value_le-bytes_le zero n h = omega arith
value_le-bytes_le (suc k) n h =
    let power : 256 ^ suc k ≡ 256 * 256 ^ k = omega arith in
    omega (arith, value_le-bytes_le k (n / 256) (omega arith))

pub u64_le_injective : (n m : ℕ) → n < 2 ^ 64 → m < 2 ^ 64 → u64_le n ≡ u64_le m → n ≡ m
unfolding u64_le
u64_le_injective n m h g e =
    sym (value_le-bytes_le 8 n (omega arith)) ∙ ap value_le e ∙ value_le-bytes_le 8 m (omega arith)
