-- ===== src/LifecycleQueue/Keyed.antt =====
-- A JavaScript `Map` with text keys: its entries in insertion order.
use myne.Base.{
  ◌≡◌, refl, arith, String, str_eq, eq_iff, List, [], ◌∷◌, ◌++◌, Bool, true, false, ◌||◌, not, ◌&&◌,
  if◌then◌else◌, length,
}

abbrev pub Entries : Type 0 → Type 0
Entries R = List (String × R)

module _ {R : Type 0} where
  -- `m.has(k)`
  unfoldable pub has_key : Entries R → String → Bool
  has_key [] k = false
  has_key ((j, r) ∷ m) k = str_eq j k || has_key m k

  -- `if (!m.has(k)) m.set(k, r)`
  unfoldable pub put_new : Entries R → String → R → Entries R
  put_new m k r = if has_key m k then m else m ++ (k, r) ∷ []

  -- `[...m.values()]`
  unfoldable pub values : Entries R → List R
  values [] = []
  values ((k, r) ∷ m) = r ∷ values m

  -- No key occurs twice.
  unfoldable pub distinct_keys : Entries R → Bool
  distinct_keys [] = true
  distinct_keys ((k, r) ∷ m) = not (has_key m k) && distinct_keys m

  pub has_key-append :
      (m n : Entries R) (k : String) → has_key (m ++ n) k ≡ (has_key m k || has_key n k)
  unfolding has_key
  has_key-append [] n k = refl
  has_key-append ((j, r) ∷ m) n k = ground (arith, has_key-append m n k)

  pub has_key-snoc :
      (m : Entries R) (j k : String) (r : R)
      → has_key (m ++ (j, r) ∷ []) k ≡ (has_key m k || str_eq j k)
  unfolding has_key
  has_key-snoc [] j k r = ground arith
  has_key-snoc ((i, q) ∷ m) j k r = ground (arith, has_key-snoc m j k r)

  pub distinct_keys-snoc :
      (m : Entries R) (k : String) (r : R)
      → distinct_keys m ≡ true
      → has_key m k ≡ false
      → distinct_keys (m ++ (k, r) ∷ []) ≡ true
  unfolding distinct_keys has_key
  distinct_keys-snoc [] k r d h = refl
  distinct_keys-snoc ((j, q) ∷ m) k r d h =
      ground (arith, has_key-snoc m k j r, distinct_keys-snoc m k r, eq_iff j k, eq_iff k j)

  pub length-values : (m : Entries R) → length (values m) ≡ length m
  unfolding values
  length-values [] = refl
  length-values ((k, r) ∷ m) = ground (arith, length-values m)
