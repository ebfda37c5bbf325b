-- ===== src/LifecycleQueue/Merge.antt =====
-- `mergeLifecycleRoundQueues` keeps the first row of each key, in order.
use mathlib.Core.List.{flatten, append-nil, append_assoc}
use myne.Base.{
  ℕ, ◌+◌, ◌≡◌, refl, sym, ◌∙◌, ap, arith, String, eq_iff, List, [], ◌∷◌, ◌++◌, true, false,
  Bool-cases, inl, inr, if◌then◌else◌,
}
use myne.Js.{Value, is_nullish, to_string, number}
use myne.Base.Int.{pos}
use Prim.Native.String.{◌++◌ as append}
use myne.LifecycleQueue.Keyed.{
  Entries, has_key, put_new, values, distinct_keys, has_key-snoc, distinct_keys-snoc,
}
use myne.LifecycleQueue.{merge_step, merge_queue, merge_queues, merge_lifecycle_round_queues}

-- The entries without those whose key the map holds.
module _ {R : Type 0} where
  -- The entries of the second list whose key the first does not hold.
  without : Entries R → Entries R → Entries R
  without m [] = []
  without m ((k, r) ∷ n) = if has_key m k then without m n else (k, r) ∷ without m n

  -- The first entry of each key, in order.
  pub keep_first : Entries R → Entries R
  unfolding without
  keep_first [] = []
  keep_first ((k, r) ∷ m) = (k, r) ∷ without ((k, r) ∷ []) (keep_first m)

  put_all : Entries R → Entries R → Entries R
  put_all m [] = m
  put_all m ((k, r) ∷ n) = put_all (put_new m k r) n

  has_key-without :
      (m n : Entries R) (k : String)
      → has_key (without m n) k ≡ (if has_key m k then false else has_key n k)
  unfolding without has_key
  has_key-without m [] k = ground arith
  has_key-without m ((j, r) ∷ n) k = ground (arith, has_key-without m n k, eq_iff j k)

  without_held :
      (m n : Entries R) (k : String) (r : R)
      → has_key m k ≡ true
      → without m (without ((k, r) ∷ []) n) ≡ without m n
  unfolding without has_key
  without_held m [] k r h = refl
  without_held m ((j, q) ∷ n) k r h = ground (arith, without_held m n k r h, eq_iff k j)

  without_snoc :
      (m n : Entries R) (k : String) (r : R)
      → without (m ++ (k, r) ∷ []) n ≡ without m (without ((k, r) ∷ []) n)
  unfolding without has_key
  without_snoc m [] k r = refl
  without_snoc m ((j, q) ∷ n) k r =
      ground (arith, without_snoc m n k r, has_key-snoc m k j r, eq_iff k j)

  without_nil : (n : Entries R) → without [] n ≡ n
  unfolding without has_key
  without_nil [] = refl
  without_nil ((k, r) ∷ n) = ground (arith, without_nil n)

  put_all-keep_first : (m n : Entries R) → put_all m n ≡ m ++ without m (keep_first n)
  unfolding put_all keep_first put_new without
  put_all-keep_first m [] = sym (append-nil m)
  put_all-keep_first m ((k, r) ∷ n) = elim (Bool-cases (has_key m k)) [
    | inl held ↦
        rw held
          (put_all-keep_first m n ∙ sym (ap (◌++◌ m) (without_held m (keep_first n) k r held)))
    | inr fresh ↦ rw fresh (
        put_all-keep_first (m ++ (k, r) ∷ []) n
        ∙ (rw (without_snoc m (keep_first n) k r) (append_assoc m ((k, r) ∷ []) _)))
  ]

  has_key-keep_first : (m : Entries R) (k : String) → has_key (keep_first m) k ≡ has_key m k
  unfolding keep_first has_key
  has_key-keep_first [] k = refl
  has_key-keep_first ((j, r) ∷ m) k =
      ground (arith, has_key-without ((j, r) ∷ []) (keep_first m) k, has_key-keep_first m k)

  put_all-distinct : (m n : Entries R) → distinct_keys m ≡ true → distinct_keys (put_all m n) ≡ true
  unfolding put_all put_new
  put_all-distinct m [] d = d
  put_all-distinct m ((k, r) ∷ n) d =
      put_all-distinct (put_new m k r) n (ground (arith, distinct_keys-snoc m k r))

module _ {R : Type 0} (id_of : R → Value) where
  -- The key of each row: its id, or its number among the malformed rows.
  pub keyed : ℕ → List R → Entries R
  keyed n [] = []
  keyed n (row ∷ rows) =
      if is_nullish (id_of row)
      then (append "invalid:" (to_string (number (pos (n + 1)))), row) ∷ keyed (n + 1) rows
      else (to_string (id_of row), row) ∷ keyed n rows

  put_keyed : ℕ × Entries R → List R → Entries R
  put_keyed (n, m) rows = put_all m (keyed n rows)

  keyed_step :
      (n : ℕ) (m : Entries R) (row : R) (rows : List R)
      → put_keyed (n, m) (row ∷ rows) ≡ put_keyed (merge_step id_of (n, m) row) rows
  unfolding put_keyed put_all keyed merge_step
  keyed_step n m row rows = ground arith

  merge_queue-append :
      (s : ℕ × Entries R) (rows rest : List R)
      → put_keyed (merge_queue id_of s rows) rest ≡ put_keyed s (rows ++ rest)
  unfolding merge_queue
  merge_queue-append s [] rest = refl
  merge_queue-append (n, m) (row ∷ rows) rest =
      merge_queue-append (merge_step id_of (n, m) row) rows rest
      ∙ sym (keyed_step n m row (rows ++ rest))

  merge_queues-flatten :
      (s : ℕ × Entries R) (queues : List (List R))
      → (merge_queues id_of s queues).1 ≡ put_keyed s (flatten queues)
  unfolding merge_queues flatten
  merge_queues-flatten (n, m) [] = unfold put_keyed put_all keyed in refl
  merge_queues-flatten s (queue ∷ queues) =
      merge_queues-flatten (merge_queue id_of s queue) queues
      ∙ merge_queue-append s queue (flatten queues)

  -- For all queues, the merged queue holds the rows of the queues one behind the other, each key
  -- at its first row only.
  pub merge_lifecycle_round_queues-keep_first :
      (queues : List (List R))
      → merge_lifecycle_round_queues id_of queues ≡ values (keep_first (keyed 0 (flatten queues)))
  unfolding merge_lifecycle_round_queues put_keyed
  merge_lifecycle_round_queues-keep_first queues = ap values (
      merge_queues-flatten (0, []) queues
      ∙ put_all-keep_first [] (keyed 0 (flatten queues))
      ∙ without_nil (keep_first (keyed 0 (flatten queues))))

  -- For all queues, no key occurs twice in the merged map, and a key is in it exactly when one of
  -- the queues has a row of that key.
  pub merge_queues-keys :
      (queues : List (List R))
      → (distinct_keys (merge_queues id_of (0, []) queues).1 ≡ true)
        × ((k : String)
            → has_key (merge_queues id_of (0, []) queues).1 k
              ≡ has_key (keyed 0 (flatten queues)) k)
  unfolding put_keyed
  merge_queues-keys queues =
      let all = keyed 0 (flatten queues) in
      rw (merge_queues-flatten (0, []) queues) (
        put_all-distinct [] all (unfold distinct_keys in refl),
        λ k.
            rw (put_all-keep_first [] all, without_nil (keep_first all)) (has_key-keep_first all k),
      )
