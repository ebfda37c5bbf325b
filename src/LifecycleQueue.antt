-- ===== src/LifecycleQueue.antt =====
-- Protocol/scripts/lifecycle-queue-policy.mjs: the order in which a lifecycle keeper visits rounds.
-- A row is opaque but for its `round_id` (`undefined` when the row itself is null). A `Map` is the
-- list of its entries in insertion order.
pub mod Keyed
pub mod Merge
pub mod Held
pub mod Batch
pub mod Oldest
pub mod Passes
use Prim.Native.String.{◌++◌ as append}
use mathlib.Core.List.{flatten}
use myne.Base.{
  ℕ, zero, suc, ◌+◌, ◌<◌, String, List, [], ◌∷◌, ◌++◌, map, Option, none, some, Bool, true, false,
  ◌||◌, not, Result, ok, err, range_error, plain_error, ◌>>=◌, ◌>>◌, guard, ltb, if◌then◌else◌,
  length,
}
use myne.Base.Int.{ℤ, pos, negsuc, pos_part, ltb_ℤ}
use myne.Js.{Value, number, is_nullish, to_string, bigint_of}
use Keyed.{Entries, has_key, put_new, values}

-- `BigInt(String(value))`, not negative.
unfoldable pub round_id : Value → Result ℤ
round_id v = do parsed ← bigint_of v; guard (not (ltb_ℤ parsed (pos 0))) range_error; ok parsed

-- Positive integers below 10^21 pass.
unfoldable pub batch_limit : Value → Result ℕ
batch_limit (number (pos (suc n))) = ok (suc n)
batch_limit _ = err range_error

-- A queue's index, how many of its rows were read, and the rows left.
pub record Cursor (R : Type 0) : Type 0 where
  pub index : ℕ
  pub offset : ℕ
  pub left : List R

module _ {R : Type 0} where
  unfoldable pub start_cursors : ℕ → List (List R) → List (Cursor R)
  start_cursors i [] = []
  start_cursors i (queue ∷ queues) =
      record { index = i; offset = 0; left = queue } ∷ start_cursors (i + 1) queues

  unfoldable pub is_empty : List R → Bool
  is_empty [] = true
  is_empty (row ∷ rows) = false

  unfoldable pub rows_left : List (Cursor R) → ℕ
  rows_left [] = 0
  rows_left (c ∷ cs) = length c.left + rows_left cs

  unfoldable pub or_throw : Option (Entries R) → Result (List R)
  or_throw none = err plain_error
  or_throw (some selected) = ok (values selected)

module _ {R : Type 0} (id_of : R → Value) where
  -- `reduce` over the rows after the first id is read.
  unfoldable pub oldest_from : ℤ → List R → Result ℤ
  oldest_from oldest [] = ok oldest
  oldest_from oldest (row ∷ rows) = round_id (id_of row) >>= λ current.
      oldest_from (if ltb_ℤ current oldest then current else oldest) rows

  unfoldable pub next_historical_lifecycle_cursor : List R → Result (Option ℤ)
  next_historical_lifecycle_cursor [] = ok none
  next_historical_lifecycle_cursor (row ∷ rows) = do
    first ← round_id (id_of row)
    oldest ← oldest_from first (row ∷ rows)
    ok (some oldest)

  -- A malformed row takes the next number for its key.
  unfoldable pub merge_step : ℕ × Entries R → R → ℕ × Entries R
  merge_step (invalid, by_round) row =
      if is_nullish (id_of row)
      then (
        invalid + 1,
        put_new by_round (append "invalid:" (to_string (number (pos (invalid + 1))))) row,
      )
      else (invalid, put_new by_round (to_string (id_of row)) row)

  unfoldable pub merge_queue : ℕ × Entries R → List R → ℕ × Entries R
  merge_queue s [] = s
  merge_queue s (row ∷ rows) = merge_queue (merge_step s row) rows

  unfoldable pub merge_queues : ℕ × Entries R → List (List R) → ℕ × Entries R
  merge_queues s [] = s
  merge_queues s (queue ∷ queues) = merge_queues (merge_queue s queue) queues

  unfoldable pub merge_lifecycle_round_queues : List (List R) → List R
  merge_lifecycle_round_queues queues = values (merge_queues (0, []) queues).1

  -- The key of the row that is read as the queue's `offset`-th.
  unfoldable pub batch_key : ℕ → ℕ → R → String
  batch_key index offset row =
      if is_nullish (id_of row)
      then append "invalid:"
          (append (to_string (number (pos index))) (append ":" (to_string (number (pos offset)))))
      else to_string (id_of row)

  -- The inner `while`: reads rows until one is new.
  unfoldable pub take_new : Entries R → ℕ → ℕ → List R → Entries R × Cursor R
  take_new selected index offset [] =
      (selected, record { index = index; offset = offset; left = [] })
  take_new selected index offset (row ∷ rows) =
      let key = batch_key index (offset + 1) row in
      let again = take_new selected index (offset + 1) rows in
      if has_key selected key
      then again
      else (selected ++ (key, row) ∷ [], record { index = index; offset = offset + 1; left = rows })

  -- One round over the queues; the flag is `advanced`.
  unfoldable pub batch_pass :
      ℕ → Entries R → Bool → List (Cursor R) → Entries R × Bool × List (Cursor R)
  batch_pass limit selected advanced [] = (selected, advanced, [])
  batch_pass limit selected advanced (c ∷ cs) =
      let (selected', c') = take_new selected c.index c.offset c.left in
      let (final, flag, cs') = batch_pass limit selected' (advanced || not (is_empty c.left)) cs in
      if ltb (length selected) limit then (final, flag, c' ∷ cs') else (selected, advanced, c ∷ cs)

  -- The outer `while`, with fuel; `none` means that the fuel ran out.
  unfoldable pub batch_loop : ℕ → ℕ → Entries R → List (Cursor R) → Option (Entries R)
  batch_loop zero limit selected cs = none
  batch_loop (suc fuel) limit selected cs =
      let (selected', advanced, cs') = batch_pass limit selected false cs in
      let rest = batch_loop fuel limit selected' cs' in
      if ltb (length selected) limit
      then if advanced then rest else some selected'
      else some selected

  unfoldable pub select_entries : ℕ → List (List R) → Option (Entries R)
  select_entries limit queues =
      let cs = start_cursors 0 queues in batch_loop (rows_left cs + 1) limit [] cs

  unfoldable pub select_lifecycle_round_batch : Value → List (List R) → Result (List R)
  select_lifecycle_round_batch limit queues = do
    n ← batch_limit limit
    or_throw (select_entries n queues)

-- What the queue reports for a row: the processor's result, or the error with the row's id.
pub data Outcome {ℓ} (A : Type ℓ) : Type ℓ where
  done : A → Outcome A
  failed : String → Outcome A

abbrev outcome_of {ℓ} : {A : Type ℓ} → Value → Result A → Outcome A
outcome_of id (ok a) = done a
outcome_of id (err e) = failed (if is_nullish id then "unknown" else to_string id)

-- Rows are processed one after the other: the processor's state goes from each row to the next.
unfoldable pub process_lifecycle_round_queue :
    {R S A : Type 0} → (R → Value) → (S → R → S × Result A) → S → List R → S × List (Outcome A)
process_lifecycle_round_queue id_of processor s [] = (s, [])
process_lifecycle_round_queue id_of processor s (row ∷ rows) =
    let (s', result) = processor s row in
    let (final, results) = process_lifecycle_round_queue id_of processor s' rows in
    (final, outcome_of (id_of row) result ∷ results)
