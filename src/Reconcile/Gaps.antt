-- ===== src/Reconcile/Gaps.antt =====
-- `historicalRoundGapBatch` of round-reconciliation-policy.mjs: the next old rounds to look at.
use myne.Js.{Value, as_bigint, non_negative}
use myne.Reconcile.Digest.{bounded_count}
use myne.Base.{
  refl, ltb-false, ltb→lt, inr, inl, Bool-cases, ◌||◌, ◌==◌, zero, true, ok, ltb, leb, arith, ◌≡◌,
  ◌∷◌, suc, if◌then◌else◌, assertion, ◌>>=◌, ◌<◌, ◌-◌, some, none, false, [], ◌≤◌, ◌+◌, Result,
  Option, List, Bool, ℕ,
}
use myne.Base.Int.{negsuc, pos, ℤ}

-- The loop's ids: at most the count, from the start to the last.
unfoldable pub ids_from : ℕ → ℕ → ℕ → List ℕ
ids_from zero start high = []
ids_from (suc n) start high =
    let rest = ids_from n (start + 1) high in if leb start high then start ∷ rest else []

unfoldable pub last_of : List ℕ → Option ℕ
last_of [] = none
last_of (i ∷ []) = some i
last_of (i ∷ j ∷ is) = last_of (j ∷ is)

unfoldable pub next_after : ℕ → Option ℕ → ℕ
next_after high none = 0
next_after high (some last) = if ltb last high then last + 1 else 0

unfoldable pub start_at : ℕ → ℤ → ℕ
start_at high (pos n) = if leb n high then n else 0
start_at high (negsuc n) = 0

-- The ids of a batch from the cursor, and the cursor of the next batch.
unfoldable pub gap_batch : ℕ → ℕ → ℤ → List ℕ × ℕ
gap_batch batch_size high cursor =
    let start = start_at high cursor in
    let ids = ids_from batch_size start high in (ids, next_after high (last_of ids))

unfoldable pub historical_round_gap_batch : Value → Value → Value → Value → Result (List ℕ × ℕ)
historical_round_gap_batch current_round_id recent_depth next_round_id batch_size = do
  current_value ← as_bigint current_round_id
  cursor ← as_bigint next_round_id
  current ← non_negative assertion current_value
  depth ← bounded_count 64 recent_depth
  size ← bounded_count 32 batch_size
  let batch = gap_batch size (current - depth) cursor
  ok (if ltb current depth then ([], 0) else batch)

-- `recentScheduledRoundIds`: the current round and those before it.
unfoldable pub ids_before : ℕ → ℕ → List ℕ
ids_before zero current = []
ids_before (suc n) zero = 0 ∷ []
ids_before (suc n) (suc current) = suc current ∷ ids_before n current

unfoldable pub recent_scheduled_round_ids : Value → Value → Result (List ℕ)
recent_scheduled_round_ids current_round_id depth = do
  value ← as_bigint current_round_id
  current ← non_negative assertion value
  count ← bounded_count 64 depth
  ok (ids_before count current)

-- The id is in the list.
unfoldable pub lists : List ℕ → ℕ → Bool
lists [] id = false
lists (i ∷ is) id = (i == id) || lists is id

-- The ids that a number of batches visits, each from the cursor that the one before it returned.
unfoldable pub visited : ℕ → ℕ → ℕ → ℕ → ℕ → Bool
visited zero batch_size high cursor id = false
visited (suc n) batch_size high cursor id =
    let batch = gap_batch batch_size high (pos cursor) in
    lists batch.0 id || visited n batch_size high batch.1 id

ids_from-lists :
    (n start high id : ℕ)
    → start ≤ id
    → id < start + n
    → id ≤ high
    → lists (ids_from n start high) id ≡ true
unfolding ids_from lists
ids_from-lists zero start high id a b c = absurd (omega arith)
ids_from-lists (suc n) start high id a b c = elim (Bool-cases (start == id)) [
  | inl yes_ ↦ ground arith
  | inr no_ ↦
      let ne : start < id = ground (arith) in
      ground (arith, ids_from-lists n (start + 1) high id (omega arith) (omega arith) c)
]

ids_from-last :
    (n start high : ℕ) → start + n < high → last_of (ids_from (suc n) start high) ≡ some (start + n)
unfolding ids_from last_of
ids_from-last zero start high h = ground arith
ids_from-last (suc n) start high h =
    let next = ids_from-last n (start + 1) high (omega arith) in ground (arith, next)

gap_batch-ids :
    (n cursor high : ℕ) → cursor ≤ high → (gap_batch n high (pos cursor)).0 ≡ ids_from n cursor high
unfolding gap_batch start_at
gap_batch-ids n cursor high h = ground arith

gap_batch-next :
    (n cursor high : ℕ)
    → cursor + n < high
    → (gap_batch (suc n) high (pos cursor)).1 ≡ cursor + n + 1
unfolding gap_batch next_after start_at
gap_batch-next n cursor high h =
    let from : leb cursor high ≡ true = ground arith in
    rw from (rw (ids_from-last n cursor high h) (ground arith))

visited-covers :
    (passes n high cursor id : ℕ)
    → cursor ≤ id
    → id ≤ high
    → id - cursor < passes
    → visited passes (suc n) high cursor id ≡ true
unfolding visited
visited-covers zero n high cursor id a b c = absurd (omega arith)
visited-covers (suc passes) n high cursor id a b c = elim (Bool-cases (ltb id (cursor + suc n))) [
  | inl inside ↦
      let here : lists (ids_from (suc n) cursor high) id ≡ true =
        ids_from-lists (suc n) cursor high id a (ltb→lt _ _ inside) b in
      let ids = gap_batch-ids (suc n) cursor high (omega arith) in rw ids (rw here refl)
  | inr beyond ↦
      let past : cursor + suc n ≤ id = ltb-false _ _ beyond in
      rw (gap_batch-next n cursor high (omega arith)) (
        rw (visited-covers passes n high (cursor + n + 1) id (omega arith) b (omega arith))
          (ground arith))
]

-- Batches of a positive size that start at round 0, each where the one before it stopped, visit
-- every round up to the last within as many batches as there are rounds.
pub gap_batch-visits_all : (n high id : ℕ) → id ≤ high → visited (high + 1) (suc n) high 0 id ≡ true
gap_batch-visits_all n high id h =
    visited-covers (high + 1) n high 0 id (omega arith) h (omega arith)
