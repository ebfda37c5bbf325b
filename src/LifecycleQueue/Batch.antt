-- ===== src/LifecycleQueue/Batch.antt =====
-- `selectLifecycleRoundBatch`: the loop ends, and its selection is bounded, complete and fair.
use myne.Js.{number, Value}
use myne.LifecycleQueue.Keyed.{length-values, has_key-snoc, Entries, has_key, distinct_keys}
use myne.LifecycleQueue.{
  values, pos, or_throw, batch_limit, select_lifecycle_round_batch, select_entries, is_empty,
  batch_key, take_new, start_cursors, ℕ, List, Cursor, batch_pass, batch_loop, rows_left,
}
use myne.LifecycleQueue.Held.{InQueues, batch_loop-All}
use myne.LifecycleQueue.Passes.{take_new-Turn, keys_from, cursor_keys, Pass, batch_pass-Pass}
use myne.Base.{
  All, ok, subst, lt→ltb, not, eq_iff, refl, ap, ◌||◌, ◌+◌, zero, str_eq, [], ltb→lt, inl,
  ltb-false, inr, ltb, arith, ◌⊎◌, ◌∷◌, Bool-cases, Bool, suc, some, true, false, ◌≤◌, ◌≡◌, ◌<◌,
  length, String, ℕ, List,
}
use myne.Base.Int.{pos}

module _ {R : Type 0} (id_of : R → Value) where
  -- What a selection that starts from `selected` promises.
  pub record Selection (limit : ℕ) (selected : Entries R) (cs : List (Cursor R)) (r : Entries R)
      : Type 0 where
    pub bounded : length r ≤ limit
    pub distinct : distinct_keys r ≡ true
    pub keeps : (k : String) → has_key selected k ≡ true → has_key r k ≡ true
    pub complete :
        length r < limit → (k : String) → cursor_keys id_of cs k ≡ true → has_key r k ≡ true

  keys_from_none :
      (index offset : ℕ) (rows : List R) (k : String)
      → length rows ≡ 0
      → keys_from id_of index offset rows k ≡ false
  unfolding keys_from
  keys_from_none index offset [] k h = refl
  keys_from_none index offset (row ∷ rows) k h = absurd (omega arith)

  cursor_keys_none :
      (cs : List (Cursor R)) (k : String) → rows_left cs ≡ 0 → cursor_keys id_of cs k ≡ false
  unfolding cursor_keys rows_left
  cursor_keys_none [] k h = refl
  cursor_keys_none (c ∷ cs) k h =
      ground (arith, cursor_keys_none cs k, keys_from_none c.index c.offset c.left k)

  stopped :
      (limit : ℕ) (selected : Entries R) (cs : List (Cursor R))
      → length selected ≤ limit
      → distinct_keys selected ≡ true
      → (rows_left cs ≡ 0) ⊎ (limit ≤ length selected)
      → Selection limit selected cs selected
  stopped limit selected cs b d over = record {
    bounded = b;
    distinct = d;
    keeps = λ k h. h;
    complete = λ room k h. ground (arith, cursor_keys_none cs k);
  }

  continued :
      (limit : ℕ) (selected : Entries R) (cs : List (Cursor R))
      (after : Entries R × Bool × List (Cursor R)) (r : Entries R)
      → Pass id_of limit selected false cs after
      → Selection limit after.0 after.2 r
      → Selection limit selected cs r
  continued limit selected cs after r p s = record {
    bounded = s.bounded;
    distinct = s.distinct;
    keeps = λ k h. s.keeps k (p.keeps k h);
    complete = λ room k h. ground (arith, p.covers k, s.keeps k, s.complete room k);
  }

  pub batch_loop-Selection :
      (fuel limit : ℕ) (selected : Entries R) (cs : List (Cursor R))
      → rows_left cs < fuel
      → length selected ≤ limit
      → distinct_keys selected ≡ true
      → (r : Entries R) × (batch_loop id_of fuel limit selected cs ≡ some r)
        × Selection limit selected cs r
  unfolding batch_loop
  batch_loop-Selection zero limit selected cs f b d = elim f [ ]
  batch_loop-Selection (suc fuel) limit selected cs f b d =
      let after = batch_pass id_of limit selected false cs in
      let p = batch_pass-Pass id_of limit selected false cs in
      elim (Bool-cases (ltb (length selected) limit)) [
        | inr full ↦ (selected, rw full, stopped limit selected cs b d (inr (ltb-false _ _ full)))
        | inl room ↦ elim (Bool-cases after.1) [
          | inr idle ↦
              let none_left = p.stuck idle (ltb→lt _ _ room) in
              (
                after.0,
                rw (room, idle),
                continued limit selected cs after after.0 p (
                    stopped limit after.0 after.2 (p.bounded b) (p.distinct d)
                      (inl (omega (arith, p.shrinks)))),
              )
          | inl advanced ↦
              let (r, e, s) =
                batch_loop-Selection fuel limit after.0 after.2
                  (omega (arith, p.moves refl advanced)) (p.bounded b) (p.distinct d) in
              (r, rw (room, advanced) e, continued limit selected cs after r p s)
        ]
      ]

  loop_keeps :
      (fuel limit : ℕ) (selected : Entries R) (cs : List (Cursor R)) (r : Entries R) (k : String)
      → has_key selected k ≡ true
      → batch_loop id_of fuel limit selected cs ≡ some r
      → has_key r k ≡ true
  unfolding batch_loop
  loop_keeps zero limit selected cs r k h e = cc
  loop_keeps (suc fuel) limit selected cs r k h e =
      let after = batch_pass id_of limit selected false cs in
      let p = batch_pass-Pass id_of limit selected false cs in
      ground (arith, p.keeps k, loop_keeps fuel limit after.0 after.2 r k)

  -- The key of a queue's first row.
  unfoldable pub first_key : ℕ → ℕ → List R → String → Bool
  first_key index offset [] k = false
  first_key index offset (row ∷ rows) k = str_eq (batch_key id_of index (offset + 1) row) k

  unfoldable pub head_keys : List (Cursor R) → String → Bool
  unfolding first_key
  head_keys [] k = false
  head_keys (c ∷ cs) k = first_key c.index c.offset c.left k || head_keys cs k

  take_new-first :
      (selected : Entries R) (index offset : ℕ) (rows : List R) (k : String)
      → first_key index offset rows k ≡ true
      → has_key (take_new id_of selected index offset rows).0 k ≡ true
  unfolding take_new first_key
  take_new-first selected index offset [] k h = cc
  take_new-first selected index offset (row ∷ rows) k h =
      let key = batch_key id_of index (offset + 1) row in
      let later = take_new-Turn id_of selected index (offset + 1) rows in
      ground (arith, eq_iff key k, later.keeps key, has_key-snoc selected key k row)

  -- A pass with room for every queue reads each queue's first row.
  batch_pass-head :
      (limit : ℕ) (selected : Entries R) (advanced : Bool) (cs : List (Cursor R)) (k : String)
      → length selected + length cs ≤ limit
      → head_keys cs k ≡ true
      → has_key (batch_pass id_of limit selected advanced cs).0 k ≡ true
  unfolding batch_pass head_keys
  batch_pass-head limit selected advanced [] k room h = cc
  batch_pass-head limit selected advanced (c ∷ cs) k room h =
      let turn = take_new-Turn id_of selected c.index c.offset c.left in
      let after = take_new id_of selected c.index c.offset c.left in
      let flag = advanced || not (is_empty c.left) in
      let rest = batch_pass-Pass id_of limit after.0 flag cs in
      rw (lt→ltb (length selected) limit (omega arith)) (
        ground (
          arith,
          turn.by_one,
          take_new-first selected c.index c.offset c.left k,
          rest.keeps k,
          batch_pass-head limit after.0 flag cs k,
        ))

  loop_fair :
      (fuel limit : ℕ) (cs : List (Cursor R)) (r : Entries R)
      → 0 < limit
      → length cs ≤ limit
      → batch_loop id_of (suc fuel) limit [] cs ≡ some r
      → (k : String) → head_keys cs k ≡ true
      → has_key r k ≡ true
  unfolding batch_loop
  loop_fair fuel limit cs r positive few e k h =
      let after = batch_pass id_of limit [] false cs in
      let first = batch_pass-head limit [] false cs k (omega arith) h in
      elim (Bool-cases after.1) [
        | inl advanced ↦
            loop_keeps fuel limit after.0 after.2 r k first
              (rw (lt→ltb 0 limit positive, advanced) at e)
        | inr idle ↦ ground arith
      ]

  length-start_cursors :
      (i : ℕ) (queues : List (List R)) → length (start_cursors i queues) ≡ length queues
  unfolding start_cursors
  length-start_cursors i [] = refl
  length-start_cursors i (queue ∷ queues) = ap suc (length-start_cursors (i + 1) queues)

  -- Every positive limit and all queues give a selection of at most `limit` rows. They are rows of
  -- the queues, each read under the key of its place, and no key is read twice; if the selection has
  -- room left, it holds the key of every row of every queue.
  pub select_lifecycle_round_batch-Selection :
      (n : ℕ) (queues : List (List R))
      → (r : Entries R) × (select_entries id_of (suc n) queues ≡ some r)
        × (select_lifecycle_round_batch id_of (number (pos (suc n))) queues ≡ ok (values r))
        × All (λ (e : String × R). InQueues id_of (start_cursors 0 queues) e.0 e.1) r
        × (length (values r) ≤ suc n)
        × (distinct_keys r ≡ true)
        × (length (values r) < suc n
            → (k : String) → cursor_keys id_of (start_cursors 0 queues) k ≡ true
            → has_key r k ≡ true)
  unfolding select_lifecycle_round_batch batch_limit select_entries or_throw
  select_lifecycle_round_batch-Selection n queues =
      let cs = start_cursors 0 queues in
      let (r, e, s) =
        batch_loop-Selection (rows_left cs + 1) (suc n) [] cs (omega arith) (omega arith)
          (unfold distinct_keys in refl) in
      (
        r,
        e,
        rw e,
        batch_loop-All id_of (InQueues id_of cs) (rows_left cs + 1) (suc n) [] cs r tt
            (λ k row h. h) e,
        omega (arith, length-values r, s.bounded),
        s.distinct,
        λ room. s.complete (omega (arith, length-values r)),
      )

  -- With at most as many queues as the limit, the first row of each queue has its key in the
  -- selection.
  pub select_entries-fair :
      (limit : ℕ) (queues : List (List R)) (r : Entries R)
      → 0 < limit
      → length queues ≤ limit
      → select_entries id_of limit queues ≡ some r
      → (k : String) → head_keys (start_cursors 0 queues) k ≡ true
      → has_key r k ≡ true
  unfolding select_entries
  select_entries-fair limit queues r positive few e k h =
      let cs = start_cursors 0 queues in
      loop_fair (rows_left cs) limit cs r positive (omega (arith, length-start_cursors 0 queues))
        (subst (λ f. batch_loop id_of f limit [] cs ≡ some r) (omega arith) e) k h
