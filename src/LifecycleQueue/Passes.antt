-- ===== src/LifecycleQueue/Passes.antt =====
-- One pass of `selectLifecycleRoundBatch` over the queues, and the step for one queue.
use myne.Js.{Value}
use myne.LifecycleQueue.Keyed.{Entries, has_key, distinct_keys, has_key-snoc, distinct_keys-snoc}
use myne.LifecycleQueue.{ℕ, List, Cursor, batch_key, take_new, is_empty, batch_pass, rows_left}
use myne.Base.{
  ltb→lt, ltb-false, refl, ltb, length-append, eq_iff, ◌⊎◌, ◌++◌, not, arith, true, ◌≡◌, ◌<◌, inr,
  ◌||◌, str_eq, inl, [], false, Bool-cases, ◌≤◌, ◌+◌, Bool, ◌∷◌, length, String, ℕ, List,
}

module _ {R : Type 0} (id_of : R → Value) where
  -- The keys of the rows that are left in a queue, and in all queues.
  unfoldable pub keys_from : ℕ → ℕ → List R → String → Bool
  keys_from index offset [] k = false
  keys_from index offset (row ∷ rows) k =
      str_eq (batch_key id_of index (offset + 1) row) k || keys_from index (offset + 1) rows k

  unfoldable pub cursor_keys : List (Cursor R) → String → Bool
  unfolding keys_from
  cursor_keys [] k = false
  cursor_keys (c ∷ cs) k = keys_from c.index c.offset c.left k || cursor_keys cs k

  -- What one queue's turn does to the selection.
  pub record Turn (selected : Entries R) (index offset : ℕ) (rows : List R)
      (after : Entries R × Cursor R) : Type 0 where
    pub grows : length selected ≤ length after.0
    pub by_one : length after.0 ≤ length selected + 1
    pub shrinks : length after.1.left ≤ length rows
    pub moves : 0 < length rows → length after.1.left < length rows
    pub idle : length rows ≡ 0 → length after.0 ≡ length selected
    pub distinct : distinct_keys selected ≡ true → distinct_keys after.0 ≡ true
    pub keeps : (k : String) → has_key selected k ≡ true → has_key after.0 k ≡ true
    pub covers :
        (k : String)
        → keys_from index offset rows k ≡ true
        → (has_key after.0 k || keys_from after.1.index after.1.offset after.1.left k) ≡ true

  Turn-none :
      (selected : Entries R) (index offset : ℕ)
      → Turn selected index offset []
          (selected, record { index = index; offset = offset; left = [] })
  unfolding keys_from
  Turn-none selected index offset = record {
    grows = omega arith;
    by_one = omega arith;
    shrinks = omega arith;
    moves = λ h. h;
    idle = λ h. refl;
    distinct = λ d. d;
    keeps = λ k h. h;
    covers = λ k h. cc;
  }

  Turn-again :
      (selected : Entries R) (index offset : ℕ) (row : R) (rows : List R)
      (after : Entries R × Cursor R)
      → has_key selected (batch_key id_of index (offset + 1) row) ≡ true
      → Turn selected index (offset + 1) rows after
      → Turn selected index offset (row ∷ rows) after
  unfolding keys_from
  Turn-again selected index offset row rows after old t = record {
    grows = t.grows;
    by_one = t.by_one;
    shrinks = omega (arith, t.shrinks);
    moves = λ h. omega (arith, t.shrinks);
    idle = λ h. absurd (omega arith);
    distinct = t.distinct;
    keeps = t.keeps;
    covers = λ k h.
        let key = batch_key id_of index (offset + 1) row in
        ground (arith, eq_iff key k, t.keeps k, t.covers k);
  }

  Turn-new :
      (selected : Entries R) (index offset : ℕ) (row : R) (rows : List R)
      → has_key selected (batch_key id_of index (offset + 1) row) ≡ false
      → Turn selected index offset (row ∷ rows) (
        selected ++ (batch_key id_of index (offset + 1) row, row) ∷ [],
        record { index = index; offset = offset + 1; left = rows },
      )
  unfolding keys_from
  Turn-new selected index offset row rows fresh =
      let key = batch_key id_of index (offset + 1) row in
      let longer = length-append selected ((key, row) ∷ []) in
      record {
        grows = omega (arith, longer);
        by_one = omega (arith, longer);
        shrinks = omega arith;
        moves = λ h. omega arith;
        idle = λ h. absurd (omega arith);
        distinct = λ d. distinct_keys-snoc selected key row d fresh;
        keeps = λ k h. rw (has_key-snoc selected key k row) (ground arith);
        covers = λ k h. rw (has_key-snoc selected key k row) (ground arith);
      }

  pub take_new-Turn :
      (selected : Entries R) (index offset : ℕ) (rows : List R)
      → Turn selected index offset rows (take_new id_of selected index offset rows)
  unfolding take_new
  take_new-Turn selected index offset [] = Turn-none selected index offset
  take_new-Turn selected index offset (row ∷ rows) =
      let key = batch_key id_of index (offset + 1) row in
      let ih = take_new-Turn selected index (offset + 1) rows in
      elim (Bool-cases (has_key selected key)) [
        | inl old ↦ rw old (Turn-again selected index offset row rows _ old ih)
        | inr fresh ↦ rw fresh (Turn-new selected index offset row rows fresh)
      ]

  -- What a pass does to the selection.
  pub record Pass (limit : ℕ) (selected : Entries R) (advanced : Bool) (cs : List (Cursor R))
      (after : Entries R × Bool × List (Cursor R)) : Type 0 where
    pub bounded : length selected ≤ limit → length after.0 ≤ limit
    pub shrinks : rows_left after.2 ≤ rows_left cs
    pub moves : advanced ≡ false → after.1 ≡ true → rows_left after.2 < rows_left cs
    pub stuck : after.1 ≡ false → length selected < limit → rows_left cs ≡ 0
    pub flag : advanced ≡ true → after.1 ≡ true
    pub distinct : distinct_keys selected ≡ true → distinct_keys after.0 ≡ true
    pub keeps : (k : String) → has_key selected k ≡ true → has_key after.0 k ≡ true
    pub covers :
        (k : String) → cursor_keys cs k ≡ true → (has_key after.0 k || cursor_keys after.2 k) ≡ true

  Pass-none :
      (limit : ℕ) (selected : Entries R) (advanced : Bool) (cs : List (Cursor R))
      → (rows_left cs ≡ 0) ⊎ (limit ≤ length selected)
      → Pass limit selected advanced cs (selected, advanced, cs)
  Pass-none limit selected advanced cs over = record {
    bounded = λ h. h;
    shrinks = omega arith;
    moves = λ p q. cc;
    stuck = λ p q. ground arith;
    flag = λ p. p;
    distinct = λ d. d;
    keeps = λ k h. h;
    covers = λ k h. ground arith;
  }

  is_empty_cases :
      (rows : List R)
      → ((is_empty rows ≡ true) × (length rows ≡ 0)) ⊎ ((is_empty rows ≡ false) × (0 < length rows))
  unfolding is_empty
  is_empty_cases [] = inl (refl, refl)
  is_empty_cases (row ∷ rows) = inr (refl, omega arith)

  Pass-more :
      (limit : ℕ) (selected : Entries R) (advanced : Bool) (c : Cursor R) (cs : List (Cursor R))
      (after : Entries R × Cursor R) (rest : Entries R × Bool × List (Cursor R))
      → length selected < limit
      → Turn selected c.index c.offset c.left after
      → Pass limit after.0 (advanced || not (is_empty c.left)) cs rest
      → Pass limit selected advanced (c ∷ cs) (rest.0, rest.1, after.1 ∷ rest.2)
  unfolding rows_left cursor_keys
  Pass-more limit selected advanced c cs after rest room t ih =
      let cases = is_empty_cases c.left in
      record {
        bounded = λ h. ih.bounded (omega (arith, t.by_one));
        shrinks = omega (arith, t.shrinks, ih.shrinks);
        moves = λ p q. ground (arith, cases, t.moves, t.shrinks, ih.shrinks, ih.moves);
        stuck = λ p q. ground (arith, cases, t.idle, ih.flag, ih.stuck);
        flag = λ p. ground (arith, ih.flag);
        distinct = λ d. ih.distinct (t.distinct d);
        keeps = λ k h. ih.keeps k (t.keeps k h);
        covers = λ k h. ground (arith, t.covers k, ih.keeps k, ih.covers k);
      }

  pub batch_pass-Pass :
      (limit : ℕ) (selected : Entries R) (advanced : Bool) (cs : List (Cursor R))
      → Pass limit selected advanced cs (batch_pass id_of limit selected advanced cs)
  unfolding batch_pass
  batch_pass-Pass limit selected advanced [] =
      Pass-none limit selected advanced [] (inl (unfold rows_left in refl))
  batch_pass-Pass limit selected advanced (c ∷ cs) =
      let turn = take_new-Turn selected c.index c.offset c.left in
      let after = take_new id_of selected c.index c.offset c.left in
      let ih = batch_pass-Pass limit after.0 (advanced || not (is_empty c.left)) cs in
      elim (Bool-cases (ltb (length selected) limit)) [
        | inl room ↦
            rw room (Pass-more limit selected advanced c cs after _ (ltb→lt _ _ room) turn ih)
        | inr full ↦ rw full (Pass-none limit selected advanced (c ∷ cs) (inr (ltb-false _ _ full)))
      ]
