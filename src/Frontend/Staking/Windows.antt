-- ===== src/Frontend/Staking/Windows.antt =====
-- What a complete reward window stands for.
use mathlib.Core.Option.{some-injective}
use myne.Base.{
  ◌&&◌, subst, ℕ, ◌+◌, ◌≡◌, inl, inr, Bool, true, Option, none, some, List, [], ◌∷◌, refl, length,
  arith, Option-cases, Bool-cases,
}
use myne.Base.Int.{eq_of_parts, ◌<ℤ◌, ℤ, ◌+ℤ◌, ◌-ℤ◌, ◌≤ℤ◌}
use myne.Frontend.Staking.{
  Row, Reading, Totals, Summary, WindowOptions, read_row, follows, accept_row, sum_rows, no_totals,
  summary_of, covered, last_at, same_time, before_time, summarise_staking_reward_window,
  options_valid, incomplete_window,
}

-- A row that comes after another: the next id, settled later by at most `gap` seconds.
pub IsNext : ℤ → Option Reading → Reading → Type 0
IsNext gap none r = Unit
IsNext gap (some p) r = (r.id ≡ p.id + 1) × (p.at <ℤ r.at) × (r.at -ℤ p.at ≤ℤ gap)

follows-IsNext :
    (gap : ℤ) (p : Option Reading) (r : Reading) → follows gap p r ≡ true → IsNext gap p r
unfolding follows IsNext
follows-IsNext gap none r e = tt
follows-IsNext gap (some p) r e = ground arith

-- Each row is resolved and readable, has the id after the id of the row before, and settles after
-- it by at most `gap` seconds. The rewards add up to the last number.
pub data Run (gap : ℤ) : Option Reading → List Row → ℕ → Option Reading → Type 0 where
  nothing_more : {p : Option Reading} → Run gap p [] 0 p
  then_row :
      {p last : Option Reading} {row : Row} {rows : List Row} {rewards : ℕ} (r : Reading)
      → read_row row ≡ some r
      → IsNext gap p r
      → Run gap (some r) rows rewards last
      → Run gap p (row ∷ rows) (r.reward + rewards) last

-- What the loop's result says of the rows.
record Summed (o : WindowOptions) (t fin : Totals) (rows : List Row) : Type 0 where
  rewards : ℕ
  run : Run o.max_settlement_gap_seconds t.previous rows rewards fin.previous
  added : fin.reward ≡ t.reward + rewards

accept_row-next :
    (o : WindowOptions) (t next : Totals) (r : Reading)
    → accept_row o t r ≡ some next
    → (follows o.max_settlement_gap_seconds t.previous r ≡ true)
      × (next.previous ≡ some r)
      × (next.reward ≡ t.reward + r.reward)
unfolding accept_row
accept_row-next o t next r e = ground arith

sum_rows-Summed :
    (o : WindowOptions) (t fin : Totals) (rows : List Row)
    → sum_rows o t rows ≡ some fin
    → Summed o t fin rows
unfolding sum_rows
sum_rows-Summed o t fin [] e =
    subst (λ x. Summed o t x []) (some-injective _ _ e)
      (record { rewards = 0; run = nothing_more; added = omega arith })
sum_rows-Summed o t fin (row ∷ rows) e = elim (Option-cases (read_row row)) [
  | inl unread ↦ absurd (ground arith)
  | inr (r, reading) ↦ elim (Option-cases (accept_row o t r)) [
    | inl refused ↦ absurd (ground arith)
    | inr (next, accepted) ↦
        let ih = sum_rows-Summed o next fin rows (rw accepted at (rw (reading, sum_rows) at e)) in
        let (in_order, previous, total) = accept_row-next o t next r accepted in
        record {
          rewards = r.reward + ih.rewards;
          run = then_row r reading (follows-IsNext _ _ r in_order) (
              subst (λ p. Run o.max_settlement_gap_seconds p rows ih.rewards fin.previous) previous
                ih.run);
          added = omega (arith, ih.added, total);
        }
  ]
]

-- The rows of a complete window: a run that ends at the window's end, starts in its first gap, and
-- whose rewards are the window's.
pub record IsWindow (o : WindowOptions) (rows : List Row) (s : Summary) : Type 0 where
  pub last : Option Reading
  pub run : Run o.max_settlement_gap_seconds none rows s.reward_lamports last
  pub ends : (r : Reading) × (last ≡ some r) × (r.at ≡ o.watermark_settles_at)
  pub begins :
      (first : ℤ)
      → s.first_settles_at ≡ some first
      → first <ℤ o.start +ℤ o.max_settlement_gap_seconds
  pub counted : s.rounds ≡ length rows

and_parts : (a b : Bool) → (a && b) ≡ true → (a ≡ true) × (b ≡ true)
and_parts a b e = ground arith

last_row :
    (last : Option Reading) (end : ℤ)
    → same_time (last_at last) end ≡ true
    → (r : Reading) × (last ≡ some r) × (r.at ≡ end)
unfolding same_time last_at
last_row none end e = absurd (ground arith)
last_row (some r) end e = (r, refl, ground (arith, eq_of_parts r.at end))

first_row :
    (at : Option ℤ) (first limit : ℤ)
    → before_time at limit ≡ true
    → at ≡ some first
    → first <ℤ limit
unfolding before_time
first_row none first limit e same = absurd (ground arith)
first_row (some at) first limit e same = ground arith

summary_of-IsWindow :
    (o : WindowOptions) (rows : List Row) (t : Totals)
    → sum_rows o no_totals rows ≡ some t
    → covered o t ≡ true
    → IsWindow o rows (summary_of o (length rows) t)
unfolding summary_of covered no_totals
summary_of-IsWindow o rows t summed cover =
    let v = sum_rows-Summed o no_totals t rows summed in
    let total : t.reward ≡ v.rewards = omega (arith, v.added) in
    let (ends, begins) = and_parts _ _ cover in
    record {
      last = t.previous;
      run = rw cover (rw total v.run);
      ends = last_row t.previous o.watermark_settles_at ends;
      begins = λ first is_first. first_row t.first_at first _ begins is_first;
      counted = refl;
    }

covered_there :
    (o : WindowOptions) (rows : List Row) (t : Totals)
    → (summary_of o (length rows) t).complete ≡ true
    → covered o t ≡ true
unfolding summary_of
covered_there o rows t e = e

pub summarise_staking_reward_window-IsWindow :
    (rows : List Row) (o : WindowOptions)
    → (summarise_staking_reward_window rows o).complete ≡ true
    → IsWindow o rows (summarise_staking_reward_window rows o)
unfolding summarise_staking_reward_window incomplete_window
summarise_staking_reward_window-IsWindow rows o e =
    elim (Bool-cases (options_valid (length rows) o)) [
      | inr invalid ↦ absurd (ground arith)
      | inl valid ↦ elim (Option-cases (sum_rows o no_totals rows)) [
        | inl failed ↦ absurd (ground arith)
        | inr (t, summed) ↦ rw valid (
            rw summed (
              summary_of-IsWindow o rows t summed
                (covered_there o rows t (rw summed at (rw valid at e)))))
      ]
    ]
