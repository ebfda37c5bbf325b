-- ===== src/Frontend/Staking/Select/Found.antt =====
-- What a window that is selected stands for.
use mathlib.Core.List.{
  append-nil, reverse, reverse-append, reverse-reverse, reverse-cons, append_assoc,
}
use mathlib.Core.Option.{some-injective}
use myne.Base.{
  false, ◌⊎◌, if◌then◌else◌, sym, ◌∙◌, ap, subst, ◌≡◌, inl, inr, Bool, true, Option, some, List, [],
  ◌∷◌, ◌++◌, refl, length, arith, Option-cases, Bool-cases,
}
use myne.Base.Int.{ℤ, ◌-ℤ◌, ◌≤ℤ◌}
use myne.Frontend.Staking.{Row, Summary, summarise_staking_reward_window}
use myne.Frontend.Staking.Select.{
  at_least, SelectOptions, candidate, rows_since, window_ending, select_ending, observed_end,
  select_valid, select_latest_complete_staking_reward_window,
}
use myne.Frontend.Staking.Windows.{IsWindow, summarise_staking_reward_window-IsWindow}

-- A complete window among the rows: it ends when it was observed or before, and its rows stand
-- together.
pub record Found (o : SelectOptions) (rows : List Row) (s : Summary) : Type 0 where
  pub before : List Row
  pub window : List Row
  pub after : List Row
  pub together : rows ≡ before ++ (window ++ after)
  pub end : ℤ
  pub observed : end ≤ℤ o.observed_at
  pub complete : s.complete ≡ true
  pub is_window : IsWindow (window_ending o end) window s

rows_since-prefix :
    (start : ℤ) (rows : List Row) → (rest : List Row) × (rows ≡ rows_since start rows ++ rest)
unfolding rows_since
rows_since-prefix start [] = ([], refl)
rows_since-prefix start (row ∷ rows) =
    let (rest, same) = rows_since-prefix start rows in
    elim (Bool-cases (at_least row.settles_at start)) [
      | inl there ↦ rw there (rest, ap (λ r. row ∷ r) same)
      | inr gone ↦ rw gone (row ∷ rows, refl)
    ]

earlier-Found :
    (o : SelectOptions) (row : Row) (earlier : List Row) (s : Summary)
    → Found o (reverse earlier) s
    → Found o (reverse (row ∷ earlier)) s
earlier-Found o row earlier s f = record {
  before = f.before;
  window = f.window;
  after = f.after ++ (row ∷ []);
  together =
      reverse-cons row earlier
      ∙ ap (λ x. x ++ (row ∷ [])) f.together
      ∙ append_assoc f.before (f.window ++ f.after) (row ∷ [])
      ∙ ap (λ x. f.before ++ x) (append_assoc f.window f.after (row ∷ []));
  end = f.end;
  observed = f.observed;
  complete = f.complete;
  is_window = f.is_window;
}

observed_end-le :
    (o : SelectOptions) (row : Row) (end : ℤ) → observed_end o row ≡ some end → end ≤ℤ o.observed_at
unfolding observed_end
observed_end-le o row end e = ground arith

here-Found :
    (o : SelectOptions) (row : Row) (earlier : List Row) (end : ℤ)
    → observed_end o row ≡ some end
    → let s =
        summarise_staking_reward_window
          (candidate (end -ℤ o.window_seconds) row earlier)
          (window_ending o end) in
      s.complete ≡ true → Found o (reverse (row ∷ earlier)) s
unfolding candidate
here-Found o row earlier end ended complete =
    let start = end -ℤ o.window_seconds in
    let (rest, same) = rows_since-prefix start earlier in
    record {
      before = reverse rest;
      window = candidate start row earlier;
      after = [];
      together =
          ap (λ x. reverse (row ∷ x)) same
          ∙ reverse-append (row ∷ rows_since start earlier) rest
          ∙ ap (λ x. reverse rest ++ x) (sym (append-nil _));
      end = end;
      observed = observed_end-le o row end ended;
      complete = complete;
      is_window = summarise_staking_reward_window-IsWindow _ _ complete;
    }

if_some :
    (b : Bool) (s t : Summary) (rest : Option Summary)
    → (if b then some s else rest) ≡ some t
    → ((b ≡ true) × (s ≡ t)) ⊎ (rest ≡ some t)
if_some true s t rest e = inl (refl, some-injective _ _ e)
if_some false s t rest e = inr e

select_ending-Found :
    (o : SelectOptions) (rows : List Row) (s : Summary)
    → select_ending o rows ≡ some s
    → Found o (reverse rows) s
unfolding select_ending
select_ending-Found o [] s e = absurd (ground arith)
select_ending-Found o (row ∷ earlier) s e = elim (Option-cases (observed_end o row)) [
  | inl unobserved ↦
      earlier-Found o row earlier s
        (select_ending-Found o earlier s (rw (unobserved, select_ending) at e))
  | inr (end, ended) ↦
      let here =
        summarise_staking_reward_window (candidate (end -ℤ o.window_seconds) row earlier)
          (window_ending o end) in
      elim (if_some here.complete here s _ (rw (ended, select_ending) at e)) [
        | inr later ↦ earlier-Found o row earlier s (select_ending-Found o earlier s later)
        | inl (complete, same) ↦
            subst (λ x. Found o (reverse (row ∷ earlier)) x) same
              (here-Found o row earlier end ended complete)
      ]
]

-- A window that is selected from the rows of the index is a part of them that stands together: its
-- ids follow one another, each row is resolved and settles after the row before within the cadence and five seconds,
-- the last is the window's end and was observed, and the reward is the sum of the rows' rewards.
pub select_latest_complete_staking_reward_window-Found :
    (rows : List Row) (o : SelectOptions) (s : Summary)
    → select_latest_complete_staking_reward_window rows o ≡ some s
    → Found o rows s
unfolding select_latest_complete_staking_reward_window
select_latest_complete_staking_reward_window-Found rows o s e =
    elim (Bool-cases (select_valid (length rows) o)) [
      | inr invalid ↦ absurd (ground arith)
      | inl valid ↦
          subst (λ x. Found o x s) (reverse-reverse rows)
            (select_ending-Found o (reverse rows) s (rw valid at e))
    ]
