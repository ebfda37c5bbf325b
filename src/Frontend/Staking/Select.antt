-- ===== src/Frontend/Staking/Select.antt =====
-- `selectLatestCompleteStakingRewardWindow`: the newest window that is complete.
pub mod Found
use mathlib.Core.List.{reverse}
use myne.Js.{is_safe_int}
use myne.Base.{
  ◌&&◌, ◌^◌, ◌-◌, ltb, none, some, [], ◌∷◌, if◌then◌else◌, length, ℕ, Bool, true, false, Option,
  List,
}
use myne.Base.Int.{ℤ, pos, leb_ℤ, ltb_ℤ, ◌+ℤ◌, ◌-ℤ◌}
use myne.Frontend.Staking.{
  Row, Summary, WindowOptions, is_positive, safe_time, summarise_staking_reward_window,
}

pub record SelectOptions : Type 0 where
  pub window_seconds : ℤ
  pub round_cadence_seconds : ℤ
  pub observed_at : ℤ
  pub max_rows : ℕ

unfoldable pub select_valid : ℕ → SelectOptions → Bool
select_valid rows o =
    ltb 0 rows
    && ltb rows o.max_rows
    && ltb_ℤ (pos 0) o.window_seconds
    && is_positive o.round_cadence_seconds
    && is_safe_int o.observed_at

-- `Number.MAX_SAFE_INTEGER`
unfoldable pub max_safe_integer : ℕ
max_safe_integer = 2 ^ 53 - 1

unfoldable pub window_ending : SelectOptions → ℤ → WindowOptions
window_ending o end = record {
  start = end -ℤ o.window_seconds;
  end = end;
  window_seconds = o.window_seconds;
  round_cadence_seconds = o.round_cadence_seconds;
  max_rows = o.max_rows;
  observed_at = o.observed_at;
  watermark_settles_at = end;
  max_staleness_seconds = pos max_safe_integer;
  max_settlement_gap_seconds = o.round_cadence_seconds +ℤ pos 5;
}

unfoldable pub at_least : Option ℤ → ℤ → Bool
at_least none t = false
at_least (some at) t = leb_ℤ t at

-- The rows before the end of the window, the latest first: those since its start.
unfoldable pub rows_since : ℤ → List Row → List Row
rows_since start [] = []
rows_since start (row ∷ earlier) =
    let rest = rows_since start earlier in if at_least row.settles_at start then row ∷ rest else []

unfoldable pub candidate : ℤ → Row → List Row → List Row
candidate start last earlier = reverse (last ∷ rows_since start earlier)

unfoldable pub observed_end : SelectOptions → Row → Option ℤ
observed_end o row = elim (safe_time row.settles_at) [
  | none ↦ none
  | some end ↦ if leb_ℤ end o.observed_at then some end else none
]

-- The walk backwards over the rows, given the latest first.
unfoldable pub select_ending : SelectOptions → List Row → Option Summary
select_ending o [] = none
select_ending o (row ∷ earlier) =
    let rest = select_ending o earlier in
    elim (observed_end o row) [
      | none ↦ rest
      | some end ↦
          let s =
            summarise_staking_reward_window (candidate (end -ℤ o.window_seconds) row earlier)
              (window_ending o end) in
          if s.complete then some s else rest
    ]

unfoldable pub select_latest_complete_staking_reward_window :
    List Row → SelectOptions → Option Summary
select_latest_complete_staking_reward_window rows o =
    let selected = select_ending o (reverse rows) in
    if select_valid (length rows) o then selected else none
