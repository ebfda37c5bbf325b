-- ===== src/Frontend/Staking/Fallback.antt =====
-- `selectLatestVerifiedStakingRewardWindow`: the newest run of rows without a gap.
use mathlib.Core.List.{reverse}
use myne.Js.{is_safe_int}
use myne.Base.{
  ℕ, ◌+◌, ◌*◌, ◌==◌, Bool, true, false, ◌&&◌, Option, none, some, List, [], ◌∷◌, length,
  if◌then◌else◌,
}
use myne.Base.Int.{ℤ, pos, leb_ℤ, ltb_ℤ, ◌+ℤ◌, ◌-ℤ◌, pos_part}
use myne.Frontend.Staking.Select.{
  SelectOptions, select_valid, select_latest_complete_staking_reward_window,
}
use myne.Frontend.Staking.{Row, Reading, Summary, read_row, last_at}

pub record Verified : Type 0 where
  pub complete : Bool
  pub window_seconds : ℤ
  pub requested_window_seconds : Option ℤ
  pub reward_lamports : ℕ
  pub rounds : ℕ
  pub first_settles_at : Option ℤ
  pub last_settles_at : Option ℤ
  pub is_partial : Bool

unfoldable pub verified_exact : Summary → Verified
verified_exact s = record {
  complete = s.complete;
  window_seconds = s.window_seconds;
  requested_window_seconds = none;
  reward_lamports = s.reward_lamports;
  rounds = s.rounds;
  first_settles_at = s.first_settles_at;
  last_settles_at = s.last_settles_at;
  is_partial = false;
}

unfoldable pub observed_row : SelectOptions → Row → Option Reading
observed_row o row = elim (read_row row) [
  | none ↦ none
  | some r ↦ if leb_ℤ r.at o.observed_at then some r else none
]

-- Whether a row may stand before the row that was accepted last.
unfoldable pub precedes : SelectOptions → Option Reading → Reading → Bool
precedes o none r = true
precedes o (some later) r =
    (r.id + 1 == later.id)
    && ltb_ℤ (pos 0) (later.at -ℤ r.at)
    && leb_ℤ (later.at -ℤ r.at) (o.round_cadence_seconds +ℤ pos 5)

unfoldable pub is_enough : SelectOptions → ℕ → Bool
is_enough o rows = leb_ℤ o.window_seconds (pos (rows * pos_part o.round_cadence_seconds))

-- The rows accepted from the latest backwards, the latest first.
unfoldable pub accept_rows : SelectOptions → Option Reading → ℕ → List Row → List Reading
accept_rows o later n [] = []
accept_rows o later n (row ∷ earlier) =
    let skip = accept_rows o later n earlier in
    elim (observed_row o row) [
      | none ↦ elim later [ none ↦ skip | some r ↦ [] ]
      | some r ↦
          let more = accept_rows o (some r) (n + 1) earlier in
          let rest = if is_enough o (n + 1) then [] else more in
          if precedes o later r then r ∷ rest else []
    ]

unfoldable pub total_reward : List Reading → ℕ
total_reward [] = 0
total_reward (r ∷ rs) = r.reward + total_reward rs

unfoldable pub first_of : List Reading → Option Reading
first_of [] = none
first_of (r ∷ rs) = some r

unfoldable pub min_ℤ : ℤ → ℤ → ℤ
min_ℤ a b = if leb_ℤ a b then a else b

-- `accepted`, in the order of time.
unfoldable pub fallback_window : SelectOptions → List Reading → Verified
fallback_window o accepted =
    let window =
      min_ℤ o.window_seconds (pos (length accepted * pos_part o.round_cadence_seconds)) in
    record {
      complete = true;
      window_seconds = window;
      requested_window_seconds = some o.window_seconds;
      reward_lamports = total_reward accepted;
      rounds = length accepted;
      first_settles_at = last_at (first_of accepted);
      last_settles_at = last_at (first_of (reverse accepted));
      is_partial = ltb_ℤ window o.window_seconds;
    }

unfoldable pub fallback : SelectOptions → ℤ → List Row → Option Verified
fallback o minimum rows =
    let accepted = accept_rows o none 0 (reverse rows) in
    let found =
      if ltb_ℤ (pos (length accepted)) minimum
      then none
      else some (fallback_window o (reverse accepted)) in
    if select_valid (length rows) o && is_safe_int minimum && leb_ℤ (pos 1) minimum
    then found
    else none

unfoldable pub select_latest_verified_staking_reward_window :
    List Row → SelectOptions → ℤ → Option Verified
select_latest_verified_staking_reward_window rows o minimum =
    let otherwise = fallback o minimum rows in
    elim (select_latest_complete_staking_reward_window rows o) [
      | some exact ↦ some (verified_exact exact)
      | none ↦ otherwise
    ]
