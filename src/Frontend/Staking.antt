-- ===== src/Frontend/Staking.antt =====
-- Frontend/src/chain/staking-apy.js: the reward windows behind the displayed staking rate.
-- A window is given by its length in seconds, `windowMinutes * 60`, a whole number. A row's
-- settlement time is what `Number(row.settles_at)` reads: a whole number of seconds, or `none` for
-- NaN. A time with a fraction is not modelled.
pub mod Windows
pub mod Select
pub mod Fallback
use mathlib.Core.List.{reverse}
use myne.Js.{
  Value, bigint, number, text, boolean, undefined, null, other_number, is_safe_int, bigint_of,
}
use myne.Js.Pattern.{is_canonical_numeric}
use myne.Base.{
  ◌-◌, ℕ, zero, suc, ◌+◌, ◌*◌, ◌==◌, ◌^◌, ltb, leb, min, Bool, true, false, not, ◌&&◌, ◌||◌, Option,
  none, some, List, [], ◌∷◌, ok, err, Result, length, if◌then◌else◌,
}
use myne.Base.Int.{ℤ, pos, negsuc, leb_ℤ, ltb_ℤ, eqb_ℤ, ◌+ℤ◌, ◌-ℤ◌}

pub record Row : Type 0 where
  pub round_id : Value
  pub settles_at : Option ℤ
  pub staking_net_lamports : Value
  pub resolved : Value

pub record Summary : Type 0 where
  pub complete : Bool
  pub window_seconds : ℤ
  pub reward_lamports : ℕ
  pub rounds : ℕ
  pub first_settles_at : Option ℤ
  pub last_settles_at : Option ℤ

pub record WindowOptions : Type 0 where
  pub start : ℤ
  pub end : ℤ
  pub window_seconds : ℤ
  pub round_cadence_seconds : ℤ
  pub max_rows : ℕ
  pub observed_at : ℤ
  pub watermark_settles_at : ℤ
  pub max_staleness_seconds : ℤ
  pub max_settlement_gap_seconds : ℤ

natural : Result ℤ → Option ℕ
natural (ok (pos n)) = some n
natural (ok (negsuc n)) = none
natural (err e) = none

-- `unsignedInteger`
unfoldable pub unsigned_integer : Value → Option ℕ
unfolding natural
unsigned_integer (bigint (pos n)) = some n
unsigned_integer (number (pos n)) = if is_safe_int (pos n) then some n else none
unsigned_integer (text s) =
    let parsed = natural (bigint_of (text s)) in if is_canonical_numeric s then parsed else none
unsigned_integer _ = none

-- `value === true`
unfoldable pub is_true : Value → Bool
is_true (boolean b) = b
is_true _ = false

unfoldable pub safe_time : Option ℤ → Option ℤ
safe_time none = none
safe_time (some t) = if is_safe_int t then some t else none

-- What a row says: its id, its settlement time and its reward.
pub record Reading : Type 0 where
  pub id : ℕ
  pub at : ℤ
  pub reward : ℕ

unfoldable pub readings : Bool → Option ℕ → Option ℤ → Option ℕ → Option Reading
readings true (some id) (some at) (some reward) =
    some (record { id = id; at = at; reward = reward })
readings _ _ _ _ = none

unfoldable pub read_row : Row → Option Reading
read_row row =
    readings (is_true row.resolved) (unsigned_integer row.round_id) (safe_time row.settles_at)
      (unsigned_integer row.staking_net_lamports)

unfoldable pub incomplete_window : ℤ → ℕ → Summary
incomplete_window window rows = record {
  complete = false;
  window_seconds = window;
  reward_lamports = 0;
  rounds = rows;
  first_settles_at = none;
  last_settles_at = none;
}

unfoldable pub is_positive : ℤ → Bool
is_positive z = is_safe_int z && ltb_ℤ (pos 0) z

unfoldable pub options_valid : ℕ → WindowOptions → Bool
options_valid rows o =
    ltb 0 rows
    && ltb 0 o.max_rows
    && ltb rows o.max_rows
    && is_safe_int o.start
    && leb_ℤ (pos 0) o.start
    && is_safe_int o.end
    && ltb_ℤ o.start o.end
    && ltb_ℤ (pos 0) o.window_seconds
    && is_positive o.round_cadence_seconds
    && is_safe_int o.observed_at
    && is_safe_int o.watermark_settles_at
    && is_positive o.max_staleness_seconds
    && is_positive o.max_settlement_gap_seconds
    && eqb_ℤ o.watermark_settles_at o.end
    && leb_ℤ o.watermark_settles_at o.observed_at
    && leb_ℤ (o.observed_at -ℤ o.watermark_settles_at) o.max_staleness_seconds

-- The loop's variables: the row before, the first time and the reward so far.
pub record Totals : Type 0 where
  pub previous : Option Reading
  pub first_at : Option ℤ
  pub reward : ℕ

-- Whether a row may come after the row before: the next id, later, and not too late.
unfoldable pub follows : ℤ → Option Reading → Reading → Bool
follows gap none r = true
follows gap (some p) r = (r.id == p.id + 1) && ltb_ℤ p.at r.at && leb_ℤ (r.at -ℤ p.at) gap

unfoldable pub or_first : Option ℤ → ℤ → Option ℤ
or_first none at = some at
or_first (some first) at = some first

unfoldable pub accept_row : WindowOptions → Totals → Reading → Option Totals
accept_row o t r =
    let next : Totals = record {
      previous = some r;
      first_at = or_first t.first_at r.at;
      reward = t.reward + r.reward;
    } in
    if leb_ℤ o.start r.at && leb_ℤ r.at o.end && follows o.max_settlement_gap_seconds t.previous r
    then some next
    else none

unfoldable pub sum_rows : WindowOptions → Totals → List Row → Option Totals
sum_rows o t [] = some t
sum_rows o t (row ∷ rows) = elim (read_row row) [
  | none ↦ none
  | some r ↦ elim (accept_row o t r) [ none ↦ none | some next ↦ sum_rows o next rows ]
]

unfoldable pub no_totals : Totals
no_totals = record { previous = none; first_at = none; reward = 0 }

unfoldable pub last_at : Option Reading → Option ℤ
last_at none = none
last_at (some r) = some r.at

unfoldable pub same_time : Option ℤ → ℤ → Bool
same_time none t = false
same_time (some at) t = eqb_ℤ at t

unfoldable pub before_time : Option ℤ → ℤ → Bool
before_time none t = ltb_ℤ (pos 0) t
before_time (some at) t = ltb_ℤ at t

unfoldable pub covered : WindowOptions → Totals → Bool
covered o t =
    same_time (last_at t.previous) o.watermark_settles_at
    && before_time t.first_at (o.start +ℤ o.max_settlement_gap_seconds)

unfoldable pub summary_of : WindowOptions → ℕ → Totals → Summary
summary_of o rows t = record {
  complete = covered o t;
  window_seconds = o.window_seconds;
  reward_lamports = if covered o t then t.reward else 0;
  rounds = rows;
  first_settles_at = t.first_at;
  last_settles_at = last_at t.previous;
}

unfoldable pub summarise_staking_reward_window : List Row → WindowOptions → Summary
summarise_staking_reward_window rows o =
    let failed = incomplete_window o.window_seconds (length rows) in
    let summed : Summary = elim (sum_rows o no_totals rows) [
      | none ↦ failed
      | some t ↦ summary_of o (length rows) t
    ] in
    if options_valid (length rows) o then summed else failed
