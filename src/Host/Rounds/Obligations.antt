-- ===== src/Host/Rounds/Obligations.antt =====
-- What it takes for the rounds of the schedule to be healthy.
use myne.Host.Deadlines.{canonical_round_deadlines, Deadlines}
use myne.Host.Rounds.{
  safe_integer, row_for, flag_of, deadline_args, AssessArgs, Role, current, next, Entry, Missed,
  report, missed_preparation, missed_prebind, missed_settlement, preparation_missed, prebind_missed,
  lock_missed, settlement_missed,
}
use myne.Base.{guard-eq-ok, guard-eq-ok, ok, List, ◌≡◌, true, not, ◌&&◌, ◌++◌, Bool}
use myne.Base.Int.{ℤ, ◌≤ℤ◌, ◌<ℤ◌}
use myne.Js.{safe_integer}

-- At the time `now` the round is prepared if it is open, bound in time if it is the next, and
-- settled if it was prepared and its settlement is due.
pub record MeetsObligations (now : ℤ) (e : Entry) : Type 0 where
  pub open_prepared : e.role ≡ current → e.deadlines.prepare_at ≤ℤ now → e.prepared ≡ true
  pub next_bound : e.role ≡ next → e.deadlines.prebind_at <ℤ now → e.prepared ≡ true
  pub settled_in_time : e.prepared ≡ true → e.deadlines.settle_at ≤ℤ now → e.settled ≡ true

-- The errors of one round, by what they depend on.
errors_of : Bool → Role → ℤ → ℤ → Deadlines → Bool → Bool → Bool → Bool → List Missed
errors_of paused role now id d p f s l =
    report (missed_preparation paused role now d p) (preparation_missed id d.prepare_at)
    ++ (report (missed_prebind paused role now d p) (prebind_missed id d.prebind_at)
        ++ (report (missed_settlement paused now d p s && not l) (lock_missed id d.settle_at)
            ++ report (missed_settlement paused now d p s) (settlement_missed f id d.settle_at)))

-- What the health says of a round is what the chain's row of its id says, with the computed deadlines.
pub record IsReadFrom (a : AssessArgs) (e : Entry) : Type 0 where
  pub computed : canonical_round_deadlines (deadline_args a e.round_id) ≡ ok e.deadlines
  pub prepared_read : e.prepared ≡ flag_of (λ r. r.prepared) (row_for e.round_id a.rows)
  pub settled_read : e.settled ≡ flag_of (λ r. r.settled) (row_for e.round_id a.rows)
