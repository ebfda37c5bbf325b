-- ===== src/Examples/Host.antt =====
-- The host's health checks at concrete inputs.
use myne.Js.{Value, number, boolean, safe_integer}
use myne.Base.{◌≡◌, refl, ok, true, false, [], ◌∷◌, some}
use myne.Base.Int.{ℤ, pos, ◌<ℤ◌}
use myne.Host.Deadlines.{DeadlineArgs, Deadlines, canonical_round_deadlines}
use myne.Host.Deadlines.Times.{for_round, settle_at_next_opening}
use myne.Host.Rounds.{
  RoundRow, AssessArgs, Assessment, Entry, current, next, prepared, next_prebind_late,
  prebind_missed,
}

-- Rounds of 65 seconds from second 100 on, of which 60 are for bets.
abbrev schedule : DeadlineArgs
schedule = record {
  round_id = number (pos 3);
  initialized_at = number (pos 100);
  round_duration_seconds = number (pos 65);
  betting_duration_seconds = number (pos 60);
  preparation_safety_margin_seconds = number (pos 2);
  next_round_prebind_grace_seconds = number (pos 15);
  settlement_late_seconds = number (pos 5);
}

abbrev opens_at : ℤ → ℤ → ℤ → ℤ → ℤ → Deadlines
opens_at start bound opened closed settled = record {
  preparation_starts_at = start;
  prebind_at = bound;
  prepare_at = opened;
  betting_ends_at = closed;
  lock_at = closed;
  settles_at = closed;
  settle_at = settled;
}

abbrev round_3 : Deadlines
round_3 = opens_at (pos 237) (pos 252) (pos 295) (pos 355) (pos 360)

abbrev round_4 : Deadlines
round_4 = opens_at (pos 302) (pos 317) (pos 360) (pos 420) (pos 425)

round_3-computed : canonical_round_deadlines (for_round schedule (pos 3)) ≡ ok round_3
unfolding myne.Host.Deadlines.canonical_round_deadlines myne.Host.Deadlines.deadlines_from
    myne.Js.is_safe_int myne.Js.safe_integer myne.Schedule.require_exact_settlement_window for_round
    myne.Base.Int.◌-ℤ◌ myne.Base.Int.◌+ℤ◌
round_3-computed = refl

round_4-computed : canonical_round_deadlines (for_round schedule (pos 4)) ≡ ok round_4
unfolding myne.Host.Deadlines.canonical_round_deadlines myne.Host.Deadlines.deadlines_from
    myne.Js.is_safe_int myne.Js.safe_integer myne.Schedule.require_exact_settlement_window for_round
    myne.Base.Int.◌-ℤ◌ myne.Base.Int.◌+ℤ◌
round_4-computed = refl

settle_at_next_opening_example : pos 360 ≡ pos 360
unfolding myne.Base.Int.◌+ℤ◌
settle_at_next_opening_example =
    settle_at_next_opening schedule (pos 3) round_3 round_4 round_3-computed round_4-computed

-- Round 0 is open and prepared, and round 1 was not bound in time.
abbrev row_0 : RoundRow
row_0 = record {
  round_id = number (pos 0);
  prepared = boolean true;
  funded = boolean true;
  settled = boolean false;
  entropy_locked = boolean false;
}

abbrev at_150 : AssessArgs
at_150 = record {
  now = number (pos 150);
  initialized_at = number (pos 100);
  round_duration_seconds = number (pos 65);
  betting_duration_seconds = number (pos 60);
  preparation_safety_margin_seconds = number (pos 2);
  next_round_prebind_grace_seconds = number (pos 15);
  settlement_late_seconds = number (pos 5);
  minimum_managed_round_id = number (pos 0);
  lookback_rounds = number (pos 1);
  protocol_paused = false;
  rows = row_0 ∷ [];
}

abbrev entry_0 : Entry
entry_0 = record {
  round_id = pos 0;
  role = current;
  condition = prepared;
  prepared = true;
  entropy_locked = false;
  funded = true;
  settled = false;
  deadlines = opens_at (pos 42) (pos 57) (pos 100) (pos 160) (pos 165);
}

abbrev entry_1 : Entry
entry_1 = record {
  round_id = pos 1;
  role = next;
  condition = next_prebind_late;
  prepared = false;
  entropy_locked = false;
  funded = false;
  settled = false;
  deadlines = opens_at (pos 107) (pos 122) (pos 165) (pos 225) (pos 230);
}

abbrev unhealthy : Assessment
unhealthy = record {
  ok = false;
  current_round_id = some (pos 0);
  next_round_id = some (pos 1);
  next_round_prebound = false;
  next_round_prebind_deadline = some (pos 122);
  entries = entry_0 ∷ entry_1 ∷ [];
  errors = prebind_missed (pos 1) (pos 122) ∷ [];
}
