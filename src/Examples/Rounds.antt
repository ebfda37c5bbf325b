-- ===== src/Examples/Rounds.antt =====
-- Schedules, queues and the comparison with the chain at concrete inputs.
use mathlib.Core.List.{flatten}
use myne.Js.{
  is_nullish, safe_integer, Value, number, text, null, boolean, undefined, to_string, truthy,
  as_bigint,
}
use myne.Base.Int.{◌≤ℤ◌, ℤ, pos, ◌<ℤ◌, ◌-ℤ◌}
use myne.Schedule.{
  Times, ScheduleArgs, WindowArgs, resume_times, prepare_times, first_safe_resume_round_id,
  round_ids_to_prepare, prebind_deadline, require_exact_settlement_window,
}
use myne.Schedule.Resume.{first_safe_resume_round_id-IsFirstSafe, IsFirstSafe}
use myne.Schedule.Prepare.{round_ids_to_prepare-IsDue, includes, IsDue}
use myne.LifecycleQueue.{
  Cursor, start_cursors, select_lifecycle_round_batch, select_entries, merge_lifecycle_round_queues,
  merge_queues, next_historical_lifecycle_cursor, process_lifecycle_round_queue,
}
use myne.LifecycleQueue.Keyed.{Entries, has_key, values, distinct_keys}
use myne.LifecycleQueue.Passes.{cursor_keys}
use myne.LifecycleQueue.Merge.{keep_first, keyed, merge_lifecycle_round_queues-keep_first}
use myne.LifecycleQueue.Held.{InQueues}
use myne.LifecycleQueue.Batch.{
  select_lifecycle_round_batch-Selection, select_entries-fair, head_keys,
}
use myne.LifecycleQueue.Oldest.{next_historical_lifecycle_cursor-least, BelowAll, Among}
use myne.Base.{
  All, plain_error, err, ◌⊎◌, ◌<◌, ◌≤◌, none, if◌then◌else◌, ◌↔◌, ◌+◌, true, some, refl, length,
  arith, ◌≡◌, ◌∷◌, suc, [], String, Result, List, ok, ℕ,
}

-- The clock is at 150, the first round opened at 100 and rounds last 60 seconds.
abbrev at_150 : ScheduleArgs
at_150 = record {
  now = number (pos 150);
  initialized_at = number (pos 100);
  round_duration_seconds = number (pos 60);
  preparation_lead_seconds = number (pos 30);
  preparation_safety_margin_seconds = number (pos 2);
}

abbrev times_at_150 : Times
times_at_150 = record {
  now = pos 150;
  initialized_at = pos 100;
  round_duration = 60;
  lead = 30;
  margin = 2;
}

at_150-resume : resume_times at_150 (number (pos 5)) ≡ ok (times_at_150, 5)
unfolding myne.Js.is_safe_int myne.Js.safe_integer myne.Schedule.resume_times myne.Base.Int.◌+ℤ◌
at_150-resume = refl

at_150-prepare : prepare_times at_150 ≡ ok times_at_150
unfolding myne.Js.is_safe_int myne.Js.safe_integer myne.Schedule.prepare_times
at_150-prepare = refl

first_safe_resume_round_id-IsFirstSafe_example :
    (r : ℕ) × (first_safe_resume_round_id at_150 (number (pos 5)) ≡ ok r)
    × IsFirstSafe times_at_150 5 r
first_safe_resume_round_id-IsFirstSafe_example =
    first_safe_resume_round_id-IsFirstSafe at_150 (number (pos 5)) times_at_150 5 at_150-resume
      (omega arith)

round_ids_to_prepare-IsDue_example :
    (ids : List ℕ) × (round_ids_to_prepare at_150 ≡ ok ids)
    × ((r : ℕ) → (includes ids r ≡ true) ↔ IsDue times_at_150 r)
round_ids_to_prepare-IsDue_example =
    round_ids_to_prepare-IsDue at_150 times_at_150 at_150-prepare (omega arith)

-- One second before the first round opens, after its prebind deadline.
abbrev at_99 : ScheduleArgs
at_99 = record at_150 { now = number (pos 99) }

abbrev times_at_99 : Times
times_at_99 = record times_at_150 { now = pos 99 }

at_99-resume : resume_times at_99 (number (pos 5)) ≡ ok (times_at_99, 5)
unfolding myne.Js.is_safe_int myne.Js.safe_integer myne.Schedule.resume_times myne.Base.Int.◌+ℤ◌
at_99-resume = refl

at_99-early : times_at_99.now <ℤ times_at_99.initialized_at
at_99-early = omega arith

at_99-late : prebind_deadline times_at_99 5 0 ≤ℤ times_at_99.now
unfolding ◌-ℤ◌ myne.Base.Int.◌+ℤ◌
at_99-late = omega arith

abbrev minute_window : WindowArgs
minute_window = record {
  round_duration_seconds = number (pos 60);
  betting_duration_seconds = number (pos 50);
  settlement_late_seconds = number (pos 10);
}

safe_60 : safe_integer (number (pos 60)) ≡ ok (pos 60)
unfolding myne.Js.is_safe_int myne.Js.safe_integer
safe_60 = refl

safe_50 : safe_integer (number (pos 50)) ≡ ok (pos 50)
unfolding myne.Js.is_safe_int myne.Js.safe_integer
safe_50 = refl

safe_10 : safe_integer (number (pos 10)) ≡ ok (pos 10)
unfolding myne.Js.is_safe_int myne.Js.safe_integer
safe_10 = refl

-- Rows that are their own ids, in two queues with one id in common.
abbrev own_id : Value → Value
own_id v = v

abbrev two_queues : List (List Value)
two_queues =
    (number (pos 4) ∷ number (pos 5) ∷ []) ∷ (number (pos 5) ∷ null ∷ number (pos 6) ∷ []) ∷ []

merge_lifecycle_round_queues-keep_first_example :
    merge_lifecycle_round_queues own_id two_queues
    ≡ values (keep_first (keyed own_id 0 (flatten two_queues)))
merge_lifecycle_round_queues-keep_first_example =
    merge_lifecycle_round_queues-keep_first own_id two_queues

select_lifecycle_round_batch-Selection_example :
    (r : Entries Value) × (select_entries own_id (suc 2) two_queues ≡ some r)
    × (select_lifecycle_round_batch own_id (number (pos (suc 2))) two_queues ≡ ok (values r))
    × All (λ (e : String × Value). InQueues own_id (start_cursors 0 two_queues) e.0 e.1) r
    × (length (values r) ≤ suc 2)
    × (distinct_keys r ≡ true)
    × (length (values r) < suc 2
        → (k : String) → cursor_keys own_id (start_cursors 0 two_queues) k ≡ true
        → has_key r k ≡ true)
select_lifecycle_round_batch-Selection_example =
    select_lifecycle_round_batch-Selection own_id 2 two_queues

abbrev two_selected : Entries Value
two_selected = ("4", number (pos 4)) ∷ ("5", number (pos 5)) ∷ []

two_queues-selected : select_entries own_id 2 two_queues ≡ some two_selected
unfolding myne.Js.is_nullish myne.Js.to_string myne.LifecycleQueue.batch_key
    myne.LifecycleQueue.batch_loop myne.LifecycleQueue.batch_pass myne.LifecycleQueue.is_empty
    myne.LifecycleQueue.rows_left myne.LifecycleQueue.select_entries
    myne.LifecycleQueue.start_cursors myne.LifecycleQueue.take_new has_key
two_queues-selected = refl

second_head : head_keys own_id (start_cursors 0 two_queues) "5" ≡ true
unfolding head_keys start_cursors myne.LifecycleQueue.batch_key is_nullish to_string
second_head = refl

select_entries-fair_example : has_key two_selected "5" ≡ true
select_entries-fair_example =
    select_entries-fair own_id 2 two_queues two_selected (omega arith) (omega arith)
      two_queues-selected "5" second_head

abbrev old_rows : List Value
old_rows = number (pos 9) ∷ text "4" ∷ number (pos 6) ∷ []

old_rows-cursor : next_historical_lifecycle_cursor own_id old_rows ≡ ok (some (pos 4))
unfolding myne.Js.bigint_of myne.Js.codes myne.LifecycleQueue.next_historical_lifecycle_cursor
    myne.LifecycleQueue.oldest_from myne.LifecycleQueue.round_id
old_rows-cursor = refl

next_historical_lifecycle_cursor-least_example :
    ((old_rows ≡ []) × (some (pos 4) ≡ none))
    ⊎ ((z : ℤ) × (some (pos 4) ≡ some z) × BelowAll own_id z old_rows × Among own_id z old_rows)
next_historical_lifecycle_cursor-least_example =
    next_historical_lifecycle_cursor-least own_id old_rows (some (pos 4)) old_rows-cursor

-- Counts the rows and fails on null.
abbrev counting : ℕ → Value → ℕ × Result ℕ
counting n v = (n + 1, if is_nullish v then err plain_error else ok n)
