-- ===== src/Host/Rounds.antt =====
-- `assessRoundScheduleHealth` of production-worker-host.mjs: which obligations of the schedule the
-- rounds on the chain have missed.
pub mod Obligations
use myne.Js.{Value, safe_integer, integer_of, truthy, number}
use myne.Host.Deadlines.{DeadlineArgs, Deadlines, canonical_round_deadlines}
use myne.Base.{
  assertion, ◌/◌, zero, err, assert, ◌>>◌, ◌++◌, ◌&&◌, suc, ◌∷◌, ◌||◌, ◌>>=◌, ◌+◌, true, some, ok,
  not, none, if◌then◌else◌, false, [], Result, Option, List, Bool, ℕ,
}
use myne.Base.Int.{pos_part, negsuc, ◌-ℤ◌, ◌+ℤ◌, ltb_ℤ, leb_ℤ, eqb_ℤ, pos, ℤ}

-- A normalized chain read.
pub record RoundRow : Type 0 where
  pub round_id : Value
  pub prepared : Value
  pub funded : Value
  pub settled : Value
  pub entropy_locked : Value

pub record AssessArgs : Type 0 where
  pub now : Value
  pub initialized_at : Value
  pub round_duration_seconds : Value
  pub betting_duration_seconds : Value
  pub preparation_safety_margin_seconds : Value
  pub next_round_prebind_grace_seconds : Value
  pub settlement_late_seconds : Value
  pub minimum_managed_round_id : Value
  pub lookback_rounds : Value
  pub protocol_paused : Bool
  pub rows : List RoundRow

pub data Role : Type 0 where
  previous current next : Role

pub data Condition : Type 0 where
  settled prepared missing not_due : Condition
  prepare_late next_prebind_late lock_late : Condition
  funded_settlement_late settlement_late : Condition

-- An error, by its round and the deadline that it names.
pub data Missed : Type 0 where
  preparation_missed prebind_missed lock_missed : ℤ → ℤ → Missed
  settlement_missed : Bool → ℤ → ℤ → Missed

pub record Entry : Type 0 where
  pub round_id : ℤ
  pub role : Role
  pub condition : Condition
  pub prepared : Bool
  pub entropy_locked : Bool
  pub funded : Bool
  pub settled : Bool
  pub deadlines : Deadlines

pub record Assessment : Type 0 where
  pub ok : Bool
  pub current_round_id : Option ℤ
  pub next_round_id : Option ℤ
  pub next_round_prebound : Bool
  pub next_round_prebind_deadline : Option ℤ
  pub entries : List Entry
  pub errors : List Missed

-- `Math.floor(a / b)` of two integers, the first not negative: a quotient by 0 is none.
unfoldable pub floor_div : ℕ → ℤ → Option ℤ
floor_div a (pos zero) = none
floor_div a (pos (suc d)) = some (pos (a / suc d))
floor_div a (negsuc d) = some (pos 0 -ℤ pos ((a + d) / suc d))

-- `rowById.get(roundId)`: of several rows of one id the last counts.
unfoldable pub has_round_id : ℤ → RoundRow → Bool
has_round_id id row = elim (integer_of row.round_id) [ none ↦ false | some z ↦ eqb_ℤ z id ]

unfoldable pub row_for : ℤ → List RoundRow → Option RoundRow
row_for id [] = none
row_for id (row ∷ rows) = elim (row_for id rows) [
  | some later ↦ some later
  | none ↦ if has_round_id id row then some row else none
]

unfoldable pub flag_of : (RoundRow → Value) → Option RoundRow → Bool
flag_of field none = false
flag_of field (some row) = truthy (field row)

unfoldable pub role_of : ℤ → ℤ → Role
role_of current_id id =
    if ltb_ℤ id current_id then previous else if eqb_ℤ id current_id then current else next

unfoldable pub preparation_due : Role → ℤ → Deadlines → Bool
preparation_due previous now d = false
preparation_due current now d = true
preparation_due next now d = leb_ℤ d.preparation_starts_at now

unfoldable pub is_next : Role → Bool
is_next previous = false
is_next current = false
is_next next = true

-- The four tests of an entry, in order. Each may change the condition and add an error.
unfoldable pub missed_preparation : Bool → Role → ℤ → Deadlines → Bool → Bool
missed_preparation paused role now d is_prepared =
    not paused && preparation_due role now d && leb_ℤ d.prepare_at now && not is_prepared

unfoldable pub missed_prebind : Bool → Role → ℤ → Deadlines → Bool → Bool
missed_prebind paused role now d is_prepared =
    not paused && is_next role && ltb_ℤ d.prebind_at now && not is_prepared

unfoldable pub missed_settlement : Bool → ℤ → Deadlines → Bool → Bool → Bool
missed_settlement paused now d is_prepared is_settled =
    not paused && is_prepared && not is_settled && leb_ℤ d.settle_at now

unfoldable pub report : Bool → Missed → List Missed
report true m = m ∷ []
report false m = []

unfoldable pub first_condition : Bool → Bool → Bool → Condition
first_condition is_settled is_prepared due =
    if is_settled
    then settled
    else if is_prepared
    then prepared
    else if due
    then missing
    else not_due

unfoldable pub entry_for : Bool → ℤ → ℤ → ℤ → Deadlines → Option RoundRow → Entry × List Missed
entry_for paused now current_id id d row =
    let role = role_of current_id id in
    let is_prepared = flag_of (λ r. r.prepared) row in
    let is_funded = flag_of (λ r. r.funded) row in
    let is_settled = flag_of (λ r. r.settled) row in
    let locked = flag_of (λ r. r.entropy_locked) row in
    let a = missed_preparation paused role now d is_prepared in
    let b = missed_prebind paused role now d is_prepared in
    let s = missed_settlement paused now d is_prepared is_settled in
    let start = first_condition is_settled is_prepared (preparation_due role now d) in
    let late = if is_funded then funded_settlement_late else settlement_late in
    let condition =
      if s then late else if b then next_prebind_late else if a then prepare_late else start in
    (
      record {
        round_id = id;
        role = role;
        condition = condition;
        prepared = is_prepared;
        entropy_locked = locked;
        funded = is_funded;
        settled = is_settled;
        deadlines = d;
      },
      report a (preparation_missed id d.prepare_at)
          ++ (report b (prebind_missed id d.prebind_at)
              ++ (report (s && not locked) (lock_missed id d.settle_at)
                  ++ report s (settlement_missed is_funded id d.settle_at))),
    )

unfoldable pub deadline_args : AssessArgs → ℤ → DeadlineArgs
deadline_args a id = record {
  round_id = number id;
  initialized_at = a.initialized_at;
  round_duration_seconds = a.round_duration_seconds;
  betting_duration_seconds = a.betting_duration_seconds;
  preparation_safety_margin_seconds = a.preparation_safety_margin_seconds;
  next_round_prebind_grace_seconds = a.next_round_prebind_grace_seconds;
  settlement_late_seconds = a.settlement_late_seconds;
}

unfoldable pub assess_rounds : AssessArgs → ℤ → ℤ → List ℤ → Result (List Entry × List Missed)
assess_rounds a now current_id [] = ok ([], [])
assess_rounds a now current_id (id ∷ ids) = do
  d ← canonical_round_deadlines (deadline_args a id)
  (entries, errors) ← assess_rounds a now current_id ids
  let one = entry_for a.protocol_paused now current_id id d (row_for id a.rows)
  ok (one.0 ∷ entries, one.1 ++ errors)

-- The rounds looked at: those before the current one, it and the next, from the minimum on.
unfoldable pub ids_upwards : ℕ → ℤ → List ℤ
ids_upwards zero first = []
ids_upwards (suc n) first = first ∷ ids_upwards n (first +ℤ pos 1)

unfoldable pub from_minimum : ℤ → List ℤ → List ℤ
from_minimum minimum [] = []
from_minimum minimum (id ∷ ids) =
    let rest = from_minimum minimum ids in if leb_ℤ minimum id then id ∷ rest else rest

unfoldable pub assessed_ids : ℕ → ℤ → ℤ → List ℤ
assessed_ids lookback minimum current_id =
    from_minimum minimum (ids_upwards (lookback + 2) (current_id -ℤ pos lookback))

unfoldable pub next_entry : List Entry → Option Entry
next_entry [] = none
next_entry (e ∷ es) = if is_next e.role then some e else next_entry es

unfoldable pub max_ℤ : ℤ → ℤ → ℤ
max_ℤ a b = if leb_ℤ a b then b else a

unfoldable pub is_empty : List Missed → Bool
is_empty [] = true
is_empty (m ∷ ms) = false

unfoldable pub assessment : Bool → ℤ → ℤ → List Entry × List Missed → Assessment
assessment paused minimum current_id (entries, errors) = record {
  ok = paused || is_empty errors;
  current_round_id = some current_id;
  next_round_id = elim (next_entry entries) [
    | some e ↦ some e.round_id
    | none ↦ some (max_ℤ (current_id +ℤ pos 1) minimum)
  ];
  next_round_prebound = elim (next_entry entries) [ some e ↦ e.prepared | none ↦ false ];
  next_round_prebind_deadline = elim (next_entry entries) [
    | some e ↦ some e.deadlines.prebind_at
    | none ↦ none
  ];
  entries = entries;
  errors = errors;
}

-- Before the first opening nothing is due.
unfoldable pub before_opening : ℤ → Assessment
before_opening minimum = record {
  ok = true;
  current_round_id = none;
  next_round_id = some minimum;
  next_round_prebound = false;
  next_round_prebind_deadline = none;
  entries = [];
  errors = [];
}

-- A duration of 0 gives no current round: at the first opening the quotient is NaN, which no id
-- passes the filter with, and later it is infinite, which is no safe integer.
unfoldable pub without_duration : ℕ → Result Assessment
without_duration zero = ok (record (before_opening (pos 0)) { next_round_id = none })
without_duration (suc n) = err assertion

unfoldable pub assess_from : AssessArgs → ℤ → ℤ → ℕ → ℕ → Option ℤ → Result Assessment
assess_from a now minimum lookback elapsed none = without_duration elapsed
assess_from a now minimum lookback elapsed (some current_id) = do
  rounds ← assess_rounds a now current_id (assessed_ids lookback minimum current_id)
  ok (assessment a.protocol_paused minimum current_id rounds)

unfoldable pub assess_round_schedule_health : AssessArgs → Result Assessment
assess_round_schedule_health a = do
  now ← safe_integer a.now
  initialized_at ← safe_integer a.initialized_at
  duration ← safe_integer a.round_duration_seconds
  betting ← safe_integer a.betting_duration_seconds
  margin ← safe_integer a.preparation_safety_margin_seconds
  grace ← safe_integer a.next_round_prebind_grace_seconds
  late ← safe_integer a.settlement_late_seconds
  minimum ← safe_integer a.minimum_managed_round_id
  lookback ← safe_integer a.lookback_rounds
  assert (leb_ℤ (pos 1) lookback && leb_ℤ lookback (pos 32))
  let elapsed = pos_part (now -ℤ initialized_at)
  let assessed = assess_from a now minimum (pos_part lookback) elapsed (floor_div elapsed duration)
  if ltb_ℤ now initialized_at then ok (before_opening minimum) else assessed
