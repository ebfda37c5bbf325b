-- ===== src/Schedule.antt =====
-- Protocol/scripts/round-schedule-policy.mjs: which round a keeper prepares or resumes at a time.
-- Timestamps are seconds, signed; a duration is a natural number once its guards have passed.
-- `Math.floor(a / b)` on safe integers is the exact quotient, and sums are exact.
mod Laws
pub mod Resume
pub mod Prepare
pub mod Window
use myne.Base.{
  ℕ, ◌+◌, ◌*◌, ◌/◌, List, [], ◌∷◌, Bool, true, false, ◌&&◌, Result, ok, err, assertion, assert,
  ◌>>=◌, ◌>>◌, ltb, leb, if◌then◌else◌,
}
use myne.Base.Int.{ℤ, pos, pos_part, ◌+ℤ◌, ◌-ℤ◌, ltb_ℤ, leb_ℤ, eqb_ℤ}
use myne.Js.{Value, safe_integer}

abbrev pub provider_preparation_lead_seconds : ℤ
provider_preparation_lead_seconds = pos 60

abbrev pub provider_preparation_safety_margin_seconds : ℤ
provider_preparation_safety_margin_seconds = pos 2

pub record WindowArgs : Type 0 where
  pub round_duration_seconds : Value
  pub betting_duration_seconds : Value
  pub settlement_late_seconds : Value

unfoldable pub require_exact_settlement_window : WindowArgs → Result ℤ
require_exact_settlement_window a = do
  round ← safe_integer a.round_duration_seconds
  betting ← safe_integer a.betting_duration_seconds
  late ← safe_integer a.settlement_late_seconds
  assert (ltb_ℤ betting round)
  assert (eqb_ℤ late (round -ℤ betting))
  ok (round -ℤ betting)

unfoldable pub settlement_confirmed_within_result_window : Value → Value → Result Bool
settlement_confirmed_within_result_window confirmed_at result_deadline_at = do
  confirmed ← safe_integer confirmed_at
  deadline ← safe_integer result_deadline_at
  ok (ltb_ℤ confirmed deadline)

-- The arguments of the two functions below once their assertions hold.
pub record Times : Type 0 where
  pub now : ℤ
  pub initialized_at : ℤ
  pub round_duration : ℕ
  pub lead : ℕ
  pub margin : ℕ

pub record ScheduleArgs : Type 0 where
  pub now : Value
  pub initialized_at : Value
  pub round_duration_seconds : Value
  pub preparation_lead_seconds : Value
  pub preparation_safety_margin_seconds : Value

-- `initializedAt + roundId * roundDurationSeconds`
abbrev pub opened_at : Times → ℕ → ℤ
opened_at t r = t.initialized_at +ℤ pos (r * t.round_duration)

-- When the preparation of a round starts.
abbrev pub preparation_starts_at : Times → ℕ → ℤ
preparation_starts_at t r = opened_at t r -ℤ pos t.lead +ℤ pos t.margin

abbrev pub prebind_deadline : Times → ℕ → ℕ → ℤ
prebind_deadline t grace r = preparation_starts_at t r +ℤ pos grace

-- `Math.floor((now - initializedAt) / roundDurationSeconds)`
abbrev pub current_round : Times → ℕ
current_round t = pos_part (t.now -ℤ t.initialized_at) / t.round_duration

unfoldable pub resume_times : ScheduleArgs → Value → Result (Times × ℕ)
resume_times a grace_seconds = do
  now ← safe_integer a.now
  initialized_at ← safe_integer a.initialized_at
  duration ← safe_integer a.round_duration_seconds
  lead ← safe_integer a.preparation_lead_seconds
  margin ← safe_integer a.preparation_safety_margin_seconds
  grace ← safe_integer grace_seconds
  assert (ltb_ℤ (pos 0) duration)
  assert (ltb_ℤ (pos 0) lead && ltb_ℤ lead duration)
  assert (leb_ℤ (pos 0) margin && ltb_ℤ (pos 0) grace && ltb_ℤ (margin +ℤ grace) lead)
  ok (
    record {
      now = now;
      initialized_at = initialized_at;
      round_duration = pos_part duration;
      lead = pos_part lead;
      margin = pos_part margin;
    },
    pos_part grace,
  )

unfoldable pub resume_from : Times → ℕ → ℕ
resume_from t grace =
    let next = current_round t + 1 in
    if ltb_ℤ t.now t.initialized_at
    then 0
    else if ltb_ℤ t.now (prebind_deadline t grace next)
    then next
    else next + 1

unfoldable pub first_safe_resume_round_id : ScheduleArgs → Value → Result ℕ
first_safe_resume_round_id a grace_seconds = do
  (t, grace) ← resume_times a grace_seconds
  ok (resume_from t grace)

unfoldable pub prepare_times : ScheduleArgs → Result Times
prepare_times a = do
  now ← safe_integer a.now
  initialized_at ← safe_integer a.initialized_at
  duration ← safe_integer a.round_duration_seconds
  lead ← safe_integer a.preparation_lead_seconds
  margin ← safe_integer a.preparation_safety_margin_seconds
  assert (ltb_ℤ (pos 0) duration)
  assert (ltb_ℤ (pos 0) lead && ltb_ℤ lead duration)
  assert (leb_ℤ (pos 0) margin && ltb_ℤ margin lead)
  ok (record {
    now = now;
    initialized_at = initialized_at;
    round_duration = pos_part duration;
    lead = pos_part lead;
    margin = pos_part margin;
  })

unfoldable pub prepare_from : Times → List ℕ
prepare_from t =
    let current = current_round t in
    let next = current + 1 in
    if ltb_ℤ t.now t.initialized_at
    then []
    else if leb_ℤ (preparation_starts_at t next) t.now
    then current ∷ next ∷ []
    else current ∷ []

unfoldable pub round_ids_to_prepare : ScheduleArgs → Result (List ℕ)
round_ids_to_prepare a = do t ← prepare_times a; ok (prepare_from t)
