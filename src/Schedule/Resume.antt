-- ===== src/Schedule/Resume.antt =====
-- `firstSafeResumeRoundId` of round-schedule-policy.mjs.
use myne.Base.{true, ltb→lt, ltb-false, ℕ, ◌+◌, ◌*◌, ◌≤◌, ◌<◌, ◌≡◌, arith, ok, inl, inr, Bool-cases}
use myne.Base.Int.{pos, pos_part, neg_part, ◌+ℤ◌, ◌-ℤ◌, ◌≤ℤ◌, ◌<ℤ◌, ltb_ℤ, +ℤ_parts, -ℤ_parts}
use myne.Js.{Value}
use myne.Schedule.{
  first_safe_resume_round_id, Times, ScheduleArgs, opened_at, current_round, preparation_starts_at,
  prebind_deadline, resume_times, resume_from,
}
use myne.Schedule.Laws.{opened_at-parts, current_round_open, mul_mono}

-- What the assertions leave, the grace period included.
pub record IsResumable (t : Times) (grace : ℕ) : Type 0 where
  pub lead_inside : t.lead < t.round_duration
  pub grace_inside : t.margin + grace < t.lead
  pub grace_positive : 0 < grace

prebind_deadline-parts :
    (t : Times) (grace r : ℕ)
    → pos_part (prebind_deadline t grace r) + neg_part t.initialized_at + t.lead
      ≡ neg_part (prebind_deadline t grace r)
        + pos_part t.initialized_at
        + r * t.round_duration
        + t.margin
        + grace
prebind_deadline-parts t grace r = omega (
  arith,
  opened_at-parts t r,
  -ℤ_parts (opened_at t r) (pos t.lead),
  +ℤ_parts (opened_at t r -ℤ pos t.lead) (pos t.margin),
  +ℤ_parts (preparation_starts_at t r) (pos grace),
)

-- From the first opening on, the id that `resume_from` selects is safe, and it is the first.
pub record IsFirstSafe (t : Times) (grace r : ℕ) : Type 0 where
  pub unopened : t.now <ℤ opened_at t r
  pub in_time : t.now <ℤ prebind_deadline t grace r
  pub first : (s : ℕ) → s < r → prebind_deadline t grace s ≤ℤ t.now

module _ (t : Times) (grace : ℕ) (v : IsResumable t grace) where
  deadline_mono : (s r : ℕ) → s ≤ r → prebind_deadline t grace s ≤ℤ prebind_deadline t grace r
  deadline_mono s r h = omega (
    arith,
    prebind_deadline-parts t grace s,
    prebind_deadline-parts t grace r,
    mul_mono s r t.round_duration h,
  )

  deadline_before : (r : ℕ) → prebind_deadline t grace r ≤ℤ opened_at t r
  deadline_before r = omega (arith, v, prebind_deadline-parts t grace r, opened_at-parts t r)

  deadline_after : (r : ℕ) → opened_at t r <ℤ prebind_deadline t grace (r + 1)
  deadline_after r = grind (
    arith,
    v.lead_inside,
    v.grace_positive,
    prebind_deadline-parts t grace (r + 1),
    opened_at-parts t r,
  )

  next_safe :
      t.initialized_at ≤ℤ t.now
      → ltb_ℤ t.now (prebind_deadline t grace (current_round t + 1)) ≡ true
      → IsFirstSafe t grace (current_round t + 1)
  next_safe h soon = record {
    unopened = (current_round_open t (omega (arith, v)) h).1;
    in_time = ltb→lt _ _ soon;
    first = λ s lt. omega (
      arith,
      deadline_mono s (current_round t) (omega arith),
      deadline_before (current_round t),
      current_round_open t (omega (arith, v)) h,
    );
  }

  next_missed :
      t.initialized_at ≤ℤ t.now
      → prebind_deadline t grace (current_round t + 1) ≤ℤ t.now
      → IsFirstSafe t grace (current_round t + 1 + 1)
  next_missed h late =
      let next = current_round t + 1 in
      let (_, unopened) = current_round_open t (omega (arith, v)) h in
      record {
        unopened = omega (
          arith,
          opened_at-parts t next,
          opened_at-parts t (next + 1),
          mul_mono next (next + 1) t.round_duration (omega arith),
        );
        in_time = omega (arith, deadline_after next);
        first = λ s lt. omega (arith, deadline_mono s next (omega arith));
      }

  pub resume_from-IsFirstSafe :
      t.initialized_at ≤ℤ t.now → IsFirstSafe t grace (resume_from t grace)
  unfolding resume_from
  resume_from-IsFirstSafe h = elim (Bool-cases (ltb_ℤ t.now t.initialized_at)) [
    | inl before ↦ absurd (omega (arith, ltb→lt _ _ before))
    | inr started ↦
        rw started
          (elim (Bool-cases (ltb_ℤ t.now (prebind_deadline t grace (current_round t + 1)))) [
            | inl soon ↦ rw soon (next_safe h soon)
            | inr late ↦ rw late (next_missed h (ltb-false _ _ late))
          ])
  ]

-- The assertions pass only arguments that are integers in the required relations.
resume_times-IsResumable :
    (a : ScheduleArgs) (g : Value) (t : Times) (grace : ℕ)
    → resume_times a g ≡ ok (t, grace)
    → IsResumable t grace
unfolding resume_times ◌+ℤ◌
resume_times-IsResumable a g t grace h = ground arith

module _ (a : ScheduleArgs) (g : Value) (t : Times) (grace : ℕ)
    (valid : resume_times a g ≡ ok (t, grace)) where
  -- With arguments that pass the assertions, from the first opening on, a resume selects a round: it has not
  -- opened, its prebind deadline is ahead, and the deadline of every smaller id has passed.
  pub first_safe_resume_round_id-IsFirstSafe :
      t.initialized_at ≤ℤ t.now
      → (r : ℕ) × (first_safe_resume_round_id a g ≡ ok r) × IsFirstSafe t grace r
  unfolding first_safe_resume_round_id
  first_safe_resume_round_id-IsFirstSafe h = (
    resume_from t grace,
    rw valid,
    resume_from-IsFirstSafe t grace (resume_times-IsResumable a g t grace valid) h,
  )
