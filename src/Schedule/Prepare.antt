-- ===== src/Schedule/Prepare.antt =====
-- `roundIdsToPrepare` of round-schedule-policy.mjs.
use myne.Base.{
  [], ◌∷◌, leb-false, leb→le, ltb→lt, sym, subst, ◌-◌, dec_lt, ℕ, ◌+◌, ◌*◌, ◌≤◌, ◌≡◌, ◌↔◌, arith,
  ok, Bool, true, ◌==◌, ◌⊎◌, inl, inr, Bool-cases, any, List,
}
use myne.Base.Int.{pos, pos_part, neg_part, ◌-ℤ◌, ◌≤ℤ◌, ◌<ℤ◌, ltb_ℤ, leb_ℤ, +ℤ_parts, -ℤ_parts}
use myne.Schedule.{
  Times, ScheduleArgs, opened_at, current_round, preparation_starts_at, prepare_times, prepare_from,
  round_ids_to_prepare,
}
use myne.Schedule.Laws.{IsPlanned, opened_at-parts, current_round_open, mul_mono}

abbrev pub includes : List ℕ → ℕ → Bool
includes ids r = any (λ s. s == r) ids

-- The preparation of the round has started, and the round is not over.
abbrev pub IsDue : Times → ℕ → Type 0
IsDue t r = (preparation_starts_at t r ≤ℤ t.now) × (t.now <ℤ opened_at t (r + 1))

pub prepare_times-IsPlanned : (a : ScheduleArgs) (t : Times) → prepare_times a ≡ ok t → IsPlanned t
unfolding prepare_times
prepare_times-IsPlanned a t h = ground arith

module _ (t : Times) (v : IsPlanned t) where
  starts-parts :
      (r : ℕ)
      → pos_part (preparation_starts_at t r) + neg_part t.initialized_at + t.lead
        ≡ neg_part (preparation_starts_at t r)
          + pos_part t.initialized_at
          + r * t.round_duration
          + t.margin
  starts-parts r = omega (
    arith,
    opened_at-parts t r,
    -ℤ_parts (opened_at t r) (pos t.lead),
    +ℤ_parts (opened_at t r -ℤ pos t.lead) (pos t.margin),
  )

  opened_mono : (s r : ℕ) → s ≤ r → opened_at t s ≤ℤ opened_at t r
  opened_mono s r h =
      omega (arith, opened_at-parts t s, opened_at-parts t r, mul_mono s r t.round_duration h)

  starts_after : (r : ℕ) → opened_at t r <ℤ preparation_starts_at t (r + 1)
  starts_after r = grind (arith, v.lead_inside, starts-parts (r + 1), opened_at-parts t r)

  starts_before : (r : ℕ) → preparation_starts_at t r ≤ℤ opened_at t r
  starts_before r = omega (arith, v, starts-parts r, opened_at-parts t r)

  IsDue-current : t.initialized_at ≤ℤ t.now → IsDue t (current_round t)
  IsDue-current h =
      omega (arith, starts_before (current_round t), current_round_open t (omega (arith, v)) h)

  next-IsDue :
      t.initialized_at ≤ℤ t.now
      → preparation_starts_at t (current_round t + 1) ≤ℤ t.now
      → IsDue t (current_round t + 1)
  next-IsDue h due = (
    due,
    omega (
      arith,
      current_round_open t (omega (arith, v)) h,
      opened_mono (current_round t + 1) (current_round t + 1 + 1) (omega arith),
    ),
  )

  -- A round that is due is the current one or the next.
  due_only :
      (r : ℕ)
      → t.initialized_at ≤ℤ t.now
      → IsDue t r
      → (r ≡ current_round t) ⊎ (r ≡ current_round t + 1)
  due_only r h due =
      let (open_now, unopened) = current_round_open t (omega (arith, v)) h in
      elim (dec_lt r (current_round t)) [
        | yes past ↦ absurd (omega (arith, opened_mono (r + 1) (current_round t) (omega arith)))
        | no p ↦ elim (dec_lt (current_round t + 1) r) [
          | yes far ↦
              let earlier : r ≡ r - 1 + 1 = omega arith in
              absurd (
                omega (
                  arith,
                  subst (λ k. opened_at t (r - 1) <ℤ preparation_starts_at t k) (sym earlier)
                      (starts_after (r - 1)),
                  opened_mono (current_round t + 1) (r - 1) (omega arith),
                ))
          | no q ↦ omega arith
        ]
      ]

  both :
      (r : ℕ)
      → t.initialized_at ≤ℤ t.now
      → preparation_starts_at t (current_round t + 1) ≤ℤ t.now
      → (includes (current_round t ∷ (current_round t + 1) ∷ []) r ≡ true) ↔ IsDue t r
  both r h due =
      (λ e. ground (arith, IsDue-current h, next-IsDue h due), λ e. ground (arith, due_only r h e))

  one :
      (r : ℕ)
      → t.initialized_at ≤ℤ t.now
      → t.now <ℤ preparation_starts_at t (current_round t + 1)
      → (includes (current_round t ∷ []) r ≡ true) ↔ IsDue t r
  one r h early = (λ e. ground (arith, IsDue-current h), λ e. ground (arith, due_only r h e))

  -- The next round is prepared exactly when its preparation has started.
  prepare_from-IsDue :
      (r : ℕ) → t.initialized_at ≤ℤ t.now → (includes (prepare_from t) r ≡ true) ↔ IsDue t r
  unfolding prepare_from
  prepare_from-IsDue r h =
      let (open_now, unopened) = current_round_open t (omega (arith, v)) h in
      elim (Bool-cases (ltb_ℤ t.now t.initialized_at)) [
        | inl before ↦ absurd (omega (arith, ltb→lt _ _ before))
        | inr started ↦
            rw started
              (elim (Bool-cases (leb_ℤ (preparation_starts_at t (current_round t + 1)) t.now)) [
                | inl due ↦ rw due (both r h (leb→le _ _ due))
                | inr early ↦ rw early (one r h (leb-false _ _ early))
              ])
      ]

module _ (a : ScheduleArgs) (t : Times) (valid : prepare_times a ≡ ok t) where
  -- With arguments that pass the assertions, from the first opening on, the rounds to prepare are
  -- exactly those whose preparation has started and which are not over.
  pub round_ids_to_prepare-IsDue :
      t.initialized_at ≤ℤ t.now
      → (ids : List ℕ) × (round_ids_to_prepare a ≡ ok ids)
        × ((r : ℕ) → (includes ids r ≡ true) ↔ IsDue t r)
  unfolding round_ids_to_prepare
  round_ids_to_prepare-IsDue h =
      (prepare_from t, rw valid, λ r. prepare_from-IsDue t (prepare_times-IsPlanned a t valid) r h)
