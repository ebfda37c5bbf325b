-- ===== src/Buyback/Retry.antt =====
-- The bounded retry of a blockhash read.
use myne.Buyback.{
  safe_integer, retry_transient_blockhash_read, retry_from, Attempt, Read, read, exhausted,
  failed_at_once, returned, blockhash_error, other_error,
}
use myne.Base.{
  ok, ap, zero, ◌-◌, refl, inr, inl, ◌⊎◌, subst, dec_lt, arith, ◌≡◌, ◌≤◌, ◌+◌, ◌<◌, suc, ℕ,
}
use myne.Js.{is_safe_int, safe_integer, number}
use myne.Base.Int.{pos}

-- The outcome of attempts `first` to `last`: the last one made decides, and all before it met a
-- blockhash error.
pub record Tried {A : Type 0} (tries : ℕ → Attempt A) (first bound : ℕ) (waits : ℕ)
    (outcome : Read A) (made : ℕ) (waited : ℕ) : Type 0 where
  pub within : made < bound
  pub earlier : (k : ℕ) → first ≤ k → k < made → tries k ≡ blockhash_error
  pub on_read : (a : A) → outcome ≡ read a → tries made ≡ returned a
  pub on_failure : outcome ≡ failed_at_once → tries made ≡ other_error
  pub on_exhausted : outcome ≡ exhausted → (suc made ≡ bound) × (tries made ≡ blockhash_error)
  pub waits_between : waited + first ≡ waits + made

module _ {A : Type 0} (tries : ℕ → Attempt A) where
  one_returned :
      (attempt waits left : ℕ) (a : A)
      → tries attempt ≡ returned a
      → Tried tries attempt (attempt + suc left) waits (read a) attempt waits
  one_returned attempt waits left a e = record {
    within = omega arith;
    earlier = λ k lo hi. absurd (omega arith);
    on_read = λ b same. ground arith;
    on_failure = λ same. cc;
    on_exhausted = λ same. cc;
    waits_between = omega arith;
  }

  one_failed :
      (attempt waits left : ℕ)
      → tries attempt ≡ other_error
      → Tried tries attempt (attempt + suc left) waits failed_at_once attempt waits
  one_failed attempt waits left e = record {
    within = omega arith;
    earlier = λ k lo hi. absurd (omega arith);
    on_read = λ b same. cc;
    on_failure = λ same. e;
    on_exhausted = λ same. cc;
    waits_between = omega arith;
  }

  last_exhausted :
      (attempt waits : ℕ)
      → tries attempt ≡ blockhash_error
      → Tried tries attempt (attempt + 1) waits exhausted attempt waits
  last_exhausted attempt waits e = record {
    within = omega arith;
    earlier = λ k lo hi. absurd (omega arith);
    on_read = λ b same. cc;
    on_failure = λ same. cc;
    on_exhausted = λ same. (omega arith, e);
    waits_between = omega arith;
  }

  again :
      (attempt waits bound : ℕ) (outcome : Read A) (made waited : ℕ)
      → tries attempt ≡ blockhash_error
      → Tried tries (attempt + 1) bound (waits + 1) outcome made waited
      → attempt < bound
      → attempt < made
      → Tried tries attempt bound waits outcome made waited
  again attempt waits bound outcome made waited e t lt lt' = record {
    within = t.within;
    earlier = λ k lo hi. elim (dec_lt attempt k) [
      | yes later ↦ t.earlier k (omega arith) hi
      | no same ↦
          let here : attempt ≡ k = omega arith in subst (λ j. tries j ≡ blockhash_error) here e
    ];
    on_read = t.on_read;
    on_failure = t.on_failure;
    on_exhausted = t.on_exhausted;
    waits_between = omega (arith, t.waits_between);
  }

  Attempt-cases :
      (t : Attempt A) → ((a : A) × (t ≡ returned a)) ⊎ ((t ≡ blockhash_error) ⊎ (t ≡ other_error))
  Attempt-cases (returned a) = inl (a, refl)
  Attempt-cases blockhash_error = inr (inl refl)
  Attempt-cases other_error = inr (inr refl)

  abbrev Outcome : ℕ → ℕ → ℕ → Read A × ℕ × ℕ → Type 0
  Outcome attempt bound waits (outcome, made, waited) =
      Tried tries attempt bound waits outcome made waited × (attempt ≤ made)

  retry_step :
      (attempt waits left : ℕ)
      → tries attempt ≡ blockhash_error
      → retry_from tries attempt waits (suc (suc left))
        ≡ retry_from tries (attempt + 1) (waits + 1) (suc left)
  unfolding retry_from
  retry_step attempt waits left e =
      rw (e, retry_from) (ap (λ w. retry_from tries (attempt + 1) w (suc left)) (ground arith))

  retry_from-Outcome :
      (attempt waits left : ℕ)
      → Outcome attempt (attempt + suc left) waits (retry_from tries attempt waits (suc left))
  unfolding retry_from
  retry_from-Outcome attempt waits zero = elim (Attempt-cases (tries attempt)) [
    | inl (a, e) ↦ rw (e, retry_from) (one_returned attempt waits zero a e, omega arith)
    | inr (inr e) ↦ rw (e, retry_from) (one_failed attempt waits zero e, omega arith)
    | inr (inl e) ↦
        let back : attempt + 1 - 1 ≡ attempt = omega arith in
        rw (e, retry_from, back) (last_exhausted attempt waits e, omega arith)
  ]
  retry_from-Outcome attempt waits (suc left) = elim (Attempt-cases (tries attempt)) [
    | inl (a, e) ↦ rw (e, retry_from) (one_returned attempt waits (suc left) a e, omega arith)
    | inr (inr e) ↦ rw (e, retry_from) (one_failed attempt waits (suc left) e, omega arith)
    | inr (inl e) ↦
        let (t, later) = retry_from-Outcome (attempt + 1) (waits + 1) left in
        let bound : attempt + 1 + suc left ≡ attempt + suc (suc left) = omega arith in
        rw (retry_step attempt waits left e)
          (again attempt waits _ _ _ _ e (rw bound at t) (omega arith) (omega arith), omega arith)
  ]

  -- With a number of attempts from 1 to 10 the read makes at most that many. Its value is that of
  -- the last attempt, or its error; all attempts before met a blockhash error; it gives up only
  -- after the last attempt; and between two attempts it waits once.
  pub retry_transient_blockhash_read-Tried :
      (n : ℕ)
      → n < 10
      → (outcome : Read A) × (made : ℕ) × (waited : ℕ) × (retry_transient_blockhash_read tries
            (number (pos (suc n)))
          ≡ ok (outcome, made, waited))
        × Tried tries 1 (1 + suc n) 0 outcome made waited
  unfolding retry_transient_blockhash_read safe_integer is_safe_int
  retry_transient_blockhash_read-Tried n h =
      let r = retry_from tries 1 0 (suc n) in
      let (t, _) = retry_from-Outcome 1 0 n in (r.0, r.1, r.2, ground arith, t)
