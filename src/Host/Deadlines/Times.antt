-- ===== src/Host/Deadlines/Times.antt =====
-- The order of a round's deadlines.
use myne.Js.Numbers.{safe_integer-number}
use myne.Base.{◌+◌, ℕ, ap, ◌∙◌, ok_injective, sym, subst, >>=-eq-ok, ◌≡◌, ◌*◌, ok, arith}
use myne.Base.Int.{
  +ℤ_parts, -ℤ_parts, ℤ, neg_part, pos, pos_part, ◌≤ℤ◌, ◌<ℤ◌, ◌+ℤ◌, ◌-ℤ◌, eq_of_parts,
}
use myne.Js.{number, safe_integer}
use myne.Schedule.{require_exact_settlement_window}
use myne.Host.Deadlines.{DeadlineArgs, Deadlines, deadlines_from, canonical_round_deadlines}

-- What the assertions leave of the arguments.
record Accepted (a : DeadlineArgs) (d : Deadlines) : Type 0 where
  round : ℤ
  initialized : ℤ
  duration : ℤ
  betting : ℤ
  margin : ℤ
  grace : ℤ
  late : ℤ
  round_safe : safe_integer a.round_id ≡ ok round
  initialized_safe : safe_integer a.initialized_at ≡ ok initialized
  duration_safe : safe_integer a.round_duration_seconds ≡ ok duration
  betting_safe : safe_integer a.betting_duration_seconds ≡ ok betting
  round_natural : pos 0 ≤ℤ round
  margin_natural : pos 0 ≤ℤ margin
  grace_positive : pos 0 <ℤ grace
  fits : margin +ℤ grace <ℤ betting
  betting_inside : betting <ℤ duration
  late_rest : late ≡ duration -ℤ betting
  result :
      d
      ≡ deadlines_from
          (initialized +ℤ pos (pos_part round * pos_part duration))
          betting
          margin
          grace
          late

accepted : (a : DeadlineArgs) (d : Deadlines) → canonical_round_deadlines a ≡ ok d → Accepted a d
unfolding canonical_round_deadlines require_exact_settlement_window
accepted a d h =
    let (round, r, h1) = >>=-eq-ok (safe_integer a.round_id) _ h in
    let (initialized, i, h2) = >>=-eq-ok (safe_integer a.initialized_at) _ h1 in
    let (duration, u, h3) = >>=-eq-ok (safe_integer a.round_duration_seconds) _ h2 in
    let (betting, b, h4) = >>=-eq-ok (safe_integer a.betting_duration_seconds) _ h3 in
    let (margin, m, h5) = >>=-eq-ok (safe_integer a.preparation_safety_margin_seconds) _ h4 in
    let (grace, g, h6) = >>=-eq-ok (safe_integer a.next_round_prebind_grace_seconds) _ h5 in
    let (late, l, h7) = >>=-eq-ok (safe_integer a.settlement_late_seconds) _ h6 in
    record {
      round = round;
      initialized = initialized;
      duration = duration;
      betting = betting;
      margin = margin;
      grace = grace;
      late = late;
      round_safe = r;
      initialized_safe = i;
      duration_safe = u;
      betting_safe = b;
      round_natural = ground arith;
      margin_natural = ground arith;
      grace_positive = ground arith;
      fits = ground arith;
      betting_inside = ground arith;
      late_rest = ground (arith, eq_of_parts late (duration -ℤ betting));
      result = ground arith;
    }

-- The parts of the computed deadlines, for the arithmetic below.
deadline_parts :
    (opened betting margin grace late : ℤ)
    → let d = deadlines_from opened betting margin grace late in
      (margin +ℤ grace <ℤ betting → d.prebind_at <ℤ d.prepare_at)
      × (pos 0 <ℤ grace → d.preparation_starts_at <ℤ d.prebind_at)
      × (pos 0 <ℤ betting → d.prepare_at <ℤ d.lock_at)
      × (pos 0 <ℤ late → d.settles_at <ℤ d.settle_at)
unfolding deadlines_from
deadline_parts opened betting margin grace late =
    let start = opened -ℤ betting in
    (
      λ h. omega (
        arith,
        h,
        +ℤ_parts margin grace,
        -ℤ_parts opened betting,
        +ℤ_parts start margin,
        +ℤ_parts (start +ℤ margin) grace,
      ),
      λ h. omega (arith, h, +ℤ_parts (start +ℤ margin) grace),
      λ h. omega (arith, h, +ℤ_parts opened betting),
      λ h. omega (arith, h, +ℤ_parts (opened +ℤ betting) late),
    )

-- The deadlines that are computed for a round are in order: the preparation starts, the prebind is
-- due, the round opens, the betting ends, and the settlement is due.
pub canonical_round_deadlines-ordered :
    (a : DeadlineArgs) (d : Deadlines)
    → canonical_round_deadlines a ≡ ok d
    → (d.preparation_starts_at <ℤ d.prebind_at)
      × (d.prebind_at <ℤ d.prepare_at)
      × (d.prepare_at <ℤ d.lock_at)
      × (d.settles_at <ℤ d.settle_at)
canonical_round_deadlines-ordered a d h =
    let v = accepted a d h in
    let (m1, m2, m3, m4) =
      deadline_parts (v.initialized +ℤ pos (pos_part v.round * pos_part v.duration)) v.betting
        v.margin v.grace v.late in
    subst
      (λ x.
        (x.preparation_starts_at <ℤ x.prebind_at)
        × (x.prebind_at <ℤ x.prepare_at)
        × (x.prepare_at <ℤ x.lock_at)
        × (x.settles_at <ℤ x.settle_at))
      (sym v.result)
      (
        m2 v.grace_positive,
        m1 v.fits,
        m3 (omega (arith, v.fits, v.margin_natural, v.grace_positive, +ℤ_parts v.margin v.grace)),
        m4 (rw v.late_rest (omega (arith, v.betting_inside, -ℤ_parts v.duration v.betting))),
      )

-- The same schedule, for another round.
unfoldable pub for_round : DeadlineArgs → ℤ → DeadlineArgs
for_round a r = record (a) { round_id = number r }

pos_part_succ : (r : ℤ) → pos 0 ≤ℤ r → pos_part (r +ℤ pos 1) ≡ pos_part r + 1
unfolding ◌+ℤ◌
pos_part_succ r h = ground arith

neg_part_zero : (z : ℤ) → pos 0 ≤ℤ z → neg_part z ≡ 0
neg_part_zero z h = ground arith

mul_succ : (n d : ℕ) → (n + 1) * d ≡ n * d + d
mul_succ n d = grind arith

-- A round and the rest after its betting fill the time to the next opening.
round_fills :
    (initialized r duration betting : ℤ)
    → pos 0 ≤ℤ r
    → pos 0 ≤ℤ duration
    → initialized +ℤ pos (pos_part r * pos_part duration) +ℤ betting +ℤ (duration -ℤ betting)
      ≡ initialized +ℤ pos (pos_part (r +ℤ pos 1) * pos_part duration)
round_fills initialized r duration betting h k =
    let opened = initialized +ℤ pos (pos_part r * pos_part duration) in
    let next = pos_part r + 1 in
    let one : pos_part (r +ℤ pos 1) ≡ next = pos_part_succ r h in
    rw one (
      eq_of_parts _ _ (
        omega (
          arith,
          neg_part_zero duration k,
          mul_succ (pos_part r) (pos_part duration),
          +ℤ_parts initialized (pos (pos_part r * pos_part duration)),
          +ℤ_parts opened betting,
          -ℤ_parts duration betting,
          +ℤ_parts (opened +ℤ betting) (duration -ℤ betting),
          +ℤ_parts initialized (pos (next * pos_part duration)),
        )))

module _ (a : DeadlineArgs) (r : ℤ) (d next : Deadlines)
    (this_round : canonical_round_deadlines (for_round a r) ≡ ok d)
    (next_round : canonical_round_deadlines (for_round a (r +ℤ pos 1)) ≡ ok next) where
  same_arguments :
      let v = accepted (for_round a r) d this_round in
      let w = accepted (for_round a (r +ℤ pos 1)) next next_round in
      (v.round ≡ r)
      × (w.round ≡ r +ℤ pos 1)
      × (v.initialized ≡ w.initialized)
      × (v.duration ≡ w.duration)
      × (v.betting ≡ w.betting)
  unfolding for_round
  same_arguments =
      let v = accepted (for_round a r) d this_round in
      let w = accepted (for_round a (r +ℤ pos 1)) next next_round in
      (
        safe_integer-number r v.round v.round_safe,
        safe_integer-number (r +ℤ pos 1) w.round w.round_safe,
        ok_injective (sym v.initialized_safe ∙ w.initialized_safe),
        ok_injective (sym v.duration_safe ∙ w.duration_safe),
        ok_injective (sym v.betting_safe ∙ w.betting_safe),
      )

  -- Of two rounds in a row whose deadlines are computed from the same settings, the first has to be
  -- settled at the moment that the second opens.
  pub settle_at_next_opening : d.settle_at ≡ next.prepare_at
  unfolding deadlines_from
  settle_at_next_opening =
      let v = accepted (for_round a r) d this_round in
      let w = accepted (for_round a (r +ℤ pos 1)) next next_round in
      let (vr, wr, i, u, b) = same_arguments in
      let left = ap (λ x. x.settle_at) v.result in
      let right = ap (λ x. x.prepare_at) w.result in
      left
      ∙ rw vr (
          rw v.late_rest (
            rw i (
              rw u (
                rw b (
                  round_fills w.initialized r w.duration w.betting
                    (subst (λ x. pos 0 ≤ℤ x) vr v.round_natural)
                    (omega (arith, w, +ℤ_parts w.margin w.grace))
                  ∙ rw (← wr) (sym right))))))
