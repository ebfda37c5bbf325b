-- ===== src/Schedule/Laws.antt =====
-- The facts about a schedule's times that its theorems share.
use myne.Base.{◌≡◌, ℕ, ◌+◌, ◌*◌, ◌/◌, ◌≤◌, ◌<◌, arith}
use native.Mathlib.Nat.{div-add-mod}
use myne.Base.Int.{
  pos, pos_part, ◌-ℤ◌, ◌≤ℤ◌, ◌<ℤ◌, int_laws, neg_part-sub, -ℤ_parts, +ℤ_parts, neg_part,
}
use myne.Schedule.{Times, opened_at, current_round}

-- What the assertions of a schedule leave.
pub record IsPlanned (t : Times) : Type 0 where
  pub lead_inside : t.lead < t.round_duration
  pub margin_inside : t.margin < t.lead

div_bounds : (e d : ℕ) → 0 < d → (e / d * d ≤ e) × (e < (e / d + 1) * d)
div_bounds e d h = grind (arith, div-add-mod e d)

-- The parts of a round's opening time.
pub opened_at-parts :
    (t : Times) (r : ℕ)
    → pos_part (opened_at t r) + neg_part t.initialized_at
      ≡ neg_part (opened_at t r) + pos_part t.initialized_at + r * t.round_duration
opened_at-parts t r = omega (arith, +ℤ_parts t.initialized_at (pos (r * t.round_duration)))

-- The current round has opened and the next has not.
pub current_round_open :
    (t : Times)
    → 0 < t.round_duration
    → t.initialized_at ≤ℤ t.now
    → (opened_at t (current_round t) ≤ℤ t.now) × (t.now <ℤ opened_at t (current_round t + 1))
current_round_open t d h =
    let e = pos_part (t.now -ℤ t.initialized_at) in
    let (low, high) = div_bounds e t.round_duration d in
    omega (
      int_laws,
      neg_part-sub t.now t.initialized_at h,
      -ℤ_parts t.now t.initialized_at,
      opened_at-parts t (current_round t),
      opened_at-parts t (current_round t + 1),
    )

-- Rounds open in the order of their ids.
pub mul_mono : (a b d : ℕ) → a ≤ b → a * d ≤ b * d
mul_mono a b d h = grind arith
