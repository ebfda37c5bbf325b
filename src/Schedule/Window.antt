-- ===== src/Schedule/Window.antt =====
-- The result window of round-schedule-policy.mjs.
use myne.Base.{◌≡◌, ◌↔◌, arith, ok}
use myne.Base.Int.{eq_of_parts, ℤ, ◌-ℤ◌, ◌<ℤ◌}
use myne.Js.{safe_integer}
use myne.Schedule.{WindowArgs, require_exact_settlement_window}

module _ (a : WindowArgs) (round betting late : ℤ)
    (round_safe : safe_integer a.round_duration_seconds ≡ ok round)
    (betting_safe : safe_integer a.betting_duration_seconds ≡ ok betting)
    (late_safe : safe_integer a.settlement_late_seconds ≡ ok late) where
  -- Of three safe integers the window is accepted exactly when the round lasts longer than betting
  -- and the tolerated lateness is the rest of the round, and the result is that rest.
  pub require_exact_settlement_window_iff :
      (w : ℤ)
      → (require_exact_settlement_window a ≡ ok w)
        ↔ ((betting <ℤ round) × (late ≡ round -ℤ betting) × (w ≡ late))
  unfolding require_exact_settlement_window
  require_exact_settlement_window_iff w = ground (arith, eq_of_parts late (round -ℤ betting))
