-- ===== src/Host/Deadlines.antt =====
-- `canonicalRoundDeadlines` of production-worker-host.mjs: the times at which a round has to be
-- prepared, bound, locked and settled.
pub mod Times
use myne.Schedule.{WindowArgs, require_exact_settlement_window}
use myne.Js.{Value, safe_integer, non_negative}
use myne.Base.{◌*◌, ok, ◌&&◌, assert, ◌>>◌, ◌>>=◌, Result, ℕ}
use myne.Base.Int.{pos_part, ltb_ℤ, pos, leb_ℤ, ◌+ℤ◌, ◌-ℤ◌, ℤ}

pub record DeadlineArgs : Type 0 where
  pub round_id : Value
  pub initialized_at : Value
  pub round_duration_seconds : Value
  pub betting_duration_seconds : Value
  pub preparation_safety_margin_seconds : Value
  pub next_round_prebind_grace_seconds : Value
  pub settlement_late_seconds : Value

pub record Deadlines : Type 0 where
  pub preparation_starts_at : ℤ
  pub prebind_at : ℤ
  pub prepare_at : ℤ
  pub betting_ends_at : ℤ
  pub lock_at : ℤ
  pub settles_at : ℤ
  pub settle_at : ℤ

-- The deadlines of a round that opens at `opened`.
unfoldable pub deadlines_from : (opened betting margin grace late : ℤ) → Deadlines
deadlines_from opened betting margin grace late = record {
  preparation_starts_at = opened -ℤ betting +ℤ margin;
  prebind_at = opened -ℤ betting +ℤ margin +ℤ grace;
  prepare_at = opened;
  betting_ends_at = opened +ℤ betting;
  lock_at = opened +ℤ betting;
  settles_at = opened +ℤ betting;
  settle_at = opened +ℤ betting +ℤ late;
}

-- A round lasts a positive time when the settlement window is accepted.
unfoldable pub canonical_round_deadlines : DeadlineArgs → Result Deadlines
canonical_round_deadlines a = do
  round_id ← safe_integer a.round_id
  initialized_at ← safe_integer a.initialized_at
  duration ← safe_integer a.round_duration_seconds
  betting ← safe_integer a.betting_duration_seconds
  margin ← safe_integer a.preparation_safety_margin_seconds
  grace ← safe_integer a.next_round_prebind_grace_seconds
  late ← safe_integer a.settlement_late_seconds
  assert (leb_ℤ (pos 0) round_id)
  window ← require_exact_settlement_window (record {
    round_duration_seconds = a.round_duration_seconds;
    betting_duration_seconds = a.betting_duration_seconds;
    settlement_late_seconds = a.settlement_late_seconds;
  })
  assert (leb_ℤ (pos 0) margin && ltb_ℤ (pos 0) grace && ltb_ℤ (margin +ℤ grace) betting)
  assert (ltb_ℤ (pos 0) late)
  ok (
      deadlines_from (initialized_at +ℤ pos (pos_part round_id * pos_part duration)) betting margin
        grace late)
