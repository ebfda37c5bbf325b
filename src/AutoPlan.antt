-- ===== src/AutoPlan.antt =====
-- Protocol/scripts/auto-plan-policy.mjs: how much a plan may be funded with, and whether the keeper
-- may execute it this round. `asBigInt` throws an error where the value is no integer and fails an
-- assertion where it is negative; an address is a text.
pub mod Funding
use myne.Js.{Value, bigint_of, non_negative, truthy}
use myne.Base.{
  ◌/◌, none, ◌*◌, str_eq, ltb, ◌==◌, ◌-◌, not, leb, assertion, [], ◌∷◌, ◌+◌, some, plain_error,
  if◌then◌else◌, false, ◌>>=◌, true, ok, err, List, ℕ, String, Result, Option, Bool,
}

-- `asBigInt(value, label)`
unfoldable pub as_amount : Value → Result ℕ
as_amount v = elim (bigint_of v) [ err e ↦ err plain_error | ok z ↦ non_negative assertion z ]

unfoldable pub max_auto_plan_funding_lamports : Value → Value → Result ℕ
max_auto_plan_funding_lamports wallet_balance_lamports fee_reserve_lamports = do
  balance ← as_amount wallet_balance_lamports
  reserve ← as_amount fee_reserve_lamports
  ok (if leb balance reserve then 0 else (balance - reserve) * 9000 / 10000)

pub record Plan : Type 0 where
  pub authority : String
  pub active : Value
  pub amounts : List Value
  pub balance_lamports : Value
  pub last_round : Value
  pub next_nonce : Value

-- The evaluation: its reason, with the amounts that the source reports beside it.
pub data Evaluation : Type 0 where
  plan_account_missing authority_mismatch inactive : Evaluation
  zero_per_round_amount : Evaluation
  insufficient_plan_balance : (per_round rent required tracked shortfall : ℕ) → Evaluation
  already_executed_this_round : (per_round required tracked : ℕ) → Evaluation
  ready : (per_round rent required tracked next_nonce : ℕ) → Evaluation

-- `amounts.reduce((sum, amount) => sum + asBigInt(amount), 0n)`
unfoldable pub add_amounts : ℕ → List Value → Result ℕ
add_amounts total [] = ok total
add_amounts total (v ∷ vs) = as_amount v >>= λ amount. add_amounts (total + amount) vs

unfoldable pub evaluate_round : Plan → Value → ℕ → ℕ → ℕ → Result Evaluation
evaluate_round plan round_id per_round rent tracked = do
  last ← as_amount plan.last_round
  current ← as_amount round_id
  let again = ok (already_executed_this_round per_round (per_round + rent) tracked)
  let run = do
    nonce ← as_amount plan.next_nonce
    ok (ready per_round rent (per_round + rent) tracked nonce)
  if last == current then again else run

unfoldable pub evaluate_balance : Plan → Value → Value → ℕ → Result Evaluation
evaluate_balance plan round_id receipt_rent per_round = do
  tracked ← as_amount plan.balance_lamports
  rent ← as_amount receipt_rent
  let short = ok (
      insufficient_plan_balance per_round rent (per_round + rent) tracked
        (per_round + rent - tracked))
  let funded = evaluate_round plan round_id per_round rent tracked
  if ltb tracked (per_round + rent) then short else funded

unfoldable pub evaluate_active : Plan → Value → Value → Result Evaluation
evaluate_active plan round_id receipt_rent = do
  per_round ← add_amounts 0 plan.amounts
  let positive = evaluate_balance plan round_id receipt_rent per_round
  if per_round == 0 then ok zero_per_round_amount else positive

unfoldable pub evaluate_auto_plan : Option Plan → String → Value → Value → Result Evaluation
evaluate_auto_plan none authority round_id receipt_rent = ok plan_account_missing
evaluate_auto_plan (some plan) authority round_id receipt_rent =
    if not (str_eq plan.authority authority)
    then ok authority_mismatch
    else if not (truthy plan.active)
    then ok inactive
    else evaluate_active plan round_id receipt_rent

-- `executable`
unfoldable pub executable : Evaluation → Bool
executable (ready per_round rent required tracked next_nonce) = true
executable _ = false
