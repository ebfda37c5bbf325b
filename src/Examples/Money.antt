-- ===== src/Examples/Money.antt =====
-- Plans, buybacks and claims at concrete inputs.
use myne.Js.{Value, number, text, null, boolean, to_string, truthy}
use myne.Base.Int.{pos, ◌<ℤ◌, ◌≤ℤ◌, ◌+ℤ◌}
use myne.AutoPlan.{
  Plan, Evaluation, ready, insufficient_plan_balance, as_amount, add_amounts, evaluate_auto_plan,
  max_auto_plan_funding_lamports,
}
use myne.Buyback.{
  calculate_spend, pending_swap_is_provably_expired, safe_or_none, Attempt, returned, Read,
  blockhash_error, retry_transient_blockhash_read, Quote, Expected, SwapInfo, token_amount,
  validate_direct_meteora_quote, is_text, native_sol_mint, meteora_dlmm_label,
  meteora_damm_v2_label,
}
use myne.Buyback.Spending.{calculate_spend_bounds}
use myne.Buyback.Retry.{retry_transient_blockhash_read-Tried, Tried}
use myne.Referral.{
  Registration, RegistrationRow, Claim, Routing, Fees, ClaimRow, is_some, myne_claim_projection,
  miner_registration_projection,
}
use myne.Referral.Claims.{myne_claim_projection-conserves}
use myne.Base.{
  none, [], ◌⊎◌, ◌∷◌, ◌==◌, ◌<◌, refl, false, arith, String, ◌≡◌, ◌+◌, true, suc, some,
  if◌then◌else◌, Option, ok, ℕ,
}

hundred : as_amount (number (pos 100)) ≡ ok 100
unfolding myne.AutoPlan.as_amount myne.Js.bigint_of myne.Js.codes myne.Js.non_negative
hundred = refl

twenty : as_amount (number (pos 20)) ≡ ok 20
unfolding myne.AutoPlan.as_amount myne.Js.bigint_of myne.Js.codes myne.Js.non_negative
twenty = refl

abbrev plan : Plan
plan = record {
  authority = "owner";
  active = boolean true;
  amounts = text "3" ∷ text "4" ∷ [];
  balance_lamports = text "100";
  last_round = text "6";
  next_nonce = text "2";
}

plan-ready :
    evaluate_auto_plan (some plan) "owner" (number (pos 7)) (number (pos 20))
    ≡ ok (ready 7 20 27 100 2)
unfolding myne.AutoPlan.add_amounts myne.AutoPlan.as_amount myne.AutoPlan.evaluate_active
    myne.AutoPlan.evaluate_auto_plan myne.AutoPlan.evaluate_balance myne.AutoPlan.evaluate_round
    myne.Js.bigint_of myne.Js.codes myne.Js.non_negative myne.Js.truthy
plan-ready = refl

plan-short :
    evaluate_auto_plan (some plan) "owner" (number (pos 7)) (number (pos 200))
    ≡ ok (insufficient_plan_balance 7 200 207 100 107)
unfolding myne.AutoPlan.add_amounts myne.AutoPlan.as_amount myne.AutoPlan.evaluate_active
    myne.AutoPlan.evaluate_auto_plan myne.AutoPlan.evaluate_balance myne.AutoPlan.evaluate_round
    myne.Js.bigint_of myne.Js.codes myne.Js.non_negative myne.Js.truthy
plan-short = refl

calculate_spend_bounds_example :
    let s = calculate_spend (pos 100) (pos 10) (pos 50) (pos 5) in
    (s.spend_lamports ≤ℤ pos 50)
    × (s.skipped ≡ false → (pos 5 ≤ℤ s.spend_lamports) × (s.spend_lamports +ℤ pos 10 ≤ℤ pos 100))
    × (s.skipped ≡ true → s.spend_lamports <ℤ pos 5)
calculate_spend_bounds_example =
    calculate_spend_bounds (pos 100) (pos 10) (pos 50) (pos 5) (omega arith)

-- The first attempt meets a blockhash error, the others return 5.
abbrev second_returns : ℕ → Attempt ℕ
second_returns attempt = if attempt == 1 then blockhash_error else returned 5

retry_transient_blockhash_read-Tried_example :
    (outcome : Read ℕ) × (made : ℕ) × (waited : ℕ) × (retry_transient_blockhash_read second_returns
        (number (pos (suc 2)))
      ≡ ok (outcome, made, waited))
    × Tried second_returns 1 (1 + suc 2) 0 outcome made waited
retry_transient_blockhash_read-Tried_example =
    retry_transient_blockhash_read-Tried second_returns 2 (omega arith)

abbrev step : SwapInfo
step = record { amm_key = text "pool"; label = text meteora_dlmm_label }

abbrev quote_ : Quote
quote_ = record {
  input_mint = text native_sol_mint;
  output_mint = text "myne";
  in_amount = text "50";
  out_amount = some "7";
  route_plan = some (step ∷ []);
  impact_within = true;
}

abbrev expected : Expected
expected = record {
  pool_address = "pool";
  input_lamports = number (pos 50);
  output_mint = "myne";
  expected_amm_label = meteora_dlmm_label;
}

quote_-valid : validate_direct_meteora_quote quote_ expected ≡ ok ("50", pos 7)
unfolding myne.Buyback.is_text myne.Buyback.single_step myne.Buyback.token_amount
    myne.Buyback.validate_direct_meteora_quote myne.Js.bigint_of myne.Js.codes myne.Js.to_string
quote_-valid = refl

-- An address is canonical when it is a text.
abbrev text_address : Value → Option String
text_address (text s) = some s
text_address _ = none

abbrev claim : Claim
claim = record {
  authority = text "miner";
  gross_base_units = text "100";
  net_base_units = text "90";
  fee_base_units = text "10";
  referral_base_units = text "3";
  admin_base_units = text "0";
}

abbrev routing : Routing
routing = record {
  claimant = text "miner";
  passive_base_units = text "7";
  referral_base_units = text "3";
  admin_base_units = text "0";
  referral_wallet = text "friend";
  admin_fee_wallet = text "admin";
}

abbrev claim_row : ClaimRow
claim_row = record {
  claim_signature = "s";
  claim_event_index = number (pos 0);
  routing_event_index = some (number (pos 1));
  routing_audited = true;
  claimant = "miner";
  referral_wallet = some "friend";
  admin_fee_wallet = some "admin";
  fees = record { gross = 100; net = 90; fee = 10; passive = 7; referral = 3; admin = 0 };
  claim_slot = number (pos 9);
}

claim-projected :
    myne_claim_projection text_address "default" claim
      (some routing)
      null
      (text "s")
      (number (pos 9))
      (number (pos 0))
      (number (pos 1))
    ≡ ok claim_row
unfolding myne.Js.bigint_of myne.Js.codes myne.Js.is_nullish myne.Js.non_negative myne.Js.to_string
    myne.Referral.audit_routing myne.Referral.canonical_referral_address myne.Referral.direct_wallet
    myne.Referral.first_of_both myne.Referral.myne_claim_projection
    myne.Referral.optional_non_default_address myne.Referral.read_fees myne.Referral.routing_wallets
    myne.Referral.same_referrer myne.Referral.u64
claim-projected = refl

myne_claim_projection-conserves_example :
    (claim_row.fees.gross
      ≡ claim_row.fees.net + claim_row.fees.passive + claim_row.fees.referral
        + claim_row.fees.admin)
    × (0 < claim_row.fees.referral → is_some claim_row.referral_wallet ≡ true)
    × (0 < claim_row.fees.admin → claim_row.referral_wallet ≡ none)
    × ((claim_row.fees.referral ≡ 0) ⊎ (claim_row.fees.admin ≡ 0))
myne_claim_projection-conserves_example =
    myne_claim_projection-conserves text_address "default" claim (some routing) null (text "s")
      (number (pos 9)) (number (pos 0)) (number (pos 1)) claim_row claim-projected

abbrev registration : Registration
registration = record { authority = text "miner"; referrer = text "friend" }

abbrev registration_row : RegistrationRow
registration_row = record {
  registration_signature = "s";
  registration_event_index = number (pos 0);
  authority = "miner";
  referrer = some "friend";
  registration_slot = number (pos 9);
}

registration-projected :
    miner_registration_projection text_address "default" registration
      (text "s")
      (number (pos 9))
      (number (pos 0))
    ≡ ok registration_row
unfolding myne.Js.is_nullish myne.Js.to_string myne.Referral.canonical_referral_address
    myne.Referral.is_address myne.Referral.miner_registration_projection
    myne.Referral.optional_non_default_address
registration-projected = refl
