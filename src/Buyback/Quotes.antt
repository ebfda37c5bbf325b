-- ===== src/Buyback/Quotes.antt =====
-- The quotes that a buyback accepts.
use myne.Js.{to_string}
use myne.Buyback.{
  Quote, Expected, SwapInfo, is_text, token_amount, single_step, validate_direct_meteora_quote,
  native_sol_mint, meteora_dlmm_label, meteora_damm_v2_label,
}
use myne.Base.{
  ap, ◌∙◌, arith, ok_injective, eq_iff, >>=-eq-ok, str_eq, none, assertion, List, guard-eq-ok,
  Option, ◌⊎◌, [], ◌∷◌, some, true, ok, ◌≡◌, String,
}
use myne.Base.Int.{ltb_ℤ, ◌<ℤ◌, pos, ℤ}

single_step_inv :
    (plan : Option (List SwapInfo)) (step : SwapInfo)
    → single_step plan ≡ ok step
    → plan ≡ some (step ∷ [])
unfolding single_step
single_step_inv none step e = cc
single_step_inv (some []) step e = cc
single_step_inv (some (s ∷ [])) step e = cc
single_step_inv (some (s ∷ t ∷ rest)) step e = cc

-- A quote that is accepted sells native SOL for the expected mint, for the expected input and a
-- positive output, in one step through the registered pool under the expected label, within the
-- price impact; its result is that input and output.
pub validate_direct_meteora_quote-checked :
    (q : Quote) (x : Expected) (spent : String) (bought : ℤ)
    → validate_direct_meteora_quote q x ≡ ok (spent, bought)
    → (is_text q.input_mint native_sol_mint ≡ true)
      × (is_text q.output_mint x.output_mint ≡ true)
      × (spent ≡ to_string q.in_amount)
      × (token_amount q.out_amount ≡ ok bought)
      × (pos 0 <ℤ bought)
      × ((step : SwapInfo) × (q.route_plan ≡ some (step ∷ []))
          × (is_text step.amm_key x.pool_address ≡ true)
          × (is_text step.label x.expected_amm_label ≡ true))
      × ((x.expected_amm_label ≡ meteora_dlmm_label)
          ⊎ (x.expected_amm_label ≡ meteora_damm_v2_label))
      × (q.impact_within ≡ true)
unfolding validate_direct_meteora_quote
validate_direct_meteora_quote-checked q x spent bought e =
    let (a1, e1) = guard-eq-ok (is_text q.input_mint native_sol_mint) assertion _ e in
    let (a2, e2) = guard-eq-ok (is_text q.output_mint x.output_mint) assertion _ e1 in
    let (a3, e3) =
      guard-eq-ok (str_eq (to_string q.in_amount) (to_string x.input_lamports)) assertion _ e2 in
    let (out, a4, e4) = >>=-eq-ok (token_amount q.out_amount) _ e3 in
    let (a5, e5) = guard-eq-ok (ltb_ℤ (pos 0) out) assertion _ e4 in
    let (step, a6, e6) = >>=-eq-ok (single_step q.route_plan) _ e5 in
    let (a7, e7) = guard-eq-ok (is_text step.amm_key x.pool_address) assertion _ e6 in
    let (a8, e8) = guard-eq-ok _ assertion _ e7 in
    let (a9, e9) = guard-eq-ok (is_text step.label x.expected_amm_label) assertion _ e8 in
    let (a10, e10) = guard-eq-ok q.impact_within assertion _ e9 in
    let same = (eq_iff (to_string q.in_amount) (to_string x.input_lamports)).0 a3 in
    let result : (to_string x.input_lamports, out) ≡ (spent, bought) = ok_injective e10 in
    (
      a1,
      a2,
      ground arith,
      a4 ∙ ap (λ (t : String × ℤ). ok t.1) result,
      ground arith,
      (step, single_step_inv q.route_plan step a6, a7, a9),
      ground (
        arith,
        eq_iff x.expected_amm_label meteora_dlmm_label,
        eq_iff x.expected_amm_label meteora_damm_v2_label,
      ),
      a10,
    )
