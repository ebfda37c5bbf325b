-- ===== src/Referral/Claims.antt =====
-- The fee legs and the wallet of a claim's row.
use myne.Js.{Value}
use myne.Referral.{
  Claim, Routing, Fees, ClaimRow, read_fees, direct_wallet, same_referrer, first_of_both,
  myne_claim_projection, is_some, has_routing, routing_wallets, canonical_referral_address,
  optional_non_default_address, Registration, RegistrationRow, miner_registration_projection,
  is_address,
}
use myne.Base.{
  sym, ◌∙◌, ok_injective, assertion, guard-eq-ok, ap, not, eq_iff, >>=-eq-ok, ◌⊎◌, none, true, some,
  arith, ◌≢◌, ◌<◌, ◌+◌, ok, String, ◌≡◌, Option, Bool,
}

read_fees_conserve :
    (c : Claim) (f : Fees)
    → read_fees c ≡ ok f
    → (f.gross ≡ f.net + f.passive + f.referral + f.admin)
      × (f.fee ≡ f.passive + f.referral + f.admin)
unfolding read_fees
read_fees_conserve c f e = ground arith

direct_wallet_rules :
    (f : Fees) (routed : Bool) (registered emitted wallet : Option String)
    → direct_wallet f routed registered emitted ≡ ok wallet
    → (0 < f.referral → is_some wallet ≡ true)
      × (0 < f.admin → wallet ≡ none)
      × ((r : String) → registered ≡ some r → wallet ≡ some r)
unfolding direct_wallet same_referrer first_of_both
direct_wallet_rules f routed none none wallet e = ground arith
direct_wallet_rules f routed none (some b) wallet e = ground arith
direct_wallet_rules f routed (some a) none wallet e = ground arith
direct_wallet_rules f routed (some a) (some b) wallet e = ground (arith, eq_iff b a)

not_own :
    (referrer : Option String) (authority : String)
    → not (is_address referrer authority) ≡ true
    → referrer ≡ some authority
    → ⊥
unfolding is_address
not_own none authority h e = cc
not_own (some r) authority h e = ground (arith, eq_iff r authority)

legs :
    (f : Fees) (wallet : Option String) (row : ClaimRow)
    → f ≡ row.fees
    → wallet ≡ row.referral_wallet
    → f.gross ≡ f.net + f.passive + f.referral + f.admin
    → (0 < f.referral → is_some wallet ≡ true)
    → (0 < f.admin → wallet ≡ none)
    → (row.fees.gross ≡ row.fees.net + row.fees.passive + row.fees.referral + row.fees.admin)
      × (0 < row.fees.referral → is_some row.referral_wallet ≡ true)
      × (0 < row.fees.admin → row.referral_wallet ≡ none)
      × ((row.fees.referral ≡ 0) ⊎ (row.fees.admin ≡ 0))
legs f none row ef ew sum a b = rw (← ef, ← ew) (sum, a, b, ground arith)
legs f (some w) row ef ew sum a b = rw (← ef, ← ew) (sum, a, b, ground arith)

module _ (canonical : Value → Option String) (default_address : String) where
  -- In the row of a claim the gross amount is the net amount and the three fee legs. A positive
  -- referral leg has a wallet, and a positive admin leg has no referrer beside it, so at most one
  -- of the two legs is positive.
  pub myne_claim_projection-conserves :
      (c : Claim) (routing : Option Routing) (mapped signature slot index routing_at : Value)
      (row : ClaimRow)
      → myne_claim_projection canonical default_address c routing mapped signature slot index
          routing_at
        ≡ ok row
      → (row.fees.gross ≡ row.fees.net + row.fees.passive + row.fees.referral + row.fees.admin)
        × (0 < row.fees.referral → is_some row.referral_wallet ≡ true)
        × (0 < row.fees.admin → row.referral_wallet ≡ none)
        × ((row.fees.referral ≡ 0) ⊎ (row.fees.admin ≡ 0))
  unfolding myne_claim_projection
  myne_claim_projection-conserves c routing mapped signature slot index routing_at row e =
      let (claimant, e1, r1) =
        >>=-eq-ok (canonical_referral_address canonical default_address c.authority) _ e in
      let (fees, e2, r2) = >>=-eq-ok (read_fees c) _ r1 in
      let (registered, e3, r3) =
        >>=-eq-ok (optional_non_default_address canonical default_address mapped) _ r2 in
      let ((emitted, admin_wallet), e4, r4) =
        >>=-eq-ok (routing_wallets canonical default_address fees claimant routing) _ r3 in
      let (wallet, e5, r5) =
        >>=-eq-ok (direct_wallet fees (has_routing routing) registered emitted) _ r4 in
      let same_fees : fees ≡ row.fees = ap (λ (o : ClaimRow). o.fees) (ok_injective r5) in
      let same_wallet : wallet ≡ row.referral_wallet =
        ap (λ (o : ClaimRow). o.referral_wallet) (ok_injective r5) in
      let rules = direct_wallet_rules fees (has_routing routing) registered emitted wallet e5 in
      legs fees wallet row same_fees same_wallet (read_fees_conserve c fees e2).0 rules.0 rules.1

  -- A registration's row never names the miner as its own referrer.
  pub miner_registration_projection-not_self :
      (d : Registration) (signature slot index : Value) (row : RegistrationRow)
      → miner_registration_projection canonical default_address d signature slot index ≡ ok row
      → row.referrer ≢ some row.authority
  unfolding miner_registration_projection is_address
  miner_registration_projection-not_self d signature slot index row e same =
      let (authority, e1, r1) =
        >>=-eq-ok (canonical_referral_address canonical default_address d.authority) _ e in
      let (referrer, e2, r2) =
        >>=-eq-ok (optional_non_default_address canonical default_address d.referrer) _ r1 in
      let (other, r3) = guard-eq-ok (not (is_address referrer authority)) assertion _ r2 in
      let same_row = ok_injective r3 in
      let a : authority ≡ row.authority = ap (λ (o : RegistrationRow). o.authority) same_row in
      let b : referrer ≡ row.referrer = ap (λ (o : RegistrationRow). o.referrer) same_row in
      not_own referrer authority other (b ∙ same ∙ ap some (sym a))
