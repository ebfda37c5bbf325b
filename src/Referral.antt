-- ===== src/Referral.antt =====
-- Protocol/scripts/referral-index-policy.mjs: the read-model rows of a registration and of a claim.
-- Parsing a public key is the library's: `canonical` is its answer, the base-58 text or none, and
-- the default key is a parameter too.
pub mod Claims
use myne.Js.{Value, to_string, bigint_of, is_nullish, non_negative}
use myne.Base.{
  ◌-◌, ◌&&◌, ◌||◌, ◌^◌, leb, ◌+◌, plain_error, ltb, assertion, ◌==◌, not, err, true, str_eq, none,
  if◌then◌else◌, assert, ◌>>◌, ◌>>=◌, some, ok, false, ℕ, String, Result, Option, Bool,
}
use myne.Base.Int.{pos}

-- `u64(value, label)`: an absent value reads as 0.
unfoldable pub u64 : Value → Result ℕ
u64 v = do
  z ← if is_nullish v then ok (pos 0) else bigint_of v
  n ← non_negative assertion z
  assert (ltb n (2 ^ 64))
  ok n

pub record Registration : Type 0 where
  pub authority : Value
  pub referrer : Value

pub record RegistrationRow : Type 0 where
  pub registration_signature : String
  pub registration_event_index : Value
  pub authority : String
  pub referrer : Option String
  pub registration_slot : Value

pub record Claim : Type 0 where
  pub authority : Value
  pub gross_base_units : Value
  pub net_base_units : Value
  pub fee_base_units : Value
  pub referral_base_units : Value
  pub admin_base_units : Value

pub record Routing : Type 0 where
  pub claimant : Value
  pub passive_base_units : Value
  pub referral_base_units : Value
  pub admin_base_units : Value
  pub referral_wallet : Value
  pub admin_fee_wallet : Value

-- The amounts of a claim, as the row shows them.
pub record Fees : Type 0 where
  pub gross : ℕ
  pub net : ℕ
  pub fee : ℕ
  pub passive : ℕ
  pub referral : ℕ
  pub admin : ℕ

pub record ClaimRow : Type 0 where
  pub claim_signature : String
  pub claim_event_index : Value
  pub routing_event_index : Option Value
  pub routing_audited : Bool
  pub claimant : String
  pub referral_wallet : Option String
  pub admin_fee_wallet : Option String
  pub fees : Fees
  pub claim_slot : Value

unfoldable pub read_fees : Claim → Result Fees
read_fees c = do
  gross ← u64 c.gross_base_units
  net ← u64 c.net_base_units
  fee ← u64 c.fee_base_units
  referral ← u64 c.referral_base_units
  admin ← u64 c.admin_base_units
  assert (gross == net + fee)
  assert (leb (referral + admin) fee)
  ok (record {
    gross = gross;
    net = net;
    fee = fee;
    passive = fee - referral - admin;
    referral = referral;
    admin = admin;
  })

abbrev pub is_some : Option String → Bool
is_some none = false
is_some (some s) = true

abbrev pub has_routing : Option Routing → Bool
has_routing none = false
has_routing (some r) = true

abbrev pub routing_index : Option Routing → Value → Option Value
routing_index none v = none
routing_index (some r) v = some v

-- Two referrers that are both known are the same.
unfoldable pub same_referrer : Option String → Option String → Bool
same_referrer (some registered) (some emitted) = str_eq emitted registered
same_referrer _ _ = true

-- `emittedReferrer ?? registeredReferrer`
unfoldable pub first_of_both : Option String → Option String → Option String
first_of_both (some emitted) registered = some emitted
first_of_both none registered = registered

-- The checks on the wallet that the direct fee goes to.
unfoldable pub direct_wallet : Fees → Bool → Option String → Option String → Result (Option String)
direct_wallet f routed registered emitted = do
  assert (same_referrer registered emitted)
  let wallet = first_of_both emitted registered
  assert (not (ltb 0 f.referral) || is_some wallet)
  assert (not (ltb 0 f.referral) || not routed || is_some emitted)
  assert (not (ltb 0 f.admin && is_some wallet))
  ok wallet

unfoldable pub is_address : Option String → String → Bool
is_address none a = false
is_address (some b) a = str_eq b a

module _ (canonical : Value → Option String) (default_address : String) where
  unfoldable pub canonical_referral_address : Value → Result String
  canonical_referral_address v = elim (canonical v) [ none ↦ err plain_error | some a ↦ ok a ]

  unfoldable pub optional_non_default_address : Value → Result (Option String)
  optional_non_default_address v =
      let parsed = canonical_referral_address v >>= λ a.
      ok (if str_eq a default_address then none else some a) in
      if is_nullish v then ok none else parsed

  unfoldable pub miner_registration_projection :
      Registration → Value → Value → Value → Result RegistrationRow
  miner_registration_projection d signature slot event_index = do
    authority ← canonical_referral_address d.authority
    referrer ← optional_non_default_address d.referrer
    assert (not (is_address referrer authority))
    ok (record {
      registration_signature = to_string signature;
      registration_event_index = event_index;
      authority = authority;
      referrer = referrer;
      registration_slot = slot;
    })

  -- The companion event repeats the claimant and the fee legs; its wallets.
  unfoldable pub audit_routing : Fees → String → Routing → Result (Option String × String)
  audit_routing f claimant r = do
    routed ← canonical_referral_address r.claimant
    assert (str_eq routed claimant)
    passive ← u64 r.passive_base_units
    assert (passive == f.passive)
    referral ← u64 r.referral_base_units
    assert (referral == f.referral)
    admin ← u64 r.admin_base_units
    assert (admin == f.admin)
    emitted ← optional_non_default_address r.referral_wallet
    admin_wallet ← canonical_referral_address r.admin_fee_wallet
    ok (emitted, admin_wallet)

  unfoldable pub routing_wallets :
      Fees → String → Option Routing → Result (Option String × Option String)
  routing_wallets f claimant none = ok (none, none)
  routing_wallets f claimant (some r) = do
    (emitted, admin_wallet) ← audit_routing f claimant r
    ok (emitted, some admin_wallet)

  unfoldable pub myne_claim_projection :
      Claim → Option Routing → Value → Value → Value → Value → Value → Result ClaimRow
  myne_claim_projection c routing mapped_referrer signature slot event_index routing_event_index =
      do
        claimant ← canonical_referral_address c.authority
        fees ← read_fees c
        registered ← optional_non_default_address mapped_referrer
        (emitted, admin_wallet) ← routing_wallets fees claimant routing
        wallet ← direct_wallet fees (has_routing routing) registered emitted
        ok (record {
          claim_signature = to_string signature;
          claim_event_index = event_index;
          routing_event_index = routing_index routing routing_event_index;
          routing_audited = has_routing routing;
          claimant = claimant;
          referral_wallet = wallet;
          admin_fee_wallet = admin_wallet;
          fees = fees;
          claim_slot = slot;
        })
