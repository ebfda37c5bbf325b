-- ===== src/Archive.antt =====
-- Protocol/scripts/round-archive-policy.mjs: what is checked before a settled round is archived.
pub mod Proof
pub mod Audits
pub mod Bytes
pub mod Binding
use myne.Js.{bigint, text, Value, bigint_of, to_string, is_missing, is_nullish, parse_hex_32}
use myne.Js.Pattern.{is_hex_32, is_scientific}
use myne.Base.{
  some, not, str_eq, none, ◌&&◌, plain_error, ok, guard, ◌>>◌, ◌+◌, err, Option, ◌>>=◌, ◌==◌,
  if◌then◌else◌, String, ℕ, Result, Bool,
}
use myne.Base.Int.{pos}

-- The columns of a round that the fee audit reads.
pub record FeeColumns : Type 0 where
  pub total_fee_lamports : Value
  pub staking_gross_lamports : Value
  pub staking_admin_lamports : Value
  pub staking_net_lamports : Value
  pub buyback_lamports : Value
  pub motherlode_fee_lamports : Value
  pub mining_admin_lamports : Value
  pub admin_total_lamports : Value
  pub admin_fee_wallet : Value

pub record FeeAudit : Type 0 where
  pub total_fee_lamports : ℕ
  pub staking_gross_lamports : ℕ
  pub staking_admin_lamports : ℕ
  pub staking_net_lamports : ℕ
  pub buyback_lamports : ℕ
  pub motherlode_fee_lamports : ℕ
  pub mining_admin_lamports : ℕ
  pub admin_total_lamports : ℕ
  pub admin_fee_wallet : String

-- One field of the audit: present, an integer, not negative.
unfoldable pub fee_field : Value → Result ℕ
fee_field v =
    if is_missing v
    then err plain_error
    else elim (bigint_of v) [ ok (pos n) ↦ ok n | _ ↦ err plain_error ]

-- `textOrNull(value)`, refused where it is null or empty.
unfoldable pub some_text : Value → Result String
some_text v =
    if is_nullish v
    then err plain_error
    else if str_eq (to_string v) ""
    then err plain_error
    else ok (to_string v)

unfoldable pub conserves_fees : FeeAudit → Bool
conserves_fees f =
    f.staking_gross_lamports == f.staking_net_lamports + f.staking_admin_lamports
    && f.admin_total_lamports == f.mining_admin_lamports + f.staking_admin_lamports
    && f.total_fee_lamports
      == f.staking_net_lamports + f.staking_admin_lamports + f.buyback_lamports
        + f.motherlode_fee_lamports + f.mining_admin_lamports

unfoldable pub require_round_fee_audit : FeeColumns → Result FeeAudit
require_round_fee_audit c = do
  total ← fee_field c.total_fee_lamports
  staking_gross ← fee_field c.staking_gross_lamports
  staking_admin ← fee_field c.staking_admin_lamports
  staking_net ← fee_field c.staking_net_lamports
  buyback ← fee_field c.buyback_lamports
  motherlode ← fee_field c.motherlode_fee_lamports
  mining_admin ← fee_field c.mining_admin_lamports
  admin_total ← fee_field c.admin_total_lamports
  wallet ← some_text c.admin_fee_wallet
  let fees : FeeAudit = record {
    total_fee_lamports = total;
    staking_gross_lamports = staking_gross;
    staking_admin_lamports = staking_admin;
    staking_net_lamports = staking_net;
    buyback_lamports = buyback;
    motherlode_fee_lamports = motherlode;
    mining_admin_lamports = mining_admin;
    admin_total_lamports = admin_total;
    admin_fee_wallet = wallet;
  }
  guard (conserves_fees fees) plain_error
  ok fees

-- `double_text n` is `Number(n).toString()`: the shortest text of the double nearest to `n`.
module _ (double_text : ℕ → String) where
  unfoldable pub randomness_text : Value → Value → Result String
  randomness_text value (text hex) =
      let exact = to_string (bigint (pos (parse_hex_32 hex))) in
      let given = to_string value in
      if not (is_hex_32 hex)
      then err plain_error
      else if str_eq given exact
      then ok exact
      else if is_scientific given && str_eq given (double_text (parse_hex_32 hex))
      then ok exact
      else err plain_error
  randomness_text value _ = err plain_error

  unfoldable pub canonical_randomness_value : Value → Value → Result (Option String)
  canonical_randomness_value value randomness_hex =
      let absent : Result (Option String) =
        if is_missing randomness_hex then ok none else err plain_error in
      let given = randomness_text value randomness_hex >>= λ s. ok (some s) in
      if is_missing value then absent else given
