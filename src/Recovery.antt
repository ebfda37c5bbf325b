-- ===== src/Recovery.antt =====
-- Protocol/scripts/receipt-recovery-policy.mjs: the scan that recovers a round's receipts and the
-- validation of what it returns. A public key is the text of its `toBase58`, or `none` where the
-- value is no key. The decoder of an account and the rule of its address are parameters.
pub mod Scan
pub mod Validated
use myne.Js.{Value, undefined, null, bigint_of, is_safe_int}
use myne.Base.{
  ℕ, ◌+◌, ◌^◌, ◌==◌, ltb, leb, zero, suc, String, str_eq, Bool, true, false, not, ◌&&◌, Option,
  none, some, List, [], ◌∷◌, length, Result, ok, err, Thrown, assertion, type_error, assert, ◌>>=◌,
  ◌>>◌, has, add,
}
use myne.Base.Int.{ℤ, pos, negsuc}

abbrev pub bet_receipt_account_size : ℕ
bet_receipt_account_size = 468

-- `BigInt(value?.toString?.() ?? value)`
unfoldable pub text_to_bigint : Value → Result ℤ
text_to_bigint undefined = err type_error
text_to_bigint null = err type_error
text_to_bigint v = bigint_of v

unfoldable pub fits_u64 : ℤ → Result ℕ
fits_u64 (pos n) = do assert (ltb n (2 ^ 64)); ok n
fits_u64 (negsuc n) = err assertion

unfoldable pub as_u64 : Value → Result ℕ
as_u64 v = text_to_bigint v >>= fits_u64

-- What the decoder reads from an account.
pub record ReceiptState : Type 0 where
  pub round_id : Value
  pub authority : Option String
  pub nonce : Value
  pub bump : ℕ

-- A row of the scan; its data, the bytes, are `none` where they are no byte array.
pub record Account : Type 0 where
  pub pubkey : Option String
  pub owner : Option String
  pub executable : Value
  pub bytes : Option (List ℕ)

pub record Recovered : Type 0 where
  pub receipt : String
  pub bettor : String

unfoldable pub public_key_string : Option String → Result String
public_key_string none = err assertion
public_key_string (some key) = ok key

-- `executable === false`
unfoldable pub is_false : Value → Bool
is_false (Value.boolean b) = not b
is_false _ = false

unfoldable pub bytes_of : Option (List ℕ) → Result (List ℕ)
bytes_of none = err assertion
bytes_of (some bytes) = ok bytes

module _ (decode : List ℕ → Result ReceiptState)
    (derive : Option String → Value → Result (Option String × ℕ)) where
  unfoldable pub validate_account : ℕ → String → List String → Account → Result Recovered
  validate_account round owner seen a = do
    receipt ← public_key_string a.pubkey
    assert (not (has seen receipt))
    account_owner ← public_key_string a.owner
    assert (str_eq account_owner owner)
    assert (is_false a.executable)
    bytes ← bytes_of a.bytes
    assert (length bytes == bet_receipt_account_size)
    state ← decode bytes
    state_round ← as_u64 state.round_id
    assert (state_round == round)
    bettor ← public_key_string state.authority
    (canonical, bump) ← derive state.authority state.nonce
    address ← public_key_string canonical
    assert (str_eq address receipt)
    assert (state.bump == bump)
    ok (record { receipt = receipt; bettor = bettor })

  unfoldable pub validate_accounts :
      ℕ → String → List String → List Account → Result (List Recovered)
  validate_accounts round owner seen [] = ok []
  validate_accounts round owner seen (a ∷ others) = do
    one ← validate_account round owner seen a
    rest ← validate_accounts round owner (add seen one.receipt) others
    ok (one ∷ rest)

  unfoldable pub validate_recovered_receipt_accounts :
      List Account → Value → Value → Option String → Result (List Recovered)
  validate_recovered_receipt_accounts accounts expected_live_count round_id program_id = do
    expected ← as_u64 expected_live_count
    assert (ltb expected (2 ^ 53))
    assert (length accounts == expected)
    round ← as_u64 round_id
    owner ← public_key_string program_id
    validate_accounts round owner [] accounts
