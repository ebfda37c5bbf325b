-- ===== src/Recovery/Scan.antt =====
-- `exactReceiptRecoveryScanOptions`: the bounded scan, with the round id in base 58.
pub mod Base58
use myne.Js.{Value, codes}
use myne.Base.{
  ℕ, zero, suc, ◌+◌, ◌*◌, ◌/◌, ◌%◌, ◌^◌, ◌==◌, ltb, leb, Bool, true, false, List, [], ◌∷◌, ◌++◌,
  map, get_or, Result, ok, assert, ◌>>=◌, ◌>>◌, if◌then◌else◌,
}
use myne.Recovery.{as_u64, bet_receipt_account_size}

abbrev pub bet_receipt_round_id_offset : ℕ
bet_receipt_round_id_offset = 9

-- `value << 8 | byte` over the bytes, the first the highest.
unfoldable pub big_endian : ℕ → List ℕ → ℕ
big_endian value [] = value
big_endian value (byte ∷ bytes) = big_endian (value * 256 + byte) bytes

-- The digits of a value, put before `encoded`: on fuel for that many digits.
unfoldable pub digits_58 : ℕ → ℕ → List ℕ → List ℕ
digits_58 zero value encoded = encoded
digits_58 (suc fuel) value encoded =
    let rest = digits_58 fuel (value / 58) ((value % 58) ∷ encoded) in
    if value == 0 then encoded else rest

-- A zero digit for each zero byte at the front.
unfoldable pub leading_zeroes : List ℕ → List ℕ
leading_zeroes [] = []
leading_zeroes (byte ∷ bytes) =
    let rest = leading_zeroes bytes in if byte == 0 then 0 ∷ rest else []

-- Twice as many digits as bytes are enough, since 58 * 58 is more than 256.
unfoldable pub fuel_for : List ℕ → ℕ
fuel_for [] = 0
fuel_for (byte ∷ bytes) = suc (suc (fuel_for bytes))

unfoldable pub base_58_digits : List ℕ → List ℕ
base_58_digits bytes = leading_zeroes bytes ++ digits_58 (fuel_for bytes) (big_endian 0 bytes) []

-- `BASE58`
unfoldable pub alphabet : List ℕ
alphabet = codes "123456789ABCDEFGHJKLMNPQRSTUVWXYZabcdefghijkmnopqrstuvwxyz"

unfoldable pub base_58_encode : List ℕ → List ℕ
base_58_encode bytes = map (λ digit. get_or alphabet digit 0) (base_58_digits bytes)

unfoldable pub little_endian : ℕ → ℕ → List ℕ
little_endian zero value = []
little_endian (suc bytes) value = (value % 256) ∷ little_endian bytes (value / 256)

unfoldable pub u64_little_endian : Value → Result (List ℕ)
u64_little_endian v = do value ← as_u64 v; ok (little_endian 8 value)

-- The two filters: the size of the accounts, and the bytes (base 58) at an offset.
pub record ScanOptions : Type 0 where
  pub data_size : ℕ
  pub memcmp_offset : ℕ
  pub memcmp_bytes : List ℕ

unfoldable pub exact_receipt_recovery_scan_options : Value → Value → Value → Result ScanOptions
exact_receipt_recovery_scan_options round_id expected_live_count max_accounts = do
  expected ← as_u64 expected_live_count
  maximum ← as_u64 max_accounts
  assert (ltb 0 maximum)
  assert (leb expected maximum)
  bytes ← u64_little_endian round_id
  ok (record {
    data_size = bet_receipt_account_size;
    memcmp_offset = bet_receipt_round_id_offset;
    memcmp_bytes = base_58_encode bytes;
  })
