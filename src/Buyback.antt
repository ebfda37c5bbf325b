-- ===== src/Buyback.antt =====
-- Protocol/scripts/buyback-policy.mjs: what the buyback keeper spends, which round it takes, which
-- quotes and saved transactions it trusts, and how it repeats a read. Solana keys and signatures are
-- texts; prices and other Numbers of a quote are integers or no integer (`Value`).
pub mod Spending
pub mod Retry
pub mod Quotes
use myne.Js.{
  text, boolean, Value, bigint_of, as_bigint, to_string, truthy, safe_integer, is_nullish,
}
use myne.Reconcile.Digest.{is_filled_text}
use myne.Base.{
  zero, ltb, ◌+◌, suc, ◌-◌, ℕ, plain_error, assertion, ◌&&◌, not, err, assert, [], ◌∷◌, ◌||◌, ◌>>◌,
  str_eq, some, false, ◌>>=◌, ok, none, if◌then◌else◌, String, Result, Option, List, Bool,
}
use myne.Base.Int.{pos_part, ◌+ℤ◌, ◌-ℤ◌, ltb_ℤ, leb_ℤ, pos, ℤ}

pub record Spend : Type 0 where
  pub spend_lamports : ℤ
  pub skipped : Bool

-- Minimum and maximum of integers.
abbrev pub min_ℤ : ℤ → ℤ → ℤ
min_ℤ a b = if ltb_ℤ a b then a else b

abbrev pub max_ℤ : ℤ → ℤ → ℤ
max_ℤ a b = if ltb_ℤ a b then b else a

-- The lamport amounts are integers.
unfoldable pub calculate_spend : ℤ → ℤ → ℤ → ℤ → Spend
calculate_spend balance reserve max_spend minimum =
    let spend = min_ℤ max_spend (max_ℤ (pos 0) (balance -ℤ reserve)) in
    record { spend_lamports = spend; skipped = ltb_ℤ spend minimum }

pub record Execution : Type 0 where
  pub spend_lamports : Value
  pub expected_output_base_units : Value
  pub burned_base_units : Value
  pub swap_signature : Value
  pub burn_signature : Value

-- `BigInt(String(value || 0)) > 0n`
unfoldable pub is_positive : Value → Result Bool
is_positive v = do n ← if truthy v then bigint_of v else ok (pos 0); ok (ltb_ℤ (pos 0) n)

unfoldable pub is_complete_buyback_execution : Option Execution → Result Bool
is_complete_buyback_execution none = ok false
is_complete_buyback_execution (some e) = do
  spent ← is_positive e.spend_lamports
  expected ← if spent then is_positive e.expected_output_base_units else ok false
  burned ← if expected then is_positive e.burned_base_units else ok false
  ok (burned && is_filled_text e.swap_signature && is_filled_text e.burn_signature)

-- What `savedTransactionSendOptions` passes on: the commitment, and the slot if it is given.
unfoldable pub saved_transaction_send_options : Value → Value → Result (String × Option ℤ)
saved_transaction_send_options min_context_slot (text commitment) = do
  assert (not (str_eq commitment ""))
  slot ←
      if is_nullish min_context_slot
      then ok none
      else safe_integer min_context_slot >>= λ z. assert (leb_ℤ (pos 0) z) >> ok (some z)
  ok (commitment, slot)
saved_transaction_send_options min_context_slot _ = err assertion

pub record BlockhashResponse : Type 0 where
  pub slot : Value
  pub blockhash : Value
  pub last_valid_block_height : Value

pub record PinnedContext : Type 0 where
  pub blockhash : Value
  pub last_valid_block_height : ℤ
  pub commitment : Value
  pub min_context_slot : ℤ

unfoldable pub pin_latest_blockhash_context : BlockhashResponse → Value → Result PinnedContext
pin_latest_blockhash_context r commitment = do
  slot ← safe_integer r.slot
  assert (leb_ℤ (pos 0) slot)
  assert (is_filled_text r.blockhash)
  height ← safe_integer r.last_valid_block_height
  assert (leb_ℤ (pos 0) height)
  assert (is_filled_text commitment)
  ok (record {
    blockhash = r.blockhash;
    last_valid_block_height = height;
    commitment = commitment;
    min_context_slot = slot;
  })

-- `Number.isSafeInteger(value)`, with the integer.
unfoldable pub safe_or_none : Value → Option ℤ
safe_or_none v = elim (safe_integer v) [ ok z ↦ some z | err e ↦ none ]

unfoldable pub height_passed : Option ℤ → Option ℤ → Value → Bool
height_passed (some current) (some last) valid = ltb_ℤ last current
height_passed _ _ (boolean valid) = not valid
height_passed _ _ _ = false

unfoldable pub pending_swap_is_provably_expired : Value → Value → Value → Value → Value → Bool
pending_swap_is_provably_expired status increased current last valid =
    if truthy status || truthy increased
    then false
    else height_passed (safe_or_none current) (safe_or_none last) valid

-- A token balance of a transaction's metadata, whose amount is a text where it is given.
pub record TokenBalance : Type 0 where
  pub mint : Value
  pub owner : Value
  pub amount : Option String

-- `BigInt(amount || 0)`
unfoldable pub token_amount : Option String → Result ℤ
token_amount none = ok (pos 0)
token_amount (some s) = bigint_of (text s)

unfoldable pub is_text : Value → String → Bool
is_text (text s) t = str_eq s t
is_text _ t = false

-- The balances of the owner in the mint, added up.
unfoldable pub total_from : String → String → ℤ → List TokenBalance → Result ℤ
total_from mint owner sum [] = ok sum
total_from mint owner sum (b ∷ bs) =
    let counted = token_amount b.amount >>= λ n. total_from mint owner (sum +ℤ n) bs in
    let skipped = total_from mint owner sum bs in
    if is_text b.mint mint && is_text b.owner owner then counted else skipped

unfoldable pub purchased_token_base_units :
    List TokenBalance → List TokenBalance → String → String → Result ℤ
purchased_token_base_units before after mint owner = do
  pre ← total_from mint owner (pos 0) before
  post ← total_from mint owner (pos 0) after
  assert (ltb_ℤ pre post)
  ok (post -ℤ pre)

pub record IndexedRow : Type 0 where
  pub round_id : Value
  pub resolved : Value
  pub buyback_completed : Value
  pub total_wager_wei : Value

unfoldable pub is_true : Value → Bool
is_true (boolean b) = b
is_true _ = false

-- The filter's test; a value that is no integer throws where the source reads it.
unfoldable pub is_candidate : ℤ → ℤ → IndexedRow → Result Bool
is_candidate cursor current row = do
  id ← bigint_of row.round_id
  let in_range =
      leb_ℤ cursor id
      && leb_ℤ id current
      && is_true row.resolved
      && not (is_true row.buyback_completed)
  if in_range then is_positive row.total_wager_wei else ok false

-- The candidates in order, each with its id.
unfoldable pub candidates : ℤ → ℤ → List IndexedRow → Result (List (ℤ × IndexedRow))
candidates cursor current [] = ok []
candidates cursor current (row ∷ rows) = is_candidate cursor current row >>= λ wanted.
    bigint_of row.round_id >>= λ id.
    candidates cursor current rows >>= λ rest. ok (if wanted then (id, row) ∷ rest else rest)

-- The first element of the stable sort: of equal ids the first row.
unfoldable pub lowest : List (ℤ × IndexedRow) → Option (ℤ × IndexedRow)
lowest [] = none
lowest ((id, row) ∷ rest) = elim (lowest rest) [
  | none ↦ some (id, row)
  | some (id', row') ↦ if ltb_ℤ id' id then some (id', row') else some (id, row)
]

unfoldable pub select_indexed_buyback_round :
    List IndexedRow → Value → Value → Result (Option (ℤ × IndexedRow))
select_indexed_buyback_round rows cursor_round current_round = do
  cursor ← bigint_of cursor_round
  current ← bigint_of current_round
  assert (leb_ℤ (pos 0) cursor && leb_ℤ (pos 0) current)
  let search = do found ← candidates cursor current rows; ok (lowest found)
  if ltb_ℤ current cursor then ok none else search

-- `retryTransientBlockhashRead`: an attempt returns a value, or an error that mentions the blockhash
-- or does not. The waits between attempts are counted.
pub data Attempt {ℓ} (A : Type ℓ) : Type ℓ where
  returned : A → Attempt A
  blockhash_error other_error : Attempt A

pub data Read {ℓ} (A : Type ℓ) : Type ℓ where
  read : A → Read A
  failed_at_once exhausted : Read A

-- Attempt number `attempt` of those left; `tries` is what each attempt meets. The outcome, the
-- attempts made and the waits.
unfoldable pub retry_from : {A : Type 0} → (ℕ → Attempt A) → ℕ → ℕ → ℕ → Read A × ℕ × ℕ
retry_from tries attempt waits zero = (exhausted, attempt - 1, waits)
retry_from tries attempt waits (suc left) = elim (tries attempt) [
  | returned a ↦ (read a, attempt, waits)
  | other_error ↦ (failed_at_once, attempt, waits)
  | blockhash_error ↦ retry_from tries (attempt + 1) (if ltb 0 left then waits + 1 else waits) left
]

unfoldable pub retry_transient_blockhash_read :
    {A : Type 0} → (ℕ → Attempt A) → Value → Result (Read A × ℕ × ℕ)
retry_transient_blockhash_read tries attempts = do
  n ← safe_integer attempts
  assert (leb_ℤ (pos 1) n && leb_ℤ n (pos 10))
  ok (retry_from tries 1 0 (pos_part n))

abbrev pub native_sol_mint : String
native_sol_mint = "So11111111111111111111111111111111111111112"

abbrev pub meteora_dlmm_program_text : String
meteora_dlmm_program_text = "LBUZKhRxPF3XUpBCjp4YzTKgLccjZhTSDM9YuVaPwxo"

abbrev pub meteora_damm_v2_program_text : String
meteora_damm_v2_program_text = "cpamdpZCGKUy5JxQXB4dcpGPiikHawvSWAd6mEn1sGG"

abbrev pub meteora_dlmm_label : String
meteora_dlmm_label = "Meteora DLMM"

abbrev pub meteora_damm_v2_label : String
meteora_damm_v2_label = "Meteora DAMM v2"

pub record Route : Type 0 where
  pub program : String
  pub label : String
  pub kind : String

unfoldable pub meteora_route_for_program : Value → Result Route
meteora_route_for_program pool_program =
    let value = to_string pool_program in
    if str_eq value meteora_dlmm_program_text
    then ok (record { program = value; label = meteora_dlmm_label; kind = "dlmm" })
    else if str_eq value meteora_damm_v2_program_text
    then ok (record { program = value; label = meteora_damm_v2_label; kind = "damm-v2" })
    else err plain_error

pub record SwapInfo : Type 0 where
  pub amm_key : Value
  pub label : Value

-- `route_plan` is `none` where it is no array. `impact_within` tells whether the price impact is a
-- finite Number that is at most the maximum (a comparison of floating-point numbers).
pub record Quote : Type 0 where
  pub input_mint : Value
  pub output_mint : Value
  pub in_amount : Value
  pub out_amount : Option String
  pub route_plan : Option (List SwapInfo)
  pub impact_within : Bool

pub record Expected : Type 0 where
  pub pool_address : String
  pub input_lamports : Value
  pub output_mint : String
  pub expected_amm_label : String

unfoldable pub single_step : Option (List SwapInfo) → Result SwapInfo
single_step (some (step ∷ [])) = ok step
single_step _ = err assertion

-- The amounts of an accepted quote.
unfoldable pub validate_direct_meteora_quote : Quote → Expected → Result (String × ℤ)
validate_direct_meteora_quote q x = do
  assert (is_text q.input_mint native_sol_mint)
  assert (is_text q.output_mint x.output_mint)
  assert (str_eq (to_string q.in_amount) (to_string x.input_lamports))
  out ← token_amount q.out_amount
  assert (ltb_ℤ (pos 0) out)
  step ← single_step q.route_plan
  assert (is_text step.amm_key x.pool_address)
  assert (
      str_eq x.expected_amm_label meteora_dlmm_label
      || str_eq x.expected_amm_label meteora_damm_v2_label)
  assert (is_text step.label x.expected_amm_label)
  assert q.impact_within
  ok (to_string x.input_lamports, out)
