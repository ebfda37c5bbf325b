-- ===== src/Examples/Scans.antt =====
-- Recovered receipts, entropy slots and evidence at concrete inputs.
use myne.Base.{
  ℕ, ◌+◌, ◌≡◌, ◌↔◌, ◌<◌, refl, ok, true, false, List, [], ◌∷◌, ◌++◌, some, none, Option, Result,
  String, Bool, All, replicate, distinct, length, arith,
}
use myne.Base.Int.{◌<ℤ◌, pos}
use myne.Js.{text, null, safe_integer, Value, number, boolean}
use myne.Recovery.{
  ReceiptState, Account, Recovered, as_u64, validate_recovered_receipt_accounts,
  bet_receipt_account_size,
}
use myne.Recovery.Validated.{AllReceipts, receipts, validate_recovered_receipt_accounts-AllReceipts}
use myne.Recovery.Scan.{base_58_digits, big_endian}
use myne.Recovery.Scan.Base58.{value_58, base_58_digits-value}
use myne.Evidence.{
  SignatureRow, AnchorEvent, Evidence, Transaction, as_round_id,
  find_finalized_round_settlement_evidence, classify_finalized_round_settlement_evidence,
}
use myne.Evidence.Settled.{IsEvidence}
use myne.Evidence.Deadline.{met_deadline-IsEvidence}
use myne.Entropy.{server_entropy_available}
use myne.Entropy.Available.{Covers, Reaches, slots_of, server_entropy_available_iff}

abbrev decoded : ReceiptState
decoded = record {
  round_id = number (pos 7);
  authority = some "alice";
  nonce = number (pos 0);
  bump = 254;
}

abbrev decode_any : List ℕ → Result ReceiptState
decode_any bytes = ok decoded

abbrev derive_receipt : Option String → Value → Result (Option String × ℕ)
derive_receipt authority nonce = ok (some "receipt-0", 254)

abbrev receipt_account : Account
receipt_account = record {
  pubkey = some "receipt-0";
  owner = some "myne";
  executable = boolean false;
  bytes = some (replicate bet_receipt_account_size 0);
}

abbrev recovered : Recovered
recovered = record { receipt = "receipt-0"; bettor = "alice" }

one-recovered :
    validate_recovered_receipt_accounts decode_any derive_receipt
      (receipt_account ∷ [])
      (number (pos 1))
      (number (pos 7))
      (some "myne")
    ≡ ok (recovered ∷ [])
unfolding myne.Base.add myne.Base.has myne.Js.bigint_of myne.Js.codes myne.Recovery.as_u64
    myne.Recovery.bytes_of myne.Recovery.fits_u64 myne.Recovery.is_false
    myne.Recovery.public_key_string myne.Recovery.text_to_bigint myne.Recovery.validate_account
    myne.Recovery.validate_accounts myne.Recovery.validate_recovered_receipt_accounts
one-recovered = refl

validate_recovered_receipt_accounts-AllReceipts_example :
    (round : ℕ) × (owner : String) × (as_u64 (number (pos 7)) ≡ ok round)
    × (some "myne" ≡ some owner)
    × AllReceipts decode_any derive_receipt round owner (receipt_account ∷ []) (recovered ∷ [])
    × (distinct (receipts (recovered ∷ [])) ≡ true)
    × (as_u64 (number (pos 1)) ≡ ok (length (recovered ∷ [])))
validate_recovered_receipt_accounts-AllReceipts_example =
    validate_recovered_receipt_accounts-AllReceipts decode_any derive_receipt (receipt_account ∷ [])
      (number (pos 1)) (number (pos 7)) (some "myne") (recovered ∷ []) one-recovered

base_58_digits-value_example :
    value_58 0 (base_58_digits (0 ∷ 1 ∷ 2 ∷ [])) ≡ big_endian 0 (0 ∷ 1 ∷ 2 ∷ [])
base_58_digits-value_example =
    base_58_digits-value (0 ∷ 1 ∷ 2 ∷ []) (omega arith, (omega arith, (omega arith, tt)))

-- One entry, of slot 9, and a hash of zeroes.
abbrev slot_hashes : List ℕ
slot_hashes = 1 ∷ (replicate 7 0 ++ (9 ∷ replicate 39 0))

slot_9-available : server_entropy_available slot_hashes (pos 9) ≡ ok true
unfolding myne.Entropy.is_aged_out myne.Entropy.is_better myne.Entropy.is_some myne.Entropy.older
    myne.Entropy.positive_target myne.Entropy.read_little_endian myne.Entropy.scan_slots
    myne.Entropy.select myne.Entropy.server_entropy_available myne.Entropy.skip
slot_9-available = refl

server_entropy_available_iff_example :
    Covers 9 (slots_of slot_hashes) × ((true ≡ true) ↔ Reaches 9 (slots_of slot_hashes))
server_entropy_available_iff_example =
    server_entropy_available_iff slot_hashes 9 true slot_9-available

-- One page with one finalized settlement of round 7 at second 150.
abbrev settled_row : SignatureRow
settled_row = record { err = null; signature = some "sig" }

abbrev one_page : Option String → Result (List SignatureRow)
one_page before = ok (settled_row ∷ [])

-- `roundSettled` and `round_id`.
abbrev settled_event : AnchorEvent
settled_event = record {
  name = 114 ∷ 111 ∷ 117 ∷ 110 ∷ 100 ∷ 83 ∷ 101 ∷ 116 ∷ 116 ∷ 108 ∷ 101 ∷ 100 ∷ [];
  fields = (114 ∷ 111 ∷ 117 ∷ 110 ∷ 100 ∷ 95 ∷ 105 ∷ 100 ∷ [], number (pos 7)) ∷ [];
}

abbrev settled_transaction : Transaction String
settled_transaction = record {
  err = null;
  logs = some "logs";
  slot = number (pos 3);
  block_time = number (pos 150);
}

abbrev any_transaction : String → Result (Option (Transaction String))
any_transaction signature = ok (some settled_transaction)

abbrev any_events : String → Result (List AnchorEvent)
any_events logs = ok (settled_event ∷ [])

abbrev evidence_7 : Evidence
evidence_7 = record {
  round_id = "7";
  signature = "sig";
  slot = number (pos 3);
  block_time = pos 150;
}

evidence_7-found :
    find_finalized_round_settlement_evidence one_page any_transaction any_events
      (text "7")
      (number (pos 4))
      (number (pos 10))
    ≡ ok (some evidence_7)
unfolding myne.Evidence.as_round_id myne.Evidence.camel_case myne.Evidence.check_logs
    myne.Evidence.check_row myne.Evidence.check_rows myne.Evidence.check_transaction
    myne.Evidence.cursor_of myne.Evidence.evidence_of myne.Evidence.field_by
    myne.Evidence.find_finalized_round_settlement_evidence myne.Evidence.is_letter
    myne.Evidence.is_lower myne.Evidence.is_settlement myne.Evidence.is_text
    myne.Evidence.normalize_anchor_event_name myne.Evidence.normalized_field myne.Evidence.same_text
    myne.Evidence.search_pages myne.Evidence.some_settlement myne.Evidence.to_upper
    myne.Js.Pattern.is_digit myne.Js.Pattern.is_digits myne.Js.codes myne.Js.is_nullish
    myne.Js.is_safe_int myne.Js.safe_integer myne.Js.to_string
evidence_7-found = refl

evidence_7-met :
    classify_finalized_round_settlement_evidence (some evidence_7) (text "7") (number (pos 160))
    ≡ ok true
unfolding myne.Evidence.as_round_id myne.Evidence.classify_finalized_round_settlement_evidence
    myne.Js.Pattern.is_digit myne.Js.Pattern.is_digits myne.Js.codes myne.Js.is_nullish
    myne.Js.is_safe_int myne.Js.safe_integer myne.Js.to_string
    myne.Schedule.settlement_confirmed_within_result_window
evidence_7-met = refl

deadline_160 : safe_integer (number (pos 160)) ≡ ok (pos 160)
unfolding myne.Js.is_safe_int myne.Js.safe_integer
deadline_160 = refl

met_deadline-IsEvidence_example :
    (e : Evidence) × (some evidence_7 ≡ some e)
    × IsEvidence one_page any_transaction any_events (as_round_id (text "7")) e
    × (e.block_time <ℤ pos 160)
met_deadline-IsEvidence_example =
    met_deadline-IsEvidence one_page any_transaction any_events (text "7") (number (pos 4))
      (number (pos 10)) (number (pos 160)) (some evidence_7) (pos 160) evidence_7-found
      evidence_7-met deadline_160
