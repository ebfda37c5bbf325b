-- ===== src/Evidence.antt =====
-- Protocol/scripts/round-settlement-evidence.mjs: the search for a round's finalized settlement, with the
-- event names and data of anchor-event-data.mjs. The reads of the chain and the parser of the logs
-- are parameters, and an object of event data is the list of its entries.
pub mod Settled
pub mod Deadline
use myne.Js.{Value, text, to_string, is_nullish, safe_integer, codes, undefined}
use myne.Js.Pattern.{is_digits, is_digit}
use myne.Schedule.{settlement_confirmed_within_result_window}
use myne.Base.Dict.{lookup}
use myne.Base.{
  ℕ, zero, suc, ◌+◌, ◌-◌, ◌==◌, ltb, leb, String, str_eq, Bool, true, false, not, ◌&&◌, ◌||◌,
  Option, none, some, List, [], ◌∷◌, length, every, Result, ok, err, assertion, assert, ◌>>=◌, ◌>>◌,
  if◌then◌else◌,
}
use myne.Base.Int.{ℤ, pos, leb_ℤ, pos_part}

pub record SignatureRow : Type 0 where
  pub err : Value
  pub signature : Option String

pub record AnchorEvent : Type 0 where
  pub name : List ℕ
  pub fields : List (List ℕ × Value)

pub record Evidence : Type 0 where
  pub round_id : String
  pub signature : String
  pub slot : Value
  pub block_time : ℤ

unfoldable pub is_lower : ℕ → Bool
is_lower c = leb b'a' c && leb c b'z'

unfoldable pub is_letter : ℕ → Bool
is_letter c = is_lower c || (leb b'A' c && leb c b'Z')

unfoldable pub to_upper : ℕ → ℕ
to_upper c = if is_lower c then c - 32 else c

-- `key.replace(/_([a-z0-9])/g, …)`
unfoldable pub camel_case : List ℕ → List ℕ
camel_case [] = []
camel_case (c ∷ []) = c ∷ []
camel_case (c ∷ d ∷ cs) =
    let joined = to_upper d ∷ camel_case cs in
    let kept = c ∷ camel_case (d ∷ cs) in
    if c == b'_' && (is_lower d || is_digit d) then joined else kept

unfoldable pub same_text : List ℕ → List ℕ → Bool
same_text [] [] = true
same_text (c ∷ cs) (d ∷ ds) = (c == d) && same_text cs ds
same_text _ _ = false

-- `normalizeAnchorEventName`
unfoldable pub normalize_anchor_event_name : List ℕ → Result (List ℕ)
normalize_anchor_event_name [] = err assertion
normalize_anchor_event_name (c ∷ cs) = do
  assert (is_letter c && every (λ d. is_letter d || is_digit d) cs)
  ok (to_upper c ∷ cs)

-- A field of `normalizeAnchorEventData`: the exact name, or the first whose camel case it is.
unfoldable pub field_by : (List ℕ → List ℕ) → List ℕ → List (List ℕ × Value) → Option Value
field_by alias name [] = none
field_by alias name ((key, value) ∷ fields) =
    let rest = field_by alias name fields in if same_text (alias key) name then some value else rest

unfoldable pub normalized_field : List ℕ → List (List ℕ × Value) → Value
normalized_field name fields = elim (field_by (λ key. key) name fields) [
  | some value ↦ value
  | none ↦ elim (field_by camel_case name fields) [ some value ↦ value | none ↦ undefined ]
]

-- `asRoundId`
unfoldable pub as_round_id : Value → String
as_round_id v = if is_nullish v then "" else to_string v

unfoldable pub is_settlement : String → AnchorEvent → Result Bool
is_settlement round e = do
  name ← normalize_anchor_event_name e.name
  ok (
      same_text name (codes "RoundSettled")
      && str_eq (as_round_id (normalized_field (codes "roundId") e.fields)) round)

-- `events.some(…)`: the events after the first that matches are not looked at.
unfoldable pub some_settlement : String → List AnchorEvent → Result Bool
some_settlement round [] = ok false
some_settlement round (e ∷ es) =
    let rest = some_settlement round es in
    is_settlement round e >>= λ found. if found then ok true else rest

unfoldable pub is_text : String → Bool
is_text s = not (str_eq s "")

pub record Transaction (Logs : Type 0) : Type 0 where
  pub err : Value
  pub logs : Option Logs
  pub slot : Value
  pub block_time : Value

module _ {Logs : Type 0} (read_page : Option String → Result (List SignatureRow))
    (read_transaction : String → Result (Option (Transaction Logs)))
    (parse_logs : Logs → Result (List AnchorEvent)) where
  unfoldable pub evidence_of :
      String → String → Transaction Logs → Result Bool → Result (Option Evidence)
  evidence_of round signature t settles = do
    exact ← settles
    let evidence = do
      block_time ← safe_integer t.block_time
      ok (
          some (record {
            round_id = round;
            signature = signature;
            slot = t.slot;
            block_time = block_time;
          }))
    if exact then evidence else ok none

  -- A transaction whose logs cannot be read or parsed is passed over.
  unfoldable pub check_logs :
      String → String → Transaction Logs → Option Logs → Result (Option Evidence)
  check_logs round signature t none = ok none
  check_logs round signature t (some logs) = elim (parse_logs logs) [
    | err e ↦ ok none
    | ok events ↦ evidence_of round signature t (some_settlement round events)
  ]

  unfoldable pub check_transaction :
      String → String → Option (Transaction Logs) → Result (Option Evidence)
  check_transaction round signature none = ok none
  check_transaction round signature (some t) =
      let checked = check_logs round signature t t.logs in
      if is_nullish t.err then checked else ok none

  unfoldable pub check_row : String → SignatureRow → Result (Option Evidence)
  check_row round row = elim row.signature [
    | none ↦ ok none
    | some signature ↦
        if is_nullish row.err
        then elim (read_transaction signature) [
          | err e ↦ ok none
          | ok t ↦ check_transaction round signature t
        ]
        else ok none
  ]

  unfoldable pub check_rows : String → List SignatureRow → Result (Option Evidence)
  check_rows round [] = ok none
  check_rows round (row ∷ rows) =
      let rest = check_rows round rows in
      check_row round row >>= λ found. elim found [ some e ↦ ok (some e) | none ↦ rest ]

  -- `rows.at(-1)?.signature`, which has to be there.
  unfoldable pub cursor_of : List SignatureRow → Result String
  cursor_of [] = err assertion
  cursor_of (row ∷ []) = elim row.signature [
    | none ↦ err assertion
    | some signature ↦ assert (is_text signature) >> ok signature
  ]
  cursor_of (row ∷ rows) = cursor_of rows

  -- The pages that may still be read, from the cursor on.
  unfoldable pub search_pages : ℕ → String → ℕ → Option String → Result (Option Evidence)
  search_pages zero round page_size before = ok none
  search_pages (suc pages) round page_size before = do
    rows ← read_page before
    assert (leb (length rows) page_size)
    found ← check_rows round rows
    let more = cursor_of rows >>= λ cursor. search_pages pages round page_size (some cursor)
    elim found [
      | some e ↦ ok (some e)
      | none ↦ if ltb (length rows) page_size then ok none else more
    ]

  unfoldable pub find_finalized_round_settlement_evidence :
      Value → Value → Value → Result (Option Evidence)
  find_finalized_round_settlement_evidence round_id max_pages page_size = do
    assert (is_digits (as_round_id round_id))
    pages ← safe_integer max_pages
    assert (leb_ℤ (pos 1) pages && leb_ℤ pages (pos 32))
    size ← safe_integer page_size
    assert (leb_ℤ (pos 1) size && leb_ℤ size (pos 1000))
    search_pages (pos_part pages) (as_round_id round_id) (pos_part size) none

-- Whether the deadline was met; the text of the outcome is not modelled.
unfoldable pub classify_finalized_round_settlement_evidence :
    Option Evidence → Value → Value → Result Bool
classify_finalized_round_settlement_evidence evidence round_id result_deadline_at = do
  assert (is_digits (as_round_id round_id))
  deadline ← safe_integer result_deadline_at
  elim evidence [
    | none ↦ ok false
    | some e ↦ do
      assert (str_eq e.round_id (as_round_id round_id))
      settlement_confirmed_within_result_window (Value.number e.block_time) result_deadline_at
  ]
