-- ===== src/Reconcile/Stale.antt =====
-- `staleReceiptSettlementRows` of round-reconciliation-policy.mjs: the indexed settlements that a
-- complete replay has disproved. A key of the source's sets is the tuple that its text encodes.
use myne.Js.{
  undefined, null, boolean, number, other_number, bigint, text, number, text, bigint, other_number,
  boolean, Value, text_or_blank, to_string, text_or_empty, required_non_negative_bigint,
}
use myne.Js.Pattern.{is_canonical_numeric}
use myne.Reconcile.Digest.{bounded_count}
use myne.Base.Int.{pos, negsuc}
use myne.Base.{
  assertion, guard-eq-ok, map_result, refl, leb, >>=-eq-ok, ◌>>=◌, ok_injective, inl, arith, ◌==◌,
  ◌-◌, subst, none, false, assert, [], ◌⊎◌, ◌≤◌, ◌||◌, ◌>>◌, ◌&&◌, true, some, ok, inr, any, ◌≡◌,
  ◌∷◌, ◌<◌, str_eq, not, length, if◌then◌else◌, Result, Option, String, List, Bool, ℕ,
}

-- The status of a lifecycle event, null for another event.
unfoldable pub receipt_settlement_status : String → Option String
receipt_settlement_status event =
    if str_eq event "ReceiptClaimed"
    then some "claimed"
    else if str_eq event "ReceiptRewardAccruedV1"
    then some "accrued"
    else if str_eq event "ReceiptRefunded"
    then some "refunded"
    else if str_eq event "ReceiptClosed"
    then some "closed"
    else none

pub record SettlementRow : Type 0 where
  pub round_id : Value
  pub receipt : Value
  pub status : Value
  pub signature : Value
  pub slot : Value

-- What the two keys of a row hold.
pub record Evidence : Type 0 where
  pub receipt : String
  pub status : String
  pub signature : String
  pub slot : ℕ

-- `RECEIPT_SETTLEMENT_STATUSES`
unfoldable pub is_settlement_status : String → Bool
is_settlement_status s =
    str_eq s "claimed" || str_eq s "accrued" || str_eq s "refunded" || str_eq s "closed"

-- `requireSettlementEvidenceRow`, with the columns of the keys for what follows.
unfoldable pub require_settlement_evidence_row : String → SettlementRow → Result Evidence
require_settlement_evidence_row expected row = do
  assert (str_eq (to_string row.round_id) expected)
  assert (not (str_eq (text_or_blank row.receipt) ""))
  assert (is_settlement_status (text_or_blank row.status))
  assert (not (str_eq (text_or_blank row.signature) ""))
  slot ← required_non_negative_bigint row.slot
  ok (record {
    receipt = to_string row.receipt;
    status = to_string row.status;
    signature = to_string row.signature;
    slot = slot;
  })

unfoldable pub same_status : Evidence → Evidence → Bool
same_status e f = str_eq e.receipt f.receipt && str_eq e.status f.status

unfoldable pub same_transaction : Evidence → Evidence → Bool
same_transaction e f =
    str_eq e.receipt f.receipt && str_eq e.signature f.signature && (e.slot == f.slot)

-- A row is stale when its transaction was decoded, to another status.
unfoldable pub is_stale : List Evidence → Evidence → Bool
is_stale canonical e = not (any (same_status e) canonical) && any (same_transaction e) canonical

-- The loop over the indexed rows stops when the bound on the stale rows is reached.
unfoldable pub stale_from :
    String → List Evidence → ℕ → List SettlementRow → Result (List SettlementRow)
stale_from expected canonical left [] = ok []
stale_from expected canonical left (row ∷ rows) =
    let rest = stale_from expected canonical left rows in
    let after = stale_from expected canonical (left - 1) rows in
    require_settlement_evidence_row expected row >>= λ e.
    if is_stale canonical e
    then (if left == 1 then ok (row ∷ []) else after >>= λ found. ok (row ∷ found))
    else rest

unfoldable pub repaired_rows :
    String → List SettlementRow → List SettlementRow → Value → Value → Result (List SettlementRow)
repaired_rows expected indexed canonical max_rows max_deletes = do
  assert (is_canonical_numeric expected)
  rows_bound ← bounded_count 250_000 max_rows
  deletes_bound ← bounded_count rows_bound max_deletes
  assert (leb (length indexed) rows_bound)
  assert (leb (length canonical) rows_bound)
  evidence ← map_result (require_settlement_evidence_row expected) canonical
  stale_from expected evidence deletes_bound indexed

unfoldable pub stale_receipt_settlement_rows :
    Value
    → List SettlementRow
    → List SettlementRow
    → Bool
    → Value
    → Value
    → Result (List SettlementRow)
stale_receipt_settlement_rows round_id indexed canonical complete max_rows max_deletes =
    let checked = repaired_rows (text_or_empty round_id) indexed canonical max_rows max_deletes in
    if complete then checked else ok []

-- What each row that is to be deleted rests on.
unfoldable pub AllStale : String → List Evidence → List SettlementRow → Type 0
AllStale expected canonical [] = Unit
AllStale expected canonical (row ∷ rows) =
    ((e : Evidence) × (require_settlement_evidence_row expected row ≡ ok e)
      × (any (same_status e) canonical ≡ false)
      × (any (same_transaction e) canonical ≡ true))
    × AllStale expected canonical rows

-- The rows in their order, each from the longer list.
unfoldable pub IsPick : List SettlementRow → List SettlementRow → Type 0
IsPick [] from = Unit
IsPick (p ∷ ps) [] = ⊥
IsPick (p ∷ ps) (row ∷ rows) = ((p ≡ row) × IsPick ps rows) ⊎ IsPick (p ∷ ps) rows

record Sound (expected : String) (canonical : List Evidence) (bound : ℕ)
    (rows picked : List SettlementRow) : Type 0 where
  stale : AllStale expected canonical picked
  among : IsPick picked rows
  few : length picked ≤ bound

is_stale-true :
    (canonical : List Evidence) (e : Evidence)
    → is_stale canonical e ≡ true
    → (any (same_status e) canonical ≡ false) × (any (same_transaction e) canonical ≡ true)
unfolding is_stale
is_stale-true canonical e h = ground arith

IsPick-skip :
    (row : SettlementRow) (picked rows : List SettlementRow)
    → IsPick picked rows
    → IsPick picked (row ∷ rows)
unfolding IsPick
IsPick-skip row [] rows h = tt
IsPick-skip row (p ∷ ps) rows h = inr h

choice :
    {A : Type 0} (b : Bool) (x y : A) {r : A}
    → (if b then x else y) ≡ r
    → ((b ≡ true) × (x ≡ r)) ⊎ ((b ≡ false) × (y ≡ r))
choice true x y e = inl (refl, e)
choice false x y e = inr (refl, e)

stale_from-Sound :
    (expected : String) (canonical : List Evidence) (left : ℕ) (rows picked : List SettlementRow)
    → 0 < left
    → stale_from expected canonical left rows ≡ ok picked
    → Sound expected canonical left rows picked
unfolding stale_from AllStale IsPick
stale_from-Sound expected canonical left [] picked h e =
    subst (Sound expected canonical left []) (ok_injective e)
      (record { stale = tt; among = tt; few = omega arith })
stale_from-Sound expected canonical left (row ∷ rows) picked h e =
    let (v, valid, e1) = >>=-eq-ok (require_settlement_evidence_row expected row) _ e in
    elim (choice (is_stale canonical v) _ _ e1) [
      | inr (fresh, e2) ↦
          let s = stale_from-Sound expected canonical left rows picked h e2 in
          record { stale = s.stale; among = IsPick-skip row picked rows s.among; few = s.few }
      | inl (old, e2) ↦
          let (no_, yes_) = is_stale-true canonical v old in
          elim (choice (left == 1) _ _ e2) [
            | inl (one, e3) ↦
                subst (Sound expected canonical left (row ∷ rows)) (ok_injective e3) (record {
                  stale = ((v, valid, no_, yes_), tt);
                  among = inl (refl, tt);
                  few = omega arith;
                })
            | inr (more, e3) ↦
                let (found, e4, e5) =
                  >>=-eq-ok (stale_from expected canonical (left - 1) rows) _ e3 in
                let large : 1 < left = ground arith in
                let s =
                  stale_from-Sound expected canonical (left - 1) rows found (omega arith) e4 in
                subst (Sound expected canonical left (row ∷ rows)) (ok_injective e5) (record {
                  stale = ((v, valid, no_, yes_), s.stale);
                  among = inl (refl, s.among);
                  few = omega (arith, s.few);
                })
          ]
    ]

positive_count : (bound n : ℕ) (v : Value) → bounded_count bound v ≡ ok n → (0 < n) × (n ≤ bound)
unfolding bounded_count
positive_count bound n undefined e = absurd (cc)
positive_count bound n null e = absurd (cc)
positive_count bound n (boolean b) e = absurd (cc)
positive_count bound n (other_number s) e = absurd (cc)
positive_count bound n (bigint z) e = absurd (cc)
positive_count bound n (text s) e = absurd (cc)
positive_count bound n (number (pos m)) e = ground arith
positive_count bound n (number (negsuc m)) e = absurd (cc)

wider_bound :
    (bound n : ℕ) (v : Value)
    → bound ≤ 250_000
    → bounded_count bound v ≡ ok n
    → bounded_count 250_000 v ≡ ok n
unfolding bounded_count
wider_bound bound n undefined h e = absurd (cc)
wider_bound bound n null h e = absurd (cc)
wider_bound bound n (boolean b) h e = absurd (cc)
wider_bound bound n (other_number s) h e = absurd (cc)
wider_bound bound n (bigint z) h e = absurd (cc)
wider_bound bound n (text s) h e = absurd (cc)
wider_bound bound n (number (pos m)) h e = ground arith
wider_bound bound n (number (negsuc m)) h e = absurd (cc)

-- The rows that a repair deletes are indexed rows in their order, at most the deletion bound. Each
-- belongs to the round, and the canonical rows hold its receipt, signature and slot but not its
-- receipt with its status.
pub repaired_rows-Sound :
    (expected : String) (indexed canonical : List SettlementRow) (max_rows max_deletes : Value)
    (picked : List SettlementRow)
    → repaired_rows expected indexed canonical max_rows max_deletes ≡ ok picked
    → (evidence : List Evidence) × (bound : ℕ) × (map_result
          (require_settlement_evidence_row expected)
          canonical
        ≡ ok evidence)
      × (bounded_count 250_000 max_deletes ≡ ok bound)
      × AllStale expected evidence picked
      × IsPick picked indexed
      × (length picked ≤ bound)
unfolding repaired_rows
repaired_rows-Sound expected indexed canonical max_rows max_deletes picked e =
    let (_, e1) = guard-eq-ok (is_canonical_numeric expected) assertion _ e in
    let (rows_bound, r1, e2) = >>=-eq-ok (bounded_count 250_000 max_rows) _ e1 in
    let (bound, r2, e3) = >>=-eq-ok (bounded_count rows_bound max_deletes) _ e2 in
    let (_, e4) = guard-eq-ok (leb (length indexed) rows_bound) assertion _ e3 in
    let (_, e5) = guard-eq-ok (leb (length canonical) rows_bound) assertion _ e4 in
    let (evidence, read, e6) =
      >>=-eq-ok (map_result (require_settlement_evidence_row expected) canonical) _ e5 in
    let s =
      stale_from-Sound expected evidence bound indexed picked
        (positive_count rows_bound bound max_deletes r2).0 e6 in
    (
      evidence,
      bound,
      read,
      wider_bound rows_bound bound max_deletes (positive_count 250_000 rows_bound max_rows r1).1 r2,
      s.stale,
      s.among,
      s.few,
    )
