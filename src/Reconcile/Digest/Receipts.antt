-- ===== src/Reconcile/Digest/Receipts.antt =====
-- The receipts of an archive digest: every bettor's receipt was settled, with one status.
use myne.Js.{Value, text_or_empty}
use myne.Reconcile.Rows.{Bet, Settlement}
use myne.Reconcile.Digest.{
  Tally, tally_bet, add_bet, read_bet, Processed, add_settlement, read_settlement, agrees,
  status_of, DigestInput, DigestOutput, archived_snapshot_projection_digest, empty_tally,
  empty_processed,
}
use myne.Reconcile.Digest.Steps.{add_bet_inv, add_settlement_inv, digest_inv, finish_digest_inv}
use myne.Base.{
  sym, ◌∙◌, subst, inl, inr, Bool-cases, subset_all, ◌↔◌, refl, eq_iff, has-add, ap, distinct-add,
  add, >>=-eq-ok, ◌||◌, ok_injective, [], str_eq, some, has, arith, IsSubset, ◌∷◌, true, ok, false,
  ◌≡◌, ℕ, distinct, Option, Bool, fold_result, String, List,
}

-- A bet, or a settlement, names the receipt.
unfoldable pub has_bet : List Bet → String → Bool
has_bet [] k = false
has_bet (bet ∷ bets) k = str_eq (text_or_empty bet.receipt) k || has_bet bets k

unfoldable pub has_settlement : List Settlement → String → Bool
has_settlement [] k = false
has_settlement (row ∷ rows) k = str_eq (text_or_empty row.receipt) k || has_settlement rows k

-- Each settlement has the status that the function gives for its receipt.
abbrev pub HasStatus : (String → Option String) → List Settlement → Type 0
HasStatus f [] = Unit
HasStatus f (row ∷ rows) =
    (f (text_or_empty row.receipt) ≡ some (text_or_empty row.status)) × HasStatus f rows

read_bet_receipt :
    (id : String) (bet : Bet) (receipt : String) (square amount : ℕ)
    → read_bet id bet ≡ ok (receipt, square, amount)
    → receipt ≡ text_or_empty bet.receipt
unfolding read_bet
read_bet_receipt id bet receipt square amount h = ground arith

read_settlement_parts :
    (id : String) (participants : List String) (row : Settlement) (receipt status : String)
    → read_settlement id participants row ≡ ok (receipt, status)
    → (receipt ≡ text_or_empty row.receipt)
      × (status ≡ text_or_empty row.status)
      × (has participants receipt ≡ true)
unfolding read_settlement
read_settlement_parts id participants row receipt status h = ground arith

bets_receipts :
    (id : String) (t t' : Tally) (bets : List Bet)
    → distinct t.receipts ≡ true
    → fold_result (add_bet id) t bets ≡ ok t'
    → (distinct t'.receipts ≡ true)
      × ((k : String) → has t'.receipts k ≡ (has t.receipts k || has_bet bets k))
unfolding fold_result has_bet
bets_receipts id t t' [] d e = rw (← ok_injective e) (d, λ k. ground arith)
bets_receipts id t t' (bet ∷ bets) d e =
    let (u, one, rest) = >>=-eq-ok (add_bet id t bet) _ e in
    let (receipt, square, amount, read, fresh, same) = add_bet_inv id t u bet one in
    let named = read_bet_receipt id bet receipt square amount read in
    let new : u.receipts ≡ add t.receipts receipt =
      unfold tally_bet in ap (λ (v : Tally). v.receipts) same in
    let (d', at) = bets_receipts id u t' bets (rw new (distinct-add t.receipts receipt d)) rest in
    (d', λ k. rw (at k, new, has-add t.receipts receipt k) (ground arith))

settlements_receipts :
    (id : String) (participants : List String) (p p' : Processed) (rows : List Settlement)
    → distinct p.receipts ≡ true
    → IsSubset p.receipts participants
    → fold_result (add_settlement id participants) p rows ≡ ok p'
    → (distinct p'.receipts ≡ true)
      × IsSubset p'.receipts participants
      × ((k : String) → has p'.receipts k ≡ (has p.receipts k || has_settlement rows k))
unfolding fold_result has_settlement
settlements_receipts id participants p p' [] d sub e =
    rw (← ok_injective e) (d, sub, λ k. ground arith)
settlements_receipts id participants p p' (row ∷ rows) d sub e =
    let (u, one, rest) = >>=-eq-ok (add_settlement id participants p row) _ e in
    let (receipt, status, read, agreed, new, _) = add_settlement_inv id participants p u row one in
    let (named, _, known) = read_settlement_parts id participants row receipt status read in
    let (d', sub', at) =
      settlements_receipts id participants u p' rows (rw new (distinct-add p.receipts receipt d))
        (λ k h.
          ground
            (arith, sub k, has-add p.receipts receipt k, eq_iff receipt k, ap (λ rs. has rs k) new))
        rest in
    (d', sub', λ k. rw (at k, new, has-add p.receipts receipt k) (ground arith))

status_of-cons :
    (rest : List (String × String)) (receipt status k v : String)
    → agrees (status_of rest receipt) status ≡ true
    → status_of rest k ≡ some v
    → status_of ((receipt, status) ∷ rest) k ≡ some v
unfolding status_of agrees
status_of-cons rest receipt status k v agreed h = elim (Bool-cases (str_eq receipt k)) [
  | inr other ↦ rw other h
  | inl e ↦
      let same : receipt ≡ k = (eq_iff receipt k).0 e in
      let found : agrees (some v) status ≡ true =
        subst (λ o. agrees o status ≡ true) (ap (status_of rest) same ∙ h) agreed in
      rw e (ap some (sym ((eq_iff v status).0 found)))
]

status_of_self :
    (rest : List (String × String)) (receipt status : String)
    → status_of ((receipt, status) ∷ rest) receipt ≡ some status
unfolding status_of
status_of_self rest receipt status = ground (arith, eq_iff receipt receipt)

no_key : (k : String) → has [] k ≡ false
unfolding has
no_key k = refl

seen : (a b c : Bool) → a ≡ false → b ≡ (a || c) → b ≡ true → c ≡ true
seen a b c no_a same h = ground arith

settlements_statuses :
    (id : String) (participants : List String) (p p' : Processed) (rows : List Settlement)
    → fold_result (add_settlement id participants) p rows ≡ ok p'
    → ((k v : String) → status_of p.statuses k ≡ some v → status_of p'.statuses k ≡ some v)
      × HasStatus (status_of p'.statuses) rows
unfolding fold_result
settlements_statuses id participants p p' [] e = (λ k v h. rw (← ok_injective e) h, tt)
settlements_statuses id participants p p' (row ∷ rows) e =
    let (u, one, rest) = >>=-eq-ok (add_settlement id participants p row) _ e in
    let (receipt, status, read, agreed, _, new) = add_settlement_inv id participants p u row one in
    let (named, stated, _) = read_settlement_parts id participants row receipt status read in
    let (later, all) = settlements_statuses id participants u p' rows rest in
    (
      λ k v h. later k v (rw new (status_of-cons p.statuses receipt status k v agreed h)),
      (
        later (text_or_empty row.receipt) (text_or_empty row.status)
            (rw (new, ← named, ← stated) (status_of_self p.statuses receipt status)),
        all,
      ),
    )

-- In an archive digest that is computed every receipt of a bet has a settlement and every
-- settlement's receipt a bet, the two counts agree, and one status goes with each receipt.
pub digest-settles_all :
    (s : DigestInput) (max_rows : Value) (d : DigestOutput)
    → archived_snapshot_projection_digest s max_rows ≡ ok d
    → (d.indexed_total_receipts ≡ d.indexed_processed_receipts)
      × ((k : String) → (has_bet s.bets k ≡ true) ↔ (has_settlement s.settlements k ≡ true))
      × ((f : String → Option String) × HasStatus f s.settlements)
digest-settles_all s max_rows d e =
    let (id, t, p, bets, rows, done) = digest_inv s max_rows d e in
    let (_, _, total, processed, all) = finish_digest_inv s id t p d done in
    let (dt, at) = bets_receipts id empty_tally t s.bets (unfold distinct in refl) bets in
    let (dp, sub, settled) =
      settlements_receipts id t.receipts empty_processed p s.settlements (unfold distinct in refl)
        (λ k h. unfold has in cc) rows in
    let back = subset_all p.receipts t.receipts dp sub (omega arith) in
    let (_, one) = settlements_statuses id t.receipts empty_processed p s.settlements rows in
    (
      omega arith,
      λ k. (
        λ h. seen (has [] k) _ _ (no_key k) (settled k) (back k (rw (at k, no_key k) h)),
        λ h. seen (has [] k) _ _ (no_key k) (at k) (sub k (rw (settled k, no_key k) h)),
      ),
      (status_of p.statuses, one),
    )
