-- ===== src/Reconcile/Digest/Steps.antt =====
-- What one step of a loop of the archive digest does when it throws no error.
use myne.Js.{Value, required_non_negative_bigint}
use myne.Reconcile.Rows.{Bet, Settlement}
use myne.Reconcile.Digest.{
  Tally, read_bet, bet_key, tally_bet, add_bet, Processed, add_settlement, read_settlement, agrees,
  status_of, DigestInput, DigestOutput, finish_digest, archived_snapshot_projection_digest,
  check_snapshot, empty_tally, empty_processed,
}
use myne.Base.{
  ap, sym, ok_injective, ◌∷◌, assertion, ◌==◌, add, true, guard-eq-ok, length, fold_result, List,
  arith, >>=-eq-ok, false, has, ℕ, ok, ◌≡◌, String,
}

pub add_bet_inv :
    (id : String) (t t' : Tally) (bet : Bet)
    → add_bet id t bet ≡ ok t'
    → (receipt : String) × (square : ℕ) × (amount : ℕ) × (read_bet id bet
        ≡ ok (receipt, square, amount))
      × (has t.keys (bet_key receipt square) ≡ false)
      × (t' ≡ tally_bet t receipt square amount)
unfolding add_bet
add_bet_inv id t t' bet e =
    let ((receipt, square, amount), read, e1) = >>=-eq-ok (read_bet id bet) _ e in
    (receipt, square, amount, read, ground arith, ground arith)

pub add_settlement_inv :
    (id : String) (participants : List String) (p p' : Processed) (row : Settlement)
    → add_settlement id participants p row ≡ ok p'
    → (receipt : String) × (status : String) × (read_settlement id participants row
        ≡ ok (receipt, status))
      × (agrees (status_of p.statuses receipt) status ≡ true)
      × (p'.receipts ≡ add p.receipts receipt)
      × (p'.statuses ≡ (receipt, status) ∷ p.statuses)
unfolding add_settlement
add_settlement_inv id participants p p' row e =
    let ((receipt, status), read, e1) = >>=-eq-ok (read_settlement id participants row) _ e in
    (receipt, status, read, ground arith, ground arith, ground arith)

-- What a digest that was computed says of its counts.
pub finish_digest_inv :
    (s : DigestInput) (id : String) (t : Tally) (p : Processed) (d : DigestOutput)
    → finish_digest s id t p ≡ ok d
    → (d.round_id ≡ id)
      × (d.indexed_tile_lamports ≡ t.lamports)
      × (d.indexed_total_receipts ≡ length t.receipts)
      × (d.indexed_processed_receipts ≡ length p.receipts)
      × (length p.receipts ≡ length t.receipts)
unfolding finish_digest
finish_digest_inv s id t p d e =
    let (total, e1, e2) = >>=-eq-ok (required_non_negative_bigint s.total_receipts) _ e in
    let (same_total, e3) = guard-eq-ok (total == length t.receipts) assertion _ e2 in
    let (processed, e4, e5) = >>=-eq-ok (required_non_negative_bigint s.processed_receipts) _ e3 in
    let (same_processed, e6) = guard-eq-ok (processed == length p.receipts) assertion _ e5 in
    let (all, e7) = guard-eq-ok (length p.receipts == length t.receipts) assertion _ e6 in
    let same = ok_injective e7 in
    (
      sym (ap (λ (o : DigestOutput). o.round_id) same),
      sym (ap (λ (o : DigestOutput). o.indexed_tile_lamports) same),
      sym (ap (λ (o : DigestOutput). o.indexed_total_receipts) same),
      sym (ap (λ (o : DigestOutput). o.indexed_processed_receipts) same),
      ground arith,
    )

pub digest_inv :
    (s : DigestInput) (max_rows : Value) (d : DigestOutput)
    → archived_snapshot_projection_digest s max_rows ≡ ok d
    → (id : String) × (t : Tally) × (p : Processed) × (fold_result (add_bet id) empty_tally s.bets
        ≡ ok t)
      × (fold_result (add_settlement id t.receipts) empty_processed s.settlements ≡ ok p)
      × (finish_digest s id t p ≡ ok d)
unfolding archived_snapshot_projection_digest
digest_inv s max_rows d e =
    let (id, checked, e1) = >>=-eq-ok (check_snapshot s max_rows) _ e in
    let (t, bets, e2) = >>=-eq-ok (fold_result (add_bet id) empty_tally s.bets) _ e1 in
    let (p, rows, e3) =
      >>=-eq-ok (fold_result (add_settlement id t.receipts) empty_processed s.settlements) _ e2 in
    (id, t, p, bets, rows, e3)
