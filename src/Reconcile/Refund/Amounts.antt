-- ===== src/Reconcile/Refund/Amounts.antt =====
-- What the bets of a refunded round add up to, and the amounts that are kept of them.
use myne.Reconcile.Refund.{has_bet_key, tile_of, add_amount, Ledger, amount_for, add_refund_bet}
use myne.Js.{integer_of, to_string, text_or_blank, required_non_negative_bigint}
use myne.Reconcile.Rows.{Bet, Settlement}
use myne.Base.{
  eq_iff, ◌||◌, suc, map, if◌then◌else◌, refl, sym, ok_injective, err, >>=-eq-ok, guard-eq-ok,
  arith, ◌==◌, ◌+◌, plain_error, not, length, has, ap, true, str_eq, some, ok, ◌≡◌, ◌∷◌, none,
  fold_result, [], String, Result, Option, List, ℕ,
}

unfoldable pub amount_of : Result ℕ → ℕ
amount_of (ok n) = n
amount_of (err e) = 0

-- What the bets of a receipt add up to.
unfoldable pub bets_total : List Bet → String → ℕ
unfolding amount_of
bets_total [] k = 0
bets_total (bet ∷ bets) k =
    (if str_eq (text_or_blank bet.receipt) k
      then amount_of (required_non_negative_bigint bet.amount_wei)
      else 0)
    + bets_total bets k

abbrev pub bet_receipt : Bet → String
bet_receipt bet = text_or_blank bet.receipt

abbrev pub refund_receipt : Settlement → String
refund_receipt row = text_or_blank row.receipt

-- The amount of a receipt, 0 where it has none.
unfoldable pub or_zero : Option ℕ → ℕ
or_zero none = 0
or_zero (some n) = n

or_zero-add_amount :
    (m : List (String × ℕ)) (r k : String) (n : ℕ)
    → or_zero (amount_for (add_amount m r n) k)
      ≡ (if str_eq r k then n else 0) + or_zero (amount_for m k)
unfolding add_amount amount_for or_zero
or_zero-add_amount [] r k n = ground arith
or_zero-add_amount ((j, a) ∷ m) r k n =
    ground (arith, or_zero-add_amount m r k n, eq_iff j r, eq_iff r k, eq_iff j k)

unfoldable pub names : List (String × ℕ) → List String
names [] = []
names ((j, a) ∷ m) = j ∷ names m

pub length-names : (m : List (String × ℕ)) → length (names m) ≡ length m
unfolding names
length-names [] = refl
length-names ((j, a) ∷ m) = ap suc (length-names m)

pub has-names :
    (m : List (String × ℕ)) (k : String) (n : ℕ) → amount_for m k ≡ some n → has (names m) k ≡ true
unfolding names amount_for has
has-names [] k n e = absurd (cc)
has-names ((j, a) ∷ m) k n e = ground (arith, has-names m k n)

has-names-add_amount :
    (m : List (String × ℕ)) (r k : String) (n : ℕ)
    → has (names (add_amount m r n)) k ≡ (str_eq r k || has (names m) k)
unfolding names add_amount has
has-names-add_amount [] r k n = ground arith
has-names-add_amount ((j, a) ∷ m) r k n =
    ground (arith, has-names-add_amount m r k n, eq_iff j r, eq_iff r k, eq_iff j k)

-- What one accepted bet does to the amounts.
add_refund_bet_inv :
    (round_id : String) (l l' : Ledger) (bet : Bet)
    → add_refund_bet round_id l bet ≡ ok l'
    → l'.amounts
      ≡ add_amount l.amounts
          (bet_receipt bet)
          (amount_of (required_non_negative_bigint bet.amount_wei))
unfolding add_refund_bet amount_of
add_refund_bet_inv round_id l l' bet e =
    let (_, e1) = guard-eq-ok (str_eq (to_string bet.round_id) round_id) plain_error _ e in
    let (amount, read, e2) = >>=-eq-ok (required_non_negative_bigint bet.amount_wei) _ e1 in
    let (_, e3) = guard-eq-ok (not (str_eq (text_or_blank bet.receipt) "")) plain_error _ e2 in
    let (square, _, e4) = >>=-eq-ok (tile_of (integer_of bet.square)) _ e3 in
    let (_, e5) = guard-eq-ok (not (amount == 0)) plain_error _ e4 in
    let (_, e6) =
      guard-eq-ok (not (has_bet_key l.keys (text_or_blank bet.receipt) square)) plain_error _ e5 in
    rw read (ap (λ (r : Ledger). r.amounts) (sym (ok_injective e6)))

pub bets_amounts :
    (round_id : String) (l l' : Ledger) (bets : List Bet)
    → fold_result (add_refund_bet round_id) l bets ≡ ok l'
    → (k : String)
    → (or_zero (amount_for l'.amounts k) ≡ or_zero (amount_for l.amounts k) + bets_total bets k)
      × (has (names l'.amounts) k ≡ (has (names l.amounts) k || has (map bet_receipt bets) k))
unfolding fold_result bets_total has
bets_amounts round_id l l' [] e k = rw (← ok_injective e) (omega arith, ground arith)
bets_amounts round_id l l' (bet ∷ bets) e k =
    let (u, one, rest) = >>=-eq-ok (add_refund_bet round_id l bet) _ e in
    let (total, named) = bets_amounts round_id u l' bets rest k in
    let new = add_refund_bet_inv round_id l u bet one in
    let amount = amount_of (required_non_negative_bigint bet.amount_wei) in
    (
      rw (total, new, or_zero-add_amount l.amounts (bet_receipt bet) k amount) (omega arith),
      rw (named, new, has-names-add_amount l.amounts (bet_receipt bet) k amount) (ground arith),
    )
