-- ===== src/Reconcile/Digest/Tiles.antt =====
-- The tile vectors of an archive digest add up to its bets.
use myne.Js.{Value, required_non_negative_bigint, integer_of, text_or_empty}
use myne.Reconcile.Digest.Steps.{add_bet_inv, digest_inv, finish_digest_inv}
use myne.Reconcile.Rows.{Bet}
use myne.Reconcile.Digest.{
  Tally, empty_tally, square_of, read_bet, tally_bet, add_bet, DigestInput, DigestOutput,
  archived_snapshot_projection_digest,
}
use myne.Base.{
  replicate, length-set, ap, >>=-eq-ok, ok_injective, refl, zero, suc, ◌==◌, set, [], ◌+◌, sum,
  if◌then◌else◌, get_or, err, arith, ◌≡◌, ◌∷◌, ◌<◌, ok, length, ℕ, fold_result, String, Result,
  List,
}

-- The amount and the square of a bet, 0 and 25 where they are invalid.
ok_or {ℓ} : {A : Type ℓ} → A → Result A → A
ok_or a (ok b) = b
ok_or a (err e) = a

pub amount_of : Bet → ℕ
unfolding ok_or
amount_of bet = ok_or 0 (required_non_negative_bigint bet.amount_wei)

pub square_index : Bet → ℕ
unfolding ok_or
square_index bet = ok_or 25 (square_of (integer_of bet.square))

pub total_amount : List Bet → ℕ
total_amount [] = 0
total_amount (bet ∷ bets) = amount_of bet + total_amount bets

-- The amounts of the bets on one square.
pub amount_on : ℕ → List Bet → ℕ
amount_on square [] = 0
amount_on square (bet ∷ bets) =
    (if square_index bet == square then amount_of bet else 0) + amount_on square bets

read_bet_parts :
    (id : String) (bet : Bet) (receipt : String) (square amount : ℕ)
    → read_bet id bet ≡ ok (receipt, square, amount)
    → (receipt ≡ text_or_empty bet.receipt)
      × (square ≡ square_index bet)
      × (amount ≡ amount_of bet)
      × (square < 25)
      × (0 < amount)
unfolding read_bet amount_of square_index square_of
read_bet_parts id bet receipt square amount h = ground arith

sum-set : (xs : List ℕ) (i a : ℕ) → i < length xs → sum (set xs i (get_or xs i 0 + a)) ≡ sum xs + a
sum-set [] i a h = absurd (omega arith)
sum-set (x ∷ xs) zero a h = omega arith
sum-set (x ∷ xs) (suc i) a h = omega (arith, sum-set xs i a (omega arith))

get_or-set :
    (xs : List ℕ) (i j v : ℕ)
    → i < length xs
    → get_or (set xs i v) j 0 ≡ (if i == j then v else get_or xs j 0)
get_or-set [] i j v h = absurd (omega arith)
get_or-set (x ∷ xs) zero zero v h = refl
get_or-set (x ∷ xs) zero (suc j) v h = ground arith
get_or-set (x ∷ xs) (suc i) zero v h = ground arith
get_or-set (x ∷ xs) (suc i) (suc j) v h = ground (arith, get_or-set xs i j v)

-- What one bet adds to the tile vector.
add_bet_tiles :
    (id : String) (t t' : Tally) (bet : Bet)
    → length t.lamports ≡ 25
    → add_bet id t bet ≡ ok t'
    → (length t'.lamports ≡ 25)
      × (sum t'.lamports ≡ sum t.lamports + amount_of bet)
      × ((s : ℕ)
          → get_or t'.lamports s 0
            ≡ get_or t.lamports s 0 + (if square_index bet == s then amount_of bet else 0))
unfolding tally_bet
add_bet_tiles id t t' bet long e =
    let (receipt, square, amount, read, fresh, same) = add_bet_inv id t t' bet e in
    let (_, at, much, inside, positive) = read_bet_parts id bet receipt square amount read in
    let new = get_or t.lamports square 0 + amount in
    let lamports : t'.lamports ≡ set t.lamports square new = ap (λ (u : Tally). u.lamports) same in
    rw lamports (
      omega (arith, length-set t.lamports square new),
      omega (arith, sum-set t.lamports square amount (omega arith)),
      λ s. ground (arith, get_or-set t.lamports square s new (omega arith)),
    )

loop_tiles :
    (id : String) (t t' : Tally) (bets : List Bet)
    → length t.lamports ≡ 25
    → fold_result (add_bet id) t bets ≡ ok t'
    → (length t'.lamports ≡ 25)
      × (sum t'.lamports ≡ sum t.lamports + total_amount bets)
      × ((s : ℕ) → get_or t'.lamports s 0 ≡ get_or t.lamports s 0 + amount_on s bets)
unfolding fold_result total_amount amount_on
loop_tiles id t t' [] long e = rw (← ok_injective e) (long, omega arith, λ s. omega arith)
loop_tiles id t t' (bet ∷ bets) long e =
    let (u, one, rest) = >>=-eq-ok (add_bet id t bet) _ e in
    let (long', summed, at) = add_bet_tiles id t u bet long one in
    let (long'', summed', at') = loop_tiles id u t' bets long' rest in
    (long'', omega arith, λ s. omega (arith, at s, at' s))

get_or-replicate_zero : (n i : ℕ) → get_or {A = ℕ} (replicate n 0) i 0 ≡ 0
get_or-replicate_zero zero i = refl
get_or-replicate_zero (suc n) zero = refl
get_or-replicate_zero (suc n) (suc i) = get_or-replicate_zero n i

no_tiles : (square : ℕ) → get_or empty_tally.lamports square 0 ≡ 0
no_tiles square = get_or-replicate_zero 25 square

-- An archive digest that is computed has 25 tiles, each with the sum of the amounts that the
-- snapshot's bets put on it, and together they hold the amounts of all bets.
pub digest-conserves :
    (s : DigestInput) (max_rows : Value) (d : DigestOutput)
    → archived_snapshot_projection_digest s max_rows ≡ ok d
    → (length d.indexed_tile_lamports ≡ 25)
      × (sum d.indexed_tile_lamports ≡ total_amount s.bets)
      × ((square : ℕ) → get_or d.indexed_tile_lamports square 0 ≡ amount_on square s.bets)
digest-conserves s max_rows d e =
    let (id, t, p, bets, rows, done) = digest_inv s max_rows d e in
    let (_, same, _, _, _) = finish_digest_inv s id t p d done in
    rw same (
      let (long, summed, at) = loop_tiles id empty_tally t s.bets refl bets in
      (long, omega arith, λ square. omega (arith, at square, no_tiles square)))
