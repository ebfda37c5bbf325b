-- ===== src/Frontend/Miners/Conserved.antt =====
-- The roster accounts for every lamport and every receipt that was not refunded.
use myne.Base.{false, true, refl, Bool, ℕ, ◌+◌, ◌≡◌, List, [], ◌∷◌, String, arith, if◌then◌else◌}
use myne.Base.Dict.{lookup, put}
use myne.Frontend.Miners.{
  sort_miners, insert_miner, group_receipt, aggregate_miners, group_receipts, Receipt, Miner,
  with_receipt, with_mode, known_or_new, new_miner, roster,
}

-- What the receipts that were not refunded deployed, and how many they are.
pub receipts_total : List Receipt → ℕ × ℕ
receipts_total [] = (0, 0)
receipts_total (r ∷ rows) =
    let rest = receipts_total rows in
    if r.refunded then rest else (r.total_lamports + rest.0, 1 + rest.1)

-- What a roster says that its miners deployed, with how many receipts.
unfoldable pub roster_total : List (Miner × ℕ) → ℕ × ℕ
roster_total [] = (0, 0)
roster_total ((m, tiles) ∷ rest) =
    (m.deployed + (roster_total rest).0, m.receipt_count + (roster_total rest).1)

grouped_total : List (String × Miner) → ℕ × ℕ
grouped_total grouped = roster_total (roster grouped)

-- Putting the next state of a known miner, or of a new one, adds what the receipt adds.
put-total :
    (r : Receipt) (grouped : List (String × Miner))
    → let after =
        grouped_total
          (put r.authority (with_receipt r (known_or_new r.authority grouped)) grouped) in
      let before = grouped_total grouped in
      (after.0 ≡ r.total_lamports + before.0) × (after.1 ≡ 1 + before.1)
unfolding grouped_total roster_total roster put lookup with_receipt with_mode known_or_new new_miner
put-total r [] = ground arith
put-total r ((key, m) ∷ rest) = let ih = put-total r rest in ground arith

either :
    (b : Bool) (x y : List (String × Miner)) (f : List (String × Miner) → ℕ) (n k : ℕ)
    → f x ≡ k
    → f y ≡ n + k
    → f (if b then x else y) ≡ (if b then 0 else n) + k
either true x y f n k h g = omega (arith, h)
either false x y f n k h g = omega (arith, g)

-- What one receipt adds.
added : Receipt → ℕ × ℕ
added r = (if r.refunded then 0 else r.total_lamports, if r.refunded then 0 else 1)

group_receipt-total :
    (r : Receipt) (grouped : List (String × Miner))
    → ((grouped_total (group_receipt grouped r)).0 ≡ (added r).0 + (grouped_total grouped).0)
      × ((grouped_total (group_receipt grouped r)).1 ≡ (added r).1 + (grouped_total grouped).1)
unfolding group_receipt added
group_receipt-total r grouped =
    let (deployed, receipts) = put-total r grouped in
    (
      either r.refunded _ _ (λ x. (grouped_total x).0) _ _ refl deployed,
      either r.refunded _ _ (λ x. (grouped_total x).1) _ _ refl receipts,
    )

receipts_total-cons :
    (r : Receipt) (rows : List Receipt)
    → ((receipts_total (r ∷ rows)).0 ≡ (added r).0 + (receipts_total rows).0)
      × ((receipts_total (r ∷ rows)).1 ≡ (added r).1 + (receipts_total rows).1)
unfolding receipts_total added
receipts_total-cons r rows = ground arith

none_left : ((receipts_total []).0 ≡ 0) × ((receipts_total []).1 ≡ 0)
unfolding receipts_total
none_left = (refl, refl)

group_receipts-total :
    (grouped : List (String × Miner)) (rows : List Receipt)
    → let after = grouped_total (group_receipts grouped rows) in
      (after.0 ≡ (grouped_total grouped).0 + (receipts_total rows).0)
      × (after.1 ≡ (grouped_total grouped).1 + (receipts_total rows).1)
unfolding group_receipts
group_receipts-total grouped [] = (omega (arith, none_left), omega (arith, none_left))
group_receipts-total grouped (r ∷ rows) =
    let (deployed, receipts) = group_receipt-total r grouped in
    let (d, n) = group_receipts-total (group_receipt grouped r) rows in
    let (more, others) = receipts_total-cons r rows in
    (omega (arith, deployed, d, more), omega (arith, receipts, n, others))

module _ (is_after : String → String → Bool) where
  insert_miner-total :
      (m : Miner × ℕ) (ms : List (Miner × ℕ))
      → ((roster_total (insert_miner is_after m ms)).0 ≡ m.0.deployed + (roster_total ms).0)
        × ((roster_total (insert_miner is_after m ms)).1 ≡ m.0.receipt_count + (roster_total ms).1)
  unfolding insert_miner roster_total
  insert_miner-total m [] = (refl, refl)
  insert_miner-total m (n ∷ ns) = let ih = insert_miner-total m ns in ground arith

  sort_miners-total :
      (ms : List (Miner × ℕ))
      → ((roster_total (sort_miners is_after ms)).0 ≡ (roster_total ms).0)
        × ((roster_total (sort_miners is_after ms)).1 ≡ (roster_total ms).1)
  unfolding sort_miners roster_total
  sort_miners-total [] = (refl, refl)
  sort_miners-total (m ∷ ms) =
      let (d, n) = sort_miners-total ms in
      let (inserted, counted) = insert_miner-total m (sort_miners is_after ms) in
      (omega (arith, d, inserted), omega (arith, n, counted))

  -- The miners of a round's roster deployed together exactly what its receipts deployed, those
  -- refunded left out, and count exactly those receipts.
  pub aggregate_miners-conserved :
      (rows : List Receipt)
      → ((roster_total (aggregate_miners is_after rows)).0 ≡ (receipts_total rows).0)
        × ((roster_total (aggregate_miners is_after rows)).1 ≡ (receipts_total rows).1)
  unfolding aggregate_miners grouped_total roster roster_total
  aggregate_miners-conserved rows =
      let (d, n) = sort_miners-total (roster (group_receipts [] rows)) in
      let (deployed, receipts) = group_receipts-total [] rows in
      (omega (arith, d, deployed), omega (arith, n, receipts))
