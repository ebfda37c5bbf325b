-- ===== src/Frontend/Autocommit/Affordable.antt =====
-- What the settings of a plan add up to.
use native.Mathlib.Nat.{div-mul-le_self, lt-div-mul-add}
use myne.Base.{
  true, refl, ap, length, ◌∙◌, ◌<◌, inr, inl, Bool-cases, ℕ, zero, suc, ◌+◌, ◌-◌, ◌*◌, ◌/◌, ◌≡◌,
  ◌≤◌, List, [], ◌∷◌, sum, replicate, arith,
}
use myne.Base.Int.{leb_ℤ, ◌<ℤ◌, ltb_ℤ, ℤ, pos, pos_part, ◌+ℤ◌, ◌-ℤ◌}
use myne.Frontend.Autocommit.{
  with_remainder, even_allocation, max_auto_plan_funding_lamports, affordable_auto_plan_rounds,
}

sum-replicate : (n v : ℕ) → sum (replicate n v) ≡ n * v
sum-replicate zero v = omega arith
sum-replicate (suc n) v = grind (arith, sum-replicate n v)

sum-with_remainder :
    (rest v : ℕ) (vs : List ℕ) → sum (with_remainder rest (v ∷ vs)) ≡ rest + sum (v ∷ vs)
unfolding with_remainder
sum-with_remainder rest v [] = omega arith
sum-with_remainder rest v (w ∷ vs) = omega (arith, sum-with_remainder rest w vs)

length-with_remainder : (rest : ℕ) (vs : List ℕ) → length (with_remainder rest vs) ≡ length vs
unfolding with_remainder
length-with_remainder rest [] = refl
length-with_remainder rest (v ∷ []) = refl
length-with_remainder rest (v ∷ w ∷ vs) = ap suc (length-with_remainder rest (w ∷ vs))

length-replicate : (n v : ℕ) → length (replicate n v) ≡ n
length-replicate zero v = refl
length-replicate (suc n) v = ap suc (length-replicate n v)

-- Any number of tiles have one share each, and the shares of a positive number of tiles are all of
-- the 10,000 basis points.
pub even_allocation-whole :
    (n : ℕ) → (length (even_allocation n) ≡ n) × (0 < n → sum (even_allocation n) ≡ 10000)
unfolding even_allocation
even_allocation-whole zero = (refl, λ h. absurd (omega arith))
even_allocation-whole (suc n) =
    let base = 10000 / suc n in
    let rest = 10000 - base * suc n in
    (
      length-with_remainder rest (replicate (suc n) base) ∙ length-replicate (suc n) base,
      λ h. omega (
        arith,
        sum-with_remainder rest base (replicate n base),
        sum-replicate (suc n) base,
        div-mul-le_self 10000 (suc n),
      ),
    )

pos_part-sub : (a b : ℤ) → leb_ℤ a b ≡ true → pos_part (a -ℤ b) ≡ 0
unfolding ◌-ℤ◌
pos_part-sub a b h = ground arith

funding_bound :
    (balance reserve : ℤ)
    → let funding = max_auto_plan_funding_lamports balance reserve in
      let spendable = pos_part (balance -ℤ reserve) in
      (funding * 10 ≤ spendable * 9) × (spendable * 9 < (funding + 1) * 10)
unfolding max_auto_plan_funding_lamports
funding_bound balance reserve = (ground arith, ground (arith, pos_part-sub balance reserve))

rounds_cost :
    (balance amount fee reserve : ℤ)
    → affordable_auto_plan_rounds balance amount fee reserve * pos_part (amount +ℤ fee)
      ≤ max_auto_plan_funding_lamports balance reserve
unfolding affordable_auto_plan_rounds
rounds_cost balance amount fee reserve = elim (Bool-cases (ltb_ℤ (pos 0) (amount +ℤ fee))) [
  | inl some_cost ↦
      rw some_cost (
        div-mul-le_self (max_auto_plan_funding_lamports balance reserve) (pos_part (amount +ℤ fee)))
  | inr no_cost ↦ rw no_cost (omega arith)
]

one_more :
    (balance amount fee reserve : ℤ)
    → pos 0 <ℤ amount +ℤ fee
    → max_auto_plan_funding_lamports balance reserve
      < (affordable_auto_plan_rounds balance amount fee reserve + 1) * pos_part (amount +ℤ fee)
unfolding affordable_auto_plan_rounds
one_more balance amount fee reserve h =
    let per_round = pos_part (amount +ℤ fee) in
    let funding = max_auto_plan_funding_lamports balance reserve in
    let costs : ltb_ℤ (pos 0) (amount +ℤ fee) ≡ true = ground arith in
    rw costs (omega (arith, lt-div-mul-add {a = funding} {b = per_round} (omega arith)))

-- The rounds that a wallet is shown as affordable cost at most nine tenths of what its balance
-- leaves after the reserve, and where a round costs anything, one round more costs more than that,
-- rounded down.
pub affordable_auto_plan_rounds-greatest :
    (balance amount fee reserve : ℤ)
    → let rounds = affordable_auto_plan_rounds balance amount fee reserve in
      let cost = pos_part (amount +ℤ fee) in
      let spendable = pos_part (balance -ℤ reserve) in
      (rounds * cost * 10 ≤ spendable * 9)
      × (pos 0 <ℤ amount +ℤ fee → spendable * 9 < (rounds + 1) * cost * 10)
affordable_auto_plan_rounds-greatest balance amount fee reserve =
    let cost = rounds_cost balance amount fee reserve in
    (
      omega (arith, cost, (funding_bound balance reserve).0),
      λ h. omega (arith, one_more balance amount fee reserve h, (funding_bound balance reserve).1),
    )
