-- ===== src/Entropy/Available.antt =====
-- When the entropy of a round is available.
use myne.Base.{
  not-true, ◌*◌, ◌+◌, length, leb, not, ℕ, zero, suc, ◌≡◌, ◌↔◌, ◌≤◌, ◌⊎◌, inl, inr, Bool, true,
  false, Option, none, some, List, [], ◌∷◌, ok, arith, after_step, guard-eq-ok, assertion,
  ok_injective, subst,
}
use myne.Base.Int.{pos}
use myne.Entropy.{
  read_little_endian, skip, older, select, is_better, scan_slots, is_aged_out, is_some,
  server_entropy_available, positive_target,
}

-- The slots of the entries, in the order of the account.
pub slots : ℕ → List ℕ → List ℕ
slots zero bytes = []
slots (suc n) bytes = read_little_endian 8 bytes ∷ slots n (skip 40 bytes)

pub slots_of : List ℕ → List ℕ
slots_of bytes = slots (read_little_endian 8 bytes) (skip 8 bytes)

-- Some slot of the list is at least, or at most, a target.
pub Reaches : ℕ → List ℕ → Type 0
Reaches target [] = ⊥
Reaches target (slot ∷ rest) = (target ≤ slot) ⊎ Reaches target rest

pub Covers : ℕ → List ℕ → Type 0
Covers target [] = ⊥
Covers target (slot ∷ rest) = (slot ≤ target) ⊎ Covers target rest

select-is_some :
    (target : ℕ) (selected : Option ℕ) (slot : ℕ)
    → (is_some (select target selected slot) ≡ true) ↔ ((is_some selected ≡ true) ⊎ (target ≤ slot))
unfolding select is_some is_better
select-is_some target none slot = ground arith
select-is_some target (some s) slot = ground arith

older-aged_out :
    (target : ℕ) (oldest : Option ℕ) (slot : ℕ)
    → (is_aged_out (older oldest slot) target ≡ false)
      ↔ ((is_aged_out oldest target ≡ false) ⊎ (slot ≤ target))
unfolding older is_aged_out
older-aged_out target none slot = ground arith
older-aged_out target (some s) slot = ground arith

regroup : {P Q R S T : Type 0} → S ↔ (T ⊎ R) → T ↔ (P ⊎ Q) → S ↔ (P ⊎ (Q ⊎ R))
regroup (there, back) (one, two) = (
  λ s. elim (there s) [
    | inl t ↦ elim (one t) [ inl p ↦ inl p | inr q ↦ inr (inl q) ]
    | inr r ↦ inr (inr r)
  ],
  λ x. elim x [
    | inl p ↦ back (inl (two (inl p)))
    | inr y ↦ elim y [ inl q ↦ back (inl (two (inr q))) | inr r ↦ back (inr r) ]
  ],
)

empty : {P : Type 0} → P ↔ (P ⊎ ⊥)
empty = (λ p. inl p, λ x. elim x [ inl p ↦ p | inr b ↦ absurd b ])

scan_slots-Reaches :
    (target n : ℕ) (bytes : List ℕ) (oldest selected : Option ℕ)
    → (is_some (scan_slots target n bytes oldest selected).1 ≡ true)
      ↔ ((is_some selected ≡ true) ⊎ Reaches target (slots n bytes))
unfolding scan_slots slots Reaches
scan_slots-Reaches target zero bytes oldest selected = empty
scan_slots-Reaches target (suc n) bytes oldest selected =
    let slot = read_little_endian 8 bytes in
    regroup
      (scan_slots-Reaches target n (skip 40 bytes) (older oldest slot)
        (select target selected slot))
      (select-is_some target selected slot)

scan_slots-Covers :
    (target n : ℕ) (bytes : List ℕ) (oldest selected : Option ℕ)
    → (is_aged_out (scan_slots target n bytes oldest selected).0 target ≡ false)
      ↔ ((is_aged_out oldest target ≡ false) ⊎ Covers target (slots n bytes))
unfolding scan_slots slots Covers
scan_slots-Covers target zero bytes oldest selected = empty
scan_slots-Covers target (suc n) bytes oldest selected =
    let slot = read_little_endian 8 bytes in
    regroup
      (scan_slots-Covers target n (skip 40 bytes) (older oldest slot) (select target selected slot))
      (older-aged_out target oldest slot)

only_right : {P Q : Type 0} → ¬ P → P ⊎ Q → Q
only_right never (inl p) = absurd (never p)
only_right never (inr q) = q

none_selected : ¬ (is_some none ≡ true)
unfolding is_some
none_selected e = ground arith

none_oldest : (target : ℕ) → ¬ (is_aged_out none target ≡ false)
unfolding is_aged_out
none_oldest target e = ground arith

same_target : (target t : ℕ) → positive_target (pos target) ≡ ok t → t ≡ target
unfolding positive_target
same_target target t e = ground arith

-- Where the account is accepted for a positive target, it holds a slot that is not above the
-- target, and the entropy is available exactly when it holds a slot that is not below it.
pub server_entropy_available_iff :
    (bytes : List ℕ) (target : ℕ) (available : Bool)
    → server_entropy_available bytes (pos target) ≡ ok available
    → Covers target (slots_of bytes) × ((available ≡ true) ↔ Reaches target (slots_of bytes))
unfolding server_entropy_available slots_of
server_entropy_available_iff bytes target available e =
    let n = read_little_endian 8 bytes in
    let rest = skip 8 bytes in
    after_step (positive_target (pos target)) _ e (λ t positive e.
      let (_, e) = guard-eq-ok (leb 8 (length bytes)) assertion _ e in
      let (_, e) = guard-eq-ok (leb n 512) assertion _ e in
      let (_, e) = guard-eq-ok (leb (8 + n * 40) (length bytes)) assertion _ e in
      let (fresh, last) =
        guard-eq-ok (not (is_aged_out (scan_slots t n rest none none).0 t)) assertion
          (ok (is_some (scan_slots t n rest none none).1)) e in
      subst (λ x. Covers x (slots n rest) × ((available ≡ true) ↔ Reaches x (slots n rest)))
        (same_target target t positive)
        (
          only_right (none_oldest t) ((scan_slots-Covers t n rest none none).0 (not-true _ fresh)),
          subst (λ x. (x ≡ true) ↔ Reaches t (slots n rest)) (ok_injective last)
              (
                λ found. only_right none_selected ((scan_slots-Reaches t n rest none none).0 found),
                λ there. (scan_slots-Reaches t n rest none none).1 (inr there),
              ),
        ))
