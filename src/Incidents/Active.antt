-- ===== src/Incidents/Active.antt =====
-- At most one incident of a round and a stage is active.
use myne.Incidents.{
  stage_of, safe_count, Latch, persist, changed, Value, recorded, record_incident, flush, Incident,
  find, is_open_for, is_active, clear, clear_first, opened,
}
use myne.Base.{
  sym, ok_injective, subst, >>=-eq-ok, ok, Option-cases, Option, some, ◌⊎◌, Bool, inr, inl, refl,
  Bool-cases, eq_iff, [], ◌+◌, true, none, if◌then◌else◌, arith, ◌≤◌, ◌≡◌, ◌∷◌, ◌++◌, List, String,
  ℕ,
}
use myne.Js.{Value}

-- How many active incidents there are of the round and the stage.
unfoldable pub active_count : ℕ → String → List Incident → ℕ
active_count round_id stage [] = 0
active_count round_id stage (i ∷ is) =
    (if is_open_for round_id stage i then 1 else 0) + active_count round_id stage is

active_count-append :
    (round_id : ℕ) (stage : String) (is js : List Incident)
    → active_count round_id stage (is ++ js)
      ≡ active_count round_id stage is + active_count round_id stage js
unfolding active_count
active_count-append round_id stage [] js = omega arith
active_count-append round_id stage (i ∷ is) js =
    grind (arith, active_count-append round_id stage is js)

active_count-none :
    (round_id : ℕ) (stage : String) (is : List Incident)
    → find (is_open_for round_id stage) is ≡ none
    → active_count round_id stage is ≡ 0
unfolding active_count find
active_count-none round_id stage [] e = refl
active_count-none round_id stage (i ∷ is) e = ground (arith, active_count-none round_id stage is)

is_open_for-only :
    (program : String) (round_id r : ℕ) (stage st : String) (outcome : List ℕ) (at : ℕ)
    → is_open_for r st (opened program round_id stage outcome at) ≡ true
    → (round_id ≡ r) × (stage ≡ st)
unfolding is_open_for opened is_active
is_open_for-only program round_id r stage st outcome at e = ground (arith, eq_iff stage st)

open_count :
    (program : String) (round_id r : ℕ) (stage st : String) (outcome : List ℕ) (at : ℕ)
    (is : List Incident)
    → find (is_open_for round_id stage) is ≡ none
    → active_count r st is ≤ 1
    → active_count r st (is ++ opened program round_id stage outcome at ∷ []) ≤ 1
unfolding active_count
open_count program round_id r stage st outcome at is e h =
    let added = active_count-append r st is (opened program round_id stage outcome at ∷ []) in
    elim (Bool-cases (is_open_for r st (opened program round_id stage outcome at))) [
      | inl yes_ ↦
          let (same_round, same_stage) =
            is_open_for-only program round_id r stage st outcome at yes_ in
          let found : find (is_open_for r st) is ≡ none = cc in
          grind (arith, added, active_count-none r st is found)
      | inr no_ ↦ grind (arith, added)
    ]

clear_first-fewer :
    (id : String) (at r : ℕ) (st : String) (is : List Incident)
    → active_count r st (clear_first id at is) ≤ active_count r st is
unfolding active_count clear_first clear is_open_for is_active
clear_first-fewer id at r st [] = omega arith
clear_first-fewer id at r st (i ∷ is) = ground (arith, clear_first-fewer id at r st is)

flush-document : (s : Latch) → (flush s).document ≡ s.document
unfolding flush persist
flush-document s = ground arith

find_cases :
    (p : Incident → Bool) (is : List Incident)
    → (find p is ≡ none) ⊎ ((i : Incident) × (find p is ≡ some i))
find_cases p is = Option-cases (find p is)

record_at :
    (program stage st : String) (round_id r at : ℕ) (outcome : List ℕ) (s s' : Latch) (i : Incident)
    (new : Bool) (found : Option Incident)
    → found ≡ find (is_open_for round_id stage) s.document
    → recorded program round_id stage outcome at s found ≡ ok (i, new, s')
    → active_count r st s.document ≤ 1
    → active_count r st s'.document ≤ 1
unfolding recorded changed persist
record_at program stage st round_id r at outcome s s' i new none here e h =
    subst (λ (d : Incident × Bool × Latch). active_count r st d.2.document ≤ 1) (ok_injective e)
      (open_count program round_id r stage st outcome at s.document (sym here) h)
record_at program stage st round_id r at outcome s s' i new (some j) here e h =
    subst (λ (d : Incident × Bool × Latch). active_count r st d.2.document ≤ 1) (ok_injective e)
      (rw (flush-document s) h)

-- Where at most one incident of every round and stage is active, recording keeps it so.
pub record_incident-active_once :
    (program : String) (round stage : Value) (outcome : List ℕ) (observed : Value) (s s' : Latch)
    (i : Incident) (new : Bool)
    → ((r : ℕ) (st : String) → active_count r st s.document ≤ 1)
    → record_incident program round stage outcome observed s ≡ ok (i, new, s')
    → (r : ℕ) (st : String) → active_count r st s'.document ≤ 1
unfolding record_incident
record_incident-active_once program round stage outcome observed s s' i new once e r st =
    let (round_id, _, e1) = >>=-eq-ok (safe_count round) _ e in
    let (name, _, e2) = >>=-eq-ok (stage_of stage) _ e1 in
    let (at, _, e3) = >>=-eq-ok (safe_count observed) _ e2 in
    record_at program name st round_id r at outcome s s' i new
      (find (is_open_for round_id name) s.document) refl e3 (once r st)
