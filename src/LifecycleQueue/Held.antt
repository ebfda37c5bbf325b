-- ===== src/LifecycleQueue/Held.antt =====
-- `selectLifecycleRoundBatch`: what is selected are rows of the queues, each under its own key.
use myne.Js.{Value}
use myne.LifecycleQueue.Keyed.{Entries, has_key}
use myne.LifecycleQueue.{Cursor, batch_key, take_new, is_empty, batch_pass, batch_loop}
use myne.Base.{
  some_injective, ℕ, zero, suc, ◌+◌, ◌≡◌, refl, String, Bool, false, subst, not, ◌||◌, List, [],
  ◌∷◌, ◌++◌, length, All, some, ◌⊎◌, inl, inr, ltb, Bool-cases,
}

module _ {R : Type 0} (id_of : R → Value) where
  -- The row stands in the queue, and has the key at its place there.
  unfoldable pub InQueue : ℕ → ℕ → List R → String → R → Type 0
  InQueue index offset [] k r = ⊥
  InQueue index offset (row ∷ rows) k r =
      ((batch_key id_of index (offset + 1) row ≡ k) × (row ≡ r))
      ⊎ InQueue index (offset + 1) rows k r

  unfoldable pub InQueues : List (Cursor R) → String → R → Type 0
  unfolding InQueue
  InQueues [] k r = ⊥
  InQueues (c ∷ cs) k r = InQueue c.index c.offset c.left k r ⊎ InQueues cs k r

  module _ (P : String → R → Type 0) where
    abbrev pub AllEntries : Entries R → Type 0
    AllEntries m = All (λ (e : String × R). P e.0 e.1) m

    AllEntries-snoc :
        (m : Entries R) (k : String) (r : R) → AllEntries m → P k r → AllEntries (m ++ (k, r) ∷ [])
    AllEntries-snoc [] k r all one = (one, tt)
    AllEntries-snoc (e ∷ m) k r (here, all) one = (here, AllEntries-snoc m k r all one)

    take_new-All :
        (selected : Entries R) (index offset : ℕ) (rows : List R)
        → AllEntries selected
        → ((k : String) (r : R) → InQueue index offset rows k r → P k r)
        → AllEntries (take_new id_of selected index offset rows).0
          × ((k : String) (r : R)
              → InQueue
                  (take_new id_of selected index offset rows).1.index
                  (take_new id_of selected index offset rows).1.offset
                  (take_new id_of selected index offset rows).1.left
                  k
                  r
              → P k r)
    unfolding take_new InQueue
    take_new-All selected index offset [] all h = (all, h)
    take_new-All selected index offset (row ∷ rows) all h =
        let key = batch_key id_of index (offset + 1) row in
        elim (Bool-cases (has_key selected key)) [
          | inl old ↦
              rw old (take_new-All selected index (offset + 1) rows all (λ k r g. h k r (inr g)))
          | inr fresh ↦ rw fresh (
            AllEntries-snoc selected key row all (h key row (inl (refl, refl))),
            λ k r g. h k r (inr g),
          )
        ]

    batch_pass-All :
        (limit : ℕ) (selected : Entries R) (advanced : Bool) (cs : List (Cursor R))
        → AllEntries selected
        → ((k : String) (r : R) → InQueues cs k r → P k r)
        → AllEntries (batch_pass id_of limit selected advanced cs).0
          × ((k : String) (r : R)
              → InQueues (batch_pass id_of limit selected advanced cs).2 k r
              → P k r)
    unfolding batch_pass InQueues
    batch_pass-All limit selected advanced [] all h = (all, h)
    batch_pass-All limit selected advanced (c ∷ cs) all h =
        let (turn, left) =
          take_new-All selected c.index c.offset c.left all (λ k r g. h k r (inl g)) in
        let after = take_new id_of selected c.index c.offset c.left in
        let (rest, others) =
          batch_pass-All limit after.0 (advanced || not (is_empty c.left)) cs turn
            (λ k r g. h k r (inr g)) in
        elim (Bool-cases (ltb (length selected) limit)) [
          | inl room ↦
              rw room
                (rest, λ k r g. elim g [ inl here ↦ left k r here | inr there ↦ others k r there ])
          | inr full ↦ rw full (all, h)
        ]

    pub batch_loop-All :
        (fuel limit : ℕ) (selected : Entries R) (cs : List (Cursor R)) (result : Entries R)
        → AllEntries selected
        → ((k : String) (r : R) → InQueues cs k r → P k r)
        → batch_loop id_of fuel limit selected cs ≡ some result
        → AllEntries result
    unfolding batch_loop
    batch_loop-All zero limit selected cs result all h e = absurd (cc)
    batch_loop-All (suc fuel) limit selected cs result all h e =
        let (rest, others) = batch_pass-All limit selected false cs all h in
        let after = batch_pass id_of limit selected false cs in
        elim (Bool-cases (ltb (length selected) limit)) [
          | inr full ↦ subst AllEntries (some_injective (rw full at e)) all
          | inl room ↦ elim (Bool-cases after.1) [
            | inr idle ↦ subst AllEntries (some_injective (rw (room, idle) at e)) rest
            | inl advanced ↦
                batch_loop-All fuel limit after.0 after.2 result rest others
                  (rw (room, advanced) at e)
          ]
        ]
