-- ===== src/Incidents/Durable.antt =====
-- The file and the persisted revision under every interleaving of calls and write events.
use myne.Incidents.{
  renamed, renames, flushes, start, clear_first, clear, writes, acknowledged, clears, stage_of,
  safe_count, is_active, records, then_step, Step, clear_exact, Steps, recorded, record_incident,
  clear_found, Incident, Phase, idle, opening, writing, Latch, loaded, persist, flush, changed,
  WriteEvent, begins, reads_document, completes, fails_before_rename, fails_after_rename,
  begin_write, write,
}
use myne.Base.{
  some_injective, false, true, ◌⊎◌, ◌>>◌, guard, Result, if◌then◌else◌, assertion, leb, none,
  guard-eq-ok, ok_injective, >>=-eq-ok, ok, Option, Bool, String, inr, ==_iff, ◌==◌, subst, refl,
  inl, [], ◌∷◌, ◌+◌, some, max, ltb, arith, ◌≤◌, ◌≡◌, ◌++◌, List, Bool-cases, ℕ,
}

AllAtMost : ℕ → List ℕ → Type 0
AllAtMost n [] = Unit
AllAtMost n (t ∷ ts) = (t ≤ n) × AllAtMost n ts

AllAtMost-snoc : (n : ℕ) (ts : List ℕ) → AllAtMost n ts → AllAtMost n (ts ++ n ∷ [])
unfolding AllAtMost
AllAtMost-snoc n [] all = (omega arith, tt)
AllAtMost-snoc n (t ∷ ts) (one, all) = (one, AllAtMost-snoc n ts all)

AllAtMost-suc : (n : ℕ) (ts : List ℕ) → AllAtMost n ts → AllAtMost (n + 1) ts
unfolding AllAtMost
AllAtMost-suc n [] all = tt
AllAtMost-suc n (t ∷ ts) (one, all) = (omega arith, AllAtMost-suc n ts all)

-- What a running write knows: if nothing has changed since the revision it aims at, or since the
-- one on disk, it carries the document itself.
PhaseSound : Phase → Latch → Type 0
PhaseSound idle s = Unit
PhaseSound (opening t) s = t ≤ s.revision
PhaseSound (writing t contents) s =
    (t ≤ s.revision)
    × (t ≡ s.revision → contents ≡ s.document)
    × (s.persisted_revision ≡ s.revision → contents ≡ s.document)
PhaseSound (renamed t) s = (t ≤ s.revision) × (t ≡ s.revision → s.disk ≡ s.document)

record IsSound (s : Latch) : Type 0 where
  waiting : AllAtMost s.revision s.queue
  behind : s.persisted_revision ≤ s.revision
  running : PhaseSound s.phase s
  durable : s.persisted_revision ≡ s.revision → s.disk ≡ s.document

loaded-IsSound : (is : List Incident) → IsSound (loaded is)
unfolding loaded AllAtMost PhaseSound
loaded-IsSound is = record { waiting = tt; behind = omega arith; running = tt; durable = λ h. refl }

running_persist :
    (s : Latch) (q : List ℕ) (p : Phase) → PhaseSound p s → PhaseSound p (record s { queue = q })
unfolding PhaseSound
running_persist s q idle r = tt
running_persist s q (opening t) r = r
running_persist s q (writing t d) r = r
running_persist s q (renamed t) r = r

persist-IsSound : (s : Latch) → IsSound s → IsSound (persist s)
unfolding persist
persist-IsSound s w = record {
  waiting = AllAtMost-snoc s.revision s.queue w.waiting;
  behind = w.behind;
  running = running_persist s (s.queue ++ s.revision ∷ []) s.phase w.running;
  durable = w.durable;
}

flush-IsSound : (s : Latch) → IsSound s → IsSound (flush s)
unfolding flush
flush-IsSound s w = elim (Bool-cases (ltb s.persisted_revision s.revision)) [
  | inl old ↦ rw old (persist-IsSound s w)
  | inr new ↦ rw new w
]

running_changed :
    (s : Latch) (document : List Incident) (p : Phase)
    → s.persisted_revision ≤ s.revision
    → PhaseSound p s
    → PhaseSound p (record s { document = document; revision = s.revision + 1 })
unfolding PhaseSound
running_changed s document idle b r = tt
running_changed s document (opening t) b r = omega arith
running_changed s document (writing t d) b (r, same, kept) =
    (omega arith, λ h. absurd (omega arith), λ h. absurd (omega arith))
running_changed s document (renamed t) b (r, same) = (omega arith, λ h. absurd (omega arith))

changed-IsSound : (document : List Incident) (s : Latch) → IsSound s → IsSound (changed document s)
unfolding changed
changed-IsSound document s w =
    persist-IsSound (record s { document = document; revision = s.revision + 1 })
      (record {
        waiting = AllAtMost-suc s.revision s.queue w.waiting;
        behind = omega (arith, w.behind);
        running = running_changed s document s.phase w.behind w.running;
        durable = λ h. absurd (omega (arith, w.behind));
      })

begin_write-IsSound :
    (ts : List ℕ) (s s' : Latch)
    → s.queue ≡ ts
    → IsSound s
    → begin_write ts s ≡ some s'
    → IsSound s'
unfolding begin_write AllAtMost PhaseSound
begin_write-IsSound [] s s' q w e = absurd (cc)
begin_write-IsSound (t ∷ ts) s s' q w e =
    let (one, all) = subst (AllAtMost s.revision) q w.waiting in
    subst IsSound (some_injective e)
      (record { waiting = all; behind = w.behind; running = one; durable = w.durable })

completed :
    (persisted t revision : ℕ) (contents document : List Incident)
    → (t ≡ revision → contents ≡ document)
    → (persisted ≡ revision → contents ≡ document)
    → max persisted t ≡ revision
    → contents ≡ document
completed persisted t revision contents document same kept g =
    elim (Bool-cases (persisted == revision)) [
      | inl yes_ ↦ kept ((==_iff _ _).0 yes_)
      | inr no_ ↦ same (ground arith)
    ]

write-IsSound :
    (e : WriteEvent) (p : Phase) (s s' : Latch)
    → s.phase ≡ p
    → IsSound s
    → write e p s ≡ some s'
    → IsSound s'
unfolding write PhaseSound
write-IsSound begins idle s s' h w e = begin_write-IsSound s.queue s s' refl w e
write-IsSound reads_document (opening t) s s' h w e =
    let r : PhaseSound (opening t) s = subst (λ p. PhaseSound p s) h w.running in
    subst IsSound (some_injective e) (record {
      waiting = w.waiting;
      behind = w.behind;
      running = (r, λ g. refl, λ g. refl);
      durable = w.durable;
    })
write-IsSound renames (writing t contents) s s' h w e =
    let r : PhaseSound (writing t contents) s = subst (λ p. PhaseSound p s) h w.running in
    subst IsSound (some_injective e)
      (record { waiting = w.waiting; behind = w.behind; running = (r.0, r.1); durable = r.2 })
write-IsSound completes (renamed t) s s' h w e =
    let r : PhaseSound (renamed t) s = subst (λ p. PhaseSound p s) h w.running in
    subst IsSound (some_injective e) (record {
      waiting = w.waiting;
      behind = omega (arith, w.behind, r.0);
      running = tt;
      durable = λ g. completed s.persisted_revision t s.revision s.disk s.document r.1 w.durable g;
    })
write-IsSound fails_before_rename (opening t) s s' h w e =
    subst IsSound (some_injective e)
      (record { waiting = w.waiting; behind = w.behind; running = tt; durable = w.durable })
write-IsSound fails_before_rename (writing t contents) s s' h w e =
    subst IsSound (some_injective e)
      (record { waiting = w.waiting; behind = w.behind; running = tt; durable = w.durable })
write-IsSound fails_after_rename (renamed t) s s' h w e =
    subst IsSound (some_injective e)
      (record { waiting = w.waiting; behind = w.behind; running = tt; durable = w.durable })
write-IsSound _ _ s s' h w e = absurd (cc)

pub if-eq :
    {A : Type 0} (b : Bool) (x y : Result A) {r : Result A}
    → (if b then x else y) ≡ r
    → (x ≡ r) ⊎ (y ≡ r)
if-eq true x y e = inl e
if-eq false x y e = inr e

found-IsSound :
    (id : String) (at : ℕ) (s s' : Latch) (i : Incident) (before : Bool) (found : Option Incident)
    → IsSound s
    → clear_found id at s found ≡ ok (i, before, s')
    → IsSound s'
unfolding clear_found
found-IsSound id at s s' i before none w e = absurd (cc)
found-IsSound id at s s' i before (some j) w e =
    elim (if-eq (is_active j)
      (guard (leb j.last_observed_at at) assertion
        >> ok (clear at j, false, changed (clear_first id at s.document) s))
      (ok (j, true, s)) e) [
        | inl e1 ↦
            let (_, e2) = guard-eq-ok (leb j.last_observed_at at) assertion _ e1 in
            subst (λ (d : Incident × Bool × Latch). IsSound d.2) (ok_injective e2)
              (changed-IsSound _ s w)
        | inr e1 ↦ subst (λ (d : Incident × Bool × Latch). IsSound d.2) (ok_injective e1) w
      ]

recorded-IsSound :
    (program stage : String) (round_id at : ℕ) (outcome : List ℕ) (s s' : Latch) (i : Incident)
    (new : Bool) (found : Option Incident)
    → IsSound s
    → recorded program round_id stage outcome at s found ≡ ok (i, new, s')
    → IsSound s'
unfolding recorded
recorded-IsSound program stage round_id at outcome s s' i new none w e =
    subst (λ (d : Incident × Bool × Latch). IsSound d.2) (ok_injective e) (changed-IsSound _ s w)
recorded-IsSound program stage round_id at outcome s s' i new (some j) w e =
    subst (λ (d : Incident × Bool × Latch). IsSound d.2) (ok_injective e) (flush-IsSound s w)

Step-IsSound : (program : String) (s s' : Latch) → IsSound s → Step program s s' → IsSound s'
unfolding record_incident clear_exact
Step-IsSound program s s' w (records round stage outcome observed i e) =
    let (round_id, _, e1) = >>=-eq-ok (safe_count round) _ e in
    let (name, _, e2) = >>=-eq-ok (stage_of stage) _ e1 in
    let (at, _, e3) = >>=-eq-ok (safe_count observed) _ e2 in
    recorded-IsSound program name round_id at outcome s s' i _ _ w e3
Step-IsSound program s s' w (clears acknowledgement cleared i e) =
    let (id, _, e1) = >>=-eq-ok (acknowledged acknowledgement) _ e in
    let (at, _, e2) = >>=-eq-ok (safe_count cleared) _ e1 in found-IsSound id at s s' i _ _ w e2
Step-IsSound program s s' w flushes = flush-IsSound s w
Step-IsSound program s s' w (writes event e) = write-IsSound event s.phase s s' refl w e

Steps-IsSound : (program : String) (s s' : Latch) → IsSound s → Steps program s s' → IsSound s'
Steps-IsSound program s s' w start = w
Steps-IsSound program s s' w (then_step {t = t} before one) =
    Step-IsSound program t s' (Steps-IsSound program s t w before) one

-- After any sequence of calls and write events from a loaded document, in which writes may fail
-- before or after the rename, the persisted revision is at most the revision, and where they are
-- equal the file holds the document.
pub persisted_revision-durable :
    (program : String) (incidents : List Incident) (s : Latch)
    → Steps program (loaded incidents) s
    → (s.persisted_revision ≤ s.revision)
      × (s.persisted_revision ≡ s.revision → s.disk ≡ s.document)
persisted_revision-durable program incidents s steps =
    let w = Steps-IsSound program (loaded incidents) s (loaded-IsSound incidents) steps in
    (w.behind, w.durable)
