-- ===== src/Incidents/Reload.antt =====
-- What a latch leaves on disk is what the next latch reads: the calls and the write events keep every
-- incident in the form that `readIncidentDocument` accepts.
use myne.Incidents.{
  renamed, renames, Incident, Latch, Phase, idle, opening, writing, WriteEvent, begins,
  reads_document, completes, fails_before_rename, fails_after_rename, Step, Steps, records, clears,
  flushes, writes, start, then_step, loaded, persist, flush, changed, opened, take, is_stage,
  stage_of, safe_count, find, has_id, clear, clear_first, clear_found, recorded, acknowledged,
  is_active, record_incident, clear_exact, begin_write, write,
}
use myne.Incidents.Durable.{if-eq}
use myne.Incidents.Columns.{IncidentColumns, IsRecorded, columns, read_incidents}
use myne.Base.{
  some_injective, ℕ, zero, suc, ◌≤◌, ◌<◌, ◌^◌, ◌≡◌, refl, sym, subst, String, Bool, true, false,
  ltb, Bool-cases, inl, inr, List, [], ◌∷◌, ◌++◌, map, length, All, Option, none, some, ok, guard,
  assertion, ◌>>◌, >>=-eq-ok, guard-eq-ok, ok_injective, leb, has, distinct, arith,
}
use myne.Incidents.Reading.{
  safe_count-safe, stage_of-is_stage, read_incidents-All, read_incidents-columns,
}

-- What the latch knows of its document, its file and the write that runs.
PhaseReadable : String → Phase → Type 0
PhaseReadable program_id idle = Unit
PhaseReadable program_id (opening t) = Unit
PhaseReadable program_id (renamed t) = Unit
PhaseReadable program_id (writing t contents) = All (IsRecorded program_id) contents

record IsReadable (program_id : String) (s : Latch) : Type 0 where
  document : All (IsRecorded program_id) s.document
  disk : All (IsRecorded program_id) s.disk
  running : PhaseReadable program_id s.phase

All-snoc :
    (program_id : String) (is : List Incident) (i : Incident)
    → All (IsRecorded program_id) is
    → IsRecorded program_id i
    → All (IsRecorded program_id) (is ++ i ∷ [])
All-snoc program_id [] i all one = (one, tt)
All-snoc program_id (j ∷ is) i (here, all) one = (here, All-snoc program_id is i all one)

length-take : (n : ℕ) (us : List ℕ) → length (take n us) ≤ n
unfolding take
length-take zero us = omega arith
length-take (suc n) [] = omega arith
length-take (suc n) (u ∷ us) = omega (arith, length-take n us)

opened-IsRecorded :
    (program_id stage : String) (round_id at : ℕ) (outcome : List ℕ)
    → is_stage stage ≡ true
    → round_id < 2 ^ 53
    → at < 2 ^ 53
    → IsRecorded program_id (opened program_id round_id stage outcome at)
unfolding opened
opened-IsRecorded program_id stage round_id at outcome named r a = record {
  same_program = refl;
  known_stage = named;
  safe_round = r;
  safe_last = a;
  ordered = omega arith;
  counted = (omega arith, omega arith);
  short = length-take 512 outcome;
  cleared_late = λ t h. absurd (cc);
  own_id = refl;
}

flush-IsReadable :
    (program_id : String) (s : Latch) → IsReadable program_id s → IsReadable program_id (flush s)
unfolding flush persist
flush-IsReadable program_id s w = elim (Bool-cases (ltb s.persisted_revision s.revision)) [
  | inl old ↦ rw old (record { document = w.document; disk = w.disk; running = w.running })
  | inr new ↦ rw new w
]

changed-IsReadable :
    (program_id : String) (is : List Incident) (s : Latch)
    → IsReadable program_id s
    → All (IsRecorded program_id) is
    → IsReadable program_id (changed is s)
unfolding changed persist
changed-IsReadable program_id is s w all = record {
  document = all;
  disk = w.disk;
  running = w.running;
}

clear-IsRecorded :
    (program_id : String) (i : Incident) (at : ℕ)
    → IsRecorded program_id i
    → i.last_observed_at ≤ at
    → at < 2 ^ 53
    → IsRecorded program_id (clear at i)
unfolding clear
clear-IsRecorded program_id i at r late safe = record {
  same_program = r.same_program;
  known_stage = r.known_stage;
  safe_round = r.safe_round;
  safe_last = r.safe_last;
  ordered = r.ordered;
  counted = r.counted;
  short = r.short;
  cleared_late = λ t h. ground arith;
  own_id = r.own_id;
}

-- The incident that is found is the one that is changed.
clear_first-All :
    (program_id id : String) (at : ℕ) (is : List Incident) (i : Incident)
    → find (has_id id) is ≡ some i
    → i.last_observed_at ≤ at
    → at < 2 ^ 53
    → All (IsRecorded program_id) is
    → All (IsRecorded program_id) (clear_first id at is)
unfolding find clear_first
clear_first-All program_id id at [] i e late safe all = tt
clear_first-All program_id id at (j ∷ is) i e late safe (here, all) =
    elim (Bool-cases (has_id id j)) [
      | inl found ↦
          let same : j ≡ i = some_injective (rw found at e) in
          rw found (clear-IsRecorded program_id j at here (rw same late) safe, all)
      | inr other ↦
          rw other (here, clear_first-All program_id id at is i (rw other at e) late safe all)
    ]

recorded-IsReadable :
    (program_id stage : String) (round_id at : ℕ) (outcome : List ℕ) (s s' : Latch) (i : Incident)
    (new : Bool) (found : Option Incident)
    → is_stage stage ≡ true
    → round_id < 2 ^ 53
    → at < 2 ^ 53
    → IsReadable program_id s
    → recorded program_id round_id stage outcome at s found ≡ ok (i, new, s')
    → IsReadable program_id s'
unfolding recorded
recorded-IsReadable program_id stage round_id at outcome s s' i new none named r a w e =
    let one = opened-IsRecorded program_id stage round_id at outcome named r a in
    subst (λ (d : Incident × Bool × Latch). IsReadable program_id d.2) (ok_injective e)
      (changed-IsReadable program_id _ s w (All-snoc program_id s.document _ w.document one))
recorded-IsReadable program_id stage round_id at outcome s s' i new (some j) named r a w e =
    subst (λ (d : Incident × Bool × Latch). IsReadable program_id d.2) (ok_injective e)
      (flush-IsReadable program_id s w)

found-IsReadable :
    (program_id id : String) (at : ℕ) (s s' : Latch) (i : Incident) (before : Bool)
    (found : Option Incident)
    → found ≡ find (has_id id) s.document
    → at < 2 ^ 53
    → IsReadable program_id s
    → clear_found id at s found ≡ ok (i, before, s')
    → IsReadable program_id s'
unfolding clear_found
found-IsReadable program_id id at s s' i before none here a w e = absurd (cc)
found-IsReadable program_id id at s s' i before (some j) here a w e =
    elim (if-eq (is_active j)
      (guard (leb j.last_observed_at at) assertion
        >> ok (clear at j, false, changed (clear_first id at s.document) s))
      (ok (j, true, s)) e) [
        | inl e1 ↦
            let (late, e2) = guard-eq-ok (leb j.last_observed_at at) assertion _ e1 in
            let all =
              clear_first-All program_id id at s.document j (sym here) (ground arith) a
                w.document in
            subst (λ (d : Incident × Bool × Latch). IsReadable program_id d.2) (ok_injective e2)
              (changed-IsReadable program_id _ s w all)
        | inr e1 ↦
            subst (λ (d : Incident × Bool × Latch). IsReadable program_id d.2) (ok_injective e1) w
      ]

begin_write-IsReadable :
    (program_id : String) (ts : List ℕ) (s s' : Latch)
    → IsReadable program_id s
    → begin_write ts s ≡ some s'
    → IsReadable program_id s'
unfolding begin_write PhaseReadable
begin_write-IsReadable program_id [] s s' w e = absurd (cc)
begin_write-IsReadable program_id (t ∷ ts) s s' w e =
    subst (IsReadable program_id) (some_injective e)
      (record { document = w.document; disk = w.disk; running = tt })

write-IsReadable :
    (program_id : String) (e : WriteEvent) (p : Phase) (s s' : Latch)
    → s.phase ≡ p
    → IsReadable program_id s
    → write e p s ≡ some s'
    → IsReadable program_id s'
unfolding write PhaseReadable
write-IsReadable program_id begins idle s s' h w e =
    begin_write-IsReadable program_id s.queue s s' w e
write-IsReadable program_id reads_document (opening t) s s' h w e =
    subst (IsReadable program_id) (some_injective e)
      (record { document = w.document; disk = w.disk; running = w.document })
write-IsReadable program_id completes (renamed t) s s' h w e =
    subst (IsReadable program_id) (some_injective e)
      (record { document = w.document; disk = w.disk; running = tt })
write-IsReadable program_id renames (writing t contents) s s' h w e =
    let carried = subst (PhaseReadable program_id) h w.running in
    subst (IsReadable program_id) (some_injective e)
      (record { document = w.document; disk = carried; running = tt })
write-IsReadable program_id fails_before_rename (opening t) s s' h w e =
    subst (IsReadable program_id) (some_injective e)
      (record { document = w.document; disk = w.disk; running = tt })
write-IsReadable program_id fails_before_rename (writing t contents) s s' h w e =
    subst (IsReadable program_id) (some_injective e)
      (record { document = w.document; disk = w.disk; running = tt })
write-IsReadable program_id fails_after_rename (renamed t) s s' h w e =
    subst (IsReadable program_id) (some_injective e)
      (record { document = w.document; disk = w.disk; running = tt })
write-IsReadable program_id _ _ s s' h w e = absurd (cc)

Step-IsReadable :
    (program_id : String) (s s' : Latch)
    → IsReadable program_id s
    → Step program_id s s'
    → IsReadable program_id s'
unfolding record_incident clear_exact
Step-IsReadable program_id s s' w (records round stage outcome observed i e) =
    let (round_id, r, e1) = >>=-eq-ok (safe_count round) _ e in
    let (name, n, e2) = >>=-eq-ok (stage_of stage) _ e1 in
    let (at, a, e3) = >>=-eq-ok (safe_count observed) _ e2 in
    recorded-IsReadable program_id name round_id at outcome s s' i _ _
      (stage_of-is_stage stage name n) (safe_count-safe round round_id r)
      (safe_count-safe observed at a) w e3
Step-IsReadable program_id s s' w (clears acknowledgement cleared i e) =
    let (id, _, e1) = >>=-eq-ok (acknowledged acknowledgement) _ e in
    let (at, a, e2) = >>=-eq-ok (safe_count cleared) _ e1 in
    found-IsReadable program_id id at s s' i _ _ refl (safe_count-safe cleared at a) w e2
Step-IsReadable program_id s s' w flushes = flush-IsReadable program_id s w
Step-IsReadable program_id s s' w (writes event e) =
    write-IsReadable program_id event s.phase s s' refl w e

Steps-IsReadable :
    (program_id : String) (s s' : Latch)
    → IsReadable program_id s
    → Steps program_id s s'
    → IsReadable program_id s'
Steps-IsReadable program_id s s' w start = w
Steps-IsReadable program_id s s' w (then_step {t = t} before one) =
    Step-IsReadable program_id t s' (Steps-IsReadable program_id s t w before) one

loaded-IsReadable :
    (program_id : String) (is : List Incident)
    → All (IsRecorded program_id) is
    → IsReadable program_id (loaded is)
unfolding loaded PhaseReadable
loaded-IsReadable program_id is all = record { document = all; disk = all; running = tt }

-- From a document that was read, after any sequence of calls and write events, in which writes may
-- fail before or after the rename, the incidents on disk are read back unchanged from their
-- columns, provided that no two of them have the same id.
pub read_incidents-columns_of_disk :
    (program_id : String) (cs : List IncidentColumns) (is : List Incident) (s : Latch)
    → read_incidents program_id [] cs ≡ ok is
    → Steps program_id (loaded is) s
    → distinct (map (λ (i : Incident). i.id) s.disk) ≡ true
    → read_incidents program_id [] (map columns s.disk) ≡ ok s.disk
unfolding has
read_incidents-columns_of_disk program_id cs is s read steps d =
    let first = loaded-IsReadable program_id is (read_incidents-All program_id [] cs is read) in
    let last = Steps-IsReadable program_id (loaded is) s first steps in
    read_incidents-columns program_id [] s.disk last.disk d (λ k h. absurd (cc))
