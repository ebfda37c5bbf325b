-- ===== src/Incidents/Reading.antt =====
-- What `readIncidentDocument` accepts has the form that a latch keeps, and what has this form is read
-- back from its columns.
use myne.Js.{Value, safe_integer, is_safe_int, non_negative}
use myne.Incidents.{Incident, incident_id, is_stage, stage_of, safe_count}
use myne.Incidents.Columns.{
  IncidentColumns, IsRecorded, columns, is_text, outcome_of, cleared_of, validate_incident,
  read_incidents, validate_incident-columns,
}
use myne.Base.{
  ℕ, ◌≤◌, ◌<◌, ◌^◌, ◌≡◌, refl, subst, String, eq_iff, true, false, not, Bool-cases, inl, inr, List,
  [], ◌∷◌, map, length, All, Option, some, ok, assertion, >>=-eq-ok, guard-eq-ok, ok_injective, leb,
  has, distinct, arith,
}

pub safe_count-safe : (v : Value) (n : ℕ) → safe_count v ≡ ok n → n < 2 ^ 53
unfolding safe_count safe_integer is_safe_int non_negative
safe_count-safe v n e = ground arith

pub stage_of-is_stage : (v : Value) (s : String) → stage_of v ≡ ok s → is_stage s ≡ true
unfolding stage_of
stage_of-is_stage v s e = ground arith

outcome_of-short : (o : Option (List ℕ)) (us : List ℕ) → outcome_of o ≡ ok us → length us ≤ 512
unfolding outcome_of
outcome_of-short o us e = ground arith

cleared_of-late :
    (v : Value) (last : ℕ) (c : Option ℕ)
    → cleared_of v last ≡ ok c
    → (t : ℕ) → c ≡ some t
    → (last ≤ t) × (t < 2 ^ 53)
unfolding cleared_of
cleared_of-late v last c e t same = ground (arith, safe_count-safe v t)

-- An incident that is read has the form that a latch keeps.
validate_incident-IsRecorded :
    (program_id : String) (c : IncidentColumns) (i : Incident)
    → validate_incident program_id c ≡ ok i
    → IsRecorded program_id i
unfolding validate_incident
validate_incident-IsRecorded program_id c i e =
    let (_, e1) = guard-eq-ok (is_text c.program_id program_id) assertion _ e in
    let (round_id, round, e2) = >>=-eq-ok (safe_count c.round_id) _ e1 in
    let (stage, named, e3) = >>=-eq-ok (stage_of c.stage) _ e2 in
    let (first, _, e4) = >>=-eq-ok (safe_count c.first_observed_at) _ e3 in
    let (last, seen, e5) = >>=-eq-ok (safe_count c.last_observed_at) _ e4 in
    let (order, e6) = guard-eq-ok (leb first last) assertion _ e5 in
    let (occurrences, count, e7) = >>=-eq-ok (safe_count c.occurrences) _ e6 in
    let (some_, e8) = guard-eq-ok (leb 1 occurrences) assertion _ e7 in
    let (outcome, cut, e9) = >>=-eq-ok (outcome_of c.outcome) _ e8 in
    let (cleared_at, late, e10) = >>=-eq-ok (cleared_of c.cleared_at last) _ e9 in
    let (_, e11) =
      guard-eq-ok (is_text c.id (incident_id program_id round_id stage first)) assertion _ e10 in
    subst (IsRecorded program_id) (ok_injective e11) (record {
      same_program = refl;
      known_stage = stage_of-is_stage c.stage stage named;
      safe_round = safe_count-safe c.round_id round_id round;
      safe_last = safe_count-safe c.last_observed_at last seen;
      ordered = ground arith;
      counted = (ground arith, safe_count-safe c.occurrences occurrences count);
      short = outcome_of-short c.outcome outcome cut;
      cleared_late = cleared_of-late c.cleared_at last cleared_at late;
      own_id = refl;
    })

pub read_incidents-All :
    (program_id : String) (ids : List String) (cs : List IncidentColumns) (is : List Incident)
    → read_incidents program_id ids cs ≡ ok is
    → All (IsRecorded program_id) is
unfolding read_incidents
read_incidents-All program_id ids [] is e = subst (All (IsRecorded program_id)) (ok_injective e) tt
read_incidents-All program_id ids (c ∷ cs) is e =
    let (i, one, e1) = >>=-eq-ok (validate_incident program_id c) _ e in
    let (_, e2) = guard-eq-ok (not (has ids i.id)) assertion _ e1 in
    let (others, rest, e3) = >>=-eq-ok (read_incidents program_id (i.id ∷ ids) cs) _ e2 in
    subst (All (IsRecorded program_id)) (ok_injective e3) (
      validate_incident-IsRecorded program_id c i one,
      read_incidents-All program_id (i.id ∷ ids) cs others rest,
    )

-- Incidents of this form whose ids are new are read as they are.
pub read_incidents-columns :
    (program_id : String) (ids : List String) (is : List Incident)
    → All (IsRecorded program_id) is
    → distinct (map (λ (i : Incident). i.id) is) ≡ true
    → ((k : String) → has ids k ≡ true → has (map (λ (i : Incident). i.id) is) k ≡ false)
    → read_incidents program_id ids (map columns is) ≡ ok is
unfolding read_incidents distinct has
read_incidents-columns program_id ids [] all d new = refl
read_incidents-columns program_id ids (i ∷ is) (one, all) d new =
    let fresh : has ids i.id ≡ false = elim (Bool-cases (has ids i.id)) [
      | inr outside ↦ outside
      | inl inside ↦ absurd (ground (arith, new i.id inside, eq_iff i.id i.id))
    ] in
    let rest =
      read_incidents-columns program_id (i.id ∷ ids) is all (ground arith)
        (λ k h. ground (arith, new k, eq_iff i.id k)) in
    rw (validate_incident-columns program_id i one, fresh, rest) refl
