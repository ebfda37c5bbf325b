-- ===== src/Incidents/Columns.antt =====
-- The incident file as it is read when a latch is created: `validateIncident` and the list part of
-- `readIncidentDocument`. A column that holds a text has its code units beside it.
use myne.Incidents.{
  non_negative, safe_integer, Incident, incident_id, safe_count, stage_of, is_stage,
}
use myne.Js.{non_negative, is_safe_int, safe_integer, Value, text, number, null}
use myne.Base.{
  sym, ap, [], refl, length, has, ◌^◌, not, leb, ◌>>=◌, ◌<◌, eq_iff, assertion, ◌≤◌, ◌∷◌, true,
  none, false, err, assert, arith, ◌≡◌, ◌>>◌, str_eq, some, ok, List, String, Result, Option, Bool,
  ℕ,
}
use myne.Base.Int.{pos}

pub record IncidentColumns : Type 0 where
  pub id : Value
  pub program_id : Value
  pub round_id : Value
  pub stage : Value
  pub first_observed_at : Value
  pub last_observed_at : Value
  pub occurrences : Value
  pub outcome : Option (List ℕ)
  pub cleared_at : Value

unfoldable pub is_text : Value → String → Bool
is_text (text s) t = str_eq s t
is_text _ t = false

unfoldable pub outcome_of : Option (List ℕ) → Result (List ℕ)
outcome_of none = err assertion
outcome_of (some us) = do assert (leb (length us) 512); ok us

unfoldable pub cleared_of : Value → ℕ → Result (Option ℕ)
cleared_of null last = ok none
cleared_of v last = do at ← safe_count v; assert (leb last at); ok (some at)

unfoldable pub validate_incident : String → IncidentColumns → Result Incident
validate_incident program_id c = do
  assert (is_text c.program_id program_id)
  round_id ← safe_count c.round_id
  stage ← stage_of c.stage
  first ← safe_count c.first_observed_at
  last ← safe_count c.last_observed_at
  assert (leb first last)
  occurrences ← safe_count c.occurrences
  assert (leb 1 occurrences)
  outcome ← outcome_of c.outcome
  cleared_at ← cleared_of c.cleared_at last
  assert (is_text c.id (incident_id program_id round_id stage first))
  ok (record {
    id = incident_id program_id round_id stage first;
    program_id = program_id;
    round_id = round_id;
    stage = stage;
    first_observed_at = first;
    last_observed_at = last;
    occurrences = occurrences;
    outcome = outcome;
    cleared_at = cleared_at;
  })

unfoldable pub read_incidents : String → List String → List IncidentColumns → Result (List Incident)
read_incidents program_id ids [] = ok []
read_incidents program_id ids (c ∷ cs) = validate_incident program_id c >>= λ i.
    let rest = read_incidents program_id (i.id ∷ ids) cs in
    assert (not (has ids i.id)) >> (rest >>= λ is. ok (i ∷ is))

-- The columns that the file keeps of an incident.
unfoldable pub columns : Incident → IncidentColumns
columns i = record {
  id = text i.id;
  program_id = text i.program_id;
  round_id = number (pos i.round_id);
  stage = text i.stage;
  first_observed_at = number (pos i.first_observed_at);
  last_observed_at = number (pos i.last_observed_at);
  occurrences = number (pos i.occurrences);
  outcome = some i.outcome;
  cleared_at = elim i.cleared_at [ none ↦ null | some t ↦ number (pos t) ];
}

-- What a latch keeps true of each incident of its document.
pub record IsRecorded (program_id : String) (i : Incident) : Type 0 where
  pub same_program : i.program_id ≡ program_id
  pub known_stage : is_stage i.stage ≡ true
  pub safe_round : i.round_id < 2 ^ 53
  pub safe_last : i.last_observed_at < 2 ^ 53
  pub ordered : i.first_observed_at ≤ i.last_observed_at
  pub counted : (1 ≤ i.occurrences) × (i.occurrences < 2 ^ 53)
  pub short : length i.outcome ≤ 512
  pub cleared_late : (t : ℕ) → i.cleared_at ≡ some t → (i.last_observed_at ≤ t) × (t < 2 ^ 53)
  pub own_id : i.id ≡ incident_id program_id i.round_id i.stage i.first_observed_at

safe_count-number : (n : ℕ) → n < 2 ^ 53 → safe_count (number (pos n)) ≡ ok n
unfolding safe_count safe_integer is_safe_int non_negative
safe_count-number n h = ground arith

is_text_refl : (s : String) → is_text (text s) s ≡ true
unfolding is_text
is_text_refl s = ground (arith, eq_iff s s)

stage_of-text : (s : String) → is_stage s ≡ true → stage_of (text s) ≡ ok s
unfolding stage_of
stage_of-text s h = ground arith

cleared_of-columns :
    (last : ℕ) (c : Option ℕ)
    → ((t : ℕ) → c ≡ some t → (last ≤ t) × (t < 2 ^ 53))
    → cleared_of (elim c [ none ↦ null | some t ↦ number (pos t) ]) last ≡ ok c
unfolding cleared_of
cleared_of-columns last none h = refl
cleared_of-columns last (some t) h =
    let (late, safe) = h t refl in rw (safe_count-number t safe) (ground arith)

guarded : {A : Type 0} (b : Bool) (k : Result A) → b ≡ true → (assert b >> k) ≡ k
guarded b k h = cc

le-leb : (a b : ℕ) → a ≤ b → leb a b ≡ true
le-leb a b h = ground arith

record_eq :
    (program_id : String) (i : Incident)
    → IsRecorded program_id i
    → record i {
      id = incident_id program_id i.round_id i.stage i.first_observed_at;
      program_id = program_id;
    }
      ≡ i
record_eq program_id i r = λ j. record i { id = sym r.own_id j; program_id = sym r.same_program j }

-- An incident of this form is read back from its columns unchanged.
pub validate_incident-columns :
    (program_id : String) (i : Incident)
    → IsRecorded program_id i
    → validate_incident program_id (columns i) ≡ ok i
unfolding validate_incident columns outcome_of
validate_incident-columns program_id i r =
    let first = safe_count-number i.first_observed_at (omega (arith, r.ordered, r.safe_last)) in
    simp
      (
        r.same_program,
        is_text_refl program_id,
        safe_count-number i.round_id r.safe_round,
        stage_of-text i.stage r.known_stage,
        first,
        safe_count-number i.last_observed_at r.safe_last,
        safe_count-number i.occurrences r.counted.1,
        cleared_of-columns i.last_observed_at i.cleared_at r.cleared_late,
        r.own_id,
        is_text_refl (incident_id program_id i.round_id i.stage i.first_observed_at),
        le-leb i.first_observed_at i.last_observed_at r.ordered,
        le-leb 1 i.occurrences r.counted.0,
        le-leb (length i.outcome) 512 r.short,
      )
      (ap ok (record_eq program_id i r))
