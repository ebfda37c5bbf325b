-- ===== src/Incidents.antt =====
-- Protocol/scripts/round-deadline-incident-latch.mjs: the history of missed deadlines and its file.
-- An outcome is the list of its UTF-16 code units. The file system's part is the sequence of the
-- write's events: the document is read for the file when its handle has been opened, and a rename
-- puts it in place at once. A file that is absent counts as an empty document.
pub mod Columns
pub mod Active
pub mod Durable
pub mod Reading
pub mod Reload
use Prim.Native.String.{◌++◌ as append}
use myne.Js.{Value, number, text, to_string, safe_integer, non_negative}
use myne.Base.{
  zero, not, leb, ◌||◌, ◌&&◌, true, suc, false, assertion, assert, ◌≡◌, ◌∷◌, ◌>>◌, ◌>>=◌, ◌==◌, ◌+◌,
  str_eq, ok, none, max, ltb, err, [], ◌++◌, some, if◌then◌else◌, Result, Option, List, Bool, ℕ,
  String,
}
use myne.Base.Int.{pos}

pub record Incident : Type 0 where
  pub id : String
  pub program_id : String
  pub round_id : ℕ
  pub stage : String
  pub first_observed_at : ℕ
  pub last_observed_at : ℕ
  pub occurrences : ℕ
  pub outcome : List ℕ
  pub cleared_at : Option ℕ

-- `ROUND_DEADLINE_VIOLATION_STAGES`
unfoldable pub is_stage : String → Bool
is_stage s =
    str_eq s "prepare-deadline-missed"
    || str_eq s "next-prebind-deadline-missed"
    || str_eq s "lock-deadline-missed"
    || str_eq s "settlement-deadline-missed"

unfoldable pub incident_id : String → ℕ → String → ℕ → String
incident_id program_id round_id stage first_observed_at = append program_id (
    append ":" (
      append (to_string (number (pos round_id)))
        (append ":" (append stage (append ":" (to_string (number (pos first_observed_at))))))))

-- `Number.isSafeInteger(value) && value >= 0`
unfoldable pub safe_count : Value → Result ℕ
safe_count v = safe_integer v >>= non_negative assertion

unfoldable pub stage_of : Value → Result String
stage_of (text s) = if is_stage s then ok s else err assertion
stage_of _ = err assertion

unfoldable pub is_active : Incident → Bool
is_active i = elim i.cleared_at [ none ↦ true | some t ↦ false ]

unfoldable pub is_open_for : ℕ → String → Incident → Bool
is_open_for round_id stage i = (i.round_id == round_id) && str_eq i.stage stage && is_active i

unfoldable pub find : (Incident → Bool) → List Incident → Option Incident
find p [] = none
find p (i ∷ is) = let rest = find p is in if p i then some i else rest

unfoldable pub active_incidents : List Incident → List Incident
active_incidents [] = []
active_incidents (i ∷ is) = let rest = active_incidents is in if is_active i then i ∷ rest else rest

unfoldable pub take : ℕ → List ℕ → List ℕ
take zero us = []
take (suc n) [] = []
take (suc n) (u ∷ us) = u ∷ take n us

unfoldable pub opened : String → ℕ → String → List ℕ → ℕ → Incident
opened program_id round_id stage outcome observed_at = record {
  id = incident_id program_id round_id stage observed_at;
  program_id = program_id;
  round_id = round_id;
  stage = stage;
  first_observed_at = observed_at;
  last_observed_at = observed_at;
  occurrences = 1;
  outcome = take 512 outcome;
  cleared_at = none;
}

-- The write that is running: none, one that has not read the document yet, one that carries the
-- document it read, and one whose file is in place. The number is its target revision.
pub data Phase : Type 0 where
  idle : Phase
  opening : ℕ → Phase
  writing : ℕ → List Incident → Phase
  renamed : ℕ → Phase

pub record Latch : Type 0 where
  pub document : List Incident
  pub revision : ℕ
  pub persisted_revision : ℕ
  pub queue : List ℕ
  pub phase : Phase
  pub disk : List Incident

unfoldable pub loaded : List Incident → Latch
loaded incidents = record {
  document = incidents;
  revision = 0;
  persisted_revision = 0;
  queue = [];
  phase = idle;
  disk = incidents;
}

unfoldable pub persist : Latch → Latch
persist s = record s { queue = s.queue ++ s.revision ∷ [] }

unfoldable pub flush : Latch → Latch
flush s = if ltb s.persisted_revision s.revision then persist s else s

unfoldable pub changed : List Incident → Latch → Latch
changed document s = persist (record s { document = document; revision = s.revision + 1 })

unfoldable pub recorded :
    String → ℕ → String → List ℕ → ℕ → Latch → Option Incident → Result (Incident × Bool × Latch)
recorded program_id round_id stage outcome observed_at s (some i) = ok (i, false, flush s)
recorded program_id round_id stage outcome observed_at s none =
    let i = opened program_id round_id stage outcome observed_at in
    ok (i, true, changed (s.document ++ i ∷ []) s)

-- `record`: the incident, whether it is new, and the latch afterwards.
unfoldable pub record_incident :
    String → Value → Value → List ℕ → Value → Latch → Result (Incident × Bool × Latch)
record_incident program_id round stage_value outcome observed s = do
  round_id ← safe_count round
  stage ← stage_of stage_value
  observed_at ← safe_count observed
  recorded program_id round_id stage outcome observed_at s
      (find (is_open_for round_id stage) s.document)

unfoldable pub has_id : String → Incident → Bool
has_id acknowledgement i = str_eq i.id acknowledgement

unfoldable pub clear : ℕ → Incident → Incident
clear at i = record i { cleared_at = some at }

-- The first incident of the id is changed in place.
unfoldable pub clear_first : String → ℕ → List Incident → List Incident
clear_first acknowledgement at [] = []
clear_first acknowledgement at (i ∷ is) =
    let rest = clear_first acknowledgement at is in
    if has_id acknowledgement i then clear at i ∷ is else i ∷ rest

unfoldable pub acknowledged : Value → Result String
acknowledged (text s) = do assert (not (str_eq s "")); ok s
acknowledged _ = err assertion

unfoldable pub clear_found : String → ℕ → Latch → Option Incident → Result (Incident × Bool × Latch)
clear_found id at s none = err assertion
clear_found id at s (some i) =
    if is_active i
    then (do
      assert (leb i.last_observed_at at)
      ok (clear at i, false, changed (clear_first id at s.document) s))
    else ok (i, true, s)

-- `clearExact`: the incident, whether it was cleared before, and the latch afterwards.
unfoldable pub clear_exact : Value → Value → Latch → Result (Incident × Bool × Latch)
clear_exact acknowledgement cleared s = do
  id ← acknowledged acknowledgement
  at ← safe_count cleared
  clear_found id at s (find (has_id id) s.document)

-- A write may fail before the rename, or after it, when the directory is synced.
pub data WriteEvent : Type 0 where
  begins reads_document renames completes fails_before_rename fails_after_rename : WriteEvent

unfoldable pub begin_write : List ℕ → Latch → Option Latch
begin_write [] s = none
begin_write (t ∷ ts) s = some (record s { queue = ts; phase = opening t })

-- `persist`'s queued operation and `writeIncidentDocument`.
unfoldable pub write : WriteEvent → Phase → Latch → Option Latch
write begins idle s = begin_write s.queue s
write reads_document (opening t) s = some (record s { phase = writing t s.document })
write renames (writing t contents) s = some (record s { phase = renamed t; disk = contents })
write completes (renamed t) s =
    some (record s { phase = idle; persisted_revision = max s.persisted_revision t })
write fails_before_rename (opening t) s = some (record s { phase = idle })
write fails_before_rename (writing t contents) s = some (record s { phase = idle })
write fails_after_rename (renamed t) s = some (record s { phase = idle })
write _ _ s = none

-- One step of the latch: a call, or an event of the write that runs.
pub data Step (program_id : String) : Latch → Latch → Type 0 where
  records :
      {s s' : Latch} {new : Bool} (round stage : Value) (outcome : List ℕ) (observed : Value)
      (i : Incident)
      → record_incident program_id round stage outcome observed s ≡ ok (i, new, s')
      → Step program_id s s'
  clears :
      {s s' : Latch} {before : Bool} (acknowledgement cleared : Value) (i : Incident)
      → clear_exact acknowledgement cleared s ≡ ok (i, before, s')
      → Step program_id s s'
  flushes : {s : Latch} → Step program_id s (flush s)
  writes : {s s' : Latch} (e : WriteEvent) → write e s.phase s ≡ some s' → Step program_id s s'

pub data Steps (program_id : String) : Latch → Latch → Type 0 where
  start : {s : Latch} → Steps program_id s s
  then_step : {s t u : Latch} → Steps program_id s t → Step program_id t u → Steps program_id s u
