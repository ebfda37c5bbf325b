-- ===== src/Examples/Latch.antt =====
-- The incident latch at concrete inputs.
use myne.Js.{Value, number, text, null}
use myne.Base.Int.{pos}
use myne.Incidents.{
  idle, Incident, Latch, loaded, opened, record_incident, clear_exact, Steps, start, then_step,
  records, writes, begins, reads_document, renames, completes, incident_id,
}
use myne.Incidents.Active.{active_count, record_incident-active_once}
use myne.Incidents.Columns.{
  IncidentColumns, IsRecorded, columns, validate_incident, validate_incident-columns,
  read_incidents,
}
use myne.Incidents.Reload.{read_incidents-columns_of_disk}
use myne.Incidents.Durable.{persisted_revision-durable}
use myne.Base.{
  distinct, has, map, assertion, true, refl, err, ◌≤◌, ◌≡◌, ◌∷◌, some, arith, [], String, ok, ℕ,
}

abbrev missed_lock : String
missed_lock = "lock-deadline-missed"

abbrev incident : Incident
incident = opened "myne" 7 missed_lock [] 100

abbrev after_record : Latch
after_record = record {
  document = incident ∷ [];
  revision = 1;
  persisted_revision = 0;
  queue = 1 ∷ [];
  phase = idle;
  disk = [];
}

recorded_once :
    record_incident "myne" (number (pos 7)) (text missed_lock) [] (number (pos 100)) (loaded [])
    ≡ ok (incident, true, after_record)
unfolding myne.Incidents.changed myne.Incidents.find myne.Incidents.flush myne.Incidents.incident_id
    myne.Incidents.is_active myne.Incidents.is_open_for myne.Incidents.is_stage
    myne.Incidents.opened myne.Incidents.persist myne.Incidents.record_incident
    myne.Incidents.recorded myne.Incidents.safe_count myne.Incidents.stage_of myne.Incidents.take
    myne.Js.is_safe_int myne.Js.non_negative myne.Js.safe_integer myne.Js.to_string
    myne.Incidents.loaded
recorded_once = refl

abbrev written : Latch
written = record after_record { persisted_revision = 1; queue = []; disk = incident ∷ [] }

one_write : Steps "myne" (loaded []) written
unfolding myne.Incidents.begin_write myne.Incidents.write
one_write =
    then_step
      (then_step
        (then_step
          (then_step
            (then_step start (
              records (number (pos 7)) (text missed_lock) [] (number (pos 100)) incident
                recorded_once))
            (writes begins refl))
          (writes reads_document refl))
        (writes renames refl))
      (writes completes refl)

persisted_revision-durable_example :
    (written.persisted_revision ≤ written.revision)
    × (written.persisted_revision ≡ written.revision → written.disk ≡ written.document)
persisted_revision-durable_example = persisted_revision-durable "myne" [] written one_write

none_active : (r : ℕ) (st : String) → active_count r st (loaded []).document ≤ 1
unfolding active_count loaded
none_active r st = omega arith

record_incident-active_once_example : active_count 7 missed_lock after_record.document ≤ 1
record_incident-active_once_example =
    record_incident-active_once "myne" (number (pos 7)) (text missed_lock) [] (number (pos 100))
      (loaded []) after_record incident true none_active recorded_once 7 missed_lock

written-distinct : distinct (map (λ (i : Incident). i.id) written.disk) ≡ true
unfolding distinct has
written-distinct = refl

no_incidents : read_incidents "myne" [] [] ≡ ok []
unfolding read_incidents
no_incidents = refl

read_incidents-columns_of_disk_example :
    read_incidents "myne" [] (map columns written.disk) ≡ ok written.disk
read_incidents-columns_of_disk_example =
    read_incidents-columns_of_disk "myne" [] [] written no_incidents one_write written-distinct

-- An incident that is cleared when it was observed and then observed again has its id twice in the
-- document, which is refused when the file is read.
abbrev cleared_incident : Incident
cleared_incident = record incident { cleared_at = some 100 }

reopened_at_once :
    read_incidents "myne" [] (columns cleared_incident ∷ columns incident ∷ []) ≡ err assertion
unfolding myne.Base.has myne.Incidents.Columns.cleared_of myne.Incidents.Columns.is_text
    myne.Incidents.Columns.outcome_of myne.Incidents.Columns.read_incidents
    myne.Incidents.Columns.validate_incident myne.Incidents.incident_id myne.Incidents.is_stage
    myne.Incidents.safe_count myne.Incidents.stage_of myne.Js.is_safe_int myne.Js.non_negative
    myne.Js.safe_integer myne.Js.to_string columns opened myne.Incidents.take
reopened_at_once = refl

reopened :
    record_incident "myne"
      (number (pos 7))
      (text missed_lock)
      []
      (number (pos 100))
      (loaded (cleared_incident ∷ []))
    ≡ ok (
      incident,
      true,
      record (loaded (cleared_incident ∷ [])) {
        document = cleared_incident ∷ incident ∷ [];
        revision = 1;
        queue = 1 ∷ [];
      },
    )
unfolding myne.Incidents.changed myne.Incidents.find myne.Incidents.flush myne.Incidents.incident_id
    myne.Incidents.is_active myne.Incidents.is_open_for myne.Incidents.is_stage
    myne.Incidents.opened myne.Incidents.persist myne.Incidents.record_incident
    myne.Incidents.recorded myne.Incidents.safe_count myne.Incidents.stage_of myne.Incidents.take
    myne.Js.is_safe_int myne.Js.non_negative myne.Js.safe_integer myne.Js.to_string
    myne.Incidents.loaded
reopened = refl
