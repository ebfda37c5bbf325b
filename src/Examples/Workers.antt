-- ===== src/Examples/Workers.antt =====
-- Worker statuses and the host's answer at concrete inputs.
use myne.Base.{
  ◌≡◌, ◌↔◌, ◌≢◌, ◌⊎◌, refl, ok, true, false, List, [], ◌∷◌, some, none, All, if◌then◌else◌, String,
  length,
}
use myne.Base.Int.{ℤ, pos}
use myne.Js.{null, number, boolean, codes, safe_integer, undefined}
use myne.Host.Rounds.{AssessArgs, Assessment, assess_round_schedule_health}
use myne.Host.Workers.{
  Worker, Message, Exit, Event, started, received, exited, checked, initial_worker, status_after,
  heartbeat_type,
}
use myne.Host.Workers.Success.{ReportedAt, last_successful_at-ReportedAt}
use myne.Host.Health.{
  HealthState, live, is_live, is_paused, is_fresh, degraded_among, auxiliary_worker_names,
}
use myne.Host.Health.Answer.{public_health}
use myne.Host.Health.Degraded.{with_worker, public_health-ok_noninterference}

abbrev completed : Message
completed = record {
  type = "myne-worker-heartbeat-v1";
  worker = "round-indexer";
  phase = "tick-complete";
  outcome = some (111 ∷ 107 ∷ []);
}

abbrev failed : Message
failed = record (completed) { phase = "tick-error" }

-- A worker that started at 10, reported at 20, and failed at 30.
abbrev history : List Event
history = received failed (pos 30) ∷ received completed (pos 20) ∷ started (pos 10) ∷ []

history-success : (status_after "round-indexer" history).last_successful_at ≡ some (pos 20)
unfolding myne.Host.Workers.counted_error myne.Host.Workers.counted_exit
    myne.Host.Workers.counted_success myne.Host.Workers.first myne.Host.Workers.heartbeat_type
    myne.Host.Workers.initial_worker myne.Host.Workers.is_benign_buyback_outcome
    myne.Host.Workers.is_failure myne.Host.Workers.is_heartbeat myne.Host.Workers.is_partial_error
    myne.Host.Workers.is_phase myne.Host.Workers.is_successful_worker_outcome
    myne.Host.Workers.on_check myne.Host.Workers.on_event myne.Host.Workers.on_exit
    myne.Host.Workers.on_message myne.Host.Workers.on_start
    myne.Host.Workers.record_worker_heartbeat myne.Host.Workers.recorded
    myne.Host.Workers.restart_delay myne.Host.Workers.same_codes myne.Host.Workers.sliced
    myne.Host.Workers.starts_with myne.Host.Workers.status_after
    myne.Host.Workers.worker_heartbeat_fresh myne.Js.codes
history-success = refl

last_successful_at-ReportedAt_example : ReportedAt "round-indexer" (pos 20) history
last_successful_at-ReportedAt_example =
    last_successful_at-ReportedAt "round-indexer" history (pos 20) history-success

abbrev busy : Worker
busy = record {
  running = true;
  restarts = 0;
  last_heartbeat_at = some (pos 990);
  last_heartbeat_phase = "tick-complete";
  last_completed_at = some (pos 990);
  last_error_at = none;
  last_outcome = none;
  last_successful_at = some (pos 990);
  consecutive_errors = 0;
  watchdog_terminating = false;
}

abbrev stalled : Worker
stalled = record (busy) { running = false }

-- A live host before the first round, whose buyback keeper stands still.
abbrev before_first_round : AssessArgs
before_first_round = record {
  now = number (pos 1);
  initialized_at = number (pos 100);
  round_duration_seconds = number (pos 65);
  betting_duration_seconds = number (pos 60);
  preparation_safety_margin_seconds = number (pos 2);
  next_round_prebind_grace_seconds = number (pos 15);
  settlement_late_seconds = number (pos 5);
  minimum_managed_round_id = number (pos 0);
  lookback_rounds = number (pos 1);
  protocol_paused = false;
  rows = [];
}

abbrev nothing_due : Assessment
nothing_due = record {
  ok = true;
  current_round_id = none;
  next_round_id = some (pos 0);
  next_round_prebound = false;
  next_round_prebind_deadline = none;
  entries = [];
  errors = [];
}

abbrev host : HealthState
host = record {
  now = pos 1000;
  heartbeat_timeout_ms = none;
  repeated_tick_error_limit = none;
  projection_freshness_ms = none;
  worker_success_freshness_ms = none;
  mode = live;
  ready = true;
  error = null;
  workers = ("round-indexer", busy) ∷ ("round-lifecycle", busy) ∷ ("buyback-keeper", stalled) ∷ [];
  round_progress = [];
  minimum_managed_round_id = none;
  protocol_paused = some false;
  round_health = some nothing_due;
  resume_activation = none;
  round_deadline_incidents = [];
  checked_at = null;
  revision = null;
  chain_time = none;
}

abbrev no_date : ℤ → String
no_date t = ""

host-ok : (public_health no_date host).ok ≡ true
unfolding myne.Base.Dict.lookup myne.Host.Health.Answer.all_progress
    myne.Host.Health.Answer.is_live_essential myne.Host.Health.Answer.is_observe_indexer
    myne.Host.Health.Answer.is_observed_auxiliary myne.Host.Health.Answer.is_success_required
    myne.Host.Health.Answer.printed myne.Host.Health.Answer.public_health
    myne.Host.Health.Answer.success_max_age myne.Host.Health.Answer.worker_health
    myne.Host.Health.Answer.workers_health myne.Host.Health.auxiliary_worker_names
    myne.Host.Health.auxiliary_workers_healthy myne.Host.Health.default_worker_success_freshness_ms
    myne.Host.Health.degraded_among myne.Host.Health.degraded_workers
    myne.Host.Health.durable_incidents myne.Host.Health.durable_round_deadlines_clear
    myne.Host.Health.error_limit myne.Host.Health.errors_in_a_row
    myne.Host.Health.essential_worker_names myne.Host.Health.essential_workers_running
    myne.Host.Health.health_ok myne.Host.Health.heartbeat_timeout
    myne.Host.Health.is_auxiliary_healthy myne.Host.Health.is_below_limit
    myne.Host.Health.is_degraded myne.Host.Health.is_fresh myne.Host.Health.is_live
    myne.Host.Health.is_managed myne.Host.Health.is_observe myne.Host.Health.is_outside
    myne.Host.Health.is_paused myne.Host.Health.is_positive myne.Host.Health.is_successful
    myne.Host.Health.is_within myne.Host.Health.last_success
    myne.Host.Health.live_essential_workers_successful myne.Host.Health.managed_round_progress
    myne.Host.Health.no_incidents myne.Host.Health.observe_projection_fresh
    myne.Host.Health.or_default myne.Host.Health.projection_freshness
    myne.Host.Health.repeated_tick_errors_absent myne.Host.Health.resume_activation_ready
    myne.Host.Health.round_deadlines_met myne.Host.Health.round_schedule_healthy
    myne.Host.Health.round_tick_errors_absent myne.Host.Health.success_freshness
    myne.Host.Health.supervised_mode myne.Host.Health.worker_named
    myne.Host.Workers.worker_heartbeat_fresh myne.Js.truthy myne.Base.Int.◌-ℤ◌
host-ok = refl

host-degraded : (public_health no_date host).degraded_workers ≡ "buyback-keeper" ∷ []
unfolding myne.Base.Dict.lookup myne.Host.Health.Answer.all_progress
    myne.Host.Health.Answer.is_live_essential myne.Host.Health.Answer.is_observe_indexer
    myne.Host.Health.Answer.is_observed_auxiliary myne.Host.Health.Answer.is_success_required
    myne.Host.Health.Answer.printed myne.Host.Health.Answer.public_health
    myne.Host.Health.Answer.success_max_age myne.Host.Health.Answer.worker_health
    myne.Host.Health.Answer.workers_health myne.Host.Health.auxiliary_worker_names
    myne.Host.Health.auxiliary_workers_healthy myne.Host.Health.default_worker_success_freshness_ms
    myne.Host.Health.degraded_among myne.Host.Health.degraded_workers
    myne.Host.Health.durable_incidents myne.Host.Health.durable_round_deadlines_clear
    myne.Host.Health.error_limit myne.Host.Health.errors_in_a_row
    myne.Host.Health.essential_worker_names myne.Host.Health.essential_workers_running
    myne.Host.Health.health_ok myne.Host.Health.heartbeat_timeout
    myne.Host.Health.is_auxiliary_healthy myne.Host.Health.is_below_limit
    myne.Host.Health.is_degraded myne.Host.Health.is_fresh myne.Host.Health.is_live
    myne.Host.Health.is_managed myne.Host.Health.is_observe myne.Host.Health.is_outside
    myne.Host.Health.is_paused myne.Host.Health.is_positive myne.Host.Health.is_successful
    myne.Host.Health.is_within myne.Host.Health.last_success
    myne.Host.Health.live_essential_workers_successful myne.Host.Health.managed_round_progress
    myne.Host.Health.no_incidents myne.Host.Health.observe_projection_fresh
    myne.Host.Health.or_default myne.Host.Health.projection_freshness
    myne.Host.Health.repeated_tick_errors_absent myne.Host.Health.resume_activation_ready
    myne.Host.Health.round_deadlines_met myne.Host.Health.round_schedule_healthy
    myne.Host.Health.round_tick_errors_absent myne.Host.Health.success_freshness
    myne.Host.Health.supervised_mode myne.Host.Health.worker_named
    myne.Host.Workers.worker_heartbeat_fresh myne.Js.truthy
host-degraded = refl

assessed : assess_round_schedule_health before_first_round ≡ ok nothing_due
unfolding myne.Host.Deadlines.canonical_round_deadlines myne.Host.Deadlines.deadlines_from
    myne.Host.Rounds.assess_from myne.Host.Rounds.assess_round_schedule_health
    myne.Host.Rounds.assess_rounds myne.Host.Rounds.assessed_ids myne.Host.Rounds.assessment
    myne.Host.Rounds.before_opening myne.Host.Rounds.deadline_args myne.Host.Rounds.entry_for
    myne.Host.Rounds.first_condition myne.Host.Rounds.flag_of myne.Host.Rounds.floor_div
    myne.Host.Rounds.from_minimum myne.Host.Rounds.has_round_id myne.Host.Rounds.ids_upwards
    myne.Host.Rounds.is_empty myne.Host.Rounds.is_next myne.Host.Rounds.max_ℤ
    myne.Host.Rounds.missed_prebind myne.Host.Rounds.missed_preparation
    myne.Host.Rounds.missed_settlement myne.Host.Rounds.next_entry myne.Host.Rounds.preparation_due
    myne.Host.Rounds.report myne.Host.Rounds.role_of myne.Host.Rounds.row_for
    myne.Host.Rounds.without_duration myne.Js.codes myne.Js.integer_of myne.Js.is_safe_int
    myne.Js.safe_integer myne.Js.truthy myne.Schedule.require_exact_settlement_window
assessed = refl

clock_1 : safe_integer (number (pos 1)) ≡ ok (pos 1)
unfolding myne.Js.is_safe_int myne.Js.safe_integer
clock_1 = refl

running : is_paused host ≡ false
unfolding myne.Host.Health.is_paused
running = refl

public_health-ok_noninterference_example :
    (public_health no_date (with_worker host "buyback-keeper" initial_worker)).ok
    ≡ (public_health no_date host).ok
public_health-ok_noninterference_example =
    public_health-ok_noninterference host "buyback-keeper" initial_worker refl refl no_date
