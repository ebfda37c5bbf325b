-- ===== src/Host/Health/Answer.antt =====
-- The answer of `publicHealth`, with the status of each worker. How a time prints
-- (`new Date(t).toISOString()`) is a parameter.
use myne.Js.{Value}
use myne.Base.{
  ◌&&◌, ◌||◌, not, str_eq, some, none, [], ◌∷◌, if◌then◌else◌, Option, List, Bool, ℕ, String, any,
}
use myne.Base.Int.{ℤ}
use myne.Incidents.{Incident}
use myne.Host.Rounds.{Assessment}
use myne.Host.Workers.{Worker, worker_heartbeat_fresh}
use myne.Host.Health.{
  HealthState, Mode, Progress, Activation, is_live, is_observe, supervised_mode,
  essential_worker_names, auxiliary_worker_names, heartbeat_timeout, projection_freshness,
  success_freshness, is_within, health_ok, auxiliary_workers_healthy, degraded_workers,
  durable_incidents,
}

pub record WorkerHealth : Type 0 where
  pub running : Bool
  pub restarts : ℕ
  pub heartbeat_fresh : Bool
  pub last_heartbeat_at : Option String
  pub last_completed_at : Option String
  pub completion_fresh : Bool
  pub last_successful_at : Option String
  pub success_fresh : Bool
  pub success_freshness_ms : Option ℤ
  pub critical : Bool
  pub auxiliary : Bool
  pub last_outcome : Option (List ℕ)
  pub consecutive_errors : ℕ

pub record PublicHealth : Type 0 where
  pub ok : Bool
  pub degraded : Bool
  pub degraded_workers : List String
  pub mode : Mode
  pub protocol_paused : Option Bool
  pub checked_at : Value
  pub revision : Value
  pub chain_time : Option ℤ
  pub minimum_managed_round_id : Option ℤ
  pub resume_activation : Option Activation
  pub round_deadline_incidents : List Incident
  pub rounds : Option (Assessment × List Progress)
  pub workers : List (String × WorkerHealth)

unfoldable pub is_live_essential : HealthState → String → Bool
is_live_essential s name =
    is_live s.mode && any (λ n. str_eq n name) (essential_worker_names s.mode)

unfoldable pub is_observed_auxiliary : HealthState → String → Bool
is_observed_auxiliary s name =
    is_live s.mode && any (λ n. str_eq n name) (auxiliary_worker_names s.mode)

unfoldable pub is_observe_indexer : HealthState → String → Bool
is_observe_indexer s name = is_observe s.mode && str_eq name "round-indexer"

unfoldable pub success_max_age : HealthState → String → Option ℤ
success_max_age s name =
    if is_live_essential s name || is_observed_auxiliary s name
    then success_freshness s name
    else if is_observe_indexer s name
    then some (projection_freshness s)
    else none

unfoldable pub is_success_required : HealthState → String → Bool
is_success_required s name =
    is_live_essential s name || is_observed_auxiliary s name || is_observe_indexer s name

unfoldable pub all_progress : List (String × Progress) → List Progress
all_progress [] = []
all_progress ((id, p) ∷ rest) = p ∷ all_progress rest

module _ (iso : ℤ → String) where
  unfoldable pub printed : Option ℤ → Option String
  printed none = none
  printed (some at) = some (iso at)

  unfoldable pub worker_health : HealthState → String → Worker → WorkerHealth
  worker_health s name w = record {
    running = w.running;
    restarts = w.restarts;
    heartbeat_fresh =
        not (supervised_mode s) || worker_heartbeat_fresh (some w) s.now (heartbeat_timeout s);
    last_heartbeat_at = printed w.last_heartbeat_at;
    last_completed_at = printed w.last_completed_at;
    completion_fresh =
        not (supervised_mode s) || is_within s.now w.last_completed_at (some (heartbeat_timeout s));
    last_successful_at = printed w.last_successful_at;
    success_fresh =
        not (is_success_required s name)
        || is_within s.now w.last_successful_at (success_max_age s name);
    success_freshness_ms = success_max_age s name;
    critical = is_live_essential s name || is_observe_indexer s name;
    auxiliary = is_observed_auxiliary s name;
    last_outcome = w.last_outcome;
    consecutive_errors = w.consecutive_errors;
  }

  unfoldable pub workers_health :
      HealthState → List (String × Worker) → List (String × WorkerHealth)
  workers_health s [] = []
  workers_health s ((name, w) ∷ rest) = (name, worker_health s name w) ∷ workers_health s rest

  unfoldable pub public_health : HealthState → PublicHealth
  public_health s = record {
    ok = health_ok s;
    degraded = not (auxiliary_workers_healthy s);
    degraded_workers = degraded_workers s;
    mode = s.mode;
    protocol_paused = s.protocol_paused;
    checked_at = s.checked_at;
    revision = s.revision;
    chain_time = s.chain_time;
    minimum_managed_round_id = s.minimum_managed_round_id;
    resume_activation = s.resume_activation;
    round_deadline_incidents = durable_incidents s;
    rounds = elim s.round_health [
      | none ↦ none
      | some health ↦ some (health, all_progress s.round_progress)
    ];
    workers = workers_health s s.workers;
  }
