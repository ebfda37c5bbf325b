-- ===== src/Host/Health.antt =====
-- `publicHealth` of production-worker-host.mjs: what the health endpoint answers. Times are those
-- of `Date.now()`; a setting that is not an integer is `none`.
pub mod Answer
pub mod Degraded
use myne.Js.{Value, truthy, null, is_nullish}
use myne.Base.{
  true, false, ◌&&◌, ◌||◌, not, ltb, leb, str_eq, some, none, [], ◌∷◌, if◌then◌else◌, Option, List,
  Bool, ℕ, String, every, map,
}
use myne.Base.Dict.{lookup}
use myne.Base.Int.{ℤ, pos, leb_ℤ, ltb_ℤ, ◌-ℤ◌}
use myne.Host.Rounds.{Assessment}
use myne.Host.Workers.{Worker, worker_heartbeat_fresh}
use myne.Incidents.{Incident}

pub data Mode : Type 0 where
  standby observe live : Mode

unfoldable pub is_live : Mode → Bool
is_live standby = false
is_live observe = false
is_live live = true

unfoldable pub is_observe : Mode → Bool
is_observe standby = false
is_observe observe = true
is_observe live = false

-- What the health reads of a round's own process.
pub record Progress : Type 0 where
  pub round_id : ℤ
  pub consecutive_errors : ℕ
  pub deadline_violation : Value

pub record Activation : Type 0 where
  pub round_id : Value
  pub prebound : Bool

pub record HealthState : Type 0 where
  pub now : ℤ
  pub heartbeat_timeout_ms : Option ℤ
  pub repeated_tick_error_limit : Option ℤ
  pub projection_freshness_ms : Option ℤ
  pub worker_success_freshness_ms : Option (List (String × ℤ))
  pub mode : Mode
  pub ready : Bool
  pub error : Value
  pub workers : List (String × Worker)
  pub round_progress : List (String × Progress)
  pub minimum_managed_round_id : Option ℤ
  pub protocol_paused : Option Bool
  pub round_health : Option Assessment
  pub resume_activation : Option Activation
  pub round_deadline_incidents : List Incident
  pub checked_at : Value
  pub revision : Value
  pub chain_time : Option ℤ

-- `DEFAULT_WORKER_SUCCESS_FRESHNESS_MS`
unfoldable pub default_worker_success_freshness_ms : List (String × ℤ)
default_worker_success_freshness_ms =
    ("round-indexer", pos 30000)
    ∷ ("round-lifecycle", pos 30000)
    ∷ ("buyback-keeper", pos 150000)
    ∷ []

unfoldable pub or_default : Option ℤ → ℤ → ℤ
or_default none d = d
or_default (some z) d = z

unfoldable pub heartbeat_timeout : HealthState → ℤ
heartbeat_timeout s = or_default s.heartbeat_timeout_ms (pos 180000)

unfoldable pub error_limit : HealthState → ℤ
error_limit s = or_default s.repeated_tick_error_limit (pos 3)

unfoldable pub projection_freshness : HealthState → ℤ
projection_freshness s = or_default s.projection_freshness_ms (pos 30000)

unfoldable pub success_freshness : HealthState → String → Option ℤ
success_freshness s name = elim s.worker_success_freshness_ms [
  | none ↦ lookup name default_worker_success_freshness_ms
  | some settings ↦ lookup name settings
]

unfoldable pub essential_worker_names : Mode → List String
essential_worker_names standby = "round-indexer" ∷ "round-lifecycle" ∷ []
essential_worker_names observe = "round-indexer" ∷ []
essential_worker_names live = "round-indexer" ∷ "round-lifecycle" ∷ []

unfoldable pub auxiliary_worker_names : Mode → List String
auxiliary_worker_names standby = []
auxiliary_worker_names observe = []
auxiliary_worker_names live = "buyback-keeper" ∷ []

unfoldable pub worker_named : HealthState → String → Option Worker
worker_named s name = lookup name s.workers

unfoldable pub last_success : Option Worker → Option ℤ
last_success none = none
last_success (some w) = w.last_successful_at

unfoldable pub errors_in_a_row : Option Worker → ℕ
errors_in_a_row none = 0
errors_in_a_row (some w) = w.consecutive_errors

-- `now - at >= 0 && now - at <= maxAge`, of a time and a limit that are numbers.
unfoldable pub is_within : ℤ → Option ℤ → Option ℤ → Bool
is_within now none limit = false
is_within now (some at) none = false
is_within now (some at) (some max_age) = leb_ℤ (pos 0) (now -ℤ at) && leb_ℤ (now -ℤ at) max_age

unfoldable pub is_positive : Option ℤ → Bool
is_positive none = false
is_positive (some z) = ltb_ℤ (pos 0) z

unfoldable pub is_fresh : HealthState → String → Bool
is_fresh s name = worker_heartbeat_fresh (worker_named s name) s.now (heartbeat_timeout s)

unfoldable pub is_successful : HealthState → String → Bool
is_successful s name =
    is_positive (success_freshness s name)
    && is_within s.now (last_success (worker_named s name)) (success_freshness s name)

unfoldable pub is_below_limit : HealthState → ℕ → Bool
is_below_limit s errors = ltb_ℤ (pos errors) (error_limit s)

unfoldable pub is_auxiliary_healthy : HealthState → String → Bool
is_auxiliary_healthy s name =
    is_fresh s name
    && is_below_limit s (errors_in_a_row (worker_named s name))
    && is_within s.now (last_success (worker_named s name)) (success_freshness s name)

-- The tests of the answer, in the source's order.
unfoldable pub supervised_mode : HealthState → Bool
supervised_mode s = is_live s.mode || is_observe s.mode

unfoldable pub essential_workers_running : HealthState → Bool
essential_workers_running s =
    not (supervised_mode s) || every (is_fresh s) (essential_worker_names s.mode)

unfoldable pub live_essential_workers_successful : HealthState → Bool
live_essential_workers_successful s =
    not (is_live s.mode) || every (is_successful s) (essential_worker_names s.mode)

unfoldable pub repeated_tick_errors_absent : HealthState → Bool
repeated_tick_errors_absent s =
    not (supervised_mode s)
    || every (λ name. is_below_limit s (errors_in_a_row (worker_named s name)))
        (essential_worker_names s.mode)

unfoldable pub auxiliary_workers_healthy : HealthState → Bool
auxiliary_workers_healthy s =
    not (is_live s.mode) || every (is_auxiliary_healthy s) (auxiliary_worker_names s.mode)

unfoldable pub observe_projection_fresh : HealthState → Bool
observe_projection_fresh s =
    not (is_observe s.mode)
    || is_within s.now (last_success (worker_named s "round-indexer"))
        (some (projection_freshness s))

unfoldable pub is_managed : Option ℤ → Progress → Bool
is_managed none p = true
is_managed (some minimum) p = leb_ℤ minimum p.round_id

unfoldable pub managed_round_progress : Option ℤ → List (String × Progress) → List Progress
managed_round_progress minimum [] = []
managed_round_progress minimum ((id, p) ∷ rest) =
    let managed = managed_round_progress minimum rest in
    if is_managed minimum p then p ∷ managed else managed

unfoldable pub round_tick_errors_absent : HealthState → Bool
round_tick_errors_absent s =
    not (is_live s.mode)
    || every (λ p. is_below_limit s p.consecutive_errors)
        (managed_round_progress s.minimum_managed_round_id s.round_progress)

unfoldable pub round_deadlines_met : HealthState → Bool
round_deadlines_met s =
    not (is_live s.mode)
    || every (λ p. not (truthy p.deadline_violation))
        (managed_round_progress s.minimum_managed_round_id s.round_progress)

unfoldable pub durable_incidents : HealthState → List Incident
durable_incidents s = if is_live s.mode then s.round_deadline_incidents else []

unfoldable pub no_incidents : List Incident → Bool
no_incidents [] = true
no_incidents (i ∷ is) = false

unfoldable pub durable_round_deadlines_clear : HealthState → Bool
durable_round_deadlines_clear s = not (is_live s.mode) || no_incidents (durable_incidents s)

unfoldable pub is_paused : HealthState → Bool
is_paused s = elim s.protocol_paused [ none ↦ false | some b ↦ b ]

unfoldable pub round_schedule_healthy : HealthState → Bool
round_schedule_healthy s =
    not (is_live s.mode)
    || is_paused s
    || elim s.round_health [ none ↦ false | some health ↦ health.ok ]

unfoldable pub resume_activation_ready : HealthState → Bool
resume_activation_ready s =
    not (is_live s.mode)
    || is_paused s
    || elim s.resume_activation [ none ↦ true | some activation ↦ activation.prebound ]

unfoldable pub health_ok : HealthState → Bool
health_ok s =
    s.ready
    && not (truthy s.error)
    && essential_workers_running s
    && live_essential_workers_successful s
    && repeated_tick_errors_absent s
    && observe_projection_fresh s
    && round_tick_errors_absent s
    && round_deadlines_met s
    && durable_round_deadlines_clear s
    && round_schedule_healthy s
    && resume_activation_ready s

-- The filter of the degraded workers negates each test by itself.
unfoldable pub is_outside : ℤ → Option ℤ → Option ℤ → Bool
is_outside now none limit = true
is_outside now (some at) none = true
is_outside now (some at) (some max_age) = ltb_ℤ (now -ℤ at) (pos 0) || ltb_ℤ max_age (now -ℤ at)

unfoldable pub is_degraded : HealthState → String → Bool
is_degraded s name =
    not (is_fresh s name)
    || leb_ℤ (error_limit s) (pos (errors_in_a_row (worker_named s name)))
    || is_outside s.now (last_success (worker_named s name)) (success_freshness s name)

unfoldable pub degraded_among : HealthState → List String → List String
degraded_among s [] = []
degraded_among s (name ∷ names) =
    let rest = degraded_among s names in if is_degraded s name then name ∷ rest else rest

unfoldable pub degraded_workers : HealthState → List String
degraded_workers s =
    if auxiliary_workers_healthy s then [] else degraded_among s (auxiliary_worker_names s.mode)
