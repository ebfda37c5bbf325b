-- ===== src/Host/Health/Degraded.antt =====
-- What a degraded worker changes in the health, and what it leaves alone.
use myne.Base.{
  ap, if◌then◌else◌, none, some, ◌≢◌, Option, ◌≡◌, ◌↔◌, true, false, [], ◌∷◌, List, Bool, String,
  not, ◌&&◌, ◌||◌, every, refl, arith, str_eq,
}
use myne.Base.Dict.{put, lookup-put_other}
use myne.Base.Int.{ℤ}
use myne.Host.Health.{
  standby, observe, live, is_paused, resume_activation_ready, heartbeat_timeout,
  worker_heartbeat_fresh, round_schedule_healthy, last_success, errors_in_a_row, is_positive,
  is_observe, durable_incidents, success_freshness, error_limit, durable_round_deadlines_clear,
  supervised_mode, round_deadlines_met, projection_freshness, is_successful,
  round_tick_errors_absent, repeated_tick_errors_absent, observe_projection_fresh,
  live_essential_workers_successful, essential_workers_running, Mode, HealthState, is_live,
  is_within, is_outside, is_auxiliary_healthy, is_degraded, degraded_among, degraded_workers,
  auxiliary_workers_healthy, auxiliary_worker_names, is_below_limit, is_fresh, worker_named,
  health_ok, essential_worker_names,
}
use myne.Host.Health.Answer.{public_health}
use myne.Host.Workers.{Worker}

is_outside-within :
    (now : ℤ) (at limit : Option ℤ) → is_outside now at limit ≡ not (is_within now at limit)
unfolding is_outside is_within
is_outside-within now none limit = refl
is_outside-within now (some at) none = refl
is_outside-within now (some at) (some max_age) = ground arith

is_degraded-healthy :
    (s : HealthState) (name : String) → is_degraded s name ≡ not (is_auxiliary_healthy s name)
unfolding is_degraded is_auxiliary_healthy is_below_limit
is_degraded-healthy s name = rw (is_outside-within s.now _ _) (ground arith)

degraded_among-every :
    (s : HealthState) (names : List String)
    → (degraded_among s names ≡ []) ↔ (every (is_auxiliary_healthy s) names ≡ true)
unfolding degraded_among
degraded_among-every s [] = (λ _. refl, λ _. refl)
degraded_among-every s (name ∷ names) =
    let (there, back) = degraded_among-every s names in
    rw (is_degraded-healthy s name) (ground arith)

-- The host reports itself degraded exactly when it names a degraded worker, and it names exactly
-- the auxiliary workers of its mode that are not healthy.
pub public_health-degraded_iff :
    (iso : ℤ → String) (s : HealthState)
    → (((public_health iso s).degraded ≡ true) ↔ ((public_health iso s).degraded_workers ≢ []))
      × ((public_health iso s).degraded_workers
          ≡ (if is_live s.mode then degraded_among s (auxiliary_worker_names s.mode) else []))
unfolding public_health degraded_workers auxiliary_workers_healthy
public_health-degraded_iff iso s =
    let (there, back) = degraded_among-every s (auxiliary_worker_names s.mode) in
    (ground arith, ground arith)

abbrev pub with_worker : HealthState → String → Worker → HealthState
with_worker s name w = record (s) { workers = put name w s.workers }

every_essential :
    (p q : String → Bool) (mode : Mode)
    → p "round-indexer" ≡ q "round-indexer"
    → p "round-lifecycle" ≡ q "round-lifecycle"
    → every p (essential_worker_names mode) ≡ every q (essential_worker_names mode)
unfolding essential_worker_names
every_essential p q standby a b = rw a (rw b refl)
every_essential p q observe a b = rw a refl
every_essential p q live a b = rw a (rw b refl)

module _ (s : HealthState) (name : String) (w : Worker)
    (not_indexer : str_eq name "round-indexer" ≡ false)
    (not_lifecycle : str_eq name "round-lifecycle" ≡ false) where
  indexer_same :
      worker_named (with_worker s name w) "round-indexer" ≡ worker_named s "round-indexer"
  unfolding worker_named
  indexer_same = lookup-put_other "round-indexer" name w s.workers not_indexer

  lifecycle_same :
      worker_named (with_worker s name w) "round-lifecycle" ≡ worker_named s "round-lifecycle"
  unfolding worker_named
  lifecycle_same = lookup-put_other "round-lifecycle" name w s.workers not_lifecycle

  running_same : essential_workers_running (with_worker s name w) ≡ essential_workers_running s
  unfolding essential_workers_running supervised_mode is_fresh heartbeat_timeout
  running_same =
      ap (λ b. not (is_live s.mode || is_observe s.mode) || b)
        (every_essential (is_fresh (with_worker s name w)) (is_fresh s) s.mode
          (ap (λ x. worker_heartbeat_fresh x s.now (heartbeat_timeout s)) indexer_same)
          (ap (λ x. worker_heartbeat_fresh x s.now (heartbeat_timeout s)) lifecycle_same))

  successful_same :
      live_essential_workers_successful (with_worker s name w) ≡ live_essential_workers_successful s
  unfolding live_essential_workers_successful is_successful success_freshness
  successful_same =
      ap (λ b. not (is_live s.mode) || b)
        (every_essential (is_successful (with_worker s name w)) (is_successful s) s.mode
          (ap
            (λ x.
              is_positive (success_freshness s "round-indexer")
              && is_within s.now (last_success x) (success_freshness s "round-indexer"))
            indexer_same)
          (ap
            (λ x.
              is_positive (success_freshness s "round-lifecycle")
              && is_within s.now (last_success x) (success_freshness s "round-lifecycle"))
            lifecycle_same))

  errors_same : repeated_tick_errors_absent (with_worker s name w) ≡ repeated_tick_errors_absent s
  unfolding repeated_tick_errors_absent supervised_mode is_below_limit error_limit
  errors_same =
      ap (λ b. not (is_live s.mode || is_observe s.mode) || b)
        (every_essential
          (λ n.
            is_below_limit (with_worker s name w)
              (errors_in_a_row (worker_named (with_worker s name w) n)))
          (λ n. is_below_limit s (errors_in_a_row (worker_named s n))) s.mode
          (ap (λ x. is_below_limit s (errors_in_a_row x)) indexer_same)
          (ap (λ x. is_below_limit s (errors_in_a_row x)) lifecycle_same))

  projection_same : observe_projection_fresh (with_worker s name w) ≡ observe_projection_fresh s
  unfolding observe_projection_fresh projection_freshness
  projection_same =
      ap
        (λ x.
          not (is_observe s.mode)
          || is_within s.now (last_success x) (some (projection_freshness s)))
        indexer_same

  -- Whatever becomes of a worker that is neither the indexer nor the lifecycle worker, the host's
  -- health stays what it is.
  pub public_health-ok_noninterference :
      (iso : ℤ → String) → (public_health iso (with_worker s name w)).ok ≡ (public_health iso s).ok
  unfolding public_health health_ok round_tick_errors_absent round_deadlines_met
      durable_round_deadlines_clear durable_incidents round_schedule_healthy resume_activation_ready
      is_paused is_below_limit error_limit
  public_health-ok_noninterference iso =
      rw running_same (rw successful_same (rw errors_same (rw projection_same refl)))
