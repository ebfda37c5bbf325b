-- ===== src/Host/Workers.antt =====
-- What the host keeps of a worker process: the heartbeats of event-driven-loop.mjs and the handlers
-- of production-worker-host.mjs for a child's start, its messages and its exit.
-- Times are those of `Date.now()`. An outcome is the list of its UTF-16 code units.
pub mod Success
use myne.Js.{codes}
use myne.Base.{
  suc, zero, true, false, ◌&&◌, ◌||◌, ◌+◌, ◌*◌, ◌^◌, ◌==◌, leb, min, str_eq, not, some, none, [],
  ◌∷◌, ◌>>=◌, ◌>>◌, ok, err, type_error, guard, Result, if◌then◌else◌, Option, List, Bool, ℕ,
  String,
}
use myne.Base.Int.{ℤ, pos, leb_ℤ, ltb_ℤ, eqb_ℤ, ◌-ℤ◌}

pub record Worker : Type 0 where
  pub running : Bool
  pub restarts : ℕ
  pub last_heartbeat_at : Option ℤ
  pub last_heartbeat_phase : String
  pub last_completed_at : Option ℤ
  pub last_error_at : Option ℤ
  pub last_outcome : Option (List ℕ)
  pub last_successful_at : Option ℤ
  pub consecutive_errors : ℕ
  pub watchdog_terminating : Bool

-- An IPC message, as it arrives.
pub record Message : Type 0 where
  pub type : String
  pub worker : String
  pub phase : String
  pub outcome : Option (List ℕ)

unfoldable pub heartbeat_type : String
heartbeat_type = "myne-worker-heartbeat-v1"

-- `HEARTBEAT_PHASES`
unfoldable pub is_phase : String → Bool
is_phase s = str_eq s "tick-start" || str_eq s "tick-complete" || str_eq s "tick-error"

unfoldable pub same_codes : List ℕ → List ℕ → Bool
same_codes [] [] = true
same_codes (a ∷ rest) (b ∷ bs) = (a == b) && same_codes rest bs
same_codes _ _ = false

unfoldable pub starts_with : List ℕ → List ℕ → Bool
starts_with [] bs = true
starts_with (a ∷ rest) [] = false
starts_with (a ∷ rest) (b ∷ bs) = (a == b) && starts_with rest bs

unfoldable pub first : ℕ → List ℕ → List ℕ
first zero cs = []
first (suc n) [] = []
first (suc n) (c ∷ cs) = c ∷ first n cs

-- `outcome == null ? null : String(outcome).slice(0, 160)`
unfoldable pub sliced : Option (List ℕ) → Option (List ℕ)
sliced none = none
sliced (some cs) = some (first 160 cs)

unfoldable pub create_worker_heartbeat :
    String → String → Option (List ℕ) → ℤ → Result (Message × ℤ)
create_worker_heartbeat worker phase outcome at = do
  guard (not (str_eq worker "")) type_error
  guard (is_phase phase) type_error
  guard (leb_ℤ (pos 0) at) type_error
  ok (
    record { type = heartbeat_type; worker = worker; phase = phase; outcome = sliced outcome },
    at,
  )

-- Whether the message counts as a heartbeat of the worker.
unfoldable pub is_heartbeat : Message → String → ℤ → Bool
is_heartbeat m expected received_at =
    str_eq m.type heartbeat_type
    && str_eq m.worker expected
    && is_phase m.phase
    && leb_ℤ (pos 0) received_at

unfoldable pub recorded : Worker → Message → ℤ → Worker
recorded w m received_at = record (w) {
  last_heartbeat_at = some received_at;
  last_heartbeat_phase = m.phase;
  last_outcome = sliced m.outcome;
  last_completed_at =
      if str_eq m.phase "tick-complete" then some received_at else w.last_completed_at;
  last_error_at = if str_eq m.phase "tick-error" then some received_at else w.last_error_at;
}

unfoldable pub record_worker_heartbeat : Worker → Message → String → ℤ → Bool × Worker
record_worker_heartbeat w m expected received_at =
    if is_heartbeat m expected received_at then (true, recorded w m received_at) else (false, w)

unfoldable pub worker_heartbeat_fresh : Option Worker → ℤ → ℤ → Bool
worker_heartbeat_fresh none now max_age = false
worker_heartbeat_fresh (some w) now max_age = w.running && elim w.last_heartbeat_at [
  | none ↦ false
  | some at ↦ ltb_ℤ (pos 0) max_age && leb_ℤ (pos 0) (now -ℤ at) && leb_ℤ (now -ℤ at) max_age
]

-- `BENIGN_BUYBACK_OUTCOMES`
unfoldable pub is_benign_buyback_outcome : List ℕ → Bool
is_benign_buyback_outcome cs =
    same_codes cs (codes "devnet-liquidity-pool-not-required")
    || same_codes cs (codes "no-settled-round-yet")
    || same_codes cs (codes "no-indexed-buyback-backlog")
    || same_codes cs (codes "round-buyback-completed-on-chain")
    || same_codes cs (codes "round-already-processed")

unfoldable pub is_successful_worker_outcome : Option (List ℕ) → String → Bool
is_successful_worker_outcome none worker = false
is_successful_worker_outcome (some cs) worker =
    same_codes cs (codes "ok") || (str_eq worker "buyback-keeper" && is_benign_buyback_outcome cs)

unfoldable pub is_partial_error : Message → Bool
is_partial_error m =
    str_eq m.phase "tick-complete"
    && elim m.outcome [ none ↦ false | some cs ↦ starts_with (codes "partial-error:") cs ]

unfoldable pub counted_error : Message → Worker → Worker
counted_error m w =
    if str_eq m.phase "tick-error" || is_partial_error m
    then record (w) { consecutive_errors = w.consecutive_errors + 1 }
    else w

unfoldable pub counted_success : String → Message → Worker → Worker
counted_success worker m w =
    let clean = record (w) { consecutive_errors = 0 } in
    let success = record (clean) { last_successful_at = w.last_heartbeat_at } in
    if str_eq m.phase "tick-complete" && not (is_partial_error m)
    then if is_successful_worker_outcome m.outcome worker then success else clean
    else w

-- `child.on('message', …)`
unfoldable pub on_message : String → Message → ℤ → Worker → Worker
on_message worker m received_at w =
    let (is_recorded, heard) = record_worker_heartbeat w m worker received_at in
    let handled = counted_success worker m (counted_error m heard) in
    if is_recorded then handled else w

-- `startWorker`, up to the process itself.
unfoldable pub on_start : ℤ → Worker → Worker
on_start started_at w = record (w) {
  running = true;
  last_heartbeat_at = some started_at;
  last_heartbeat_phase = "starting";
  last_outcome = some (codes "starting");
  last_successful_at = none;
  watchdog_terminating = false;
}

-- How a process ended: its exit code (`none` for null), the times of its start and its end, and
-- whether the host was stopping.
pub record Exit : Type 0 where
  pub code : Option ℤ
  pub started_at : ℤ
  pub ended_at : ℤ
  pub stopping : Bool

unfoldable pub is_failure : Option ℤ → Bool
is_failure none = true
is_failure (some code) = not (eqb_ℤ code (pos 0))

unfoldable pub counted_exit : Exit → Worker → Worker
counted_exit x w =
    if is_failure x.code
      && not (str_eq w.last_heartbeat_phase "tick-error")
      && not w.watchdog_terminating
    then record (w) { consecutive_errors = w.consecutive_errors + 1 }
    else w

-- `child.once('exit', …)`, with the delay before the next start.
unfoldable pub restart_delay : ℕ → ℕ
restart_delay restarts = min 60000 (1000 * 2 ^ min restarts 6)

unfoldable pub on_exit : Exit → Worker → Worker × Option ℕ
on_exit x w =
    let stopped = record (w) { running = false; watchdog_terminating = false } in
    let counted = record (counted_exit x w) { running = false; watchdog_terminating = false } in
    let healthy_run = leb_ℤ (pos 60000) (x.ended_at -ℤ x.started_at) in
    let restarts = if healthy_run then 1 else w.restarts + 1 in
    if x.stopping
    then (stopped, none)
    else (record (counted) { restarts = restarts }, some (restart_delay restarts))

-- `checkWorkerHeartbeats` for one worker: a process without a fresh heartbeat is told to end.
unfoldable pub on_check : Bool → ℤ → ℤ → Worker → Worker
on_check has_child now timeout w =
    if not has_child || w.watchdog_terminating || worker_heartbeat_fresh (some w) now timeout
    then w
    else record (w) { watchdog_terminating = true; last_outcome = some (codes "heartbeat-stale") }

-- `state.workers` before the first start.
unfoldable pub initial_worker : Worker
initial_worker = record {
  running = false;
  restarts = 0;
  last_heartbeat_at = none;
  last_heartbeat_phase = "";
  last_completed_at = none;
  last_error_at = none;
  last_outcome = none;
  last_successful_at = none;
  consecutive_errors = 0;
  watchdog_terminating = false;
}

-- What happens to a worker, and its status after a history (the latest event first).
pub data Event : Type 0 where
  started : ℤ → Event
  received : Message → ℤ → Event
  exited : Exit → Event
  checked : Bool → ℤ → ℤ → Event

unfoldable pub on_event : String → Event → Worker → Worker
on_event worker (started at) w = on_start at w
on_event worker (received m at) w = on_message worker m at w
on_event worker (exited x) w = (on_exit x w).0
on_event worker (checked has_child now timeout) w = on_check has_child now timeout w

unfoldable pub status_after : String → List Event → Worker
status_after worker [] = initial_worker
status_after worker (e ∷ es) = on_event worker e (status_after worker es)
