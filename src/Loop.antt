-- ===== src/Loop.antt =====
-- `createWakeSignal` of Protocol/scripts/event-driven-loop.mjs: the signal that wakes a worker's
-- loop. Its state is what the closures share, and the calls and timers that reach it are events.
pub mod Sequential
use myne.Base.{
  ℕ, suc, ◌+◌, Bool, true, false, Option, some, none, List, [], ◌∷◌, ◌==◌, if◌then◌else◌, any,
}

pub data Reason : Type 0 where
  event timeout : Reason

-- `waiter` names the call that a signal wakes, `unsettled` the calls whose promise is open, and
-- `log` what calls were answered, the latest first.
pub record Wake : Type 0 where
  pub pending : Bool
  pub waiter : Option ℕ
  pub unsettled : List ℕ
  pub calls : ℕ
  pub log : List (ℕ × Reason)

pub data WakeEvent : Type 0 where
  signalled : WakeEvent
  waited : WakeEvent
  timer_fired : ℕ → WakeEvent

unfoldable pub start : Wake
start = record { pending = false; waiter = none; unsettled = []; calls = 0; log = [] }

unfoldable pub without : ℕ → List ℕ → List ℕ
without id [] = []
without id (i ∷ ids) = let rest = without id ids in if i == id then rest else i ∷ rest

unfoldable pub still_pending : Reason → Bool → Bool
still_pending event pending = false
still_pending timeout pending = pending

-- `finish(reason)` of one call: a promise settles once.
unfoldable pub finish : ℕ → Reason → Wake → Wake
finish id reason w =
    let settled : Wake = record {
      pending = still_pending reason w.pending;
      waiter = none;
      unsettled = without id w.unsettled;
      calls = w.calls;
      log = (id, reason) ∷ w.log;
    } in
    if any (λ i. i == id) w.unsettled then settled else w

-- `signal()`
unfoldable pub signal : Wake → Wake
signal w = elim w.waiter [
  | none ↦ record (w) { pending = true }
  | some id ↦ finish id event (record (w) { pending = true })
]

-- `wait(timeoutMs)`, up to its answer.
unfoldable pub wait : Wake → Wake
wait w =
    let answered = record (w) {
      pending = false;
      calls = w.calls + 1;
      log = (w.calls, event) ∷ w.log;
    } in
    let waiting = record (w) {
      waiter = some w.calls;
      unsettled = w.calls ∷ w.unsettled;
      calls = w.calls + 1;
    } in
    if w.pending then answered else waiting

unfoldable pub on_wake_event : WakeEvent → Wake → Wake
on_wake_event signalled w = signal w
on_wake_event waited w = wait w
on_wake_event (timer_fired id) w = finish id timeout w

-- The state after a history, the latest event first.
unfoldable pub wake_after : List WakeEvent → Wake
wake_after [] = start
wake_after (e ∷ es) = on_wake_event e (wake_after es)
