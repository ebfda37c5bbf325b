-- ===== src/Host/Workers/Success.antt =====
-- What a success time in a worker's status stands for.
use myne.Base.{
  ◌∙◌, sym, Bool, ◌≡◌, ◌⊎◌, inl, inr, true, some, [], ◌∷◌, List, String, Bool-cases, str_eq, arith,
}
use myne.Base.Int.{ℤ}
use myne.Host.Workers.{
  Worker, Message, Exit, Event, started, received, exited, checked, is_heartbeat,
  is_successful_worker_outcome, recorded, record_worker_heartbeat, counted_error, counted_success,
  on_message, on_start, on_exit, on_check, on_event, status_after, initial_worker, counted_exit,
}

-- The message is a heartbeat of the worker that reports a completed tick with a successful outcome.
pub record IsSuccess (worker : String) (m : Message) (at : ℤ) : Type 0 where
  pub heartbeat : is_heartbeat m worker at ≡ true
  pub complete : str_eq m.phase "tick-complete" ≡ true
  pub successful : is_successful_worker_outcome m.outcome worker ≡ true

-- Since the worker's last start such a message was received at the time `t`.
pub ReportedAt : String → ℤ → List Event → Type 0
ReportedAt worker t [] = ⊥
ReportedAt worker t (started at ∷ es) = ⊥
ReportedAt worker t (received m at ∷ es) =
    (IsSuccess worker m at × (at ≡ t)) ⊎ ReportedAt worker t es
ReportedAt worker t (exited x ∷ es) = ReportedAt worker t es
ReportedAt worker t (checked c now timeout ∷ es) = ReportedAt worker t es

on_message-IsSuccess :
    (worker : String) (m : Message) (at t : ℤ) (w : Worker)
    → (on_message worker m at w).last_successful_at ≡ some t
    → (IsSuccess worker m at × (at ≡ t)) ⊎ (w.last_successful_at ≡ some t)
unfolding on_message record_worker_heartbeat recorded counted_error counted_success
on_message-IsSuccess worker m at t w e = elim (Bool-cases (is_heartbeat m worker at)) [
  | inr not_one ↦ inr (rw not_one at e)
  | inl heartbeat ↦ ground arith
]

on_exit-success :
    (x : Exit) (w : Worker) → (on_exit x w).0.last_successful_at ≡ w.last_successful_at
unfolding on_exit counted_exit
on_exit-success x w = ground arith

on_check-success :
    (c : Bool) (now timeout : ℤ) (w : Worker)
    → (on_check c now timeout w).last_successful_at ≡ w.last_successful_at
unfolding on_check
on_check-success c now timeout w = ground arith

-- A success time in the status of a worker, after any history of starts, messages, exits and
-- heartbeat checks, is the time at which a heartbeat of that worker reported a completed tick with
-- a successful outcome since the last start.
pub last_successful_at-ReportedAt :
    (worker : String) (es : List Event) (t : ℤ)
    → (status_after worker es).last_successful_at ≡ some t
    → ReportedAt worker t es
unfolding ReportedAt status_after on_event on_start initial_worker
last_successful_at-ReportedAt worker [] t e = absurd (ground arith)
last_successful_at-ReportedAt worker (started at ∷ es) t e = absurd (ground arith)
last_successful_at-ReportedAt worker (received m at ∷ es) t e =
    elim (on_message-IsSuccess worker m at t (status_after worker es) e) [
      | inl now ↦ inl now
      | inr before ↦ inr (last_successful_at-ReportedAt worker es t before)
    ]
last_successful_at-ReportedAt worker (exited x ∷ es) t e =
    last_successful_at-ReportedAt worker es t (sym (on_exit-success x (status_after worker es)) ∙ e)
last_successful_at-ReportedAt worker (checked c now timeout ∷ es) t e =
    last_successful_at-ReportedAt worker es t
      (sym (on_check-success c now timeout (status_after worker es)) ∙ e)
