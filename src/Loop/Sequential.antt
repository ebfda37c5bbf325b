-- ===== src/Loop/Sequential.antt =====
-- The wake signal in the use that the worker loops make of it: one call of `wait` at a time. There
-- it implements a flag with one waiter.
use myne.Base.{
  sym, ◌⊎◌, ◌++◌, refl, every, ◌∙◌, ℕ, ◌+◌, ◌==◌, ==_iff, ◌≡◌, inl, inr, Option, some, none, Bool,
  true, false, List, [], ◌∷◌, if◌then◌else◌, arith, ap, Option-cases,
}
use myne.Loop.{
  Reason, event, timeout, Wake, WakeEvent, signalled, waited, timer_fired, start, without,
  still_pending, finish, signal, wait, on_wake_event, wake_after,
}

-- What the flag promises: it is down, it is up, or a call waits for it.
pub data Flag : Type 0 where
  down up : Flag
  awaited : ℕ → Flag

pub record FlagState : Type 0 where
  pub flag : Flag
  pub calls : ℕ
  pub answers : List (ℕ × Reason)

-- A signal answers the waiting call or raises the flag.
unfoldable pub raise : FlagState → FlagState
raise f = elim f.flag [
  | down ↦ record (f) { flag = up }
  | up ↦ f
  | awaited id ↦ record (f) { flag = down; answers = (id, event) ∷ f.answers }
]

-- A call lowers the flag or waits; none may start while another waits.
unfoldable pub take_flag : FlagState → Option FlagState
take_flag f = elim f.flag [
  | down ↦ some (record (f) { flag = awaited f.calls; calls = f.calls + 1 })
  | up ↦
      some (record (f) { flag = down; calls = f.calls + 1; answers = (f.calls, event) ∷ f.answers })
  | awaited id ↦ none
]

-- A timer answers the waiting call if it is that call's.
unfoldable pub expire : ℕ → FlagState → FlagState
expire n f = elim f.flag [
  | down ↦ f
  | up ↦ f
  | awaited id ↦
      if id == n then record (f) { flag = down; answers = (id, timeout) ∷ f.answers } else f
]

unfoldable pub flag_step : WakeEvent → FlagState → Option FlagState
flag_step signalled f = some (raise f)
flag_step waited f = take_flag f
flag_step (timer_fired id) f = some (expire id f)

unfoldable pub flag_after : List WakeEvent → Option FlagState
flag_after [] = some (record { flag = down; calls = 0; answers = [] })
flag_after (e ∷ es) = elim (flag_after es) [ none ↦ none | some f ↦ flag_step e f ]

-- The closures' variables, of a flag.
unfoldable pub is_up : Flag → Bool
is_up down = false
is_up up = true
is_up (awaited id) = false

unfoldable pub waiter_of : Flag → Option ℕ
waiter_of down = none
waiter_of up = none
waiter_of (awaited id) = some id

unfoldable pub calls_open : Flag → List ℕ
calls_open down = []
calls_open up = []
calls_open (awaited id) = id ∷ []

unfoldable pub wake_of : FlagState → Wake
wake_of f = record {
  pending = is_up f.flag;
  waiter = waiter_of f.flag;
  unsettled = calls_open f.flag;
  calls = f.calls;
  log = f.answers;
}

of_flag : Flag → ℕ → List (ℕ × Reason) → FlagState
of_flag flag calls answers = record { flag = flag; calls = calls; answers = answers }

on_wake_event-flag_step :
    (e : WakeEvent) (flag : Flag) (calls : ℕ) (answers : List (ℕ × Reason)) (g : FlagState)
    → flag_step e (of_flag flag calls answers) ≡ some g
    → on_wake_event e (wake_of (of_flag flag calls answers)) ≡ wake_of g
unfolding on_wake_event flag_step signal wait finish without still_pending raise take_flag expire
    wake_of is_up waiter_of calls_open of_flag
on_wake_event-flag_step signalled down calls answers g h = ground arith
on_wake_event-flag_step signalled up calls answers g h = ground arith
on_wake_event-flag_step signalled (awaited id) calls answers g h = ground (arith, ==_iff id id)
on_wake_event-flag_step waited down calls answers g h = ground arith
on_wake_event-flag_step waited up calls answers g h = ground arith
on_wake_event-flag_step waited (awaited id) calls answers g h = ground arith
on_wake_event-flag_step (timer_fired n) down calls answers g h = ground arith
on_wake_event-flag_step (timer_fired n) up calls answers g h = ground arith
on_wake_event-flag_step (timer_fired n) (awaited id) calls answers g h = ground (arith, ==_iff id n)

-- After any history of signals, timers and calls of `wait` in which no call starts while another
-- waits, the signal's variables are those of the flag after the same history, and the calls were
-- answered as the flag answers them.
pub wake_after-wake_of :
    (es : List WakeEvent) (f : FlagState) → flag_after es ≡ some f → wake_after es ≡ wake_of f
unfolding wake_after flag_after start wake_of is_up waiter_of calls_open of_flag
wake_after-wake_of [] f h = ground arith
wake_after-wake_of (e ∷ es) f h = elim (Option-cases (flag_after es)) [
  | inl none_there ↦ absurd (ground arith)
  | inr (g, before) ↦
      ap (on_wake_event e) (wake_after-wake_of es g before)
      ∙ on_wake_event-flag_step e g.flag g.calls g.answers f (rw before at h)
]

unfoldable pub is_no_call : WakeEvent → Bool
is_no_call signalled = true
is_no_call waited = false
is_no_call (timer_fired id) = true

raised :
    (calls : ℕ) (answers : List (ℕ × Reason))
    → flag_step signalled (of_flag up calls answers) ≡ some (of_flag up calls answers)
unfolding flag_step raise of_flag
raised calls answers = refl

kept :
    (id calls : ℕ) (answers : List (ℕ × Reason))
    → flag_step (timer_fired id) (of_flag up calls answers) ≡ some (of_flag up calls answers)
unfolding flag_step expire of_flag
kept id calls answers = refl

-- Neither signals nor timers lower a flag that is up.
stays_up :
    (later es : List WakeEvent) (calls : ℕ) (answers : List (ℕ × Reason))
    → every is_no_call later ≡ true
    → wake_after es ≡ wake_of (of_flag up calls answers)
    → wake_after (later ++ es) ≡ wake_of (of_flag up calls answers)
unfolding wake_after is_no_call
stays_up [] es calls answers quiet now = now
stays_up (signalled ∷ later) es calls answers quiet now =
    ap (on_wake_event signalled) (stays_up later es calls answers quiet now)
    ∙ on_wake_event-flag_step signalled up calls answers (of_flag up calls answers)
        (raised calls answers)
stays_up (waited ∷ later) es calls answers quiet now = absurd (ground arith)
stays_up (timer_fired id ∷ later) es calls answers quiet now =
    ap (on_wake_event (timer_fired id)) (stays_up later es calls answers quiet now)
    ∙ on_wake_event-flag_step (timer_fired id) up calls answers (of_flag up calls answers)
        (kept id calls answers)

next_call_answered :
    (es later : List WakeEvent) (calls : ℕ) (answers : List (ℕ × Reason))
    → every is_no_call later ≡ true
    → wake_after (signalled ∷ es) ≡ wake_of (of_flag up calls answers)
    → (wake_after (waited ∷ (later ++ (signalled ∷ es)))).log ≡ (calls, event) ∷ answers
unfolding wake_after on_wake_event wait wake_of is_up calls_open of_flag
next_call_answered es later calls answers quiet now =
    ap (λ w. (on_wake_event waited w).log) (stays_up later (signalled ∷ es) calls answers quiet now)

signal_answer :
    (flag : Flag) (es : List WakeEvent) (calls : ℕ) (answers : List (ℕ × Reason)) (g : FlagState)
    → wake_after es ≡ wake_of (of_flag flag calls answers)
    → flag_step signalled (of_flag flag calls answers) ≡ some g
    → wake_after (signalled ∷ es) ≡ wake_of g
unfolding wake_after
signal_answer flag es calls answers g now step =
    ap (on_wake_event signalled) now ∙ on_wake_event-flag_step signalled flag calls answers g step

signal_kept :
    (flag : Flag) (es later : List WakeEvent) (calls : ℕ) (answers : List (ℕ × Reason))
    → wake_after es ≡ wake_of (of_flag flag calls answers)
    → every is_no_call later ≡ true
    → ((id : ℕ) × ((wake_after es).waiter ≡ some id)
        × ((wake_after (signalled ∷ es)).log ≡ (id, event) ∷ (wake_after es).log))
      ⊎ ((wake_after (waited ∷ (later ++ (signalled ∷ es)))).log
          ≡ ((wake_after es).calls, event) ∷ (wake_after es).log)
unfolding wake_of waiter_of of_flag flag_step raise
signal_kept (awaited id) es later calls answers now quiet = inl (
  id,
  ap (λ w. w.waiter) now,
  ap (λ w. w.log)
        (signal_answer (awaited id) es calls answers (of_flag down calls ((id, event) ∷ answers))
          now refl)
      ∙ ap (λ w. (id, event) ∷ w.log) (sym now),
)
signal_kept down es later calls answers now quiet = inr (
    next_call_answered es later calls answers quiet
      (signal_answer down es calls answers (of_flag up calls answers) now refl)
    ∙ ap (λ w. (w.calls, event) ∷ w.log) (sym now))
signal_kept up es later calls answers now quiet = inr (
    next_call_answered es later calls answers quiet
      (signal_answer up es calls answers (of_flag up calls answers) now refl)
    ∙ ap (λ w. (w.calls, event) ∷ w.log) (sym now))

-- No signal is lost: after a history in which calls did not overlap, a signal answers the waiting
-- call at once, or the next call is answered `event`, whatever signals and timers came between.
pub signal_not_lost :
    (es later : List WakeEvent) (f : FlagState)
    → flag_after es ≡ some f
    → every is_no_call later ≡ true
    → ((id : ℕ) × ((wake_after es).waiter ≡ some id)
        × ((wake_after (signalled ∷ es)).log ≡ (id, event) ∷ (wake_after es).log))
      ⊎ ((wake_after (waited ∷ (later ++ (signalled ∷ es)))).log
          ≡ ((wake_after es).calls, event) ∷ (wake_after es).log)
unfolding of_flag
signal_not_lost es later f sequential quiet =
    signal_kept f.flag es later f.calls f.answers (wake_after-wake_of es f sequential) quiet
