-- ===== src/Examples/Wakes.antt =====
-- The wake signal at a concrete history.
use myne.Base.{ℕ, ◌≡◌, ◌⊎◌, refl, true, List, [], ◌∷◌, ◌++◌, some, every}
use myne.Loop.{Reason, event, timeout, WakeEvent, signalled, waited, timer_fired, wake_after}
use myne.Loop.Sequential.{
  FlagState, down, awaited, flag_after, wake_of, is_no_call, wake_after-wake_of, signal_not_lost,
}

-- A first call timed out, and a second waits.
abbrev calls : List WakeEvent
calls = waited ∷ timer_fired 0 ∷ waited ∷ []

abbrev waiting_flag : FlagState
waiting_flag = record { flag = awaited 1; calls = 2; answers = (0, timeout) ∷ [] }

calls-flag : flag_after calls ≡ some waiting_flag
unfolding myne.Loop.Sequential.expire myne.Loop.Sequential.flag_after myne.Loop.Sequential.flag_step
    myne.Loop.Sequential.raise myne.Loop.Sequential.take_flag
calls-flag = refl

quiet : every is_no_call (timer_fired 1 ∷ signalled ∷ []) ≡ true
unfolding is_no_call
quiet = refl

wake_after-wake_of_example : wake_after calls ≡ wake_of waiting_flag
wake_after-wake_of_example = wake_after-wake_of calls waiting_flag calls-flag

signal_not_lost_example :
    ((id : ℕ) × ((wake_after calls).waiter ≡ some id)
      × ((wake_after (signalled ∷ calls)).log ≡ (id, event) ∷ (wake_after calls).log))
    ⊎ ((wake_after (waited ∷ ((timer_fired 1 ∷ signalled ∷ []) ++ (signalled ∷ calls)))).log
        ≡ ((wake_after calls).calls, event) ∷ (wake_after calls).log)
signal_not_lost_example =
    signal_not_lost calls (timer_fired 1 ∷ signalled ∷ []) waiting_flag calls-flag quiet
