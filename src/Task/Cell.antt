-- ===== src/Task/Cell.antt =====
-- `StateCell` of maitake/src/task/state.rs: `transition`'s compare-exchange loop, and the methods
-- that run it. `failures` lists what the failing `compare_exchange_weak`s read, interference by
-- other threads and spurious failures alike; after the last of them the exchange succeeds.
pub mod Linear
use wasm_kernel.Base.{
  Bool, true, false, ◌==◌, if◌then◌else◌, List, [], ◌∷◌, Outcome, returned, panicked, ◌>>=◌, ◌>>◌,
  debug_assert,
}
use wasm_kernel.Task.Word.{State, JoinWakerState, to_word}
use wasm_kernel.Task.Step
use wasm_kernel.Task.Step.{StartPollAction, PollResult, WakeAction, ScheduleAction, JoinAction}

-- `step` is the closure, `C` what it captures. The result is the new state of the cell, the
-- captured variables and what the closure returned.
module _ {C A : Type 0} (step : State → C → Outcome (State × C × A)) where
  unfoldable pub transition : C → State → List State → Outcome (State × C × A)
  transition c current [] = step current c
  transition c current (actual ∷ failures) = step current c >>= λ (next, c', res).
      let again = transition c' actual failures in
      if to_word current == to_word next then returned (current, c', res) else again

-- A closure that captures nothing.
module _ {A : Type 0} where
  unfoldable pub capture_none :
      (State → Outcome (State × A)) → State → Unit {0} → Outcome (State × Unit {0} × A)
  capture_none step s c = step s >>= λ (s', a). returned (s', c, a)

-- What `wait_for_join_waker` compares with, and what it puts in its place. `state` is what was read
-- last.
unfoldable pub wait_for_join_waker : State → List State → State × State
wait_for_join_waker state [] = (
  record state { join_waker = JoinWakerState.waiting },
  record state { join_waker = JoinWakerState.woken },
)
wait_for_join_waker state (actual ∷ failures) = wait_for_join_waker actual failures

abbrev pub is_canceled : StartPollAction → Bool
is_canceled (StartPollAction.canceled _) = true
is_canceled _ = false

abbrev pub is_ready_joined : PollResult → Bool
is_ready_joined PollResult.ready_joined = true
is_ready_joined _ = false

-- `loaded` is the state that is read before the wait, `waits` what the wait's failures read.
module _ (debug : Bool) (current : State) (failures : List State) where
  unfoldable pub start_poll : State → List State → Outcome (State × StartPollAction)
  unfolding transition wait_for_join_waker
  start_poll loaded waits =
      transition (Step.start_poll debug) false current failures >>= λ (s, should_wait, act).
      if should_wait
      then (debug_assert debug (is_canceled act)
          >> returned ((wait_for_join_waker loaded waits).1, act))
      else returned (s, act)

  unfoldable pub end_poll : Bool → State → List State → Outcome (State × PollResult)
  unfolding transition wait_for_join_waker
  end_poll completed loaded waits =
      transition (Step.end_poll debug completed) false current failures >>= λ (s, should_wait, act).
      if should_wait
      then (debug_assert debug (is_ready_joined act)
          >> returned ((wait_for_join_waker loaded waits).1, act))
      else returned (s, act)

  unfoldable pub wake_by_val : Outcome (State × Unit {0} × WakeAction)
  unfolding transition capture_none
  wake_by_val = transition (capture_none (Step.wake_by_val debug)) tt current failures

  unfoldable pub wake_by_ref : Outcome (State × Unit {0} × ScheduleAction)
  unfolding transition capture_none
  wake_by_ref = transition (capture_none (Step.wake_by_ref debug)) tt current failures

  unfoldable pub cancel : Outcome (State × Unit {0} × Bool)
  unfolding transition capture_none
  cancel = transition (capture_none (λ s. returned (Step.cancel s))) tt current failures

  unfoldable pub try_join : Outcome (State × Unit {0} × JoinAction)
  unfolding transition capture_none
  try_join = transition (capture_none (Step.try_join debug)) tt current failures
