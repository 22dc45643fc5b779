-- ===== src/Task/Step.antt =====
-- The closures that `StateCell`'s methods in maitake/src/task/state.rs hand to `transition`: one
-- step of a task's state each. `debug` says whether the build has debug assertions, which also
-- makes an underflow panic. A `&mut bool` that a closure captures is passed in and handed back.
use wasm_kernel.Base.{
  ◌+◌, ◌-◌, ◌%◌, Bool, true, false, not, ◌&&◌, ◌||◌, ◌==◌, ltb, if◌then◌else◌, Outcome, returned,
  panicked, ◌>>=◌, ◌>>◌, assert, debug_assert,
}
use wasm_kernel.Task.Word.{State, JoinWakerState, ref_mod, ref_max, to_word}

pub data ScheduleAction : Type 0 where
  enqueue : ScheduleAction
  none : ScheduleAction

pub data JoinAction : Type 0 where
  take_output : JoinAction
  canceled : (completed : Bool) → JoinAction
  register : JoinAction
  reregister : JoinAction

pub data OrDrop (A : Type 0) : Type 0 where
  action : A → OrDrop A
  drop : OrDrop A

pub data StartPollAction : Type 0 where
  poll : StartPollAction
  canceled : (wake_join_waker : Bool) → StartPollAction
  cant_poll : StartPollAction

-- `PollResult` of maitake/src/task.rs
pub data PollResult : Type 0 where
  ready : PollResult
  ready_joined : PollResult
  pending : PollResult
  pending_schedule : PollResult

abbrev pub WakeAction : Type 0
WakeAction = OrDrop ScheduleAction

-- `StateCell::new`
unfoldable pub new : State
new = record {
  polling = false;
  woken = false;
  completed = false;
  canceled = false;
  has_join_handle = false;
  join_waker = JoinWakerState.empty;
  has_output = false;
  refs = 1;
}

-- `self.0 - REF_ONE` touches the count alone; it wraps from 0, or panics in a debug build.
unfoldable pub drop_ref : Bool → State → Outcome State
drop_ref debug s = do
  debug_assert debug (not (s.refs == 0))
  returned (record s { refs = (s.refs + ref_mod - 1) % ref_mod })

unfoldable pub clone_ref : Bool → State → Outcome State
clone_ref debug s = do
  debug_assert debug (ltb (s.refs + 1) ref_mod)
  returned (record s { refs = (s.refs + 1) % ref_mod })

-- The state, the captured `should_wait`, and the result.
unfoldable pub has_join_waker : Bool → State → Bool → Outcome (State × Bool × Bool)
has_join_waker debug s should_wait = elim s.join_waker [
  | JoinWakerState.empty ↦ returned (s, should_wait, false)
  | JoinWakerState.registering ↦ debug_assert debug s.has_join_handle >> returned (s, true, true)
  | JoinWakerState.waiting ↦
      debug_assert debug s.has_join_handle
      >> returned (record s { join_waker = JoinWakerState.empty }, false, true)
  | JoinWakerState.woken ↦ debug_assert debug false >> returned (s, should_wait, false)
]

unfoldable pub start_poll : Bool → State → Bool → Outcome (State × Bool × StartPollAction)
unfolding has_join_waker
start_poll debug s should_wait =
    if s.polling || s.completed
    then returned (s, should_wait, StartPollAction.cant_poll)
    else if s.canceled
    then (has_join_waker debug s should_wait >>= λ (s', wait, wake).
        returned (s', wait, StartPollAction.canceled wake))
    else returned (record s { polling = true; woken = false }, should_wait, StartPollAction.poll)

unfoldable pub end_poll : Bool → Bool → State → Bool → Outcome (State × Bool × PollResult)
unfolding has_join_waker
end_poll debug completed s should_wait = do
  debug_assert debug s.polling
  debug_assert debug (not s.completed)
  debug_assert debug (ltb 0 s.refs)
  let ended = record s { polling = false; completed = completed }
  if not completed && s.woken
      then returned (ended, should_wait, PollResult.pending_schedule)
      else if completed
      then (has_join_waker debug (record ended { has_output = true }) should_wait
          >>= λ (s', wait, had).
              returned (s', wait, if had then PollResult.ready_joined else PollResult.ready))
      else returned (ended, should_wait, PollResult.pending)

unfoldable pub wake_by_val : Bool → State → Outcome (State × WakeAction)
unfolding drop_ref clone_ref
wake_by_val debug s =
    if s.polling
    then (drop_ref debug (record s { woken = true }) >>= λ s'.
        assert (ltb 0 s'.refs) >> returned (s', OrDrop.action ScheduleAction.none))
    else if s.completed || s.woken
    then (drop_ref debug s >>= λ s'.
        returned (s', if s'.refs == 0 then OrDrop.drop else OrDrop.action ScheduleAction.none))
    else clone_ref debug (record s { woken = true }) >>= λ s'.
        returned (s', OrDrop.action ScheduleAction.enqueue)

unfoldable pub wake_by_ref : Bool → State → Outcome (State × ScheduleAction)
unfolding clone_ref
wake_by_ref debug s =
    if s.completed || s.woken
    then returned (s, ScheduleAction.none)
    else if s.polling
    then returned (record s { woken = true }, ScheduleAction.none)
    else clone_ref debug (record s { woken = true }) >>= λ s'. returned (s', ScheduleAction.enqueue)

-- `true` if the task was canceled by this call.
unfoldable pub cancel : State → State × Bool
cancel s = if s.canceled then (s, false) else (record s { canceled = true; woken = true }, true)

unfoldable pub create_join_handle : Bool → State → Outcome State
create_join_handle debug s =
    debug_assert debug (not s.has_join_handle) >> returned (record s { has_join_handle = true })

abbrev pub is_waiting : JoinWakerState → Bool
is_waiting JoinWakerState.waiting = true
is_waiting _ = false

abbrev pub is_registering : JoinWakerState → Bool
is_registering JoinWakerState.registering = true
is_registering _ = false

unfoldable pub should_register : Bool → State → Outcome (State × JoinAction)
should_register debug s =
    let next = record s { join_waker = JoinWakerState.registering } in
    elim s.join_waker [
      | JoinWakerState.empty ↦ returned (next, JoinAction.register)
      | other ↦ debug_assert debug (is_waiting other) >> returned (next, JoinAction.reregister)
    ]

unfoldable pub try_join : Bool → State → Outcome (State × JoinAction)
unfolding should_register
try_join debug s =
    if s.canceled
    then returned (s, JoinAction.canceled s.has_output)
    else if not s.completed
    then should_register debug s
    else if not s.has_output
    then should_register debug s
    else returned (record s { has_output = false }, JoinAction.take_output)

unfoldable pub set_join_waker_registered : Bool → State → Outcome State
set_join_waker_registered debug s = do
  debug_assert debug (is_registering s.join_waker)
  returned (record s { has_join_handle = true; join_waker = JoinWakerState.waiting })

-- The `fetch_or`, `fetch_and`, `fetch_add` and `fetch_sub` of the methods that are one atomic
-- operation. Those on the count wrap in every build.
unfoldable pub set_woken : State → State
set_woken s = record s { woken = true }

unfoldable pub drop_join_handle : Bool → State → Outcome State
drop_join_handle debug s =
    debug_assert debug s.has_join_handle >> returned (record s { has_join_handle = false })

-- `StateCell::clone_ref`: panics if the old word is above the mask of the count.
unfoldable pub fetch_clone_ref : State → Outcome State
fetch_clone_ref s =
    if ltb ref_max (to_word s)
    then panicked
    else returned (record s { refs = (s.refs + 1) % ref_mod })

-- `StateCell::drop_ref`: `true` if this was the last reference.
unfoldable pub fetch_drop_ref : State → State × Bool
fetch_drop_ref s = (record s { refs = (s.refs + ref_mod - 1) % ref_mod }, not (ltb 1 s.refs))
