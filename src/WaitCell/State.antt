-- ===== src/WaitCell/State.antt =====
-- The word of a `WaitCell`, by its bits, and what each method does to it in one atomic operation.
use mathlib.Core.Option.{Option, none, some}
use wasm_kernel.Base.{
  Bool, true, false, not, ◌&&◌, ◌||◌, if◌then◌else◌, Outcome, ◌>>◌, returned, debug_assert,
}

pub record State : Type 0 where
  pub registering : Bool
  pub waking : Bool
  pub woken : Bool
  pub closed : Bool

abbrev pub waiting : State
waiting = record { registering = false; waking = false; woken = false; closed = false }

bool_eq : Bool → Bool → Bool
bool_eq true b = b
bool_eq false b = not b

infix 50 ◌==◌
unfoldable pub ◌==◌ : State → State → Bool
unfolding bool_eq
s == t =
    bool_eq s.registering t.registering
    && bool_eq s.waking t.waking
    && bool_eq s.woken t.woken
    && bool_eq s.closed t.closed

pub data PollWaitError : Type 0 where
  closed : PollWaitError
  busy : PollWaitError

pub data PollResult : Type 0 where
  pending : PollResult
  ready : PollResult
  ready_err : PollWaitError → PollResult

-- The first exchange of `poll_wait`: the poller may register, has its answer, or takes WOKEN away.
pub data Begun : Type 0 where
  register : Begun
  clear : Begun
  answer : PollResult → Begun

unfoldable pub begin_poll : State → Begun
unfolding ◌==◌
begin_poll s =
    if s == waiting
    then register
    else if s.closed
    then answer (ready_err PollWaitError.closed)
    else if s.woken
    then clear
    else if s.waking
    then answer ready
    else answer (ready_err busy)

-- The second exchange, from REGISTERING to WAITING: `some` is what stood there instead.
unfoldable pub end_poll : State → Option State
unfolding ◌==◌
end_poll s = if s == record waiting { registering = true } then none else some s

-- `fetch_and(CLOSED)` after the second exchange has failed: the new word and the answer.
unfoldable pub unwind : Bool → State → State → Outcome (State × PollResult)
unfolding ◌==◌
unwind debug actual s =
    debug_assert debug (s == actual || s == record actual { closed = true })
    >> returned (
      record waiting { closed = s.closed },
      if s.closed then ready_err PollWaitError.closed else ready,
    )

-- `fetch_or` at the start of `take_waker`.
unfoldable pub mark : Bool → State → State
mark close s = record s { waking = true; woken = true; closed = s.closed || close }

-- Whether `take_waker` got the lock, by the word that it found.
unfoldable pub may_take : State → Bool
may_take s = not (s.waking || s.registering || s.closed)

unfoldable pub is_closed : State → Bool
unfolding ◌==◌
is_closed s = s == record waiting { closed = true }
