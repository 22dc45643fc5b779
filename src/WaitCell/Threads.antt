-- ===== src/WaitCell/Threads.antt =====
-- Threads that poll, wake and close one `WaitCell`, an atomic operation or an access of the waker at
-- a time. A waker is a number; two wakers wake the same task if they are equal.
use mathlib.Core.Option.{Option, none, some}
use wasm_kernel.Base.{
  ℕ, ◌==◌, ◌≡◌, Bool, true, false, List, [], ◌∷◌, returned, if◌then◌else◌, update,
}
use wasm_kernel.WaitCell.State.{
  State, waiting, PollResult, register, clear, answer, begin_poll, end_poll, unwind, mark, may_take,
}

-- Where a thread is. `registering` to `unwinding` are places in `poll_wait`, with the caller's
-- waker, the word that the second exchange found, and the waker that was taken back; `taking` and
-- `releasing` are places in `take_waker`.
pub data Phase : Type 0 where
  idle : Phase
  clearing : Phase
  registering : ℕ → Phase
  stored : Phase
  failed : State → Phase
  unwinding : State → Option ℕ → Phase
  taking : Phase
  releasing : Option ℕ → Phase

-- `woken` has the wakers that were woken, the last one first.
pub record Cell : Type 0 where
  pub state : State
  pub waker : Option ℕ
  pub phase : ℕ → Phase
  pub woken : List ℕ

abbrev pub new : Cell
new = record { state = waiting; waker = none; phase = λ _. idle; woken = [] }

abbrev pub wake : Option ℕ → List ℕ → List ℕ
wake none l = l
wake (some w) l = w ∷ l

-- What the new waker displaces; one that wakes the same task stays.
abbrev pub displaced : ℕ → Option ℕ → Option ℕ
displaced w none = none
displaced w (some v) = if w == v then none else some v

pub data Step (i : ℕ) (t t' : Cell) : Type 0 where
  begin :
      (w : ℕ)
      → t.phase i ≡ idle
      → begin_poll t.state ≡ register
      → t' ≡ record t {
        state = record t.state { registering = true };
        phase = update t.phase i (registering w);
      }
      → Step i t t'
  reply : (r : PollResult) → t.phase i ≡ idle → begin_poll t.state ≡ answer r → t' ≡ t → Step i t t'
  see_woken :
      t.phase i ≡ idle
      → begin_poll t.state ≡ clear
      → t' ≡ record t { phase = update t.phase i clearing }
      → Step i t t'
  clear_woken :
      t.phase i ≡ clearing
      → t' ≡ record t { state = record t.state { woken = false }; phase = update t.phase i idle }
      → Step i t t'
  store :
      (w : ℕ)
      → t.phase i ≡ registering w
      → t' ≡ record t {
        waker = some w;
        phase = update t.phase i stored;
        woken = wake (displaced w t.waker) t.woken;
      }
      → Step i t t'
  park :
      t.phase i ≡ stored
      → end_poll t.state ≡ none
      → t' ≡ record t { state = waiting; phase = update t.phase i idle }
      → Step i t t'
  fail :
      (actual : State)
      → t.phase i ≡ stored
      → end_poll t.state ≡ some actual
      → t' ≡ record t { phase = update t.phase i (failed actual) }
      → Step i t t'
  take_back :
      (actual : State)
      → t.phase i ≡ failed actual
      → t' ≡ record t { waker = none; phase = update t.phase i (unwinding actual t.waker) }
      → Step i t t'
  give_up :
      (actual s : State) (w : Option ℕ) (r : PollResult)
      → t.phase i ≡ unwinding actual w
      → unwind false actual t.state ≡ returned (s, r)
      → t' ≡ record t { state = s; phase = update t.phase i idle; woken = wake w t.woken }
      → Step i t t'
  lock :
      (close : Bool)
      → t.phase i ≡ idle
      → may_take t.state ≡ true
      → t' ≡ record t { state = mark close t.state; phase = update t.phase i taking }
      → Step i t t'
  leave :
      (close : Bool)
      → t.phase i ≡ idle
      → may_take t.state ≡ false
      → t' ≡ record t { state = mark close t.state; phase = update t.phase i idle }
      → Step i t t'
  take :
      t.phase i ≡ taking
      → t' ≡ record t { waker = none; phase = update t.phase i (releasing t.waker) }
      → Step i t t'
  release :
      (w : Option ℕ)
      → t.phase i ≡ releasing w
      → t' ≡ record t {
        state = record t.state { waking = false };
        phase = update t.phase i idle;
        woken = wake w t.woken;
      }
      → Step i t t'

-- Any threads, in any order.
pub data Reach (s : Cell) : Cell → Type 0 where
  here : Reach s s
  next : {t t' : Cell} (i : ℕ) → Reach s t → Step i t t' → Reach s t'
