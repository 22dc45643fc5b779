-- ===== src/WaitQueue/Queue.antt =====
-- The state of a `WaitQueue`, and the word of it that is read and changed without the lock.
use wasm_kernel.Base.{ℕ, ◌^◌, ◌==◌, Bool, true, false, ◌&&◌, List, [], ◌∷◌}

pub data State : Type 0 where
  empty : State
  waiting : State
  woken : State
  closed : State

-- `QueueState`: the state, and how often `wake_all` has been called.
pub record Word : Type 0 where
  pub state : State
  pub wake_alls : ℕ

-- The waker of a waiter's node; a waker is a number.
pub data Wakeup : Type 0 where
  empty : Wakeup
  waiting : ℕ → Wakeup
  one : Wakeup
  all : Wakeup
  closed : Wakeup

pub data WaitState : Type 0 where
  start : WaitState
  waiting : WaitState
  woken : WaitState

-- A waiter is known by its number. `wakeup` is the waker of its node, `status` its state, and
-- `seen` the count of `wake_all` when it was made. The queue stands from its back to its front, so
-- the waiter that is taken next comes first.
pub record WaitQueue : Type 0 where
  pub word : Word
  pub queue : List ℕ
  pub wakeup : ℕ → Wakeup
  pub status : ℕ → WaitState
  pub seen : ℕ → ℕ

-- The count has the bits of the word that the state leaves.
abbrev pub wake_alls_mod : ℕ
wake_alls_mod = 2 ^ 62

abbrev pub same_state : State → State → Bool
same_state State.empty State.empty = true
same_state State.waiting State.waiting = true
same_state State.woken State.woken = true
same_state State.closed State.closed = true
same_state _ _ = false

infix 50 ◌=word=◌
abbrev pub ◌=word=◌ : Word → Word → Bool
a =word= b = same_state a.state b.state && a.wake_alls == b.wake_alls

abbrev pub with_state : Word → State → Word
with_state w state = record w { state = state }

-- One round of the loop of `wake`: the word that the exchange writes, if it gets that far.
pub data Tried : Type 0 where
  done : Tried
  lock : Tried
  exchange : Word → Tried

unfoldable pub try_wake : Word → Tried
try_wake w = elim w.state [
  | State.closed ↦ done
  | State.waiting ↦ lock
  | State.empty ↦ exchange (with_state w State.woken)
  | State.woken ↦ exchange (with_state w State.woken)
]

-- The loop goes on where an exchange failed.
abbrev pub or_else : Tried → Tried → Tried
or_else done t = done
or_else lock t = lock
or_else (exchange next) t = t

-- The loop: `reads` are values that failing exchanges read.
unfoldable pub try_wakes : List Word → Word → Tried
try_wakes [] w = try_wake w
try_wakes (r ∷ reads) w = or_else (try_wake r) (try_wakes reads w)

abbrev pub is_empty : List ℕ → Bool
is_empty [] = true
is_empty (i ∷ queue) = false
