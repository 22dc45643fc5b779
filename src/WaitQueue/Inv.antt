-- ===== src/WaitQueue/Inv.antt =====
-- What holds of a wait queue while nobody holds its lock, and no `wake_all` is between two batches.
use mathlib.Core.Option.{Option, none, some}
use wasm_kernel.Base.{NotIn, Distinct, ℕ, ◌≡◌, ◌≢◌, Bool, true, false, not, All}
use wasm_kernel.WaitQueue.Queue.{State, Wakeup, WaitState, WaitQueue, same_state, is_empty}

-- The node has not been woken.
abbrev pub unwoken : Wakeup → Bool
unwoken Wakeup.empty = true
unwoken (Wakeup.waiting w) = true
unwoken _ = false

abbrev pub waker_of : Wakeup → Option ℕ
waker_of (Wakeup.waiting w) = some w
waker_of _ = none

abbrev pub Queued : (ℕ → WaitState) → (ℕ → Wakeup) → ℕ → Type 0
Queued status wakeup i = (status i ≡ WaitState.waiting) × (unwoken (wakeup i) ≡ true)

pub record Inv (q : WaitQueue) : Type 0 where
  pub agrees : is_empty q.queue ≡ not (same_state q.word.state State.waiting)
  pub distinct : Distinct q.queue
  pub queued : All (Queued q.status q.wakeup) q.queue
  pub unqueued :
      (i : ℕ) → NotIn i q.queue → q.status i ≡ WaitState.waiting → unwoken (q.wakeup i) ≡ false
  pub fresh : (i : ℕ) → q.status i ≡ WaitState.start → q.wakeup i ≡ Wakeup.empty

abbrev pub Open : WaitQueue → Type 0
Open q = q.word.state ≢ State.closed
