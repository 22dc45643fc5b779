-- ===== src/WaitQueue/Steps.antt =====
-- A queue on which one operation after another is done.
use mathlib.Core.Option.{Option, some}
use wasm_kernel.Base.{ℕ, ◌<◌, ◌≡◌, ◌≢◌, Bool, List, [], length, returned}
use wasm_kernel.WaitQueue.Queue.{State, Wakeup, WaitState, WaitQueue}
use wasm_kernel.WaitQueue.Ops.{wait, wake, poll_wait, release, set_status, Polled}
use wasm_kernel.WaitQueue.Drain.{wake_all, close}
use wasm_kernel.WaitQueue.WakeAll.{alone}

abbrev pub new : WaitQueue
new = record {
  word = record { state = State.empty; wake_alls = 0 };
  queue = [];
  wakeup = λ i. Wakeup.empty;
  status = λ i. WaitState.start;
  seen = λ i. 0;
}

-- A number is given to a new future once the old one has been polled to its end or dropped. A
-- future that is dropped is forgotten.
pub data Step (debug : Bool) (q q' : WaitQueue) : Type 0 where
  make : (i : ℕ) → q.status i ≢ WaitState.waiting → q' ≡ wait i q → Step debug q q'
  poll :
      (i : ℕ) (cx : Option ℕ) (r : Polled)
      → poll_wait debug (λ t. t) [] i cx q ≡ returned (q', r)
      → Step debug q q'
  notify : (w : Option ℕ) → wake debug [] (λ t. t) q ≡ returned (q', w) → Step debug q q'
  drop :
      (i : ℕ) (q1 : WaitQueue) (w : Option ℕ)
      → release debug i q ≡ returned (q1, w)
      → q' ≡ set_status i WaitState.woken q1
      → Step debug q q'
  notify_all :
      (fuel : ℕ) (l : List ℕ)
      → length q.queue < fuel
      → wake_all alone fuel q.word q ≡ some (returned (q', l))
      → Step debug q q'
  shut :
      (fuel : ℕ) (l : List ℕ)
      → length q.queue < fuel
      → close alone fuel q ≡ some (returned (q', l))
      → Step debug q q'

pub data Reach (debug : Bool) (s : WaitQueue) : WaitQueue → Type 0 where
  here : Reach debug s s
  next : {q q' : WaitQueue} → Reach debug s q → Step debug q q' → Reach debug s q'
