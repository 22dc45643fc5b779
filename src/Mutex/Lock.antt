-- ===== src/Mutex/Lock.antt =====
-- `Mutex`, `Lock` and `MutexGuard`: the operations, on the mutex's wait queue.
use mathlib.Core.Option.{Option}
use wasm_kernel.Base.{ℕ, ◌+◌, ◌-◌, ◌<◌, ◌≡◌, ◌≢◌, Bool, [], Outcome, returned, panicked, ◌>>=◌}
use wasm_kernel.WaitQueue.Queue.{State, Wakeup, WaitState, WaitQueue}
use wasm_kernel.WaitQueue.Ops.{
  Polled, pending, ready, ready_closed, wait, wake, poll_wait, release, set_status,
}
use wasm_kernel.WaitQueue.Trying.{try_wait}

-- The mutex, and how many guards there are.
pub record Mutex : Type 0 where
  pub wait : WaitQueue
  pub guards : ℕ

-- `new_woken`, with no data
abbrev pub new : Mutex
new = record {
  wait = record {
    word = record { state = State.woken; wake_alls = 0 };
    queue = [];
    wakeup = λ i. Wakeup.empty;
    status = λ i. WaitState.woken;
    seen = λ i. 0;
  };
  guards = 0;
}

-- A guard is made where the wait is over. `unreachable_unchecked!` is a panic.
abbrev pub guarded : ℕ → WaitQueue → Polled → Outcome (Mutex × Bool)
guarded guards q ready = returned (record { wait = q; guards = guards + 1 }, Bool.true)
guarded guards q pending = returned (record { wait = q; guards = guards }, Bool.false)
guarded guards q ready_closed = panicked

unfoldable pub try_lock : Mutex → Outcome (Mutex × Bool)
unfolding try_wait
try_lock m = guarded m.guards (try_wait [] m.wait).0 (try_wait [] m.wait).1

-- `lock`: a new future
unfoldable pub lock : ℕ → Mutex → Mutex
unfolding wait
lock i m = record m { wait = wait i m.wait }

-- `Lock::poll`
unfoldable pub poll_lock : Bool → ℕ → Option ℕ → Mutex → Outcome (Mutex × Bool)
unfolding poll_wait
poll_lock debug i cx m = poll_wait debug (λ t. t) [] i cx m.wait >>= λ (q, r). guarded m.guards q r

-- The drop of a guard
unfoldable pub unlock : Bool → Mutex → Outcome (Mutex × Option ℕ)
unfolding wake
unlock debug m = wake debug [] (λ t. t) m.wait >>= λ (q, w).
    returned (record { wait = q; guards = m.guards - 1 }, w)

-- The drop of a `Lock` future, after which it is forgotten.
unfoldable pub drop_lock : Bool → ℕ → Mutex → Outcome (Mutex × Option ℕ)
unfolding release
drop_lock debug i m = release debug i m.wait >>= λ (q, w).
    returned (record m { wait = set_status i WaitState.woken q }, w)

-- What is done to a mutex. A guard is dropped once, and a future is not polled again after its end
-- or its drop; its number is free then.
pub data Step (debug : Bool) (m m' : Mutex) : Type 0 where
  make : (i : ℕ) → m.wait.status i ≡ WaitState.woken → m' ≡ lock i m → Step debug m m'
  poll :
      (i : ℕ) (cx : Option ℕ) (got : Bool)
      → m.wait.status i ≢ WaitState.woken
      → poll_lock debug i cx m ≡ returned (m', got)
      → Step debug m m'
  attempt : (got : Bool) → try_lock m ≡ returned (m', got) → Step debug m m'
  drop_guard : (w : Option ℕ) → 0 < m.guards → unlock debug m ≡ returned (m', w) → Step debug m m'
  drop_future : (i : ℕ) (w : Option ℕ) → drop_lock debug i m ≡ returned (m', w) → Step debug m m'

pub data Reach (debug : Bool) : Mutex → Type 0 where
  here : Reach debug new
  next : {m m' : Mutex} → Reach debug m → Step debug m m' → Reach debug m'
