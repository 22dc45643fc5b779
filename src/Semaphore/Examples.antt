-- ===== src/Semaphore/Examples.antt =====
-- Runs of a semaphore, and the theorems at them.
use wasm_kernel.Base.{
  Distinct, ℕ, zero, suc, ◌==◌, ◌≡◌, refl, Bool, true, false, List, [], ◌∷◌, Outcome, returned,
  panicked, if◌then◌else◌, arith,
}
use mathlib.Core.Option.{Option, none, some}
use wasm_kernel.Semaphore.Queue.{Semaphore, add_loop, add_permits_locked, add_permits}
use wasm_kernel.Semaphore.Ops.{
  TryAcquireError, Result, Polled, Acquire, available_permits, try_acquire, poll, poll_acquire,
  take_permits, drop_acquire, close,
}
use wasm_kernel.Semaphore.Fill.{Waits}
use wasm_kernel.Semaphore.Batches.{settle, add_loop-serve}
use wasm_kernel.Semaphore.Pass.{serve}
use wasm_kernel.Semaphore.Serve.{InOrder}
use wasm_kernel.Semaphore.Invariant.{Open, Returns, Adds, add_permits-Open, add_permits-InOrder}
use wasm_kernel.Semaphore.Acquiring.{FirstPoll, poll_first}
use wasm_kernel.Semaphore.Closing.{close-Closed, reopened}
use wasm_kernel.Semaphore.Calls.{Call, Calls, closed_for_good}

-- Waiter 0 needs two more permits, waiter 1 needs three; waiter 0 has a waker.
abbrev two_waiters : Semaphore
two_waiters = record {
  permits = 0;
  queue = 0 ∷ 1 ∷ [];
  closed = false;
  remaining = λ i. if i == 0 then 2 else 3;
  waker = λ i. if i == 0 then some 7 else none;
}

two_waiters-Distinct : Distinct two_waiters.queue
two_waiters-Distinct = omega arith

two_waiters-Waits : Waits two_waiters.remaining two_waiters.queue
two_waiters-Waits = omega arith

two_waiters-Open : Open two_waiters
two_waiters-Open = record {
  opened = refl;
  bounded = omega arith;
  distinct = two_waiters-Distinct;
  waits = two_waiters-Waits;
  idle = λ h. absurd (omega arith);
}

abbrev free : Semaphore
free = record { permits = 4; queue = []; closed = false; remaining = λ _. 3; waker = λ _. none }

free-Open : Open free
free-Open = record {
  opened = refl;
  bounded = omega arith;
  distinct = tt;
  waits = tt;
  idle = λ _. refl;
}

add_loop-serve_example :
    add_loop true (λ _ t. t) 3 4 two_waiters
    ≡ some (
        settle true two_waiters (serve two_waiters.queue two_waiters.remaining two_waiters.waker 4))
add_loop-serve_example =
    add_loop-serve true 3 4 two_waiters two_waiters-Distinct two_waiters-Waits
      (omega arith, λ _. omega arith)

add_permits-InOrder_example :
    Returns
      (add_permits true (λ _ t. t) 3 4 two_waiters)
      (λ (t, woken). InOrder two_waiters.queue two_waiters.remaining t.queue t.remaining)
add_permits-InOrder_example =
    add_permits-InOrder true 3 4 two_waiters two_waiters-Open (omega arith) (omega arith)
      (omega arith)

add_permits-Open_example :
    Returns
      (add_permits true (λ _ t. t) 3 4 two_waiters)
      (λ (t, woken). Open t × Adds 4 two_waiters t)
add_permits-Open_example =
    add_permits-Open true 3 4 two_waiters two_waiters-Open (omega arith) (omega arith)

abbrev fresh : Acquire
fresh = record { waiter = 2; queued = false; permits = 3 }

poll_first_example :
    Returns
      (poll true (λ _ t. t) 1 (5 ∷ []) fresh 9 free)
      (λ (t, a', p, woken). FirstPoll free fresh t a' p)
poll_first_example = poll_first true 1 (5 ∷ []) fresh 9 free free-Open (omega arith) refl refl tt

abbrev waiting : Acquire
waiting = record { waiter = 0; queued = true; permits = 5 }

abbrev shut : Semaphore
unfolding close
shut = (close two_waiters).0

-- `two_waiters` is closed, and the first waiter's future polled and dropped.
Calls-polled : Calls true (close two_waiters).0 (close two_waiters).0
unfolding close poll poll_acquire take_permits drop_acquire
Calls-polled =
    Calls.next
      (Calls.next Calls.here (
        Call.poll (λ _ t. t) 3 [] waiting (record waiting { queued = false }) 7 Polled.closed []
          refl))
      (Call.drop_acquire (λ _ t. t) 3 (record waiting { queued = false }) [] refl)

closed_for_good_example :
    (available_permits (close two_waiters).0 ≡ 0)
    × ((reads : List ℕ) (n : ℕ)
        → (e : TryAcquireError) × (try_acquire reads n (close two_waiters).0
            ≡ ((close two_waiters).0, Result.err e)))
    × ((relock : ℕ → Semaphore → Semaphore) (fuel : ℕ) (reads : List ℕ) (a : Acquire) (cx : ℕ)
        → poll true relock fuel reads a cx (close two_waiters).0
          ≡ some (returned ((close two_waiters).0, record a { queued = false }, Polled.closed, [])))
    × ((relock : ℕ → Semaphore → Semaphore) (fuel n : ℕ)
        → add_permits true relock fuel n (close two_waiters).0
          ≡ some (returned ((close two_waiters).0, [])))
closed_for_good_example = closed_for_good two_waiters Calls-polled

reopened_example :
    let s = (close two_waiters).0 in
    let t : Semaphore = record s { permits = 3 } in
    (add_loop false (λ _ u. u) 1 4 s ≡ some (returned (t, [])))
    × (try_acquire [] 3 t ≡ (record t { permits = 0 }, Result.ok tt))
    × (add_loop true (λ _ u. u) 1 4 s ≡ some panicked)
reopened_example =
    reopened 0 4 (close two_waiters).0 (close-Closed two_waiters) (omega arith) (omega arith)

-- Seventeen waiters for one permit each, and another thread that closes the semaphore when the first
-- batch has dropped the lock: `add_permits` of twenty leaves three permits in the closed semaphore.
abbrev countdown : ℕ → List ℕ
countdown zero = []
countdown (suc n) = n ∷ countdown n

abbrev crowded : Semaphore
crowded = record {
  permits = 0;
  queue = countdown 17;
  closed = false;
  remaining = λ _. 1;
  waker = λ i. some i;
}

abbrev permits_after : Option (Outcome (Semaphore × List ℕ)) → Option (ℕ × Bool)
permits_after none = none
permits_after (some panicked) = none
permits_after (some (returned (s, woken))) = some (s.permits, s.closed)

reopened_run :
    permits_after
      (add_permits false (λ round s. if round == 17 then (close s).0 else s) 18 20 crowded)
    ≡ some (3, true)
unfolding add_permits add_permits_locked add_loop close
reopened_run = refl
