-- ===== src/Semaphore/Closing.antt =====
-- `close`, and what a closed semaphore does.
use wasm_kernel.Base.{
  NotIn, Distinct, update, ℕ, suc, ◌-◌, ◌≤◌, ◌<◌, ◌≡◌, refl, true, false, List, [], ◌∷◌, arith,
  returned, panicked,
}
use mathlib.Core.Option.{Option, none, some}
use wasm_kernel.Semaphore.Queue.{Semaphore, closed_permits, max_permits, add_loop}
use wasm_kernel.Semaphore.Ops.{Result, try_acquire, wakers, clear, close}

pub record Closed (s : Semaphore) : Type 0 where
  pub marked : s.closed ≡ true
  pub permits : s.permits ≡ closed_permits
  pub empty : s.queue ≡ []

pub close-Closed : (s : Semaphore) → Closed (close s).0
unfolding close
close-Closed s = record { marked = refl; permits = refl; empty = refl }

clear-wakers :
    (queue : List ℕ) (waker : ℕ → Option ℕ) (j : ℕ) → NotIn j queue → clear queue waker j ≡ waker j
unfolding clear
clear-wakers [] waker j h = refl
clear-wakers (i ∷ queue) waker j h = ground (arith, clear-wakers queue (update waker i none) j)

-- The wakers that are registered for the waiters of a queue.
abbrev pub registered : List ℕ → (ℕ → Option ℕ) → List ℕ
registered [] waker = []
registered (i ∷ queue) waker = elim (waker i) [
  | none ↦ registered queue waker
  | some w ↦ w ∷ registered queue waker
]

registered-update :
    (i : ℕ) (queue : List ℕ) (waker : ℕ → Option ℕ)
    → NotIn i queue
    → registered queue (update waker i none) ≡ registered queue waker
registered-update i [] waker h = refl
registered-update i (j ∷ queue) waker h = ground (arith, registered-update i queue waker)

wakers-registered :
    (queue : List ℕ) (waker : ℕ → Option ℕ)
    → Distinct queue
    → wakers queue waker ≡ registered queue waker
unfolding wakers
wakers-registered [] waker d = refl
wakers-registered (i ∷ queue) waker d =
    ground
      (arith, wakers-registered queue (update waker i none), registered-update i queue waker d.0)

-- Where no waiter stands in the queue twice, `close` wakes every waiter that has a waker once, in the
-- order of the queue.
pub close_wakes : (s : Semaphore) → Distinct s.queue → (close s).1 ≡ registered s.queue s.waker
unfolding close
close_wakes s d = wakers-registered s.queue s.waker d

-- Where the semaphore was closed while a call of `add_permits` had dropped the lock between two
-- batches, the call goes on with its loop and not with the test of `closed`: in a build with no
-- overflow checks a semaphore that is closed gets permits again, and they can be taken; with debug
-- assertions it panics.
pub reopened :
    (fuel permits : ℕ) (s : Semaphore)
    → Closed s
    → 0 < permits
    → permits ≤ max_permits
    → let t : Semaphore = record s { permits = permits - 1 } in
      (add_loop false (λ _ u. u) (suc fuel) permits s ≡ some (returned (t, [])))
      × (try_acquire [] (permits - 1) t ≡ (record t { permits = 0 }, Result.ok tt))
      × (add_loop true (λ _ u. u) (suc fuel) permits s ≡ some panicked)
unfolding add_loop try_acquire
reopened fuel permits s c pos le = (ground arith, ground arith, ground arith)
