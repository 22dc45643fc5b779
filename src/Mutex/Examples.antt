-- ===== src/Mutex/Examples.antt =====
-- The theorems on mutexes at concrete values, and tests.
use mathlib.Core.Option.{Option, none, some}
use wasm_kernel.Base.{
  ℕ, ◌+◌, ◌<◌, ◌≤◌, ◌≡◌, ◌≢◌, ◌⊎◌, refl, true, false, [], ◌∷◌, Outcome, returned, panicked, Yields,
}
use wasm_kernel.WaitQueue.Queue.{Wakeup, WaitState, try_wake}
use wasm_kernel.WaitQueue.Ops.{wait, wake, poll_wait}
use wasm_kernel.Mutex.Lock.{
  Mutex, new, try_lock, lock, poll_lock, unlock, drop_lock, make, poll, Reach, here, next,
}
use wasm_kernel.Mutex.Exclusion.{Served, one_guard, polled_again}

-- What a call left, or the mutex before it.
abbrev left_by : {A : Type 0} → Mutex → Outcome (Mutex × A) → Mutex
left_by m (returned (n, a)) = n
left_by m panicked = m

abbrev made : Mutex
made = lock 0 new

abbrev locked : Mutex
locked = left_by made (poll_lock true 0 none made)

abbrev made_again : Mutex
made_again = lock 1 locked

-- One future waits for the guard of another.
abbrev contended : Mutex
contended = left_by made_again (poll_lock true 1 (some 7) made_again)

contended-Reach : Reach true contended
unfolding lock wait poll_lock poll_wait
contended-Reach =
    next
      (next (next (next here (make 0 refl refl)) (poll 0 none true (λ e. cc) refl))
        (make 1 refl refl))
      (poll 1 (some 7) false (λ e. cc) refl)

one_guard_example :
    (contended.guards ≤ 1)
    × (contended.guards ≡ 0
        → Yields (try_lock contended) (λ out. out.1 ≡ true) ⊎ ((i : ℕ) × Served true contended i))
    × Yields (try_lock contended) (λ out. out.0.guards ≤ 1)
    × ((i : ℕ) (cx : Option ℕ)
        → contended.wait.status i ≢ WaitState.woken
        → Yields (poll_lock true i cx contended) (λ out. out.0.guards ≤ 1))
    × (0 < contended.guards → Yields (unlock true contended) (λ out. out.0.guards ≡ 0))
    × ((i : ℕ) → Yields (drop_lock true i contended) (λ out. out.0.guards ≡ contended.guards))
one_guard_example = one_guard true contended contended-Reach

made-Reach : Reach true made
made-Reach = next here (make 0 refl refl)

polled_again_example : Yields (poll_lock true 0 none made) (λ (m', got).
    got ≡ true
    → (poll_lock true 0 (some 3) m' ≡ returned (record m' { guards = m'.guards + 1 }, true))
      × (m'.guards + 1 ≡ made.guards + 2))
unfolding lock wait
polled_again_example = polled_again true 0 none (some 3) made made-Reach (λ e. cc)

-- The first poll takes the lock and the second future waits with the waker 7, which the drop of the
-- guard returns.
contended_guards : (locked.guards ≡ 1) × (contended.guards ≡ 1) × (contended.wait.queue ≡ 1 ∷ [])
unfolding lock wait poll_lock poll_wait
contended_guards = (refl, refl, refl)

wakes_next :
    Yields
      (unlock true contended)
      (λ (m, w). (w ≡ some 7) × (m.guards ≡ 0) × (m.wait.wakeup 1 ≡ Wakeup.one))
unfolding lock wait poll_lock poll_wait unlock wake try_wake
wakes_next = (refl, refl, refl)

-- Two guards at once.
two_guards : Yields (poll_lock true 0 (some 3) locked) (λ (m, got). (got ≡ true) × (m.guards ≡ 2))
unfolding lock wait poll_lock poll_wait
two_guards = (refl, refl)
