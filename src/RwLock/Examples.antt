-- ===== src/RwLock/Examples.antt =====
-- The theorem on locks at concrete values, and tests.
use mathlib.Core.Option.{Option, none, some}
use wasm_kernel.Base.{
  NotIn, ℕ, ◌-◌, ◌^◌, ◌<◌, ◌≡◌, ◌≢◌, refl, Bool, true, false, List, [], ◌∷◌, Outcome, returned,
  Yields,
}
use wasm_kernel.Semaphore.Ops
use wasm_kernel.Semaphore.Queue.{add_loop, add_permits_locked, add_permits, fill}
use wasm_kernel.Semaphore.Ops.{
  acquire, poll, poll_acquire, take_permits, poll_locked, try_acquire, remove,
}
use wasm_kernel.Semaphore.Invariant.{Returns}
use wasm_kernel.Semaphore.Queued.{Within}
use wasm_kernel.RwLock.Lock.{
  Kind, RwLock, start, resume, drop_future, drop_guard, try_lock, guards, begin, Reach, here, next,
}
use wasm_kernel.RwLock.Balance.{held}
use wasm_kernel.RwLock.Exclusion.{Next, one_writer}
use wasm_kernel.RwLock.Reached.{Exclusive}

abbrev unlocked : RwLock
unlocked = record {
  sem = record {
    permits = 2 ^ 64 - 2;
    queue = [];
    closed = false;
    remaining = λ i. 0;
    waker = λ i. none;
  };
  readers = 0;
  writers = 0;
  pending = [];
  kind = λ i. Kind.read;
}

abbrev left_by : RwLock → Option (Outcome (RwLock × Bool × List ℕ)) → RwLock
left_by m (some (returned (n, got, woken))) = n
left_by m _ = m

-- A reader has the lock.
abbrev read_locked : RwLock
read_locked = left_by unlocked (start true 0 Kind.read 5 unlocked)

-- And a writer waits.
abbrev contended : RwLock
contended = left_by read_locked (start true 1 Kind.write 7 read_locked)

contended-Reach : Reach true contended
unfolding Ops.new start acquire poll poll_acquire take_permits poll_locked remove
contended-Reach =
    next (next (here {l = unlocked} refl) (begin 0 Kind.read 5 true [] tt refl))
      (begin 1 Kind.write 7 false [] tt refl)

one_writer_example :
    Exclusive contended
    × ((i : ℕ) (k : Kind) (cx : ℕ)
        → NotIn i contended.pending
        → Returns (start true i k cx contended) (λ (l', got, woken). Exclusive l'))
    × ((i cx : ℕ)
        → Within i contended.pending
        → Returns (resume true i cx contended) (λ (l', got, woken). Exclusive l'))
    × ((i : ℕ)
        → Within i contended.pending
        → Returns (drop_future true i contended) (λ (l', woken). Exclusive l'))
    × ((k : Kind)
        → 0 < guards k contended
        → Returns (drop_guard true k contended) (λ (l', woken). Exclusive l'))
    × ((k : Kind) → Yields (try_lock k contended) (λ (l', got). Exclusive l'))
    × (held contended ≡ 0
        → (k : Kind) → contended.pending ≡ []
        → Yields (try_lock k contended) (λ (l', got). got ≡ true))
    × (held contended ≡ 0 → contended.pending ≢ [] → (i : ℕ) × Next true contended i)
one_writer_example = one_writer true contended contended-Reach

-- The writer waits for one permit, and a reader that comes after it waits too.
waiting_writer :
    (contended.readers ≡ 1) × (contended.pending ≡ 1 ∷ []) × (contended.sem.remaining 1 ≡ 1)
unfolding start acquire poll poll_acquire take_permits poll_locked remove
waiting_writer = (refl, refl, refl)

later_reader : Yields (try_lock Kind.read contended) (λ (l, got). got ≡ false)
unfolding start acquire poll poll_acquire take_permits poll_locked try_lock try_acquire
later_reader = refl

-- The drop of the reader's guard wakes the writer, and its next poll gets the lock.
reader_leaves : Returns (drop_guard true Kind.read contended) (λ (l, woken).
    (woken ≡ 7 ∷ [])
    × (l.readers ≡ 0)
    × Returns (resume true 1 7 l) (λ (l', got, w). (got ≡ true) × (l'.writers ≡ 1)))
unfolding start acquire poll poll_acquire take_permits poll_locked drop_guard add_permits resume
    add_permits_locked add_loop fill
reader_leaves = (refl, refl, (refl, refl))
