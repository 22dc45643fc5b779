-- ===== src/Semaphore/Queue.antt =====
-- The state of a `Semaphore`, and `add_permits_locked`, which hands permits to the waiters: one
-- locked section (`fill`, with the room that a `WakeBatch` of maitake-sync/src/util/wake_batch.rs
-- has), and the loop over such sections, which drops the lock in between.
use wasm_kernel.Base.{
  update, ℕ, zero, suc, ◌+◌, ◌-◌, ◌%◌, ◌^◌, min, Bool, false, not, ◌==◌, ltb, leb, if◌then◌else◌,
  List, [], ◌∷◌, ◌++◌, Outcome, returned, panicked, ◌>>=◌, ◌>>◌, assert, debug_assert,
}
use mathlib.Core.Option.{Option, none, some}

-- A waiter is known by its number, a waker by another. `remaining` and `waker` are the fields of
-- the waiters' nodes, which the futures own: a node outlives its stay in the queue.
-- The queue stands from its back to its front, so the waiter that is served next comes first.
pub record Semaphore : Type 0 where
  pub permits : ℕ
  pub queue : List ℕ
  pub closed : Bool
  pub remaining : ℕ → ℕ
  pub waker : ℕ → Option ℕ

abbrev pub usize_mod : ℕ
usize_mod = 2 ^ 64

abbrev pub closed_permits : ℕ
closed_permits = 2 ^ 64 - 1

abbrev pub max_permits : ℕ
max_permits = 2 ^ 64 - 2

-- The number of wakers in a `WakeBatch`, outside of loom tests.
abbrev pub max_wakers : ℕ
max_wakers = 16

-- `RemainingPermits::add`: the count that remains, and the permits that are left over. The lock is
-- held wherever it runs, so its exchange fails only spuriously.
abbrev pub add_remaining : ℕ → ℕ → ℕ × ℕ
add_remaining curr permits = let taken = min curr permits in (curr - taken, permits - taken)

-- What one locked section leaves: the queue and the nodes, the permits that are left over, whether
-- the queue was drained, and the wakers of the batch.
pub record Filled : Type 0 where
  pub queue : List ℕ
  pub remaining : ℕ → ℕ
  pub waker : ℕ → Option ℕ
  pub permits : ℕ
  pub drained : Bool
  pub batch : List ℕ

abbrev pub add_waker : Option ℕ → List ℕ → List ℕ
add_waker none batch = batch
add_waker (some w) batch = w ∷ batch

-- Only a waiter that has a waker takes room in the batch.
abbrev pub room_left : Option ℕ → ℕ → ℕ
room_left none room = room
room_left (some w) room = room - 1

unfoldable pub fill : ℕ → List ℕ → (ℕ → ℕ) → (ℕ → Option ℕ) → ℕ → Filled
fill room [] remaining waker permits = record {
  queue = [];
  remaining = remaining;
  waker = waker;
  permits = permits;
  drained = not (room == 0);
  batch = [];
}
fill room (i ∷ queue) remaining waker permits =
    let (left, permits') = add_remaining (remaining i) permits in
    let rest =
      fill (room_left (waker i) room) queue (update remaining i left) (update waker i none)
        permits' in
    if room == 0
    then record {
      queue = i ∷ queue;
      remaining = remaining;
      waker = waker;
      permits = permits;
      drained = false;
      batch = [];
    }
    else if left == 0
    then record rest { batch = add_waker (waker i) rest.batch }
    else record {
      queue = i ∷ queue;
      remaining = update remaining i left;
      waker = waker;
      permits = permits';
      drained = false;
      batch = [];
    }

abbrev pub filled : Semaphore → Filled → Semaphore
filled s b = record s { queue = b.queue; remaining = b.remaining; waker = b.waker }

-- `fetch_add` of the permits that are left, with its check: it wraps, and in a debug build the sum
-- in the check panics where it overflows.
unfoldable pub add_rest : Bool → Semaphore → ℕ → Outcome Semaphore
add_rest debug s permits = do
  debug_assert debug (ltb (s.permits + permits) usize_mod)
  assert (leb ((s.permits + permits) % usize_mod) max_permits)
  returned (record s { permits = (s.permits + permits) % usize_mod })

-- The wakers of a batch are woken before those of the rounds that follow.
abbrev pub woken_before : List ℕ → Outcome (Semaphore × List ℕ) → Outcome (Semaphore × List ℕ)
woken_before batch (returned (s, woken)) = returned (s, batch ++ woken)
woken_before batch panicked = panicked

-- The `while` loop. `relock` is what the other threads have done to the semaphore when the lock is
-- taken again; the result holds the wakers that were woken, in order. `none` says that the fuel ran
-- out.
module _ (debug : Bool) (relock : ℕ → Semaphore → Semaphore) where
  unfoldable pub add_loop : ℕ → ℕ → Semaphore → Option (Outcome (Semaphore × List ℕ))
  unfolding fill add_rest
  add_loop zero permits s = none
  add_loop (suc fuel) permits s =
      let b = fill max_wakers s.queue s.remaining s.waker permits in
      let again = add_loop fuel b.permits (relock fuel (filled s b)) in
      if permits == 0
      then some (returned (s, []))
      else if b.drained
      then some (
          if b.permits == 0
          then returned (relock fuel (filled s b), b.batch)
          else (add_rest debug (filled s b) b.permits >>= λ s'. returned (relock fuel s', b.batch)))
      else elim again [ none ↦ none | some out ↦ some (woken_before b.batch out) ]

  -- `add_permits_locked`
  unfoldable pub add_permits_locked : ℕ → ℕ → Semaphore → Option (Outcome (Semaphore × List ℕ))
  add_permits_locked fuel permits s =
      if s.closed then some (returned (s, [])) else add_loop fuel permits s

  -- `add_permits`, and the `drop` of a `Permit`
  unfoldable pub add_permits : ℕ → ℕ → Semaphore → Option (Outcome (Semaphore × List ℕ))
  add_permits fuel permits s =
      if permits == 0 then some (returned (s, [])) else add_permits_locked fuel permits s
