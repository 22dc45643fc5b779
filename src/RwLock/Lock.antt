-- ===== src/RwLock/Lock.antt =====
-- `RwLock`: locking to read and to write, by the permits of a semaphore.
use mathlib.Core.Option.{Option, none, some}
use wasm_kernel.Base.{
  NotIn, ℕ, suc, ◌+◌, ◌-◌, ◌<◌, ◌≡◌, update, Bool, true, false, List, [], ◌∷◌, length, Outcome,
  returned, panicked, ◌>>=◌,
}
use wasm_kernel.Semaphore.Queue.{Semaphore, max_permits, add_permits}
use wasm_kernel.Semaphore.Ops
use wasm_kernel.Semaphore.Ops.{
  TryAcquireError, Result, Polled, Acquire, try_acquire, acquire, poll, remove, drop_acquire,
}
use wasm_kernel.Semaphore.Queued.{Within}

pub data Kind : Type 0 where
  read : Kind
  write : Kind

abbrev pub max_readers : ℕ
max_readers = max_permits

abbrev pub permits_of : Kind → ℕ
permits_of Kind.read = 1
permits_of Kind.write = max_readers

-- The lock, how many guards there are, and the futures that wait with what they wait for. A future
-- has its waiter's number.
pub record RwLock : Type 0 where
  pub sem : Semaphore
  pub readers : ℕ
  pub writers : ℕ
  pub pending : List ℕ
  pub kind : ℕ → Kind

abbrev pub new : Outcome RwLock
unfolding Ops.new
new = Ops.new max_readers >>= λ s.
    returned (record { sem = s; readers = 0; writers = 0; pending = []; kind = λ i. Kind.read })

-- A guard is made.
abbrev pub granted : Kind → RwLock → RwLock
granted Kind.read l = record l { readers = l.readers + 1 }
granted Kind.write l = record l { writers = l.writers + 1 }

abbrev pub and_then :
    {A B : Type 0} → Option (Outcome A) → (A → Option (Outcome B)) → Option (Outcome B)
and_then none f = none
and_then (some (returned a)) f = f a
and_then (some panicked) f = some panicked

-- One round of `add_permits_locked` more than there are waiters.
abbrev pub rounds : Semaphore → ℕ
rounds s = suc (length s.queue)

-- The future `i` that is pending awaits this one.
abbrev pub future : ℕ → Kind → Acquire
future i k = record { waiter = i; queued = true; permits = permits_of k }

-- The result of a poll. `expect` panics on a closed semaphore.
abbrev pub polled : ℕ → RwLock → Polled → List ℕ → Option (Outcome (RwLock × Bool × List ℕ))
polled i l Polled.acquired woken =
    some (returned (granted (l.kind i) (record l { pending = remove i l.pending }), true, woken))
polled i l Polled.pending woken = some (returned (l, false, woken))
polled i l Polled.closed woken = some panicked

-- A guard is dropped.
abbrev pub released : Kind → RwLock → RwLock
released Kind.read l = record l { readers = l.readers - 1 }
released Kind.write l = record l { writers = l.writers - 1 }

module _ (debug : Bool) where
  -- `read` or `write`: the first poll of the future makes its `Acquire`, and polls it.
  unfoldable pub start : ℕ → Kind → ℕ → RwLock → Option (Outcome (RwLock × Bool × List ℕ))
  unfolding acquire poll
  start i k cx l =
      let (s, a) = acquire i (permits_of k) l.sem in
      and_then (poll debug (λ _ t. t) (rounds s) [] a cx s) (λ (t, a', p, woken).
        polled i (record l { sem = t; pending = i ∷ l.pending; kind = update l.kind i k }) p woken)

  -- Another poll of a future that is pending
  unfoldable pub resume : ℕ → ℕ → RwLock → Option (Outcome (RwLock × Bool × List ℕ))
  unfolding poll
  resume i cx l =
      and_then (poll debug (λ _ t. t) (rounds l.sem) [] (future i (l.kind i)) cx l.sem)
        (λ (t, a', p, woken). polled i (record l { sem = t }) p woken)

  -- The drop of a future that is pending
  unfoldable pub drop_future : ℕ → RwLock → Option (Outcome (RwLock × List ℕ))
  unfolding drop_acquire
  drop_future i l =
      and_then (drop_acquire debug (λ _ t. t) (rounds l.sem) (future i (l.kind i)) l.sem)
        (λ (t, woken). some (returned (record l { sem = t; pending = remove i l.pending }, woken)))

  -- The drop of a guard drops its permit.
  unfoldable pub drop_guard : Kind → RwLock → Option (Outcome (RwLock × List ℕ))
  unfolding add_permits
  drop_guard k l =
      and_then (add_permits debug (λ _ t. t) (rounds l.sem) (permits_of k) l.sem)
        (λ (t, woken). some (returned (released k (record l { sem = t }), woken)))

-- The result of an attempt. `unreachable!` panics.
abbrev pub tried : Kind → RwLock → Result (Unit {0}) TryAcquireError → Outcome (RwLock × Bool)
tried k l (Result.ok u) = returned (granted k l, true)
tried k l (Result.err TryAcquireError.insufficient_permits) = returned (l, false)
tried k l (Result.err TryAcquireError.closed) = panicked

-- `try_read` and `try_write`
unfoldable pub try_lock : Kind → RwLock → Outcome (RwLock × Bool)
unfolding try_acquire
try_lock k l =
    tried k (record l { sem = (try_acquire [] (permits_of k) l.sem).0 })
      (try_acquire [] (permits_of k) l.sem).1

-- How many guards of a kind there are
abbrev pub guards : Kind → RwLock → ℕ
guards Kind.read l = l.readers
guards Kind.write l = l.writers

-- What is done to a lock: a guard is dropped once, and a future is not polled after its end or its
-- drop, when its number is free.
pub data Step (debug : Bool) (l l' : RwLock) : Type 0 where
  begin :
      (i : ℕ) (k : Kind) (cx : ℕ) (got : Bool) (woken : List ℕ)
      → NotIn i l.pending
      → start debug i k cx l ≡ some (returned (l', got, woken))
      → Step debug l l'
  again :
      (i cx : ℕ) (got : Bool) (woken : List ℕ)
      → Within i l.pending
      → resume debug i cx l ≡ some (returned (l', got, woken))
      → Step debug l l'
  cancel :
      (i : ℕ) (woken : List ℕ)
      → Within i l.pending
      → drop_future debug i l ≡ some (returned (l', woken))
      → Step debug l l'
  release :
      (k : Kind) (woken : List ℕ)
      → 0 < guards k l
      → drop_guard debug k l ≡ some (returned (l', woken))
      → Step debug l l'
  attempt : (k : Kind) (got : Bool) → try_lock k l ≡ returned (l', got) → Step debug l l'

pub data Reach (debug : Bool) : RwLock → Type 0 where
  here : {l : RwLock} → new ≡ returned l → Reach debug l
  next : {l l' : RwLock} → Reach debug l → Step debug l l' → Reach debug l'
