-- ===== src/Semaphore/Acquiring.antt =====
-- `try_acquire` and the `Acquire` future on an open semaphore.
use wasm_kernel.Base.{
  NotIn, snoc-Distinct, All, update, ℕ, ◌+◌, ◌-◌, ◌≤◌, ◌<◌, ◌≡◌, ◌≢◌, ◌↔◌, refl, min, Bool, true,
  false, Bool-cases, leb, ltb, ltb→lt, if◌then◌else◌, ◌⊎◌, inl, inr, List, [], ◌∷◌, ◌++◌, arith,
}
use mathlib.Core.Option.{some}
use wasm_kernel.Semaphore.Queue.{Semaphore, closed_permits, max_permits}
use wasm_kernel.Semaphore.Ops.{
  TryAcquireError, Result, Polled, Acquire, try_acquire, take_permits, poll,
}
use wasm_kernel.Semaphore.Fill.{Waits, deficit, deficit-update, Waits-update}
use wasm_kernel.Semaphore.Invariant.{Open, Returns}

-- One of the values that an exchange loop read, the last of which its exchange replaced.
abbrev pub Read : ℕ → List ℕ → ℕ → Type 0
Read r [] last = r ≡ last
Read r (x ∷ reads) last = (r ≡ x) ⊎ Read r reads last

-- `try_acquire` takes the permits exactly if it says so; it says that there are too few only where it
-- read too few, and that the semaphore is closed only where it read that. Else it changes nothing.
pub try_acquire_exact :
    (reads : List ℕ) (n : ℕ) (s : Semaphore)
    → let (t, res) = try_acquire reads n s in
      (res ≡ Result.ok tt
        → (s.permits ≡ t.permits + n) × (t.queue ≡ s.queue) × (s.permits ≢ closed_permits))
      × (res ≢ Result.ok tt → t ≡ s)
      × (res ≡ Result.err TryAcquireError.insufficient_permits
          → (r : ℕ) × (r < n) × Read r reads s.permits)
      × (res ≡ Result.err TryAcquireError.closed → Read closed_permits reads s.permits)
unfolding try_acquire
try_acquire_exact [] n s =
    (ground arith, ground arith, λ h. (s.permits, ground arith, refl), ground arith)
try_acquire_exact (x ∷ reads) n s =
    let ih = try_acquire_exact reads n s in
    (
      ground (arith, ih.0),
      ground (arith, ih.1),
      elim (Bool-cases (ltb x n)) [
        | inl e ↦ λ h. (x, ltb→lt x n e, inl refl)
        | inr e ↦ λ h. let (r, lt, was) = ih.2 (ground arith) in (r, lt, inr was)
      ],
      ground (arith, ih.3),
    )

pub take_permits-open :
    (reads : List ℕ) (needed curr : ℕ)
    → All (λ r. r ≢ closed_permits) reads
    → curr ≤ max_permits
    → take_permits reads needed curr
      ≡ some (if leb needed curr then (curr - needed, needed, 0) else (0, curr, needed - curr))
unfolding take_permits
take_permits-open [] needed curr h b = ground arith
take_permits-open (r ∷ reads) needed curr h b = ground (arith, take_permits-open reads needed curr)

pub deficit-append :
    (remaining : ℕ → ℕ) (queue : List ℕ) (i : ℕ)
    → deficit remaining (queue ++ i ∷ []) ≡ deficit remaining queue + remaining i
unfolding deficit
deficit-append remaining [] i = omega arith
deficit-append remaining (j ∷ queue) i = omega (arith, deficit-append remaining queue i)

Waits-append :
    (remaining : ℕ → ℕ) (queue : List ℕ) (i : ℕ)
    → Waits remaining queue
    → 0 < remaining i
    → Waits remaining (queue ++ i ∷ [])
Waits-append remaining [] i w h = (h, tt)
Waits-append remaining (j ∷ queue) i w h = (w.0, Waits-append remaining queue i w.1 h)

-- What the first poll of a future comes to: `t` is the semaphore after it, `a'` the future.
pub record FirstPoll (s : Semaphore) (a : Acquire) (t : Semaphore) (a' : Acquire) (p : Polled)
    : Type 0 where
  pub kept : Open t
  pub owes :
      t.permits + deficit s.remaining s.queue + a.permits ≡ s.permits + deficit t.remaining t.queue
  pub granted : (p ≡ Polled.acquired) ↔ (a.permits ≤ s.permits)
  pub waiting : (p ≡ Polled.pending) ↔ (s.permits < a.permits)
  pub queued : (a'.queued ≡ true) ↔ (p ≡ Polled.pending)
  pub last : p ≡ Polled.pending → t.queue ≡ s.queue ++ a.waiter ∷ []
  pub passed : p ≡ Polled.acquired → t.queue ≡ s.queue
  pub short : p ≡ Polled.pending → t.remaining a.waiter + s.permits ≡ a.permits
  pub others : (j : ℕ) → j ≢ a.waiter → t.remaining j ≡ s.remaining j

-- The first poll of a future on an open semaphore, its waiter not queued and in need of all that
-- it asks for, returns in both builds: it grants the permits exactly if there are enough, and else
-- queues the waiter behind all others with the permits that there were. The balance falls by what
-- was asked for either way, and the semaphore stays open. `reads` are other values that the
-- exchange loop read, none of them that of a closed semaphore.
pub poll_first :
    (debug : Bool) (fuel : ℕ) (reads : List ℕ) (a : Acquire) (cx : ℕ) (s : Semaphore)
    → Open s
    → All (λ r. r ≢ closed_permits) reads
    → a.queued ≡ false
    → s.remaining a.waiter ≡ a.permits
    → NotIn a.waiter s.queue
    → Returns (poll debug (λ _ t. t) fuel reads a cx s) (λ (t, a', p, woken). FirstPoll s a t a' p)
unfolding poll
poll_first debug fuel reads a cx s o r q e n =
    let m = a.permits - min a.permits s.permits in
    let remaining = update s.remaining a.waiter m in
    ground (
      arith,
      take_permits-open reads a.permits s.permits r o.bounded,
      deficit-append remaining s.queue a.waiter,
      deficit-update a.waiter m s.remaining s.queue n,
      Waits-update a.waiter m s.remaining s.queue n o.waits,
      Waits-append remaining s.queue a.waiter,
      snoc-Distinct s.queue a.waiter o.distinct n,
    )
