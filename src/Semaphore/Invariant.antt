-- ===== src/Semaphore/Invariant.antt =====
-- The semaphore's invariant, and its operations as changes of one number: the permits that are
-- there, less those that the waiters still need.
use wasm_kernel.Base.{
  Distinct, ℕ, ◌+◌, ◌≤◌, ◌<◌, ◌≡◌, Bool, false, Bool-cases, ==_iff, ◌==◌, inl, inr, [], length,
  arith, Outcome, returned,
}
use mathlib.Core.Option.{Option, some}
use wasm_kernel.Semaphore.Queue.{Semaphore, max_permits, add_rest, add_permits_locked, add_permits}
use wasm_kernel.Semaphore.Fill.{Waits, deficit}
use wasm_kernel.Semaphore.Batches.{settle, Enough, add_loop-serve}
use wasm_kernel.Semaphore.Pass.{serve}
use wasm_kernel.Semaphore.Serve.{serve-balance, serve-Waits, serve_end, InOrder, serve-InOrder}

-- An open semaphore: waiters are queued once, each still needs permits, and there are none for
-- them to take.
pub record Open (s : Semaphore) : Type 0 where
  pub opened : s.closed ≡ false
  pub bounded : s.permits ≤ max_permits
  pub distinct : Distinct s.queue
  pub waits : Waits s.remaining s.queue
  pub idle : 0 < s.permits → s.queue ≡ []

-- The result of a call, where it returns in time and without a panic.
abbrev pub Returns : {A : Type 0} → Option (Outcome A) → (A → Type 0) → Type 0
Returns (some (returned a)) P = P a
Returns _ P = ⊥

-- `t` has `n` permits more than `s`, counting those that waiters need as owed.
abbrev pub Adds : ℕ → Semaphore → Semaphore → Type 0
Adds n s t = t.permits + deficit s.remaining s.queue ≡ s.permits + n + deficit t.remaining t.queue

pub settle-Open :
    (debug : Bool) (s : Semaphore) (permits : ℕ)
    → Open s
    → s.permits + permits ≤ max_permits
    → Returns
        (some (settle debug s (serve s.queue s.remaining s.waker permits)))
        (λ (t, woken). Open t × Adds permits s t)
unfolding settle add_rest
settle-Open debug s permits o fits =
    let kept = serve-Waits s.queue s.remaining s.waker permits o.distinct o.waits in
    let balance = serve-balance s.queue s.remaining s.waker permits o.distinct in
    let ended = serve_end s.queue s.remaining s.waker permits in
    ground (arith, kept, balance, ended)

pub add_permits_locked-serve :
    (debug : Bool) (fuel permits : ℕ) (s : Semaphore)
    → Open s
    → Enough fuel permits s
    → add_permits_locked debug (λ _ t. t) fuel permits s
      ≡ some (settle debug s (serve s.queue s.remaining s.waker permits))
unfolding add_permits_locked
add_permits_locked-serve debug fuel permits s o enough =
    ground (arith, add_loop-serve debug fuel permits s o.distinct o.waits enough)

pub add_permits_locked-Open :
    (debug : Bool) (fuel permits : ℕ) (s : Semaphore)
    → Open s
    → s.permits + permits ≤ max_permits
    → Enough fuel permits s
    → Returns
        (add_permits_locked debug (λ _ t. t) fuel permits s)
        (λ (t, woken). Open t × Adds permits s t)
add_permits_locked-Open debug fuel permits s o fits enough =
    rw (add_permits_locked-serve debug fuel permits s o enough) (settle-Open debug s permits o fits)

-- On an open semaphore with room for them, `add_permits` returns, and adds just these permits to the
-- balance of what is there and what is owed to waiters; the semaphore stays open, and again either no
-- waiter is left or no permit is. (One round more than there are waiters is enough, where no other
-- thread takes the lock between the batches.)
pub add_permits-Open :
    (debug : Bool) (fuel permits : ℕ) (s : Semaphore)
    → Open s
    → s.permits + permits ≤ max_permits
    → length s.queue < fuel
    → Returns
        (add_permits debug (λ _ t. t) fuel permits s)
        (λ (t, woken). Open t × Adds permits s t)
unfolding add_permits
add_permits-Open debug fuel permits s o fits enough = elim (Bool-cases (permits == 0)) [
  | inl e ↦ rw e (o, omega (arith, (==_iff _ _).0 e))
  | inr e ↦ rw e (add_permits_locked-Open debug fuel permits s o fits (omega arith, λ _. enough))
]

settle-InOrder :
    (debug : Bool) (s : Semaphore) (permits : ℕ)
    → Open s
    → s.permits + permits ≤ max_permits
    → Returns
        (some (settle debug s (serve s.queue s.remaining s.waker permits)))
        (λ (t, woken). InOrder s.queue s.remaining t.queue t.remaining)
unfolding settle add_rest
settle-InOrder debug s permits o fits =
    let order = serve-InOrder s.queue s.remaining s.waker permits o.distinct in
    let ended = serve_end s.queue s.remaining s.waker permits in ground (arith, order, ended)

-- Permits that are added to an open semaphore are handed out first in, first out: the waiters that
-- leave the queue stood before all that stay, each has all it needed, and of those that stay only the
-- first has got anything. (With room for the permits, and one round more than there are waiters.)
pub add_permits-InOrder :
    (debug : Bool) (fuel permits : ℕ) (s : Semaphore)
    → Open s
    → 0 < permits
    → s.permits + permits ≤ max_permits
    → length s.queue < fuel
    → Returns
        (add_permits debug (λ _ t. t) fuel permits s)
        (λ (t, woken). InOrder s.queue s.remaining t.queue t.remaining)
unfolding add_permits
add_permits-InOrder debug fuel permits s o pos fits enough =
    let more : (permits == 0) ≡ false = ground arith in
    rw (more, add_permits_locked-serve debug fuel permits s o (omega arith, λ _. enough))
      (settle-InOrder debug s permits o fits)
