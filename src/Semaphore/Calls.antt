-- ===== src/Semaphore/Calls.antt =====
-- Calls on a semaphore, and what they do after `close` has returned.
use mathlib.Core.Path.{subst}
use mathlib.Core.Option.{none, some}
use wasm_kernel.Base.{
  ℕ, ◌≡◌, Bool, Bool-cases, inl, inr, ◌==◌, ltb, if◌then◌else◌, false, List, [], ◌∷◌, arith,
  returned, refl, sym,
}
use wasm_kernel.Semaphore.Queue
use wasm_kernel.Semaphore.Queue.{Semaphore, closed_permits}
use wasm_kernel.Semaphore.Ops
use wasm_kernel.Semaphore.Ops.{TryAcquireError, Result, Polled, Acquire}
use wasm_kernel.Semaphore.Closing.{Closed, close-Closed}

-- One whole call; `relock` is what others do while it has dropped the lock.
pub data Call (debug : Bool) (s t : Semaphore) : Type 0 where
  acquire : (i permits : ℕ) → t ≡ (Ops.acquire i permits s).0 → Call debug s t
  try_acquire :
      (reads : List ℕ) (permits : ℕ) → t ≡ (Ops.try_acquire reads permits s).0 → Call debug s t
  poll :
      (relock : ℕ → Semaphore → Semaphore) (fuel : ℕ) (reads : List ℕ) (a a' : Acquire) (cx : ℕ)
      (p : Polled) (woken : List ℕ)
      → Ops.poll debug relock fuel reads a cx s ≡ some (returned (t, a', p, woken))
      → Call debug s t
  drop_acquire :
      (relock : ℕ → Semaphore → Semaphore) (fuel : ℕ) (a : Acquire) (woken : List ℕ)
      → Ops.drop_acquire debug relock fuel a s ≡ some (returned (t, woken))
      → Call debug s t
  add_permits :
      (relock : ℕ → Semaphore → Semaphore) (fuel permits : ℕ) (woken : List ℕ)
      → Queue.add_permits debug relock fuel permits s ≡ some (returned (t, woken))
      → Call debug s t
  close : t ≡ (Ops.close s).0 → Call debug s t

pub data Calls (debug : Bool) (s : Semaphore) : Semaphore → Type 0 where
  here : Calls debug s s
  next : {t u : Semaphore} → Calls debug s t → Call debug t u → Calls debug s u

take_permits-Closed :
    (reads : List ℕ) (needed : ℕ) → Ops.take_permits reads needed closed_permits ≡ none
unfolding Ops.take_permits
take_permits-Closed [] needed = refl
take_permits-Closed (r ∷ reads) needed = ground (arith, take_permits-Closed reads needed)

try_acquire-Closed :
    (reads : List ℕ) (n : ℕ) (s : Semaphore)
    → Closed s
    → (e : TryAcquireError) × (Ops.try_acquire reads n s ≡ (s, Result.err e))
unfolding Ops.try_acquire
try_acquire-Closed [] n s c = (TryAcquireError.closed, ground arith)
try_acquire-Closed (r ∷ reads) n s c =
    let (e, again) = try_acquire-Closed reads n s c in
    elim (Bool-cases (r == closed_permits)) [
      | inl f ↦ (TryAcquireError.closed, rw f refl)
      | inr f ↦ elim (Bool-cases (ltb r n)) [
        | inl g ↦ (TryAcquireError.insufficient_permits, rw (f, g) refl)
        | inr g ↦ (e, rw (f, g) again)
      ]
    ]

poll-Closed :
    (debug : Bool) (relock : ℕ → Semaphore → Semaphore) (fuel : ℕ) (reads : List ℕ) (a : Acquire)
    (cx : ℕ) (s : Semaphore)
    → Closed s
    → Ops.poll debug relock fuel reads a cx s
      ≡ some (returned (s, record a { queued = false }, Polled.closed, []))
unfolding Ops.poll Ops.poll_acquire
poll-Closed debug relock fuel reads a cx s c =
    let needed = if a.queued then s.remaining a.waiter else a.permits in
    ground (arith, take_permits-Closed reads needed)

add_permits-Closed :
    (debug : Bool) (relock : ℕ → Semaphore → Semaphore) (fuel n : ℕ) (s : Semaphore)
    → Closed s
    → Queue.add_permits debug relock fuel n s ≡ some (returned (s, []))
unfolding Queue.add_permits Queue.add_permits_locked
add_permits-Closed debug relock fuel n s c = ground arith

Call-Closed : {debug : Bool} {s t : Semaphore} → Call debug s t → Closed s → Closed t
unfolding Ops.acquire Ops.drop_acquire Ops.remove Queue.add_permits_locked
Call-Closed (Call.acquire i permits e) c = ground arith
Call-Closed {s = s} (Call.try_acquire reads permits e) c =
    let (_, f) = try_acquire-Closed reads permits s c in ground arith
Call-Closed {debug} {s} (Call.poll relock fuel reads a a' cx p woken e) c =
    let f = poll-Closed debug relock fuel reads a cx s c in ground arith
Call-Closed (Call.drop_acquire relock fuel a woken e) c = ground arith
Call-Closed {debug} {s} (Call.add_permits relock fuel permits woken e) c =
    let f = add_permits-Closed debug relock fuel permits s c in ground arith
Call-Closed {s = s} (Call.close e) c = subst Closed (sym e) (close-Closed s)

Calls-Closed : {debug : Bool} {s t : Semaphore} → Calls debug s t → Closed s → Closed t
Calls-Closed Calls.here c = c
Calls-Closed (Calls.next r m) c = Call-Closed m (Calls-Closed r c)

-- A semaphore that has been closed stays closed: after `close`, and any calls that follow, each one
-- whole after the other, be it `acquire`, `try_acquire`, polls and drops of futures from before or
-- after, `add_permits` or `close` again, in both builds, there are no permits. An attempt to take
-- some fails, whatever older values it read first; a poll of any future is ready with an error and
-- leaves the future unqueued; adding permits returns and wakes nobody. (A call of `add_permits` that
-- is under way while `close` runs is not one of these.)
pub closed_for_good :
    {debug : Bool} (s : Semaphore) {t : Semaphore}
    → Calls debug (Ops.close s).0 t
    → (Ops.available_permits t ≡ 0)
      × ((reads : List ℕ) (n : ℕ)
          → (e : TryAcquireError) × (Ops.try_acquire reads n t ≡ (t, Result.err e)))
      × ((relock : ℕ → Semaphore → Semaphore) (fuel : ℕ) (reads : List ℕ) (a : Acquire) (cx : ℕ)
          → Ops.poll debug relock fuel reads a cx t
            ≡ some (returned (t, record a { queued = false }, Polled.closed, [])))
      × ((relock : ℕ → Semaphore → Semaphore) (fuel n : ℕ)
          → Queue.add_permits debug relock fuel n t ≡ some (returned (t, [])))
unfolding Ops.available_permits
closed_for_good {debug} s {t} r =
    let c = Calls-Closed r (close-Closed s) in
    (
      ground arith,
      (λ reads n. try_acquire-Closed reads n t c),
      (λ relock fuel reads a cx. poll-Closed debug relock fuel reads a cx t c),
      λ relock fuel n. add_permits-Closed debug relock fuel n t c,
    )
