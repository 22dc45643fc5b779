-- ===== src/Semaphore/Ops.antt =====
-- The other operations of maitake-sync/src/semaphore.rs: `try_acquire`, the `Acquire` future's poll
-- and drop, and `close`. The operations run one at a time; `reads` are the values of `permits` that
-- an exchange loop read before the one that its exchange replaced, which is the semaphore's own.
use wasm_kernel.Base.{
  update, ℕ, ◌-◌, Bool, true, false, not, ◌&&◌, ◌==◌, ltb, leb, if◌then◌else◌, List, [], ◌∷◌, ◌++◌,
  Outcome, returned, panicked, ◌>>◌, assert, debug_assert,
}
use mathlib.Core.Option.{Option, none, some}
use wasm_kernel.Semaphore.Queue.{
  Semaphore, closed_permits, max_permits, add_remaining, add_waker, add_permits_locked,
}

pub data TryAcquireError : Type 0 where
  closed : TryAcquireError
  insufficient_permits : TryAcquireError

-- `Result` with an error type `E`
pub data Result (A E : Type 0) : Type 0 where
  ok : A → Result A E
  err : E → Result A E

-- `Poll<WaitResult<()>>`: ready with permits, ready with `Closed`, or pending
pub data Polled : Type 0 where
  acquired : Polled
  closed : Polled
  pending : Polled

abbrev pub is_pending : Polled → Bool
is_pending Polled.pending = true
is_pending _ = false

unfoldable pub new : ℕ → Outcome Semaphore
new permits =
    assert (leb permits max_permits)
    >> returned (record {
      permits = permits;
      queue = [];
      closed = false;
      remaining = λ _. 0;
      waker = λ _. none;
    })

unfoldable pub available_permits : Semaphore → ℕ
available_permits s = if s.permits == closed_permits then 0 else s.permits

-- `try_acquire_inner`
unfoldable pub try_acquire : List ℕ → ℕ → Semaphore → Semaphore × Result (Unit {0}) TryAcquireError
try_acquire [] permits s =
    if s.permits == closed_permits
    then (s, Result.err TryAcquireError.closed)
    else if ltb s.permits permits
    then (s, Result.err TryAcquireError.insufficient_permits)
    else (record s { permits = s.permits - permits }, Result.ok tt)
try_acquire (available ∷ reads) permits s =
    let again = try_acquire reads permits s in
    if available == closed_permits
    then (s, Result.err TryAcquireError.closed)
    else if ltb available permits
    then (s, Result.err TryAcquireError.insufficient_permits)
    else again

-- The exchange loop of `poll_acquire`. `none` is the return on a closed semaphore; else what is left
-- in the semaphore, what was taken, and what the waiter still needs.
unfoldable pub take_permits : List ℕ → ℕ → ℕ → Option (ℕ × ℕ × ℕ)
take_permits [] needed curr =
    if curr == closed_permits
    then none
    else if leb needed curr
    then some (curr - needed, needed, 0)
    else some (0, curr, needed - curr)
take_permits (sem_curr ∷ reads) needed curr =
    let again = take_permits reads needed curr in if sem_curr == closed_permits then none else again

-- An `Acquire` future: its waiter's number, whether it is queued, and the permits it asks for.
pub record Acquire : Type 0 where
  pub waiter : ℕ
  pub queued : Bool
  pub permits : ℕ

-- `Semaphore::acquire`: the new node needs all of the permits.
unfoldable pub acquire : ℕ → ℕ → Semaphore → Semaphore × Acquire
acquire i permits s = (
  record s { remaining = update s.remaining i permits; waker = update s.waker i none },
  record { waiter = i; queued = false; permits = permits },
)

-- Registering the polling task's waker: it is kept where it would wake the same task.
abbrev pub register : Option ℕ → ℕ → Option ℕ
register none cx = some cx
register (some w) cx = if w == cx then some w else some cx

module _ (debug : Bool) (relock : ℕ → Semaphore → Semaphore) (fuel : ℕ) where
  -- `poll_acquire` from where it holds the lock, `taken` permits in hand.
  unfoldable pub poll_locked :
      Acquire → ℕ → ℕ → Semaphore → Option (Outcome (Semaphore × Polled × List ℕ))
  poll_locked a cx taken s =
      let i = a.waiter in
      let (left, rest) = add_remaining (s.remaining i) taken in
      let s' = record s { remaining = update s.remaining i left } in
      if s.closed
      then some (returned (s, Polled.closed, []))
      else if left == 0
      then (elim (add_permits_locked debug relock fuel rest s') [
        | none ↦ none
        | some panicked ↦ some panicked
        | some (returned (t, woken)) ↦ some (returned (t, Polled.acquired, woken))
      ])
      else some (
          debug_assert debug (rest == 0)
          >> returned (
            record s' {
              waker = update s.waker i (register (s.waker i) cx);
              queue = if a.queued then s.queue else s.queue ++ i ∷ [];
            },
            Polled.pending,
            [],
          ))

  unfoldable pub poll_acquire :
      List ℕ → Acquire → ℕ → Semaphore → Option (Outcome (Semaphore × Polled × List ℕ))
  unfolding poll_locked
  poll_acquire reads a cx s =
      let needed = if a.queued then s.remaining a.waiter else a.permits in
      elim (take_permits reads needed s.permits) [
        | none ↦ some (returned (s, Polled.closed, []))
        | some (next, taken, remaining) ↦
            if remaining == 0 && not a.queued
            then some (returned (record s { permits = next }, Polled.acquired, []))
            else poll_locked a cx taken (record s { permits = next })
      ]

  -- `Acquire`'s `poll`: the future is queued exactly while it is pending.
  unfoldable pub poll :
      List ℕ → Acquire → ℕ → Semaphore → Option (Outcome (Semaphore × Acquire × Polled × List ℕ))
  unfolding poll_acquire
  poll reads a cx s = elim (poll_acquire reads a cx s) [
    | none ↦ none
    | some panicked ↦ some panicked
    | some (returned (t, p, woken)) ↦
        some (returned (t, record a { queued = is_pending p }, p, woken))
  ]

-- `List::remove` of a node that may be linked
unfoldable pub remove : ℕ → List ℕ → List ℕ
remove i [] = []
remove i (j ∷ queue) = if i == j then queue else j ∷ remove i queue

module _ (debug : Bool) (relock : ℕ → Semaphore → Semaphore) (fuel : ℕ) where
  -- `drop_acquire`, the `drop` of an `Acquire` future: it gives back what its waiter was assigned.
  unfoldable pub drop_acquire : Acquire → Semaphore → Option (Outcome (Semaphore × List ℕ))
  unfolding remove
  drop_acquire a s =
      let acquired = a.permits - s.remaining a.waiter in
      let s' = record s { queue = remove a.waiter s.queue } in
      if not a.queued
      then some (returned (s, []))
      else if ltb 0 acquired
      then add_permits_locked debug relock fuel acquired s'
      else some (returned (s', []))

-- The wakers of the waiters, in the order of the queue.
unfoldable pub wakers : List ℕ → (ℕ → Option ℕ) → List ℕ
wakers [] waker = []
wakers (i ∷ queue) waker = add_waker (waker i) (wakers queue (update waker i none))

unfoldable pub clear : List ℕ → (ℕ → Option ℕ) → ℕ → Option ℕ
clear [] waker = waker
clear (i ∷ queue) waker = clear queue (update waker i none)

unfoldable pub close : Semaphore → Semaphore × List ℕ
unfolding wakers clear
close s = (
  record s { permits = closed_permits; closed = true; queue = []; waker = clear s.queue s.waker },
  wakers s.queue s.waker,
)
