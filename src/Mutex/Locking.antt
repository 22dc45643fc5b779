-- ===== src/Mutex/Locking.antt =====
-- Polling, trying and unlocking keep the token.
use mathlib.Core.Option.{Option}
use wasm_kernel.Base.{
  ℕ, ◌-◌, ◌<◌, ltb, ◌≡◌, ◌≢◌, ◌⊎◌, refl, ap, ◌∙◌, inl, inr, Bool, true, false, [], Outcome,
  returned, panicked, Yields, Yields->>=, arith,
}
use wasm_kernel.WaitQueue.Queue.{State, Wakeup, WaitState, WaitQueue, with_state, same_state}
use wasm_kernel.WaitQueue.Ops.{wake, poll_wait, Polled, pending, ready, ready_closed}
use wasm_kernel.WaitQueue.Trying.{try_wait, try_wait_loop, settled_at}
use wasm_kernel.WaitQueue.Inv.{Inv, unwoken}
use wasm_kernel.WaitQueue.Waking.{wake-Notifies}
use wasm_kernel.WaitQueue.Notified.{Notifies}
use wasm_kernel.WaitQueue.Polls.{poll_wait-Inv}
use wasm_kernel.WaitQueue.Enqueued.{word-Inv}
use wasm_kernel.Mutex.Lock.{Mutex, guarded, try_lock, poll_lock, unlock}
use wasm_kernel.Mutex.Polling.{Polls, poll_wait-Polls, Result}
use wasm_kernel.Mutex.Token.{Tokens}
use wasm_kernel.Mutex.Passing.{poll-Tokens}
use wasm_kernel.Mutex.Given.{taken-Tokens, nobody_has, wake-Tokens}

abbrev pub MutexInv : Mutex → Type 0
MutexInv m = Tokens m.wait m.guards

-- The kinds of waiters, without who has the token.
pub kinds :
    (q : WaitQueue) (guards : ℕ)
    → Tokens q guards
    → (i : ℕ) → q.status i ≡ WaitState.waiting
    → (unwoken (q.wakeup i) ≡ true) ⊎ (q.wakeup i ≡ Wakeup.one)
kinds q guards v i s = elim (v.only i s) [ inl a ↦ inl a | inr (a, b) ↦ inr a ]

pub Yields-both :
    {A : Type 0} (P Q : A → Type 0) (m : Outcome A)
    → Yields m P
    → Yields m Q
    → Yields m (λ a. P a × Q a)
Yields-both P Q (returned a) p q = (p, q)
Yields-both P Q panicked p q = p

pub polled_lem :
    (debug : Bool) (i : ℕ) (cx : Option ℕ) (m : Mutex)
    → MutexInv m
    → m.wait.status i ≢ WaitState.woken
    → Yields (poll_wait debug (λ t. t) [] i cx m.wait) (λ out. Result i m.wait out × Inv out.0)
polled_lem debug i cx m v n =
    Yields-both (Result i m.wait) (λ out. Inv out.0) (poll_wait debug (λ t. t) [] i cx m.wait)
      (poll_wait-Polls debug i cx m.wait v.order v.open_word n (v.counted i)
        (kinds m.wait m.guards v i))
      (poll_wait-Inv debug i cx m.wait v.order)

guarded-Tokens :
    (m : Mutex) (v : MutexInv m) (i : ℕ) (q : WaitQueue) (r : Polled)
    → Polls i m.wait q r
    → Inv q
    → Yields (guarded m.guards q r) (λ out. MutexInv out.0)
guarded-Tokens m v i q ready p o = poll-Tokens m.wait m.guards v i q ready p o
guarded-Tokens m v i q pending p o = poll-Tokens m.wait m.guards v i q pending p o
guarded-Tokens m v i q ready_closed p o = elim p [ ]

pub poll_lock-Tokens :
    (debug : Bool) (i : ℕ) (cx : Option ℕ) (m : Mutex)
    → MutexInv m
    → m.wait.status i ≢ WaitState.woken
    → Yields (poll_lock debug i cx m) (λ out. MutexInv out.0)
unfolding poll_lock
poll_lock-Tokens debug i cx m v n =
    Yields->>= (λ out. Result i m.wait out × Inv out.0) (λ out. MutexInv out.0)
      (poll_wait debug (λ t. t) [] i cx m.wait) (λ (q, r). guarded m.guards q r)
      (polled_lem debug i cx m v n) (λ (q, r) (p, o). guarded-Tokens m v i q r p o)

-- `try_wait` with nothing in between.
try_wait-woken :
    (q : WaitQueue)
    → q.word.state ≡ State.woken
    → try_wait [] q ≡ (record q { word = with_state q.word State.empty }, ready)
unfolding try_wait try_wait_loop
try_wait-woken q e = let f : same_state q.word.state State.woken ≡ true = rw e refl in rw f refl

try_wait_other :
    (q : WaitQueue) (s : State)
    → q.word.state ≡ s
    → s ≢ State.woken
    → s ≢ State.closed
    → try_wait [] q ≡ (q, pending)
unfolding try_wait try_wait_loop
try_wait_other q State.empty e n c =
    let f : same_state q.word.state State.woken ≡ false = rw e refl in
    let g : ltb q.word.wake_alls q.word.wake_alls ≡ false = ground arith in
    rw f (ap (λ (z : State). (q, settled_at z q.word.wake_alls q.word)) e ∙ rw g refl)
try_wait_other q State.waiting e n c =
    let f : same_state q.word.state State.woken ≡ false = rw e refl in
    let g : ltb q.word.wake_alls q.word.wake_alls ≡ false = ground arith in
    rw f (ap (λ (z : State). (q, settled_at z q.word.wake_alls q.word)) e ∙ rw g refl)
try_wait_other q State.woken e n c = absurd (n refl)
try_wait_other q State.closed e n c = absurd (c refl)

pub unlock-Tokens :
    (debug : Bool) (m : Mutex)
    → MutexInv m
    → 0 < m.guards
    → Yields (unlock debug m) (λ out. MutexInv out.0)
unfolding unlock
unlock-Tokens debug m v h =
    Yields->>= (λ out. Notifies m.wait.queue m.wait out × Inv out.0) (λ out. MutexInv out.0)
      (wake debug [] (λ t. t) m.wait)
      (λ (q, w). returned (record { wait = q; guards = m.guards - 1 }, w))
      (wake-Notifies debug [] m.wait tt v.open_word v.order)
      (λ (q, w) (n, o). wake-Tokens m.wait m.guards v q w h n o)

-- It is taken exactly where the token is stored.
pub try_lock-Tokens :
    (m : Mutex) (s : State)
    → m.wait.word.state ≡ s
    → MutexInv m
    → Yields (try_lock m) (λ out. MutexInv out.0 × (out.1 ≡ same_state s State.woken))
unfolding try_lock
try_lock-Tokens m State.empty e v =
    rw (try_wait_other m.wait State.empty e (λ f. cc) (λ f. cc)) (v, refl)
try_lock-Tokens m State.waiting e v =
    rw (try_wait_other m.wait State.waiting e (λ f. cc) (λ f. cc)) (v, refl)
try_lock-Tokens m State.woken e v = rw (try_wait-woken m.wait e) (
  taken-Tokens m.wait m.guards v m.wait.status e (λ i f. f) (nobody_has m.wait m.guards v e)
      (word-Inv m.wait (with_state m.wait.word State.empty) v.order (v.order.agrees ∙ rw e refl)),
  refl,
)
try_lock-Tokens m State.closed e v = absurd (v.open_word e)
