-- ===== src/Mutex/Exclusion.antt =====
-- There is one guard of a mutex at most, and the right to it is never lost.
use mathlib.Core.Path.{subst}
use mathlib.Core.Option.{Option}
use wasm_kernel.Base.{
  Yields-returned, ℕ, ◌+◌, ◌-◌, ◌<◌, ◌≤◌, ◌≡◌, ◌≢◌, ◌⊎◌, refl, sym, ap, ◌∙◌, inl, inr, Bool, true,
  [], returned, Yields, Yields-imp, Yields->>=, arith,
}
use wasm_kernel.WaitQueue.Queue.{State, Wakeup, WaitState, WaitQueue, same_state}
use wasm_kernel.WaitQueue.Ops.{wake, release, poll_wait, poll_at, set_status, Polled}
use wasm_kernel.WaitQueue.Inv.{Inv, unwoken}
use wasm_kernel.WaitQueue.Keeping.{wake-Inv, release-Inv}
use wasm_kernel.Mutex.Lock.{
  Mutex, new, guarded, try_lock, lock, poll_lock, unlock, drop_lock, Step, make, poll, attempt,
  drop_guard, drop_future, Reach, here, next,
}
use wasm_kernel.Mutex.Polling.{Polls, consumed, notified, enqueued, still, Result}
use wasm_kernel.Mutex.Token.{Token, stored, held, passed, Placed}
use wasm_kernel.Mutex.Given.{make-Tokens}
use wasm_kernel.Mutex.Kept.{drop_lock-Tokens}
use wasm_kernel.Mutex.Locking.{
  MutexInv, polled_lem, poll_lock-Tokens, unlock-Tokens, try_lock-Tokens,
}

Step-Tokens : (debug : Bool) (m m' : Mutex) → Step debug m m' → MutexInv m → MutexInv m'
unfolding lock
Step-Tokens debug m m' (make i e f) v = subst MutexInv (sym f) (make-Tokens m.wait m.guards v i e)
Step-Tokens debug m m' (poll i cx got n e) v =
    Yields-returned (λ out. MutexInv out.0) (poll_lock debug i cx m)
      (poll_lock-Tokens debug i cx m v n) e
Step-Tokens debug m m' (attempt got e) v =
    (Yields-returned (λ out. MutexInv out.0 × (out.1 ≡ same_state m.wait.word.state State.woken))
      (try_lock m) (try_lock-Tokens m m.wait.word.state refl v) e).0
Step-Tokens debug m m' (drop_guard w h e) v =
    Yields-returned (λ out. MutexInv out.0) (unlock debug m) (unlock-Tokens debug m v h) e
Step-Tokens debug m m' (drop_future i w e) v =
    Yields-returned (λ out. MutexInv out.0) (drop_lock debug i m) (drop_lock-Tokens debug i m v) e

new-Tokens : MutexInv new
new-Tokens = record {
  order = record {
    agrees = refl;
    distinct = tt;
    queued = tt;
    unqueued = λ i n e. cc;
    fresh = λ i e. refl;
  };
  open_word = λ e. cc;
  counted = λ i e. refl;
  token = stored;
  placed = (refl, refl);
  only = λ i e. cc;
}

pub Reach-Tokens : (debug : Bool) (m : Mutex) → Reach debug m → MutexInv m
Reach-Tokens debug m here = new-Tokens
Reach-Tokens debug m (next r s) = Step-Tokens debug _ m s (Reach-Tokens debug _ r)

-- A future whose next poll gives a guard.
abbrev pub Served : Bool → Mutex → ℕ → Type 0
Served debug m i =
    (m.wait.status i ≡ WaitState.waiting)
    × ((cx : Option ℕ) → Yields (poll_lock debug i cx m) (λ out. out.1 ≡ true))

served :
    (debug : Bool) (i : ℕ) (m : Mutex)
    → MutexInv m
    → m.wait.status i ≡ WaitState.waiting
    → m.wait.wakeup i ≡ Wakeup.one
    → (cx : Option ℕ) → Yields (poll_lock debug i cx m) (λ out. out.1 ≡ true)
unfolding poll_lock
served debug i m v s e cx =
    Yields->>= (λ out. Result i m.wait out × Inv out.0) (λ out. out.1 ≡ true)
      (poll_wait debug (λ t. t) [] i cx m.wait) (λ (q, r). guarded m.guards q r)
      (polled_lem debug i cx m v (λ f. cc)) (λ (q, r) (p, o). gives q r p)
  where
    gives :
        (q : WaitQueue) (r : Polled)
        → Polls i m.wait q r
        → Yields (guarded m.guards q r) (λ out. out.1 ≡ true)
    gives q r (consumed a b c) = refl
    gives q r (notified a b c) = refl
    gives q r (enqueued a b c) = cc
    gives q r (still a b c) = let k = ap unwoken e in cc

at_most_one :
    (t : Token) (s : State) (status : ℕ → WaitState) (wakeup : ℕ → Wakeup) (guards : ℕ)
    → Placed t s status wakeup guards
    → guards ≤ 1
at_most_one stored s status wakeup guards p = omega (arith, p.1)
at_most_one held s status wakeup guards p = omega (arith, p.1)
at_most_one (passed i) s status wakeup guards p = omega (arith, p.1)

available :
    (debug : Bool) (m : Mutex) (t : Token)
    → MutexInv m
    → Placed t m.wait.word.state m.wait.status m.wait.wakeup m.guards
    → m.guards ≡ 0
    → Yields (try_lock m) (λ out. out.1 ≡ true) ⊎ ((i : ℕ) × Served debug m i)
available debug m stored v (e, g) z = inl (
    Yields-imp (λ out. MutexInv out.0 × (out.1 ≡ same_state m.wait.word.state State.woken))
      (λ out. out.1 ≡ true) (try_lock m) (λ out (a, b). b ∙ rw e refl)
      (try_lock-Tokens m m.wait.word.state refl v))
available debug m held v (e, g) z = absurd (omega (arith, g))
available debug m (passed i) v (n, g, a, b) z = inr (i, (a, served debug i m v a b))

none_left :
    (debug : Bool) (m : Mutex)
    → MutexInv m
    → 0 < m.guards
    → m.guards ≤ 1
    → Yields (unlock debug m) (λ out. out.0.guards ≡ 0)
unfolding unlock
none_left debug m v h b =
    Yields->>= (λ out. Inv out.0) (λ out. out.0.guards ≡ 0) (wake debug [] (λ t. t) m.wait)
      (λ (q, w). returned (record { wait = q; guards = m.guards - 1 }, w))
      (wake-Inv debug m.wait m.wait.word.state refl v.order) (λ (q, w) n. omega (arith, h, b))

same_guards :
    (debug : Bool) (i : ℕ) (m : Mutex)
    → MutexInv m
    → Yields (drop_lock debug i m) (λ out. out.0.guards ≡ m.guards)
unfolding drop_lock
same_guards debug i m v =
    Yields->>= (λ out. Inv (set_status i WaitState.woken out.0)) (λ out. out.0.guards ≡ m.guards)
      (release debug i m.wait)
      (λ (q, w). returned (record m { wait = set_status i WaitState.woken q }, w))
      (release-Inv debug i m.wait v.order) (λ (q, w) n. refl)

-- Mutual exclusion, with no lost lock, in either build: in every state that operations on a new
-- mutex reach, one after another, there is one guard at most, and a poll gives no second one. If
-- there is none, `try_lock` gets one, or the next poll of some future does, which waits; and the drop
-- of a guard leaves none. Neither polls, drops of guards and futures, nor `try_lock` panic. (A
-- future is not polled again once it is woken and polled, or dropped.)
pub one_guard :
    (debug : Bool) (m : Mutex)
    → Reach debug m
    → (m.guards ≤ 1)
      × (m.guards ≡ 0 → Yields (try_lock m) (λ out. out.1 ≡ true) ⊎ ((i : ℕ) × Served debug m i))
      × Yields (try_lock m) (λ out. out.0.guards ≤ 1)
      × ((i : ℕ) (cx : Option ℕ)
          → m.wait.status i ≢ WaitState.woken
          → Yields (poll_lock debug i cx m) (λ out. out.0.guards ≤ 1))
      × (0 < m.guards → Yields (unlock debug m) (λ out. out.0.guards ≡ 0))
      × ((i : ℕ) → Yields (drop_lock debug i m) (λ out. out.0.guards ≡ m.guards))
one_guard debug m r =
    let v = Reach-Tokens debug m r in
    (
      bound m v,
      available debug m v.token v v.placed,
      Yields-imp (λ out. MutexInv out.0 × (out.1 ≡ same_state m.wait.word.state State.woken))
          (λ out. out.0.guards ≤ 1) (try_lock m) (λ out (a, b). bound out.0 a)
          (try_lock-Tokens m m.wait.word.state refl v),
      λ i cx n.
          Yields-imp (λ out. MutexInv out.0) (λ out. out.0.guards ≤ 1) (poll_lock debug i cx m)
            (λ out a. bound out.0 a) (poll_lock-Tokens debug i cx m v n),
      λ h. none_left debug m v h (bound m v),
      λ i. same_guards debug i m v,
    )
  where
    bound : (m : Mutex) → MutexInv m → m.guards ≤ 1
    bound m v = at_most_one v.token m.wait.word.state m.wait.status m.wait.wakeup m.guards v.placed

-- A poll that gives a guard leaves the future at its end, where a poll gives another one.
gives_again :
    (debug : Bool) (i : ℕ) (cx' : Option ℕ) (guards : ℕ) (q q' : WaitQueue) (r : Polled)
    → Polls i q q' r
    → Yields (guarded guards q' r) (λ (m', got).
      got ≡ true
      → (poll_lock debug i cx' m' ≡ returned (record m' { guards = m'.guards + 1 }, true))
        × (m'.guards + 1 ≡ guards + 2))
unfolding poll_lock poll_wait poll_at
gives_again debug i cx' guards q q' r (consumed a b c) =
    λ e. let f : q'.status i ≡ WaitState.woken = rw c (ground arith) in (rw f refl, omega arith)
gives_again debug i cx' guards q q' r (notified a b c) =
    λ e. let f : q'.status i ≡ WaitState.woken = rw c (ground arith) in (rw f refl, omega arith)
gives_again debug i cx' guards q q' r (enqueued a b c) = λ e. cc
gives_again debug i cx' guards q q' r (still a b c) = λ e. cc

-- A future that is polled again after it has given its guard gives another one.
pub polled_again :
    (debug : Bool) (i : ℕ) (cx cx' : Option ℕ) (m : Mutex)
    → Reach debug m
    → m.wait.status i ≢ WaitState.woken
    → Yields (poll_lock debug i cx m) (λ (m', got).
      got ≡ true
      → (poll_lock debug i cx' m' ≡ returned (record m' { guards = m'.guards + 1 }, true))
        × (m'.guards + 1 ≡ m.guards + 2))
unfolding poll_lock
polled_again debug i cx cx' m r n =
    Yields->>= (λ out. Result i m.wait out × Inv out.0)
      (λ (m', got).
        got ≡ true
        → (poll_lock debug i cx' m' ≡ returned (record m' { guards = m'.guards + 1 }, true))
          × (m'.guards + 1 ≡ m.guards + 2))
      (poll_wait debug (λ t. t) [] i cx m.wait) (λ (q, r). guarded m.guards q r)
      (polled_lem debug i cx m (Reach-Tokens debug m r) n)
      (λ (q, r) (p, o). gives_again debug i cx' m.guards m.wait q r p)
