-- ===== src/Mutex/Polling.antt =====
-- What a poll does in a queue that is never closed and whose waiters are woken one by one.
use mathlib.Core.Path.{fun_ext}
use mathlib.Core.Option.{Option, none, some}
use wasm_kernel.Base.{
  ℕ, ◌==◌, ◌≡◌, ◌≢◌, ◌⊎◌, refl, sym, ap, ◌∙◌, inl, inr, Bool, true, false, [], update, Yields,
  arith, Bool-cases, ==_iff, debug_assert-true,
}
use wasm_kernel.WaitQueue.Queue.{State, Word, Wakeup, WaitState, WaitQueue, same_state, with_state}
use wasm_kernel.WaitQueue.Ops.{
  set_status, set_wakeup, registered, enqueue, to_waiting_at, to_waiting, poll_locked, poll_start,
  poll_waiting, poll_at, poll_wait, Polled, pending, ready,
}
use wasm_kernel.WaitQueue.Inv.{Inv, unwoken}
use wasm_kernel.WaitQueue.Polls.{registered-unwoken}

-- The future `i` waits on, in a queue whose state is `s`.
pub record Pends (i : ℕ) (s : State) (q q' : WaitQueue) : Type 0 where
  pub state : q'.word.state ≡ s
  pub count : q'.word.wake_alls ≡ q.word.wake_alls
  pub status : q'.status ≡ update q.status i WaitState.waiting
  pub own : unwoken (q'.wakeup i) ≡ true
  pub others : (j : ℕ) → j ≢ i → q'.wakeup j ≡ q.wakeup j
  pub seen : q'.seen ≡ q.seen

pub data Polls (i : ℕ) (q q' : WaitQueue) : Polled → Type 0 where
  consumed :
      q.status i ≡ WaitState.start
      → q.word.state ≡ State.woken
      → q' ≡ set_status i WaitState.woken (record q { word = with_state q.word State.empty })
      → Polls i q q' ready
  notified :
      q.status i ≡ WaitState.waiting
      → q.wakeup i ≡ Wakeup.one
      → q' ≡ set_status i WaitState.woken q
      → Polls i q q' ready
  enqueued :
      q.status i ≡ WaitState.start
      → q.word.state ≢ State.woken
      → Pends i State.waiting q q'
      → Polls i q q' pending
  still :
      q.status i ≡ WaitState.waiting
      → unwoken (q.wakeup i) ≡ true
      → Pends i q.word.state q q'
      → Polls i q q' pending

abbrev pub Result : ℕ → WaitQueue → WaitQueue × Polled → Type 0
Result i q (q', r) = Polls i q q' r

enqueue_lem :
    (debug : Bool) (i : ℕ) (cx : Option ℕ) (q : WaitQueue) (w : Word)
    → q.status i ≡ WaitState.start
    → q.wakeup i ≡ Wakeup.empty
    → q.word.state ≢ State.woken
    → w.state ≡ State.waiting
    → w.wake_alls ≡ q.word.wake_alls
    → Yields (enqueue debug i cx (record q { word = w })) (Result i q)
unfolding enqueue
enqueue_lem debug i none q w s e n t c = enqueued s n (record {
  state = t;
  count = c;
  status = refl;
  own = ap unwoken e;
  others = λ j f. refl;
  seen = refl;
})
enqueue_lem debug i (some x) q w s e n t c =
    rw (debug_assert-true debug _ (is_fresh (q.wakeup i) e)) (
      enqueued s n (record {
        state = t;
        count = c;
        status = refl;
        own = ground arith;
        others = λ j f. ground arith;
        seen = refl;
      }))
  where
    is_fresh : (x : Wakeup) → x ≡ Wakeup.empty → elim x [ Wakeup.empty ↦ true | _ ↦ false ] ≡ true
    is_fresh x e = rw e

locked_lem :
    (debug : Bool) (i : ℕ) (cx : Option ℕ) (q : WaitQueue) (s : State)
    → q.word.state ≡ s
    → s ≢ State.closed
    → s ≢ State.woken
    → q.status i ≡ WaitState.start
    → q.wakeup i ≡ Wakeup.empty
    → Yields (poll_locked debug i cx q (to_waiting_at s q.word)) (Result i q)
unfolding poll_locked
locked_lem debug i cx q State.empty e o n s f =
    enqueue_lem debug i cx q (with_state q.word State.waiting) s f (λ g. n (sym e ∙ g)) refl refl
locked_lem debug i cx q State.waiting e o n s f =
    enqueue_lem debug i cx q q.word s f (λ g. n (sym e ∙ g)) e refl
locked_lem debug i cx q State.woken e o n s f = absurd (n refl)
locked_lem debug i cx q State.closed e o n s f = absurd (o refl)

woken_eq :
    (s : State)
    → (same_state s State.woken ≡ true → s ≡ State.woken)
      × (s ≡ State.woken → same_state s State.woken ≡ true)
woken_eq State.empty = (λ e. cc, λ e. cc)
woken_eq State.waiting = (λ e. cc, λ e. cc)
woken_eq State.woken = (λ e. refl, λ e. refl)
woken_eq State.closed = (λ e. cc, λ e. cc)

-- A waiter that has not been woken is polled again.
still_waits :
    (i : ℕ) (q : WaitQueue) (u : Wakeup)
    → q.status i ≡ WaitState.waiting
    → unwoken (q.wakeup i) ≡ true
    → unwoken u ≡ true
    → Polls i q (set_wakeup i u q) pending
still_waits i q u s a b = still s a (record {
  state = refl;
  count = refl;
  status = fun_ext λ j. same_status j (Bool-cases (i == j));
  own = ground arith;
  others = λ j f. ground arith;
  seen = refl;
})
  where
    same_status :
        (j : ℕ)
        → ((i == j) ≡ true) ⊎ ((i == j) ≡ false)
        → q.status j ≡ update q.status i WaitState.waiting j
    same_status j (inl e) = rw e (ap q.status (sym ((==_iff i j).0 e)) ∙ s)
    same_status j (inr e) = rw e refl

waiting_lem :
    (i : ℕ) (cx : Option ℕ) (q : WaitQueue) (u : Wakeup)
    → q.wakeup i ≡ u
    → q.status i ≡ WaitState.waiting
    → (unwoken u ≡ true) ⊎ (u ≡ Wakeup.one)
    → Result i q (poll_waiting i cx u q)
unfolding poll_waiting
waiting_lem i cx q Wakeup.empty e s k =
    still_waits i q (registered cx Wakeup.empty) s (ap unwoken e)
      (registered-unwoken cx Wakeup.empty refl)
waiting_lem i cx q (Wakeup.waiting w) e s k =
    still_waits i q (registered cx (Wakeup.waiting w)) s (ap unwoken e)
      (registered-unwoken cx (Wakeup.waiting w) refl)
waiting_lem i cx q Wakeup.one e s k = notified s e refl
waiting_lem i cx q Wakeup.all e s (inl a) = cc
waiting_lem i cx q Wakeup.all e s (inr a) = cc
waiting_lem i cx q Wakeup.closed e s (inl a) = cc
waiting_lem i cx q Wakeup.closed e s (inr a) = cc

start_lem :
    (debug : Bool) (i : ℕ) (cx : Option ℕ) (q : WaitQueue)
    → Inv q
    → q.word.state ≢ State.closed
    → q.status i ≡ WaitState.start
    → q.seen i ≡ q.word.wake_alls
    → Yields (poll_at debug (λ t. t) [] i cx WaitState.start q) (Result i q)
unfolding poll_at poll_start to_waiting
start_lem debug i cx q v o s c = elim (Bool-cases (same_state q.word.state State.woken)) [
  | inl e ↦ rw e (consumed s ((woken_eq q.word.state).0 e) refl)
  | inr e ↦
      let f : (q.word.wake_alls == q.seen i) ≡ true = ground arith in
      let n : q.word.state ≢ State.woken = λ g. let h = (woken_eq q.word.state).1 g in cc in
      rw (e, f) (locked_lem debug i cx q q.word.state refl o n s (v.fresh i s))
]

-- By the state of the future.
at_lem :
    (debug : Bool) (i : ℕ) (cx : Option ℕ) (q : WaitQueue) (s : WaitState)
    → q.status i ≡ s
    → Inv q
    → q.word.state ≢ State.closed
    → s ≢ WaitState.woken
    → (q.status i ≡ WaitState.start → q.seen i ≡ q.word.wake_alls)
    → (q.status i ≡ WaitState.waiting → (unwoken (q.wakeup i) ≡ true) ⊎ (q.wakeup i ≡ Wakeup.one))
    → Yields (poll_at debug (λ t. t) [] i cx s q) (Result i q)
unfolding poll_at
at_lem debug i cx q WaitState.start e v o n c k = start_lem debug i cx q v o e (c e)
at_lem debug i cx q WaitState.waiting e v o n c k = waiting_lem i cx q (q.wakeup i) refl e (k e)
at_lem debug i cx q WaitState.woken e v o n c k = absurd (n refl)

pub poll_wait-Polls :
    (debug : Bool) (i : ℕ) (cx : Option ℕ) (q : WaitQueue)
    → Inv q
    → q.word.state ≢ State.closed
    → q.status i ≢ WaitState.woken
    → (q.status i ≡ WaitState.start → q.seen i ≡ q.word.wake_alls)
    → (q.status i ≡ WaitState.waiting → (unwoken (q.wakeup i) ≡ true) ⊎ (q.wakeup i ≡ Wakeup.one))
    → Yields (poll_wait debug (λ t. t) [] i cx q) (Result i q)
unfolding poll_wait
poll_wait-Polls debug i cx q v o n c k = at_lem debug i cx q (q.status i) refl v o n c k
