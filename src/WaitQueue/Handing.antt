-- ===== src/WaitQueue/Handing.antt =====
-- A future that is dropped: what becomes of its place in the queue and of its notification.
use mathlib.Core.Option.{Option, none}
use wasm_kernel.Base.{
  NotIn, ℕ, ◌==◌, ◌≡◌, refl, sym, ap, ◌∙◌, inl, inr, Bool, true, false, if◌then◌else◌, List, [],
  ◌∷◌, update, returned, Yields, Yields-imp, arith, Bool-cases, ==_iff,
}
use wasm_kernel.WaitQueue.Queue.{State, Word, Wakeup, WaitState, WaitQueue, same_state, with_state}
use wasm_kernel.WaitQueue.Ops.{
  wake_locked, wake, set_status, remove, removed, is_one, release_at, release, ready, ready_closed,
  wait, poll_locked, poll_start, poll_at, poll_wait, to_waiting_at, to_waiting,
}
use wasm_kernel.WaitQueue.Inv.{Inv, Open, Queued, unwoken}
use wasm_kernel.WaitQueue.Waking.{OpenReads, wake_eq}
use wasm_kernel.WaitQueue.Notified.{Notifies, wake_locked-Notifies}
use wasm_kernel.WaitQueue.Removal.{
  woken-NotIn, other-NotIn, remove-NotIn, removed-NotIn, remove-Distinct, remove-All, back-NotIn,
  Queued-status, forget-Inv, removed-agrees,
}

-- A future whose node is taken off the queue, if it is on it.
pub forget_removed :
    (q : WaitQueue) (i : ℕ) → Inv q → Inv (set_status i WaitState.woken (removed i q))
unfolding removed
forget_removed q i v = record {
  agrees = removed-agrees i q.queue q.word v.agrees;
  distinct = remove-Distinct i q.queue v.distinct;
  queued =
      Queued-status q.status q.wakeup i WaitState.woken (remove i q.queue)
        (removed-NotIn i q.queue v.distinct)
        (remove-All (Queued q.status q.wakeup) i q.queue v.queued);
  unqueued = λ j m s. elim (Bool-cases (i == j)) [
    | inl e ↦ let t : WaitState.woken ≡ WaitState.waiting = rw e at s in cc
    | inr e ↦
        v.unqueued j (back-NotIn i j q.queue (λ f. let g = (==_iff i j).1 (sym f) in cc) m)
          (rw e at s)
  ];
  fresh = λ j s. elim (Bool-cases (i == j)) [
    | inl e ↦ let t : WaitState.woken ≡ WaitState.start = rw e at s in cc
    | inr e ↦ v.fresh j (rw e at s)
  ];
}

pub removed_same : (q : WaitQueue) (i : ℕ) → Inv q → NotIn i q.queue → removed i q ≡ q
unfolding removed
removed_same q i v n =
    let e = remove-NotIn i q.queue n in
    let a = v.agrees in rw e (ap (λ (w : Word). record q { word = w }) (ground arith))

is_one-unwoken : (w : Wakeup) → is_one w ≡ true → unwoken w ≡ false
is_one-unwoken Wakeup.one e = refl
is_one-unwoken Wakeup.empty e = cc
is_one-unwoken (Wakeup.waiting w) e = cc
is_one-unwoken Wakeup.all e = cc
is_one-unwoken Wakeup.closed e = cc

one-unwoken : (w : Wakeup) → w ≡ Wakeup.one → (is_one w ≡ true) × (unwoken w ≡ false)
one-unwoken w e = rw e (refl, refl)

pub release_notified :
    (debug : Bool) (i : ℕ) (q : WaitQueue)
    → Inv q
    → q.status i ≡ WaitState.waiting
    → q.wakeup i ≡ Wakeup.one
    → release debug i q ≡ wake_locked debug q.word q
unfolding release release_at
release_notified debug i q v s e =
    let (a, b) = one-unwoken (q.wakeup i) e in
    ap (λ (t : WaitState). release_at debug i t q) s
    ∙ rw a (
        ap (wake_locked debug q.word)
          (removed_same q i v (woken-NotIn q.status q.wakeup i q.queue v.queued b)))

Notifies-NotIn :
    (i : ℕ) (l : List ℕ) (q : WaitQueue) (out : WaitQueue × Option ℕ)
    → q.queue ≡ l
    → NotIn i l
    → Notifies l q out
    → NotIn i out.0.queue
Notifies-NotIn i [] q out e n (a, b) = rw (a, e) tt
Notifies-NotIn i (j ∷ rest) q out e n (a, b) = rw a n.1

pub release_at-Inv :
    (debug : Bool) (i : ℕ) (q : WaitQueue) (s : WaitState)
    → q.status i ≡ s
    → Inv q
    → Yields (release_at debug i s q) (λ out. Inv (set_status i WaitState.woken out.0))
unfolding release_at
release_at-Inv debug i q WaitState.start e v =
    forget-Inv q i v (other-NotIn q.status q.wakeup i q.queue v.queued (λ f. cc))
release_at-Inv debug i q WaitState.woken e v =
    forget-Inv q i v (other-NotIn q.status q.wakeup i q.queue v.queued (λ f. cc))
release_at-Inv debug i q WaitState.waiting e v = elim (Bool-cases (is_one (q.wakeup i))) [
  | inl o ↦
      let n = woken-NotIn q.status q.wakeup i q.queue v.queued (is_one-unwoken (q.wakeup i) o) in
      rw (o, removed_same q i v n)
        (Yields-imp (λ out. Notifies q.queue q out × Inv out.0)
          (λ out. Inv (set_status i WaitState.woken out.0)) (wake_locked debug q.word q)
          (λ out (a, b). forget-Inv out.0 i b (Notifies-NotIn i q.queue q out refl n a))
          (wake_locked-Notifies debug q v))
  | inr o ↦ rw o (forget_removed q i v)
]

-- Dropping a future gives its notification on: where the future has been notified by `wake` and has
-- not been polled since, dropping it does to an open queue just what another `wake` does, so the
-- next waiter has the notification, or it is stored. And whatever the future's state, dropping it
-- returns in both builds, and leaves a queue in order once the future is forgotten. (`reads` are
-- other values that the loop of that `wake` read, none of them that of a closed queue.)
pub release-wake :
    (debug : Bool) (reads : List Word) (i : ℕ) (q : WaitQueue)
    → OpenReads reads
    → Open q
    → Inv q
    → (q.status i ≡ WaitState.waiting
        → q.wakeup i ≡ Wakeup.one
        → release debug i q ≡ wake debug reads (λ t. t) q)
      × Yields (release debug i q) (λ out. Inv (set_status i WaitState.woken out.0))
unfolding release
release-wake debug reads i q r o v = (
  λ s e. release_notified debug i q v s e ∙ sym (wake_eq debug reads q r o),
  release_at-Inv debug i q (q.status i) refl v,
)

same_refl : (n : ℕ) → (n == n) ≡ true
same_refl n = ground arith

update_self : {A : Type 0} (f : ℕ → A) (j : ℕ) (a : A) → update f j a j ≡ a
update_self f j a = ground arith

locked_closed :
    (debug : Bool) (q : WaitQueue)
    → q.word.state ≡ State.closed
    → wake_locked debug q.word q
      ≡ returned (record q { word = with_state q.word State.woken }, none)
unfolding wake_locked
locked_closed debug q c = rw (c, same_refl q.word.wake_alls)

-- The first poll of a new future.
poll_new :
    (debug : Bool) (j : ℕ) (cx : Option ℕ) (q : WaitQueue)
    → poll_wait debug (λ t. t) [] j cx (wait j q) ≡ (
        if same_state q.word.state State.woken
        then returned (
          set_status j WaitState.woken (record (wait j q) { word = with_state q.word State.empty }),
          ready,
        )
        else poll_locked debug j cx (wait j q) (to_waiting_at q.word.state q.word))
unfolding poll_wait poll_at poll_start to_waiting wait
poll_new debug j cx q =
    ap (λ (t : WaitState). poll_at debug (λ u. u) [] j cx t (wait j q))
      (update_self q.status j WaitState.start)
    ∙ rw (same_refl j, same_refl q.word.wake_alls)

poll_new-closed :
    (debug : Bool) (j : ℕ) (cx : Option ℕ) (q : WaitQueue)
    → q.word.state ≡ State.closed
    → (if same_state q.word.state State.woken
        then returned (
          set_status j WaitState.woken (record (wait j q) { word = with_state q.word State.empty }),
          ready,
        )
        else poll_locked debug j cx (wait j q) (to_waiting_at q.word.state q.word))
      ≡ returned (wait j q, ready_closed)
unfolding poll_locked
poll_new-closed debug j cx q c = rw c

-- Dropping a notified future of a closed queue opens the queue again: its notification is stored
-- over the mark of closing. Then a new future is ready on its first poll, and not refused as closed.
pub release_reopens :
    (debug : Bool) (i j : ℕ) (cx : Option ℕ) (q : WaitQueue)
    → Inv q
    → q.word.state ≡ State.closed
    → q.status i ≡ WaitState.waiting
    → q.wakeup i ≡ Wakeup.one
    → (release debug i q ≡ returned (record q { word = with_state q.word State.woken }, none))
      × (poll_wait debug (λ t. t) [] j cx (wait j q) ≡ returned (wait j q, ready_closed))
      × (poll_wait debug
            (λ t. t)
            []
            j
            cx
            (wait j (record q { word = with_state q.word State.woken }))
          ≡ returned (
            set_status j WaitState.woken
                (record (wait j q) { word = with_state q.word State.empty }),
            ready,
          ))
unfolding wait
release_reopens debug i j cx q v c s e = (
  release_notified debug i q v s e ∙ locked_closed debug q c,
  poll_new debug j cx q ∙ poll_new-closed debug j cx q c,
  poll_new debug j cx (record q { word = with_state q.word State.woken }),
)
