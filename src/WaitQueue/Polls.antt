-- ===== src/WaitQueue/Polls.antt =====
-- New futures and polls keep a queue in order.
use mathlib.Core.Path.{subst}
use mathlib.Core.Option.{Option, none, some}
use wasm_kernel.Base.{
  ℕ, ◌==◌, ◌≡◌, refl, ap, ◌∙◌, inl, inr, Bool, true, false, not, List, [], ◌∷◌, ◌++◌, All, update,
  Yields, arith, Bool-cases, ==_iff, debug_assert-true,
}
use wasm_kernel.WaitQueue.Queue.{State, Word, Wakeup, WaitState, WaitQueue, same_state, with_state}
use wasm_kernel.WaitQueue.Ops.{
  set_wakeup, registered, enqueue, to_waiting_at, to_waiting, poll_locked, poll_start, poll_waiting,
  poll_at, poll_wait,
}
use wasm_kernel.WaitQueue.Inv.{Inv, Queued, unwoken}
use wasm_kernel.WaitQueue.Removal.{woken-NotIn, other-NotIn, forget-Inv}
use wasm_kernel.WaitQueue.Enqueued.{word-Inv, enqueued-Inv, update_self}

enqueue-Inv :
    (debug : Bool) (i : ℕ) (cx : Option ℕ) (q : WaitQueue) (w : Word)
    → Inv q
    → q.status i ≡ WaitState.start
    → same_state w.state State.waiting ≡ true
    → Yields (enqueue debug i cx (record q { word = w })) (λ out. Inv out.0)
unfolding enqueue
enqueue-Inv debug i none q w v s t =
    subst
      (λ (f : ℕ → Wakeup). Inv (record q {
        word = w;
        queue = q.queue ++ i ∷ [];
        status = update q.status i WaitState.waiting;
        wakeup = f;
      }))
      (update_self q.wakeup i) (enqueued-Inv q i w (q.wakeup i) v s t (ap unwoken (v.fresh i s)))
enqueue-Inv debug i (some c) q w v s t =
    rw (debug_assert-true debug _ (is_fresh (q.wakeup i) (v.fresh i s)))
      (enqueued-Inv q i w (Wakeup.waiting c) v s t refl)
  where
    is_fresh : (x : Wakeup) → x ≡ Wakeup.empty → elim x [ Wakeup.empty ↦ true | _ ↦ false ] ≡ true
    is_fresh x e = rw e

locked-Inv :
    (debug : Bool) (i : ℕ) (cx : Option ℕ) (q : WaitQueue) (s : State)
    → q.word.state ≡ s
    → Inv q
    → q.status i ≡ WaitState.start
    → Yields (poll_locked debug i cx q (to_waiting_at s q.word)) (λ out. Inv out.0)
unfolding poll_locked
locked-Inv debug i cx q State.empty e v s =
    enqueue-Inv debug i cx q (with_state q.word State.waiting) v s refl
locked-Inv debug i cx q State.waiting e v s = enqueue-Inv debug i cx q q.word v s (rw e)
locked-Inv debug i cx q State.woken e v s =
    forget-Inv (record q { word = with_state q.word State.empty }) i
      (word-Inv q (with_state q.word State.empty) v (v.agrees ∙ rw e))
      (other-NotIn q.status q.wakeup i q.queue v.queued (λ f. cc))
locked-Inv debug i cx q State.closed e v s = v

start-Inv :
    (debug : Bool) (i : ℕ) (cx : Option ℕ) (q : WaitQueue)
    → Inv q
    → q.status i ≡ WaitState.start
    → Yields (poll_start debug [] i cx q) (λ out. Inv out.0)
unfolding poll_start to_waiting
start-Inv debug i cx q v s = elim (Bool-cases (not (q.word.wake_alls == q.seen i))) [
  | inl e ↦ rw e (forget-Inv q i v (other-NotIn q.status q.wakeup i q.queue v.queued (λ f. cc)))
  | inr e ↦ rw e (locked-Inv debug i cx q q.word.state refl v s)
]

Queued-rewake :
    (status : ℕ → WaitState) (wakeup : ℕ → Wakeup) (i : ℕ) (u : Wakeup) (xs : List ℕ)
    → unwoken u ≡ true
    → All (Queued status wakeup) xs
    → All (Queued status (update wakeup i u)) xs
Queued-rewake status wakeup i u [] k a = tt
Queued-rewake status wakeup i u (x ∷ xs) k ((a, b), c) =
    ((a, ground arith), Queued-rewake status wakeup i u xs k c)

rewake-Inv :
    (i : ℕ) (u : Wakeup) (q : WaitQueue)
    → Inv q
    → q.status i ≡ WaitState.waiting
    → unwoken (q.wakeup i) ≡ true
    → unwoken u ≡ true
    → Inv (set_wakeup i u q)
rewake-Inv i u q v s k l = record {
  agrees = v.agrees;
  distinct = v.distinct;
  queued = Queued-rewake q.status q.wakeup i u q.queue l v.queued;
  unqueued = λ j m t. elim (Bool-cases (i == j)) [
    | inl e ↦
        let f = ap (λ (a : ℕ). unwoken (q.wakeup a)) ((==_iff i j).0 e) in
        let g = v.unqueued j m t in cc
    | inr e ↦ rw e (v.unqueued j m t)
  ];
  fresh = λ j t. elim (Bool-cases (i == j)) [
    | inl e ↦ let f = ap q.status ((==_iff i j).0 e) in cc
    | inr e ↦ rw e (v.fresh j t)
  ];
}

pub registered-unwoken :
    (cx : Option ℕ) (u : Wakeup) → unwoken u ≡ true → unwoken (registered cx u) ≡ true
registered-unwoken none u k = k
registered-unwoken (some w) u k = refl

waiting-Inv :
    (i : ℕ) (cx : Option ℕ) (q : WaitQueue) (u : Wakeup)
    → q.wakeup i ≡ u
    → Inv q
    → q.status i ≡ WaitState.waiting
    → Inv (poll_waiting i cx u q).0
unfolding poll_waiting
waiting-Inv i cx q Wakeup.empty e v s =
    rewake-Inv i (registered cx Wakeup.empty) q v s (ap unwoken e)
      (registered-unwoken cx Wakeup.empty refl)
waiting-Inv i cx q (Wakeup.waiting w) e v s =
    rewake-Inv i (registered cx (Wakeup.waiting w)) q v s (ap unwoken e)
      (registered-unwoken cx (Wakeup.waiting w) refl)
waiting-Inv i cx q Wakeup.one e v s =
    forget-Inv q i v (woken-NotIn q.status q.wakeup i q.queue v.queued (ap unwoken e))
waiting-Inv i cx q Wakeup.all e v s =
    forget-Inv q i v (woken-NotIn q.status q.wakeup i q.queue v.queued (ap unwoken e))
waiting-Inv i cx q Wakeup.closed e v s =
    forget-Inv q i v (woken-NotIn q.status q.wakeup i q.queue v.queued (ap unwoken e))

poll_at-Inv :
    (debug : Bool) (i : ℕ) (cx : Option ℕ) (q : WaitQueue) (s : WaitState)
    → q.status i ≡ s
    → Inv q
    → Yields (poll_at debug (λ t. t) [] i cx s q) (λ out. Inv out.0)
unfolding poll_at
poll_at-Inv debug i cx q WaitState.start e v =
    elim (Bool-cases (same_state q.word.state State.woken)) [
      | inl t ↦ rw t (
          forget-Inv (record q { word = with_state q.word State.empty }) i
            (word-Inv q (with_state q.word State.empty) v (v.agrees ∙ (ground arith)))
            (other-NotIn q.status q.wakeup i q.queue v.queued (λ f. cc)))
      | inr t ↦ rw t (start-Inv debug i cx q v e)
    ]
poll_at-Inv debug i cx q WaitState.waiting e v = waiting-Inv i cx q (q.wakeup i) refl v e
poll_at-Inv debug i cx q WaitState.woken e v = v

pub poll_wait-Inv :
    (debug : Bool) (i : ℕ) (cx : Option ℕ) (q : WaitQueue)
    → Inv q
    → Yields (poll_wait debug (λ t. t) [] i cx q) (λ out. Inv out.0)
unfolding poll_wait
poll_wait-Inv debug i cx q v = poll_at-Inv debug i cx q (q.status i) refl v
