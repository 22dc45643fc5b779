-- ===== src/Mutex/Kept.antt =====
-- Each operation of a mutex returns, and keeps the token.
use mathlib.Core.Path.{subst}
use mathlib.Core.Option.{Option}
use wasm_kernel.Base.{
  NotIn, ℕ, ◌+◌, ◌-◌, ◌≡◌, ◌≢◌, ◌⊎◌, refl, sym, ap, inl, inr, Bool, true, false, ◌&&◌,
  if◌then◌else◌, List, [], ◌∷◌, returned, Yields, Yields-imp, Yields->>=, arith, Bool-cases,
}
use wasm_kernel.WaitQueue.Queue.{
  State, Word, Wakeup, WaitState, WaitQueue, with_state, is_empty, same_state,
}
use wasm_kernel.WaitQueue.Ops.{wake, release, release_at, removed, remove, is_one, set_status}
use wasm_kernel.WaitQueue.Inv.{Inv, unwoken}
use wasm_kernel.WaitQueue.Waking.{wake-Notifies}
use wasm_kernel.WaitQueue.Notified.{Notifies, waiting-eq}
use wasm_kernel.WaitQueue.Handing.{release-wake, forget_removed}
use wasm_kernel.WaitQueue.Removal.{woken-NotIn, other-NotIn, forget-Inv}
use wasm_kernel.WaitQueue.Keeping.{release-Inv}
use wasm_kernel.Mutex.Lock.{Mutex, drop_lock}
use wasm_kernel.Mutex.Token.{Tokens}
use wasm_kernel.Mutex.Passing.{notified-Tokens}
use wasm_kernel.Mutex.Given.{forget-Tokens, wake-Tokens}
use wasm_kernel.Mutex.Locking.{MutexInv, kinds, Yields-both}

-- A notification in the queue without the future `i`.
status-Notifies :
    (l : List ℕ) (q q' : WaitQueue) (w : Option ℕ) (i : ℕ)
    → Notifies l q (q', w)
    → Notifies l (set_status i WaitState.woken q) (set_status i WaitState.woken q', w)
status-Notifies [] q q' w i (a, b) = (ap (set_status i WaitState.woken) a, b)
status-Notifies (j ∷ l) q q' w i (a, b) = (ap (set_status i WaitState.woken) a, b)

-- The drop of a future that has been woken is a poll and the drop of its guard.
drop_notified :
    (debug : Bool) (i : ℕ) (m : Mutex)
    → MutexInv m
    → m.wait.status i ≡ WaitState.waiting
    → m.wait.wakeup i ≡ Wakeup.one
    → Yields (drop_lock debug i m) (λ out. MutexInv out.0)
unfolding drop_lock
drop_notified debug i m v s e =
    Yields->>= (λ out. Notifies m.wait.queue m.wait out × Inv (set_status i WaitState.woken out.0))
      (λ out. MutexInv out.0) (release debug i m.wait)
      (λ (q, w). returned (record m { wait = set_status i WaitState.woken q }, w)) both passes
  where
    absent : NotIn i m.wait.queue
    absent = woken-NotIn m.wait.status m.wait.wakeup i m.wait.queue v.order.queued (ap unwoken e)

    notifies : Yields (release debug i m.wait) (λ out. Notifies m.wait.queue m.wait out)
    notifies =
        subst (λ z. Yields z (λ out. Notifies m.wait.queue m.wait out))
          (sym ((release-wake debug [] i m.wait tt v.open_word v.order).0 s e))
          (Yields-imp (λ out. Notifies m.wait.queue m.wait out × Inv out.0)
            (λ out. Notifies m.wait.queue m.wait out) (wake debug [] (λ t. t) m.wait)
            (λ out (a, b). a) (wake-Notifies debug [] m.wait tt v.open_word v.order))

    both :
        Yields
          (release debug i m.wait)
          (λ out. Notifies m.wait.queue m.wait out × Inv (set_status i WaitState.woken out.0))
    both =
        Yields-both (λ out. Notifies m.wait.queue m.wait out)
          (λ out. Inv (set_status i WaitState.woken out.0)) (release debug i m.wait) notifies
          (release-Inv debug i m.wait v.order)

    passes :
        (out : WaitQueue × Option ℕ)
        → Notifies m.wait.queue m.wait out × Inv (set_status i WaitState.woken out.0)
        → MutexInv (record m { wait = set_status i WaitState.woken out.0 })
    passes (q, w) (n, o) =
        let t = notified-Tokens m.wait m.guards v i s e (forget-Inv m.wait i v.order absent) in
        let g : m.guards + 1 - 1 ≡ m.guards = omega arith in
        subst (λ z. Tokens (set_status i WaitState.woken q) z) g
          (wake-Tokens (set_status i WaitState.woken m.wait) (m.guards + 1) t
            (set_status i WaitState.woken q) w (omega arith)
            (status-Notifies m.wait.queue m.wait q w i n) o)

removed_state :
    (rest : List ℕ) (w : Word)
    → (let w' =
          if is_empty rest && same_state w.state State.waiting
          then with_state w State.empty
          else w in
        (w'.wake_alls ≡ w.wake_alls)
        × ((w'.state ≡ w.state) ⊎ ((w.state ≡ State.waiting) × (w'.state ≡ State.empty))))
removed_state rest w = elim (Bool-cases (is_empty rest && same_state w.state State.waiting)) [
  | inl e ↦ rw e (refl, inr (waiting-eq w.state (ground arith), refl))
  | inr e ↦ rw e (refl, inl refl)
]

not_one : (w : Wakeup) → unwoken w ≡ true → is_one w ≡ false
not_one Wakeup.empty e = refl
not_one (Wakeup.waiting w) e = refl
not_one Wakeup.one e = cc
not_one Wakeup.all e = cc
not_one Wakeup.closed e = cc

-- The drop of any other future.
drop_other :
    (debug : Bool) (i : ℕ) (m : Mutex) (s : WaitState)
    → m.wait.status i ≡ s
    → MutexInv m
    → (s ≡ WaitState.waiting → unwoken (m.wait.wakeup i) ≡ true)
    → Yields (drop_lock debug i m) (λ out. MutexInv out.0)
unfolding drop_lock release release_at removed
drop_other debug i m WaitState.start e v u =
    let f : (m.wait.status i ≡ WaitState.waiting → m.wait.wakeup i ≢ Wakeup.one) = λ g. cc in
    rw e (
      forget-Tokens m.wait m.guards v i m.wait.word m.wait.queue f refl (inl refl) (
        forget-Inv m.wait i v.order
          (other-NotIn m.wait.status m.wait.wakeup i m.wait.queue v.order.queued (λ g. cc))))
drop_other debug i m WaitState.woken e v u =
    let f : (m.wait.status i ≡ WaitState.waiting → m.wait.wakeup i ≢ Wakeup.one) = λ g. cc in
    rw e (
      forget-Tokens m.wait m.guards v i m.wait.word m.wait.queue f refl (inl refl) (
        forget-Inv m.wait i v.order
          (other-NotIn m.wait.status m.wait.wakeup i m.wait.queue v.order.queued (λ g. cc))))
drop_other debug i m WaitState.waiting e v u =
    let f : (m.wait.status i ≡ WaitState.waiting → m.wait.wakeup i ≢ Wakeup.one) =
      λ g h. let k = ap unwoken h in let l = u refl in cc in
    let (a, b) = removed_state (remove i m.wait.queue) m.wait.word in
    rw (e, not_one (m.wait.wakeup i) (u refl))
      (forget-Tokens m.wait m.guards v i (removed i m.wait).word (removed i m.wait).queue f a b
        (forget_removed m.wait i v.order))

pub drop_lock-Tokens :
    (debug : Bool) (i : ℕ) (m : Mutex)
    → MutexInv m
    → Yields (drop_lock debug i m) (λ out. MutexInv out.0)
drop_lock-Tokens debug i m v = by_status (m.wait.status i) refl
  where
    by_wakeup :
        m.wait.status i ≡ WaitState.waiting
        → (unwoken (m.wait.wakeup i) ≡ true) ⊎ (m.wait.wakeup i ≡ Wakeup.one)
        → Yields (drop_lock debug i m) (λ out. MutexInv out.0)
    by_wakeup s (inl u) = drop_other debug i m WaitState.waiting s v (λ e. u)
    by_wakeup s (inr u) = drop_notified debug i m v s u

    by_status :
        (s : WaitState) → m.wait.status i ≡ s → Yields (drop_lock debug i m) (λ out. MutexInv out.0)
    by_status WaitState.start e = drop_other debug i m WaitState.start e v (λ f. cc)
    by_status WaitState.woken e = drop_other debug i m WaitState.woken e v (λ f. cc)
    by_status WaitState.waiting e = by_wakeup e (kinds m.wait m.guards v i e)
