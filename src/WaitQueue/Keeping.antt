-- ===== src/WaitQueue/Keeping.antt =====
-- wake_all, close and the drop of a future keep the invariant.
use mathlib.Core.Option.{none}
use wasm_kernel.Base.{
  NotIn, ℕ, ◌==◌, ◌≡◌, refl, sym, ap, ◌∙◌, inl, inr, Bool, true, false, not, List, [], ◌∷◌, All,
  update, returned, Yields, Yields-imp, arith, Bool-cases, ==_iff,
}
use wasm_kernel.WaitQueue.Queue.{
  State, Word, Wakeup, WaitState, WaitQueue, same_state, try_wake, try_wakes,
}
use wasm_kernel.WaitQueue.Ops.{wake, wake_tried, release, set_status}
use wasm_kernel.WaitQueue.Inv.{Inv, Queued, unwoken}
use wasm_kernel.WaitQueue.Waking.{wake-Notifies}
use wasm_kernel.WaitQueue.Notified.{Notifies}
use wasm_kernel.WaitQueue.Handing.{release_at-Inv}
use wasm_kernel.WaitQueue.WakeAll.{all_woken}
use wasm_kernel.WaitQueue.Draining.{marked}

marked-NotIn :
    (w : Wakeup) (xs : List ℕ) (f : ℕ → Wakeup) (j : ℕ) → NotIn j xs → marked w xs f j ≡ f j
marked-NotIn w [] f j n = refl
marked-NotIn w (x ∷ xs) f j (n, m) = marked-NotIn w xs (update f x w) j m ∙ (ground arith)

marked-unwoken :
    (w : Wakeup) (xs : List ℕ) (f : ℕ → Wakeup) (j : ℕ)
    → unwoken w ≡ false
    → (NotIn j xs → unwoken (f j) ≡ false)
    → unwoken (marked w xs f j) ≡ false
marked-unwoken w [] f j u h = h tt
marked-unwoken w (x ∷ xs) f j u h = marked-unwoken w xs (update f x w) j u λ n.
    elim (Bool-cases (x == j)) [
      | inl e ↦ rw e u
      | inr e ↦ rw e (h ((λ f. let g = (==_iff x j).1 (sym f) in cc), n))
    ]

start-NotIn :
    (status : ℕ → WaitState) (wakeup : ℕ → Wakeup) (i : ℕ) (xs : List ℕ)
    → All (Queued status wakeup) xs
    → status i ≡ WaitState.start
    → NotIn i xs
start-NotIn status wakeup i [] a s = tt
start-NotIn status wakeup i (x ∷ xs) ((b, c), a) s =
    ((λ e. let f = ap status e in cc), start-NotIn status wakeup i xs a s)

pub all_woken-Inv :
    (q : WaitQueue) (w : Wakeup) (s : Word)
    → Inv q
    → unwoken w ≡ false
    → same_state s.state State.waiting ≡ false
    → Inv (record (all_woken w q) { word = s })
all_woken-Inv q w s v u t = record {
  agrees = sym (ap not t);
  distinct = tt;
  queued = tt;
  unqueued = λ j m r. marked-unwoken w q.queue q.wakeup j u (λ n. v.unqueued j n r);
  fresh = λ j r.
      marked-NotIn w q.queue q.wakeup j (start-NotIn q.status q.wakeup j q.queue v.queued r)
      ∙ v.fresh j r;
}

wake_closed :
    (debug : Bool) (q : WaitQueue)
    → q.word.state ≡ State.closed
    → wake debug [] (λ t. t) q ≡ returned (q, none)
unfolding wake wake_tried try_wakes try_wake
wake_closed debug q e = rw e

pub wake-Inv :
    (debug : Bool) (q : WaitQueue) (s : State)
    → q.word.state ≡ s
    → Inv q
    → Yields (wake debug [] (λ t. t) q) (λ out. Inv out.0)
wake-Inv debug q s e v = elim (Bool-cases (same_state s State.closed)) [
  | inl c ↦ rw (wake_closed debug q (e ∙ closed-eq s c)) v
  | inr c ↦
      Yields-imp (λ out. Notifies q.queue q out × Inv out.0) (λ out. Inv out.0)
        (wake debug [] (λ t. t) q) (λ out (a, b). b)
        (wake-Notifies debug [] q tt
          (λ f. let g = ap (λ (t : State). same_state t State.closed) (sym e ∙ f) in cc) v)
]
  where
    closed-eq : (s : State) → same_state s State.closed ≡ true → s ≡ State.closed
    closed-eq State.waiting h = cc
    closed-eq State.empty h = cc
    closed-eq State.woken h = cc
    closed-eq State.closed h = refl

pub release-Inv :
    (debug : Bool) (i : ℕ) (q : WaitQueue)
    → Inv q
    → Yields (release debug i q) (λ out. Inv (set_status i WaitState.woken out.0))
unfolding release
release-Inv debug i q v = release_at-Inv debug i q (q.status i) refl v
