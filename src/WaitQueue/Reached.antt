-- ===== src/WaitQueue/Reached.antt =====
-- Any sequence of operations on a wait queue, each of them alone.
use mathlib.Core.Path.{subst}
use mathlib.Core.Option.{Option, some}
use wasm_kernel.Base.{
  Yields-returned, ℕ, ◌+◌, ◌<◌, ltb, ◌≡◌, refl, sym, ap, ◌∙◌, inl, inr, Bool, false, not, List, [],
  length, returned, panicked, Yields, Bool-cases,
}
use wasm_kernel.WaitQueue.Queue.{
  State, Word, Wakeup, WaitState, WaitQueue, same_state, with_state, wake_alls_mod,
}
use wasm_kernel.WaitQueue.Ops.{wake, poll_wait, release, set_status}
use wasm_kernel.WaitQueue.Drain.{Woken, wake_all, wake_all_at, close, drain_loop, count_wake_all}
use wasm_kernel.WaitQueue.Inv.{Inv, unwoken}
use wasm_kernel.WaitQueue.Notified.{same_word}
use wasm_kernel.WaitQueue.Polls.{poll_wait-Inv}
use wasm_kernel.WaitQueue.Enqueued.{wait-Inv, word-Inv}
use wasm_kernel.WaitQueue.WakeAll.{all_woken, alone, drain_loop-all, Queued-Unwoken}
use wasm_kernel.WaitQueue.Steps.{
  new, Step, make, poll, notify, drop, notify_all, shut, Reach, here, next,
}
use wasm_kernel.WaitQueue.Keeping.{all_woken-Inv, wake-Inv, release-Inv}

-- What a call returned is the state that it is known to leave.
same_result :
    (m : Woken) (q1 q' : WaitQueue) (l1 l : List ℕ)
    → m ≡ some (returned (q1, l1))
    → m ≡ some (returned (q', l))
    → Inv q1
    → Inv q'
same_result m q1 q' l1 l e f v =
    let g : ◌≡◌ {A = Woken} (some (returned (q1, l1))) (some (returned (q', l))) = sym e ∙ f in
    let k : q1 ≡ q' = cc in subst Inv k v

-- The rounds of `wake_all` and `close`, with a word that is not `Waiting`.
rounds-Inv :
    (fuel : ℕ) (w : Wakeup) (s : Word) (q q' : WaitQueue) (l : List ℕ)
    → Inv q
    → unwoken w ≡ false
    → same_state s.state State.waiting ≡ false
    → length q.queue < fuel
    → drain_loop alone fuel w (record q { word = s }) ≡ some (returned (q', l))
    → Inv q'
rounds-Inv fuel w s q q' l v u t f h =
    same_result _ (all_woken w (record q { word = s })) q' _ l
      (drain_loop-all fuel w (record q { word = s }) f v.distinct
        (Queued-Unwoken q.status q.wakeup q.queue v.queued))
      h (all_woken-Inv q w s v u t)

wake_all-Inv :
    (fuel : ℕ) (q q' : WaitQueue) (l : List ℕ) (s : State)
    → q.word.state ≡ s
    → Inv q
    → length q.queue < fuel
    → wake_all_at alone s fuel q.word q ≡ some (returned (q', l))
    → Inv q'
unfolding wake_all_at
wake_all-Inv fuel q q' l State.closed e v f h = same_result _ q q' [] l refl h v
wake_all-Inv fuel q q' l State.empty e v f h =
    same_result _ (count_wake_all q) q' [] l refl h (word-Inv q (count_wake_all q).word v v.agrees)
wake_all-Inv fuel q q' l State.woken e v f h =
    same_result _ (count_wake_all q) q' [] l refl h (word-Inv q (count_wake_all q).word v v.agrees)
wake_all-Inv fuel q q' l State.waiting e v f h =
    elim (Bool-cases (ltb (q.word.wake_alls + 1) wake_alls_mod)) [
      | inl c ↦
          rounds-Inv fuel Wakeup.all
            (record { state = State.empty; wake_alls = q.word.wake_alls + 1 }) q q' l v refl refl f
            (rw (c, same_word q.word) at h)
      | inr c ↦ let g : ◌≡◌ {A = Woken} (some panicked) (some (returned (q', l))) = rw c at h in cc
    ]

close-Inv :
    (fuel : ℕ) (q q' : WaitQueue) (l : List ℕ)
    → Inv q
    → length q.queue < fuel
    → close alone fuel q ≡ some (returned (q', l))
    → Inv q'
unfolding close
close-Inv fuel q q' l v f h = elim (Bool-cases (same_state q.word.state State.waiting)) [
  | inl c ↦
      rounds-Inv fuel Wakeup.closed (with_state q.word State.closed) q q' l v refl refl f
        (rw c at h)
  | inr c ↦
      same_result (some (returned (record q { word = with_state q.word State.closed }, [])))
        (record q { word = with_state q.word State.closed }) q' [] l refl (rw c at h)
        (word-Inv q (with_state q.word State.closed) v (v.agrees ∙ ap not c))
]

Step-Inv : (debug : Bool) (q q' : WaitQueue) → Step debug q q' → Inv q → Inv q'
unfolding wake_all
Step-Inv debug q q' (make i n e) v = subst Inv (sym e) (wait-Inv i q v n)
Step-Inv debug q q' (poll i cx r e) v =
    Yields-returned (λ out. Inv out.0) _ (poll_wait-Inv debug i cx q v) e
Step-Inv debug q q' (notify w e) v =
    Yields-returned (λ out. Inv out.0) _ (wake-Inv debug q q.word.state refl v) e
Step-Inv debug q q' (drop i q1 w e f) v = subst Inv (sym f) (
    Yields-returned (λ out. Inv (set_status i WaitState.woken out.0)) _ (release-Inv debug i q v) e)
Step-Inv debug q q' (notify_all fuel l f e) v = wake_all-Inv fuel q q' l q.word.state refl v f e
Step-Inv debug q q' (shut fuel l f e) v = close-Inv fuel q q' l v f e

new-Inv : Inv new
new-Inv = record {
  agrees = refl;
  distinct = tt;
  queued = tt;
  unqueued = λ i n e. cc;
  fresh = λ i e. refl;
}

Reach-Inv_all : (debug : Bool) (q : WaitQueue) → Reach debug new q → Inv q
Reach-Inv_all debug q here = new-Inv
Reach-Inv_all debug q (next r s) = Step-Inv debug _ q s (Reach-Inv_all debug _ r)

-- In every state that operations on a new queue reach, one after another, in either build: the
-- queue is in order, so its word says `Waiting` just when a waiter is queued, no waiter is queued
-- twice, the queued ones have not been woken, and a future that waits and is not queued has been
-- woken. There no `wake`, no poll and no drop of a future panics. (In a step, `wake_all` and `close`
-- return, with more rounds than waiters; a number in use is not given to a new future; a dropped
-- future is forgotten.)
pub Reach-Inv :
    (debug : Bool) (q : WaitQueue)
    → Reach debug new q
    → Inv q
      × Yields (wake debug [] (λ t. t) q) (λ out. Inv out.0)
      × ((i : ℕ) (cx : Option ℕ) → Yields (poll_wait debug (λ t. t) [] i cx q) (λ out. Inv out.0))
      × ((i : ℕ) → Yields (release debug i q) (λ out. Inv (set_status i WaitState.woken out.0)))
Reach-Inv debug q r =
    let v = Reach-Inv_all debug q r in
    (
      v,
      wake-Inv debug q q.word.state refl v,
      λ i cx. poll_wait-Inv debug i cx q v,
      λ i. release-Inv debug i q v,
    )
