-- ===== src/WaitQueue/WakeAll.antt =====
-- `wake_all` wakes every waiter, in as many batches as it takes.
use mathlib.Core.Option.{some}
use mathlib.Core.List.{append-nil}
use wasm_kernel.Base.{
  Distinct, ℕ, zero, suc, ◌+◌, ◌≤◌, ◌<◌, lt→ltb, ◌≡◌, ◌≢◌, ◌⊎◌, refl, sym, ap, ◌∙◌, inl, inr, true,
  false, List, [], ◌∷◌, ◌++◌, length, All, returned, Yields-eq_returned, arith,
}
use wasm_kernel.Semaphore.Queue.{max_wakers}
use wasm_kernel.WaitQueue.Queue.{State, Wakeup, WaitState, WaitQueue, is_empty, wake_alls_mod}
use wasm_kernel.WaitQueue.Drain.{
  after_batch, wake_all_at, drain, drain_loop, woken_before, wake_all,
}
use wasm_kernel.WaitQueue.Inv.{Inv, Queued}
use wasm_kernel.WaitQueue.Notified.{same_word}
use wasm_kernel.WaitQueue.Draining.{marked, wakers, Unwoken, Part, drain-Part}

-- Nobody else takes the lock between two batches.
abbrev pub alone : ℕ → WaitQueue → WaitQueue
alone fuel q = q

-- The queue when all of its waiters are woken.
abbrev pub all_woken : Wakeup → WaitQueue → WaitQueue
all_woken w q = record q { queue = []; wakeup = marked w q.queue q.wakeup }

pair_eq : {A B : Type 0} {a a' : A} {b b' : B} → a ≡ a' → b ≡ b' → ◌≡◌ {A = A × B} (a, b) (a', b')
pair_eq p q = λ i. (p i, q i)

nonempty : (xs ys : List ℕ) → length xs ≤ length ys → xs ≢ [] → ys ≢ []
nonempty [] ys h n = absurd (n refl)
nonempty (x ∷ xs) [] h n = absurd (omega arith)
nonempty (x ∷ xs) (y ∷ ys) h n = λ e. cc

is_empty-cases :
    (xs : List ℕ) → ((is_empty xs ≡ true) × (xs ≡ [])) ⊎ ((is_empty xs ≡ false) × (xs ≢ []))
is_empty-cases [] = inl (refl, refl)
is_empty-cases (x ∷ xs) = inr (refl, λ h. cc)

module _ (w : Wakeup) (q : WaitQueue) (fuel : ℕ) (q' : WaitQueue) (batch : List ℕ)
    (p : Part w q q.queue q' batch) where
  part_all : all_woken w q' ≡ all_woken w q
  part_all =
      ap (all_woken w) p.rest ∙ ap (λ (f : ℕ → Wakeup). record q { queue = []; wakeup = f }) p.marks

  part_last : q'.queue ≡ [] → q' ≡ all_woken w q
  part_last e =
      p.rest
      ∙ (ap (λ (l : List ℕ). record q { queue = l; wakeup = q'.wakeup }) e
          ∙ ap (λ (f : ℕ → Wakeup). record q { queue = []; wakeup = f })
              (ap (λ (l : List ℕ). marked w l q'.wakeup) (sym e) ∙ p.marks))

  finish_part :
      length q.queue < suc fuel
      → (length q'.queue < fuel
          → drain_loop alone fuel w q'
            ≡ some (returned (all_woken w q', wakers q'.queue q'.wakeup)))
      → after_batch (returned (q', batch)) (drain_loop alone fuel w)
        ≡ some (returned (all_woken w q, wakers q.queue q.wakeup))
  unfolding after_batch
  finish_part f ih = elim (is_empty-cases q'.queue) [
    | inl (t, e) ↦ rw t (
        ap (λ (o : WaitQueue × List ℕ). some (returned o))
          (pair_eq (part_last e) (
            sym (append-nil batch)
            ∙ (ap (λ (l : List ℕ). batch ++ wakers l q'.wakeup) (sym e) ∙ p.order))))
    | inr (t, e) ↦ rw t (
        ap (woken_before batch)
          (ih (omega (arith, p.shorter.1 (nonempty q'.queue q.queue p.shorter.0 e))))
        ∙ ap (λ (o : WaitQueue × List ℕ). some (returned o)) (pair_eq part_all p.order))
  ]

pub drain_loop-all :
    (fuel : ℕ) (w : Wakeup) (q : WaitQueue)
    → length q.queue < fuel
    → Distinct q.queue
    → Unwoken q.wakeup q.queue
    → drain_loop alone fuel w q ≡ some (returned (all_woken w q, wakers q.queue q.wakeup))
unfolding drain_loop
drain_loop-all zero w q f d u = absurd (omega arith)
drain_loop-all (suc fuel) w q f d u =
    let ((q', batch), e, p) =
      Yields-eq_returned (λ (q', batch). Part w q q.queue q' batch) (drain w q.queue max_wakers q)
        (drain-Part max_wakers w q.queue q d u) in
    ap (λ m. after_batch m (drain_loop alone fuel w)) e
    ∙ finish_part w q fuel q' batch p f (λ h. drain_loop-all fuel w q' h p.distinct p.unwoken_rest)

pub Queued-Unwoken :
    (status : ℕ → WaitState) (wakeup : ℕ → Wakeup) (xs : List ℕ)
    → All (Queued status wakeup) xs
    → Unwoken wakeup xs
Queued-Unwoken status wakeup [] a = tt
Queued-Unwoken status wakeup (x ∷ xs) ((a, b), c) = (b, Queued-Unwoken status wakeup xs c)

-- `wake_all` wakes everybody once: on a queue in order with waiters, with more rounds than waiters,
-- where nobody else takes the lock between the batches or changes the word, and the count of
-- `wake_all` has room, it returns. Every waiter of the queue has been woken, and no other; the
-- wakers of those that have one are woken in the order of the queue, whatever the number of batches;
-- the queue is empty, its word says so, and the count has gone up by one.
pub wake_all-Wakes :
    (fuel : ℕ) (q : WaitQueue)
    → Inv q
    → q.word.state ≡ State.waiting
    → length q.queue < fuel
    → q.word.wake_alls + 1 < wake_alls_mod
    → wake_all alone fuel q.word q
      ≡ some (
          returned (
            record (all_woken Wakeup.all q) {
              word = record { state = State.empty; wake_alls = q.word.wake_alls + 1 };
            },
            wakers q.queue q.wakeup,
          ))
unfolding wake_all wake_all_at
wake_all-Wakes fuel q v s f c =
    ap (λ (t : State). wake_all_at alone t fuel q.word q) s
    ∙ rw (lt→ltb _ _ c, same_word q.word)
        (drain_loop-all fuel Wakeup.all
          (record q { word = record { state = State.empty; wake_alls = q.word.wake_alls + 1 } }) f
          v.distinct (Queued-Unwoken q.status q.wakeup q.queue v.queued))
