-- ===== src/WaitQueue/Missed.antt =====
-- A future that was made before `wake_all` and is polled for the first time after it.
use mathlib.Core.Option.{Option, some}
use wasm_kernel.Base.{
  ℕ, ◌+◌, ◌<◌, ◌==◌, ◌%◌, ◌≡◌, ◌≢◌, refl, sym, ap, ◌∙◌, Bool, false, List, length, returned, Yields,
  arith, Bool-cases, inl, inr, [],
}
use wasm_kernel.WaitQueue.Queue.{State, WaitState, Wakeup, WaitQueue, same_state, wake_alls_mod}
use wasm_kernel.WaitQueue.Ops.{poll_wait, poll_at, poll_start, ready}
use wasm_kernel.WaitQueue.Drain.{wake_all, wake_all_at, count_wake_all}
use wasm_kernel.WaitQueue.Inv.{Inv, Open}
use wasm_kernel.WaitQueue.WakeAll.{alone, all_woken, wake_all-Wakes}
use wasm_kernel.WaitQueue.Draining.{wakers}

suc_differs : (m n : ℕ) → n ≡ m → (m + 1 == n) ≡ false
suc_differs m n e = ground arith

later_ready :
    (debug : Bool) (i : ℕ) (cx : Option ℕ) (q : WaitQueue)
    → q.status i ≡ WaitState.start
    → (q.word.wake_alls == q.seen i) ≡ false
    → Yields (poll_wait debug (λ t. t) [] i cx q) (λ out. out.1 ≡ ready)
unfolding poll_wait poll_at poll_start
later_ready debug i cx q s d = elim (Bool-cases (same_state q.word.state State.woken)) [
  | inl e ↦ rw (s, e) refl
  | inr e ↦ rw (s, e, d) refl
]

counted : (n : ℕ) → n + 1 < wake_alls_mod → (n + 1) % wake_alls_mod ≡ n + 1
counted n c = omega arith

missed_at :
    (debug : Bool) (fuel i : ℕ) (cx : Option ℕ) (q : WaitQueue) (s : State)
    → q.word.state ≡ s
    → s ≢ State.closed
    → Inv q
    → length q.queue < fuel
    → q.word.wake_alls + 1 < wake_alls_mod
    → q.status i ≡ WaitState.start
    → q.seen i ≡ q.word.wake_alls
    → (q' : WaitQueue) × (l : List ℕ) × (wake_all_at alone s fuel q.word q
        ≡ some (returned (q', l)))
      × Yields (poll_wait debug (λ t. t) [] i cx q') (λ out. out.1 ≡ ready)
unfolding wake_all wake_all_at
missed_at debug fuel i cx q State.closed e o v f c s n = absurd (o refl)
missed_at debug fuel i cx q State.empty e o v f c s n = (
  count_wake_all q,
  [],
  refl,
  later_ready debug i cx (count_wake_all q) s
      (rw (counted q.word.wake_alls c) (suc_differs q.word.wake_alls (q.seen i) n)),
)
missed_at debug fuel i cx q State.woken e o v f c s n = (
  count_wake_all q,
  [],
  refl,
  later_ready debug i cx (count_wake_all q) s
      (rw (counted q.word.wake_alls c) (suc_differs q.word.wake_alls (q.seen i) n)),
)
missed_at debug fuel i cx q State.waiting e o v f c s n =
    let q' = record (all_woken Wakeup.all q) {
      word = record { state = State.empty; wake_alls = q.word.wake_alls + 1 };
    } in
    (
      q',
      wakers q.queue q.wakeup,
      sym (ap (λ (t : State). wake_all_at alone t fuel q.word q) e) ∙ wake_all-Wakes fuel q v e f c,
      later_ready debug i cx q' s (suc_differs q.word.wake_alls (q.seen i) n),
    )

-- A future counts as woken from its making on: on an open queue in order, with more rounds than
-- waiters and room in the count, `wake_all` returns, whether waiters are queued or not; and a future
-- that was made since the call of `wake_all` before, and has not been polled yet, is ready on its
-- first poll after it, in both builds. (Nobody else changes the queue in between.)
pub wake_all-poll_wait :
    (debug : Bool) (fuel i : ℕ) (cx : Option ℕ) (q : WaitQueue)
    → Open q
    → Inv q
    → length q.queue < fuel
    → q.word.wake_alls + 1 < wake_alls_mod
    → q.status i ≡ WaitState.start
    → q.seen i ≡ q.word.wake_alls
    → (q' : WaitQueue) × (l : List ℕ) × (wake_all alone fuel q.word q ≡ some (returned (q', l)))
      × Yields (poll_wait debug (λ t. t) [] i cx q') (λ out. out.1 ≡ ready)
unfolding wake_all
wake_all-poll_wait debug fuel i cx q o v f c s n =
    missed_at debug fuel i cx q q.word.state refl o v f c s n
