-- ===== src/WaitQueue/Examples.antt =====
-- Futures of a `WaitQueue`.
use mathlib.Core.Option.{Option, none, some}
use wasm_kernel.Base.{
  ℕ, zero, suc, ◌==◌, ◌≡◌, refl, update, true, false, if◌then◌else◌, List, [], ◌∷◌, ◌++◌, Outcome,
  returned, panicked, Yields, arith,
}
use wasm_kernel.WaitQueue.Queue.{
  State, Word, Wakeup, WaitState, WaitQueue, with_state, try_wakes, try_wake,
}
use wasm_kernel.WaitQueue.Ops.{
  wait, wake, wake_tried, wake_locked, wake_next, wake_node, store_wakeup, poll_wait, poll_at,
  poll_start, poll_locked, to_waiting, enqueue, release, set_status, pending, ready, ready_closed,
}
use wasm_kernel.WaitQueue.Drain.{
  Woken, wake_all, wake_all_at, close, drain_loop, drain, add_to_batch, after_batch,
}
use wasm_kernel.WaitQueue.Inv.{Inv}
use wasm_kernel.WaitQueue.Waking.{wake-Notifies}
use wasm_kernel.WaitQueue.Notified.{Notifies}
use wasm_kernel.WaitQueue.Handing.{release-wake, release_reopens}
use wasm_kernel.WaitQueue.WakeAll.{alone, all_woken, wake_all-Wakes}
use wasm_kernel.WaitQueue.Reached.{Reach-Inv}
use wasm_kernel.WaitQueue.Steps.{new, Step, Reach}
use wasm_kernel.WaitQueue.Missed.{wake_all-poll_wait}

-- A future is made, and polled with the waker `w`.
abbrev waited : ℕ → ℕ → WaitQueue → WaitQueue
waited i w q = record {
  word = with_state q.word State.waiting;
  queue = q.queue ++ i ∷ [];
  wakeup = update (update q.wakeup i Wakeup.empty) i (Wakeup.waiting w);
  status = update (update q.status i WaitState.start) i WaitState.waiting;
  seen = update q.seen i q.word.wake_alls;
}

abbrev one_waits : WaitQueue
one_waits = waited 0 7 new

abbrev two_wait : WaitQueue
two_wait = waited 1 8 one_waits

Reach-one_waits : Reach true new one_waits
unfolding wait poll_wait poll_at poll_start to_waiting poll_locked enqueue
Reach-one_waits =
    Reach.next (Reach.next Reach.here (Step.make 0 (λ e. cc) refl))
      (Step.poll 0 (some 7) pending refl)

Reach-two_wait : Reach true new two_wait
unfolding wait poll_wait poll_at poll_start to_waiting poll_locked enqueue
Reach-two_wait =
    Reach.next (Reach.next Reach-one_waits (Step.make 1 (λ e. cc) refl))
      (Step.poll 1 (some 8) pending refl)

-- The first of them is woken.
abbrev notified : WaitQueue
notified = record two_wait { queue = 1 ∷ []; wakeup = update two_wait.wakeup 0 Wakeup.one }

Reach-notified : Reach true new notified
unfolding wake try_wakes try_wake wake_tried wake_locked wake_next wake_node
Reach-notified = Reach.next Reach-two_wait (Step.notify (some 7) refl)

abbrev closed_notified : WaitQueue
closed_notified = record notified {
  word = with_state notified.word State.closed;
  queue = [];
  wakeup = update notified.wakeup 1 Wakeup.closed;
}

Reach-closed_notified : Reach true new closed_notified
unfolding close drain_loop drain after_batch add_to_batch wake_node
Reach-closed_notified = Reach.next Reach-notified (Step.shut 2 (8 ∷ []) (omega arith) refl)

abbrev reads : List Word
reads = record { state = State.woken; wake_alls = 0 } ∷ []

wake-Notifies_example :
    Yields
      (wake true reads (λ t. t) two_wait)
      (λ out. Notifies (0 ∷ 1 ∷ []) two_wait out × Inv out.0)
wake-Notifies_example =
    wake-Notifies true reads two_wait ((λ e. cc), tt) (λ e. cc)
      (Reach-Inv true two_wait Reach-two_wait).0

release-wake_example :
    (WaitState.waiting ≡ WaitState.waiting
      → Wakeup.one ≡ Wakeup.one
      → release true 0 notified ≡ wake true reads (λ t. t) notified)
    × Yields (release true 0 notified) (λ out. Inv (set_status 0 WaitState.woken out.0))
release-wake_example =
    release-wake true reads 0 notified ((λ e. cc), tt) (λ e. cc)
      (Reach-Inv true notified Reach-notified).0

release_reopens_example :
    (release true 0 closed_notified
      ≡ returned
          (record closed_notified { word = with_state closed_notified.word State.woken }, none))
    × (poll_wait true (λ t. t) [] 2 (some 9) (wait 2 closed_notified)
        ≡ returned (wait 2 closed_notified, ready_closed))
    × (poll_wait true
          (λ t. t)
          []
          2
          (some 9)
          (wait 2 (record closed_notified { word = with_state closed_notified.word State.woken }))
        ≡ returned (
          set_status 2 WaitState.woken (record (wait 2 closed_notified) {
            word = with_state closed_notified.word State.empty;
          }),
          ready,
        ))
release_reopens_example =
    release_reopens true 0 2 (some 9) closed_notified
      (Reach-Inv true closed_notified Reach-closed_notified).0 refl refl refl

wake_all-Wakes_example :
    wake_all alone 3 two_wait.word two_wait
    ≡ some (
        returned (
          record (all_woken Wakeup.all two_wait) {
            word = record { state = State.empty; wake_alls = 1 };
          },
          7 ∷ 8 ∷ [],
        ))
wake_all-Wakes_example =
    wake_all-Wakes 3 two_wait (Reach-Inv true two_wait Reach-two_wait).0 refl (omega arith)
      (omega arith)

Reach-Inv_example :
    Inv two_wait
    × Yields (wake true [] (λ t. t) two_wait) (λ out. Inv out.0)
    × ((i : ℕ) (cx : Option ℕ)
        → Yields (poll_wait true (λ t. t) [] i cx two_wait) (λ out. Inv out.0))
    × ((i : ℕ) → Yields (release true i two_wait) (λ out. Inv (set_status i WaitState.woken out.0)))
Reach-Inv_example = Reach-Inv true two_wait Reach-two_wait

-- A third future, that is not polled yet.
abbrev three : WaitQueue
three = record two_wait {
  wakeup = update two_wait.wakeup 2 Wakeup.empty;
  status = update two_wait.status 2 WaitState.start;
  seen = update two_wait.seen 2 0;
}

Reach-three : Reach true new three
unfolding wait
Reach-three = Reach.next Reach-two_wait (Step.make 2 (λ e. cc) refl)

wake_all-poll_wait_example :
    (q' : WaitQueue) × (l : List ℕ) × (wake_all alone 3 three.word three ≡ some (returned (q', l)))
    × Yields (poll_wait true (λ t. t) [] 2 (some 9) q') (λ out. out.1 ≡ ready)
wake_all-poll_wait_example =
    wake_all-poll_wait true 3 2 (some 9) three (λ e. cc) (Reach-Inv true three Reach-three).0
      (omega arith) (omega arith) refl refl

-- `wake_all` of more waiters than a batch holds, where a future starts to wait between two batches:
-- the queue is left `Waiting` and empty, and the next `wake` panics.
abbrev many : ℕ → WaitQueue
many zero = new
many (suc n) = waited n n (many n)

abbrev latecomer : ℕ → WaitQueue → WaitQueue
latecomer fuel q = if fuel == 2 then waited 17 17 q else q

abbrev then_wake : Woken → Outcome (WaitQueue × Option ℕ)
then_wake none = returned (new, none)
then_wake (some panicked) = returned (new, none)
then_wake (some (returned (q, woken))) = wake false [] (λ t. t) q

stranded : then_wake (wake_all latecomer 3 (many 17).word (many 17)) ≡ panicked
unfolding wake_all wake_all_at drain_loop drain after_batch add_to_batch wake_node wake try_wakes
    try_wake wake_tried wake_locked wake_next
stranded = refl

-- A `close` between the load and the exchange of `wake_all`.
closed_meanwhile :
    wake_all alone 3 two_wait.word
      (record two_wait { word = with_state two_wait.word State.closed })
    ≡ some panicked
unfolding wake_all wake_all_at
closed_meanwhile = refl

-- A `close` between the load and the lock of `wake` is lost where the queue is empty: its
-- notification is stored over it.
close_lost :
    wake_locked true
      (record { state = State.empty; wake_alls = 0 })
      (record new { word = with_state new.word State.closed })
    ≡ returned (record new { word = with_state new.word State.woken }, none)
unfolding wake_locked store_wakeup
close_lost = refl
