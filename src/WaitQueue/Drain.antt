-- ===== src/WaitQueue/Drain.antt =====
-- `wake_all` and `close`, which take the waiters off in batches and drop the lock in between.
use mathlib.Core.Option.{Option, none, some}
use wasm_kernel.Base.{
  ℕ, zero, suc, ◌+◌, ◌-◌, ◌%◌, ◌==◌, ltb, if◌then◌else◌, List, [], ◌∷◌, ◌++◌, Outcome, returned,
  panicked, ◌>>=◌,
}
use wasm_kernel.Semaphore.Queue.{max_wakers}
use wasm_kernel.WaitQueue.Queue.{
  State, Word, Wakeup, WaitQueue, ◌=word=◌, with_state, same_state, is_empty, wake_alls_mod,
}
use wasm_kernel.WaitQueue.Ops.{wake_node}

-- A waker goes into the batch, and the loop goes on while there is room for another.
unfoldable pub add_to_batch :
    ℕ
    → WaitQueue
    → (ℕ → WaitQueue → Outcome (WaitQueue × List ℕ))
    → Option ℕ
    → Outcome (WaitQueue × List ℕ)
add_to_batch room q more none = more room q
add_to_batch room q more (some w) =
    if room == 1
    then returned (q, w ∷ [])
    else (more (room - 1) q >>= λ (q', batch). returned (q', w ∷ batch))

-- `drain_to_wake_batch`, with the room that the batch has: what it leaves, and the batch.
unfoldable pub drain : Wakeup → List ℕ → ℕ → WaitQueue → Outcome (WaitQueue × List ℕ)
unfolding add_to_batch
drain wakeup [] room q = returned (record q { queue = [] }, [])
drain wakeup (i ∷ rest) room q = do
  (q', waker) ← wake_node i wakeup (record q { queue = rest })
  add_to_batch room q' (drain wakeup rest) waker

abbrev pub Woken : Type 0
Woken = Option (Outcome (WaitQueue × List ℕ))

-- The wakers of a batch are woken before those of the rounds that follow.
abbrev pub woken_before : List ℕ → Woken → Woken
woken_before batch none = none
woken_before batch (some (returned (q, woken))) = some (returned (q, batch ++ woken))
woken_before batch (some panicked) = some panicked

-- `fetch_add(ONE_WAKE_ALL)`
abbrev pub count_wake_all : WaitQueue → WaitQueue
count_wake_all q = record q {
  word = record q.word { wake_alls = (q.word.wake_alls + 1) % wake_alls_mod };
}

-- After a batch: the loop ends where no waiter is left.
unfoldable pub after_batch : Outcome (WaitQueue × List ℕ) → (WaitQueue → Woken) → Woken
after_batch panicked again = some panicked
after_batch (returned (q, batch)) again =
    if is_empty q.queue then some (returned (q, batch)) else woken_before batch (again q)

-- The rounds of `wake_all` and `close`. `relock` is what others have done when the lock is taken
-- again; `none` says that the fuel ran out.
module _ (relock : ℕ → WaitQueue → WaitQueue) where
  unfoldable pub drain_loop : ℕ → Wakeup → WaitQueue → Woken
  unfolding drain after_batch
  drain_loop zero wakeup q = none
  drain_loop (suc fuel) wakeup q =
      after_batch (drain wakeup q.queue max_wakers q)
        (λ q'. drain_loop fuel wakeup (relock fuel q'))

  unfoldable pub wake_all_at : State → ℕ → Word → WaitQueue → Woken
  unfolding drain_loop
  wake_all_at State.closed fuel curr q = some (returned (q, []))
  wake_all_at State.empty fuel curr q = some (returned (count_wake_all q, []))
  wake_all_at State.woken fuel curr q = some (returned (count_wake_all q, []))
  wake_all_at State.waiting fuel curr q =
      if ltb (curr.wake_alls + 1) wake_alls_mod
      then (if q.word =word= curr
          then drain_loop fuel Wakeup.all
              (record q { word = record { state = State.empty; wake_alls = curr.wake_alls + 1 } })
          else some panicked)
      else some panicked

  -- `curr` is the word as it was loaded: where others have changed it since without the lock, the
  -- exchange fails and panics. Packing the count panics where it has no room.
  unfoldable pub wake_all : ℕ → Word → WaitQueue → Woken
  unfolding wake_all_at
  wake_all fuel curr q = wake_all_at curr.state fuel curr q

  unfoldable pub close : ℕ → WaitQueue → Woken
  unfolding drain_loop
  close fuel q =
      let q' = record q { word = with_state q.word State.closed } in
      if same_state q.word.state State.waiting
      then drain_loop fuel Wakeup.closed (relock fuel q')
      else some (returned (q', []))
