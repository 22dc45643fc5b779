-- ===== src/Task/Lifecycle/Safety.antt =====
-- What holds of a task in every state that its operations can reach.
use wasm_kernel.Base.{◌+◌, ◌≤◌, ◌<◌, ◌≡◌, ◌↔◌, ◌⊎◌, inl, inr, Bool, true, false, returned, arith}
use wasm_kernel.Task.Step
use wasm_kernel.Task.World
use wasm_kernel.Task.World.{World, holders, spawn}
use wasm_kernel.Task.Lifecycle.{Fits, Reach}
use wasm_kernel.Task.Lifecycle.Keeps.{Reach-Inv}

-- In every state that a spawned task reaches, in both builds: at most one of the run queues and
-- the pollers has the task, so it is never queued twice, never queued while it is polled, and never
-- polled by two at once.
pub queued_once : {debug : Bool} {w : World} → Reach debug spawn w → w.queued + w.polled ≤ 1
queued_once r = (Reach-Inv r).once

-- In every state that a spawned task reaches, in both builds: the task is deallocated if and only
-- if no reference to it is left, and until then the count is the number of references.
pub freed_iff :
    {debug : Bool} {w : World}
    → Reach debug spawn w
    → ((w.freed ≡ true) ↔ (holders w ≡ 0)) × (w.freed ≡ false → w.cell.refs ≡ holders w)
freed_iff {w} r = let inv = Reach-Inv r in ((ground arith, ground arith), ground arith)

-- No wakeup is lost: where a task that has been reached is neither completed nor canceled, and a
-- waker wakes it by reference, on which somebody holds a reference, or by value, giving up the
-- waker's own, then the task is queued, or it is polled and marked as woken, and it is not freed.
pub wake_not_lost :
    {debug : Bool} {w w' : World}
    → Reach debug spawn w
    → Fits w
    → w.cell.completed ≡ false
    → w.cell.canceled ≡ false
    → ((0 < holders w) × (World.wake_by_ref debug w ≡ returned w'))
      ⊎ ((0 < w.held) × (World.wake_by_val debug w ≡ returned w'))
    → (0 < w'.queued + w'.polled) × (w'.cell.woken ≡ true) × (w'.freed ≡ false)
unfolding World.wake_by_ref World.wake_by_val Step.wake_by_ref Step.wake_by_val Step.clone_ref
    Step.drop_ref World.drop_ref World.deallocate Step.fetch_drop_ref
wake_not_lost r f c k (inl (h, e)) = let inv = Reach-Inv r in ground arith
wake_not_lost r f c k (inr (h, e)) = let inv = Reach-Inv r in ground arith

-- Where a poll of a task that is reached ends with the future pending, the task goes back to the
-- run queue exactly if it was woken during the poll, and else it is in no queue.
pub finish_requeues :
    {debug : Bool} {w w' : World}
    → Reach debug spawn w
    → Fits w
    → 0 < w.polled
    → World.finish debug false w ≡ returned w'
    → ((w.cell.woken ≡ true) ↔ (w'.queued ≡ 1)) × ((w.cell.woken ≡ false) ↔ (w'.queued ≡ 0))
unfolding World.finish Step.end_poll World.drop_ref World.deallocate Step.fetch_drop_ref
finish_requeues r f h e = let inv = Reach-Inv r in ground arith
