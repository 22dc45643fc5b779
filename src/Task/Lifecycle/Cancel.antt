-- ===== src/Task/Lifecycle/Cancel.antt =====
-- `TaskRef::cancel` wakes the task after it has set `WOKEN`, so the wake is taken for a second one.
use wasm_kernel.Base.{◌+◌, ◌≡◌, Bool, true, false, returned, arith}
use wasm_kernel.Task.Step
use wasm_kernel.Task.World
use wasm_kernel.Task.World.{World, holders}
use wasm_kernel.Task.Lifecycle.{Move, Reach, here, next}

-- Canceled, marked as woken, and with no scheduler.
pub record Stranded (w : World) : Type 0 where
  pub canceled : w.cell.canceled ≡ true
  pub woken : w.cell.woken ≡ true
  pub idle : w.cell.polling ≡ false
  pub unqueued : w.queued ≡ 0
  pub unpolled : w.polled ≡ 0

module _ (debug : Bool) (w : World) {w' : World} (s : Stranded w) where
  Move-Stranded : Move debug w w' → Stranded w'
  unfolding World.wake_by_val World.wake_by_ref World.clone_ref World.drop_held World.cancel
      World.stop_spinning World.create_join_handle World.try_join World.set_join_waker_registered
      World.drop_join_handle Step.wake_by_val Step.wake_by_ref Step.clone_ref Step.drop_ref
      Step.fetch_clone_ref Step.fetch_drop_ref Step.cancel Step.create_join_handle Step.try_join
      Step.should_register Step.set_join_waker_registered Step.drop_join_handle World.deallocate
  Move-Stranded (Move.wake_by_val h e) = ground arith
  Move-Stranded (Move.wake_by_ref h e) = ground arith
  Move-Stranded (Move.clone_ref h e) = ground arith
  Move-Stranded (Move.drop_held h e) = ground arith
  Move-Stranded (Move.cancel h e) = ground arith
  Move-Stranded (Move.start h e) = absurd (omega arith)
  Move-Stranded (Move.finish c h e) = absurd (omega arith)
  Move-Stranded (Move.stop_spinning h e) = ground arith
  Move-Stranded (Move.create_join_handle h e) = ground arith
  Move-Stranded (Move.try_join h e) = ground arith
  Move-Stranded (Move.set_join_waker_registered h e) = ground arith
  Move-Stranded (Move.drop_join_handle h e) = ground arith

Reach-Stranded : {debug : Bool} {w w' : World} → Stranded w → Reach debug w w' → Stranded w'
Reach-Stranded s here = s
Reach-Stranded {debug} s (next {w = w} r f m) = Move-Stranded debug w (Reach-Stranded s r) m

cancel-Stranded :
    (debug : Bool) (w : World) {w' : World}
    → w.cell.canceled ≡ false
    → w.cell.polling ≡ false
    → w.queued + w.polled ≡ 0
    → World.cancel debug w ≡ returned w'
    → Stranded w'
unfolding World.cancel Step.cancel World.wake_by_ref Step.wake_by_ref
cancel-Stranded debug w c p q e = ground arith

-- A task that is neither queued nor polled when it is first canceled is never queued or polled
-- again, whatever operations follow, in both builds.
pub canceled_idle_never_polled :
    (debug : Bool) (w : World) {w' later : World}
    → w.cell.canceled ≡ false
    → w.cell.polling ≡ false
    → w.queued + w.polled ≡ 0
    → World.cancel debug w ≡ returned w'
    → Reach debug w' later
    → later.queued + later.polled ≡ 0
canceled_idle_never_polled debug w c p q e r =
    let s = Reach-Stranded (cancel-Stranded debug w c p q e) r in omega arith
