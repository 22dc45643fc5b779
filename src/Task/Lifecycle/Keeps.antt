-- ===== src/Task/Lifecycle/Keeps.antt =====
-- Each operation keeps the invariant.
use wasm_kernel.Base.{◌<◌, ◌≡◌, Bool, returned, arith}
use wasm_kernel.Task.Word.{ref_mod}
use wasm_kernel.Task.Step
use wasm_kernel.Task.World
use wasm_kernel.Task.World.{World, holders, spawn}
use wasm_kernel.Task.Lifecycle.{Fits, Move, Reach, here, next, Counted, Inv}

-- Dropping the reference that is owed frees the task exactly where it was the last.
drop_ref-Inv :
    (debug : Bool) (w : World) {w' : World}
    → Counted 1 w
    → w.cell.refs < ref_mod
    → World.drop_ref debug w ≡ returned w'
    → Inv w'
unfolding World.drop_ref World.deallocate Step.fetch_drop_ref
drop_ref-Inv debug w c f e = ground arith

module _ (debug : Bool) (w : World) {w' : World} (inv : Inv w) (fits : Fits w) where
  wake_by_ref-Inv : 0 < holders w → World.wake_by_ref debug w ≡ returned w' → Inv w'
  unfolding World.wake_by_ref Step.wake_by_ref Step.clone_ref
  wake_by_ref-Inv h e = ground arith

  clone_ref-Inv : 0 < holders w → World.clone_ref debug w ≡ returned w' → Inv w'
  unfolding World.clone_ref Step.fetch_clone_ref
  clone_ref-Inv h e = ground arith

  drop_held-Inv : 0 < w.held → World.drop_held debug w ≡ returned w' → Inv w'
  unfolding World.drop_held
  drop_held-Inv h e = drop_ref-Inv debug _ (ground arith) (ground arith) e

  wake_by_val-Inv : 0 < w.held → World.wake_by_val debug w ≡ returned w' → Inv w'
  unfolding World.wake_by_val Step.wake_by_val Step.clone_ref Step.drop_ref World.drop_ref
      World.deallocate Step.fetch_drop_ref
  wake_by_val-Inv h e = ground arith

  stop_spinning-Inv : 0 < w.spinning → World.stop_spinning debug w ≡ returned w' → Inv w'
  unfolding World.stop_spinning
  stop_spinning-Inv h e = drop_ref-Inv debug _ (ground arith) (ground arith) e

  create_join_handle-Inv : 0 < w.held → World.create_join_handle debug w ≡ returned w' → Inv w'
  unfolding World.create_join_handle Step.create_join_handle
  create_join_handle-Inv h e = ground arith

  try_join-Inv : 0 < w.held → World.try_join debug w ≡ returned w' → Inv w'
  unfolding World.try_join Step.try_join Step.should_register
  try_join-Inv h e = ground arith

  set_join_waker_registered-Inv :
      0 < w.held → World.set_join_waker_registered debug w ≡ returned w' → Inv w'
  unfolding World.set_join_waker_registered Step.set_join_waker_registered
  set_join_waker_registered-Inv h e = ground arith

  drop_join_handle-Inv : 0 < w.held → World.drop_join_handle debug w ≡ returned w' → Inv w'
  unfolding World.drop_join_handle Step.drop_join_handle
  drop_join_handle-Inv h e = ground arith

  finish-Inv :
      (completed : Bool) → 0 < w.polled → World.finish debug completed w ≡ returned w' → Inv w'
  unfolding World.finish Step.end_poll Step.has_join_waker World.drop_ref World.deallocate
      Step.fetch_drop_ref
  finish-Inv completed h e = ground arith

  start-Inv : 0 < w.queued → World.start debug w ≡ returned w' → Inv w'
  unfolding World.start Step.start_poll Step.has_join_waker World.drop_ref World.deallocate
      Step.fetch_drop_ref
  start-Inv h e = ground arith

  cancel-Inv : 0 < holders w → World.cancel debug w ≡ returned w' → Inv w'
  unfolding World.cancel Step.cancel World.wake_by_ref Step.wake_by_ref Step.clone_ref
  cancel-Inv h e = ground arith

  Move-Inv : Move debug w w' → Inv w'
  Move-Inv (Move.wake_by_val h e) = wake_by_val-Inv h e
  Move-Inv (Move.wake_by_ref h e) = wake_by_ref-Inv h e
  Move-Inv (Move.clone_ref h e) = clone_ref-Inv h e
  Move-Inv (Move.drop_held h e) = drop_held-Inv h e
  Move-Inv (Move.cancel h e) = cancel-Inv h e
  Move-Inv (Move.start h e) = start-Inv h e
  Move-Inv (Move.finish c h e) = finish-Inv c h e
  Move-Inv (Move.stop_spinning h e) = stop_spinning-Inv h e
  Move-Inv (Move.create_join_handle h e) = create_join_handle-Inv h e
  Move-Inv (Move.try_join h e) = try_join-Inv h e
  Move-Inv (Move.set_join_waker_registered h e) = set_join_waker_registered-Inv h e
  Move-Inv (Move.drop_join_handle h e) = drop_join_handle-Inv h e

spawn-Inv : Inv spawn
unfolding spawn
spawn-Inv = ground arith

pub Reach-Inv : {debug : Bool} {w : World} → Reach debug spawn w → Inv w
Reach-Inv here = spawn-Inv
Reach-Inv {debug} (next {w = w} r f m) = Move-Inv debug w (Reach-Inv r) f m
