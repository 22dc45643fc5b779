-- ===== src/Task/Lifecycle/Panics.antt =====
-- Where the assertions of maitake/src/task/state.rs and maitake/src/task.rs fail.
use wasm_kernel.Base.{◌<◌, ◌≡◌, ◌⊎◌, ◌↔◌, ◌≢◌, Bool, true, false, returned, panicked, arith}
use wasm_kernel.Task.Word.{State, JoinWakerState}
use wasm_kernel.Task.Count.{to_word-le}
use wasm_kernel.Task.Step
use wasm_kernel.Task.World
use wasm_kernel.Task.World.{World, holders, spawn}
use wasm_kernel.Task.Lifecycle.{Fits, Reach}
use wasm_kernel.Task.Lifecycle.Keeps.{Reach-Inv}

-- What the assertions of `has_join_waker` refuse: a waker that is still marked as woken, or one that
-- is there with no join handle.
abbrev pub Misfit : State → Type 0
Misfit s =
    (s.join_waker ≡ JoinWakerState.woken)
    ⊎ ((s.join_waker ≢ JoinWakerState.empty) × (s.has_join_handle ≡ false))

module _ {debug : Bool} {w : World} (r : Reach debug spawn w) (fits : Fits w) where
  ref_returns :
      0 < holders w
      → (World.wake_by_ref debug w ≢ panicked)
        × (World.clone_ref debug w ≢ panicked)
        × (World.cancel debug w ≢ panicked)
  unfolding World.wake_by_ref World.clone_ref World.cancel Step.wake_by_ref Step.clone_ref
      Step.fetch_clone_ref Step.cancel
  ref_returns h = let inv = Reach-Inv r in ground (arith, to_word-le w.cell fits)

  drop_returns :
      (0 < w.held → World.drop_held debug w ≢ panicked)
      × (0 < w.spinning → World.stop_spinning debug w ≢ panicked)
  unfolding World.drop_held World.stop_spinning World.drop_ref World.deallocate Step.fetch_drop_ref
  drop_returns = let inv = Reach-Inv r in ground arith

  wake_by_val_panics :
      0 < w.held
      → (World.wake_by_val debug w ≡ panicked)
        ↔ ((debug ≡ true) × (holders w ≡ 1) × ((w.cell.completed ≡ true) ⊎ (w.cell.woken ≡ true)))
  unfolding World.wake_by_val Step.wake_by_val Step.clone_ref Step.drop_ref Step.fetch_drop_ref
      World.deallocate World.drop_ref
  wake_by_val_panics h = let inv = Reach-Inv r in (ground arith, ground arith)

  start_panics :
      0 < w.queued
      → (World.start debug w ≡ panicked)
        ↔ ((debug ≡ true) × (w.cell.canceled ≡ true) × Misfit w.cell)
  unfolding World.start World.drop_ref World.deallocate Step.start_poll Step.has_join_waker
      Step.fetch_drop_ref
  start_panics h = let inv = Reach-Inv r in (ground arith, ground arith)

  finish_panics :
      (completed : Bool)
      → 0 < w.polled
      → (World.finish debug completed w ≡ panicked)
        ↔ ((debug ≡ true) × (completed ≡ true) × Misfit w.cell)
  unfolding World.finish World.drop_ref World.deallocate Step.end_poll Step.has_join_waker
      Step.fetch_drop_ref
  finish_panics completed h = let inv = Reach-Inv r in (ground arith, ground arith)

-- When the operations panic, on a task that is reached and whose count is not at its last value, each
-- where it has a reference of its kind. Waking by reference, cloning, canceling, dropping a
-- reference and ending the wait for the join waker never panic, in either build. Waking by value
-- panics exactly if debug assertions are on, the waker is the last reference, and the task is
-- completed or marked as woken already, since the count is then taken down twice. Starting a poll
-- panics exactly if debug assertions are on, the task is canceled, and its join waker is marked as
-- woken, or is there with no join handle; ending a poll exactly if debug assertions are on, the
-- future is ready, and the join waker is like that.
pub panics_exactly :
    {debug : Bool} {w : World}
    → Reach debug spawn w
    → Fits w
    → (0 < holders w
        → (World.wake_by_ref debug w ≢ panicked)
          × (World.clone_ref debug w ≢ panicked)
          × (World.cancel debug w ≢ panicked))
      × (0 < w.held → World.drop_held debug w ≢ panicked)
      × (0 < w.spinning → World.stop_spinning debug w ≢ panicked)
      × (0 < w.held
          → (World.wake_by_val debug w ≡ panicked) ↔ (
              (debug ≡ true)
              × (holders w ≡ 1)
              × ((w.cell.completed ≡ true) ⊎ (w.cell.woken ≡ true))))
      × (0 < w.queued
          → (World.start debug w ≡ panicked)
            ↔ ((debug ≡ true) × (w.cell.canceled ≡ true) × Misfit w.cell))
      × ((completed : Bool)
          → 0 < w.polled
          → (World.finish debug completed w ≡ panicked)
            ↔ ((debug ≡ true) × (completed ≡ true) × Misfit w.cell))
panics_exactly r f = (
  ref_returns r f,
  (drop_returns r f).0,
  (drop_returns r f).1,
  wake_by_val_panics r f,
  start_panics r f,
  finish_panics r f,
)

-- With debug assertions, where a join handle is dropped after it has registered a waker, and its
-- future then completes, `end_poll` panics, whatever the rest of the state is.
pub dropped_handle_panics :
    (s s' : State)
    → s.join_waker ≡ JoinWakerState.waiting
    → Step.drop_join_handle true s ≡ returned s'
    → Step.end_poll true true s' false ≡ panicked
unfolding Step.drop_join_handle Step.end_poll Step.has_join_waker
dropped_handle_panics s s' j e = ground arith
