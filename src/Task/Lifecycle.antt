-- ===== src/Task/Lifecycle.antt =====
-- Every operation on a task, by any thread in any order: maitake/src/task.rs under the run queue of
-- maitake/src/scheduler.rs.
pub mod Keeps
pub mod Safety
pub mod Cancel
pub mod Panics
use wasm_kernel.Base.{ℕ, ◌+◌, ◌≤◌, ◌<◌, ◌≡◌, Bool, true, false, bit, Outcome, returned}
use wasm_kernel.Task.Word.{JoinWakerState, ref_mod}
use wasm_kernel.Task.World
use wasm_kernel.Task.World.{World, holders, spawn}

-- The count stays in its bits: `fetch_add` on it wraps, and the code rules that out by an argument
-- on the number of references that a program can hold.
abbrev pub Fits : World → Type 0
Fits w = w.cell.refs + 1 < ref_mod

-- An operation runs on a reference that exists, and returns.
pub data Move (debug : Bool) (w w' : World) : Type 0 where
  wake_by_val : 0 < w.held → World.wake_by_val debug w ≡ returned w' → Move debug w w'
  wake_by_ref : 0 < holders w → World.wake_by_ref debug w ≡ returned w' → Move debug w w'
  clone_ref : 0 < holders w → World.clone_ref debug w ≡ returned w' → Move debug w w'
  drop_held : 0 < w.held → World.drop_held debug w ≡ returned w' → Move debug w w'
  cancel : 0 < holders w → World.cancel debug w ≡ returned w' → Move debug w w'
  start : 0 < w.queued → World.start debug w ≡ returned w' → Move debug w w'
  finish :
      (completed : Bool)
      → 0 < w.polled
      → World.finish debug completed w ≡ returned w'
      → Move debug w w'
  stop_spinning : 0 < w.spinning → World.stop_spinning debug w ≡ returned w' → Move debug w w'
  create_join_handle : 0 < w.held → World.create_join_handle debug w ≡ returned w' → Move debug w w'
  try_join : 0 < w.held → World.try_join debug w ≡ returned w' → Move debug w w'
  set_join_waker_registered :
      0 < w.held → World.set_join_waker_registered debug w ≡ returned w' → Move debug w w'
  drop_join_handle : 0 < w.held → World.drop_join_handle debug w ≡ returned w' → Move debug w w'

pub data Reach (debug : Bool) (s : World) : World → Type 0 where
  here : Reach debug s s
  next : {w w' : World} → Reach debug s w → Fits w → Move debug w w' → Reach debug s w'

-- `owed` references are about to be dropped, and belong to no holder any more.
pub record Counted (owed : ℕ) (w : World) : Type 0 where
  pub live : w.freed ≡ false → (w.cell.refs ≡ holders w + owed) × (0 < holders w + owed)
  pub dead : w.freed ≡ true → holders w + owed ≡ 0
  pub once : w.queued + w.polled ≤ 1
  pub polling : w.polled ≡ bit w.cell.polling
  pub woken : 0 < w.queued → w.cell.woken ≡ true
  pub running : 0 < w.queued + w.polled → w.cell.completed ≡ false
  pub wakeful :
      w.cell.woken ≡ true
      → w.cell.completed ≡ false
      → w.cell.canceled ≡ false
      → 0 < w.queued + w.polled

abbrev pub Inv : World → Type 0
Inv = Counted 0
