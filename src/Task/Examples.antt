-- ===== src/Task/Examples.antt =====
-- Runs of a task, and the theorems at them.
use wasm_kernel.Base.{
  ◌⊎◌, inl, ℕ, ◌+◌, ◌-◌, ◌%◌, ◌≤◌, ◌<◌, ◌≡◌, ◌≢◌, ◌↔◌, refl, Bool, true, false, returned, panicked,
  arith,
}
use wasm_kernel.Task.Word.{State, JoinWakerState, to_word, from_word, ref_mod}
use wasm_kernel.Task.Step
use wasm_kernel.Task.Step.{fetch_clone_ref, fetch_drop_ref}
use wasm_kernel.Task.Count.{fetch_clone_ref_overflow}
use wasm_kernel.Task.World
use wasm_kernel.Task.World.{World, holders, spawn}
use wasm_kernel.Task.Lifecycle.{Move, Reach, here, next}
use wasm_kernel.Task.Lifecycle.Safety.{queued_once, freed_iff, wake_not_lost}
use wasm_kernel.Task.Lifecycle.Cancel.{canceled_idle_never_polled}
use wasm_kernel.Task.Lifecycle.Panics.{Misfit, panics_exactly}

-- The state of a task that is polled, woken, and so on; `refs` references.
abbrev state : Bool → Bool → Bool → Bool → ℕ → State
state polling woken completed canceled refs = record {
  polling = polling;
  woken = woken;
  completed = completed;
  canceled = canceled;
  has_join_handle = false;
  join_waker = JoinWakerState.empty;
  has_output = completed;
  refs = refs;
}

abbrev world : State → ℕ → ℕ → ℕ → World
world s queued polled held = record {
  cell = s;
  queued = queued;
  polled = polled;
  spinning = 0;
  held = held;
  freed = false;
}

-- Spawned with a waker held outside, then polled, then woken during the poll.
abbrev cloned : World
cloned = world (state false true false false 2) 1 0 1

abbrev polled : World
polled = world (state true false false false 2) 0 1 1

abbrev polled_woken : World
polled_woken = world (state true true false false 2) 0 1 1

-- Completed, with the waker left.
abbrev completed : World
completed = world (state false false true false 1) 0 0 1

module _ (debug : Bool) where
  Reach-cloned : Reach debug spawn cloned
  unfolding spawn World.clone_ref Step.fetch_clone_ref to_word
  Reach-cloned = next here (omega arith) (Move.clone_ref (omega arith) refl)

  Reach-polled : Reach debug spawn polled
  unfolding World.start Step.start_poll
  Reach-polled = next Reach-cloned (omega arith) (Move.start (omega arith) refl)

  Reach-polled_woken : Reach debug spawn polled_woken
  unfolding World.wake_by_ref Step.wake_by_ref
  Reach-polled_woken = next Reach-polled (omega arith) (Move.wake_by_ref (omega arith) refl)

Reach-completed : Reach true spawn completed
unfolding World.finish Step.end_poll World.drop_ref
Reach-completed = next (Reach-polled true) (omega arith) (Move.finish true (omega arith) refl)

queued_once_example : cloned.queued + cloned.polled ≤ 1
queued_once_example = queued_once (Reach-cloned true)

freed_iff_example :
    ((completed.freed ≡ true) ↔ (holders completed ≡ 0))
    × (completed.freed ≡ false → completed.cell.refs ≡ holders completed)
freed_iff_example = freed_iff Reach-completed

wake_not_lost_example :
    (0 < polled_woken.queued + polled_woken.polled)
    × (polled_woken.cell.woken ≡ true)
    × (polled_woken.freed ≡ false)
unfolding World.wake_by_ref Step.wake_by_ref
wake_not_lost_example =
    wake_not_lost {w = polled} {w' = polled_woken} (Reach-polled true) (omega arith) refl refl
      (inl (omega arith, refl))

-- An idle task that is canceled; a waker then wakes it by reference.
abbrev idle : World
idle = world (state false false false false 1) 0 0 1

abbrev canceled : World
canceled = world (state false true false true 1) 0 0 1

canceled_idle_never_polled_example : canceled.queued + canceled.polled ≡ 0
unfolding World.cancel Step.cancel World.wake_by_ref Step.wake_by_ref
canceled_idle_never_polled_example =
    canceled_idle_never_polled true idle {w' = canceled} {later = canceled} refl refl refl refl
      (next here (omega arith) (Move.wake_by_ref (omega arith) refl))

panics_exactly_example :
    (0 < holders cloned
      → (World.wake_by_ref true cloned ≢ panicked)
        × (World.clone_ref true cloned ≢ panicked)
        × (World.cancel true cloned ≢ panicked))
    × (0 < cloned.held → World.drop_held true cloned ≢ panicked)
    × (0 < cloned.spinning → World.stop_spinning true cloned ≢ panicked)
    × (0 < cloned.held
        → (World.wake_by_val true cloned ≡ panicked) ↔ (
            (true ≡ true)
            × (holders cloned ≡ 1)
            × ((cloned.cell.completed ≡ true) ⊎ (cloned.cell.woken ≡ true))))
    × (0 < cloned.queued
        → (World.start true cloned ≡ panicked)
          ↔ ((true ≡ true) × (cloned.cell.canceled ≡ true) × Misfit cloned.cell))
    × ((completed : Bool)
        → 0 < cloned.polled
        → (World.finish true completed cloned ≡ panicked)
          ↔ ((true ≡ true) × (completed ≡ true) × Misfit cloned.cell))
panics_exactly_example = panics_exactly (Reach-cloned true) (omega arith)

-- A task that is polled, with a join handle whose waker is registered.
abbrev joined : Bool → State
joined handle = record (state true false false false 2) {
  has_join_handle = handle;
  join_waker = JoinWakerState.waiting;
}

abbrev last_count : State
last_count = record (state false false false false (ref_mod - 1)) { has_output = false }

fetch_clone_ref_overflow_example :
    ((fetch_clone_ref last_count ≡ panicked) ↔ (0 < to_word last_count % 256))
    × ((to_word last_count % 256 ≡ 0)
        ↔ (fetch_clone_ref last_count ≡ returned (record last_count { refs = 0 })))
fetch_clone_ref_overflow_example = fetch_clone_ref_overflow last_count refl

from_word_example : from_word 0x305 ≡ record (state true false true false 3) { has_output = false }
unfolding from_word
from_word_example = refl
