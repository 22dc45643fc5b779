-- ===== src/WaitCell/Examples.antt =====
-- Runs of threads on a `WaitCell`.
use mathlib.Core.Option.{some}
use wasm_kernel.Base.{ℕ, ◌≡◌, ◌≢◌, refl, true, false, update, panicked, arith}
use wasm_kernel.WaitCell.State.{State, begin_poll, may_take, mark, unwind, is_closed}
use wasm_kernel.WaitCell.Threads.{Cell, new, idle, registering, stored, Step, Reach}
use wasm_kernel.WaitCell.Owner.{outside, polling, waking, place}
use wasm_kernel.WaitCell.Exclusion.{exclusive}

-- Thread 0 is about to park with waker 7, and thread 1 has woken the cell meanwhile.
abbrev begun : Cell
begun = record new {
  state = record new.state { registering = true };
  phase = update new.phase 0 (registering 7);
}

abbrev stored_waker : Cell
stored_waker = record begun { waker = some 7; phase = update begun.phase 0 stored }

abbrev raced : Cell
raced = record stored_waker {
  state = record stored_waker.state { waking = true; woken = true };
  phase = update stored_waker.phase 1 idle;
}

Reach-raced : Reach new raced
unfolding begin_poll may_take mark
Reach-raced =
    Reach.next {t = stored_waker} 1
      (Reach.next {t = begun} 0 (Reach.next 0 Reach.here (Step.begin 7 refl refl refl))
        (Step.store 7 refl refl))
      (Step.leave false refl refl refl)

exclusive_example :
    (place (raced.phase 0) ≢ outside → place (raced.phase 0) ≢ outside → ◌≡◌ {A = ℕ} 0 0)
    × (place (raced.phase 0) ≡ polling → raced.state.registering ≡ true)
    × (place (raced.phase 0) ≡ waking
        → (raced.state.waking ≡ true) × (raced.state.registering ≡ false))
exclusive_example = exclusive 0 0 Reach-raced

-- A cell that is closed while nobody registers does not say that it is closed.
closed_unseen : (s : State) → is_closed (record (mark true s) { waking = false }) ≡ false
unfolding mark is_closed
closed_unseen s = ground arith

-- With two pollers, one of which takes WOKEN away while the other lets go, the assertion fails.
second_poller_panics : unwind true raced.state (record raced.state { woken = false }) ≡ panicked
unfolding unwind
second_poller_panics = refl
