-- ===== src/Task/World.antt =====
-- A task, the references to it, and the operations of maitake/src/task.rs and
-- maitake/src/scheduler.rs that move them: each operation is made of the steps of `StateCell`.
use wasm_kernel.Base.{
  ℕ, ◌+◌, ◌-◌, Bool, true, false, ◌==◌, if◌then◌else◌, Outcome, returned, ◌>>=◌, ◌>>◌, debug_assert,
}
use wasm_kernel.Task.Word.{State, JoinWakerState}
use wasm_kernel.Task.Step
use wasm_kernel.Task.Step.{OrDrop, ScheduleAction, StartPollAction, PollResult, is_waiting}

-- `queued` references are in a run queue, `polled` with a scheduler that polls the task, `spinning`
-- with one that waits in `wait_for_join_waker`, and `held` are wakers, join handles and other
-- `TaskRef`s.
pub record World : Type 0 where
  pub cell : State
  pub queued : ℕ
  pub polled : ℕ
  pub spinning : ℕ
  pub held : ℕ
  pub freed : Bool

abbrev pub holders : World → ℕ
holders w = w.queued + w.polled + w.spinning + w.held

module _ (debug : Bool) where
  -- `Task::deallocate`
  unfoldable pub deallocate : World → Outcome World
  deallocate w = debug_assert debug (w.cell.refs == 0) >> returned (record w { freed = true })

  -- `Schedulable::drop_ref`, and `TaskRef`'s `drop`
  unfoldable pub drop_ref : World → Outcome World
  unfolding deallocate Step.fetch_drop_ref
  drop_ref w =
      let (s, last) = Step.fetch_drop_ref w.cell in
      let freed = deallocate (record w { cell = s }) in
      if last then freed else returned (record w { cell = s })

  -- `Schedulable::wake_by_val`: the waker that wakes is one of the `held`.
  unfoldable pub wake_by_val : World → Outcome World
  unfolding drop_ref
  wake_by_val w = Step.wake_by_val debug w.cell >>= λ (s, act). elim act [
    | OrDrop.drop ↦ drop_ref (record w { cell = s; held = w.held - 1 })
    | OrDrop.action ScheduleAction.enqueue ↦
        drop_ref (record w { cell = s; queued = w.queued + 1; held = w.held - 1 })
    | OrDrop.action ScheduleAction.none ↦ returned (record w { cell = s; held = w.held - 1 })
  ]

  -- `Schedulable::wake_by_ref`
  unfoldable pub wake_by_ref : World → Outcome World
  wake_by_ref w = Step.wake_by_ref debug w.cell >>= λ (s, act). elim act [
    | ScheduleAction.enqueue ↦ returned (record w { cell = s; queued = w.queued + 1 })
    | ScheduleAction.none ↦ returned (record w { cell = s })
  ]

  -- `clone_waker`, `TaskRef::clone`
  unfoldable pub clone_ref : World → Outcome World
  clone_ref w =
      Step.fetch_clone_ref w.cell >>= λ s. returned (record w { cell = s; held = w.held + 1 })

  -- `drop_waker`, and `drop` of a `TaskRef` that is held
  unfoldable pub drop_held : World → Outcome World
  unfolding drop_ref
  drop_held w = drop_ref (record w { held = w.held - 1 })

  -- `TaskRef::cancel`
  unfoldable pub cancel : World → Outcome World
  unfolding wake_by_ref Step.cancel
  cancel w =
      let (s, canceled) = Step.cancel w.cell in
      if canceled then wake_by_ref (record w { cell = s }) else returned (record w { cell = s })

  -- `tick_n` takes the task out of the run queue, and `Task::poll` calls `start_poll`. Where the
  -- poll is over, `tick_n` drops the reference, after the wait for the join waker if there is one.
  unfoldable pub start : World → Outcome World
  unfolding drop_ref
  start w = Step.start_poll debug w.cell false >>= λ (s, should_wait, act).
      let dequeued = record w { cell = s; queued = w.queued - 1 } in
      elim act [
        | StartPollAction.poll ↦ returned (record dequeued { polled = w.polled + 1 })
        | StartPollAction.canceled _ ↦
            if should_wait
            then returned (record dequeued { spinning = w.spinning + 1 })
            else drop_ref dequeued
        | StartPollAction.cant_poll ↦ drop_ref dequeued
      ]

  -- The end of `Task::poll`, where the future is ready or not, and of `tick_n`.
  unfoldable pub finish : Bool → World → Outcome World
  unfolding drop_ref
  finish completed w = Step.end_poll debug completed w.cell false >>= λ (s, should_wait, act).
      let polled = record w { cell = s; polled = w.polled - 1 } in
      elim act [
        | PollResult.pending_schedule ↦ returned (record polled { queued = w.queued + 1 })
        | _ ↦
            if should_wait
            then returned (record polled { spinning = w.spinning + 1 })
            else drop_ref polled
      ]

  -- `wait_for_join_waker` succeeds, and the reference is dropped.
  unfoldable pub stop_spinning : World → Outcome World
  unfolding drop_ref
  stop_spinning w =
      let s = record (w.cell) { join_waker = JoinWakerState.woken } in
      drop_ref (record w { cell = s; spinning = w.spinning - 1 })

  -- The join handle's operations change flags alone.
  unfoldable pub create_join_handle : World → Outcome World
  create_join_handle w =
      Step.create_join_handle debug w.cell >>= λ s. returned (record w { cell = s })

  unfoldable pub try_join : World → Outcome World
  try_join w = Step.try_join debug w.cell >>= λ (s, act). returned (record w { cell = s })

  unfoldable pub set_join_waker_registered : World → Outcome World
  set_join_waker_registered w =
      Step.set_join_waker_registered debug w.cell >>= λ s. returned (record w { cell = s })

  unfoldable pub drop_join_handle : World → Outcome World
  drop_join_handle w = Step.drop_join_handle debug w.cell >>= λ s. returned (record w { cell = s })

-- `spawn_inner`: the new task is marked as woken and put into the run queue; `held` references,
-- such as a join handle's, exist beside it.
unfoldable pub spawn : World
unfolding Step.new Step.set_woken
spawn = record {
  cell = Step.set_woken Step.new;
  queued = 1;
  polled = 0;
  spinning = 0;
  held = 0;
  freed = false;
}
