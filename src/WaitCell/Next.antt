-- ===== src/WaitCell/Next.antt =====
-- What a thread in the middle of a call on a `WaitCell` does next: each place leaves it one step.
use mathlib.Core.Option.{none, some}
use wasm_kernel.Base.{ℕ, ◌≡◌, ◌⊎◌, inl, inr, refl, update}
use wasm_kernel.WaitCell.State.{State, end_poll}
use wasm_kernel.WaitCell.Threads.{
  Phase, Cell, idle, clearing, registering, stored, failed, unwinding, taking, releasing, wake,
  displaced, Step,
}

-- The cell after the step, by the place before it.
abbrev pub After : ℕ → Cell → Phase → Cell → Type 0
After i t idle u = Unit
After i t clearing u = Unit
After i t (registering v) u = u ≡ record t {
  waker = some v;
  phase = update t.phase i stored;
  woken = wake (displaced v t.waker) t.woken;
}
After i t stored u =
    (end_poll t.state ≡ none)
    ⊎ ((a : State) × (end_poll t.state ≡ some a)
        × (u ≡ record t { phase = update t.phase i (failed a) }))
After i t (failed a) u =
    u ≡ record t { waker = none; phase = update t.phase i (unwinding a t.waker) }
After i t (unwinding a v) u = u.woken ≡ wake v t.woken
After i t taking u = u ≡ record t { waker = none; phase = update t.phase i (releasing t.waker) }
After i t (releasing v) u = u.woken ≡ wake v t.woken

pub Step-After : {i : ℕ} {t u : Cell} → Step i t u → After i t (t.phase i) u
Step-After (Step.begin w e b p) = rw e tt
Step-After (Step.reply r e b p) = rw e tt
Step-After (Step.see_woken e b p) = rw e tt
Step-After (Step.clear_woken e p) = rw e tt
Step-After (Step.store w e p) = rw e p
Step-After (Step.park e b p) = rw e (inl b)
Step-After (Step.fail a e b p) = rw e (inr (a, b, p))
Step-After (Step.take_back a e p) = rw e p
Step-After (Step.give_up a s w r e b p) = rw e (rw p refl)
Step-After (Step.lock close e b p) = rw e tt
Step-After (Step.leave close e b p) = rw e tt
Step-After (Step.take e p) = rw e p
Step-After (Step.release w e p) = rw e (rw p refl)
