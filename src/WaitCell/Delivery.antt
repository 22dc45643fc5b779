-- ===== src/WaitCell/Delivery.antt =====
-- A wakeup of a `WaitCell` reaches the waker that is in it.
use wasm_kernel.Base.{ℕ, zero, suc, ◌≡◌, ◌≢◌, ◌⊎◌, true, ◌∷◌}
use wasm_kernel.WaitCell.State.{State}
use wasm_kernel.WaitCell.Threads.{Cell, idle, Step}
use wasm_kernel.WaitCell.Owner.{Owner}

-- Thread `i` is in the middle of a call, has a step to take, and whatever steps of its own it takes,
-- one of the next `n` wakes `w`: they are all taken before it is idle again, and wakers that were
-- woken before do not count.
abbrev pub Delivers : ℕ → ℕ → ℕ → Cell → Type 0
Delivers zero i w t = ⊥
Delivers (suc n) i w t =
    (t.phase i ≢ idle)
    × ((u : Cell) × Step i t u)
    × ((u : Cell) → Step i t u → (u.woken ≡ w ∷ t.woken) ⊎ Delivers n i w u)

-- The word is not the one that the second exchange expects.
abbrev pub Signalled : State → Type 0
Signalled s = (s.woken ≡ true) ⊎ (s.closed ≡ true)
