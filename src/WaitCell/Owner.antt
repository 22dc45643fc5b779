-- ===== src/WaitCell/Owner.antt =====
-- Who owns the waker of a cell.
use mathlib.Core.Option.{none}
use wasm_kernel.Base.{ℕ, ◌≡◌, ◌≢◌, ◌⊎◌, Bool, true, false}
use wasm_kernel.WaitCell.State.{waiting}
use wasm_kernel.WaitCell.Threads.{
  Phase, Cell, idle, clearing, registering, stored, failed, unwinding, taking, releasing,
}

pub data Place : Type 0 where
  outside : Place
  polling : Place
  waking : Place

abbrev pub place : Phase → Place
place idle = outside
place clearing = outside
place (registering w) = polling
place stored = polling
place (failed a) = polling
place (unwinding a w) = polling
place taking = waking
place (releasing w) = waking

-- The thread has taken the waker out of the cell.
abbrev pub emptied : Phase → Bool
emptied (unwinding a w) = true
emptied (releasing w) = true
emptied _ = false

abbrev pub Free : Cell → Type 0
Free t =
    (t.state.registering ≡ false)
    × (t.state.waking ≡ true → t.state.closed ≡ true)
    × ((t.waker ≡ none) ⊎ (t.state ≡ waiting))
    × ((j : ℕ) → place (t.phase j) ≡ outside)

abbrev pub Owns : ℕ → Cell → Type 0
Owns k t =
    (emptied (t.phase k) ≡ true → t.waker ≡ none) × ((j : ℕ) → j ≢ k → place (t.phase j) ≡ outside)

-- Nobody touches the waker, or one thread does, and the word says in which of two ways.
pub data Owner (t : Cell) : Type 0 where
  free : Free t → Owner t
  poller : (k : ℕ) → t.state.registering ≡ true → place (t.phase k) ≡ polling → Owns k t → Owner t
  waker :
      (k : ℕ)
      → t.state.registering ≡ false
      → t.state.waking ≡ true
      → place (t.phase k) ≡ waking
      → Owns k t
      → Owner t
