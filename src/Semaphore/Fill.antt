-- ===== src/Semaphore/Fill.antt =====
-- One locked section of `add_permits_locked`: what it keeps, and what it takes.
use wasm_kernel.Base.{
  NotIn, Distinct, All, update, ℕ, ◌+◌, ◌-◌, ◌≤◌, ◌<◌, ◌≡◌, refl, min, true, false, List, [], ◌∷◌,
  length, arith,
}
use mathlib.Core.Option.{Option, none}
use wasm_kernel.Semaphore.Queue.{room_left, fill}

-- Every waiter of the queue still needs permits.
abbrev pub Waits : (ℕ → ℕ) → List ℕ → Type 0
Waits remaining queue = All (λ i. 0 < remaining i) queue

-- What the waiters of the queue still need, together.
unfoldable pub deficit : (ℕ → ℕ) → List ℕ → ℕ
deficit remaining [] = 0
deficit remaining (i ∷ queue) = remaining i + deficit remaining queue

pub deficit-update :
    (i n : ℕ) (remaining : ℕ → ℕ) (queue : List ℕ)
    → NotIn i queue
    → deficit (update remaining i n) queue ≡ deficit remaining queue
unfolding deficit
deficit-update i n remaining [] h = refl
deficit-update i n remaining (j ∷ queue) h = ground (arith, deficit-update i n remaining queue)

pub Waits-update :
    (i n : ℕ) (remaining : ℕ → ℕ) (queue : List ℕ)
    → NotIn i queue
    → Waits remaining queue
    → Waits (update remaining i n) queue
Waits-update i n remaining [] h w = tt
Waits-update i n remaining (j ∷ queue) h w = ground (arith, Waits-update i n remaining queue)

-- Permits are neither made nor lost: what is left over and what the waiters got is what came in.
pub fill-balance :
    (room : ℕ) (queue : List ℕ) (remaining : ℕ → ℕ) (waker : ℕ → Option ℕ) (permits : ℕ)
    → Distinct queue
    → let b = fill room queue remaining waker permits in
      b.permits + deficit remaining queue ≡ permits + deficit b.remaining b.queue
unfolding fill deficit
fill-balance room [] remaining waker permits d = refl
fill-balance room (i ∷ queue) remaining waker permits d =
    let left = remaining i - min (remaining i) permits in
    let permits' = permits - min (remaining i) permits in
    let room' = room_left (waker i) room in
    ground (
      arith,
      deficit-update i left remaining queue,
      fill-balance room' queue (update remaining i left) (update waker i none) permits',
    )

-- Who is left in the queue was in it, still waits, and nobody is in it twice.
pub fill-NotIn :
    (room : ℕ) (queue : List ℕ) (remaining : ℕ → ℕ) (waker : ℕ → Option ℕ) (permits j : ℕ)
    → NotIn j queue
    → NotIn j (fill room queue remaining waker permits).queue
unfolding fill
fill-NotIn room [] remaining waker permits j h = tt
fill-NotIn room (i ∷ queue) remaining waker permits j h =
    let left = remaining i - min (remaining i) permits in
    let permits' = permits - min (remaining i) permits in
    ground (
      arith,
      fill-NotIn (room_left (waker i) room) queue (update remaining i left) (update waker i none)
          permits' j,
    )

pub fill-Waits :
    (room : ℕ) (queue : List ℕ) (remaining : ℕ → ℕ) (waker : ℕ → Option ℕ) (permits : ℕ)
    → Distinct queue
    → Waits remaining queue
    → let b = fill room queue remaining waker permits in
      Distinct b.queue × Waits b.remaining b.queue
unfolding fill
fill-Waits room [] remaining waker permits d w = (tt, tt)
fill-Waits room (i ∷ queue) remaining waker permits d w =
    let left = remaining i - min (remaining i) permits in
    let permits' = permits - min (remaining i) permits in
    let room' = room_left (waker i) room in
    ground (
      arith,
      Waits-update i left remaining queue,
      fill-Waits room' queue (update remaining i left) (update waker i none) permits',
    )

-- A section that has room ends with the queue drained, or with no permits left, or has filled its
-- batch: then the queue is shorter by as many waiters.
pub fill_end :
    (room : ℕ) (queue : List ℕ) (remaining : ℕ → ℕ) (waker : ℕ → Option ℕ) (permits : ℕ)
    → let b = fill room queue remaining waker permits in
      (b.drained ≡ true → b.queue ≡ [])
      × (b.drained ≡ false → 0 < b.permits → length b.queue + room ≤ length queue)
      × (b.drained ≡ false → 0 < room → 0 < length queue)
unfolding fill
fill_end room [] remaining waker permits = ground arith
fill_end room (i ∷ queue) remaining waker permits =
    let left = remaining i - min (remaining i) permits in
    let permits' = permits - min (remaining i) permits in
    let room' = room_left (waker i) room in
    ground (arith, fill_end room' queue (update remaining i left) (update waker i none) permits')
