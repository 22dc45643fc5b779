-- ===== src/Buddy/Alloc.antt =====
-- `alloc_inner`: the first free list that has a block, from the order of the request on, and the
-- block split down to that order.
use wasm_kernel.Base.{
  ℕ, zero, suc, ◌+◌, ◌-◌, ◌/◌, ◌%◌, Bool, ◌==◌, ltb, leb, if◌then◌else◌, List, [], ◌∷◌, Outcome,
  returned, panicked, ◌>>=◌, ◌>>◌, assert, debug_assert, update,
}
use mathlib.Core.Option.{Option, none, some}
use wasm_kernel.Memory.Math.{usize_mod}
use wasm_kernel.Buddy.Heap.{
  Free, Alloc, Layout, offset, size_for_order, order_for, split_back, make_busy,
}

-- `List::pop_back`: what stays, and the last.
unfoldable pub pop_back {ℓ} : {A : Type ℓ} → List A → Option (List A × A)
pop_back [] = none
pop_back (x ∷ xs) = elim (pop_back xs) [
  | none ↦ some ([], x)
  | some (rest, last) ↦ some (x ∷ rest, last)
]

-- The loop of `split_down`: `steps` is how far the order is above the target, `order` the target.
-- Each round halves the block and puts its upper half on the list below.
module _ (debug : Bool) (vm_offset order : ℕ) where
  unfoldable pub split_loop : ℕ → ℕ → Free → (ℕ → List Free) → Outcome (Free × (ℕ → List Free))
  split_loop zero size block lists = returned (block, lists)
  split_loop (suc steps) size block lists =
      split_back debug block (size / 2) vm_offset >>= λ (lower, upper). elim upper [
        | none ↦ panicked
        | some new_block ↦
            split_loop steps (size / 2) lower
              (update lists (order + steps) (new_block ∷ lists (order + steps)))
      ]

-- `split_down` from `order + steps` to `order`
unfoldable pub split_down :
    Bool → Alloc → ℕ → ℕ → Free → (ℕ → List Free) → Outcome (Free × (ℕ → List Free))
split_down debug a order steps block lists = offset debug a >>= λ vm_offset.
    (debug_assert debug (block.meta.size == size_for_order a (order + steps))
      >> split_loop debug vm_offset order steps block.meta.size block lists)

-- The block that was found is split down, made busy and counted. (`split_down` reads the offset only
-- where it splits.)
unfoldable pub take_block : Bool → Alloc → ℕ → ℕ → List Free → Free → Outcome (Alloc × Option Free)
take_block debug a order idx rest block =
    let lists = update a.free_lists (order + idx) rest in
    (if ltb 0 idx then split_down debug a order idx block lists else returned (block, lists))
    >>= λ (found, lists'). returned (
      record a {
        free_lists = lists';
        allocated_size = (a.allocated_size + found.meta.size) % usize_mod;
      },
      some (make_busy found),
    )

-- The search through the `left` lists from `order + idx` on.
unfoldable pub alloc_scan : Bool → Alloc → ℕ → ℕ → ℕ → Outcome (Alloc × Option Free)
alloc_scan debug a order zero idx = returned (a, none)
alloc_scan debug a order (suc left) idx = elim (pop_back (a.free_lists (order + idx))) [
  | none ↦ alloc_scan debug a order left (suc idx)
  | some (rest, block) ↦ take_block debug a order idx rest block
]

unfoldable pub alloc_inner : Bool → Alloc → Layout → Outcome (Alloc × Option Free)
alloc_inner debug a layout = order_for debug a layout >>= λ found. elim found [
  | none ↦ returned (a, none)
  | some order ↦ (assert (leb order a.lists) >> alloc_scan debug a order (a.lists - order) 0)
]
