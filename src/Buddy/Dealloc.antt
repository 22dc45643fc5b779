-- ===== src/Buddy/Dealloc.antt =====
-- `dealloc_inner`: the freed block, merged with its buddy as long as that is free.
use wasm_kernel.Base.{
  ℕ, zero, suc, ◌+◌, ◌-◌, ◌/◌, ◌%◌, Bool, ◌==◌, ltb, leb, if◌then◌else◌, List, [], ◌∷◌, Outcome,
  returned, panicked, ◌>>=◌, ◌>>◌, assert, debug_assert, update,
}
use mathlib.Core.Option.{Option, none, some}
use wasm_kernel.Memory.Math.{usize_mod, pow2}
use wasm_kernel.Memory.Region.{RegionKind}
use wasm_kernel.Buddy.Heap.{
  Free, Alloc, Layout, offset, size_for, size_for_order, order_for, new_free, merge, magic_free,
  vaddr,
}

-- `n ^ (1 << k)`
unfoldable pub flip_bit : ℕ → ℕ → ℕ
flip_bit k n = if n / pow2 k % 2 == 0 then n + pow2 k else n - pow2 k

-- `List::remove` of a header that the list has, known by its address, and what stays; `none` is that
-- the list has no such header.
unfoldable pub remove_at : ℕ → ℕ → List Free → Option (Free × List Free)
remove_at vm_offset addr [] = none
remove_at vm_offset addr (f ∷ list) =
    let rest = remove_at vm_offset addr list in
    if vaddr vm_offset f == addr
    then some (f, list)
    else elim rest [ none ↦ none | some (found, list') ↦ some (found, f ∷ list') ]

-- What the memory holds in the round for an order, since `take_buddy` reads it at an address that may
-- be anybody's: `header` is what it reads as a header, and `stray` what `List::remove` makes of one
-- that is not on the list it is removed from. Its links may be those of another list or any data,
-- so the result and what becomes of all the lists are left open.
pub record Memory : Type 0 where
  pub header : ℕ → ℕ → Free
  pub stray : ℕ → ℕ → (ℕ → List Free) → Outcome (Option Free × (ℕ → List Free))

-- The address that `take_buddy` looks at.
unfoldable pub buddy_addr : ℕ → ℕ → ℕ → ℕ
unfolding flip_bit
buddy_addr base order addr =
    (base + flip_bit order ((addr + usize_mod - base) % usize_mod)) % usize_mod

-- `take_buddy` from where it has the buddy's address: the buddy, if it is taken, and the lists after
-- that. `is_maybe_free` compares the magic of what stands there.
unfoldable pub take_at : Bool → Memory → Alloc → ℕ → ℕ → ℕ → Outcome (Option Free × (ℕ → List Free))
take_at debug mem a vm_offset order buddy =
    if (mem.header order buddy).magic == magic_free
    then (debug_assert debug ((mem.header order buddy).meta.size == size_for_order a order)
        >> elim (remove_at vm_offset buddy (a.free_lists order)) [
          | none ↦ mem.stray order buddy a.free_lists
          | some (found, list') ↦ returned (some found, update a.free_lists order list')
        ])
    else returned (none, a.free_lists)

unfoldable pub take_buddy :
    Bool → Memory → Alloc → ℕ → Free → ℕ → Outcome (Option Free × (ℕ → List Free))
take_buddy debug mem a vm_offset block order =
    let addr = vaddr vm_offset block in
    if a.base_vaddr == usize_mod - 1
    then returned (none, a.free_lists)
    else (debug_assert debug (leb a.base_vaddr addr)
        >> debug_assert debug (
            ltb (a.base_vaddr + flip_bit order ((addr + usize_mod - a.base_vaddr) % usize_mod))
              usize_mod)
        >> take_at debug mem a vm_offset order (buddy_addr a.base_vaddr order addr))

-- The loop over the `left` lists from `order` on; `size` is what is freed. Past the last list is the
-- `unreachable!`.
unfoldable pub merge_loop : Bool → Memory → ℕ → ℕ → ℕ → ℕ → Free → Alloc → Outcome Alloc
merge_loop debug mem vm_offset size zero order block a = panicked
merge_loop debug mem vm_offset size (suc left) order block a =
    take_buddy debug mem a vm_offset block order >>= λ (found, lists). elim found [
      | none ↦ returned (record a {
        free_lists = update lists order (block ∷ lists order);
        allocated_size = (a.allocated_size + usize_mod - size) % usize_mod;
      })
      | some buddy ↦
          (if ltb (vaddr vm_offset buddy) (vaddr vm_offset block)
            then merge debug buddy block
            else merge debug block buddy)
          >>= λ merged.
              merge_loop debug mem vm_offset size left (suc order) merged
                (record a { free_lists = lists })
    ]

-- The block of a size and order, put back.
unfoldable pub dealloc_block : Bool → Memory → Alloc → ℕ → ℕ → ℕ → Outcome (Option Alloc)
dealloc_block debug mem a paddr size order = offset debug a >>= λ vm_offset.
    new_free debug (record { base = paddr; size = size; kind = RegionKind.free }) vm_offset
    >>= λ block.
        (assert (leb order a.lists)
          >> merge_loop debug mem vm_offset size (a.lists - order) order block a
          >>= λ a'. returned (some a'))

-- `dealloc_inner` from where it has looked for the order; `none` is the error of a size that the heap
-- does not have.
unfoldable pub dealloc_order :
    Bool → Memory → Alloc → ℕ → Layout → Option ℕ → Outcome (Option Alloc)
dealloc_order debug mem a paddr layout none = returned none
dealloc_order debug mem a paddr layout (some order) = elim (size_for a layout) [
  | none ↦ panicked
  | some size ↦ dealloc_block debug mem a paddr size order
]

unfoldable pub dealloc_inner : Bool → Memory → Alloc → ℕ → Layout → Outcome (Option Alloc)
dealloc_inner debug mem a paddr layout =
    order_for debug a layout >>= λ order. dealloc_order debug mem a paddr layout order
