-- ===== src/Buddy/Regions.antt =====
-- `add_region` and `push_block`: memory that is given to the allocator.
use wasm_kernel.Base.{
  ℕ, zero, suc, ◌+◌, ◌/◌, ◌%◌, min, Bool, not, ◌==◌, ltb, leb, if◌then◌else◌, ◌∷◌, Outcome,
  returned, panicked, ◌>>=◌, ◌>>◌, assert, debug_assert, update,
}
use mathlib.Core.Option.{Option, none, some}
use wasm_kernel.Memory.Math.{usize_mod, is_power_of_two, next_power_of_two}
use wasm_kernel.Memory.Address.{is_aligned, align_up}
use wasm_kernel.Memory.Region.{Region, RegionKind, kind_code, split_back}
use wasm_kernel.Buddy.Heap.{Free, Alloc, offset, order_for_size, new_free}

unfoldable pub prev_power_of_two : ℕ → ℕ
prev_power_of_two n = next_power_of_two (n / 2)

-- `push_block`; an order above the number of lists is a `todo!`, one equal to it no index.
unfoldable pub push_block : Bool → Alloc → Free → Outcome Alloc
push_block debug a block = order_for_size debug a block.meta.size >>= λ order.
    (assert (not (ltb a.lists order))
      >> assert (ltb order a.lists)
      >> debug_assert debug (ltb (a.heap_size + block.meta.size) usize_mod)
      >> returned (record a {
        free_lists = update a.free_lists order (block ∷ a.free_lists order);
        heap_size = (a.heap_size + block.meta.size) % usize_mod;
      }))

-- The base is rounded up to the least block's size; the size stays.
unfoldable pub align_region : Bool → Alloc → Region → Outcome Region
align_region debug a region = is_aligned debug region.base a.min_size >>= λ aligned.
    if aligned
    then returned region
    else (align_up debug region.base a.min_size >>= λ new_base.
        returned (record { base = new_base; size = region.size; kind = RegionKind.free }))

-- A size that is no power of two is split; a rest that is large enough is the next region. `size` is
-- the region's.
unfoldable pub split_region : Bool → Alloc → ℕ → Region → Outcome (Region × Option Region)
split_region debug a size region =
    if is_power_of_two size
    then returned (region, none)
    else (split_back debug region (prev_power_of_two size) >>= λ (first, rest). elim rest [
      | none ↦ panicked
      | some region2 ↦ returned (first, if leb a.min_size region2.size then some region2 else none)
    ])

-- The region becomes a block, and the heap's base at most its address.
unfoldable pub add_block : Bool → Alloc → Region → Outcome Alloc
add_block debug a region = offset debug a >>= λ vm_offset.
    (debug_assert debug (ltb (region.base + vm_offset) usize_mod)
      >> new_free debug region vm_offset
      >>= λ block.
          push_block debug
            (record a { base_vaddr = min a.base_vaddr ((region.base + vm_offset) % usize_mod) })
            block)

-- One round of `add_region`'s loop: the allocator and the next region.
unfoldable pub add_round : Bool → Alloc → Region → Outcome (Alloc × Option Region)
add_round debug a region = align_region debug a region >>= λ aligned.
    split_region debug a region.size aligned >>= λ (first, next).
    add_block debug a first >>= λ a'. returned (a', next)

-- The loop, on fuel; `none` says that the fuel ran out.
unfoldable pub region_loop : Bool → ℕ → Alloc → Region → Option (Outcome Alloc)
region_loop debug zero a region = none
region_loop debug (suc fuel) a region = elim (add_round debug a region) [
  | panicked ↦ some panicked
  | returned (a', none) ↦ some (returned a')
  | returned (a', some next) ↦ region_loop debug fuel a' next
]

-- `add_region`: `none` in the result is the error of a region that is not free.
unfoldable pub add_region : Bool → ℕ → Alloc → Region → Option (Outcome (Option Alloc))
add_region debug fuel a region =
    if kind_code region.kind == kind_code RegionKind.free
    then (elim (region_loop debug fuel a region) [
      | none ↦ none
      | some panicked ↦ some panicked
      | some (returned a') ↦ some (returned (some a'))
    ])
    else some (returned none)
