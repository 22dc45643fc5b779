-- ===== src/Buddy/Freed.antt =====
-- What `dealloc_inner` does, by what stands where it looks for a buddy.
use wasm_kernel.Base.{
  ℕ, suc, ◌+◌, ◌-◌, ◌%◌, ◌≤◌, ◌<◌, ◌≡◌, refl, Bool, le→leb, panicked, ◌>>=◌, true, ◌∷◌, arith,
  update, returned, Yields,
}
use mathlib.Core.Option.{Option, none, some}
use wasm_kernel.Memory.Math.{usize_mod}
use wasm_kernel.Memory.Address.{paddr_end}
use wasm_kernel.Memory.Region.{Region, RegionKind, inside}
use wasm_kernel.Buddy.Heap.{Free, Alloc, Layout, rounded, size_for, size_for_order, magic_free}
use wasm_kernel.Buddy.Dealloc.{
  Memory, remove_at, take_buddy, merge_loop, dealloc_block, dealloc_order, dealloc_inner,
}
use wasm_kernel.Buddy.Cover.{covering, cover, cover-update, covering-le}
use wasm_kernel.Buddy.Split.{Good, AllGood-update, new_free_lem}
use wasm_kernel.Buddy.Taken.{Heap, offset_lem}
use wasm_kernel.Buddy.Allocated.{pow2-le_le, IsLayout, rounded_pow2, order_for-some, size_for_lem}
use wasm_kernel.Buddy.Searched.{
  Apart, buddy_of, Passed, Mismatched, gone, take_buddy-none, take_buddy_panics,
}

-- The freed block is put on the list of its order as it is, and its size is no longer allocated.
pub record Freed (a : Alloc) (r : Region) (a' : Alloc) : Type 0 where
  pub order : ℕ
  pub listed : r.size ≡ size_for_order a order
  pub same : a' ≡ record a {
    free_lists =
        update a.free_lists order (record { magic = magic_free; meta = r } ∷ a.free_lists order);
    allocated_size = (a.allocated_size + usize_mod - r.size) % usize_mod;
  }
  pub covers : (c : ℕ) → cover a'.lists a'.free_lists c ≡ cover a.lists a.free_lists c + inside r c
  pub kept : Heap a'

abbrev pub Frees : Alloc → Region → Option Alloc → Type 0
Frees a r none = ⊥
Frees a r (some a') = Freed a r a'

merge_loop_first :
    (debug : Bool) (mem : Memory) (a : Alloc) (left order : ℕ) (block : Free)
    → (take_buddy debug mem a a.vm_offset block order ≡ returned (none, a.free_lists)
        → merge_loop debug mem a.vm_offset block.meta.size (suc left) order block a
          ≡ returned (record a {
            free_lists = update a.free_lists order (block ∷ a.free_lists order);
            allocated_size = (a.allocated_size + usize_mod - block.meta.size) % usize_mod;
          }))
      × (take_buddy debug mem a a.vm_offset block order ≡ panicked
          → merge_loop debug mem a.vm_offset block.meta.size (suc left) order block a ≡ panicked)
unfolding merge_loop
merge_loop_first debug mem a left order block = ((λ e. rw e refl), λ e. rw e refl)

freed_lem :
    (a : Alloc) (order : ℕ) (r : Region)
    → Heap a
    → order < a.lists
    → r.size ≡ size_for_order a order
    → r.base % 8 ≡ 0
    → r.base + r.size < paddr_end
    → Freed a r (record a {
      free_lists =
          update a.free_lists order (record { magic = magic_free; meta = r } ∷ a.free_lists order);
      allocated_size = (a.allocated_size + usize_mod - r.size) % usize_mod;
    })
unfolding covering
freed_lem a order r heap h sized aligned valid =
    let block : Free = record { magic = magic_free; meta = r } in
    let good : Good a.min_size_log2 order block = record {
      marked = refl;
      sized = sized;
      aligned = aligned;
      valid = valid;
    } in
    record {
      order = order;
      listed = sized;
      same = refl;
      covers = λ c.
          omega (arith, cover-update a.lists order a.free_lists (block ∷ a.free_lists order) c h);
      kept = record {
        mapped = heap.mapped;
        good =
            AllGood-update a.min_size_log2 order a.free_lists (block ∷ a.free_lists order) heap.good
              (good, heap.good order);
        least = heap.least;
        word = heap.word;
      };
    }

dealloc_order-some :
    (debug : Bool) (mem : Memory) (a : Alloc) (paddr : ℕ) (layout : Layout) (order size : ℕ)
    → size_for a layout ≡ some size
    → dealloc_order debug mem a paddr layout (some order)
      ≡ dealloc_block debug mem a paddr size order
unfolding dealloc_order
dealloc_order-some debug mem a paddr layout order size e = rw (dealloc_order, e) refl

module _ (mem : Memory) (a : Alloc) (paddr : ℕ) (layout : Layout) (order : ℕ) (heap : Heap a)
    (l : IsLayout layout) (room : rounded a layout ≤ a.heap_size) (top : order < a.lists)
    (sized : rounded a layout ≡ size_for_order a order) (aligned : paddr % 8 ≡ 0)
    (valid : paddr + rounded a layout < paddr_end) where
  -- Up to its loop, `dealloc_inner` goes through.
  reached :
      (debug : Bool)
      → dealloc_inner debug mem a paddr layout ≡ (
          merge_loop debug mem a.vm_offset
            (rounded a layout)
            (a.lists - order)
            order
            (record {
              magic = magic_free;
              meta = record { base = paddr; size = rounded a layout; kind = RegionKind.free };
            })
            a
          >>= λ a'. returned (some a'))
  unfolding dealloc_inner dealloc_block
  reached debug =
      let (own, sized', big, wide, lg, word) = rounded_pow2 a layout l heap.least heap.word in
      let up =
        pow2-le_le (a.min_size_log2 + order) (a.min_size_log2 + own)
          (omega (arith, sized, sized')) in
      let down =
        pow2-le_le (a.min_size_log2 + own) (a.min_size_log2 + order)
          (omega (arith, sized, sized')) in
      let r : Region = record { base = paddr; size = rounded a layout; kind = RegionKind.free } in
      rw
        (
          order_for-some debug a layout order room sized (omega (arith, lg, up, down))
              (omega (arith, word, up, down)),
          dealloc_order-some debug mem a paddr layout order (rounded a layout)
              ((size_for_lem a layout).1 room),
          offset_lem debug a heap.mapped.set,
          new_free_lem debug r a.vm_offset aligned heap.mapped.set
              (omega (arith, heap.mapped.fits)),
          le→leb order a.lists (omega arith),
        )
        refl

-- What freeing a block does, in a heap that is in order: one that no free block overlaps, at a valid
-- address that is a multiple of 8 and not below the heap's base, of a layout that the heap is large
-- enough for and whose order is below `FREE_LISTS`. The address at which `take_buddy` looks for its
-- buddy is never that of a block on this order's list, whatever blocks are free. Where what stands
-- there is not marked as free, or is, but `List::remove` gives `None` for it and leaves the lists as
-- they are, as it does for a header on no list, and a debug build finds the size of the order in
-- it, the block goes on the list of its order as it is, unmerged; its addresses lie in one free
-- block more, and the heap stays in order. Where what stands there is marked as free and has
-- another size, as the header of a free block of another order does, a debug build panics. (What a
-- release build does then is left open, as is removing a header that is on another list.)
pub dealloc_inner-Frees :
    (debug : Bool) (mem : Memory) (a : Alloc) (paddr : ℕ) (layout : Layout) (order : ℕ)
    → Heap a
    → IsLayout layout
    → rounded a layout ≤ a.heap_size
    → order < a.lists
    → rounded a layout ≡ size_for_order a order
    → a.base_vaddr ≤ paddr + a.vm_offset
    → paddr % 8 ≡ 0
    → paddr + rounded a layout < paddr_end
    → Apart
        (record { base = paddr; size = rounded a layout; kind = RegionKind.free })
        (cover a.lists a.free_lists)
    → (remove_at a.vm_offset (buddy_of a order paddr) (a.free_lists order) ≡ none)
      × (Passed debug mem a order (buddy_of a order paddr)
          → Yields
              (dealloc_inner debug mem a paddr layout)
              (Frees a (record { base = paddr; size = rounded a layout; kind = RegionKind.free })))
      × (Mismatched mem a order (buddy_of a order paddr)
          → dealloc_inner true mem a paddr layout ≡ panicked)
dealloc_inner-Frees debug mem a paddr layout order heap l room top sized low aligned valid apart =
    let r : Region = record { base = paddr; size = rounded a layout; kind = RegionKind.free } in
    let block : Free = record { magic = magic_free; meta = r } in
    let left : a.lists - order ≡ suc (a.lists - order - 1) = omega arith in
    let own : Apart r (covering (a.free_lists order)) =
      λ c h. omega (arith, apart c h, covering-le a.lists order a.free_lists c top) in
    let reach = reached mem a paddr layout order heap l room top sized aligned valid in
    (
      gone mem a order block heap low sized valid own,
      (λ p.
          rw
            (
              reach debug,
              left,
              (merge_loop_first debug mem a (a.lists - order - 1) order block).0
                  (take_buddy-none mem a order block heap low sized valid debug own p),
            )
            (freed_lem a order r heap top sized aligned valid)),
      λ m.
          rw
            (
              reach true,
              left,
              (merge_loop_first true mem a (a.lists - order - 1) order block).1
                  (take_buddy_panics mem a order block heap low sized valid m),
            )
            refl,
    )
