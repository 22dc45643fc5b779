-- ===== src/Buddy/Searched.antt =====
-- Where `take_buddy` looks: at an address inside the freed block or just below it, which is not that of
-- a block on the list of the order.
use wasm_kernel.Base.{
  ℕ, ◌+◌, ◌-◌, ◌/◌, ◌%◌, ◌≤◌, ◌<◌, ◌≡◌, ◌≢◌, refl, ◌⊎◌, Bool, false, leb, ◌==◌, le→leb, lt→ltb, ltb,
  panicked, true, List, [], ◌∷◌, arith, All, returned, debug_assert-true, max,
}
use mathlib.Core.Option.{none}
use wasm_kernel.Memory.Math.{usize_mod, pow2, pow2-lt, pow2_pos}
use wasm_kernel.Memory.Address.{paddr_end}
use wasm_kernel.Memory.Region.{Region, inside}
use wasm_kernel.Buddy.Heap.{Free, Alloc, size_for_order, vaddr, magic_free}
use wasm_kernel.Buddy.Dealloc.{Memory, flip_bit, buddy_addr, remove_at, take_at, take_buddy}
use wasm_kernel.Buddy.Cover.{covering}
use wasm_kernel.Buddy.Split.{Good, Mapped}
use wasm_kernel.Buddy.Taken.{Heap}

-- No free block has an address of the region.
abbrev pub Apart : Region → (ℕ → ℕ) → Type 0
Apart r covers = (c : ℕ) → inside r c ≡ 1 → covers c ≡ 0

div-pos : (n p : ℕ) → 0 < p → n / p % 2 ≢ 0 → p ≤ n
div-pos n p pos h = grind arith

flip_bit_near : (k n : ℕ) → (flip_bit k n ≡ n + pow2 k) ⊎ (flip_bit k n + pow2 k ≡ n)
unfolding flip_bit
flip_bit_near k n = ground (arith, div-pos n (pow2 k) (pow2_pos k))

-- Near the block's address, without wrapping around.
buddy_addr_near :
    (base order addr : ℕ)
    → base ≤ addr
    → addr + pow2 order < usize_mod
    → (buddy_addr base order addr ≡ addr + pow2 order)
      ⊎ (buddy_addr base order addr + pow2 order ≡ addr)
unfolding buddy_addr
buddy_addr_near base order addr le lt =
    let rel : (addr + usize_mod - base) % usize_mod ≡ addr - base = omega arith in
    rw rel (ground (arith, flip_bit_near order (addr - base)))

module _ (m order vm_offset : ℕ) (mapped : Mapped m vm_offset) (r : Region)
    (sized : r.size ≡ pow2 (m + order)) (target : ℕ)
    (near : (target ≡ r.base + vm_offset + pow2 order)
      ⊎ (target + pow2 order ≡ r.base + vm_offset)) where
  far :
      (f : Free)
      → Good m order f
      → (inside r (max f.meta.base r.base) ≡ 1 → inside (f.meta) (max f.meta.base r.base) ≡ 0)
      → (vaddr vm_offset f == target) ≡ false
  far f g apart =
      let short = pow2-lt order (m + order) (omega (arith, mapped.least)) in
      let pos = pow2_pos order in ground (arith, mapped.fits)

  pub remove_at-none :
      (list : List Free)
      → All (Good m order) list
      → Apart r (covering list)
      → remove_at vm_offset target list ≡ none
  unfolding remove_at covering
  remove_at-none [] g apart = refl
  remove_at-none (f ∷ list) g apart =
      let c = max f.meta.base r.base in
      let head = far f (g.0) (λ h. omega (arith, apart c h)) in
      let rest = remove_at-none list (g.1) (λ d h. omega (arith, apart d h)) in rw (head, rest) refl

-- Where `take_buddy` looks, for a block of an order at a physical address
abbrev pub buddy_of : Alloc → ℕ → ℕ → ℕ
buddy_of a order paddr = buddy_addr a.base_vaddr order (paddr + a.vm_offset)

-- What stands there does not say that it is free; or it does, has the size of the order, which
-- only a debug build looks at, and is on no list, so that `List::remove` gives `None`.
abbrev pub Passed : Bool → Memory → Alloc → ℕ → ℕ → Type 0
Passed debug mem a order addr =
    ((mem.header order addr).magic ≢ magic_free)
    ⊎ ((debug ≡ true → (mem.header order addr).meta.size ≡ size_for_order a order)
        × (mem.stray order addr a.free_lists ≡ returned (none, a.free_lists)))

-- What stands there says that it is free, but has another size.
abbrev pub Mismatched : Memory → Alloc → ℕ → ℕ → Type 0
Mismatched mem a order addr =
    ((mem.header order addr).magic ≡ magic_free)
    × ((mem.header order addr).meta.size ≢ size_for_order a order)

module _ (mem : Memory) (a : Alloc) (order : ℕ) (block : Free) (heap : Heap a)
    (le : a.base_vaddr ≤ block.meta.base + a.vm_offset)
    (sized : block.meta.size ≡ size_for_order a order)
    (valid : block.meta.base + block.meta.size < paddr_end) where
  -- The checks before the read pass.
  found :
      (debug : Bool)
      → take_buddy debug mem a a.vm_offset block order
        ≡ take_at debug mem a a.vm_offset order (buddy_of a order block.meta.base)
  unfolding take_buddy
  found debug =
      let addr = block.meta.base + a.vm_offset in
      let whole : vaddr a.vm_offset block ≡ addr = omega (arith, heap.mapped.fits) in
      let short = pow2-lt order (a.min_size_log2 + order) (omega (arith, heap.mapped.least)) in
      let set : (a.base_vaddr == usize_mod - 1) ≡ false =
        ground (arith, heap.mapped.fits, sized, pow2_pos (a.min_size_log2 + order)) in
      let rel : (addr + usize_mod - a.base_vaddr) % usize_mod ≡ addr - a.base_vaddr =
        omega (arith, heap.mapped.fits) in
      let near = flip_bit_near order (addr - a.base_vaddr) in
      let room : a.base_vaddr + flip_bit order (addr - a.base_vaddr) < usize_mod =
        ground (arith, heap.mapped.fits, pow2_pos order) in
      rw
        (
          whole,
          set,
          debug_assert-true debug (leb a.base_vaddr addr) (le→leb a.base_vaddr addr le),
          rel,
          debug_assert-true debug
              (ltb (a.base_vaddr + flip_bit order (addr - a.base_vaddr)) usize_mod)
              (lt→ltb _ usize_mod room),
        )
        refl

  -- A free block of the order that does not overlap the block does not stand there.
  pub gone :
      Apart block.meta (covering (a.free_lists order))
      → remove_at a.vm_offset (buddy_of a order block.meta.base) (a.free_lists order) ≡ none
  gone apart =
      let addr = block.meta.base + a.vm_offset in
      let short = pow2-lt order (a.min_size_log2 + order) (omega (arith, heap.mapped.least)) in
      let near =
        buddy_addr_near a.base_vaddr order addr le
          (omega (arith, heap.mapped.fits, pow2_pos order)) in
      remove_at-none a.min_size_log2 order a.vm_offset heap.mapped block.meta sized
        (buddy_of a order block.meta.base) near (a.free_lists order) (heap.good order) apart

  pub take_buddy-none :
      (debug : Bool)
      → Apart block.meta (covering (a.free_lists order))
      → Passed debug mem a order (buddy_of a order block.meta.base)
      → take_buddy debug mem a a.vm_offset block order ≡ returned (none, a.free_lists)
  unfolding take_at
  take_buddy-none debug apart passed =
      let none_there = gone apart in rw (found debug, none_there) (ground arith)

  pub take_buddy_panics :
      Mismatched mem a order (buddy_of a order block.meta.base)
      → take_buddy true mem a a.vm_offset block order ≡ panicked
  unfolding take_at
  take_buddy_panics m = rw (found true) (ground arith)
