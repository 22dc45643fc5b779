-- ===== src/Buddy/Blocks.antt =====
-- The parts of a round of `add_region`: the region rounded up, and put on a free list as a block.
use wasm_kernel.Base.{
  ℕ, suc, ◌+◌, ◌-◌, ◌*◌, ◌%◌, ◌≤◌, ◌<◌, ◌≡◌, ◌≢◌, refl, sym, ap, ◌∙◌, min, Bool, ◌==◌, ltb, lt→ltb,
  Bool-cases, inl, inr, ◌∷◌, arith, update, returned, debug_assert-true, Yields, Yields->>=,
}
use mathlib.Core.Path.{subst}
use wasm_kernel.Memory.Math.{
  usize_mod, pow2, pow2_pos, pow2-64, pow2-lt_lt, is_power_of_two, is_power_of_two-pow2,
}
use wasm_kernel.Memory.Address.{paddr_end, is_aligned, align_up, align_bounds}
use wasm_kernel.Memory.Region.{Region}
use wasm_kernel.Buddy.Heap.{Free, Alloc, magic_free, size_for_order, order_for_size}
use wasm_kernel.Buddy.Split.{new_free_lem}
use wasm_kernel.Buddy.Taken.{Heap, offset_lem}
use wasm_kernel.Buddy.Allocated.{order_for_size_lem, log2_ceil-pow2}
use wasm_kernel.Buddy.Regions.{push_block, align_region, add_block}

-- A multiple of the least block's size, at the address or less than one step above it.
pub record Rounded (n base base' : ℕ) : Type 0 where
  pub multiple : base' % n ≡ 0
  pub above : base ≤ base'
  pub near : base' < base + n
  pub moved : base % n ≢ 0 → base < base'

unmoved : (u r n : ℕ) → u ≤ r → u % n ≢ 0 → r % n ≡ 0 → u < r
unmoved u r n h k e = elim (Bool-cases (u == r)) [
  | inl same ↦ ground arith
  | inr other ↦ ground arith
]

pub align_region-Rounded :
    (debug : Bool) (a : Alloc) (r : Region)
    → Heap a
    → r.base + a.min_size < paddr_end
    → Yields (align_region debug a r) (λ r'. (r'.size ≡ r.size) × Rounded a.min_size r.base r'.base)
unfolding align_region is_aligned
align_region-Rounded debug a r heap h =
    let n = pow2 a.min_size_log2 in
    let least = heap.least in
    let power = is_power_of_two-pow2 a.min_size_log2 (omega (arith, heap.word)) in
    let whole = debug_assert-true debug (is_power_of_two n) power in
    let up =
      (align_bounds debug r.base a.min_size_log2 (omega (arith, heap.word)) (omega arith)).0 in
    elim (Bool-cases (r.base % n == 0)) [
      | inl e ↦
          rw (least, whole, e)
            (
              refl,
              record {
                multiple = ground arith;
                above = omega arith;
                near = omega (arith, pow2_pos a.min_size_log2);
                moved = ground arith;
              },
            )
      | inr e ↦
          rw (least, whole, e)
            (Yields->>= (λ b. (b % n ≡ 0) × (r.base ≤ b) × (b < r.base + n))
              (λ r'. (r'.size ≡ r.size) × Rounded n r.base r'.base) (align_up debug r.base n) _ up
              (λ b (p, q, s). (
                refl,
                record { multiple = p; above = q; near = s; moved = λ k. unmoved r.base b n q k p },
              )))
    ]

-- The allocator with a region's block on the list of its order.
abbrev pub with_block : Alloc → ℕ → Region → Alloc
with_block a order r = record a {
  base_vaddr = min a.base_vaddr (r.base + a.vm_offset);
  free_lists =
      update a.free_lists order (record { magic = magic_free; meta = r } ∷ a.free_lists order);
  heap_size = a.heap_size + r.size;
}

push_block_lem :
    (debug : Bool) (a : Alloc) (order : ℕ) (block : Free)
    → order_for_size debug a block.meta.size ≡ returned order
    → order < a.lists
    → a.heap_size + block.meta.size < usize_mod
    → push_block debug a block
      ≡ returned (record a {
        free_lists = update a.free_lists order (block ∷ a.free_lists order);
        heap_size = a.heap_size + block.meta.size;
      })
unfolding push_block
push_block_lem debug a order block e h fits = rw e (ground arith)

pub add_block_lem :
    (debug : Bool) (a : Alloc) (order : ℕ) (r : Region)
    → Heap a
    → order < a.lists
    → r.size ≡ size_for_order a order
    → r.base % 8 ≡ 0
    → r.base + r.size < paddr_end
    → a.heap_size + r.size < usize_mod
    → add_block debug a r ≡ returned (with_block a order r)
unfolding add_block
add_block_lem debug a order r heap h sized aligned valid fits =
    let off = a.vm_offset in
    let word : a.min_size_log2 + order < 64 =
      pow2-lt_lt (a.min_size_log2 + order) 64 (omega (arith, pow2-64)) in
    let wrap : (r.base + off) % usize_mod ≡ r.base + off = omega (arith, heap.mapped.fits) in
    let fine =
      debug_assert-true debug (ltb (r.base + off) usize_mod)
        (lt→ltb (r.base + off) usize_mod (omega (arith, heap.mapped.fits))) in
    let a1 : Alloc = record a { base_vaddr = min a.base_vaddr (r.base + off) } in
    let ordered : order_for_size debug a1 r.size ≡ returned order =
      subst (λ s. order_for_size debug a1 s ≡ returned order) (sym sized)
        (order_for_size_lem debug a1 order (log2_ceil-pow2 (a.min_size_log2 + order) word)
          (omega arith)) in
    rw
      (
        offset_lem debug a heap.mapped.set,
        fine,
        new_free_lem debug r off aligned heap.mapped.set (omega (arith, heap.mapped.fits)),
        wrap,
        push_block_lem debug a1 order (record { magic = magic_free; meta = r }) ordered h fits,
      )
      refl

thrice : (k : ℕ) → pow2 (suc (suc (suc k))) ≡ 8 * pow2 k
unfolding pow2
thrice k = omega arith

pub multiple_8 : (n m : ℕ) → 3 ≤ m → n % pow2 m ≡ 0 → n % 8 ≡ 0
multiple_8 n m h e =
    let deep : m ≡ suc (suc (suc (m - 3))) = omega arith in
    let eight : pow2 m ≡ 8 * pow2 (m - 3) = ap pow2 deep ∙ thrice (m - 3) in
    eighth n (pow2 (m - 3)) (pow2_pos (m - 3)) (rw eight at e)
  where
    eighth : (n t : ℕ) → 0 < t → n % (8 * t) ≡ 0 → n % 8 ≡ 0
    eighth n t p e = grind arith
