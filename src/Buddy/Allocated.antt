-- ===== src/Buddy/Allocated.antt =====
-- What `alloc_inner` returns.
use wasm_kernel.Base.{
  ℕ, suc, ◌+◌, ◌-◌, ◌*◌, ◌%◌, ◌≤◌, ◌<◌, ◌≡◌, refl, sym, ◌⊎◌, inl, inr, Bool, ltb, Bool-cases,
  le→leb, dec_lt, max, if◌then◌else◌, [], arith, returned, Yields, Yields-imp,
}
use mathlib.Core.Option.{Option, none, some}
use wasm_kernel.Memory.Math.{
  usize_mod, pow2, pow2-lt, pow2_pos, pow2-64, pow2-63, pow2-lt_lt, is_power_of_two, bit_length,
  next_power_of_two, next_power_of_two-eq_pow2, log2_ceil, log2_ceil_least,
}
use wasm_kernel.Memory.Region.{inside, isize_max}
use wasm_kernel.Memory.Address.{paddr_end}
use wasm_kernel.Buddy.Heap.{
  Free, Alloc, Layout, rounded, size_for, size_for_order, order_for_size, order_for,
}
use wasm_kernel.Buddy.Alloc.{alloc_inner, alloc_scan}
use wasm_kernel.Buddy.Cover.{cover}
use wasm_kernel.Buddy.Taken.{Heap, Found, alloc_scan-Found}

-- What `Layout` promises: the size, rounded up to the alignment, is at most `isize::MAX`.
pub record IsLayout (layout : Layout) : Type 0 where
  pub size_fits : layout.size ≤ isize_max
  pub align_fits : layout.align ≤ isize_max

pub pow2-le_le : (j k : ℕ) → pow2 j ≤ pow2 k → j ≤ k
pow2-le_le j k h =
    let less = pow2-lt_lt j (suc k) (omega (arith, pow2-lt k (suc k) (omega arith), pow2_pos k)) in
    omega arith

pub log2_ceil-pow2 : (j : ℕ) → j < 64 → log2_ceil (pow2 j) ≡ j
log2_ceil-pow2 j h =
    let room = pow2-lt j 64 h in
    let least = log2_ceil_least (pow2 j) (pow2_pos j) (omega (arith, room, pow2-64)) in
    omega (arith, least.1 j (omega arith), pow2-le_le j (log2_ceil (pow2 j)) least.0)

-- Rounding up to a power of two, where it is not one.
round_up :
    (x : ℕ)
    → 0 < x
    → 2 * x ≤ usize_mod
    → (j : ℕ) × ((if is_power_of_two x then x else next_power_of_two x) ≡ pow2 j)
      × (x ≤ pow2 j)
      × (j < 64)
unfolding is_power_of_two
round_up x pos fits =
    let p = next_power_of_two-eq_pow2 x pos fits in
    let small = λ (j : ℕ) (h : pow2 j < usize_mod). pow2-lt_lt j 64 (omega (arith, h, pow2-64)) in
    elim (Bool-cases (is_power_of_two x)) [
      | inl e ↦
          let j = bit_length 64 x - 1 in
          let same : pow2 j ≡ x = ground arith in
          (j, rw e (sym same), omega arith, small j (omega arith))
      | inr e ↦ (log2_ceil x, rw e (p.0), p.1, small (log2_ceil x) (omega (arith, p.2)))
    ]

-- Sizes are rounded up to a power of two that has an order.
pub rounded_pow2 :
    (a : Alloc) (layout : Layout)
    → IsLayout layout
    → a.min_size ≡ pow2 a.min_size_log2
    → a.min_size_log2 < 63
    → (order : ℕ) × (rounded a layout ≡ pow2 (a.min_size_log2 + order))
      × (layout.size ≤ rounded a layout)
      × (layout.align ≤ rounded a layout)
      × (log2_ceil (rounded a layout) ≡ a.min_size_log2 + order)
      × (a.min_size_log2 + order < 64)
unfolding rounded
rounded_pow2 a layout l e w =
    let x =
      let size = max layout.size layout.align in if ltb size a.min_size then a.min_size else size in
    let least : pow2 a.min_size_log2 ≤ x = ground arith in
    let low : max layout.size layout.align ≤ x = ground arith in
    let pos = pow2_pos a.min_size_log2 in
    let room = pow2-lt a.min_size_log2 63 w in
    let high : 2 * x ≤ usize_mod = ground (arith, room, pow2-63) in
    let (j, r, up, word) = round_up x (omega arith) high in
    let over = pow2-le_le a.min_size_log2 j (omega arith) in
    let back : a.min_size_log2 + (j - a.min_size_log2) ≡ j = omega arith in
    (
      j - a.min_size_log2,
      rw back r,
      omega arith,
      omega arith,
      rw (back, r) (log2_ceil-pow2 j word),
      omega arith,
    )

-- A block that serves a request: it is as big as asked for, rounded up, it is taken from the free
-- blocks, and they stay in order.
pub record Served (a : Alloc) (layout : Layout) (a' : Alloc) (f : Free) : Type 0 where
  pub big : layout.size ≤ f.meta.size
  pub wide : layout.align ≤ f.meta.size
  pub exact : f.meta.size ≡ rounded a layout
  pub valid : f.meta.base + f.meta.size < paddr_end
  pub kept : Heap a'
  pub covers :
      (c : ℕ) → cover a.lists a.free_lists c ≡ cover a'.lists a'.free_lists c + inside f.meta c
  pub counted : a'.allocated_size ≡ (a.allocated_size + f.meta.size) % usize_mod

abbrev pub Allocates : Alloc → Layout → Alloc → Option Free → Type 0
Allocates a layout a' none =
    (a' ≡ a)
    × ((a.heap_size < rounded a layout)
        ⊎ ((k : ℕ) → k < a.lists → rounded a layout ≤ size_for_order a k → a.free_lists k ≡ []))
Allocates a layout a' (some f) = Served a layout a' f

pub order_for_size_lem :
    (debug : Bool) (a : Alloc) (order : ℕ)
    → log2_ceil (pow2 (a.min_size_log2 + order)) ≡ a.min_size_log2 + order
    → a.min_size_log2 + order < usize_mod
    → order_for_size debug a (pow2 (a.min_size_log2 + order)) ≡ returned order
unfolding order_for_size
order_for_size_lem debug a order e h = rw e (ground arith)

pub size_for_lem :
    (a : Alloc) (layout : Layout)
    → (a.heap_size < rounded a layout → size_for a layout ≡ none)
      × (rounded a layout ≤ a.heap_size → size_for a layout ≡ some (rounded a layout))
unfolding size_for
size_for_lem a layout = (λ h. ground arith, λ h. ground arith)

pub order_for-none :
    (debug : Bool) (a : Alloc) (layout : Layout)
    → a.heap_size < rounded a layout
    → order_for debug a layout ≡ returned none
unfolding order_for
order_for-none debug a layout h = rw (order_for, (size_for_lem a layout).0 h) refl

-- The order of a request that the heap is large enough for.
pub order_for-some :
    (debug : Bool) (a : Alloc) (layout : Layout) (order : ℕ)
    → rounded a layout ≤ a.heap_size
    → rounded a layout ≡ pow2 (a.min_size_log2 + order)
    → log2_ceil (rounded a layout) ≡ a.min_size_log2 + order
    → a.min_size_log2 + order < 64
    → order_for debug a layout ≡ returned (some order)
unfolding order_for
order_for-some debug a layout order h r l w =
    rw
      (
        order_for,
        (size_for_lem a layout).1 h,
        r,
        order_for_size_lem debug a order (rw r at l) (omega arith),
      )
      refl

Found-Allocates :
    (a : Alloc) (layout : Layout) (order : ℕ)
    → layout.size ≤ rounded a layout
    → layout.align ≤ rounded a layout
    → rounded a layout ≡ pow2 (a.min_size_log2 + order)
    → (r : Option Free) (a' : Alloc) → Found a order a' r
    → Allocates a layout a' r
Found-Allocates a layout order big wide e none a' (same, empty) = (
  same,
  inr (λ k h le.
      let above = pow2-le_le (a.min_size_log2 + order) (a.min_size_log2 + k) (rw e at le) in
      empty k (omega arith) h),
)
Found-Allocates a layout order big wide e (some f) a' t = record {
  big = omega (arith, t.sized);
  wide = omega (arith, t.sized);
  exact = omega (arith, t.sized);
  valid = t.valid;
  kept = t.kept;
  covers = t.covers;
  counted = t.counted;
}

-- In a heap that is in order, and for a layout whose size has an order at most `FREE_LISTS`,
-- `alloc_inner` returns in both builds. It finds a block as big as the request rounded up, at least
-- the layout's size and alignment; each address lies in as many free blocks as before, one less for
-- those of the block; the block's size is added to `allocated_size`, and the heap stays in order. Or it
-- finds none and changes nothing: then the request is larger than the heap, or no list of blocks
-- that are large enough has one.
pub alloc_inner-Allocates :
    (debug : Bool) (a : Alloc) (layout : Layout)
    → Heap a
    → IsLayout layout
    → rounded a layout ≤ size_for_order a a.lists
    → Yields (alloc_inner debug a layout) (λ (a', r). Allocates a layout a' r)
unfolding alloc_inner
alloc_inner-Allocates debug a layout heap l fits =
    let (order, r, big, wide, lg, word) = rounded_pow2 a layout l heap.least heap.word in
    let top = pow2-le_le (a.min_size_log2 + order) (a.min_size_log2 + a.lists) (rw r at fits) in
    elim (dec_lt a.heap_size (rounded a layout)) [
      | yes h ↦ rw (order_for-none debug a layout h) (refl, inl h)
      | no h ↦
          rw
            (
              order_for-some debug a layout order (omega arith) r lg word,
              le→leb order a.lists (omega arith),
            )
            (Yields-imp (λ (a', f). Found a order a' f) (λ (a', f). Allocates a layout a' f)
              (alloc_scan debug a order (a.lists - order) 0)
              (λ (a', f) found. Found-Allocates a layout order big wide r f a' found)
              (alloc_scan-Found debug a heap order (a.lists - order) 0 (omega arith)
                (λ k lo hi. absurd (omega arith))))
    ]
