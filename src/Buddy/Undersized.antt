-- ===== src/Buddy/Undersized.antt =====
-- `add_region` and a region one byte larger than the least block.
use wasm_kernel.Base.{
  ℕ, suc, ◌+◌, ◌-◌, ◌/◌, ◌%◌, ◌≤◌, ◌<◌, ◌≡◌, refl, ap, ◌∙◌, Bool, true, false, ◌==◌, ltb, leb, ◌&&◌,
  min, lt→ltb, if◌then◌else◌, arith, returned, panicked, debug_assert-true,
}
use mathlib.Core.Option.{Option, none, some}
use mathlib.Core.Path.{subst}
use wasm_kernel.Memory.Math.{
  usize_mod, pow2, pow2_pos, pow2-lt, pow2-64, pow2-63, pow2-lt_lt, is_power_of_two,
  is_power_of_two-pow2, bit_length, bit_length_bounds, next_power_of_two-eq_pow2, log2_ceil,
}
use wasm_kernel.Memory.Address.{paddr_end, is_aligned}
use wasm_kernel.Memory.Region.{Region, RegionKind, split_back_lem, kind_code}
use wasm_kernel.Buddy.Heap.{Free, Alloc, order_for_size, magic_free}
use wasm_kernel.Buddy.Split.{new_free_lem}
use wasm_kernel.Buddy.Taken.{Heap, offset_lem}
use wasm_kernel.Buddy.Allocated.{log2_ceil-pow2}
use wasm_kernel.Buddy.Blocks.{multiple_8}
use wasm_kernel.Buddy.Regions.{
  prev_power_of_two, push_block, align_region, split_region, add_block, add_round, region_loop,
  add_region,
}

bit_length_odd : (k : ℕ) → 1 ≤ k → k < 63 → bit_length 64 (pow2 k + 1) - 1 ≡ k
bit_length_odd k pos h =
    let n = pow2 k + 1 in
    let two = pow2-lt 0 k (omega arith) in
    let one = pow2_pos 0 in
    let room = pow2-lt k 63 h in
    let b = bit_length_bounds 64 n (omega (arith, room, pow2-63, pow2-64)) in
    let above = pow2-lt_lt k (bit_length 64 n) (omega (arith, b.0)) in
    let up = pow2-lt k (suc k) (omega arith) in
    let further = pow2-lt (suc k) (suc (suc k)) (omega arith) in
    let below : bit_length 64 n < suc (suc k) =
      pow2-lt_lt (bit_length 64 n) (suc (suc k)) (omega (arith, b.1 (omega arith))) in
    omega arith

more_than : (p : ℕ) → (ltb 0 (p + 1) && (p == p + 1)) ≡ false
more_than p = ground arith

-- One more than a power of two is none.
odd_size : (k : ℕ) → 1 ≤ k → k < 63 → is_power_of_two (pow2 k + 1) ≡ false
unfolding is_power_of_two
odd_size k pos h = rw (is_power_of_two, bit_length_odd k pos h) (more_than (pow2 k))

prev_lem : (k : ℕ) → k < 62 → prev_power_of_two (pow2 (suc k) + 1) ≡ pow2 k
unfolding prev_power_of_two
prev_lem k h =
    let room = pow2-lt k 63 (omega arith) in
    let half : (pow2 (suc k) + 1) / 2 ≡ pow2 k = unfold pow2 in omega arith in
    let next = next_power_of_two-eq_pow2 (pow2 k) (pow2_pos k) (omega (arith, room, pow2-63)) in
    rw half (next.0 ∙ ap pow2 (log2_ceil-pow2 k (omega arith)))

-- A block below the least one has no order.
push_small :
    (debug : Bool) (a : Alloc) (k : ℕ) (f : Free)
    → f.meta.size ≡ pow2 k
    → a.min_size_log2 ≡ suc k
    → k < 63
    → a.lists < usize_mod - 1
    → push_block debug a f ≡ panicked
unfolding push_block order_for_size
push_small true a k f e m h l =
    let lg : log2_ceil f.meta.size ≡ k = ap log2_ceil e ∙ log2_ceil-pow2 k (omega arith) in
    rw lg (ground arith)
push_small false a k f e m h l =
    let lg : log2_ceil f.meta.size ≡ k = ap log2_ceil e ∙ log2_ceil-pow2 k (omega arith) in
    rw lg (ground arith)

align_same :
    (debug : Bool) (a : Alloc) (r : Region)
    → Heap a
    → r.base % a.min_size ≡ 0
    → align_region debug a r ≡ returned r
unfolding align_region is_aligned
align_same debug a r heap aligned =
    let power =
      ap is_power_of_two heap.least
      ∙ is_power_of_two-pow2 a.min_size_log2 (omega (arith, heap.word)) in
    let whole = debug_assert-true debug (is_power_of_two a.min_size) power in
    let here : (r.base % a.min_size == 0) ≡ true = ground arith in rw (whole, here) refl

split_odd :
    (debug : Bool) (a : Alloc) (k : ℕ) (r : Region)
    → k < 62
    → r.size ≡ pow2 (suc k) + 1
    → r.base + r.size < paddr_end
    → (next : Option Region) × (split_region debug a r.size r
        ≡ returned (record r { size = pow2 k }, next))
unfolding split_region
split_odd debug a k r h sized valid =
    let odd : is_power_of_two r.size ≡ false =
      ap is_power_of_two sized ∙ odd_size (suc k) (omega arith) (omega arith) in
    let prev : prev_power_of_two r.size ≡ pow2 k = ap prev_power_of_two sized ∙ prev_lem k h in
    let small = pow2-lt k (suc k) (omega arith) in
    let split = split_back_lem debug r (pow2 k) valid (omega arith) in
    let rest : Region = record { base = r.base + pow2 k; size = r.size - pow2 k; kind = r.kind } in
    (if leb a.min_size rest.size then some rest else none, rw (odd, prev, split) refl)

add_small :
    (debug : Bool) (a : Alloc) (k : ℕ) (r : Region)
    → Heap a
    → a.min_size_log2 ≡ suc k
    → r.size ≡ pow2 k
    → r.base % 8 ≡ 0
    → r.base + r.size < paddr_end
    → a.lists < usize_mod - 1
    → add_block debug a r ≡ panicked
unfolding add_block
add_small debug a k r heap m sized aligned valid few =
    let off = a.vm_offset in
    let fine =
      debug_assert-true debug (ltb (r.base + off) usize_mod)
        (lt→ltb (r.base + off) usize_mod (omega (arith, heap.mapped.fits))) in
    let block : Free = record { magic = magic_free; meta = r } in
    rw
      (
        offset_lem debug a heap.mapped.set,
        fine,
        new_free_lem debug r off aligned heap.mapped.set (omega (arith, heap.mapped.fits)),
      )
      (push_small debug (record a { base_vaddr = min a.base_vaddr ((r.base + off) % usize_mod) }) k
        block sized m (omega (arith, heap.word)) few)

round_panics :
    (debug : Bool) (a : Alloc) (r : Region)
    → Heap a
    → r.size ≡ a.min_size + 1
    → r.base % a.min_size ≡ 0
    → r.base + r.size < paddr_end
    → a.lists < usize_mod - 1
    → add_round debug a r ≡ panicked
unfolding add_round
round_panics debug a r heap sized aligned valid few =
    let k = a.min_size_log2 - 1 in
    let up : a.min_size_log2 ≡ suc k = omega (arith, heap.mapped.least) in
    let whole : r.size ≡ pow2 (suc k) + 1 = sized ∙ ap (λ n. n + 1) (heap.least ∙ ap pow2 up) in
    let (next, split) =
      split_odd debug a k r (omega (arith, heap.word, heap.mapped.least)) whole valid in
    let eight =
      multiple_8 r.base a.min_size_log2 heap.mapped.least
        (subst (λ n. r.base % n ≡ 0) heap.least aligned) in
    let small = pow2-lt k (suc k) (omega arith) in
    rw
      (
        align_same debug a r heap aligned,
        split,
        add_small debug a k (record r { size = pow2 k }) heap up refl eight (omega arith) few,
      )
      refl

loop_panics :
    (debug : Bool) (fuel : ℕ) (a : Alloc) (r : Region)
    → add_round debug a r ≡ panicked
    → region_loop debug (suc fuel) a r ≡ some panicked
unfolding region_loop
loop_panics debug fuel a r e = rw (region_loop, e) refl

free_panics :
    (debug : Bool) (fuel : ℕ) (a : Alloc) (r : Region)
    → r.kind ≡ RegionKind.free
    → region_loop debug fuel a r ≡ some panicked
    → add_region debug fuel a r ≡ some panicked
unfolding add_region
free_panics debug fuel a r k e = rw (ap (λ i. kind_code i == kind_code RegionKind.free) k, e) refl

-- Adding an aligned free region that is one byte larger than the least block panics in both builds:
-- the power of two that it is split down to is half of the least block's size, which has no order.
add_region_panics :
    (debug : Bool) (fuel : ℕ) (a : Alloc) (r : Region)
    → Heap a
    → r.kind ≡ RegionKind.free
    → r.size ≡ a.min_size + 1
    → r.base % a.min_size ≡ 0
    → r.base + r.size < paddr_end
    → a.lists < usize_mod - 1
    → add_region debug (suc fuel) a r ≡ some panicked
add_region_panics debug fuel a r heap free sized aligned valid few =
    free_panics debug (suc fuel) a r free
      (loop_panics debug fuel a r (round_panics debug a r heap sized aligned valid few))
