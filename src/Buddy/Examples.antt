-- ===== src/Buddy/Examples.antt =====
-- A small heap, and the theorems at it.
use wasm_kernel.Base.{
  panicked, sym, ℕ, zero, suc, ◌+◌, ◌*◌, ◌^◌, ◌≤◌, ◌≡◌, refl, true, false, ◌==◌, if◌then◌else◌, [],
  ◌∷◌, arith, returned, Yields,
}
use mathlib.Core.Option.{Option, none, some}
use wasm_kernel.Memory.Math.{pow2, is_power_of_two}
use wasm_kernel.Memory.Region.{Region, RegionKind, inside}
use wasm_kernel.Buddy.Heap.{
  Free, Alloc, Layout, magic_free, magic_busy, vaddr, rounded, size_for_order,
}
use wasm_kernel.Buddy.Alloc.{alloc_inner}
use wasm_kernel.Buddy.Dealloc.{
  Memory, remove_at, buddy_addr, flip_bit, take_at, take_buddy, dealloc_inner,
}
use wasm_kernel.Buddy.Regions.{add_region}
use wasm_kernel.Buddy.Cover.{covering, cover}
use wasm_kernel.Buddy.Split.{Good, AllGood}
use wasm_kernel.Buddy.Taken.{Heap}
use wasm_kernel.Buddy.Allocated.{IsLayout, Allocates, alloc_inner-Allocates}
use wasm_kernel.Buddy.Freed.{Frees, dealloc_inner-Frees}
use wasm_kernel.Buddy.Searched.{Apart, buddy_of, Passed, Mismatched}
use wasm_kernel.Buddy.Pages.{alloc_range}
use wasm_kernel.Buddy.Ranges.{Ranged, alloc_range-Ranged}
use wasm_kernel.Buddy.Added.{Added, add_region-Added, add_region_overruns}

abbrev block : Free
block = record {
  magic = magic_free;
  meta = record { base = 4096; size = 128; kind = RegionKind.free };
}

-- Four lists from 64 bytes on, with one block of 128 bytes.
abbrev heap : Alloc
heap = record {
  lists = 4;
  min_size = 64;
  base_vaddr = 2 ^ 40 + 4096;
  vm_offset = 2 ^ 40;
  min_size_log2 = 6;
  heap_size = 128;
  allocated_size = 0;
  free_lists = λ k. if k == 1 then block ∷ [] else [];
}

abbrev layout : Layout
layout = record { size = 60; align = 8 }

block-Good : Good 6 1 block
unfolding pow2
block-Good = record { marked = refl; sized = refl; aligned = refl; valid = omega arith }

above_1 : (k : ℕ) → (suc (suc k) == 1) ≡ false
above_1 k = ground arith

heap-AllGood : AllGood 6 (heap.free_lists)
heap-AllGood zero = tt
heap-AllGood (suc zero) = (block-Good, tt)
heap-AllGood (suc (suc k)) = rw (above_1 k) tt

heap-Heap : Heap heap
unfolding pow2
heap-Heap = record {
  mapped = record { least = omega arith; set = omega arith; fits = omega arith };
  good = heap-AllGood;
  least = refl;
  word = omega arith;
}

layout-IsLayout : IsLayout layout
layout-IsLayout = record { size_fits = omega arith; align_fits = omega arith }

rounded_64 : rounded heap layout ≡ 64
unfolding rounded is_power_of_two
rounded_64 = refl

size_64 : size_for_order heap 0 ≡ 64
unfolding pow2
size_64 = refl

size_1024 : size_for_order heap 4 ≡ 1024
unfolding pow2
size_1024 = refl

alloc_inner-Allocates_example :
    Yields (alloc_inner true heap layout) (λ (a', r). Allocates heap layout a' r)
alloc_inner-Allocates_example =
    alloc_inner-Allocates true heap layout heap-Heap layout-IsLayout
      (omega (arith, rounded_64, size_1024))

abbrev freed : Region
freed = record { base = 8192; size = rounded heap layout; kind = RegionKind.free }

freed-Apart : Apart freed (cover 4 (heap.free_lists))
unfolding cover covering
freed-Apart c h = ground (arith, rounded_64)

-- A memory in which nothing says that it is free.
abbrev busy : Memory
busy = record {
  header = λ _ _. record block { magic = magic_busy };
  stray = λ _ _ lists. returned (none, lists);
}

dealloc_inner-Frees_example :
    (remove_at heap.vm_offset (buddy_of heap 0 8192) (heap.free_lists 0) ≡ none)
    × (Passed true busy heap 0 (buddy_of heap 0 8192)
        → Yields (dealloc_inner true busy heap 8192 layout) (Frees heap freed))
    × (Mismatched busy heap 0 (buddy_of heap 0 8192)
        → dealloc_inner true busy heap 8192 layout ≡ panicked)
dealloc_inner-Frees_example =
    dealloc_inner-Frees true busy heap 8192 layout 0 heap-Heap layout-IsLayout
      (omega (arith, rounded_64)) (omega arith) (rw rounded_64 (sym size_64)) (omega arith) refl
      (omega (arith, rounded_64)) freed-Apart

-- A block of 64 bytes is free at the heap's base, and one of 4096 bytes right above it is freed: a
-- debug build takes the one's header for the other's buddy, and panics.
abbrev small_block : Free
small_block = record {
  magic = magic_free;
  meta = record { base = 4096; size = 64; kind = RegionKind.free };
}

abbrev small_first : Alloc
small_first = record heap { lists = 8; free_lists = λ k. if k == 0 then small_block ∷ [] else [] }

abbrev large_block : Free
large_block = record small_block {
  meta = record { base = 4160; size = 4096; kind = RegionKind.free };
}

other_order_panics :
    (buddy_of small_first 6 4160 ≡ vaddr small_first.vm_offset small_block)
    × (take_buddy true
          (record busy { header = λ _ _. small_block })
          small_first
          small_first.vm_offset
          large_block
          6
        ≡ panicked)
unfolding buddy_addr take_buddy take_at flip_bit pow2
other_order_panics = (refl, refl)

abbrev added : ℕ → Region
added base = record { base = base; size = 128; kind = RegionKind.free }

size_128 : 128 ≡ size_for_order heap 1
unfolding pow2
size_128 = refl

add_region-Added_example :
    (a' : Alloc) × (add_region true 1 heap (added 8192) ≡ some (returned (some a')))
    × Added heap (added 8192) a'
add_region-Added_example =
    add_region-Added true 0 heap 1 (added 8192) heap-Heap refl size_128 (omega arith) (omega arith)
      (omega arith)

add_region_overruns_example :
    (a' : Alloc) × (add_region true 1 heap (added 8200) ≡ some (returned (some a')))
    × (cover a'.lists a'.free_lists 8328 ≡ cover 4 (heap.free_lists) 8328 + 1)
    × (inside (added 8200) 8328 ≡ 0)
add_region_overruns_example =
    add_region_overruns true 0 heap 1 (added 8200) heap-Heap refl size_128 (omega arith)
      (omega arith) (omega arith) (omega arith)

-- One page of 64 bytes.
abbrev one_page : Layout
one_page = record { size = pow2 6 * pow2 0; align = pow2 6 }

one_page_small : pow2 6 * pow2 0 + pow2 6 ≤ 2 ^ 63
unfolding pow2
one_page_small = omega arith

one_page_64 : rounded heap one_page ≡ 64
unfolding rounded is_power_of_two pow2
one_page_64 = refl

alloc_range-Ranged_example :
    Yields
      (alloc_range true heap (pow2 6) (pow2 0))
      (λ (a', range). (f : Option Free) × Allocates heap one_page a' f × Ranged 6 f range)
alloc_range-Ranged_example =
    alloc_range-Ranged true heap 6 0 heap-Heap one_page_small
      (omega (arith, one_page_64, size_1024))
