-- ===== src/Buddy/Pages.antt =====
-- `alloc_range` and `dealloc_range`: page ranges from the allocator.
use wasm_kernel.Base.{
  ℕ, ◌-◌, ◌*◌, ◌^◌, Bool, ◌&&◌, ltb, leb, ◌==◌, if◌then◌else◌, Outcome, returned, ◌>>=◌, ◌>>◌,
  assert, debug_assert,
}
use mathlib.Core.Option.{Option, none, some}
use wasm_kernel.Memory.Math.{usize_mod, is_power_of_two, next_power_of_two}
use wasm_kernel.Memory.Pages.{PageRange, page_range, range_len}
use wasm_kernel.Buddy.Heap.{Alloc, Layout}
use wasm_kernel.Buddy.Alloc.{alloc_inner}
use wasm_kernel.Buddy.Dealloc.{Memory, dealloc_inner}

-- The length, rounded up; `next_power_of_two` has a check for overflow.
unfoldable pub actual_len : Bool → ℕ → Outcome ℕ
actual_len debug len =
    if is_power_of_two len
    then returned len
    else (debug_assert debug (leb len (2 ^ 63)) >> returned (next_power_of_two len))

-- `Layout::from_size_align`, with its checks in a debug build only
unfoldable pub layout_of : Bool → ℕ → ℕ → Outcome Layout
layout_of debug size align =
    debug_assert debug (is_power_of_two align && leb size (2 ^ 63 - align))
    >> returned (record { size = size; align = align })

-- `size` is the pages' size. An error of either kind is `none`.
unfoldable pub alloc_range : Bool → Alloc → ℕ → ℕ → Outcome (Alloc × Option PageRange)
unfolding actual_len layout_of
alloc_range debug a size len =
    debug_assert debug (is_power_of_two size) >> actual_len debug len >>= λ actual.
    if ltb (size * actual) usize_mod
    then (debug_assert debug (is_power_of_two (size * actual))
        >> layout_of debug (size * actual) size
        >>= λ layout. alloc_inner debug a layout >>= λ (a', found). elim found [
          | none ↦ returned (a', none)
          | some block ↦ (page_range debug block.meta size >>= λ range. returned (a', range))
        ])
    else returned (a, none)

unfoldable pub dealloc_range : Bool → Memory → Alloc → PageRange → Outcome (Option Alloc)
unfolding layout_of
dealloc_range debug mem a range =
    debug_assert debug (range.start.size == range.end.size) >> range_len debug range >>= λ len.
    (assert (ltb (range.start.size * len) usize_mod)
      >> layout_of debug (range.start.size * len) range.start.size
      >>= λ layout. dealloc_inner debug mem a range.start.base layout)
