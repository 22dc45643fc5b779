-- ===== src/Memory/Examples.antt =====
-- Tests of the numbers, and the theorems at concrete addresses and regions.
use wasm_kernel.Base.{false, ◌%◌, ◌≢◌, ◌+◌, ◌-◌, ◌*◌, ◌^◌, ◌≡◌, refl, arith, true, returned}
use mathlib.Core.Option.{none, some}
use wasm_kernel.Memory.Math.{pow2, log2_ceil, checked_log}
use wasm_kernel.Memory.Region.{Region, RegionKind}
use wasm_kernel.Memory.Address.{add, from_usize}
use wasm_kernel.Memory.Pages.{
  PageRange, mul, page_add, page_end, page_contains, page_range, range_size, range_len,
  from_page_range, next_page,
}
use wasm_kernel.Memory.Virtual.{from_usize_checked}
use wasm_kernel.Memory.Ranges.{range_of, page_range-from_page_range}

log2_ceil_33 : log2_ceil 33 ≡ 6
unfolding log2_ceil
log2_ceil_33 = refl

checked_log_1000 : checked_log 1000 10 ≡ some 3
unfolding checked_log
checked_log_1000 = refl

pow2_6 : pow2 6 ≡ 64
unfolding pow2
pow2_6 = refl

abbrev region : Region
region = record { base = 4096; size = 128; kind = RegionKind.free }

page_range-from_page_range_example :
    (region.base % pow2 6 ≡ 0
      → (page_range true region (pow2 6) ≡ returned (some (range_of region (pow2 6) 1)))
        × (range_size true (range_of region (pow2 6) 1) ≡ returned region.size)
        × (range_len true (range_of region (pow2 6) 1) ≡ returned 2)
        × (from_page_range true (range_of region (pow2 6) 1) region.kind ≡ returned region))
    × (region.base % pow2 6 ≢ 0 → page_range true region (pow2 6) ≡ returned none)
page_range-from_page_range_example =
    page_range-from_page_range true region 6 1 (omega arith) (rw pow2_6 refl) (omega arith)

abbrev two_pages : PageRange
two_pages = range_of region 64 1

-- A loop over the range takes two pages.
takes_both :
    (next_page true two_pages
      ≡ returned (record two_pages { start = two_pages.end }, some two_pages.start))
    × (next_page true (record two_pages { start = two_pages.end })
        ≡ returned
            (record two_pages { start = record { base = 4224; size = 64 } }, some two_pages.end))
    × (next_page true (record two_pages { start = record { base = 4224; size = 64 } })
        ≡ returned (record two_pages { start = record { base = 4224; size = 64 } }, none))
unfolding next_page page_add mul add from_usize
takes_both = (refl, refl, refl)

-- The last byte of a page is not in it.
last_byte : page_contains true two_pages.start (two_pages.start.base + 63) ≡ returned false
unfolding page_contains page_end add from_usize
last_byte = refl

-- The addresses of the unit test `x86_64_vaddr_validation`
vaddr_validation :
    (from_usize_checked (2 ^ 64 - 2 ^ 47 + 123) ≡ some (2 ^ 64 - 2 ^ 47 + 123))
    × (from_usize_checked 123 ≡ some 123)
    × (from_usize_checked (123 + 2 ^ 47) ≡ none)
    × (from_usize_checked (0x10101 * 2 ^ 47 + 123) ≡ none)
unfolding from_usize_checked
vaddr_validation = (refl, refl, refl, refl)
