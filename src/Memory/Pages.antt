-- ===== src/Memory/Pages.antt =====
-- `Page` and `PageRange` of hal-core/src/mem/page.rs over physical addresses, and the page ranges of
-- `Region`. A page size is its number of bytes.
use wasm_kernel.Base.{
  false, ℕ, ◌+◌, ◌-◌, ◌*◌, ◌/◌, ◌%◌, Bool, not, ◌==◌, ◌&&◌, ltb, leb, if◌then◌else◌, Outcome,
  returned, ◌>>=◌, ◌>>◌, assert, debug_assert,
}
use mathlib.Core.Option.{Option, none, some}
use wasm_kernel.Memory.Math.{usize_mod}
use wasm_kernel.Memory.Address.{difference, not_negative, add, sub, is_aligned, align_down}
use wasm_kernel.Memory.Region.{RegionKind, Region, end_addr}

pub record Page : Type 0 where
  pub base : ℕ
  pub size : ℕ

pub record PageRange : Type 0 where
  pub start : Page
  pub end : Page

-- The product and its check for overflow
unfoldable pub mul : Bool → ℕ → ℕ → Outcome ℕ
mul debug m n = debug_assert debug (ltb (m * n) usize_mod) >> returned (m * n % usize_mod)

unfoldable pub containing : Bool → ℕ → ℕ → Outcome Page
unfolding align_down
containing debug addr size =
    align_down debug addr size >>= λ base. returned (record { base = base; size = size })

-- `none` is the error `NotAligned`.
unfoldable pub starting_at : Bool → ℕ → ℕ → Outcome (Option Page)
unfolding is_aligned containing
starting_at debug addr size = is_aligned debug addr size >>= λ aligned.
    if aligned then (containing debug addr size >>= λ page. returned (some page)) else returned none

-- `page + n` and `page - n`
unfoldable pub page_add : Bool → Page → ℕ → Outcome Page
unfolding mul add
page_add debug page n = mul debug page.size n >>= λ bytes.
    add debug page.base bytes >>= λ base. returned (record page { base = base })

unfoldable pub page_sub : Bool → Page → ℕ → Outcome Page
unfolding mul sub
page_sub debug page n = mul debug page.size n >>= λ bytes.
    sub debug page.base bytes >>= λ base. returned (record page { base = base })

-- A size of 0 underflows.
unfoldable pub page_end : Bool → Page → Outcome ℕ
unfolding add
page_end debug page =
    if page.size == 0
    then (debug_assert debug false >> add debug page.base (usize_mod - 1))
    else add debug page.base (page.size - 1)

-- `Page::contains`
unfoldable pub page_contains : Bool → Page → ℕ → Outcome Bool
unfolding page_end
page_contains debug page addr =
    if leb page.base addr
    then (page_end debug page >>= λ last. returned (ltb addr last))
    else returned false

unfoldable pub range_to : Bool → Page → Page → Outcome PageRange
unfolding page_sub
range_to debug start end =
    page_sub debug end 1 >>= λ last. returned (record { start = start; end = last })

unfoldable pub page_range : Bool → Region → ℕ → Outcome (Option PageRange)
unfolding starting_at range_to end_addr
page_range debug r size = starting_at debug r.base size >>= λ start. elim start [
  | none ↦ returned none
  | some start ↦
      (end_addr debug r >>= λ addr. starting_at debug addr size >>= λ end. elim end [
        | none ↦ returned none
        | some end ↦ (range_to debug start end >>= λ range. returned (some range))
      ])
]

-- `PageRange::size`, its base and last address compared
unfoldable pub range_size : Bool → PageRange → Outcome ℕ
unfolding page_end
range_size debug range = page_end debug range.end >>= λ last.
    (debug_assert debug (not_negative (difference range.start.base last))
      >> debug_assert debug (ltb (difference range.start.base last + 1) usize_mod)
      >> debug_assert debug (range.start.size == range.end.size)
      >> debug_assert debug
          (leb range.start.size ((difference range.start.base last + 1) % usize_mod))
      >> returned ((difference range.start.base last + 1) % usize_mod))

-- `PageRange::len`; dividing by 0 panics.
unfoldable pub range_len : Bool → PageRange → Outcome ℕ
unfolding range_size
range_len debug range = range_size debug range >>= λ size.
    (debug_assert debug (range.start.size == range.end.size)
      >> assert (not (range.start.size == 0))
      >> returned (size / range.start.size))

unfoldable pub from_page_range : Bool → PageRange → RegionKind → Outcome Region
unfolding range_size
from_page_range debug range kind = range_size debug range >>= λ size.
    returned (record { base = range.start.base; size = size; kind = kind })

-- `next`: the range that is left, and the page. Pages of different sizes do not compare.
unfoldable pub next_page : Bool → PageRange → Outcome (PageRange × Option Page)
unfolding page_add
next_page debug range =
    if (range.start.size == range.end.size) && ltb range.end.base range.start.base
    then returned (range, none)
    else (page_add debug range.start 1 >>= λ start.
        returned (record range { start = start }, some range.start))
