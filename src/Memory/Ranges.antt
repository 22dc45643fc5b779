-- ===== src/Memory/Ranges.antt =====
-- A region as a range of pages, and back.
use wasm_kernel.Base.{
  ℕ, ◌+◌, ◌-◌, ◌*◌, ◌/◌, ◌%◌, false, ◌==◌, ◌<◌, ◌≡◌, ◌≢◌, refl, sym, ap, ◌∙◌, Bool, returned, arith,
}
use mathlib.Core.Option.{none, some}
use wasm_kernel.Memory.Math.{usize_mod, pow2, pow2_pos, is_power_of_two-pow2}
use wasm_kernel.Memory.Address.{
  paddr_end, add, sub, multiple-mod, is_aligned, align_down, from_usize,
}
use wasm_kernel.Memory.Region.{Region, end_addr}
use wasm_kernel.Memory.Pages.{
  PageRange, mul, containing, starting_at, page_sub, page_end, range_to, page_range, range_size,
  range_len, from_page_range,
}

whole : (u n : ℕ) → 0 < n → u % n ≡ 0 → u / n * n ≡ u
whole u n h e = grind arith

pub starting_at_aligned :
    (debug : Bool) (u k : ℕ)
    → k < 64
    → u % pow2 k ≡ 0
    → u < paddr_end
    → starting_at debug u (pow2 k) ≡ returned (some (record { base = u; size = pow2 k }))
unfolding starting_at is_aligned containing align_down from_usize
starting_at_aligned debug u k h e b =
    let w = whole u (pow2 k) (pow2_pos k) e in rw (is_power_of_two-pow2 k h) (ground (arith, w))

pub starting_at_unaligned :
    (debug : Bool) (u k : ℕ)
    → k < 64
    → u % pow2 k ≢ 0
    → starting_at debug u (pow2 k) ≡ returned none
unfolding starting_at is_aligned
starting_at_unaligned debug u k h e = rw (is_power_of_two-pow2 k h) (ground arith)

-- The pages of a region of `n + 1` pages
abbrev pub range_of : Region → ℕ → ℕ → PageRange
range_of r size n = record {
  start = record { base = r.base; size = size };
  end = record { base = r.base + n * size; size = size };
}

mul_one : (debug : Bool) (size : ℕ) → size < usize_mod → mul debug size 1 ≡ returned size
unfolding mul
mul_one debug size h = let e : size * 1 ≡ size = omega arith in rw e (ground arith)

sub_valid : (debug : Bool) (u n : ℕ) → u + n < paddr_end → sub debug (u + n) n ≡ returned u
unfolding sub from_usize
sub_valid debug u n h = ground arith

add_valid : (debug : Bool) (u n : ℕ) → u + n < paddr_end → add debug u n ≡ returned (u + n)
unfolding add from_usize
add_valid debug u n h = ground arith

range_to_lem :
    (debug : Bool) (r : Region) (size n : ℕ)
    → r.base + (n * size + size) < paddr_end
    → range_to debug
        (record { base = r.base; size = size })
        (record { base = r.base + (n * size + size); size = size })
      ≡ returned (range_of r size n)
unfolding range_to page_sub
range_to_lem debug r size n h =
    let e : r.base + (n * size + size) ≡ r.base + n * size + size = omega (arith, h) in
    rw
      (
        mul_one debug size (omega (arith, h)),
        e,
        sub_valid debug (r.base + n * size) size (omega (arith, h)),
      )
      refl

-- `m` is how far the last page is from the first.
range_size_at :
    (debug : Bool) (base m size : ℕ)
    → 0 < size
    → base + (m + size) < paddr_end
    → range_size debug (record {
      start = record { base = base; size = size };
      end = record { base = base + m; size = size };
    })
      ≡ returned (m + size)
unfolding range_size page_end
range_size_at debug base m size p h =
    let some_size : (size == 0) ≡ false = ground arith in
    rw (some_size, add_valid debug (base + m) (size - 1) (omega (arith, p, h))) (ground arith)

range_len_at :
    (debug : Bool) (range : PageRange) (n size : ℕ)
    → range.start.size ≡ size
    → range.end.size ≡ size
    → 0 < size
    → range_size debug range ≡ returned (n * size + size)
    → range_len debug range ≡ returned (n + 1)
unfolding range_len
range_len_at debug range n size a b p e =
    let d : (n * size + size) / size ≡ n + 1 = grind arith in rw (e, a, b, d) (ground arith)

distribute : (q n p : ℕ) → (q + n + 1) * p ≡ q * p + (n * p + p)
distribute q n p = grind arith

aligned_end : (b n p : ℕ) → 0 < p → b % p ≡ 0 → (b + (n * p + p)) % p ≡ 0
aligned_end b n p h e =
    let w = whole b p h e in
    let d = distribute (b / p) n p in
    let f : b + (n * p + p) ≡ (b / p + n + 1) * p = omega (arith, w, d) in
    rw f (multiple-mod (b / p + n + 1) p h)

page_range_at :
    (debug : Bool) (r : Region) (k n : ℕ)
    → k < 64
    → r.size ≡ n * pow2 k + pow2 k
    → r.base + r.size < paddr_end
    → r.base % pow2 k ≡ 0
    → page_range debug r (pow2 k) ≡ returned (some (range_of r (pow2 k) n))
unfolding page_range end_addr
page_range_at debug r k n h s b e =
    let p = pow2_pos k in
    let f = aligned_end r.base n (pow2 k) p e in
    let c : r.base + (n * pow2 k + pow2 k) < paddr_end = omega (arith, b, s) in
    rw
      (
        starting_at_aligned debug r.base k h e (omega (arith, b)),
        add_valid debug r.base r.size b,
        s,
        starting_at_aligned debug (r.base + (n * pow2 k + pow2 k)) k h f c,
        range_to_lem debug r (pow2 k) n c,
      )
      refl

page_range_unaligned :
    (debug : Bool) (r : Region) (k : ℕ)
    → k < 64
    → r.base % pow2 k ≢ 0
    → page_range debug r (pow2 k) ≡ returned none
unfolding page_range
page_range_unaligned debug r k h e = rw (starting_at_unaligned debug r.base k h e) refl

from_page_range_at :
    (debug : Bool) (r : Region) (range : PageRange)
    → range.start.base ≡ r.base
    → range_size debug range ≡ returned r.size
    → from_page_range debug range r.kind ≡ returned r
unfolding from_page_range
from_page_range_at debug r range b e = rw (e, b) refl

-- A region of `n + 1` pages of `2^k` bytes with a valid end whose base is aligned on them is, in both
-- builds, the range of these pages: it has the region's base and size and so many pages, and is the
-- region again. With a base that is not aligned it is refused.
pub page_range-from_page_range :
    (debug : Bool) (r : Region) (k n : ℕ)
    → k < 64
    → r.size ≡ n * pow2 k + pow2 k
    → r.base + r.size < paddr_end
    → (r.base % pow2 k ≡ 0
        → (page_range debug r (pow2 k) ≡ returned (some (range_of r (pow2 k) n)))
          × (range_size debug (range_of r (pow2 k) n) ≡ returned r.size)
          × (range_len debug (range_of r (pow2 k) n) ≡ returned (n + 1))
          × (from_page_range debug (range_of r (pow2 k) n) r.kind ≡ returned r))
      × (r.base % pow2 k ≢ 0 → page_range debug r (pow2 k) ≡ returned none)
page_range-from_page_range debug r k n h s b =
    let p = pow2_pos k in
    let size = range_size_at debug r.base (n * pow2 k) (pow2 k) p (omega (arith, b, s)) in
    let same = size ∙ ap (λ (z : ℕ). returned z) (sym s) in
    (
      λ e. (
        page_range_at debug r k n h s b e,
        same,
        range_len_at debug (range_of r (pow2 k) n) n (pow2 k) refl refl p size,
        from_page_range_at debug r (range_of r (pow2 k) n) refl same,
      ),
      λ e. page_range_unaligned debug r k h e,
    )
