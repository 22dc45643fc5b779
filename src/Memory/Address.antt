-- ===== src/Memory/Address.antt =====
-- Physical addresses: `PAddr` and the `Address` methods of hal-core/src/addr.rs on it, for x86-64.
-- `debug` says whether the build has debug assertions and overflow checks. Alignments are powers of
-- two, so `u & (align - 1)` is written as a remainder and `(u | (align - 1)) + 1` as a multiple.
use wasm_kernel.Base.{
  ℕ, ◌+◌, ◌-◌, ◌*◌, ◌/◌, ◌%◌, ◌^◌, ◌≤◌, ◌<◌, ◌≡◌, Bool, not, ◌&&◌, ◌==◌, ltb, leb, if◌then◌else◌,
  arith, Outcome, returned, ◌>>=◌, ◌>>◌, assert, debug_assert, Yields, ◌≢◌,
}
use wasm_kernel.Memory.Math.{usize_mod, is_power_of_two, pow2, pow2_pos, is_power_of_two-pow2}

-- The addresses that `PAddr::from_usize_checked` takes: the 12 most significant bits are 0.
abbrev pub paddr_end : ℕ
paddr_end = 2 ^ 52

unfoldable pub from_usize : Bool → ℕ → Outcome ℕ
from_usize debug u = debug_assert debug (ltb u paddr_end) >> returned u

-- `+` and `-` on an address and a `usize`
unfoldable pub add : Bool → ℕ → ℕ → Outcome ℕ
unfolding from_usize
add debug u rhs =
    debug_assert debug (ltb (u + rhs) usize_mod) >> from_usize debug ((u + rhs) % usize_mod)

unfoldable pub sub : Bool → ℕ → ℕ → Outcome ℕ
unfolding from_usize
sub debug u rhs =
    debug_assert debug (leb rhs u) >> from_usize debug ((u + usize_mod - rhs) % usize_mod)

-- `i >= 0` of an `isize`, which is given by its bits
abbrev pub not_negative : ℕ → Bool
not_negative i = ltb i (2 ^ 63)

-- `offset` by an `isize`; negating the least one overflows.
unfoldable pub offset : Bool → ℕ → ℕ → Outcome ℕ
unfolding add sub
offset debug u i =
    if ltb 0 i && not_negative i
    then add debug u i
    else (debug_assert debug (not (i == 2 ^ 63)) >> sub debug u ((usize_mod - i) % usize_mod))

-- `difference`, an `isize` by its bits
abbrev pub difference : ℕ → ℕ → ℕ
difference u other = if ltb other u then usize_mod - (u - other) else other - u

unfoldable pub is_aligned : Bool → ℕ → ℕ → Outcome Bool
is_aligned debug u align = debug_assert debug (is_power_of_two align) >> returned (u % align == 0)

unfoldable pub align_up : Bool → ℕ → ℕ → Outcome ℕ
unfolding from_usize
align_up debug u align =
    assert (is_power_of_two align)
    >> (if u % align == 0
        then returned u
        else (debug_assert debug (ltb ((u / align + 1) * align) usize_mod)
            >> from_usize debug ((u / align + 1) * align % usize_mod)))

unfoldable pub align_down : Bool → ℕ → ℕ → Outcome ℕ
unfolding from_usize
align_down debug u align = assert (is_power_of_two align) >> from_usize debug (u / align * align)

-- `as_ptr` for a type of alignment `align`: the address, if it is aligned.
unfoldable pub as_ptr : Bool → ℕ → ℕ → Outcome ℕ
unfolding is_aligned
as_ptr debug u align = is_aligned debug u align >>= λ aligned. (assert aligned >> returned u)

-- `+` on valid addresses
pub offset-valid :
    (debug : Bool) (u n : ℕ) → u + n < paddr_end → offset debug u n ≡ returned (u + n)
unfolding offset add sub from_usize
offset-valid debug u n h = ground arith

pub multiple-mod : (q n : ℕ) → 0 < n → q * n % n ≡ 0
multiple-mod q n h = grind arith

around : (u n : ℕ) → 0 < n → (u / n * n ≤ u) × (u < (u / n + 1) * n) × ((u / n + 1) * n ≤ u + n)
around u n h = grind arith

unaligned : (u n : ℕ) → 0 < n → u % n ≢ 0 → (u / n + 1) * n < u + n
unaligned u n h k = grind arith

-- With room for it, rounding an address up to a power of two returns the multiple that is at least
-- the address and less than one step above it, in both builds; rounding down returns the multiple
-- that is at most the address and less than one step below it.
pub align_bounds :
    (debug : Bool) (u k : ℕ)
    → k < 64
    → u + pow2 k < paddr_end
    → Yields (align_up debug u (pow2 k)) (λ r. (r % pow2 k ≡ 0) × (u ≤ r) × (r < u + pow2 k))
      × Yields (align_down debug u (pow2 k)) (λ r. (r % pow2 k ≡ 0) × (r ≤ u) × (u < r + pow2 k))
unfolding align_up align_down from_usize
align_bounds debug u k h room =
    let n = pow2 k in
    let pos = pow2_pos k in
    rw (is_power_of_two-pow2 k h) (
      ground (
        arith,
        multiple-mod (u / n + 1) n pos,
        multiple-mod (u / n) n pos,
        around u n pos,
        unaligned u n pos,
      ))
