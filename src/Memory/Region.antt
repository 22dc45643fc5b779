-- ===== src/Memory/Region.antt =====
-- `Region` of hal-core/src/mem.rs, over physical addresses.
use wasm_kernel.Base.{
  ℕ, ◌+◌, ◌-◌, ◌^◌, ◌<◌, ◌≡◌, min, Bool, false, ◌==◌, ◌%◌, ◌&&◌, ltb, leb, if◌then◌else◌, arith,
  Outcome, returned, ◌>>=◌, ◌>>◌, assert, debug_assert, Yields,
}
use mathlib.Core.Option.{Option, none, some}
use wasm_kernel.Memory.Address.{paddr_end, add, offset, offset-valid}
use wasm_kernel.Memory.Math.{usize_mod}

pub data RegionKind : Type 0 where
  unknown : RegionKind
  free : RegionKind
  used : RegionKind
  boot_reclaimable : RegionKind
  boot : RegionKind
  bad : RegionKind
  kernel : RegionKind
  kernel_stack : RegionKind
  page_table : RegionKind

pub record Region : Type 0 where
  pub base : ℕ
  pub size : ℕ
  pub kind : RegionKind

abbrev pub isize_max : ℕ
isize_max = 2 ^ 63 - 1

unfoldable pub end_addr : Bool → Region → Outcome ℕ
end_addr debug r = add debug r.base r.size

unfoldable pub contains : Bool → Region → ℕ → Outcome Bool
unfolding end_addr
contains debug r addr =
    if leb r.base addr then (end_addr debug r >>= λ e. returned (ltb addr e)) else returned false

-- The region that is left, and the one that was split off.
unfoldable pub split_front : Bool → Region → ℕ → Outcome (Region × Option Region)
split_front debug r size =
    assert (leb size isize_max)
    >> (if ltb r.size size
        then returned (r, none)
        else (offset debug r.base size >>= λ base. returned (
          record r { base = base; size = r.size - size },
          some (record { base = r.base; size = size; kind = r.kind }),
        )))

unfoldable pub split_back : Bool → Region → ℕ → Outcome (Region × Option Region)
split_back debug r size =
    assert (leb size isize_max)
    >> (if leb r.size size
        then returned (r, none)
        else (offset debug r.base size >>= λ base. returned (
          record r { size = size },
          some (record { base = base; size = r.size - size; kind = r.kind }),
        )))

-- The derived `==` on kinds, by their numbers.
abbrev pub kind_code : RegionKind → ℕ
kind_code RegionKind.unknown = 0
kind_code RegionKind.free = 1
kind_code RegionKind.used = 2
kind_code RegionKind.boot_reclaimable = 3
kind_code RegionKind.boot = 4
kind_code RegionKind.bad = 5
kind_code RegionKind.kernel = 6
kind_code RegionKind.kernel_stack = 7
kind_code RegionKind.page_table = 8

-- The sizes add up with an overflow check.
unfoldable pub merge : Bool → Region → Region → Outcome Region
merge debug r other =
    debug_assert debug (kind_code r.kind == kind_code other.kind)
    >> debug_assert debug (ltb (r.size + other.size) usize_mod)
    >> returned
        (record r { base = min r.base other.base; size = (r.size + other.size) % usize_mod })

-- 1 for an address in the region, 0 for any other.
abbrev pub inside : Region → ℕ → ℕ
inside r addr = if leb r.base addr && ltb addr (r.base + r.size) then 1 else 0

-- The region's addresses are all valid.
abbrev pub Valid : Region → Type 0
Valid r = (r.base + r.size < paddr_end)

pub split_back_lem :
    (debug : Bool) (r : Region) (size : ℕ)
    → Valid r
    → size < r.size
    → split_back debug r size
      ≡ returned (
        record r { size = size },
        some (record { base = r.base + size; size = r.size - size; kind = r.kind }),
      )
unfolding split_back
split_back_lem debug r size v h = rw (offset-valid debug r.base size (omega arith)) (ground arith)

-- Splitting a region of valid addresses at a size below its own returns two regions, in both builds:
-- each address of the region is in exactly one of them and no other address is in either, and merging
-- them, in either order, returns the region.
split_back-merge :
    (debug : Bool) (r : Region) (size : ℕ)
    → Valid r
    → size < r.size
    → Yields (split_back debug r size) (λ (front, rest). elim rest as (λ _. Type 0) [
      | none ↦ ⊥
      | some back ↦
          ((c : ℕ) → inside r c ≡ inside front c + inside back c)
          × (merge debug front back ≡ returned r)
          × (merge debug back front ≡ returned r)
    ])
unfolding merge
split_back-merge debug r size v h =
    let whole : size + (r.size - size) ≡ r.size = omega arith in
    rw (split_back_lem debug r size v h) (λ c. ground arith, ground arith, ground arith)
