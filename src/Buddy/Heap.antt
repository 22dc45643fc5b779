-- ===== src/Buddy/Heap.antt =====
-- The state of the allocator, its sizes and orders, and the free blocks' headers. A header lies at
-- the start of its block, so a free list is a list of headers, its front first. `debug` says whether
-- the build has debug assertions and overflow checks.
use wasm_kernel.Base.{
  ℕ, ◌+◌, ◌-◌, ◌%◌, max, Bool, not, ◌==◌, ltb, leb, if◌then◌else◌, List, [], Outcome, returned,
  ◌>>=◌, ◌>>◌, assert, debug_assert,
}
use mathlib.Core.Option.{Option, none, some}
use wasm_kernel.Memory.Math.{usize_mod, pow2, is_power_of_two, next_power_of_two, log2_ceil}
use wasm_kernel.Memory.Address.{as_ptr}
use wasm_kernel.Memory.Region
use wasm_kernel.Memory.Region.{Region, RegionKind}

pub record Free : Type 0 where
  pub magic : ℕ
  pub meta : Region

-- `Free::MAGIC`, 0xF4EEB10C
abbrev pub magic_free : ℕ
magic_free = 4109283596

-- `Free::MAGIC_BUSY`, 0xB4DB10C
abbrev pub magic_busy : ℕ
magic_busy = 189640972

-- `lists` is the number `FREE_LISTS`.
pub record Alloc : Type 0 where
  pub lists : ℕ
  pub min_size : ℕ
  pub base_vaddr : ℕ
  pub vm_offset : ℕ
  pub min_size_log2 : ℕ
  pub heap_size : ℕ
  pub allocated_size : ℕ
  pub free_lists : ℕ → List Free

-- `size_of_free` is `size_of::<Free>()`, which the compiler chooses.
unfoldable pub new : ℕ → ℕ → ℕ → Alloc
new size_of_free lists min_size =
    let size = next_power_of_two (if ltb min_size size_of_free then size_of_free else min_size) in
    record {
      lists = lists;
      min_size = size;
      base_vaddr = usize_mod - 1;
      vm_offset = 0;
      min_size_log2 = log2_ceil size;
      heap_size = 0;
      allocated_size = 0;
      free_lists = λ _. [];
    }

-- The exchange with 0; its `expect` panics where an offset was set before.
unfoldable pub set_vm_offset : Alloc → ℕ → Outcome Alloc
set_vm_offset a offset = assert (a.vm_offset == 0) >> returned (record a { vm_offset = offset })

unfoldable pub offset : Bool → Alloc → Outcome ℕ
offset debug a = debug_assert debug (not (a.vm_offset == 0)) >> returned a.vm_offset

abbrev pub size_for_order : Alloc → ℕ → ℕ
size_for_order a order = pow2 (a.min_size_log2 + order)

pub record Layout : Type 0 where
  pub size : ℕ
  pub align : ℕ

-- The size, rounded up to the least block and to a power of two.
unfoldable pub rounded : Alloc → Layout → ℕ
rounded a layout =
    let size = max layout.size layout.align in
    let size = if ltb size a.min_size then a.min_size else size in
    if is_power_of_two size then size else next_power_of_two size

unfoldable pub size_for : Alloc → Layout → Option ℕ
size_for a layout = if ltb a.heap_size (rounded a layout) then none else some (rounded a layout)

unfoldable pub order_for_size : Bool → Alloc → ℕ → Outcome ℕ
order_for_size debug a size =
    debug_assert debug (leb a.min_size_log2 (log2_ceil size))
    >> returned ((log2_ceil size + usize_mod - a.min_size_log2) % usize_mod)

unfoldable pub order_for : Bool → Alloc → Layout → Outcome (Option ℕ)
order_for debug a layout = elim (size_for a layout) [
  | none ↦ returned none
  | some size ↦ (order_for_size debug a size >>= λ order. returned (some order))
]

-- The address of a block's header
abbrev pub vaddr : ℕ → Free → ℕ
vaddr offset f = (f.meta.base + offset) % usize_mod

abbrev pub align_of_free : ℕ
align_of_free = 8

-- `Free::new` writes a header at the start of the region; it panics where the region is not aligned
-- for one, or where its header's address is 0.
unfoldable pub new_free : Bool → Region → ℕ → Outcome Free
unfolding as_ptr
new_free debug region offset = as_ptr debug region.base align_of_free >>= λ base.
    (debug_assert debug (ltb (base + offset) usize_mod)
      >> assert (not ((base + offset) % usize_mod == 0))
      >> returned (record { magic = magic_free; meta = region }))

-- `Free::split_back`; the block that is split is on no list.
unfoldable pub split_back : Bool → Free → ℕ → ℕ → Outcome (Free × Option Free)
unfolding new_free
split_back debug f size offset =
    debug_assert debug (f.magic == magic_free)
    >> Region.split_back debug f.meta size
    >>= λ (meta, new_meta). elim new_meta [
      | none ↦ returned (record f { meta = meta }, none)
      | some r ↦
          (debug_assert debug (r.size == size)
            >> debug_assert debug (meta.size == size)
            >> new_free debug r offset
            >>= λ new. returned (record f { meta = meta }, some new))
    ]

-- `Free::merge`; the other block is on no list.
unfoldable pub merge : Bool → Free → Free → Outcome Free
merge debug f other =
    debug_assert debug (f.magic == magic_free)
    >> debug_assert debug (other.magic == magic_free)
    >> Region.merge debug f.meta other.meta
    >>= λ meta. returned (record f { meta = meta })

abbrev pub make_busy : Free → Free
make_busy f = record f { magic = magic_busy }
