-- ===== src/Buddy/Added.antt =====
-- What `add_region` does with a region whose size is a power of two.
use wasm_kernel.Base.{
  ℕ, suc, ◌+◌, ◌%◌, ◌≤◌, ◌<◌, ◌≡◌, ◌≢◌, refl, ap, ◌∙◌, min, Bool, true, ◌==◌, ◌∷◌, arith, returned,
  Yields, Yields->>=, Yields-eq_returned,
}
use mathlib.Core.Option.{none, some}
use mathlib.Core.Path.{subst}
use wasm_kernel.Memory.Math.{
  usize_mod, pow2-le, pow2-64, pow2-lt_lt, is_power_of_two, is_power_of_two-pow2,
}
use wasm_kernel.Memory.Address.{paddr_end}
use wasm_kernel.Memory.Region.{Region, RegionKind, inside, kind_code}
use wasm_kernel.Buddy.Heap.{Free, Alloc, magic_free, size_for_order}
use wasm_kernel.Buddy.Cover.{covering, cover, cover-update}
use wasm_kernel.Buddy.Split.{Good, AllGood-update}
use wasm_kernel.Buddy.Taken.{Heap}
use wasm_kernel.Buddy.Regions.{align_region, split_region, add_round, region_loop, add_region}
use wasm_kernel.Buddy.Blocks.{Rounded, align_region-Rounded, with_block, add_block_lem, multiple_8}

-- What adding a region comes to: a block of the region's size at the next multiple of the least
-- block's size.
pub record Added (a : Alloc) (r : Region) (a' : Alloc) : Type 0 where
  pub base : ℕ
  pub rounded : Rounded a.min_size r.base base
  pub kept : Heap a'
  pub covers :
      (c : ℕ)
      → cover a'.lists a'.free_lists c
        ≡ cover a.lists a.free_lists c + inside (record r { base = base }) c
  pub grown : a'.heap_size ≡ a.heap_size + r.size
  pub lowest : a'.base_vaddr ≡ min a.base_vaddr (base + a.vm_offset)

with_block-Added :
    (a : Alloc) (order : ℕ) (r r' : Region)
    → Heap a
    → order < a.lists
    → r'.size ≡ r.size
    → Rounded a.min_size r.base r'.base
    → r'.size ≡ size_for_order a order
    → r'.base % 8 ≡ 0
    → r'.base + r'.size < paddr_end
    → Added a r (with_block a order r')
unfolding covering
with_block-Added a order r r' heap h same near sized aligned valid =
    let block : Free = record { magic = magic_free; meta = r' } in
    let good : Good a.min_size_log2 order block = record {
      marked = refl;
      sized = sized;
      aligned = aligned;
      valid = valid;
    } in
    record {
      base = r'.base;
      rounded = near;
      kept = record {
        mapped = heap.mapped;
        good =
            AllGood-update a.min_size_log2 order a.free_lists (block ∷ a.free_lists order) heap.good
              (good, heap.good order);
        least = heap.least;
        word = heap.word;
      };
      covers = λ c.
          ground (arith, cover-update a.lists order a.free_lists (block ∷ a.free_lists order) c h);
      grown = omega arith;
      lowest = refl;
    }

split_region_whole :
    (debug : Bool) (a : Alloc) (size : ℕ) (r : Region)
    → is_power_of_two size ≡ true
    → split_region debug a size r ≡ returned (r, none)
unfolding split_region
split_region_whole debug a size r e = rw e refl

add_round-Added :
    (debug : Bool) (a : Alloc) (order : ℕ) (r : Region)
    → Heap a
    → r.size ≡ size_for_order a order
    → order < a.lists
    → r.base + r.size + a.min_size < paddr_end
    → a.heap_size + r.size < usize_mod
    → Yields (add_round debug a r) (λ (a', next). (next ≡ none) × Added a r a')
unfolding add_round
add_round-Added debug a order r heap sized h valid fits =
    let word : a.min_size_log2 + order < 64 =
      pow2-lt_lt (a.min_size_log2 + order) 64 (omega (arith, pow2-64)) in
    let power : is_power_of_two r.size ≡ true =
      ap is_power_of_two sized ∙ is_power_of_two-pow2 (a.min_size_log2 + order) word in
    Yields->>= (λ r'. (r'.size ≡ r.size) × Rounded a.min_size r.base r'.base)
      (λ (a', next). (next ≡ none) × Added a r a') (align_region debug a r) _
      (align_region-Rounded debug a r heap (omega arith))
      (λ r' (same, near).
        let aligned =
          multiple_8 r'.base a.min_size_log2 heap.mapped.least
            (subst (λ n. r'.base % n ≡ 0) heap.least near.multiple) in
        let room : r'.base + r'.size < paddr_end = omega (arith, near.near) in
        rw
          (
            split_region_whole debug a r.size r' power,
            add_block_lem debug a order r' heap h (same ∙ sized) aligned room (omega arith),
          )
          (refl, with_block-Added a order r r' heap h same near (same ∙ sized) aligned room))

region_loop_one :
    (debug : Bool) (fuel : ℕ) (a a' : Alloc) (r : Region)
    → add_round debug a r ≡ returned (a', none)
    → region_loop debug (suc fuel) a r ≡ some (returned a')
unfolding region_loop
region_loop_one debug fuel a a' r e = rw (region_loop, e) refl

add_region-free :
    (debug : Bool) (fuel : ℕ) (a a' : Alloc) (r : Region)
    → r.kind ≡ RegionKind.free
    → region_loop debug fuel a r ≡ some (returned a')
    → add_region debug fuel a r ≡ some (returned (some a'))
unfolding add_region
add_region-free debug fuel a a' r k e =
    rw (ap (λ i. kind_code i == kind_code RegionKind.free) k, e) refl

-- Adding a free region of valid addresses whose size is that of an order below `FREE_LISTS`, to a
-- heap that is in order and whose size does not overflow, returns in both builds after one round.
-- The heap stays in order and grows by the region's size; the new free block has that size, and
-- starts at the region's base rounded up to a multiple of the least block's size.
pub add_region-Added :
    (debug : Bool) (fuel : ℕ) (a : Alloc) (order : ℕ) (r : Region)
    → Heap a
    → r.kind ≡ RegionKind.free
    → r.size ≡ size_for_order a order
    → order < a.lists
    → r.base + r.size + a.min_size < paddr_end
    → a.heap_size + r.size < usize_mod
    → (a' : Alloc) × (add_region debug (suc fuel) a r ≡ some (returned (some a'))) × Added a r a'
add_region-Added debug fuel a order r heap free sized h valid fits =
    let ((a', next), e, (none_left, added)) =
      Yields-eq_returned (λ (a', next). (next ≡ none) × Added a r a') (add_round debug a r)
        (add_round-Added debug a order r heap sized h valid fits) in
    let one = e ∙ ap (λ n. returned (a', n)) none_left in
    (
      a',
      add_region-free debug (suc fuel) a a' r free (region_loop_one debug fuel a a' r one),
      added,
    )

Added-overruns :
    {a a' : Alloc} {r : Region}
    → (added : Added a r a') → a.min_size ≤ r.size
    → r.base % a.min_size ≢ 0
    → (cover a'.lists a'.free_lists (r.base + r.size)
        ≡ cover a.lists a.free_lists (r.base + r.size) + 1)
      × (inside r (r.base + r.size) ≡ 0)
Added-overruns {a} {a'} {r} added h k =
    let up = added.rounded.moved k in
    let near = added.rounded.near in let new = added.covers (r.base + r.size) in ground arith

-- The block that is added is not always memory of the region. In a heap that is in order, for a
-- free region whose size is that of an order below `FREE_LISTS` and whose base is no multiple of
-- the least block's size, with valid addresses and room in the heap's size: the address just past
-- the region's end, which is not in the region, lies in one free block more than before, since the
-- base is rounded up and the size is kept.
pub add_region_overruns :
    (debug : Bool) (fuel : ℕ) (a : Alloc) (order : ℕ) (r : Region)
    → Heap a
    → r.kind ≡ RegionKind.free
    → r.size ≡ size_for_order a order
    → order < a.lists
    → r.base + r.size + a.min_size < paddr_end
    → a.heap_size + r.size < usize_mod
    → r.base % a.min_size ≢ 0
    → (a' : Alloc) × (add_region debug (suc fuel) a r ≡ some (returned (some a')))
      × (cover a'.lists a'.free_lists (r.base + r.size)
          ≡ cover a.lists a.free_lists (r.base + r.size) + 1)
      × (inside r (r.base + r.size) ≡ 0)
add_region_overruns debug fuel a order r heap free sized h valid fits k =
    let (a', e, added) = add_region-Added debug fuel a order r heap free sized h valid fits in
    let least : a.min_size ≤ r.size =
      omega (
        arith,
        heap.least,
        sized,
        pow2-le a.min_size_log2 (a.min_size_log2 + order) (omega arith),
      ) in
    let (over, past) = Added-overruns added least k in (a', e, over, past)
