-- ===== src/Buddy/Taken.antt =====
-- What the search of `alloc_inner` finds in a heap that is in order.
use wasm_kernel.Base.{
  ℕ, zero, suc, ◌+◌, ◌%◌, ◌≤◌, ◌<◌, ◌≡◌, refl, Bool, ◌==◌, List, [], ◌∷◌, arith, update, All,
  returned, Yields, Yields->>=, lt→ltb, debug_assert-true, debug_assert, ◌>>◌, dec_lt,
}
use mathlib.Core.Option.{Option, none, some}
use mathlib.Core.Path.{subst}
use wasm_kernel.Memory.Math.{usize_mod, pow2}
use wasm_kernel.Memory.Region.{inside}
use wasm_kernel.Buddy.Heap.{Free, Alloc, magic_busy, make_busy, size_for_order, offset}
use wasm_kernel.Buddy.Alloc.{pop_back, split_loop, split_down, take_block, alloc_scan}
use wasm_kernel.Buddy.Cover.{
  covering, cover, cover-update, Popped, pop_back-Popped, PoppedAll, pop_back-All,
}
use wasm_kernel.Memory.Address.{paddr_end}
use wasm_kernel.Buddy.Split.{Good, AllGood, AllGood-update, Mapped, Split, split_loop-Split}

-- The heap is in order: its blocks are those that their lists say, its headers are mapped.
pub record Heap (a : Alloc) : Type 0 where
  pub mapped : Mapped a.min_size_log2 a.vm_offset
  pub good : AllGood a.min_size_log2 a.free_lists
  pub least : a.min_size ≡ pow2 a.min_size_log2
  pub word : a.min_size_log2 < 63

-- The free blocks' and the taken block's addresses are those that the free blocks had.
pub record Taken (a : Alloc) (order : ℕ) (a' : Alloc) (f : Free) : Type 0 where
  pub busy : f.magic ≡ magic_busy
  pub sized : f.meta.size ≡ size_for_order a order
  pub valid : f.meta.base + f.meta.size < paddr_end
  pub kept : Heap a'
  pub covers :
      (c : ℕ) → cover a.lists a.free_lists c ≡ cover a'.lists a'.free_lists c + inside f.meta c
  pub counted : a'.allocated_size ≡ (a.allocated_size + f.meta.size) % usize_mod

abbrev pub Found : Alloc → ℕ → Alloc → Option Free → Type 0
Found a order a' none = (a' ≡ a) × ((k : ℕ) → order ≤ k → k < a.lists → a.free_lists k ≡ [])
Found a order a' (some f) = Taken a order a' f

pub offset_lem :
    (debug : Bool) (a : Alloc) → 0 < a.vm_offset → offset debug a ≡ returned a.vm_offset
unfolding offset
offset_lem debug a h = ground arith

module _ (debug : Bool) (a : Alloc) (heap : Heap a) (order : ℕ) where
  -- From a block that was split down to the result.
  Split-Taken :
      (k : ℕ) (rest : List Free) (block found : Free) (lists' : ℕ → List Free)
      → k < a.lists
      → ((c : ℕ) → covering (a.free_lists k) c ≡ covering rest c + inside block.meta c)
      → Split a.min_size_log2 order a.lists block (update a.free_lists k rest) found lists'
      → Taken a order
          (record a {
            free_lists = lists';
            allocated_size = (a.allocated_size + found.meta.size) % usize_mod;
          })
          (make_busy found)
  Split-Taken k rest block found lists' h p s = record {
    busy = refl;
    sized = s.good.sized;
    valid = s.good.valid;
    kept = record { mapped = heap.mapped; good = s.goods; least = heap.least; word = heap.word };
    covers = λ c. omega (arith, s.covers c, p c, cover-update a.lists k a.free_lists rest c h);
    counted = refl;
  }

  split_down-Split :
      (i : ℕ) (block : Free) (lists : ℕ → List Free)
      → order + suc i < a.lists
      → Good a.min_size_log2 (order + suc i) block
      → AllGood a.min_size_log2 lists
      → Yields
          (split_down debug a order (suc i) block lists)
          (λ (b, lists'). Split a.min_size_log2 order a.lists block lists b lists')
  unfolding split_down
  split_down-Split i block lists h g goods =
      rw (offset_lem debug a heap.mapped.set) (at_size (block.meta.size) g.sized)
    where
      at_size :
          (size : ℕ)
          → size ≡ size_for_order a (order + suc i)
          → Yields
              (debug_assert debug (size == size_for_order a (order + suc i))
                >> split_loop debug a.vm_offset order (suc i) size block lists)
              (λ (b, lists'). Split a.min_size_log2 order a.lists block lists b lists')
      at_size size e =
          let whole =
            debug_assert-true debug
              (size_for_order a (order + suc i) == size_for_order a (order + suc i))
              (ground arith) in
          rw (e, whole)
            (split_loop-Split debug a.min_size_log2 a.vm_offset heap.mapped a.lists order (suc i)
              block lists (omega arith) g goods)

  take_block-Taken :
      (idx : ℕ) (rest : List Free) (block : Free)
      → order + idx < a.lists
      → ((c : ℕ) → covering (a.free_lists (order + idx)) c ≡ covering rest c + inside block.meta c)
      → All (Good a.min_size_log2 (order + idx)) rest
      → Good a.min_size_log2 (order + idx) block
      → Yields (take_block debug a order idx rest block) (λ (a', r). Found a order a' r)
  unfolding take_block
  take_block-Taken zero rest block h p goods g =
      let m = a.min_size_log2 in
      let e : order + 0 ≡ order = omega arith in
      Split-Taken (order + 0) rest block block (update a.free_lists (order + 0) rest) h p (record {
        good = subst (λ i. Good m i block) e g;
        goods = AllGood-update m (order + 0) a.free_lists rest heap.good goods;
        covers = λ c. refl;
        base = refl;
      })
  take_block-Taken (suc i) rest block h p goods g =
      let m = a.min_size_log2 in
      let k = order + suc i in
      let lists1 = update a.free_lists k rest in
      rw (lt→ltb 0 (suc i) (omega arith)) (
        Yields->>= (λ (b, lists'). Split m order a.lists block lists1 b lists')
          (λ (a', r). Found a order a' r) (split_down debug a order (suc i) block lists1) _
          (split_down-Split i block lists1 h g
            (AllGood-update m k a.free_lists rest heap.good goods))
          (λ (b, lists') s. Split-Taken k rest block b lists' h p s))

pop_back-none : (list : List Free) → pop_back list ≡ none → list ≡ []
unfolding pop_back
pop_back-none [] h = refl
pop_back-none (x ∷ list) h = absurd (step (pop_back list) h)
  where
    step :
        (m : Option (List Free × Free))
        → elim m as (λ k. Option (List Free × Free)) [
          | none ↦ some ([], x)
          | some (rest, last) ↦ some (x ∷ rest, last)
        ]
          ≡ none
        → ⊥
    step none e = cc
    step (some (rest, last)) e = cc

module _ (debug : Bool) (a : Alloc) (heap : Heap a) (order : ℕ) where
  -- Every list from the order on was empty so far.
  abbrev Searched : ℕ → Type 0
  Searched idx = (k : ℕ) → order ≤ k → k < order + idx → a.free_lists k ≡ []

  Searched-suc : (idx : ℕ) → Searched idx → a.free_lists (order + idx) ≡ [] → Searched (suc idx)
  Searched-suc idx s e k lo hi = elim (dec_lt k (order + idx)) [
    | yes l ↦ s k lo l
    | no l ↦ let same : k ≡ order + idx = omega arith in rw same e
  ]

  pub alloc_scan-Found :
      (left idx : ℕ)
      → order + idx + left ≡ a.lists
      → Searched idx
      → Yields (alloc_scan debug a order left idx) (λ (a', r). Found a order a' r)
  unfolding alloc_scan
  alloc_scan-Found zero idx h s = (refl, λ k lo hi. s k lo (omega arith))
  alloc_scan-Found (suc left) idx h s =
      let list = a.free_lists (order + idx) in
      step (pop_back list) refl (alloc_scan-Found left (suc idx) (omega arith))
    where
      step :
          (m : Option (List Free × Free))
          → pop_back (a.free_lists (order + idx)) ≡ m
          → (Searched (suc idx)
              → Yields (alloc_scan debug a order left (suc idx)) (λ (a', r). Found a order a' r))
          → Yields
              (elim m [
                | none ↦ alloc_scan debug a order left (suc idx)
                | some (rest, block) ↦ take_block debug a order idx rest block
              ])
              (λ (a', r). Found a order a' r)
      step none e ih = ih (Searched-suc idx s (pop_back-none (a.free_lists (order + idx)) e))
      step (some (rest, block)) e ih =
          let list = a.free_lists (order + idx) in
          let popped =
            λ (c : ℕ). subst (λ m. Popped c (covering list c) m) e (pop_back-Popped list c) in
          let goods =
            subst (λ m. PoppedAll (Good a.min_size_log2 (order + idx)) m) e
              (pop_back-All (Good a.min_size_log2 (order + idx)) list (heap.good (order + idx))) in
          take_block-Taken debug a heap order idx rest block (omega arith) popped goods.0 goods.1
