-- ===== src/Buddy/Split.antt =====
-- The heap's invariant, and that `split_down` keeps it and covers the same addresses.
use wasm_kernel.Base.{
  ℕ, zero, suc, ◌+◌, ◌-◌, ◌*◌, ◌/◌, ◌%◌, ◌≤◌, ◌<◌, ◌≡◌, refl, Bool, true, ◌==◌, List, ◌∷◌, arith,
  update, All, ◌∙◌, Bool-cases, inl, inr, returned, Yields, debug_assert-true, Yields-imp, ==_iff,
}
use mathlib.Core.Option.{some}
use mathlib.Core.Path.{subst}
use wasm_kernel.Memory.Math.{usize_mod, pow2, pow2_pos, is_power_of_two}
use wasm_kernel.Memory.Address.{paddr_end, as_ptr, is_aligned}
use wasm_kernel.Memory.Region.{Region, inside, split_back_lem}
use wasm_kernel.Buddy.Heap.{Free, magic_free, new_free, split_back}
use wasm_kernel.Buddy.Alloc.{split_loop}
use wasm_kernel.Buddy.Cover.{covering, cover, cover-update}

-- A free block of an order, where the least blocks have `2 ^ m` bytes.
pub record Good (m order : ℕ) (f : Free) : Type 0 where
  pub marked : f.magic ≡ magic_free
  pub sized : f.meta.size ≡ pow2 (m + order)
  pub aligned : f.meta.base % 8 ≡ 0
  pub valid : f.meta.base + f.meta.size < paddr_end

abbrev pub AllGood : ℕ → (ℕ → List Free) → Type 0
AllGood m lists = (k : ℕ) → All (Good m k) (lists k)

-- Headers fit into the least blocks, and addresses into a word.
pub record Mapped (m vm_offset : ℕ) : Type 0 where
  pub least : 3 ≤ m
  pub set : 0 < vm_offset
  pub fits : vm_offset + paddr_end ≤ usize_mod

is_power_of_two_8 : is_power_of_two 8 ≡ true
unfolding is_power_of_two
is_power_of_two_8 = refl

pub new_free_lem :
    (debug : Bool) (r : Region) (vm_offset : ℕ)
    → r.base % 8 ≡ 0
    → 0 < vm_offset
    → r.base + vm_offset < usize_mod
    → new_free debug r vm_offset ≡ returned (record { magic = magic_free; meta = r })
unfolding new_free as_ptr is_aligned
new_free_lem debug r vm_offset h p q = ground (arith, is_power_of_two_8)

pub pow2-suc : (m k : ℕ) → pow2 (m + suc k) ≡ 2 * pow2 (m + k)
pow2-suc m k = let e : m + suc k ≡ suc (m + k) = omega arith in rw e (unfold pow2 in refl)

pub pow2-mod_8 : (m k : ℕ) → 3 ≤ m → pow2 (m + k) % 8 ≡ 0
unfolding pow2
pow2-mod_8 m k h = let e : m + k ≡ suc (suc (suc (m + k - 3))) = omega arith in rw e (omega arith)

-- The two halves of a block.
abbrev lower_half : Free → ℕ → Free
lower_half f h = record f { meta = record (f.meta) { size = h } }

abbrev upper_half : Free → ℕ → Free
upper_half f h = record {
  magic = magic_free;
  meta = record { base = f.meta.base + h; size = h; kind = f.meta.kind };
}

pub AllGood-update :
    (m k : ℕ) (lists : ℕ → List Free) (list : List Free)
    → AllGood m lists
    → All (Good m k) list
    → AllGood m (update lists k list)
AllGood-update m k lists list a h j = elim (Bool-cases (k == j)) [
  | inl e ↦ rw e (subst (λ i. All (Good m i) list) ((==_iff k j).0 e) h)
  | inr e ↦ rw e (a j)
]

-- A block is its two halves.
inside-halves :
    (f : Free) (h c : ℕ)
    → f.meta.size ≡ 2 * h
    → inside (f.meta) c ≡ inside ((lower_half f h).meta) c + inside ((upper_half f h).meta) c
inside-halves f h c e = ground arith

-- What splitting a block down to `order` comes to: `b` is what is left of `block`.
pub record Split (m order n : ℕ) (block : Free) (lists : ℕ → List Free) (b : Free)
    (lists' : ℕ → List Free) : Type 0 where
  pub good : Good m order b
  pub goods : AllGood m lists'
  pub covers : (c : ℕ) → cover n lists' c + inside b.meta c ≡ cover n lists c + inside block.meta c
  pub base : b.meta.base ≡ block.meta.base

module _ (debug : Bool) (m vm_offset : ℕ) (mapped : Mapped m vm_offset) where
  split_back-halves :
      (k : ℕ) (f : Free)
      → Good m (suc k) f
      → split_back debug f (pow2 (m + k)) vm_offset
        ≡ returned (lower_half f (pow2 (m + k)), some (upper_half f (pow2 (m + k))))
  unfolding split_back
  split_back-halves k f g =
      let h = pow2 (m + k) in
      let whole : f.meta.size ≡ 2 * h = g.sized ∙ pow2-suc m k in
      let pos : 0 < h = pow2_pos (m + k) in
      let rest : f.meta.size - h ≡ h = omega arith in
      let split = split_back_lem debug f.meta h g.valid (omega arith) in
      let new =
        new_free_lem debug (record { base = f.meta.base + h; size = h; kind = f.meta.kind })
          vm_offset (omega (arith, pow2-mod_8 m k mapped.least, g.aligned)) mapped.set
          (omega (arith, mapped.fits, g.valid)) in
      let marked = debug_assert-true debug (f.magic == magic_free) (ground (arith, g.marked)) in
      let same = debug_assert-true debug (h == h) (ground arith) in
      rw (split, rest, marked, same, new) refl

  Good-lower : (k : ℕ) (f : Free) → Good m (suc k) f → Good m k (lower_half f (pow2 (m + k)))
  Good-lower k f g =
      let whole = pow2-suc m k in
      record {
        marked = g.marked;
        sized = refl;
        aligned = g.aligned;
        valid = omega (arith, g.valid, g.sized);
      }

  Good-upper : (k : ℕ) (f : Free) → Good m (suc k) f → Good m k (upper_half f (pow2 (m + k)))
  Good-upper k f g =
      let whole = pow2-suc m k in
      record {
        marked = refl;
        sized = refl;
        aligned = omega (arith, pow2-mod_8 m k mapped.least, g.aligned);
        valid = omega (arith, g.valid, g.sized);
      }

  pub split_loop-Split :
      (n order steps : ℕ) (block : Free) (lists : ℕ → List Free)
      → order + steps ≤ n
      → Good m (order + steps) block
      → AllGood m lists
      → Yields
          (split_loop debug vm_offset order steps (pow2 (m + (order + steps))) block lists)
          (λ (b, lists'). Split m order n block lists b lists')
  unfolding split_loop
  split_loop-Split n order zero block lists le g a =
      let e : order + 0 ≡ order = omega arith in
      record { good = subst (λ i. Good m i block) e g; goods = a; covers = λ c. refl; base = refl }
  split_loop-Split n order (suc steps) block lists le g a =
      let k = order + steps in
      let h = pow2 (m + k) in
      let up : order + suc steps ≡ suc k = omega arith in
      let g' : Good m (suc k) block = subst (λ i. Good m i block) up g in
      let half : pow2 (m + (order + suc steps)) / 2 ≡ h = rw up (omega (arith, pow2-suc m k)) in
      let lists1 = update lists k (upper_half block h ∷ lists k) in
      let ih =
        split_loop-Split n order steps (lower_half block h) lists1 (omega arith)
          (Good-lower k block g')
          (AllGood-update m k lists (upper_half block h ∷ lists k) a
            (Good-upper k block g', a k)) in
      rw (half, split_back-halves k block g', half)
        (Yields-imp (λ (b, lists'). Split m order n (lower_half block h) lists1 b lists')
          (λ (b, lists'). Split m order n block lists b lists')
          (split_loop debug vm_offset order steps h (lower_half block h) lists1)
          (λ (b, lists') s. record {
            good = s.good;
            goods = s.goods;
            covers = λ c.
                let moved = cover-update n k lists (upper_half block h ∷ lists k) c (omega arith) in
                let halves = inside-halves block h c (g'.sized ∙ pow2-suc m k) in
                unfold covering in omega (arith, moved, halves, s.covers c);
            base = s.base;
          })
          ih)
