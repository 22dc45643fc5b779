-- ===== src/Buddy/Ranges.antt =====
-- What a page range that is allocated has to do with the block it comes from.
use mathlib.Core.Path.{subst}
use mathlib.Core.Option.{Option, none, some}
use wasm_kernel.Base.{
  ℕ, zero, suc, ◌+◌, ◌-◌, ◌*◌, ◌%◌, ◌^◌, ◌≤◌, ◌<◌, ◌≡◌, ◌≢◌, refl, sym, ap, ◌∙◌, Bool, true,
  returned, ◌>>=◌, Yields, Yields->>=, arith, leb, lt→ltb, le→leb, debug_assert-true, inl, inr,
  Bool-cases, ==_iff, ◌==◌,
}
use wasm_kernel.Memory.Math.{
  usize_mod, pow2, pow2_pos, pow2-add, pow2-lt_lt, pow2-63, is_power_of_two, is_power_of_two-pow2,
}
use wasm_kernel.Memory.Address.{paddr_end}
use wasm_kernel.Memory.Region.{Region}
use wasm_kernel.Memory.Pages.{PageRange, page_range}
use wasm_kernel.Memory.Ranges.{range_of, page_range-from_page_range}
use wasm_kernel.Buddy.Heap.{Free, Alloc, Layout, rounded, size_for_order}
use wasm_kernel.Buddy.Alloc.{alloc_inner}
use wasm_kernel.Buddy.Taken.{Heap}
use wasm_kernel.Buddy.Allocated.{
  pow2-le_le, IsLayout, Allocates, rounded_pow2, alloc_inner-Allocates,
}
use wasm_kernel.Buddy.Pages.{actual_len, layout_of, alloc_range}

-- A power of two is some smaller ones.
pow2_multiple : (k d : ℕ) → (n : ℕ) × (pow2 (k + d) ≡ n * pow2 k + pow2 k)
unfolding pow2
pow2_multiple k zero = (0, let e : k + 0 ≡ k = omega arith in rw e (omega arith))
pow2_multiple k (suc d) =
    let (n, e) = pow2_multiple k d in
    let f : k + suc d ≡ suc (k + d) = omega arith in
    let g : (2 * n + 1) * pow2 k ≡ 2 * (n * pow2 k) + pow2 k = grind arith in
    (2 * n + 1, ap pow2 f ∙ omega (arith, e, g))

-- Whether the block is aligned on its pages decides if it is handed out as a range.
abbrev pub Ranged : ℕ → Option Free → Option PageRange → Type 0
Ranged k none r = r ≡ none
Ranged k (some f) r =
    (f.meta.base % pow2 k ≡ 0
      → (n : ℕ) × (f.meta.size ≡ n * pow2 k + pow2 k) × (r ≡ some (range_of f.meta (pow2 k) n)))
    × (f.meta.base % pow2 k ≢ 0 → r ≡ none)

block_pages :
    (debug : Bool) (k j : ℕ) (r : Region)
    → k < 63
    → r.size ≡ pow2 j
    → pow2 k ≤ r.size
    → r.base + r.size < paddr_end
    → Yields (page_range debug r (pow2 k)) (λ range.
      (r.base % pow2 k ≡ 0
        → (n : ℕ) × (r.size ≡ n * pow2 k + pow2 k) × (range ≡ some (range_of r (pow2 k) n)))
      × (r.base % pow2 k ≢ 0 → range ≡ none))
block_pages debug k j r h s w v =
    let up : k ≤ j = pow2-le_le k j (omega (arith, s, w)) in
    let (n, e) = pow2_multiple k (j - k) in
    let back : k + (j - k) ≡ j = omega (arith, up) in
    let size : r.size ≡ n * pow2 k + pow2 k = s ∙ (ap pow2 (sym back) ∙ e) in
    let (a, b) = page_range-from_page_range debug r k n (omega (arith, h)) size v in
    elim (Bool-cases (r.base % pow2 k == 0)) [
      | inl f ↦
          rw ((a ((==_iff (r.base % pow2 k) 0).0 f)).0)
            ((λ g. (n, size, refl)), λ g. absurd (g ((==_iff (r.base % pow2 k) 0).0 f)))
      | inr f ↦
          let g : r.base % pow2 k ≢ 0 = ground arith in rw (b g) ((λ e. absurd (g e)), λ e. refl)
    ]

le-mul : (x y : ℕ) → 0 < y → x ≤ x * y
le-mul x y h = grind arith

-- The exponents are small, where there is room for the layout.
exponents : (k m : ℕ) → pow2 k * pow2 m + pow2 k ≤ 2 ^ 63 → k + m < 63
exponents k m h =
    let e = pow2-add k m in
    let p = pow2_pos k in pow2-lt_lt (k + m) 63 (omega (arith, h, e, p, pow2-63))

-- A range of `2^m` pages of `2^k` bytes is asked for as one block.
requested :
    (debug : Bool) (a : Alloc) (k m : ℕ)
    → pow2 k * pow2 m + pow2 k ≤ 2 ^ 63
    → alloc_range debug a (pow2 k) (pow2 m) ≡ (
        alloc_inner debug a (record { size = pow2 k * pow2 m; align = pow2 k }) >>= λ (a', found).
        elim found [
          | none ↦ returned (a', none)
          | some block ↦ (page_range debug block.meta (pow2 k) >>= λ range. returned (a', range))
        ])
unfolding alloc_range actual_len layout_of
requested debug a k m h =
    let n = exponents k m h in
    let one = is_power_of_two-pow2 k (omega (arith, n)) in
    let many = is_power_of_two-pow2 m (omega (arith, n)) in
    let all : is_power_of_two (pow2 k * pow2 m) ≡ true =
      subst (λ z. is_power_of_two z ≡ true) (pow2-add k m)
        (is_power_of_two-pow2 (k + m) (omega (arith, n))) in
    let fits = lt→ltb (pow2 k * pow2 m) usize_mod (omega (arith, h)) in
    let room = le→leb (pow2 k * pow2 m) (2 ^ 63 - pow2 k) (omega (arith, h)) in
    rw
      (
        debug_assert-true debug (is_power_of_two (pow2 k)) one,
        many,
        fits,
        debug_assert-true debug (is_power_of_two (pow2 k * pow2 m)) all,
        one,
        debug_assert-true debug (leb (pow2 k * pow2 m) (2 ^ 63 - pow2 k)) room,
      )
      refl

-- In a heap that is in order, and where the layout has room and an order at most `FREE_LISTS`, a range
-- of `2^m` pages of `2^k` bytes is allocated in both builds as `alloc_inner` allocates one block for
-- it. Is the block's base a multiple of the page size, the range that is returned is just the block's
-- pages. Is it not, then an error is returned and the block is taken all the same.
pub alloc_range-Ranged :
    (debug : Bool) (a : Alloc) (k m : ℕ)
    → Heap a
    → pow2 k * pow2 m + pow2 k ≤ 2 ^ 63
    → rounded a (record { size = pow2 k * pow2 m; align = pow2 k }) ≤ size_for_order a a.lists
    → Yields (alloc_range debug a (pow2 k) (pow2 m)) (λ (a', range).
      (f : Option Free) × Allocates a (record { size = pow2 k * pow2 m; align = pow2 k }) a' f
      × Ranged k f range)
alloc_range-Ranged debug a k m heap h fits =
    let layout : Layout = record { size = pow2 k * pow2 m; align = pow2 k } in
    let p = pow2_pos k in
    let g = le-mul (pow2 k) (pow2 m) (pow2_pos m) in
    let l : IsLayout layout = record {
      size_fits = omega (arith, h, p);
      align_fits = omega (arith, h, g, p);
    } in
    let (order, sized, big, wide, lg, word) = rounded_pow2 a layout l heap.least heap.word in
    rw (requested debug a k m h) (
      Yields->>= (λ (a', f). Allocates a layout a' f)
        (λ (a', range). (f : Option Free) × Allocates a layout a' f × Ranged k f range)
        (alloc_inner debug a layout) _ (alloc_inner-Allocates debug a layout heap l fits)
        (λ (a', f) s. handed a' (a.min_size_log2 + order) sized f s))
  where
    handed :
        (a' : Alloc) (j : ℕ)
        → rounded a (record { size = pow2 k * pow2 m; align = pow2 k }) ≡ pow2 j
        → (f : Option Free) → Allocates a (record { size = pow2 k * pow2 m; align = pow2 k }) a' f
        → Yields
            (elim f [
              | none ↦ returned (a', none)
              | some block ↦
                  (page_range debug block.meta (pow2 k) >>= λ range. returned (a', range))
            ])
            (λ (a', range).
              (f : Option Free) × Allocates a
                (record { size = pow2 k * pow2 m; align = pow2 k })
                a'
                f
              × Ranged k f range)
    handed a' j e none s = (none, s, refl)
    handed a' j e (some f) s =
        let n = exponents k m h in
        Yields->>= (λ range. Ranged k (some f) range)
          (λ (a', range).
            (f : Option Free) × Allocates a (record { size = pow2 k * pow2 m; align = pow2 k }) a' f
            × Ranged k f range)
          (page_range debug f.meta (pow2 k)) (λ range. returned (a', range))
          (block_pages debug k j f.meta (omega (arith, n)) (s.exact ∙ e) s.wide s.valid)
          (λ range q. (some f, s, q))
