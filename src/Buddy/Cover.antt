-- ===== src/Buddy/Cover.antt =====
-- How many free blocks an address lies in, and how the lists' operations change that.
use wasm_kernel.Base.{
  ℕ, zero, suc, ◌+◌, ◌≤◌, ◌<◌, ◌≡◌, refl, ◌==◌, List, [], ◌∷◌, arith, update, All, ap, dec_lt, true,
  Bool-cases, inl, inr,
}
use mathlib.Core.Option.{Option, none, some}
use wasm_kernel.Memory.Region.{inside}
use wasm_kernel.Buddy.Heap.{Free}
use wasm_kernel.Buddy.Alloc.{pop_back}

unfoldable pub covering : List Free → ℕ → ℕ
covering [] c = 0
covering (f ∷ list) c = inside f.meta c + covering list c

-- Over the first `n` lists.
unfoldable pub cover : ℕ → (ℕ → List Free) → ℕ → ℕ
cover zero lists c = 0
cover (suc n) lists c = covering (lists n) c + cover n lists c

cover-update_above :
    (n k : ℕ) (lists : ℕ → List Free) (list : List Free) (c : ℕ)
    → n ≤ k
    → cover n (update lists k list) c ≡ cover n lists c
unfolding cover
cover-update_above zero k lists list c h = refl
cover-update_above (suc n) k lists list c h = ground (arith, cover-update_above n k lists list c)

pub cover-update :
    (n k : ℕ) (lists : ℕ → List Free) (list : List Free) (c : ℕ)
    → k < n
    → cover n (update lists k list) c + covering (lists k) c ≡ cover n lists c + covering list c
unfolding cover
cover-update zero k lists list c h = absurd (omega arith)
cover-update (suc n) k lists list c h = elim (Bool-cases (k == n)) [
  | inl e ↦
      ground (arith, cover-update_above n k lists list c, ap (λ i. covering (lists i) c) (same e))
  | inr e ↦ ground (arith, cover-update n k lists list c)
]
  where
    same : (k == n) ≡ true → k ≡ n
    same e = ground arith

-- A list is no more than the whole.
pub covering-le :
    (n k : ℕ) (lists : ℕ → List Free) (c : ℕ) → k < n → covering (lists k) c ≤ cover n lists c
unfolding cover
covering-le zero k lists c h = absurd (omega arith)
covering-le (suc n) k lists c h = elim (dec_lt k n) [
  | yes l ↦ omega (arith, covering-le n k lists c l)
  | no l ↦ let e : k ≡ n = omega arith in omega (arith, ap (λ i. covering (lists i) c) e)
]

-- The block that is popped, and those that stay, are those that were there.
abbrev pub Popped : ℕ → ℕ → Option (List Free × Free) → Type 0
Popped c n none = n ≡ 0
Popped c n (some (rest, last)) = n ≡ covering rest c + inside last.meta c

pub pop_back-Popped : (list : List Free) (c : ℕ) → Popped c (covering list c) (pop_back list)
unfolding pop_back covering
pop_back-Popped [] c = refl
pop_back-Popped (x ∷ list) c = step (pop_back list) (pop_back-Popped list c)
  where
    step :
        (m : Option (List Free × Free))
        → Popped c (covering list c) m
        → Popped c
            (inside x.meta c + covering list c)
            (elim m [ none ↦ some ([], x) | some (rest, last) ↦ some (x ∷ rest, last) ])
    step none h = ground arith
    step (some (rest, last)) h = omega arith

abbrev pub PoppedAll : (Free → Type 0) → Option (List Free × Free) → Type 0
PoppedAll P none = Unit
PoppedAll P (some (rest, last)) = All P rest × P last

pub pop_back-All : (P : Free → Type 0) (list : List Free) → All P list → PoppedAll P (pop_back list)
unfolding pop_back
pop_back-All P [] h = tt
pop_back-All P (x ∷ list) h = step (pop_back list) (pop_back-All P list h.1)
  where
    step :
        (m : Option (List Free × Free))
        → PoppedAll P m
        → PoppedAll P (elim m [ none ↦ some ([], x) | some (rest, last) ↦ some (x ∷ rest, last) ])
    step none k = (tt, h.0)
    step (some (rest, last)) k = ((h.0, k.0), k.1)
