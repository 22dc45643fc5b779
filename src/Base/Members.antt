-- ===== src/Base/Members.antt =====
-- Lists of numbers: who is in them, and lists with no number twice.
use Prim.Native.Nat.{ℕ}
use mathlib.Core.Path.{sym}
use mathlib.Core.Logic.{◌≢◌}
use mathlib.Core.List.{List, [], ◌∷◌, ◌++◌}
use wasm_kernel.Base.Lists.{All}

abbrev pub NotIn : ℕ → List ℕ → Type 0
NotIn i xs = All (λ j. i ≢ j) xs

abbrev pub Distinct : List ℕ → Type 0
Distinct [] = Unit
Distinct (x ∷ xs) = NotIn x xs × Distinct xs

pub NotIn-append : (a : ℕ) (xs ys : List ℕ) → NotIn a (xs ++ ys) → NotIn a xs × NotIn a ys
NotIn-append a [] ys h = (tt, h)
NotIn-append a (x ∷ xs) ys h = let (b, c) = NotIn-append a xs ys h.1 in ((h.0, b), c)

pub append-NotIn : (a : ℕ) (xs ys : List ℕ) → NotIn a xs → NotIn a ys → NotIn a (xs ++ ys)
append-NotIn a [] ys h k = k
append-NotIn a (x ∷ xs) ys h k = (h.0, append-NotIn a xs ys h.1 k)

pub Distinct-append : (xs ys : List ℕ) → Distinct (xs ++ ys) → Distinct xs × Distinct ys
Distinct-append [] ys d = (tt, d)
Distinct-append (x ∷ xs) ys d =
    let (a, b) = Distinct-append xs ys d.1 in (((NotIn-append x xs ys d.0).0, a), b)

pub snoc-NotIn : (x : ℕ) (xs : List ℕ) (i : ℕ) → NotIn x xs → x ≢ i → NotIn x (xs ++ i ∷ [])
snoc-NotIn x xs i m f = append-NotIn x xs (i ∷ []) m (f, tt)

pub snoc-Distinct : (xs : List ℕ) (i : ℕ) → Distinct xs → NotIn i xs → Distinct (xs ++ i ∷ [])
snoc-Distinct [] i d n = (tt, tt)
snoc-Distinct (x ∷ xs) i (m, d) (n, ns) =
    (snoc-NotIn x xs i m (λ e. n (sym e)), snoc-Distinct xs i d ns)

pub snoc-All : (P : ℕ → Type 0) (xs : List ℕ) (i : ℕ) → All P xs → P i → All P (xs ++ i ∷ [])
snoc-All P [] i a p = (p, tt)
snoc-All P (x ∷ xs) i (a, b) p = (a, snoc-All P xs i b p)
