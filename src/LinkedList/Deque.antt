-- ===== src/LinkedList/Deque.antt =====
-- A list as a sequence: what each operation does to it.
use mathlib.Core.Option.{none, some}
use wasm_kernel.Base.{
  NotIn, ℕ, suc, ◌<◌, ◌==◌, ◌≡◌, ◌⊎◌, refl, ap, Bool, true, false, ◌||◌, List, [], ◌∷◌, ◌++◌,
  if◌then◌else◌, length, Outcome, ◌>>=◌, returned,
}
use wasm_kernel.LinkedList.Store.{Link, unlinked, Store, LinkedList, usize_mod}
use wasm_kernel.LinkedList.Ops
use wasm_kernel.LinkedList.Chain.{first, last, Holds}
use wasm_kernel.LinkedList.Pushed.{Pushed}
use wasm_kernel.LinkedList.Popped.{Loose}

pub data Op : Type 0 where
  push_front : ℕ → Op
  push_back : ℕ → Op
  pop_front : Op
  pop_back : Op
  remove : ℕ → Op

no_result : Outcome (Store × LinkedList) → Ops.Popped
no_result m = m >>= λ (s, l). returned (s, l, none)

unfoldable pub run : Bool → Op → Store → LinkedList → Ops.Popped
unfolding no_result
run debug (push_front x) s l = no_result (Ops.push_front debug x s l)
run debug (push_back x) s l = no_result (Ops.push_back debug x s l)
run debug pop_front s l = Ops.pop_front debug s l
run debug pop_back s l = Ops.pop_back debug s l
run debug (remove x) s l = Ops.remove debug x s l

abbrev pub init : List ℕ → List ℕ
init [] = []
init (x ∷ []) = []
init (x ∷ y ∷ xs) = x ∷ init (y ∷ xs)

abbrev pub erase : ℕ → List ℕ → List ℕ
erase a [] = []
erase a (x ∷ xs) = if a == x then xs else x ∷ erase a xs

abbrev pub mem : ℕ → List ℕ → Bool
mem a [] = false
mem a (x ∷ xs) = a == x || mem a xs

-- The sequence after the operation, and its result.
abbrev pub after : Op → List ℕ → List ℕ
after (push_front x) xs = x ∷ xs
after (push_back x) xs = xs ++ x ∷ []
after pop_front [] = []
after pop_front (x ∷ xs) = xs
after pop_back xs = init xs
after (remove x) xs = erase x xs

abbrev pub result : Op → List ℕ → Link
result (push_front x) xs = none
result (push_back x) xs = none
result pop_front xs = first xs none
result pop_back xs = last none xs
result (remove x) xs = if mem x xs then some x else none

-- What the caller owes: a node is pushed only where it is on no list, and removed only where it is
-- on this list or has no links.
abbrev pub Allowed : Op → Store → List ℕ → Type 0
Allowed (push_front x) s xs = NotIn x xs × (suc (length xs) < usize_mod)
Allowed (push_back x) s xs = NotIn x xs × (suc (length xs) < usize_mod)
Allowed (remove x) s xs = (mem x xs ≡ true) ⊎ (s x ≡ unlinked)
Allowed _ s xs = Unit

abbrev pub Does : Op → Store → List ℕ → Store × LinkedList × Link → Type 0
Does op s xs (s', l', r) =
    (r ≡ result op xs)
    × Holds s' l' (after op xs)
    × Loose r s'
    × ((a : ℕ) → NotIn a xs → NotIn a (after op xs) → s' a ≡ s a)

pub snoc-view :
    (x : ℕ) (xs : List ℕ)
    → (y : ℕ) × (x ∷ xs ≡ init (x ∷ xs) ++ y ∷ []) × (last (some x) xs ≡ some y)
snoc-view x [] = (x, refl, refl)
snoc-view x (z ∷ xs) = let (y, p, q) = snoc-view z xs in (y, ap (λ (l : List ℕ). x ∷ l) p, q)
