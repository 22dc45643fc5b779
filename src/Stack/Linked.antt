-- ===== src/Stack/Linked.antt =====
-- Nodes that are linked into a list.
use mathlib.Core.Option.{none, some}
use wasm_kernel.Base.{NotIn, Distinct, ℕ, ◌==◌, ◌≡◌, ◌≢◌, false, update, List, [], ◌∷◌, All, arith}
use wasm_kernel.Stack.Node.{Link}
use wasm_kernel.Stack.Threads.{Place}

-- From `head` on, the links go through the nodes of the list, and then end.
abbrev pub Linked : (ℕ → Link) → Link → List ℕ → Type 0
Linked next head [] = head ≡ none
Linked next head (x ∷ l) = (head ≡ some x) × Linked next (next x) l

pub Linked-update :
    (next : ℕ → Link) (head : Link) (i : ℕ) (a : Link) (l : List ℕ)
    → NotIn i l
    → Linked next head l
    → Linked (update next i a) head l
Linked-update next head i a [] n c = c
Linked-update next head i a (x ∷ l) (n, m) (e, c) =
    (e, rw (other i x n) (Linked-update next (next x) i a l m c))
  where
    other : (i x : ℕ) → i ≢ x → (i == x) ≡ false
    other i x n = ground arith

-- All nodes of the list are at one place, and there once.
abbrev pub Held : (ℕ → Place) → Place → List ℕ → Type 0
Held place p l = All (λ x. place x ≡ p) l × Distinct l

pub Held-NotIn :
    (place : ℕ → Place) (p : Place) (i : ℕ) (l : List ℕ)
    → All (λ x. place x ≡ p) l
    → place i ≢ p
    → NotIn i l
Held-NotIn place p i [] a n = tt
Held-NotIn place p i (x ∷ l) (e, a) n = ((λ f. n (rw f e)), Held-NotIn place p i l a n)

pub All-update :
    (place : ℕ → Place) (p : Place) (i : ℕ) (a : Place) (l : List ℕ)
    → NotIn i l
    → All (λ x. place x ≡ p) l
    → All (λ x. update place i a x ≡ p) l
All-update place p i a [] n h = tt
All-update place p i a (x ∷ l) (n, m) (e, h) = (ground arith, All-update place p i a l m h)
