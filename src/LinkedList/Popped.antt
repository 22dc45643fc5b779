-- ===== src/LinkedList/Popped.antt =====
-- `pop_front` and `pop_back`.
use mathlib.Core.Path.{subst}
use mathlib.Core.Option.{none, some}
use wasm_kernel.Base.{
  NotIn, Distinct, NotIn-append, Distinct-append, ℕ, suc, ◌<◌, ◌≡◌, refl, sym, ap, ◌∙◌, Bool, List,
  [], ◌∷◌, ◌++◌, if◌then◌else◌, length, length-append, returned, Yields, arith, debug_assert-true,
}
use wasm_kernel.LinkedList.Store.{
  Link, unlinked, unlink, is_none, Store, LinkedList, next_of, prev_of, shrink, usize_mod,
}
use wasm_kernel.LinkedList.Ops.{pop_back, pop_front}
use wasm_kernel.LinkedList.Chain.{
  first, last, Linked, Holds, Frame, Linked-update, Linked-append, last-Differs, next_of-other,
  prev_of-other, Linked-last, Linked-first, first-Differs, last-some, last-append, Distinct-middle,
  fields, Holds-fields, fields-Holds, update-frame,
}

pub shrink-suc : (debug : Bool) (n : ℕ) → shrink debug (suc n) ≡ returned n
unfolding shrink
shrink-suc debug n = ground arith

-- A node that is taken off has no links.
abbrev pub Loose : Link → Store → Type 0
Loose none s = Unit
Loose (some a) s = s a ≡ unlinked

-- The node `r` is taken off a list of `xs`, which leaves `ys`.
abbrev pub Taken : Link → List ℕ → List ℕ → Store → Store × LinkedList × Link → Type 0
Taken r xs ys s (s', l', r') = (r' ≡ r) × Holds s' l' ys × Frame xs s s' × Loose r s'

tail-after :
    (x : ℕ) (xs : List ℕ)
    → (if is_none (first xs none) then none else last (some x) xs) ≡ last none xs
tail-after x [] = refl
tail-after x (y ∷ xs) = refl

head-after :
    (x : ℕ) (xs : List ℕ)
    → (if is_none (last none xs) then none else first (xs ++ x ∷ []) none) ≡ first xs none
head-after x [] = refl
head-after x (y ∷ xs) = let (z, e) = last-some y xs in rw e

front_fields :
    (debug : Bool) (s : Store) (x : ℕ) (xs : List ℕ)
    → Holds s (fields (x ∷ xs)) (x ∷ xs)
    → Yields (pop_front debug s (fields (x ∷ xs))) (Taken (some x) (x ∷ xs) xs s)
unfolding pop_front
front_fields debug s x xs h =
    let (a, b, c) = h.linked in
    let (o, d) = h.distinct in
    let k : Linked (prev_of (first xs none) none s) none xs none =
      Linked-first s (some x) none none none xs d c in
    rw (shrink-suc debug (length xs), b)
      (
        refl,
        fields-Holds _ _ xs (ground (arith, tail-after x xs))
            (Linked-update _ x unlinked none none xs o k) d (omega (arith, h.fits)),
        (λ e n.
            update-frame (prev_of (first xs none) none s) x unlinked e n.0
            ∙ prev_of-other (first xs none) none s e (first-Differs xs none e tt n.1)),
        ground arith,
      )

-- A list with a last node, and the rest.
abbrev back : Store → ℕ → List ℕ → Store
back s x xs = unlink x (next_of (last none xs) none s)

back-Linked :
    (s : Store) (x : ℕ) (xs : List ℕ)
    → Linked s none (xs ++ x ∷ []) none
    → Distinct xs
    → NotIn x xs
    → Linked (back s x xs) none xs none
back-Linked s x xs h d o =
    Linked-update _ x unlinked none none xs o
      (Linked-last s none (some x) none xs d (Linked-append s none none xs (x ∷ []) h).0)

back-Frame : (s : Store) (x : ℕ) (xs : List ℕ) → Frame (xs ++ x ∷ []) s (back s x xs)
back-Frame s x xs a o =
    let (b, c) = NotIn-append a xs (x ∷ []) o in
    update-frame (next_of (last none xs) none s) x unlinked a c.0
    ∙ next_of-other (last none xs) none s a (last-Differs none xs a tt b)

back_at :
    (debug : Bool) (s : Store) (x : ℕ) (xs : List ℕ) (l : LinkedList)
    → l ≡ record { head = first (xs ++ x ∷ []) none; tail = some x; len = suc (length xs) }
    → Linked s none (xs ++ x ∷ []) none
    → Distinct xs
    → NotIn x xs
    → suc (length xs) < usize_mod
    → Yields (pop_back debug s l) (Taken (some x) (xs ++ x ∷ []) xs s)
unfolding pop_back
back_at debug s x xs l e h d o f =
    let (a, b, c) = (Linked-append s none none xs (x ∷ []) h).1 in
    rw (e, shrink-suc debug (length xs), debug_assert-true debug _ (ap is_none b), a)
      (
        refl,
        fields-Holds _ _ xs (ground (arith, head-after x xs)) (back-Linked s x xs h d o) d
            (omega arith),
        back-Frame s x xs,
        ground arith,
      )

-- Popping takes the node at the end, if there is one.
pub pop_front-Taken :
    (debug : Bool) (s : Store) (l : LinkedList) (x : ℕ) (xs : List ℕ)
    → Holds s l (x ∷ xs)
    → Yields (pop_front debug s l) (Taken (some x) (x ∷ xs) xs s)
pop_front-Taken debug s l x xs h =
    subst (λ m. Yields (pop_front debug s m) (Taken (some x) (x ∷ xs) xs s)) (sym (Holds-fields h))
      (front_fields debug s x xs (subst (λ m. Holds s m (x ∷ xs)) (Holds-fields h) h))

pub pop_back-Taken :
    (debug : Bool) (s : Store) (l : LinkedList) (x : ℕ) (xs : List ℕ)
    → Holds s l (xs ++ x ∷ [])
    → Yields (pop_back debug s l) (Taken (some x) (xs ++ x ∷ []) xs s)
pop_back-Taken debug s l x xs h =
    let (o, d) = Distinct-middle xs x [] h.distinct in
    let n = length-append xs (x ∷ []) in
    back_at debug s x xs l (ground (arith, Holds-fields h, last-append none xs (x ∷ []), n))
      h.linked (Distinct-append xs (x ∷ []) h.distinct).0 ((NotIn-append x xs [] o).0)
      (omega (arith, h.fits))

pub pop_empty :
    (debug : Bool) (s : Store) (l : LinkedList)
    → Holds s l []
    → (pop_front debug s l ≡ returned (s, l, none)) × (pop_back debug s l ≡ returned (s, l, none))
unfolding pop_front pop_back
pop_empty debug s l h = (rw h.head, rw h.tail)
