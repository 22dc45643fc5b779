-- ===== src/LinkedList/Joined.antt =====
-- Runs of nodes that are joined, and that are parted.
use mathlib.Core.Option.{none, some}
use wasm_kernel.Base.{
  NotIn, Distinct, NotIn-append, Distinct-append, ℕ, ◌≡◌, ◌∙◌, List, [], ◌∷◌, ◌++◌,
}
use wasm_kernel.LinkedList.Store.{Link, Store, next_of, prev_of}
use wasm_kernel.LinkedList.Chain.{
  first, last, Linked, LinkNotIn, Linked-append, append-Linked, last-Differs, next_of-other,
  prev_of-other, Linked-last, Linked-first, first-Differs, Linked-next_of, Linked-prev_of,
  Distinct-middle,
}

pub last-LinkNotIn :
    (p : Link) (xs ys : List ℕ) → LinkNotIn p ys → Distinct (xs ++ ys) → LinkNotIn (last p xs) ys
last-LinkNotIn p [] ys o d = o
last-LinkNotIn p (x ∷ xs) ys o d = last-LinkNotIn (some x) xs ys (NotIn-append x xs ys d.0).1 d.1

pub first-LinkNotIn : (xs ys : List ℕ) → Distinct (xs ++ ys) → LinkNotIn (first ys none) xs
first-LinkNotIn xs [] d = tt
first-LinkNotIn xs (y ∷ ys) d = (NotIn-append y xs ys (Distinct-middle xs y ys d).0).0

-- The last node of `xs` and the first of `ys` are linked to each other.
abbrev pub join : Store → List ℕ → List ℕ → Store
join s xs ys = prev_of (first ys none) (last none xs) (next_of (last none xs) (first ys none) s)

module _ (s : Store) (xs ys : List ℕ) where
  pub join-Linked :
      (n p : Link)
      → Linked s none xs n
      → Linked s p ys none
      → Distinct (xs ++ ys)
      → Linked (join s xs ys) none (xs ++ ys) none
  join-Linked n p a b e =
      let (dx, dy) = Distinct-append xs ys e in
      let s2 = next_of (last none xs) (first ys none) s in
      let a2 : Linked s2 none xs (first ys none) = Linked-last s none n (first ys none) xs dx a in
      let b2 : Linked s2 p ys none =
        Linked-next_of s (last none xs) (first ys none) p none ys (last-LinkNotIn none xs ys tt e)
          b in
      append-Linked (join s xs ys) none none xs ys
        (Linked-prev_of s2 (first ys none) (last none xs) none (first ys none) xs
          (first-LinkNotIn xs ys e) a2)
        (Linked-first s2 p (last none xs) none none ys dy b2)

  pub join-other : (a : ℕ) → NotIn a xs → NotIn a ys → join s xs ys a ≡ s a
  join-other a o k =
      prev_of-other (first ys none) (last none xs) (next_of (last none xs) (first ys none) s) a
        (first-Differs ys none a tt k)
      ∙ next_of-other (last none xs) (first ys none) s a (last-Differs none xs a tt o)

-- They are parted.
abbrev pub cut : Store → List ℕ → List ℕ → Store
cut s xs ys = prev_of (first ys none) none (next_of (last none xs) none s)

module _ (s : Store) (xs ys : List ℕ) where
  pub cut-Linked :
      Linked s none (xs ++ ys) none
      → Distinct (xs ++ ys)
      → Linked (cut s xs ys) none xs none × Linked (cut s xs ys) none ys none
  cut-Linked h e =
      let (a, b) = Linked-append s none none xs ys h in
      let (dx, dy) = Distinct-append xs ys e in
      let s2 = next_of (last none xs) none s in
      let a2 : Linked s2 none xs none = Linked-last s none (first ys none) none xs dx a in
      let b2 : Linked s2 (last none xs) ys none =
        Linked-next_of s (last none xs) none (last none xs) none ys (last-LinkNotIn none xs ys tt e)
          b in
      (
        Linked-prev_of s2 (first ys none) none none none xs (first-LinkNotIn xs ys e) a2,
        Linked-first s2 (last none xs) none none none ys dy b2,
      )

  pub cut-other : (a : ℕ) → NotIn a xs → NotIn a ys → cut s xs ys a ≡ s a
  cut-other a o k =
      prev_of-other (first ys none) none (next_of (last none xs) none s) a
        (first-Differs ys none a tt k)
      ∙ next_of-other (last none xs) none s a (last-Differs none xs a tt o)
