-- ===== src/LinkedList/Pushed.antt =====
-- `push_front` and `push_back`.
use mathlib.Core.Path.{subst}
use mathlib.Core.Option.{none, some}
use wasm_kernel.Base.{
  NotIn, Distinct, NotIn-append, snoc-Distinct, ℕ, suc, ◌+◌, ◌<◌, ◌≡◌, refl, sym, ap, ◌∙◌, Bool,
  false, List, [], ◌∷◌, ◌++◌, length, length-append, lt→ltb, returned, Yields, arith,
}
use wasm_kernel.LinkedList.Store.{
  Link, Links, Store, LinkedList, set_next, set_prev, next_of, prev_of, same, or, grow, usize_mod,
}
use wasm_kernel.LinkedList.Ops.{push_back, push_front}
use wasm_kernel.LinkedList.Chain.{
  first, last, Linked, Holds, Frame, Linked-update, append-Linked, Differs, last-Differs,
  next_of-other, prev_of-other, Linked-last, Linked-first, first-Differs, last-some, last-append,
  fields, Holds-fields, fields-Holds, update-frame,
}

pub grow_fits : (debug : Bool) (n k : ℕ) → n + k < usize_mod → grow debug n k ≡ returned (n + k)
unfolding grow
grow_fits debug n k h = rw (lt→ltb _ _ h)

same-Differs : (link : Link) (a : ℕ) → Differs link a → same link (some a) ≡ false
same-Differs none a d = refl
same-Differs (some b) a d = ground arith

abbrev pub Pushed : List ℕ → Store → Store × LinkedList → Type 0
Pushed ys s (s', l') = Holds s' l' ys × Frame ys s s'

or-last : (x : ℕ) (xs : List ℕ) → or (last none xs) (some x) ≡ last (some x) xs
or-last x [] = refl
or-last x (y ∷ xs) = let (z, e) = last-some y xs in rw e

or-first : (x : ℕ) (xs : List ℕ) → or (first xs none) (some x) ≡ first (xs ++ x ∷ []) none
or-first x [] = refl
or-first x (y ∷ xs) = refl

front-Linked :
    (s : Store) (x : ℕ) (xs : List ℕ)
    → Linked s none xs none
    → Distinct xs
    → NotIn x xs
    → Linked
        (prev_of (first xs none) (some x) (set_prev x none (set_next x (first xs none) s)))
        none
        (x ∷ xs)
        none
front-Linked s x xs h d o =
    let s1 = set_prev x none (set_next x (first xs none) s) in
    let k : Linked s1 none xs none =
      Linked-update (set_next x (first xs none) s) x _ none none xs o
        (Linked-update s x _ none none xs o h) in
    let e = prev_of-other (first xs none) (some x) s1 x (first-Differs xs none x tt o) in
    (
      ap (λ (l : Links). l.prev) e ∙ (ground arith),
      ap (λ (l : Links). l.next) e ∙ (ground arith),
      Linked-first s1 none (some x) none none xs d k,
    )

front-Frame :
    (s : Store) (x : ℕ) (xs : List ℕ)
    → Frame
        (x ∷ xs)
        s
        (prev_of (first xs none) (some x) (set_prev x none (set_next x (first xs none) s)))
front-Frame s x xs a (n, o) =
    prev_of-other (first xs none) (some x) _ a (first-Differs xs none a tt o)
    ∙ (update-frame (set_next x (first xs none) s) x _ a n ∙ update-frame s x _ a n)

front_fields :
    (debug : Bool) (x : ℕ) (s : Store) (xs : List ℕ)
    → Linked s none xs none
    → Distinct xs
    → NotIn x xs
    → suc (length xs) < usize_mod
    → Yields (push_front debug x s (fields xs)) (Pushed (x ∷ xs) s)
unfolding push_front
front_fields debug x s xs h d o f =
    rw
      (
        same-Differs (first xs none) x (first-Differs xs none x tt o),
        grow_fits debug (length xs) 1 (omega arith),
      )
      (
        fields-Holds _ _ (x ∷ xs) (ground (arith, or-last x xs)) (front-Linked s x xs h d o) (o, d)
            f,
        front-Frame s x xs,
      )

-- Pushing at the front.
pub push_front-Pushed :
    (debug : Bool) (x : ℕ) (s : Store) (l : LinkedList) (xs : List ℕ)
    → Holds s l xs
    → NotIn x xs
    → suc (length xs) < usize_mod
    → Yields (push_front debug x s l) (Pushed (x ∷ xs) s)
push_front-Pushed debug x s l xs h o f =
    subst (λ m. Yields (push_front debug x s m) (Pushed (x ∷ xs) s)) (sym (Holds-fields h))
      (front_fields debug x s xs h.linked h.distinct o f)

-- The store after `push_back`.
abbrev back : Store → ℕ → List ℕ → Store
back s x xs = next_of (last none xs) (some x) (set_prev x (last none xs) (set_next x none s))

back-Linked :
    (s : Store) (x : ℕ) (xs : List ℕ)
    → Linked s none xs none
    → Distinct xs
    → NotIn x xs
    → Linked (back s x xs) none (xs ++ x ∷ []) none
back-Linked s x xs h d o =
    let s0 = set_next x none s in
    let s1 = set_prev x (last none xs) s0 in
    let k : Linked s1 none xs none =
      Linked-update s0 x _ none none xs o (Linked-update s x _ none none xs o h) in
    let e = next_of-other (last none xs) (some x) s1 x (last-Differs none xs x tt o) in
    append-Linked (back s x xs) none none xs (x ∷ []) (Linked-last s1 none none (some x) xs d k) (
      ap (λ (l : Links). l.prev) e ∙ (ground arith),
      ap (λ (l : Links). l.next) e ∙ (ground arith),
      tt,
    )

back-Frame : (s : Store) (x : ℕ) (xs : List ℕ) → Frame (xs ++ x ∷ []) s (back s x xs)
back-Frame s x xs a o =
    let (b, c) = NotIn-append a xs (x ∷ []) o in
    next_of-other (last none xs) (some x) _ a (last-Differs none xs a tt b)
    ∙ (update-frame (set_next x none s) x _ a c.0 ∙ update-frame s x _ a c.0)

back_fields :
    (debug : Bool) (x : ℕ) (s : Store) (xs : List ℕ)
    → Linked s none xs none
    → Distinct xs
    → NotIn x xs
    → suc (length xs) < usize_mod
    → Yields (push_back debug x s (fields xs)) (Pushed (xs ++ x ∷ []) s)
unfolding push_back
back_fields debug x s xs h d o f =
    let n = length-append xs (x ∷ []) in
    rw
      (
        same-Differs (last none xs) x (last-Differs none xs x tt o),
        grow_fits debug (length xs) 1 (omega arith),
      )
      (
        fields-Holds _ _ (xs ++ x ∷ [])
            (ground (arith, or-first x xs, last-append none xs (x ∷ []), n))
            (back-Linked s x xs h d o) (snoc-Distinct xs x d o) (omega arith),
        back-Frame s x xs,
      )

-- Pushing at the back.
pub push_back-Pushed :
    (debug : Bool) (x : ℕ) (s : Store) (l : LinkedList) (xs : List ℕ)
    → Holds s l xs
    → NotIn x xs
    → suc (length xs) < usize_mod
    → Yields (push_back debug x s l) (Pushed (xs ++ x ∷ []) s)
push_back-Pushed debug x s l xs h o f =
    subst (λ m. Yields (push_back debug x s m) (Pushed (xs ++ x ∷ []) s)) (sym (Holds-fields h))
      (back_fields debug x s xs h.linked h.distinct o f)
