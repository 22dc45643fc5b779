-- ===== src/LinkedList/Splitting.antt =====
-- Splitting a list, and joining the parts again.
use mathlib.Core.Path.{subst}
use mathlib.Core.List.{append-nil}
use mathlib.Core.Option.{none, some}
use wasm_kernel.Base.{
  Distinct, NotIn-append, Distinct-append, ℕ, suc, ◌+◌, ◌-◌, ◌<◌, ◌==◌, ◌≡◌, refl, sym, ap, ◌∙◌,
  Bool, true, false, List, [], ◌∷◌, ◌++◌, ltb, length, length-append, returned, Yields, arith,
  debug_assert-true,
}
use wasm_kernel.LinkedList.Store.{
  Link, set_next, set_prev, next_of, prev_of, Store, LinkedList, new, usize_mod, same,
}
use wasm_kernel.LinkedList.Splits.{
  Split, split_node, split_after, split_after_node, try_split_off, split_off,
}
use wasm_kernel.LinkedList.Chain.{
  first, last, Linked, Holds, Frame, Linked-append, last-append, first-append, fields, Holds-fields,
  fields-Holds,
}
use wasm_kernel.LinkedList.Joined.{cut, cut-Linked, cut-other}
use wasm_kernel.LinkedList.Walks.{split_node_lem}
use wasm_kernel.LinkedList.Deque.{init, snoc-view}

last-next_cons :
    (s : Store) (p n : Link) (x : ℕ) (xs : List ℕ) (y : ℕ)
    → Linked s p (x ∷ xs) n
    → last (some x) xs ≡ some y
    → (s y).next ≡ n
last-next_cons s p n x [] y (a, b, c) e = ground arith
last-next_cons s p n x (w ∷ xs) y (a, b, c) e = last-next_cons s (some x) n w xs y c e

last-next :
    (s : Store) (n : Link) (ys : List ℕ) (y : ℕ)
    → Linked s none ys n
    → last none ys ≡ some y
    → (s y).next ≡ n
last-next s n [] y h e = cc
last-next s n (x ∷ xs) y h e = last-next_cons s none n x xs y h e

first-nonempty :
    (ys : List ℕ) (y : ℕ) (n : Link) → last none ys ≡ some y → first ys n ≡ first ys none
first-nonempty [] y n e = cc
first-nonempty (x ∷ ys) y n e = refl

set_next-prev : (s : Store) (a b : ℕ) (link : Link) → (set_next a link s b).prev ≡ (s b).prev
set_next-prev s a b link = ground arith

==_refl : (a : ℕ) → (a == a) ≡ true
==_refl a = ground arith

abbrev pub Splits : List ℕ → List ℕ → Store → Split → Type 0
Splits ys zs s (s', l', r') = Holds s' l' ys × Holds s' r' zs × Frame (ys ++ zs) s s'

module _ (s : Store) (ys zs : List ℕ) (y z : ℕ) where
  -- The store after the split.
  parted : Store
  parted = set_prev z none (set_next y none s)

  parted-Splits :
      last none ys ≡ some y
      → Linked s none (ys ++ z ∷ zs) none
      → Distinct (ys ++ z ∷ zs)
      → length (ys ++ z ∷ zs) < usize_mod
      → Splits ys (z ∷ zs) s (parted, fields ys, fields (z ∷ zs))
  unfolding parted
  parted-Splits e h d f =
      let q : cut s ys (z ∷ zs) ≡ set_prev z none (set_next y none s) =
        ap (λ (link : Link). prev_of (some z) none (next_of link none s)) e in
      let (a, b) = cut-Linked s ys (z ∷ zs) h d in
      let (da, db) = Distinct-append ys (z ∷ zs) d in
      let n = length-append ys (z ∷ zs) in
      subst (λ t. Splits ys (z ∷ zs) s (t, fields ys, fields (z ∷ zs))) q
        (
          fields-Holds (cut s ys (z ∷ zs)) (fields ys) ys refl a da (omega arith),
          fields-Holds (cut s ys (z ∷ zs)) (fields (z ∷ zs)) (z ∷ zs) refl b db (omega arith),
          λ i o. let (u, v) = NotIn-append i ys (z ∷ zs) o in cut-other s ys (z ∷ zs) i u v,
        )

  parted_fields :
      (at : ℕ) (l : LinkedList)
      → last none ys ≡ some y
      → at ≡ length ys
      → l ≡ fields (ys ++ z ∷ zs)
      → ◌≡◌ {A = LinkedList × LinkedList}
          (
            record l { tail = some y; len = at },
            record { head = some z; tail = l.tail; len = l.len - at },
          )
          (fields ys, fields (z ∷ zs))
  parted_fields at l e k g =
      let n : length (ys ++ z ∷ zs) - length ys ≡ suc (length zs) =
        omega (arith, length-append ys (z ∷ zs)) in
      let t = last-append none ys (z ∷ zs) in
      let f = first-append ys (z ∷ zs) none ∙ first-nonempty ys y (some z) e in
      rw (g, k, f, t, n, e)

  split_after-some :
      (debug : Bool) (at : ℕ) (l : LinkedList)
      → (set_next y none s z).prev ≡ some y
      → last none ys ≡ some y
      → at ≡ length ys
      → l ≡ fields (ys ++ z ∷ zs)
      → split_after debug y at (some z) (set_next y none s) l
        ≡ returned (parted, fields ys, fields (z ∷ zs))
  unfolding split_after parted
  split_after-some debug at l u e k g =
      rw (debug_assert-true debug _ (ap (λ (link : Link). same link (some y)) u ∙ ==_refl y)) (
        ap
          (λ (t : LinkedList × LinkedList).
            returned (set_prev z none (set_next y none s), t.0, t.1))
          (parted_fields at l e k g))

  split_after_lem :
      (debug : Bool) (at : ℕ) (l : LinkedList)
      → last none ys ≡ some y
      → Linked s none (ys ++ z ∷ zs) none
      → Distinct (ys ++ z ∷ zs)
      → at ≡ length ys
      → l ≡ fields (ys ++ z ∷ zs)
      → split_after_node debug (some y) at s l ≡ returned (parted, fields ys, fields (z ∷ zs))
  unfolding split_after_node
  split_after_lem debug at l e h d k g =
      let (a, b) = Linked-append s none none ys (z ∷ zs) h in
      let u = set_next-prev s y z none ∙ (b.0 ∙ e) in
      ap (λ (link : Link). split_after debug y at link (set_next y none s) l)
        (last-next s (some z) ys y a e)
      ∙ split_after-some debug at l u e k g

split_middle :
    (debug : Bool) (s : Store) (x : ℕ) (xs : List ℕ) (z : ℕ) (zs : List ℕ)
    → Linked s none (x ∷ xs ++ z ∷ zs) none
    → Distinct (x ∷ xs ++ z ∷ zs)
    → length (x ∷ xs ++ z ∷ zs) < usize_mod
    → Yields
        (split_off debug (suc (length xs)) s (fields (x ∷ xs ++ z ∷ zs)))
        (Splits (x ∷ xs) (z ∷ zs) s)
unfolding split_off try_split_off
split_middle debug s x xs z zs h d f =
    let (y, t, u) = snoc-view x xs in
    let k : suc (length xs) ≡ length (init (x ∷ xs)) + 1 =
      ap length t ∙ length-append (init (x ∷ xs)) (y ∷ []) in
    let n = length-append xs (z ∷ zs) in
    let t' = ap (λ (l : List ℕ). l ++ z ∷ zs) t in
    let e1 : (suc (length xs) == 0) ≡ false = ground arith in
    let e2 : (suc (length xs) == length (x ∷ xs ++ z ∷ zs)) ≡ false = ground arith in
    let e3 : ltb (length (x ∷ xs ++ z ∷ zs)) (suc (length xs)) ≡ false = ground arith in
    let node : split_node (suc (length xs) - 1) s (fields (x ∷ xs ++ z ∷ zs)) ≡ some y =
      ap (λ (m : ℕ). split_node m s (fields (x ∷ xs ++ z ∷ zs))) (omega arith)
      ∙ (ap (λ (l : List ℕ). split_node (length (init (x ∷ xs))) s (fields l)) t'
          ∙ split_node_lem s (init (x ∷ xs)) (z ∷ zs) y (subst (λ l. Linked s none l none) t' h)) in
    rw
      (
        e1,
        e2,
        e3,
        node,
        split_after_lem s (x ∷ xs) zs y z debug (suc (length xs)) (fields (x ∷ xs ++ z ∷ zs)) u h d
            refl refl,
      )
      (parted-Splits s (x ∷ xs) zs y z u h d f)

-- At either end nothing is moved.
split_start :
    (debug : Bool) (s : Store) (l : LinkedList) → split_off debug 0 s l ≡ returned (s, new, l)
unfolding split_off try_split_off
split_start debug s l = refl

split_end :
    (debug : Bool) (s : Store) (l : LinkedList) (n : ℕ)
    → l.len ≡ suc n
    → split_off debug (suc n) s l ≡ returned (s, l, new)
unfolding split_off try_split_off
split_end debug s l n e = ground arith

new-Holds : (s : Store) → Holds s new []
new-Holds s = fields-Holds s new [] refl tt tt (omega arith)

-- Splitting at a place on the list gives the two parts.
pub split_off-Splits :
    (debug : Bool) (s : Store) (l : LinkedList) (ys zs : List ℕ)
    → Holds s l (ys ++ zs)
    → Yields (split_off debug (length ys) s l) (Splits ys zs s)
split_off-Splits debug s l [] zs h = rw (split_start debug s l) (new-Holds s, h, λ a o. refl)
split_off-Splits debug s l (x ∷ xs) [] h =
    let e : x ∷ xs ++ [] ≡ x ∷ xs = append-nil (x ∷ xs) in
    let k = subst (λ ys. Holds s l ys) e h in
    rw (split_end debug s l (length xs) k.len) (k, new-Holds s, λ a o. refl)
split_off-Splits debug s l (x ∷ xs) (z ∷ zs) h =
    subst (λ m. Yields (split_off debug (suc (length xs)) s m) (Splits (x ∷ xs) (z ∷ zs) s))
      (sym (Holds-fields h)) (split_middle debug s x xs z zs h.linked h.distinct h.fits)
