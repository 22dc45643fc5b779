-- ===== src/LinkedList/Removed.antt =====
-- `remove`, of a node anywhere on the list.
use mathlib.Core.Path.{subst}
use mathlib.Core.Option.{none, some}
use wasm_kernel.Base.{
  NotIn, Distinct, NotIn-append, ℕ, suc, ◌==◌, ◌≡◌, refl, ◌∙◌, Bool, true, false, List, [], ◌∷◌,
  ◌++◌, length, length-append, returned, Yields, arith,
}
use wasm_kernel.LinkedList.Store.{unlinked, unlink, Store, LinkedList}
use wasm_kernel.LinkedList.Ops.{remove}
use wasm_kernel.LinkedList.Chain.{
  first, last, Linked, Holds, Frame, Linked-update, Linked-append, Differs, last-Differs, last-some,
  last-append, first-append, Distinct-middle, fields, Holds-fields, fields-Holds, update-frame,
}
use wasm_kernel.LinkedList.Joined.{join, join-Linked, join-other}
use wasm_kernel.LinkedList.Popped.{shrink-suc, Taken}

-- The store after `x` is taken from between `xs` and `ys`.
abbrev taken : Store → ℕ → List ℕ → List ℕ → Store
taken s x xs ys = join (unlink x s) xs ys

taken-Linked :
    (s : Store) (x : ℕ) (xs ys : List ℕ)
    → Linked s none (xs ++ x ∷ ys) none
    → Distinct (xs ++ x ∷ ys)
    → Linked (taken s x xs ys) none (xs ++ ys) none
taken-Linked s x xs ys h d =
    let (a, b) = Linked-append s none none xs (x ∷ ys) h in
    let (o, e) = Distinct-middle xs x ys d in
    let (ox, oy) = NotIn-append x xs ys o in
    join-Linked (unlink x s) xs ys (some x) (some x)
      (Linked-update s x unlinked none (some x) xs ox a)
      (Linked-update s x unlinked (some x) none ys oy b.2) e

module _ (s : Store) (x : ℕ) (xs ys : List ℕ) where
  taken-Frame : Frame (xs ++ x ∷ ys) s (taken s x xs ys)
  taken-Frame a o =
      let (b, c) = NotIn-append a xs (x ∷ ys) o in
      join-other (unlink x s) xs ys a b c.1 ∙ update-frame s x unlinked a c.0

  taken-Loose : NotIn x xs → NotIn x ys → taken s x xs ys x ≡ unlinked
  taken-Loose o k = join-other (unlink x s) xs ys x o k ∙ (ground arith)

Holds-taken :
    (s : Store) (l l' : LinkedList) (x : ℕ) (xs ys : List ℕ)
    → Holds s l (xs ++ x ∷ ys)
    → l' ≡ fields (xs ++ ys)
    → Taken (some x) (xs ++ x ∷ ys) (xs ++ ys) s (taken s x xs ys, l', some x)
Holds-taken s l l' x xs ys h e =
    let (o, d) = Distinct-middle xs x ys h.distinct in
    let (a, b) = NotIn-append x xs ys o in
    let n = length-append xs ys in
    let m = length-append xs (x ∷ ys) in
    (
      refl,
      fields-Holds (taken s x xs ys) l' (xs ++ ys) e (taken-Linked s x xs ys h.linked h.distinct) d
          (omega (arith, h.fits)),
      taken-Frame s x xs ys,
      taken-Loose s x xs ys a b,
    )

abbrev Removes : Bool → ℕ → Store → LinkedList → List ℕ → List ℕ → Type 0
Removes debug x s l xs ys =
    remove debug x s l ≡ returned (taken s x xs ys, fields (xs ++ ys), some x)

same_self : (a : ℕ) → (a == a) ≡ true
same_self a = ground arith

suc-ne-zero : (n : ℕ) → (suc n == 0) ≡ false
suc-ne-zero n = ground arith

remove_at :
    (debug : Bool) (x : ℕ) (s : Store) (l : LinkedList) (xs ys : List ℕ)
    → Holds s l (xs ++ x ∷ ys)
    → l
      ≡ record { head = first xs (some x); tail = last (some x) ys; len = suc (length (xs ++ ys)) }
    → (s x).prev ≡ last none xs
    → (s x).next ≡ first ys none
    → Removes debug x s l xs ys
unfolding remove
remove_at true x s l [] [] h e p n = rw (e, p, n, same_self, shrink-suc true 0)
remove_at false x s l [] [] h e p n = rw (e, p, n, same_self, shrink-suc false 0)
remove_at debug x s l [] (y ∷ ys) h e p n = ground (arith, shrink-suc debug (suc (length ys)))
remove_at true x s l (z ∷ xs) [] h e p n =
    let (w, q) = last-some z xs in
    let k = p ∙ q in
    let o = (NotIn-append x (z ∷ xs) [] (Distinct-middle (z ∷ xs) x [] h.distinct).0).0 in
    let d : Differs (some w) x = subst (λ j. Differs j x) q (last-Differs none (z ∷ xs) x tt o) in
    let f : (x == w) ≡ false = ground arith in
    rw
      (
        e,
        k,
        n,
        same_self,
        suc-ne-zero,
        f,
        shrink-suc true (suc (length (xs ++ []))),
        last-append (some z) xs [],
        q,
      )
      (rw f)
remove_at false x s l (z ∷ xs) [] h e p n =
    let (w, q) = last-some z xs in
    let k = p ∙ q in
    rw (
      e,
      k,
      n,
      same_self,
      shrink-suc false (suc (length (xs ++ []))),
      last-append (some z) xs [],
      q,
    )
remove_at true x s l (z ∷ xs) (y ∷ ys) h e p n =
    let (w, q) = last-some z xs in
    let k = p ∙ q in
    rw (
      e,
      k,
      n,
      suc-ne-zero,
      shrink-suc true (suc (length (xs ++ y ∷ ys))),
      last-append (some z) xs (y ∷ ys),
      q,
    )
remove_at false x s l (z ∷ xs) (y ∷ ys) h e p n =
    let (w, q) = last-some z xs in
    let k = p ∙ q in
    rw
      (e, k, n, shrink-suc false (suc (length (xs ++ y ∷ ys))), last-append (some z) xs (y ∷ ys), q)

-- Removing a node that is on the list takes it off.
pub remove-Taken :
    (debug : Bool) (x : ℕ) (s : Store) (l : LinkedList) (xs ys : List ℕ)
    → Holds s l (xs ++ x ∷ ys)
    → Yields (remove debug x s l) (Taken (some x) (xs ++ x ∷ ys) (xs ++ ys) s)
remove-Taken debug x s l xs ys h =
    let (a, b) = Linked-append s none none xs (x ∷ ys) h.linked in
    let n = length-append xs (x ∷ ys) in
    let m = length-append xs ys in
    let e : l ≡ record {
      head = first xs (some x);
      tail = last (some x) ys;
      len = suc (length (xs ++ ys));
    } =
      ground (
        arith,
        Holds-fields h,
        first-append xs (x ∷ ys) none,
        last-append none xs (x ∷ ys),
        n,
        m,
      ) in
    rw (remove_at debug x s l xs ys h e b.0 b.1)
      (Holds-taken s l (fields (xs ++ ys)) x xs ys h refl)
