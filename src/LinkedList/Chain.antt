-- ===== src/LinkedList/Chain.antt =====
-- What a store and a list's fields stand for: a sequence of nodes.
use mathlib.Core.Option.{none, some}
use wasm_kernel.Base.{
  NotIn, Distinct, NotIn-append, append-NotIn, ℕ, ◌<◌, ◌≡◌, ◌≢◌, refl, sym, ap, ◌∙◌, List, [], ◌∷◌,
  ◌++◌, update, length, arith,
}
use wasm_kernel.LinkedList.Store.{Link, Links, Store, LinkedList, next_of, prev_of, usize_mod}

abbrev pub first : List ℕ → Link → Link
first [] n = n
first (x ∷ xs) n = some x

abbrev pub last : Link → List ℕ → Link
last p [] = p
last p (x ∷ xs) = last (some x) xs

-- The nodes are linked to one another in this order, between `p` and `n`.
abbrev pub Linked : Store → Link → List ℕ → Link → Type 0
Linked s p [] n = Unit
Linked s p (x ∷ xs) n = ((s x).prev ≡ p) × ((s x).next ≡ first xs n) × Linked s (some x) xs n

pub record Holds (s : Store) (l : LinkedList) (xs : List ℕ) : Type 0 where
  pub head : l.head ≡ first xs none
  pub tail : l.tail ≡ last none xs
  pub len : l.len ≡ length xs
  pub linked : Linked s none xs none
  pub distinct : Distinct xs
  pub fits : length xs < usize_mod

-- Nodes that are not on the list keep their links.
abbrev pub Frame : List ℕ → Store → Store → Type 0
Frame xs s s' = (a : ℕ) → NotIn a xs → s' a ≡ s a

-- A write to a node that is not among them.
pub Linked-update :
    (s : Store) (a : ℕ) (v : Links) (p n : Link) (xs : List ℕ)
    → NotIn a xs
    → Linked s p xs n
    → Linked (update s a v) p xs n
Linked-update s a v p n [] o h = tt
Linked-update s a v p n (x ∷ xs) o (b, c, d) =
    (ground arith, ground arith, Linked-update s a v (some x) n xs o.1 d)

abbrev pub LinkNotIn : Link → List ℕ → Type 0
LinkNotIn none xs = Unit
LinkNotIn (some a) xs = NotIn a xs

pub Linked-next_of :
    (s : Store) (link v p n : Link) (xs : List ℕ)
    → LinkNotIn link xs
    → Linked s p xs n
    → Linked (next_of link v s) p xs n
Linked-next_of s none v p n xs o h = h
Linked-next_of s (some a) v p n xs o h = Linked-update s a _ p n xs o h

pub Linked-prev_of :
    (s : Store) (link v p n : Link) (xs : List ℕ)
    → LinkNotIn link xs
    → Linked s p xs n
    → Linked (prev_of link v s) p xs n
Linked-prev_of s none v p n xs o h = h
Linked-prev_of s (some a) v p n xs o h = Linked-update s a _ p n xs o h

pub first-append : (xs ys : List ℕ) (n : Link) → first (xs ++ ys) n ≡ first xs (first ys n)
first-append [] ys n = refl
first-append (x ∷ xs) ys n = refl

pub last-append : (p : Link) (xs ys : List ℕ) → last p (xs ++ ys) ≡ last (last p xs) ys
last-append p [] ys = refl
last-append p (x ∷ xs) ys = last-append (some x) xs ys

-- Two runs of nodes that follow one another.
pub Linked-append :
    (s : Store) (p n : Link) (xs ys : List ℕ)
    → Linked s p (xs ++ ys) n
    → Linked s p xs (first ys n) × Linked s (last p xs) ys n
Linked-append s p n [] ys h = (tt, h)
Linked-append s p n (x ∷ xs) ys (a, b, c) =
    let (d, e) = Linked-append s (some x) n xs ys c in ((a, b ∙ first-append xs ys n, d), e)

pub append-Linked :
    (s : Store) (p n : Link) (xs ys : List ℕ)
    → Linked s p xs (first ys n)
    → Linked s (last p xs) ys n
    → Linked s p (xs ++ ys) n
append-Linked s p n [] ys h k = k
append-Linked s p n (x ∷ xs) ys (a, b, c) k =
    (a, b ∙ sym (first-append xs ys n), append-Linked s (some x) n xs ys c k)

abbrev pub Differs : Link → ℕ → Type 0
Differs none a = Unit
Differs (some b) a = b ≢ a

pub last-Differs :
    (p : Link) (xs : List ℕ) (a : ℕ) → Differs p a → NotIn a xs → Differs (last p xs) a
last-Differs p [] a d o = d
last-Differs p (x ∷ xs) a d o = last-Differs (some x) xs a (λ e. o.0 (sym e)) o.1

pub next_of-other : (link v : Link) (s : Store) (a : ℕ) → Differs link a → next_of link v s a ≡ s a
next_of-other none v s a d = refl
next_of-other (some b) v s a d = ground arith

pub prev_of-other : (link v : Link) (s : Store) (a : ℕ) → Differs link a → prev_of link v s a ≡ s a
prev_of-other none v s a d = refl
prev_of-other (some b) v s a d = ground arith

-- A new link after the last node.
pub Linked-last :
    (s : Store) (p n m : Link) (xs : List ℕ)
    → Distinct xs
    → Linked s p xs n
    → Linked (next_of (last p xs) m s) p xs m
Linked-last s p n m [] d h = tt
Linked-last s p n m (x ∷ []) d (a, b, c) = (ground arith, ground arith, tt)
Linked-last s p n m (x ∷ y ∷ xs) d (a, b, c) =
    let e =
      next_of-other (last (some y) xs) m s x
        (last-Differs (some y) xs x (λ q. d.0.0 (sym q)) d.0.1) in
    (
      ap (λ (l : Links). l.prev) e ∙ a,
      ap (λ (l : Links). l.next) e ∙ b,
      Linked-last s (some x) n m (y ∷ xs) d.1 c,
    )

-- A new link before the first node.
pub Linked-first :
    (s : Store) (p q n m : Link) (xs : List ℕ)
    → Distinct xs
    → Linked s p xs n
    → Linked (prev_of (first xs m) q s) q xs n
Linked-first s p q n m [] d h = tt
Linked-first s p q n m (x ∷ xs) d (a, b, c) =
    (ground arith, ground arith, Linked-update s x _ (some x) n xs d.0 c)

pub Distinct-middle :
    (xs : List ℕ) (a : ℕ) (ys : List ℕ)
    → Distinct (xs ++ a ∷ ys)
    → NotIn a (xs ++ ys) × Distinct (xs ++ ys)
Distinct-middle [] a ys d = d
Distinct-middle (x ∷ xs) a ys d =
    let (o, e) = Distinct-middle xs a ys d.1 in
    let (b, c) = NotIn-append x xs (a ∷ ys) d.0 in
    (((λ q. c.0 (sym q)), o), (append-NotIn x xs ys b c.1, e))

-- The ends of runs are nodes of them.
pub first-Differs :
    (xs : List ℕ) (n : Link) (a : ℕ) → Differs n a → NotIn a xs → Differs (first xs n) a
first-Differs [] n a d o = d
first-Differs (x ∷ xs) n a d o = λ e. o.0 (sym e)

-- The fields of a list of these nodes.
abbrev pub fields : List ℕ → LinkedList
fields xs = record { head = first xs none; tail = last none xs; len = length xs }

pub Holds-fields : {s : Store} {l : LinkedList} {xs : List ℕ} → Holds s l xs → l ≡ fields xs
Holds-fields h = ground arith

pub fields-Holds :
    (s : Store) (l : LinkedList) (xs : List ℕ)
    → l ≡ fields xs
    → Linked s none xs none
    → Distinct xs
    → length xs < usize_mod
    → Holds s l xs
fields-Holds s l xs e k d f = record {
  head = ap (λ (m : LinkedList). m.head) e;
  tail = ap (λ (m : LinkedList). m.tail) e;
  len = ap (λ (m : LinkedList). m.len) e;
  linked = k;
  distinct = d;
  fits = f;
}

pub last-some : (x : ℕ) (xs : List ℕ) → (y : ℕ) × (last (some x) xs ≡ some y)
last-some x [] = (x, refl)
last-some x (y ∷ xs) = last-some y xs

-- Frames of writes.
pub update-frame : (s : Store) (b : ℕ) (v : Links) (a : ℕ) → a ≢ b → update s b v a ≡ s a
update-frame s b v a n = ground arith
