-- ===== src/MpscQueue/Chain.antt =====
-- The nodes from the tail of the queue to its head, some of them not linked yet.
use mathlib.Core.Path.{subst}
use mathlib.Core.Option.{Option, none, some}
use wasm_kernel.Base.{
  NotIn, Distinct, ℕ, ◌==◌, ◌≡◌, ◌≢◌, ◌⊎◌, inl, inr, refl, sym, ◌∙◌, update, if◌then◌else◌, List,
  [], ◌∷◌, ◌++◌, arith,
}

-- The link from a node to the one after it is there, or it is still to be set.
abbrev pub Joined : (ℕ → Option ℕ) → (ℕ → Option ℕ) → ℕ → ℕ → Type 0
Joined next linking x y = (next x ≡ some y) ⊎ ((next x ≡ none) × (linking y ≡ some x))

abbrev pub Chain : (ℕ → Option ℕ) → (ℕ → Option ℕ) → ℕ → List ℕ → Type 0
Chain next linking x [] = next x ≡ none
Chain next linking x (y ∷ l) = Joined next linking x y × Chain next linking y l

abbrev pub last_of : ℕ → List ℕ → ℕ
last_of x [] = x
last_of x (y ∷ l) = last_of y l

-- The nodes `p` and `i` follow each other.
abbrev pub Follows : ℕ → ℕ → ℕ → List ℕ → Type 0
Follows p i x [] = ⊥
Follows p i x (y ∷ l) = ((x ≡ p) × (y ≡ i)) ⊎ Follows p i y l

-- What is queued: all nodes but the stub.
abbrev pub items : ℕ → List ℕ → List ℕ
items stub [] = []
items stub (x ∷ l) = if x == stub then items stub l else x ∷ items stub l

Follows-first : (p i x z : ℕ) (l : List ℕ) → Follows p i x l → NotIn z (x ∷ l) → z ≢ p
Follows-first p i x z [] f n = absurd f
Follows-first p i x z (y ∷ l) (inl (a, b)) n = λ e. n.0 (e ∙ sym a)
Follows-first p i x z (y ∷ l) (inr f) n = Follows-first p i y z l f n.1

Follows-second : (p i x z : ℕ) (l : List ℕ) → Follows p i x l → NotIn z l → z ≢ i
Follows-second p i x z [] f n = absurd f
Follows-second p i x z (y ∷ l) (inl (a, b)) n = λ e. n.0 (e ∙ sym b)
Follows-second p i x z (y ∷ l) (inr f) n = Follows-second p i y z l f n.1

-- No node has two that follow it.
pub one_follower :
    (p i j x : ℕ) (l : List ℕ) → Distinct (x ∷ l) → Follows p i x l → Follows p j x l → i ≡ j
one_follower p i j x [] d f g = absurd f
one_follower p i j x (y ∷ l) d (inl (a, b)) (inl (c, e)) = sym b ∙ e
one_follower p i j x (y ∷ l) d (inl (a, b)) (inr g) = absurd (Follows-first p j y x l g d.0 a)
one_follower p i j x (y ∷ l) d (inr f) (inl (a, b)) = absurd (Follows-first p i y x l f d.0 a)
one_follower p i j x (y ∷ l) d (inr f) (inr g) = one_follower p i j y l d.1 f g

-- Links that are changed elsewhere.
Chain-frame :
    (next linking : ℕ → Option ℕ) (p i : ℕ) (a b : Option ℕ) (x : ℕ) (l : List ℕ)
    → NotIn p (x ∷ l)
    → NotIn i l
    → Chain next linking x l
    → Chain (update next p a) (update linking i b) x l
Chain-frame next linking p i a b x [] n m c = ground arith
Chain-frame next linking p i a b x (y ∷ l) n m (inl e, c) =
    (inl (ground arith), Chain-frame next linking p i a b y l n.1 m.1 c)
Chain-frame next linking p i a b x (y ∷ l) n m (inr (e, f), c) =
    (inr (ground arith, ground arith), Chain-frame next linking p i a b y l n.1 m.1 c)

-- The link from `p` to `i` is set.
pub Chain-link :
    (next linking : ℕ → Option ℕ) (p i x : ℕ) (l : List ℕ)
    → Distinct (x ∷ l)
    → Follows p i x l
    → Chain next linking x l
    → Chain (update next p (some i)) (update linking i none) x l
Chain-link next linking p i x [] d f c = absurd f
Chain-link next linking p i x (y ∷ l) d (inl (a, b)) (j, c) = (
  inl (rw (a, b) (ground arith)),
  Chain-frame next linking p i (some i) none y l (subst (λ z. NotIn z (y ∷ l)) a d.0)
      (subst (λ z. NotIn z l) b d.1.0) c,
)
Chain-link next linking p i x (y ∷ l) d (inr f) (j, c) =
    let n = Follows-first p i y x l f d.0 in
    let m = Follows-second p i y y l f d.1.0 in
    (joined j n m, Chain-link next linking p i y l d.1 f c)
  where
    joined :
        Joined next linking x y
        → x ≢ p
        → y ≢ i
        → Joined (update next p (some i)) (update linking i none) x y
    joined (inl e) n m = inl (ground arith)
    joined (inr (e, f)) n m = inr (ground arith, ground arith)

-- A node is put at the end, and still to be linked.
pub Chain-snoc :
    (next linking : ℕ → Option ℕ) (i x : ℕ) (l : List ℕ)
    → NotIn i (x ∷ l)
    → Chain next linking x l
    → Chain (update next i none) (update linking i (some (last_of x l))) x (l ++ i ∷ [])
Chain-snoc next linking i x [] n c = (inr (ground arith, ground arith), ground arith)
Chain-snoc next linking i x (y ∷ l) n (inl e, c) =
    let a = n.0 in (inl (ground arith), Chain-snoc next linking i y l n.1 c)
Chain-snoc next linking i x (y ∷ l) n (inr (e, f), c) =
    let a = n.0 in
    let b = n.1.0 in (inr (ground arith, ground arith), Chain-snoc next linking i y l n.1 c)

pub last_of-snoc : (x : ℕ) (l : List ℕ) (i : ℕ) → last_of x (l ++ i ∷ []) ≡ i
last_of-snoc x [] i = refl
last_of-snoc x (y ∷ l) i = last_of-snoc y l i

pub Follows-append : (p j x : ℕ) (l m : List ℕ) → Follows p j x l → Follows p j x (l ++ m)
Follows-append p j x [] m f = absurd f
Follows-append p j x (y ∷ l) m (inl f) = inl f
Follows-append p j x (y ∷ l) m (inr f) = inr (Follows-append p j y l m f)

pub Follows-snoc : (x : ℕ) (l : List ℕ) (i : ℕ) → Follows (last_of x l) i x (l ++ i ∷ [])
Follows-snoc x [] i = inl (refl, refl)
Follows-snoc x (y ∷ l) i = inr (Follows-snoc y l i)

pub Chain-last :
    (next linking : ℕ → Option ℕ) (x : ℕ) (l : List ℕ)
    → Chain next linking x l
    → next (last_of x l) ≡ none
Chain-last next linking x [] c = c
Chain-last next linking x (y ∷ l) (j, c) = Chain-last next linking y l c

-- The last node is the first one only if there is no other.
pub last_alone : (x : ℕ) (l : List ℕ) → Distinct (x ∷ l) → last_of x l ≡ x → l ≡ []
last_alone x [] d e = refl
last_alone x (y ∷ l) d e = absurd (no_last y l d.0 e)
  where
    no_last : (y : ℕ) (l : List ℕ) → NotIn x (y ∷ l) → last_of y l ≢ x
    no_last y [] n e = n.0 (sym e)
    no_last y (z ∷ l) n e = no_last z l n.1 e

pub items-snoc :
    (stub : ℕ) (l : List ℕ) (i : ℕ) → items stub (l ++ i ∷ []) ≡ items stub l ++ items stub (i ∷ [])
items-snoc stub [] i = refl
items-snoc stub (x ∷ l) i = ground (arith, items-snoc stub l i)
