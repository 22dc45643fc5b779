-- ===== src/LinkedList/Appended.antt =====
-- `append`, and splitting before it.
use mathlib.Core.Path.{subst}
use mathlib.Core.List.{append-nil}
use mathlib.Core.Option.{none, some}
use wasm_kernel.Base.{
  Distinct, NotIn-append, ℕ, suc, ◌<◌, ◌==◌, ◌≡◌, refl, inl, inr, Bool-cases, sym, ap, ◌∙◌, Bool,
  true, false, List, [], ◌∷◌, ◌++◌, length, length-append, Outcome, ◌>>=◌, returned, Yields,
  Yields->>=, Yields-imp, arith,
}
use wasm_kernel.LinkedList.Store.{Store, LinkedList, new, usize_mod, grow}
use wasm_kernel.LinkedList.Splits.{Split, split_off, append}
use wasm_kernel.LinkedList.Chain.{
  last, Holds, Frame, last-some, last-append, fields, Holds-fields, fields-Holds,
}
use wasm_kernel.LinkedList.Pushed.{grow_fits}
use wasm_kernel.LinkedList.Joined.{join, join-Linked, join-other}
use wasm_kernel.LinkedList.Splitting.{Splits, split_off-Splits}

-- The first list has all nodes, and the second none.
abbrev pub Joins : List ℕ → List ℕ → Store → Split → Type 0
Joins ys zs s (s', l', o') = Holds s' l' (ys ++ zs) × Holds s' o' [] × Frame (ys ++ zs) s s'

h_empty : (s : Store) → Holds s new []
h_empty s = fields-Holds s new [] refl tt tt (omega arith)

append_empty :
    (debug : Bool) (s : Store) (o : LinkedList) → append debug s new o ≡ returned (s, o, new)
unfolding append
append_empty true s o = refl
append_empty false s o = refl

append_nothing :
    (debug : Bool) (s : Store) (y : ℕ) (ys : List ℕ)
    → append debug s (fields (y ∷ ys)) new ≡ returned (s, fields (y ∷ ys), new)
unfolding append
append_nothing debug s y ys = let (z, e) = last-some y ys in rw e

append_both :
    (debug : Bool) (s : Store) (y : ℕ) (ys : List ℕ) (z : ℕ) (zs : List ℕ)
    → length (y ∷ ys ++ z ∷ zs) < usize_mod
    → append debug s (fields (y ∷ ys)) (fields (z ∷ zs))
      ≡ returned (join s (y ∷ ys) (z ∷ zs), fields (y ∷ ys ++ z ∷ zs), new)
unfolding append
append_both debug s y ys z zs f =
    let (a, e) = last-some y ys in
    let (b, g) = last-some z zs in
    let n = length-append ys (z ∷ zs) in
    let k : grow debug (suc (length ys)) (suc (length zs))
        ≡ returned (suc (length (ys ++ z ∷ zs))) =
      grow_fits debug (suc (length ys)) (suc (length zs)) (omega arith)
      ∙ ap returned (omega arith) in
    let m : last (some y) (ys ++ z ∷ zs) ≡ some b = last-append (some y) ys (z ∷ zs) ∙ g in
    let nz : (suc (length zs) == 0) ≡ false = ground arith in
    elim (Bool-cases debug) [
      | inl t ↦ rw (t, e, g, nz, rw t at k, m)
      | inr t ↦ rw (t, e, g, rw t at k, m)
    ]

-- Appending gives the first list all nodes of both.
pub append-Joins :
    (debug : Bool) (s : Store) (l o : LinkedList) (ys zs : List ℕ)
    → Holds s l ys
    → Holds s o zs
    → Distinct (ys ++ zs)
    → length (ys ++ zs) < usize_mod
    → Yields (append debug s l o) (Joins ys zs s)
append-Joins debug s l o [] zs h k d f =
    subst (λ m. Yields (append debug s m o) (Joins [] zs s)) (sym (Holds-fields h))
      (rw (append_empty debug s o) (k, h_empty s, λ a q. refl))
append-Joins debug s l o (y ∷ ys) [] h k d f =
    subst (λ m. Yields (append debug s m o) (Joins (y ∷ ys) [] s)) (sym (Holds-fields h))
      (subst (λ m. Yields (append debug s (fields (y ∷ ys)) m) (Joins (y ∷ ys) [] s))
        (sym (Holds-fields k))
        (rw (append_nothing debug s y ys) (
          subst (λ us. Holds s (fields (y ∷ ys)) us) (sym (append-nil (y ∷ ys)))
              (subst (λ m. Holds s m (y ∷ ys)) (Holds-fields h) h),
          h_empty s,
          λ a q. refl,
        )))
append-Joins debug s l o (y ∷ ys) (z ∷ zs) h k d f =
    subst (λ m. Yields (append debug s m o) (Joins (y ∷ ys) (z ∷ zs) s)) (sym (Holds-fields h))
      (subst (λ m. Yields (append debug s (fields (y ∷ ys)) m) (Joins (y ∷ ys) (z ∷ zs) s))
        (sym (Holds-fields k))
        (rw (append_both debug s y ys z zs f) (
          fields-Holds (join s (y ∷ ys) (z ∷ zs)) (fields (y ∷ ys ++ z ∷ zs)) (y ∷ ys ++ z ∷ zs)
              refl (join-Linked s (y ∷ ys) (z ∷ zs) none none h.linked k.linked d) d f,
          h_empty (join s (y ∷ ys) (z ∷ zs)),
          λ a q.
              let (u, v) = NotIn-append a (y ∷ ys) (z ∷ zs) q in
              join-other s (y ∷ ys) (z ∷ zs) a u v,
        )))

-- Splitting a list and appending the second part to the first.
abbrev pub split_append : Bool → ℕ → Store → LinkedList → Outcome Split
split_append debug at s l = do
  (s', left, right) ← split_off debug at s l
  append debug s' left right

-- Splitting a list at a place that is on it returns, in both builds, its first nodes, as many as
-- asked for, in the list, and the others in a new list; appending the new list again returns the
-- list as it was and an empty one. Other nodes keep their links throughout.
pub split_off-append :
    (debug : Bool) (s : Store) (l : LinkedList) (ys zs : List ℕ)
    → Holds s l (ys ++ zs)
    → Yields (split_off debug (length ys) s l) (Splits ys zs s)
      × Yields
          (split_append debug (length ys) s l)
          (λ (s', l', o). (l' ≡ l) × Joins ys zs s (s', l', o))
split_off-append debug s l ys zs h =
    let k = split_off-Splits debug s l ys zs h in
    (
      k,
      Yields->>= (Splits ys zs s) (λ (s', l', o). (l' ≡ l) × Joins ys zs s (s', l', o))
          (split_off debug (length ys) s l) _ k
          λ (s', l', r') (a, b, c).
            Yields-imp (Joins ys zs s') (λ (s2, l2, o2). (l2 ≡ l) × Joins ys zs s (s2, l2, o2)) _
              (λ (s2, l2, o2) (d, e, f).
                (Holds-fields d ∙ sym (Holds-fields h), (d, e, λ i q. f i q ∙ c i q)))
              (append-Joins debug s' l' r' ys zs a b h.distinct h.fits),
    )
