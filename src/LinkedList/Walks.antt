-- ===== src/LinkedList/Walks.antt =====
-- Walking a list from either end.
use mathlib.Core.Path.{subst}
use mathlib.Core.List.{append-nil, append_assoc}
use mathlib.Core.Option.{none, some}
use wasm_kernel.Base.{
  ℕ, zero, suc, ◌-◌, ◌≤◌, ◌≡◌, refl, inl, inr, sym, ap, ◌∙◌, List, [], ◌∷◌, ◌++◌, leb, length,
  length-append, arith, Bool-cases,
}
use wasm_kernel.LinkedList.Store.{Link, Store}
use wasm_kernel.LinkedList.Splits.{Iter, iter, next, next_back, advance, advance_back, split_node}
use wasm_kernel.LinkedList.Chain.{first, last, Linked, Linked-append, last-append, fields}
use wasm_kernel.LinkedList.Deque.{init, snoc-view}

next-some :
    (s : Store) (it : Iter) (a : ℕ) (n : ℕ)
    → it.curr ≡ some a
    → suc n ≤ it.len
    → ((next s it).0.curr ≡ (s a).next) × ((next s it).0.len ≡ it.len - 1)
unfolding next
next-some s it a n e f = ground arith

back-some :
    (s : Store) (it : Iter) (a : ℕ) (n : ℕ)
    → it.curr_back ≡ some a
    → suc n ≤ it.len
    → ((next_back s it).0.curr_back ≡ (s a).prev) × ((next_back s it).0.len ≡ it.len - 1)
unfolding next_back
back-some s it a n e f = ground arith

advance_lem :
    (s : Store) (p n : Link) (ys : List ℕ) (z : ℕ) (zs : List ℕ) (it : Iter)
    → Linked s p (ys ++ z ∷ zs) n
    → it.curr ≡ first (ys ++ z ∷ zs) n
    → length ys ≤ it.len
    → (advance (length ys) s it).curr ≡ some z
unfolding advance
advance_lem s p n [] z zs it h e f = e
advance_lem s p n (y ∷ ys) z zs it (a, b, c) e f =
    let (q, r) = next-some s it y (length ys) e f in
    advance_lem s (some y) n ys z zs (next s it).0 c (q ∙ b) (omega (arith, r))

advance_back_lem :
    (k : ℕ) (s : Store) (p n : Link) (us ws : List ℕ) (it : Iter)
    → length ws ≡ k
    → Linked s p (us ++ ws) n
    → it.curr_back ≡ last p (us ++ ws)
    → k ≤ it.len
    → (advance_back k s it).curr_back ≡ last p us
unfolding advance_back
advance_back_lem zero s p n us [] it g h e f = rw append-nil at e
advance_back_lem zero s p n us (w ∷ ws) it g h e f = absurd (omega arith)
advance_back_lem (suc k) s p n us [] it g h e f = absurd (omega arith)
advance_back_lem (suc k) s p n us (w ∷ ws) it g h e f =
    let (y, t, u) = snoc-view w ws in
    let i = init (w ∷ ws) in
    let t' : us ++ w ∷ ws ≡ (us ++ i) ++ y ∷ [] =
      ap (λ (l : List ℕ). us ++ l) t ∙ sym (append_assoc us i (y ∷ [])) in
    let (c, d) = Linked-append s p n (us ++ i) (y ∷ []) (subst (λ l. Linked s p l n) t' h) in
    let e' : it.curr_back ≡ some y = e ∙ (ap (last p) t' ∙ last-append p (us ++ i) (y ∷ [])) in
    let (q, r) = back-some s it y k e' f in
    let len_i : length i ≡ k = omega (arith, ap length t, length-append i (y ∷ []), g) in
    advance_back_lem k s p (some y) us i (next_back s it).0 len_i c (q ∙ d.0) (omega (arith, r))

-- The node before the split is the last one of the first part.
pub split_node_lem :
    (s : Store) (ys zs : List ℕ) (y : ℕ)
    → Linked s none ((ys ++ y ∷ []) ++ zs) none
    → split_node (length ys) s (fields ((ys ++ y ∷ []) ++ zs)) ≡ some y
unfolding split_node
split_node_lem s ys zs y h =
    let assoc : (ys ++ y ∷ []) ++ zs ≡ ys ++ y ∷ zs = append_assoc ys (y ∷ []) zs in
    let n1 = length-append ys (y ∷ zs) in
    let n2 = ap length assoc in
    let d : length ((ys ++ y ∷ []) ++ zs) - 1 - length ys ≡ length zs = omega arith in
    elim (Bool-cases (leb (length ys) (length ((ys ++ y ∷ []) ++ zs) - 1 - length ys))) [
      | inl e ↦ rw e (
          advance_lem s none none ys y zs (iter (fields ((ys ++ y ∷ []) ++ zs)))
            (subst (λ l. Linked s none l none) assoc h) (ap (λ (l : List ℕ). first l none) assoc)
            (omega arith))
      | inr e ↦
          rw (e, d)
            (advance_back_lem (length zs) s none none (ys ++ y ∷ []) zs
                (iter (fields ((ys ++ y ∷ []) ++ zs))) refl h refl (omega arith)
              ∙ last-append none ys (y ∷ []))
    ]
