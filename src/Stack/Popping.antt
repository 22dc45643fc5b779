-- ===== src/Stack/Popping.antt =====
-- A pop takes the last node pushed.
use mathlib.Core.Path.{subst}
use mathlib.Core.Option.{Option, none, some}
use wasm_kernel.Base.{
  ℕ, ◌==◌, ◌≡◌, ◌≢◌, refl, sym, ap, ◌∙◌, inl, inr, true, Bool-cases, ==_iff, update, List, [], ◌∷◌,
  All,
}
use wasm_kernel.Stack.Node.{Link, same_link, TransferStack, exchange, pop}
use wasm_kernel.Stack.Threads.{
  outside, pushing, shared, local, World, first_of, popped, Step, load, fail, exchanged, take,
  pop_local, push_local, new, Reach, here, next,
}
use wasm_kernel.Stack.Linked.{Linked, Linked-update, Held, All-update}
use wasm_kernel.Stack.Contents.{
  Inv, main_links, main-Held, local_links, local-Held, loaded-Inv, pushed-Inv, taken-Inv,
  push_local-Inv,
}

local_same : (j k : ℕ) → local j ≡ local k → j ≡ k
local_same j k e = cc

-- A pop from a stack of which the list is known.
pop-eq :
    (links : ℕ → Link) (head : Link) (x : ℕ) (l : List ℕ)
    → Linked links head (x ∷ l)
    → pop links head ≡ (update links x none, links x, some x)
unfolding pop
pop-eq links head x l (e, c) = rw e refl

pop_nothing : (links : ℕ → Link) (head : Link) → head ≡ none → pop links head ≡ (links, none, none)
unfolding pop
pop_nothing links head e = rw e refl

-- The list `x ∷ l` of stack `j` loses its first node.
module _ (w : World) (v : Inv w) (j x : ℕ) (l : List ℕ) (t : w.taken j ≡ x ∷ l) where
  held : Held w.place (local j) (x ∷ l)
  held = subst (λ m. Held w.place (local j) m) t (v.locals_held j)

  linked : Linked w.stack.next (w.stacks j) (x ∷ l)
  linked = subst (λ m. Linked w.stack.next (w.stacks j) m) t (v.locals j)

  abbrev fewer : World
  fewer = popped w j (update w.stack.next x none, w.stack.next x, some x)

  fewer-Inv : Inv fewer
  fewer-Inv =
      let p = held.0.0 in
      let m : w.place x ≢ shared = λ f. cc in
      let o : (k : ℕ) → j ≢ k → w.place x ≢ local k = λ k d f. d (local_same j k (sym p ∙ f)) in
      record {
        main = main_links w v x none m;
        main_held = main-Held w v x outside m;
        locals = λ k. elim (Bool-cases (j == k)) [
          | inl e ↦
              let f = ap w.taken (sym ((==_iff j k).0 e)) ∙ t in
              rw (e, f) (Linked-update w.stack.next (w.stack.next x) x none l held.1.0 linked.1)
          | inr e ↦ rw e (local_links w v x k none (o k (λ f. let g = (==_iff j k).1 f in cc)))
        ];
        locals_held = λ k. elim (Bool-cases (j == k)) [
          | inl e ↦
              let f = ap w.taken (sym ((==_iff j k).0 e)) ∙ t in
              let g = ap local ((==_iff j k).0 e) in
              rw (e, f)
                (
                  subst (λ z. All (λ y. update w.place x outside y ≡ z) l) g
                      (All-update w.place (local j) x outside l held.1.0 held.0.1),
                  held.1.1,
                )
          | inr e ↦ rw e (local-Held w v x k outside (o k (λ f. let g = (==_iff j k).1 f in cc)))
        ];
        fresh = λ k e. elim (Bool-cases (x == k)) [
          | inl f ↦ rw f refl
          | inr f ↦ rw f (v.fresh k (rw f at e))
        ];
        reading = λ k e. elim (Bool-cases (x == k)) [
          | inl f ↦ let g : outside ≡ pushing = rw f at e in cc
          | inr f ↦ rw f (v.reading k (rw f at e))
        ];
      }

pop_local-Inv :
    (w : World) (v : Inv w) (j : ℕ) (l : List ℕ)
    → w.taken j ≡ l
    → Inv (popped w j (pop w.stack.next (w.stacks j)))
      × ((pop w.stack.next (w.stacks j)).2 ≡ first_of l)
pop_local-Inv w v j [] t =
    let e = subst (λ m. Linked w.stack.next (w.stacks j) m) t (v.locals j) in
    rw (pop_nothing w.stack.next (w.stacks j) e) (v, refl)
pop_local-Inv w v j (x ∷ l) t =
    rw (pop-eq w.stack.next (w.stacks j) x l (linked w v j x l t)) (fewer-Inv w v j x l t, refl)

same_link-eq : (a b : Link) → same_link a b ≡ true → a ≡ b
same_link-eq none none e = refl
same_link-eq none (some b) e = cc
same_link-eq (some a) none e = cc
same_link-eq (some a) (some b) e = ap (λ (x : ℕ). some x) ((==_iff a b).0 e)

exchange-Inv :
    (w : World) (v : Inv w) (i : ℕ) (s : TransferStack)
    → w.place i ≡ pushing
    → exchange i (w.expected i) w.stack ≡ some s
    → Inv (record w { stack = s; contents = i ∷ w.contents; place = update w.place i shared })
unfolding exchange
exchange-Inv w v i s p e = elim (Bool-cases (same_link w.stack.head (w.expected i))) [
  | inl f ↦
      let g : ◌≡◌ {A = Option TransferStack} (some (record w.stack { head = some i })) (some s) =
        rw f at e in
      let h : record w.stack { head = some i } ≡ s = cc in
      subst
        (λ z.
          Inv (record w { stack = z; contents = i ∷ w.contents; place = update w.place i shared }))
        h (pushed-Inv w v i p (same_link-eq w.stack.head (w.expected i) f))
  | inr f ↦ let g : ◌≡◌ {A = Option TransferStack} none (some s) = rw f at e in cc
]

Step-Inv : (w w' : World) → Step w w' → Inv w → Inv w'
Step-Inv w w' (load i p f) v = subst Inv (sym f) (loaded-Inv w v i (λ g. cc) (λ j g. cc))
Step-Inv w w' (fail i p f) v = subst Inv (sym f) (loaded-Inv w v i (λ g. cc) (λ j g. cc))
Step-Inv w w' (exchanged i s p e f) v = subst Inv (sym f) (exchange-Inv w v i s p e)
Step-Inv w w' (take j e f) v = subst Inv (sym f) (taken-Inv w v j)
Step-Inv w w' (pop_local j f) v = subst Inv (sym f) (pop_local-Inv w v j (w.taken j) refl).0
Step-Inv w w' (push_local i j p f) v = subst Inv (sym f) (push_local-Inv w v i j p)

new-Inv : Inv new
new-Inv = record {
  main = refl;
  main_held = (tt, tt);
  locals = λ j. refl;
  locals_held = λ j. (tt, tt);
  fresh = λ i e. refl;
  reading = λ i e. refl;
}

Reach-Inv_all : (w : World) → Reach w → Inv w
Reach-Inv_all w here = new-Inv
Reach-Inv_all w (next r s) = Step-Inv _ w s (Reach-Inv_all _ r)

-- The stacks work as lists, whatever threads do at once, an atomic operation at a time. In every
-- state that they reach, the links from the shared head are the list of what was pushed since it was
-- last taken, the last one first, and the links of a stack that was taken are the list that it then
-- was, with what its owner has pushed and popped since; a pop returns the first node of its list.
-- Each node is in one list at most, and there once. The link of a node that a caller has is null, so
-- no debug assertion of `push` fails. (A node is pushed by the caller that has it. The code is last
-- in, first out, where stack.rs and lib.rs say FIFO.)
pub Reach-Linked :
    (w : World)
    → Reach w
    → Linked w.stack.next w.stack.head w.contents
      × Held w.place shared w.contents
      × ((j : ℕ)
          → Linked w.stack.next (w.stacks j) (w.taken j)
            × Held w.place (local j) (w.taken j)
            × ((pop w.stack.next (w.stacks j)).2 ≡ first_of (w.taken j)))
      × ((i : ℕ) → w.place i ≡ outside → w.stack.next i ≡ none)
Reach-Linked w r =
    let v = Reach-Inv_all w r in
    (
      v.main,
      v.main_held,
      λ j. (v.locals j, v.locals_held j, (pop_local-Inv w v j (w.taken j) refl).1),
      v.fresh,
    )
