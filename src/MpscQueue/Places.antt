-- ===== src/MpscQueue/Places.antt =====
-- Where the consumer is, and what its operations keep.
use mathlib.Core.Path.{subst}
use mathlib.Core.List.{append_assoc}
use mathlib.Core.Option.{Option, none, some}
use wasm_kernel.Base.{
  NotIn, snoc-NotIn, ℕ, ◌==◌, ◌≡◌, ◌≢◌, ◌⊎◌, inl, inr, refl, sym, ap, ◌∙◌, false, Bool-cases,
  ==_iff, update, List, [], ◌∷◌, ◌++◌, arith,
}
use wasm_kernel.MpscQueue.Queue.{
  MpscQueue, Consumer, idle, at_node, at_last, stubbing, stub_linking, reloading, Dequeued,
  swap_head, link, taken, skipped, World, after,
}
use wasm_kernel.MpscQueue.Chain.{items}
use wasm_kernel.MpscQueue.Order.{Order, advance-Order}

-- Where the consumer is: its node is the tail and no stub; before it enqueues the stub, this is not
-- queued.
abbrev pub At : Consumer → MpscQueue → List ℕ → Type 0
At idle q rest = Unit
At (at_node n) q rest = (n ≡ q.tail) × (n ≢ q.stub)
At (at_last n) q rest = (n ≡ q.tail) × (n ≢ q.stub)
At (stubbing n) q rest = (n ≡ q.tail) × (n ≢ q.stub) × NotIn q.stub (q.tail ∷ rest)
At (stub_linking n) q rest = (n ≡ q.tail) × (n ≢ q.stub)
At (reloading n) q rest = (n ≡ q.tail) × (n ≢ q.stub)

pub record Inv (w : World) : Type 0 where
  pub rest : List ℕ
  pub order : Order w.queue w.linking w.inside w.enqueued w.dequeued rest
  pub place : At w.consumer w.queue rest

pub At-link :
    (c : Consumer) (q : MpscQueue) (rest : List ℕ) (p i : ℕ) → At c q rest → At c (link p i q) rest
unfolding link
At-link idle q rest p i a = tt
At-link (at_node n) q rest p i a = a
At-link (at_last n) q rest p i a = a
At-link (stubbing n) q rest p i a = a
At-link (stub_linking n) q rest p i a = a
At-link (reloading n) q rest p i a = a

pub At-swap_head :
    (c : Consumer) (q : MpscQueue) (rest : List ℕ) (i : ℕ)
    → i ≢ q.stub
    → At c q rest
    → At c (swap_head i q).0 (rest ++ i ∷ [])
unfolding swap_head
At-swap_head idle q rest i s a = tt
At-swap_head (at_node n) q rest i s a = a
At-swap_head (at_last n) q rest i s a = a
At-swap_head (stubbing n) q rest i s (a, b, c) =
    (a, b, snoc-NotIn q.stub (q.tail ∷ rest) i c (λ e. s (sym e)))
At-swap_head (stub_linking n) q rest i s a = a
At-swap_head (reloading n) q rest i s a = a

items-other : (stub i : ℕ) (l : List ℕ) → i ≢ stub → items stub (i ∷ l) ≡ i ∷ items stub l
items-other stub i l s = ground arith

items_stub : (stub : ℕ) (l : List ℕ) → items stub (stub ∷ l) ≡ items stub l
items_stub stub l = ground arith

-- A node is taken off, if it links to another one.
pub taken-Inv :
    (w : World) (node : ℕ) (next : Option ℕ) (otherwise : Dequeued)
    → Inv w
    → node ≡ w.queue.tail
    → node ≢ w.queue.stub
    → w.queue.next node ≡ next
    → ((v : Inv w) → Inv (after w (w.queue, otherwise)))
    → Inv (after w (taken node next otherwise w.queue))
taken-Inv w node none otherwise v t s e other = other v
taken-Inv w node (some n) otherwise v t s e other =
    let (rest, f, o) =
      advance-Order w.queue w.linking w.inside w.enqueued w.dequeued v.rest v.order n
        (update w.inside node false) (w.dequeued ++ node ∷ []) (ap w.queue.next (sym t) ∙ e) out
        same in
    record { rest = rest; order = o; place = tt }
  where
    out :
        (j : ℕ)
        → j ≢ w.queue.stub
        → update w.inside node false j ≡ false
        → (w.inside j ≡ false) ⊎ (j ≡ w.queue.tail)
    out j k f = elim (Bool-cases (node == j)) [
      | inl h ↦ inr (sym ((==_iff node j).0 h) ∙ t)
      | inr h ↦ inl (rw h at f)
    ]

    same :
        (l : List ℕ)
        → w.dequeued ++ items w.queue.stub (w.queue.tail ∷ l)
          ≡ w.dequeued ++ node ∷ [] ++ items w.queue.stub l
    same l =
        ap (λ (z : ℕ). w.dequeued ++ items w.queue.stub (z ∷ l)) (sym t)
        ∙ (ap (λ (m : List ℕ). w.dequeued ++ m) (items-other w.queue.stub node l s)
            ∙ sym (append_assoc w.dequeued (node ∷ []) (items w.queue.stub l)))

-- The stub is skipped.
pub skipped-Inv :
    (w : World) (next : Option ℕ)
    → Inv w
    → w.queue.tail ≡ w.queue.stub
    → w.queue.next w.queue.stub ≡ next
    → Inv (after w (skipped next w.queue))
skipped-Inv w none v t e = record { rest = v.rest; order = v.order; place = tt }
skipped-Inv w (some n) v t e =
    let (rest, f, o) =
      advance-Order w.queue w.linking w.inside w.enqueued w.dequeued v.rest v.order n w.inside
        w.dequeued (ap w.queue.next t ∙ e) (λ j s f. inl f)
        (λ l.
          ap (λ (z : ℕ). w.dequeued ++ items w.queue.stub (z ∷ l)) t
          ∙ ap (λ (m : List ℕ). w.dequeued ++ m) (items_stub w.queue.stub l)) in
    record { rest = rest; order = o; place = (refl, not_stub rest f) }
  where
    not_stub : (rest : List ℕ) → v.rest ≡ n ∷ rest → n ≢ w.queue.stub
    not_stub rest f g =
        let d = subst (λ l. NotIn w.queue.tail l) f v.order.distinct.0 in d.0 (t ∙ sym g)

pub to_idle : (w : World) → Inv w → Inv (record w { consumer = idle })
to_idle w v = record { rest = v.rest; order = v.order; place = tt }
