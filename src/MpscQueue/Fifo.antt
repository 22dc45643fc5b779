-- ===== src/MpscQueue/Fifo.antt =====
-- What is dequeued has been enqueued, in that order.
use mathlib.Core.Path.{subst}
use mathlib.Core.List.{append-nil}
use mathlib.Core.Option.{Option, none, some}
use wasm_kernel.Base.{
  NotIn, Distinct, ℕ, ◌==◌, ◌≡◌, ◌≢◌, inl, inr, refl, sym, ◌∙◌, true, false, Bool-cases, ==_iff,
  update, List, [], ◌∷◌, ◌++◌, arith,
}
use wasm_kernel.MpscQueue.Queue.{
  Consumer, at_node, at_last, stubbing, stub_linking, reloading, pending, empty, swap_head, link,
  begin_dequeue, load_next, load_head, reload_next, World, after, Step, enqueue, link_node, begin,
  load, check, enqueue_stub, link_stub, reload, new, Reach, here, next,
}
use wasm_kernel.MpscQueue.Chain.{Chain, last_of, items, last_alone}
use wasm_kernel.MpscQueue.Order.{Order, swap_head-Order, link-Order}
use wasm_kernel.MpscQueue.Places.{At, Inv, At-link, At-swap_head, taken-Inv, skipped-Inv, to_idle}

-- Where the consumer is at the same node, in another place.
moved_to :
    (w : World) (c : Consumer) (v : Inv w) → At c w.queue v.rest → Inv (record w { consumer = c })
moved_to w c v a = record { rest = v.rest; order = v.order; place = a }

at_place : (w : World) (c : Consumer) (v : Inv w) → w.consumer ≡ c → At c w.queue v.rest
at_place w c v e = subst (λ z. At z w.queue v.rest) e v.place

checked :
    (w : World) (node : ℕ)
    → (v : Inv w) → node ≡ w.queue.tail
    → node ≢ w.queue.stub
    → Inv (after w (w.queue, load_head node w.queue))
unfolding load_head
checked w node v t s = elim (Bool-cases (node == w.queue.head)) [
  | inl e ↦
      let last = v.order.last ∙ (sym ((==_iff node w.queue.head).0 e) ∙ t) in
      let alone = last_alone w.queue.tail v.rest v.order.distinct last in
      rw e (
        moved_to w (stubbing node) v
          (t, s, ((λ f. s (t ∙ sym f)), subst (λ l. NotIn w.queue.stub l) (sym alone) tt)))
  | inr e ↦ rw e (to_idle w v)
]

enqueue-Inv :
    (w : World) (i : ℕ)
    → Inv w
    → i ≢ w.queue.stub
    → w.inside i ≡ false
    → Inv (record w {
      queue = (swap_head i w.queue).0;
      linking = update w.linking i (some (swap_head i w.queue).1);
      inside = update w.inside i true;
      enqueued = w.enqueued ++ i ∷ [];
    })
unfolding swap_head
enqueue-Inv w i v s e =
    let n = v.order.outside i s e in
    record {
      rest = v.rest ++ i ∷ [];
      order =
          subst
            (λ l.
              Order (swap_head i w.queue).0 (update w.linking i (some w.queue.head))
                (update w.inside i true) (w.enqueued ++ l) w.dequeued (v.rest ++ i ∷ []))
            one_item
            (swap_head-Order w.queue w.linking w.inside w.enqueued w.dequeued v.rest v.order i
              (update w.inside i true) n out);
      place = At-swap_head w.consumer w.queue v.rest i s v.place;
    }
  where
    one_item : items w.queue.stub (i ∷ []) ≡ i ∷ []
    one_item = ground arith

    out :
        (j : ℕ)
        → j ≢ w.queue.stub
        → update w.inside i true j ≡ false
        → NotIn j (w.queue.tail ∷ v.rest) × (j ≢ i)
    out j k f = elim (Bool-cases (i == j)) [
      | inl h ↦ let g : true ≡ false = rw h at f in cc
      | inr h ↦ (v.order.outside j k (rw h at f), (λ g. let m = (==_iff i j).1 (sym g) in cc))
    ]

stub-Inv :
    (w : World) (node : ℕ)
    → (v : Inv w) → At (stubbing node) w.queue v.rest
    → Inv (record w {
      queue = (swap_head w.queue.stub w.queue).0;
      consumer = stub_linking node;
      linking = update w.linking w.queue.stub (some (swap_head w.queue.stub w.queue).1);
    })
unfolding swap_head
stub-Inv w node v (t, s, n) = record {
  rest = v.rest ++ w.queue.stub ∷ [];
  order =
      subst
        (λ l.
          Order (swap_head w.queue.stub w.queue).0
            (update w.linking w.queue.stub (some w.queue.head)) w.inside l w.dequeued
            (v.rest ++ w.queue.stub ∷ []))
        no_item
        (swap_head-Order w.queue w.linking w.inside w.enqueued w.dequeued v.rest v.order
          w.queue.stub w.inside n (λ j k f. (v.order.outside j k f, k)));
  place = (t, s);
}
  where
    no_item : w.enqueued ++ items w.queue.stub (w.queue.stub ∷ []) ≡ w.enqueued
    no_item =
        let e : items w.queue.stub (w.queue.stub ∷ []) ≡ [] = ground arith in
        rw e (append-nil w.enqueued)

link-Inv :
    (w : World) (i p : ℕ) (c : Consumer)
    → (v : Inv w) → w.linking i ≡ some p
    → At c w.queue v.rest
    → Inv (record w { queue = link p i w.queue; consumer = c; linking = update w.linking i none })
link-Inv w i p c v e a = record {
  rest = v.rest;
  order = link-Order w.queue w.linking w.inside w.enqueued w.dequeued v.rest v.order i p e;
  place = At-link c w.queue v.rest p i a;
}

begin-Inv : (w : World) → Inv w → Inv (after w (begin_dequeue w.queue))
unfolding begin_dequeue
begin-Inv w v = elim (Bool-cases (w.queue.tail == w.queue.stub)) [
  | inl e ↦ rw e (skipped-Inv w (w.queue.next w.queue.stub) v ((==_iff _ _).0 e) refl)
  | inr e ↦
      let s : w.queue.tail ≢ w.queue.stub =
        λ f. let g = (==_iff w.queue.tail w.queue.stub).1 f in cc in
      rw e (
        taken-Inv w w.queue.tail (w.queue.next w.queue.tail) (pending (at_last w.queue.tail)) v refl
          s refl (λ v. moved_to w (at_last w.queue.tail) v (refl, s)))
]

Step-Inv : (w w' : World) → Step w w' → Inv w → Inv w'
unfolding load_next reload_next
Step-Inv w w' (enqueue i s e f) v = subst Inv (sym f) (enqueue-Inv w i v s e)
Step-Inv w w' (link_node i p s e f) v = subst Inv (sym f) (link-Inv w i p w.consumer v e v.place)
Step-Inv w w' (begin c f) v = subst Inv (sym f) (begin-Inv w v)
Step-Inv w w' (load node c f) v =
    let (t, s) = at_place w (at_node node) v c in
    subst Inv (sym f) (
      taken-Inv w node (w.queue.next node) (pending (at_last node)) v t s refl
        (λ v. moved_to w (at_last node) v (t, s)))
Step-Inv w w' (check node c f) v =
    let (t, s) = at_place w (at_last node) v c in subst Inv (sym f) (checked w node v t s)
Step-Inv w w' (enqueue_stub node c f) v =
    subst Inv (sym f) (stub-Inv w node v (at_place w (stubbing node) v c))
Step-Inv w w' (link_stub node p c e f) v =
    subst Inv (sym f)
      (link-Inv w w.queue.stub p (reloading node) v e (at_place w (stub_linking node) v c))
Step-Inv w w' (reload node c f) v =
    let (t, s) = at_place w (reloading node) v c in
    subst Inv (sym f) (taken-Inv w node (w.queue.next node) empty v t s refl (λ v. to_idle w v))

new-Inv : (stub : ℕ) → Inv (new stub)
new-Inv stub = record {
  rest = [];
  order = record {
    chain = refl;
    distinct = (tt, tt);
    last = refl;
    owned = λ i p e. let f : ◌≡◌ {A = Option ℕ} none (some p) = e in cc;
    outside = λ i s e. (s, tt);
    fifo = let e : items stub (stub ∷ []) ≡ [] = ground arith in rw e refl;
  };
  place = tt;
}

Reach-Inv_all : (stub : ℕ) (w : World) → Reach stub w → Inv w
Reach-Inv_all stub w here = new-Inv stub
Reach-Inv_all stub w (next r s) = Step-Inv _ w s (Reach-Inv_all stub _ r)

-- The queue is first in, first out, whatever producers do while the consumer dequeues, an atomic
-- operation at a time: in every state that threads reach, what has been returned is just what was
-- enqueued first, in the order of the exchanges of the head; and the rest is in the queue, once
-- each and in that order. The nodes lead from the tail to the head, each of them linked to the next
-- one or with a producer, or the consumer for the stub, that has yet to link it. (A node is not
-- enqueued while the queue has it, and the stub is the queue's own. The list in lib.rs calls the
-- queue LIFO, which it is not.)
pub Reach-Fifo :
    (stub : ℕ) (w : World)
    → Reach stub w
    → (rest : List ℕ) × (w.enqueued ≡ w.dequeued ++ items w.queue.stub (w.queue.tail ∷ rest))
      × Distinct (w.queue.tail ∷ rest)
      × Chain w.queue.next w.linking w.queue.tail rest
      × (last_of w.queue.tail rest ≡ w.queue.head)
Reach-Fifo stub w r =
    let v = Reach-Inv_all stub w r in
    (v.rest, sym v.order.fifo, v.order.distinct, v.order.chain, v.order.last)
