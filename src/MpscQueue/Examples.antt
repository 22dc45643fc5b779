-- ===== src/MpscQueue/Examples.antt =====
-- Runs of producers and of a consumer.
use mathlib.Core.Option.{none, some}
use wasm_kernel.Base.{
  arith, ◌<◌, ◌≢◌, ◌⊎◌, ◌++◌, Distinct, ℕ, ◌≡◌, refl, true, false, update, List, [], ◌∷◌,
}
use wasm_kernel.MpscQueue.Queue.{
  Consumer, swap_head, link, begin_dequeue, load_next, load_head, reload_next, World, Dequeued,
  Step, Reach, new,
}
use wasm_kernel.MpscQueue.Chain.{Chain, last_of, items}
use wasm_kernel.MpscQueue.Fifo.{Reach-Fifo}
use wasm_kernel.MpscQueue.Consumers.{placed, Threads, Move, Run, drop_loop, drop_queue}
use wasm_kernel.MpscQueue.Alone.{one_consumer, drop_rest}

-- Node 1 is enqueued and linked to the stub, node 0; then the consumer takes the stub off, finds
-- no node after node 1, and is about to enqueue the stub.
abbrev one : World
one = record {
  queue = record {
    head = 1;
    tail = 0;
    next = update (update (λ i. none) 1 none) 0 (some 1);
    stub = 0;
  };
  consumer = Consumer.idle;
  linking = update (update (λ i. none) 1 (some 0)) 1 none;
  inside = update (λ i. false) 1 true;
  enqueued = 1 ∷ [];
  dequeued = [];
}

abbrev alone : World
alone = record one { queue = record one.queue { tail = 1 }; consumer = Consumer.stubbing 1 }

Reach-one : Reach 0 one
unfolding swap_head link
Reach-one =
    Reach.next (Reach.next Reach.here (Step.enqueue 1 (λ e. cc) refl refl))
      (Step.link_node 1 0 (λ e. cc) refl refl)

begun : World
begun = record one { queue = record one.queue { tail = 1 }; consumer = Consumer.at_node 1 }

looked : World
looked = record begun { consumer = Consumer.at_last 1 }

Reach-alone : Reach 0 alone
unfolding begin_dequeue load_next load_head begun looked
Reach-alone =
    Reach.next
      (Reach.next (Reach.next {w' = begun} Reach-one (Step.begin refl refl))
        (Step.load 1 refl refl))
      (Step.check 1 refl refl)

Reach-Fifo_example :
    (rest : List ℕ) × (1 ∷ [] ≡ items 0 (1 ∷ rest))
    × Distinct (1 ∷ rest)
    × Chain alone.queue.next alone.linking 1 rest
    × (last_of 1 rest ≡ 1)
Reach-Fifo_example = Reach-Fifo 0 alone Reach-alone

-- Node 2 is exchanged, and not linked, before the consumer enqueues the stub: the consumer then
-- finds no node after node 1 and says that the queue is empty, where node 1 has been in it from
-- before it began.
abbrev raced : World
raced = record alone {
  queue = (swap_head 2 alone.queue).0;
  linking = update alone.linking 2 (some 1);
  inside = update alone.inside 2 true;
  enqueued = 1 ∷ 2 ∷ [];
}

Reach-raced : Reach 0 raced
unfolding swap_head
Reach-raced = Reach.next Reach-alone (Step.enqueue 2 (λ e. cc) refl refl)

falsely_empty :
    let q = link 2 0 (swap_head 0 raced.queue).0 in reload_next 1 q ≡ (q, Dequeued.empty)
unfolding swap_head link reload_next
falsely_empty = refl

-- Thread 5 has the consumer's side, thread 6 fails to get it, and node 1 is enqueued and linked.
abbrev nobody : Threads
nobody = record { world = new 0; has_consumer = false; place = λ t. none }

abbrev entered : Threads
entered = record nobody { has_consumer = true; place = update nobody.place 5 (some Consumer.idle) }

abbrev filled : Threads
filled = record entered { world = one }

Run-filled : Run 0 filled
unfolding swap_head link
Run-filled =
    Run.onward
      (Run.onward
        (Run.onward (Run.onward Run.start (Move.lock_consumer 5 refl refl refl))
          (Move.busy 6 refl refl refl))
        (Move.produce _ (Step.enqueue 1 (λ e. cc) refl refl) refl refl))
      (Move.produce one (Step.link_node 1 0 (λ e. cc) refl refl) refl refl)

one_consumer_example :
    ((t u : ℕ) → filled.place t ≢ none → filled.place u ≢ none → t ≡ u)
    × ((c : Consumer) × Reach 0 (placed filled.world c)
        × ((t : ℕ) → (filled.place t ≡ none) ⊎ (filled.place t ≡ some c)))
    × (filled.has_consumer ≡ false → (t : ℕ) → filled.place t ≡ none)
one_consumer_example = one_consumer 0 filled Run-filled

drop_rest_example :
    (dropped : List ℕ) × (1 ∷ [] ≡ [] ++ dropped)
    × ((n : ℕ) × ((fuel : ℕ)
          → n < fuel
          → drop_queue fuel false filled.world.queue ≡ some (dropped ++ 0 ∷ [])))
drop_rest_example = drop_rest 0 filled false Run-filled linked
  where
    linked : (i : ℕ) → filled.world.linking i ≡ none
    linked i = ground arith

drops_both : drop_queue 3 false filled.world.queue ≡ some (1 ∷ 0 ∷ [])
unfolding drop_queue drop_loop
drops_both = refl
