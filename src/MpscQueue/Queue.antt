-- ===== src/MpscQueue/Queue.antt =====
-- The queue, and what its producers and its consumer do to it, an atomic operation at a time.
use mathlib.Core.Option.{Option, none, some}
use wasm_kernel.Base.{
  ℕ, ◌==◌, ◌≡◌, ◌≢◌, Bool, true, false, update, if◌then◌else◌, List, [], ◌∷◌, ◌++◌,
}

-- A node is its address; `none` is the null pointer.
pub record MpscQueue : Type 0 where
  pub head : ℕ
  pub tail : ℕ
  pub next : ℕ → Option ℕ
  pub stub : ℕ

-- The places of the consumer between two of its operations in `try_dequeue_unchecked`, with the node
-- that it has there as `tail_node`.
pub data Consumer : Type 0 where
  idle : Consumer
  at_node : ℕ → Consumer
  at_last : ℕ → Consumer
  stubbing : ℕ → Consumer
  stub_linking : ℕ → Consumer
  reloading : ℕ → Consumer

pub data Dequeued : Type 0 where
  pending : Consumer → Dequeued
  item : ℕ → Dequeued
  empty : Dequeued
  inconsistent : Dequeued

-- `enqueue_inner` up to its exchange: the queue, and the previous head. Until the exchange the node
-- is the caller's own, so it does not matter when its link is cleared.
unfoldable pub swap_head : ℕ → MpscQueue → MpscQueue × ℕ
swap_head i q = (record q { next = update q.next i none; head = i }, q.head)

-- The last store of `enqueue_inner`.
unfoldable pub link : ℕ → ℕ → MpscQueue → MpscQueue
link prev i q = record q { next = update q.next prev (some i) }

-- A node's link is loaded: with a next node, it is taken off.
abbrev pub taken : ℕ → Option ℕ → Dequeued → MpscQueue → MpscQueue × Dequeued
taken node none otherwise q = (q, otherwise)
taken node (some n) otherwise q = (record q { tail = n }, item node)

-- The first load: from the tail, which the stub may be.
abbrev pub skipped : Option ℕ → MpscQueue → MpscQueue × Dequeued
skipped none q = (q, empty)
skipped (some n) q = (record q { tail = n }, pending (at_node n))

unfoldable pub begin_dequeue : MpscQueue → MpscQueue × Dequeued
begin_dequeue q =
    if q.tail == q.stub
    then skipped (q.next q.stub) q
    else taken q.tail (q.next q.tail) (pending (at_last q.tail)) q

-- The second load, after the stub.
unfoldable pub load_next : ℕ → MpscQueue → MpscQueue × Dequeued
load_next node q = taken node (q.next node) (pending (at_last node)) q

unfoldable pub load_head : ℕ → MpscQueue → Dequeued
load_head node q = if node == q.head then pending (stubbing node) else inconsistent

-- The last load, after the stub is enqueued.
unfoldable pub reload_next : ℕ → MpscQueue → MpscQueue × Dequeued
reload_next node q = taken node (q.next node) empty q

-- All threads. `linking i` is the previous head of a node that has been exchanged and not linked
-- yet; `inside` says that the queue has the node's handle. `enqueued` and `dequeued` are what has
-- been enqueued, in the order of the exchanges, and what has been returned.
pub record World : Type 0 where
  pub queue : MpscQueue
  pub consumer : Consumer
  pub linking : ℕ → Option ℕ
  pub inside : ℕ → Bool
  pub enqueued : List ℕ
  pub dequeued : List ℕ

-- What the consumer's operation makes of the world.
abbrev pub after : World → MpscQueue × Dequeued → World
after w (q, pending c) = record w { queue = q; consumer = c }
after w (q, empty) = record w { queue = q; consumer = idle }
after w (q, inconsistent) = record w { queue = q; consumer = idle }
after w (q, item i) = record w {
  queue = q;
  consumer = idle;
  inside = update w.inside i false;
  dequeued = w.dequeued ++ i ∷ [];
}

-- An operation of some producer, or of the consumer.
pub data Step (w w' : World) : Type 0 where
  enqueue :
      (i : ℕ)
      → i ≢ w.queue.stub
      → w.inside i ≡ false
      → w' ≡ record w {
        queue = (swap_head i w.queue).0;
        linking = update w.linking i (some (swap_head i w.queue).1);
        inside = update w.inside i true;
        enqueued = w.enqueued ++ i ∷ [];
      }
      → Step w w'
  link_node :
      (i prev : ℕ)
      → i ≢ w.queue.stub
      → w.linking i ≡ some prev
      → w' ≡ record w { queue = link prev i w.queue; linking = update w.linking i none }
      → Step w w'
  begin : w.consumer ≡ idle → w' ≡ after w (begin_dequeue w.queue) → Step w w'
  load : (node : ℕ) → w.consumer ≡ at_node node → w' ≡ after w (load_next node w.queue) → Step w w'
  check :
      (node : ℕ)
      → w.consumer ≡ at_last node
      → w' ≡ after w (w.queue, load_head node w.queue)
      → Step w w'
  enqueue_stub :
      (node : ℕ)
      → w.consumer ≡ stubbing node
      → w' ≡ record w {
        queue = (swap_head w.queue.stub w.queue).0;
        consumer = stub_linking node;
        linking = update w.linking w.queue.stub (some (swap_head w.queue.stub w.queue).1);
      }
      → Step w w'
  link_stub :
      (node prev : ℕ)
      → w.consumer ≡ stub_linking node
      → w.linking w.queue.stub ≡ some prev
      → w' ≡ record w {
        queue = link prev w.queue.stub w.queue;
        consumer = reloading node;
        linking = update w.linking w.queue.stub none;
      }
      → Step w w'
  reload :
      (node : ℕ) → w.consumer ≡ reloading node → w' ≡ after w (reload_next node w.queue) → Step w w'

-- `new_with_stub`, and nobody has begun.
abbrev pub new : ℕ → World
new stub = record {
  queue = record { head = stub; tail = stub; next = λ i. none; stub = stub };
  consumer = idle;
  linking = λ i. none;
  inside = λ i. false;
  enqueued = [];
  dequeued = [];
}

pub data Reach (stub : ℕ) : World → Type 0 where
  here : Reach stub (new stub)
  next : {w w' : World} → Reach stub w → Step w w' → Reach stub w'
