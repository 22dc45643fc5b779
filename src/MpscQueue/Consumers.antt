-- ===== src/MpscQueue/Consumers.antt =====
-- Any number of threads that want to consume, and the flag that lets in one of them.
use mathlib.Core.Option.{Option, none, some}
use wasm_kernel.Base.{
  ℕ, zero, suc, ◌==◌, ◌≡◌, Bool, true, false, update, if◌then◌else◌, List, [], ◌∷◌, ◌++◌,
}
use wasm_kernel.MpscQueue.Queue.{MpscQueue, Consumer, idle, World, Step, enqueue, link_node, new}

-- The steps of `enqueue_inner`
abbrev pub is_producer : {w w' : World} → Step w w' → Bool
is_producer (enqueue i s e f) = true
is_producer (link_node i p s e f) = true
is_producer _ = false

-- Where a consumer is in the queue of `w`
abbrev pub placed : World → Consumer → World
placed w c = record w { consumer = c }

-- `place t` is where the thread `t` is in `try_dequeue_unchecked`, once it has the consumer's side;
-- the consumer of `world` means nothing.
pub record Threads : Type 0 where
  pub world : World
  pub has_consumer : Bool
  pub place : ℕ → Option Consumer

-- A failed exchange leaves all as it was.
pub data Move (s s' : Threads) : Type 0 where
  lock_consumer :
      (t : ℕ)
      → s.place t ≡ none
      → s.has_consumer ≡ false
      → s' ≡ record s { has_consumer = true; place = update s.place t (some idle) }
      → Move s s'
  busy : (t : ℕ) → s.place t ≡ none → s.has_consumer ≡ true → s' ≡ s → Move s s'
  produce :
      (w : World) (step : Step (placed s.world idle) w)
      → is_producer step ≡ true
      → s' ≡ record s { world = w }
      → Move s s'
  consume :
      (t : ℕ) (c : Consumer) (w : World) (step : Step (placed s.world c) w)
      → s.place t ≡ some c
      → is_producer step ≡ false
      → s' ≡ record s { world = w; place = update s.place t (some w.consumer) }
      → Move s s'
  unlock_consumer :
      (t : ℕ)
      → s.place t ≡ some idle
      → s' ≡ record s { has_consumer = false; place = update s.place t none }
      → Move s s'

pub data Run (stub : ℕ) : Threads → Type 0 where
  start : Run stub (record { world = new stub; has_consumer = false; place = λ t. none })
  onward : {s s' : Threads} → Run stub s → Move s s' → Run stub s'

-- The loop of the drop of a queue, and the nodes whose handles it drops; `none` says that the fuel ran
-- out.
unfoldable pub drop_loop : ℕ → Option ℕ → MpscQueue → Option (List ℕ)
drop_loop zero current q = none
drop_loop (suc fuel) none q = some []
drop_loop (suc fuel) (some node) q =
    let rest = drop_loop fuel (q.next node) q in
    elim rest [ none ↦ none | some l ↦ some (if node == q.stub then l else node ∷ l) ]

-- `MpscQueue`'s drop: the stub is last, if it is not static.
unfoldable pub drop_queue : ℕ → Bool → MpscQueue → Option (List ℕ)
unfolding drop_loop
drop_queue fuel stub_is_static q = elim (drop_loop fuel (some q.tail) q) [
  | none ↦ none
  | some l ↦ some (if stub_is_static then l else l ++ q.stub ∷ [])
]
