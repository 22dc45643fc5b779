-- ===== src/Semaphore/Serve.antt =====
-- The pass over the queue that the batches amount to: what it keeps, and whom it serves.
use wasm_kernel.Base.{
  NotIn, Distinct, All, update, ℕ, zero, suc, ◌+◌, ◌-◌, ◌≤◌, ◌<◌, ◌≡◌, refl, sym, ap, ◌∙◌, min,
  true, false, Bool-cases, ◌==◌, inl, inr, List, [], ◌∷◌, ◌++◌, length, arith,
}
use mathlib.Core.Path.{subst}
use mathlib.Core.Option.{Option, none}
use wasm_kernel.Semaphore.Queue.{room_left, add_waker, Filled, fill}
use wasm_kernel.Semaphore.Fill.{Waits, deficit, fill-NotIn, fill-balance, fill-Waits}
use wasm_kernel.Semaphore.Pass.{serve, left, rest, fill_pop, fill_short, serve_pop, serve_short}

-- A section with more room than there are waiters is the whole pass.
fill-serve :
    (room : ℕ) (queue : List ℕ) (remaining : ℕ → ℕ) (waker : ℕ → Option ℕ) (permits : ℕ)
    → length queue < room
    → fill room queue remaining waker permits ≡ serve queue remaining waker permits
unfolding fill serve
fill-serve zero queue remaining waker permits h = absurd (omega arith)
fill-serve (suc room) [] remaining waker permits h = ground arith
fill-serve (suc room) (i ∷ queue) remaining waker permits h =
    elim (Bool-cases (left (suc room) i queue remaining waker permits == 0)) [
      | inl f ↦
          fill_pop (suc room) i queue remaining waker permits (ground arith) f
          ∙ ap {A = Filled} {B = Filled} (λ r. record r { batch = add_waker (waker i) r.batch })
              (fill-serve (room_left (waker i) (suc room)) queue
                (update remaining i (left (suc room) i queue remaining waker permits))
                (update waker i none) (rest (suc room) i queue remaining waker permits)
                (ground arith))
          ∙ sym (serve_pop (suc room) i queue remaining waker permits f)
      | inr f ↦
          fill_short (suc room) i queue remaining waker permits (ground arith) f
          ∙ sym (serve_short (suc room) i queue remaining waker permits f)
    ]

module _ (queue : List ℕ) (remaining : ℕ → ℕ) (waker : ℕ → Option ℕ) (permits : ℕ)
    (d : Distinct queue) where
  abbrev pub served : Filled
  served = serve queue remaining waker permits

  same : fill (suc (length queue)) queue remaining waker permits ≡ served
  same = fill-serve (suc (length queue)) queue remaining waker permits (omega arith)

  pub serve-balance :
      served.permits + deficit remaining queue ≡ permits + deficit served.remaining served.queue
  serve-balance =
      subst
        (λ (b : Filled).
          b.permits + deficit remaining queue ≡ permits + deficit b.remaining b.queue)
        same (fill-balance (suc (length queue)) queue remaining waker permits d)

  pub serve-Waits :
      Waits remaining queue → Distinct served.queue × Waits served.remaining served.queue
  serve-Waits w =
      subst (λ (b : Filled). Distinct b.queue × Waits b.remaining b.queue) same
        (fill-Waits (suc (length queue)) queue remaining waker permits d w)

-- A pass ends with the queue empty or with no permits.
pub serve_end :
    (queue : List ℕ) (remaining : ℕ → ℕ) (waker : ℕ → Option ℕ) (permits : ℕ)
    → let r = serve queue remaining waker permits in
      (r.permits ≤ permits) × (0 < r.permits → r.queue ≡ []) × (queue ≡ [] → r.queue ≡ [])
unfolding serve
serve_end [] remaining waker permits = ground arith
serve_end (i ∷ queue) remaining waker permits =
    let n = remaining i - min (remaining i) permits in
    let m = permits - min (remaining i) permits in
    ground (arith, serve_end queue (update remaining i n) (update waker i none) m)

serve-remaining_ne :
    (queue : List ℕ) (remaining : ℕ → ℕ) (waker : ℕ → Option ℕ) (permits j : ℕ)
    → NotIn j queue
    → (serve queue remaining waker permits).remaining j ≡ remaining j
unfolding serve
serve-remaining_ne [] remaining waker permits j h = refl
serve-remaining_ne (i ∷ queue) remaining waker permits j h =
    let n = remaining i - min (remaining i) permits in
    let m = permits - min (remaining i) permits in
    ground (arith, serve-remaining_ne queue (update remaining i n) (update waker i none) m j)

-- The waiters that stand behind the first.
abbrev pub behind : List ℕ → List ℕ
behind [] = []
behind (i ∷ queue) = queue

-- First in, first out, from a queue to the queue that is left of it: the waiters that get all they
-- need stand before all others, and of the rest only the first gets anything.
pub record InOrder (queue : List ℕ) (remaining : ℕ → ℕ) (queue' : List ℕ) (remaining' : ℕ → ℕ)
    : Type 0 where
  pub satisfied : List ℕ
  pub split : queue ≡ satisfied ++ queue'
  pub complete : All (λ j. remaining' j ≡ 0) satisfied
  pub untouched : All (λ j. remaining' j ≡ remaining j) (behind queue')

abbrev pub Passes : List ℕ → (ℕ → ℕ) → Filled → Type 0
Passes queue remaining r = InOrder queue remaining r.queue r.remaining

update-All :
    (f remaining : ℕ → ℕ) (i n : ℕ) (queue : List ℕ)
    → NotIn i queue
    → All (λ j. f j ≡ update remaining i n j) queue
    → All (λ j. f j ≡ remaining j) queue
update-All f remaining i n [] h a = tt
update-All f remaining i n (j ∷ queue) h a = ground (arith, update-All f remaining i n queue)

pub All-refl : (remaining : ℕ → ℕ) (queue : List ℕ) → All (λ j. remaining j ≡ remaining j) queue
All-refl remaining [] = tt
All-refl remaining (j ∷ queue) = (refl, All-refl remaining queue)

NotIn-behind : (i : ℕ) (queue : List ℕ) → NotIn i queue → NotIn i (behind queue)
NotIn-behind i [] h = tt
NotIn-behind i (j ∷ queue) h = h.1

pub serve-NotIn :
    (queue : List ℕ) (remaining : ℕ → ℕ) (waker : ℕ → Option ℕ) (permits i : ℕ)
    → NotIn i queue
    → NotIn i (serve queue remaining waker permits).queue
serve-NotIn queue remaining waker permits i h =
    subst (λ (b : Filled). NotIn i b.queue)
      (fill-serve (suc (length queue)) queue remaining waker permits (omega arith))
      (fill-NotIn (suc (length queue)) queue remaining waker permits i h)

module _ (i : ℕ) (queue : List ℕ) (remaining : ℕ → ℕ) (waker : ℕ → Option ℕ) (permits : ℕ)
    (d : Distinct (i ∷ queue)) where
  abbrev n : ℕ
  n = left 0 i queue remaining waker permits

  abbrev onward : Filled
  onward =
      serve queue (update remaining i n) (update waker i none)
        (rest 0 i queue remaining waker permits)

  pop-InOrder :
      (n == 0) ≡ true
      → Passes queue (update remaining i n) onward
      → Passes (i ∷ queue) remaining (serve (i ∷ queue) remaining waker permits)
  pop-InOrder f o = rw (serve_pop 0 i queue remaining waker permits f) (record {
    satisfied = i ∷ o.satisfied;
    split = ap (λ (q : List ℕ). i ∷ q) o.split;
    complete = (
      serve-remaining_ne queue (update remaining i n) (update waker i none)
            (rest 0 i queue remaining waker permits) i d.0
          ∙ ground arith,
      o.complete,
    );
    untouched =
        update-All onward.remaining remaining i n (behind onward.queue)
          (NotIn-behind i onward.queue (
            serve-NotIn queue (update remaining i n) (update waker i none)
              (rest 0 i queue remaining waker permits) i d.0))
          o.untouched;
  })

  short-InOrder :
      (n == 0) ≡ false → Passes (i ∷ queue) remaining (serve (i ∷ queue) remaining waker permits)
  short-InOrder f = rw (serve_short 0 i queue remaining waker permits f) (record {
    satisfied = [];
    split = refl;
    complete = tt;
    untouched =
        update-All (update remaining i n) remaining i n queue d.0
          (All-refl (update remaining i n) queue);
  })

pub serve-InOrder :
    (queue : List ℕ) (remaining : ℕ → ℕ) (waker : ℕ → Option ℕ) (permits : ℕ)
    → Distinct queue
    → Passes queue remaining (serve queue remaining waker permits)
unfolding serve
serve-InOrder [] remaining waker permits d = record {
  satisfied = [];
  split = refl;
  complete = tt;
  untouched = tt;
}
serve-InOrder (i ∷ queue) remaining waker permits d =
    elim (Bool-cases (n i queue remaining waker permits d == 0)) [
      | inl f ↦ pop-InOrder i queue remaining waker permits d f (serve-InOrder queue _ _ _ d.1)
      | inr f ↦ short-InOrder i queue remaining waker permits d f
    ]
