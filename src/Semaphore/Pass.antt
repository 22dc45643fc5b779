-- ===== src/Semaphore/Pass.antt =====
-- One pass over the queue, and a section of it that is followed by the rest.
use wasm_kernel.Base.{
  update, ℕ, ◌-◌, ◌≡◌, refl, min, true, false, ◌==◌, if◌then◌else◌, List, [], ◌∷◌, ◌++◌, arith,
}
use mathlib.Core.Path.{fun_ext}
use mathlib.Core.Option.{Option, none}
use wasm_kernel.Semaphore.Queue.{add_remaining, room_left, add_waker, Filled, fill}
use wasm_kernel.Semaphore.Fill.{Waits}

-- The permits go to the oldest waiter until it has enough, then to the next; every waiter that has
-- enough leaves the queue.
unfoldable pub serve : List ℕ → (ℕ → ℕ) → (ℕ → Option ℕ) → ℕ → Filled
serve [] remaining waker permits = record {
  queue = [];
  remaining = remaining;
  waker = waker;
  permits = permits;
  drained = true;
  batch = [];
}
serve (i ∷ queue) remaining waker permits =
    let (left, permits') = add_remaining (remaining i) permits in
    let rest = serve queue (update remaining i left) (update waker i none) permits' in
    if left == 0 then record rest { batch = add_waker (waker i) rest.batch } else record {
      queue = i ∷ queue;
      remaining = update remaining i left;
      waker = waker;
      permits = permits';
      drained = false;
      batch = [];
    }

abbrev pub after : Filled → Filled → Filled
after b r = record r { batch = b.batch ++ r.batch }

update_self : (f : ℕ → ℕ) (i n : ℕ) → n ≡ f i → update f i n ≡ f
update_self f i n e = fun_ext λ j. ground arith

pub update_twice : (f : ℕ → ℕ) (i m n : ℕ) → n ≡ m → update (update f i m) i n ≡ update f i m
update_twice f i m n e = fun_ext λ j. ground arith

-- A waiter that still waits gets nothing from no permits.
pub serve-zero :
    (queue : List ℕ) (remaining : ℕ → ℕ) (waker : ℕ → Option ℕ)
    → Waits remaining queue
    → let r = serve queue remaining waker 0 in
      (r.queue ≡ queue)
      × (r.remaining ≡ remaining)
      × (r.waker ≡ waker)
      × (r.permits ≡ 0)
      × (r.batch ≡ [])
unfolding serve
serve-zero [] remaining waker w = (refl, refl, refl, refl, refl)
serve-zero (i ∷ queue) remaining waker w =
    ground (arith, update_self remaining i (remaining i - min (remaining i) 0))

module _ (room i : ℕ) (queue : List ℕ) (remaining : ℕ → ℕ) (waker : ℕ → Option ℕ)
    (permits : ℕ) where
  abbrev pub left : ℕ
  left = (add_remaining (remaining i) permits).0

  abbrev pub rest : ℕ
  rest = (add_remaining (remaining i) permits).1

  pub fill_full :
      (room == 0) ≡ true
      → fill room (i ∷ queue) remaining waker permits ≡ record {
        queue = i ∷ queue;
        remaining = remaining;
        waker = waker;
        permits = permits;
        drained = false;
        batch = [];
      }
  unfolding fill
  fill_full e = rw e

  pub fill_pop :
      (room == 0) ≡ false
      → (left == 0) ≡ true
      → fill room (i ∷ queue) remaining waker permits ≡ (
          let b =
            fill
              (room_left (waker i) room)
              queue
              (update remaining i left)
              (update waker i none)
              rest in
          record b { batch = add_waker (waker i) b.batch })
  unfolding fill
  fill_pop e f = rw (e, f)

  pub fill_short :
      (room == 0) ≡ false
      → (left == 0) ≡ false
      → fill room (i ∷ queue) remaining waker permits ≡ record {
        queue = i ∷ queue;
        remaining = update remaining i left;
        waker = waker;
        permits = rest;
        drained = false;
        batch = [];
      }
  unfolding fill
  fill_short e f = rw (e, f)

  pub serve_pop :
      (left == 0) ≡ true
      → serve (i ∷ queue) remaining waker permits ≡ (
          let b = serve queue (update remaining i left) (update waker i none) rest in
          record b { batch = add_waker (waker i) b.batch })
  unfolding serve
  serve_pop f = rw f

  pub serve_short :
      (left == 0) ≡ false
      → serve (i ∷ queue) remaining waker permits ≡ record {
        queue = i ∷ queue;
        remaining = update remaining i left;
        waker = waker;
        permits = rest;
        drained = false;
        batch = [];
      }
  unfolding serve
  serve_short f = rw f
