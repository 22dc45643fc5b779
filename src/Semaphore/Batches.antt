-- ===== src/Semaphore/Batches.antt =====
-- The batches of `add_permits_locked` together: they hand out the permits as one pass over the queue
-- with no batches would.
use wasm_kernel.Base.{
  Distinct, update, ℕ, zero, suc, ◌<◌, ◌≡◌, refl, sym, ap, ◌∙◌, Bool, false, Bool-cases, ◌==◌,
  ==_iff, if◌then◌else◌, inl, inr, List, [], ◌∷◌, ◌++◌, length, arith, Outcome, returned, ◌>>=◌,
}
use mathlib.Core.List.{append-nil}
use mathlib.Core.Option.{Option, none, some}
use wasm_kernel.Semaphore.Queue.{
  Semaphore, room_left, add_waker, max_wakers, Filled, filled, fill, add_rest, add_loop,
  woken_before,
}
use wasm_kernel.Semaphore.Fill.{Waits, fill-Waits, fill_end}
use wasm_kernel.Semaphore.Pass.{
  serve, after, update_twice, serve-zero, left, rest, fill_full, fill_pop, fill_short, serve_pop,
  serve_short,
}

add_waker-append : (w : Option ℕ) (xs ys : List ℕ) → add_waker w xs ++ ys ≡ add_waker w (xs ++ ys)
add_waker-append none xs ys = refl
add_waker-append (some w) xs ys = refl

-- A waiter that was left short of permits is left as it is.
serve_again :
    (i : ℕ) (queue : List ℕ) (remaining : ℕ → ℕ) (waker : ℕ → Option ℕ) (permits : ℕ)
    → (left 0 i queue remaining waker permits == 0) ≡ false
    → let n = left 0 i queue remaining waker permits in
      serve (i ∷ queue) (update remaining i n) waker (rest 0 i queue remaining waker permits)
      ≡ serve (i ∷ queue) remaining waker permits
serve_again i queue remaining waker permits f =
    let n : ℕ = left 0 i queue remaining waker permits in
    let m : ℕ = rest 0 i queue remaining waker permits in
    let again : left 0 i queue (update remaining i n) waker m ≡ n = ground arith in
    let spent : rest 0 i queue (update remaining i n) waker m ≡ m = ground arith in
    serve_short 0 i queue (update remaining i n) waker m (rw again f)
    ∙ (λ k. record {
      queue = i ∷ queue;
      remaining = update_twice remaining i n _ again k;
      waker = waker;
      permits = spent k;
      drained = false;
      batch = [];
    })
    ∙ sym (serve_short 0 i queue remaining waker permits f)

fill_nil :
    (room : ℕ) (remaining : ℕ → ℕ) (waker : ℕ → Option ℕ) (permits : ℕ)
    → let b = fill room [] remaining waker permits in
      after b (serve b.queue b.remaining b.waker b.permits) ≡ serve [] remaining waker permits
unfolding fill serve
fill_nil room remaining waker permits = refl

-- One section, then a pass from where it stopped, is one pass.
serve-fill :
    (room : ℕ) (queue : List ℕ) (remaining : ℕ → ℕ) (waker : ℕ → Option ℕ) (permits : ℕ)
    → let b = fill room queue remaining waker permits in
      after b (serve b.queue b.remaining b.waker b.permits) ≡ serve queue remaining waker permits
serve-fill room [] remaining waker permits = fill_nil room remaining waker permits
serve-fill room (i ∷ queue) remaining waker permits = elim (Bool-cases (room == 0)) [
  | inl e ↦ rw (fill_full room i queue remaining waker permits e)
  | inr e ↦ elim (Bool-cases (left room i queue remaining waker permits == 0)) [
    | inl f ↦ rw (fill_pop room i queue remaining waker permits e f) (
        rw (serve_pop room i queue remaining waker permits f) (
          rw add_waker-append (
            ap {A = Filled} {B = Filled} (λ r. record r { batch = add_waker (waker i) r.batch })
              (serve-fill (room_left (waker i) room) queue
                (update remaining i (left room i queue remaining waker permits))
                (update waker i none) (rest room i queue remaining waker permits)))))
    | inr f ↦
        rw (fill_short room i queue remaining waker permits e f)
          (serve_again i queue remaining waker permits f)
  ]
]

-- What becomes of the permits that no waiter takes: the semaphore gets them.
unfoldable pub settle : Bool → Semaphore → Filled → Outcome (Semaphore × List ℕ)
settle debug s r =
    if r.permits == 0
    then returned (filled s r, r.batch)
    else add_rest debug (filled s r) r.permits >>= λ s'. returned (s', r.batch)

settle-after :
    (debug : Bool) (s : Semaphore) (b r : Filled)
    → settle debug s (after b r) ≡ woken_before b.batch (settle debug (filled s b) r)
unfolding settle add_rest
settle-after debug s b r = ground arith

-- Whether a waiter of the queue is left over or not, the rounds are enough.
abbrev pub Enough : ℕ → ℕ → Semaphore → Type 0
Enough fuel permits s = (0 < fuel) × (0 < permits → length s.queue < fuel)

settle-zero :
    (debug : Bool) (s : Semaphore)
    → Waits s.remaining s.queue
    → settle debug s (serve s.queue s.remaining s.waker 0) ≡ returned (s, [])
unfolding settle
settle-zero debug s w = ground (arith, serve-zero s.queue s.remaining s.waker w)

settle_drained :
    (debug : Bool) (s : Semaphore) (b : Filled)
    → b.queue ≡ []
    → settle debug s (after b (serve b.queue b.remaining b.waker b.permits)) ≡ settle debug s b
unfolding settle serve
settle_drained debug s b e = rw e (simp append-nil (ground arith))

module _ (debug : Bool) (fuel permits : ℕ) (s : Semaphore) (w : Waits s.remaining s.queue) where
  abbrev batch : Filled
  batch = fill max_wakers s.queue s.remaining s.waker permits

  abbrev onward : Filled
  onward = serve batch.queue batch.remaining batch.waker batch.permits

  add_loop_round :
      (0 < permits
        → batch.drained ≡ false
        → add_loop debug (λ _ t. t) fuel batch.permits (filled s batch)
          ≡ some (settle debug (filled s batch) onward))
      → add_loop debug (λ _ t. t) (suc fuel) permits s
        ≡ some (settle debug s (serve s.queue s.remaining s.waker permits))
  unfolding add_loop settle
  add_loop_round ih =
      let one : settle debug s (after batch onward)
          ≡ settle debug s (serve s.queue s.remaining s.waker permits) =
        ap (settle debug s) (serve-fill max_wakers s.queue s.remaining s.waker permits) in
      elim (Bool-cases (permits == 0)) [
        | inl e ↦
            let z : permits ≡ 0 = (==_iff _ _).0 e in
            rw e (ap some (rw z (sym (settle-zero debug s w))))
        | inr e ↦ elim (Bool-cases batch.drained) [
          | inl d ↦
              rw (e, d)
                (ap some (
                  sym (
                    settle_drained debug s batch
                      ((fill_end max_wakers s.queue s.remaining s.waker permits).0 d))
                  ∙ one))
          | inr d ↦
              rw (e, d, ih (ground arith) d)
                (ap some (sym (settle-after debug s batch onward) ∙ one))
        ]
      ]

-- Where nobody else takes the lock between the batches, and there is one round more than there are
-- waiters, `add_permits_locked` returns, and the batches serve the queue as one pass does.
pub add_loop-serve :
    (debug : Bool) (fuel permits : ℕ) (s : Semaphore)
    → Distinct s.queue
    → Waits s.remaining s.queue
    → Enough fuel permits s
    → add_loop debug (λ _ t. t) fuel permits s
      ≡ some (settle debug s (serve s.queue s.remaining s.waker permits))
add_loop-serve debug zero permits s d w enough = absurd (omega arith)
add_loop-serve debug (suc fuel) permits s d w enough =
    add_loop_round debug fuel permits s w λ pos more.
      let kept = fill-Waits max_wakers s.queue s.remaining s.waker permits d w in
      let ended = fill_end max_wakers s.queue s.remaining s.waker permits in
      add_loop-serve debug fuel (batch debug fuel permits s w).permits
        (filled s (batch debug fuel permits s w)) kept.0 kept.1
        (
          omega (arith, ended.2 more (omega arith), enough.1 pos),
          λ left. omega (arith, ended.1 more left, enough.1 pos),
        )
