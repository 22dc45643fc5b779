-- ===== src/Semaphore/Queued.antt =====
-- An `Acquire` future that is queued: polling it again, and dropping it.
use wasm_kernel.Base.{
  NotIn, Distinct, All, update, ℕ, zero, suc, ◌+◌, ◌-◌, ◌≤◌, ◌<◌, ◌≡◌, ◌≢◌, ◌↔◌, refl, min, Bool,
  true, ◌⊎◌, inl, inr, List, [], ◌∷◌, length, arith, Outcome, returned, panicked,
}
use mathlib.Core.Option.{Option, none, some}
use wasm_kernel.Semaphore.Queue.{Semaphore, closed_permits, add_loop, add_permits_locked}
use wasm_kernel.Semaphore.Ops.{Polled, Acquire, poll, remove}
use wasm_kernel.Semaphore.Fill.{Waits, deficit, Waits-update}
use wasm_kernel.Semaphore.Invariant.{Open, Returns}
use wasm_kernel.Semaphore.Acquiring.{take_permits-open}

-- A queued future's waiter is in the queue and waits, or has left it with all its permits.
abbrev pub Within : ℕ → List ℕ → Type 0
Within i [] = ⊥
Within i (j ∷ queue) = (i ≡ j) ⊎ ((i ≢ j) × Within i queue)

abbrev pub Standing : Semaphore → ℕ → Type 0
Standing s i = Within i s.queue ⊎ (NotIn i s.queue × (s.remaining i ≡ 0))

pub Within-Waits :
    (i : ℕ) (remaining : ℕ → ℕ) (queue : List ℕ)
    → Waits remaining queue
    → Within i queue
    → 0 < remaining i
Within-Waits i remaining [] w h = absurd h
Within-Waits i remaining (j ∷ queue) w (inl e) = rw e w.0
Within-Waits i remaining (j ∷ queue) w (inr h) = Within-Waits i remaining queue w.1 h.1

Within-nonempty : (i : ℕ) (queue : List ℕ) → Within i queue → queue ≢ []
Within-nonempty i [] h e = h
Within-nonempty i (j ∷ queue) h e = cc

pub remove-NotIn : (i j : ℕ) (queue : List ℕ) → NotIn j queue → NotIn j (remove i queue)
unfolding remove
remove-NotIn i j [] h = tt
remove-NotIn i j (k ∷ queue) h = ground (arith, remove-NotIn i j queue)

pub remove-Distinct : (i : ℕ) (queue : List ℕ) → Distinct queue → Distinct (remove i queue)
unfolding remove
remove-Distinct i [] d = tt
remove-Distinct i (j ∷ queue) d = ground (arith, remove-Distinct i queue, remove-NotIn i j queue)

remove-Waits :
    (i : ℕ) (remaining : ℕ → ℕ) (queue : List ℕ)
    → Waits remaining queue
    → Waits remaining (remove i queue)
unfolding remove
remove-Waits i remaining [] w = tt
remove-Waits i remaining (j ∷ queue) w = ground (arith, remove-Waits i remaining queue)

-- A removed waiter takes what it still needs out of the deficit; one that is not there changes
-- nothing.
pub deficit-remove :
    (i : ℕ) (remaining : ℕ → ℕ) (queue : List ℕ)
    → Within i queue
    → deficit remaining (remove i queue) + remaining i ≡ deficit remaining queue
unfolding remove deficit
deficit-remove i remaining [] h = absurd h
deficit-remove i remaining (j ∷ queue) (inl e) = ground arith
deficit-remove i remaining (j ∷ queue) (inr h) =
    ground (arith, deficit-remove i remaining queue h.1)

pub remove_absent : (i : ℕ) (queue : List ℕ) → NotIn i queue → remove i queue ≡ queue
unfolding remove
remove_absent i [] h = refl
remove_absent i (j ∷ queue) h = ground (arith, remove_absent i queue)

pub length-remove : (i : ℕ) (queue : List ℕ) → length (remove i queue) ≤ length queue
unfolding remove
length-remove i [] = omega arith
length-remove i (j ∷ queue) = ground (arith, length-remove i queue)

pub removed-Open : (i : ℕ) (s : Semaphore) → Open s → Open (record s { queue = remove i s.queue })
unfolding remove
removed-Open i s o = record {
  opened = o.opened;
  bounded = o.bounded;
  distinct = remove-Distinct i s.queue o.distinct;
  waits = remove-Waits i s.remaining s.queue o.waits;
  idle = λ h. rw (o.idle h, remove);
}

pub deficit-Standing :
    (i : ℕ) (s : Semaphore)
    → Standing s i
    → deficit s.remaining (remove i s.queue) + s.remaining i ≡ deficit s.remaining s.queue
deficit-Standing i s (inl h) = deficit-remove i s.remaining s.queue h
deficit-Standing i s (inr h) = rw (remove_absent i s.queue h.0) (omega (arith, h.1))

pub Returns-imp :
    {A : Type 0} {P Q : A → Type 0} (m : Option (Outcome A))
    → ((a : A) → P a → Q a)
    → Returns m P
    → Returns m Q
Returns-imp none f h = absurd h
Returns-imp (some (returned a)) f h = f a h
Returns-imp (some panicked) f h = absurd h

Waits-update_pos :
    (i n : ℕ) (remaining : ℕ → ℕ) (queue : List ℕ)
    → 0 < n
    → Waits remaining queue
    → Waits (update remaining i n) queue
Waits-update_pos i n remaining [] h w = tt
Waits-update_pos i n remaining (j ∷ queue) h w =
    ground (arith, Waits-update_pos i n remaining queue)

add_permits_locked-zero :
    (debug : Bool) (fuel permits : ℕ) (s : Semaphore)
    → permits ≡ 0
    → 0 < fuel
    → add_permits_locked debug (λ _ t. t) fuel permits s ≡ some (returned (s, []))
unfolding add_permits_locked add_loop
add_permits_locked-zero debug zero permits s e h = absurd (omega arith)
add_permits_locked-zero debug (suc fuel) permits s e h = ground arith

-- What another poll of a queued future comes to.
pub record NextPoll (s : Semaphore) (a : Acquire) (t : Semaphore) (a' : Acquire) (p : Polled)
    : Type 0 where
  pub kept : Open t
  pub granted : (p ≡ Polled.acquired) ↔ (s.remaining a.waiter ≡ 0)
  pub waiting : (p ≡ Polled.pending) ↔ (0 < s.remaining a.waiter)
  pub permits : t.permits ≡ s.permits
  pub queue : t.queue ≡ s.queue
  pub remaining : (j : ℕ) → t.remaining j ≡ s.remaining j

-- Polling a queued future of an open semaphore again, where its waiter is in the queue or has left it
-- with all its permits: it is ready exactly if the waiter needs no more permits, pending exactly if it
-- does, and the permits and the queue are as before. `reads` are other values that its loop read,
-- none of them that of a closed semaphore.
pub poll_again :
    (debug : Bool) (fuel : ℕ) (reads : List ℕ) (a : Acquire) (cx : ℕ) (s : Semaphore)
    → Open s
    → All (λ r. r ≢ closed_permits) reads
    → a.queued ≡ true
    → Standing s a.waiter
    → 0 < fuel
    → Returns (poll debug (λ _ t. t) fuel reads a cx s) (λ (t, a', p, woken). NextPoll s a t a' p)
unfolding poll
poll_again debug fuel reads a cx s o r q (inl h) enough =
    let n = s.remaining a.waiter in
    ground (
      arith,
      Within-Waits a.waiter s.remaining s.queue o.waits h,
      Within-nonempty a.waiter s.queue h,
      take_permits-open reads n s.permits r o.bounded,
      Waits-update_pos a.waiter (n - min n s.permits) s.remaining s.queue,
    )
poll_again debug fuel reads a cx s o r q (inr h) enough =
    let n = s.remaining a.waiter in
    let t : Semaphore = record s {
      permits = s.permits - n;
      remaining = update s.remaining a.waiter (n - min n n);
    } in
    ground (
      arith,
      take_permits-open reads n s.permits r o.bounded,
      Waits-update a.waiter (n - min n n) s.remaining s.queue h.0 o.waits,
      add_permits_locked-zero debug fuel (n - min n n) t,
    )
