-- ===== src/Semaphore/Handed.antt =====
-- What becomes of one waiter when permits are handed out.
use wasm_kernel.Base.{
  NotIn, Distinct, update, ℕ, ◌+◌, ◌-◌, ◌≤◌, ◌<◌, ◌≡◌, refl, min, Bool, true, Bool-cases, ◌==◌,
  ==_iff, ltb, ◌⊎◌, inl, inr, List, [], ◌∷◌, length, arith, Outcome, returned, panicked,
}
use mathlib.Core.Option.{Option, none, some}
use wasm_kernel.Semaphore.Queue.{
  Semaphore, max_permits, add_rest, add_permits_locked, add_permits, Filled,
}
use wasm_kernel.Semaphore.Ops.{remove, drop_acquire}
use wasm_kernel.Semaphore.Batches.{Enough, settle}
use wasm_kernel.Semaphore.Pass.{serve, left}
use wasm_kernel.Semaphore.Serve.{InOrder, behind, All-refl, serve-InOrder, serve-NotIn, serve_end}
use wasm_kernel.Semaphore.Invariant.{Open, settle-Open, Returns, Adds, add_permits_locked-serve}
use wasm_kernel.Semaphore.Queued.{
  Returns-imp, removed-Open, deficit-Standing, length-remove, Within, Standing,
}

-- Of a waiter that is in the queue, or has all its permits.
abbrev pub Stands : List ℕ → (ℕ → ℕ) → ℕ → Type 0
Stands queue remaining j = Within j queue ⊎ (NotIn j queue × (remaining j ≡ 0))

serve_le :
    (queue : List ℕ) (remaining : ℕ → ℕ) (waker : ℕ → Option ℕ) (permits j : ℕ)
    → (serve queue remaining waker permits).remaining j ≤ remaining j
unfolding serve
serve_le [] remaining waker permits j = omega arith
serve_le (i ∷ queue) remaining waker permits j =
    let n = remaining i - min (remaining i) permits in
    let m = permits - min (remaining i) permits in
    ground (arith, serve_le queue (update remaining i n) (update waker i none) m j)

pass-Stands :
    (i : ℕ) (queue : List ℕ) (remaining : ℕ → ℕ) (n j : ℕ)
    → NotIn i queue
    → n ≡ 0
    → Stands (i ∷ queue) remaining j
    → Stands queue (update remaining i n) j
pass-Stands i queue remaining n j d z (inl (inl e)) = inr (rw e d, ground arith)
pass-Stands i queue remaining n j d z (inl (inr (m, h))) = inl h
pass-Stands i queue remaining n j d z (inr ((m, h), e)) = inr (h, ground arith)

short-Stands :
    (i : ℕ) (queue : List ℕ) (remaining : ℕ → ℕ) (n j : ℕ)
    → NotIn i queue
    → Stands (i ∷ queue) remaining j
    → Stands (i ∷ queue) (update remaining i n) j
short-Stands i queue remaining n j d (inl h) = inl h
short-Stands i queue remaining n j d (inr ((m, h), e)) = inr ((m, h), ground arith)

serve-Stands :
    (queue : List ℕ) (remaining : ℕ → ℕ) (waker : ℕ → Option ℕ) (permits j : ℕ)
    → Distinct queue
    → Stands queue remaining j
    → let r = serve queue remaining waker permits in Stands r.queue r.remaining j
unfolding serve
serve-Stands [] remaining waker permits j d h = h
serve-Stands (i ∷ queue) remaining waker permits j d h =
    let n = left 0 i queue remaining waker permits in
    elim (Bool-cases (n == 0)) [
      | inl f ↦ rw f (
          serve-Stands queue (update remaining i n) (update waker i none) _ j d.1
            (pass-Stands i queue remaining n j d.0 ((==_iff n 0).0 f) h))
      | inr f ↦ rw f (short-Stands i queue remaining n j d.0 h)
    ]

-- The waiters of `s`, where permits have been handed out.
pub record Hands (s : Semaphore) (queue : List ℕ) (remaining : ℕ → ℕ) : Type 0 where
  pub less : (j : ℕ) → remaining j ≤ s.remaining j
  pub stays : (j : ℕ) → NotIn j s.queue → NotIn j queue
  pub stands : (j : ℕ) → Standing s j → Stands queue remaining j
  pub order : InOrder s.queue s.remaining queue remaining

serve-Hands :
    (s : Semaphore) (permits : ℕ)
    → Distinct s.queue
    → let r = serve s.queue s.remaining s.waker permits in Hands s r.queue r.remaining
serve-Hands s permits d = record {
  less = λ j. serve_le s.queue s.remaining s.waker permits j;
  stays = λ j h. serve-NotIn s.queue s.remaining s.waker permits j h;
  stands = λ j h. serve-Stands s.queue s.remaining s.waker permits j d h;
  order = serve-InOrder s.queue s.remaining s.waker permits d;
}

-- No permits are handed out.
Hands-refl : (s : Semaphore) → Hands s s.queue s.remaining
Hands-refl s = record {
  less = λ j. omega arith;
  stays = λ j h. h;
  stands = λ j h. h;
  order = record {
    satisfied = [];
    split = refl;
    complete = tt;
    untouched = All-refl s.remaining (behind s.queue);
  };
}

settle_keeps :
    (P : List ℕ → (ℕ → ℕ) → Type 0) (debug : Bool) (s : Semaphore) (r : Filled)
    → (0 < r.permits → s.permits + r.permits ≤ max_permits)
    → P r.queue r.remaining
    → Returns (some (settle debug s r)) (λ (t, woken). P t.queue t.remaining)
unfolding settle add_rest
settle_keeps P debug s r fits p = ground arith

pub Returns-both :
    {A : Type 0} (P Q : A → Type 0) (m : Option (Outcome A))
    → Returns m P
    → Returns m Q
    → Returns m (λ a. P a × Q a)
Returns-both P Q none p q = p
Returns-both P Q (some (returned a)) p q = (p, q)
Returns-both P Q (some panicked) p q = p

abbrev pub Handed : ℕ → Semaphore → Semaphore × List ℕ → Type 0
Handed n s (t, woken) = Open t × Adds n s t × Hands s t.queue t.remaining

locked-Handed :
    (debug : Bool) (fuel permits : ℕ) (s : Semaphore)
    → Open s
    → s.permits + permits ≤ max_permits
    → Enough fuel permits s
    → Returns (add_permits_locked debug (λ _ t. t) fuel permits s) (Handed permits s)
locked-Handed debug fuel permits s o fits enough =
    let ended = serve_end s.queue s.remaining s.waker permits in
    rw (add_permits_locked-serve debug fuel permits s o enough) (
      Returns-imp (some (settle debug s (serve s.queue s.remaining s.waker permits)))
        (λ (t, woken) ((a, b), c). (a, b, c))
        (Returns-both (λ (t, woken). Open t × Adds permits s t)
          (λ (t, woken). Hands s t.queue t.remaining)
          (some (settle debug s (serve s.queue s.remaining s.waker permits)))
          (settle-Open debug s permits o fits)
          (settle_keeps (Hands s) debug s (serve s.queue s.remaining s.waker permits)
            (λ h. omega (arith, ended.0, fits)) (serve-Hands s permits o.distinct))))

pub add_permits-Handed :
    (debug : Bool) (fuel permits : ℕ) (s : Semaphore)
    → Open s
    → s.permits + permits ≤ max_permits
    → length s.queue < fuel
    → Returns (add_permits debug (λ _ t. t) fuel permits s) (Handed permits s)
unfolding add_permits
add_permits-Handed debug fuel permits s o fits enough = elim (Bool-cases (permits == 0)) [
  | inl e ↦ rw e (o, omega (arith, (==_iff _ _).0 e), Hands-refl s)
  | inr e ↦ rw e (locked-Handed debug fuel permits s o fits (omega arith, λ _. enough))
]

-- A queued future is dropped: its waiter leaves the queue, and what it has got is handed out.
pub drop_acquire-Handed :
    (debug : Bool) (fuel i n : ℕ) (s : Semaphore)
    → Open s
    → Standing s i
    → s.remaining i ≤ n
    → s.permits + n ≤ max_permits
    → length s.queue < fuel
    → Returns
        (drop_acquire debug (λ _ t. t) fuel (record { waiter = i; queued = true; permits = n }) s)
        (λ (t, woken).
          Open t × Adds n s t × Hands (record s { queue = remove i s.queue }) t.queue t.remaining)
unfolding drop_acquire
drop_acquire-Handed debug fuel i n s o st le fits enough =
    let kept = removed-Open i s o in
    let owed = deficit-Standing i s st in
    let shorter = length-remove i s.queue in
    elim (Bool-cases (ltb 0 (n - s.remaining i))) [
      | inl f ↦ rw f (
          Returns-imp
            (add_permits_locked debug (λ _ t. t) fuel (n - s.remaining i)
              (record s { queue = remove i s.queue }))
            (λ (t, woken) (a, b, c). (a, omega (arith, b), c))
            (locked-Handed debug fuel (n - s.remaining i) (record s { queue = remove i s.queue })
              kept (omega arith) (omega arith, λ _. omega arith)))
      | inr f ↦ rw f (kept, ground arith, Hands-refl (record s { queue = remove i s.queue }))
    ]
