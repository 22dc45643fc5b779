-- ===== src/WaitQueue/Draining.antt =====
-- Waking the waiters of a queue one after another.
use mathlib.Core.Option.{Option, none, some}
use wasm_kernel.Base.{
  NotIn, Distinct, ℕ, ◌-◌, ◌≤◌, ◌<◌, ◌==◌, ◌≡◌, ◌≢◌, refl, sym, ap, ◌∙◌, inl, inr, true, List, [],
  ◌∷◌, ◌++◌, length, All, update, returned, Yields, Yields-imp, Yields->>=, arith, Bool-cases,
}
use wasm_kernel.WaitQueue.Queue.{Wakeup, WaitQueue}
use wasm_kernel.WaitQueue.Ops.{wake_node}
use wasm_kernel.WaitQueue.Drain.{add_to_batch, drain}
use wasm_kernel.WaitQueue.Inv.{unwoken, waker_of}

-- All waiters of a list are woken, with their wakers in order.
abbrev pub marked : Wakeup → List ℕ → (ℕ → Wakeup) → ℕ → Wakeup
marked w [] f = f
marked w (i ∷ xs) f = marked w xs (update f i w)

abbrev pub prepend : Option ℕ → List ℕ → List ℕ
prepend none l = l
prepend (some w) l = w ∷ l

abbrev pub wakers : List ℕ → (ℕ → Wakeup) → List ℕ
wakers [] f = []
wakers (i ∷ xs) f = prepend (waker_of (f i)) (wakers xs f)

wakers-update :
    (f : ℕ → Wakeup) (i : ℕ) (w : Wakeup) (xs : List ℕ)
    → NotIn i xs
    → wakers xs (update f i w) ≡ wakers xs f
wakers-update f i w [] n = refl
wakers-update f i w (x ∷ xs) (n, m) = ground (arith, wakers-update f i w xs m)

-- None of them has been woken before.
abbrev pub Unwoken : (ℕ → Wakeup) → List ℕ → Type 0
Unwoken f xs = All (λ i. unwoken (f i) ≡ true) xs

Unwoken-update :
    (f : ℕ → Wakeup) (i : ℕ) (w : Wakeup) (xs : List ℕ)
    → NotIn i xs
    → Unwoken f xs
    → Unwoken (update f i w) xs
Unwoken-update f i w [] n u = tt
Unwoken-update f i w (x ∷ xs) (n, m) (u, us) = (ground arith, Unwoken-update f i w xs m us)

node_eq :
    (i : ℕ) (w : Wakeup) (q : WaitQueue)
    → unwoken (q.wakeup i) ≡ true
    → wake_node i w q ≡ returned (record q { wakeup = update q.wakeup i w }, waker_of (q.wakeup i))
unfolding wake_node
node_eq i w q u = ground arith

-- What a batch leaves for the next ones.
pub record Part (w : Wakeup) (q : WaitQueue) (xs : List ℕ) (q' : WaitQueue) (batch : List ℕ)
    : Type 0 where
  pub shorter : (length q'.queue ≤ length xs) × (xs ≢ [] → length q'.queue < length xs)
  pub rest : q' ≡ record q { queue = q'.queue; wakeup = q'.wakeup }
  pub distinct : Distinct q'.queue
  pub unwoken_rest : Unwoken q'.wakeup q'.queue
  pub marks : marked w q'.queue q'.wakeup ≡ marked w xs q.wakeup
  pub order : batch ++ wakers q'.queue q'.wakeup ≡ wakers xs q.wakeup

module _ (w : Wakeup) (q : WaitQueue) (i : ℕ) (xs : List ℕ) (n : NotIn i xs) where
  -- The state after `i` is woken.
  abbrev pub first_woken : WaitQueue
  first_woken = record q { queue = xs; wakeup = update q.wakeup i w }

  Part-none :
      (q' : WaitQueue) (batch : List ℕ)
      → waker_of (q.wakeup i) ≡ none
      → Part w first_woken xs q' batch
      → Part w q (i ∷ xs) q' batch
  Part-none q' batch e p = record {
    shorter = (omega (arith, p.shorter.0), λ h. omega (arith, p.shorter.0));
    rest = p.rest;
    distinct = p.distinct;
    unwoken_rest = p.unwoken_rest;
    marks = p.marks;
    order =
        p.order
        ∙ (wakers-update q.wakeup i w xs n ∙ sym (ap (λ m. prepend m (wakers xs q.wakeup)) e));
  }

  Part-some :
      (q' : WaitQueue) (batch : List ℕ) (k : ℕ)
      → waker_of (q.wakeup i) ≡ some k
      → Part w first_woken xs q' batch
      → Part w q (i ∷ xs) q' (k ∷ batch)
  Part-some q' batch k e p = record {
    shorter = (omega (arith, p.shorter.0), λ h. omega (arith, p.shorter.0));
    rest = p.rest;
    distinct = p.distinct;
    unwoken_rest = p.unwoken_rest;
    marks = p.marks;
    order =
        ap (λ (l : List ℕ). k ∷ l) (p.order ∙ wakers-update q.wakeup i w xs n)
        ∙ sym (ap (λ m. prepend m (wakers xs q.wakeup)) e);
  }

  Part-stop :
      (k : ℕ)
      → waker_of (q.wakeup i) ≡ some k
      → Distinct xs
      → Unwoken q.wakeup xs
      → Part w q (i ∷ xs) first_woken (k ∷ [])
  Part-stop k e d u = record {
    shorter = (omega arith, λ h. omega arith);
    rest = refl;
    distinct = d;
    unwoken_rest = Unwoken-update q.wakeup i w xs n u;
    marks = refl;
    order =
        ap (λ (l : List ℕ). k ∷ l) (wakers-update q.wakeup i w xs n)
        ∙ sym (ap (λ m. prepend m (wakers xs q.wakeup)) e);
  }

  batch-Part :
      (room : ℕ) (m : Option ℕ)
      → waker_of (q.wakeup i) ≡ m
      → Distinct xs
      → Unwoken q.wakeup xs
      → ((r : ℕ)
          → Yields (drain w xs r first_woken) (λ (q', batch). Part w first_woken xs q' batch))
      → Yields
          (add_to_batch room first_woken (drain w xs) m)
          (λ (q', batch). Part w q (i ∷ xs) q' batch)
  unfolding add_to_batch
  batch-Part room none e d u ih =
      Yields-imp (λ (q', batch). Part w first_woken xs q' batch)
        (λ (q', batch). Part w q (i ∷ xs) q' batch) (drain w xs room first_woken)
        (λ (q', batch) p. Part-none q' batch e p) (ih room)
  batch-Part room (some k) e d u ih = elim (Bool-cases (room == 1)) [
    | inl t ↦ rw t (Part-stop k e d u)
    | inr t ↦ rw t (
        Yields->>= (λ (q', batch). Part w first_woken xs q' batch)
          (λ (q', batch). Part w q (i ∷ xs) q' batch) (drain w xs (room - 1) first_woken) _
          (ih (room - 1)) (λ (q', batch) p. Part-some q' batch k e p))
  ]

pub drain-Part :
    (room : ℕ) (w : Wakeup) (xs : List ℕ) (q : WaitQueue)
    → Distinct xs
    → Unwoken q.wakeup xs
    → Yields (drain w xs room q) (λ (q', batch). Part w q xs q' batch)
unfolding drain
drain-Part room w [] q d u = record {
  shorter = (omega arith, λ h. absurd (h refl));
  rest = refl;
  distinct = tt;
  unwoken_rest = tt;
  marks = refl;
  order = refl;
}
drain-Part room w (i ∷ xs) q (n, d) (u, us) = rw (node_eq i w (record q { queue = xs }) u) (
    batch-Part w q i xs n room (waker_of (q.wakeup i)) refl d us
      (λ r. drain-Part r w xs (first_woken w q i xs n) d (Unwoken-update q.wakeup i w xs n us)))
