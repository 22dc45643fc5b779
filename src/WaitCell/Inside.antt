-- ===== src/WaitCell/Inside.antt =====
-- Threads inside and outside a `WaitCell`, and moves of one thread.
use mathlib.Core.Path.{subst}
use wasm_kernel.Base.{ℕ, ◌≡◌, ◌≢◌, sym, ap, ◌∙◌, List, true, false, update, arith, ℕ_discrete}
use wasm_kernel.WaitCell.State.{State}
use wasm_kernel.WaitCell.Threads.{Phase, Cell}
use wasm_kernel.WaitCell.Owner.{outside, polling, waking, place, emptied, Owns, Owner}

pub outside-update :
    (f : ℕ → Phase) (i : ℕ) (p : Phase) (j : ℕ)
    → place p ≡ outside
    → place (f j) ≡ outside
    → place (update f i p j) ≡ outside
outside-update f i p j a b = ground arith

pub owns-update :
    (f : ℕ → Phase) (i k : ℕ) (p : Phase)
    → place p ≡ outside
    → ((j : ℕ) → j ≢ k → place (f j) ≡ outside)
    → (j : ℕ) → j ≢ k
    → place (update f i p j) ≡ outside
owns-update f i k p a b j h = outside-update f i p j a (b j h)

pub own-update :
    (f : ℕ → Phase) (k : ℕ) (p : Phase)
    → ((j : ℕ) → j ≢ k → place (f j) ≡ outside)
    → (j : ℕ) → j ≢ k
    → place (update f k p j) ≡ outside
own-update f k p b j h = let o = b j h in ground arith

pub update-same : (f : ℕ → Phase) (k : ℕ) (p : Phase) → update f k p k ≡ p
update-same f k p = ground arith

pub update-other : (f : ℕ → Phase) (i k : ℕ) (p : Phase) → i ≢ k → update f i p k ≡ f k
update-other f i k p h = ground arith

-- Another thread moves outside.
module _ (t : Cell) (i k : ℕ) (p : Phase) (s : State) (l : List ℕ) where
  pub other-Owns :
      place p ≡ outside
      → i ≢ k
      → Owns k t
      → Owns k (record t { state = s; phase = update t.phase i p; woken = l })
  other-Owns a n (e, o) =
      (λ h. e (ap emptied (sym (update-other t.phase i k p n)) ∙ h), owns-update t.phase i k p a o)

  pub other-place : i ≢ k → place (update t.phase i p k) ≡ place (t.phase k)
  other-place n = ap place (update-other t.phase i k p n)

  pub all-outside :
      place p ≡ outside
      → ((j : ℕ) → place (t.phase j) ≡ outside)
      → (j : ℕ) → place (update t.phase i p j) ≡ outside
  all-outside a o j = outside-update t.phase i p j a (o j)

pub differ :
    (t : Cell) (i k : ℕ) → place (t.phase i) ≡ outside → place (t.phase k) ≢ outside → i ≢ k
differ t i k a b e = b (ap (λ j. place (t.phase j)) (sym e) ∙ a)

-- A thread that is inside is the owner.
pub as-poller :
    {t : Cell} (i : ℕ)
    → Owner t
    → place (t.phase i) ≡ polling
    → (t.state.registering ≡ true) × Owns i t
as-poller i (Owner.free (r, w, k, o)) h = let q = o i in cc
as-poller {t} i (Owner.poller k r q o) h = elim (ℕ_discrete i k) [
  | yes e ↦ (r, subst (λ j. Owns j t) (sym e) o)
  | no n ↦ let x = o.1 i n in cc
]
as-poller {t} i (Owner.waker k r w q o) h = elim (ℕ_discrete i k) [
  | yes e ↦ let x = ap (λ j. place (t.phase j)) e in cc
  | no n ↦ let x = o.1 i n in cc
]

pub as-waker :
    {t : Cell} (i : ℕ)
    → Owner t
    → place (t.phase i) ≡ waking
    → (t.state.registering ≡ false) × (t.state.waking ≡ true) × Owns i t
as-waker i (Owner.free (r, w, k, o)) h = let q = o i in cc
as-waker {t} i (Owner.waker k r w q o) h = elim (ℕ_discrete i k) [
  | yes e ↦ (r, w, subst (λ j. Owns j t) (sym e) o)
  | no n ↦ let x = o.1 i n in cc
]
as-waker {t} i (Owner.poller k r q o) h = elim (ℕ_discrete i k) [
  | yes e ↦ let x = ap (λ j. place (t.phase j)) e in cc
  | no n ↦ let x = o.1 i n in cc
]

-- The owner lets go.
pub all-outside_owner :
    (t : Cell) (k : ℕ) (p : Phase)
    → place p ≡ outside
    → ((j : ℕ) → j ≢ k → place (t.phase j) ≡ outside)
    → (j : ℕ) → place (update t.phase k p j) ≡ outside
all-outside_owner t k p a o j = elim (ℕ_discrete j k) [
  | yes e ↦ rw (e, update-same t.phase k p) a
  | no n ↦ outside-update t.phase k p j a (o j n)
]
