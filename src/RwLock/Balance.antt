-- ===== src/RwLock/Balance.antt =====
-- The balance of a lock's permits: there, held by guards, or promised to futures.
use mathlib.Core.Path.{subst}
use mathlib.Core.Option.{Option, none, some}
use wasm_kernel.Base.{
  NotIn, Distinct, All, update, ℕ, ◌+◌, ◌*◌, ◌≤◌, ◌<◌, ◌==◌, ◌≡◌, refl, sym, inl, inr, Bool-cases,
  ==_iff, List, [], ◌∷◌, arith, Outcome, returned, panicked,
}
use wasm_kernel.Semaphore.Queue.{Semaphore}
use wasm_kernel.Semaphore.Fill.{deficit}
use wasm_kernel.Semaphore.Invariant.{Open, Returns}
use wasm_kernel.Semaphore.Queued.{Within}
use wasm_kernel.RwLock.Lock.{
  Kind, max_readers, permits_of, RwLock, granted, and_then, released, guards,
}
use wasm_kernel.RwLock.Sharing.{deficit_le}
use wasm_kernel.RwLock.Places.{Places}

abbrev pub asks : (ℕ → Kind) → ℕ → ℕ
asks kind j = permits_of (kind j)

-- The permits of all guards
abbrev pub held : RwLock → ℕ
held l = l.readers + l.writers * max_readers

-- Every permit is there, held, or promised to a future, less what the waiters still need.
pub record Shared (s : Semaphore) (held : ℕ) (pending : List ℕ) (kind : ℕ → Kind) : Type 0 where
  pub opened : Open s
  pub distinct : Distinct pending
  pub places : Places s.queue s.remaining pending (asks kind)
  pub balance :
      s.permits + held + deficit (asks kind) pending ≡ max_readers + deficit s.remaining s.queue

abbrev pub LockInv : RwLock → Type 0
LockInv l = Shared l.sem (held l) l.pending l.kind

pub Returns-then :
    {A B : Type 0} (P : A → Type 0) (Q : B → Type 0) (m : Option (Outcome A))
    (f : A → Option (Outcome B))
    → Returns m P
    → ((a : A) → P a → Returns (f a) Q)
    → Returns (and_then m f) Q
Returns-then P Q none f h k = absurd h
Returns-then P Q (some (returned a)) f h k = k a h
Returns-then P Q (some panicked) f h k = absurd h

held-granted : (k : Kind) (l : RwLock) → held (granted k l) ≡ held l + permits_of k
held-granted Kind.read l = omega arith
held-granted Kind.write l = omega arith

pub held-released :
    (k : Kind) (l : RwLock) → 0 < guards k l → held (released k l) + permits_of k ≡ held l
held-released Kind.read l h = omega (arith, h)
held-released Kind.write l h = omega (arith, h)

for_each : (P : ℕ → Type 0) (l : List ℕ) → ((j : ℕ) → Within j l → P j) → All P l
for_each P [] h = tt
for_each P (i ∷ l) h = (
  h i (inl refl),
  for_each P l (λ j w. elim (Bool-cases (j == i)) [
    | inl e ↦ h j (inl ((==_iff j i).0 e))
    | inr e ↦ h j (inr (ground arith, w))
  ]),
)

-- There is room for the permits of every guard.
pub held_le :
    (s : Semaphore) (held : ℕ) (pending : List ℕ) (kind : ℕ → Kind)
    → Shared s held pending kind
    → s.permits + held ≤ max_readers
held_le s held pending kind v =
    let p = v.places in
    let a =
      deficit_le pending s.queue s.remaining (asks kind) v.opened.distinct p.covers
        (for_each (λ j. s.remaining j ≤ asks kind j) pending p.less) in
    let b = v.balance in omega (arith, a, b)

pub granted-Shared :
    (k : Kind) (l : RwLock)
    → Shared l.sem (held l + permits_of k) l.pending l.kind
    → LockInv (granted k l)
granted-Shared Kind.read l v =
    subst (λ n. Shared l.sem n l.pending l.kind) (sym (held-granted Kind.read l)) v
granted-Shared Kind.write l v =
    subst (λ n. Shared l.sem n l.pending l.kind) (sym (held-granted Kind.write l)) v

-- The future `i` is a new one.
pub new_asks :
    (i : ℕ) (k : Kind) (kind : ℕ → Kind) (l : List ℕ)
    → NotIn i l
    → deficit (asks (update kind i k)) l ≡ deficit (asks kind) l
unfolding deficit
new_asks i k kind [] n = refl
new_asks i k kind (j ∷ l) n = ground (arith, new_asks i k kind l)
