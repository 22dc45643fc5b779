-- ===== src/RwLock/Places.antt =====
-- Where the waiters of a lock stand, and lists that a waiter leaves.
use wasm_kernel.Base.{
  NotIn, Distinct, All, ℕ, ◌≤◌, ◌==◌, ◌≡◌, ◌≢◌, sym, ◌∙◌, inl, inr, Bool-cases, ==_iff, List, [],
  ◌∷◌, ◌++◌, arith,
}
use mathlib.Core.Path.{subst}
use wasm_kernel.Semaphore.Ops.{remove}
use wasm_kernel.Semaphore.Serve.{behind}
use wasm_kernel.Semaphore.Queued.{Within}
use wasm_kernel.Semaphore.Handed.{Stands}

-- `asks` is what each future asks for.
pub record Places (queue : List ℕ) (remaining : ℕ → ℕ) (pending : List ℕ) (asks : ℕ → ℕ)
    : Type 0 where
  pub covers : (j : ℕ) → NotIn j pending → NotIn j queue
  pub stands : (j : ℕ) → Within j pending → Stands queue remaining j
  pub less : (j : ℕ) → Within j pending → remaining j ≤ asks j
  pub untouched : All (λ j. remaining j ≡ asks j) (behind queue)

pub Within-ne : (i j : ℕ) (l : List ℕ) → NotIn i l → Within j l → j ≢ i
Within-ne i j [] n w e = w
Within-ne i j (k ∷ l) n (inl e) f = n.0 (sym f ∙ e)
Within-ne i j (k ∷ l) n (inr w) f = Within-ne i j l n.1 w.1 f

pub remove-absent : (i : ℕ) (l : List ℕ) → Distinct l → NotIn i (remove i l)
unfolding remove
remove-absent i [] d = tt
remove-absent i (j ∷ l) d = elim (Bool-cases (i == j)) [
  | inl e ↦ rw e (subst (λ k. NotIn k l) (sym ((==_iff i j).0 e)) d.0)
  | inr e ↦ rw e (ground arith, remove-absent i l d.1)
]

pub remove-Within : (i j : ℕ) (l : List ℕ) → Within j (remove i l) → Within j l
unfolding remove
remove-Within i j [] w = w
remove-Within i j (k ∷ l) w = ground (arith, remove-Within i j l)

pub Within-remove : (i j : ℕ) (l : List ℕ) → j ≢ i → Within j l → Within j (remove i l)
unfolding remove
Within-remove i j [] n w = w
Within-remove i j (k ∷ l) n w = ground (arith, Within-remove i j l)

pub NotIn-remove : (i j : ℕ) (l : List ℕ) → j ≢ i → NotIn j (remove i l) → NotIn j l
unfolding remove
NotIn-remove i j [] n h = tt
NotIn-remove i j (k ∷ l) n h = ground (arith, NotIn-remove i j l)

pub All-behind : (P : ℕ → Type 0) (done l : List ℕ) → All P (behind (done ++ l)) → All P (behind l)
All-behind P [] l h = h
All-behind P (i ∷ done) l h = later P done l h
  where
    later : (P : ℕ → Type 0) (done l : List ℕ) → All P (done ++ l) → All P (behind l)
    later P [] [] h = tt
    later P [] (i ∷ l) h = h.1
    later P (i ∷ done) l h = later P done l h.1

remove-All : (P : ℕ → Type 0) (i : ℕ) (l : List ℕ) → All P l → All P (remove i l)
unfolding remove
remove-All P i [] h = tt
remove-All P i (j ∷ l) h = ground (arith, remove-All P i l)

pub remove-behind :
    (P : ℕ → Type 0) (i : ℕ) (l : List ℕ) → All P (behind l) → All P (behind (remove i l))
unfolding remove
remove-behind P i [] h = tt
remove-behind P i (j ∷ l) h = elim (Bool-cases (i == j)) [
  | inl e ↦ rw e (All-behind P (j ∷ []) l h)
  | inr e ↦ rw e (remove-All P i l h)
]

pub All-trans :
    (f g h : ℕ → ℕ) (l : List ℕ)
    → All (λ j. f j ≡ g j) l
    → All (λ j. g j ≡ h j) l
    → All (λ j. f j ≡ h j) l
All-trans f g h [] a b = tt
All-trans f g h (j ∷ l) a b = (a.0 ∙ b.0, All-trans f g h l a.1 b.1)
