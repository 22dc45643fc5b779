-- ===== src/WaitQueue/Removal.antt =====
-- Taking a waiter off a queue, and forgetting one that is in no queue.
use mathlib.Core.Path.{subst}
use wasm_kernel.Base.{
  NotIn, Distinct, ℕ, ◌==◌, ◌≡◌, ◌≢◌, refl, sym, ap, ◌∙◌, inl, inr, false, not, ◌&&◌, if◌then◌else◌,
  List, [], ◌∷◌, All, update, arith, Bool-cases, ==_iff,
}
use wasm_kernel.WaitQueue.Queue.{
  State, Word, Wakeup, WaitState, WaitQueue, same_state, with_state, is_empty,
}
use wasm_kernel.WaitQueue.Ops.{set_status, remove}
use wasm_kernel.WaitQueue.Inv.{Inv, Queued, unwoken}

pub woken-NotIn :
    (status : ℕ → WaitState) (wakeup : ℕ → Wakeup) (i : ℕ) (xs : List ℕ)
    → All (Queued status wakeup) xs
    → unwoken (wakeup i) ≡ false
    → NotIn i xs
woken-NotIn status wakeup i [] a u = tt
woken-NotIn status wakeup i (x ∷ xs) ((s, w), a) u =
    ((λ e. let f = ap (λ j. unwoken (wakeup j)) e in cc), woken-NotIn status wakeup i xs a u)

pub other-NotIn :
    (status : ℕ → WaitState) (wakeup : ℕ → Wakeup) (i : ℕ) (xs : List ℕ)
    → All (Queued status wakeup) xs
    → status i ≢ WaitState.waiting
    → NotIn i xs
other-NotIn status wakeup i [] a u = tt
other-NotIn status wakeup i (x ∷ xs) ((s, w), a) u =
    ((λ e. u (ap status e ∙ s)), other-NotIn status wakeup i xs a u)

pub remove-NotIn : (i : ℕ) (xs : List ℕ) → NotIn i xs → remove i xs ≡ xs
remove-NotIn i [] n = refl
remove-NotIn i (x ∷ xs) (n, m) = ground (arith, remove-NotIn i xs m)

pub NotIn-remove : (i j : ℕ) (xs : List ℕ) → NotIn j xs → NotIn j (remove i xs)
NotIn-remove i j [] n = tt
NotIn-remove i j (x ∷ xs) (n, m) = elim (Bool-cases (i == x)) [
  | inl e ↦ rw e m
  | inr e ↦ rw e (n, NotIn-remove i j xs m)
]

pub removed-NotIn : (i : ℕ) (xs : List ℕ) → Distinct xs → NotIn i (remove i xs)
removed-NotIn i [] d = tt
removed-NotIn i (x ∷ xs) (n, d) = elim (Bool-cases (i == x)) [
  | inl e ↦ rw e (subst (λ j. NotIn j xs) (sym ((==_iff i x).0 e)) n)
  | inr e ↦ rw e ((λ f. let g = (==_iff i x).1 f in cc), removed-NotIn i xs d)
]

pub remove-Distinct : (i : ℕ) (xs : List ℕ) → Distinct xs → Distinct (remove i xs)
remove-Distinct i [] d = tt
remove-Distinct i (x ∷ xs) (n, d) = elim (Bool-cases (i == x)) [
  | inl e ↦ rw e d
  | inr e ↦ rw e (NotIn-remove i x xs n, remove-Distinct i xs d)
]

pub remove-All : (P : ℕ → Type 0) (i : ℕ) (xs : List ℕ) → All P xs → All P (remove i xs)
remove-All P i [] a = tt
remove-All P i (x ∷ xs) (a, r) = elim (Bool-cases (i == x)) [
  | inl e ↦ rw e r
  | inr e ↦ rw e (a, remove-All P i xs r)
]

pub back-NotIn : (i j : ℕ) (xs : List ℕ) → j ≢ i → NotIn j (remove i xs) → NotIn j xs
back-NotIn i j [] d n = tt
back-NotIn i j (x ∷ xs) d n = elim (Bool-cases (i == x)) [
  | inl e ↦ ((λ f. d (f ∙ sym ((==_iff i x).0 e))), rw e at n)
  | inr e ↦ let (a, b) : NotIn j (x ∷ remove i xs) = rw e at n in (a, back-NotIn i j xs d b)
]

-- Queued waiters stay so where another one's status changes.
pub Queued-status :
    (status : ℕ → WaitState) (wakeup : ℕ → Wakeup) (i : ℕ) (s : WaitState) (xs : List ℕ)
    → NotIn i xs
    → All (Queued status wakeup) xs
    → All (Queued (update status i s) wakeup) xs
Queued-status status wakeup i s [] n a = tt
Queued-status status wakeup i s (x ∷ xs) (n, m) ((a, b), c) =
    ((ground arith, b), Queued-status status wakeup i s xs m c)

-- A future that is in no queue is forgotten.
pub forget-Inv :
    (q : WaitQueue) (i : ℕ) → Inv q → NotIn i q.queue → Inv (set_status i WaitState.woken q)
forget-Inv q i v n = record {
  agrees = v.agrees;
  distinct = v.distinct;
  queued = Queued-status q.status q.wakeup i WaitState.woken q.queue n v.queued;
  unqueued = λ j m s. elim (Bool-cases (i == j)) [
    | inl e ↦ let t : WaitState.woken ≡ WaitState.waiting = rw e at s in cc
    | inr e ↦ v.unqueued j m (rw e at s)
  ];
  fresh = λ j s. elim (Bool-cases (i == j)) [
    | inl e ↦ let t : WaitState.woken ≡ WaitState.start = rw e at s in cc
    | inr e ↦ v.fresh j (rw e at s)
  ];
}

pub removed-agrees :
    (i : ℕ) (xs : List ℕ) (w : Word)
    → is_empty xs ≡ not (same_state w.state State.waiting)
    → is_empty (remove i xs)
      ≡ not (
          same_state
            (if is_empty (remove i xs) && same_state w.state State.waiting
              then with_state w State.empty
              else w).state
            State.waiting)
removed-agrees i [] w a = ground arith
removed-agrees i (x ∷ xs) w a = ground arith
