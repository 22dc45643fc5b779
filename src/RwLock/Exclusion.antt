-- ===== src/RwLock/Exclusion.antt =====
-- Who has the lock, and who gets it next.
use mathlib.Core.Path.{subst}
use wasm_kernel.Base.{
  NotIn, All, ℕ, ◌+◌, ◌≤◌, ◌<◌, ◌==◌, ◌≡◌, ◌≢◌, ◌⊎◌, ◌↔◌, refl, ap, inl, inr, Bool, true,
  Bool-cases, ==_iff, List, [], ◌∷◌, arith, Yields, Yields-imp,
}
use wasm_kernel.Semaphore.Queue.{Semaphore}
use wasm_kernel.Semaphore.Fill.{Waits, deficit}
use wasm_kernel.Semaphore.Invariant.{Open, Returns}
use wasm_kernel.Semaphore.Queued.{Within, Returns-imp, Within-Waits}
use wasm_kernel.RwLock.Lock.{
  Kind, max_readers, permits_of, RwLock, start, resume, drop_future, drop_guard, try_lock, guards,
}
use wasm_kernel.RwLock.Sharing.{deficit_le}
use wasm_kernel.RwLock.Places.{Places}
use wasm_kernel.RwLock.Balance.{asks, held, Shared, LockInv}
use wasm_kernel.RwLock.Lock.{Reach}
use wasm_kernel.RwLock.Kept.{start-Shared}
use wasm_kernel.RwLock.Ended.{
  kind_le, deficit_empty, drop_guard-Shared, drop_future-Shared, try_lock-Shared,
}
use wasm_kernel.RwLock.Resumed.{resume-Shared}
use wasm_kernel.RwLock.Reached.{Exclusive, Shared-Exclusive, Reach-Shared}

-- A future is served, or all still need permits.
any_served :
    (remaining : ℕ → ℕ) (l : List ℕ)
    → ((i : ℕ) × Within i l × (remaining i ≡ 0)) ⊎ Waits remaining l
any_served remaining [] = inr tt
any_served remaining (i ∷ l) = elim (Bool-cases (remaining i == 0)) [
  | inl e ↦ inl (i, inl refl, (==_iff (remaining i) 0).0 e)
  | inr e ↦ elim (any_served remaining l) [
    | inl (j, w, z) ↦ inl (j, inr (λ f. let g = ap remaining f in ground arith, w), z)
    | inr w ↦ inr (ground arith, w)
  ]
]

Waits-Within :
    (remaining : ℕ → ℕ) (l : List ℕ) (i : ℕ) → Waits remaining l → Within i l → 0 < remaining i
Waits-Within remaining l i w h = Within-Waits i remaining l w h

not_both : (i : ℕ) (l : List ℕ) → Within i l → NotIn i l → ⊥
not_both i [] w n = w
not_both i (j ∷ l) (inl e) n = n.0 e
not_both i (j ∷ l) (inr (m, w)) n = not_both i l w n.1

is_absent : (i : ℕ) (l : List ℕ) → (Within i l → ⊥) → NotIn i l
is_absent i [] h = tt
is_absent i (j ∷ l) h = (
  λ e. h (inl e),
  is_absent i l (λ w. elim (Bool-cases (i == j)) [
    | inl e ↦ h (inl ((==_iff i j).0 e))
    | inr e ↦ h (inr (ground arith, w))
  ]),
)

deficit_same : (f g : ℕ → ℕ) (l : List ℕ) → All (λ j. f j ≡ g j) l → deficit f l ≡ deficit g l
unfolding deficit
deficit_same f g [] a = refl
deficit_same f g (i ∷ l) a = let b = deficit_same f g l a.1 in omega (arith, a.0, b)

none_left : {i : ℕ} {queue : List ℕ} (s : Semaphore) → s.queue ≡ i ∷ queue → Open s → s.permits ≡ 0
none_left s e o = elim (Bool-cases (s.permits == 0)) [
  | inl g ↦ (==_iff s.permits 0).0 g
  | inr g ↦ let f = o.idle (ground arith) in cc
]

-- With no guards, not all futures can need permits.
some_served :
    (s : Semaphore) (pending : List ℕ) (kind : ℕ → Kind) (i : ℕ) (queue : List ℕ)
    → Shared s 0 pending kind
    → s.queue ≡ i ∷ queue
    → Waits s.remaining pending
    → ⊥
unfolding deficit
some_served s pending kind i queue v e w =
    let d = deficit_le s.queue pending (asks kind) (asks kind) v.distinct inside (le s.queue) in
    let same = deficit_same s.remaining (asks kind) queue (rw e at v.places.untouched) in
    let first : 0 < s.remaining i = (rw e at v.opened.waits).0 in
    let most = kind_le (kind i) in
    let empty = none_left s e v.opened in
    let d' : deficit (asks kind) pending ≤ asks kind i + deficit (asks kind) queue = rw e at d in
    let b' : s.permits + 0 + deficit (asks kind) pending
        ≡ max_readers + (s.remaining i + deficit s.remaining queue) =
      rw e at v.balance in
    omega (arith, d', same, first, most, empty, b')
  where
    le : (l : List ℕ) → All (λ j. asks kind j ≤ asks kind j) l
    le [] = tt
    le (j ∷ l) = (omega arith, le l)

    inside : (j : ℕ) → NotIn j s.queue → NotIn j pending
    inside j n = is_absent j pending (λ h. elim (v.places.stands j h) [
      | inl a ↦ not_both j s.queue a n
      | inr (a, z) ↦ let g = Waits-Within s.remaining pending j w h in omega (arith, g, z)
    ])

-- Nor can they with an empty queue.
none_queued :
    (s : Semaphore) (pending : List ℕ) (kind : ℕ → Kind)
    → pending ≢ []
    → s.queue ≡ []
    → Waits s.remaining pending
    → Places s.queue s.remaining pending (asks kind)
    → ⊥
none_queued s [] kind n e w v = n refl
none_queued s (i ∷ pending) kind n e w v = elim (v.stands i (inl refl)) [
  | inl a ↦ (rw e at a)
  | inr (a, z) ↦ omega (arith, w.0, z)
]

-- The next poll of `i` gives its guard.
abbrev pub Next : Bool → RwLock → ℕ → Type 0
Next debug l i =
    Within i l.pending × ((cx : ℕ) → Returns (resume debug i cx l) (λ (l', got, woken). got ≡ true))

some_guard :
    (debug : Bool) (l : RwLock) → LockInv l → held l ≡ 0 → l.pending ≢ [] → (i : ℕ) × Next debug l i
some_guard debug l v z n = elim (any_served l.sem.remaining l.pending) [
  | inl (i, w, e) ↦ (
    i,
    (
      w,
      λ cx.
          Returns-imp (resume debug i cx l) (λ (l', got, woken) (a, b). b.1 e)
            (resume-Shared debug i cx l v w),
    ),
  )
  | inr w ↦ absurd (all_wait l.sem.queue refl w)
]
  where
    all_wait : (queue : List ℕ) → l.sem.queue ≡ queue → Waits l.sem.remaining l.pending → ⊥
    all_wait [] e w = none_queued l.sem l.pending l.kind n e w v.places
    all_wait (i ∷ queue) e w =
        some_served l.sem l.pending l.kind i queue
          (subst (λ h. Shared l.sem h l.pending l.kind) z v) e w

free_lock :
    (k : Kind) (l : RwLock)
    → LockInv l
    → held l ≡ 0
    → l.pending ≡ []
    → Yields (try_lock k l) (λ (l', got). got ≡ true)
free_lock k l v z e =
    let b = v.balance in
    Yields-imp (λ (l', got). LockInv l' × ((got ≡ true) ↔ (permits_of k ≤ l.sem.permits)))
      (λ (l', got). got ≡ true) (try_lock k l)
      (λ (l', got) (a, c).
        c.1 (omega (arith, kind_le k, deficit_empty (asks l.kind) l.pending e, b, z)))
      (try_lock-Shared k l v)

-- Readers and writers exclude each other, and the lock is never lost, in either build: in every state
-- that operations on a new lock reach, one after another, there is one writer at most, and no reader
-- beside it. Starting to read or to write, polling or dropping a future that is pending, and
-- dropping a guard return in time, `try_read` and `try_write` do not panic, and each leaves it so.
-- If there are no guards, an attempt of either kind succeeds where no future is pending, and else
-- the next poll of some future that is pending gives its guard.
pub one_writer :
    (debug : Bool) (l : RwLock)
    → Reach debug l
    → Exclusive l
      × ((i : ℕ) (k : Kind) (cx : ℕ)
          → NotIn i l.pending
          → Returns (start debug i k cx l) (λ (l', got, woken). Exclusive l'))
      × ((i cx : ℕ)
          → Within i l.pending
          → Returns (resume debug i cx l) (λ (l', got, woken). Exclusive l'))
      × ((i : ℕ)
          → Within i l.pending
          → Returns (drop_future debug i l) (λ (l', woken). Exclusive l'))
      × ((k : Kind) → 0 < guards k l → Returns (drop_guard debug k l) (λ (l', woken). Exclusive l'))
      × ((k : Kind) → Yields (try_lock k l) (λ (l', got). Exclusive l'))
      × (held l ≡ 0 → (k : Kind) → l.pending ≡ [] → Yields (try_lock k l) (λ (l', got). got ≡ true))
      × (held l ≡ 0 → l.pending ≢ [] → (i : ℕ) × Next debug l i)
one_writer debug l r =
    let v = Reach-Shared debug l r in
    (
      Shared-Exclusive l v,
      λ i k cx n.
          Returns-imp (start debug i k cx l) (λ (l', got, woken) a. Shared-Exclusive l' a)
            (start-Shared debug i k cx l v n),
      λ i cx w.
          Returns-imp (resume debug i cx l) (λ (l', got, woken) a. Shared-Exclusive l' a.0)
            (resume-Shared debug i cx l v w),
      λ i w.
          Returns-imp (drop_future debug i l) (λ (l', woken) a. Shared-Exclusive l' a)
            (drop_future-Shared debug i l v w),
      λ k h.
          Returns-imp (drop_guard debug k l) (λ (l', woken) a. Shared-Exclusive l' a)
            (drop_guard-Shared debug k l v h),
      λ k.
          Yields-imp (λ (l', got). LockInv l' × ((got ≡ true) ↔ (permits_of k ≤ l.sem.permits)))
            (λ (l', got). Exclusive l') (try_lock k l) (λ (l', got) (a, b). Shared-Exclusive l' a)
            (try_lock-Shared k l v),
      λ z k e. free_lock k l v z e,
      λ z n. some_guard debug l v z n,
    )
