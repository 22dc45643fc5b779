-- ===== src/WaitQueue/Notified.antt =====
-- Waking one waiter under the lock.
use mathlib.Core.Path.{subst}
use mathlib.Core.Option.{Option, none, some}
use wasm_kernel.Base.{
  NotIn, Distinct, ℕ, ◌==◌, ◌≡◌, refl, sym, ap, inl, inr, Bool, true, false, not, if◌then◌else◌,
  List, [], ◌∷◌, All, update, returned, Yields, arith, Bool-cases, ==_iff,
}
use wasm_kernel.WaitQueue.Queue.{
  State, Word, Wakeup, WaitState, WaitQueue, same_state, with_state, is_empty, ◌=word=◌,
}
use wasm_kernel.WaitQueue.Ops.{wake_next, wake_locked}
use wasm_kernel.WaitQueue.Inv.{Inv, Queued, unwoken, waker_of}

-- What a notification does: the next waiter has it, and its waker is returned; or it is stored.
abbrev pub Notifies : List ℕ → WaitQueue → WaitQueue × Option ℕ → Type 0
Notifies [] q (q', waker) =
    (q' ≡ record q { word = with_state q.word State.woken }) × (waker ≡ none)
Notifies (i ∷ rest) q (q', waker) =
    (q' ≡ record q {
      word = with_state q.word (if is_empty rest then State.empty else State.waiting);
      queue = rest;
      wakeup = update q.wakeup i Wakeup.one;
    })
    × (waker ≡ waker_of (q.wakeup i))

pub Queued-update :
    (status : ℕ → WaitState) (wakeup : ℕ → Wakeup) (i : ℕ) (w : Wakeup) (xs : List ℕ)
    → NotIn i xs
    → All (Queued status wakeup) xs
    → All (Queued status (update wakeup i w)) xs
Queued-update status wakeup i w [] n h = tt
Queued-update status wakeup i w (x ∷ xs) (n, m) ((a, b), c) =
    ((a, ground arith), Queued-update status wakeup i w xs m c)

stored-Inv :
    (q : WaitQueue) → Inv q → q.queue ≡ [] → Inv (record q { word = with_state q.word State.woken })
stored-Inv q v e = record {
  agrees = ap is_empty e;
  distinct = v.distinct;
  queued = v.queued;
  unqueued = v.unqueued;
  fresh = v.fresh;
}

-- The next waiter is taken off the queue.
module _ (q : WaitQueue) (i : ℕ) (rest : List ℕ) (w : Wakeup) (s : State) (v : Inv q)
    (e : q.queue ≡ i ∷ rest) (u : unwoken w ≡ false) where
  next-Distinct : Distinct (i ∷ rest)
  next-Distinct = subst Distinct e v.distinct

  next-Queued : All (Queued q.status q.wakeup) (i ∷ rest)
  next-Queued = subst (λ l. All (Queued q.status q.wakeup) l) e v.queued

  next_unqueued :
      (j : ℕ)
      → NotIn j rest
      → q.status j ≡ WaitState.waiting
      → unwoken (update q.wakeup i w j) ≡ false
  next_unqueued j n t = elim (Bool-cases (i == j)) [
    | inl y ↦ rw y u
    | inr y ↦ rw y (
        v.unqueued j
          (subst (λ l. NotIn j l) (sym e) ((λ f. let g = (==_iff i j).1 (sym f) in cc), n)) t)
  ]

  next_fresh : (j : ℕ) → q.status j ≡ WaitState.start → update q.wakeup i w j ≡ Wakeup.empty
  next_fresh j t = elim (Bool-cases (i == j)) [
    | inl y ↦ let f = (==_iff i j).0 y in let g = ap q.status f in let h = next-Queued.0.0 in cc
    | inr y ↦ rw y (v.fresh j t)
  ]

  pub taken-Inv :
      is_empty rest ≡ not (same_state s State.waiting)
      → Inv (record q { word = with_state q.word s; queue = rest; wakeup = update q.wakeup i w })
  taken-Inv a = record {
    agrees = a;
    distinct = next-Distinct.1;
    queued = Queued-update q.status q.wakeup i w rest next-Distinct.0 next-Queued.1;
    unqueued = next_unqueued;
    fresh = next_fresh;
  }

-- The queue after its next waiter is taken off.
abbrev pub after_next : WaitQueue → ℕ → List ℕ → WaitQueue
after_next q i rest = record q {
  word = with_state q.word (if is_empty rest then State.empty else State.waiting);
  queue = rest;
  wakeup = update q.wakeup i Wakeup.one;
}

next_eq :
    (q : WaitQueue) (i : ℕ) (rest : List ℕ) (x : Wakeup)
    → q.wakeup i ≡ x
    → unwoken x ≡ true
    → q.word ≡ with_state q.word State.waiting
    → wake_next q.word (i ∷ rest) q ≡ returned (after_next q i rest, waker_of x)
unfolding wake_next
next_eq q i [] Wakeup.empty e u t = rw e
next_eq q i [] (Wakeup.waiting w) e u t = rw e
next_eq q i (j ∷ rest) Wakeup.empty e u t = rw e (
    ap
      (λ (word : Word).
        returned
          (record q { word = word; queue = j ∷ rest; wakeup = update q.wakeup i Wakeup.one }, none))
      t)
next_eq q i (j ∷ rest) (Wakeup.waiting w) e u t = rw e (
    ap
      (λ (word : Word).
        returned (
          record q { word = word; queue = j ∷ rest; wakeup = update q.wakeup i Wakeup.one },
          some w,
        ))
      t)
next_eq q i rest Wakeup.one e u t = cc
next_eq q i rest Wakeup.all e u t = cc
next_eq q i rest Wakeup.closed e u t = cc

pub waiting-eq : (s : State) → same_state s State.waiting ≡ true → s ≡ State.waiting
waiting-eq State.waiting h = refl
waiting-eq State.empty h = cc
waiting-eq State.woken h = cc
waiting-eq State.closed h = cc

is_waiting :
    (q : WaitQueue) (i : ℕ) (rest : List ℕ)
    → Inv q
    → q.queue ≡ i ∷ rest
    → same_state q.word.state State.waiting ≡ true
is_waiting q i rest v e = let a = v.agrees in let b = ap is_empty e in ground arith

not_waiting : (q : WaitQueue) → Inv q → q.queue ≡ [] → same_state q.word.state State.waiting ≡ false
not_waiting q v e = let a = v.agrees in let b = ap is_empty e in ground arith

-- Under the lock, with the word as it was loaded.
locked_next :
    (debug : Bool) (q : WaitQueue) (i : ℕ) (rest : List ℕ)
    → Inv q
    → q.queue ≡ i ∷ rest
    → wake_locked debug q.word q ≡ returned (after_next q i rest, waker_of (q.wakeup i))
unfolding wake_locked
locked_next debug q i rest v e =
    let t = is_waiting q i rest v e in
    let w : q.word ≡ with_state q.word State.waiting =
      ap (λ (s : State). with_state q.word s) (waiting-eq q.word.state t) in
    let u = (next-Queued q i rest Wakeup.one State.empty v e refl).0.1 in
    rw (t, e) (next_eq q i rest (q.wakeup i) refl u w)

pub same_word : (w : Word) → (w =word= w) ≡ true
same_word w = ground arith

locked_store :
    (debug : Bool) (q : WaitQueue)
    → Inv q
    → q.queue ≡ []
    → wake_locked debug q.word q
      ≡ returned (record q { word = with_state q.word State.woken }, none)
unfolding wake_locked
locked_store debug q v e = rw (not_waiting q v e, same_word q.word)

-- By the lock or without it: what `wake` does to an open queue.
pub wake_locked-Notifies :
    (debug : Bool) (q : WaitQueue)
    → Inv q
    → Yields (wake_locked debug q.word q) (λ out. Notifies q.queue q out × Inv out.0)
wake_locked-Notifies debug q v = queue_cases q.queue refl
  where
    queue_cases :
        (l : List ℕ)
        → q.queue ≡ l
        → Yields (wake_locked debug q.word q) (λ out. Notifies q.queue q out × Inv out.0)
    queue_cases [] e = rw (locked_store debug q v e) (
      subst (λ l. Notifies l q (record q { word = with_state q.word State.woken }, none)) (sym e)
          (refl, refl),
      stored-Inv q v e,
    )
    queue_cases (i ∷ rest) e = rw (locked_next debug q i rest v e) (
      subst (λ l. Notifies l q (after_next q i rest, waker_of (q.wakeup i))) (sym e) (refl, refl),
      taken-Inv q i rest Wakeup.one (if is_empty rest then State.empty else State.waiting) v e refl
          (ground arith),
    )
