-- ===== src/Mutex/Given.antt =====
-- A guard's token, and the token of a future that ends without it.
use mathlib.Core.Path.{subst}
use mathlib.Core.Option.{Option, none, some}
use wasm_kernel.Base.{
  ℕ, ◌+◌, ◌-◌, ◌<◌, ◌==◌, ◌≡◌, ◌≢◌, ◌⊎◌, refl, sym, ap, ◌∙◌, inl, inr, false, update, if◌then◌else◌,
  List, [], ◌∷◌, All, arith, Bool-cases, ==_iff,
}
use wasm_kernel.WaitQueue.Queue.{State, Word, Wakeup, WaitState, WaitQueue, with_state, is_empty}
use wasm_kernel.WaitQueue.Ops.{wait, set_status}
use wasm_kernel.WaitQueue.Inv.{Inv, Queued}
use wasm_kernel.WaitQueue.Notified.{Notifies}
use wasm_kernel.WaitQueue.Enqueued.{wait-Inv}
use wasm_kernel.Mutex.Token.{
  stored, held, passed, to_future, Placed, Only, Tokens, Only-status, Placed-other, Placed-state,
  is_stored, is_held,
}

pub not_same : (i j : ℕ) → i ≢ j → (i == j) ≡ false
not_same i j n = ground arith

-- A future that has the token is another one than `i`.
keeps_status :
    (status : ℕ → WaitState) (wakeup : ℕ → Wakeup) (i : ℕ) (s : WaitState)
    → (status i ≡ WaitState.waiting → wakeup i ≢ Wakeup.one)
    → (j : ℕ) → status j ≡ WaitState.waiting
    → wakeup j ≡ Wakeup.one
    → (update status i s j ≡ WaitState.waiting) × (wakeup j ≡ Wakeup.one)
keeps_status status wakeup i s n j a b =
    (rw (not_same i j (λ e. n (ap status e ∙ a) (ap wakeup e ∙ b))) a, b)

-- A queue that a waiter has left is neither woken nor closed.
left_state :
    (rest : List ℕ)
    → ((if is_empty rest then State.empty else State.waiting) ≢ State.woken)
      × ((if is_empty rest then State.empty else State.waiting) ≢ State.closed)
left_state [] = (λ e. cc, λ e. cc)
left_state (x ∷ rest) = (λ e. cc, λ e. cc)

module _ (q : WaitQueue) (guards : ℕ) (v : Tokens q guards) where
  pub make-Tokens : (i : ℕ) → q.status i ≡ WaitState.woken → Tokens (wait i q) guards
  unfolding wait
  make-Tokens i e = record {
    order = wait-Inv i q v.order (λ f. cc);
    open_word = v.open_word;
    counted = λ j f. elim (Bool-cases (i == j)) [
      | inl g ↦ rw g refl
      | inr g ↦ rw g (v.counted j (rw g at f))
    ];
    token = v.token;
    placed =
        Placed-other v.token q.word.state q.status (update q.status i WaitState.start) q.wakeup
          (update q.wakeup i Wakeup.empty) guards
          (λ j a b. let n = not_same i j (λ f. let g = ap q.status f in cc) in (rw n a, rw n b))
          v.placed;
    only = λ j f. elim (Bool-cases (i == j)) [
      | inl g ↦ let h : WaitState.start ≡ WaitState.waiting = rw g at f in cc
      | inr g ↦ rw g (v.only j (rw g at f))
    ];
  }

  -- A future that is not notified ends.
  pub forget-Tokens :
      (i : ℕ) (w : Word) (queue : List ℕ)
      → (q.status i ≡ WaitState.waiting → q.wakeup i ≢ Wakeup.one)
      → (w.wake_alls ≡ q.word.wake_alls)
      → ((w.state ≡ q.word.state) ⊎ ((q.word.state ≡ State.waiting) × (w.state ≡ State.empty)))
      → Inv (set_status i WaitState.woken (record q { word = w; queue = queue }))
      → Tokens (set_status i WaitState.woken (record q { word = w; queue = queue })) guards
  forget-Tokens i w queue n c s o = record {
    order = o;
    open_word = still_open s;
    counted = λ j e. elim (Bool-cases (i == j)) [
      | inl g ↦ let h : WaitState.woken ≡ WaitState.start = rw g at e in cc
      | inr g ↦ v.counted j (rw g at e) ∙ sym c
    ];
    token = v.token;
    placed =
        Placed-other v.token w.state q.status (update q.status i WaitState.woken) q.wakeup q.wakeup
          guards (keeps_status q.status q.wakeup i WaitState.woken n) (still_placed s);
    only = Only-status (to_future v.token) q.status q.wakeup i WaitState.woken (λ e. cc) v.only;
  }
    where
      still_open :
          (w.state ≡ q.word.state) ⊎ ((q.word.state ≡ State.waiting) × (w.state ≡ State.empty))
          → w.state ≢ State.closed
      still_open (inl e) f = v.open_word (sym e ∙ f)
      still_open (inr (e, g)) f = let h : State.empty ≡ State.closed = sym g ∙ f in cc

      still_placed :
          (w.state ≡ q.word.state) ⊎ ((q.word.state ≡ State.waiting) × (w.state ≡ State.empty))
          → Placed v.token w.state q.status q.wakeup guards
      still_placed (inl e) = subst (λ z. Placed v.token z q.status q.wakeup guards) (sym e) v.placed
      still_placed (inr (e, g)) =
          Placed-state v.token q.word.state w.state q.status q.wakeup guards
            (λ f. let h : State.waiting ≡ State.woken = sym e ∙ f in cc)
            (λ f. let h : State.empty ≡ State.woken = sym g ∙ f in cc) v.placed

  -- The stored token is taken.
  pub taken-Tokens :
      (status : ℕ → WaitState)
      → q.word.state ≡ State.woken
      → ((i : ℕ) → status i ≡ WaitState.start → q.status i ≡ WaitState.start)
      → Only none status q.wakeup
      → Inv (record q { word = with_state q.word State.empty; status = status })
      → Tokens (record q { word = with_state q.word State.empty; status = status }) (guards + 1)
  taken-Tokens status s c only o =
      let (t, g) = is_stored v.token q.word.state q.status q.wakeup guards s v.placed in
      record {
        order = o;
        open_word = λ e. cc;
        counted = λ i e. v.counted i (c i e);
        token = held;
        placed = ((λ e. cc), omega (arith, g));
        only = only;
      }

  pub nobody_has : q.word.state ≡ State.woken → Only none q.status q.wakeup
  nobody_has s =
      let (t, g) = is_stored v.token q.word.state q.status q.wakeup guards s v.placed in
      subst (λ z. Only (to_future z) q.status q.wakeup) t v.only

  only_guard : 0 < guards → (v.token ≡ held) × (guards ≡ 1) × (q.word.state ≢ State.woken)
  only_guard h = is_held v.token q.word.state q.status q.wakeup guards h v.placed

  nobody_else : 0 < guards → Only none q.status q.wakeup
  nobody_else h = subst (λ z. Only (to_future z) q.status q.wakeup) (only_guard h).0 v.only

  still_counted :
      (q' q1 : WaitQueue)
      → q' ≡ q1
      → ((i : ℕ) → q1.status i ≡ WaitState.start → q1.seen i ≡ q1.word.wake_alls)
      → (i : ℕ) → q'.status i ≡ WaitState.start
      → q'.seen i ≡ q'.word.wake_alls
  still_counted q' q1 f c =
      subst
        (λ (z : WaitQueue). (i : ℕ) → z.status i ≡ WaitState.start → z.seen i ≡ z.word.wake_alls)
        (sym f) c

  -- With no waiter, a guard's token is stored.
  stored-Tokens :
      (q' : WaitQueue) (w : Option ℕ)
      → 0 < guards
      → Notifies [] q (q', w)
      → Inv q'
      → Tokens q' (guards - 1)
  stored-Tokens q' w h (f, g) o = record {
    order = o;
    open_word = λ k. let m = ap (λ (z : WaitQueue). z.word.state) f in cc;
    counted = still_counted q' _ f v.counted;
    token = stored;
    placed = (ap (λ (z : WaitQueue). z.word.state) f, omega (arith, (only_guard h).1));
    only = subst (λ (z : WaitQueue). Only none z.status z.wakeup) (sym f) (nobody_else h);
  }

  -- Else it goes to the one that is next.
  passed-Only : (i : ℕ) → 0 < guards → Only (some i) q.status (update q.wakeup i Wakeup.one)
  passed-Only i h j f = elim (Bool-cases (i == j)) [
    | inl g ↦ inr (rw g refl, ap (λ (z : ℕ). some z) ((==_iff i j).0 g))
    | inr g ↦ rw g (elim (nobody_else h j f) [ inl a ↦ inl a | inr (a, b) ↦ cc ])
  ]

  passed-Tokens :
      (i : ℕ) (rest : List ℕ) (q' : WaitQueue) (w : Option ℕ)
      → 0 < guards
      → q.status i ≡ WaitState.waiting
      → Notifies (i ∷ rest) q (q', w)
      → Inv q'
      → Tokens q' (guards - 1)
  passed-Tokens i rest q' w h waits (f, g) o =
      let word = sym (ap (λ (z : WaitQueue). z.word.state) f) in
      record {
        order = o;
        open_word = λ k. (left_state rest).1 (word ∙ k);
        counted = still_counted q' _ f v.counted;
        token = passed i;
        placed = (
          (λ k. (left_state rest).0 (word ∙ k)),
          omega (arith, (only_guard h).1),
          subst (λ (z : WaitQueue). z.status i ≡ WaitState.waiting) (sym f) waits,
          subst (λ (z : WaitQueue). z.wakeup i ≡ Wakeup.one) (sym f) (ground arith),
        );
        only = subst (λ (z : WaitQueue). Only (some i) z.status z.wakeup) (sym f) (passed-Only i h);
      }

  pub wake-Tokens :
      (q' : WaitQueue) (w : Option ℕ)
      → 0 < guards
      → Notifies q.queue q (q', w)
      → Inv q'
      → Tokens q' (guards - 1)
  wake-Tokens q' w h n o = by_queue q.queue refl n
    where
      by_queue : (l : List ℕ) → q.queue ≡ l → Notifies l q (q', w) → Tokens q' (guards - 1)
      by_queue [] e m = stored-Tokens q' w h m o
      by_queue (i ∷ rest) e m =
          passed-Tokens i rest q' w h
            (subst (λ l. All (Queued q.status q.wakeup) l) e v.order.queued).0.0 m o
