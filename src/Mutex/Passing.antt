-- ===== src/Mutex/Passing.antt =====
-- What a poll does to the token.
use mathlib.Core.Path.{subst}
use mathlib.Core.Option.{none, some}
use wasm_kernel.Base.{
  ℕ, ◌+◌, ◌==◌, ◌≡◌, ◌≢◌, ◌⊎◌, refl, sym, ap, ◌∙◌, inl, inr, true, false, update, arith, Bool-cases,
  ==_iff,
}
use wasm_kernel.WaitQueue.Queue.{State, Wakeup, WaitState, WaitQueue}
use wasm_kernel.WaitQueue.Ops.{set_status, Polled, pending, ready, ready_closed}
use wasm_kernel.WaitQueue.Inv.{Inv, unwoken}
use wasm_kernel.Mutex.Polling.{Pends, Polls, consumed, notified, enqueued, still}
use wasm_kernel.Mutex.Token.{
  Token, held, passed, to_future, Placed, Only, Tokens, Only-status, Only-took, Placed-other,
  Placed-state, is_passed,
}
use wasm_kernel.Mutex.Given.{not_same, taken-Tokens, nobody_has}

module _ (q : WaitQueue) (guards : ℕ) (v : Tokens q guards) where  -- @
  -- A future that has been woken takes the token.
  pub notified-Tokens :
      (i : ℕ)
      → q.status i ≡ WaitState.waiting
      → q.wakeup i ≡ Wakeup.one
      → Inv (set_status i WaitState.woken q)
      → Tokens (set_status i WaitState.woken q) (guards + 1)
  notified-Tokens i s e o = by_token v.token refl (its_token (v.only i s))
    where
      its_token :
          (unwoken (q.wakeup i) ≡ true) ⊎ ((q.wakeup i ≡ Wakeup.one) × (to_future v.token ≡ some i))
          → v.token ≡ passed i
      its_token (inl a) = let b = ap unwoken e in cc
      its_token (inr (a, b)) = is_passed v.token i b

      by_token :
          (t : Token)
          → v.token ≡ t
          → v.token ≡ passed i
          → Tokens (set_status i WaitState.woken q) (guards + 1)
      by_token t f g =
          let p = subst (λ z. Placed z q.word.state q.status q.wakeup guards) g v.placed in
          record {
            order = o;
            open_word = v.open_word;
            counted = λ j a. elim (Bool-cases (i == j)) [
              | inl b ↦ let d : WaitState.woken ≡ WaitState.start = rw b at a in cc
              | inr b ↦ v.counted j (rw b at a)
            ];
            token = held;
            placed = (p.0, omega (arith, p.1));
            only =
                Only-took q.status q.wakeup i WaitState.woken (λ a. cc)
                  (subst (λ z. Only (to_future z) q.status q.wakeup) g v.only);
          }

  -- A future goes on waiting.
  pending-Tokens :
      (i : ℕ) (s : State) (q' : WaitQueue)
      → Pends i s q q'
      → (s ≢ State.closed)
      → (q.status i ≡ WaitState.waiting → q.wakeup i ≢ Wakeup.one)
      → Placed v.token s q.status q.wakeup guards
      → Inv q'
      → Tokens q' guards
  pending-Tokens i s q' p c n h o = record {
    order = o;
    open_word = λ e. c (sym p.state ∙ e);
    counted = λ j e.
        let f : update q.status i WaitState.waiting j ≡ WaitState.start =
          ap (λ (z : ℕ → WaitState). z j) (sym p.status) ∙ e in
        ap (λ (z : ℕ → ℕ). z j) p.seen
        ∙ (v.counted j (started j f (Bool-cases (i == j))) ∙ sym p.count);
    token = v.token;
    placed =
        subst (λ z. Placed v.token z q'.status q'.wakeup guards) (sym p.state)
          (Placed-other v.token s q.status q'.status q.wakeup q'.wakeup guards
            (λ j a b.
              let d : j ≢ i = λ e. n (ap q.status (sym e) ∙ a) (ap q.wakeup (sym e) ∙ b) in
              (
                ap (λ (z : ℕ → WaitState). z j) p.status ∙ rw (not_same i j (λ e. d (sym e))) a,
                p.others j d ∙ b,
              ))
            h);
    only = λ j e. waits j e (Bool-cases (i == j));
  }
    where
      started :
          (j : ℕ)
          → update q.status i WaitState.waiting j ≡ WaitState.start
          → ((i == j) ≡ true) ⊎ ((i == j) ≡ false)
          → q.status j ≡ WaitState.start
      started j f (inl g) = let d : WaitState.waiting ≡ WaitState.start = rw g at f in cc
      started j f (inr g) = rw g at f

      waits :
          (j : ℕ)
          → q'.status j ≡ WaitState.waiting
          → ((i == j) ≡ true) ⊎ ((i == j) ≡ false)
          → (unwoken (q'.wakeup j) ≡ true)
            ⊎ ((q'.wakeup j ≡ Wakeup.one) × (to_future v.token ≡ some j))
      waits j e (inl g) =
          inl (ap (λ (z : ℕ). unwoken (q'.wakeup z)) (sym ((==_iff i j).0 g)) ∙ p.own)
      waits j e (inr g) =
          let f : update q.status i WaitState.waiting j ≡ WaitState.waiting =
            ap (λ (z : ℕ → WaitState). z j) (sym p.status) ∙ e in
          let d : j ≢ i = λ k. let m = (==_iff i j).1 (sym k) in cc in
          subst (λ z. (unwoken z ≡ true) ⊎ ((z ≡ Wakeup.one) × (to_future v.token ≡ some j)))
            (sym (p.others j d)) (v.only j (rw g at f))

abbrev pub gains : ℕ → Polled → ℕ
gains guards ready = guards + 1
gains guards pending = guards
gains guards ready_closed = guards

-- A poll that ends gives a guard.
pub poll-Tokens :
    (q : WaitQueue) (guards : ℕ)
    → Tokens q guards
    → (i : ℕ) (q' : WaitQueue) (r : Polled) → Polls i q q' r
    → Inv q'
    → Tokens q' (gains guards r)
poll-Tokens q guards v i q' r (consumed s e f) o =
    subst (λ z. Tokens z (guards + 1)) (sym f)
      (taken-Tokens q guards v (update q.status i WaitState.woken) e
        (λ j g. elim (Bool-cases (i == j)) [
          | inl h ↦ let d : WaitState.woken ≡ WaitState.start = rw h at g in cc
          | inr h ↦ rw h at g
        ])
        (Only-status none q.status q.wakeup i WaitState.woken (λ g. cc) (nobody_has q guards v e))
        (subst Inv f o))
poll-Tokens q guards v i q' r (notified s e f) o =
    subst (λ z. Tokens z (guards + 1)) (sym f) (notified-Tokens q guards v i s e (subst Inv f o))
poll-Tokens q guards v i q' r (enqueued s n p) o =
    pending-Tokens q guards v i State.waiting q' p (λ e. cc) (λ e f. cc)
      (Placed-state v.token q.word.state State.waiting q.status q.wakeup guards n (λ e. cc)
        v.placed)
      o
poll-Tokens q guards v i q' r (still s u p) o =
    pending-Tokens q guards v i q.word.state q' p v.open_word (λ e f. let g = ap unwoken f in cc)
      v.placed o
