-- ===== src/Mutex/Token.antt =====
-- Who has the right to the data of a mutex: there is one, and it is never lost.
use mathlib.Core.Option.{Option, none, some}
use wasm_kernel.Base.{
  ℕ, ◌<◌, ◌==◌, ◌≡◌, ◌≢◌, ◌⊎◌, refl, ap, inl, inr, true, false, update, arith, Bool-cases, ==_iff,
}
use wasm_kernel.WaitQueue.Queue.{State, Wakeup, WaitState, WaitQueue}
use wasm_kernel.WaitQueue.Inv.{Inv, unwoken}

-- It is stored in the queue's word, with a guard, or on its way to a future that has been woken.
pub data Token : Type 0 where
  stored : Token
  held : Token
  passed : ℕ → Token

abbrev pub to_future : Token → Option ℕ
to_future (passed i) = some i
to_future _ = none

-- Where it is, by the state of the word, the futures and the number of guards.
abbrev pub Placed : Token → State → (ℕ → WaitState) → (ℕ → Wakeup) → ℕ → Type 0
Placed stored s status wakeup guards = (s ≡ State.woken) × (guards ≡ 0)
Placed held s status wakeup guards = (s ≢ State.woken) × (guards ≡ 1)
Placed (passed i) s status wakeup guards =
    (s ≢ State.woken) × (guards ≡ 0) × (status i ≡ WaitState.waiting) × (wakeup i ≡ Wakeup.one)

-- A future that waits has not been woken, or it has the token.
abbrev pub Only : Option ℕ → (ℕ → WaitState) → (ℕ → Wakeup) → Type 0
Only who status wakeup =
    (i : ℕ)
    → status i ≡ WaitState.waiting
    → (unwoken (wakeup i) ≡ true) ⊎ ((wakeup i ≡ Wakeup.one) × (who ≡ some i))

pub record Tokens (q : WaitQueue) (guards : ℕ) : Type 0 where
  pub order : Inv q
  pub open_word : q.word.state ≢ State.closed
  pub counted : (i : ℕ) → q.status i ≡ WaitState.start → q.seen i ≡ q.word.wake_alls
  pub token : Token
  pub placed : Placed token q.word.state q.status q.wakeup guards
  pub only : Only (to_future token) q.status q.wakeup

-- A future's state is changed to one that does not wait.
pub Only-status :
    (who : Option ℕ) (status : ℕ → WaitState) (wakeup : ℕ → Wakeup) (i : ℕ) (s : WaitState)
    → s ≢ WaitState.waiting
    → Only who status wakeup
    → Only who (update status i s) wakeup
Only-status who status wakeup i s n o j e = elim (Bool-cases (i == j)) [
  | inl f ↦ absurd (n (rw f at e))
  | inr f ↦ o j (rw f at e)
]

-- The only future that has the token loses it.
pub Only-took :
    (status : ℕ → WaitState) (wakeup : ℕ → Wakeup) (i : ℕ) (s : WaitState)
    → s ≢ WaitState.waiting
    → Only (some i) status wakeup
    → Only none (update status i s) wakeup
Only-took status wakeup i s n o j e = elim (Bool-cases (i == j)) [
  | inl f ↦ absurd (n (rw f at e))
  | inr f ↦ unwoken_only (o j (rw f at e)) f
]
  where
    unwoken_only :
        (unwoken (wakeup j) ≡ true)
          ⊎ ((wakeup j ≡ Wakeup.one) × (◌≡◌ {A = Option ℕ} (some i) (some j)))
        → (i == j) ≡ false
        → (unwoken (wakeup j) ≡ true)
          ⊎ ((wakeup j ≡ Wakeup.one) × (◌≡◌ {A = Option ℕ} none (some j)))
    unwoken_only (inl a) f = inl a
    unwoken_only (inr (a, b)) f = let k : i ≡ j = cc in let h = (==_iff i j).1 k in cc

-- The place does not depend on futures without the token.
pub Placed-other :
    (t : Token) (s : State) (status status' : ℕ → WaitState) (wakeup wakeup' : ℕ → Wakeup)
    (guards : ℕ)
    → ((j : ℕ)
        → status j ≡ WaitState.waiting
        → wakeup j ≡ Wakeup.one
        → (status' j ≡ WaitState.waiting) × (wakeup' j ≡ Wakeup.one))
    → Placed t s status wakeup guards
    → Placed t s status' wakeup' guards
Placed-other stored s status status' wakeup wakeup' guards same p = p
Placed-other held s status status' wakeup wakeup' guards same p = p
Placed-other (passed i) s status status' wakeup wakeup' guards same (n, g, a, b) =
    let (c, d) = same i a b in (n, g, c, d)

-- The state of the word, among those of a token that is not stored.
pub Placed-state :
    (t : Token) (s s' : State) (status : ℕ → WaitState) (wakeup : ℕ → Wakeup) (guards : ℕ)
    → s ≢ State.woken
    → s' ≢ State.woken
    → Placed t s status wakeup guards
    → Placed t s' status wakeup guards
Placed-state stored s s' status wakeup guards n m (e, g) = absurd (n e)
Placed-state held s s' status wakeup guards n m (e, g) = (m, g)
Placed-state (passed i) s s' status wakeup guards n m (e, g, a, b) = (m, g, a, b)

pub is_stored :
    (t : Token) (s : State) (status : ℕ → WaitState) (wakeup : ℕ → Wakeup) (guards : ℕ)
    → s ≡ State.woken
    → Placed t s status wakeup guards
    → (t ≡ stored) × (guards ≡ 0)
is_stored stored s status wakeup guards e p = (refl, p.1)
is_stored held s status wakeup guards e p = absurd (p.0 e)
is_stored (passed i) s status wakeup guards e p = absurd (p.0 e)

pub is_passed : (t : Token) (i : ℕ) → to_future t ≡ some i → t ≡ passed i
is_passed stored i e = cc
is_passed held i e = cc
is_passed (passed j) i e = let k : j ≡ i = cc in ap passed k

pub is_held :
    (t : Token) (s : State) (status : ℕ → WaitState) (wakeup : ℕ → Wakeup) (guards : ℕ)
    → 0 < guards
    → Placed t s status wakeup guards
    → (t ≡ held) × (guards ≡ 1) × (s ≢ State.woken)
is_held stored s status wakeup guards h p = absurd (omega (arith, p.1))
is_held held s status wakeup guards h p = (refl, p.1, p.0)
is_held (passed i) s status wakeup guards h p = absurd (omega (arith, p.1))
