-- ===== src/WaitCell/Moves.antt =====
-- Each step of a thread keeps the owner of the waker.
use mathlib.Core.Path.{subst}
use mathlib.Core.Option.{Option, none}
use wasm_kernel.Base.{
  ℕ, ◌≡◌, ◌⊎◌, inl, inr, refl, sym, ap, ◌∙◌, List, Bool, true, false, returned, update, arith,
}
use wasm_kernel.WaitCell.State.{
  State, waiting, register, PollResult, begin_poll, unwind, mark, may_take,
}
use wasm_kernel.WaitCell.Threads.{
  Phase, Cell, idle, clearing, registering, stored, failed, unwinding, taking, releasing, Step,
}
use wasm_kernel.WaitCell.Owner.{outside, polling, place, emptied, Owns, Owner}
use wasm_kernel.WaitCell.Inside.{
  all-outside, all-outside_owner, as-poller, as-waker, differ, other-Owns, other-place, own-update,
  update-same,
}

-- A word that is changed by a thread outside: the owner's bits stay.
abbrev pub Keeps : State → State → Type 0
Keeps s s' =
    (s'.registering ≡ s.registering)
    × (s.waking ≡ true → s'.waking ≡ true)
    × (s'.waking ≡ true → (s.waking ≡ true) ⊎ (s'.closed ≡ true) ⊎ (s.registering ≡ true))
    × (s.closed ≡ true → s'.closed ≡ true)
    × (s ≡ waiting → s' ≡ waiting)

clear-Keeps : (s : State) → Keeps s (record s { woken = false })
clear-Keeps s = ground arith

outside-Owner :
    (t : Cell) (i : ℕ) (p : Phase) (s : State)
    → place (t.phase i) ≡ outside
    → place p ≡ outside
    → Keeps t.state s
    → Owner t
    → Owner (record t { state = s; phase = update t.phase i p })
outside-Owner t i p s a b ks (Owner.free (r, w, k, o)) =
    Owner.free
      (ground arith, λ h. ground (arith, w), ground arith, all-outside t i i p s t.woken b o)
outside-Owner t i p s a b ks (Owner.poller k r q o) =
    let n = differ t i k a (λ e. cc) in
    Owner.poller k (ks.0 ∙ r) (other-place t i k p s t.woken n ∙ q)
      (other-Owns t i k p s t.woken b n o)
outside-Owner t i p s a b ks (Owner.waker k r w q o) =
    let n = differ t i k a (λ e. cc) in
    Owner.waker k (ks.0 ∙ r) (ks.1 w) (other-place t i k p s t.woken n ∙ q)
      (other-Owns t i k p s t.woken b n o)

register-waiting : (s : State) → begin_poll s ≡ register → s ≡ waiting
unfolding begin_poll
register-waiting s h = ground arith

leave-Keeps : (close : Bool) (s : State) → may_take s ≡ false → Keeps s (mark close s)
unfolding may_take mark
leave-Keeps close s h = ground arith

unwind-state :
    (a s s' : State) (r : PollResult)
    → unwind false a s ≡ returned (s', r)
    → s' ≡ record waiting { closed = s.closed }
unfolding unwind
unwind-state a s s' r h = ground arith

may_take-free : (s : State) → may_take s ≡ true → (s.registering ≡ false) × (s.waking ≡ false)
unfolding may_take
may_take-free s h = ground arith

-- A thread comes in where nobody owns the waker.
enter-Owns :
    (t t' : Cell) (i : ℕ) (p : Phase)
    → Owner t
    → t.state.registering ≡ false
    → t.state.waking ≡ false
    → emptied p ≡ false
    → t'.phase ≡ update t.phase i p
    → Owns i t'
enter-Owns t t' i p (Owner.free (r, w, k, o)) a b c e =
    rw e (λ h. absurd (ground arith), own-update t.phase i p (λ j n. o j))
enter-Owns t t' i p (Owner.poller k r q o) a b c e = cc
enter-Owns t t' i p (Owner.waker k r w q o) a b c e = cc

-- The owner goes on.
stay-Owns :
    (t t' : Cell) (i : ℕ) (p : Phase)
    → Owns i t
    → (emptied p ≡ true → t'.waker ≡ none)
    → t'.phase ≡ update t.phase i p
    → Owns i t'
stay-Owns t t' i p (a, b) c e = (
  λ h. c (ground arith),
  λ j n. ap (λ (f : ℕ → Phase). place (f j)) e ∙ own-update t.phase i p b j n,
)

-- The owner stays inside, or lets go of an empty cell.
module _ (t : Cell) (i : ℕ) (p : Phase) where
  stay-poller :
      {w : Option ℕ} {l : List ℕ}
      → place p ≡ polling
      → (t.state.registering ≡ true) × Owns i t
      → (emptied p ≡ true → w ≡ none)
      → Owner (record t { waker = w; phase = update t.phase i p; woken = l })
  stay-poller {w} {l} q (r, o) c =
      Owner.poller i r (ap place (update-same t.phase i p) ∙ q)
        (stay-Owns t (record t { waker = w; phase = update t.phase i p; woken = l }) i p o c refl)

  let_go :
      (s : State) {l : List ℕ}
      → place p ≡ outside
      → Owns i t
      → s.registering ≡ false
      → (s.waking ≡ true → s.closed ≡ true)
      → (t.waker ≡ none) ⊎ (s ≡ waiting)
      → Owner (record t { state = s; phase = update t.phase i p; woken = l })
  let_go s q o r w k = Owner.free (r, w, k, all-outside_owner t i p q o.1)

place-eq :
    (t' : Cell) (f : ℕ → Phase) (i : ℕ) (p : Phase)
    → t'.phase ≡ update f i p
    → place (t'.phase i) ≡ place p
place-eq t' f i p e = ap (λ (g : ℕ → Phase). place (g i)) e ∙ ap place (update-same f i p)

lock-Owner :
    (t : Cell) (i : ℕ) (close : Bool)
    → may_take t.state ≡ true
    → Owner t
    → Owner (record t { state = mark close t.state; phase = update t.phase i taking })
unfolding mark
lock-Owner t i close b o =
    let t' : Cell = record t { state = mark close t.state; phase = update t.phase i taking } in
    let (r, w) = may_take-free t.state b in
    Owner.waker i r refl (ap place (update-same t.phase i taking))
      (enter-Owns t t' i taking o r w refl refl)

pub Step-Owner : {t t' : Cell} {i : ℕ} → Step i t t' → Owner t → Owner t'
Step-Owner {t} {t'} {i} (Step.begin w e b p) o =
    let x = register-waiting t.state b in
    let q : t'.phase ≡ update t.phase i (registering w) = ap (λ (c : Cell). c.phase) p in
    Owner.poller i (ap (λ (c : Cell). c.state.registering) p)
      (place-eq t' t.phase i (registering w) q)
      (enter-Owns t t' i (registering w) o (ground arith) (ground arith) refl q)
Step-Owner {t} {t'} {i} (Step.reply r e b p) o = subst Owner (sym p) o
Step-Owner {t} {t'} {i} (Step.see_woken e b p) o =
    subst Owner (sym p) (outside-Owner t i clearing t.state (ap place e) refl (ground arith) o)
Step-Owner {t} {t'} {i} (Step.clear_woken e p) o = subst Owner (sym p) (
    outside-Owner t i idle (record t.state { woken = false }) (ap place e) refl
      (clear-Keeps t.state) o)
Step-Owner {t} {t'} {i} (Step.store w e p) o =
    subst Owner (sym p) (stay-poller t i stored refl (as-poller i o (ap place e)) (λ h. cc))
Step-Owner {t} {t'} {i} (Step.park e b p) o =
    let (r, own) = as-poller i o (ap place e) in
    subst Owner (sym p) (let_go t i idle waiting refl own refl (λ h. h) (inr refl))
Step-Owner {t} {t'} {i} (Step.fail a e b p) o =
    subst Owner (sym p) (stay-poller t i (failed a) refl (as-poller i o (ap place e)) (λ h. cc))
Step-Owner {t} {t'} {i} (Step.take_back a e p) o =
    subst Owner (sym p)
      (stay-poller t i (unwinding a t.waker) refl (as-poller i o (ap place e)) (λ h. refl))
Step-Owner {t} {t'} {i} (Step.give_up a s w r e b p) o =
    let (x, own) = as-poller i o (ap place e) in
    let f = unwind-state a t.state s r b in
    subst Owner (sym p) (
      let_go t i idle s refl own (ap (λ (q : State). q.registering) f)
        (λ h. let g = ap (λ (q : State). q.waking) f in cc) (inl (own.0 (ap emptied e))))
Step-Owner {t} {t'} {i} (Step.lock c e b p) o = subst Owner (sym p) (lock-Owner t i c b o)
Step-Owner {t} {t'} {i} (Step.leave c e b p) o =
    subst Owner (sym p)
      (outside-Owner t i idle (mark c t.state) (ap place e) refl (leave-Keeps c t.state b) o)
Step-Owner {t} {t'} {i} (Step.take e p) o =
    let (r, w, own) = as-waker i o (ap place e) in
    let q : t'.phase ≡ update t.phase i (releasing t.waker) = ap (λ (c : Cell). c.phase) p in
    Owner.waker i (ap (λ (c : Cell). c.state.registering) p ∙ r)
      (ap (λ (c : Cell). c.state.waking) p ∙ w) (place-eq t' t.phase i (releasing t.waker) q)
      (stay-Owns t t' i (releasing t.waker) own (λ h. ap (λ (c : Cell). c.waker) p) q)
Step-Owner {t} {t'} {i} (Step.release w e p) o =
    let (r, w', own) = as-waker i o (ap place e) in
    subst Owner (sym p) (
      let_go t i idle (record t.state { waking = false }) refl own r (λ h. cc)
        (inl (own.0 (ap emptied e))))
