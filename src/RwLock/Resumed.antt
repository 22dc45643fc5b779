-- ===== src/RwLock/Resumed.antt =====
-- Another poll of a future that is pending.
use mathlib.Core.Path.{subst, fun_ext}
use wasm_kernel.Base.{
  NotIn, ℕ, ◌+◌, ◌==◌, ◌≡◌, ◌↔◌, refl, inl, inr, Bool, true, Bool-cases, ==_iff, List, [], arith,
}
use wasm_kernel.Semaphore.Queue.{Semaphore}
use wasm_kernel.Semaphore.Ops.{Polled, Acquire, poll, remove}
use wasm_kernel.Semaphore.Invariant.{Open, Returns}
use wasm_kernel.Semaphore.Queued.{
  Within, Standing, NextPoll, poll_again, remove-Distinct, remove_absent, deficit-remove,
  Within-Waits,
}
use wasm_kernel.RwLock.Lock.{Kind, permits_of, RwLock, rounds, future, polled, resume}
use wasm_kernel.RwLock.Sharing.{remove-Places}
use wasm_kernel.RwLock.Places.{Places}
use wasm_kernel.RwLock.Balance.{asks, held, Shared, LockInv, Returns-then, granted-Shared}

same-Shared :
    (s t : Semaphore) (held : ℕ) (pending : List ℕ) (kind : ℕ → Kind)
    → Shared s held pending kind
    → Open t
    → t.permits ≡ s.permits
    → t.queue ≡ s.queue
    → t.remaining ≡ s.remaining
    → Shared t held pending kind
same-Shared s t held pending kind v o a b c = record {
  opened = o;
  distinct = v.distinct;
  places = rw (b, c) v.places;
  balance = rw (a, b, c) v.balance;
}

-- A pending future that has all its permits is not in the queue.
has_left : (s : Semaphore) (i : ℕ) → Open s → Standing s i → s.remaining i ≡ 0 → NotIn i s.queue
has_left s i o (inl w) z =
    absurd (let h = Within-Waits i s.remaining s.queue o.waits w in omega (arith, h, z))
has_left s i o (inr (n, e)) z = n

finish-Shared :
    (i : ℕ) (s : Semaphore) (held : ℕ) (pending : List ℕ) (kind : ℕ → Kind)
    → Shared s held pending kind
    → Within i pending
    → s.remaining i ≡ 0
    → Shared s (held + permits_of (kind i)) (remove i pending) kind
finish-Shared i s held pending kind v w z =
    let n = has_left s i v.opened (v.places.stands i w) z in
    let d = deficit-remove i (asks kind) pending w in
    record {
      opened = v.opened;
      distinct = remove-Distinct i pending v.distinct;
      places =
          subst (λ l. Places l s.remaining (remove i pending) (asks kind))
            (remove_absent i s.queue n)
            (remove-Places i s.queue s.remaining pending (asks kind) v.places v.opened.distinct
              v.distinct);
      balance = omega (arith, d, v.balance);
    }

-- The waiter of a future gets all or waits.
resumed :
    (i : ℕ) (l : RwLock) (a' : Acquire) (t : Semaphore) (p : Polled) (woken : List ℕ)
    → LockInv l
    → Within i l.pending
    → NextPoll l.sem (future i (l.kind i)) t a' p
    → Returns
        (polled i (record l { sem = t }) p woken)
        (λ (l', got, woken). LockInv l' × ((got ≡ true) ↔ (l.sem.remaining i ≡ 0)))
resumed i l a' t Polled.acquired woken v w q =
    let z = q.granted.0 refl in
    (
      granted-Shared (l.kind i) (record l { sem = t; pending = remove i l.pending })
          (same-Shared l.sem t (held l + permits_of (l.kind i)) (remove i l.pending) l.kind
            (finish-Shared i l.sem (held l) l.pending l.kind v w z) q.kept q.permits q.queue
            (fun_ext q.remaining)),
      (λ e. z, λ e. refl),
    )
resumed i l a' t Polled.pending woken v w q =
    let z = q.waiting.0 refl in
    (
      same-Shared l.sem t (held l) l.pending l.kind v q.kept q.permits q.queue
          (fun_ext q.remaining),
      (λ e. cc, λ e. absurd (omega (arith, z, e))),
    )
resumed i l a' t Polled.closed woken v w q = elim (Bool-cases (l.sem.remaining i == 0)) [
  | inl e ↦ let z = q.granted.1 ((==_iff (l.sem.remaining i) 0).0 e) in cc
  | inr e ↦ let z = q.waiting.1 (ground arith) in cc
]

pub resume-Shared :
    (debug : Bool) (i cx : ℕ) (l : RwLock)
    → LockInv l
    → Within i l.pending
    → Returns
        (resume debug i cx l)
        (λ (l', got, woken). LockInv l' × ((got ≡ true) ↔ (l.sem.remaining i ≡ 0)))
unfolding resume
resume-Shared debug i cx l v w =
    Returns-then (λ (t, a', p, woken). NextPoll l.sem (future i (l.kind i)) t a' p)
      (λ (l', got, woken). LockInv l' × ((got ≡ true) ↔ (l.sem.remaining i ≡ 0)))
      (poll debug (λ _ t. t) (rounds l.sem) [] (future i (l.kind i)) cx l.sem)
      (λ (t, a', p, woken). polled i (record l { sem = t }) p woken)
      (poll_again debug (rounds l.sem) [] (future i (l.kind i)) cx l.sem v.opened tt refl
        (v.places.stands i w) (omega arith))
      (λ (t, a', p, woken) q. resumed i l a' t p woken v w q)
