-- ===== src/RwLock/Reached.antt =====
-- Every lock that operations on a new one reach keeps the balance of its permits.
use mathlib.Core.Path.{subst}
use mathlib.Core.Option.{Option, none, some}
use wasm_kernel.Base.{
  Yields-returned, ◌≤◌, ◌<◌, ◌≡◌, ◌↔◌, refl, ap, Bool, true, arith, Outcome, returned, panicked,
  Yields,
}
use wasm_kernel.Semaphore.Ops.{
  TryAcquireError, Result, Polled, Acquire, try_acquire, acquire, poll, remove, drop_acquire,
}
use wasm_kernel.Semaphore.Fill.{deficit}
use wasm_kernel.Semaphore.Invariant.{Returns}
use wasm_kernel.RwLock.Lock.{
  permits_of, RwLock, new, start, resume, drop_future, drop_guard, try_lock,
}
use wasm_kernel.RwLock.Balance.{held, LockInv, held_le}
use wasm_kernel.RwLock.Lock.{Step, begin, again, cancel, release, attempt, Reach, here, next}
use wasm_kernel.RwLock.Kept.{start-Shared}
use wasm_kernel.Semaphore.Ops
use wasm_kernel.RwLock.Ended.{drop_guard-Shared, drop_future-Shared, try_lock-Shared}
use wasm_kernel.RwLock.Resumed.{resume-Shared}

-- One writer, or readers.
abbrev pub Exclusive : RwLock → Type 0
Exclusive l = (l.writers ≤ 1) × (0 < l.writers → l.readers ≡ 0)

pub Shared-Exclusive : (l : RwLock) → LockInv l → Exclusive l
Shared-Exclusive l v =
    let h = held_le l.sem (held l) l.pending l.kind v in
    (omega (arith, h), λ w. omega (arith, h, w))

Returns-value :
    {A : Type 0} (P : A → Type 0) (m : Option (Outcome A)) {a : A}
    → Returns m P
    → m ≡ some (returned a)
    → P a
Returns-value P none h e = absurd h
Returns-value P (some (returned b)) h e = subst P (ap (λ x. value_of b x) e) h
  where
    value_of : {A : Type 0} → A → Option (Outcome A) → A
    value_of b (some (returned a)) = a
    value_of b _ = b
Returns-value P (some panicked) h e = absurd h

new-Shared : (l : RwLock) → new ≡ returned l → LockInv l
unfolding Ops.new deficit
new-Shared l e = Yields-returned LockInv new first e
  where
    first : Yields new LockInv
    first = record {
      opened = record {
        opened = refl;
        bounded = omega arith;
        distinct = tt;
        waits = tt;
        idle = λ h. refl;
      };
      distinct = tt;
      places = record {
        covers = λ j n. tt;
        stands = λ j w. absurd w;
        less = λ j w. absurd w;
        untouched = tt;
      };
      balance = refl;
    }

Step-Shared : (debug : Bool) (l l' : RwLock) → Step debug l l' → LockInv l → LockInv l'
Step-Shared debug l l' (begin i k cx got woken n e) v =
    Returns-value (λ (l', got, woken). LockInv l') (start debug i k cx l)
      (start-Shared debug i k cx l v n) e
Step-Shared debug l l' (again i cx got woken w e) v =
    (Returns-value (λ (l', got, woken). LockInv l' × ((got ≡ true) ↔ (l.sem.remaining i ≡ 0)))
      (resume debug i cx l) (resume-Shared debug i cx l v w) e).0
Step-Shared debug l l' (cancel i woken w e) v =
    Returns-value (λ (l', woken). LockInv l') (drop_future debug i l)
      (drop_future-Shared debug i l v w) e
Step-Shared debug l l' (release k woken h e) v =
    Returns-value (λ (l', woken). LockInv l') (drop_guard debug k l)
      (drop_guard-Shared debug k l v h) e
Step-Shared debug l l' (attempt k got e) v =
    (Yields-returned (λ (l', got). LockInv l' × ((got ≡ true) ↔ (permits_of k ≤ l.sem.permits)))
      (try_lock k l) (try_lock-Shared k l v) e).0

pub Reach-Shared : (debug : Bool) (l : RwLock) → Reach debug l → LockInv l
Reach-Shared debug l (here e) = new-Shared l e
Reach-Shared debug l (next r s) = Step-Shared debug _ l s (Reach-Shared debug _ r)
