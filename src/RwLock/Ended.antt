-- ===== src/RwLock/Ended.antt =====
-- What ends a future or a guard, and `try_read` and `try_write`.
use mathlib.Core.Option.{some}
use wasm_kernel.Base.{
  ℕ, ◌+◌, ◌-◌, ◌≤◌, ◌<◌, ◌==◌, ◌≡◌, ◌↔◌, refl, inl, inr, Bool, true, false, Bool-cases, ==_iff,
  List, [], arith, returned, Yields, ltb, ltb→lt,
}
use wasm_kernel.Semaphore.Queue.{Semaphore, max_permits, closed_permits, add_permits}
use wasm_kernel.Semaphore.Ops.{try_acquire, remove, drop_acquire}
use wasm_kernel.Semaphore.Fill.{deficit}
use wasm_kernel.Semaphore.Invariant.{Open, Returns, Adds}
use wasm_kernel.Semaphore.Queued.{Within, remove-Distinct, deficit-remove}
use wasm_kernel.Semaphore.Handed.{Hands, Handed, add_permits-Handed, drop_acquire-Handed}
use wasm_kernel.RwLock.Lock.{
  Kind, max_readers, permits_of, RwLock, rounds, future, drop_future, released, drop_guard,
  try_lock, guards,
}
use wasm_kernel.RwLock.Sharing.{hand-Places, remove-Places}
use wasm_kernel.RwLock.Balance.{
  asks, held, Shared, LockInv, Returns-then, held-released, held_le, granted-Shared,
}

pub drop_guard-Shared :
    (debug : Bool) (k : Kind) (l : RwLock)
    → LockInv l
    → 0 < guards k l
    → Returns (drop_guard debug k l) (λ (l', woken). LockInv l')
unfolding drop_guard
drop_guard-Shared debug k l v h =
    let a = held_le l.sem (held l) l.pending l.kind v in
    let b = held-released k l h in
    Returns-then (Handed (permits_of k) l.sem) (λ (l', woken). LockInv l')
      (add_permits debug (λ _ t. t) (rounds l.sem) (permits_of k) l.sem)
      (λ (t, woken). some (returned (released k (record l { sem = t }), woken)))
      (add_permits-Handed debug (rounds l.sem) (permits_of k) l.sem v.opened (omega (arith, a, b))
        (omega arith))
      (λ (t, woken) (o, n, q). given k t (record {
        opened = o;
        distinct = v.distinct;
        places = hand-Places l.sem t.queue t.remaining l.pending (asks l.kind) v.places q;
        balance = omega (arith, v.balance, n, b);
      }))
  where
    given :
        (k : Kind) (t : Semaphore)
        → Shared t (held (released k l)) l.pending l.kind
        → LockInv (released k (record l { sem = t }))
    given Kind.read t s = s
    given Kind.write t s = s

pub kind_le : (k : Kind) → permits_of k ≤ max_readers
kind_le Kind.read = omega arith
kind_le Kind.write = omega arith

pub deficit_empty : (remaining : ℕ → ℕ) (l : List ℕ) → l ≡ [] → deficit remaining l ≡ 0
unfolding deficit
deficit_empty remaining l e = rw e refl

room_for :
    (i : ℕ) (l : RwLock)
    → LockInv l
    → Within i l.pending
    → l.sem.permits + permits_of (l.kind i) ≤ max_permits
room_for i l v w = elim (Bool-cases (l.sem.permits == 0)) [
  | inl e ↦
      let a = (==_iff l.sem.permits 0).0 e in let b = kind_le (l.kind i) in omega (arith, a, b)
  | inr e ↦
      let a = deficit_empty l.sem.remaining l.sem.queue (v.opened.idle (ground arith)) in
      let d = deficit-remove i (asks l.kind) l.pending w in omega (arith, a, d, v.balance)
]

pub drop_future-Shared :
    (debug : Bool) (i : ℕ) (l : RwLock)
    → LockInv l
    → Within i l.pending
    → Returns (drop_future debug i l) (λ (l', woken). LockInv l')
unfolding drop_future
drop_future-Shared debug i l v w =
    let d = deficit-remove i (asks l.kind) l.pending w in
    Returns-then
      (λ (t, woken).
        Open t
        × Adds (permits_of (l.kind i)) l.sem t
        × Hands (record l.sem { queue = remove i l.sem.queue }) t.queue t.remaining)
      (λ (l', woken). LockInv l')
      (drop_acquire debug (λ _ t. t) (rounds l.sem) (future i (l.kind i)) l.sem)
      (λ (t, woken). some (returned (record l { sem = t; pending = remove i l.pending }, woken)))
      (drop_acquire-Handed debug (rounds l.sem) i (permits_of (l.kind i)) l.sem v.opened
        (v.places.stands i w) (v.places.less i w) (room_for i l v w) (omega arith))
      (λ (t, woken) (o, n, q). record {
        opened = o;
        distinct = remove-Distinct i l.pending v.distinct;
        places =
            hand-Places (record l.sem { queue = remove i l.sem.queue }) t.queue t.remaining
              (remove i l.pending) (asks l.kind)
              (remove-Places i l.sem.queue l.sem.remaining l.pending (asks l.kind) v.places
                v.opened.distinct v.distinct)
              q;
        balance = omega (arith, v.balance, n, d);
      })

taken-Shared :
    (n : ℕ) (s : Semaphore) (held : ℕ) (pending : List ℕ) (kind : ℕ → Kind)
    → Shared s held pending kind
    → n ≤ s.permits
    → Shared (record s { permits = s.permits - n }) (held + n) pending kind
taken-Shared n s held pending kind v h =
    let o = v.opened in
    record {
      opened = record {
        opened = o.opened;
        bounded = let b = o.bounded in omega (arith, b);
        distinct = o.distinct;
        waits = o.waits;
        idle = λ g. o.idle (omega (arith, g));
      };
      distinct = v.distinct;
      places = v.places;
      balance = omega (arith, v.balance, h);
    }

-- An attempt gets the lock exactly where there are permits for it.
pub try_lock-Shared :
    (k : Kind) (l : RwLock)
    → LockInv l
    → Yields
        (try_lock k l)
        (λ (l', got). LockInv l' × ((got ≡ true) ↔ (permits_of k ≤ l.sem.permits)))
unfolding try_lock try_acquire
try_lock-Shared k l v =
    let not_closed : (l.sem.permits == closed_permits) ≡ false =
      let a = v.opened.bounded in ground arith in
    elim (Bool-cases (ltb l.sem.permits (permits_of k))) [
      | inl e ↦
          rw (not_closed, e)
            (
              v,
              (
                λ g. cc,
                λ g. absurd (let h = ltb→lt l.sem.permits (permits_of k) e in omega (arith, g, h)),
              ),
            )
      | inr e ↦
          let h : permits_of k ≤ l.sem.permits = ground arith in
          rw (not_closed, e)
            (
              granted-Shared k
                  (record l { sem = record l.sem { permits = l.sem.permits - permits_of k } })
                  (taken-Shared (permits_of k) l.sem (held l) l.pending l.kind v h),
              (λ g. h, λ g. refl),
            )
    ]
