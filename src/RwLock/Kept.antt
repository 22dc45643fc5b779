-- ===== src/RwLock/Kept.antt =====
-- Each operation of a lock returns, and keeps the balance of its permits.
use mathlib.Core.Path.{subst}
use wasm_kernel.Base.{
  NotIn, update, ℕ, ◌+◌, ◌==◌, ◌≡◌, ◌≢◌, refl, sym, ap, ◌∙◌, inl, inr, Bool, Bool-cases, ==_iff,
  List, [], ◌∷◌, ◌++◌, arith, leb,
}
use wasm_kernel.Semaphore.Queue.{Semaphore}
use wasm_kernel.Semaphore.Ops.{Polled, Acquire, acquire, poll, remove}
use wasm_kernel.Semaphore.Fill.{deficit, deficit-update, Waits-update}
use wasm_kernel.Semaphore.Invariant.{Returns}
use wasm_kernel.Semaphore.Acquiring.{FirstPoll, poll_first}
use wasm_kernel.RwLock.Lock.{Kind, permits_of, RwLock, rounds, polled, start}
use wasm_kernel.RwLock.Sharing.{other-Places, append-Places}
use wasm_kernel.RwLock.Places.{Places}
use wasm_kernel.RwLock.Balance.{asks, held, Shared, LockInv, Returns-then, granted-Shared, new_asks}

same_asks :
    (i : ℕ) (k : Kind) (kind : ℕ → Kind) (j : ℕ) → j ≢ i → asks (update kind i k) j ≡ asks kind j
same_asks i k kind j n = ground arith

-- The future `i` is made, and its waiter needs all that it asks for.
acquire-Shared :
    (i : ℕ) (k : Kind) (s : Semaphore) (held : ℕ) (pending : List ℕ) (kind : ℕ → Kind)
    → Shared s held pending kind
    → NotIn i pending
    → Shared (acquire i (permits_of k) s).0 held pending (update kind i k)
unfolding acquire
acquire-Shared i k s held pending kind v n =
    let m = v.places.covers i n in
    let o = v.opened in
    record {
      opened = record {
        opened = o.opened;
        bounded = o.bounded;
        distinct = o.distinct;
        waits = Waits-update i (permits_of k) s.remaining s.queue m o.waits;
        idle = o.idle;
      };
      distinct = v.distinct;
      places =
          other-Places i s.queue s.remaining (update s.remaining i (permits_of k)) pending
            (asks kind) (asks (update kind i k)) v.places n (λ j e. ground arith)
            (same_asks i k kind);
      balance =
          rw (deficit-update i (permits_of k) s.remaining s.queue m, new_asks i k kind pending n)
            v.balance;
    }

-- Its first poll leaves all other waiters as they are.
module _ (i : ℕ) (s : Semaphore) (held : ℕ) (pending : List ℕ) (kind : ℕ → Kind) (a a' : Acquire)
    (t : Semaphore) (p : Polled) (v : Shared s held pending kind) (n : NotIn i pending)
    (e : a.waiter ≡ i) (f : a.permits ≡ permits_of (kind i)) (q : FirstPoll s a t a' p) where
  first-Places : Places s.queue t.remaining pending (asks kind)
  first-Places =
      other-Places i s.queue s.remaining t.remaining pending (asks kind) (asks kind) v.places n
        (λ j m. q.others j (λ g. m (g ∙ e))) (λ j m. refl)

  acquired-Shared : p ≡ Polled.acquired → Shared t (held + permits_of (kind i)) pending kind
  acquired-Shared g = record {
    opened = q.kept;
    distinct = v.distinct;
    places = rw (q.passed g) first-Places;
    balance = omega (arith, q.owes, v.balance, f);
  }

  none_free : s.queue ≢ [] → s.permits ≡ 0
  none_free m = elim (Bool-cases (s.permits == 0)) [
    | inl g ↦ (==_iff s.permits 0).0 g
    | inr g ↦ absurd (m (v.opened.idle (ground arith)))
  ]

  pending-Shared : p ≡ Polled.pending → Shared t held (i ∷ pending) kind
  unfolding deficit
  pending-Shared g =
      let short : t.remaining i + s.permits ≡ permits_of (kind i) =
        subst (λ z. t.remaining z + s.permits ≡ permits_of (kind i)) e (q.short g ∙ f) in
      record {
        opened = q.kept;
        distinct = (n, v.distinct);
        places =
            subst (λ l. Places l t.remaining (i ∷ pending) (asks kind))
              (sym (q.last g ∙ ap (λ z. s.queue ++ z ∷ []) e))
              (append-Places i s.queue t.remaining pending (asks kind) first-Places n
                (omega (arith, short)) (λ m. let z = none_free m in omega (arith, short, z)));
        balance = omega (arith, q.owes, v.balance, f);
      }

  not_closed : p ≢ Polled.closed
  not_closed g = elim (Bool-cases (leb a.permits s.permits)) [
    | inl h ↦ let z = q.granted.1 (ground arith) in cc
    | inr h ↦ let z = q.waiting.1 (ground arith) in cc
  ]

remove_first : (i : ℕ) (l : List ℕ) → remove i (i ∷ l) ≡ l
unfolding remove
remove_first i l = ground arith

polled-Shared :
    (i : ℕ) (l : RwLock) (kind : ℕ → Kind) (t : Semaphore) (p : Polled) (woken : List ℕ)
    → (p ≡ Polled.acquired → Shared t (held l + permits_of (kind i)) l.pending kind)
    → (p ≡ Polled.pending → Shared t (held l) (i ∷ l.pending) kind)
    → (p ≢ Polled.closed)
    → Returns
        (polled i (record l { sem = t; pending = i ∷ l.pending; kind = kind }) p woken)
        (λ (l', got, woken). LockInv l')
polled-Shared i l kind t Polled.acquired woken a b c =
    granted-Shared (kind i) (record l { sem = t; pending = remove i (i ∷ l.pending); kind = kind })
      (subst (λ z. Shared t (held l + permits_of (kind i)) z kind) (sym (remove_first i l.pending))
        (a refl))
polled-Shared i l kind t Polled.pending woken a b c = b refl
polled-Shared i l kind t Polled.closed woken a b c = c refl

pub start-Shared :
    (debug : Bool) (i : ℕ) (k : Kind) (cx : ℕ) (l : RwLock)
    → LockInv l
    → NotIn i l.pending
    → Returns (start debug i k cx l) (λ (l', got, woken). LockInv l')
unfolding start acquire
start-Shared debug i k cx l v n =
    let s = (acquire i (permits_of k) l.sem).0 in
    let a = (acquire i (permits_of k) l.sem).1 in
    let kind = update l.kind i k in
    let w = acquire-Shared i k l.sem (held l) l.pending l.kind v n in
    let same : update l.kind i k i ≡ k = ground arith in
    let f = ap permits_of (sym same) in
    Returns-then (λ (t, a', p, woken). FirstPoll s a t a' p) (λ (l', got, woken). LockInv l')
      (poll debug (λ _ t. t) (rounds s) [] a cx s)
      (λ (t, a', p, woken).
        polled i (record l { sem = t; pending = i ∷ l.pending; kind = kind }) p woken)
      (poll_first debug (rounds s) [] a cx s w.opened tt refl (ground arith) (v.places.covers i n))
      (λ (t, a', p, woken) q.
        polled-Shared i l kind t p woken
          (acquired-Shared i s (held l) l.pending kind a a' t p w n refl f q)
          (pending-Shared i s (held l) l.pending kind a a' t p w n refl f q)
          (not_closed i s (held l) l.pending kind a a' t p w n refl f q))
