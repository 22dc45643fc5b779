-- ===== src/RwLock/Sharing.antt =====
-- Where the waiters of a lock stand: who is pending is in the queue, or has all its permits.
use wasm_kernel.Base.{
  NotIn, Distinct, snoc-NotIn, snoc-All, All, ℕ, ◌+◌, ◌≤◌, ◌==◌, ◌≡◌, ◌≢◌, refl, sym, ◌∙◌, inl, inr,
  Bool-cases, ==_iff, List, [], ◌∷◌, ◌++◌, arith,
}
use mathlib.Core.Path.{subst}
use wasm_kernel.Semaphore.Queue.{Semaphore}
use wasm_kernel.Semaphore.Ops.{remove}
use wasm_kernel.Semaphore.Fill.{deficit}
use wasm_kernel.Semaphore.Serve.{behind}
use wasm_kernel.Semaphore.Queued.{Within, remove-NotIn, remove-Distinct}
use wasm_kernel.Semaphore.Handed.{Stands, Hands}
use wasm_kernel.RwLock.Places.{
  Places, Within-ne, remove-absent, remove-Within, Within-remove, NotIn-remove, All-behind,
  remove-behind, All-trans,
}

-- Permits are handed out.
pub hand-Places :
    (s : Semaphore) (queue : List ℕ) (remaining : ℕ → ℕ) (pending : List ℕ) (asks : ℕ → ℕ)
    → Places s.queue s.remaining pending asks
    → Hands s queue remaining
    → Places queue remaining pending asks
hand-Places s queue remaining pending asks v h = record {
  covers = λ j n. h.stays j (v.covers j n);
  stands = λ j w. h.stands j (v.stands j w);
  less = λ j w. let a = h.less j in let b = v.less j w in omega (arith, a, b);
  untouched = All-trans remaining s.remaining asks (behind queue) h.order.untouched (
      All-behind (λ j. s.remaining j ≡ asks j) h.order.satisfied queue
        (subst (λ l. All (λ j. s.remaining j ≡ asks j) (behind l)) h.order.split v.untouched));
}

-- A future ends.
pub remove-Places :
    (i : ℕ) (queue : List ℕ) (remaining : ℕ → ℕ) (pending : List ℕ) (asks : ℕ → ℕ)
    → Places queue remaining pending asks
    → Distinct queue
    → Distinct pending
    → Places (remove i queue) remaining (remove i pending) asks
remove-Places i queue remaining pending asks v d e = record {
  covers = λ j n. elim (Bool-cases (i == j)) [
    | inl f ↦ subst (λ k. NotIn k (remove i queue)) ((==_iff i j).0 f) (remove-absent i queue d)
    | inr f ↦ remove-NotIn i j queue (v.covers j (NotIn-remove i j pending (ground arith) n))
  ];
  stands = λ j w.
      let n = Within-ne i j (remove i pending) (remove-absent i pending e) w in
      elim (v.stands j (remove-Within i j pending w)) [
        | inl a ↦ inl (Within-remove i j queue n a)
        | inr (a, b) ↦ inr (remove-NotIn i j queue a, b)
      ];
  less = λ j w. v.less j (remove-Within i j pending w);
  untouched = remove-behind (λ j. remaining j ≡ asks j) i queue v.untouched;
}

-- A future begins, behind all others.
Within-append : (i j : ℕ) (l : List ℕ) → Within j l → Within j (l ++ i ∷ [])
Within-append i j [] w = absurd w
Within-append i j (k ∷ l) (inl e) = inl e
Within-append i j (k ∷ l) (inr (n, w)) = inr (n, Within-append i j l w)

at_the_end : (i : ℕ) (l : List ℕ) → NotIn i l → Within i (l ++ i ∷ [])
at_the_end i [] n = inl refl
at_the_end i (k ∷ l) n = inr (n.0, at_the_end i l n.1)

All-others :
    (f g : ℕ → ℕ) (i : ℕ) (l : List ℕ)
    → NotIn i l
    → ((j : ℕ) → j ≢ i → f j ≡ g j)
    → All (λ j. f j ≡ g j) l
All-others f g i [] n h = tt
All-others f g i (j ∷ l) n h = (h j (λ e. n.0 (sym e)), All-others f g i l n.1 h)

NotIn-behind : (i : ℕ) (l : List ℕ) → NotIn i l → NotIn i (behind l)
NotIn-behind i [] n = tt
NotIn-behind i (j ∷ l) n = n.1

-- Only a future `i` that is not there gets other numbers.
pub other-Places :
    (i : ℕ) (queue : List ℕ) (remaining remaining' : ℕ → ℕ) (pending : List ℕ) (asks asks' : ℕ → ℕ)
    → Places queue remaining pending asks
    → NotIn i pending
    → ((j : ℕ) → j ≢ i → remaining' j ≡ remaining j)
    → ((j : ℕ) → j ≢ i → asks' j ≡ asks j)
    → Places queue remaining' pending asks'
other-Places i queue remaining remaining' pending asks asks' v n f g = record {
  covers = v.covers;
  stands = λ j w. elim (v.stands j w) [
    | inl a ↦ inl a
    | inr (a, b) ↦ inr (a, f j (Within-ne i j pending n w) ∙ b)
  ];
  less = λ j w.
      let m = Within-ne i j pending n w in
      let a = f j m in let b = g j m in let c = v.less j w in omega (arith, a, b, c);
  untouched =
      let m = NotIn-behind i queue (v.covers i n) in
      All-trans remaining' remaining asks' (behind queue)
        (All-others remaining' remaining i (behind queue) m f)
        (All-trans remaining asks asks' (behind queue) v.untouched
          (All-others asks asks' i (behind queue) m (λ j e. sym (g j e))));
}

pub append-Places :
    (i : ℕ) (queue : List ℕ) (remaining : ℕ → ℕ) (pending : List ℕ) (asks : ℕ → ℕ)
    → Places queue remaining pending asks
    → NotIn i pending
    → remaining i ≤ asks i
    → (queue ≢ [] → remaining i ≡ asks i)
    → Places (queue ++ i ∷ []) remaining (i ∷ pending) asks
append-Places i queue remaining pending asks v n le same = record {
  covers = λ j (m, k). snoc-NotIn j queue i (v.covers j k) m;
  stands = λ j w. stands_at j w;
  less = λ j w. less_at j w;
  untouched = untouched_at queue v.untouched same;
}
  where
    stands_at : (j : ℕ) → Within j (i ∷ pending) → Stands (queue ++ i ∷ []) remaining j
    stands_at j (inl e) =
        subst (λ k. Stands (queue ++ i ∷ []) remaining k) (sym e)
          (inl (at_the_end i queue (v.covers i n)))
    stands_at j (inr (m, w)) = elim (v.stands j w) [
      | inl a ↦ inl (Within-append i j queue a)
      | inr (a, b) ↦ inr (snoc-NotIn j queue i a m, b)
    ]

    less_at : (j : ℕ) → Within j (i ∷ pending) → remaining j ≤ asks j
    less_at j (inl e) = subst (λ k. remaining k ≤ asks k) (sym e) le
    less_at j (inr (m, w)) = v.less j w

    untouched_at :
        (l : List ℕ)
        → All (λ j. remaining j ≡ asks j) (behind l)
        → (l ≢ [] → remaining i ≡ asks i)
        → All (λ j. remaining j ≡ asks j) (behind (l ++ i ∷ []))
    untouched_at [] a b = tt
    untouched_at (j ∷ l) a b = snoc-All (λ j. remaining j ≡ asks j) l i a (b (λ e. cc))

deficit_ge :
    (i : ℕ) (remaining : ℕ → ℕ) (l : List ℕ)
    → deficit remaining l ≤ deficit remaining (remove i l) + remaining i
unfolding deficit remove
deficit_ge i remaining [] = omega arith
deficit_ge i remaining (j ∷ l) = ground (arith, deficit_ge i remaining l)

-- What waiters still need is no more than the futures ask for.
pub deficit_le :
    (pending queue : List ℕ) (remaining asks : ℕ → ℕ)
    → Distinct queue
    → ((j : ℕ) → NotIn j pending → NotIn j queue)
    → All (λ j. remaining j ≤ asks j) pending
    → deficit remaining queue ≤ deficit asks pending
unfolding deficit
deficit_le [] [] remaining asks d c a = omega arith
deficit_le [] (i ∷ queue) remaining asks d c a = absurd ((c i tt).0 refl)
deficit_le (i ∷ pending) queue remaining asks d c a =
    let ih =
      deficit_le pending (remove i queue) remaining asks (remove-Distinct i queue d) left a.1 in
    let b = deficit_ge i remaining queue in omega (arith, ih, b, a.0)
  where
    left : (j : ℕ) → NotIn j pending → NotIn j (remove i queue)
    left j n = elim (Bool-cases (i == j)) [
      | inl e ↦ subst (λ k. NotIn k (remove i queue)) ((==_iff i j).0 e) (remove-absent i queue d)
      | inr e ↦ remove-NotIn i j queue (c j (ground arith, n))
    ]
