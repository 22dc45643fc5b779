-- ===== src/WaitQueue/Enqueued.antt =====
-- A future at the end of the queue keeps the invariant.
use mathlib.Core.Path.{fun_ext}
use wasm_kernel.Base.{
  NotIn, snoc-Distinct, snoc-All, ℕ, ◌==◌, ◌≡◌, ◌≢◌, refl, sym, ap, ◌∙◌, inl, inr, true, false, not,
  List, [], ◌∷◌, ◌++◌, update, arith, Bool-cases, ==_iff,
}
use wasm_kernel.WaitQueue.Queue.{State, Word, Wakeup, WaitState, WaitQueue, same_state, is_empty}
use wasm_kernel.WaitQueue.Ops.{wait}
use wasm_kernel.WaitQueue.Inv.{Inv, Queued, unwoken}
use wasm_kernel.WaitQueue.Notified.{Queued-update}
use wasm_kernel.WaitQueue.Removal.{other-NotIn, Queued-status}

pub wait-Inv : (i : ℕ) (q : WaitQueue) → Inv q → q.status i ≢ WaitState.waiting → Inv (wait i q)
unfolding wait
wait-Inv i q v s =
    let n = other-NotIn q.status q.wakeup i q.queue v.queued s in
    record {
      agrees = v.agrees;
      distinct = v.distinct;
      queued =
          Queued-update (update q.status i WaitState.start) q.wakeup i Wakeup.empty q.queue n
            (Queued-status q.status q.wakeup i WaitState.start q.queue n v.queued);
      unqueued = λ j m t. elim (Bool-cases (i == j)) [
        | inl e ↦ let u : WaitState.start ≡ WaitState.waiting = rw e at t in cc
        | inr e ↦ rw e (v.unqueued j m (rw e at t))
      ];
      fresh =
          λ j t. elim (Bool-cases (i == j)) [ inl e ↦ rw e | inr e ↦ rw e (v.fresh j (rw e at t)) ];
    }

pub word-Inv :
    (q : WaitQueue) (w : Word)
    → Inv q
    → is_empty q.queue ≡ not (same_state w.state State.waiting)
    → Inv (record q { word = w })
word-Inv q w v a = record {
  agrees = a;
  distinct = v.distinct;
  queued = v.queued;
  unqueued = v.unqueued;
  fresh = v.fresh;
}

unsnoc-NotIn : (j : ℕ) (xs : List ℕ) (i : ℕ) → NotIn j (xs ++ i ∷ []) → NotIn j xs × (j ≢ i)
unsnoc-NotIn j [] i n = (tt, n.0)
unsnoc-NotIn j (x ∷ xs) i (n, m) = let (a, b) = unsnoc-NotIn j xs i m in ((n, a), b)

snoc-is_empty : (xs : List ℕ) (i : ℕ) → is_empty (xs ++ i ∷ []) ≡ false
snoc-is_empty [] i = refl
snoc-is_empty (x ∷ xs) i = refl

-- The queue with `i` at its back.
module _ (q : WaitQueue) (i : ℕ) (w : Word) (u : Wakeup) where
  abbrev enqueued : WaitQueue
  enqueued = record q {
    word = w;
    queue = q.queue ++ i ∷ [];
    status = update q.status i WaitState.waiting;
    wakeup = update q.wakeup i u;
  }

  pub enqueued-Inv :
      Inv q
      → q.status i ≡ WaitState.start
      → same_state w.state State.waiting ≡ true
      → unwoken u ≡ true
      → Inv enqueued
  enqueued-Inv v s t k =
      let n = other-NotIn q.status q.wakeup i q.queue v.queued (λ e. cc) in
      record {
        agrees = snoc-is_empty q.queue i ∙ sym (ap not t);
        distinct = snoc-Distinct q.queue i v.distinct n;
        queued =
            snoc-All (Queued (update q.status i WaitState.waiting) (update q.wakeup i u)) q.queue i
              (Queued-update (update q.status i WaitState.waiting) q.wakeup i u q.queue n
                (Queued-status q.status q.wakeup i WaitState.waiting q.queue n v.queued))
              (ground arith, ground arith);
        unqueued = λ j m r.
            let (a, b) = unsnoc-NotIn j q.queue i m in
            elim (Bool-cases (i == j)) [
              | inl e ↦ absurd (b (sym ((==_iff i j).0 e)))
              | inr e ↦ rw e (v.unqueued j a (rw e at r))
            ];
        fresh = λ j r. elim (Bool-cases (i == j)) [
          | inl e ↦ let f : WaitState.waiting ≡ WaitState.start = rw e at r in cc
          | inr e ↦ rw e (v.fresh j (rw e at r))
        ];
      }

pub update_self : (f : ℕ → Wakeup) (i : ℕ) → update f i (f i) ≡ f
update_self f i =
    fun_ext
      λ j. elim (Bool-cases (i == j)) [ inl e ↦ rw e (ap f ((==_iff i j).0 e)) | inr e ↦ rw e ]
