-- ===== src/WaitQueue/Waking.antt =====
-- `wake` gives its notification to the next waiter, or stores it.
use mathlib.Core.Path.{subst}
use wasm_kernel.Base.{
  ◌≡◌, ◌≢◌, ◌⊎◌, refl, sym, ap, ◌∙◌, inl, inr, Bool, false, List, [], ◌∷◌, All, Yields,
}
use wasm_kernel.WaitQueue.Queue.{
  State, Word, WaitQueue, same_state, with_state, try_wakes, Tried, lock, exchange, or_else,
  try_wake,
}
use wasm_kernel.WaitQueue.Ops.{wake_locked, wake_tried, wake}
use wasm_kernel.WaitQueue.Inv.{Inv, Open}
use wasm_kernel.WaitQueue.Notified.{Notifies, same_word, wake_locked-Notifies}

-- The reads of the exchange loop of `wake`: none of them that of a closed queue.
abbrev pub OpenReads : List Word → Type 0
OpenReads reads = All (λ (r : Word). r.state ≢ State.closed) reads

try_wake-cases :
    (w : Word) (s : State)
    → w.state ≡ s
    → s ≢ State.closed
    → (try_wake w ≡ lock)
      ⊎ ((try_wake w ≡ exchange (with_state w State.woken))
          × (same_state w.state State.waiting ≡ false))
unfolding try_wake
try_wake-cases w State.empty e c = inr (rw e, rw e)
try_wake-cases w State.waiting e c = inl (rw e)
try_wake-cases w State.woken e c = inr (rw e, rw e)
try_wake-cases w State.closed e c = absurd (c refl)

try_wakes-Open :
    (reads : List Word) (w : Word)
    → OpenReads reads
    → w.state ≢ State.closed
    → (try_wakes reads w ≡ lock)
      ⊎ ((try_wakes reads w ≡ exchange (with_state w State.woken))
          × (same_state w.state State.waiting ≡ false))
unfolding try_wakes
try_wakes-Open [] w o c = try_wake-cases w w.state refl c
try_wakes-Open (r ∷ reads) w (o, os) c = elim (try_wake-cases r r.state refl o) [
  | inl e ↦ inl (ap (λ (t : Tried). or_else t (try_wakes reads w)) e)
  | inr (e, f) ↦
      subst
        (λ t.
          (or_else t (try_wakes reads w) ≡ lock)
          ⊎ ((or_else t (try_wakes reads w) ≡ exchange (with_state w State.woken))
              × (same_state w.state State.waiting ≡ false)))
        (sym e) (try_wakes-Open reads w os c)
]

pub wake_eq :
    (debug : Bool) (reads : List Word) (q : WaitQueue)
    → OpenReads reads
    → Open q
    → wake debug reads (λ t. t) q ≡ wake_locked debug q.word q
unfolding wake wake_tried wake_locked
wake_eq debug reads q o c = elim (try_wakes-Open reads q.word o c) [
  | inl e ↦ ap (wake_tried debug (λ t. t) q) e
  | inr (e, f) ↦ ap (wake_tried debug (λ t. t) q) e ∙ rw (f, same_word q.word)
]

-- No notification is lost or given twice: `wake` on an open queue returns in both builds. If a
-- waiter is queued, the one that came first leaves the queue with the notification, and its waker,
-- if it has one, is returned; else the notification is stored in the word. All else is as before,
-- and the queue stays in order. (`reads` are other values that its exchange loop read, none of them
-- that of a closed queue; nobody changes the queue between the loop and the lock.)
pub wake-Notifies :
    (debug : Bool) (reads : List Word) (q : WaitQueue)
    → OpenReads reads
    → Open q
    → Inv q
    → Yields (wake debug reads (λ t. t) q) (λ out. Notifies q.queue q out × Inv out.0)
wake-Notifies debug reads q o c v = rw (wake_eq debug reads q o c) (wake_locked-Notifies debug q v)
