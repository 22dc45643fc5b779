-- ===== src/Spin/Exclusion.antt =====
-- Who holds a `RwSpinlock` at once.
use wasm_kernel.Base.{◌+◌, ◌-◌, ◌*◌, ◌≤◌, ◌<◌, ◌≡◌, ◌⊎◌, refl, arith}
use wasm_kernel.Spin.Word
use wasm_kernel.Spin.Threads.{Threads, start, Step, Reach, QuietReach, IsQuiet}

-- The word counts the readers and those that are being turned away, and has the writer's bit.
pub record Inv (t : Threads) : Type 0 where
  pub counted : t.state ≡ 2 * (t.readers + t.undoing) + t.writers
  pub bounded : t.state < Word.usize_mod
  pub single : t.writers ≤ 1
  pub exclusive : 0 < t.writers → t.readers ≡ 0

Step-Inv : {t t' : Threads} (st : Step t t') → IsQuiet st → Inv t → Inv t'
unfolding Word.add_reader Word.undo_reader Word.unlock_shared Word.try_lock_exclusive
    Word.unlock_exclusive
Step-Inv (Step.lock_shared e p) q inv = ground arith
Step-Inv (Step.refuse_shared e p) q inv = ground arith
Step-Inv (Step.undo h p) q inv = ground arith
Step-Inv (Step.unlock_shared h e p) q inv = ground arith
Step-Inv (Step.lock_exclusive e p) q inv = ground arith
Step-Inv (Step.unlock_exclusive h p) q inv = ground arith

QuietReach-Inv : {t : Threads} → QuietReach start t → Inv t
QuietReach-Inv QuietReach.here = omega arith
QuietReach-Inv (QuietReach.next r st q) = Step-Inv st q (QuietReach-Inv r)

QuietReach-Reach : {t : Threads} → QuietReach start t → Reach start t
QuietReach-Reach QuietReach.here = Reach.here
QuietReach-Reach (QuietReach.next r st q) = Reach.next (QuietReach-Reach r) st

-- With any number of threads, as long as no writer lets go while a reader that was turned away has
-- not undone its count: there is one writer at most, no reader beside it, and the word counts the
-- readers together with those that were turned away and have not undone their count.
pub exclusion :
    {t : Threads}
    → QuietReach start t
    → (t.writers ≤ 1)
      × ((t.writers ≡ 0) ⊎ (t.readers ≡ 0))
      × (Word.reader_count t.state ≡ t.readers + t.undoing)
unfolding Word.reader_count
exclusion r = let inv = QuietReach-Inv r in ground arith

-- A `RwSpinlock` is not exclusive: from every state in which a writer has the lock and a reader that
-- was turned away has not undone its count, some order of steps leads on to a reader and a writer
-- that hold the lock together.
pub exclusion_broken :
    (t : Threads)
    → 0 < t.writers
    → 0 < t.undoing
    → (t' : Threads) × Reach t t' × (0 < t'.readers) × (0 < t'.writers)
unfolding Word.add_reader Word.undo_reader Word.try_lock_exclusive Word.unlock_exclusive
exclusion_broken t w u =
    let a : Threads = record t { state = 0; writers = t.writers - 1 } in
    let b : Threads = record a { state = 2; readers = t.readers + 1 } in
    let c : Threads = record b { state = 0; undoing = t.undoing - 1 } in
    let d : Threads = record c { state = 1; writers = t.writers - 1 + 1 } in
    (
      d,
      Reach.next
          (Reach.next
            (Reach.next (Reach.next Reach.here (Step.unlock_exclusive w refl))
              (Step.lock_shared refl refl))
            (Step.undo u refl))
          (Step.lock_exclusive refl refl),
      omega arith,
      omega arith,
    )
