-- ===== src/Spin/Examples.antt =====
-- Runs of threads on a `RwSpinlock`.
use wasm_kernel.Base.{◌+◌, ◌≤◌, ◌<◌, ◌≡◌, ◌⊎◌, refl, arith}
use wasm_kernel.Spin.Word
use wasm_kernel.Spin.Threads.{Threads, start, Step, Reach, QuietReach}
use wasm_kernel.Spin.Exclusion.{exclusion, exclusion_broken}

-- A writer has the lock, and a reader is being turned away.
abbrev contended : Threads
contended = record { state = 3; readers = 0; undoing = 1; writers = 1 }

QuietReach-contended : QuietReach start contended
unfolding Word.try_lock_exclusive Word.add_reader
QuietReach-contended =
    QuietReach.next
      (QuietReach.next {t' = record { state = 1; readers = 0; undoing = 0; writers = 1 }}
        QuietReach.here (Step.lock_exclusive refl refl) tt)
      (Step.refuse_shared refl refl) tt

exclusion_example :
    (contended.writers ≤ 1)
    × ((contended.writers ≡ 0) ⊎ (contended.readers ≡ 0))
    × (Word.reader_count contended.state ≡ contended.readers + contended.undoing)
exclusion_example = exclusion QuietReach-contended

exclusion_broken_example : (t' : Threads) × Reach contended t' × (0 < t'.readers) × (0 < t'.writers)
exclusion_broken_example = exclusion_broken contended (omega arith) (omega arith)
