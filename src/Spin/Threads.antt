-- ===== src/Spin/Threads.antt =====
-- Threads that use one `RwSpinlock`, an atomic operation at a time. Threads at the same place are
-- alike, so they are counted; idle threads need no count, and there is no limit on them.
use wasm_kernel.Base.{ℕ, ◌+◌, ◌-◌, ◌<◌, ◌≡◌, true, false, returned}
use wasm_kernel.Spin.Word

-- `undoing` threads have counted themselves as readers, have seen a writer, and have not undone it.
pub record Threads : Type 0 where
  pub state : ℕ
  pub readers : ℕ
  pub undoing : ℕ
  pub writers : ℕ

abbrev pub start : Threads
start = record { state = Word.unlocked; readers = 0; undoing = 0; writers = 0 }

pub data Step (t t' : Threads) : Type 0 where
  lock_shared :
      {s : ℕ}
      → Word.add_reader t.state ≡ returned (s, true)
      → t' ≡ record t { state = s; readers = t.readers + 1 }
      → Step t t'
  refuse_shared :
      {s : ℕ}
      → Word.add_reader t.state ≡ returned (s, false)
      → t' ≡ record t { state = s; undoing = t.undoing + 1 }
      → Step t t'
  undo :
      0 < t.undoing
      → t' ≡ record t { state = Word.undo_reader t.state; undoing = t.undoing - 1 }
      → Step t t'
  unlock_shared :
      {s : ℕ}
      → 0 < t.readers
      → Word.unlock_shared false t.state ≡ returned s
      → t' ≡ record t { state = s; readers = t.readers - 1 }
      → Step t t'
  lock_exclusive :
      {s : ℕ}
      → Word.try_lock_exclusive t.state ≡ (s, true)
      → t' ≡ record t { state = s; writers = t.writers + 1 }
      → Step t t'
  unlock_exclusive :
      0 < t.writers
      → t' ≡ record t { state = Word.unlock_exclusive t.state; writers = t.writers - 1 }
      → Step t t'

pub data Reach (s : Threads) : Threads → Type 0 where
  here : Reach s s
  next : {t t' : Threads} → Reach s t → Step t t' → Reach s t'

-- No writer lets go of the lock while a reader that it turned away has not undone its count.
abbrev pub IsQuiet : {t t' : Threads} → Step t t' → Type 0
IsQuiet {t} (unlock_exclusive h e) = t.undoing ≡ 0
IsQuiet _ = Unit

pub data QuietReach (s : Threads) : Threads → Type 0 where
  here : QuietReach s s
  next : {t t' : Threads} → QuietReach s t → (st : Step t t') → IsQuiet st → QuietReach s t'
