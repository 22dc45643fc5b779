-- ===== src/Spin/Word.antt =====
-- The atomic operations of `Spinlock` and `RwSpinlock` in maitake-sync/src/spin.rs, on the word that
-- holds the lock. A word is below `usize_mod`, and `fetch_add` and `fetch_sub` wrap.
use wasm_kernel.Base.{
  ℕ, ◌+◌, ◌-◌, ◌*◌, ◌/◌, ◌%◌, ◌^◌, Bool, true, false, not, ◌==◌, ltb, if◌then◌else◌, Outcome,
  returned, ◌>>=◌, ◌>>◌, assert, debug_assert,
}

abbrev pub usize_mod : ℕ
usize_mod = 2 ^ 64

abbrev pub unlocked : ℕ
unlocked = 0

abbrev pub writer : ℕ
writer = 1

abbrev pub reader : ℕ
reader = 2

-- `Spinlock::try_lock`: the word, and whether the lock was taken, `compare_exchange(false, true)`.
unfoldable pub try_lock : Bool → Bool × Bool
try_lock locked = if locked then (locked, false) else (true, true)

unfoldable pub unlock : Bool → Bool
unlock locked = false

-- The bit that `state & WRITER` tests.
abbrev pub has_writer : ℕ → Bool
has_writer state = state % 2 == writer

unfoldable pub reader_count : ℕ → ℕ
reader_count state = state / 2

abbrev pub fetch_add : ℕ → ℕ → ℕ
fetch_add state n = (state + n) % usize_mod

abbrev pub fetch_sub : ℕ → ℕ → ℕ
fetch_sub state n = (state + usize_mod - n) % usize_mod

-- The first half of `try_lock_shared`: a reader is counted, and the word before says whether a
-- writer has the lock. It panics where the count is close to its end.
unfoldable pub add_reader : ℕ → Outcome (ℕ × Bool)
add_reader state =
    assert (ltb state (usize_mod - 1 - reader * 2))
    >> returned (fetch_add state reader, not (has_writer state))

-- The second half, where a writer has the lock: the increment is undone.
unfoldable pub undo_reader : ℕ → ℕ
undo_reader state = fetch_sub state reader

-- `try_lock_shared` where no other thread comes in between
unfoldable pub try_lock_shared : ℕ → Outcome (ℕ × Bool)
unfolding add_reader undo_reader
try_lock_shared state = add_reader state >>= λ (next, shared).
    returned (if shared then next else undo_reader next, shared)

unfoldable pub unlock_shared : Bool → ℕ → Outcome ℕ
unlock_shared debug state =
    debug_assert debug (not (has_writer state)) >> returned (fetch_sub state reader)

unfoldable pub try_lock_exclusive : ℕ → ℕ × Bool
try_lock_exclusive state = if state == unlocked then (writer, true) else (state, false)

-- `swap(UNLOCKED)`: whatever the word holds is gone.
unfoldable pub unlock_exclusive : ℕ → ℕ
unlock_exclusive state = unlocked

unfoldable pub is_locked : ℕ → Bool
is_locked state = not (state % 4 == 0)

unfoldable pub is_locked_exclusive : ℕ → Bool
is_locked_exclusive state = has_writer state
