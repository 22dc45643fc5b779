-- ===== src/WaitQueue/Trying.antt =====
-- `try_wait` and `is_closed`.
use wasm_kernel.Base.{ℕ, ltb, Bool, if◌then◌else◌, List, [], ◌∷◌}
use wasm_kernel.WaitQueue.Queue.{State, Word, WaitQueue, same_state, with_state}
use wasm_kernel.WaitQueue.Ops.{Polled, pending, ready, ready_closed}

unfoldable pub is_closed : WaitQueue → Bool
is_closed q = same_state q.word.state State.closed

-- After the loop, by the state that it has read last.
abbrev pub settled_at : State → ℕ → Word → Polled
settled_at State.closed initial w = ready_closed
settled_at State.empty initial w = if ltb initial w.wake_alls then ready else pending
settled_at State.waiting initial w = if ltb initial w.wake_alls then ready else pending
settled_at State.woken initial w = ready

-- The loop: it goes on while it reads `Woken` and its exchange fails.
unfoldable pub try_wait_loop : List Word → ℕ → WaitQueue → WaitQueue × Polled
try_wait_loop [] initial q =
    if same_state q.word.state State.woken
    then (record q { word = with_state q.word State.empty }, ready)
    else (q, settled_at q.word.state initial q.word)
try_wait_loop (r ∷ reads) initial q =
    let again = try_wait_loop reads initial q in
    if same_state r.state State.woken then again else (q, settled_at r.state initial r)

-- The count of `wake_all` that is loaded first.
abbrev pub initial_wake_alls : List Word → WaitQueue → ℕ
initial_wake_alls [] q = q.word.wake_alls
initial_wake_alls (r ∷ reads) q = r.wake_alls

-- `reads` are the words that the load and failing exchanges read before the queue's own.
unfoldable pub try_wait : List Word → WaitQueue → WaitQueue × Polled
unfolding try_wait_loop
try_wait reads q = try_wait_loop reads (initial_wake_alls reads q) q
