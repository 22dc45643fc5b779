-- ===== src/WaitQueue/Ops.antt =====
-- `wake`, `poll_wait` and `release`, and what they call. A section under the lock is one step, but
-- for what is done to the word without the lock: where a function takes the word that was loaded as
-- `curr`, the queue's own word is what the others have made of it since.
use mathlib.Core.Option.{Option, none, some}
use wasm_kernel.Base.{
  ℕ, ◌==◌, update, Bool, true, false, not, ◌&&◌, if◌then◌else◌, List, [], ◌∷◌, ◌++◌, Outcome,
  returned, panicked, ◌>>=◌, ◌>>◌, debug_assert,
}
use wasm_kernel.WaitQueue.Queue.{
  State, Word, Wakeup, WaitState, WaitQueue, same_state, ◌=word=◌, with_state, Tried, done, lock,
  exchange, try_wakes, is_empty,
}

-- `Waiter::wake`
unfoldable pub wake_node : ℕ → Wakeup → WaitQueue → Outcome (WaitQueue × Option ℕ)
wake_node i wakeup q =
    let q' = record q { wakeup = update q.wakeup i wakeup } in
    elim (q.wakeup i) [
      | Wakeup.waiting w ↦ returned (q', some w)
      | Wakeup.empty ↦ returned (q', none)
      | Wakeup.one ↦ panicked
      | Wakeup.all ↦ panicked
      | Wakeup.closed ↦ panicked
    ]

-- `wake_locked` where the queue is not `Waiting` any more: the wakeup is stored.
unfoldable pub store_wakeup : Bool → Word → WaitQueue → Outcome WaitQueue
store_wakeup debug curr q =
    if q.word =word= curr
    then returned (record q { word = with_state curr State.woken })
    else debug_assert debug (not (same_state q.word.state State.waiting))
      >> returned (record q { word = with_state q.word State.woken })

-- `wake_locked` where it is: the next waiter is taken off and woken.
unfoldable pub wake_next : Word → List ℕ → WaitQueue → Outcome (WaitQueue × Option ℕ)
unfolding wake_node
wake_next curr [] q = panicked
wake_next curr (i ∷ rest) q = do
  (q', waker) ← wake_node i Wakeup.one (record q { queue = rest })
  returned (if is_empty rest then record q' { word = with_state curr State.empty } else q', waker)

unfoldable pub wake_locked : Bool → Word → WaitQueue → Outcome (WaitQueue × Option ℕ)
unfolding store_wakeup wake_next
wake_locked debug curr q =
    if same_state curr.state State.waiting
    then wake_next curr q.queue q
    else (store_wakeup debug curr q >>= λ q'. returned (q', none))

-- `wake` after its loop; `relock` is what others do between the loop and the lock.
unfoldable pub wake_tried :
    Bool → (WaitQueue → WaitQueue) → WaitQueue → Tried → Outcome (WaitQueue × Option ℕ)
unfolding wake_locked
wake_tried debug relock q done = returned (q, none)
wake_tried debug relock q (exchange next) = returned (record q { word = next }, none)
wake_tried debug relock q lock = wake_locked debug (relock q).word (relock q)

unfoldable pub wake :
    Bool → List Word → (WaitQueue → WaitQueue) → WaitQueue → Outcome (WaitQueue × Option ℕ)
unfolding try_wakes wake_tried
wake debug reads relock q = wake_tried debug relock q (try_wakes reads q.word)

-- `waiter`, of which `wait` makes a future
unfoldable pub wait : ℕ → WaitQueue → WaitQueue
wait i q = record q {
  wakeup = update q.wakeup i Wakeup.empty;
  status = update q.status i WaitState.start;
  seen = update q.seen i q.word.wake_alls;
}

pub data Polled : Type 0 where
  pending : Polled
  ready : Polled
  ready_closed : Polled

abbrev pub set_status : ℕ → WaitState → WaitQueue → WaitQueue
set_status i s q = record q { status = update q.status i s }

abbrev pub set_wakeup : ℕ → Wakeup → WaitQueue → WaitQueue
set_wakeup i w q = record q { wakeup = update q.wakeup i w }

abbrev pub registered : Option ℕ → Wakeup → Wakeup
registered none old = old
registered (some w) old = Wakeup.waiting w

-- The node is put at the front of the queue.
unfoldable pub enqueue : Bool → ℕ → Option ℕ → WaitQueue → Outcome (WaitQueue × Polled)
enqueue debug i cx q = elim cx [
  | none ↦
      returned (record (set_status i WaitState.waiting q) { queue = q.queue ++ i ∷ [] }, pending)
  | some w ↦
      debug_assert debug (elim (q.wakeup i) [ Wakeup.empty ↦ true | _ ↦ false ])
      >> returned (
        record (set_wakeup i (Wakeup.waiting w) (set_status i WaitState.waiting q)) {
          queue = q.queue ++ i ∷ [];
        },
        pending,
      )
]

-- The loop `'to_waiting`: the word that it leaves, or the answer; `reads` are values that failing
-- exchanges read.
pub data ToWaiting : Type 0 where
  waits : Word → ToWaiting
  consumes : Word → ToWaiting
  refuses : ToWaiting

-- The last round, by the state that it reads.
abbrev pub to_waiting_at : State → Word → ToWaiting
to_waiting_at State.empty w = waits (with_state w State.waiting)
to_waiting_at State.waiting w = waits w
to_waiting_at State.woken w = consumes (with_state w State.empty)
to_waiting_at State.closed w = refuses

-- A round whose exchange fails; reading `Waiting` or `Closed` ends the loop with no exchange.
abbrev pub reread : State → Word → ToWaiting → ToWaiting
reread State.empty w again = again
reread State.woken w again = again
reread State.waiting w again = waits w
reread State.closed w again = refuses

unfoldable pub to_waiting : List Word → Word → ToWaiting
to_waiting [] w = to_waiting_at w.state w
to_waiting (r ∷ reads) w = reread r.state w (to_waiting reads w)

unfoldable pub poll_locked :
    Bool → ℕ → Option ℕ → WaitQueue → ToWaiting → Outcome (WaitQueue × Polled)
unfolding enqueue
poll_locked debug i cx q (waits w) = enqueue debug i cx (record q { word = w })
poll_locked debug i cx q (consumes w) =
    returned (set_status i WaitState.woken (record q { word = w }), ready)
poll_locked debug i cx q refuses = returned (q, ready_closed)

unfoldable pub poll_start :
    Bool → List Word → ℕ → Option ℕ → WaitQueue → Outcome (WaitQueue × Polled)
unfolding to_waiting poll_locked
poll_start debug reads i cx q =
    if not (q.word.wake_alls == q.seen i)
    then returned (set_status i WaitState.woken q, ready)
    else poll_locked debug i cx q (to_waiting reads q.word)

unfoldable pub poll_waiting : ℕ → Option ℕ → Wakeup → WaitQueue → WaitQueue × Polled
poll_waiting i cx (Wakeup.waiting w) q =
    (set_wakeup i (registered cx (Wakeup.waiting w)) q, pending)
poll_waiting i cx Wakeup.one q = (set_status i WaitState.woken q, ready)
poll_waiting i cx Wakeup.all q = (set_status i WaitState.woken q, ready)
poll_waiting i cx Wakeup.closed q = (set_status i WaitState.woken q, ready_closed)
poll_waiting i cx Wakeup.empty q = (set_wakeup i (registered cx Wakeup.empty) q, pending)

-- `poll_wait`, by the state of the waiter
unfoldable pub poll_at :
    Bool
    → (WaitQueue → WaitQueue)
    → List Word
    → ℕ
    → Option ℕ
    → WaitState
    → WaitQueue
    → Outcome (WaitQueue × Polled)
unfolding poll_start poll_waiting
poll_at debug relock reads i cx WaitState.start q =
    if same_state q.word.state State.woken
    then returned
        (set_status i WaitState.woken (record q { word = with_state q.word State.empty }), ready)
    else poll_start debug reads i cx (relock q)
poll_at debug relock reads i cx WaitState.waiting q = returned (poll_waiting i cx (q.wakeup i) q)
poll_at debug relock reads i cx WaitState.woken q = returned (q, ready)

-- `poll_wait`, with the caller's waker, if any; `relock` is what others do between the first
-- exchange and the lock.
unfoldable pub poll_wait :
    Bool
    → (WaitQueue → WaitQueue)
    → List Word
    → ℕ
    → Option ℕ
    → WaitQueue
    → Outcome (WaitQueue × Polled)
unfolding poll_at
poll_wait debug relock reads i cx q = poll_at debug relock reads i cx (q.status i) q

-- `List::remove`
abbrev pub remove : ℕ → List ℕ → List ℕ
remove i [] = []
remove i (j ∷ queue) = if i == j then queue else j ∷ remove i queue

abbrev pub is_one : Wakeup → Bool
is_one Wakeup.one = true
is_one _ = false

unfoldable pub removed : ℕ → WaitQueue → WaitQueue
removed i q =
    let rest = remove i q.queue in
    record q {
      queue = rest;
      word =
          if is_empty rest && same_state q.word.state State.waiting
          then with_state q.word State.empty
          else q.word;
    }

-- `release`, by the state of the waiter
unfoldable pub release_at : Bool → ℕ → WaitState → WaitQueue → Outcome (WaitQueue × Option ℕ)
release_at debug i WaitState.start q = returned (q, none)
release_at debug i WaitState.woken q = returned (q, none)
release_at debug i WaitState.waiting q =
    if is_one (q.wakeup i)
    then wake_locked debug q.word (removed i q)
    else returned (removed i q, none)

-- `release`, of a future that is dropped
unfoldable pub release : Bool → ℕ → WaitQueue → Outcome (WaitQueue × Option ℕ)
unfolding release_at
release debug i q = release_at debug i (q.status i) q
