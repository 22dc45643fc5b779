-- ===== src/Lib.antt =====
-- The parts of the kernel's runtime and of the libraries under it that decide who runs, who waits and
-- who owns what, modelled from the Rust sources.
--
-- Base: names and lemmas that all files share, and the outcome of a call that may panic.
--
-- Task: maitake/src/task/state.rs, maitake/src/task.rs and the parts of maitake/src/scheduler.rs that
-- move tasks. Task/Word is the packed `State`; Task/Step has the closures of `StateCell`'s methods and
-- its `fetch_add` and `fetch_sub`; Task/Cell is `transition`'s exchange loop and the methods that run
-- it, with the values that failing exchanges read as an argument. Task/World counts who holds a
-- reference to one task (run queue, poller, a scheduler that waits for the join waker, others) and has
-- an operation for each entry point: `Schedulable::wake_by_val`, `wake_by_ref`, `clone_waker`,
-- `drop_waker`, `TaskRef::cancel`, `Task::poll` from `start_poll` to `end_poll`, the join handle's.
-- Task/Lifecycle makes these a step relation, so any number of threads in any order is a sequence of
-- steps; each transition is one atomic step, which Task/Cell/Linear justifies. `debug` says whether the
-- build has debug assertions. The count is assumed to stay below its 56 bits (`Fits`), as the code does.
--
-- Semaphore: maitake-sync/src/semaphore.rs with the `WakeBatch` of maitake-sync/src/util/wake_batch.rs.
-- Semaphore/Queue is the state and `add_permits_locked`; Semaphore/Ops the rest. A waiter and a waker
-- are numbers; the intrusive list is a list of numbers from back to front. An operation holds the lock
-- from start to end, except that `add_permits_locked` drops it between two batches, where `relock` says
-- what the others did; `reads` are older values that an exchange loop saw. The loop of
-- `add_permits_locked` runs on fuel: one round more than there are waiters is enough. Semaphore/Calls
-- has whole calls one after another.
--
-- Spin: maitake-sync/src/spin.rs. Spin/Word has the atomic operations on the lock's word, wrap-around
-- written out; Spin/Threads any number of threads, one atomic operation a step.
--
-- Memory: util/src/math.rs (Memory/Math), the `Address` methods of hal-core/src/addr.rs on physical
-- addresses (Memory/Address), `Region` of hal-core/src/mem.rs (Memory/Region), and `Page` and
-- `PageRange` of hal-core/src/mem/page.rs with the page ranges of regions (Memory/Pages), with the
-- panics of both builds. Memory/Virtual is the check that a virtual address is canonical.
--
-- Buddy: alloc/src/buddy.rs. Buddy/Heap has the allocator's state, its sizes and orders, and the headers
-- of free blocks; a header stands for its block, so a free list is a list of headers. Buddy/Regions is
-- `add_region`, Buddy/Alloc `alloc_inner` with `split_down`, Buddy/Dealloc `dealloc_inner` with
-- `take_buddy`, Buddy/Pages `alloc_range` and `dealloc_range`. What `take_buddy` reads at its address,
-- and what `List::remove` makes of a header that is not on the list it is removed from, whose links may
-- be those of another list or any data, is a parameter (`Memory` of Buddy/Dealloc), on which nothing is
-- assumed. Buddy/Searched says where `take_buddy` looks. Buddy/Cover counts for each address the free
-- blocks that it lies in; the theorems say how each operation changes this count, so a block is neither
-- lost nor handed out twice.
-- `add_region` runs on fuel; a region whose size is a power of two takes one round.
--
-- Timer: maitake/src/time/timer/wheel.rs. Timer/Bitmap is `next_set_bit`, a bitmap given by its bits;
-- Timer/Wheel one `Wheel`, an intrusive list of entries given by their sleeps' numbers and deadlines;
-- Timer/Core `Core` with `register_sleep`, `cancel_sleep` and `turn_to`, which runs on fuel: each round
-- takes the entries of a slot, so more fuel than entries is enough. Timer/Total weighs the entries.
--
-- WaitCell: maitake-sync/src/wait_cell.rs. WaitCell/State has the word by its bits, and what
-- `poll_wait`, `take_waker` and `is_closed` do to it in one atomic operation; WaitCell/Threads any
-- number of threads that poll, wake and close, an atomic operation or an access of the waker a step.
-- That a waker is woken is a step with the operation before it. WaitCell/Owner says who owns the waker,
-- WaitCell/Next what a thread in the middle of a call does next.
--
-- LinkedList: cordyceps/src/list.rs. A node is its address; LinkedList/Store has the links of all nodes
-- and a list's head, tail and length, LinkedList/Ops the operations at the ends and `remove`,
-- LinkedList/Splits `append`, the iterator and `split_off`. LinkedList/Chain says which sequence of
-- nodes the links and fields stand for. Several lists live in one store.
--
-- WaitQueue: maitake-sync/src/wait_queue.rs. WaitQueue/Queue has the word, the queue and the waiters'
-- nodes, which are known by numbers; WaitQueue/Ops `wake`, `poll_wait` and `release`, WaitQueue/Drain
-- `wake_all` and `close`, which run on fuel: each round takes a waiter, so more fuel than waiters is
-- enough. What is done under the lock is one step; the values that failing exchanges read, and what
-- others do before the lock is taken again, are arguments. WaitQueue/Inv says when a queue is in order,
-- and WaitQueue/Reached runs any sequence of operations on a new queue.
--
-- Bitfield: bitfield/src/pack.rs. Bitfield/Word has the integer's operations, with the width as an
-- argument, Bitfield/Pack `Pack` and Bitfield/Pair `Pair`; a value is its bits. Bitfield/Digits has `&`
-- and `|` as arithmetic, and Bitfield/Spec the packers that span a range of bits.
--
-- MpscQueue: cordyceps/src/mpsc_queue.rs. MpscQueue/Queue has the queue, and a step for each atomic
-- operation of producers and the consumer; a thread that enqueues is known by its node.
-- MpscQueue/Chain says how the nodes hang together while links are missing, MpscQueue/Order what each
-- operation does to them, and MpscQueue/Places where the consumer is. MpscQueue/Consumers lets any
-- number of threads try to consume, and has the drop of a queue, whose loop runs on fuel: one round more
-- than there are nodes is enough.
--
-- Stack: cordyceps/src/stack.rs. Stack/Node has the links and the operations, Stack/Threads a step for
-- each atomic operation of any number of threads, with the stacks as lists beside them. A failed
-- exchange and a new load of the head are the same step, so an exchange may fail for no reason.
--
-- Mutex: maitake-sync/src/mutex.rs, a client of WaitQueue. Mutex/Lock has the mutex as its wait queue
-- and the number of guards, and its operations; Mutex/Polling what a poll does in a queue that is never
-- closed, Mutex/Token where the right to lock is, and Mutex/Given, Passing, Locking and Kept what
-- each operation does with it.
--
-- RwLock: maitake-sync/src/rwlock.rs, a client of Semaphore. RwLock/Lock has the lock as its semaphore,
-- the numbers of guards and the futures that wait; a future is known by its waiter's number.
-- RwLock/Places and RwLock/Sharing say where the waiters of pending futures stand, RwLock/Balance what
-- the permits add up to, and RwLock/Kept, Resumed and Ended that the operations keep it. No other
-- thread takes the lock between two batches there, and the rounds that add_permits gets are one more
-- than there are waiters.
--
-- Files named Examples hold the instances of the theorems at concrete values, and tests.
--
-- Not modelled: futures' bodies and outputs, spans and logging, memory layout and vtables, memory
-- orderings weaker than a single order of the atomic operations, Permit's and the owned variants'
-- wrappers, and the crates of the repository that no file below names.
pub mod Base
pub mod Task
pub mod Semaphore
pub mod Spin
pub mod Stack
pub mod Memory
pub mod MpscQueue
pub mod Bitfield
pub mod Buddy
pub mod Timer
pub mod WaitCell
pub mod LinkedList
pub mod WaitQueue
pub mod Mutex
pub mod RwLock
