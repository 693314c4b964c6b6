-- ===== src/Lib.antt =====
-- asco is a C++ library of coroutines: tasks that run on worker threads, with the locks, queues,
-- channels, timers and files that they share. This library models the parts of it that keep state of
-- their own, and proves what makes them correct.
--
-- The parts, and how they interact
-- * asco/concurrency/hash_map.h is the concurrent map in which the scheduler and the execution
--   domains keep their tables. HashMap models it: HashMap/Defs has the buckets with their reference
--   counts, the probing, do_insert, do_remove, do_get, do_rehash and the guard's destructor, and
--   HashMap/Api the public calls, which take the structure lock of asco/sync/spinrwlock.h around
--   those. Its hash is mixed by mix64 of asco/util/murmur.h; Murmur has that file, with the hash of
--   strings. Keys, their comparison and std::hash are the record HashKey, an instance argument.
-- * asco/sync/spinrwlock.h is a reader-writer lock in one word. SpinRwLock has its calls as atomic
--   accesses that threads interleave, over the system of threads in Interleaving; SpinRwLock/Alone
--   has the calls of one thread alone, as HashMap uses them.
-- * asco/concurrency/ring_queue.h is the bounded queue below the channels: RingQueue, where
--   RingQueue/Counted, interleaved, is the queue of values of type void. asco/sync/channel.h adds
--   two semaphores and the end of the stream: Channel, over the list that RingQueue shows the ring
--   to be.
-- * asco/sync/spinlock.h is a lock in one Boolean, interleaved in the same way: Spinlock.
-- * asco/sync/condition_variable.h is a queue of sleeping tasks under a spinlock: ConditionVariable
--   has its calls as critical sections.
-- * asco/sync/semaphore.h, with wait_once and notify of asco/sync/condition_variable.h, and
--   asco/sync/mutex.h on top of it: Semaphore, interleaved as the lock is.
-- * asco/sync/rwlock.h is a reader-writer lock whose tasks sleep in two condition variables:
--   RwLock, interleaved as well; RwLock/Typed has the guards of the lock with a value.
-- * The guards of all these locks, and of the map, are objects that are moved and assigned: Guards.
-- * asco/future.h is the result of a coroutine, which is moved while the coroutine runs: Future.
-- * asco/join_handle.h is how a spawned task completes and how its awaiter learns of it:
--   JoinHandle, interleaved.
-- * asco/task/select.h races branches, of which the first gives the result: Select, interleaved.
--   asco/task/join_set.h gets the outputs of its tasks through a channel: JoinSet, over Channel.
-- * asco/core/task/execution_domain.cpp keeps the executions of a domain, each with the stack of
--   its coroutines: ExecutionDomain, with push_handle and pop_handle of
--   asco/core/task/executor.cpp. Executor has the rest of that file, one turn of an execution, and
--   the calls of the callbacks from asco/core/cancellation.cpp.
-- * asco/core/task/cycle_scheduler.h runs the executions of a domain in turn: CycleScheduler.
--   asco/core/task/dynprio_scheduler.cpp, the scheduler of the workers, runs the one with the
--   lowest priority number first: DynprioScheduler. Both set states in the execution domain.
-- * asco/core/runtime.h hands spawned coroutines to the workers through a bounded queue, from which
--   fetch_task of asco/core/worker.cpp takes them: Runtime. Worker has one round of a worker,
--   run_once, as the list of its calls to nested execution domains (Worker/Way has its way down).
--   IdleWorkers has how a spawn wakes a worker that sleeps, and Daemon the thread under each
--   worker, of asco/core/daemon.cpp, interleaved both.
-- * asco/core/mm/coroutine_pool.cpp hands out the memory of coroutine frames: CoroutinePool.
-- * asco/core/time/high_resolution_timer.cpp wakes tasks at their time: Timer.
-- * asco/io/buffer.h and asco/io/file.cpp are the bytes that are read and written, and the file
--   pointer: Buffer and File. Below them asco/core/os/io.h has the requests to the operating
--   system; asco/core/os/linux/io_uring.cpp and asco/core/os/windows/iocp.cpp submit and complete
--   them: IoUring (with the requests themselves in IoUring/Request) and Iocp.
-- * asco/util/flags.h is a set in one word: Flags.
-- * Prelude has what they share: binary digits, tests on numbers, families indexed by numbers with
--   counting, a pigeonhole lemma, and indices that go round.
--
-- How the code is modelled
-- * Numbers are naturals; where a machine word can wrap, `% 2 ^ 64` is written out (u64). The file
--   pointer is signed, and an operation on it that overflows ends the call; reference counts are not
--   cut to their 61 bits.
-- * HashMap, RingQueue, Channel, ConditionVariable, Buffer, File, CoroutinePool, Timer,
--   CycleScheduler, DynprioScheduler, ExecutionDomain, Executor, Runtime, Worker, Future, JoinSet,
--   IoUring and Iocp take each call from its start to its end with no other thread in between, on a
--   state that may otherwise be any; only DynprioScheduler splits end() where another worker can
--   come in. A loop that no other thread can then end is `none`. SpinRwLock, Spinlock, Semaphore,
--   RwLock, JoinHandle, Select, IdleWorkers and Daemon interleave single atomic accesses, in a
--   sequentially consistent order; weak exchanges may fail for no reason.
-- * Where a component keeps a hash map or a hash set as a table, that is a function from keys.
-- * What lies outside is an argument: the coroutines between two suspensions, std::priority_queue
--   (with its documented laws as a hypothesis), the kernel's ring and its results, the answers of
--   Windows, the constants of <fcntl.h>, <errno.h> and <windows.h>, and time stamps.
-- * Loops over an array recurse on the number of elements left. The retry loops of the map's public
--   calls, try_recv and schedule take a number of rounds, and the theorems say how many are enough;
--   a round of a worker takes one more than the rank of its domain.
-- * The moves of other handles, the memory orders, exceptions of allocators, the coroutine frames and the
--   operating system are not modelled, nor are the tuple of join_all.h, and how an execution gets
--   and wakes a subdomain.
pub mod Prelude
pub mod JoinSet
pub mod Murmur
pub mod Flags
pub mod Guards
pub mod HashMap
pub mod Interleaving
pub mod SpinRwLock
pub mod RingQueue
pub mod Select
pub mod Semaphore
pub mod ConditionVariable
pub mod Spinlock
pub mod Channel
pub mod Buffer
pub mod File
pub mod CoroutinePool
pub mod Timer
pub mod Future
pub mod Worker
pub mod CycleScheduler
pub mod RwLock
pub mod Daemon
pub mod DynprioScheduler
pub mod JoinHandle
pub mod IdleWorkers
pub mod IoUring
pub mod ExecutionDomain
pub mod Executor
pub mod Iocp
pub mod Runtime
