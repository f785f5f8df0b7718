-- ===== src/Lib.antt =====
-- A verification library for the core of octagonal-wheels, the concurrency and data toolkit under
-- packages/octagonal-wheels/src of this repository, and for the value store under
-- packages/value-store/src. Paths below are from the repository's root.
--
-- The program's parts modelled here, the file of each model, and the code:
--
--   AsyncQueue   packages/octagonal-wheels/src/iterable/asyncQueue.ts, `createAsyncQueue`. The record
--                Queue holds the closure's variables (buffer, head, size, finished, disposed,
--                iteratorAcquired, readInFlight, waitingReader); enqueue, finish, dispose, next and
--                the iterator's methods have the closure's names in snake case, and `settle` is the
--                continuation given to `pending.then`. AsyncQueue/Channel is the abstract queue.
--   Inbox        packages/octagonal-wheels/src/bureau/Inbox.ts, the classes SyncInbox, Inbox and
--                InboxWithEvent. One record holds their fields, and its field `class` says which
--                override a call reaches. tryPost, tryPick, tryCancelPost and the hooks are in
--                Inbox.antt; Inbox/Rounds cuts the asynchronous `post` and `pick` at their awaits.
--   Permits      packages/octagonal-wheels/src/concurrency/semaphore.internal.ts, the semaphore that
--                semaphore.ts and semaphore_v2.ts export: acquire, tryAcquire, release, and the
--                microtasks that resume waiting callers.
--   Semaphore    packages/octagonal-wheels/src/concurrency/semaphore_v1.ts, the deprecated queueing
--                semaphore: execProcess (exec_process, with its loop `pump`), release, _acquire
--                (acquire_in), the timers (timed_out) and setLimit.
--   Deferred     packages/octagonal-wheels/src/concurrency/deferredAction.ts, `createDeferredAction`.
--   Coalescing   packages/octagonal-wheels/src/concurrency/coalescingNotifier.ts,
--                `createCoalescingNotifier`, whose timer is a deferred action, here as there.
--   Scope        packages/octagonal-wheels/src/resource/scope.ts: runScope, withScope and pipelines.
--   SafePath     packages/octagonal-wheels/src/path.ts: the validation of path components and relative
--                paths, and resolvePathWithinRoot. Strings are lists of UTF-16 code units.
--   LruCache     packages/octagonal-wheels/src/memory/LRUCache.ts. A `Map` is the list of its entries,
--                oldest first (Common/Maps).
--   Memo         packages/octagonal-wheels/src/memory/memo.ts, `memoWithMap`: the returned function and
--                the `catch` of each promise as a later step.
--   TaskController  packages/octagonal-wheels/src/concurrency/lock_v2.ts, ConcurrentTaskController: each
--                round of the loops of __acquire and waitForAllReleased is a step (acquire_round,
--                wait_for_all_released), and `run` is its acquisition and its release as two steps.
--   ValueStore   packages/value-store/src: errors.ts (Errors), validation.ts (Validation, whose stack of
--                tasks runs over a heap of JavaScript objects), store.ts (Capture for the facades, Store
--                for the operations), memory.ts (Memory) and web-storage.ts (WebStorage).
--   EncodeObject packages/octagonal-wheels/src/encoding/encodeobject.ts: encodeAnyArray with its parts, and
--                decodeAnyArray in EncodeObject/Decode, over positions that may be negative or NaN.
--   KeyedLock    packages/octagonal-wheels/src/concurrency/lock.scoped.ts: withLock, whose operation is
--                a function to the state when it first waits (what it does until then, calls of withLock
--                within calls included, is a Program), and isLockAcquired; the callback of `prev.then` and the
--                settling of an operation are events of a `run`.
--   TaskPool     packages/octagonal-wheels/src/concurrency/task.ts, the generators
--                processAllTasksWithConcurrencyLimit and processAllGeneratorTasksWithConcurrencyLimit, and
--                mapAllTasksWithConcurrencyLimit; which promise wins a race is an argument.
--   BackedQueue  packages/octagonal-wheels/src/BackedQueue: QueueBackendMemory.ts (Memory, where
--                finish_atomic is the end of a transaction) and BackedQueue.ts with MemoryBackedQueue.ts
--                (Operations). Places and Views read the one map of the backend as a function of the
--                queued and the processing places.
--
-- Common holds what they share: Boolean tests, lists over the native numbers, signed integers, the
-- circular buffer (Common/Ring), masks of low ones (Common/Mask), texts (Common/Texts) and the entries of a
-- JavaScript `Map` (Common/Maps). Each part's Tests module runs
-- the definitions on concrete calls and applies the theorems at concrete inputs.
--
-- How the code is rendered. An object is a record, a method a function to the new state and the
-- result; a thrown error is `none` or a constructor of its own. A promise is a number, and the events
-- of the event loop are steps: a sequence of calls in a `run` holds the callers' calls and the
-- continuations in any order that JavaScript's single thread can take. Buffers are functions or lists
-- of options, where `none` is a place that holds `undefined`.
--
-- Numbers. Counts, capacities and quantities are natural numbers. The indices of an inbox and the
-- counter of the permits are signed, since the code can make them negative; so is the cached length.
-- The queueing semaphore subtracts a running item's quantity from the sum of all running quantities,
-- which it is part of, so the subtraction never stops at 0. Numbers are unbounded: JavaScript's are exact below 2^53, and an
-- index under a mask is read below 2^31.
--
-- Loops. The constructor of an inbox doubles from 256 with `capacity` rounds of fuel; each round
-- grows the value by at least one, so that is enough. The inspection of a value has the fuel `cost`, which
-- follows the paths of distinct objects from it, and inspect_accepts says that it is enough. The decoder
-- of objects has one round of fuel for each value; more rounds than the text is long are enough for what
-- was encoded, and none for some malformed texts, both of which is proved. The scan for the
-- next key of a queue has more rounds than the queue has entries, which get_next_queue_key_total says are
-- enough, and so has the loop over a list of tasks; the loop over a generator of tasks has no fuel that is
-- enough with the limit 1. All other loops are by structure.
--
-- What stands for code outside: the scheduler of a deferred action is an argument, with what it does
-- in its call and which cancellations throw; the cleanups of a scope are names with what they throw;
-- the methods of a backend, the serializer, JSON.parse and JSON.stringify, and the printing and parsing of
-- JavaScript's numbers are functions, as are localeCompare and the test of keys that a queue bypasses;
-- TextEncoder is a function to a number of bytes; the strings of makeUniqueString are taken to be
-- distinct, as numbers of their calls; `fn` of a memo returns a new promise at each call, and does
-- not throw or call the memo itself.
--
-- Not modelled: the other parts of the toolkit, which are I/O, user interface, cryptography,
-- wrappers, or left for later. Within the parts above: the memo of a semaphore item, which nothing
-- reads, the promise `onDisposed` of an inbox, the default scheduler over the global timers,
-- and of the backed queue the waiters, their timeouts and abort signals, and the persistent subclasses.
pub mod Common
pub mod AsyncQueue
pub mod Inbox
pub mod Semaphore
pub mod Permits
pub mod Deferred
pub mod Coalescing
pub mod Scope
pub mod SafePath
pub mod LruCache
pub mod Memo
pub mod TaskController
pub mod ValueStore
pub mod EncodeObject
pub mod BackedQueue
pub mod KeyedLock
pub mod TaskPool
