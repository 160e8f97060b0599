-- ===== src/Lib.antt =====
-- renn is a small C++ runtime for asynchronous programs: containers (a hash table over a linked
-- list, a vector), a thread pool over a blocking queue, synchronisation primitives, and fibers
-- over coroutines. This library models them and proves what they promise.
-- Prelude holds what the parts share: Boolean tests and lists over the native numbers (Tests,
-- Lists), operations that return, throw or run into undefined behaviour (Effect), and the
-- single-precision arithmetic of the load factor (Float32).
-- Containers/HashTable models src/Containers/HashTable/HashTable.hpp: `find`, `emplace`,
-- `erase`, `rehash`, `clear`, `is_prime` and `next_prime` are the methods of these names,
-- `grow`, `run_end`, `link` and `next_head` are the parts of `emplace` and `erase`. The list of
-- the table is its nodes in order, each with an address (Containers/Nodes); Runs, Lookup,
-- Insert and Remove say what the nodes of a bucket are and how an insertion or a removal
-- changes them, FirstRun which nodes the searches reach where those of a bucket do not stand
-- together, Invariant what a valid table is. The searches walk the list, so they need no fuel;
-- `next_prime` has 2^31 rounds, which suffice below the Mersenne prime 2^31 - 1, and the loop
-- of `is_prime` as many rounds as its argument. Access has `operator[]`, `at`, `try_emplace`
-- and the operations on ranges, of which the range erase needs a round for each element and one
-- more; Transfer has `reserve`, the copies, the moves and `swap`; Buckets has the queries of
-- buckets; Session runs the calls of a client beside a dictionary, Iteration walks over a table
-- by its iterators, with one test more than there are elements, and Hashers models
-- src/Containers/HashTable/Hashers, with the hash functions of SMHasher as arguments.
-- `HashNode` reads `data_.first_` and `data_.second_` as the members of the pair.
-- Containers/List models src/Containers/List.hpp on a heap of nodes with `next`, `prev`, a
-- value and whether the node is alive. Link is the chain in both directions, Insertion and
-- Removal say how `emplace` and `erase` change it, Contents what a list object holds,
-- Refinement and Ends what the operations do to the elements in the terms of Containers/Nodes.
-- Frame says what they leave of the rest of the heap, so that Pairs can speak of two lists on
-- one heap, Transfer models the copies, the moves and `operator!=`, and Session runs the calls
-- of a client of the ends beside a deque. The loops of `clear`, of the copies and of the
-- comparison have one round more than there are elements.
-- Containers/DynamicArray models src/Containers/DynamicArray.hpp: a buffer is its cells, where
-- a raw cell has no value, and an access to a raw cell or past the capacity is a fault. A field
-- that is not in the code records the values whose cells were reused or freed without their
-- destruction. The theorems of Reserve, Insertion, Removal, Resize and Assign say which
-- elements an operation leaves, EmptyRange what the range insert does to the elements for an
-- empty range. RangeInsertion, over Spacing, and EraseValue are about the range insert and
-- `erase(value)`, Owners has the constructors and assignments, Positions the ends and the
-- operations at iterators. Failures is about allocations that fail, Capacity about the growth
-- of the buffer, and Session runs the calls of a client beside a list, up to the destructor.
-- The loops recur on their distance to the end; that of the range insert, which can wrap
-- around, has two rounds more than there are elements.
-- Scheduling/Queue models src/Scheduling/ThreadPool/Queue.hpp and Queue-inl.hpp, and
-- Scheduling/ThreadPool models src/Scheduling/ThreadPool/ThreadPool.hpp and ThreadPool.cc:
-- every critical section is one step, and between two of them any other thread may step;
-- sleeping workers may wake up at any time. The conditions in the comments of the code (one
-- managing thread, `submit` after `start` and before `stop`) are premises of the steps.
-- Sync/Spinlock models src/Sync/Spinlock/Spinlock.hpp and Spinlock.cc: `act` is the next access
-- of a thread to the flag or the clock in any of the calls, `Step` interleaves any number of
-- threads. Sync/WaitGroup models src/Sync/WaitGroup.hpp and Sync/Event src/Sync/Event.hpp in
-- the same way; the futex of the event is third-party code, whose two calls are steps with
-- their documented behaviour.
-- Future/StateMachine models src/Future/Core/StateMachine.hpp, whose two calls are atomic, so
-- that threads are a sequence of calls.
-- Fiber models src/Fiber/Core/Fiber.cc, src/Fiber/ExeCtrl and src/Coroutine/Coro.cc: a routine
-- is its calls of `yield` and `go`, a suspended coroutine is the rest of its routine, and the
-- scheduler (src/Scheduling/IScheduler.hpp) runs the oldest task first, as the thread pool with
-- one worker does. `run_tasks` takes as many tasks as its fuel; Fiber/Termination says how many
-- are enough.
-- Coroutine models src/Coroutine/Coro.hpp and Coro.cc: a machine context is what is left of a
-- routine, and Coroutine/Stack shows that the contexts of coroutines that resume each other are
-- a stack.
-- Fiber/Workers models the same code on any number of threads over one queue: `Step` is what a
-- thread does up to its next access of what the threads share; Work counts the steps that the
-- fibers need, and Completion says when no thread can take one. Fiber/Handle models
-- src/Fiber/Core/Handle.hpp and Handle.cc by what programs do with any number of handles.
-- Not modelled: values whose construction, copy or destruction throws; the memory model, since
-- the steps are sequentially consistent, as the atomics and mutexes of the code are (the read
-- of the closed flag in push of the queue is neither); futures and promises, which are
-- declarations only; members of the containers that cannot be compiled (`erase_if` of the
-- table, the converting constructor of the array).
pub mod Prelude
pub mod Containers
pub mod Scheduling
pub mod Sync
pub mod Future
pub mod Fiber
pub mod Coroutine
