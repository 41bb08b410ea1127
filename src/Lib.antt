-- ===== src/Lib.antt =====
-- rcx-hashtables: hash tables for the Linux kernel whose buckets are sorted lists. Readers walk a
-- list inside an RCU read-side critical section. Writers take spinlocks (rcu-hash-list.c), run
-- Intel RTM transactions (rcx-hash-list.c), or use read-log-update (rlu.c, rlu-hash-list.c).
--
-- Parts and files:
-- - Base: Boolean tests on numbers, membership, the names that all other files share.
-- - Machine: the memory of hash-list.h, the state of a thread, and the kernel's and processor's
--   primitives as commands on it. Machine/Ends says how a run of a command ends.
-- - Chain, Chain/Link, Chain/Unlink: the list of cells that a heap holds from a head on, and what an
--   insertion or a removal of a cell does to it. They are about sorted lists as such.
-- - Shared and its children: the invariant of a list that several threads use, what another thread
--   may do to it, and how a command of this thread keeps it.
-- - Rcu (rcu-hash-list.c): nodes, lists, the search, the tests of the fine-grained operations.
--   Rcu/Spin has the operations under the list's spinlock, Rcu/Fine those under the locks of the
--   nodes. The proofs about them are in Rcu/Search, Rcu/Contains, Rcu/Create, Rcu/Insert, Rcu/Delete,
--   Rcu/Alone, Rcu/Spin/Add, Rcu/Spin/Remove, Rcu/Spin/Sentinel and Rcu/Spin/Destroy.
-- - Rcx (rcx-hash-list.c): nodes, lists and the bodies of the transactions. Rcx/Htm has rcx_list_add
--   and rcx_list_remove, Rcx/Fallback the versions that fall back on the list's lock.
--   Rcx/Bytes and its children have the versions whose locks are bytes of the nodes.
--   The proofs are in Rcx/Htm/Aborts, Rcx/Htm/Add, Rcx/Htm/Remove, Rcx/Fallback/Add, Rcx/Fallback/Remove,
--   Rcx/Bytes/Exclusion, Rcx/Hash/Update and Rcu/Hash/Update.
-- - Hash: the hash list and HASH_VALUE. Rcu/Hash and Rcx/Hash have the functions on the global table.
-- - RtmDebug (rtm_debug.c): the counters of aborts. RtmDebug/Report has the report over all CPUs,
--   RtmDebug/Report/Totals the proof about its sums.
-- - Rlu (rlu.h, rlu.c): the state of read-log-update, its commands and the macros on object headers;
--   Rlu/Ends says how a run ends. Rlu/WriterLocks has the writer locks, Rlu/WriteSet the buffers of
--   copies and their write-back, Rlu/Sync the wait for other threads, the commit and the deferred
--   free, Rlu/Section the start and end of threads and of sections, Rlu/Objects dereference and
--   locking, Rlu/Printing the numbers that rlu_print_stats prints. The proofs are in Rlu/WriteSet/Layout, Rlu/WriteSet/Writeback,
--   Rlu/Objects/Lock, Rlu/Objects/TryLock, Rlu/Objects/Pointers, Rlu/WriterLocks/Release, Rlu/Section/Begin,
--   Rlu/WriteSet/AllSets, Rlu/WriteSet/Flush, Rlu/Settle, Rlu/Commit, Rlu/Quiescence,
--   Rlu/Quiescence/Init, Rlu/Quiescence/Synchronize, Rlu/Quiescence/Objects, Rlu/Lists/Search and Rlu/Lists/Destroy; Rlu/Others says what a thread
--   relies on while the others act.
-- - Rlu/Readers: the list operations of a thread while the others only read, from the begin of the section
--   to the end of the write-back. Rlu/Readers/Cells has the sorted lists, Rlu/Readers/Cells/Insert and
--   Rlu/Readers/Cells/Remove what a new or a removed object does to them. Rlu/Readers/Section, Rlu/Readers/Lock,
--   Rlu/Readers/Insert, Rlu/Readers/Pair and its children, Rlu/Readers/Free, Rlu/Readers/Synced, Rlu/Readers/Commit, Rlu/Readers/Finish and
--   Rlu/Readers/Ready have the steps of an operation, and Rlu/Readers/Walk, Rlu/Readers/Add and
--   Rlu/Readers/Remove the operations.
-- - Rlu/Lists, Rlu/Lists/Hash (rlu-hash-list.c): lists of RLU objects, and the hash level.
-- - Barrier (barrier.c): the barrier, the steps of a thread that crosses it, and runs of many threads.
-- - Tests, Tests/Tables, Tests/WriteSets, Tests/Objects,
--   Tests/Waiting, Tests/Commits, Tests/Searches, Tests/Crossing, Tests/Report, Tests/Readers: small
--   machines and states, and the theorems at them.
--
-- Functions keep the names of the code. Each takes the machine first, then the fuel where its loops
-- need one, then the code's parameters, and the state last. A `list_t` is its first node
-- `p_head`; a `hash_list_t` is a record, and the functions that read `g_hash_list` take it.
--
-- How the model corresponds to the code:
-- - A pointer is a number, NULL is 0, and a heap maps a pointer to a node or to nothing. A read or a
--   write at a pointer to nothing is a `fault`; inside a transaction it aborts the transaction.
-- - `val_t` is an int. It is kept as its distance from INT_MIN, so that INT_MIN is 0 and INT_MAX is
--   2 ^ 32 - 1. The order is the same. The lists only compare values; HASH_VALUE takes
--   the distance off again.
-- - One thread runs, and the others act between its accesses: each read, write, lock or start of a
--   transaction first takes a `tick`, in which the machine changes the heap. Inside a transaction no
--   other thread acts: this is what RTM promises. A transaction also may abort at its start with any
--   status.
-- - `Fair` collects what the theorems on rcu and rcx assume of the machine: the others keep the invariant of the
--   list, write no node that only this thread knows, and change nothing while this thread holds the
--   list's lock, as all writers of one list follow one protocol. It is more than the kernel promises in
--   two points. kmalloc returns an unused address and never NULL, although the code tests for NULL; and an
--   unlinked node stays readable while an operation runs, which RCU promises inside a read-side critical
--   section only. spin_lock returns when the thread has the lock. `mark` says whether the writers of the
--   list mark the nodes that they unlink, as rcx does and rcu's spinlock versions do not. No writer
--   marks a node that stays in the list: this leaves out threads that run the removals under the lock of
--   rcx_list_lf_remove and rcx_list_fb1_remove, which do (Rcx/Fallback/Remove).
-- - kmalloc gives memory with arbitrary content (`garbage`), and what rcu_new_node and rcx_new_node do
--   not set stays so.
-- - The theorems on the operations of rcu and rcx are for values between INT_MIN and INT_MAX, the values of
--   the sentinels. Rcu/Spin/Sentinel shows what the removal of INT_MAX does.
-- - `rcu_read_lock` and `rcu_read_unlock` are counted, `kfree_rcu` and `record_abort` logged.
-- - HASH_VALUE is the remainder of C, with the sign of the value. A negative index, an index from MAX_BUCKETS
--   on, and a division by 0, are faults at the access of the array.
-- - `p_node->val` is read once where the code reads it twice in a row.
--
-- The barrier's counters are ints, and numbers here: with fewer than 2 ^ 31 threads they do not overflow.
--
-- How the model of RLU corresponds to rlu.c:
-- - `self` is the data of the running thread, `threads` those of the others, and `thread_of` is
--   `g_rlu_threads`. The others act (`tick`) before the atomic operations, before a dereference, before
--   the first read of rlu_try_lock, and in each round of a wait. `Env` says what they do, and what the
--   allocators return.
-- - An object is a node of the lists: its header, its value and its pointer. `Ref` tells NULL, an
--   object of the heap and a copy in a buffer apart. A write set's buffer maps offsets to slots; a slot stands
--   at the offset of its copy and has the two headers in front of it. The size of an object counts
--   only for the offsets.
-- - A failed RLU_ASSERT is `assert_failed`. The assertions and the counters of rlu_data_t are kept.
--   `n_writer_sync_waits` is never used. The array of writer lock ids is a list, and `free_nodes` too.
-- - Rlu/Readers is about a machine on which the other threads only read: they write no object, no version
--   and nothing of the running thread, but come, begin and end sections. This is one writer at a time, as under
--   the writer lock of the coarse-grained type.
-- - `run_counter` is an unsigned long and wraps. The other counters are signed longs, whose overflow
--   C leaves undefined, and numbers here; the conversion of the counter that rlu_unlock_objs takes as
--   an int is left out, so the counter is meant to be below 2 ^ 31.
-- - `rlu_lock` is called as the macro does; `rlu_free` is `free_later` with a thread and `free_now`
--   without one.
--
-- Fuel: the searches of rcu and rcx run for `val + 1` rounds, which is enough since the values grow along
-- a list, and the theorems that say that an operation returns include this. The retry loops (`goto retry`,
-- `while (spin_is_locked(...))`) and the walks of `list_size` and the destructors take a fuel parameter.
-- In RLU each round of a wait, of a search and of a `goto restart` takes fuel. A wait has enough if each
-- thread that is waited for leaves its section within as many steps of the others, a search if there is
-- more than the list has values: the theorems about them say so.
--
-- Where reads are coarser than in the code: rlu_init_quiescence reads the counters of all threads in one
-- step, and the code one after the other. RLU_DEREF reads its argument, often a field p_next, again for each of
-- its uses, and its slow path reads the header again; the model reads each of them once. The arrays
-- of RLU_MAX_THREADS entries have no bound in the model: with more threads the code leaves them.
--
-- `pr_abort_stat` and `rlu_print_stats` return the numbers that they print. The report of aborts
-- reads the counters at one moment.
--
-- Not modelled: the text of what is printed, the trace macros, the inline assembly of rtm.h, and
-- sync_test.c, a benchmark driver with module parameters, kernel threads and printing.

pub mod Barrier
pub mod Base
pub mod Chain
pub mod Hash
pub mod Machine
pub mod Rcu
pub mod Rcx
pub mod Rlu
pub mod RtmDebug
pub mod Shared
pub mod Tests
