-- ===== src/Lib.antt =====
-- nanobdd: a library of binary decision diagrams (C++).
--
-- A Boolean function is a node of a unique table: two nodes never have the same level and children, so
-- equal functions are equal pointers. The table allocates nodes from slabs, finds them by hashing,
-- computes the six operations by recursion with a lossy cache of results, and reclaims nodes that no
-- reference count protects by mark and sweep.
--
-- Base: shared names, Boolean tests, lists, and `Run`, the outcome of a run (a value, a fault, or a
--   bound on a loop that was too low).
-- Hash: src/Hash.h, the hash macros (HASH_O_3 is `hash_o_3`).
-- Node: include/nanobdd/Node.h. A pointer is the number of a cell; `Heap` gives each cell its node.
--   Node/Marking is about the search of `markRec`.
-- Bucket: src/Bucket.h. Bucket/Search is about `find` and `insertIfAbsent`, Bucket/Marks about
--   `markNodes`, Bucket/Sweep about `sweepNodes` and `unmarkNodes`.
-- Allocator: src/NodeAllocator.cpp, slabs and the free list through `nextFree`. Allocator/FreeList is
--   about the free list and `allocate`, Allocator/Release about `free`, Allocator/Growth about `grow`.
-- Cache: src/LockFreeCache.h and src/Common.h. Cache/Laws is about lookup and insertion.
-- Platform: what comes from outside: addresses as numbers (`reinterpret_cast<uintptr_t>`), the place of
--   a new slab (`operator new[]`), and the next prime, which depends on `rand()`.
-- Prime: src/Prime.h, the search for the next prime, over a stream of values of `rand()`. Prime/Bits,
--   Powers and Witness are about `isWitness`, Prime/Judge about `isPrime`, Prime/Search, Above and
--   Below about `bdd_prime_gte` and `bdd_prime_lte`. Prime/Words is the arithmetic on 64 bits for
--   compilers without such a type.
-- Table: src/NodeTable.cpp. The code is in Table/State (members, hash), Table/Growth
--   (growBucketsLocked), Table/Collect (gcLocked, performMaintenance), Table/Create (getOrCreateNode,
--   combine, createVar, the constructor) and Table/Operations (bddAnd and its kin). The other children
--   are proofs: Table/Layout about the buckets, Table/Creation about getOrCreateNode, Table/Meaning
--   about what nodes and cache entries stand for, Table/Cofactor, Combine, Caching, Expand, Shortcut,
--   Correct and Negate about the steps of the operations, Table/Reheap about changes of reference
--   counts and marks, Table/Marked, Swept, Collected and Collection about the parts and the whole of
--   gcLocked, Table/Tidy about what makes a table ready for it, Table/Roomy and Maintenance about
--   performMaintenance, Table/Supply about getOrCreateNode on a full table, Table/After about what all
--   operations keep, Table/Semantics about the operations as a whole.
-- Tree: the specification: reduced ordered decision trees and the Boolean functions they stand for.
-- Handle: src/Bdd.cpp, the handles and their operators. Handle/Counts is about reference counts,
--   Handle/Results about the results of the operators.
-- Library: src/Nanobdd.cpp, `init`, `clear`, `getVar` and `gc` over the global table. Library/Fresh
--   is about the constructor of the table, Library/Vars about createVar, Library/Start about `init`,
--   Library/Kept about `gc`.
--   Library/Counts is about the reference counts while it starts, Library/After about changes after.
-- Capi: src/capi.cpp, the C interface over numbered objects. Capi/Objects is about single calls.
--   Capi/Program has programs of calls and the Boolean functions that they denote; its children relate
--   the two: Program/State is the relation, Grow and Shrink keep it, Runs and Refine are about one call
--   and Correct about a whole program. The compound assignments and `nanobdd_bdd_imp`, which do not do
--   what their names say, are no calls of these programs.
-- Jni: java/src/main/java/org/snlab/jni/org_snlab_jni_NanoBDD.cpp, the native methods of the Java
--   class. Jni/Results is about the operators, Jni/Literals about the variables.
-- Concurrent: shared data between threads. Concurrent/CacheEntry is an entry of src/LockFreeCache.h,
--   Concurrent/FreeList the free list and Concurrent/Slab the slab of src/NodeAllocator.cpp; each access
--   to shared memory is a step of a relation. Concurrent/Creation is getOrCreateNode over the locks of
--   the buckets, the slab and the free list; Creation/Invariant is what the threads know, Moves, Push,
--   Cells and Steps are about its steps, Safety about the nodes and Count about their number.
--   popFree can put a cell in use at the head, since it compares pointers only, as a run in Tests/Lists
--   shows; Creation/Safety is about the runs without such a pop. Concurrent/Threads is what they share.
-- LockFreeBucket: src/LockFreeBucket.h, which no file of the build includes.
-- LockedCache: src/Cache.h and src/Cache.cpp, the other cache, which the build does not select.
--   LockedCache/Answers is about an insertion and the lookups after it, LockedCache/Stuck about an
--   entry after a hit.
-- Tests: a platform and a library of two variables, runs of the code, and each theorem at an input.
--
-- The state is passed explicitly: an operation takes the table and returns it. The C++ globals
-- `nodeTable` and `cache` are one record, `NodeTable`; `Library` says whether they are set. Where the
-- code shares text between its operations, the model shares a function: `expand` is the part of the
-- five binary operations behind their early returns.
--
-- Bounds. The recursion of the operations runs on fuel; levels rise along every path, so one more than
-- the number of variables is enough. An operation over n variables allocates at most
-- `cost n` = 2 ^ n - 1 nodes, and the theorems ask for that many free slots. The loop of
-- `getOrCreateNode` has two rounds, since maintenance leaves a free slot. Marking has fuel 2 ^ 32,
-- since levels are 32-bit numbers that rise. The loop of `bdd_prime_gte` runs on fuel; one more than
-- the distance to a number that no test rejects is enough.
--
-- In Table, Handle, Library, Capi and Jni an operation is run by a single thread, in which a
-- compare-exchange succeeds; Concurrent and LockFreeBucket interleave the accesses of many, in a
-- sequentially consistent memory.
--
-- Not modelled: the mutex of the table, and so maintenance and growth beside getOrCreateNode; weaker
-- memory orders; the `double` of the load factor, which is compared exactly; the debug prints; the Rust
-- binding.
pub mod Base
pub mod Hash
pub mod Tree
pub mod Node
pub mod Bucket
pub mod Allocator
pub mod Cache
pub mod Platform
pub mod Prime
pub mod Table
pub mod Handle
pub mod Library
pub mod Capi
pub mod Jni
pub mod Concurrent
pub mod LockFreeBucket
pub mod LockedCache
mod Tests
