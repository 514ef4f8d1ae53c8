-- ===== src/Concurrent.antt =====
-- The shared data of several threads, as step relations: a thread is a program counter with its live
-- locals, and every access to shared memory is a step of its own, in sequentially consistent order.
pub mod Threads
pub mod CacheEntry
pub mod FreeList
pub mod Slab
pub mod Creation
