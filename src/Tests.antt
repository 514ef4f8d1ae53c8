-- ===== src/Tests.antt =====
-- The theorems at concrete inputs, and runs of the code.
mod Sample
mod Runs
mod Witnesses
mod Full
mod Interface
mod Races
mod Lists
mod Buckets
mod Primes
mod Locked
mod Programs
mod Native
mod Creating
mod Slabs
