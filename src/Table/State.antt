-- ===== src/Table/State.antt =====
-- The state of the node table, with the memory behind its pointers and the global `cache`.
use nanobdd.Base.{ℕ, ◌-◌, ◌%◌, ◌^◌, Bool, ◌==◌, if◌then◌else◌, List, Run, ok, fault}
use nanobdd.Hash.{hash_o_3}
use nanobdd.Node.{Ptr, Heap}
use nanobdd.Bucket.{Bucket}
use nanobdd.Allocator.{Allocator}
use nanobdd.Cache.{Cache}
use nanobdd.Platform.{Platform}

-- An empty `cache` stands for the pointer's value before `init` has set it.
pub record NodeTable : Type 0 where
  pub heap : Heap
  pub table_size : ℕ
  pub buckets : List Bucket
  pub allocator : Allocator
  pub node_count : ℕ
  pub false_node : Ptr
  pub true_node : Ptr
  pub vars : List Ptr
  pub nvars : List Ptr
  pub cache : Cache

abbrev pub uint_max : ℕ
uint_max = 2 ^ 32 - 1

-- `NodeTable::hash`, at a given number of buckets
unfoldable pub home : ⦃env : Platform⦄ → ℕ → ℕ → Ptr → Ptr → ℕ
home ⦃env⦄ size level low high = hash_o_3 level (env.address low) (env.address high) % size

-- `hash` divides by the number of buckets.
abbrev pub hash : ⦃env : Platform⦄ → ℕ → ℕ → Ptr → Ptr → Run ℕ
hash size level low high = if size == 0 then fault else ok (home size level low high)

abbrev pub is_false : NodeTable → Ptr → Bool
is_false t p = p == t.false_node

abbrev pub is_true : NodeTable → Ptr → Bool
is_true t p = p == t.true_node
