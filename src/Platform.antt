-- ===== src/Platform.antt =====
-- What the code takes from outside: the C++ implementation's addresses and memory, and the search for
-- the next prime.
use nanobdd.Base.{ℕ, ◌<◌, List}
use nanobdd.Node.{Ptr}
use nanobdd.Allocator.{Slab, Place}
use nanobdd.Allocator.Growth.{IsApart}

pub record Platform : Type 0 where
  -- `reinterpret_cast<uintptr_t>(p)`
  pub address : Ptr → ℕ
  -- `operator new[]` for the nodes of a slab
  pub place : Place
  -- `bdd_prime_gte`, whose result depends on `rand()`: Prime is its model.
  pub prime_gte : ℕ → ℕ

-- The memory that `operator new[]` returns is not at the null address, and is apart from the slabs
-- that there are.
pub record IsSane (env : Platform) : Type 0 where
  pub place_pos : (slabs : List Slab) (capacity : ℕ) → 0 < env.place slabs capacity
  pub place_apart :
      (slabs : List Slab) (capacity : ℕ) → IsApart slabs (env.place slabs capacity) capacity
