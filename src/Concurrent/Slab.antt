-- ===== src/Concurrent/Slab.antt =====
-- `allocateFromSlab` of src/NodeAllocator.cpp between threads: the counter of a slab, which is
-- exchanged atomically. `handed` is not in the code: the indices that were taken, the latest first.
pub mod Once
use nanobdd.Base.{ℕ, ◌+◌, ◌≤◌, ◌<◌, ◌≡◌, ◌==◌, if◌then◌else◌, List, [], ◌∷◌}
use nanobdd.Concurrent.Threads.{update}

pub record Shared : Type 0 where
  pub next : ℕ
  pub handed : List ℕ

pub data Pc : Type 0 where
  idle : Pc
  looping : (idx : ℕ) → Pc
  took : (idx : ℕ) → Pc  -- before the node is returned
  failed : Pc  -- before `nullptr` is returned

-- A compare-exchange may fail for no reason, and then brings the counter again.
pub data Move (capacity : ℕ) (m : Shared) : Pc → Shared → Pc → Type 0 where
  load : Move capacity m idle m (looping m.next)
  win :
      {idx : ℕ}
      → idx < capacity
      → m.next ≡ idx
      → Move capacity m
          (looping idx)
          (record { next = idx + 1; handed = idx ∷ m.handed })
          (took idx)
  lose : {idx : ℕ} → idx < capacity → Move capacity m (looping idx) m (looping m.next)
  full : {idx : ℕ} → capacity ≤ idx → Move capacity m (looping idx) m failed
  return : {idx : ℕ} → Move capacity m (took idx) m idle
  give_up : Move capacity m failed m idle

pub record System : Type 0 where
  pub shared : Shared
  pub pc : ℕ → Pc

-- From a new slab on.
pub data Reach (capacity : ℕ) : System → Type 0 where
  start : Reach capacity (record { shared = record { next = 0; handed = [] }; pc = λ _. idle })
  later :
      {s : System} {m : Shared} {p : Pc}
      → Reach capacity s
      → (i : ℕ) → Move capacity s.shared (s.pc i) m p
      → Reach capacity (record { shared = m; pc = update s.pc i p })
