-- ===== src/Tests/Slabs.antt =====
-- Two threads that allocate from a slab of two cells.
use nanobdd.Base.{ℕ, ◌≤◌, ◌≡◌, arith, refl}
use nanobdd.Concurrent.Slab.{took, failed, load, win, lose, System, Reach, start, later}
use nanobdd.Concurrent.Slab.Once.{down_from, slab_once}

record Allocation : Type 0 where
  last : System
  run : Reach 2 last

-- Both read 0, thread 0 takes it, and thread 1 the next one.
race : Allocation
race = record {
  last = _;
  run =
      later
        (later (later (later (later start 0 load) 1 load) 0 (win (omega arith) refl)) 1
          (lose (omega arith)))
        1 (win (omega arith) refl);
}

slab_once_example :
    (race.last.shared.handed ≡ down_from race.last.shared.next)
    × (race.last.shared.next ≤ 2)
    × ((i j idx : ℕ) → race.last.pc i ≡ took idx → race.last.pc j ≡ took idx → i ≡ j)
    × ((i : ℕ) → race.last.pc i ≡ failed → race.last.shared.next ≡ 2)
slab_once_example = slab_once race.run
