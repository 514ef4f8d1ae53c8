-- ===== src/Tests/Races.antt =====
-- The theorems on the shared data of several threads, at short runs.
use nanobdd.Base.{ℕ, [], ◌∷◌, arith, refl}
use nanobdd.Node.{null}
use nanobdd.Concurrent.Threads.{update}
use nanobdd.Concurrent.CacheEntry.{
  Key, Fields, busy, idle, claimed, ask, enter, same_op, load_left, load_right, load_node, leave,
  claim, store_node, store_left, store_right, store_op, release, System, pick, Reach, start, later,
  return, no_match, Disturbed, calm, moved, cleared,
}
use nanobdd.Concurrent.CacheEntry.Invariant.{IsAnswer}
use nanobdd.Concurrent.CacheEntry.Safety.{lookup-IsAnswer, IsDead, IsDead-forever}

-- thread 0 has begun to insert the conjunction of 7 and 8
abbrev entry : Fields
entry = record { node = 9; left = 7; right = 8; op = 0 }

writing : Reach 2 (record {
  shared = record {
    fields = record { node = null; left = null; right = null; op = 0 };
    count = busy;
    log = entry ∷ [];
  };
  pc = update (λ _. idle) 0 (claimed entry);
})
writing = later start (pick 0 (omega arith) (claim entry refl))

record Run (n : ℕ) : Type 0 where
  last : System
  reach : Reach n last

-- the whole insertion
inserted : Run 2
inserted = record {
  last = _;
  reach =
      later
        (later
          (later
            (later (later writing (pick 0 (omega arith) store_node))
              (pick 0 (omega arith) store_left))
            (pick 0 (omega arith) store_right))
          (pick 0 (omega arith) store_op))
        (pick 0 (omega arith) release);
}

-- and then a lookup by thread 1, with the operands in the other order
abbrev key : Key
key = record { left = 8; right = 7; op = 0 }

found : Run 2
unfolding inserted
found = record {
  last = _;
  reach =
      later
        (later
          (later
            (later
              (later
                (later
                  (later inserted.reach (pick 1 (omega arith) (ask {key = key} (λ e. omega arith))))
                  (pick 1 (omega arith) (enter refl)))
                (pick 1 (omega arith) (same_op refl)))
              (pick 1 (omega arith) load_left))
            (pick 1 (omega arith) load_right))
          (pick 1 (omega arith) (load_node refl)))
        (pick 1 (omega arith) leave);
}

lookup-IsAnswer_example : IsAnswer (entry ∷ []) key 9
unfolding found inserted
lookup-IsAnswer_example = lookup-IsAnswer {n = 2} (omega arith) found.reach 1 (omega arith) refl

-- A reader is inside when `invalidateAll` runs; when it leaves, the count goes from 0 to -1.
record Disturbance (n : ℕ) : Type 0 where
  final : System
  run : Disturbed n final

disturbance : Disturbance 1
disturbance = record {
  final = _;
  run =
      moved
        (cleared (
          calm (
            later
              (later
                (later
                  (later
                    (later
                      (later
                        (later
                          (later (later start (pick 0 (omega arith) (claim entry refl)))
                            (pick 0 (omega arith) store_node))
                          (pick 0 (omega arith) store_left))
                        (pick 0 (omega arith) store_right))
                      (pick 0 (omega arith) store_op))
                    (pick 0 (omega arith) release))
                  (pick 0 (omega arith) (ask {key = key} (λ e. omega arith))))
                (pick 0 (omega arith) (enter refl)))
              (pick 0 (omega arith) (same_op refl)))))
        (pick 0 (omega arith) load_left);
}

disturbance_left : Disturbance 1
unfolding disturbance
disturbance_left = record {
  final = _;
  run =
      moved
        (moved (moved disturbance.run (pick 0 (omega arith) load_right))
          (pick 0 (omega arith) (no_match refl)))
        (pick 0 (omega arith) leave);
}

left-IsDead : IsDead 1 disturbance_left.final
unfolding disturbance_left disturbance
left-IsDead = record {
  locked = refl;
  nobody = λ i lt. ground arith;
  pending = λ i lt. ground arith;
}

after_return : System
unfolding disturbance_left disturbance
after_return = record disturbance_left.final { pc = update disturbance_left.final.pc 0 idle }

IsDead-forever_example : IsDead 1 after_return
unfolding after_return disturbance_left disturbance
IsDead-forever_example = IsDead-forever left-IsDead (pick 0 (omega arith) return)
