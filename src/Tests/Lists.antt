-- ===== src/Tests/Lists.antt =====
-- The free list between threads: allocation alone, and the reuse of a head that has come back.
use nanobdd.Base.{◌+◌, ◌≤◌, ◌≡◌, ◌==◌, if◌then◌else◌, List, [], ◌∷◌, count, arith, refl}
use nanobdd.Node.{Ptr, null, new, Heap}
use nanobdd.Allocator.FreeList.{Chain}
use nanobdd.Concurrent.FreeList.{
  idle, load, read_next, win, unlink, begin, load_top, join, put, System, Pops, here, pop, Mixed,
  begun, popped, pushed,
}
use nanobdd.Concurrent.FreeList.PopOnce.{taken_once}

-- the free list 1, 2, 3
abbrev links : Heap
links p = record new { next_free = if p == 1 then 2 else if p == 2 then 3 else null }

abbrev three_free : System
three_free = record { shared = record { heap = links; free_list = 1; handed = [] }; pc = λ _. idle }

three-Chain : Chain links 1 (1 ∷ 2 ∷ 3 ∷ [])
three-Chain = (
  refl,
  λ e. absurd (omega arith),
  refl,
  (refl, λ e. absurd (omega arith), refl, (refl, λ e. absurd (omega arith), refl, refl)),
)

record Allocation : Type 0 where
  last : System
  run : Pops three_free last

-- two threads read the head, and one takes it
race : Allocation
race = record {
  last = _;
  run =
      pop
        (pop
          (pop
            (pop (pop here 0 (load (λ e. absurd (omega arith)))) 1
              (load (λ e. absurd (omega arith))))
            0 read_next)
          1 read_next)
        0 (win refl);
}

taken_once_example :
    (ys : List Ptr) × Chain race.last.shared.heap race.last.shared.free_list ys
    × ((q : Ptr)
        → (count q race.last.shared.handed + count q ys ≡ count q (1 ∷ 2 ∷ 3 ∷ []))
          × (count q (1 ∷ 2 ∷ 3 ∷ []) ≤ 1))
taken_once_example =
    taken_once three_free race.last (1 ∷ 2 ∷ 3 ∷ []) three-Chain refl (λ i. refl) race.run

record Reuse : Type 0 where
  last : System
  run : Mixed three_free last

-- Thread 0 reads the head 1 and its link 2; thread 1 takes 1 and 2 and frees 1.
returned : Reuse
returned = record {
  last = _;
  run =
      pushed
        (pushed
          (pushed
            (pushed
              (popped
                (popped
                  (popped
                    (popped
                      (popped
                        (popped
                          (popped
                            (popped
                              (popped (popped begun 0 (load (λ e. absurd (omega arith)))) 0
                                read_next)
                              1 (load (λ e. absurd (omega arith))))
                            1 read_next)
                          1 (win refl))
                        1 unlink)
                      1 (load (λ e. absurd (omega arith))))
                    1 read_next)
                  1 (win refl))
                1 unlink)
              1 (begin 1))
            1 load_top)
          1 join)
        1 (put refl);
}

-- The exchange of thread 0 still succeeds, and puts the cell 2, which is in use, at the head.
reused : Reuse
unfolding returned
reused = record {
  last = _;
  run =
      popped
        (popped
          (popped (popped (popped returned.run 0 (win refl)) 0 unlink) 0
            (load (λ e. absurd (omega arith))))
          0 read_next)
        0 (win refl);
}

-- The cell 2 is taken twice, though it has never been freed.
taken_twice : reused.last.shared.handed ≡ 2 ∷ 1 ∷ 2 ∷ 1 ∷ []
unfolding reused returned
taken_twice = refl
