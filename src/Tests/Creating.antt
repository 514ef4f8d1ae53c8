-- ===== src/Tests/Creating.antt =====
-- Two threads that ask for the same node at once.
use nanobdd.Base.{◌≢◌, ap, ℕ, ◌+◌, ◌≡◌, arith, refl}
use nanobdd.Node.{Ptr}
use nanobdd.Hash.{hash_o_3}
use nanobdd.Table.State.{home}
use nanobdd.Concurrent.Threads.{sum}
use nanobdd.Concurrent.Creation.{
  Triple, done, System, begin, lock_shared, miss, not_found, load_head, none_free, read_link, pop,
  unlink, slice, fill, unlink_again, lock, lose, differ, push, free, load_top, join, put, count,
  return, Reach, start, later, pick, HasNoStalePop,
}
use nanobdd.Concurrent.Creation.Invariant.{size, Got}
use nanobdd.Concurrent.Creation.Safety.{nodes_unique, same_node}
use nanobdd.Concurrent.Creation.Count.{pending, stored, node_count-stored}
use nanobdd.Tests.Sample.{bump}

abbrev key : Triple
key = record { level = 0; low = 1; high = 2 }

abbrev memory : Ptr → Triple
memory p = record { level = 0; low = 0; high = 0 }

record Made : Type 0 where
  last : System
  reach : Reach 7 2 memory last

-- Both search in vain and take the cells 5 and 6 of the slab.
abbrev both_search : Made
both_search = record {
  last = _;
  reach =
      later
        (later
          (later
            (later
              (later
                (later
                  (later
                    (later
                      (later
                        (later
                          (later
                            (later
                              (later
                                (later (start 5 8 (omega arith)) (pick 0 (omega arith) (begin key)))
                                (pick 1 (omega arith) (begin key)))
                              (pick 0 (omega arith) (lock_shared refl)))
                            (pick 1 (omega arith) (lock_shared refl)))
                          (pick 0 (omega arith) (not_found refl)))
                        (pick 1 (omega arith) (not_found refl)))
                      (pick 0 (omega arith) (none_free refl)))
                    (pick 0 (omega arith) (slice (omega arith))))
                  (pick 0 (omega arith) fill))
                (pick 0 (omega arith) unlink_again))
              (pick 1 (omega arith) (none_free refl)))
            (pick 1 (omega arith) (slice (omega arith))))
          (pick 1 (omega arith) fill))
        (pick 1 (omega arith) unlink_again);
}

-- Thread 0 has the lock.
first_locks : Made
unfolding home hash_o_3
first_locks = record {
  last = _;
  reach = later both_search.reach (pick 0 (omega arith) (lock refl (λ j. ground arith)));
}

-- Thread 0 puts its cell in; thread 1 finds it there and frees its own.
both_done : Made
unfolding home hash_o_3 first_locks
both_done = record {
  last = _;
  reach =
      later
        (later
          (later
            (later
              (later
                (later
                  (later (later first_locks.reach (pick 0 (omega arith) (push refl)))
                    (pick 0 (omega arith) count))
                  (pick 1 (omega arith) (lock refl (λ j. ground arith))))
                (pick 1 (omega arith) (lose (omega arith) refl)))
              (pick 1 (omega arith) free))
            (pick 1 (omega arith) load_top))
          (pick 1 (omega arith) join))
        (pick 1 (omega arith) (put refl));
}

-- the key of the second node
abbrev other : Triple
other = record { level = 1; low = 1; high = 2 }

key-other : key ≢ other
key-other e = absurd (omega (arith, ap (λ k. k.level) e))

-- Thread 1 asks for another node and does not find it.
asking : Made
unfolding home hash_o_3 first_locks both_done
asking = record {
  last = _;
  reach =
      later
        (later
          (later
            (later (later both_done.reach (pick 1 (omega arith) return))
              (pick 1 (omega arith) (begin other)))
            (pick 1 (omega arith) (lock_shared refl)))
          (pick 1 (omega arith) (miss (omega arith) key-other)))
        (pick 1 (omega arith) (not_found refl));
}

-- It gets the cell 6 back from the free list, and puts it in.
second_node : Made
unfolding home hash_o_3 first_locks both_done asking
second_node = record {
  last = _;
  reach =
      later
        (later
          (later
            (later
              (later
                (later
                  (later
                    (later
                      (later asking.reach
                        (pick 1 (omega arith) (load_head (λ e. absurd (omega arith)))))
                      (pick 1 (omega arith) read_link))
                    (pick 1 (omega arith) (pop refl)))
                  (pick 1 (omega arith) unlink))
                (pick 1 (omega arith) fill))
              (pick 1 (omega arith) unlink_again))
            (pick 1 (omega arith) (lock refl (λ j. ground arith))))
          (pick 1 (omega arith) (differ (omega arith) key-other)))
        (pick 1 (omega arith) (push refl));
}

no_stale_pop : HasNoStalePop 7 second_node.reach
unfolding home hash_o_3 first_locks both_done asking second_node
no_stale_pop = ground arith

abbrev bucket : ℕ
bucket = home 7 0 1 2

one_node : size second_node.last.shared bucket ≡ 2
unfolding home hash_o_3 first_locks both_done asking second_node
one_node = refl

nodes_unique_example : (bucket ≡ bucket) × (◌≡◌ {A = ℕ} 0 0)
nodes_unique_example =
    nodes_unique 7 second_node.reach no_stale_pop bucket bucket 0 0 (omega (arith, one_node))
      (omega (arith, one_node)) refl

same_node_example :
    Got 7 second_node.last.shared key 5
    × ((j : ℕ) (q : Ptr) → second_node.last.pc j ≡ done key q → q ≡ 5)
unfolding home hash_o_3 first_locks both_done asking second_node
same_node_example = same_node 7 second_node.reach no_stale_pop 0 refl

node_count-stored_example :
    second_node.last.shared.node_count + sum pending 2 second_node.last.pc
    ≡ stored 7 second_node.last.shared
node_count-stored_example = node_count-stored 7 (omega arith) second_node.reach
