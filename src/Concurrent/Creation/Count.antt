-- ===== src/Concurrent/Creation/Count.antt =====
-- The node count and the threads that have yet to raise it.
use nanobdd.Base.{ℕ, ◌+◌, ◌<◌, ◌≡◌, List, [], ◌∷◌, ◌++◌, length, length-append, arith, refl}
use nanobdd.Node.{Ptr}
use nanobdd.Platform.{Platform}
use nanobdd.Table.Layout.Rehash.{home-lt}
use nanobdd.Concurrent.Threads.{update, sum, sum-update, sum-eq_zero}
use nanobdd.Concurrent.Creation.{
  Triple, Shared, System, Pc, idle, counting, home_of, Move, begin, lock_shared, hit, miss,
  not_found, load_head, none_free, read_link, pop, pop_again, unlink, slice, no_cell, fill,
  unlink_again, lock, lose, differ, push, free, load_top, join, put, put_again, count, return,
  Reach, start, later, pick,
}

-- A thread that has put a node in, and not yet counted it.
abbrev pub pending : Pc → ℕ
pending (counting key c) = 1
pending _ = 0

abbrev pub stored : ℕ → Shared → ℕ
stored table_size m = sum (λ (l : List Ptr). length l) table_size m.nodes

module _ ⦃env : Platform⦄ (table_size : ℕ) (sized : 0 < table_size) where
  -- What a step does to the count, the nodes and its own thread.
  Balanced : Shared → Pc → Shared → Pc → Type 0
  Balanced m q m' p =
      m'.node_count + pending p + stored table_size m
      ≡ m.node_count + pending q + stored table_size m'

  push-Balanced :
      (m : Shared) (b : ℕ) (c : Ptr)
      → b < table_size
      → sum (λ (l : List Ptr). length l) table_size (update m.nodes b (m.nodes b ++ c ∷ []))
        ≡ stored table_size m + 1
  push-Balanced m b c lt = omega (
    arith,
    sum-update (λ (l : List Ptr). length l) table_size m.nodes b (m.nodes b ++ c ∷ []) lt,
    length-append {0} (m.nodes b) (c ∷ []),
  )

  move-Balanced :
      (i : ℕ) (m : Shared) {q : Pc} {m' : Shared} {p : Pc}
      → Move table_size i m q m' p
      → Balanced m q m' p
  unfolding Balanced
  move-Balanced i m (begin key) = refl
  move-Balanced i m (lock_shared unlocked) = refl
  move-Balanced i m (hit lt e) = refl
  move-Balanced i m (miss lt ne) = refl
  move-Balanced i m (not_found e) = refl
  move-Balanced i m (load_head ne) = refl
  move-Balanced i m (none_free e) = refl
  move-Balanced i m read_link = refl
  move-Balanced i m (pop e) = refl
  move-Balanced i m pop_again = refl
  move-Balanced i m unlink = refl
  move-Balanced i m (slice lt) = refl
  move-Balanced i m (no_cell le) = refl
  move-Balanced i m fill = refl
  move-Balanced i m unlink_again = refl
  move-Balanced i m (lock unlocked quiet) = refl
  move-Balanced i m (lose lt e) = refl
  move-Balanced i m (differ lt ne) = refl
  move-Balanced i m (push {key} {c} e) = omega (
    arith,
    push-Balanced m (home_of table_size key) c
        (home-lt table_size key.level key.low key.high sized),
  )
  move-Balanced i m free = refl
  move-Balanced i m load_top = refl
  move-Balanced i m join = refl
  move-Balanced i m (put e) = refl
  move-Balanced i m put_again = refl
  move-Balanced i m count = omega arith
  move-Balanced i m return = refl

  -- In every reachable state of a table with buckets, the node count and the number of threads that are
  -- about to raise it make up the number of the nodes in the buckets.
  pub node_count-stored :
      {threads : ℕ} {memory : Ptr → Triple} {s : System}
      → Reach table_size threads memory s
      → s.shared.node_count + sum pending threads s.pc ≡ stored table_size s.shared
  unfolding Balanced
  node_count-stored {threads} (start first last pos) = omega (
    arith,
    sum-eq_zero pending threads (λ i. idle) (λ i. refl),
    sum-eq_zero (λ (l : List Ptr). length l) table_size (λ b. []) (λ b. refl),
  )
  node_count-stored {threads} (later {s} r (pick i {p = p} lt mv)) = omega (
    arith,
    node_count-stored r,
    move-Balanced i s.shared mv,
    sum-update pending threads s.pc i p lt,
  )
