-- ===== src/Table/Collection.antt =====
-- The contract of `gcLocked` and `gc` on a valid table between two operations.
use nanobdd.Base.{ℕ, ◌+◌, ◌≡◌, ◌==◌, Bool, false, ◌↔◌, List, [], length, Returns, arith, refl}
use nanobdd.Tree.{Tree, Assignment}
use nanobdd.Node.{Ptr}
use nanobdd.Allocator.FreeList.{slots}
use nanobdd.Allocator.Release.{length-pushed}
use nanobdd.Platform.{Platform}
use nanobdd.Table.State.{NodeTable}
use nanobdd.Table.Collect.{gc_locked}
use nanobdd.Table.Layout.{Stored, IsLaid}
use nanobdd.Table.Meaning.{Means, IsSound, Represents}
use nanobdd.Table.Marked.{IsTidy, IsLive, mark_all-IsLive}
use nanobdd.Table.Swept.{sweep_all-total, sweep_all-length}
use nanobdd.Table.Collected.{
  collected, idle, swept, released-Released, collected-IsLaid, collected-IsSound, collected-IsTidy,
  Stored-inv, Stored-keep, keep-Means, keep-Represents, live_same,
}

module _ ⦃env : Platform⦄ (n : ℕ) (t : NodeTable) (free : List Ptr) where
  pub record Collected (r : ℕ × NodeTable) : Type 0 where
    pub left : List Ptr
    pub laid : IsLaid r.1 left
    pub sound : IsSound n r.1
    pub tidy : IsTidy r.1
    pub stored : (p : Ptr) → Stored r.1 p ↔ (Stored t p × IsLive t p)
    pub same : (p : Ptr) → IsLive t p → r.1.heap p ≡ t.heap p
    pub means : (p : Ptr) (f : Assignment → Bool) → IsLive t p → Means n t p f → Means n r.1 p f
    pub removed : r.0 + r.1.node_count ≡ t.node_count
    pub roomy : slots r.1.allocator left ≡ slots t.allocator free + r.0
    pub represents :
        (p : Ptr) (tree : Tree) → IsLive t p → Represents t tree p → Represents r.1 tree p
    pub false_same : r.1.false_node ≡ t.false_node
    pub true_same : r.1.true_node ≡ t.true_node
    pub vars : r.1.vars ≡ t.vars
    pub nvars : r.1.nvars ≡ t.nvars

  -- In a valid table between two operations, `gcLocked` ends. It keeps exactly the nodes that a stored
  -- node with a reference count reaches, unchanged and with their functions; every other node becomes
  -- a free slot and is counted; the table stays valid and ready for the next collection.
  pub gc_locked-Collected : IsLaid t free → IsSound n t → IsTidy t → Returns (gc_locked t) Collected
  unfolding gc_locked
  gc_locked-Collected v s d =
      let (g, run, (same, marks)) = mark_all-IsLive n t s d free v in
      let some_cache : (length t.cache == 0) ≡ false = ground (arith, s.cache_sized) in
      let w = swept n t free v s d g same marks in
      let gone = sweep_all-total g t.buckets [] in
      (
        (w.removed, collected n t free v s d g same marks),
        rw (run, some_cache) refl,
        record {
          left = idle n t free v s d g same marks;
          laid = collected-IsLaid n t free v s d g same marks;
          sound = collected-IsSound n t free v s d g same marks;
          tidy = collected-IsTidy n t free v s d g same marks;
          stored = λ p. (
            Stored-inv n t free v s d g same marks p,
            λ (st, l). Stored-keep n t free v s d g same marks p st l,
          );
          same = live_same n t free v s d g same marks;
          means = keep-Means n t free v s d g same marks;
          removed = omega (arith, v.counted, gone);
          roomy =
              rw (released-Released n t free v s d g same marks).current
                (omega (arith, length-pushed w.freed free, sweep_all-length g t.buckets []));
          represents = λ p tree l k. keep-Represents n t free v s d g same marks tree p l k;
          false_same = refl;
          true_same = refl;
          vars = refl;
          nvars = refl;
        },
      )
