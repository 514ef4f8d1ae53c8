-- ===== src/Table/Collect.antt =====
-- The mark and sweep collector, `gcLocked`, and `performMaintenance`.
use nanobdd.Base.{
  ℕ, ◌+◌, ◌-◌, ◌^◌, ◌==◌, if◌then◌else◌, List, [], ◌∷◌, length, Run, ok, fault, ◌>>=◌,
}
use nanobdd.Node.{Ptr, Heap}
use nanobdd.Bucket.{Bucket, mark_nodes, sweep_nodes, unmark_nodes}
use nanobdd.Allocator.{free_all, has_free_slot, grow}
use nanobdd.Cache.{invalidate_all}
use nanobdd.Platform.{Platform}
use nanobdd.Table.State.{NodeTable}
use nanobdd.Table.Growth.{should_grow_buckets, grow_buckets, grown_size}

-- Levels are `uint32_t` and rise along every path, so no path is longer.
unfoldable pub mark_fuel : ℕ
mark_fuel = 2 ^ 32

unfoldable pub mark_all : ℕ → Heap → List Bucket → Run Heap
mark_all fuel h [] = ok h
mark_all fuel h (b ∷ bs) = mark_nodes fuel h b >>= λ h'. mark_all fuel h' bs

-- The chains after the sweep, the nodes freed so far, and the number removed.
pub record SweptAll : Type 0 where
  pub chains : List Bucket
  pub freed : List Ptr
  pub removed : ℕ

unfoldable pub sweep_all : Heap → List Bucket → List Ptr → SweptAll
sweep_all h [] freed = record { chains = []; freed = freed; removed = 0 }
sweep_all h (b ∷ bs) freed =
    let s = sweep_nodes h b freed in
    let rest = sweep_all h bs s.freed in
    record rest { chains = s.kept ∷ rest.chains; removed = s.removed + rest.removed }

unfoldable pub unmark_all : Heap → List Bucket → Heap
unmark_all h [] = h
unmark_all h (b ∷ bs) = unmark_all (unmark_nodes h b) bs

-- The number of nodes removed, and the table.
unfoldable pub gc_locked : NodeTable → Run (ℕ × NodeTable)
unfolding mark_fuel
gc_locked t = do
  marked ← mark_all mark_fuel t.heap t.buckets
  let s = sweep_all marked t.buckets []
  let r = free_all (unmark_all marked s.chains) t.allocator s.freed
  let collected = record t {
    heap = r.0;
    buckets = s.chains;
    allocator = r.1;
    node_count = t.node_count - s.removed;
    cache = invalidate_all t.cache;
  }
  if length t.cache == 0 then fault else ok (s.removed, collected)

unfoldable pub gc : NodeTable → Run NodeTable
gc t = gc_locked t >>= λ r. ok r.1

-- Room is made before the load is looked at.
unfoldable pub make_room : ⦃env : Platform⦄ → NodeTable → NodeTable
make_room ⦃env⦄ t =
    if has_free_slot t.allocator
    then t
    else (let (h, a) = grow env.place t.heap t.allocator in record t { heap = h; allocator = a })

unfoldable pub perform_maintenance : ⦃env : Platform⦄ → NodeTable → Run NodeTable
unfolding make_room
perform_maintenance t = do
  (_, t1) ← gc_locked t
  let t2 = make_room t1
  if should_grow_buckets t2 then grow_buckets t2 (grown_size t2) else ok t2
