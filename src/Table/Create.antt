-- ===== src/Table/Create.antt =====
-- `getOrCreateNode`, `combine`, `createVar` and the constructor.
use nanobdd.Base.{
  ℕ, zero, suc, ◌+◌, ◌-◌, ◌==◌, if◌then◌else◌, List, [], ◌∷◌, set, replicate, Run, ok, fault,
  no_fuel, ◌>>=◌, at,
}
use nanobdd.Node.{Ptr, null, Heap, ref}
use nanobdd.Bucket.{Bucket, find, insert_if_absent}
use nanobdd.Allocator.{Allocator, allocate, free, create}
use nanobdd.Platform.{Platform}
use nanobdd.Table.State.{NodeTable, uint_max, hash}
use nanobdd.Table.Growth.{maybe_grow_buckets}
use nanobdd.Table.Collect.{perform_maintenance}

-- From `insertIfAbsent` on. `t` is the table after the allocation.
unfoldable pub publish :
    ⦃env : Platform⦄ → NodeTable → ℕ → Bucket → ℕ → Ptr → Ptr → Ptr → Run (Ptr × NodeTable)
publish t idx bucket level low high candidate =
    let (node, inserted, bucket') = insert_if_absent t.heap level low high candidate bucket in
    let t1 = record t { buckets = set t.buckets idx bucket' } in
    if inserted
    then (maybe_grow_buckets (record t1 { node_count = t1.node_count + 1 }) >>= λ t2. ok (node, t2))
    else (let (h, a) = free t1.heap t1.allocator candidate in
        ok (node, record t1 { heap = h; allocator = a }))

-- The `while (true)` loop, with a bound on its rounds.
unfoldable pub get_or_create_loop :
    ⦃env : Platform⦄ → ℕ → ℕ → Ptr → Ptr → NodeTable → Run (Ptr × NodeTable)
get_or_create_loop zero level low high t = no_fuel
get_or_create_loop (suc rounds) level low high t = do
  idx ← hash t.table_size level low high
  bucket ← at t.buckets idx
  let existing = find t.heap level low high bucket
  let c = allocate t.heap t.allocator level low high
  let retry = perform_maintenance t >>= get_or_create_loop rounds level low high
  let inserting = publish (record t { heap = c.1; allocator = c.2 }) idx bucket level low high c.0
  if existing == null then (if c.0 == null then retry else inserting) else ok (existing, t)

-- Maintenance leaves a free slot, so a second round is the last.
unfoldable pub get_or_create_node :
    ⦃env : Platform⦄ → ℕ → Ptr → Ptr → NodeTable → Run (Ptr × NodeTable)
get_or_create_node level low high t = get_or_create_loop 2 level low high t

unfoldable pub combine : ⦃env : Platform⦄ → ℕ → Ptr → Ptr → NodeTable → Run (Ptr × NodeTable)
combine level low high t = if low == high then ok (low, t) else get_or_create_node level low high t

-- `v.emplace(v.begin() + i, x)`, undefined past the end
unfoldable pub insert_at : List Ptr → ℕ → Ptr → Run (List Ptr)
insert_at xs zero x = ok (x ∷ xs)
insert_at [] (suc i) x = fault
insert_at (y ∷ xs) (suc i) x = insert_at xs i x >>= λ ys. ok (y ∷ ys)

unfoldable pub create_var : ⦃env : Platform⦄ → ℕ → NodeTable → Run (Ptr × NodeTable)
unfolding insert_at
create_var id t = do
  (node, t1) ← get_or_create_node id t.false_node t.true_node t
  vars ← insert_at t1.vars id node
  let t2 = record t1 { heap = ref t1.heap node; vars = vars }
  (nvar, t3) ← get_or_create_node id t2.true_node t2.false_node t2
  nvars ← insert_at t3.nvars id nvar
  let t4 = record t3 { heap = ref t3.heap nvar; nvars = nvars }
  p ← at t4.vars id
  ok (p, t4)

-- the members before the terminal nodes are made
unfoldable pub blank : Heap → Allocator → ℕ → NodeTable
blank h a size = record {
  heap = h;
  table_size = size;
  buckets = replicate size [];
  allocator = a;
  node_count = 0;
  false_node = null;
  true_node = null;
  vars = [];
  nvars = [];
  cache = [];
}

-- `NodeTable(tableSize)`, over memory `h`
unfoldable pub new_table : ⦃env : Platform⦄ → Heap → ℕ → Run NodeTable
unfolding blank
new_table ⦃env⦄ h size = do
  let m = create env.place h size 2
  let t = blank m.0 m.1 size
  (f, t1) ← get_or_create_node uint_max null null t
  let t2 = record t1 { false_node = f }
  (g, t3) ← get_or_create_node (uint_max - 1) null null t2
  let t4 = record t3 { true_node = g }
  ok (record t4 { heap = ref (ref t4.heap f) g })
