-- ===== src/Tests/Runs.antt =====
-- The program of examples/simple.cpp, run in the model.
use nanobdd.Base.{◌≡◌, refl, Bool, true, ◌==◌, not, Run, ok, ◌>>=◌, at}
use nanobdd.Library.{unloaded, create_vars, init, loaded}
use nanobdd.Hash.{hash_o_3, hash_uo_o_3}
use nanobdd.Node.{ref}
use nanobdd.Bucket.{find, insert_if_absent}
use nanobdd.Allocator.{create, construct, allocate}
use nanobdd.Cache.{lookup, insert}
use nanobdd.Table.State.{home}
use nanobdd.Table.Growth.{should_grow_buckets, maybe_grow_buckets}
use nanobdd.Table.Create.{
  publish, get_or_create_loop, get_or_create_node, combine, insert_at, create_var, blank, new_table,
}
use nanobdd.Table.Operations.{
  bdd_and, bdd_or, bdd_not, and_shortcut, or_shortcut, not_shortcut, expand, expand_not, recurse,
  neg_cof, pos_cof, unordered,
}
use nanobdd.Tests.Sample.{bump, memory}

simple : Run (Bool × Bool)
simple = do
  g ← init memory 20 20 3 unloaded
  t ← loaded g.node_table
  x ← at t.vars 0
  y ← at t.vars 1
  z ← at t.vars 2
  (xy, t1) ← bdd_and 9 x y t
  (xyz, t2) ← bdd_and 9 xy z t1
  (nz, t3) ← bdd_not 9 z t2
  (xyz', t4) ← bdd_and 9 xy nz t3
  (u, t5) ← bdd_or 9 xyz xyz' t4
  ok (xy == u, not (xy == t5.false_node))

-- Both assertions of the example hold.
simple_lem : simple ≡ ok (true, true)
unfolding simple init create_vars create_var insert_at new_table blank create construct
    get_or_create_node get_or_create_loop find insert_if_absent allocate publish maybe_grow_buckets
    should_grow_buckets home hash_o_3 hash_uo_o_3 ref bdd_and bdd_or bdd_not and_shortcut
    or_shortcut not_shortcut expand expand_not recurse neg_cof pos_cof combine lookup insert
    unordered
simple_lem = refl
