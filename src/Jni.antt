-- ===== src/Jni.antt =====
-- java/src/main/java/org/snlab/jni/org_snlab_jni_NanoBDD.cpp: the native methods of the Java
-- class. A `jlong` is a node's address; a handle lives only inside a call. A `jint` is its 32 bits.
pub mod Results
pub mod Literals
use nanobdd.Base.{ℕ, ◌+◌, ◌-◌, ◌^◌, ltb, if◌then◌else◌, true, some, Run, ok, fault, ◌>>=◌, ◌==◌}
use nanobdd.Hash.{u32}
use nanobdd.Node.{Ptr, null, Heap, ref, deref}
use nanobdd.Platform.{Platform}
use nanobdd.Table.State.{NodeTable}
use nanobdd.Table.Operations.{Op}
use nanobdd.Handle.{construct, destroy, and_of, or_of, not_of, diff_of}
use nanobdd.Library.{
  Library, loaded, init, clear, var_handle, nvar_handle, bdd_false, bdd_true, num_nodes, collect,
}

abbrev pub with_heap : NodeTable → Heap → NodeTable
with_heap t h = record t { heap = h }

abbrev pub with_table : Library → NodeTable → Library
with_table g t = record g { node_table = some t }

-- `(size_t)i`, which extends the sign
unfoldable pub size_of_jint : ℕ → ℕ
size_of_jint i = if ltb i (2 ^ 31) then i else i + 2 ^ 64 - 2 ^ 32

unfoldable pub cxx_construct : ⦃env : Platform⦄ → Heap → ℕ → ℕ → ℕ → Library → Run (Ptr × Library)
cxx_construct memory table_size cache_size var_num g = do
  g1 ← init memory (size_of_jint table_size) (size_of_jint cache_size) (size_of_jint var_num) g
  ok (null, g1)

unfoldable pub cxx_destroy : Library → Library
cxx_destroy g = clear g

unfoldable pub clear_all : Library → Library
clear_all g = clear g

-- `.root()` of a handle that is destroyed at the end of the statement
unfoldable pub root_of_temporary : Run (Ptr × Library) → Run (Ptr × Library)
root_of_temporary run = do
  (root, g) ← run
  t ← loaded g.node_table
  ok (root, with_table g (with_heap t (destroy true root t.heap)))

unfoldable pub var : ℕ → Library → Run (Ptr × Library)
var idx g = root_of_temporary (var_handle (u32 idx) g)

unfoldable pub nvar : ℕ → Library → Run (Ptr × Library)
nvar idx g = root_of_temporary (nvar_handle (u32 idx) g)

unfoldable pub get_true : Library → Run (Ptr × Library)
get_true g = root_of_temporary (bdd_true g)

unfoldable pub get_false : Library → Run (Ptr × Library)
get_false g = root_of_temporary (bdd_false g)

-- The handles of the operands are made first and destroyed last.
unfoldable pub unary : (Ptr → Op) → Ptr → Library → Run (Ptr × Library)
unary op x g = do
  t ← loaded g.node_table
  h ← construct x t.heap
  (root, u) ← op x (with_heap t h)
  ok (root, with_table g (with_heap u (destroy true x (destroy true root u.heap))))

unfoldable pub binary : (Ptr → Ptr → Op) → Ptr → Ptr → Library → Run (Ptr × Library)
binary op x y g = do
  t ← loaded g.node_table
  h1 ← construct x t.heap
  h2 ← construct y h1
  (root, u) ← op x y (with_heap t h2)
  let h3 = destroy true y (destroy true root u.heap)
  ok (root, with_table g (with_heap u (destroy true x h3)))

module _ ⦃env : Platform⦄ (fuel : ℕ) where
  unfoldable pub native_not : Ptr → Library → Run (Ptr × Library)
  native_not = unary (not_of fuel)

  unfoldable pub native_and : Ptr → Ptr → Library → Run (Ptr × Library)
  native_and = binary (and_of fuel)

  unfoldable pub native_or : Ptr → Ptr → Library → Run (Ptr × Library)
  native_or = binary (or_of fuel)

  unfoldable pub native_diff : Ptr → Ptr → Library → Run (Ptr × Library)
  native_diff = binary (diff_of fuel)

-- `x->ref()`; without a table the memory of the nodes is gone
unfoldable pub ref_node : Ptr → Library → Run Library
ref_node x g = do t ← loaded g.node_table; h ← construct x t.heap; ok (with_table g (with_heap t h))

unfoldable pub deref_node : Ptr → Library → Run Library
deref_node x g = do
  t ← loaded g.node_table
  if x == null then fault else ok (with_table g (with_heap t (deref t.heap x)))

unfoldable pub gc : Library → Run Library
gc g = collect g

unfoldable pub node_count : Library → Run ℕ
node_count g = num_nodes g
