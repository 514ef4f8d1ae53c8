-- ===== src/Capi.antt =====
-- src/capi.cpp: the C interface. A `nanobdd_bdd_t *` is the number of an object that `new` has made,
-- counted from 1, or `null`; an object holds a handle until `delete`, and is then a fault to touch.
-- The operations of the table run on fuel, as in src/NodeTable.cpp.
pub mod Objects
pub mod Program
use nanobdd.Base.{
  ℕ, zero, suc, ◌+◌, ◌-◌, ◌==◌, ◌||◌, Bool, true, false, if◌then◌else◌, Option, none, some, List,
  [], ◌∷◌, ◌++◌, length, set, Run, ok, fault, ◌>>=◌, at,
}
use nanobdd.Node.{Ptr, null, Heap}
use nanobdd.Platform.{Platform}
use nanobdd.Table.State.{NodeTable}
use nanobdd.Table.Operations.{Op, bdd_and, bdd_or, bdd_xor, bdd_diff, bdd_imp}
use nanobdd.Handle.{
  copy, destroy, is_false, is_true, equal, and_of, or_of, not_of, xor_of, diff_of, imp_of,
  and_assign, or_assign, xor_assign, diff_assign, imp_assign,
}
use nanobdd.Library.{
  Library, loaded, init, clear, var_handle, nvar_handle, bdd_false, bdd_true, num_nodes, collect,
}

abbrev pub Object : Type 0
Object = ℕ

-- The global state and the objects; `none` is one that has been deleted.
pub record Session : Type 0 where
  pub library : Library
  pub objects : List (Option Ptr)

abbrev pub with_table : Session → NodeTable → Session
with_table s t = record s { library = record s.library { node_table = some t } }

-- `new nanobdd_bdd_t{...}`
unfoldable pub new_object : Ptr → Session → Object × Session
new_object root s = (suc (length s.objects), record s { objects = s.objects ++ some root ∷ [] })

abbrev pub living : Option Ptr → Run Ptr
living none = fault
living (some root) = ok root

-- `bdd->bdd`
unfoldable pub root_of : Object → Session → Run Ptr
root_of zero s = fault
root_of (suc k) s = at s.objects k >>= living

abbrev pub wrap : Run (Ptr × Library) → Session → Run (Object × Session)
wrap run s = do (root, g) ← run; ok (new_object root (record s { library = g }))

unfoldable pub c_init : ⦃env : Platform⦄ → Heap → ℕ → ℕ → ℕ → Session → Run Session
c_init memory table_size cache_size var_num s = do
  g ← init memory table_size cache_size var_num s.library
  ok (record s { library = g })

unfoldable pub c_clear : Session → Session
c_clear s = record s { library = clear s.library }

unfoldable pub c_false : Session → Run (Object × Session)
c_false s = wrap (bdd_false s.library) s

unfoldable pub c_true : Session → Run (Object × Session)
c_true s = wrap (bdd_true s.library) s

unfoldable pub c_get_var : ℕ → Session → Run (Object × Session)
c_get_var id s = wrap (var_handle id s.library) s

unfoldable pub c_get_nvar : ℕ → Session → Run (Object × Session)
c_get_nvar id s = wrap (nvar_handle id s.library) s

-- The copy constructor touches the node of a root that is not null. Without a table the memory of the
-- nodes is gone, and so it is a fault then.
unfoldable pub c_clone : Object → Session → Run (Object × Session)
c_clone bdd s = do
  root ← root_of bdd s
  t ← loaded s.library.node_table
  let (r, h) = copy root t.heap
  ok (new_object r (with_table s (record t { heap = h })))

-- `delete bdd`: nothing for null, and else the destructor of the handle
unfoldable pub c_free : Object → Session → Run Session
c_free zero s = ok s
c_free (suc k) s = do
  root ← root_of (suc k) s
  let rest = record s { objects = set s.objects k none }
  elim s.library.node_table [
    | none ↦ ok rest
    | some t ↦ ok (with_table rest (record t { heap = destroy true root t.heap }))
  ]

-- The null check of the queries, and the query on the root.
abbrev pub asked : Object → Session → (NodeTable → Ptr → Bool) → Run Bool
asked bdd s query =
    if bdd == null
    then ok false
    else (do root ← root_of bdd s; t ← loaded s.library.node_table; ok (query t root))

unfoldable pub c_is_false : Object → Session → Run Bool
c_is_false bdd s = asked bdd s is_false

unfoldable pub c_is_true : Object → Session → Run Bool
c_is_true bdd s = asked bdd s is_true

-- With a null operand the pointers are compared, else the handles.
unfoldable pub c_eq : Object → Object → Session → Run Bool
c_eq lhs rhs s =
    if (lhs == null) || (rhs == null)
    then ok (lhs == rhs)
    else (do x ← root_of lhs s; y ← root_of rhs s; ok (equal x y))

-- An operator that makes a new handle, as a function of the C interface with its null checks.
unfoldable pub c_binary : (Ptr → Ptr → Op) → Object → Object → Session → Run (Object × Session)
c_binary op lhs rhs s = if (lhs == null) || (rhs == null) then ok (null, s) else (do
  x ← root_of lhs s
  y ← root_of rhs s
  t ← loaded s.library.node_table
  (root, t1) ← op x y t
  ok (new_object root (with_table s t1)))

-- A compound assignment: the new root replaces the old one in the object.
unfoldable pub c_assign : (Ptr → Ptr → Op) → Object → Object → Session → Run Session
c_assign op lhs rhs s = if (lhs == null) || (rhs == null) then ok s else (do
  x ← root_of lhs s
  y ← root_of rhs s
  t ← loaded s.library.node_table
  (root, t1) ← op x y t
  let s1 = with_table s t1
  ok (record s1 { objects = set s1.objects (lhs - 1) (some root) }))

module _ ⦃env : Platform⦄ (fuel : ℕ) where
  unfoldable pub c_and : Object → Object → Session → Run (Object × Session)
  c_and = c_binary (and_of fuel)

  unfoldable pub c_or : Object → Object → Session → Run (Object × Session)
  c_or = c_binary (or_of fuel)

  unfoldable pub c_xor : Object → Object → Session → Run (Object × Session)
  c_xor = c_binary (xor_of fuel)

  unfoldable pub c_diff : Object → Object → Session → Run (Object × Session)
  c_diff = c_binary (diff_of fuel)

  unfoldable pub c_imp : Object → Object → Session → Run (Object × Session)
  c_imp = c_binary (imp_of fuel)

  unfoldable pub c_not : Object → Session → Run (Object × Session)
  c_not value s = if value == null then ok (null, s) else (do
    x ← root_of value s
    t ← loaded s.library.node_table
    (root, t1) ← not_of fuel x t
    ok (new_object root (with_table s t1)))

  unfoldable pub c_and_assign : Object → Object → Session → Run Session
  c_and_assign = c_assign (and_assign fuel)

  unfoldable pub c_or_assign : Object → Object → Session → Run Session
  c_or_assign = c_assign (or_assign fuel)

  unfoldable pub c_xor_assign : Object → Object → Session → Run Session
  c_xor_assign = c_assign (xor_assign fuel)

  unfoldable pub c_diff_assign : Object → Object → Session → Run Session
  c_diff_assign = c_assign (diff_assign fuel)

  unfoldable pub c_imp_assign : Object → Object → Session → Run Session
  c_imp_assign = c_assign (imp_assign fuel)

unfoldable pub c_num_nodes : Session → Run ℕ
c_num_nodes s = num_nodes s.library

unfoldable pub c_gc : Session → Run Session
c_gc s = collect s.library >>= λ g. ok (record s { library = g })
