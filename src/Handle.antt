-- ===== src/Handle.antt =====
-- src/Bdd.cpp: the handles, which own one reference to their root each. A handle is its `root_`; a
-- handle that has been moved from holds `null`.
pub mod Counts
pub mod Results
use nanobdd.Base.{ℕ, Bool, true, false, ◌==◌, ltb, not, if◌then◌else◌, Run, ok, fault, ◌>>=◌}
use nanobdd.Node.{Ptr, null, Heap, ref, deref}
use nanobdd.Platform.{Platform}
use nanobdd.Table.State.{NodeTable}
use nanobdd.Table.Operations.{Op, bdd_and, bdd_or, bdd_not, bdd_xor, bdd_diff, bdd_imp}

-- `Bdd(Node *)`, which does not test for null
unfoldable pub construct : Ptr → Heap → Run Heap
construct root h = if root == null then fault else ok (ref h root)

-- `Bdd()`
unfoldable pub default : NodeTable → Run (Ptr × Heap)
default t = construct t.false_node t.heap >>= λ h. ok (t.false_node, h)

-- `Bdd(const Bdd &)`
unfoldable pub copy : Ptr → Heap → Ptr × Heap
copy other h = (other, if other == null then h else ref h other)

-- `Bdd(Bdd &&)`: the new handle, and what is left of the other
unfoldable pub move : Ptr → Ptr × Ptr
move other = (other, null)

-- the release of a root that may be null
unfoldable pub release : Ptr → Heap → Heap
release root h = if root == null then h else deref h root

-- `~Bdd()`; `loaded` says whether the global table is there
unfoldable pub destroy : Bool → Ptr → Heap → Heap
destroy loaded root h = if loaded then release root h else h

-- `operator=(const Bdd &)`; `itself` is the test `this == &r`
unfoldable pub copy_assign : Bool → Ptr → Ptr → Heap → Ptr × Heap
copy_assign itself root other h =
    if itself then (root, h) else (let (new_root, h1) = copy other h in (new_root, release root h1))

-- `operator=(Bdd &&)`: the handle, what is left of the other, and the heap
unfoldable pub move_assign : Bool → Ptr → Ptr → Heap → Ptr × Ptr × Heap
move_assign itself root other h = if itself then (root, other, h) else (other, null, release root h)

unfoldable pub is_false : NodeTable → Ptr → Bool
is_false t root = root == t.false_node

unfoldable pub is_true : NodeTable → Ptr → Bool
is_true t root = root == t.true_node

unfoldable pub equal : Ptr → Ptr → Bool
equal root other = root == other

unfoldable pub differs : Ptr → Ptr → Bool
differs root other = not (root == other)

unfoldable pub less : Ptr → Ptr → Bool
less root other = ltb root other

-- The result of the table's operation becomes a new handle.
unfoldable pub wrapped : Op → Op
wrapped run t = do (p, t1) ← run t; h ← construct p t1.heap; ok (p, record t1 { heap = h })

module _ ⦃env : Platform⦄ (fuel : ℕ) where
  unfoldable pub and_of : Ptr → Ptr → Op
  and_of root other = wrapped (bdd_and fuel root other)

  unfoldable pub or_of : Ptr → Ptr → Op
  or_of root other = wrapped (bdd_or fuel root other)

  unfoldable pub not_of : Ptr → Op
  not_of root = wrapped (bdd_not fuel root)

  unfoldable pub xor_of : Ptr → Ptr → Op
  xor_of root other = wrapped (bdd_xor fuel root other)

  unfoldable pub diff_of : Ptr → Ptr → Op
  diff_of root other = wrapped (bdd_diff fuel root other)

  unfoldable pub imp_of : Ptr → Ptr → Op
  imp_of root other = wrapped (bdd_imp fuel root other)

  -- The compound assignments store the new root and leave both reference counts as they are.
  unfoldable pub and_assign : Ptr → Ptr → Op
  and_assign root other = bdd_and fuel root other

  unfoldable pub or_assign : Ptr → Ptr → Op
  or_assign root other = bdd_or fuel root other

  unfoldable pub xor_assign : Ptr → Ptr → Op
  xor_assign root other = bdd_xor fuel root other

  unfoldable pub diff_assign : Ptr → Ptr → Op
  diff_assign root other = bdd_diff fuel root other

  unfoldable pub imp_assign : Ptr → Ptr → Op
  imp_assign root other = bdd_imp fuel root other
