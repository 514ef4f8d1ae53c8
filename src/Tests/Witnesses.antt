-- ===== src/Tests/Witnesses.antt =====
-- The theorems at the library of two variables.
use nanobdd.Base.{
  ◌==◌, if◌then◌else◌, [], ◌∷◌, ◌≡◌, ◌≢◌, ◌↔◌, ◌⊎◌, true, false, not, ◌&&◌, ◌||◌, arith, refl,
  Returns,
}
use mathlib.Core.Bool.{xor}
use nanobdd.Node.{Ptr, null, new, Heap}
use nanobdd.Handle.{copy, copy_assign, destroy, and_of}
use nanobdd.Handle.Counts.{IsCounted, copy_assign-IsCounted, destroy-copy}
use nanobdd.Handle.Results.{Owned, and_of-Owned}
use nanobdd.Cache.{Operator, lookup}
use nanobdd.Allocator.{reset, allocate}
use nanobdd.Allocator.FreeList.{Allocated, allocate-Allocated}
use nanobdd.Table.Growth.{grow_buckets}
use nanobdd.Table.Create.{get_or_create_node}
use nanobdd.Table.Operations.{bdd_and, bdd_or, bdd_xor, bdd_diff, bdd_not, bdd_imp}
use nanobdd.Table.Layout.{IsLaid}
use nanobdd.Table.Layout.Rehash.{Regrown, grow_buckets-Regrown}
use nanobdd.Table.Creation.{Created, get_or_create_node-Created}
use nanobdd.Node.Marking.{IsMarked, IsRemarked}
use nanobdd.Table.Collect.{mark_all, mark_fuel, gc_locked}
use nanobdd.Table.Marked.{IsLive, mark_all-IsLive}
use nanobdd.Table.Collection.{Collected, gc_locked-Collected}
use nanobdd.Table.Meaning.{Means}
use nanobdd.Table.Combine.{Done}
use nanobdd.Table.Caching.{lookup-Means}
use nanobdd.Table.Shortcut.{value_false, value_true}
use nanobdd.Table.Semantics.{
  bdd_and-Done, bdd_or-Done, bdd_xor-Done, bdd_diff-Done, bdd_not-Done, bdd_imp-Done_negated,
}
use nanobdd.Library.{unloaded, init, get_var, get_nvar}
use nanobdd.Library.Start.{IsReady, init-IsReady, get_var-Means}
use nanobdd.Table.Cofactor.{Represents-Stored}
use nanobdd.Tests.Sample.{
  counts, bump, bump-IsSane, memory, library, ready, t, free_cells, t-IsValid, room, x, y, x_means,
  y_means,
}

x-ne_false : x ≢ t.false_node
x-ne_false e = cc (value_false 2 t ready.all.sound x (λ a. a 0) x_means e (λ _. true))

x-ne_true : x ≢ t.true_node
x-ne_true e = cc (value_true 2 t ready.all.sound x (λ a. a 0) x_means e (λ _. false))

y-ne_true : y ≢ t.true_node
y-ne_true e = cc (value_true 2 t ready.all.sound y (λ a. a 1) y_means e (λ _. false))

bdd_and-Done_example : Returns (bdd_and 3 x y t) (Done 2 t free_cells 3 (λ e. e 0 && e 1))
bdd_and-Done_example =
    bdd_and-Done 2 t free_cells 3 x y (λ e. e 0) (λ e. e 1) t-IsValid x_means y_means (omega arith)
      room

bdd_or-Done_example : Returns (bdd_or 3 x y t) (Done 2 t free_cells 3 (λ e. e 0 || e 1))
bdd_or-Done_example =
    bdd_or-Done 2 t free_cells 3 x y (λ e. e 0) (λ e. e 1) t-IsValid x_means y_means (omega arith)
      room

bdd_xor-Done_example : Returns (bdd_xor 3 x y t) (Done 2 t free_cells 3 (λ e. xor (e 0) (e 1)))
bdd_xor-Done_example =
    bdd_xor-Done 2 t free_cells 3 x y (λ e. e 0) (λ e. e 1) t-IsValid x_means y_means (omega arith)
      room

bdd_diff-Done_example : Returns (bdd_diff 3 x y t) (Done 2 t free_cells 3 (λ e. e 0 && not (e 1)))
bdd_diff-Done_example =
    bdd_diff-Done 2 t free_cells 3 x y (λ e. e 0) (λ e. e 1) t-IsValid x_means y_means (omega arith)
      room

bdd_not-Done_example : Returns (bdd_not 3 x t) (Done 2 t free_cells 3 (λ e. not (e 0)))
bdd_not-Done_example =
    bdd_not-Done 2 t free_cells 3 x (λ e. e 0) t-IsValid x_means (omega arith) room

bdd_imp-Done_negated_example :
    Returns (bdd_imp 3 x y t) (Done 2 t free_cells 3 (λ e. not (not (e 0) || e 1)))
bdd_imp-Done_negated_example =
    bdd_imp-Done_negated 2 t free_cells 3 x y (λ e. e 0) (λ e. e 1) t-IsValid x_means y_means
      (omega arith) room x-ne_false x-ne_true y-ne_true

init-IsReady_example : Returns (init memory 15 15 2 unloaded) (IsReady 2 10)
init-IsReady_example =
    init-IsReady bump-IsSane memory (λ p. refl) 15 15 2 10 (omega arith) (omega arith) (omega arith)

get_var-Means_example :
    Returns (get_var 1 library) (λ p. Means 2 t p (λ e. e 1))
    × Returns (get_nvar 1 library) (λ p. Means 2 t p (λ e. not (e 1)))
get_var-Means_example = get_var-Means 2 10 library ready 1 (omega arith)

get_or_create_node-Created_example :
    Returns (get_or_create_node 0 y t.true_node t) (Created t free_cells 0 y t.true_node)
get_or_create_node-Created_example =
    get_or_create_node-Created t free_cells 0 y t.true_node ready.all.laid (omega (arith, room))

grow_buckets-Regrown_example : Returns (grow_buckets t 97) (λ u. IsLaid u free_cells × Regrown t u)
grow_buckets-Regrown_example = grow_buckets-Regrown t free_cells 97 ready.all.laid

allocate-Allocated_example :
    Allocated t.heap t.allocator free_cells (reset 0 x y) (allocate t.heap t.allocator 0 x y)
allocate-Allocated_example =
    allocate-Allocated t.heap t.allocator free_cells 0 x y ready.all.laid.allocates
      (omega (arith, room))

lookup-Means_example :
    Returns
      (lookup t.cache 0 x y Operator.and)
      (λ c. (c ≡ null) ⊎ ((c ≢ null) × Means 2 t c (λ a. a 0 && a 1)))
lookup-Means_example =
    lookup-Means 2 t free_cells ready.all.laid ready.all.sound 0 x y Operator.and (λ e. e 0)
      (λ e. e 1) ready.all.sound.cache_sized x_means y_means

mark_all-IsLive_example :
    Returns
      (mark_all mark_fuel t.heap t.buckets)
      (λ g. IsRemarked t.heap g × ((q : Ptr) → IsMarked g q ↔ IsLive t q))
mark_all-IsLive_example =
    mark_all-IsLive 2 t ready.all.sound ready.all.tidy free_cells ready.all.laid

gc_locked-Collected_example : Returns (gc_locked t) (Collected 2 t free_cells)
gc_locked-Collected_example =
    gc_locked-Collected 2 t free_cells ready.all.laid ready.all.sound ready.all.tidy

and_of-Owned_example : Returns (and_of 3 x y t) (Owned 2 t free_cells (λ e. e 0 && e 1))
and_of-Owned_example =
    and_of-Owned 2 t free_cells 3 x y (λ e. e 0) (λ e. e 1) t-IsValid x_means y_means (omega arith)
      room

-- two nodes with one handle each
abbrev held : Heap
held p = if (p == 1) || (p == 2) then record new { ref_count = 1 } else new

held-IsCounted : IsCounted held (λ p. 0) (1 ∷ 2 ∷ [])
held-IsCounted p n = ground arith

copy_assign-IsCounted_example :
    ((copy_assign false 1 2 held).0 ≡ 2)
    × IsCounted (copy_assign false 1 2 held).1 (λ p. 0) (2 ∷ 2 ∷ [])
copy_assign-IsCounted_example = copy_assign-IsCounted held (λ p. 0) [] 1 2 held-IsCounted

destroy-copy_example : destroy true (copy x t.heap).0 (copy x t.heap).1 ≡ t.heap
destroy-copy_example = destroy-copy t.heap x (
    omega (
      arith,
      counts.capped x (Represents-Stored 2 t x_means.tree x ready.all.sound x_means.represents),
    ))
