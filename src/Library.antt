-- ===== src/Library.antt =====
-- src/Nanobdd.cpp: the global node table and its life, and the variables.
pub mod Counts
pub mod Vars
pub mod Fresh
pub mod Start
pub mod Kept
pub mod After
use nanobdd.Base.{
  ℕ, zero, suc, ◌+◌, ◌%◌, ◌^◌, ltb, if◌then◌else◌, Option, none, some, Run, ok, fault, ◌>>=◌, at,
}
use nanobdd.Hash.{u32}
use nanobdd.Node.{Ptr, Heap}
use nanobdd.Cache
use nanobdd.Platform.{Platform}
use nanobdd.Table.State.{NodeTable}
use nanobdd.Handle.{construct}
use nanobdd.Table.Create.{create_var, new_table}
use nanobdd.Table.Collect.{gc}

-- `nodeTable`, with the `cache` inside it, and `varNum_`. `none` is the null pointer; `init` sets both
-- pointers and `clear` resets both.
pub record Library : Type 0 where
  pub node_table : Option NodeTable
  pub var_num : ℕ

abbrev pub unloaded : Library
unloaded = record { node_table = none; var_num = 0 }

module _ ⦃env : Platform⦄ where
  -- the loop over the variables, from `id` on
  unfoldable pub create_vars : ℕ → ℕ → NodeTable → Run NodeTable
  create_vars zero id t = ok t
  create_vars (suc left) id t = create_var (u32 id) t >>= λ (_, t'). create_vars left (id + 1) t'

  -- `memory` is the heap before the first slab is built in it.
  unfoldable pub init : Heap → ℕ → ℕ → ℕ → Library → Run Library
  init memory table_size cache_size var_num g = elim g.node_table [
    | some _ ↦ ok g
    | none ↦ do
      t ← new_table memory (env.prime_gte (u32 table_size))
      let t1 = record t { cache = Cache.create (env.prime_gte (u32 cache_size)) }
      t2 ← create_vars var_num 0 t1
      ok (record { node_table = some t2; var_num = var_num })
  ]

unfoldable pub clear : Library → Library
clear g = unloaded

-- The pointer behind `->`.
abbrev pub loaded : Option NodeTable → Run NodeTable
loaded none = fault
loaded (some t) = ok t

-- The node of `getVar` and `getNvar`, before it is wrapped in a `Bdd`; the assertion is a fault.
unfoldable pub get_var : ℕ → Library → Run Ptr
get_var id g = do t ← loaded g.node_table; if ltb id g.var_num then at t.vars id else fault

unfoldable pub get_nvar : ℕ → Library → Run Ptr
get_nvar id g = do t ← loaded g.node_table; if ltb id g.var_num then at t.nvars id else fault

-- The node becomes a handle, as `Bdd(Node *)` does it.
abbrev pub handle_on : Ptr → Library → Run (Ptr × Library)
handle_on root g = do
  t ← loaded g.node_table
  h ← construct root t.heap
  ok (root, record g { node_table = some (record t { heap = h }) })

unfoldable pub var_handle : ℕ → Library → Run (Ptr × Library)
var_handle id g = get_var id g >>= λ root. handle_on root g

unfoldable pub nvar_handle : ℕ → Library → Run (Ptr × Library)
nvar_handle id g = get_nvar id g >>= λ root. handle_on root g

unfoldable pub bdd_false : Library → Run (Ptr × Library)
bdd_false g = loaded g.node_table >>= λ t. handle_on t.false_node g

unfoldable pub bdd_true : Library → Run (Ptr × Library)
bdd_true g = loaded g.node_table >>= λ t. handle_on t.true_node g

unfoldable pub num_nodes : Library → Run ℕ
num_nodes g = loaded g.node_table >>= λ t. ok t.node_count

unfoldable pub collect : Library → Run Library
collect g = do t ← loaded g.node_table; t' ← gc t; ok (record g { node_table = some t' })
