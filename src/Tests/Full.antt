-- ===== src/Tests/Full.antt =====
-- The theorems on maintenance, on the library of two variables.
use nanobdd.Base.{Bool, true, false, Returns, refl, arith}
use nanobdd.Tree.{leaf, branch}
use nanobdd.Node.Marking.{here}
use nanobdd.Table.Collect.{perform_maintenance}
use nanobdd.Table.Create.{get_or_create_node}
use nanobdd.Table.Meaning.{terminal, terminal-Stored}
use nanobdd.Table.Marked.{IsLive}
use nanobdd.Table.Maintenance.{Maintained, perform_maintenance-Maintained}
use nanobdd.Table.Supply.{Supplied, get_or_create_node-Supplied}
use nanobdd.Hash.{hash_o_3}
use nanobdd.Bucket.{find, insert_if_absent}
use nanobdd.Allocator.{create, construct, allocate}
use nanobdd.Table.State.{NodeTable, home}
use nanobdd.Table.Growth.{should_grow_buckets, maybe_grow_buckets}
use nanobdd.Table.Create.{publish, get_or_create_loop, insert_at, create_var, blank, new_table}
use nanobdd.Base.{
  not, ◌&&◌, ◌==◌, Run, ok, no_fuel, fault, Option, some, none, ap, sym, ◌∙◌, inl, inr, eq_cases,
  ◌≡◌,
}
use nanobdd.Base.{ℕ, zero, suc, ◌<◌, ◌≢◌, get_or}
use nanobdd.Tree.{Assignment}
use nanobdd.Node.{Ptr, null, ref}
use nanobdd.Table.Meaning.{Means}
use nanobdd.Table.Cofactor.{Represents-Stored}
use nanobdd.Library.{Library, collect, init, unloaded, create_vars}
use nanobdd.Library.Kept.{AreHeld, IsKept, collect-IsKept}
use nanobdd.Tests.Sample.{bump, bump-IsSane, memory, two_variables, library, ready, t, free_cells}

perform_maintenance-Maintained_example : Returns (perform_maintenance t) (Maintained 2 t)
perform_maintenance-Maintained_example =
    perform_maintenance-Maintained 2 bump-IsSane t free_cells ready.all.laid ready.all.sound
      ready.all.tidy

terminal-IsLive : (b : Bool) → IsLive t (terminal t b)
terminal-IsLive b =
    (terminal t b, terminal-Stored 2 t ready.all.sound b, ready.all.tidy.protected b, here)

-- the first variable, which is there already
get_or_create_node-Supplied_example :
    Returns
      (get_or_create_node 0 t.false_node t.true_node t)
      (Supplied 2 t (branch 0 (leaf false) (leaf true)))
get_or_create_node-Supplied_example =
    get_or_create_node-Supplied 2 0 t.false_node t.true_node (leaf false) (leaf true)
      (omega arith, tt, tt, λ e. cc, tt, tt) bump-IsSane t free_cells ready.all.laid ready.all.sound
      ready.all.tidy (terminal-IsLive false) (terminal-IsLive true) refl refl

-- A node with a function and a reference is protected.
live : (p : Ptr) (f : Assignment → Bool) → Means 2 t p f → (t.heap p).ref_count ≢ 0 → IsLive t p
live p f m held = (p, Represents-Stored 2 t m.tree p ready.all.sound m.represents, held, here)

-- Every variable below `k` and its negation have a reference.
counted : ℕ → NodeTable → Bool
counted zero u = true
counted (suc k) u =
    (not ((u.heap (get_or u.vars k null)).ref_count == 0)
      && not ((u.heap (get_or u.nvars k null)).ref_count == 0))
    && counted k u

counted_in : Run Library → Bool
counted_in (ok g) = elim g.node_table [ some u ↦ counted 2 u | none ↦ false ]
counted_in no_fuel = false
counted_in fault = false

init-counted : counted_in (init memory 15 15 2 unloaded) ≡ true
unfolding counted_in counted init create_vars create_var insert_at new_table blank create construct
    get_or_create_node get_or_create_loop find insert_if_absent allocate publish maybe_grow_buckets
    should_grow_buckets home hash_o_3 ref
init-counted = refl

t-counted : counted 2 t ≡ true
unfolding counted_in
t-counted =
    ap (λ (o : Option NodeTable). counted_in (ok (record library { node_table = o })))
      (sym ready.loaded_eq)
    ∙ ap counted_in (sym two_variables.1)
    ∙ init-counted

var_count :
    (k i : ℕ) (u : NodeTable)
    → counted k u ≡ true
    → i < k
    → ((u.heap (get_or u.vars i null)).ref_count ≢ 0)
      × ((u.heap (get_or u.nvars i null)).ref_count ≢ 0)
unfolding counted
var_count zero i u c lt = absurd (omega arith)
var_count (suc k) i u c lt = elim (eq_cases i k) [
  | inl e ↦ rw e (ground arith, ground arith)
  | inr ne ↦ var_count k i u (ground arith) (omega arith)
]

all_held : AreHeld 2 t
all_held =
    let vars = ready.all.has_vars in
    record {
      vars_live = λ i lt. live _ _ (vars.vars_mean i lt) (var_count 2 i t t-counted lt).0;
      nvars_live = λ i lt. live _ _ (vars.nvars_mean i lt) (var_count 2 i t t-counted lt).1;
    }

collect-IsKept_example : Returns (collect library) (IsKept 2 10 t)
collect-IsKept_example = collect-IsKept 2 10 library ready all_held
