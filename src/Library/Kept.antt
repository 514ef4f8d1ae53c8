-- ===== src/Library/Kept.antt =====
-- `gc` on a library that is ready: the variables stay.
use nanobdd.Base.{
  ℕ, ◌<◌, Bool, not, arith, refl, ap, ◌∙◌, sym, subst, get_or, length, Returns, some,
}
use nanobdd.Tree.{Assignment}
use nanobdd.Node.{Ptr, null}
use nanobdd.Platform.{Platform}
use nanobdd.Table.State.{NodeTable}
use nanobdd.Table.Collect.{gc}
use nanobdd.Table.Meaning.{Means}
use nanobdd.Table.Marked.{IsLive}
use nanobdd.Table.Collection.{Collected, gc_locked-Collected}
use nanobdd.Library.{Library, collect}
use nanobdd.Library.Start.{HasAll, IsReady}

module _ ⦃env : Platform⦄ (n : ℕ) where
  -- Reference counts protect the nodes of the variables and of their negations.
  pub record AreHeld (t : NodeTable) : Type 0 where
    pub vars_live : (i : ℕ) → i < n → IsLive t (get_or t.vars i null)
    pub nvars_live : (i : ℕ) → i < n → IsLive t (get_or t.nvars i null)

module _ ⦃env : Platform⦄ (n room : ℕ) where
  -- A ready library in which the protected nodes of `t` keep their functions.
  pub record IsKept (t : NodeTable) (g : Library) : Type 0 where
    pub ready : IsReady n room g
    pub means :
        (p : Ptr) (f : Assignment → Bool) → IsLive t p → Means n t p f → Means n ready.table p f

  pub Collected-HasAll :
      (t : NodeTable) (all : HasAll n room t) (held : AreHeld n t) (r : ℕ × NodeTable)
      → Collected n t all.left r
      → HasAll n room r.1
  Collected-HasAll t all held r c = record {
    left = c.left;
    laid = c.laid;
    sound = c.sound;
    tidy = c.tidy;
    has_vars = record {
      vars_length = ap length c.vars ∙ all.has_vars.vars_length;
      nvars_length = ap length c.nvars ∙ all.has_vars.nvars_length;
      vars_mean = λ i lt.
          subst (λ l. Means n r.1 (get_or l i null) (λ e. e i)) (sym c.vars)
            (c.means _ _ (held.vars_live i lt) (all.has_vars.vars_mean i lt));
      nvars_mean = λ i lt.
          subst (λ l. Means n r.1 (get_or l i null) (λ e. not (e i))) (sym c.nvars)
            (c.means _ _ (held.nvars_live i lt) (all.has_vars.nvars_mean i lt));
    };
    free_slots = omega (arith, c.roomy, all.free_slots);
  }

  -- In a ready library whose variables and their negations have a reference, gc ends; the library is
  -- ready again, with at least the same room, and each protected node keeps its function.
  pub collect-IsKept :
      (g : Library) (ready : IsReady n room g)
      → AreHeld n ready.table
      → Returns (collect g) (IsKept ready.table)
  unfolding collect gc
  collect-IsKept g ready held =
      let t = ready.table in
      let all = ready.all in
      let (r, run, c) = gc_locked-Collected n t all.left all.laid all.sound all.tidy in
      (
        record g { node_table = some r.1 },
        rw (ready.loaded_eq, run) refl,
        record {
          ready = record {
            table = r.1;
            loaded_eq = refl;
            var_num_eq = ready.var_num_eq;
            all = Collected-HasAll t all held r c;
          };
          means = c.means;
        },
      )
