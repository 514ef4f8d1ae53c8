-- ===== src/Jni/Literals.antt =====
-- The native methods for variables and constants leave the library as it was.
use nanobdd.Base.{
  ℕ, ◌^◌, ◌<◌, ◌≡◌, ◌≢◌, Bool, true, false, not, some, ok, Returns, arith, refl, sym, ap, fun_ext,
  eq_cases, ◌∙◌,
}
use native.Mathlib.Nat.{mod-eq_of_lt}
use nanobdd.Hash.{u32}
use nanobdd.Tree.{Assignment, leaf}
use nanobdd.Node.{Ptr, null, Heap, ref, deref}
use nanobdd.Platform.{Platform}
use nanobdd.Table.State.{NodeTable}
use nanobdd.Table.Layout.{Stored, Stored-ne_null}
use nanobdd.Table.Meaning.{Means, terminal}
use nanobdd.Table.Cofactor.{Represents-Stored}
use nanobdd.Library.{
  Library, handle_on, var_handle, nvar_handle, bdd_true, bdd_false, get_var, get_nvar,
}
use nanobdd.Library.Start.{IsReady, get_var-Means}
use nanobdd.Jni.{with_table, root_of_temporary, var, nvar, get_true, get_false}
use nanobdd.Jni.Results.{IsU32, constructed, destroyed}

deref-ref : (h : Heap) (p : Ptr) → (h p).ref_count < 2 ^ 32 → deref (ref h p) p ≡ h
unfolding deref ref
deref-ref h p small = fun_ext λ q. ground (arith, eq_cases q p)

same_library : (g : Library) (t : NodeTable) → g.node_table ≡ some t → with_table g t ≡ g
same_library g t e = ap (λ o. record g { node_table = o }) (sym e)

module _ (g : Library) (t : NodeTable) (p : Ptr) (there : g.node_table ≡ some t) (ne : p ≢ null)
    (small : (t.heap p).ref_count < 2 ^ 32) where
  -- A handle that lives for a statement.
  temporary : root_of_temporary (handle_on p g) ≡ ok (p, g)
  unfolding root_of_temporary
  temporary =
      rw
        (
          there,
          constructed t.heap p ne,
          destroyed (ref t.heap p) p ne,
          deref-ref t.heap p small,
          same_library g t there,
        )
        refl

  var_returns : (idx : ℕ) → get_var (u32 idx) g ≡ ok p → var idx g ≡ ok (p, g)
  unfolding var var_handle
  var_returns idx run = rw (run, temporary) refl

  nvar_returns : (idx : ℕ) → get_nvar (u32 idx) g ≡ ok p → nvar idx g ≡ ok (p, g)
  unfolding nvar nvar_handle
  nvar_returns idx run = rw (run, temporary) refl

module _ (g : Library) (t : NodeTable) (there : g.node_table ≡ some t) where
  bdd_true-handle_on : bdd_true g ≡ handle_on t.true_node g
  unfolding bdd_true
  bdd_true-handle_on = rw there refl

  bdd_false-handle_on : bdd_false g ≡ handle_on t.false_node g
  unfolding bdd_false
  bdd_false-handle_on = rw there refl

module _ ⦃env : Platform⦄ (n room : ℕ) (g : Library) (ready : IsReady n room g)
    (small : IsU32 ready.table) where
  abbrev t : NodeTable
  t = ready.table

  -- The library is the same, and the result is the node of `f`.
  abbrev pub Unchanged : (Assignment → Bool) → Ptr × Library → Type 0
  Unchanged f r = (r.1 ≡ g) × Means n t r.0 f

  stored : (p : Ptr) (f : Assignment → Bool) → Means n t p f → Stored t p
  stored p f m = Represents-Stored n t m.tree p ready.all.sound m.represents

  ne_null : (p : Ptr) (f : Assignment → Bool) → Means n t p f → p ≢ null
  ne_null p f m = Stored-ne_null t ready.all.left p ready.all.laid (stored p f m)

  terminal-Means : (b : Bool) → Means n t (terminal t b) (λ e. b)
  terminal-Means b = record { tree = leaf b; robdd = tt; represents = refl; evaluates = λ e. refl }

  terminal_run : (b : Bool) → root_of_temporary (handle_on (terminal t b) g) ≡ ok (terminal t b, g)
  terminal_run b =
      let m = terminal-Means b in
      temporary g t (terminal t b) ready.loaded_eq (ne_null _ _ m) (small _ (stored _ _ m))

  -- In a ready library, `getTrue` and `getFalse` return the terminals, the nodes of the constant
  -- functions, and leave the library, reference counts included, as it was.
  constants-Unchanged :
      Returns (get_true g) (Unchanged (λ e. true)) × Returns (get_false g) (Unchanged (λ e. false))
  unfolding get_true get_false
  constants-Unchanged = (
    (
      (t.true_node, g),
      ap root_of_temporary (bdd_true-handle_on g t ready.loaded_eq) ∙ terminal_run true,
      (refl, terminal-Means true),
    ),
    (
      (t.false_node, g),
      ap root_of_temporary (bdd_false-handle_on g t ready.loaded_eq) ∙ terminal_run false,
      (refl, terminal-Means false),
    ),
  )

  module _ (idx : ℕ) (bound : idx < n) where
    exact : u32 idx ≡ idx
    exact = mod-eq_of_lt (omega (arith, bound, ready.all.sound.few))

    var-Unchanged : Returns (var idx g) (Unchanged (λ e. e idx))
    var-Unchanged =
        let (p, run, m) = (get_var-Means n room g ready idx bound).0 in
        (
          (p, g),
          var_returns g t p ready.loaded_eq (ne_null p _ m) (small p (stored p _ m)) idx
              (ap (λ i. get_var i g) exact ∙ run),
          (refl, m),
        )

    nvar-Unchanged : Returns (nvar idx g) (Unchanged (λ e. not (e idx)))
    nvar-Unchanged =
        let (p, run, m) = (get_var-Means n room g ready idx bound).1 in
        (
          (p, g),
          nvar_returns g t p ready.loaded_eq (ne_null p _ m) (small p (stored p _ m)) idx
              (ap (λ i. get_nvar i g) exact ∙ run),
          (refl, m),
        )

    -- In a ready library, for an index below the number of variables, `var` and `nvar` return the
    -- nodes of the variable and of its negation, and leave the library, reference counts included, as
    -- it was.
    pub literals-Unchanged :
        Returns (var idx g) (Unchanged (λ e. e idx))
        × Returns (nvar idx g) (Unchanged (λ e. not (e idx)))
    literals-Unchanged = (var-Unchanged, nvar-Unchanged)
