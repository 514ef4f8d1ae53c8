-- ===== src/Capi/Program/Runs.antt =====
-- What the calls of the C interface return when each step of theirs does.
use nanobdd.Base.{ℕ, ◌≡◌, ◌≢◌, ◌==◌, ◌||◌, false, some, ok, ◌>>=◌, arith, refl}
use nanobdd.Node.{Ptr, null, ref}
use nanobdd.Platform.{Platform}
use nanobdd.Table.State.{NodeTable}
use nanobdd.Table.Operations.{Op}
use nanobdd.Handle.{construct, copy, not_of}
use nanobdd.Library.{
  Library, handle_on, var_handle, nvar_handle, get_var, get_nvar, bdd_false, bdd_true,
}
use nanobdd.Capi.{
  Object, Session, root_of, new_object, with_table, c_binary, c_not, c_clone, c_false, c_true,
  c_get_var, c_get_nvar,
}
use nanobdd.Capi.Objects.{root_of-ne_null}

module _ (s : Session) (t : NodeTable) (there : s.library.node_table ≡ some t) where
  pub binary_returns :
      (op : Ptr → Ptr → Op) (x y : Object) (p q root : Ptr) (u : NodeTable)
      → root_of x s ≡ ok p
      → root_of y s ≡ ok q
      → op p q t ≡ ok (root, u)
      → (c_binary op x y s >>= λ r. ok r.1) ≡ ok (new_object root (with_table s u)).1
  unfolding c_binary
  binary_returns op x y p q root u px py run =
      let test : ((x == null) || (y == null)) ≡ false =
        ground (arith, root_of-ne_null x s p px, root_of-ne_null y s q py) in
      rw (test, px, py, there, run) refl

  pub not_returns :
      ⦃env : Platform⦄
      → (fuel : ℕ) (x : Object) (p root : Ptr) (u : NodeTable) → root_of x s ≡ ok p
      → not_of fuel p t ≡ ok (root, u)
      → (c_not fuel x s >>= λ r. ok r.1) ≡ ok (new_object root (with_table s u)).1
  unfolding c_not
  not_returns fuel x p root u px run =
      let test : (x == null) ≡ false = ground (arith, root_of-ne_null x s p px) in
      rw (test, px, there, run) refl

  -- The session with one more handle on `p`.
  abbrev pub held_too : Ptr → Session
  held_too p = (new_object p (with_table s (record t { heap = ref t.heap p }))).1

  pub clone_returns :
      (x : Object) (p : Ptr)
      → p ≢ null
      → root_of x s ≡ ok p
      → (c_clone x s >>= λ r. ok r.1) ≡ ok (held_too p)
  unfolding c_clone copy
  clone_returns x p ne px =
      let test : (p == null) ≡ false = ground (arith, ne) in rw (px, there, test) refl

  abbrev raised : Ptr → Library
  raised p = record s.library { node_table = some (record t { heap = ref t.heap p }) }

  handle_on_returns : (p : Ptr) → p ≢ null → handle_on p s.library ≡ ok (p, raised p)
  unfolding construct
  handle_on_returns p ne =
      let test : (p == null) ≡ false = ground (arith, ne) in rw (there, test) refl

  pub false_returns : t.false_node ≢ null → (c_false s >>= λ r. ok r.1) ≡ ok (held_too t.false_node)
  unfolding c_false bdd_false construct
  false_returns ne =
      let test : (t.false_node == null) ≡ false = ground (arith, ne) in rw (there, test) refl

  pub true_returns : t.true_node ≢ null → (c_true s >>= λ r. ok r.1) ≡ ok (held_too t.true_node)
  unfolding c_true bdd_true construct
  true_returns ne =
      let test : (t.true_node == null) ≡ false = ground (arith, ne) in rw (there, test) refl

  pub get_var_returns :
      (id : ℕ) (p : Ptr)
      → p ≢ null
      → get_var id s.library ≡ ok p
      → (c_get_var id s >>= λ r. ok r.1) ≡ ok (held_too p)
  unfolding c_get_var var_handle
  get_var_returns id p ne run = rw (run, handle_on_returns p ne) refl

  pub get_nvar_returns :
      (id : ℕ) (p : Ptr)
      → p ≢ null
      → get_nvar id s.library ≡ ok p
      → (c_get_nvar id s >>= λ r. ok r.1) ≡ ok (held_too p)
  unfolding c_get_nvar nvar_handle
  get_nvar_returns id p ne run = rw (run, handle_on_returns p ne) refl
