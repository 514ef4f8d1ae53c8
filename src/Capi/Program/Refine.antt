-- ===== src/Capi/Program/Refine.antt =====
-- Programs over the C interface compute the Boolean functions that they denote.
use nanobdd.Base.{
  ℕ, zero, suc, ◌+◌, ◌-◌, ◌^◌, ◌≤◌, ◌<◌, ◌≡◌, ◌≢◌, ltb, if◌then◌else◌, Option, none, some, Bool,
  true, false, not, [], ◌∷◌, ◌++◌, ok, Run, ◌>>=◌, Returns, Returns_map, set, Bool-cases, inl, inr,
  arith, refl, subst,
}
use nanobdd.Node.{Ptr, null}
use nanobdd.Platform.{Platform}
use nanobdd.Table.State.{NodeTable}
use nanobdd.Table.Operations.{Op}
use nanobdd.Table.Layout.{Stored-ne_null}
use nanobdd.Table.Meaning.{Means, terminal}
use nanobdd.Table.Cofactor.{Represents-Stored}
use nanobdd.Table.Expand.{cost}
use nanobdd.Table.Semantics.{IsValid}
use nanobdd.Handle.{and_of, or_of, xor_of, diff_of}
use nanobdd.Handle.Results.{
  Owned, here-Owned, and_of-Owned, or_of-Owned, not_of-Owned, xor_of-Owned, diff_of-Owned,
}
use nanobdd.Tree.{leaf}
use nanobdd.Allocator.FreeList.{slots}
use nanobdd.Library.Start.{IsReady, get_var-Means}
use nanobdd.Capi.{
  Object, Session, c_false, c_true, c_get_var, c_get_nvar, c_clone, c_free, c_and, c_or, c_xor,
  c_diff, c_not, c_binary,
}
use nanobdd.Capi.Program.{
  Value, Values, Command, get_false, get_true, gc, get_var, get_nvar, clone, free, negate, and, or,
  exclusive_or, diff, execute, bind, value_of, denote,
}
use nanobdd.Capi.Program.State.{some_injective, Agrees, Hold-root, Hold-at}
use nanobdd.Capi.Program.Grow.{grown-Agrees}
use nanobdd.Capi.Program.Runs.{
  binary_returns, not_returns, clone_returns, held_too, false_returns, true_returns,
  get_var_returns, get_nvar_returns,
}
use nanobdd.Capi.Program.Shrink.{freed-Agrees, collected-Agrees}

pub bind-some :
    {A B : Type 0} (o : Option A) (next : A → Option B) (b : B)
    → bind o next ≡ some b
    → (a : A) × (o ≡ some a) × (next a ≡ some b)
bind-some none next b e = absurd (cc e)
bind-some (some a) next b e = (a, refl, e)

checked :
    (b : Bool) (o : Option Values) (ws : Values)
    → b ≡ true
    → (if b then o else none) ≡ some ws
    → o ≡ some ws
checked true o ws test e = e
checked false o ws test e = absurd (cc test)

module _ ⦃env : Platform⦄ (n fuel : ℕ) (deep : n < fuel) (pins : Ptr → ℕ) (limit room : ℕ)
    (vs : Values) (s : Session) (agrees : Agrees n pins limit (room + cost n) vs s)
    (small : limit + 1 < 2 ^ 32) where
  abbrev t : NodeTable
  t = agrees.table

  abbrev After : Values → Session → Type 0
  After ws s1 = Agrees n pins (limit + 1) room ws s1

  valid : IsValid n t agrees.all.left
  valid = record { laid = agrees.all.laid; sound = agrees.all.sound }

  enough : cost n ≤ slots t.allocator agrees.all.left
  enough = omega (arith, agrees.all.free_slots)

  node-ne_null : (p : Ptr) (f : Value) → Means n t p f → p ≢ null
  node-ne_null p f m =
      Stored-ne_null t agrees.all.left p agrees.all.laid
        (Represents-Stored n t m.tree p agrees.all.sound m.represents)

  -- An operator of handles.
  binary-After :
      (op : Ptr → Ptr → Op) (x y : Object) (f g h : Value)
      → value_of vs x ≡ some f
      → value_of vs y ≡ some g
      → ((p q : Ptr)
          → Means n t p f
          → Means n t q g
          → Returns (op p q t) (Owned n t agrees.all.left h))
      → Returns (c_binary op x y s >>= λ r. ok r.1) (After (vs ++ some h ∷ []))
  binary-After op x y f g h ex ey right =
      let (p, px, mx) = Hold-root n t s vs x f agrees.hold ex in
      let (q, py, my) = Hold-root n t s vs y g agrees.hold ey in
      let ((root, u), run, w) = right p q mx my in
      (
        _,
        binary_returns s t agrees.loaded_eq op x y p q root u px py run,
        grown-Agrees n pins limit room vs s agrees small h root u w,
      )

  negate-After :
      (x : Object) (f : Value)
      → value_of vs x ≡ some f
      → Returns (c_not fuel x s >>= λ r. ok r.1) (After (vs ++ some (λ e. not (f e)) ∷ []))
  negate-After x f ex =
      let (p, px, mx) = Hold-root n t s vs x f agrees.hold ex in
      let ((root, u), run, w) = not_of-Owned n t agrees.all.left fuel p f valid mx deep enough in
      (
        _,
        not_returns s t agrees.loaded_eq fuel x p root u px run,
        grown-Agrees n pins limit room vs s agrees small _ root u w,
      )

  -- One more handle on a node that is there.
  held_too-After :
      (p : Ptr) (f : Value)
      → Means n t p f
      → After (vs ++ some f ∷ []) (held_too s t agrees.loaded_eq p)
  held_too-After p f m =
      grown-Agrees n pins limit room vs s agrees small f p _
        (here-Owned n t agrees.all.left p f valid m)

  clone-After :
      (x : Object) (f : Value)
      → value_of vs x ≡ some f
      → Returns (c_clone x s >>= λ r. ok r.1) (After (vs ++ some f ∷ []))
  clone-After x f ex =
      let (p, px, m) = Hold-root n t s vs x f agrees.hold ex in
      (_, clone_returns s t agrees.loaded_eq x p (node-ne_null p f m) px, held_too-After p f m)

  terminal-Means : (b : Bool) → Means n t (terminal t b) (λ e. b)
  terminal-Means b = record { tree = leaf b; robdd = tt; represents = refl; evaluates = λ e. refl }

  false-After : Returns (c_false s >>= λ r. ok r.1) (After (vs ++ some (λ e. false) ∷ []))
  false-After =
      let m = terminal-Means false in
      (_, false_returns s t agrees.loaded_eq (node-ne_null _ _ m), held_too-After _ _ m)

  true-After : Returns (c_true s >>= λ r. ok r.1) (After (vs ++ some (λ e. true) ∷ []))
  true-After =
      let m = terminal-Means true in
      (_, true_returns s t agrees.loaded_eq (node-ne_null _ _ m), held_too-After _ _ m)

  abbrev ready : IsReady n (room + cost n) s.library
  ready = record {
    table = t;
    loaded_eq = agrees.loaded_eq;
    var_num_eq = agrees.var_num_eq;
    all = agrees.all;
  }

  var-After :
      (id : ℕ)
      → id < n
      → Returns (c_get_var id s >>= λ r. ok r.1) (After (vs ++ some (λ e. e id) ∷ []))
  var-After id lt =
      let (p, run, m) = (get_var-Means n (room + cost n) s.library ready id lt).0 in
      (_, get_var_returns s t agrees.loaded_eq id p (node-ne_null p _ m) run, held_too-After p _ m)

  nvar-After :
      (id : ℕ)
      → id < n
      → Returns (c_get_nvar id s >>= λ r. ok r.1) (After (vs ++ some (λ e. not (e id)) ∷ []))
  nvar-After id lt =
      let (p, run, m) = (get_var-Means n (room + cost n) s.library ready id lt).1 in
      (_, get_nvar_returns s t agrees.loaded_eq id p (node-ne_null p _ m) run, held_too-After p _ m)

  -- The limits may be wider than needed.
  wider : (ws : Values) (s1 : Session) → Agrees n pins limit (room + cost n) ws s1 → After ws s1
  wider ws s1 a = record {
    table = a.table;
    loaded_eq = a.loaded_eq;
    var_num_eq = a.var_num_eq;
    all = record {
      left = a.all.left;
      laid = a.all.laid;
      sound = a.all.sound;
      tidy = a.all.tidy;
      has_vars = a.all.has_vars;
      free_slots = omega (arith, a.all.free_slots);
    };
    hold = a.hold;
    counted = record {
      refs = λ p st. let k = a.counted.refs p st in (k.0, omega (arith, k));
      pins_stored = a.counted.pins_stored;
      false_pinned = a.counted.false_pinned;
      true_pinned = a.counted.true_pinned;
      vars_pinned = a.counted.vars_pinned;
      nvars_pinned = a.counted.nvars_pinned;
    };
  }

  free-After :
      (x : Object) (f : Value)
      → value_of vs x ≡ some f
      → Returns (c_free x s) (After (set vs (x - 1) none))
  free-After zero f ex = absurd (cc ex)
  free-After (suc k) f ex =
      let (p, there, m) = Hold-at n t s.objects vs k f agrees.hold ex in
      let done =
        freed-Agrees n pins limit (room + cost n) vs s agrees (omega arith) k p f there m in
      subst (λ j. Returns (c_free (suc k) s) (After (set vs j none))) (omega arith)
        (Returns_map _ (λ s1 a. wider (set vs k none) s1 a) done)

  becomes :
      (run : Run Session) (us ws : Values)
      → some us ≡ some ws
      → Returns run (After us)
      → Returns run (After ws)
  becomes run us ws e = subst (λ v. Returns run (After v)) (some_injective us ws e)

  -- Each call does what it denotes.
  pub step-After :
      (c : Command) (ws : Values) → denote n c vs ≡ some ws → Returns (execute fuel c s) (After ws)
  unfolding execute c_and c_or c_xor c_diff
  step-After get_false ws e = becomes (execute fuel get_false s) _ ws e false-After
  step-After get_true ws e = becomes (execute fuel get_true s) _ ws e true-After
  step-After gc ws e = becomes (execute fuel gc s) vs ws e (
      Returns_map _ (λ s1 a. wider vs s1 a)
        (collected-Agrees n pins limit (room + cost n) vs s agrees (omega arith)))
  step-After (get_var id) ws e = elim (Bool-cases (ltb id n)) [
    | inl lt ↦
        becomes (execute fuel (get_var id) s) (vs ++ some (λ a. a id) ∷ []) ws (checked _ _ ws lt e)
          (var-After id (ground arith))
    | inr ge ↦ absurd (cc (e, ge))
  ]
  step-After (get_nvar id) ws e = elim (Bool-cases (ltb id n)) [
    | inl lt ↦
        becomes (execute fuel (get_nvar id) s) (vs ++ some (λ a. not (a id)) ∷ []) ws
          (checked _ _ ws lt e) (nvar-After id (ground arith))
    | inr ge ↦ absurd (cc (e, ge))
  ]
  step-After (clone x) ws e =
      let (f, ex, e1) = bind-some (value_of vs x) _ ws e in
      becomes (execute fuel (clone x) s) _ ws e1 (clone-After x f ex)
  step-After (free x) ws e =
      let (f, ex, e1) = bind-some (value_of vs x) _ ws e in
      becomes (execute fuel (free x) s) _ ws e1 (free-After x f ex)
  step-After (negate x) ws e =
      let (f, ex, e1) = bind-some (value_of vs x) _ ws e in
      becomes (execute fuel (negate x) s) _ ws e1 (negate-After x f ex)
  step-After (and x y) ws e =
      let (f, ex, e1) = bind-some (value_of vs x) _ ws e in
      let (g, ey, e2) = bind-some (value_of vs y) _ ws e1 in
      becomes (execute fuel (and x y) s) _ ws e2 (
        binary-After (and_of fuel) x y f g _ ex ey
          (λ p q m k. and_of-Owned n t agrees.all.left fuel p q f g valid m k deep enough))
  step-After (or x y) ws e =
      let (f, ex, e1) = bind-some (value_of vs x) _ ws e in
      let (g, ey, e2) = bind-some (value_of vs y) _ ws e1 in
      becomes (execute fuel (or x y) s) _ ws e2 (
        binary-After (or_of fuel) x y f g _ ex ey
          (λ p q m k. or_of-Owned n t agrees.all.left fuel p q f g valid m k deep enough))
  step-After (exclusive_or x y) ws e =
      let (f, ex, e1) = bind-some (value_of vs x) _ ws e in
      let (g, ey, e2) = bind-some (value_of vs y) _ ws e1 in
      becomes (execute fuel (exclusive_or x y) s) _ ws e2 (
        binary-After (xor_of fuel) x y f g _ ex ey
          (λ p q m k. xor_of-Owned n t agrees.all.left fuel p q f g valid m k deep enough))
  step-After (diff x y) ws e =
      let (f, ex, e1) = bind-some (value_of vs x) _ ws e in
      let (g, ey, e2) = bind-some (value_of vs y) _ ws e1 in
      becomes (execute fuel (diff x y) s) _ ws e2 (
        binary-After (diff_of fuel) x y f g _ ex ey
          (λ p q m k. diff_of-Owned n t agrees.all.left fuel p q f g valid m k deep enough))
