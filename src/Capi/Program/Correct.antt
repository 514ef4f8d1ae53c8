-- ===== src/Capi/Program/Correct.antt =====
-- A whole program over the C interface does what it denotes.
use nanobdd.Base.{
  ltb, if◌then◌else◌, count, ◌-◌, false, ℕ, ◌+◌, ◌*◌, ◌^◌, ◌<◌, ◌≤◌, ◌≡◌, ◌↔◌, some, List, [], ◌∷◌,
  length, Run, ◌>>=◌, Returns, Bool, true, arith, refl, subst,
}
use nanobdd.Node.{Ptr, Heap}
use nanobdd.Hash.{u32}
use nanobdd.Tree.{Assignment}
use nanobdd.Platform.{Platform, IsSane}
use nanobdd.Table.State.{NodeTable, uint_max}
use nanobdd.Table.Layout.{Stored, bucket_at, home_of}
use nanobdd.Table.Meaning.{terminal, terminal-Stored}
use nanobdd.Library.{Library, unloaded}
use nanobdd.Library.Counts.{IsHeld}
use nanobdd.Library.Start.{IsStarted, init-IsStarted}
use nanobdd.Table.Expand.{cost}
use nanobdd.Capi.{Object, Session, c_eq, c_init}
use nanobdd.Capi.Objects.{c_eq_iff}
use nanobdd.Capi.Program.{Value, Values, Command, run_program, denote, denote_all, value_of}
use nanobdd.Capi.Program.State.{Agrees, Hold-root, some_injective}
use nanobdd.Capi.Program.Refine.{bind-some, step-After}

module _ ⦃env : Platform⦄ (n fuel : ℕ) (deep : n < fuel) (pins : Ptr → ℕ) where
  -- Each call takes at most one reference and `cost n` slots.
  pub program-Agrees :
      (cs : List Command) (limit room : ℕ) (vs ws : Values) (s : Session)
      → Agrees n pins limit (room + length cs * cost n) vs s
      → limit + length cs < 2 ^ 32
      → denote_all n cs vs ≡ some ws
      → Returns (run_program fuel cs s) (Agrees n pins (limit + length cs) room ws)
  unfolding run_program denote_all
  program-Agrees [] limit room vs ws s a small e = (
    s,
    refl,
    subst (λ us. Agrees n pins (limit + 0) room us s) (some_injective vs ws e)
        (subst (λ k. Agrees n pins k room vs s) (omega arith)
          (subst (λ k. Agrees n pins limit k vs s) (omega arith) a)),
  )
  program-Agrees (c ∷ cs) limit room vs ws s a small e =
      let (us, e1, e2) = bind-some (denote n c vs) _ ws e in
      let a0 : Agrees n pins limit (room + length cs * cost n + cost n) vs s =
        subst (λ k. Agrees n pins limit k vs s) (omega arith) a in
      let (s1, run, a1) =
        step-After n fuel deep pins limit (room + length cs * cost n) vs s a0 (omega arith) c us
          e1 in
      let (s2, run', a2) = program-Agrees cs (limit + 1) room us ws s1 a1 (omega arith) e2 in
      (s2, rw (run, run') refl, subst (λ k. Agrees n pins k room ws s2) (omega arith) a2)

  -- In a session that agrees with functions, `nanobdd_bdd_eq` compares them.
  pub Agrees-c_eq :
      (limit room : ℕ) (ws : Values) (s : Session) (a : Agrees n pins limit room ws s)
      → (x y : Object) (f g : Value) → value_of ws x ≡ some f
      → value_of ws y ≡ some g
      → Returns (c_eq x y s) (λ b. (b ≡ true) ↔ ((e : Assignment) → f e ≡ g e))
  Agrees-c_eq limit room ws s a x y f g ex ey =
      let (p, px, mx) = Hold-root n a.table s ws x f a.hold ex in
      let (q, py, my) = Hold-root n a.table s ws y g a.hold ey in
      c_eq_iff n s a.table a.all.left x y p q f g px py
        (record { laid = a.all.laid; sound = a.all.sound }) mx my

-- The references that a table has itself.
abbrev own : ⦃env : Platform⦄ → NodeTable → Ptr → ℕ
own t p = if ltb 0 (count p (bucket_at t (home_of t p))) then (t.heap p).ref_count else 0

module _ ⦃env : Platform⦄ (n room : ℕ) (g : Library) (w : IsStarted n room g)
    (small : 2 * n + 1 < 2 ^ 32) where
  abbrev t : NodeTable
  t = w.ready.table

  own-Stored : (p : Ptr) → 0 < own t p → Stored t p
  own-Stored p lt = ground (arith, lt)

  own-count : (p : Ptr) → Stored t p → own t p ≡ (t.heap p).ref_count
  own-count p st = ground (arith, st)

  held_own : (p : Ptr) → IsHeld t p → 0 < own t p
  held_own p (st, lt) = omega (arith, lt, own-count p st)

  terminal-own : (b : Bool) → 0 < own t (terminal t b)
  terminal-own b =
      let st = terminal-Stored n t w.ready.all.sound b in
      held_own _ (st, ground (arith, w.ready.all.tidy.protected b))

  -- A library that has started, and no objects.
  pub start-Agrees : Agrees n (own t) (2 * n + 1) room [] (record { library = g; objects = [] })
  start-Agrees =
      let counts = w.counts small in
      let vars = w.ready.all.has_vars in
      record {
        table = t;
        loaded_eq = w.ready.loaded_eq;
        var_num_eq = w.ready.var_num_eq;
        all = w.ready.all;
        hold = tt;
        counted = record {
          refs = λ p st. (omega (arith, own-count p st), counts.capped p st);
          pins_stored = own-Stored;
          false_pinned = terminal-own false;
          true_pinned = terminal-own true;
          vars_pinned = λ i lt. held_own _ (counts.vars_held i (omega (arith, vars.vars_length)));
          nvars_pinned =
              λ i lt. held_own _ (counts.nvars_held i (omega (arith, vars.nvars_length)));
        };
      }

-- Before `nanobdd_init`.
abbrev pub idle : Session
idle = record { library = unloaded; objects = [] }

-- the program, after `nanobdd_init`
abbrev pub started_run : ⦃env : Platform⦄ → Heap → ℕ → ℕ → ℕ → ℕ → List Command → Run Session
started_run memory table_size cache_size n fuel cs =
    c_init memory table_size cache_size n idle >>= λ s. run_program fuel cs s

module _ ⦃env : Platform⦄ (sane : IsSane env) (memory : Heap)
    (unused : (p : Ptr) → (memory p).in_use ≡ false) (table_size cache_size n fuel : ℕ)
    (few : n ≤ uint_max - 1) (cached : 0 < env.prime_gte (u32 cache_size)) (deep : n < fuel)
    (cs : List Command) (ws : Values) (denoted : denote_all n cs [] ≡ some ws)
    (roomy : 2 + 2 * n + length cs * cost n ≤ env.prime_gte (u32 table_size))
    (small : 2 * n + 1 + length cs < 2 ^ 32) where
  abbrev the_run : Run Session
  the_run = started_run memory table_size cache_size n fuel cs

  abbrev Outcome : Session → Type 0
  Outcome s = (pins : Ptr → ℕ) × Agrees n pins (2 * n + 1 + length cs) 0 ws s

  started-Agrees : Returns the_run Outcome
  unfolding c_init
  started-Agrees =
      let (g, start, w) =
        init-IsStarted sane memory unused table_size cache_size n (0 + length cs * cost n) few
          (omega (arith, roomy)) cached in
      let (s, run, a) =
        program-Agrees n fuel deep (own w.ready.table) cs (2 * n + 1) 0 [] ws _
          (start-Agrees n (0 + length cs * cost n) g w (omega arith)) small denoted in
      (s, rw start run, (_, a))

  -- On a sane platform, for a program of the calls `nanobdd_bdd_false`, `_true`, `_get_var`,
  -- `_get_nvar`, `_clone`, `_free`, `_and`, `_or`, `_xor`, `_diff`, `_not` and `nanobdd_gc` whose
  -- operands are there when it comes to them, with slots and reference counts enough for its length,
  -- `nanobdd_init` and the program run to their end, and then `nanobdd_bdd_eq` on two living objects
  -- is true exactly if the functions that the program denotes for them are equal.
  pub program-Refines :
      (x y : Object) (f g : Value)
      → value_of ws x ≡ some f
      → value_of ws y ≡ some g
      → Returns (the_run >>= λ s. c_eq x y s) (λ b. (b ≡ true) ↔ ((e : Assignment) → f e ≡ g e))
  program-Refines x y f g ex ey =
      let (s, run, (pins, a)) = started-Agrees in
      let (b, same, right) = Agrees-c_eq n fuel deep pins _ 0 ws s a x y f g ex ey in
      (b, rw run same, right)
