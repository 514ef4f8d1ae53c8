-- ===== src/Library/Start.antt =====
-- `init` builds a table with all variables.
use nanobdd.Base.{
  Returns_map, ◌^◌, ℕ, zero, suc, ◌+◌, ◌-◌, ◌*◌, ◌≤◌, ◌<◌, ◌≡◌, ◌⊎◌, inl, inr, true, false, not,
  ltb, List, length, length-replicate, get_or, get_or-replicate, at-get_or, arith, refl, ap, subst,
  Returns, some,
}
use native.Mathlib.Nat.{mod-eq_of_lt}
use nanobdd.Hash.{u32}
use nanobdd.Tree.{leaf}
use nanobdd.Node.{Ptr, null, Heap}
use nanobdd.Cache
use nanobdd.Cache.{empty_entry}
use nanobdd.Allocator.FreeList.{slots}
use nanobdd.Platform.{Platform, IsSane}
use nanobdd.Table.State.{NodeTable, uint_max}
use nanobdd.Table.Layout.{Stored, IsLaid, IsLaid-other}
use nanobdd.Table.Meaning.{Means, IsSound}
use nanobdd.Table.Marked.{IsTidy}
use nanobdd.Library.{Library, unloaded, create_vars, init, get_var, get_nvar}
use nanobdd.Library.Counts.{Counts}
use nanobdd.Library.Vars.{HasVars, create_var-Declared}
use nanobdd.Library.Fresh.{new_table-IsNew}

module _ ⦃env : Platform⦄ (n room : ℕ) where
  -- A table with all variables, and slots for `room` more nodes.
  pub record HasAll (t : NodeTable) : Type 0 where
    pub left : List Ptr
    pub laid : IsLaid t left
    pub sound : IsSound n t
    pub tidy : IsTidy t
    pub has_vars : HasVars n t n
    pub free_slots : room ≤ slots t.allocator left

  -- An initialised library over `n` variables.
  pub record IsReady (g : Library) : Type 0 where
    pub table : NodeTable
    pub loaded_eq : g.node_table ≡ some table
    pub var_num_eq : g.var_num ≡ n
    pub all : HasAll table

  -- A ready library whose counts are at most one more than its literals.
  pub record IsStarted (g : Library) : Type 0 where
    pub ready : IsReady g
    pub counts : 2 * n + 1 < 2 ^ 32 → Counts (2 * n + 1) ready.table

module _ ⦃env : Platform⦄ (n room : ℕ) (few : n ≤ uint_max - 1) where
  -- With an empty cache of its own, a new table is sound.
  new-IsSound :
      (t : NodeTable) (false_stored : Stored t t.false_node) (true_stored : Stored t t.true_node)
      → (t.heap t.false_node).level ≡ uint_max
      → (t.heap t.true_node).level ≡ uint_max - 1
      → ((p : Ptr) → Stored t p → (p ≡ t.false_node) ⊎ (p ≡ t.true_node))
      → (k : ℕ) → 0 < k
      → t.cache ≡ Cache.create k
      → IsSound n t
  new-IsSound t fs ts fl tl only k pos e = record {
    few = few;
    cache_sized = rw (e, length-replicate k empty_entry) pos;
    false_stored = fs;
    true_stored = ts;
    false_level = fl;
    true_level = tl;
    closed = λ p s. elim (only p s) [ inl z ↦ (leaf false, tt, z) | inr z ↦ (leaf true, tt, z) ];
    cached = λ i. inl (rw (e, get_or-replicate k i empty_entry));
  }

  -- Each variable takes two references.
  abbrev Raised : NodeTable → ℕ → ℕ → NodeTable → Type 0
  Raised t limit rest u = Counts limit t → limit + 2 * rest < 2 ^ 32 → Counts (limit + 2 * rest) u

  create_vars-HasAll :
      (rest k : ℕ) (t : NodeTable) (free : List Ptr)
      → rest + k ≡ n
      → IsLaid t free
      → IsSound n t
      → IsTidy t
      → HasVars n t k
      → 2 * rest + room ≤ slots t.allocator free
      → (limit : ℕ) → Returns (create_vars rest k t) (λ u. HasAll n room u × Raised t limit rest u)
  unfolding create_vars
  create_vars-HasAll zero k t free e v s tidy vars enough limit =
      let same : k ≡ n = omega arith in
      (
        t,
        refl,
        (
          record {
            left = free;
            laid = v;
            sound = s;
            tidy = tidy;
            has_vars = subst (HasVars n t) same vars;
            free_slots = omega arith;
          },
          λ c small. subst (λ l. Counts l t) (omega arith) c,
        ),
      )
  create_vars-HasAll (suc rest) k t free e v s tidy vars enough limit =
      let (r, run, d) = create_var-Declared n t free k v s vars (omega arith) (omega arith) in
      let (u, run', (all, raised)) =
        create_vars-HasAll rest (k + 1) r.1 d.left (omega arith) d.laid d.sound (d.tidy tidy)
          (subst (HasVars n r.1) (omega arith) d.has_vars) (omega (arith, d.spent)) (limit + 2) in
      let same : u32 k ≡ k = mod-eq_of_lt (omega arith) in
      (
        u,
        rw (same, run) run',
        (
          all,
          λ c small.
              subst (λ l. Counts l u) (omega arith)
                (raised (d.counts limit (omega arith) c) (omega arith)),
        ),
      )

module _ ⦃env : Platform⦄ (sane : IsSane env) (memory : Heap)
    (unused : (p : Ptr) → (memory p).in_use ≡ false) (table_size cache_size n room : ℕ)
    (few : n ≤ uint_max - 1) (roomy : 2 + 2 * n + room ≤ env.prime_gte (u32 table_size))
    (cached : 0 < env.prime_gte (u32 cache_size)) where
  pub init-IsStarted : Returns (init memory table_size cache_size n unloaded) (IsStarted n room)
  unfolding init
  init-IsStarted =
      let size = env.prime_gte (u32 table_size) in
      let k = env.prime_gte (u32 cache_size) in
      let (t, run, w) = new_table-IsNew sane memory unused size (omega arith) in
      let t1 : NodeTable = record t { cache = Cache.create k } in
      let laid =
        IsLaid-other t w.left t.false_node t.true_node t.vars t.nvars (Cache.create k) w.laid in
      let sound =
        new-IsSound n room few t1 w.false_stored w.true_stored w.false_level w.true_level w.only k
          cached refl in
      let tidy : IsTidy t1 = record {
        unmarked = w.tidy.unmarked;
        protected = w.tidy.protected;
        no_low = w.tidy.no_low;
        no_high = w.tidy.no_high;
      } in
      let none_yet : HasVars n t1 0 = record {
        vars_length = ap length w.vars;
        nvars_length = ap length w.nvars;
        vars_mean = λ i lt. absurd (omega arith);
        nvars_mean = λ i lt. absurd (omega arith);
      } in
      let start : Counts 1 t1 = record {
        capped = w.capped;
        vars_held = λ i lt. absurd (omega (arith, ap length w.vars));
        nvars_held = λ i lt. absurd (omega (arith, ap length w.nvars));
      } in
      let (u, run', (all, raised)) =
        create_vars-HasAll n room few n 0 t1 w.left (omega arith) laid sound tidy none_yet
          (omega (arith, w.roomy)) 1 in
      (
        record { node_table = some u; var_num = n },
        rw (run, run'),
        record {
          ready = record { table = u; loaded_eq = refl; var_num_eq = refl; all = all };
          counts = λ small. subst (λ l. Counts l u) (omega arith) (raised start (omega arith));
        },
      )

  -- On an unloaded library and a sane platform, over memory without marks, with a node table that has a slot for the two
  -- terminals, two nodes for each variable and `room` more, and a cache that is not empty, `init`
  -- ends in a valid table, ready for a collection, that holds the variables and their negations and
  -- has `room` slots left.
  pub init-IsReady : Returns (init memory table_size cache_size n unloaded) (IsReady n room)
  init-IsReady = Returns_map _ (λ g w. w.ready) init-IsStarted

-- In a library that is ready, for an index below the number of variables, `getVar` and `getNvar`
-- return the nodes of the variable and of its negation.
pub get_var-Means :
    ⦃env : Platform⦄
    → (n room : ℕ) (g : Library) (ready : IsReady n room g) (i : ℕ) → i < n
    → Returns (get_var i g) (λ p. Means n ready.table p (λ e. e i))
      × Returns (get_nvar i g) (λ p. Means n ready.table p (λ e. not (e i)))
unfolding get_var get_nvar
get_var-Means n room g ready i lt =
    let t = ready.table in
    let vars = ready.all.has_vars in
    let less : ltb i n ≡ true = ground arith in
    (
      (
        get_or t.vars i null,
        rw (ready.loaded_eq, ready.var_num_eq, less)
            (at-get_or t.vars i null (omega (arith, vars.vars_length))),
        vars.vars_mean i lt,
      ),
      (
        get_or t.nvars i null,
        rw (ready.loaded_eq, ready.var_num_eq, less)
            (at-get_or t.nvars i null (omega (arith, vars.nvars_length))),
        vars.nvars_mean i lt,
      ),
    )
