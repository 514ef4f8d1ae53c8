-- ===== src/Library/Vars.antt =====
-- `createVar` makes the node of a variable and of its negation, and keeps them.
use nanobdd.Base.{
  ◌^◌, ℕ, suc, ◌+◌, ◌≤◌, ◌<◌, ◌≡◌, ◌≢◌, Bool, true, false, not, if◌then◌else◌, List, [], ◌∷◌, ◌++◌,
  length, length-append, get_or, at-get_or, arith, refl, sym, ap, ◌∙◌, subst, ok, Returns,
}
use nanobdd.Tree.{Tree, leaf, branch, Assignment, IsRobdd}
use nanobdd.Node.{Ptr, null, ref}
use nanobdd.Platform.{Platform}
use nanobdd.Allocator.FreeList.{slots}
use nanobdd.Table.State.{NodeTable}
use nanobdd.Table.Create.{insert_at, create_var, get_or_create_node}
use nanobdd.Table.Layout.{IsLaid, Extends, Stored}
use nanobdd.Library.Counts.{
  extend_list, IsHeld, IsCapped, Counts, IsHeld-Extends, Created-IsCapped, pinned-IsCapped,
  pinned-kept, pinned-IsHeld,
}
use nanobdd.Table.Creation.{get_or_create_node-Created}
use nanobdd.Table.Meaning.{Represents, Means, Means-Extends, IsSound, terminal_level}
use nanobdd.Table.Marked.{IsTidy}
use nanobdd.Table.Tidy.{Created-IsTidy, ref-IsTidy}
use nanobdd.Table.Combine.{Created-IsSound}
use nanobdd.Table.Reheap.{
  ref-SameShape, ref-next_free, IsLaid-reheap, IsSound-reheap, Means-reheap, reheap, relist,
  relist-Extends, relist-IsLaid, relist-IsSound,
}

-- `emplace` at the end appends.
insert_at-end : (xs : List Ptr) (x : Ptr) → insert_at xs (length xs) x ≡ ok (xs ++ x ∷ [])
unfolding insert_at
insert_at-end [] x = refl
insert_at-end (y ∷ xs) x = rw (insert_at-end xs x)

module _ ⦃env : Platform⦄ (n : ℕ) where
  -- The node of a variable (`value` true) or of its negation.
  abbrev literal : ℕ → Bool → Assignment → Bool
  literal i value e = if e i then value else not value

  -- A table with the literal's node.
  record HasLiteral (t : NodeTable) (free : List Ptr) (i : ℕ) (value : Bool) (r : Ptr × NodeTable)
      : Type 0 where
    left : List Ptr
    laid : IsLaid r.1 left
    sound : IsSound n r.1
    extends : Extends t r.1
    means : Means n r.1 r.0 (literal i value)
    vars : r.1.vars ≡ t.vars
    nvars : r.1.nvars ≡ t.nvars
    stored : Stored r.1 r.0
    level_eq : (r.1.heap r.0).level ≡ i
    capped : (limit : ℕ) → IsCapped limit t → IsCapped limit r.1
    tidy : IsTidy t → IsTidy r.1
    spent : slots t.allocator free ≤ slots r.1.allocator left + 1

  module _ (t : NodeTable) (free : List Ptr) (v : IsLaid t free) (s : IsSound n t) (i : ℕ)
      (bound : i < n) (room : 0 < slots t.allocator free) (value : Bool) where
    abbrev bit : Bool → Ptr
    bit b = if b then t.true_node else t.false_node

    literal_tree : Tree
    literal_tree = branch i (leaf (not value)) (leaf value)

    terminal_after : (u : NodeTable) (b : Bool) → Extends t u → Represents u (leaf b) (bit b)
    terminal_after u true x = sym x.true_same
    terminal_after u false x = sym x.false_same

    leaf-ne : (b : Bool) → leaf (not b) ≢ leaf b
    leaf-ne true e = cc
    leaf-ne false e = cc

    literal-HasLiteral :
        Returns (get_or_create_node i (bit (not value)) (bit value) t) (HasLiteral t free i value)
    unfolding literal_tree
    literal-HasLiteral =
        let (r, run, c) =
          get_or_create_node-Created t free i (bit (not value)) (bit value) v room in
        let robdd : IsRobdd n literal_tree = (bound, tt, tt, leaf-ne value, tt, tt) in
        let x : Represents r.1 literal_tree r.0 = (
          c.stored,
          c.level_eq,
          subst (Represents r.1 (leaf (not value))) (sym c.low_eq)
              (terminal_after r.1 (not value) c.extends),
          subst (Represents r.1 (leaf value)) (sym c.high_eq) (terminal_after r.1 value c.extends),
        ) in
        (
          r,
          run,
          record {
            left = c.left;
            laid = c.laid;
            sound =
                Created-IsSound n t free i (bit (not value)) (bit value) r literal_tree s c robdd x;
            extends = c.extends;
            means = record {
              tree = literal_tree;
              robdd = robdd;
              represents = x;
              evaluates = λ e. refl;
            };
            vars = c.vars;
            nvars = c.nvars;
            stored = c.stored;
            level_eq = c.level_eq;
            capped = λ limit. Created-IsCapped limit t free i (bit (not value)) (bit value) r c;
            tidy = λ d. Created-IsTidy n t s d free i (bit (not value)) (bit value) r c;
            spent = c.spent;
          },
        )

  -- The first `k` variables are there, with their negations.
  pub record HasVars (t : NodeTable) (k : ℕ) : Type 0 where
    pub vars_length : length t.vars ≡ k
    pub nvars_length : length t.nvars ≡ k
    pub vars_mean : (i : ℕ) → i < k → Means n t (get_or t.vars i null) (λ e. e i)
    pub nvars_mean : (i : ℕ) → i < k → Means n t (get_or t.nvars i null) (λ e. not (e i))

  Means_same :
      (t : NodeTable) (p : Ptr) (f g : Assignment → Bool)
      → ((e : Assignment) → f e ≡ g e)
      → Means n t p f
      → Means n t p g
  Means_same t p f g same m = record {
    tree = m.tree;
    robdd = m.robdd;
    represents = m.represents;
    evaluates = λ e. m.evaluates e ∙ same e;
  }

  -- The result of creating the variable `k`.
  pub record Declared (t : NodeTable) (free : List Ptr) (k : ℕ) (r : Ptr × NodeTable) : Type 0 where
    pub left : List Ptr
    pub laid : IsLaid r.1 left
    pub sound : IsSound n r.1
    pub has_vars : HasVars r.1 (suc k)
    pub tidy : IsTidy t → IsTidy r.1
    pub returned : r.0 ≡ get_or r.1.vars k null
    pub spent : slots t.allocator free ≤ slots r.1.allocator left + 2
    pub counts : (limit : ℕ) → limit + 2 < 2 ^ 32 → Counts limit t → Counts (limit + 2) r.1

  -- A table in which a node is pinned and listed.
  record IsPinned (t : NodeTable) (free : List Ptr) (u : NodeTable) : Type 0 where
    laid : IsLaid u free
    sound : IsSound n u
    moves : (q : Ptr) (f : Assignment → Bool) → Means n t q f → Means n u q f
    tidy : IsTidy t → IsTidy u

  pin :
      (t : NodeTable) (free : List Ptr) (p : Ptr) (vs ns : List Ptr)
      → IsLaid t free
      → IsSound n t
      → (t.heap p).level < n
      → IsPinned t free (record t { heap = ref t.heap p; vars = vs; nvars = ns })
  pin t free p vs ns v s inner =
      let sh = ref-SameShape t.heap p in
      let u = reheap t (ref t.heap p) sh in
      record {
        laid =
            relist-IsLaid u vs ns free
              (IsLaid-reheap t (ref t.heap p) sh free v (ref-next_free t.heap p));
        sound = relist-IsSound u vs ns n (IsSound-reheap t (ref t.heap p) sh n s);
        moves = λ q f m.
            Means-Extends n u (relist u vs ns) q f (relist-Extends u vs ns)
              (Means-reheap t (ref t.heap p) sh n q f m);
        tidy = λ d.
            ref-IsTidy t d p vs ns
              (λ b e. absurd (omega (arith, terminal_level n t s b, ap (λ q. (t.heap q).level) e)));
      }

  module _ (t : NodeTable) (free : List Ptr) (k : ℕ) (v : IsLaid t free) (s : IsSound n t)
      (vars : HasVars t k) (bound : k < n) (room : 2 ≤ slots t.allocator free) where
    emplace :
        (xs ys : List Ptr) (p : Ptr)
        → xs ≡ ys
        → length ys ≡ k
        → insert_at xs k p ≡ ok (ys ++ p ∷ [])
    emplace xs ys p e l = rw (e, ← l) (insert_at-end ys p)

    module _ (a : Ptr × NodeTable) (da : HasLiteral t free k true a) where
      abbrev vs : List Ptr
      vs = t.vars ++ a.0 ∷ []

      -- the table after the first `emplace`
      abbrev t2 : NodeTable
      t2 = record a.1 { heap = ref a.1.heap a.0; vars = vs }

      p2 : IsPinned a.1 da.left t2
      p2 = pin a.1 da.left a.0 vs a.1.nvars da.laid da.sound (omega (arith, da.level_eq))

      module _ (b : Ptr × NodeTable) (db : HasLiteral t2 da.left k false b) where
        abbrev ns : List Ptr
        ns = t.nvars ++ b.0 ∷ []

        -- the table after the second one
        abbrev t4 : NodeTable
        t4 = record b.1 { heap = ref b.1.heap b.0; nvars = ns }

        p4 : IsPinned b.1 db.left t4
        p4 = pin b.1 db.left b.0 b.1.vars ns db.laid db.sound (omega (arith, db.level_eq))

        from_t2 : (q : Ptr) (f : Assignment → Bool) → Means n t2 q f → Means n t4 q f
        from_t2 q f m = p4.moves q f (Means-Extends n t2 b.1 q f db.extends m)

        from_t : (q : Ptr) (f : Assignment → Bool) → Means n t q f → Means n t4 q f
        from_t q f m = from_t2 q f (p2.moves q f (Means-Extends n t a.1 q f da.extends m))

        vars_new : (i : ℕ) → i < suc (length t.vars) → Means n t4 (get_or vs i null) (λ e. e i)
        vars_new =
            extend_list (λ i q. Means n t4 q (λ e. e i)) t.vars a.0
              (λ i lt. from_t _ _ (vars.vars_mean i (omega (arith, vars.vars_length))))
              (subst (λ j. Means n t4 a.0 (λ e. e j)) (sym vars.vars_length)
                (Means_same t4 a.0 _ _ (λ e. ground arith)
                  (from_t2 a.0 (literal k true) (p2.moves a.0 (literal k true) da.means))))

        nvars_new :
            (i : ℕ) → i < suc (length t.nvars) → Means n t4 (get_or ns i null) (λ e. not (e i))
        nvars_new =
            extend_list (λ i q. Means n t4 q (λ e. not (e i))) t.nvars b.0
              (λ i lt. from_t _ _ (vars.nvars_mean i (omega (arith, vars.nvars_length))))
              (subst (λ j. Means n t4 b.0 (λ e. not (e j))) (sym vars.nvars_length)
                (Means_same t4 b.0 _ _ (λ e. ground arith)
                  (p4.moves b.0 (literal k false) db.means)))

        t4-HasVars : HasVars t4 (suc k)
        t4-HasVars = record {
          vars_length =
              ap length db.vars
              ∙ omega (arith, length-append {0} t.vars (a.0 ∷ []), vars.vars_length);
          nvars_length = omega (arith, length-append {0} t.nvars (b.0 ∷ []), vars.nvars_length);
          vars_mean = λ i lt.
              subst (λ l. Means n t4 (get_or l i null) (λ e. e i)) (sym db.vars)
                (vars_new i (omega (arith, vars.vars_length)));
          nvars_mean = λ i lt. nvars_new i (omega (arith, vars.nvars_length));
        }

        module _ (limit : ℕ) (small : limit + 2 < 2 ^ 32) (counts : Counts limit t) where
          a_cap : IsCapped limit a.1
          a_cap = da.capped limit counts.capped

          t2_cap : IsCapped (limit + 1) t2
          t2_cap = pinned-IsCapped limit (omega arith) a.1 a_cap a.0 vs a.1.nvars

          b_cap : IsCapped (limit + 1) b.1
          b_cap = db.capped (limit + 1) t2_cap

          from_b : (q : Ptr) → IsHeld b.1 q → IsHeld t4 q
          from_b = pinned-kept (limit + 1) (omega arith) b.1 b_cap b.0 b.1.vars ns

          from_t2-IsHeld : (q : Ptr) → IsHeld t2 q → IsHeld t4 q
          from_t2-IsHeld q k = from_b q (IsHeld-Extends t2 b.1 q db.extends k)

          from_t-IsHeld : (q : Ptr) → IsHeld t q → IsHeld t4 q
          from_t-IsHeld q k = from_t2-IsHeld q (
              pinned-kept limit (omega arith) a.1 a_cap a.0 vs a.1.nvars q
                (IsHeld-Extends t a.1 q da.extends k))

          vars-IsHeld : (i : ℕ) → i < suc (length t.vars) → IsHeld t4 (get_or vs i null)
          vars-IsHeld =
              extend_list (λ i q. IsHeld t4 q) t.vars a.0
                (λ i lt. from_t-IsHeld _ (counts.vars_held i lt))
                (from_t2-IsHeld a.0
                  (pinned-IsHeld limit (omega arith) a.1 a_cap a.0 vs a.1.nvars da.stored))

          nvars-IsHeld : (i : ℕ) → i < suc (length t.nvars) → IsHeld t4 (get_or ns i null)
          nvars-IsHeld =
              extend_list (λ i q. IsHeld t4 q) t.nvars b.0
                (λ i lt. from_t-IsHeld _ (counts.nvars_held i lt))
                (pinned-IsHeld (limit + 1) (omega arith) b.1 b_cap b.0 b.1.vars ns db.stored)

          t4-Counts : Counts (limit + 2) t4
          t4-Counts =
              let new = t4-HasVars in
              record {
                capped = λ q st. omega (
                  arith,
                  pinned-IsCapped (limit + 1) (omega arith) b.1 b_cap b.0 b.1.vars ns q st,
                );
                vars_held = λ i lt.
                    subst (λ l. IsHeld t4 (get_or l i null)) (sym db.vars)
                      (vars-IsHeld i (omega (arith, new.vars_length, vars.vars_length)));
                nvars_held =
                    λ i lt. nvars-IsHeld i (omega (arith, new.nvars_length, vars.nvars_length));
              }

        t4-Declared : Declared t free k (get_or t4.vars k null, t4)
        t4-Declared = record {
          left = db.left;
          laid = p4.laid;
          sound = p4.sound;
          has_vars = t4-HasVars;
          tidy = λ d. p4.tidy (db.tidy (p2.tidy (da.tidy d)));
          returned = refl;
          spent = omega (arith, da.spent, db.spent);
          counts = t4-Counts;
        }

    -- While two slots are left, `createVar` succeeds.
    pub create_var-Declared : Returns (create_var k t) (Declared t free k)
    unfolding create_var
    create_var-Declared =
        let (a, run_a, da) = literal-HasLiteral t free v s k bound (omega arith) true in
        let q2 = p2 a da in
        let (b, run_b, db) =
          literal-HasLiteral (t2 a da) da.left q2.laid q2.sound k bound (omega (arith, da.spent))
            false in
        let new = t4-HasVars a da b db in
        (
          (get_or (t4 a da b db).vars k null, t4 a da b db),
          rw (
            run_a,
            emplace a.1.vars t.vars a.0 da.vars vars.vars_length,
            run_b,
            emplace b.1.nvars t.nvars b.0 (db.nvars ∙ da.nvars) vars.nvars_length,
            at-get_or (t4 a da b db).vars k null (omega (arith, new.vars_length)),
          ),
          t4-Declared a da b db,
        )
