-- ===== src/Table/Combine.antt =====
-- `combine`: the node for a pair of cofactors.
use nanobdd.Base.{
  ℕ, ◌+◌, ◌-◌, ◌≤◌, ◌<◌, ◌≡◌, ◌≢◌, ◌⊎◌, inl, inr, Bool, true, false, ◌==◌, List, get_or, length,
  arith, refl, sym, ap, ◌∙◌, subst, Returns, eq_cases,
}
use nanobdd.Tree.{Tree, branch, Assignment, eval, IsRobdd}
use nanobdd.Tree.Support.{shannon}
use nanobdd.Node.{Ptr, null}
use nanobdd.Cache.{Operator, Entry, empty_entry}
use nanobdd.Allocator.FreeList.{slots}
use nanobdd.Platform.{Platform}
use nanobdd.Table.State.{NodeTable, uint_max}
use nanobdd.Table.Create.{combine}
use nanobdd.Table.Layout.{Stored, IsLaid, Extends, Extends-refl}
use nanobdd.Table.Creation.{Created, get_or_create_node-Created}
use nanobdd.Table.Meaning.{
  Represents, Means, IsRight, IsResult, IsSound, Represents-Extends, Means-Extends,
  Represents-injective, Represents-functional,
}
use nanobdd.Table.Cofactor.{Cofactor}

module _ ⦃env : Platform⦄ (n : ℕ) where
  IsRight-Extends :
      (t u : NodeTable) (op : Operator) (p : Ptr) (f : Assignment → Bool)
      → Extends t u
      → IsRight n t op p f
      → IsRight n u op p f
  IsRight-Extends t u Operator.neg p f x r = r
  IsRight-Extends t u Operator.and p f x r = Means-Extends n t u p f x r
  IsRight-Extends t u Operator.or p f x r = Means-Extends n t u p f x r
  IsRight-Extends t u Operator.xor p f x r = Means-Extends n t u p f x r
  IsRight-Extends t u Operator.diff p f x r = Means-Extends n t u p f x r
  IsRight-Extends t u Operator.imp p f x r = Means-Extends n t u p f x r

  pub IsResult-Extends :
      (t u : NodeTable) (e : Entry) → Extends t u → IsResult n t e → IsResult n u e
  IsResult-Extends t u e x r = record {
    op = r.op;
    op_eq = r.op_eq;
    left_value = r.left_value;
    right_value = r.right_value;
    left = Means-Extends n t u e.left r.left_value x r.left;
    right = IsRight-Extends t u r.op e.right r.right_value x r.right;
    node = Means-Extends n t u e.node _ x r.node;
  }

  -- The result `r` of an operation on the table `t`: the table is still laid out and sound, nothing
  -- is lost, the node stands for `f`, and no more than `cost` nodes were allocated; the new
  -- nodes have no reference.
  pub record Done (t : NodeTable) (free : List Ptr) (cost : ℕ) (f : Assignment → Bool)
      (r : Ptr × NodeTable) : Type 0 where
    pub left : List Ptr
    pub laid : IsLaid r.1 left
    pub sound : IsSound n r.1
    pub extends : Extends t r.1
    pub means : Means n r.1 r.0 f
    pub cache_size : length r.1.cache ≡ length t.cache
    pub spent : slots t.allocator free ≤ slots r.1.allocator left + cost
    pub fresh : (q : Ptr) → Stored r.1 q → Stored t q ⊎ ((r.1.heap q).ref_count ≡ 0)
    pub unmarked : ((q : Ptr) → (t.heap q).in_use ≡ false) → (q : Ptr) → (r.1.heap q).in_use ≡ false
    pub vars : r.1.vars ≡ t.vars
    pub nvars : r.1.nvars ≡ t.nvars

  pub Done-here :
      (t : NodeTable) (free : List Ptr) (cost : ℕ) (p : Ptr) (f : Assignment → Bool)
      → IsLaid t free
      → IsSound n t
      → Means n t p f
      → Done t free cost f (p, t)
  Done-here t free cost p f v s m = record {
    left = free;
    laid = v;
    sound = s;
    extends = Extends-refl t;
    means = m;
    cache_size = refl;
    spent = omega arith;
    fresh = λ q st. inl st;
    unmarked = λ clean. clean;
    vars = refl;
    nvars = refl;
  }

  -- A created node that is the root of a tree keeps the table sound.
  pub Created-IsSound :
      (t : NodeTable) (free : List Ptr) (level : ℕ) (low high : Ptr) (r : Ptr × NodeTable)
      (tree : Tree)
      → IsSound n t
      → Created t free level low high r
      → IsRobdd n tree
      → Represents r.1 tree r.0
      → IsSound n r.1
  Created-IsSound t free level low high r tree s c o x = record {
    few = s.few;
    cache_sized = subst (λ k. 0 < length k) (sym c.cache) s.cache_sized;
    false_stored = subst (Stored r.1) (sym c.extends.false_same) (c.extends.keeps _ s.false_stored);
    true_stored = subst (Stored r.1) (sym c.extends.true_same) (c.extends.keeps _ s.true_stored);
    false_level =
        subst (λ p. (r.1.heap p).level ≡ uint_max) (sym c.extends.false_same)
          (ap (λ k. k.level) (c.extends.same t.false_node s.false_stored) ∙ s.false_level);
    true_level =
        subst (λ p. (r.1.heap p).level ≡ uint_max - 1) (sym c.extends.true_same)
          (ap (λ k. k.level) (c.extends.same t.true_node s.true_stored) ∙ s.true_level);
    closed = λ p st. elim (c.only p st) [
      | inl old ↦
          let (tr, ro, re) = s.closed p old in (tr, ro, Represents-Extends t r.1 tr p c.extends re)
      | inr new ↦ (tree, o, subst (Represents r.1 tree) (sym new) x)
    ];
    cached = λ i.
        subst (λ k. (get_or k i empty_entry).node ≡ null ⊎ IsResult n r.1 (get_or k i empty_entry))
          (sym c.cache)
          (elim (s.cached i) [
            | inl e ↦ inl e
            | inr e ↦ inr (IsResult-Extends t r.1 (get_or t.cache i empty_entry) c.extends e)
          ]);
  }

  module _ (t : NodeTable) (free : List Ptr) (v : IsLaid t free) (s : IsSound n t) (m : ℕ)
      (bound : m < n) (f : Assignment → Bool) (p q : Ptr) (a : Cofactor n t m false f p)
      (b : Cofactor n t m true f q) where
    -- Equal cofactors: the function does not depend on the variable.
    combine_same : p ≡ q → Means n t p f
    combine_same e = record {
      tree = a.means.tree;
      robdd = a.means.robdd;
      represents = a.means.represents;
      evaluates = λ env.
          let agree =
            Represents-functional n t s q a.means.tree b.means.tree a.means.robdd b.means.robdd
              (subst (Represents t a.means.tree) e a.means.represents) b.means.represents in
          let low = a.means.evaluates env in
          let high = ap (λ k. eval k env) agree ∙ b.means.evaluates env in
          ground (arith, shannon f m env);
    }

    combine_tree : Tree
    combine_tree = branch m a.means.tree b.means.tree

    combine-IsRobdd : p ≢ q → IsRobdd n combine_tree
    unfolding combine_tree
    combine-IsRobdd ne = (
      bound,
      a.above,
      b.above,
      λ e. ne (
          Represents-injective t free a.means.tree p q v a.means.represents
            (subst (λ k. Represents t k q) (sym e) b.means.represents)),
      a.means.robdd,
      b.means.robdd,
    )

    combine-Represents :
        (r : Ptr × NodeTable) → Created t free m p q r → Represents r.1 combine_tree r.0
    unfolding combine_tree
    combine-Represents r c = (
      c.stored,
      c.level_eq,
      subst (Represents r.1 a.means.tree) (sym c.low_eq)
          (Represents-Extends t r.1 a.means.tree p c.extends a.means.represents),
      subst (Represents r.1 b.means.tree) (sym c.high_eq)
          (Represents-Extends t r.1 b.means.tree q c.extends b.means.represents),
    )

    Created-fresh :
        (r : Ptr × NodeTable)
        → Created t free m p q r
        → (k : Ptr) → Stored r.1 k
        → Stored t k ⊎ ((r.1.heap k).ref_count ≡ 0)
    Created-fresh r c k st = elim (c.only k st) [
      | inl old ↦ inl old
      | inr new ↦ elim c.unprotected [
        | inl old ↦ inl (subst (Stored t) (sym new) old)
        | inr zero_count ↦ inr (ap (λ j. (r.1.heap j).ref_count) new ∙ zero_count)
      ]
    ]

    Created-Done : (r : Ptr × NodeTable) → p ≢ q → Created t free m p q r → Done t free 1 f r
    unfolding combine_tree
    Created-Done r ne c =
        let o = combine-IsRobdd ne in
        let x = combine-Represents r c in
        record {
          left = c.left;
          laid = c.laid;
          sound = Created-IsSound t free m p q r combine_tree s c o x;
          extends = c.extends;
          means = record {
            tree = combine_tree;
            robdd = o;
            represents = x;
            evaluates = λ env.
                ground (arith, shannon f m env, a.means.evaluates env, b.means.evaluates env);
          };
          cache_size = ap length c.cache;
          spent = c.spent;
          fresh = Created-fresh r c;
          unmarked = c.unmarked;
          vars = c.vars;
          nvars = c.nvars;
        }

    -- `combine` returns the node for the function with these two cofactors.
    pub combine-Done : 0 < slots t.allocator free → Returns (combine m p q t) (Done t free 1 f)
    unfolding combine
    combine-Done room = elim (eq_cases p q) [
      | inl e ↦
          let same : (p == q) ≡ true = ground arith in
          rw same ((p, t), refl, Done-here t free 1 p f v s (combine_same e))
      | inr ne ↦
          let differ : (p == q) ≡ false = ground (arith, ne) in
          let (r, run, c) = get_or_create_node-Created t free m p q v room in
          rw differ (r, run, Created-Done r ne c)
    ]
