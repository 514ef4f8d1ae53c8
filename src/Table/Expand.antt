-- ===== src/Table/Expand.antt =====
-- The part that the binary operations share: cofactors, recursive calls, `combine` and the cache.
use nanobdd.Base.{
  ℕ, zero, suc, ◌+◌, ◌%◌, ◌≤◌, ◌<◌, ◌≡◌, inl, inr, Bool, true, false, ◌==◌, List, length, min,
  arith, refl, sym, ap, ◌∙◌, subst, ok, ◌>>=◌, Returns,
}
use native.Mathlib.Nat.{mod-lt}
use nanobdd.Tree.{Tree, leaf, branch, Assignment, eval, Above, IsRobdd}
use nanobdd.Tree.Canonical.{assign}
use nanobdd.Tree.Support.{eval-Ignores, Above-of_Ignores}
use nanobdd.Node.{Ptr, null}
use nanobdd.Cache.{Operator, insert}
use nanobdd.Allocator.FreeList.{slots}
use nanobdd.Platform.{Platform}
use nanobdd.Table.State.{NodeTable}
use nanobdd.Table.Create.{combine}
use nanobdd.Table.Operations.{Op, recurse, expand}
use nanobdd.Table.Layout.{IsLaid, Extends, Extends-refl, Extends-trans}
use nanobdd.Table.Meaning.{
  Represents, Means, meaning, IsRight, IsSound, Means-Extends, terminal_level,
}
use nanobdd.Table.Cofactor.{
  From, Within, Within-child, Cofactor, load-Represents, neg_cof-Cofactor, pos_cof-Cofactor,
}
use nanobdd.Table.Combine.{Done, Done-here, combine-Done}
use nanobdd.Table.Caching.{lookup-Means, insert-IsSound}

-- How many nodes an operation can allocate that has `k` levels below it: `2 ^ k - 1`.
abbrev pub cost : ℕ → ℕ
cost zero = 0
cost (suc k) = cost k + cost k + 1

module _ ⦃env : Platform⦄ (n : ℕ) where
  -- An operation on two nodes computes `g`, if no more than `k` levels are below them.
  abbrev pub Computes : ℕ → (Bool → Bool → Bool) → (Ptr → Ptr → Op) → Type 0
  Computes k g op =
      (t : NodeTable) (free : List Ptr) (x y : Ptr) (f h : Assignment → Bool)
      → IsLaid t free
      → IsSound n t
      → (a : Means n t x f) (b : Means n t y h) → Within n k a.tree
      → Within n k b.tree
      → cost k ≤ slots t.allocator free
      → Returns (op x y t) (Done n t free (cost k) (λ e. g (f e) (h e)))

  pub root_From :
      (t : NodeTable) (m : ℕ) (tree : Tree) (p : Ptr)
      → Represents t tree p
      → m ≤ (t.heap p).level
      → From m tree
  root_From t m (leaf b) p r h = tt
  root_From t m (branch v l u) p r h = omega (arith, r.1)

  pub root_Within :
      (t : NodeTable) (k : ℕ) (tree : Tree) (p : Ptr)
      → IsSound n t
      → Represents t tree p
      → Within n k tree
      → (t.heap p).level < n
      → n ≤ (t.heap p).level + k
  root_Within t k (leaf b) p s r w h =
      absurd (omega (arith, subst (λ q. n ≤ (t.heap q).level) (sym r) (terminal_level n t s b)))
  root_Within t k (branch v l u) p s r w h = omega (arith, r.1)

  -- The result does not test the variable of the operands.
  result-Above :
      (m : ℕ) (g : Bool → Bool → Bool) (f h r : Assignment → Bool) (a b c : Tree)
      → IsRobdd n a
      → IsRobdd n b
      → IsRobdd n c
      → ((e : Assignment) → eval a e ≡ f e)
      → ((e : Assignment) → eval b e ≡ h e)
      → ((e : Assignment) → eval c e ≡ g (f e) (h e))
      → Above m a
      → Above m b
      → Above m c
  result-Above m g f h r a b c ra rb rc ea eb ec aa ab = Above-of_Ignores n m c rc (λ w le e v.
      ec (assign e w v)
      ∙ ap (λ z. g z (h (assign e w v)))
          (sym (ea (assign e w v)) ∙ eval-Ignores n m w a ra aa le e v ∙ ea e)
      ∙ ap (g (f e)) (sym (eb (assign e w v)) ∙ eval-Ignores n m w b rb ab le e v ∙ eb e)
      ∙ sym (ec e))

  pub Done-trans :
      (t : NodeTable) (free : List Ptr) (c d e : ℕ) (f g : Assignment → Bool)
      (r q : Ptr × NodeTable) (x : Done n t free c f r)
      → c + d ≤ e
      → Done n r.1 x.left d g q
      → Done n t free e g q
  Done-trans t free c d e f g r q x le y = record {
    left = y.left;
    laid = y.laid;
    sound = y.sound;
    extends = Extends-trans t r.1 q.1 x.extends y.extends;
    means = y.means;
    cache_size = y.cache_size ∙ x.cache_size;
    spent = omega (arith, x.spent, y.spent);
    fresh = λ k st. elim (y.fresh k st) [
      | inl old ↦ elim (x.fresh k old) [
        | inl older ↦ inl older
        | inr none ↦ inr (ap (λ j. j.ref_count) (y.extends.same k old) ∙ none)
      ]
      | inr none ↦ inr none
    ];
    unmarked = λ clean. y.unmarked (x.unmarked clean);
    vars = y.vars ∙ x.vars;
    nvars = y.nvars ∙ x.nvars;
  }

  -- The end of an operation: `combine`, and the entry in the cache.
  unfoldable pub finish : Operator → ℕ → ℕ → Ptr → Ptr → Ptr → Ptr → Op
  finish op hash m x y low high t = do
    (res, t3) ← combine m low high t
    cache ← insert t3.cache hash res x y op
    ok (res, record t3 { cache = cache })

  module _ (t : NodeTable) (free : List Ptr) (v : IsLaid t free) (s : IsSound n t) (op : Operator)
      (hash m : ℕ) (x y low high : Ptr) (f h : Assignment → Bool) where
    pub finish-Done :
        hash < length t.cache
        → m < n
        → 0 < slots t.allocator free
        → Means n t x f
        → ((u : NodeTable) → Extends t u → IsRight n u op y h)
        → Cofactor n t m false (λ e. meaning op (f e) (h e)) low
        → Cofactor n t m true (λ e. meaning op (f e) (h e)) high
        → Returns (finish op hash m x y low high t) (Done n t free 1 (λ e. meaning op (f e) (h e)))
    unfolding finish
    finish-Done lt bound room mx my c0 c1 =
        let ((p, u), run, d) =
          combine-Done n t free v s m bound (λ e. meaning op (f e) (h e)) low high c0 c1 room in
        let (cache, run', (size, laid, sound, ext)) =
          insert-IsSound n u d.left d.laid d.sound hash x y p op f h (omega (arith, d.cache_size))
            (Means-Extends n t u x f d.extends mx) (my u d.extends) d.means in
        (
          (p, record u { cache = cache }),
          rw (run, run'),
          record {
            left = d.left;
            laid = laid;
            sound = sound;
            extends = Extends-trans t u (record u { cache = cache }) d.extends ext;
            means = Means-Extends n u (record u { cache = cache }) p _ ext d.means;
            cache_size = size ∙ d.cache_size;
            spent = d.spent;
            fresh = d.fresh;
            unmarked = d.unmarked;
            vars = d.vars;
            nvars = d.nvars;
          },
        )

  -- A recursive result, moved on to a later table, is a cofactor of the result.
  pub result-Cofactor :
      (t u w : NodeTable) (m : ℕ) (value : Bool) (g : Bool → Bool → Bool) (f h : Assignment → Bool)
      (x y p : Ptr)
      → Cofactor n t m value f x
      → Cofactor n t m value h y
      → Extends u w
      → Means n u p (λ e. g (f (assign e m value)) (h (assign e m value)))
      → Cofactor n w m value (λ e. g (f e) (h e)) p
  result-Cofactor t u w m value g f h x y p cx cy ext r = record {
    means = Means-Extends n u w p _ ext r;
    above =
        result-Above m g _ _ (λ e. false) cx.means.tree cy.means.tree r.tree cx.means.robdd
          cy.means.robdd r.robdd cx.means.evaluates cy.means.evaluates r.evaluates cx.above
          cy.above;
  }

  module _ (op : Operator)
      (binary : (p : Ptr) (f : Assignment → Bool) (t : NodeTable)
        → Means n t p f
        → IsRight n t op p f)
      (k : ℕ) (rec : Ptr → Ptr → Op) (correct : Computes k (meaning op) rec) (t : NodeTable)
      (free : List Ptr) (x y : Ptr) (f h : Assignment → Bool) (v : IsLaid t free) (s : IsSound n t)
      (a : Means n t x f) (b : Means n t y h) where
    abbrev result : Assignment → Bool
    result e = meaning op (f e) (h e)

    module _ (hash m : ℕ) (lt : hash < length t.cache) (bound : m < n) (near : n ≤ m + suc k)
        (fx : From m a.tree) (fy : From m b.tree)
        (room : cost (suc k) ≤ slots t.allocator free) where
      recurse-Done : Returns (recurse op hash rec m x y t) (Done n t free (cost (suc k)) result)
      unfolding recurse finish
      recurse-Done =
          let (x0, run_x0, cx0) =
            neg_cof-Cofactor n t free v s m bound x f a.tree a.robdd a.represents a.evaluates fx in
          let (y0, run_y0, cy0) =
            neg_cof-Cofactor n t free v s m bound y h b.tree b.robdd b.represents b.evaluates fy in
          let (low, run_low, d1) =
            correct t free x0 y0 _ _ v s cx0.means cy0.means
              (Within-child n k m cx0.means.tree cx0.above near)
              (Within-child n k m cy0.means.tree cy0.above near) (omega arith) in
          let a1 = Means-Extends n t low.1 x f d1.extends a in
          let b1 = Means-Extends n t low.1 y h d1.extends b in
          let (x1, run_x1, cx1) =
            pos_cof-Cofactor n low.1 d1.left d1.laid d1.sound m bound x f a1.tree a1.robdd
              a1.represents a1.evaluates fx in
          let (y1, run_y1, cy1) =
            pos_cof-Cofactor n low.1 d1.left d1.laid d1.sound m bound y h b1.tree b1.robdd
              b1.represents b1.evaluates fy in
          let (high, run_high, d2) =
            correct low.1 d1.left x1 y1 _ _ d1.laid d1.sound cx1.means cy1.means
              (Within-child n k m cx1.means.tree cx1.above near)
              (Within-child n k m cy1.means.tree cy1.above near) (omega (arith, d1.spent)) in
          let to_end = Extends-trans t low.1 high.1 d1.extends d2.extends in
          let c0 =
            result-Cofactor t low.1 high.1 m false (meaning op) f h x0 y0 low.0 cx0 cy0 d2.extends
              d1.means in
          let c1 =
            result-Cofactor low.1 high.1 high.1 m true (meaning op) f h x1 y1 high.0 cx1 cy1
              (Extends-refl high.1) d2.means in
          let (r, run, d3) =
            finish-Done high.1 d2.left d2.laid d2.sound op hash m x y low.0 high.0 f h
              (omega (arith, d1.cache_size, d2.cache_size)) bound
              (omega (arith, d1.spent, d2.spent)) (Means-Extends n t high.1 x f to_end a)
              (λ u ext.
                binary y h u (Means-Extends n t u y h (Extends-trans t high.1 u to_end ext) b))
              c0 c1 in
          rw (run_x0, run_y0, run_low, run_x1, run_y1, run_high)
            (
              r,
              run,
              Done-trans t free (cost k) (cost k + 1) (cost (suc k)) _ _ low r d1 (omega arith)
                  (Done-trans low.1 d1.left (cost k) 1 (cost k + 1) _ _ high r d2 (omega arith) d3),
            )
      -- A hit in the cache, or the recursion.

    pub expand-Done :
        (key : Ptr → Ptr → ℕ)
        → min (t.heap x).level (t.heap y).level < n
        → Within n (suc k) a.tree
        → Within n (suc k) b.tree
        → cost (suc k) ≤ slots t.allocator free
        → Returns (expand op key rec x y t) (Done n t free (cost (suc k)) result)
    unfolding expand
    expand-Done key bound wx wy room =
        let hash = key x y % length t.cache in
        let m = min (t.heap x).level (t.heap y).level in
        let lt : hash < length t.cache = mod-lt (key x y) s.cache_sized in
        let near : n ≤ m + suc k = ground (
          arith,
          root_Within t (suc k) a.tree x s a.represents wx,
          root_Within t (suc k) b.tree y s b.represents wy,
        ) in
        let fx = root_From t m a.tree x a.represents (omega arith) in
        let fy = root_From t m b.tree y b.represents (omega arith) in
        let (c, run, found) = lookup-Means n t free v s hash x y op f h lt a (binary y h t b) in
        rw
          (
            load-Represents n t free v s a.tree x a.represents,
            load-Represents n t free v s b.tree y b.represents,
            run,
          )
          (elim found [
            | inl z ↦
                let e : (c == null) ≡ true = ground arith in
                rw e (recurse-Done hash m lt bound near fx fy room)
            | inr (ne, mc) ↦
                let e : (c == null) ≡ false = ground (arith, ne) in
                rw e ((c, t), refl, Done-here n t free (cost (suc k)) c result v s mc)
          ])
