-- ===== src/Table/Cofactor.antt =====
-- `negCof` and `posCof`: the cofactors of a node.
use nanobdd.Base.{
  ℕ, suc, ◌+◌, ◌≤◌, ◌<◌, ◌≡◌, inl, inr, Bool, true, false, ltb, List, arith, refl, sym, ap, ◌∙◌,
  subst, ok, Returns, eq_cases,
}
use nanobdd.Tree.{Tree, leaf, branch, Assignment, eval, Above, IsRobdd}
use nanobdd.Tree.Canonical.{assign, eval-assign, eval-branch_low, eval-branch_high}
use nanobdd.Node.{Ptr, load}
use nanobdd.Platform.{Platform}
use nanobdd.Table.State.{NodeTable}
use nanobdd.Table.Operations.{neg_cof, pos_cof}
use nanobdd.Table.Layout.{Stored, IsLaid, Stored-ne_null}
use nanobdd.Table.Meaning.{Represents, Means, IsSound, terminal-Stored, terminal_level}

-- The root's level is `m` or more.
abbrev pub From : ℕ → Tree → Type 0
From m (leaf b) = Unit
From m (branch v l h) = m ≤ v

-- `k` levels, at most, are left from the root on.
abbrev pub Within : ℕ → ℕ → Tree → Type 0
Within n k (leaf b) = Unit
Within n k (branch v l h) = n ≤ v + k

pub Within-child : (n k m : ℕ) (tree : Tree) → Above m tree → n ≤ m + suc k → Within n k tree
Within-child n k m (leaf b) a h = tt
Within-child n k m (branch v l r) a h = omega arith

module _ ⦃env : Platform⦄ where
  -- A cofactor: a node for the function with the variable `m` fixed, which does not test it.
  pub record Cofactor (n : ℕ) (t : NodeTable) (m : ℕ) (value : Bool) (f : Assignment → Bool)
      (p : Ptr) : Type 0 where
    pub means : Means n t p (λ a. f (assign a m value))
    pub above : Above m means.tree

  pub Represents-Stored :
      (n : ℕ) (t : NodeTable) (tree : Tree) (p : Ptr)
      → IsSound n t
      → Represents t tree p
      → Stored t p
  Represents-Stored n t (leaf b) p s r = subst (Stored t) (sym r) (terminal-Stored n t s b)
  Represents-Stored n t (branch v l h) p s r = r.0

  module _ (n : ℕ) (t : NodeTable) (free : List Ptr) (v : IsLaid t free) (s : IsSound n t) where
    pub load-Represents :
        (tree : Tree) (p : Ptr) → Represents t tree p → load t.heap p ≡ ok (t.heap p)
    load-Represents tree p r =
        let ne = Stored-ne_null t free p v (Represents-Stored n t tree p s r) in ground arith

    module _ (m : ℕ) (bound : m < n) (p : Ptr) (f : Assignment → Bool) where
      unchanged :
          (value : Bool) (tree : Tree)
          → IsRobdd n tree
          → Represents t tree p
          → ((a : Assignment) → eval tree a ≡ f a)
          → Above m tree
          → Cofactor n t m value f p
      unchanged value tree r x e a = record {
        means = record {
          tree = tree;
          robdd = r;
          represents = x;
          evaluates = λ env. sym (eval-assign n m value env tree r a) ∙ e (assign env m value);
        };
        above = a;
      }

      branch_low :
          (w : ℕ) (l h : Tree)
          → IsRobdd n (branch w l h)
          → Represents t (branch w l h) p
          → ((a : Assignment) → eval (branch w l h) a ≡ f a)
          → m ≡ w
          → Cofactor n t m false f (t.heap p).low
      branch_low w l h r x e q = record {
        means = record {
          tree = l;
          robdd = r.4;
          represents = x.2;
          evaluates = λ env.
              sym (eval-branch_low n w env l h r)
              ∙ e (assign env w false)
              ∙ ap (λ k. f (assign env k false)) (sym q);
        };
        above = subst (λ k. Above k l) (sym q) r.1;
      }

      branch_high :
          (w : ℕ) (l h : Tree)
          → IsRobdd n (branch w l h)
          → Represents t (branch w l h) p
          → ((a : Assignment) → eval (branch w l h) a ≡ f a)
          → m ≡ w
          → Cofactor n t m true f (t.heap p).high
      branch_high w l h r x e q = record {
        means = record {
          tree = h;
          robdd = r.5;
          represents = x.3;
          evaluates = λ env.
              sym (eval-branch_high n w env l h r)
              ∙ e (assign env w true)
              ∙ ap (λ k. f (assign env k true)) (sym q);
        };
        above = subst (λ k. Above k h) (sym q) r.2;
      }

      -- `negCof` on a node whose level is `m` or more.
      pub neg_cof-Cofactor :
          (tree : Tree)
          → IsRobdd n tree
          → Represents t tree p
          → ((a : Assignment) → eval tree a ≡ f a)
          → From m tree
          → Returns (neg_cof t p m) (Cofactor n t m false f)
      unfolding neg_cof
      neg_cof-Cofactor (leaf b) r x e a =
          let lev : ltb m (t.heap p).level ≡ true =
            let far = subst (λ k. n ≤ (t.heap k).level) (sym x) (terminal_level n t s b) in
            ground arith in
          rw (load-Represents (leaf b) p x, lev) (p, refl, unchanged false (leaf b) r x e tt)
      neg_cof-Cofactor (branch w l h) r x e a =
          rw (load-Represents (branch w l h) p x) (elim (eq_cases m w) [
            | inl q ↦
                let lev : ltb m (t.heap p).level ≡ false = ground (arith, x.1) in
                rw lev ((t.heap p).low, refl, branch_low w l h r x e q)
            | inr q ↦
                let lev : ltb m (t.heap p).level ≡ true = ground (arith, x.1) in
                rw lev (p, refl, unchanged false (branch w l h) r x e (omega arith))
          ])

      -- `posCof` likewise.
      pub pos_cof-Cofactor :
          (tree : Tree)
          → IsRobdd n tree
          → Represents t tree p
          → ((a : Assignment) → eval tree a ≡ f a)
          → From m tree
          → Returns (pos_cof t p m) (Cofactor n t m true f)
      unfolding pos_cof
      pos_cof-Cofactor (leaf b) r x e a =
          let lev : ltb m (t.heap p).level ≡ true =
            let far = subst (λ k. n ≤ (t.heap k).level) (sym x) (terminal_level n t s b) in
            ground arith in
          rw (load-Represents (leaf b) p x, lev) (p, refl, unchanged true (leaf b) r x e tt)
      pos_cof-Cofactor (branch w l h) r x e a =
          rw (load-Represents (branch w l h) p x) (elim (eq_cases m w) [
            | inl q ↦
                let lev : ltb m (t.heap p).level ≡ false = ground (arith, x.1) in
                rw lev ((t.heap p).high, refl, branch_high w l h r x e q)
            | inr q ↦
                let lev : ltb m (t.heap p).level ≡ true = ground (arith, x.1) in
                rw lev (p, refl, unchanged true (branch w l h) r x e (omega arith))
          ])
