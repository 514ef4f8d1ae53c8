-- ===== src/Table/Semantics.antt =====
-- The contract of the node table: each operation returns the node of its Boolean function, and nodes
-- are equal exactly when their functions are.
use nanobdd.Base.{
  ℕ, suc, ◌≤◌, ◌<◌, ◌≡◌, ◌≢◌, ◌↔◌, Bool, not, ◌&&◌, ◌||◌, List, arith, refl, subst, Returns, inl,
  inr, zero, ◌⊎◌, some, none, fun_ext,
}
use mathlib.Core.Bool.{xor}
use nanobdd.Tree.{Tree, leaf, branch, Assignment}
use nanobdd.Node.{Ptr}
use nanobdd.Allocator.FreeList.{slots}
use nanobdd.Platform.{Platform}
use nanobdd.Table.State.{NodeTable}
use nanobdd.Table.Operations.{bdd_and, bdd_or, bdd_xor, bdd_diff, bdd_not, bdd_imp, imp_shortcut}
use nanobdd.Table.Layout.{IsLaid}
use nanobdd.Table.Meaning.{Means, IsSound, Means-functional, Means-injective}
use nanobdd.Table.Cofactor.{Within}
use nanobdd.Table.Combine.{Done, Done-here}
use nanobdd.Table.Expand.{cost}
use nanobdd.Table.Correct.{
  bdd_and-Computes, bdd_or-Computes, bdd_xor-Computes, bdd_diff-Computes, bdd_imp-Computes,
}
use nanobdd.Table.Negate.{bdd_not-Negates}
use nanobdd.Table.Shortcut.{imp-IsShortcut}

module _ ⦃env : Platform⦄ (n : ℕ) where
  -- A table over `n` variables between two operations.
  pub record IsValid (t : NodeTable) (free : List Ptr) : Type 0 where
    pub laid : IsLaid t free
    pub sound : IsSound n t

  Within-all : (tree : Tree) → Within n n tree
  Within-all (leaf b) = tt
  Within-all (branch v l h) = omega arith

  -- In a valid table, two nodes that stand for the functions `f` and `g` are the same pointer exactly
  -- when `f` and `g` are the same Boolean function.
  pub pointer_eq_iff :
      (t : NodeTable) (free : List Ptr) (p q : Ptr) (f g : Assignment → Bool)
      → IsValid t free
      → Means n t p f
      → Means n t q g
      → (p ≡ q) ↔ ((e : Assignment) → f e ≡ g e)
  pointer_eq_iff t free p q f g v a b = (
    λ e. Means-functional n t v.sound q f g (subst (λ r. Means n t r f) e a) b,
    λ e. Means-injective n t v.sound free p q f g v.laid a b e,
  )

  module _ (t : NodeTable) (free : List Ptr) (fuel : ℕ) (x y : Ptr) (f h : Assignment → Bool)
      (v : IsValid t free) (a : Means n t x f) (b : Means n t y h) (deep : n < fuel)
      (room : cost n ≤ slots t.allocator free) where
    -- With fuel above the number of variables and slots for `cost n` nodes, `bddAnd` returns the node
    -- of the conjunction, in a valid table that extends the old one.
    pub bdd_and-Done : Returns (bdd_and fuel x y t) (Done n t free (cost n) (λ e. f e && h e))
    bdd_and-Done =
        bdd_and-Computes n fuel n deep t free x y f h v.laid v.sound a b (Within-all a.tree)
          (Within-all b.tree) room

    -- With fuel and slots as for `bddAnd`, `bddOr` returns the node of the disjunction, in a valid
    -- table that extends the old one.
    pub bdd_or-Done : Returns (bdd_or fuel x y t) (Done n t free (cost n) (λ e. f e || h e))
    bdd_or-Done =
        bdd_or-Computes n fuel n deep t free x y f h v.laid v.sound a b (Within-all a.tree)
          (Within-all b.tree) room

    -- With fuel and slots as for `bddAnd`, `bddXor` returns the node of the exclusive disjunction, in a
    -- valid table that extends the old one.
    pub bdd_xor-Done : Returns (bdd_xor fuel x y t) (Done n t free (cost n) (λ e. xor (f e) (h e)))
    bdd_xor-Done =
        bdd_xor-Computes n fuel n deep t free x y f h v.laid v.sound a b (Within-all a.tree)
          (Within-all b.tree) room

    -- With fuel and slots as for `bddAnd`, `bddDiff` returns the node of the first operand and not the
    -- second, in a valid table that extends the old one.
    pub bdd_diff-Done :
        Returns (bdd_diff fuel x y t) (Done n t free (cost n) (λ e. f e && not (h e)))
    bdd_diff-Done =
        bdd_diff-Computes n fuel n deep t free x y f h v.laid v.sound a b (Within-all a.tree)
          (Within-all b.tree) room

  module _ (t : NodeTable) (free : List Ptr) (fuel : ℕ) (x : Ptr) (f : Assignment → Bool)
      (v : IsValid t free) (a : Means n t x f) (deep : n < fuel)
      (room : cost n ≤ slots t.allocator free) where
    -- With fuel above the number of variables and slots for `cost n` nodes, `bddNot` returns the node
    -- of the negation, in a valid table that extends the old one.
    pub bdd_not-Done : Returns (bdd_not fuel x t) (Done n t free (cost n) (λ e. not (f e)))
    bdd_not-Done =
        bdd_not-Negates n fuel n deep t free x f v.laid v.sound a (Within-all a.tree) room

module _ ⦃env : Platform⦄ where
  -- The two outcomes of `bddImp`, by its early returns.
  ImpCases : ℕ → NodeTable → List Ptr → ℕ → Ptr → Ptr → (f h : Assignment → Bool) → Type 0
  ImpCases n t free fuel x y f h =
      ((p : Ptr) × (imp_shortcut t x y ≡ some p)
        × Returns (bdd_imp fuel x y t) (Done n t free 0 (λ e. not (f e) || h e)))
      ⊎ ((imp_shortcut t x y ≡ none)
          × Returns (bdd_imp fuel x y t) (Done n t free (cost n) (λ e. f e && not (h e))))

  imp_cases :
      (n : ℕ) (t : NodeTable) (free : List Ptr) (fuel : ℕ) (x y : Ptr) (f h : Assignment → Bool)
      → IsValid n t free
      → Means n t x f
      → Means n t y h
      → n < fuel
      → cost n ≤ slots t.allocator free
      → ImpCases n t free fuel x y f h
  unfolding ImpCases bdd_imp
  imp_cases zero t free fuel x y f h v a b deep room =
      elim (imp-IsShortcut 0 t v.sound x y f h a b) [
        | inl (p, e, m) ↦ inl (p, e, rw e ((p, t), refl, Done-here 0 t free 0 p _ v.laid v.sound m))
        | inr (e, lt) ↦ absurd (omega arith)
      ]
  imp_cases (suc k) t free fuel x y f h v a b deep room =
      bdd_imp-Computes (suc k) fuel k t free x y f h (omega arith) v.laid v.sound a b
        (Within-all (suc k) a.tree) (Within-all (suc k) b.tree) room

  module _ (n : ℕ) (t : NodeTable) (free : List Ptr) (fuel : ℕ) (x y : Ptr)
      (f h : Assignment → Bool) (v : IsValid n t free) (a : Means n t x f) (b : Means n t y h)
      (deep : n < fuel) (room : cost n ≤ slots t.allocator free) where
    -- With fuel and slots as for `bddAnd`, if the first operand is a terminal, or the second is the
    -- terminal true, `bddImp` returns the node of the implication, and allocates none.
    bdd_imp-Done_terminal :
        (x ≡ t.false_node) ⊎ (x ≡ t.true_node) ⊎ (y ≡ t.true_node)
        → Returns (bdd_imp fuel x y t) (Done n t free 0 (λ e. not (f e) || h e))
    unfolding ImpCases imp_shortcut
    bdd_imp-Done_terminal early = elim (imp_cases n t free fuel x y f h v a b deep room) [
      | inl (p, e, r) ↦ r
      | inr (e, r) ↦ absurd (ground arith)
    ]

    -- In all other cases, with fuel and slots as for `bddAnd`, `bddImp` returns the node of the negated
    -- implication, the first operand and not the second.
    pub bdd_imp-Done_negated :
        x ≢ t.false_node
        → x ≢ t.true_node
        → y ≢ t.true_node
        → Returns (bdd_imp fuel x y t) (Done n t free (cost n) (λ e. not (not (f e) || h e)))
    unfolding ImpCases imp_shortcut
    bdd_imp-Done_negated xf xt yt = elim (imp_cases n t free fuel x y f h v a b deep room) [
      | inl (p, e, r) ↦ absurd (ground (arith, xf, xt, yt))
      | inr (e, r) ↦
          subst (λ k. Returns (bdd_imp fuel x y t) (Done n t free (cost n) k))
            (fun_ext λ e. ground arith) r
    ]
