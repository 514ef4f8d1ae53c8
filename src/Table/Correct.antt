-- ===== src/Table/Correct.antt =====
-- The six operations compute their Boolean functions, while the allocator has slots.
use nanobdd.Base.{
  ℕ, zero, suc, ◌≤◌, ◌<◌, ◌≡◌, ◌⊎◌, inl, inr, Bool, not, ◌&&◌, ◌||◌, List, Option, some, none,
  arith, refl, Returns,
}
use nanobdd.Tree.{Assignment}
use nanobdd.Node.{Ptr}
use nanobdd.Cache.{Operator}
use nanobdd.Allocator.FreeList.{slots}
use nanobdd.Platform.{Platform}
use nanobdd.Table.State.{NodeTable}
use nanobdd.Table.Operations.{
  Op, expand, returning, and_shortcut, or_shortcut, xor_shortcut, diff_shortcut, imp_shortcut,
  bdd_and, bdd_or, bdd_xor, bdd_diff, bdd_imp,
}
use nanobdd.Table.Layout.{IsLaid}
use nanobdd.Table.Meaning.{Means, meaning, IsRight, IsSound}
use nanobdd.Table.Cofactor.{Within}
use nanobdd.Table.Combine.{Done, Done-here}
use nanobdd.Table.Expand.{cost, Computes, root_Within, expand-Done}
use nanobdd.Table.Shortcut.{
  IsShortcut, and-IsShortcut, or-IsShortcut, xor-IsShortcut, diff-IsShortcut, imp-IsShortcut,
}

module _ ⦃env : Platform⦄ (n : ℕ) where
  -- An early return that is right whenever it is taken.
  abbrev Shortcuts : (Bool → Bool → Bool) → (NodeTable → Ptr → Ptr → Option Ptr) → Type 0
  Shortcuts g shortcut =
      (t : NodeTable) (s : IsSound n t) (x y : Ptr) (f h : Assignment → Bool)
      → Means n t x f
      → Means n t y h
      → IsShortcut n t s g x y f h (shortcut t x y)

  module _ (op : Operator)
      (binary : (p : Ptr) (f : Assignment → Bool) (t : NodeTable)
        → Means n t p f
        → IsRight n t op p f)
      (key : Ptr → Ptr → ℕ) (shortcut : NodeTable → Ptr → Ptr → Option Ptr)
      (right : Shortcuts (meaning op) shortcut) where
    -- No levels are left: the early returns decide.
    bottom :
        (rec : Ptr → Ptr → Op)
        → Computes n 0 (meaning op) (λ x y t. returning (shortcut t x y) (expand op key rec x y) t)
    bottom rec t free x y f h v s a b wa wb room = elim (right t s x y f h a b) [
      | inl (p, e, m) ↦ rw e ((p, t), refl, Done-here n t free 0 p _ v s m)
      | inr (e, lt) ↦ absurd (
          ground (
            arith,
            root_Within n t 0 a.tree x s a.represents wa,
            root_Within n t 0 b.tree y s b.represents wb,
          ))
    ]

    -- One more level.
    level :
        (k : ℕ) (rec : Ptr → Ptr → Op)
        → Computes n k (meaning op) rec
        → Computes n
            (suc k)
            (meaning op)
            (λ x y t. returning (shortcut t x y) (expand op key rec x y) t)
    level k rec correct t free x y f h v s a b wa wb room = elim (right t s x y f h a b) [
      | inl (p, e, m) ↦ rw e ((p, t), refl, Done-here n t free (cost (suc k)) p _ v s m)
      | inr (e, lt) ↦
          rw e (expand-Done n op binary k rec correct t free x y f h v s a b key lt wa wb room)
    ]

  pub bdd_and-Computes :
      (fuel k : ℕ) → k < fuel → Computes n k (meaning Operator.and) (bdd_and fuel)
  unfolding bdd_and
  bdd_and-Computes zero k lt = absurd (omega arith)
  bdd_and-Computes (suc fuel) zero lt =
      bottom Operator.and (λ p f t m. m) _ and_shortcut
        (λ t s x y f h a b. and-IsShortcut n t s x y f h a b) (bdd_and fuel)
  bdd_and-Computes (suc fuel) (suc k) lt =
      level Operator.and (λ p f t m. m) _ and_shortcut
        (λ t s x y f h a b. and-IsShortcut n t s x y f h a b) k (bdd_and fuel)
        (bdd_and-Computes fuel k (omega arith))

  pub bdd_or-Computes : (fuel k : ℕ) → k < fuel → Computes n k (meaning Operator.or) (bdd_or fuel)
  unfolding bdd_or
  bdd_or-Computes zero k lt = absurd (omega arith)
  bdd_or-Computes (suc fuel) zero lt =
      bottom Operator.or (λ p f t m. m) _ or_shortcut
        (λ t s x y f h a b. or-IsShortcut n t s x y f h a b) (bdd_or fuel)
  bdd_or-Computes (suc fuel) (suc k) lt =
      level Operator.or (λ p f t m. m) _ or_shortcut
        (λ t s x y f h a b. or-IsShortcut n t s x y f h a b) k (bdd_or fuel)
        (bdd_or-Computes fuel k (omega arith))

  pub bdd_xor-Computes :
      (fuel k : ℕ) → k < fuel → Computes n k (meaning Operator.xor) (bdd_xor fuel)
  unfolding bdd_xor
  bdd_xor-Computes zero k lt = absurd (omega arith)
  bdd_xor-Computes (suc fuel) zero lt =
      bottom Operator.xor (λ p f t m. m) _ xor_shortcut
        (λ t s x y f h a b. xor-IsShortcut n t s x y f h a b) (bdd_xor fuel)
  bdd_xor-Computes (suc fuel) (suc k) lt =
      level Operator.xor (λ p f t m. m) _ xor_shortcut
        (λ t s x y f h a b. xor-IsShortcut n t s x y f h a b) k (bdd_xor fuel)
        (bdd_xor-Computes fuel k (omega arith))

  pub bdd_diff-Computes :
      (fuel k : ℕ) → k < fuel → Computes n k (meaning Operator.diff) (bdd_diff fuel)
  unfolding bdd_diff
  bdd_diff-Computes zero k lt = absurd (omega arith)
  bdd_diff-Computes (suc fuel) zero lt =
      bottom Operator.diff (λ p f t m. m) _ diff_shortcut
        (λ t s x y f h a b. diff-IsShortcut n t s x y f h a b) (bdd_diff fuel)
  bdd_diff-Computes (suc fuel) (suc k) lt =
      level Operator.diff (λ p f t m. m) _ diff_shortcut
        (λ t s x y f h a b. diff-IsShortcut n t s x y f h a b) k (bdd_diff fuel)
        (bdd_diff-Computes fuel k (omega arith))

  -- `bddImp` after its early returns: the function of `bddDiff`.
  pub bdd_imp-Computes :
      (fuel k : ℕ) (t : NodeTable) (free : List Ptr) (x y : Ptr) (f h : Assignment → Bool)
      → suc k ≤ fuel
      → IsLaid t free
      → IsSound n t
      → (a : Means n t x f) (b : Means n t y h) → Within n (suc k) a.tree
      → Within n (suc k) b.tree
      → cost (suc k) ≤ slots t.allocator free
      → ((p : Ptr) × (imp_shortcut t x y ≡ some p)
          × Returns (bdd_imp fuel x y t) (Done n t free 0 (λ e. not (f e) || h e)))
        ⊎ ((imp_shortcut t x y ≡ none)
            × Returns (bdd_imp fuel x y t) (Done n t free (cost (suc k)) (λ e. f e && not (h e))))
  unfolding bdd_imp
  bdd_imp-Computes fuel k t free x y f h lt v s a b wa wb room =
      elim (imp-IsShortcut n t s x y f h a b) [
        | inl (p, e, m) ↦ inl (p, e, rw e ((p, t), refl, Done-here n t free 0 p _ v s m))
        | inr (e, inner) ↦ inr (
          e,
          rw e (
              expand-Done n Operator.imp (λ p f t m. m) k (bdd_diff fuel)
                (bdd_diff-Computes fuel k lt) t free x y f h v s a b _ inner wa wb room),
        )
      ]
