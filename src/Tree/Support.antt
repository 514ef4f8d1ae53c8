-- ===== src/Tree/Support.antt =====
-- Which variables a tree depends on, cofactors of Boolean functions and Shannon's expansion.
use nanobdd.Base.{
  ℕ, ◌≤◌, ◌≡◌, inl, inr, Bool, true, false, arith, if◌then◌else◌, refl, trichotomy, ◌∙◌, sym, ap,
  fun_ext, eq_cases,
}
use nanobdd.Tree.{Tree, leaf, branch, Assignment, eval, Above, IsRobdd}
use nanobdd.Tree.Canonical.{assign, eval-assign, eval-branch_low, eval-branch_high, eval-injective}

-- The function does not depend on the variable.
abbrev pub Ignores : (Assignment → Bool) → ℕ → Type 0
Ignores f v = (env : Assignment) (b : Bool) → f (assign env v b) ≡ f env

pub eval-Ignores : (n v w : ℕ) (t : Tree) → IsRobdd n t → Above v t → w ≤ v → Ignores (eval t) w
eval-Ignores n v w t r a h env b = eval-assign n w b env t r (Above_of_le w v t h a)
  where
    Above_of_le : (w v : ℕ) (t : Tree) → w ≤ v → Above v t → Above w t
    Above_of_le w v (leaf b) h a = tt
    Above_of_le w v (branch u l r) h a = omega arith

-- A reduced tree tests only variables on which its function depends.
pub Above-of_Ignores :
    (n v : ℕ) (t : Tree) → IsRobdd n t → ((w : ℕ) → w ≤ v → Ignores (eval t) w) → Above v t
Above-of_Ignores n v (leaf b) r h = tt
Above-of_Ignores n v (branch w l u) r h = elim (trichotomy v w) [
  | inl lt ↦ lt
  | inr le ↦ absurd (
      r.3 (
        eval-injective n l u r.4 r.5 (λ env.
          sym (eval-branch_low n w env l u r)
          ∙ h w (ground arith) env false
          ∙ sym (h w (ground arith) env true)
          ∙ eval-branch_high n w env l u r)))
]

pub assign_self : (env : Assignment) (v : ℕ) → assign env v (env v) ≡ env
assign_self env v =
    fun_ext λ w. elim (eq_cases w v) [ inl e ↦ ground (arith, ap env e) | inr n ↦ ground arith ]

-- Shannon's expansion.
pub shannon :
    (f : Assignment → Bool) (v : ℕ) (env : Assignment)
    → f env ≡ (if env v then f (assign env v true) else f (assign env v false))
shannon f v env = ap f (sym (assign_self env v)) ∙ by_value (env v)
  where
    by_value :
        (b : Bool)
        → f (assign env v b) ≡ (if b then f (assign env v true) else f (assign env v false))
    by_value true = refl
    by_value false = refl
