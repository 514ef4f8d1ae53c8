-- ===== src/Tree/Canonical.antt =====
-- Two reduced ordered decision trees with the same meaning are the same tree.
use nanobdd.Base.{
  ℕ, ◌<◌, ◌≡◌, inl, inr, Bool, true, false, arith, ◌==◌, if◌then◌else◌, refl, trichotomy, ◌∙◌, sym,
  ap,
}
use nanobdd.Tree.{Tree, leaf, branch, Assignment, eval, Above, IsRobdd}

-- The assignment with one variable given anew.
abbrev pub assign : Assignment → ℕ → Bool → Assignment
assign env v b w = if w == v then b else env w

pub Above-trans : (v w : ℕ) (t : Tree) → v < w → Above w t → Above v t
Above-trans v w (leaf b) h a = tt
Above-trans v w (branch u l r) h a = omega arith

-- A tree does not read a variable above its root.
pub eval-assign :
    (n v : ℕ) (b : Bool) (env : Assignment) (t : Tree)
    → IsRobdd n t
    → Above v t
    → eval t (assign env v b) ≡ eval t env
eval-assign n v b env (leaf c) r a = refl
eval-assign n v b env (branch w l h) r a = ground (
  arith,
  eval-assign n v b env l r.4 (Above-trans v w l a r.1),
  eval-assign n v b env h r.5 (Above-trans v w h a r.2),
)

-- The two branches, read at any assignment.
pub eval-branch_low :
    (n v : ℕ) (env : Assignment) (l h : Tree)
    → IsRobdd n (branch v l h)
    → eval (branch v l h) (assign env v false) ≡ eval l env
eval-branch_low n v env l h r = ground (arith, eval-assign n v false env l r.4 r.1)

pub eval-branch_high :
    (n v : ℕ) (env : Assignment) (l h : Tree)
    → IsRobdd n (branch v l h)
    → eval (branch v l h) (assign env v true) ≡ eval h env
eval-branch_high n v env l h r = ground (arith, eval-assign n v true env h r.5 r.2)

-- A tree that does not depend on the variable at its root has two equal branches.
module _ (n v : ℕ) (l h u : Tree) (r : IsRobdd n (branch v l h)) (s : IsRobdd n u) (a : Above v u)
    (same : (env : Assignment) → eval (branch v l h) env ≡ eval u env) where
  low-same : (env : Assignment) → eval l env ≡ eval u env
  low-same env =
      sym (eval-branch_low n v env l h r)
      ∙ same (assign env v false)
      ∙ eval-assign n v false env u s a

  high-same : (env : Assignment) → eval h env ≡ eval u env
  high-same env =
      sym (eval-branch_high n v env l h r)
      ∙ same (assign env v true)
      ∙ eval-assign n v true env u s a

-- Two trees on the same variable agree branch by branch.
module _ (n v w : ℕ) (l h l' h' : Tree) (r : IsRobdd n (branch v l h))
    (s : IsRobdd n (branch w l' h')) (e : v ≡ w)
    (same : (env : Assignment) → eval (branch v l h) env ≡ eval (branch w l' h') env) where
  low-agree : (env : Assignment) → eval l env ≡ eval l' env
  low-agree env =
      sym (eval-branch_low n v env l h r)
      ∙ same (assign env v false)
      ∙ ap (λ k. eval (branch w l' h') (assign env k false)) e
      ∙ eval-branch_low n w env l' h' s

  high-agree : (env : Assignment) → eval h env ≡ eval h' env
  high-agree env =
      sym (eval-branch_high n v env l h r)
      ∙ same (assign env v true)
      ∙ ap (λ k. eval (branch w l' h') (assign env k true)) e
      ∙ eval-branch_high n w env l' h' s

-- Canonicity: the meaning determines the tree.
pub eval-injective :
    (n : ℕ) (t u : Tree)
    → IsRobdd n t
    → IsRobdd n u
    → ((env : Assignment) → eval t env ≡ eval u env)
    → t ≡ u
eval-injective n (leaf b) (leaf c) r s same = ap leaf (same (λ _. false))
eval-injective n (leaf b) (branch w l h) r s same = absurd (
    s.3 (
      sym (
        eval-injective n (leaf b) l tt s.4
          (λ env. sym (low-same n w l h (leaf b) s tt tt (λ e. sym (same e)) env)))
      ∙ eval-injective n (leaf b) h tt s.5
          (λ env. sym (high-same n w l h (leaf b) s tt tt (λ e. sym (same e)) env))))
eval-injective n (branch v l h) (leaf c) r s same = absurd (
    r.3 (
      eval-injective n l (leaf c) r.4 tt (low-same n v l h (leaf c) r tt tt same)
      ∙ sym (eval-injective n h (leaf c) r.5 tt (high-same n v l h (leaf c) r tt tt same))))
eval-injective n (branch v l h) (branch w l' h') r s same = elim (trichotomy v w) [
  | inl lt ↦ absurd (
      r.3 (
        eval-injective n l (branch w l' h') r.4 s (low-same n v l h (branch w l' h') r s lt same)
        ∙ sym (
            eval-injective n h (branch w l' h') r.5 s
              (high-same n v l h (branch w l' h') r s lt same))))
  | inr (inl e) ↦
      let p = eval-injective n l l' r.4 s.4 (low-agree n v w l h l' h' r s e same) in
      let q = eval-injective n h h' r.5 s.5 (high-agree n v w l h l' h' r s e same) in cc
  | inr (inr gt) ↦ absurd (
      s.3 (
        sym (
          eval-injective n (branch v l h) l' r s.4
            (λ env. sym (low-same n w l' h' (branch v l h) s r gt (λ e. sym (same e)) env)))
        ∙ eval-injective n (branch v l h) h' r s.5
            (λ env. sym (high-same n w l' h' (branch v l h) s r gt (λ e. sym (same e)) env))))
]
