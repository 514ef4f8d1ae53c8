-- ===== src/Table/Shortcut.antt =====
-- The early returns of the operations: what they return is right, and after them a node is left whose
-- level is a variable.
use nanobdd.Base.{
  ℕ, ◌<◌, ◌≡◌, ◌≢◌, ◌⊎◌, inl, inr, Bool, true, false, not, ◌||◌, min, Option, some, none, arith,
  refl, sym, ◌∙◌, subst, eq_cases,
}
use mathlib.Core.Bool.{xor}
use nanobdd.Tree.{Tree, leaf, branch, Assignment, eval}
use nanobdd.Node.{Ptr}
use nanobdd.Platform.{Platform}
use nanobdd.Cache.{Operator}
use nanobdd.Table.State.{NodeTable}
use nanobdd.Table.Operations.{
  and_shortcut, or_shortcut, xor_shortcut, diff_shortcut, imp_shortcut, not_shortcut,
}
use nanobdd.Table.Meaning.{Represents, Means, meaning, IsSound, terminal, Means-functional}

module _ ⦃env : Platform⦄ (n : ℕ) (t : NodeTable) (s : IsSound n t) where
  pub terminal_Means : (b : Bool) → Means n t (terminal t b) (λ _. b)
  terminal_Means b = record { tree = leaf b; robdd = tt; represents = refl; evaluates = λ _. refl }

  pub value_false :
      (p : Ptr) (f : Assignment → Bool)
      → Means n t p f
      → p ≡ t.false_node
      → (e : Assignment) → f e ≡ false
  value_false p f m z e =
      Means-functional n t s p f (λ _. false) m
        (subst (λ q. Means n t q (λ _. false)) (sym z) (terminal_Means false)) e

  pub value_true :
      (p : Ptr) (f : Assignment → Bool)
      → Means n t p f
      → p ≡ t.true_node
      → (e : Assignment) → f e ≡ true
  value_true p f m z e =
      Means-functional n t s p f (λ _. true) m
        (subst (λ q. Means n t q (λ _. true)) (sym z) (terminal_Means true)) e

  inner_of :
      (p : Ptr) (tree : Tree)
      → nanobdd.Tree.IsRobdd n tree
      → Represents t tree p
      → p ≢ t.false_node
      → p ≢ t.true_node
      → (t.heap p).level < n
  inner_of p (leaf true) r x a b = absurd (b x)
  inner_of p (leaf false) r x a b = absurd (a x)
  inner_of p (branch v l h) r x a b = omega (arith, r.0, x.1)

  -- A node that is no terminal has a variable.
  pub inner :
      (p : Ptr) (f : Assignment → Bool)
      → Means n t p f
      → p ≢ t.false_node
      → p ≢ t.true_node
      → (t.heap p).level < n
  inner p f m a b = inner_of p m.tree m.robdd m.represents a b

  Means_as :
      (p : Ptr) (f g : Assignment → Bool)
      → Means n t p f
      → ((e : Assignment) → f e ≡ g e)
      → Means n t p g
  Means_as p f g m e = record {
    tree = m.tree;
    robdd = m.robdd;
    represents = m.represents;
    evaluates = λ a. m.evaluates a ∙ e a;
  }

  -- The early return `o` for these operands: a right result, or none and a variable to expand.
  abbrev pub IsShortcut :
      (Bool → Bool → Bool) → Ptr → Ptr → (f h : Assignment → Bool) → Option Ptr → Type 0
  IsShortcut g x y f h o =
      ((p : Ptr) × (o ≡ some p) × Means n t p (λ e. g (f e) (h e)))
      ⊎ ((o ≡ none) × (min (t.heap x).level (t.heap y).level < n))

  module _ (x y : Ptr) (f h : Assignment → Bool) (a : Means n t x f) (b : Means n t y h) where
    equal_values : x ≡ y → (e : Assignment) → f e ≡ h e
    equal_values z e = Means-functional n t s y f h (subst (λ q. Means n t q f) z a) b e

    pub and-IsShortcut : IsShortcut (meaning Operator.and) x y f h (and_shortcut t x y)
    unfolding and_shortcut
    and-IsShortcut = elim (eq_cases x y) [
      | inl e ↦ inl (x, ground arith, Means_as x f _ a (λ z. ground (arith, equal_values e z)))
      | inr xy ↦ elim (eq_cases x t.false_node) [
        | inl e ↦ inl (
          t.false_node,
          ground arith,
          Means_as _ _ _ (terminal_Means false) (λ z. ground (arith, value_false x f a e z)),
        )
        | inr xf ↦ elim (eq_cases y t.false_node) [
          | inl e ↦ inl (
            t.false_node,
            ground arith,
            Means_as _ _ _ (terminal_Means false) (λ z. ground (arith, value_false y h b e z)),
          )
          | inr yf ↦ elim (eq_cases x t.true_node) [
            | inl e ↦
                inl (y, ground arith, Means_as _ _ _ b (λ z. ground (arith, value_true x f a e z)))
            | inr xt ↦ elim (eq_cases y t.true_node) [
              | inl e ↦
                  inl
                    (x, ground arith, Means_as _ _ _ a (λ z. ground (arith, value_true y h b e z)))
              | inr yt ↦ inr (ground arith, omega (arith, inner x f a xf xt))
            ]
          ]
        ]
      ]
    ]

    pub or-IsShortcut : IsShortcut (meaning Operator.or) x y f h (or_shortcut t x y)
    unfolding or_shortcut xor
    or-IsShortcut = elim (eq_cases x y) [
      | inl e ↦ inl (x, ground arith, Means_as _ _ _ a (λ z. ground (arith, equal_values e z)))
      | inr xy ↦ elim (eq_cases x t.true_node) [
        | inl e ↦ inl (
          t.true_node,
          ground arith,
          Means_as _ _ _ (terminal_Means true) (λ z. ground (arith, value_true x f a e z)),
        )
        | inr xt ↦ elim (eq_cases y t.true_node) [
          | inl e ↦ inl (
            t.true_node,
            ground arith,
            Means_as _ _ _ (terminal_Means true) (λ z. ground (arith, value_true y h b e z)),
          )
          | inr yt ↦ elim (eq_cases x t.false_node) [
            | inl e ↦
                inl (y, ground arith, Means_as _ _ _ b (λ z. ground (arith, value_false x f a e z)))
            | inr xf ↦ elim (eq_cases y t.false_node) [
              | inl e ↦
                  inl
                    (x, ground arith, Means_as _ _ _ a (λ z. ground (arith, value_false y h b e z)))
              | inr yf ↦ inr (ground arith, omega (arith, inner x f a xf xt))
            ]
          ]
        ]
      ]
    ]

    -- Two different nodes are not both the terminal true.
    one_inner :
        x ≢ y → x ≢ t.false_node → y ≢ t.false_node → min (t.heap x).level (t.heap y).level < n
    one_inner xy xf yf = elim (eq_cases x t.true_node) [
      | inl e ↦ omega (arith, inner y h b yf (λ k. xy (e ∙ sym k)))
      | inr xt ↦ omega (arith, inner x f a xf xt)
    ]

    pub xor-IsShortcut : IsShortcut (meaning Operator.xor) x y f h (xor_shortcut t x y)
    unfolding xor_shortcut xor
    xor-IsShortcut = elim (eq_cases x y) [
      | inl e ↦ inl (
        t.false_node,
        ground arith,
        Means_as _ _ _ (terminal_Means false) (λ z. ground (arith, equal_values e z)),
      )
      | inr xy ↦ elim (eq_cases x t.false_node) [
        | inl e ↦
            inl (y, ground arith, Means_as _ _ _ b (λ z. ground (arith, value_false x f a e z)))
        | inr xf ↦ elim (eq_cases y t.false_node) [
          | inl e ↦
              inl (x, ground arith, Means_as _ _ _ a (λ z. ground (arith, value_false y h b e z)))
          | inr yf ↦ inr (ground arith, one_inner xy xf yf)
        ]
      ]
    ]

    pub diff-IsShortcut : IsShortcut (meaning Operator.diff) x y f h (diff_shortcut t x y)
    unfolding diff_shortcut xor
    diff-IsShortcut = elim (eq_cases x y) [
      | inl e ↦ inl (
        t.false_node,
        ground arith,
        Means_as _ _ _ (terminal_Means false) (λ z. ground (arith, equal_values e z)),
      )
      | inr xy ↦ elim (eq_cases x t.false_node) [
        | inl e ↦ inl (
          t.false_node,
          ground arith,
          Means_as _ _ _ (terminal_Means false) (λ z. ground (arith, value_false x f a e z)),
        )
        | inr xf ↦ elim (eq_cases y t.true_node) [
          | inl e ↦ inl (
            t.false_node,
            ground arith,
            Means_as _ _ _ (terminal_Means false) (λ z. ground (arith, value_true y h b e z)),
          )
          | inr yt ↦ elim (eq_cases y t.false_node) [
            | inl e ↦
                inl (x, ground arith, Means_as _ _ _ a (λ z. ground (arith, value_false y h b e z)))
            | inr yf ↦ inr (ground arith, omega (arith, inner y h b yf yt))
          ]
        ]
      ]
    ]

    pub imp-IsShortcut : IsShortcut (λ p q. not p || q) x y f h (imp_shortcut t x y)
    unfolding imp_shortcut xor
    imp-IsShortcut = elim (eq_cases x t.false_node) [
      | inl e ↦ inl (
        t.true_node,
        ground arith,
        Means_as _ _ _ (terminal_Means true) (λ z. ground (arith, value_false x f a e z)),
      )
      | inr xf ↦ elim (eq_cases y t.true_node) [
        | inl e ↦ inl (
          t.true_node,
          ground arith,
          Means_as _ _ _ (terminal_Means true) (λ z. ground (arith, value_true y h b e z)),
        )
        | inr yt ↦ elim (eq_cases x t.true_node) [
          | inl e ↦
              inl (y, ground arith, Means_as _ _ _ b (λ z. ground (arith, value_true x f a e z)))
          | inr xt ↦ inr (ground arith, omega (arith, inner x f a xf xt))
        ]
      ]
    ]

  pub not-IsShortcut :
      (x : Ptr) (f : Assignment → Bool)
      → Means n t x f
      → ((p : Ptr) × (not_shortcut t x ≡ some p) × Means n t p (λ e. not (f e)))
        ⊎ ((not_shortcut t x ≡ none) × ((t.heap x).level < n))
  unfolding not_shortcut
  not-IsShortcut x f a = elim (eq_cases x t.true_node) [
    | inl e ↦ inl (
      t.false_node,
      ground arith,
      Means_as _ _ _ (terminal_Means false) (λ z. ground (arith, value_true x f a e z)),
    )
    | inr xt ↦ elim (eq_cases x t.false_node) [
      | inl e ↦ inl (
        t.true_node,
        ground arith,
        Means_as _ _ _ (terminal_Means true) (λ z. ground (arith, value_false x f a e z)),
      )
      | inr xf ↦ inr (ground arith, inner x f a xf xt)
    ]
  ]
