-- ===== src/Table/Meaning.antt =====
-- What a node of the table stands for: a reduced ordered decision tree, and so a Boolean function.
use nanobdd.Base.{
  ℕ, ◌-◌, ◌≤◌, ◌<◌, ◌≡◌, ◌≢◌, ◌⊎◌, Bool, true, false, not, ◌&&◌, ◌||◌, if◌then◌else◌, List, length,
  get_or, arith, refl, sym, ap, ◌∙◌, subst,
}
use mathlib.Core.Bool.{xor}
use nanobdd.Tree.{Tree, leaf, branch, Assignment, eval, IsRobdd}
use nanobdd.Tree.Canonical.{eval-injective}
use nanobdd.Node.{Ptr, null}
use nanobdd.Cache.{Operator, neg, code, Entry, empty_entry}
use nanobdd.Platform.{Platform}
use nanobdd.Table.State.{NodeTable, uint_max}
use nanobdd.Table.Layout.{Stored, IsLaid, Extends}

-- The function that the code computes for each operator, and keeps in the cache. `bddImp` recurs by
-- `bddDiff`, and so do its entries.
abbrev pub meaning : Operator → Bool → Bool → Bool
meaning Operator.and a b = a && b
meaning Operator.or a b = a || b
meaning Operator.neg a b = not a
meaning Operator.xor a b = xor a b
meaning Operator.diff a b = a && not b
meaning Operator.imp a b = a && not b

abbrev pub terminal : NodeTable → Bool → Ptr
terminal t b = if b then t.true_node else t.false_node

module _ ⦃env : Platform⦄ where
  -- The node is the root of this tree in the heap.
  abbrev pub Represents : NodeTable → Tree → Ptr → Type 0
  Represents t (leaf b) p = p ≡ terminal t b
  Represents t (branch v l h) p =
      Stored t p
      × ((t.heap p).level ≡ v)
      × Represents t l (t.heap p).low
      × Represents t h (t.heap p).high

  -- The node stands for the Boolean function `f` of the variables below `n`.
  pub record Means (n : ℕ) (t : NodeTable) (p : Ptr) (f : Assignment → Bool) : Type 0 where
    pub tree : Tree
    pub robdd : IsRobdd n tree
    pub represents : Represents t tree p
    pub evaluates : (assignment : Assignment) → eval tree assignment ≡ f assignment

  -- `bddNot` passes `nullptr` for the second operand.
  abbrev pub IsRight : ℕ → NodeTable → Operator → Ptr → (Assignment → Bool) → Type 0
  IsRight n t neg p f = p ≡ null
  IsRight n t _ p f = Means n t p f

  -- A result in the cache is right for its operands.
  pub record IsResult (n : ℕ) (t : NodeTable) (e : Entry) : Type 0 where
    pub op : Operator
    pub op_eq : e.op ≡ code op
    pub left_value : Assignment → Bool
    pub right_value : Assignment → Bool
    pub left : Means n t e.left left_value
    pub right : IsRight n t op e.right right_value
    pub node : Means n t e.node (λ a. meaning op (left_value a) (right_value a))

  -- The terminals, the nodes and the cache of a table over `n` variables.
  pub record IsSound (n : ℕ) (t : NodeTable) : Type 0 where
    pub few : n ≤ uint_max - 1
    pub cache_sized : 0 < length t.cache
    pub false_stored : Stored t t.false_node
    pub true_stored : Stored t t.true_node
    pub false_level : (t.heap t.false_node).level ≡ uint_max
    pub true_level : (t.heap t.true_node).level ≡ uint_max - 1
    pub closed : (p : Ptr) → Stored t p → (tree : Tree) × IsRobdd n tree × Represents t tree p
    pub cached :
        (i : ℕ)
        → (get_or t.cache i empty_entry).node ≡ null ⊎ IsResult n t (get_or t.cache i empty_entry)

  pub Represents-Extends :
      (t u : NodeTable) (tree : Tree) (p : Ptr)
      → Extends t u
      → Represents t tree p
      → Represents u tree p
  Represents-Extends t u (leaf true) p x r = r ∙ sym x.true_same
  Represents-Extends t u (leaf false) p x r = r ∙ sym x.false_same
  Represents-Extends t u (branch v l h) p x r =
      let e = x.same p r.0 in
      (
        x.keeps p r.0,
        ap (λ k. k.level) e ∙ r.1,
        rw e (Represents-Extends t u l (t.heap p).low x r.2),
        rw e (Represents-Extends t u h (t.heap p).high x r.3),
      )

  abbrev pub Means-Extends :
      (n : ℕ) (t u : NodeTable) (p : Ptr) (f : Assignment → Bool)
      → Extends t u
      → Means n t p f
      → Means n u p f
  Means-Extends n t u p f x m = record {
    tree = m.tree;
    robdd = m.robdd;
    represents = Represents-Extends t u m.tree p x m.represents;
    evaluates = m.evaluates;
  }

  -- One tree has one root.
  pub Represents-injective :
      (t : NodeTable) (free : List Ptr) (tree : Tree) (p q : Ptr)
      → IsLaid t free
      → Represents t tree p
      → Represents t tree q
      → p ≡ q
  Represents-injective t free (leaf b) p q v r s = r ∙ sym s
  Represents-injective t free (branch k l h) p q v r s =
      v.unique p q r.0 s.0 (r.1 ∙ sym s.1) (Represents-injective t free l _ _ v r.2 s.2)
        (Represents-injective t free h _ _ v r.3 s.3)

  module _ (n : ℕ) (t : NodeTable) (s : IsSound n t) where
    pub terminal-Stored : (b : Bool) → Stored t (terminal t b)
    terminal-Stored true = s.true_stored
    terminal-Stored false = s.false_stored

    pub terminal_level : (b : Bool) → n ≤ (t.heap (terminal t b)).level
    terminal_level true = omega (arith, s.few, s.true_level)
    terminal_level false = omega (arith, s.few, s.false_level)

    pub terminals_differ : t.false_node ≢ t.true_node
    terminals_differ e =
        absurd (omega (arith, s.false_level, s.true_level, ap (λ p. (t.heap p).level) e))

    terminal-injective : (b c : Bool) → terminal t b ≡ terminal t c → b ≡ c
    terminal-injective true true e = refl
    terminal-injective true false e = absurd (terminals_differ (sym e))
    terminal-injective false true e = absurd (terminals_differ e)
    terminal-injective false false e = refl

    branch-ne-terminal :
        (b : Bool) (p : Ptr) (v : ℕ) → v < n → (t.heap p).level ≡ v → p ≢ terminal t b
    branch-ne-terminal b p v h e q =
        absurd (omega (arith, terminal_level b, ap (λ k. (t.heap k).level) q))

    -- One node is the root of one tree.
    pub Represents-functional :
        (p : Ptr) (tree tree' : Tree)
        → IsRobdd n tree
        → IsRobdd n tree'
        → Represents t tree p
        → Represents t tree' p
        → tree ≡ tree'
    Represents-functional p (leaf b) (leaf c) r r' x y =
        ap leaf (terminal-injective b c (sym x ∙ y))
    Represents-functional p (leaf b) (branch w l h) r r' x y =
        absurd (branch-ne-terminal b p w r'.0 y.1 x)
    Represents-functional p (branch w l h) (leaf c) r r' x y =
        absurd (branch-ne-terminal c p w r.0 x.1 y)
    Represents-functional p (branch v l h) (branch w l' h') r r' x y =
        let a = Represents-functional (t.heap p).low l l' r.4 r'.4 x.2 y.2 in
        let b = Represents-functional (t.heap p).high h h' r.5 r'.5 x.3 y.3 in
        let c = sym x.1 ∙ y.1 in cc

    -- One node stands for one function.
    pub Means-functional :
        (p : Ptr) (f g : Assignment → Bool)
        → Means n t p f
        → Means n t p g
        → (a : Assignment) → f a ≡ g a
    Means-functional p f g x y a =
        sym (x.evaluates a)
        ∙ ap (λ k. eval k a)
            (Represents-functional p x.tree y.tree x.robdd y.robdd x.represents y.represents)
        ∙ y.evaluates a

    -- One function has one node.
    pub Means-injective :
        (free : List Ptr) (p q : Ptr) (f g : Assignment → Bool)
        → IsLaid t free
        → Means n t p f
        → Means n t q g
        → ((a : Assignment) → f a ≡ g a)
        → p ≡ q
    Means-injective free p q f g v x y e =
        let same =
          eval-injective n x.tree y.tree x.robdd y.robdd
            (λ a. x.evaluates a ∙ e a ∙ sym (y.evaluates a)) in
        Represents-injective t free x.tree p q v x.represents
          (subst (λ k. Represents t k q) (sym same) y.represents)
