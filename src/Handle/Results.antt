-- ===== src/Handle/Results.antt =====
-- The operators of handles: a new handle on the node of the result.
use nanobdd.Base.{
  ℕ, ◌+◌, ◌%◌, ◌^◌, ◌≤◌, ◌<◌, ◌≡◌, ◌==◌, if◌then◌else◌, Bool, false, not, ◌&&◌, ◌||◌, List, Returns,
  arith, refl, ap, eq_cases, inl, inr, ◌⊎◌, ◌∙◌,
}
use mathlib.Core.Bool.{xor}
use nanobdd.Tree.{Assignment}
use nanobdd.Node.{Ptr, null, Node, Heap, ref}
use nanobdd.Allocator.FreeList.{slots}
use nanobdd.Platform.{Platform}
use nanobdd.Table.State.{NodeTable}
use nanobdd.Table.Operations.{Op, bdd_and, bdd_or, bdd_not, bdd_xor, bdd_diff}
use nanobdd.Table.Layout.{Stored, Stored-ne_null}
use nanobdd.Table.Meaning.{Means, Means-Extends}
use nanobdd.Table.Cofactor.{Represents-Stored}
use nanobdd.Table.Combine.{Done, Done-here}
use nanobdd.Table.After.{IsAfter, ref-IsAfter, ref-IsValid}
use nanobdd.Table.Expand.{cost}
use nanobdd.Table.Reheap.{ref-SameShape, Means-reheap, Stored-reheap, Stored-of_reheap}
use nanobdd.Table.Semantics.{
  IsValid, bdd_and-Done, bdd_or-Done, bdd_not-Done, bdd_xor-Done, bdd_diff-Done,
}
use nanobdd.Handle.{construct, wrapped, and_of, or_of, not_of, xor_of, diff_of}

ref-raised :
    (h : Heap) (old : Node) (p q : Ptr)
    → h q ≡ old
    → (ref h p q).ref_count ≡ (if q == p then (old.ref_count + 1) % 2 ^ 32 else old.ref_count)
unfolding ref
ref-raised h old p q e = elim (eq_cases q p) [
  | inl s ↦ ground (arith, s, ap (λ k. k.ref_count) e)
  | inr d ↦ ground (arith, d, ap (λ k. k.ref_count) e)
]

ref-fresh :
    (h : Heap) (p q : Ptr) → (h q).ref_count ≡ 0 → (ref h p q).ref_count ≡ (if q == p then 1 else 0)
unfolding ref
ref-fresh h p q e = ground arith

module _ ⦃env : Platform⦄ (n : ℕ) (t : NodeTable) (free : List Ptr) where
  -- A new handle `r.0` on the node of `f`: the table stays valid, the old nodes stay and keep their
  -- functions and their counts, and the new ones have none, but for the node of the handle, whose
  -- count is raised by one.
  pub record Owned (f : Assignment → Bool) (r : Ptr × NodeTable) : Type 0 where
    pub left : List Ptr
    pub valid : IsValid n r.1 left
    pub means : Means n r.1 r.0 f
    pub keeps : (p : Ptr) (g : Assignment → Bool) → Means n t p g → Means n r.1 p g
    pub raised :
        (p : Ptr)
        → Stored t p
        → (r.1.heap p).ref_count
          ≡ (if p == r.0 then ((t.heap p).ref_count + 1) % 2 ^ 32 else (t.heap p).ref_count)
    pub spent : slots t.allocator free ≤ slots r.1.allocator left + cost n
    pub kept : (p : Ptr) → Stored t p → Stored r.1 p
    pub fresh :
        (p : Ptr)
        → Stored r.1 p
        → Stored t p ⊎ ((r.1.heap p).ref_count ≡ (if p == r.0 then 1 else 0))
    pub unmarked : ((p : Ptr) → (t.heap p).in_use ≡ false) → (p : Ptr) → (r.1.heap p).in_use ≡ false
    pub low_same : (p : Ptr) → Stored t p → (r.1.heap p).low ≡ (t.heap p).low
    pub high_same : (p : Ptr) → Stored t p → (r.1.heap p).high ≡ (t.heap p).high
    pub false_same : r.1.false_node ≡ t.false_node
    pub true_same : r.1.true_node ≡ t.true_node
    pub vars : r.1.vars ≡ t.vars
    pub nvars : r.1.nvars ≡ t.nvars

  pub Owned-IsAfter : (f : Assignment → Bool) (r : Ptr × NodeTable) → Owned f r → IsAfter n t r.1
  Owned-IsAfter f r w = record {
    kept = w.kept;
    unmarked = w.unmarked;
    low_same = w.low_same;
    high_same = w.high_same;
    false_same = w.false_same;
    true_same = w.true_same;
    vars = w.vars;
    nvars = w.nvars;
    keeps = w.keeps;
  }

  -- The result of an operation, with one reference more.
  pub ref-Owned :
      (f : Assignment → Bool) (p : Ptr) (u : NodeTable)
      → Done n t free (cost n) f (p, u)
      → Owned f (p, record u { heap = ref u.heap p })
  ref-Owned f p u d =
      let h = ref u.heap p in
      let sh = ref-SameShape u.heap p in
      let after = ref-IsAfter n u p in
      record {
        left = d.left;
        valid = ref-IsValid n u p d.left (record { laid = d.laid; sound = d.sound });
        means = Means-reheap u h sh n p f d.means;
        keeps = λ q g m. Means-reheap u h sh n q g (Means-Extends n t u q g d.extends m);
        raised = λ q st. ref-raised u.heap (t.heap q) p q (d.extends.same q st);
        spent = d.spent;
        kept = λ q st. Stored-reheap u h sh q (d.extends.keeps q st);
        fresh = λ q st. elim (d.fresh q (Stored-of_reheap u h sh q st)) [
          | inl old ↦ inl old
          | inr zero_count ↦ inr (ref-fresh u.heap p q zero_count)
        ];
        unmarked = λ clean. after.unmarked (d.unmarked clean);
        low_same = λ q st. sh.low q ∙ ap (λ k. k.low) (d.extends.same q st);
        high_same = λ q st. sh.high q ∙ ap (λ k. k.high) (d.extends.same q st);
        false_same = d.extends.false_same;
        true_same = d.extends.true_same;
        vars = d.vars;
        nvars = d.nvars;
      }

  -- A handle on a node that is there.
  pub here-Owned :
      (p : Ptr) (f : Assignment → Bool)
      → IsValid n t free
      → Means n t p f
      → Owned f (p, record t { heap = ref t.heap p })
  here-Owned p f v m = ref-Owned f p t (Done-here n t free (cost n) p f v.laid v.sound m)

  pub wrapped-Owned :
      (run : Op) (f : Assignment → Bool)
      → Returns (run t) (Done n t free (cost n) f)
      → Returns (wrapped run t) (Owned f)
  unfolding wrapped construct
  wrapped-Owned run f ((p, u), ran, d) =
      let ne =
        Stored-ne_null u d.left p d.laid
          (Represents-Stored n u d.means.tree p d.sound d.means.represents) in
      let test : (p == null) ≡ false = ground (arith, ne) in
      ((p, record u { heap = ref u.heap p }), rw (ran, test) refl, ref-Owned f p u d)

  module _ (fuel : ℕ) (x y : Ptr) (f g : Assignment → Bool) (v : IsValid n t free)
      (a : Means n t x f) (b : Means n t y g) (deep : n < fuel)
      (room : cost n ≤ slots t.allocator free) where
    -- In a valid table, with fuel above the number of variables and slots for `cost n` nodes, the
    -- operator `&` of two handles gives a new handle on the node of the conjunction; the table stays
    -- valid, the old nodes keep their functions, and only that node's count is raised, by one.
    pub and_of-Owned : Returns (and_of fuel x y t) (Owned (λ e. f e && g e))
    unfolding and_of
    and_of-Owned =
        wrapped-Owned (bdd_and fuel x y) _ (bdd_and-Done n t free fuel x y f g v a b deep room)

    -- In a valid table, with fuel above the number of variables and slots for `cost n` nodes, the
    -- operator `|` of two handles gives a new handle on the node of the disjunction; the table stays
    -- valid, the old nodes keep their functions, and only that node's count is raised, by one.
    pub or_of-Owned : Returns (or_of fuel x y t) (Owned (λ e. f e || g e))
    unfolding or_of
    or_of-Owned =
        wrapped-Owned (bdd_or fuel x y) _ (bdd_or-Done n t free fuel x y f g v a b deep room)

    -- In a valid table, with fuel above the number of variables and slots for `cost n` nodes, the
    -- operator `^` of two handles gives a new handle on the node of the exclusive disjunction.
    pub xor_of-Owned : Returns (xor_of fuel x y t) (Owned (λ e. xor (f e) (g e)))
    unfolding xor_of
    xor_of-Owned =
        wrapped-Owned (bdd_xor fuel x y) _ (bdd_xor-Done n t free fuel x y f g v a b deep room)

    -- In a valid table, with fuel above the number of variables and slots for `cost n` nodes, the
    -- operator `-` of two handles gives a new handle on the node of the first and not the second.
    pub diff_of-Owned : Returns (diff_of fuel x y t) (Owned (λ e. f e && not (g e)))
    unfolding diff_of
    diff_of-Owned =
        wrapped-Owned (bdd_diff fuel x y) _ (bdd_diff-Done n t free fuel x y f g v a b deep room)

  -- In a valid table, with fuel above the number of variables and slots for `cost n` nodes, the
  -- operator `!` gives a new handle on the node of the negation; the table stays valid, the old nodes
  -- keep their functions, and only that node's count is raised, by one.
  pub not_of-Owned :
      (fuel : ℕ) (x : Ptr) (f : Assignment → Bool)
      → IsValid n t free
      → Means n t x f
      → n < fuel
      → cost n ≤ slots t.allocator free
      → Returns (not_of fuel x t) (Owned (λ e. not (f e)))
  unfolding not_of
  not_of-Owned fuel x f v a deep room =
      wrapped-Owned (bdd_not fuel x) _ (bdd_not-Done n t free fuel x f v a deep room)
