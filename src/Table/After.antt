-- ===== src/Table/After.antt =====
-- What an operation keeps of a table.
use nanobdd.Base.{List, arith, ℕ, refl, Bool, false, ◌≡◌, ◌∙◌}
use nanobdd.Node.{Ptr, Heap, ref, deref}
use nanobdd.Tree.{Assignment}
use nanobdd.Platform.{Platform}
use nanobdd.Table.State.{NodeTable}
use nanobdd.Table.Layout.{Stored}
use nanobdd.Table.Meaning.{Means}
use nanobdd.Table.Semantics.{IsValid}
use nanobdd.Table.Reheap.{
  SameShape, ref-SameShape, deref-SameShape, Means-reheap, Stored-reheap, Stored-of_reheap,
  IsLaid-reheap, IsSound-reheap, ref-next_free, deref-next_free,
}

module _ ⦃env : Platform⦄ (n : ℕ) where
  -- `u` keeps of `t` the terminals, the variables and the functions of the nodes.
  pub record IsAfter (t u : NodeTable) : Type 0 where
    pub kept : (p : Ptr) → Stored t p → Stored u p
    pub unmarked : ((p : Ptr) → (t.heap p).in_use ≡ false) → (p : Ptr) → (u.heap p).in_use ≡ false
    pub low_same : (p : Ptr) → Stored t p → (u.heap p).low ≡ (t.heap p).low
    pub high_same : (p : Ptr) → Stored t p → (u.heap p).high ≡ (t.heap p).high
    pub false_same : u.false_node ≡ t.false_node
    pub true_same : u.true_node ≡ t.true_node
    pub vars : u.vars ≡ t.vars
    pub nvars : u.nvars ≡ t.nvars
    pub keeps : (p : Ptr) (f : Assignment → Bool) → Means n t p f → Means n u p f

  pub IsAfter-trans : (t u v : NodeTable) → IsAfter t u → IsAfter u v → IsAfter t v
  IsAfter-trans t u v a b = record {
    kept = λ p s. b.kept p (a.kept p s);
    unmarked = λ clean. b.unmarked (a.unmarked clean);
    low_same = λ p s. b.low_same p (a.kept p s) ∙ a.low_same p s;
    high_same = λ p s. b.high_same p (a.kept p s) ∙ a.high_same p s;
    false_same = b.false_same ∙ a.false_same;
    true_same = b.true_same ∙ a.true_same;
    vars = b.vars ∙ a.vars;
    nvars = b.nvars ∙ a.nvars;
    keeps = λ p f m. b.keeps p f (a.keeps p f m);
  }

  -- Reference counts do not matter.
  pub reheap-IsAfter :
      (t : NodeTable) (h : Heap)
      → SameShape t.heap h
      → ((p : Ptr) → (h p).in_use ≡ (t.heap p).in_use)
      → IsAfter t (record t { heap = h })
  reheap-IsAfter t h sh same = record {
    kept = Stored-reheap t h sh;
    unmarked = λ clean p. same p ∙ clean p;
    low_same = λ p s. sh.low p;
    high_same = λ p s. sh.high p;
    false_same = refl;
    true_same = refl;
    vars = refl;
    nvars = refl;
    keeps = Means-reheap t h sh n;
  }

ref-in_use : (h : Heap) (p q : Ptr) → (ref h p q).in_use ≡ (h q).in_use
unfolding ref
ref-in_use h p q = ground arith

deref-in_use : (h : Heap) (p q : Ptr) → (deref h p q).in_use ≡ (h q).in_use
unfolding deref
deref-in_use h p q = ground arith

-- One reference more, and one less.
module _ (t : NodeTable) (p : Ptr) where
  abbrev pub raised : NodeTable
  raised = record t { heap = ref t.heap p }

  abbrev pub lowered : NodeTable
  lowered = record t { heap = deref t.heap p }

module _ ⦃env : Platform⦄ (t : NodeTable) (p q : Ptr) where
  pub raised-Stored : Stored (raised t p) q → Stored t q
  raised-Stored = Stored-of_reheap t (ref t.heap p) (ref-SameShape t.heap p) q

  pub lowered-Stored : Stored (lowered t p) q → Stored t q
  lowered-Stored = Stored-of_reheap t (deref t.heap p) (deref-SameShape t.heap p) q

module _ ⦃env : Platform⦄ (n : ℕ) (t : NodeTable) (p : Ptr) where
  pub ref-IsAfter : IsAfter n t (raised t p)
  ref-IsAfter = reheap-IsAfter n t (ref t.heap p) (ref-SameShape t.heap p) (ref-in_use t.heap p)

  pub deref-IsAfter : IsAfter n t (lowered t p)
  deref-IsAfter =
      reheap-IsAfter n t (deref t.heap p) (deref-SameShape t.heap p) (deref-in_use t.heap p)

  module _ (free : List Ptr) (v : IsValid n t free) where
    pub ref-IsValid : IsValid n (raised t p) free
    ref-IsValid =
        let sh = ref-SameShape t.heap p in
        record {
          laid = IsLaid-reheap t (ref t.heap p) sh free v.laid (ref-next_free t.heap p);
          sound = IsSound-reheap t (ref t.heap p) sh n v.sound;
        }

    pub deref-IsValid : IsValid n (lowered t p) free
    deref-IsValid =
        let sh = deref-SameShape t.heap p in
        record {
          laid = IsLaid-reheap t (deref t.heap p) sh free v.laid (deref-next_free t.heap p);
          sound = IsSound-reheap t (deref t.heap p) sh n v.sound;
        }
