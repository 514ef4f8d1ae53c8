-- ===== src/Table/Reheap.antt =====
-- Changes of reference counts and marks: the layout and the meaning of the table do not see them.
use nanobdd.Base.{ℕ, ◌≡◌, inl, inr, Bool, List, get_or, arith, refl, sym, ◌∙◌}
use nanobdd.Tree.{Tree, leaf, branch, Assignment}
use nanobdd.Node.{Ptr, Heap, ref, deref}
use nanobdd.Cache.{Operator, Entry, empty_entry}
use nanobdd.Platform.{Platform}
use nanobdd.Allocator.FreeList.{IsAllocator, Chain-frame}
use nanobdd.Table.State.{NodeTable}
use nanobdd.Table.Layout.{Stored, IsLaid, IsLaid-other, Extends}
use nanobdd.Table.Meaning.{Represents, Means, IsRight, IsResult, IsSound, Represents-Extends}
use nanobdd.Table.Combine.{IsResult-Extends}

-- The two heaps have the same decision nodes.
pub record SameShape (h g : Heap) : Type 0 where
  pub level : (p : Ptr) → (g p).level ≡ (h p).level
  pub low : (p : Ptr) → (g p).low ≡ (h p).low
  pub high : (p : Ptr) → (g p).high ≡ (h p).high

pub ref-SameShape : (h : Heap) (p : Ptr) → SameShape h (ref h p)
unfolding ref
ref-SameShape h p = record {
  level = λ q. ground arith;
  low = λ q. ground arith;
  high = λ q. ground arith;
}

pub deref-SameShape : (h : Heap) (p : Ptr) → SameShape h (deref h p)
unfolding deref
deref-SameShape h p = record {
  level = λ q. ground arith;
  low = λ q. ground arith;
  high = λ q. ground arith;
}

pub ref-next_free : (h : Heap) (p q : Ptr) → (ref h p q).next_free ≡ (h q).next_free
unfolding ref
ref-next_free h p q = ground arith

pub deref-next_free : (h : Heap) (p q : Ptr) → (deref h p q).next_free ≡ (h q).next_free
unfolding deref
deref-next_free h p q = ground arith

module _ ⦃env : Platform⦄ (t : NodeTable) (g : Heap) (sh : SameShape t.heap g) where
  abbrev pub reheap : NodeTable
  reheap = record t { heap = g }

  pub Stored-reheap : (p : Ptr) → Stored t p → Stored reheap p
  Stored-reheap p s = rw (sh.level p, sh.low p, sh.high p) s

  pub Stored-of_reheap : (p : Ptr) → Stored reheap p → Stored t p
  Stored-of_reheap p s = rw (sh.level p, sh.low p, sh.high p) at s

  pub IsAllocator-reheap :
      (free : List Ptr)
      → ((p : Ptr) → (g p).next_free ≡ (t.heap p).next_free)
      → IsAllocator t.heap t.allocator free
      → IsAllocator g t.allocator free
  IsAllocator-reheap free next v = record {
    chain = Chain-frame t.heap g t.allocator.free_list free (λ q c. next q) v.chain;
    based = v.based;
    apart = v.apart;
    housed = v.housed;
    grows = v.grows;
  }

  pub IsLaid-reheap :
      (free : List Ptr)
      → IsLaid t free
      → ((p : Ptr) → (g p).next_free ≡ (t.heap p).next_free)
      → IsLaid reheap free
  IsLaid-reheap free v next = record {
    sized = v.sized;
    width = v.width;
    placed = λ p i. rw (sh.level p, sh.low p, sh.high p) (v.placed p i);
    no_null = v.no_null;
    unique = λ p q a b x y z.
        v.unique p q (Stored-of_reheap p a) (Stored-of_reheap q b)
          (sym (sh.level p) ∙ x ∙ sh.level q) (sym (sh.low p) ∙ y ∙ sh.low q)
          (sym (sh.high p) ∙ z ∙ sh.high q);
    counted = v.counted;
    allocates = IsAllocator-reheap free next v.allocates;
    unused = v.unused;
    housed = v.housed;
  }

  pub Represents-reheap : (tree : Tree) (p : Ptr) → Represents t tree p → Represents reheap tree p
  Represents-reheap (leaf b) p r = r
  Represents-reheap (branch v l h) p r = (
    Stored-reheap p r.0,
    sh.level p ∙ r.1,
    rw (sh.low p) (Represents-reheap l (t.heap p).low r.2),
    rw (sh.high p) (Represents-reheap h (t.heap p).high r.3),
  )

  abbrev pub Means-reheap :
      (n : ℕ) (p : Ptr) (f : Assignment → Bool) → Means n t p f → Means n reheap p f
  Means-reheap n p f m = record {
    tree = m.tree;
    robdd = m.robdd;
    represents = Represents-reheap m.tree p m.represents;
    evaluates = m.evaluates;
  }

  IsRight-reheap :
      (n : ℕ) (op : Operator) (p : Ptr) (f : Assignment → Bool)
      → IsRight n t op p f
      → IsRight n reheap op p f
  IsRight-reheap n Operator.neg p f r = r
  IsRight-reheap n Operator.and p f r = Means-reheap n p f r
  IsRight-reheap n Operator.or p f r = Means-reheap n p f r
  IsRight-reheap n Operator.xor p f r = Means-reheap n p f r
  IsRight-reheap n Operator.diff p f r = Means-reheap n p f r
  IsRight-reheap n Operator.imp p f r = Means-reheap n p f r

  IsResult-reheap : (n : ℕ) (e : Entry) → IsResult n t e → IsResult n reheap e
  IsResult-reheap n e r = record {
    op = r.op;
    op_eq = r.op_eq;
    left_value = r.left_value;
    right_value = r.right_value;
    left = Means-reheap n e.left r.left_value r.left;
    right = IsRight-reheap n r.op e.right r.right_value r.right;
    node = Means-reheap n e.node _ r.node;
  }

  pub IsSound-reheap : (n : ℕ) → IsSound n t → IsSound n reheap
  IsSound-reheap n s = record {
    few = s.few;
    cache_sized = s.cache_sized;
    false_stored = Stored-reheap t.false_node s.false_stored;
    true_stored = Stored-reheap t.true_node s.true_stored;
    false_level = sh.level t.false_node ∙ s.false_level;
    true_level = sh.level t.true_node ∙ s.true_level;
    closed = λ p st.
        let (tree, r, x) = s.closed p (Stored-of_reheap p st) in
        (tree, r, Represents-reheap tree p x);
    cached = λ i. elim (s.cached i) [
      | inl z ↦ inl z
      | inr r ↦ inr (IsResult-reheap n (get_or t.cache i empty_entry) r)
    ];
  }

-- Other lists of variables.
module _ ⦃env : Platform⦄ (t : NodeTable) (vars nvars : List Ptr) where
  abbrev pub relist : NodeTable
  relist = record t { vars = vars; nvars = nvars }

  pub relist-Extends : Extends t relist
  relist-Extends = record {
    keeps = λ p s. s;
    same = λ p s. refl;
    false_same = refl;
    true_same = refl;
  }

  pub relist-IsLaid : (free : List Ptr) → IsLaid t free → IsLaid relist free
  relist-IsLaid free v = IsLaid-other t free t.false_node t.true_node vars nvars t.cache v

  pub relist-IsSound : (n : ℕ) → IsSound n t → IsSound n relist
  relist-IsSound n s = record {
    few = s.few;
    cache_sized = s.cache_sized;
    false_stored = s.false_stored;
    true_stored = s.true_stored;
    false_level = s.false_level;
    true_level = s.true_level;
    closed = λ p st.
        let (tree, r, x) = s.closed p st in
        (tree, r, Represents-Extends t relist tree p relist-Extends x);
    cached = λ i. elim (s.cached i) [
      | inl z ↦ inl z
      | inr r ↦ inr (IsResult-Extends n t relist (get_or t.cache i empty_entry) relist-Extends r)
    ];
  }
