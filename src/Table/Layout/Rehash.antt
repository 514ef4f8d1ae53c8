-- ===== src/Table/Layout/Rehash.antt =====
-- The growth of the bucket vector keeps the layout and the set of nodes.
use nanobdd.Base.{
  ℕ, ◌+◌, ◌<◌, ◌≡◌, ◌↔◌, ◌==◌, leb, if◌then◌else◌, List, [], ◌∷◌, ◌++◌, count, count_all,
  count_all-only, count-append, total, total-set, total-replicate, length, length-append,
  length-set, length-replicate, get_or, get_or-set, get_or-replicate, replicate, set, Bool-cases,
  inl, inr, arith, refl, ok, Returns, at-get_or, ◌∙◌,
}
use native.Mathlib.Nat.{mod-lt}
use nanobdd.Node.{Ptr, null, Heap}
use nanobdd.Bucket.{Bucket, extract_all_nodes, insert_existing}
use nanobdd.Platform.{Platform}
use nanobdd.Table.State.{NodeTable, home, hash}
use nanobdd.Table.Growth.{
  extract_all, rehash, grow_buckets, maybe_grow_buckets, should_grow_buckets, grown_size,
}
use nanobdd.Table.Layout.{bucket_at, home_of, Stored, IsLaid}

count-extract_all :
    (q : ℕ) (bs : List Bucket) (acc : List Ptr)
    → count q (extract_all bs acc) ≡ count q acc + count_all q bs
unfolding extract_all extract_all_nodes
count-extract_all q [] acc = omega arith
count-extract_all q (b ∷ bs) acc =
    omega (arith, count-extract_all q bs (acc ++ b), count-append q acc b)

length-extract_all :
    (bs : List Bucket) (acc : List Ptr) → length (extract_all bs acc) ≡ length acc + total bs
unfolding extract_all extract_all_nodes
length-extract_all [] acc = omega arith
length-extract_all (b ∷ bs) acc =
    omega (arith, length-extract_all bs (acc ++ b), length-append {0} acc b)

module _ ⦃env : Platform⦄ where
  pub home-lt : (size level : ℕ) (low high : Ptr) → 0 < size → home size level low high < size
  unfolding home
  home-lt size level low high h = mod-lt _ h

  pub hash-home :
      (size level : ℕ) (low high : Ptr)
      → 0 < size
      → hash size level low high ≡ ok (home size level low high)
  hash-home size level low high h = ground arith

  -- Where the nodes stand after a rehash.
  record Rehashed (h : Heap) (size : ℕ) (ps : List Ptr) (bs bs' : List Bucket) : Type 0 where
    width : length bs' ≡ size
    counts :
        (q : Ptr) (i : ℕ)
        → count q (get_or bs' i [])
          ≡ count q (get_or bs i [])
            + (if i == home size (h q).level (h q).low (h q).high then count q ps else 0)
    totals : total bs' ≡ total bs + length ps

  Rehashed-cons :
      (h : Heap) (size : ℕ) (p : Ptr) (ps : List Ptr) (bs bs' : List Bucket) (i : ℕ)
      → i ≡ home size (h p).level (h p).low (h p).high
      → i < length bs
      → Rehashed h size ps (set bs i (get_or bs i [] ++ p ∷ [])) bs'
      → Rehashed h size (p ∷ ps) bs bs'
  Rehashed-cons h size p ps bs bs' i e lt r = record {
    width = r.width;
    counts = λ q j. ground (
      arith,
      r.counts q j,
      get_or-set bs i j (get_or bs i [] ++ p ∷ []) [],
      count-append q (get_or bs i []) (p ∷ []),
    );
    totals = omega (
      arith,
      r.totals,
      total-set bs i (get_or bs i [] ++ p ∷ []) lt,
      length-append {0} (get_or bs i []) (p ∷ []),
    );
  }

  rehash-Rehashed :
      (h : Heap) (size : ℕ) (ps : List Ptr) (bs : List Bucket)
      → 0 < size
      → length bs ≡ size
      → Returns (rehash h size ps bs) (Rehashed h size ps bs)
  unfolding rehash insert_existing
  rehash-Rehashed h size [] bs pos w =
      (bs, refl, record { width = w; counts = λ q i. ground arith; totals = omega arith })
  rehash-Rehashed h size (p ∷ ps) bs pos w =
      let i = home size (h p).level (h p).low (h p).high in
      let lt : i < length bs = omega (arith, home-lt size (h p).level (h p).low (h p).high pos) in
      let (bs', run, r) =
        rehash-Rehashed h size ps (set bs i (get_or bs i [] ++ p ∷ [])) pos
          (length-set bs i _ ∙ w) in
      (
        bs',
        rw (hash-home size (h p).level (h p).low (h p).high pos, at-get_or bs i [] lt) run,
        Rehashed-cons h size p ps bs bs' i refl lt r,
      )

  -- The two tables hold the same nodes; all but the buckets is the same.
  pub record Regrown (t t' : NodeTable) : Type 0 where
    pub heap : t'.heap ≡ t.heap
    pub allocator : t'.allocator ≡ t.allocator
    pub cache : t'.cache ≡ t.cache
    pub node_count : t'.node_count ≡ t.node_count
    pub false_node : t'.false_node ≡ t.false_node
    pub true_node : t'.true_node ≡ t.true_node
    pub vars : t'.vars ≡ t.vars
    pub nvars : t'.nvars ≡ t.nvars
    pub stored : (p : Ptr) → Stored t p ↔ Stored t' p

  Regrown-refl : (t : NodeTable) → Regrown t t
  Regrown-refl t = record {
    heap = refl;
    allocator = refl;
    cache = refl;
    node_count = refl;
    false_node = refl;
    true_node = refl;
    vars = refl;
    nvars = refl;
    stored = λ p. (λ s. s, λ s. s);
  }

  module _ (t : NodeTable) (free : List Ptr) (size : ℕ) (v : IsLaid t free) (pos : 0 < size)
      (bs : List Bucket)
      (r : Rehashed t.heap size (extract_all t.buckets []) (replicate size []) bs) where
    abbrev grown : NodeTable
    grown = record t { buckets = bs; table_size = size }

    -- A node stands in its new bucket as often as it stood in its old one.
    grown-count :
        (q : Ptr) (i : ℕ)
        → count q (bucket_at grown i)
          ≡ (if i == home_of grown q then count q (bucket_at t (home_of t q)) else 0)
    grown-count q i =
        let none_there : List Ptr = [] in
        ground (
          arith,
          r.counts q i,
          get_or-replicate size i none_there,
          count-extract_all q t.buckets [],
          count_all-only q t.buckets (home_of t q) (λ j n. ground (arith, v.placed q j)),
        )

    grown-Stored : (q : Ptr) → Stored t q ↔ Stored grown q
    grown-Stored q = (
      λ s. ground (arith, grown-count q (home_of grown q)),
      λ s. ground (arith, grown-count q (home_of grown q)),
    )

    grown-IsLaid : IsLaid grown free
    grown-IsLaid = record {
      sized = pos;
      width = r.width;
      placed = λ p i. ground (arith, grown-count p i, v.placed p (home_of t p));
      no_null = λ i. ground (arith, grown-count null i, v.no_null (home_of t null));
      unique = λ p q s u. v.unique p q ((grown-Stored p).1 s) ((grown-Stored q).1 u);
      counted =
          omega (arith, v.counted, r.totals, total-replicate size, length-extract_all t.buckets []);
      allocates = v.allocates;
      unused = λ p i d. ground (arith, grown-count p i, v.unused p (home_of t p) d);
      housed = λ p i c. v.housed p (home_of t p) (ground (arith, grown-count p i));
    }

    grown-Regrown : Regrown t grown
    grown-Regrown = record {
      heap = refl;
      allocator = refl;
      cache = refl;
      node_count = refl;
      false_node = refl;
      true_node = refl;
      vars = refl;
      nvars = refl;
      stored = grown-Stored;
    }

  -- In a table that is laid out right, for every new size, `growBucketsLocked` ends; it keeps the
  -- layout, the stored nodes, and all members but the buckets and their number.
  pub grow_buckets-Regrown :
      (t : NodeTable) (free : List Ptr) (size : ℕ)
      → IsLaid t free
      → Returns (grow_buckets t size) (λ t'. IsLaid t' free × Regrown t t')
  unfolding grow_buckets
  grow_buckets-Regrown t free size v = elim (Bool-cases (leb size t.table_size)) [
    | inl e ↦ (t, rw e, (v, Regrown-refl t))
    | inr e ↦
        let pos : 0 < size = ground arith in
        let (bs, run, r) =
          rehash-Rehashed t.heap size (extract_all t.buckets []) (replicate size []) pos
            (length-replicate size []) in
        (
          record t { buckets = bs; table_size = size },
          rw (e, run),
          (grown-IsLaid t free size v pos bs r, grown-Regrown t free size v pos bs r),
        )
  ]

  pub maybe_grow_buckets-Regrown :
      (t : NodeTable) (free : List Ptr)
      → IsLaid t free
      → Returns (maybe_grow_buckets t) (λ t'. IsLaid t' free × Regrown t t')
  unfolding maybe_grow_buckets
  maybe_grow_buckets-Regrown t free v = elim (Bool-cases (should_grow_buckets t)) [
    | inl e ↦ rw e (grow_buckets-Regrown t free (grown_size t) v)
    | inr e ↦ rw e (t, refl, (v, Regrown-refl t))
  ]
