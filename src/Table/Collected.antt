-- ===== src/Table/Collected.antt =====
-- What `gcLocked` leaves: a valid table of the nodes that a reference count protects.
use nanobdd.Base.{
  ℕ, ◌+◌, ◌-◌, ◌≤◌, ◌<◌, ◌≡◌, ◌≢◌, ◌↔◌, if◌then◌else◌, inl, inr, Bool, Bool-cases, eq_cases, true,
  false, List, [], count, arith, sym, subst, ◌∙◌, ap,
}
use nanobdd.Tree.{Tree, leaf, branch, Assignment}
use nanobdd.Node.{Ptr, null, Heap, Node}
use nanobdd.Node.Marking.{IsMarked, here, IsRemarked, Reaches-low, Reaches-high}
use nanobdd.Bucket.Sweep.{is_dead}
use nanobdd.Allocator.{Allocator, free_all}
use nanobdd.Allocator.FreeList.{IsFresh, Chain-frame}
use nanobdd.Allocator.Release.{pushed, count-pushed, Released, free_all-Released, Chain-once}
use nanobdd.Cache.{invalidate_all}
use nanobdd.Platform.{Platform}
use nanobdd.Table.State.{NodeTable, home}
use nanobdd.Table.Collect.{sweep_all, unmark_all, SweptAll}
use nanobdd.Table.Layout.{bucket_at, home_of, Stored, IsLaid, Stored-ne_null}
use nanobdd.Table.Meaning.{Represents, Means, IsSound, terminal, terminal-Stored}
use nanobdd.Table.Cofactor.{Represents-Stored}
use nanobdd.Table.Marked.{IsTidy, IsLive, count_all-home, IsLive-Stored}
use nanobdd.Table.Swept.{
  sweep_all-chain, sweep_all-count_all, sweep_all-freed, sweep_all-width, sweep_all-total,
  unmark_all-IsRemarked, unmark_all-IsMarked, length-invalidate_all, get_or-invalidate_all,
}

Node_ext :
    (a b : Node)
    → a.ref_count ≡ b.ref_count
    → a.level ≡ b.level
    → a.low ≡ b.low
    → a.high ≡ b.high
    → a.in_use ≡ b.in_use
    → a.next_free ≡ b.next_free
    → a ≡ b
Node_ext a b r l x y u f i = record {
  ref_count = r i;
  level = l i;
  low = x i;
  high = y i;
  in_use = u i;
  next_free = f i;
}

-- `g` is the heap after the marking of `t`.
module _ ⦃env : Platform⦄ (n : ℕ) (t : NodeTable) (free : List Ptr) (v : IsLaid t free)
    (s : IsSound n t) (d : IsTidy t) (g : Heap) (same : IsRemarked t.heap g)
    (marks : (q : Ptr) → IsMarked g q ↔ IsLive t q) where
  abbrev pub swept : SweptAll
  swept = sweep_all g t.buckets []

  abbrev released : Heap × Allocator
  released = free_all (unmark_all g swept.chains) t.allocator swept.freed

  abbrev pub collected : NodeTable
  collected = record t {
    heap = released.0;
    buckets = swept.chains;
    allocator = released.1;
    node_count = t.node_count - swept.removed;
    cache = invalidate_all t.cache;
  }

  abbrev pub idle : List Ptr
  idle = pushed swept.freed free

  live-kept : (q : Ptr) → IsLive t q → is_dead g q ≡ false
  live-kept q l = ground (arith, (marks q).1 l)

  kept-IsLive : (q : Ptr) → Stored t q → is_dead g q ≡ false → IsLive t q
  kept-IsLive q st e = elim (Bool-cases (g q).in_use) [
    | inl m ↦ (marks q).0 m
    | inr m ↦ (q, st, λ z. ground (arith, same.ref_count q), here)
  ]

  chain_count :
      (q : Ptr) (i : ℕ)
      → count q (bucket_at collected i) ≡ (if is_dead g q then 0 else count q (bucket_at t i))
  chain_count q i = sweep_all-chain g t.buckets [] i q

  freed_count :
      (q : Ptr)
      → count q swept.freed ≡ (if is_dead g q then count q (bucket_at t (home_of t q)) else 0)
  freed_count q = ground (arith, sweep_all-freed g t.buckets [] q, count_all-home t free q v)

  -- A cell stands in one bucket, or in the free list, or in neither.
  once : (q : Ptr) → count q (bucket_at t (home_of t q)) + count q free ≤ 1
  once q = elim (eq_cases (count q free) 0) [
    | inl e ↦ ground (arith, v.placed q (home_of t q))
    | inr k ↦ omega (
      arith,
      v.unused q (home_of t q) (inl (omega arith)),
      Chain-once t.heap t.allocator.free_list free q v.allocates.chain,
    )
  ]

  idle_free : (q : Ptr) (i : ℕ) → 0 < count q free → count q (bucket_at t i) ≡ 0
  idle_free q i c = v.unused q i (inl c)

  clean : (q : Ptr) → (unmark_all g swept.chains q).in_use ≡ false
  clean q = elim (Bool-cases (unmark_all g swept.chains q).in_use) [
    | inr e ↦ e
    | inl e ↦
        let (m, none) = unmark_all-IsMarked g swept.chains q e in
        let l = (marks q).0 m in
        let st = IsLive-Stored n t s d q l in
        absurd (
          ground
            (arith, live-kept q l, sweep_all-count_all g t.buckets [] q, count_all-home t free q v))
  ]

  restored : (q : Ptr) → unmark_all g swept.chains q ≡ t.heap q
  restored q =
      let r = unmark_all-IsRemarked t.heap g swept.chains same in
      Node_ext _ _ (r.ref_count q) (r.level q) (r.low q) (r.high q) (clean q ∙ sym (d.unmarked q))
        (r.next_free q)

  pub released-Released : Released (unmark_all g swept.chains) t.allocator swept.freed free released
  released-Released =
      free_all-Released (unmark_all g swept.chains) t.allocator free swept.freed
        (record {
          chain =
              Chain-frame t.heap (unmark_all g swept.chains) t.allocator.free_list free
                (λ q c. ap (λ k. k.next_free) (restored q)) v.allocates.chain;
          based = v.allocates.based;
          apart = v.allocates.apart;
          housed = v.allocates.housed;
          grows = v.allocates.grows;
        })
        (λ q. ground (arith, freed_count q, v.placed q (home_of t q), once q))
        (ground (arith, freed_count null, v.no_null (home_of t null)))
        (λ q c f. absurd (ground (arith, freed_count q, v.unused q (home_of t q) (inr f))))
        (λ q c. v.housed q (home_of t q) (ground (arith, freed_count q)))

  pub same_node : (q : Ptr) → is_dead g q ≡ false → collected.heap q ≡ t.heap q
  same_node q e = released-Released.others q (ground (arith, freed_count q)) ∙ restored q

  same_home : (q : Ptr) → is_dead g q ≡ false → home_of collected q ≡ home_of t q
  same_home q e = ap (λ k. home t.table_size k.level k.low k.high) (same_node q e)

  pub Stored-inv : (q : Ptr) → Stored collected q → Stored t q × IsLive t q
  Stored-inv q st =
      let e : is_dead g q ≡ false = ground (arith, chain_count q (home_of collected q)) in
      let there : 0 < count q (bucket_at collected (home_of t q)) =
        subst (λ i. 0 < count q (bucket_at collected i)) (same_home q e) st in
      let st' : Stored t q = ground (arith, chain_count q (home_of t q)) in
      (st', kept-IsLive q st' e)

  pub Stored-keep : (q : Ptr) → Stored t q → IsLive t q → Stored collected q
  Stored-keep q st l =
      let e = live-kept q l in rw (same_home q e) (ground (arith, chain_count q (home_of t q)))

  pub collected-IsLaid : IsLaid collected idle
  collected-IsLaid = record {
    sized = v.sized;
    width = sweep_all-width g t.buckets [] ∙ v.width;
    placed = λ q i. elim (Bool-cases (is_dead g q)) [
      | inl e ↦ ground (arith, chain_count q i)
      | inr e ↦ rw (same_home q e) (ground (arith, chain_count q i, v.placed q i))
    ];
    no_null = λ i. ground (arith, chain_count null i, v.no_null i);
    unique = λ p q a b x y z.
        let (sp, lp) = Stored-inv p a in
        let (sq, lq) = Stored-inv q b in
        let ep = same_node p (live-kept p lp) in
        let eq = same_node q (live-kept q lq) in v.unique p q sp sq (cc) (cc) (cc);
    counted = omega (arith, v.counted, sweep_all-total g t.buckets []);
    allocates = released-Released.allocates;
    housed = λ p i c. released-Released.houses p (v.housed p i (ground (arith, chain_count p i)));
    unused = λ p i k. elim k [
      | inl c ↦
          ground
            (arith, chain_count p i, count-pushed swept.freed free p, freed_count p, idle_free p i)
      | inr f ↦ ground (
        arith,
        chain_count p i,
        v.unused p i (inr (subst (λ a. IsFresh a p) released-Released.current f)),
      )
    ];
  }

  pub live_same : (q : Ptr) → IsLive t q → collected.heap q ≡ t.heap q
  live_same q l = same_node q (live-kept q l)

  low-IsLive : (q : Ptr) → IsLive t q → (t.heap q).low ≢ null → IsLive t (t.heap q).low
  low-IsLive q (r, st, k, path) ne = (r, st, k, Reaches-low t.heap r q path ne)

  high-IsLive : (q : Ptr) → IsLive t q → (t.heap q).high ≢ null → IsLive t (t.heap q).high
  high-IsLive q (r, st, k, path) ne = (r, st, k, Reaches-high t.heap r q path ne)

  pub keep-Represents :
      (tree : Tree) (q : Ptr) → IsLive t q → Represents t tree q → Represents collected tree q
  keep-Represents (leaf b) q l r = r
  keep-Represents (branch w lo hi) q l r =
      let e = same_node q (live-kept q l) in
      let low_stored = Represents-Stored n t lo (t.heap q).low s r.2 in
      let high_stored = Represents-Stored n t hi (t.heap q).high s r.3 in
      (
        Stored-keep q r.0 l,
        ap (λ k. k.level) e ∙ r.1,
        rw e (
            keep-Represents lo (t.heap q).low
              (low-IsLive q l (Stored-ne_null t free (t.heap q).low v low_stored)) r.2),
        rw e (
            keep-Represents hi (t.heap q).high
              (high-IsLive q l (Stored-ne_null t free (t.heap q).high v high_stored)) r.3),
      )

  abbrev pub keep-Means :
      (q : Ptr) (f : Assignment → Bool) → IsLive t q → Means n t q f → Means n collected q f
  keep-Means q f l m = record {
    tree = m.tree;
    robdd = m.robdd;
    represents = keep-Represents m.tree q l m.represents;
    evaluates = m.evaluates;
  }

  terminal-IsLive : (b : Bool) → IsLive t (terminal t b)
  terminal-IsLive b = (terminal t b, terminal-Stored n t s b, d.protected b, here)

  same_terminal : (b : Bool) → collected.heap (terminal t b) ≡ t.heap (terminal t b)
  same_terminal b = same_node (terminal t b) (live-kept (terminal t b) (terminal-IsLive b))

  pub collected-IsSound : IsSound n collected
  collected-IsSound = record {
    few = s.few;
    cache_sized = rw (length-invalidate_all t.cache) s.cache_sized;
    false_stored = Stored-keep t.false_node s.false_stored (terminal-IsLive false);
    true_stored = Stored-keep t.true_node s.true_stored (terminal-IsLive true);
    false_level = ap (λ k. k.level) (same_terminal false) ∙ s.false_level;
    true_level = ap (λ k. k.level) (same_terminal true) ∙ s.true_level;
    closed = λ q st.
        let (old, l) = Stored-inv q st in
        let (tree, r, x) = s.closed q old in (tree, r, keep-Represents tree q l x);
    cached = λ i. inl (get_or-invalidate_all t.cache i);
  }

  pub collected-IsTidy : IsTidy collected
  collected-IsTidy = record {
    unmarked = λ q. released-Released.unmarked q (clean q);
    protected = λ b e. d.protected b (sym (ap (λ k. k.ref_count) (same_terminal b)) ∙ e);
    no_low = λ b. ap (λ k. k.low) (same_terminal b) ∙ d.no_low b;
    no_high = λ b. ap (λ k. k.high) (same_terminal b) ∙ d.no_high b;
  }
