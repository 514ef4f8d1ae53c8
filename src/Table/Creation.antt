-- ===== src/Table/Creation.antt =====
-- `getOrCreateNode` while the allocator has a slot: it returns the one node with these fields.
use nanobdd.Base.{
  eq_cases, ℕ, suc, ◌+◌, ◌≤◌, ◌<◌, ◌≡◌, ◌⊎◌, ◌==◌, List, [], count, length, true, false, inl, inr,
  arith, refl, Returns, at-get_or, ◌∙◌, subst, sym, ap,
}
use nanobdd.Node.{Ptr, null, Heap}
use nanobdd.Bucket.{matches, find}
use nanobdd.Bucket.Search.{Absent, find-Found, insert_if_absent-append}
use nanobdd.Allocator.{Allocator, reset, allocate}
use nanobdd.Allocator.FreeList.{slots, Allocated, allocate-Allocated}
use nanobdd.Platform.{Platform}
use nanobdd.Table.State.{NodeTable, home}
use nanobdd.Table.Create.{publish, get_or_create_loop, get_or_create_node}
use nanobdd.Table.Layout.{
  bucket_at, Stored, IsLaid, Stored-of_bucket, Extends, Extends-refl, Extends-trans,
}
use nanobdd.Table.Layout.Rehash.{home-lt, hash-home, Regrown, maybe_grow_buckets-Regrown}
use nanobdd.Table.Layout.Insert.{
  added, added-IsLaid, added-Extends, added-Stored_self, added_new, still-Absent,
}

module _ ⦃env : Platform⦄ where
  -- The result `r` of asking for a node with these fields.
  pub record Created (t : NodeTable) (free : List Ptr) (level : ℕ) (low high : Ptr)
      (r : Ptr × NodeTable) : Type 0 where
    pub left : List Ptr
    pub laid : IsLaid r.1 left
    pub extends : Extends t r.1
    pub stored : Stored r.1 r.0
    pub level_eq : (r.1.heap r.0).level ≡ level
    pub low_eq : (r.1.heap r.0).low ≡ low
    pub high_eq : (r.1.heap r.0).high ≡ high
    pub only : (q : Ptr) → Stored r.1 q → Stored t q ⊎ (q ≡ r.0)
    pub cache : r.1.cache ≡ t.cache
    pub vars : r.1.vars ≡ t.vars
    pub nvars : r.1.nvars ≡ t.nvars
    pub spent : slots t.allocator free ≤ slots r.1.allocator left + 1
    pub unmarked : ((p : Ptr) → (t.heap p).in_use ≡ false) → (p : Ptr) → (r.1.heap p).in_use ≡ false
    pub unprotected : Stored t r.0 ⊎ ((r.1.heap r.0).ref_count ≡ 0)

  pub Regrown-Extends : (t u : NodeTable) → Regrown t u → Extends t u
  Regrown-Extends t u g = record {
    keeps = λ p s. (g.stored p).0 s;
    same = λ p s. ap (λ h. h p) g.heap;
    false_same = g.false_node;
    true_same = g.true_node;
  }

  module _ (t : NodeTable) (free : List Ptr) (level : ℕ) (low high : Ptr) (v : IsLaid t free) where
    pub existing-Created :
        (p : Ptr)
        → 0 < count p (bucket_at t (home t.table_size level low high))
        → matches t.heap level low high p ≡ true
        → Created t free level low high (p, t)
    existing-Created p c m = record {
      left = free;
      laid = v;
      extends = Extends-refl t;
      stored = (Stored-of_bucket t free p _ v c).1;
      level_eq = ground arith;
      low_eq = ground arith;
      high_eq = ground arith;
      only = λ q s. inl s;
      cache = refl;
      vars = refl;
      nvars = refl;
      spent = omega arith;
      unmarked = λ clean. clean;
      unprotected = inl (Stored-of_bucket t free p _ v c).1;
    }

    module _ (x : Ptr) (h' : Heap) (a' : Allocator)
        (al : Allocated t.heap t.allocator free (reset level low high) (x, h', a'))
        (absent : Absent t.heap level low high
          (bucket_at t (home t.table_size level low high))) where
      abbrev before : NodeTable
      before = added t free level low high x h' a' v al absent

      Regrown-Created :
          (u : NodeTable)
          → IsLaid u al.left
          → Regrown before u
          → Created t free level low high (x, u)
      Regrown-Created u w g =
          let e : u.heap x ≡ reset level low high = ap (λ h. h x) g.heap ∙ al.filled in
          record {
            left = al.left;
            laid = w;
            extends =
                Extends-trans t before u (added-Extends t free level low high x h' a' v al absent)
                  (Regrown-Extends before u g);
            stored = (g.stored x).0 (added-Stored_self t free level low high x h' a' v al absent);
            level_eq = ap (λ n. n.level) e;
            low_eq = ap (λ n. n.low) e;
            high_eq = ap (λ n. n.high) e;
            only = λ q s. added_new t free level low high x h' a' v al absent q ((g.stored q).1 s);
            cache = g.cache;
            vars = g.vars;
            nvars = g.nvars;
            spent =
                subst (λ a. slots t.allocator free ≤ slots a al.left + 1) (sym g.allocator)
                  (omega (arith, al.fewer));
            unmarked = λ clean p. ap (λ h. (h p).in_use) g.heap ∙ elim (eq_cases p x) [
              | inl same ↦ ap (λ q. (h' q).in_use) same ∙ ap (λ n. n.in_use) al.filled
              | inr ne ↦ ap (λ n. n.in_use) (al.others p ne) ∙ clean p
            ];
            unprotected = inr (ap (λ n. n.ref_count) e);
          }

      publish-Created :
          Returns
            (publish
              (record t { heap = h'; allocator = a' })
              (home t.table_size level low high)
              (bucket_at t (home t.table_size level low high))
              level
              low
              high
              x)
            (Created t free level low high)
      unfolding publish
      publish-Created =
          let (u, run, (w, g)) =
            maybe_grow_buckets-Regrown before al.left
              (added-IsLaid t free level low high x h' a' v al absent) in
          (
            (x, u),
            rw (
              insert_if_absent-append h' level low high x
                  (bucket_at t (home t.table_size level low high))
                  (still-Absent t free level low high x h' a' v al absent),
              run,
            ),
            Regrown-Created u w g,
          )

  -- One round of the loop is enough while a slot is left.
  pub get_or_create_loop-Created :
      (rounds : ℕ) (t : NodeTable) (free : List Ptr) (level : ℕ) (low high : Ptr)
      → IsLaid t free
      → 0 < slots t.allocator free
      → Returns (get_or_create_loop (suc rounds) level low high t) (Created t free level low high)
  unfolding get_or_create_loop
  get_or_create_loop-Created rounds t free level low high v room =
      let i = home t.table_size level low high in
      let lt : i < length t.buckets =
        omega (arith, v.width, home-lt t.table_size level low high v.sized) in
      let p = find t.heap level low high (bucket_at t i) in
      let c = allocate t.heap t.allocator level low high in
      let al = allocate-Allocated t.heap t.allocator free level low high v.allocates room in
      rw (hash-home t.table_size level low high v.sized, at-get_or t.buckets i [] lt)
        (elim (find-Found t.heap level low high (bucket_at t i) (v.no_null i)) [
          | inl (e, absent) ↦
              let ne : (c.0 == null) ≡ false = ground (arith, al.ne_null) in
              rw (e, ne) (publish-Created t free level low high v c.0 c.1 c.2 al absent)
          | inr (n, d, m) ↦
              let ne : (p == null) ≡ false = ground (arith, n) in
              ((p, t), rw ne, existing-Created t free level low high v p d m)
        ])

  -- In a table that is laid out right and has a slot left, `getOrCreateNode` ends, and returns a stored
  -- node with the given fields. The layout holds, so it is the only such node; no node is lost, no
  -- other is added, the cache and the variables stay, and at most one slot is spent.
  pub get_or_create_node-Created :
      (t : NodeTable) (free : List Ptr) (level : ℕ) (low high : Ptr)
      → IsLaid t free
      → 0 < slots t.allocator free
      → Returns (get_or_create_node level low high t) (Created t free level low high)
  unfolding get_or_create_node
  get_or_create_node-Created = get_or_create_loop-Created 1
