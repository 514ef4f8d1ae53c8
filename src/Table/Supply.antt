-- ===== src/Table/Supply.antt =====
-- `getOrCreateNode` on any table, full or not: its loop ends in at most two rounds.
use nanobdd.Base.{
  ℕ, suc, ◌<◌, ◌≡◌, ◌⊎◌, ◌==◌, Bool, inl, inr, true, false, List, [], ◌∷◌, length, Returns, ◌>>=◌,
  arith, refl, sym, ◌∙◌, subst, eq_cases, at-get_or,
}
use nanobdd.Tree.{Tree, branch, Assignment, IsRobdd}
use nanobdd.Node.{Ptr, null, Heap}
use nanobdd.Bucket.{find}
use nanobdd.Bucket.Search.{find-Found}
use nanobdd.Allocator.{Allocator, allocate}
use nanobdd.Allocator.FreeList.{IsAllocator, slots}
use nanobdd.Platform.{Platform, IsSane}
use nanobdd.Table.State.{NodeTable, home}
use nanobdd.Table.Create.{get_or_create_loop, get_or_create_node}
use nanobdd.Table.Collect.{perform_maintenance}
use nanobdd.Table.Layout.{bucket_at, Stored, IsLaid}
use nanobdd.Table.Layout.Rehash.{home-lt, hash-home}
use nanobdd.Table.Creation.{Created, existing-Created, get_or_create_loop-Created}
use nanobdd.Table.Meaning.{Represents, Means, IsSound, Represents-Extends, Means-Extends}
use nanobdd.Table.Combine.{Created-IsSound}
use nanobdd.Table.Marked.{IsTidy, IsLive, IsLive-Stored}
use nanobdd.Table.Tidy.{Created-IsTidy}
use nanobdd.Table.Maintenance.{Maintained, perform_maintenance-Maintained}

-- Without a slot `allocate` gives null.
allocate-null :
    (h : Heap) (a : Allocator) (free : List Ptr) (level : ℕ) (low high : Ptr)
    → IsAllocator h a free
    → slots a free ≡ 0
    → (allocate h a level low high).0 ≡ null
unfolding allocate
allocate-null h a [] level low high v e = ground (arith, v.chain)
allocate-null h a (x ∷ xs) level low high v e = absurd (omega arith)

module _ ⦃env : Platform⦄ (n : ℕ) (t : NodeTable) where
  -- The result of asking for the node with the tree `tree`.
  pub record Supplied (tree : Tree) (r : Ptr × NodeTable) : Type 0 where
    pub left : List Ptr
    pub laid : IsLaid r.1 left
    pub sound : IsSound n r.1
    pub tidy : IsTidy r.1
    pub represents : Represents r.1 tree r.0
    pub kept : (p : Ptr) → IsLive t p → Stored r.1 p × (r.1.heap p ≡ t.heap p)
    pub means : (p : Ptr) (f : Assignment → Bool) → IsLive t p → Means n t p f → Means n r.1 p f

  -- The loop without the case of a full table.
  module _ (free : List Ptr) (level : ℕ) (low high : Ptr) (v : IsLaid t free) where
    abbrev Outcome : ℕ → Type 0
    Outcome rounds =
        Returns (get_or_create_loop (suc rounds) level low high t) (Created t free level low high)
        ⊎ (get_or_create_loop (suc rounds) level low high t
            ≡ (perform_maintenance t >>= get_or_create_loop rounds level low high))

    outcome : (rounds : ℕ) → Outcome rounds
    unfolding get_or_create_loop
    outcome rounds = elim (eq_cases (slots t.allocator free) 0) [
      | inr k ↦ inl (get_or_create_loop-Created rounds t free level low high v (omega arith))
      | inl e ↦
          let i = home t.table_size level low high in
          let lt : i < length t.buckets =
            omega (arith, v.width, home-lt t.table_size level low high v.sized) in
          let p = find t.heap level low high (bucket_at t i) in
          let c = allocate t.heap t.allocator level low high in
          let none : (c.0 == null) ≡ true =
            ground (arith, allocate-null t.heap t.allocator free level low high v.allocates e) in
          rw (hash-home t.table_size level low high v.sized, at-get_or t.buckets i [] lt)
            (elim (find-Found t.heap level low high (bucket_at t i) (v.no_null i)) [
              | inl (z, absent) ↦ inr (rw (z, none) refl)
              | inr (k, d, m) ↦
                  let ne : (p == null) ≡ false = ground (arith, k) in
                  inl ((p, t), rw ne, existing-Created t free level low high v p d m)
            ])
    ]

module _ ⦃env : Platform⦄ (n : ℕ) (level : ℕ) (low high : Ptr) (lo hi : Tree)
    (o : IsRobdd n (branch level lo hi)) where
  Created-Supplied :
      (t : NodeTable) (free : List Ptr) (r : Ptr × NodeTable)
      → IsSound n t
      → IsTidy t
      → Represents t lo low
      → Represents t hi high
      → Created t free level low high r
      → Supplied n t (branch level lo hi) r
  Created-Supplied t free r s d a b c =
      let x : Represents r.1 (branch level lo hi) r.0 = (
        c.stored,
        c.level_eq,
        subst (Represents r.1 lo) (sym c.low_eq) (Represents-Extends t r.1 lo low c.extends a),
        subst (Represents r.1 hi) (sym c.high_eq) (Represents-Extends t r.1 hi high c.extends b),
      ) in
      record {
        left = c.left;
        laid = c.laid;
        sound = Created-IsSound n t free level low high r (branch level lo hi) s c o x;
        tidy = Created-IsTidy n t s d free level low high r c;
        represents = x;
        kept = λ p l.
            let st = IsLive-Stored n t s d p l in (c.extends.keeps p st, c.extends.same p st);
        means = λ p f l m. Means-Extends n t r.1 p f c.extends m;
      }

  -- Maintenance, and then a second round.
  Maintained-Supplied :
      (t u : NodeTable) (m : Maintained n t u) (r : Ptr × NodeTable)
      → Supplied n u (branch level lo hi) r
      → Created u m.left level low high r
      → Supplied n t (branch level lo hi) r
  Maintained-Supplied t u m r k c = record {
    left = k.left;
    laid = k.laid;
    sound = k.sound;
    tidy = k.tidy;
    represents = k.represents;
    kept = λ p l. let (st, e) = m.kept p l in (c.extends.keeps p st, c.extends.same p st ∙ e);
    means = λ p f l x. Means-Extends n u r.1 p f c.extends (m.means p f l x);
  }

  -- On a sane platform, in a valid table between two operations, full or not, for two children that a
  -- reference count protects and that make a reduced ordered tree, `getOrCreateNode` ends after at
  -- most one maintenance. It returns the stored node of that tree; the table stays valid and ready for
  -- a collection, and every protected node is there, unchanged and with its function.
  pub get_or_create_node-Supplied :
      (sane : IsSane env) (t : NodeTable) (free : List Ptr)
      → IsLaid t free
      → IsSound n t
      → IsTidy t
      → IsLive t low
      → IsLive t high
      → Represents t lo low
      → Represents t hi high
      → Returns (get_or_create_node level low high t) (Supplied n t (branch level lo hi))
  unfolding get_or_create_node
  get_or_create_node-Supplied sane t free v s d live_low live_high a b =
      elim (outcome n t free level low high v 1) [
        | inl (r, run, c) ↦ (r, run, Created-Supplied t free r s d a b c)
        | inr e ↦
            let (u, ran, m) = perform_maintenance-Maintained n sane t free v s d in
            let (r, run, c) = get_or_create_loop-Created 0 u m.left level low high m.laid m.roomy in
            let k =
              Created-Supplied u m.left r m.sound m.tidy (m.represents low lo live_low a)
                (m.represents high hi live_high b) c in
            (r, e ∙ rw ran run, Maintained-Supplied t u m r k c)
      ]
