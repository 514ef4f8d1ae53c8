-- ===== src/Table/Maintenance.antt =====
-- The contract of `performMaintenance`: after it a slot is left, whatever was collected.
use nanobdd.Base.{
  ℕ, ◌-◌, ◌<◌, ◌≡◌, ◌⊎◌, Bool, inl, inr, List, length, get_or, Returns, sym, ap, ◌∙◌, subst,
}
use nanobdd.Tree.{Tree, Assignment}
use nanobdd.Node.{Ptr, null}
use nanobdd.Cache.{empty_entry}
use nanobdd.Allocator.FreeList.{slots}
use nanobdd.Platform.{Platform, IsSane}
use nanobdd.Table.State.{NodeTable, uint_max}
use nanobdd.Table.Growth.{maybe_grow_buckets}
use nanobdd.Table.Collect.{make_room, perform_maintenance}
use nanobdd.Table.Layout.{Stored, IsLaid, Extends, Extends-trans}
use nanobdd.Table.Layout.Rehash.{Regrown, maybe_grow_buckets-Regrown}
use nanobdd.Table.Creation.{Regrown-Extends}
use nanobdd.Table.Meaning.{Means, IsSound, IsResult, Represents, Represents-Extends, Means-Extends}
use nanobdd.Table.Combine.{IsResult-Extends}
use nanobdd.Table.Marked.{IsTidy, IsLive, IsLive-Stored}
use nanobdd.Table.Tidy.{Extends-IsTidy}
use nanobdd.Table.Collection.{Collected, gc_locked-Collected}
use nanobdd.Table.Roomy.{Roomier, make_room-Roomier}

module _ ⦃env : Platform⦄ (n : ℕ) where
  -- A table that gains no node stays sound.
  Extends-IsSound :
      (t u : NodeTable)
      → Extends t u
      → ((p : Ptr) → Stored u p → Stored t p)
      → u.cache ≡ t.cache
      → IsSound n t
      → IsSound n u
  Extends-IsSound t u x only c s = record {
    few = s.few;
    cache_sized = subst (λ k. 0 < length k) (sym c) s.cache_sized;
    false_stored = subst (Stored u) (sym x.false_same) (x.keeps _ s.false_stored);
    true_stored = subst (Stored u) (sym x.true_same) (x.keeps _ s.true_stored);
    false_level =
        subst (λ p. (u.heap p).level ≡ uint_max) (sym x.false_same)
          (ap (λ k. k.level) (x.same t.false_node s.false_stored) ∙ s.false_level);
    true_level =
        subst (λ p. (u.heap p).level ≡ uint_max - 1) (sym x.true_same)
          (ap (λ k. k.level) (x.same t.true_node s.true_stored) ∙ s.true_level);
    closed = λ p st.
        let (tree, o, r) = s.closed p (only p st) in (tree, o, Represents-Extends t u tree p x r);
    cached = λ i.
        subst (λ k. (get_or k i empty_entry).node ≡ null ⊎ IsResult n u (get_or k i empty_entry))
          (sym c)
          (elim (s.cached i) [
            | inl e ↦ inl e
            | inr e ↦ inr (IsResult-Extends n t u (get_or t.cache i empty_entry) x e)
          ]);
  }

  -- The table after maintenance: the protected nodes and what they reach are there, unchanged, and
  -- nothing else is; a slot is left.
  pub record Maintained (t u : NodeTable) : Type 0 where
    pub left : List Ptr
    pub laid : IsLaid u left
    pub sound : IsSound n u
    pub tidy : IsTidy u
    pub roomy : 0 < slots u.allocator left
    pub only : (p : Ptr) → Stored u p → Stored t p × IsLive t p
    pub kept : (p : Ptr) → IsLive t p → Stored u p × (u.heap p ≡ t.heap p)
    pub means : (p : Ptr) (f : Assignment → Bool) → IsLive t p → Means n t p f → Means n u p f
    pub represents :
        (p : Ptr) (tree : Tree) → IsLive t p → Represents t tree p → Represents u tree p
    pub false_same : u.false_node ≡ t.false_node
    pub true_same : u.true_node ≡ t.true_node
    pub vars : u.vars ≡ t.vars
    pub nvars : u.nvars ≡ t.nvars

  module _ (sane : IsSane env) (t : NodeTable) (free : List Ptr) (v : IsLaid t free)
      (s : IsSound n t) (d : IsTidy t) where
    after :
        (r : ℕ × NodeTable) (c : Collected n t free r) (w : NodeTable)
        → Roomier r.1 c.left w
        → (u : NodeTable) → IsLaid u c.left
        → Regrown w u
        → Maintained t u
    after r c w m u laid g =
        let x : Extends r.1 u = Extends-trans r.1 w u m.extends (Regrown-Extends w u g) in
        let only : (p : Ptr) → Stored u p → Stored r.1 p = λ p st. m.only p ((g.stored p).1 st) in
        record {
          left = c.left;
          laid = laid;
          sound = Extends-IsSound r.1 u x only (g.cache ∙ m.cache) c.sound;
          tidy =
              Extends-IsTidy n r.1 c.sound c.tidy u x
                (λ p. ap (λ h. (h p).in_use) g.heap ∙ m.unmarked c.tidy.unmarked p);
          roomy = subst (λ a. 0 < slots a c.left) (sym g.allocator) m.roomy;
          only = λ p st. (c.stored p).0 (only p st);
          kept = λ p l.
              let old = (c.stored p).1 (IsLive-Stored n t s d p l, l) in
              (x.keeps p old, x.same p old ∙ c.same p l);
          means = λ p f l k. Means-Extends n r.1 u p f x (c.means p f l k);
          represents = λ p tree l k. Represents-Extends r.1 u tree p x (c.represents p tree l k);
          false_same = x.false_same ∙ c.false_same;
          true_same = x.true_same ∙ c.true_same;
          vars = g.vars ∙ m.vars ∙ c.vars;
          nvars = g.nvars ∙ m.nvars ∙ c.nvars;
        }

    -- On a sane platform, in a valid table between two operations, `performMaintenance` ends. It keeps
    -- exactly the nodes that a stored node with a reference count reaches, with their functions; the
    -- table stays valid, is ready for the next collection, and has a slot for another node.
    pub perform_maintenance-Maintained : Returns (perform_maintenance t) (Maintained t)
    unfolding perform_maintenance maybe_grow_buckets
    perform_maintenance-Maintained =
        let (r, run, c) = gc_locked-Collected n t free v s d in
        let w = make_room r.1 in
        let m = make_room-Roomier r.1 c.left sane c.laid in
        let (u, run', (laid, g)) = maybe_grow_buckets-Regrown w c.left m.laid in
        (u, rw run run', after r c w m u laid g)
