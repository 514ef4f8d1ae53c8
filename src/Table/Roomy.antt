-- ===== src/Table/Roomy.antt =====
-- `performMaintenance` after the collection: the slab that it adds when no slot is left.
use nanobdd.Base.{
  ℕ, ◌<◌, ◌≡◌, Bool-cases, eq_cases, inl, inr, false, List, ◌∷◌, count, arith, refl, ap,
}
use nanobdd.Node.{Ptr, Heap}
use nanobdd.Allocator.{Allocator, has_free_slot}
use nanobdd.Allocator.FreeList.{slots}
use nanobdd.Allocator.Growth.{Grew, grow-Grew, has_free_slot-slots}
use nanobdd.Platform.{Platform, IsSane}
use nanobdd.Table.State.{NodeTable, home}
use nanobdd.Table.Collect.{make_room}
use nanobdd.Table.Layout.{
  bucket_at, home_of, Stored, IsLaid, Stored-of_bucket, Extends, Extends-refl,
}

module _ ⦃env : Platform⦄ (t : NodeTable) (free : List Ptr) where
  -- The same nodes, with a slot for another one.
  pub record Roomier (u : NodeTable) : Type 0 where
    pub laid : IsLaid u free
    pub roomy : 0 < slots u.allocator free
    pub extends : Extends t u
    pub only : (p : Ptr) → Stored u p → Stored t p
    pub cache : u.cache ≡ t.cache
    pub vars : u.vars ≡ t.vars
    pub nvars : u.nvars ≡ t.nvars
    pub unmarked : ((p : Ptr) → (t.heap p).in_use ≡ false) → (p : Ptr) → (u.heap p).in_use ≡ false

  module _ (v : IsLaid t free) (h : Heap) (a : Allocator)
      (g : Grew t.heap t.allocator free (h, a)) where
    abbrev larger : NodeTable
    larger = record t { heap = h; allocator = a }

    same_at : (p : Ptr) (i : ℕ) → 0 < count p (bucket_at t i) → h p ≡ t.heap p
    same_at p i c = g.others p (v.housed p i c)

    same_home : (p : Ptr) (i : ℕ) → 0 < count p (bucket_at t i) → home_of larger p ≡ home_of t p
    same_home p i c = ap (λ k. home t.table_size k.level k.low k.high) (same_at p i c)

    larger_only : (p : Ptr) → Stored larger p → Stored t p
    larger_only p s = (Stored-of_bucket t free p (home_of larger p) v s).1

    larger-Stored : (p : Ptr) → Stored t p → Stored larger p
    larger-Stored p s = rw (same_home p (home_of t p) s) s

    larger-IsLaid : IsLaid larger free
    larger-IsLaid = record {
      sized = v.sized;
      width = v.width;
      placed = λ p i. elim (eq_cases (count p (bucket_at t i)) 0) [
        | inl e ↦ ground (arith, e)
        | inr n ↦ rw (same_home p i (omega arith)) (v.placed p i)
      ];
      no_null = v.no_null;
      unique = λ p q s s' x y z.
          let a' = larger_only p s in
          let b' = larger_only q s' in
          let ep = same_at p (home_of t p) a' in
          let eq = same_at q (home_of t q) b' in v.unique p q a' b' (cc) (cc) (cc);
      counted = v.counted;
      allocates = g.allocates;
      unused = λ p i k. elim (eq_cases (count p (bucket_at t i)) 0) [
        | inl e ↦ e
        | inr n ↦ elim k [
          | inl c ↦ v.unused p i (inl c)
          | inr f ↦ absurd (g.fresh p f (v.housed p i (omega arith)))
        ]
      ];
      housed = λ p i c. g.houses p (v.housed p i c);
    }

    larger-Roomier : Roomier larger
    larger-Roomier = record {
      laid = larger-IsLaid;
      roomy = g.roomy;
      extends = record {
        keeps = larger-Stored;
        same = λ p s. same_at p (home_of t p) s;
        false_same = refl;
        true_same = refl;
      };
      only = larger_only;
      cache = refl;
      vars = refl;
      nvars = refl;
      unmarked = λ clean p. g.unmarked p (clean p);
    }

  pub make_room-Roomier : IsSane env → IsLaid t free → Roomier (make_room t)
  unfolding make_room
  make_room-Roomier sane v =
      let s = has_free_slot-slots t.heap t.allocator free v.allocates in
      elim (Bool-cases (has_free_slot t.allocator)) [
        | inl e ↦ rw e (record {
          laid = v;
          roomy = ground (arith, s);
          extends = Extends-refl t;
          only = λ p st. st;
          cache = refl;
          vars = refl;
          nvars = refl;
          unmarked = λ clean. clean;
        })
        | inr e ↦ rw e (
            larger-Roomier v _ _ (
              grow-Grew env.place t.heap t.allocator free v.allocates (sane.place_pos _ _) (
                sane.place_apart (t.allocator.current ∷ t.allocator.full)
                  t.allocator.next_slab_capacity)))
      ]
