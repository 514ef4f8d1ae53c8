-- ===== src/Allocator/Growth.antt =====
-- `grow`: a new slab beside the old ones.
use nanobdd.Base.{
  ℕ, ◌+◌, ◌≤◌, ◌<◌, ◌≡◌, ◌⊎◌, ◌==◌, ltb, true, false, inl, inr, List, [], ◌∷◌, count, eq_cases,
  arith, ap,
}
use nanobdd.Node.{Ptr, null, Heap}
use nanobdd.Allocator.{Slab, Place, Allocator, construct, grow, has_free_slot}
use nanobdd.Allocator.FreeList.{Chain-frame, IsFresh, Inside, IsHoused, IsAllocator, slots}

-- The cells from `base` on are in none of the slabs.
abbrev pub IsApart : List Slab → Ptr → ℕ → Type 0
IsApart [] base capacity = Unit
IsApart (s ∷ ss) base capacity =
    ((s.base + s.capacity ≤ base) ⊎ (base + capacity ≤ s.base)) × IsApart ss base capacity

IsApart-Inside :
    (ss : List Slab) (base capacity : ℕ) (p : Ptr)
    → IsApart ss base capacity
    → Inside ss p
    → base ≤ p
    → p < base + capacity
    → ⊥
IsApart-Inside [] base capacity p a i low high = i
IsApart-Inside (s ∷ ss) base capacity p (a, rest) (inl i) low high = absurd (ground (arith, a, i))
IsApart-Inside (s ∷ ss) base capacity p (a, rest) (inr i) low high =
    IsApart-Inside ss base capacity p rest i low high

-- What a call of `grow` leaves behind.
pub record Grew (h : Heap) (a : Allocator) (free : List Ptr) (r : Heap × Allocator) : Type 0 where
  pub allocates : IsAllocator r.0 r.1 free
  pub roomy : 0 < slots r.1 free
  pub houses : (p : Ptr) → IsHoused a p → IsHoused r.1 p
  pub fresh : (p : Ptr) → IsFresh r.1.current p → IsHoused a p → ⊥
  pub others : (p : Ptr) → IsHoused a p → r.0 p ≡ h p
  pub unmarked : (p : Ptr) → (h p).in_use ≡ false → (r.0 p).in_use ≡ false

module _ (place : Place) (h : Heap) (a : Allocator) (free : List Ptr) (v : IsAllocator h a free)
    (pos : 0 < place (a.current ∷ a.full) a.next_slab_capacity)
    (apart : IsApart
      (a.current ∷ a.full)
      (place (a.current ∷ a.full) a.next_slab_capacity)
      a.next_slab_capacity) where
  abbrev base : Ptr
  base = place (a.current ∷ a.full) a.next_slab_capacity

  outside : (p : Ptr) → IsHoused a p → base ≤ p → p < base + a.next_slab_capacity → ⊥
  outside p i low high =
      IsApart-Inside (a.current ∷ a.full) base a.next_slab_capacity p apart i low high

  constructed_others : (p : Ptr) → IsHoused a p → construct h base a.next_slab_capacity p ≡ h p
  unfolding construct
  constructed_others p i = ground (arith, outside p i)

  constructed_clean :
      (p : Ptr) → (h p).in_use ≡ false → (construct h base a.next_slab_capacity p).in_use ≡ false
  unfolding construct
  constructed_clean p e = ground (arith, e)

  pub grow-Grew : Grew h a free (grow place h a)
  unfolding grow
  grow-Grew = record {
    allocates = record {
      chain =
          Chain-frame h (construct h base a.next_slab_capacity) a.free_list free
            (λ q c. ap (λ k. k.next_free) (constructed_others q (v.housed q c))) v.chain;
      based = pos;
      apart = λ p f. elim (eq_cases (count p free) 0) [
        | inl e ↦ e
        | inr n ↦ absurd (outside p (v.housed p (omega arith)) (omega (arith, f.0)) f.1)
      ];
      housed = λ p c. inr (v.housed p c);
      grows = omega arith;
    };
    roomy = omega (arith, v.grows);
    houses = λ p i. inr i;
    fresh = λ p f i. outside p i (omega (arith, f.0)) f.1;
    others = constructed_others;
    unmarked = constructed_clean;
  }

-- A slot is left exactly when `hasFreeSlot` says so.
pub has_free_slot-slots :
    (h : Heap) (a : Allocator) (free : List Ptr)
    → IsAllocator h a free
    → has_free_slot a ≡ ltb 0 (slots a free)
unfolding has_free_slot
has_free_slot-slots h a [] v =
    let e : (a.free_list == null) ≡ true = ground (arith, v.chain) in rw e (ground arith)
has_free_slot-slots h a (x ∷ xs) v =
    let e : (a.free_list == null) ≡ false = ground (arith, v.chain.0, v.chain.1) in
    rw e (ground arith)
