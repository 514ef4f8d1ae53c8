-- ===== src/Allocator/FreeList.antt =====
-- The free list as a chain of cells, and what `allocate` does to the cells that are not in use.
use nanobdd.Base.{
  ℕ, ◌+◌, ◌-◌, ◌≤◌, ◌<◌, ◌≡◌, ◌≢◌, refl, List, [], ◌∷◌, length, count, arith, ◌⊎◌, inl, inr,
}
use nanobdd.Node.{Ptr, null, Node, Heap, write}
use nanobdd.Allocator.{Slab, Allocator, reset, allocate}

-- From `p` the `next_free` pointers lead through the distinct cells `free` to `null`.
abbrev pub Chain : Heap → Ptr → List Ptr → Type 0
Chain h p [] = p ≡ null
Chain h p (x ∷ xs) = (p ≡ x) × (x ≢ null) × (count x xs ≡ 0) × Chain h (h x).next_free xs

-- A cell of the slab that has not been handed out.
abbrev pub IsFresh : Slab → Ptr → Type 0
IsFresh s p = (s.base + s.next ≤ p) × (p < s.base + s.capacity)

-- The cell lies in one of the slabs.
abbrev pub Inside : List Slab → Ptr → Type 0
Inside [] p = ⊥
Inside (s ∷ ss) p = ((s.base ≤ p) × (p < s.base + s.capacity)) ⊎ Inside ss p

abbrev pub IsHoused : Allocator → Ptr → Type 0
IsHoused a p = Inside (a.current ∷ a.full) p

abbrev pub IsIdle : Allocator → List Ptr → Ptr → Type 0
IsIdle a free p = (0 < count p free) ⊎ IsFresh a.current p

-- How many nodes can be allocated before maintenance.
abbrev pub slots : Allocator → List Ptr → ℕ
slots a free = length free + (a.current.capacity - a.current.next)

pub record IsAllocator (h : Heap) (a : Allocator) (free : List Ptr) : Type 0 where
  pub chain : Chain h a.free_list free
  pub based : 0 < a.current.base
  pub apart : (p : Ptr) → IsFresh a.current p → count p free ≡ 0
  pub housed : (p : Ptr) → 0 < count p free → IsHoused a p
  pub grows : 0 < a.next_slab_capacity

-- An idle cell lies in a slab.
pub IsIdle-IsHoused :
    (h : Heap) (a : Allocator) (free : List Ptr) (p : Ptr)
    → IsAllocator h a free
    → IsIdle a free p
    → IsHoused a p
IsIdle-IsHoused h a free p v (inl c) = v.housed p c
IsIdle-IsHoused h a free p v (inr f) = inl (omega arith, f.1)

-- A change of other cells keeps the chain.
pub Chain-frame :
    (h g : Heap) (p : Ptr) (xs : List Ptr)
    → ((q : Ptr) → 0 < count q xs → (g q).next_free ≡ (h q).next_free)
    → Chain h p xs
    → Chain g p xs
Chain-frame h g p [] same c = c
Chain-frame h g p (x ∷ xs) same c = (
  c.0,
  c.1,
  c.2,
  rw (same x (ground arith)) (Chain-frame h g (h x).next_free xs (λ q d. same q (omega arith)) c.3),
)

-- `allocate` hands out an idle cell and fills it, and keeps every other cell as it is.
pub record Allocated (h : Heap) (a : Allocator) (free : List Ptr) (node : Node)
    (r : Ptr × Heap × Allocator) : Type 0 where
  pub left : List Ptr
  pub rest : IsAllocator r.1 r.2 left
  pub ne_null : r.0 ≢ null
  pub was_idle : IsIdle a free r.0
  pub still : (p : Ptr) → IsIdle r.2 left p → IsIdle a free p × (p ≢ r.0)
  pub fewer : slots r.2 left + 1 ≡ slots a free
  pub filled : r.1 r.0 ≡ node
  pub others : (p : Ptr) → p ≢ r.0 → r.1 p ≡ h p
  pub houses : (p : Ptr) → IsHoused a p → IsHoused r.2 p

module _ (h : Heap) (a : Allocator) (level : ℕ) (low high : Ptr) where
  allocate_reused :
      (x : Ptr)
      → a.free_list ≡ x
      → x ≢ null
      → allocate h a level low high ≡ (
        x,
        write (write h x (record (h x) { next_free = null })) x (reset level low high),
        record a { free_list = (h x).next_free },
      )
  unfolding allocate
  allocate_reused x e n = ground arith

  allocate_fresh :
      a.free_list ≡ null
      → a.current.next < a.current.capacity
      → 0 < a.current.base
      → allocate h a level low high ≡ (
        a.current.base + a.current.next,
        write h (a.current.base + a.current.next) (reset level low high),
        record a { current = record a.current { next = a.current.next + 1 } },
      )
  unfolding allocate
  allocate_fresh e r b = ground arith

  allocate-reuse :
      (x : Ptr) (xs : List Ptr)
      → IsAllocator h a (x ∷ xs)
      → Allocated h a (x ∷ xs) (reset level low high) (allocate h a level low high)
  allocate-reuse x xs v = rw (allocate_reused x v.chain.0 v.chain.1) (record {
    left = xs;
    rest = record {
      chain =
          Chain-frame h
            (write (write h x (record (h x) { next_free = null })) x (reset level low high))
            (h x).next_free xs (λ q c. ground arith) v.chain.3;
      based = v.based;
      apart = λ p f. ground (arith, v.apart p f);
      housed = λ p c. v.housed p (omega arith);
      grows = v.grows;
    };
    ne_null = v.chain.1;
    was_idle = inl (ground arith);
    still = λ p d. ground (arith, v.apart p);
    fewer = omega arith;
    filled = ground arith;
    others = λ p n. ground arith;
    houses = λ p i. i;
  })

  allocate-fresh :
      IsAllocator h a []
      → 0 < slots a []
      → Allocated h a [] (reset level low high) (allocate h a level low high)
  allocate-fresh v room = rw (allocate_fresh v.chain (omega arith) v.based) (record {
    left = [];
    rest = record {
      chain = v.chain;
      based = v.based;
      apart = λ p f. refl;
      housed = λ p c. absurd (omega arith);
      grows = v.grows;
    };
    ne_null = omega arith;
    was_idle = inr (omega arith, omega arith);
    still = λ p d. ground arith;
    fewer = omega arith;
    filled = ground arith;
    others = λ p n. ground arith;
    houses = λ p i. i;
  })

-- If `free` lists the free list, and a slot is left, `allocate` returns an idle cell, not null, with
-- the given fields; the other cells keep their nodes, the cell is no longer idle and no cell becomes
-- so, the free list is still a list, and there is one slot less.
pub allocate-Allocated :
    (h : Heap) (a : Allocator) (free : List Ptr) (level : ℕ) (low high : Ptr)
    → IsAllocator h a free
    → 0 < slots a free
    → Allocated h a free (reset level low high) (allocate h a level low high)
allocate-Allocated h a [] level low high v room = allocate-fresh h a level low high v room
allocate-Allocated h a (x ∷ xs) level low high v room = allocate-reuse h a level low high x xs v
