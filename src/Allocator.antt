-- ===== src/Allocator.antt =====
-- src/NodeAllocator.h and src/NodeAllocator.cpp: slabs of nodes and a free list that is threaded
-- through the nodes. The atomic exchanges are modelled as in a single thread, where they succeed.
pub mod FreeList
pub mod Release
pub mod Growth
use nanobdd.Base.{ℕ, ◌+◌, ◌*◌, max, Bool, true, false, ◌==◌, ltb, if◌then◌else◌, List, [], ◌∷◌}
use nanobdd.Node.{Ptr, null, Node, new, Heap, write}

-- The cells of a slab are numbered from `base`.
pub record Slab : Type 0 where
  pub base : Ptr
  pub capacity : ℕ
  pub next : ℕ

-- Where `make_unique<Node[]>(n)` puts its array, beside the slabs that there are.
abbrev pub Place : Type 0
Place = List Slab → ℕ → Ptr

-- `slabs_` without its last element, the latest first; that element is `current`, to which
-- `currentSlab_` points.
pub record Allocator : Type 0 where
  pub full : List Slab
  pub current : Slab
  pub free_list : Ptr
  pub next_slab_capacity : ℕ
  pub growth_factor : ℕ

-- The nodes of a new slab are built by `Node()`.
unfoldable pub construct : Heap → Ptr → ℕ → Heap
construct h base capacity p =
    if ltb p base then h p else if ltb p (base + capacity) then new else h p

unfoldable pub create : Place → Heap → ℕ → ℕ → Heap × Allocator
unfolding construct
create place h initial_capacity growth_factor =
    let capacity = max 1 initial_capacity in
    let factor = max 2 growth_factor in
    let base = place [] capacity in
    (
      construct h base capacity,
      record {
        full = [];
        current = record { base = base; capacity = capacity; next = 0 };
        free_list = null;
        next_slab_capacity = max (capacity * factor) 1;
        growth_factor = factor;
      },
    )

-- `resetNode`
abbrev pub reset : ℕ → Ptr → Ptr → Node
reset level low high = record {
  ref_count = 0;
  level = level;
  low = low;
  high = high;
  in_use = false;
  next_free = null;
}

unfoldable pub pop_free : Heap → Allocator → Ptr × Heap × Allocator
pop_free h a = if a.free_list == null then (null, h, a) else (
  a.free_list,
  write h a.free_list (record (h a.free_list) { next_free = null }),
  record a { free_list = (h a.free_list).next_free },
)

unfoldable pub push_free : Heap → Allocator → Ptr → Heap × Allocator
push_free h a p = (write h p (record (h p) { next_free = a.free_list }), record a { free_list = p })

unfoldable pub allocate_from_slab : Heap → Slab → ℕ → Ptr → Ptr → Ptr × Heap × Slab
allocate_from_slab h s level low high =
    if ltb s.next s.capacity
    then (
      s.base + s.next,
      write h (s.base + s.next) (reset level low high),
      record s { next = s.next + 1 },
    )
    else (null, h, s)

-- `null` if the free list is empty and the slab is full
unfoldable pub allocate : Heap → Allocator → ℕ → Ptr → Ptr → Ptr × Heap × Allocator
unfolding pop_free allocate_from_slab
allocate h a level low high =
    let (reused, h1, a1) = pop_free h a in
    if reused == null
    then (let (fresh, h2, slab) = allocate_from_slab h1 a1.current level low high in
        (fresh, h2, record a1 { current = slab }))
    else (reused, write h1 reused (reset level low high), a1)

unfoldable pub free : Heap → Allocator → Ptr → Heap × Allocator
unfolding push_free
free h a p =
    if p == null
    then (h, a)
    else push_free
        (write h p (record (h p) { low = null; high = null; in_use = false; ref_count = 0 })) a p

unfoldable pub free_all : Heap → Allocator → List Ptr → Heap × Allocator
free_all h a [] = (h, a)
free_all h a (p ∷ ps) = let (h1, a1) = free h a p in free_all h1 a1 ps

unfoldable pub has_free_slot : Allocator → Bool
has_free_slot a = if a.free_list == null then ltb a.current.next a.current.capacity else true

sum_capacity : List Slab → ℕ
sum_capacity [] = 0
sum_capacity (s ∷ ss) = s.capacity + sum_capacity ss

unfoldable pub capacity : Allocator → ℕ
unfolding sum_capacity
capacity a = sum_capacity (a.current ∷ a.full)

unfoldable pub grow : Place → Heap → Allocator → Heap × Allocator
unfolding construct
grow place h a =
    let base = place (a.current ∷ a.full) a.next_slab_capacity in
    (
      construct h base a.next_slab_capacity,
      record a {
        full = a.current ∷ a.full;
        current = record { base = base; capacity = a.next_slab_capacity; next = 0 };
        next_slab_capacity = max (a.next_slab_capacity * a.growth_factor) 1;
      },
    )
