-- ===== src/Node.antt =====
-- include/nanobdd/Node.h: the node, and the heap of nodes that the slabs provide.
pub mod Marking
use nanobdd.Base.{
  ℕ, zero, suc, ◌+◌, ◌-◌, ◌%◌, ◌^◌, Bool, true, false, ◌==◌, if◌then◌else◌, Run, ok, no_fuel, fault,
  ◌>>=◌,
}

-- A pointer to a node: the number of its cell. `null` is `nullptr`.
abbrev pub Ptr : Type 0
Ptr = ℕ

abbrev pub null : Ptr
null = 0

pub record Node : Type 0 where
  pub ref_count : ℕ
  pub level : ℕ
  pub low : Ptr
  pub high : Ptr
  pub in_use : Bool
  pub next_free : Ptr

-- `Node()`
abbrev pub new : Node
new = record { ref_count = 0; level = 0; low = null; high = null; in_use = false; next_free = null }

abbrev pub Heap : Type 0
Heap = Ptr → Node

abbrev pub write : Heap → Ptr → Node → Heap
write h p n q = if q == p then n else h q

-- `*p`, a fault at `nullptr`
abbrev pub load : Heap → Ptr → Run Node
load h p = if p == null then fault else ok (h p)

-- `fetch_add(1)` and `fetch_sub(1)` on an `atomic_uint32_t`
unfoldable pub ref : Heap → Ptr → Heap
ref h p = write h p (record (h p) { ref_count = ((h p).ref_count + 1) % 2 ^ 32 })

unfoldable pub deref : Heap → Ptr → Heap
deref h p = write h p (record (h p) { ref_count = ((h p).ref_count + 2 ^ 32 - 1) % 2 ^ 32 })

abbrev pub set_in_use : Heap → Ptr → Bool → Heap
set_in_use h p b = write h p (record (h p) { in_use = b })

unfoldable pub mark_rec : ℕ → Heap → Ptr → Run Heap
mark_rec zero h p = no_fuel
mark_rec (suc fuel) h p = elim (h p).in_use [
  | true ↦ ok h
  | false ↦
      let h1 = set_in_use h p true in
      let mark_low = mark_rec fuel h1 (h1 p).low in
      (if (h1 p).low == null then ok h1 else mark_low) >>= λ h2.
      let mark_high = mark_rec fuel h2 (h2 p).high in
      if (h2 p).high == null then ok h2 else mark_high
]

unfoldable pub unmark : Heap → Ptr → Heap
unmark h p = if (h p).in_use then set_in_use h p false else h
