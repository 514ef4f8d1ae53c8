-- ===== src/Tests/Sample.antt =====
-- A platform whose memory is handed out in order, and a library of two variables on it.
use nanobdd.Base.{ℕ, ◌+◌, ◌*◌, ◌<◌, ◌≤◌, max, List, [], ◌∷◌, inl, arith, refl, Returns}
use nanobdd.Node.{Ptr, new, Heap}
use nanobdd.Allocator.{Slab}
use nanobdd.Allocator.Growth.{IsApart}
use nanobdd.Platform.{Platform, IsSane}
use nanobdd.Library.{Library, unloaded, init}
use nanobdd.Library.Counts.{Counts}
use nanobdd.Library.Start.{IsReady, IsStarted, init-IsStarted, get_var-Means}
use nanobdd.Allocator.FreeList.{slots}
use nanobdd.Table.State.{NodeTable}
use nanobdd.Table.Meaning.{Means}
use nanobdd.Table.Semantics.{IsValid}

abbrev top : List Slab → Ptr
top [] = 1
top (s ∷ ss) = max (s.base + s.capacity) (top ss)

instance abbrev pub bump : Platform
bump = record { address = λ p. p * 40; place = λ slabs n. top slabs; prime_gte = λ k. 2 * k + 1 }

top_pos : (slabs : List Slab) → 0 < top slabs
top_pos [] = omega arith
top_pos (s ∷ ss) = omega (arith, top_pos ss)

top-IsApart : (slabs : List Slab) (p : Ptr) (n : ℕ) → top slabs ≤ p → IsApart slabs p n
top-IsApart [] p n above = tt
top-IsApart (s ∷ ss) p n above = (inl (omega arith), top-IsApart ss p n (omega arith))

pub bump-IsSane : IsSane bump
bump-IsSane = record {
  place_pos = λ slabs n. top_pos slabs;
  place_apart = λ slabs n. top-IsApart slabs (top slabs) n (omega arith);
}

abbrev pub memory : Heap
memory p = new

pub two_variables : Returns (init memory 15 15 2 unloaded) (IsStarted 2 10)
two_variables =
    init-IsStarted bump-IsSane memory (λ p. refl) 15 15 2 10 (omega arith) (omega arith)
      (omega arith)

abbrev pub library : Library
library = two_variables.0

abbrev pub ready : IsReady 2 10 library
ready = two_variables.2.ready

abbrev pub t : NodeTable
t = ready.table

abbrev pub free_cells : List Ptr
free_cells = ready.all.left

pub t-IsValid : IsValid 2 t free_cells
t-IsValid = record { laid = ready.all.laid; sound = ready.all.sound }

pub room : 3 ≤ slots t.allocator free_cells
room = omega (arith, ready.all.free_slots)

abbrev pub x : Ptr
x = (get_var-Means 2 10 library ready 0 (omega arith)).0.0

abbrev pub y : Ptr
y = (get_var-Means 2 10 library ready 1 (omega arith)).0.0

pub x_means : Means 2 t x (λ e. e 0)
x_means = (get_var-Means 2 10 library ready 0 (omega arith)).0.2

pub y_means : Means 2 t y (λ e. e 1)
y_means = (get_var-Means 2 10 library ready 1 (omega arith)).0.2

-- its counts
pub counts : Counts 5 t
counts = two_variables.2.counts (omega arith)
