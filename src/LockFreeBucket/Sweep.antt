-- ===== src/LockFreeBucket/Sweep.antt =====
-- `freeNodes` keeps the nodes in use, in their order, and deletes the others.
use nanobdd.Base.{◌≡◌, if◌then◌else◌, Bool, true, false, Bool-cases, inl, inr, [], ◌∷◌, refl}
use nanobdd.Node.{Ptr, Heap}
use nanobdd.LockFreeBucket.{Chain, drop_unused, unlink_unused, free_behind, free_nodes}

-- The nodes whose mark is `value`.
abbrev marked_as : Bool → Heap → Chain → Chain
marked_as value h [] = []
marked_as true h (p ∷ ps) = if (h p).in_use then p ∷ marked_as true h ps else marked_as true h ps
marked_as false h (p ∷ ps) = if (h p).in_use then marked_as false h ps else p ∷ marked_as false h ps

unlink_unused-marked_as :
    (h : Heap) (chain : Chain)
    → unlink_unused h chain ≡ (marked_as true h chain, marked_as false h chain)
unfolding unlink_unused
unlink_unused-marked_as h [] = refl
unlink_unused-marked_as h (p ∷ ps) = elim (Bool-cases (h p).in_use) [
  | inl e ↦ rw (e, unlink_unused-marked_as h ps) refl
  | inr e ↦ rw (e, unlink_unused-marked_as h ps) refl
]

free_behind-cons :
    (h : Heap) (front deleted : Chain) (p : Ptr)
    → free_behind h front (p ∷ deleted)
      ≡ ((free_behind h front deleted).0, p ∷ (free_behind h front deleted).1)
free_behind-cons h [] deleted p = refl
free_behind-cons h (q ∷ qs) deleted p = refl

-- On every chain, `freeNodes` leaves the nodes in use and deletes the others, each in the order in
-- which they stood.
free_nodes-marked_as :
    (h : Heap) (chain : Chain)
    → free_nodes h chain ≡ (marked_as true h chain, marked_as false h chain)
unfolding free_nodes drop_unused
free_nodes-marked_as h [] = refl
free_nodes-marked_as h (p ∷ ps) = elim (Bool-cases (h p).in_use) [
  | inl e ↦ rw (e, unlink_unused-marked_as h ps) refl
  | inr e ↦
      let rest = drop_unused h ps in
      rw (e, free_behind-cons h rest.0 rest.1 p, free_nodes-marked_as h ps) refl
]
