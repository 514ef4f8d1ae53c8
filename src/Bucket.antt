-- ===== src/Bucket.antt =====
-- src/Bucket.h: a chain of the hash table, a vector of node pointers. The bucket's lock is not
-- modelled: an operation of this file is one critical section.
pub mod Search
pub mod Marks
pub mod Sweep
use nanobdd.Base.{
  ℕ, ◌+◌, Bool, true, false, not, ◌&&◌, ◌==◌, if◌then◌else◌, List, [], ◌∷◌, ◌++◌, length, Run, ok,
  ◌>>=◌,
}
use nanobdd.Node.{Ptr, null, Heap, mark_rec, set_in_use}

abbrev pub Bucket : Type 0
Bucket = List Ptr

-- The test of both search loops.
abbrev pub matches : Heap → ℕ → Ptr → Ptr → Ptr → Bool
matches h level low high p = ((h p).low == low) && ((h p).high == high) && ((h p).level == level)

-- `null` if there is no such node
unfoldable pub find : Heap → ℕ → Ptr → Ptr → Bucket → Ptr
find h level low high [] = null
find h level low high (p ∷ ps) = if matches h level low high p then p else find h level low high ps

-- The second component says whether the candidate was inserted, the third is the new chain.
unfoldable pub insert_if_absent : Heap → ℕ → Ptr → Ptr → Ptr → Bucket → Ptr × Bool × Bucket
insert_if_absent h level low high candidate [] = (candidate, true, candidate ∷ [])
insert_if_absent h level low high candidate (p ∷ ps) =
    let rest = insert_if_absent h level low high candidate ps in
    if matches h level low high p then (p, false, p ∷ ps) else (rest.0, rest.1, p ∷ rest.2)

unfoldable pub num_nodes : Bucket → ℕ
num_nodes = length

unfoldable pub mark_nodes : ℕ → Heap → Bucket → Run Heap
mark_nodes fuel h [] = ok h
mark_nodes fuel h (p ∷ ps) =
    (if (h p).ref_count == 0 then ok h else mark_rec fuel h p) >>= λ h'. mark_nodes fuel h' ps

-- What a sweep leaves in the chain, the nodes that it appends to `freed`, and their number.
pub record Swept : Type 0 where
  pub kept : Bucket
  pub freed : List Ptr
  pub removed : ℕ

unfoldable pub sweep_nodes : Heap → Bucket → List Ptr → Swept
sweep_nodes h [] freed = record { kept = []; freed = freed; removed = 0 }
sweep_nodes h (p ∷ ps) freed =
    let dead = not (h p).in_use && ((h p).ref_count == 0) in
    let rest = sweep_nodes h ps (if dead then freed ++ p ∷ [] else freed) in
    if dead
    then record rest { removed = rest.removed + 1 }
    else record rest { kept = p ∷ rest.kept }

unfoldable pub unmark_nodes : Heap → Bucket → Heap
unmark_nodes h [] = h
unmark_nodes h (p ∷ ps) = unmark_nodes (set_in_use h p false) ps

-- `out` with the nodes of the chain behind it; the chain is left empty
unfoldable pub extract_all_nodes : Bucket → List Ptr → List Ptr × Bucket
extract_all_nodes nodes out = (out ++ nodes, [])

unfoldable pub insert_existing : Bucket → Ptr → Bucket
insert_existing nodes p = nodes ++ p ∷ []
