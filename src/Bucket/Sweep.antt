-- ===== src/Bucket/Sweep.antt =====
-- `sweepNodes` and `unmarkNodes` over a chain: what stays, what goes, and which marks are left.
use nanobdd.Base.{
  ◌+◌, ◌≡◌, ◌==◌, if◌then◌else◌, Bool, false, not, ◌&&◌, eq_cases, inl, inr, List, [], ◌∷◌, ◌++◌,
  count, count-append, length, length-append, arith, refl,
}
use nanobdd.Node.{Ptr, Heap, set_in_use}
use nanobdd.Node.Marking.{IsMarked, IsRemarked, IsRemarked-set}
use nanobdd.Bucket.{Bucket, sweep_nodes, unmark_nodes}

-- The test of the sweep.
abbrev pub is_dead : Heap → Ptr → Bool
is_dead h p = not (h p).in_use && ((h p).ref_count == 0)

module _ (h : Heap) where
  pub sweep_nodes-kept :
      (b : Bucket) (freed : List Ptr) (q : Ptr)
      → count q (sweep_nodes h b freed).kept ≡ (if is_dead h q then 0 else count q b)
  unfolding sweep_nodes
  sweep_nodes-kept [] freed q = ground arith
  sweep_nodes-kept (p ∷ ps) freed q = elim (eq_cases q p) [
    | inl e ↦
        ground (arith, e, sweep_nodes-kept ps freed q, sweep_nodes-kept ps (freed ++ p ∷ []) q)
    | inr n ↦
        ground (arith, n, sweep_nodes-kept ps freed q, sweep_nodes-kept ps (freed ++ p ∷ []) q)
  ]

  pub sweep_nodes-freed :
      (b : Bucket) (freed : List Ptr) (q : Ptr)
      → count q (sweep_nodes h b freed).freed
        ≡ count q freed + (if is_dead h q then count q b else 0)
  unfolding sweep_nodes
  sweep_nodes-freed [] freed q = ground arith
  sweep_nodes-freed (p ∷ ps) freed q = ground (
    arith,
    eq_cases q p,
    sweep_nodes-freed ps freed q,
    sweep_nodes-freed ps (freed ++ p ∷ []) q,
    count-append q freed (p ∷ []),
  )

  pub sweep_nodes-removed :
      (b : Bucket) (freed : List Ptr)
      → length (sweep_nodes h b freed).kept + (sweep_nodes h b freed).removed ≡ length b
  unfolding sweep_nodes
  sweep_nodes-removed [] freed = refl
  sweep_nodes-removed (p ∷ ps) freed =
      ground (arith, sweep_nodes-removed ps freed, sweep_nodes-removed ps (freed ++ p ∷ []))

  pub sweep_nodes-length :
      (b : Bucket) (freed : List Ptr)
      → length (sweep_nodes h b freed).freed ≡ length freed + (sweep_nodes h b freed).removed
  unfolding sweep_nodes
  sweep_nodes-length [] freed = omega arith
  sweep_nodes-length (p ∷ ps) freed = ground (
    arith,
    sweep_nodes-length ps freed,
    sweep_nodes-length ps (freed ++ p ∷ []),
    length-append {0} freed (p ∷ []),
  )

  pub unmark_nodes-IsRemarked :
      (g : Heap) (b : Bucket) → IsRemarked h g → IsRemarked h (unmark_nodes g b)
  unfolding unmark_nodes
  unmark_nodes-IsRemarked g [] r = r
  unmark_nodes-IsRemarked g (p ∷ ps) r =
      unmark_nodes-IsRemarked (set_in_use g p false) ps (IsRemarked-set h g p false r)

-- A mark that is left was there before, on no node of the chain.
pub unmark_nodes-IsMarked :
    (g : Heap) (b : Bucket) (q : Ptr)
    → IsMarked (unmark_nodes g b) q
    → IsMarked g q × (count q b ≡ 0)
unfolding unmark_nodes
unmark_nodes-IsMarked g [] q m = (m, refl)
unmark_nodes-IsMarked g (p ∷ ps) q m =
    let (before, none) = unmark_nodes-IsMarked (set_in_use g p false) ps q m in
    (ground arith, ground arith)
