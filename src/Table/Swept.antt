-- ===== src/Table/Swept.antt =====
-- The sweep over all chains, and the removal of the marks.
use nanobdd.Base.{
  ℕ, zero, suc, ◌+◌, ◌≡◌, if◌then◌else◌, List, [], ◌∷◌, count, count_all, total, length, get_or,
  arith, refl, ap,
}
use nanobdd.Node.{Ptr, null, Heap}
use nanobdd.Node.Marking.{IsMarked, IsRemarked}
use nanobdd.Bucket.{Bucket, sweep_nodes, unmark_nodes}
use nanobdd.Bucket.Sweep.{
  is_dead, sweep_nodes-kept, sweep_nodes-freed, sweep_nodes-removed, sweep_nodes-length,
  unmark_nodes-IsRemarked, unmark_nodes-IsMarked,
}
use nanobdd.Cache.{Cache, empty_entry, invalidate_all}
use nanobdd.Table.Collect.{sweep_all, unmark_all}

module _ (h : Heap) where
  pub sweep_all-chain :
      (bs : List Bucket) (freed : List Ptr) (i : ℕ) (q : Ptr)
      → count q (get_or (sweep_all h bs freed).chains i [])
        ≡ (if is_dead h q then 0 else count q (get_or bs i []))
  unfolding sweep_all
  sweep_all-chain [] freed i q = ground arith
  sweep_all-chain (b ∷ bs) freed zero q = sweep_nodes-kept h b freed q
  sweep_all-chain (b ∷ bs) freed (suc i) q = sweep_all-chain bs (sweep_nodes h b freed).freed i q

  pub sweep_all-count_all :
      (bs : List Bucket) (freed : List Ptr) (q : Ptr)
      → count_all q (sweep_all h bs freed).chains ≡ (if is_dead h q then 0 else count_all q bs)
  unfolding sweep_all
  sweep_all-count_all [] freed q = ground arith
  sweep_all-count_all (b ∷ bs) freed q =
      ground (
        arith,
        sweep_nodes-kept h b freed q,
        sweep_all-count_all bs (sweep_nodes h b freed).freed q,
      )

  pub sweep_all-freed :
      (bs : List Bucket) (freed : List Ptr) (q : Ptr)
      → count q (sweep_all h bs freed).freed
        ≡ count q freed + (if is_dead h q then count_all q bs else 0)
  unfolding sweep_all
  sweep_all-freed [] freed q = ground arith
  sweep_all-freed (b ∷ bs) freed q =
      ground
        (arith, sweep_nodes-freed h b freed q, sweep_all-freed bs (sweep_nodes h b freed).freed q)

  pub sweep_all-width :
      (bs : List Bucket) (freed : List Ptr) → length (sweep_all h bs freed).chains ≡ length bs
  unfolding sweep_all
  sweep_all-width [] freed = refl
  sweep_all-width (b ∷ bs) freed = ap suc (sweep_all-width bs (sweep_nodes h b freed).freed)

  pub sweep_all-total :
      (bs : List Bucket) (freed : List Ptr)
      → total (sweep_all h bs freed).chains + (sweep_all h bs freed).removed ≡ total bs
  unfolding sweep_all
  sweep_all-total [] freed = omega arith
  sweep_all-total (b ∷ bs) freed =
      omega (arith, sweep_nodes-removed h b freed, sweep_all-total bs (sweep_nodes h b freed).freed)

  pub sweep_all-length :
      (bs : List Bucket) (freed : List Ptr)
      → length (sweep_all h bs freed).freed ≡ length freed + (sweep_all h bs freed).removed
  unfolding sweep_all
  sweep_all-length [] freed = omega arith
  sweep_all-length (b ∷ bs) freed =
      omega (arith, sweep_nodes-length h b freed, sweep_all-length bs (sweep_nodes h b freed).freed)

  pub unmark_all-IsRemarked :
      (g : Heap) (bs : List Bucket) → IsRemarked h g → IsRemarked h (unmark_all g bs)
  unfolding unmark_all
  unmark_all-IsRemarked g [] r = r
  unmark_all-IsRemarked g (b ∷ bs) r =
      unmark_all-IsRemarked (unmark_nodes g b) bs (unmark_nodes-IsRemarked h g b r)

pub unmark_all-IsMarked :
    (g : Heap) (bs : List Bucket) (q : Ptr)
    → IsMarked (unmark_all g bs) q
    → IsMarked g q × (count_all q bs ≡ 0)
unfolding unmark_all
unmark_all-IsMarked g [] q m = (m, refl)
unmark_all-IsMarked g (b ∷ bs) q m =
    let (before, rest) = unmark_all-IsMarked (unmark_nodes g b) bs q m in
    let (first, none) = unmark_nodes-IsMarked g b q before in (first, omega arith)

pub length-invalidate_all : (c : Cache) → length (invalidate_all c) ≡ length c
unfolding invalidate_all
length-invalidate_all [] = refl
length-invalidate_all (e ∷ es) = ap suc (length-invalidate_all es)

pub get_or-invalidate_all :
    (c : Cache) (i : ℕ) → (get_or (invalidate_all c) i empty_entry).node ≡ null
unfolding invalidate_all
get_or-invalidate_all [] i = refl
get_or-invalidate_all (e ∷ es) zero = refl
get_or-invalidate_all (e ∷ es) (suc i) = get_or-invalidate_all es i
