-- ===== src/Handle/Counts.antt =====
-- The reference counts of nodes are the numbers of handles on them.
use nanobdd.Base.{
  ℕ, ◌+◌, ◌%◌, ◌^◌, ◌<◌, fun_ext, ◌≡◌, ◌≢◌, ◌==◌, true, false, eq_cases, inl, inr, List, ◌∷◌, count,
  arith, refl,
}
use nanobdd.Node.{Ptr, null, Heap, ref, deref}
use nanobdd.Handle.{copy, release, destroy, copy_assign, move_assign}

-- Every node's count is, in 32 bits, what `base` holds of it and the number of handles on it.
abbrev pub IsCounted : Heap → (Ptr → ℕ) → List Ptr → Type 0
IsCounted h base handles =
    (p : Ptr) → p ≢ null → (h p).ref_count ≡ (base p + count p handles) % 2 ^ 32

module _ (h : Heap) (base : Ptr → ℕ) (handles : List Ptr) (root : Ptr) where
  ref-IsCounted : IsCounted h base handles → IsCounted (ref h root) base (root ∷ handles)
  unfolding ref
  ref-IsCounted c p n = elim (eq_cases p root) [
    | inl e ↦ ground (arith, c p n, e)
    | inr d ↦ ground (arith, c p n, d)
  ]

  deref-IsCounted : IsCounted h base (root ∷ handles) → IsCounted (deref h root) base handles
  unfolding deref
  deref-IsCounted c p n = elim (eq_cases p root) [
    | inl e ↦ ground (arith, c p n, e)
    | inr d ↦ ground (arith, c p n, d)
  ]

  release-IsCounted : IsCounted h base (root ∷ handles) → IsCounted (release root h) base handles
  unfolding release
  release-IsCounted c = elim (eq_cases root null) [
    | inl e ↦ let b : (root == null) ≡ true = ground arith in rw b (λ p n. ground (arith, c p n))
    | inr d ↦ let b : (root == null) ≡ false = ground (arith, d) in rw b (deref-IsCounted c)
  ]

module _ (h : Heap) (base : Ptr → ℕ) (handles : List Ptr) (root other : Ptr)
    (c : IsCounted h base (root ∷ other ∷ handles)) where
  copied-IsCounted : IsCounted (copy other h).1 base (root ∷ other ∷ other ∷ handles)
  unfolding copy
  copied-IsCounted = elim (eq_cases other null) [
    | inl e ↦ let b : (other == null) ≡ true = ground arith in rw b (λ p n. ground (arith, c p n))
    | inr d ↦
        let b : (other == null) ≡ false = ground (arith, d) in
        rw b (λ p n. ground (arith, ref-IsCounted h base (root ∷ other ∷ handles) other c p n))
  ]

  -- If the counts of nodes are the numbers of handles, modulo 2 ^ 32, then after a handle is assigned
  -- from another one by copy it holds the other's root and they still are; null roots included.
  pub copy_assign-IsCounted :
      ((copy_assign false root other h).0 ≡ other)
      × IsCounted (copy_assign false root other h).1 base (other ∷ other ∷ handles)
  unfolding copy_assign copy
  copy_assign-IsCounted = (
    refl,
    release-IsCounted (copy other h).1 base (other ∷ other ∷ handles) root copied-IsCounted,
  )

  -- If the counts of nodes are the numbers of handles, modulo 2 ^ 32, then after a handle is assigned
  -- from another one by move it holds the other's root, the other holds null, and they still are.
  pub move_assign-IsCounted :
      ((move_assign false root other h).0 ≡ other)
      × ((move_assign false root other h).1 ≡ null)
      × IsCounted (move_assign false root other h).2 base (other ∷ null ∷ handles)
  unfolding move_assign
  move_assign-IsCounted =
      (refl, refl, λ p n. ground (arith, release-IsCounted h base (other ∷ handles) root c p n))

-- If the node's count is a 32-bit number, destroying a copy of a handle gives back the memory as it
-- was before the copy; a null root included.
pub destroy-copy :
    (h : Heap) (root : Ptr)
    → (h root).ref_count < 2 ^ 32
    → destroy true (copy root h).0 (copy root h).1 ≡ h
unfolding destroy release copy deref ref
destroy-copy h root small = fun_ext λ p. ground (arith, eq_cases p root)
