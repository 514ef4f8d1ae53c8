-- ===== src/Bucket/Search.antt =====
-- The two searches of a chain: what `find` returns, and when `insert_if_absent` appends.
use nanobdd.Base.{
  ℕ, ◌<◌, ◌≡◌, ◌≢◌, refl, true, false, [], ◌∷◌, ◌++◌, count, arith, ◌⊎◌, inl, inr, Bool-cases,
  subst,
}
use nanobdd.Node.{Ptr, null, Heap}
use nanobdd.Bucket.{Bucket, matches, find, insert_if_absent}

-- No node of the chain has these fields.
abbrev pub Absent : Heap → ℕ → Ptr → Ptr → Bucket → Type 0
Absent h level low high ps = (p : Ptr) → 0 < count p ps → matches h level low high p ≡ false

-- The outcome of a search: `null` and no such node, or a node of the chain with these fields.
abbrev pub Found : Heap → ℕ → Ptr → Ptr → Bucket → Ptr → Type 0
Found h level low high ps r =
    ((r ≡ null) × Absent h level low high ps)
    ⊎ ((r ≢ null) × (0 < count r ps) × (matches h level low high r ≡ true))

module _ (h : Heap) (level : ℕ) (low high : Ptr) where
  Found-cons :
      (p : Ptr) (ps : Bucket) (r : Ptr)
      → matches h level low high p ≡ false
      → Found h level low high ps r
      → Found h level low high (p ∷ ps) r
  Found-cons p ps r e (inl (n, a)) = inl (n, λ q c. ground (arith, a q))
  Found-cons p ps r e (inr (n, c, m)) = inr (n, omega arith, m)

  find_here :
      (p : Ptr) (ps : Bucket)
      → matches h level low high p ≡ true
      → p ≡ find h level low high (p ∷ ps)
  unfolding find
  find_here p ps e = rw e

  find_later :
      (p : Ptr) (ps : Bucket)
      → matches h level low high p ≡ false
      → find h level low high ps ≡ find h level low high (p ∷ ps)
  unfolding find
  find_later p ps e = rw e

  -- What `find` returns.
  pub find-Found :
      (ps : Bucket) → count null ps ≡ 0 → Found h level low high ps (find h level low high ps)
  unfolding find
  find-Found [] z = inl (refl, λ p c. absurd (omega arith))
  find-Found (p ∷ ps) z = elim (Bool-cases (matches h level low high p)) [
    | inl e ↦
        subst (Found h level low high (p ∷ ps)) (find_here p ps e)
          (inr (ground arith, ground arith, e))
    | inr e ↦
        subst (Found h level low high (p ∷ ps)) (find_later p ps e)
          (Found-cons p ps _ e (find-Found ps (omega arith)))
  ]

  pub insert_if_absent-append :
      (candidate : Ptr) (ps : Bucket)
      → Absent h level low high ps
      → insert_if_absent h level low high candidate ps ≡ (candidate, true, ps ++ candidate ∷ [])
  unfolding insert_if_absent
  insert_if_absent-append c [] a = refl
  insert_if_absent-append c (p ∷ ps) a =
      rw (a p (ground arith), insert_if_absent-append c ps (λ q d. a q (omega arith)))
