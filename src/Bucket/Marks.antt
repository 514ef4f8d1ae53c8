-- ===== src/Bucket/Marks.antt =====
-- `markNodes` over a chain, and over all chains: what the protected nodes reach is marked.
use nanobdd.Base.{
  ℕ, ◌<◌, ◌≡◌, ◌≢◌, ◌⊎◌, inl, inr, true, false, ◌==◌, if◌then◌else◌, eq_cases, [], ◌∷◌, count, ok,
  Returns, arith, refl, sym, subst,
}
use nanobdd.Node.{Ptr, Heap, mark_rec}
use nanobdd.Node.Marking.{
  IsMarked, Reaches, IsRemarked, IsAcyclic, Marks, Marks-refl, Marks-trans, mark_rec-Searched,
}
use nanobdd.Bucket.{Bucket, mark_nodes}

module _ (h : Heap) where
  -- A node of `In` with a reference count leads to the node.
  abbrev pub ReachedFrom : (Ptr → Type 0) → Ptr → Type 0
  ReachedFrom In q = (r : Ptr) × In r × ((h r).ref_count ≢ 0) × Reaches h r q

  abbrev pub MarksRoots : (Ptr → Type 0) → Heap → Heap → Type 0
  MarksRoots In g g' =
      Marks h (ReachedFrom In) g g' × ((p : Ptr) → In p → (h p).ref_count ≢ 0 → IsMarked g' p)

  -- One set of roots after another.
  pub MarksRoots-trans :
      (A B C : Ptr → Type 0) (g g' g'' : Heap)
      → ((p : Ptr) → A p → C p)
      → ((p : Ptr) → B p → C p)
      → ((p : Ptr) → C p → A p ⊎ B p)
      → MarksRoots A g g'
      → MarksRoots B g' g''
      → MarksRoots C g g''
  MarksRoots-trans A B C g g' g'' left right split (a, first) (b, second) = (
    Marks-trans h (ReachedFrom A) (ReachedFrom B) (ReachedFrom C) g g' g''
        (λ q (r, x, n, y). (r, left r x, n, y)) (λ q (r, x, n, y). (r, right r x, n, y)) a b,
    λ p c n. elim (split p c) [ inl x ↦ b.grows p (first p x n) | inr x ↦ second p x n ],
  )

  module _ (Member : Ptr → Type 0) (rank : Ptr → ℕ) (acyclic : IsAcyclic h Member rank) (fuel : ℕ)
      (enough : (p : Ptr) → rank p < fuel) where
    -- The step for one node of the chain.
    mark_root-MarksRoots :
        (g : Heap) (p : Ptr)
        → Member p
        → IsRemarked h g
        → Returns
            (if (g p).ref_count == 0 then ok g else mark_rec fuel g p)
            (MarksRoots (λ q. q ≡ p) g)
    mark_root-MarksRoots g p m r = elim (eq_cases (h p).ref_count 0) [
      | inl z ↦
          let b : ((g p).ref_count == 0) ≡ true = ground (arith, r.ref_count p) in
          (
            g,
            rw b,
            (Marks-refl h _ g r, λ q e n. absurd (n (subst (λ k. (h k).ref_count ≡ 0) (sym e) z))),
          )
      | inr n ↦
          let b : ((g p).ref_count == 0) ≡ false = ground (arith, n, r.ref_count p) in
          let (g', run, (k, e)) = mark_rec-Searched h Member rank acyclic fuel g p m (enough p) r in
          (
            g',
            rw (b, run),
            (
              record {
                remarked = k.remarked;
                grows = k.grows;
                closed = k.closed;
                sound = λ q c. elim (k.sound q c) [ inl a ↦ inl a | inr a ↦ inr (p, refl, n, a) ];
              },
              λ q same _. subst (IsMarked g') (sym same) e,
            ),
          )
    ]

    pub mark_nodes-MarksRoots :
        (g : Heap) (b : Bucket)
        → ((p : Ptr) → 0 < count p b → Member p)
        → IsRemarked h g
        → Returns (mark_nodes fuel g b) (MarksRoots (λ p. 0 < count p b) g)
    unfolding mark_nodes
    mark_nodes-MarksRoots g [] members r =
        (g, refl, (Marks-refl h _ g r, λ p lt n. absurd (omega arith)))
    mark_nodes-MarksRoots g (x ∷ xs) members r =
        let (g1, run1, a) = mark_root-MarksRoots g x (members x (ground arith)) r in
        let (g2, run2, b) =
          mark_nodes-MarksRoots g1 xs (λ p lt. members p (omega arith)) a.0.remarked in
        (
          g2,
          rw (run1, run2),
          MarksRoots-trans (λ p. p ≡ x) (λ p. 0 < count p xs) (λ p. 0 < count p (x ∷ xs)) g g1 g2
              (λ p e. ground arith) (λ p lt. omega arith)
              (λ p lt. elim (eq_cases p x) [ inl e ↦ inl e | inr n ↦ inr (ground (arith, n)) ]) a b,
        )
