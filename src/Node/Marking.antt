-- ===== src/Node/Marking.antt =====
-- `markRec` as a depth-first search: what it marks, over a heap whose graph has no cycle.
use nanobdd.Base.{
  ℕ, zero, suc, ◌<◌, ◌≡◌, ◌≢◌, ◌⊎◌, inl, inr, Bool, true, false, ◌==◌, if◌then◌else◌, eq_cases,
  Bool-cases, Run, ok, Returns, arith, refl, sym, subst,
}
use nanobdd.Node.{Ptr, null, Heap, set_in_use, mark_rec}

abbrev pub IsMarked : Heap → Ptr → Type 0
IsMarked g p = (g p).in_use ≡ true

abbrev pub IsMarkedChild : Heap → Ptr → Type 0
IsMarkedChild g p = (p ≡ null) ⊎ IsMarked g p

module _ (h : Heap) where
  -- From the first node the children lead to the second.
  pub data Reaches : Ptr → Ptr → Type 0 where
    here : {p : Ptr} → Reaches p p
    through_low : {p q : Ptr} → (h p).low ≢ null → Reaches (h p).low q → Reaches p q
    through_high : {p q : Ptr} → (h p).high ≢ null → Reaches (h p).high q → Reaches p q

  pub Reaches-low : (p q : Ptr) → Reaches p q → (h q).low ≢ null → Reaches p (h q).low
  Reaches-low p q here ne = through_low ne here
  Reaches-low p q (through_low k path) ne = through_low k (Reaches-low (h p).low q path ne)
  Reaches-low p q (through_high k path) ne = through_high k (Reaches-low (h p).high q path ne)

  pub Reaches-high : (p q : Ptr) → Reaches p q → (h q).high ≢ null → Reaches p (h q).high
  Reaches-high p q here ne = through_high ne here
  Reaches-high p q (through_low k path) ne = through_low k (Reaches-high (h p).low q path ne)
  Reaches-high p q (through_high k path) ne = through_high k (Reaches-high (h p).high q path ne)

  -- Only marks differ.
  pub record IsRemarked (g : Heap) : Type 0 where
    pub level : (p : Ptr) → (g p).level ≡ (h p).level
    pub low : (p : Ptr) → (g p).low ≡ (h p).low
    pub high : (p : Ptr) → (g p).high ≡ (h p).high
    pub ref_count : (p : Ptr) → (g p).ref_count ≡ (h p).ref_count
    pub next_free : (p : Ptr) → (g p).next_free ≡ (h p).next_free

  pub IsRemarked-refl : IsRemarked h
  IsRemarked-refl = record {
    level = λ p. refl;
    low = λ p. refl;
    high = λ p. refl;
    ref_count = λ p. refl;
    next_free = λ p. refl;
  }

  pub IsRemarked-set :
      (g : Heap) (p : Ptr) (b : Bool) → IsRemarked g → IsRemarked (set_in_use g p b)
  IsRemarked-set g p b r = record {
    level = λ q. ground (arith, r.level q, r.level p);
    low = λ q. ground (arith, r.low q, r.low p);
    high = λ q. ground (arith, r.high q, r.high p);
    ref_count = λ q. ground (arith, r.ref_count q, r.ref_count p);
    next_free = λ q. ground (arith, r.next_free q, r.next_free p);
  }

  -- From `g` to `g'` marks are added; a new one is on a node of `Via` whose children are marked.
  pub record Marks (Via : Ptr → Type 0) (g g' : Heap) : Type 0 where
    pub remarked : IsRemarked g'
    pub grows : (q : Ptr) → IsMarked g q → IsMarked g' q
    pub closed :
        (q : Ptr)
        → IsMarked g' q
        → IsMarked g q ⊎ (IsMarkedChild g' (h q).low × IsMarkedChild g' (h q).high)
    pub sound : (q : Ptr) → IsMarked g' q → IsMarked g q ⊎ Via q

  pub Marks-refl : (Via : Ptr → Type 0) (g : Heap) → IsRemarked g → Marks Via g g
  Marks-refl Via g r = record {
    remarked = r;
    grows = λ q e. e;
    closed = λ q e. inl e;
    sound = λ q e. inl e;
  }

  pub IsMarkedChild-grows :
      (Via : Ptr → Type 0) (g g' : Heap) (q : Ptr)
      → Marks Via g g'
      → IsMarkedChild g q
      → IsMarkedChild g' q
  IsMarkedChild-grows Via g g' q m (inl z) = inl z
  IsMarkedChild-grows Via g g' q m (inr e) = inr (m.grows q e)

  pub Marks-trans :
      (U V W : Ptr → Type 0) (g g' g'' : Heap)
      → ((q : Ptr) → U q → W q)
      → ((q : Ptr) → V q → W q)
      → Marks U g g'
      → Marks V g' g''
      → Marks W g g''
  Marks-trans U V W g g' g'' u v a b = record {
    remarked = b.remarked;
    grows = λ q e. b.grows q (a.grows q e);
    closed = λ q e. elim (b.closed q e) [
      | inr c ↦ inr c
      | inl e' ↦ elim (a.closed q e') [
        | inl e0 ↦ inl e0
        | inr c ↦ inr (
          IsMarkedChild-grows V g' g'' (h q).low b c.0,
          IsMarkedChild-grows V g' g'' (h q).high b c.1,
        )
      ]
    ];
    sound = λ q e. elim (b.sound q e) [
      | inr x ↦ inr (v q x)
      | inl e' ↦ elim (a.sound q e') [ inl e0 ↦ inl e0 | inr x ↦ inr (u q x) ]
    ];
  }

  -- A set of nodes that is closed under children, along which `rank` falls.
  pub record IsAcyclic (Member : Ptr → Type 0) (rank : Ptr → ℕ) : Type 0 where
    pub low_member :
        (p : Ptr) → Member p → (h p).low ≢ null → Member (h p).low × (rank (h p).low < rank p)
    pub high_member :
        (p : Ptr) → Member p → (h p).high ≢ null → Member (h p).high × (rank (h p).high < rank p)

  -- A search from `p` marks `p` and what it reaches.
  abbrev pub Searched : Ptr → Heap → Heap → Type 0
  Searched p g g' = Marks (Reaches p) g g' × IsMarked g' p

  abbrev SearchedChild : Ptr → Heap → Heap → Type 0
  SearchedChild c g g' = Marks (λ q. (c ≢ null) × Reaches c q) g g' × IsMarkedChild g' c

  search_child :
      (c : Ptr) (g : Heap) (run : Run Heap)
      → IsRemarked g
      → (c ≢ null → Returns run (Searched c g))
      → Returns (if c == null then ok g else run) (SearchedChild c g)
  search_child c g run r found = elim (eq_cases c null) [
    | inl e ↦ let t : (c == null) ≡ true = ground arith in (g, rw t, (Marks-refl _ g r, inl e))
    | inr n ↦
        let t : (c == null) ≡ false = ground (arith, n) in
        let (g', ran, (m, e)) = found n in
        (
          g',
          rw (t, ran),
          (
            record {
              remarked = m.remarked;
              grows = m.grows;
              closed = m.closed;
              sound = λ q k. elim (m.sound q k) [ inl a ↦ inl a | inr b ↦ inr (n, b) ];
            },
            inr e,
          ),
        )
  ]

  -- The mark on `p` itself, and then the two searches.
  search-Searched :
      (p : Ptr) (g g2 g3 : Heap)
      → SearchedChild (h p).low (set_in_use g p true) g2
      → SearchedChild (h p).high g2 g3
      → Searched p g g3
  search-Searched p g g2 g3 (a, low_done) (b, high_done) =
      let g1 = set_in_use g p true in
      let both =
        Marks-trans _ _ (Reaches p) g1 g2 g3 (λ q x. through_low x.0 x.1)
          (λ q x. through_high x.0 x.1) a b in
      let before : (q : Ptr) → q ≢ p → IsMarked g1 q → IsMarked g q = λ q n e. ground (arith, n) in
      (
        record {
          remarked = both.remarked;
          grows = λ q e. both.grows q (ground arith);
          closed = λ q e. elim (both.closed q e) [
            | inr c ↦ inr c
            | inl e1 ↦ elim (eq_cases q p) [
              | inl same ↦ inr (
                  subst (λ k. IsMarkedChild g3 (h k).low × IsMarkedChild g3 (h k).high) (sym same)
                    (IsMarkedChild-grows _ g2 g3 (h p).low b low_done, high_done))
              | inr n ↦ inl (before q n e1)
            ]
          ];
          sound = λ q e. elim (both.sound q e) [
            | inr x ↦ inr x
            | inl e1 ↦ elim (eq_cases q p) [
              | inl same ↦ inr (subst (λ k. Reaches p k) (sym same) here)
              | inr n ↦ inl (before q n e1)
            ]
          ];
        },
        both.grows p (ground arith),
      )

  module _ (Member : Ptr → Type 0) (rank : Ptr → ℕ) (acyclic : IsAcyclic Member rank) where
    -- With fuel above the rank, the search ends.
    pub mark_rec-Searched :
        (fuel : ℕ) (g : Heap) (p : Ptr)
        → Member p
        → rank p < fuel
        → IsRemarked g
        → Returns (mark_rec fuel g p) (Searched p g)
    unfolding mark_rec
    mark_rec-Searched zero g p m lt r = absurd (omega arith)
    mark_rec-Searched (suc fuel) g p m lt r = elim (Bool-cases (g p).in_use) [
      | inl e ↦ (g, rw (mark_rec, e), (Marks-refl (Reaches p) g r, e))
      | inr e ↦
          let g1 = set_in_use g p true in
          let r1 = IsRemarked-set g p true r in
          let (g2, run2, done2) = search_child (h p).low g1 (mark_rec fuel g1 (h p).low) r1 (λ n.
            let (k, l) = acyclic.low_member p m n in
            mark_rec-Searched fuel g1 (h p).low k (omega arith) r1) in
          let r2 = done2.0.remarked in
          let (g3, run3, done3) = search_child (h p).high g2 (mark_rec fuel g2 (h p).high) r2 (λ n.
            let (k, l) = acyclic.high_member p m n in
            mark_rec-Searched fuel g2 (h p).high k (omega arith) r2) in
          (
            g3,
            rw (mark_rec, e, r1.low p, run2, r2.high p, run3),
            search-Searched p g g2 g3 done2 done3,
          )
    ]
