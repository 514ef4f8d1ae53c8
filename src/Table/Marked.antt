-- ===== src/Table/Marked.antt =====
-- What the first half of `gcLocked` marks: the nodes that a node with a reference count reaches.
use nanobdd.Base.{
  ℕ, ◌-◌, ◌≤◌, ◌<◌, ◌≡◌, ◌≢◌, ◌↔◌, inl, inr, Bool, true, false, List, [], ◌∷◌, count, count_all,
  count_all-only, Returns, arith, refl, ◌∙◌, ap,
}
use nanobdd.Tree.{Tree, leaf, branch, IsRobdd, Above}
use nanobdd.Node.{Ptr, null, Heap}
use nanobdd.Node.Marking.{
  IsMarked, IsMarkedChild, Reaches, here, through_low, through_high, IsRemarked, IsRemarked-refl,
  IsAcyclic, Marks-refl,
}
use nanobdd.Bucket.{Bucket}
use nanobdd.Bucket.Marks.{ReachedFrom, MarksRoots, MarksRoots-trans, mark_nodes-MarksRoots}
use nanobdd.Platform.{Platform}
use nanobdd.Table.State.{NodeTable, uint_max}
use nanobdd.Table.Collect.{mark_all, mark_fuel}
use nanobdd.Table.Layout.{bucket_at, home_of, Stored, IsLaid}
use nanobdd.Table.Meaning.{Represents, IsSound, terminal}
use nanobdd.Table.Cofactor.{Represents-Stored}

module _ ⦃env : Platform⦄ where
  -- Between two collections no cell is marked; the terminals are protected and have no children.
  pub record IsTidy (t : NodeTable) : Type 0 where
    pub unmarked : (p : Ptr) → (t.heap p).in_use ≡ false
    pub protected : (b : Bool) → (t.heap (terminal t b)).ref_count ≢ 0
    pub no_low : (b : Bool) → (t.heap (terminal t b)).low ≡ null
    pub no_high : (b : Bool) → (t.heap (terminal t b)).high ≡ null

  -- A stored node with a reference count reaches the node.
  abbrev pub IsLive : NodeTable → Ptr → Type 0
  IsLive t p = ReachedFrom t.heap (Stored t) p

  pub count_all-home :
      (t : NodeTable) (free : List Ptr) (p : Ptr)
      → IsLaid t free
      → count_all p t.buckets ≡ count p (bucket_at t (home_of t p))
  count_all-home t free p v =
      count_all-only p t.buckets (home_of t p) (λ i n. ground (arith, v.placed p i, n))

module _ ⦃env : Platform⦄ (n : ℕ) (t : NodeTable) (s : IsSound n t) (d : IsTidy t) where
  root_level :
      (v : ℕ) (tree : Tree) (q : Ptr)
      → v < n
      → Above v tree
      → IsRobdd n tree
      → Represents t tree q
      → (v < (t.heap q).level) × ((t.heap q).level ≤ uint_max)
  root_level v (leaf true) q lt a r x = rw x (omega (arith, s.few, s.true_level))
  root_level v (leaf false) q lt a r x = rw x (omega (arith, s.few, s.false_level))
  root_level v (branch w l h) q lt a r x = omega (arith, s.few, r.0, x.1)

  abbrev rank : Ptr → ℕ
  rank p = uint_max - (t.heap p).level

  low_falls :
      (tree : Tree) (p : Ptr)
      → IsRobdd n tree
      → Represents t tree p
      → (t.heap p).low ≢ null
      → Stored t (t.heap p).low × (rank (t.heap p).low < rank p)
  low_falls (leaf b) p r x ne = absurd (ne (ap (λ k. (t.heap k).low) x ∙ d.no_low b))
  low_falls (branch v l h) p r x ne =
      let (above, bound) = root_level v l (t.heap p).low r.0 r.1 r.4 x.2 in
      (Represents-Stored n t l (t.heap p).low s x.2, omega (arith, x.1))

  high_falls :
      (tree : Tree) (p : Ptr)
      → IsRobdd n tree
      → Represents t tree p
      → (t.heap p).high ≢ null
      → Stored t (t.heap p).high × (rank (t.heap p).high < rank p)
  high_falls (leaf b) p r x ne = absurd (ne (ap (λ k. (t.heap k).high) x ∙ d.no_high b))
  high_falls (branch v l h) p r x ne =
      let (above, bound) = root_level v h (t.heap p).high r.0 r.2 r.5 x.3 in
      (Represents-Stored n t h (t.heap p).high s x.3, omega (arith, x.1))

  table-IsAcyclic : IsAcyclic t.heap (Stored t) rank
  table-IsAcyclic = record {
    low_member = λ p m. let (tree, r, x) = s.closed p m in low_falls tree p r x;
    high_member = λ p m. let (tree, r, x) = s.closed p m in high_falls tree p r x;
  }

  reached-Stored : (p q : Ptr) → Stored t p → Reaches t.heap p q → Stored t q
  reached-Stored p q st here = st
  reached-Stored p q st (through_low ne path) =
      reached-Stored (t.heap p).low q (table-IsAcyclic.low_member p st ne).0 path
  reached-Stored p q st (through_high ne path) =
      reached-Stored (t.heap p).high q (table-IsAcyclic.high_member p st ne).0 path

  pub IsLive-Stored : (q : Ptr) → IsLive t q → Stored t q
  IsLive-Stored q (r, st, k, path) = reached-Stored r q st path

  mark_all-MarksRoots :
      (fuel : ℕ) (g : Heap) (bs : List Bucket)
      → uint_max < fuel
      → ((p : Ptr) → 0 < count_all p bs → Stored t p)
      → IsRemarked t.heap g
      → Returns (mark_all fuel g bs) (MarksRoots t.heap (λ p. 0 < count_all p bs) g)
  unfolding mark_all
  mark_all-MarksRoots fuel g [] enough members r =
      (g, refl, (Marks-refl t.heap _ g r, λ p lt k. absurd (omega arith)))
  mark_all-MarksRoots fuel g (b ∷ bs) enough members r =
      let (g1, run1, x) =
        mark_nodes-MarksRoots t.heap (Stored t) rank table-IsAcyclic fuel (λ p. omega arith) g b
          (λ p lt. members p (omega arith)) r in
      let (g2, run2, y) =
        mark_all-MarksRoots fuel g1 bs enough (λ p lt. members p (omega arith)) x.0.remarked in
      (
        g2,
        rw (run1, run2),
        MarksRoots-trans t.heap (λ p. 0 < count p b) (λ p. 0 < count_all p bs)
            (λ p. 0 < count_all p (b ∷ bs)) g g1 g2 (λ p lt. omega arith) (λ p lt. omega arith)
            (λ p lt. ground arith) x y,
      )

  reached-IsMarked :
      (g : Heap) (p q : Ptr)
      → ((r : Ptr)
          → IsMarked g r
          → IsMarkedChild g (t.heap r).low × IsMarkedChild g (t.heap r).high)
      → IsMarked g p
      → Reaches t.heap p q
      → IsMarked g q
  reached-IsMarked g p q all m here = m
  reached-IsMarked g p q all m (through_low ne path) = elim (all p m).0 [
    | inl z ↦ absurd (ne z)
    | inr e ↦ reached-IsMarked g (t.heap p).low q all e path
  ]
  reached-IsMarked g p q all m (through_high ne path) = elim (all p m).1 [
    | inl z ↦ absurd (ne z)
    | inr e ↦ reached-IsMarked g (t.heap p).high q all e path
  ]

  -- In a valid table between two collections, marking ends within its fuel, changes nothing but
  -- marks, and marks exactly the nodes that a stored node with a reference count reaches.
  pub mark_all-IsLive :
      (free : List Ptr)
      → IsLaid t free
      → Returns
          (mark_all mark_fuel t.heap t.buckets)
          (λ g. IsRemarked t.heap g × ((q : Ptr) → IsMarked g q ↔ IsLive t q))
  unfolding mark_fuel
  mark_all-IsLive free v =
      let stored : (p : Ptr) → 0 < count_all p t.buckets → Stored t p =
        λ p lt. omega (arith, count_all-home t free p v) in
      let (g, run, (m, roots)) =
        mark_all-MarksRoots mark_fuel t.heap t.buckets (omega arith) stored
          (IsRemarked-refl t.heap) in
      let clean : (q : Ptr) → IsMarked t.heap q → ⊥ = λ q e. cc (d.unmarked q) in
      (
        g,
        run,
        (
          m.remarked,
          λ q. (
            λ e. elim (m.sound q e) [
              | inl x ↦ absurd (clean q x)
              | inr (r, lt, k, path) ↦ (r, stored r lt, k, path)
            ],
            λ (r, st, k, path).
                reached-IsMarked g r q
                  (λ p e. elim (m.closed p e) [ inl x ↦ absurd (clean p x) | inr c ↦ c ])
                  (roots r (omega (arith, count_all-home t free r v)) k) path,
          ),
        ),
      )
