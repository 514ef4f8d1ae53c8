-- ===== src/Concurrent/Creation/Cells.antt =====
-- The steps that take cells, write them and give them back.
use nanobdd.Base.{
  ℕ, ◌+◌, ◌≤◌, ◌<◌, ◌≡◌, ◌≢◌, ◌⊎◌, ◌==◌, if◌then◌else◌, Bool, Bool-cases, true, false, inl, inr,
  eq_cases, List, [], ◌∷◌, count, arith, refl, sym, ap, subst, ◌∙◌,
}
use nanobdd.Node.{Ptr, null}
use nanobdd.Platform.{Platform}
use nanobdd.Concurrent.Threads.{update, update_here, update_there}
use nanobdd.Concurrent.Creation.{
  Triple, Shared, Pc, set_triple, set_link, popped, sliced, given_back,
}
use nanobdd.Concurrent.Creation.Invariant.{size, node, Holds, home_at, Own, Linked, IsSafe, IsKind}

-- The links of the cells in the list are all that counts.
Linked-frame :
    (link link' : Ptr → Ptr) (p : Ptr) (xs : List Ptr)
    → ((q : Ptr) → 0 < count q xs → link' q ≡ link q)
    → Linked link p xs
    → Linked link' p xs
Linked-frame link link' p [] same l = l
Linked-frame link link' p (x ∷ xs) same (e, ne, l) =
    let here : link' x ≡ link x = same x (ground arith) in
    (
      e,
      ne,
      subst (λ q. Linked link' q xs) (sym here)
          (Linked-frame link link' (link x) xs (λ q lt. same q (omega arith)) l),
    )

used_ne : (taken : Ptr → Bool) (a b : Ptr) → taken a ≡ true → taken b ≡ false → a ≢ b
used_ne taken a b x y e = absurd (cc (ap taken e, x, y))

module _ ⦃env : Platform⦄ (table_size : ℕ) (m : Shared) (safe : IsSafe table_size m) where
  cell-ne : (c q : Ptr) → m.taken c ≡ true → 0 < count q safe.cells → q ≢ c
  cell-ne c q used lt e = used_ne m.taken c q used (safe.unused q lt).0 (sym e)

  cell-free : (c : Ptr) → m.taken c ≡ true → count c safe.cells ≡ 0
  cell-free c used = elim (positive_or_zero (count c safe.cells)) [
    | inl lt ↦ absurd (cell-ne c c used lt refl)
    | inr e ↦ e
  ]
    where
      positive_or_zero : (k : ℕ) → (0 < k) ⊎ (k ≡ 0)
      positive_or_zero k = omega arith

  -- Writing to a cell of one's own.
  module _ (c : Ptr) (mine : Own m c) where
    pub set_triple-IsSafe : (key : Triple) → IsSafe table_size (set_triple m c key)
    set_triple-IsSafe key =
        let same : (b j : ℕ)
            → j < size m b
            → (set_triple m c key).triple (node m b j) ≡ m.triple (node m b j) =
          λ b j lt. update_there m.triple c (node m b j) key (mine.1 b j lt) in
        record {
          placed = λ b j lt.
              let (used, here) = safe.placed b j lt in
              (used, ap (home_at table_size) (same b j lt) ∙ here);
          unique =
              λ b j k lt lt' e. safe.unique b j k lt lt' (sym (same b j lt) ∙ e ∙ same b k lt');
          within = safe.within;
          positive = safe.positive;
          cells = safe.cells;
          chain = safe.chain;
          unused = safe.unused;
          once = safe.once;
          excluded = safe.excluded;
        }

    pub set_triple-IsKind :
        (key : Triple) (i : ℕ) (p : Pc) → Holds p c → IsKind table_size i p m (set_triple m c key)
    set_triple-IsKind key i p held = record {
      larger = λ b. omega arith;
      grow = λ b j lt. (lt, refl);
      triple_same = λ b j lt. update_there m.triple c (node m b j) key (mine.1 b j lt);
      writer_same = λ b j ne w. (w, refl);
      reading_same = λ b j ne. refl;
      own = λ d k nh.
          (k, update_there m.triple c d key (λ e. nh (subst (Holds p) (sym e) held)), refl);
    }

    pub set_link-IsSafe : (n : Ptr) → IsSafe table_size (set_link m c n)
    set_link-IsSafe n = record {
      placed = safe.placed;
      unique = safe.unique;
      within = safe.within;
      positive = safe.positive;
      cells = safe.cells;
      chain =
          Linked-frame m.link (update m.link c n) m.head safe.cells
            (λ q lt. update_there m.link c q n (cell-ne c q mine.0 lt)) safe.chain;
      unused = safe.unused;
      once = safe.once;
      excluded = safe.excluded;
    }

    pub set_link-IsKind :
        (n : Ptr) (i : ℕ) (p : Pc) → Holds p c → IsKind table_size i p m (set_link m c n)
    set_link-IsKind n i p held = record {
      larger = λ b. omega arith;
      grow = λ b j lt. (lt, refl);
      triple_same = λ b j lt. refl;
      writer_same = λ b j ne w. (w, refl);
      reading_same = λ b j ne. refl;
      own = λ d k nh. (k, refl, update_there m.link c d n (λ e. nh (subst (Holds p) (sym e) held)));
    }

    -- Giving it back.
    pub given_back-IsSafe : m.link c ≡ m.head → IsSafe table_size (given_back m c)
    given_back-IsSafe top = record {
      placed = λ b j lt.
          let (used, here) = safe.placed b j lt in
          (update_there m.taken c (node m b j) false (mine.1 b j lt) ∙ used, here);
      unique = safe.unique;
      within = λ d used. elim (eq_cases d c) [
        | inl e ↦ absurd (cc (update_here m.taken c d false e, used))
        | inr ne ↦ safe.within d (sym (update_there m.taken c d false ne) ∙ used)
      ];
      positive = safe.positive;
      cells = c ∷ safe.cells;
      chain = (
        refl,
        (safe.within c mine.0).1,
        subst (λ q. Linked m.link q safe.cells) (sym top) safe.chain,
      );
      unused = λ d lt. elim (eq_cases d c) [
        | inl e ↦ (
          update_here m.taken c d false e,
          subst (λ q. q < m.next) (sym e) (safe.within c mine.0).0,
        )
        | inr ne ↦
            let (idle, old) = safe.unused d (ground (arith, ne)) in
            (update_there m.taken c d false ne ∙ idle, old)
      ];
      once = λ d. ground (arith, safe.once d, cell-free c mine.0);
      excluded = safe.excluded;
    }

    pub given_back-IsKind : (i : ℕ) (p : Pc) → Holds p c → IsKind table_size i p m (given_back m c)
    given_back-IsKind i p held = record {
      larger = λ b. omega arith;
      grow = λ b j lt. (lt, refl);
      triple_same = λ b j lt. refl;
      writer_same = λ b j ne w. (w, refl);
      reading_same = λ b j ne. refl;
      own = λ d (used, out) nh.
          let ne : d ≢ c = λ e. nh (subst (Holds p) (sym e) held) in
          ((update_there m.taken c d false ne ∙ used, out), refl, refl);
    }

  -- Taking a cell that is not in use.
  module _ (c : Ptr) (idle : m.taken c ≡ false) (h n : Ptr) where
    abbrev after : Shared
    after = record m { taken = update m.taken c true; head = h; next = n }

    still_used : (d : Ptr) → m.taken d ≡ true → update m.taken c true d ≡ true
    still_used d used = update_there m.taken c d true (used_ne m.taken d c used idle) ∙ used

    pub taken-IsKind : (i : ℕ) (p : Pc) → IsKind table_size i p m after
    taken-IsKind i p = record {
      larger = λ b. omega arith;
      grow = λ b j lt. (lt, refl);
      triple_same = λ b j lt. refl;
      writer_same = λ b j ne w. (w, refl);
      reading_same = λ b j ne. refl;
      own = λ d (used, out) nh. ((still_used d used, out), refl, refl);
    }

    pub taken-Own : Own after c
    taken-Own = (
      update_here m.taken c c true refl,
      λ b j lt. used_ne m.taken (node m b j) c (safe.placed b j lt).0 idle,
    )

    taken-IsSafe :
        m.next ≤ n
        → (c < n) × (c ≢ null)
        → (xs : List Ptr) → Linked m.link h xs
        → ((d : Ptr) → 0 < count d xs → (m.taken d ≡ false) × (d < m.next) × (d ≢ c))
        → ((d : Ptr) → count d xs ≤ 1)
        → IsSafe table_size after
    taken-IsSafe le new xs chain unused once = record {
      placed =
          λ b j lt. let (used, here) = safe.placed b j lt in (still_used (node m b j) used, here);
      unique = safe.unique;
      within = λ d used. elim (eq_cases d c) [
        | inl e ↦ rw e new
        | inr ne ↦
            let (lt, pos) = safe.within d (sym (update_there m.taken c d true ne) ∙ used) in
            (omega (arith, lt, le), pos)
      ];
      positive = omega (arith, safe.positive, le);
      cells = xs;
      chain = chain;
      unused = λ d lt.
          let (off, old, ne) = unused d lt in
          (update_there m.taken c d true ne ∙ off, omega (arith, old, le));
      once = once;
      excluded = safe.excluded;
    }

  -- From the slab.
  pub next-idle : m.taken m.next ≡ false
  next-idle = elim (Bool-cases (m.taken m.next)) [
    | inl used ↦ absurd (omega (arith, (safe.within m.next used).0))
    | inr idle ↦ idle
  ]

  pub sliced-IsSafe : IsSafe table_size (sliced m)
  sliced-IsSafe =
      taken-IsSafe m.next next-idle m.head (m.next + 1) (omega arith)
        (omega arith, λ e. absurd (omega (arith, safe.positive, e))) safe.cells safe.chain
        (λ d lt.
          let (off, old) = safe.unused d lt in (off, old, λ e. absurd (omega (arith, old, e))))
        safe.once

  -- From the head of the free list, if the link is right.
  module _ (p n : Ptr) (ne : p ≢ null) (top : m.head ≡ p) (right : m.link p ≡ n) where
    -- The list is `p` and a rest.
    rest_of :
        (cells : List Ptr)
        → Linked m.link m.head cells
        → (xs : List Ptr) × Linked m.link n xs
          × ((d : Ptr) → count d cells ≡ (if d == p then 1 else 0) + count d xs)
    rest_of [] e = absurd (ne (sym top ∙ e))
    rest_of (x ∷ xs) (e, pos, l) =
        let same : x ≡ p = sym e ∙ top in
        (xs, subst (λ q. Linked m.link q xs) (ap m.link same ∙ right) l, λ d. ground (arith, same))

    pub head-idle : m.taken p ≡ false
    head-idle =
        let (xs, l, counts) = rest_of safe.cells safe.chain in
        (safe.unused p (ground (arith, counts p))).0

    pub popped-IsSafe : IsSafe table_size (popped m p n)
    popped-IsSafe =
        let (xs, l, counts) = rest_of safe.cells safe.chain in
        taken-IsSafe p head-idle n m.next (omega arith)
          ((safe.unused p (ground (arith, counts p))).1, ne) xs l
          (λ d lt.
            let (off, old) = safe.unused d (omega (arith, counts d, lt)) in
            (off, old, λ e. absurd (ground (arith, counts d, safe.once d))))
          (λ d. omega (arith, counts d, safe.once d))
