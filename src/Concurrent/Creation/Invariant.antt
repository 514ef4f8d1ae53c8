-- ===== src/Concurrent/Creation/Invariant.antt =====
-- What holds of the buckets, and what each thread knows, while threads make nodes.
use nanobdd.Base.{
  List, [], ◌∷◌, count, ℕ, ◌≤◌, ◌<◌, ◌≡◌, ◌≢◌, ◌⊎◌, ◌==◌, if◌then◌else◌, true, false, some, inl,
  inr, eq_cases, length, get_or, arith, refl, sym, ap, subst, ◌∙◌,
}
use nanobdd.Node.{Ptr, null}
use nanobdd.Platform.{Platform}
use nanobdd.Concurrent.Threads.{update}
use nanobdd.Concurrent.Creation.{
  popping, linking, taking, slabbing, filling, filled, freeing, pushing, joining, Triple, Shared,
  Pc, idle, finding, searching, allocating, inserting, comparing, losing, counting, done, home_of,
  System,
}

abbrev pub size : Shared → ℕ → ℕ
size m b = length (m.nodes b)

abbrev pub node : Shared → ℕ → ℕ → Ptr
node m b j = get_or (m.nodes b) j null

-- The free list from `p` on.
abbrev pub Linked : (Ptr → Ptr) → Ptr → List Ptr → Type 0
Linked link p [] = p ≡ null
Linked link p (x ∷ xs) = (p ≡ x) × (x ≢ null) × Linked link (link x) xs

-- A cell that a thread has for itself: in use, and in no bucket.
abbrev pub Own : Shared → Ptr → Type 0
Own m c = (m.taken c ≡ true) × ((b j : ℕ) → j < size m b → node m b j ≢ c)

-- The cell of a thread.
abbrev pub Holds : Pc → Ptr → Type 0
Holds (inserting key c) q = c ≡ q
Holds (comparing key c k) q = c ≡ q
Holds (losing key c p) q = c ≡ q
Holds (taking key p) q = p ≡ q
Holds (filling key p) q = p ≡ q
Holds (filled key p) q = p ≡ q
Holds (freeing key c p) q = c ≡ q
Holds (pushing key c p top) q = c ≡ q
Holds (joining key c p top) q = c ≡ q
Holds _ q = ⊥

module _ ⦃env : Platform⦄ (table_size : ℕ) where
  abbrev pub home_at : Triple → ℕ
  home_at = home_of table_size

  -- A candidate: a thread's own, with its triple.
  abbrev pub Mine : Shared → Triple → Ptr → Type 0
  Mine m key c = Own m c × (m.triple c ≡ key)

  -- A node of the triple in its bucket.
  abbrev pub Got : Shared → Triple → Ptr → Type 0
  Got m key p =
      (j : ℕ) × (j < size m (home_at key)) × (node m (home_at key) j ≡ p) × (m.triple p ≡ key)

  -- None of the first `k` nodes of the bucket has the triple.
  abbrev pub Before : Shared → Triple → ℕ → Type 0
  Before m key k = (j : ℕ) → j < k → m.triple (node m (home_at key) j) ≢ key

  -- What the thread `i` knows.
  abbrev pub Knows : Shared → ℕ → Pc → Type 0
  Knows m i idle = Unit
  Knows m i (finding key) = Unit
  Knows m i (searching key k) = (m.reading (home_at key) i ≡ true) × (k ≤ size m (home_at key))
  Knows m i (allocating key) = Unit
  Knows m i (slabbing key) = Unit
  Knows m i (popping key p) = p ≢ null
  Knows m i (linking key p n) = p ≢ null
  Knows m i (taking key p) = Own m p
  Knows m i (filling key p) = Own m p
  Knows m i (filled key p) = Mine m key p
  Knows m i (inserting key c) = Mine m key c
  Knows m i (comparing key c k) =
      (m.writer (home_at key) ≡ some i) × (k ≤ size m (home_at key)) × Before m key k × Mine m key c
  Knows m i (losing key c p) = Own m c × Got m key p
  Knows m i (freeing key c p) = Own m c × Got m key p
  Knows m i (pushing key c p top) = Own m c × Got m key p
  Knows m i (joining key c p top) = Own m c × Got m key p × (m.link c ≡ top)
  Knows m i (counting key c) = Got m key c
  Knows m i (done key p) = Got m key p

  pub record IsSafe (m : Shared) : Type 0 where
    pub placed :
        (b j : ℕ)
        → j < size m b
        → (m.taken (node m b j) ≡ true) × (home_at (m.triple (node m b j)) ≡ b)
    pub unique :
        (b j k : ℕ)
        → j < size m b
        → k < size m b
        → m.triple (node m b j) ≡ m.triple (node m b k)
        → j ≡ k
    pub within : (c : Ptr) → m.taken c ≡ true → (c < m.next) × (c ≢ null)
    pub positive : null < m.next
    pub cells : List Ptr
    pub chain : Linked m.link m.head cells
    pub unused : (c : Ptr) → 0 < count c cells → (m.taken c ≡ false) × (c < m.next)
    pub once : (c : Ptr) → count c cells ≤ 1
    pub excluded : (b i : ℕ) → m.writer b ≡ some i → (j : ℕ) → m.reading b j ≡ false

  pub record Inv (s : System) : Type 0 where
    pub safe : IsSafe s.shared
    pub apart : (i j : ℕ) (c : Ptr) → Holds (s.pc i) c → Holds (s.pc j) c → i ≡ j
    pub knows : (i : ℕ) → Knows s.shared i (s.pc i)

  -- What a move of the thread `i`, which stood at `p`, leaves to the other threads.
  pub record IsKind (i : ℕ) (p : Pc) (m m' : Shared) : Type 0 where
    pub larger : (b : ℕ) → size m b ≤ size m' b
    pub grow : (b j : ℕ) → j < size m b → (j < size m' b) × (node m' b j ≡ node m b j)
    pub triple_same : (b j : ℕ) → j < size m b → m'.triple (node m b j) ≡ m.triple (node m b j)
    pub writer_same :
        (b j : ℕ) → j ≢ i → m.writer b ≡ some j → (m'.writer b ≡ some j) × (size m' b ≡ size m b)
    pub reading_same : (b j : ℕ) → j ≢ i → m'.reading b j ≡ m.reading b j
    pub own :
        (c : Ptr)
        → Own m c
        → (Holds p c → ⊥)
        → Own m' c × (m'.triple c ≡ m.triple c) × (m'.link c ≡ m.link c)

  module _ (i : ℕ) (p : Pc) (m m' : Shared) (kind : IsKind i p m m') where
    pub Got-kept : (key : Triple) (q : Ptr) → Got m key q → Got m' key q
    Got-kept key q (j, lt, here, e) =
        let (lt', same) = kind.grow (home_at key) j lt in
        (
          j,
          lt',
          same ∙ here,
          ap m'.triple (sym here) ∙ kind.triple_same (home_at key) j lt ∙ ap m.triple here ∙ e,
        )

    Before-kept :
        (key : Triple) (k : ℕ) → k ≤ size m (home_at key) → Before m key k → Before m' key k
    Before-kept key k le none_yet j lt e =
        let (lt', same) = kind.grow (home_at key) j (omega arith) in
        none_yet j lt
          (sym (kind.triple_same (home_at key) j (omega arith)) ∙ ap m'.triple (sym same) ∙ e)

    Own-kept : (c : Ptr) → (Holds p c → ⊥) → Own m c → Own m' c
    Own-kept c nh k = (kind.own c k nh).0

    Mine-kept : (key : Triple) (c : Ptr) → (Holds p c → ⊥) → Mine m key c → Mine m' key c
    Mine-kept key c nh (k, e) = let (k', same, l) = kind.own c k nh in (k', same ∙ e)

    -- The other threads know what they knew.
    pub Knows-others :
        (j : ℕ)
        → j ≢ i
        → (q : Pc) → ((c : Ptr) → Holds q c → Holds p c → ⊥)
        → Knows m j q
        → Knows m' j q
    Knows-others j ne idle a k = tt
    Knows-others j ne (finding key) a k = tt
    Knows-others j ne (searching key n) a k =
        (kind.reading_same (home_at key) j ne ∙ k.0, omega (arith, k.1, kind.larger (home_at key)))
    Knows-others j ne (allocating key) a k = tt
    Knows-others j ne (slabbing key) a k = tt
    Knows-others j ne (popping key r) a k = k
    Knows-others j ne (linking key r n) a k = k
    Knows-others j ne (taking key r) a k = Own-kept r (a r refl) k
    Knows-others j ne (filling key r) a k = Own-kept r (a r refl) k
    Knows-others j ne (filled key r) a k = Mine-kept key r (a r refl) k
    Knows-others j ne (inserting key c) a k = Mine-kept key c (a c refl) k
    Knows-others j ne (comparing key c n) a (w, le, b, mn) =
        let (w', same) = kind.writer_same (home_at key) j ne w in
        (w', omega arith, Before-kept key n le b, Mine-kept key c (a c refl) mn)
    Knows-others j ne (losing key c r) a (o, g) = (Own-kept c (a c refl) o, Got-kept key r g)
    Knows-others j ne (freeing key c r) a (o, g) = (Own-kept c (a c refl) o, Got-kept key r g)
    Knows-others j ne (pushing key c r top) a (o, g) = (Own-kept c (a c refl) o, Got-kept key r g)
    Knows-others j ne (joining key c r top) a (o, g, e) =
        let (o', t, l) = kind.own c o (a c refl) in (o', Got-kept key r g, l ∙ e)
    Knows-others j ne (counting key c) a k = Got-kept key c k
    Knows-others j ne (done key r) a k = Got-kept key r k

  module _ (s : System) (i : ℕ) (p : Pc)
      (apart : (j k : ℕ) (c : Ptr) → Holds (s.pc j) c → Holds (s.pc k) c → j ≡ k)
      (fresh : (c : Ptr) → Holds p c → Holds (s.pc i) c ⊎ ((j : ℕ) → Holds (s.pc j) c → ⊥)) where
    abbrev moved : ℕ → Pc
    moved = update s.pc i p

    moved_cases :
        (j : ℕ) (c : Ptr) → Holds (moved j) c → ((j ≡ i) × Holds p c) ⊎ ((j ≢ i) × Holds (s.pc j) c)
    moved_cases j c h = elim (eq_cases j i) [
      | inl e ↦
          let b : (j == i) ≡ true = ground arith in
          inl (e, subst (λ v. Holds (if v then p else s.pc j) c) b h)
      | inr ne ↦
          let b : (j == i) ≡ false = ground (arith, ne) in
          inr (ne, subst (λ v. Holds (if v then p else s.pc j) c) b h)
    ]

    mover_alone : (k : ℕ) (c : Ptr) → Holds p c → k ≢ i → Holds (s.pc k) c → ⊥
    mover_alone k c h ne h' = elim (fresh c h) [
      | inl mine ↦ ne (apart k i c h' mine)
      | inr nobody ↦ nobody k h'
    ]

    moved_apart : (j k : ℕ) (c : Ptr) → Holds (moved j) c → Holds (moved k) c → j ≡ k
    moved_apart j k c h h' = elim (moved_cases j c h) [
      | inl (e, mine) ↦ elim (moved_cases k c h') [
        | inl (e', mine') ↦ e ∙ sym e'
        | inr (ne', other) ↦ absurd (mover_alone k c mine ne' other)
      ]
      | inr (ne, other) ↦ elim (moved_cases k c h') [
        | inl (e', mine') ↦ absurd (mover_alone j c mine' ne other)
        | inr (ne', other') ↦ apart j k c other other'
      ]
    ]

  -- A move keeps the invariant, if it keeps the buckets safe and is kind to the others.
  pub next-Inv :
      (s : System) (i : ℕ) (m' : Shared) (p : Pc)
      → Inv s
      → IsSafe m'
      → IsKind i (s.pc i) s.shared m'
      → Knows m' i p
      → ((c : Ptr) → Holds p c → Holds (s.pc i) c ⊎ ((j : ℕ) → Holds (s.pc j) c → ⊥))
      → Inv (record { shared = m'; pc = update s.pc i p })
  next-Inv s i m' p inv safe kind own fresh = record {
    safe = safe;
    apart = moved_apart s i p inv.apart fresh;
    knows = λ j. elim (eq_cases j i) [
      | inl e ↦ let b : (j == i) ≡ true = ground arith in rw (b, e) own
      | inr ne ↦
          let b : (j == i) ≡ false = ground (arith, ne) in
          rw b (
            Knows-others i (s.pc i) s.shared m' kind j ne (s.pc j)
              (λ c h h'. ne (inv.apart j i c h h')) (inv.knows j))
    ];
  }
