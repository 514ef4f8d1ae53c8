-- ===== src/Table/Layout/Insert.antt =====
-- A freshly allocated node that is appended to the bucket of its hash.
use nanobdd.Base.{
  ℕ, ◌+◌, ◌≤◌, ◌<◌, ◌≡◌, ◌≢◌, ◌⊎◌, ◌==◌, if◌then◌else◌, List, [], ◌∷◌, ◌++◌, count, count-append,
  total-set, length, length-append, length-set, get_or-set, set, eq_cases, inl, inr, arith, refl,
  ◌∙◌, subst, sym, ap,
}
use nanobdd.Node.{Ptr, null, Heap}
use nanobdd.Bucket.Search.{Absent}
use nanobdd.Allocator.{Allocator, reset}
use nanobdd.Allocator.FreeList.{Allocated, IsIdle, IsIdle-IsHoused}
use nanobdd.Platform.{Platform}
use nanobdd.Table.State.{NodeTable, home}
use nanobdd.Table.Layout.{bucket_at, home_of, Stored, IsLaid, Stored-of_bucket, Extends}
use nanobdd.Table.Layout.Rehash.{home-lt}

module _ ⦃env : Platform⦄ (t : NodeTable) (free : List Ptr) (level : ℕ) (low high x : Ptr)
    (h' : Heap) (a' : Allocator) (v : IsLaid t free)
    (al : Allocated t.heap t.allocator free (reset level low high) (x, h', a'))
    (absent : Absent t.heap level low high (bucket_at t (home t.table_size level low high))) where
  abbrev idx : ℕ
  idx = home t.table_size level low high

  -- the table after the node `x` has been appended and counted
  abbrev pub added : NodeTable
  added = record t {
    heap = h';
    allocator = a';
    buckets = set t.buckets idx (bucket_at t idx ++ x ∷ []);
    node_count = t.node_count + 1;
  }

  idx-lt : idx < length t.buckets
  idx-lt = omega (arith, v.width, home-lt t.table_size level low high v.sized)

  added_home_other : (q : Ptr) → q ≢ x → home_of added q ≡ home_of t q
  added_home_other q n = ap (λ k. home t.table_size k.level k.low k.high) (al.others q n)

  added_home_self : home_of added x ≡ idx
  added_home_self = ap (λ k. home t.table_size k.level k.low k.high) al.filled

  added-count :
      (q : Ptr) (i : ℕ)
      → count q (bucket_at added i)
        ≡ count q (bucket_at t i) + (if i == idx then (if q == x then 1 else 0) else 0)
  added-count q i = ground (
    arith,
    get_or-set t.buckets idx i (bucket_at t idx ++ x ∷ []) [] idx-lt,
    count-append q (bucket_at t idx) (x ∷ []),
  )

  added_placed_self :
      (i : ℕ) → count x (bucket_at added i) ≤ (if i == home_of added x then 1 else 0)
  added_placed_self i = ground (arith, added-count x i, v.unused x i al.was_idle, added_home_self)

  added_placed :
      (q : Ptr) (i : ℕ) → count q (bucket_at added i) ≤ (if i == home_of added q then 1 else 0)
  added_placed q i = elim (eq_cases q x) [
    | inl e ↦
        subst (λ p. count p (bucket_at added i) ≤ (if i == home_of added p then 1 else 0)) (sym e)
          (added_placed_self i)
    | inr n ↦ ground (arith, added-count q i, v.placed q i, added_home_other q n)
  ]

  old-ne_new : (q : Ptr) → Stored t q → q ≢ x
  old-ne_new q s e =
      absurd (omega (arith, v.unused x (home_of t x) al.was_idle, subst (Stored t) e s))

  added-Stored : (q : Ptr) → Stored t q → Stored added q
  added-Stored q s =
      rw (added_home_other q (old-ne_new q s)) (omega (arith, added-count q (home_of t q)))

  pub added-Stored_self : Stored added x
  added-Stored_self = rw added_home_self (ground (arith, added-count x idx))

  added-Stored_inv : (q : Ptr) → q ≢ x → Stored added q → Stored t q
  added-Stored_inv q n s =
      ground (arith, added-count q (home_of t q), rw (added_home_other q n) at s)

  pub added-Extends : Extends t added
  added-Extends = record {
    keeps = added-Stored;
    same = λ p s. al.others p (old-ne_new p s);
    false_same = refl;
    true_same = refl;
  }

  -- No stored node has the fields of the new one.
  new_differs :
      (q : Ptr)
      → Stored t q
      → level ≡ (t.heap q).level
      → low ≡ (t.heap q).low
      → high ≡ (t.heap q).high
      → ⊥
  new_differs q s e f g =
      let there : 0 < count q (bucket_at t idx) = rw (e, f, g) s in ground (arith, absent q there)

  added_unique :
      (p q : Ptr)
      → Stored added p
      → Stored added q
      → (h' p).level ≡ (h' q).level
      → (h' p).low ≡ (h' q).low
      → (h' p).high ≡ (h' q).high
      → p ≡ q
  added_unique p q s u e f g = elim (eq_cases p x) [
    | inl pe ↦ elim (eq_cases q x) [
      | inl qe ↦ pe ∙ sym qe
      | inr qn ↦
          let old = added-Stored_inv q qn u in
          let same = al.others q qn in
          let new = ap h' pe ∙ al.filled in absurd (new_differs q old (cc) (cc) (cc))
    ]
    | inr pn ↦ elim (eq_cases q x) [
      | inl qe ↦
          let old = added-Stored_inv p pn s in
          let same = al.others p pn in
          let new = ap h' qe ∙ al.filled in absurd (new_differs p old (cc) (cc) (cc))
      | inr qn ↦
          let a = al.others p pn in
          let b = al.others q qn in
          v.unique p q (added-Stored_inv p pn s) (added-Stored_inv q qn u) (cc) (cc) (cc)
    ]
  ]

  pub added-IsLaid : IsLaid added al.left
  added-IsLaid = record {
    sized = v.sized;
    width = length-set t.buckets idx _ ∙ v.width;
    placed = added_placed;
    no_null = λ i. ground (arith, added-count null i, v.no_null i, al.ne_null);
    unique = added_unique;
    counted = omega (
      arith,
      v.counted,
      total-set t.buckets idx (bucket_at t idx ++ x ∷ []) idx-lt,
      length-append {0} (bucket_at t idx) (x ∷ []),
    );
    allocates = al.rest;
    unused = λ p i d. ground (arith, added-count p i, al.still p d, v.unused p i (al.still p d).0);
    housed = λ p i c. elim (eq_cases p x) [
      | inl e ↦ al.houses p (
          IsIdle-IsHoused t.heap t.allocator free p v.allocates
            (subst (IsIdle t.allocator free) (sym e) al.was_idle))
      | inr n ↦ al.houses p (v.housed p i (ground (arith, added-count p i, n)))
    ];
  }

  pub added_new : (q : Ptr) → Stored added q → Stored t q ⊎ (q ≡ x)
  added_new q s = elim (eq_cases q x) [ inl e ↦ inr e | inr n ↦ inl (added-Stored_inv q n s) ]

  -- In the new heap, too, no node of the bucket has these fields.
  pub still-Absent : Absent h' level low high (bucket_at t idx)
  still-Absent q c =
      let s = (Stored-of_bucket t free q idx v c).1 in
      rw (al.others q (old-ne_new q s)) (absent q c)
