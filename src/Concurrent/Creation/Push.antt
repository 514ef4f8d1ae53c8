-- ===== src/Concurrent/Creation/Push.antt =====
-- The candidate that is put at the end of its bucket.
use nanobdd.Base.{
  ℕ, ◌≤◌, ◌<◌, ◌≡◌, ◌≢◌, none, some, inl, inr, eq_cases, [], ◌∷◌, ◌++◌, length, length-append,
  get_or, get_or-append_last, arith, refl, sym, ap, subst, ◌∙◌,
}
use nanobdd.Node.{Ptr, null}
use nanobdd.Platform.{Platform}
use nanobdd.Concurrent.Threads.{update_here, update_there}
use nanobdd.Concurrent.Creation.{Triple, Shared, Pc, pushed}
use nanobdd.Concurrent.Creation.Invariant.{
  size, node, Holds, home_at, Mine, Got, Before, IsSafe, IsKind,
}
use nanobdd.Concurrent.Creation.Moves.{pushed_cases, pushed_old, held_same, some_injective}

module _ ⦃env : Platform⦄ (table_size : ℕ) (i : ℕ) (m : Shared) (key : Triple) (c : Ptr)
    (safe : IsSafe table_size m) (mine : Mine table_size m key c)
    (held : m.writer (home_at table_size key) ≡ some i)
    (absent : Before table_size m key (size m (home_at table_size key))) where
  abbrev b : ℕ
  b = home_at table_size key

  abbrev m' : Shared
  m' = pushed m b c

  old-ne : (b' j : ℕ) → b' ≡ b → j < size m b' → m.triple (node m b' j) ≢ m.triple c
  old-ne b' j e lt same =
      absent j (subst (λ k. j < size m k) e lt)
        (ap (λ k. m.triple (node m k j)) (sym e) ∙ same ∙ mine.1)

  pub pushed-IsSafe : IsSafe table_size m'
  pushed-IsSafe = record {
    placed = λ b' j lt. elim (pushed_cases m b c b' j lt) [
      | inl (old, e) ↦
          let (used, here) = safe.placed b' j old in
          (ap m.taken e ∙ used, ap (λ q. home_at table_size (m.triple q)) e ∙ here)
      | inr (e, last, new) ↦ (
        ap m.taken new ∙ mine.0.0,
        ap (λ q. home_at table_size (m.triple q)) new ∙ ap (home_at table_size) mine.1 ∙ sym e,
      )
    ];
    unique = λ b' j k lt lt' same. elim (pushed_cases m b c b' j lt) [
      | inl (old, e) ↦ elim (pushed_cases m b c b' k lt') [
        | inl (old', e') ↦ safe.unique b' j k old old' (ap m.triple (sym e) ∙ same ∙ ap m.triple e')
        | inr (z, last', new') ↦
            absurd (old-ne b' j z old (ap m.triple (sym e) ∙ same ∙ ap m.triple new'))
      ]
      | inr (z, last, new) ↦ elim (pushed_cases m b c b' k lt') [
        | inl (old', e') ↦
            absurd (old-ne b' k z old' (ap m.triple (sym e') ∙ sym same ∙ ap m.triple new))
        | inr (z', last', new') ↦ last ∙ sym last'
      ]
    ];
    within = safe.within;
    positive = safe.positive;
    cells = safe.cells;
    chain = safe.chain;
    unused = safe.unused;
    once = safe.once;
    excluded = λ b' j w k. elim (eq_cases b' b) [
      | inl e ↦ absurd (cc (update_here m.writer b b' none e, w))
      | inr ne ↦ safe.excluded b' j (sym (update_there m.writer b b' none ne) ∙ w) k
    ];
  }

  pushed_larger : (b' : ℕ) → size m b' ≤ size m' b'
  pushed_larger b' = elim (eq_cases b' b) [
    | inl e ↦
        let longer : size m b ≤ length (m.nodes b ++ c ∷ []) =
          omega (arith, length-append {0} (m.nodes b) (c ∷ [])) in
        subst (λ l. size m b' ≤ length l) (sym (update_here m.nodes b b' (m.nodes b ++ c ∷ []) e))
          (subst (λ k. size m k ≤ length (m.nodes b ++ c ∷ [])) (sym e) longer)
    | inr ne ↦
        subst (λ l. size m b' ≤ length l) (sym (update_there m.nodes b b' (m.nodes b ++ c ∷ []) ne))
          (omega arith)
  ]

  -- A bucket that another thread has locked stays as it is.
  others_same : (b' j : ℕ) → j ≢ i → m.writer b' ≡ some j → size m' b' ≡ size m b'
  others_same b' j ne w = elim (eq_cases b' b) [
    | inl e ↦
        let there : m.writer b ≡ some j = ap m.writer (sym e) ∙ w in
        absurd (ne (some_injective j i (sym there ∙ held)))
    | inr apart ↦ ap length (update_there m.nodes b b' (m.nodes b ++ c ∷ []) apart)
  ]

  pub pushed-IsKind : (p : Pc) → Holds p c → IsKind table_size i p m m'
  pushed-IsKind p holds = record {
    larger = pushed_larger;
    grow = pushed_old m b c;
    triple_same = λ b' j lt. refl;
    writer_same =
        λ b' j ne w. (held_same table_size m b i b' j none (inr held) ne w, others_same b' j ne w);
    reading_same = λ b' j ne. refl;
    own = λ d (used, out) nh. (
      (
        used,
        λ b' j lt z. elim (pushed_cases m b c b' j lt) [
          | inl (old, same) ↦ out b' j old (sym same ∙ z)
          | inr (e', last, new) ↦ nh (subst (Holds p) (sym new ∙ z) holds)
        ],
      ),
      refl,
      refl,
    );
  }

  pub pushed-Got : Got table_size m' key c
  pushed-Got =
      let q = update_here m.nodes b b (m.nodes b ++ c ∷ []) refl in
      (
        size m b,
        subst (λ l. size m b < length l) (sym q)
            (omega (arith, length-append {0} (m.nodes b) (c ∷ []))),
        ap (λ l. get_or l (size m b) null) q ∙ get_or-append_last {0} (m.nodes b) c null,
        mine.1,
      )
