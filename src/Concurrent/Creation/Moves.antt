-- ===== src/Concurrent/Creation/Moves.antt =====
-- Each step keeps the buckets safe, and leaves the other threads what they know.
use nanobdd.Base.{
  ℕ, ◌+◌, ◌<◌, ◌≡◌, ◌≢◌, ◌⊎◌, Bool, false, Option, none, some, inl, inr, eq_cases, [], ◌∷◌, ◌++◌,
  length, length-append, get_or, get_or-append_last, get_or-append_left, arith, refl, sym, ap,
  subst, ◌∙◌,
}
use nanobdd.Node.{Ptr, null}
use nanobdd.Platform.{Platform}
use nanobdd.Concurrent.Threads.{update, update_here, update_there}
use nanobdd.Concurrent.Creation.{Shared, Pc, set_reading, set_writer, pushed}
use nanobdd.Concurrent.Creation.Invariant.{size, node, IsSafe, IsKind}

pub some_injective : (i j : ℕ) → ◌≡◌ {A = Option ℕ} (some i) (some j) → i ≡ j
some_injective i j e = cc e

-- The vector after `push_back`.
pub pushed_cases :
    (m : Shared) (b : ℕ) (c : Ptr) (b' j : ℕ)
    → j < size (pushed m b c) b'
    → ((j < size m b') × (node (pushed m b c) b' j ≡ node m b' j))
      ⊎ ((b' ≡ b) × (j ≡ size m b) × (node (pushed m b c) b' j ≡ c))
pushed_cases m b c b' j lt = elim (eq_cases b' b) [
  | inr ne ↦
      let q = update_there m.nodes b b' (m.nodes b ++ c ∷ []) ne in
      inl (subst (λ l. j < length l) q lt, ap (λ l. get_or l j null) q)
  | inl e ↦
      let q = update_here m.nodes b b' (m.nodes b ++ c ∷ []) e in
      let lt' : j < size m b + 1 =
        omega (arith, subst (λ l. j < length l) q lt, length-append {0} (m.nodes b) (c ∷ [])) in
      elim (eq_cases j (size m b)) [
        | inl last ↦ inr (
          e,
          last,
          ap (λ l. get_or l j null) q
              ∙ ap (λ k. get_or (m.nodes b ++ c ∷ []) k null) last
              ∙ get_or-append_last {0} (m.nodes b) c null,
        )
        | inr ne ↦
            let old : j < size m b = omega arith in
            inl (
              subst (λ k. j < size m k) (sym e) old,
              ap (λ l. get_or l j null) q
                  ∙ get_or-append_left {0} (m.nodes b) c null j old
                  ∙ ap (λ k. node m k j) (sym e),
            )
      ]
]

pub pushed_old :
    (m : Shared) (b : ℕ) (c : Ptr) (b' j : ℕ)
    → j < size m b'
    → (j < size (pushed m b c) b') × (node (pushed m b c) b' j ≡ node m b' j)
pushed_old m b c b' j lt = elim (eq_cases b' b) [
  | inr ne ↦
      let q = update_there m.nodes b b' (m.nodes b ++ c ∷ []) ne in
      (subst (λ l. j < length l) (sym q) lt, ap (λ l. get_or l j null) q)
  | inl e ↦
      let q = update_here m.nodes b b' (m.nodes b ++ c ∷ []) e in
      let old : j < size m b = subst (λ k. j < size m k) e lt in
      let more : j < length (m.nodes b ++ c ∷ []) =
        omega (arith, old, length-append {0} (m.nodes b) (c ∷ [])) in
      (
        subst (λ l. j < length l) (sym q) more,
        ap (λ l. get_or l j null) q
            ∙ get_or-append_left {0} (m.nodes b) c null j old
            ∙ ap (λ k. node m k j) (sym e),
      )
]

module _ ⦃env : Platform⦄ (table_size : ℕ) where
  -- Only the locks change.
  module _ (m : Shared) (b i : ℕ) where
    same_reading :
        (b' j : ℕ) (v : Bool) → j ≢ i → (set_reading m b i v).reading b' j ≡ m.reading b' j
    same_reading b' j v ne = elim (eq_cases b' b) [
      | inl e ↦
          ap (λ g. g j) (update_here m.reading b b' (update (m.reading b) i v) e)
          ∙ update_there (m.reading b) i j v ne
          ∙ ap (λ k. m.reading k j) (sym e)
      | inr ne' ↦ ap (λ g. g j) (update_there m.reading b b' (update (m.reading b) i v) ne')
    ]

    pub held_same :
        (b' j : ℕ) (w : Option ℕ)
        → (m.writer b ≡ none) ⊎ (m.writer b ≡ some i)
        → j ≢ i
        → m.writer b' ≡ some j
        → update m.writer b w b' ≡ some j
    held_same b' j w before ne held = elim (eq_cases b' b) [
      | inr ne' ↦ update_there m.writer b b' w ne' ∙ held
      | inl e ↦
          let there : m.writer b ≡ some j = ap m.writer (sym e) ∙ held in
          elim before [
            | inl free ↦ absurd (cc (free, there))
            | inr own ↦ absurd (ne (some_injective j i (sym there ∙ own)))
          ]
    ]

    pub set_reading-IsKind : (p : Pc) (v : Bool) → IsKind table_size i p m (set_reading m b i v)
    set_reading-IsKind p v = record {
      larger = λ b'. omega arith;
      grow = λ b' j lt. (lt, refl);
      triple_same = λ b' j lt. refl;
      writer_same = λ b' j ne w. (w, refl);
      reading_same = λ b' j ne. same_reading b' j v ne;
      own = λ c k nh. (k, refl, refl);
    }

    pub set_writer-IsKind :
        (p : Pc) (w : Option ℕ)
        → (m.writer b ≡ none) ⊎ (m.writer b ≡ some i)
        → IsKind table_size i p m (set_writer m b w)
    set_writer-IsKind p w before = record {
      larger = λ b'. omega arith;
      grow = λ b' j lt. (lt, refl);
      triple_same = λ b' j lt. refl;
      writer_same = λ b' j ne held. (held_same b' j w before ne held, refl);
      reading_same = λ b' j ne. refl;
      own = λ c k nh. (k, refl, refl);
    }

    -- A reader enters while no thread writes, or leaves.
    pub set_reading-IsSafe :
        (v : Bool)
        → (v ≡ false) ⊎ (m.writer b ≡ none)
        → IsSafe table_size m
        → IsSafe table_size (set_reading m b i v)
    set_reading-IsSafe v ok_to safe = record {
      placed = safe.placed;
      unique = safe.unique;
      within = safe.within;
      positive = safe.positive;
      cells = safe.cells;
      chain = safe.chain;
      unused = safe.unused;
      once = safe.once;
      excluded = λ b' j w k. elim (eq_cases k i) [
        | inr ne ↦ same_reading b' k v ne ∙ safe.excluded b' j w k
        | inl e ↦ elim (eq_cases b' b) [
          | inr ne' ↦
              ap (λ g. g k) (update_there m.reading b b' (update (m.reading b) i v) ne')
              ∙ safe.excluded b' j w k
          | inl e' ↦ elim ok_to [
            | inl off ↦
                ap (λ g. g k) (update_here m.reading b b' (update (m.reading b) i v) e')
                ∙ update_here (m.reading b) i k v e
                ∙ off
            | inr free ↦
                let there : m.writer b ≡ some j = ap m.writer (sym e') ∙ w in
                absurd (cc (free, there))
          ]
        ]
      ];
    }

    -- A writer enters while no thread reads, or leaves.
    pub set_writer-IsSafe :
        (w : Option ℕ)
        → (w ≡ none) ⊎ ((j : ℕ) → m.reading b j ≡ false)
        → IsSafe table_size m
        → IsSafe table_size (set_writer m b w)
    set_writer-IsSafe w ok_to safe = record {
      placed = safe.placed;
      unique = safe.unique;
      within = safe.within;
      positive = safe.positive;
      cells = safe.cells;
      chain = safe.chain;
      unused = safe.unused;
      once = safe.once;
      excluded = λ b' j held k. elim (eq_cases b' b) [
        | inr ne ↦ safe.excluded b' j (sym (update_there m.writer b b' w ne) ∙ held) k
        | inl e ↦ elim ok_to [
          | inl off ↦
              let there : w ≡ some j = sym (update_here m.writer b b' w e) ∙ held in
              absurd (cc (off, there))
          | inr free ↦ ap (λ a. m.reading a k) e ∙ free k
        ]
      ];
    }
