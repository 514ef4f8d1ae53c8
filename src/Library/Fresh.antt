-- ===== src/Library/Fresh.antt =====
-- The table that `init` starts from: the constructor makes the terminals and holds them.
use nanobdd.Base.{
  ℕ, ◌+◌, ◌-◌, ◌≤◌, ◌≡◌, ◌≢◌, ◌⊎◌, inl, inr, Bool, true, false, List, [], length-replicate,
  get_or-replicate, count, total-replicate, arith, refl, sym, ap, ◌∙◌, subst, Returns,
}
use nanobdd.Node.{Ptr, null, Heap, ref}
use nanobdd.Allocator.{create, construct}
use nanobdd.Allocator.FreeList.{slots}
use nanobdd.Platform.{Platform, IsSane}
use nanobdd.Table.State.{NodeTable, uint_max}
use nanobdd.Table.Create.{blank, new_table}
use nanobdd.Table.Layout.{Stored, IsLaid, IsLaid-other, bucket_at, home_of}
use nanobdd.Table.Creation.{Created, get_or_create_node-Created}
use nanobdd.Table.Meaning.{terminal}
use nanobdd.Table.Marked.{IsTidy}
use nanobdd.Library.Counts.{IsCapped}
use nanobdd.Table.Reheap.{
  SameShape, ref-SameShape, ref-next_free, IsLaid-reheap, Stored-reheap, Stored-of_reheap,
}

module _ ⦃env : Platform⦄ (sane : IsSane env) (memory : Heap)
    (unused : (p : Ptr) → (memory p).in_use ≡ false) (size : ℕ) (enough : 2 ≤ size) where
  abbrev fresh : NodeTable
  fresh = let m = create env.place memory size 2 in blank m.0 m.1 size

  fresh_empty : (q : Ptr) (i : ℕ) → count q (bucket_at fresh i) ≡ 0
  unfolding blank
  fresh_empty q i = let none_there : List Ptr = [] in rw (get_or-replicate size i none_there)

  fresh-IsLaid : IsLaid fresh []
  unfolding create blank
  fresh-IsLaid = record {
    sized = omega arith;
    width = length-replicate size [];
    placed = λ p i. omega (arith, fresh_empty p i);
    no_null = λ i. fresh_empty null i;
    unique = λ p q a b x y z. absurd (omega (arith, fresh_empty p (home_of fresh p)));
    counted = sym (total-replicate size);
    allocates = record {
      chain = refl;
      based = sane.place_pos [] _;
      apart = λ p f. refl;
      housed = λ p c. absurd (omega arith);
      grows = omega arith;
    };
    unused = λ p i d. fresh_empty p i;
    housed = λ p i c. absurd (omega (arith, fresh_empty p i));
  }

  fresh_clean : (p : Ptr) → (fresh.heap p).in_use ≡ false
  unfolding create blank construct
  fresh_clean p = ground (arith, unused p)

  fresh_slots : slots fresh.allocator [] ≡ size
  unfolding create blank
  fresh_slots = omega arith

  -- What the constructor builds: the two terminals, and nothing else.
  pub record IsNew (t : NodeTable) : Type 0 where
    pub left : List Ptr
    pub laid : IsLaid t left
    pub false_stored : Stored t t.false_node
    pub true_stored : Stored t t.true_node
    pub false_level : (t.heap t.false_node).level ≡ uint_max
    pub true_level : (t.heap t.true_node).level ≡ uint_max - 1
    pub only : (p : Ptr) → Stored t p → (p ≡ t.false_node) ⊎ (p ≡ t.true_node)
    pub vars : t.vars ≡ []
    pub nvars : t.nvars ≡ []
    pub roomy : size ≤ slots t.allocator left + 2
    pub tidy : IsTidy t
    pub capped : IsCapped 1 t

  module _ (a : Ptr × NodeTable) (c : Created fresh [] uint_max null null a) where
    abbrev with_false : NodeTable
    with_false = record a.1 { false_node = a.0 }

    with_false-IsLaid : IsLaid with_false c.left
    with_false-IsLaid =
        IsLaid-other a.1 c.left a.0 a.1.true_node a.1.vars a.1.nvars a.1.cache c.laid

    module _ (b : Ptr × NodeTable) (d : Created with_false c.left (uint_max - 1) null null b) where
      abbrev with_true : NodeTable
      with_true = record b.1 { true_node = b.0 }

      abbrev pinned : NodeTable
      pinned = record with_true { heap = ref (ref with_true.heap a.0) b.0 }

      shape : SameShape with_true.heap pinned.heap
      shape =
          let x = ref-SameShape with_true.heap a.0 in
          let y = ref-SameShape (ref with_true.heap a.0) b.0 in
          record {
            level = λ p. y.level p ∙ x.level p;
            low = λ p. y.low p ∙ x.low p;
            high = λ p. y.high p ∙ x.high p;
          }

      -- The two terminals have different levels.
      apart : a.0 ≢ b.0
      apart e = absurd (
          omega (
            arith,
            d.level_eq,
            c.level_eq,
            ap (λ k. k.level) (d.extends.same a.0 c.stored),
            ap (λ p. (b.1.heap p).level) e,
          ))

      nothing_before : (p : Ptr) → Stored a.1 p → p ≡ a.0
      nothing_before p s = elim (c.only p s) [
        | inl old ↦ absurd (omega (arith, fresh_empty p (home_of fresh p)))
        | inr new ↦ new
      ]

      ref_counts : ((a.1.heap a.0).ref_count ≡ 0) × ((b.1.heap b.0).ref_count ≡ 0)
      ref_counts = (
        elim c.unprotected [
          | inl old ↦ absurd (omega (arith, fresh_empty a.0 (home_of fresh a.0)))
          | inr z ↦ z
        ],
        elim d.unprotected [ inl old ↦ absurd (apart (sym (nothing_before b.0 old))) | inr z ↦ z ],
      )

      pinned_counts : ((pinned.heap a.0).ref_count ≡ 1) × ((pinned.heap b.0).ref_count ≡ 1)
      unfolding ref
      pinned_counts =
          let (x, y) = ref_counts in
          let z : (b.1.heap a.0).ref_count ≡ 0 =
            ap (λ k. k.ref_count) (d.extends.same a.0 c.stored) ∙ x in
          (ground (arith, apart), ground (arith, apart))

      pinned_clean : (p : Ptr) → (pinned.heap p).in_use ≡ false
      unfolding ref
      pinned_clean p =
          let clean = d.unmarked (c.unmarked fresh_clean) in
          ground (arith, clean p, clean a.0, clean b.0)

      pinned_protected : (value : Bool) → (pinned.heap (terminal pinned value)).ref_count ≢ 0
      pinned_protected true = λ e. absurd (omega (arith, e, pinned_counts))
      pinned_protected false =
          subst (λ p. (pinned.heap p).ref_count ≢ 0) (sym d.extends.false_same)
            (λ e. absurd (omega (arith, e, pinned_counts)))

      false_same : b.1.heap b.1.false_node ≡ a.1.heap a.0
      false_same = ap b.1.heap d.extends.false_same ∙ d.extends.same a.0 c.stored

      pinned_low : (value : Bool) → (pinned.heap (terminal pinned value)).low ≡ null
      pinned_low true = shape.low b.0 ∙ d.low_eq
      pinned_low false = shape.low b.1.false_node ∙ ap (λ k. k.low) false_same ∙ c.low_eq

      pinned_high : (value : Bool) → (pinned.heap (terminal pinned value)).high ≡ null
      pinned_high true = shape.high b.0 ∙ d.high_eq
      pinned_high false = shape.high b.1.false_node ∙ ap (λ k. k.high) false_same ∙ c.high_eq

      pinned-IsTidy : IsTidy pinned
      pinned-IsTidy = record {
        unmarked = pinned_clean;
        protected = pinned_protected;
        no_low = pinned_low;
        no_high = pinned_high;
      }

      false_kept : Stored b.1 a.0
      false_kept = d.extends.keeps a.0 c.stored

      pinned-IsCapped : IsCapped 1 pinned
      pinned-IsCapped q s = elim (d.only q (Stored-of_reheap with_true pinned.heap shape q s)) [
        | inl old ↦ rw (nothing_before q old) (omega (arith, pinned_counts))
        | inr new ↦ rw new (omega (arith, pinned_counts))
      ]

      pinned-IsNew : IsNew pinned
      unfolding blank
      pinned-IsNew = record {
        left = d.left;
        laid =
            IsLaid-reheap with_true pinned.heap shape d.left
              (IsLaid-other b.1 d.left b.1.false_node b.0 b.1.vars b.1.nvars b.1.cache d.laid)
              (λ p.
                ref-next_free (ref with_true.heap a.0) b.0 p ∙ ref-next_free with_true.heap a.0 p);
        false_stored =
            Stored-reheap with_true pinned.heap shape _
              (subst (Stored b.1) (sym d.extends.false_same) false_kept);
        true_stored = Stored-reheap with_true pinned.heap shape b.0 d.stored;
        false_level =
            shape.level _
            ∙ ap (λ p. (b.1.heap p).level) d.extends.false_same
            ∙ ap (λ k. k.level) (d.extends.same a.0 c.stored)
            ∙ c.level_eq;
        true_level = shape.level b.0 ∙ d.level_eq;
        only = λ p s. elim (d.only p (Stored-of_reheap with_true pinned.heap shape p s)) [
          | inl old ↦ inl (nothing_before p old ∙ sym d.extends.false_same)
          | inr new ↦ inr new
        ];
        vars = d.vars ∙ c.vars;
        nvars = d.nvars ∙ c.nvars;
        roomy = omega (arith, fresh_slots, c.spent, d.spent);
        tidy = pinned-IsTidy;
        capped = pinned-IsCapped;
      }

  -- The constructor ends, in a table with the two terminals.
  pub new_table-IsNew : Returns (new_table memory size) IsNew
  unfolding new_table
  new_table-IsNew =
      let (a, run_a, c) =
        get_or_create_node-Created fresh [] uint_max null null fresh-IsLaid
          (omega (arith, fresh_slots)) in
      let (b, run_b, d) =
        get_or_create_node-Created (with_false a c) c.left (uint_max - 1) null null
          (with_false-IsLaid a c) (omega (arith, fresh_slots, c.spent)) in
      (pinned a c b d, rw (run_a, run_b), pinned-IsNew a c b d)
