-- ===== src/Jni/Results.antt =====
-- The native operators compute the function, and leave the reference counts as they were.
use nanobdd.Base.{
  ℕ, ◌+◌, ◌%◌, ◌^◌, ◌≤◌, ◌<◌, ◌≡◌, ◌≢◌, ◌==◌, ◌⊎◌, inl, inr, eq_cases, if◌then◌else◌, Bool, true,
  not, ◌&&◌, ◌||◌, some, List, ok, Returns, arith, refl, sym, ap, subst, ◌∙◌,
}
use nanobdd.Tree.{Assignment}
use nanobdd.Node.{Ptr, null, Heap, ref, deref}
use nanobdd.Allocator.FreeList.{slots}
use nanobdd.Platform.{Platform}
use nanobdd.Table.State.{NodeTable}
use nanobdd.Table.Operations.{Op}
use nanobdd.Table.Layout.{Stored, Stored-ne_null}
use nanobdd.Table.Meaning.{Means, terminal, terminal-Stored}
use nanobdd.Table.Cofactor.{Represents-Stored}
use nanobdd.Table.Expand.{cost}
use nanobdd.Table.After.{
  IsAfter, IsAfter-trans, raised, lowered, lowered-Stored, raised-Stored, ref-IsAfter,
  deref-IsAfter, ref-IsValid, deref-IsValid,
}
use nanobdd.Table.Semantics.{IsValid}
use nanobdd.Handle.{construct, destroy, release, and_of, or_of, not_of, diff_of}
use nanobdd.Library.{Library}
use nanobdd.Library.Start.{IsReady}
use nanobdd.Library.After.{after-HasAll, terminal_after}
use nanobdd.Jni.{with_table, unary, binary, native_not, native_and, native_or, native_diff}
use nanobdd.Handle.Results.{
  Owned, Owned-IsAfter, and_of-Owned, or_of-Owned, not_of-Owned, diff_of-Owned,
}

-- A reference that was taken is given back.
undone :
    (h : Heap) (p q : Ptr) (k : ℕ)
    → k < 2 ^ 32
    → (h q).ref_count ≡ (if q == p then (k + 1) % 2 ^ 32 else k)
    → (deref h p q).ref_count ≡ k
unfolding deref
undone h p q k small e = ground arith

unmoved : (h : Heap) (p q : Ptr) → q ≢ p → (deref h p q).ref_count ≡ (h q).ref_count
unfolding deref
unmoved h p q ne = ground arith

taken :
    (h : Heap) (p q : Ptr)
    → (h q).ref_count < 2 ^ 32
    → ((ref h p q).ref_count ≡ (if q == p then ((h q).ref_count + 1) % 2 ^ 32 else (h q).ref_count))
      × ((ref h p q).ref_count < 2 ^ 32)
unfolding ref
taken h p q small = ground arith

module _ ⦃env : Platform⦄ where
  -- Counts are 32-bit numbers.
  abbrev pub IsU32 : NodeTable → Type 0
  IsU32 t = (q : Ptr) → Stored t q → (t.heap q).ref_count < 2 ^ 32

module _ ⦃env : Platform⦄ (n : ℕ) (free : List Ptr) where
  -- A result that nothing refers to: the old nodes have the counts that they had, and the new ones
  -- have none.
  pub record Computed (t : NodeTable) (f : Assignment → Bool) (r : Ptr × NodeTable) : Type 0 where
    pub left : List Ptr
    pub valid : IsValid n r.1 left
    pub means : Means n r.1 r.0 f
    pub after : IsAfter n t r.1
    pub same : (q : Ptr) → Stored t q → (r.1.heap q).ref_count ≡ (t.heap q).ref_count
    pub fresh : (q : Ptr) → Stored r.1 q → Stored t q ⊎ ((r.1.heap q).ref_count ≡ 0)
    pub spent : slots t.allocator free ≤ slots r.1.allocator left + cost n

  -- The handle on the result is destroyed.
  pub dropped-Computed :
      (t : NodeTable) (f : Assignment → Bool) (p : Ptr) (u : NodeTable)
      → IsU32 t
      → Owned n t free f (p, u)
      → Computed t f (p, lowered u p)
  dropped-Computed t f p u small w =
      let down = deref-IsAfter n u p in
      record {
        left = w.left;
        valid = deref-IsValid n u p w.left w.valid;
        means = down.keeps p f w.means;
        after = IsAfter-trans n t u (lowered u p) (Owned-IsAfter n t free f (p, u) w) down;
        same = λ q st. undone u.heap p q _ (small q st) (w.raised q st);
        fresh = λ q st. elim (w.fresh q (lowered-Stored u p q st)) [
          | inl old ↦ inl old
          | inr e ↦ inr (undone u.heap p q 0 (omega arith) (ground arith))
        ];
        spent = w.spent;
      }

  -- The handle on an operand is destroyed.
  pub around-Computed :
      (t : NodeTable) (f : Assignment → Bool) (x p : Ptr) (u : NodeTable)
      → IsU32 t
      → Stored t x
      → Computed (raised t x) f (p, u)
      → Computed t f (p, lowered u x)
  around-Computed t f x p u small there c =
      let up = ref-IsAfter n t x in
      let down = deref-IsAfter n u x in
      record {
        left = c.left;
        valid = deref-IsValid n u x c.left c.valid;
        means = down.keeps p f c.means;
        after =
            IsAfter-trans n t (raised t x) (lowered u x) up
              (IsAfter-trans n (raised t x) u (lowered u x) c.after down);
        same = λ q st.
            undone u.heap x q _ (small q st)
              (c.same q (up.kept q st) ∙ (taken t.heap x q (small q st)).0);
        fresh = λ q st. elim (c.fresh q (lowered-Stored u x q st)) [
          | inl old ↦ inl (raised-Stored t x q old)
          | inr e ↦ elim (eq_cases q x) [
            | inl here ↦ inl (subst (Stored t) (sym here) there)
            | inr ne ↦ inr (unmoved u.heap x q ne ∙ e)
          ]
        ];
        spent = c.spent;
      }

  raised-IsU32 : (t : NodeTable) (x : Ptr) → IsU32 t → IsU32 (raised t x)
  raised-IsU32 t x small q st = (taken t.heap x q (small q (raised-Stored t x q st))).1

-- The run of a call whose operator does its part.
pub destroyed : (h : Heap) (p : Ptr) → p ≢ null → destroy true p h ≡ deref h p
unfolding destroy release
destroyed h p ne = ground (arith, ne)

pub constructed : (h : Heap) (p : Ptr) → p ≢ null → construct p h ≡ ok (ref h p)
unfolding construct
constructed h p ne = ground (arith, ne)

module _ (g : Library) (t : NodeTable) (x p : Ptr) (u : NodeTable) (there : g.node_table ≡ some t)
    (x_ne : x ≢ null) (p_ne : p ≢ null) where
  unary_returns :
      (op : Ptr → Op)
      → op x (raised t x) ≡ ok (p, u)
      → unary op x g ≡ ok (p, with_table g (lowered (lowered u p) x))
  unfolding unary
  unary_returns op run =
      rw
        (
          there,
          constructed t.heap x x_ne,
          run,
          destroyed u.heap p p_ne,
          destroyed (deref u.heap p) x x_ne,
        )
        refl

  binary_returns :
      (op : Ptr → Ptr → Op) (y : Ptr)
      → y ≢ null
      → op x y (raised (raised t x) y) ≡ ok (p, u)
      → binary op x y g ≡ ok (p, with_table g (lowered (lowered (lowered u p) y) x))
  unfolding binary
  binary_returns op y y_ne run =
      rw
        (
          there,
          constructed t.heap x x_ne,
          constructed (ref t.heap x) y y_ne,
          run,
          destroyed u.heap p p_ne,
          destroyed (deref u.heap p) y y_ne,
          destroyed (deref (deref u.heap p) y) x x_ne,
        )
        refl

module _ ⦃env : Platform⦄ (n fuel room : ℕ) (deep : n < fuel) (g : Library)
    (ready : IsReady n (room + cost n) g) (small : IsU32 ready.table) where
  abbrev t : NodeTable
  t = ready.table

  abbrev left : List Ptr
  left = ready.all.left

  -- The library stays ready, with the result as `Computed` says.
  pub record Answer (f : Assignment → Bool) (r : Ptr × Library) : Type 0 where
    pub still : IsReady n room r.1
    pub computed : Computed n left t f (r.0, still.table)

  valid : IsValid n t left
  valid = record { laid = ready.all.laid; sound = ready.all.sound }

  answer :
      (f : Assignment → Bool) (p : Ptr) (u : NodeTable)
      → Computed n left t f (p, u)
      → Answer f (p, with_table g u)
  answer f p u c =
      let terminal_same : (b : Bool)
          → (u.heap (terminal t b)).ref_count ≡ (t.heap (terminal t b)).ref_count =
        λ b. c.same _ (terminal-Stored n t ready.all.sound b) in
      record {
        still = record {
          table = u;
          loaded_eq = refl;
          var_num_eq = ready.var_num_eq;
          all =
              after-HasAll n room (room + cost n) t u ready.all c.after c.left c.valid
                (λ b e. ready.all.tidy.protected b (
                  sym (terminal_same b)
                  ∙ ap (λ q. (u.heap q).ref_count) (sym (terminal_after n t u c.after b))
                  ∙ e))
                (omega (arith, c.spent, ready.all.free_slots));
        };
        computed = c;
      }

  means-Stored : (p : Ptr) (f : Assignment → Bool) → Means n t p f → Stored t p
  means-Stored p f m = Represents-Stored n t m.tree p ready.all.sound m.represents

  Owned-ne_null :
      (s : NodeTable) (f : Assignment → Bool) (p : Ptr) (u : NodeTable)
      → Owned n s left f (p, u)
      → p ≢ null
  Owned-ne_null s f p u w =
      Stored-ne_null u w.left p w.valid.laid
        (Represents-Stored n u w.means.tree p w.valid.sound w.means.represents)

  unary-Answer :
      (op : Ptr → Op) (x : Ptr) (f k : Assignment → Bool)
      → Means n t x f
      → (IsValid n (raised t x) left
          → Means n (raised t x) x f
          → Returns (op x (raised t x)) (Owned n (raised t x) left k))
      → Returns (unary op x g) (Answer k)
  unary-Answer op x f k m right =
      let st = means-Stored x f m in
      let ((p, u), run, w) =
        right (ref-IsValid n t x left valid) ((ref-IsAfter n t x).keeps x f m) in
      (
        (p, with_table g (lowered (lowered u p) x)),
        unary_returns g t x p u ready.loaded_eq (Stored-ne_null t left x ready.all.laid st)
            (Owned-ne_null (raised t x) k p u w) op run,
        answer k p _ (
            around-Computed n left t k x p _ small st
              (dropped-Computed n left (raised t x) k p u (raised-IsU32 n left t x small) w)),
      )

  binary-Answer :
      (op : Ptr → Ptr → Op) (x y : Ptr) (f h k : Assignment → Bool)
      → Means n t x f
      → Means n t y h
      → (IsValid n (raised (raised t x) y) left
          → Means n (raised (raised t x) y) x f
          → Means n (raised (raised t x) y) y h
          → Returns (op x y (raised (raised t x) y)) (Owned n (raised (raised t x) y) left k))
      → Returns (binary op x y g) (Answer k)
  binary-Answer op x y f h k mx my right =
      let t1 = raised t x in
      let t2 = raised t1 y in
      let up = IsAfter-trans n t t1 t2 (ref-IsAfter n t x) (ref-IsAfter n t1 y) in
      let sx = means-Stored x f mx in
      let sy = means-Stored y h my in
      let small1 = raised-IsU32 n left t x small in
      let ((p, u), run, w) =
        right (ref-IsValid n t1 y left (ref-IsValid n t x left valid)) (up.keeps x f mx)
          (up.keeps y h my) in
      (
        (p, with_table g (lowered (lowered (lowered u p) y) x)),
        binary_returns g t x p u ready.loaded_eq (Stored-ne_null t left x ready.all.laid sx)
            (Owned-ne_null t2 k p u w) op y (Stored-ne_null t left y ready.all.laid sy) run,
        answer k p _ (
            around-Computed n left t k x p _ small sx (
              around-Computed n left t1 k y p _ small1 ((ref-IsAfter n t x).kept y sy)
                (dropped-Computed n left t2 k p u (raised-IsU32 n left t1 y small1) w))),
      )

  enough : cost n ≤ slots t.allocator left
  enough = omega (arith, ready.all.free_slots)

  -- In a ready library with slots for `cost n` nodes, for the nodes `x` and `y` of functions, and with
  -- fuel above the number of variables, the native `and` returns the node of the conjunction. The
  -- library stays ready, with `cost n` slots less; the old nodes stay and keep their functions and
  -- their reference counts, and nothing refers to the new ones, the result among them.
  pub native_and-Answer :
      (x y : Ptr) (f h : Assignment → Bool)
      → Means n t x f
      → Means n t y h
      → Returns (native_and fuel x y g) (Answer (λ e. f e && h e))
  unfolding native_and
  native_and-Answer x y f h mx my =
      binary-Answer (and_of fuel) x y f h _ mx my
        (λ v a b. and_of-Owned n _ left fuel x y f h v a b deep enough)

  pub native_or-Answer :
      (x y : Ptr) (f h : Assignment → Bool)
      → Means n t x f
      → Means n t y h
      → Returns (native_or fuel x y g) (Answer (λ e. f e || h e))
  unfolding native_or
  native_or-Answer x y f h mx my =
      binary-Answer (or_of fuel) x y f h _ mx my
        (λ v a b. or_of-Owned n _ left fuel x y f h v a b deep enough)

  pub native_diff-Answer :
      (x y : Ptr) (f h : Assignment → Bool)
      → Means n t x f
      → Means n t y h
      → Returns (native_diff fuel x y g) (Answer (λ e. f e && not (h e)))
  unfolding native_diff
  native_diff-Answer x y f h mx my =
      binary-Answer (diff_of fuel) x y f h _ mx my
        (λ v a b. diff_of-Owned n _ left fuel x y f h v a b deep enough)

  pub native_not-Answer :
      (x : Ptr) (f : Assignment → Bool)
      → Means n t x f
      → Returns (native_not fuel x g) (Answer (λ e. not (f e)))
  unfolding native_not
  native_not-Answer x f m =
      unary-Answer (not_of fuel) x f _ m (λ v a. not_of-Owned n _ left fuel x f v a deep enough)
