-- ===== src/Table/Caching.antt =====
-- The cache as the operations use it: a hit is the right result, and a right result may be kept.
use nanobdd.Base.{
  ℕ, ◌<◌, ◌≡◌, ◌≢◌, ◌⊎◌, inl, inr, Bool, true, ◌==◌, List, length, length-set, get_or, get_or-set,
  set, arith, refl, sym, ap, ◌∙◌, subst, Returns, Bool-cases,
}
use mathlib.Core.Bool.{xor}
use nanobdd.Tree.{Assignment}
use nanobdd.Node.{Ptr, null}
use nanobdd.Cache.{Operator, code, Entry, empty_entry, Cache, is_commutative, hit, lookup, insert}
use nanobdd.Cache.Laws.{
  code-injective, hit-op, hit-operands, lookup-IsAnswer, IsKept, insert-IsKept,
}
use nanobdd.Platform.{Platform}
use nanobdd.Table.State.{NodeTable}
use nanobdd.Table.Layout.{IsLaid, IsLaid-other, Stored-ne_null, Extends}
use nanobdd.Table.Meaning.{
  Means, meaning, IsRight, IsResult, IsSound, Means-functional, Represents-Extends,
}
use nanobdd.Table.Combine.{IsResult-Extends}
use nanobdd.Table.Cofactor.{Represents-Stored}

module _ ⦃env : Platform⦄ (n : ℕ) (t : NodeTable) (free : List Ptr) (v : IsLaid t free)
    (s : IsSound n t) where
  Means-ne_null : (p : Ptr) (f : Assignment → Bool) → Means n t p f → p ≢ null
  Means-ne_null p f m = Stored-ne_null t free p v (Represents-Stored n t m.tree p s m.represents)

  -- The second operands agree as far as the operator reads them.
  right_agree :
      (op : Operator) (p : Ptr) (f g : Assignment → Bool) (b : Bool)
      → IsRight n t op p f
      → IsRight n t op p g
      → (a : Assignment) → meaning op b (f a) ≡ meaning op b (g a)
  right_agree Operator.neg p f g b x y a = refl
  right_agree Operator.and p f g b x y a =
      ap (λ c. meaning Operator.and b c) (Means-functional n t s p f g x y a)
  right_agree Operator.or p f g b x y a =
      ap (λ c. meaning Operator.or b c) (Means-functional n t s p f g x y a)
  right_agree Operator.xor p f g b x y a =
      ap (λ c. meaning Operator.xor b c) (Means-functional n t s p f g x y a)
  right_agree Operator.diff p f g b x y a =
      ap (λ c. meaning Operator.diff b c) (Means-functional n t s p f g x y a)
  right_agree Operator.imp p f g b x y a =
      ap (λ c. meaning Operator.imp b c) (Means-functional n t s p f g x y a)

  Means_ext :
      (p : Ptr) (f g : Assignment → Bool)
      → ((a : Assignment) → f a ≡ g a)
      → Means n t p f
      → Means n t p g
  Means_ext p f g e m = record {
    tree = m.tree;
    robdd = m.robdd;
    represents = m.represents;
    evaluates = λ a. m.evaluates a ∙ e a;
  }

  -- An entry for the operands in order.
  straight :
      (op : Operator) (x y p : Ptr) (f g f' g' : Assignment → Bool)
      → Means n t x f
      → IsRight n t op y g
      → Means n t x f'
      → IsRight n t op y g'
      → Means n t p (λ a. meaning op (f' a) (g' a))
      → Means n t p (λ a. meaning op (f a) (g a))
  straight op x y p f g f' g' mf mg mf' mg' = Means_ext p _ _ (λ a.
      ap (λ b. meaning op b (g' a)) (Means-functional n t s x f' f mf' mf a)
      ∙ right_agree op y g' g (f a) mg' mg a)

  -- An entry for the operands the other way round.
  crossed :
      (op : Operator) (x y p : Ptr) (f g f' g' : Assignment → Bool)
      → is_commutative (code op) ≡ true
      → Means n t x f
      → IsRight n t op y g
      → Means n t y f'
      → IsRight n t op x g'
      → Means n t p (λ a. meaning op (f' a) (g' a))
      → Means n t p (λ a. meaning op (f a) (g a))
  unfolding xor
  crossed Operator.neg x y p f g f' g' c mf mg mf' mg' = absurd (Means-ne_null x f mf mg')
  crossed Operator.and x y p f g f' g' c mf mg mf' mg' = Means_ext p _ _ (λ a.
      ground
        (arith, Means-functional n t s y f' g mf' mg a, Means-functional n t s x g' f mg' mf a))
  crossed Operator.or x y p f g f' g' c mf mg mf' mg' = Means_ext p _ _ (λ a.
      ground
        (arith, Means-functional n t s y f' g mf' mg a, Means-functional n t s x g' f mg' mf a))
  crossed Operator.xor x y p f g f' g' c mf mg mf' mg' = Means_ext p _ _ (λ a.
      ground
        (arith, Means-functional n t s y f' g mf' mg a, Means-functional n t s x g' f mg' mf a))
  crossed Operator.diff x y p f g f' g' c mf mg mf' mg' = cc
  crossed Operator.imp x y p f g f' g' c mf mg mf' mg' = cc

  -- A hit in a sound cache is the right result.
  hit-Means :
      (e : Entry) (x y : Ptr) (op : Operator) (f g : Assignment → Bool)
      → IsResult n t e
      → hit e x y (code op) ≡ true
      → Means n t x f
      → IsRight n t op y g
      → Means n t e.node (λ a. meaning op (f a) (g a))
  hit-Means e x y op f g r h mf mg =
      let same = code-injective r.op op (sym r.op_eq ∙ hit-op e x y (code op) h) in
      let mr = subst (λ o. IsRight n t o e.right r.right_value) same r.right in
      let mn =
        subst (λ o. Means n t e.node (λ a. meaning o (r.left_value a) (r.right_value a))) same
          r.node in
      elim (hit-operands e x y (code op) h) [
        | inl (l, k) ↦
            straight op x y e.node f g r.left_value r.right_value mf mg
              (subst (λ q. Means n t q r.left_value) l r.left)
              (subst (λ q. IsRight n t op q r.right_value) k mr) mn
        | inr (c, l, k) ↦
            crossed op x y e.node f g r.left_value r.right_value c mf mg
              (subst (λ q. Means n t q r.left_value) l r.left)
              (subst (λ q. IsRight n t op q r.right_value) k mr) mn
      ]

  -- In a sound table, for an index inside the cache and operands with a meaning, `lookup` returns null
  -- or the node of the operation's result.
  pub lookup-Means :
      (hash : ℕ) (x y : Ptr) (op : Operator) (f g : Assignment → Bool)
      → hash < length t.cache
      → Means n t x f
      → IsRight n t op y g
      → Returns
          (lookup t.cache hash x y op)
          (λ c. (c ≡ null) ⊎ ((c ≢ null) × Means n t c (λ a. meaning op (f a) (g a))))
  lookup-Means hash x y op f g lt mf mg =
      let (c, run, o) = lookup-IsAnswer t.cache hash x y op lt in
      (
        c,
        run,
        elim o [
          | inl z ↦ inl z
          | inr (ne, h, same) ↦ inr (
            ne,
            elim (s.cached hash) [
              | inl z ↦ absurd (ne (same ∙ z))
              | inr r ↦
                  subst (λ q. Means n t q (λ a. meaning op (f a) (g a))) (sym same)
                    (hit-Means _ x y op f g r h mf mg)
            ],
          )
        ],
      )

  recached-Extends : (cache : Cache) → Extends t (record t { cache = cache })
  recached-Extends cache = record {
    keeps = λ p st. st;
    same = λ p st. refl;
    false_same = refl;
    true_same = refl;
  }

  pub recached-IsLaid : (cache : Cache) → IsLaid (record t { cache = cache }) free
  recached-IsLaid cache = IsLaid-other t free t.false_node t.true_node t.vars t.nvars cache v

  -- Another cache, of right results only.
  recached-IsSound :
      (cache : Cache)
      → 0 < length cache
      → ((i : ℕ)
          → (get_or cache i empty_entry).node ≡ null ⊎ IsResult n t (get_or cache i empty_entry))
      → IsSound n (record t { cache = cache })
  recached-IsSound cache sized right =
      let u : NodeTable = record t { cache = cache } in
      record {
        few = s.few;
        cache_sized = sized;
        false_stored = s.false_stored;
        true_stored = s.true_stored;
        false_level = s.false_level;
        true_level = s.true_level;
        closed = λ p st.
            let (tree, r, x) = s.closed p st in
            (tree, r, Represents-Extends t u tree p (recached-Extends cache) x);
        cached = λ i. elim (right i) [
          | inl z ↦ inl z
          | inr r ↦
              inr (IsResult-Extends n t u (get_or cache i empty_entry) (recached-Extends cache) r)
        ];
      }

  module _ (hash : ℕ) (x y p : Ptr) (op : Operator) (f g : Assignment → Bool)
      (lt : hash < length t.cache) (mf : Means n t x f) (mg : IsRight n t op y g)
      (mp : Means n t p (λ a. meaning op (f a) (g a))) where
    kept_right :
        (e : Entry)
        → IsKept (get_or t.cache hash empty_entry) p x y (code op) e
        → e.node ≡ null ⊎ IsResult n t e
    kept_right e (inl k) = subst (λ d. d.node ≡ null ⊎ IsResult n t d) (sym k) (s.cached hash)
    kept_right e (inr k) =
        subst (λ d. d.node ≡ null ⊎ IsResult n t d) (sym k)
          (inr (record {
            op = op;
            op_eq = refl;
            left_value = f;
            right_value = g;
            left = mf;
            right = mg;
            node = mp;
          }))

    -- A right result may be kept.
    pub insert-IsSound : Returns (insert t.cache hash p x y op) (λ cache.
        (length cache ≡ length t.cache)
        × IsLaid (record t { cache = cache }) free
        × IsSound n (record t { cache = cache })
        × Extends t (record t { cache = cache }))
    insert-IsSound =
        let (e, run, k) = insert-IsKept t.cache hash p x y op lt in
        let cache = set t.cache hash e in
        let size = length-set t.cache hash e in
        (
          cache,
          run,
          (
            size,
            recached-IsLaid cache,
            recached-IsSound cache (omega (arith, size)) (λ i.
                rw (get_or-set t.cache hash i e empty_entry lt) (elim (Bool-cases (hash == i)) [
                  | inl z ↦ rw z (kept_right e k)
                  | inr z ↦ rw z (s.cached i)
                ])),
            recached-Extends cache,
          ),
        )
