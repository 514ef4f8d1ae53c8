-- ===== src/Library/Counts.antt =====
-- The reference counts while a library starts: which nodes are held, and how high the counts are.
use nanobdd.Base.{
  get_or-append_last, get_or-append_left, ℕ, suc, ◌+◌, ◌^◌, ◌≤◌, ◌<◌, inl, inr, List, [], ◌∷◌, ◌++◌,
  length, get_or, arith, sym, ap, subst, eq_cases,
}
use nanobdd.Node.{Ptr, null, Heap, ref}
use nanobdd.Platform.{Platform}
use nanobdd.Table.State.{NodeTable}
use nanobdd.Table.Layout.{Stored, Extends}
use nanobdd.Table.Creation.{Created}
use nanobdd.Table.Reheap.{ref-SameShape, Stored-reheap, Stored-of_reheap}

-- What holds of each place of a list, and of a node that is appended to it.
pub extend_list :
    (P : ℕ → Ptr → Type 0) (xs : List Ptr) (p : Ptr)
    → ((i : ℕ) → i < length xs → P i (get_or xs i null))
    → P (length xs) p
    → (i : ℕ) → i < suc (length xs)
    → P i (get_or (xs ++ p ∷ []) i null)
extend_list P xs p old new i lt = elim (eq_cases i (length xs)) [
  | inl e ↦ rw e (subst (P (length xs)) (sym (get_or-append_last xs p null)) new)
  | inr ne ↦
      let less : i < length xs = omega arith in
      subst (P i) (sym (get_or-append_left xs p null i less)) (old i less)
]

ref-capped :
    (h : Heap) (p q : Ptr) (limit : ℕ)
    → (h q).ref_count ≤ limit
    → limit + 1 < 2 ^ 32
    → ((ref h p q).ref_count ≤ limit + 1) × ((h q).ref_count ≤ (ref h p q).ref_count)
unfolding ref
ref-capped h p q limit le small = ground arith

ref-held :
    (h : Heap) (p : Ptr) (limit : ℕ)
    → (h p).ref_count ≤ limit
    → limit + 1 < 2 ^ 32
    → 0 < (ref h p p).ref_count
unfolding ref
ref-held h p limit le small = ground arith

module _ ⦃env : Platform⦄ where
  -- A stored node with a reference.
  abbrev pub IsHeld : NodeTable → Ptr → Type 0
  IsHeld t q = Stored t q × (0 < (t.heap q).ref_count)

  -- No count is above `limit`.
  abbrev pub IsCapped : ℕ → NodeTable → Type 0
  IsCapped limit t = (q : Ptr) → Stored t q → (t.heap q).ref_count ≤ limit

  -- The variables are held, and no count is above `limit`.
  pub record Counts (limit : ℕ) (t : NodeTable) : Type 0 where
    pub capped : IsCapped limit t
    pub vars_held : (i : ℕ) → i < length t.vars → IsHeld t (get_or t.vars i null)
    pub nvars_held : (i : ℕ) → i < length t.nvars → IsHeld t (get_or t.nvars i null)

  pub IsHeld-Extends : (t u : NodeTable) (q : Ptr) → Extends t u → IsHeld t q → IsHeld u q
  IsHeld-Extends t u q x (st, lt) =
      (x.keeps q st, subst (λ k. 0 < k) (sym (ap (λ k. k.ref_count) (x.same q st))) lt)

  pub Created-IsCapped :
      (limit : ℕ) (t : NodeTable) (free : List Ptr) (level : ℕ) (low high : Ptr)
      (r : Ptr × NodeTable)
      → Created t free level low high r
      → IsCapped limit t
      → IsCapped limit r.1
  Created-IsCapped limit t free level low high r c cap q st =
      let before : (p : Ptr) → Stored t p → (r.1.heap p).ref_count ≤ limit = λ p s.
        subst (λ k. k ≤ limit) (sym (ap (λ k. k.ref_count) (c.extends.same p s))) (cap p s) in
      elim (c.only q st) [
        | inl old ↦ before q old
        | inr e ↦ elim c.unprotected [
          | inl old ↦ rw e (before r.0 old)
          | inr z ↦ rw e (omega arith)
        ]
      ]

  module _ (limit : ℕ) (small : limit + 1 < 2 ^ 32) (t : NodeTable) (cap : IsCapped limit t)
      (p : Ptr) (vs ns : List Ptr) where
    -- The table after `p` is taken once more and listed.
    abbrev pinned : NodeTable
    pinned = record t { heap = ref t.heap p; vars = vs; nvars = ns }

    pub pinned-IsCapped : IsCapped (limit + 1) pinned
    pinned-IsCapped q st =
        (ref-capped t.heap p q limit
          (cap q (Stored-of_reheap t (ref t.heap p) (ref-SameShape t.heap p) q st)) small).0

    pub pinned-kept : (q : Ptr) → IsHeld t q → IsHeld pinned q
    pinned-kept q (st, lt) = (
      Stored-reheap t (ref t.heap p) (ref-SameShape t.heap p) q st,
      omega (arith, lt, (ref-capped t.heap p q limit (cap q st) small).1),
    )

    pub pinned-IsHeld : Stored t p → IsHeld pinned p
    pinned-IsHeld st = (
      Stored-reheap t (ref t.heap p) (ref-SameShape t.heap p) p st,
      ref-held t.heap p limit (cap p st) small,
    )
