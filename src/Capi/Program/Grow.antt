-- ===== src/Capi/Program/Grow.antt =====
-- A call that makes an object: the session agrees with one function more.
use nanobdd.Base.{
  ℕ, ◌+◌, ◌^◌, ◌≤◌, ◌<◌, ◌≡◌, ◌⊎◌, inl, inr, Option, some, List, [], ◌∷◌, ◌++◌, count, arith, refl,
}
use nanobdd.Node.{Ptr}
use nanobdd.Platform.{Platform}
use nanobdd.Table.State.{NodeTable}
use nanobdd.Table.Layout.{Stored, bucket_at, home_of}
use nanobdd.Table.Expand.{cost}
use nanobdd.Library.Start.{HasAll}
use nanobdd.Library.After.{after-HasAll}
use nanobdd.Handle.Results.{Owned, Owned-IsAfter}
use nanobdd.Capi.{Session, new_object, with_table}
use nanobdd.Capi.Program.{Value, Values}
use nanobdd.Capi.Program.State.{
  handles, handles-append, Hold-append, Hold-keep, Hold-Stored, IsCounted, counted-protected,
  Agrees,
}

positive_or_zero : (k : ℕ) → (0 < k) ⊎ (k ≡ 0)
positive_or_zero k = omega arith

module _ ⦃env : Platform⦄ (n : ℕ) (pins : Ptr → ℕ) (limit room : ℕ) (vs : Values) (s : Session)
    (agrees : Agrees n pins limit (room + cost n) vs s) (small : limit + 1 < 2 ^ 32) (f : Value)
    (p : Ptr) (u : NodeTable) (w : Owned n agrees.table agrees.all.left f (p, u)) where
  abbrev t : NodeTable
  t = agrees.table

  abbrev os : List (Option Ptr)
  os = s.objects

  handles-Stored : (q : Ptr) → 0 < handles q os → Stored t q
  handles-Stored = Hold-Stored n t os vs agrees.all.sound agrees.hold

  -- Nodes that the table did not have are held by nobody.
  unheld : (q : Ptr) → (Stored t q → ⊥) → (pins q ≡ 0) × (handles q os ≡ 0)
  unheld q new = (
    elim (positive_or_zero (pins q)) [
      | inl lt ↦ absurd (new (agrees.counted.pins_stored q lt))
      | inr e ↦ e
    ],
    elim (positive_or_zero (handles q os)) [
      | inl lt ↦ absurd (new (handles-Stored q lt))
      | inr e ↦ e
    ],
  )

  grown_refs :
      (q : Ptr)
      → Stored u q
      → (pins q + handles q (os ++ some p ∷ []) ≤ (u.heap q).ref_count)
        × ((u.heap q).ref_count ≤ limit + 1)
  grown_refs q st = elim (positive_or_zero (count q (bucket_at t (home_of t q)))) [
    | inl old ↦
        let before = agrees.counted.refs q old in
        let after = w.raised q old in let more = handles-append q p os in ground arith
    | inr new ↦
        let none_held = unheld q (λ st'. absurd (omega (arith, st', new))) in
        let more = handles-append q p os in
        elim (w.fresh q st) [
          | inl old ↦ absurd (omega (arith, old, new))
          | inr e ↦ ground (arith, none_held.0, none_held.1)
        ]
  ]

  grown-IsCounted : IsCounted n pins (limit + 1) u (os ++ some p ∷ [])
  grown-IsCounted = record {
    refs = grown_refs;
    pins_stored = λ q lt. w.kept q (agrees.counted.pins_stored q lt);
    false_pinned = rw w.false_same agrees.counted.false_pinned;
    true_pinned = rw w.true_same agrees.counted.true_pinned;
    vars_pinned = λ i lt. rw w.vars (agrees.counted.vars_pinned i lt);
    nvars_pinned = λ i lt. rw w.nvars (agrees.counted.nvars_pinned i lt);
  }

  grown-HasAll : HasAll n room u
  grown-HasAll =
      after-HasAll n room (room + cost n) t u agrees.all
        (Owned-IsAfter n t agrees.all.left f (p, u) w) w.left w.valid
        (counted-protected n pins (limit + 1) u (os ++ some p ∷ []) w.valid.sound grown-IsCounted)
        (omega (arith, w.spent, agrees.all.free_slots))

  pub grown-Agrees :
      Agrees n pins (limit + 1) room (vs ++ some f ∷ []) (new_object p (with_table s u)).1
  unfolding new_object
  grown-Agrees = record {
    table = u;
    loaded_eq = refl;
    var_num_eq = agrees.var_num_eq;
    all = grown-HasAll;
    hold =
        Hold-append n u os vs p f (Hold-keep n t u os vs (λ q g lt m. w.keeps q g m) agrees.hold)
          w.means;
    counted = grown-IsCounted;
  }
