-- ===== src/Capi/Program/Shrink.antt =====
-- A call that frees an object, and the collection: the session still agrees.
use nanobdd.Base.{
  ℕ, suc, ◌+◌, ◌^◌, ◌≤◌, ◌<◌, ◌≡◌, ◌≢◌, ◌==◌, if◌then◌else◌, Option, none, some, false, List, set,
  at, ok, Returns, arith, refl, ap,
}
use nanobdd.Node.{Ptr, null, Heap, deref}
use nanobdd.Node.Marking.{here}
use nanobdd.Platform.{Platform}
use nanobdd.Table.State.{NodeTable}
use nanobdd.Table.Collect.{gc}
use nanobdd.Table.Layout.{Stored, Stored-ne_null}
use nanobdd.Table.Meaning.{Means}
use nanobdd.Table.Cofactor.{Represents-Stored}
use nanobdd.Table.Marked.{IsLive}
use nanobdd.Table.Collection.{Collected, gc_locked-Collected}
use nanobdd.Table.Reheap.{deref-SameShape, Means-reheap, Stored-reheap, Stored-of_reheap}
use nanobdd.Library.Start.{HasAll}
use nanobdd.Library.After.{after-HasAll}
use nanobdd.Table.After.{deref-IsAfter, deref-IsValid}
use nanobdd.Library.Kept.{AreHeld, Collected-HasAll}
use nanobdd.Handle.{release, destroy}
use nanobdd.Capi.{Session, c_free, c_gc, root_of, with_table}
use nanobdd.Library.{collect}
use nanobdd.Capi.Program.{Value, Values}
use nanobdd.Capi.Program.State.{
  handles, handles-set, Hold-set, Hold-keep, Hold-Stored, IsCounted, counted-protected, Agrees,
}

deref-lowered :
    (h : Heap) (p q : Ptr) (k : ℕ)
    → (h q).ref_count < 2 ^ 32
    → k + (if q == p then 1 else 0) ≤ (h q).ref_count
    → (k ≤ (deref h p q).ref_count) × ((deref h p q).ref_count ≤ (h q).ref_count)
unfolding deref
deref-lowered h p q k small le = ground arith

module _ ⦃env : Platform⦄ (n : ℕ) (pins : Ptr → ℕ) (limit room : ℕ) (vs : Values) (s : Session)
    (agrees : Agrees n pins limit room vs s) (small : limit < 2 ^ 32) where
  abbrev t : NodeTable
  t = agrees.table

  module _ (k : ℕ) (p : Ptr) (f : Value) (there : at s.objects k ≡ ok (some p))
      (m : Means n t p f) where
    abbrev h : Heap
    h = deref t.heap p

    abbrev u : NodeTable
    u = record t { heap = h }

    abbrev os : List (Option Ptr)
    os = set s.objects k none

    freed-IsCounted : IsCounted n pins limit u os
    freed-IsCounted =
        let sh = deref-SameShape t.heap p in
        record {
          refs = λ q st.
              let before = agrees.counted.refs q (Stored-of_reheap t h sh q st) in
              let fewer = handles-set q p s.objects k there in
              let lowered =
                deref-lowered t.heap p q (pins q + handles q os) (omega (arith, before))
                  (omega (arith, before, fewer)) in
              (lowered.0, omega (arith, lowered, before));
          pins_stored = λ q lt. Stored-reheap t h sh q (agrees.counted.pins_stored q lt);
          false_pinned = agrees.counted.false_pinned;
          true_pinned = agrees.counted.true_pinned;
          vars_pinned = agrees.counted.vars_pinned;
          nvars_pinned = agrees.counted.nvars_pinned;
        }

    freed-HasAll : HasAll n room u
    freed-HasAll =
        let v =
          deref-IsValid n t p agrees.all.left
            (record { laid = agrees.all.laid; sound = agrees.all.sound }) in
        after-HasAll n room room t u agrees.all (deref-IsAfter n t p) agrees.all.left v
          (counted-protected n pins limit u os v.sound freed-IsCounted) agrees.all.free_slots

    root-ne_null : p ≢ null
    root-ne_null =
        Stored-ne_null t agrees.all.left p agrees.all.laid
          (Represents-Stored n t m.tree p agrees.all.sound m.represents)

    pub freed-Agrees : Returns (c_free (suc k) s) (Agrees n pins limit room (set vs k none))
    unfolding c_free root_of destroy release
    freed-Agrees =
        let test : (p == null) ≡ false = ground (arith, root-ne_null) in
        let rest : Session = record s { objects = os } in
        (
          with_table rest u,
          rw (there, agrees.loaded_eq, test) refl,
          record {
            table = u;
            loaded_eq = refl;
            var_num_eq = agrees.var_num_eq;
            all = freed-HasAll;
            hold =
                Hold-keep n t u os (set vs k none)
                  (λ q g lt mg. Means-reheap t h (deref-SameShape t.heap p) n q g mg)
                  (Hold-set n t s.objects vs k agrees.hold);
            counted = freed-IsCounted;
          },
        )

  -- A stored node with a reference is protected.
  counted-IsLive : (q : Ptr) → Stored t q → 0 < (t.heap q).ref_count → IsLive t q
  counted-IsLive q st lt = (q, st, (λ e. absurd (omega arith)), here)

  pinned-IsLive : (q : Ptr) → 0 < pins q → IsLive t q
  pinned-IsLive q lt =
      let st = agrees.counted.pins_stored q lt in
      counted-IsLive q st (omega (arith, (agrees.counted.refs q st).0))

  held-IsLive : (q : Ptr) → 0 < handles q s.objects → IsLive t q
  held-IsLive q lt =
      let st = Hold-Stored n t s.objects vs agrees.all.sound agrees.hold q lt in
      counted-IsLive q st (omega (arith, (agrees.counted.refs q st).0))

  vars-AreHeld : AreHeld n t
  vars-AreHeld = record {
    vars_live = λ i lt. pinned-IsLive _ (agrees.counted.vars_pinned i lt);
    nvars_live = λ i lt. pinned-IsLive _ (agrees.counted.nvars_pinned i lt);
  }

  collected-IsCounted :
      (r : ℕ × NodeTable) → Collected n t agrees.all.left r → IsCounted n pins limit r.1 s.objects
  collected-IsCounted r c = record {
    refs = λ q st.
        let (old, live) = (c.stored q).0 st in
        let same = ap (λ k. k.ref_count) (c.same q live) in rw same (agrees.counted.refs q old);
    pins_stored = λ q lt. (c.stored q).1 (agrees.counted.pins_stored q lt, pinned-IsLive q lt);
    false_pinned = rw c.false_same agrees.counted.false_pinned;
    true_pinned = rw c.true_same agrees.counted.true_pinned;
    vars_pinned = λ i lt. rw c.vars (agrees.counted.vars_pinned i lt);
    nvars_pinned = λ i lt. rw c.nvars (agrees.counted.nvars_pinned i lt);
  }

  pub collected-Agrees : Returns (c_gc s) (Agrees n pins limit room vs)
  unfolding c_gc collect gc
  collected-Agrees =
      let all = agrees.all in
      let (r, run, c) = gc_locked-Collected n t all.left all.laid all.sound all.tidy in
      (
        with_table s r.1,
        rw (agrees.loaded_eq, run) refl,
        record {
          table = r.1;
          loaded_eq = refl;
          var_num_eq = agrees.var_num_eq;
          all = Collected-HasAll n room t all vars-AreHeld r c;
          hold =
              Hold-keep n t r.1 s.objects vs (λ q g lt m. c.means q g (held-IsLive q lt) m)
                agrees.hold;
          counted = collected-IsCounted r c;
        },
      )
