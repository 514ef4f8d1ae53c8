-- ===== src/Table/Negate.antt =====
-- `bddNot` computes the negation, while the allocator has slots.
use nanobdd.Base.{
  ℕ, zero, suc, ◌+◌, ◌%◌, ◌≤◌, ◌<◌, ◌≡◌, inl, inr, Bool, true, false, not, ◌==◌, List, length,
  arith, refl, ◌>>=◌, Returns,
}
use native.Mathlib.Nat.{mod-lt}
use nanobdd.Hash.{hash_uo_o_3}
use nanobdd.Tree.{Assignment}
use nanobdd.Node.{Ptr, null, load}
use nanobdd.Cache.{Operator, code}
use nanobdd.Allocator.FreeList.{slots}
use nanobdd.Platform.{Platform}
use nanobdd.Table.State.{NodeTable}
use nanobdd.Table.Operations.{Op, neg_cof, pos_cof, expand_not, bdd_not}
use nanobdd.Table.Layout.{IsLaid, Extends-refl, Extends-trans}
use nanobdd.Table.Meaning.{Means, IsSound, Means-Extends}
use nanobdd.Table.Cofactor.{
  Within, Within-child, load-Represents, neg_cof-Cofactor, pos_cof-Cofactor,
}
use nanobdd.Table.Combine.{Done, Done-here}
use nanobdd.Table.Caching.{lookup-Means}
use nanobdd.Table.Expand.{
  cost, root_From, root_Within, Done-trans, finish, finish-Done, result-Cofactor,
}
use nanobdd.Table.Shortcut.{not-IsShortcut}

module _ ⦃env : Platform⦄ (n : ℕ) where
  -- An operation on one node negates, if no more than `k` levels are below it.
  abbrev pub Negates : ℕ → (Ptr → Op) → Type 0
  Negates k op =
      (t : NodeTable) (free : List Ptr) (x : Ptr) (f : Assignment → Bool)
      → IsLaid t free
      → IsSound n t
      → (a : Means n t x f) → Within n k a.tree
      → cost k ≤ slots t.allocator free
      → Returns (op x t) (Done n t free (cost k) (λ e. not (f e)))

  module _ (k : ℕ) (rec : Ptr → Op) (correct : Negates k rec) (t : NodeTable) (free : List Ptr)
      (x : Ptr) (f : Assignment → Bool) (v : IsLaid t free) (s : IsSound n t) (a : Means n t x f)
      (bound : (t.heap x).level < n) (near : n ≤ (t.heap x).level + suc k)
      (room : cost (suc k) ≤ slots t.allocator free) where
    abbrev hash : ℕ
    hash = hash_uo_o_3 (env.address x) 0 (code Operator.neg) % length t.cache

    abbrev m : ℕ
    m = (t.heap x).level

    -- the part of `expand_not` behind a miss in the cache
    compute : Op
    compute u = do
      nx ← load u.heap x
      x0 ← neg_cof u x nx.level
      (f_low, t1) ← rec x0 u
      x1 ← pos_cof t1 x nx.level
      (f_high, t2) ← rec x1 t1
      finish n Operator.neg hash nx.level x null f_low f_high t2

    compute-Done : Returns (compute t) (Done n t free (cost (suc k)) (λ e. not (f e)))
    unfolding compute
    compute-Done =
        let lt : hash < length t.cache = mod-lt _ s.cache_sized in
        let fx = root_From n t m a.tree x a.represents (omega arith) in
        let (x0, run_x0, cx0) =
          neg_cof-Cofactor n t free v s m bound x f a.tree a.robdd a.represents a.evaluates fx in
        let (low, run_low, d1) =
          correct t free x0 _ v s cx0.means (Within-child n k m cx0.means.tree cx0.above near)
            (omega arith) in
        let a1 = Means-Extends n t low.1 x f d1.extends a in
        let (x1, run_x1, cx1) =
          pos_cof-Cofactor n low.1 d1.left d1.laid d1.sound m bound x f a1.tree a1.robdd
            a1.represents a1.evaluates fx in
        let (high, run_high, d2) =
          correct low.1 d1.left x1 _ d1.laid d1.sound cx1.means
            (Within-child n k m cx1.means.tree cx1.above near) (omega (arith, d1.spent)) in
        let to_end = Extends-trans t low.1 high.1 d1.extends d2.extends in
        let c0 =
          result-Cofactor n t low.1 high.1 m false (λ p q. not p) f f x0 x0 low.0 cx0 cx0 d2.extends
            d1.means in
        let c1 =
          result-Cofactor n low.1 high.1 high.1 m true (λ p q. not p) f f x1 x1 high.0 cx1 cx1
            (Extends-refl high.1) d2.means in
        let (r, run, d3) =
          finish-Done n high.1 d2.left d2.laid d2.sound Operator.neg hash m x null low.0 high.0 f f
            (omega (arith, d1.cache_size, d2.cache_size)) bound (omega (arith, d1.spent, d2.spent))
            (Means-Extends n t high.1 x f to_end a) (λ u ext. refl) c0 c1 in
        rw (load-Represents n t free v s a.tree x a.represents, run_x0, run_low, run_x1, run_high)
          (
            r,
            run,
            Done-trans n t free (cost k) (cost k + 1) (cost (suc k)) _ _ low r d1 (omega arith)
                (Done-trans n low.1 d1.left (cost k) 1 (cost k + 1) _ _ high r d2 (omega arith) d3),
          )

    expand_not-Done : Returns (expand_not rec x t) (Done n t free (cost (suc k)) (λ e. not (f e)))
    unfolding expand_not compute finish
    expand_not-Done =
        let lt : hash < length t.cache = mod-lt _ s.cache_sized in
        let (c, run, found) = lookup-Means n t free v s hash x null Operator.neg f f lt a refl in
        rw run (elim found [
          | inl z ↦ let e : (c == null) ≡ true = ground arith in rw e compute-Done
          | inr (ne, mc) ↦
              let e : (c == null) ≡ false = ground (arith, ne) in
              rw e ((c, t), refl, Done-here n t free (cost (suc k)) c _ v s mc)
        ])

  pub bdd_not-Negates : (fuel k : ℕ) → k < fuel → Negates k (bdd_not fuel)
  unfolding bdd_not
  bdd_not-Negates zero k lt t free x f v s a wa room = absurd (omega arith)
  bdd_not-Negates (suc fuel) zero lt t free x f v s a wa room = elim (not-IsShortcut n t s x f a) [
    | inl (p, e, mp) ↦ rw e ((p, t), refl, Done-here n t free 0 p _ v s mp)
    | inr (e, inner) ↦ absurd (omega (arith, root_Within n t 0 a.tree x s a.represents wa inner))
  ]
  bdd_not-Negates (suc fuel) (suc k) lt t free x f v s a wa room =
      elim (not-IsShortcut n t s x f a) [
        | inl (p, e, mp) ↦ rw e ((p, t), refl, Done-here n t free (cost (suc k)) p _ v s mp)
        | inr (e, inner) ↦ rw e (
            expand_not-Done k (bdd_not fuel) (bdd_not-Negates fuel k (omega arith)) t free x f v s a
              inner (root_Within n t (suc k) a.tree x s a.represents wa inner) room)
      ]
