-- ===== src/Concurrent/CacheEntry/Safety.antt =====
-- What holds of an entry of the cache however the threads are interleaved, and what breaks when
-- `invalidateAll` runs beside them.
use nanobdd.Base.{
  ℕ, ◌^◌, ◌<◌, ◌≡◌, ◌≢◌, ◌==◌, true, false, inl, inr, eq_cases, arith, refl, sym, ◌∙◌, subst,
}
use nanobdd.Node.{Ptr}
use nanobdd.Concurrent.CacheEntry.{
  Key, Shared, busy, Pc, counted, finished, Move, ask_empty, ask, enter, retry, give_up, return,
  claim, refused, System, Step, pick, Reach,
}
use nanobdd.Concurrent.CacheEntry.Invariant.{reads, writes, IsAnswer, Knows, Reach-Inv}

-- With fewer than 2 ^ 31 threads, in every reachable state, a lookup that has ended returns null or the
-- node of one insertion, begun before, whose operator and operands are those asked for, the operands
-- in either order if the operator commutes.
pub lookup-IsAnswer :
    {n : ℕ} {s : System} {key : Key} {out : Ptr}
    → n < 2 ^ 31
    → Reach n s
    → (i : ℕ) → i < n
    → s.pc i ≡ finished key out
    → IsAnswer s.shared.log key out
lookup-IsAnswer {s} few r i below e =
    subst (Knows s.shared.fields s.shared.log) e ((Reach-Inv few r).knows i below)

-- The expected count of a compare-exchange is never -1.
abbrev pub IsPending : Pc → Type 0
IsPending (counted key uc) = uc ≢ busy
IsPending _ = Unit

-- An entry that is marked as being written while no thread is inside it.
pub record IsDead (n : ℕ) (s : System) : Type 0 where
  pub locked : s.shared.count ≡ busy
  pub nobody : (i : ℕ) → i < n → (reads (s.pc i) ≡ 0) × (writes (s.pc i) ≡ 0)
  pub pending : (i : ℕ) → i < n → IsPending (s.pc i)

dead-Move :
    {m m' : Shared} {p p' : Pc}
    → m.count ≡ busy
    → reads p ≡ 0
    → writes p ≡ 0
    → IsPending p
    → Move m p m' p'
    → (m'.count ≡ busy) × (reads p' ≡ 0) × (writes p' ≡ 0) × IsPending p'
dead-Move c r w k (ask_empty g) = (c, refl, refl, tt)
dead-Move c r w k (ask g) = (c, refl, refl, λ e. absurd (omega arith))
dead-Move c r w k (enter g) = absurd (k (sym g ∙ c))
dead-Move c r w k (retry g b) = (c, refl, refl, b)
dead-Move c r w k (give_up g b) = (c, refl, refl, tt)
dead-Move c r w k return = (c, refl, refl, tt)
dead-Move c r w k (claim e g) = absurd (omega arith)
dead-Move c r w k refused = (c, refl, refl, tt)
dead-Move c r w k mv = absurd (omega arith)

-- From such an entry no step of a lookup or an insertion leads out: with any number of threads, after
-- it the entry is still marked as being written, and still no thread is inside.
pub IsDead-forever : {n : ℕ} {s t : System} → IsDead n s → Step n s t → IsDead n t
IsDead-forever {n} {s} d (pick i {m} {p} below mv) =
    let (r, w) = d.nobody i below in
    let (c, r', w', k) = dead-Move d.locked r w (d.pending i below) mv in
    record {
      locked = c;
      nobody = λ j lt. elim (eq_cases j i) [
        | inl e ↦ ground (arith, e)
        | inr ne ↦ ground (arith, ne, d.nobody j lt)
      ];
      pending = λ j lt. elim (eq_cases j i) [
        | inl e ↦ let b : (j == i) ≡ true = ground arith in rw b k
        | inr ne ↦ let b : (j == i) ≡ false = ground (arith, ne) in rw b (d.pending j lt)
      ];
    }
