-- ===== src/Allocator/Release.antt =====
-- `free` and `freeAll`: the cells that come back to the free list.
use nanobdd.Base.{
  ◌+◌, ◌≤◌, ◌<◌, ◌≡◌, ◌≢◌, ◌==◌, false, List, [], ◌∷◌, count, length, arith, refl, inl, inr,
  eq_cases, ◌∙◌, sym, subst,
}
use nanobdd.Node.{Ptr, null, Heap, write}
use nanobdd.Allocator.{Allocator, free, push_free, free_all}
use nanobdd.Allocator.FreeList.{Chain, Chain-frame, IsFresh, IsHoused, IsAllocator}

-- The free list after the cells of `ps` have been pushed in this order.
abbrev pub pushed : List Ptr → List Ptr → List Ptr
pushed [] frees = frees
pushed (p ∷ ps) frees = pushed ps (p ∷ frees)

pub count-pushed :
    (ps frees : List Ptr) (q : Ptr) → count q (pushed ps frees) ≡ count q ps + count q frees
count-pushed [] frees q = omega arith
count-pushed (p ∷ ps) frees q = omega (arith, count-pushed ps (p ∷ frees) q)

pub length-pushed : (ps frees : List Ptr) → length (pushed ps frees) ≡ length ps + length frees
length-pushed [] frees = omega arith
length-pushed (p ∷ ps) frees = omega (arith, length-pushed ps (p ∷ frees))

-- A chain has no cell twice.
pub Chain-once :
    (h : Heap) (p : Ptr) (frees : List Ptr) (q : Ptr) → Chain h p frees → count q frees ≤ 1
Chain-once h p [] q c = omega arith
Chain-once h p (x ∷ xs) q c = elim (eq_cases q x) [
  | inl e ↦ let none : count q xs ≡ 0 = rw e c.2 in ground (arith, none)
  | inr n ↦ ground (arith, n, Chain-once h (h x).next_free xs q c.3)
]

-- What a call that frees the cells of `ps` leaves behind.
pub record Released (h : Heap) (a : Allocator) (ps frees : List Ptr) (r : Heap × Allocator)
    : Type 0 where
  pub allocates : IsAllocator r.0 r.1 (pushed ps frees)
  pub current : r.1.current ≡ a.current
  pub houses : (q : Ptr) → IsHoused a q → IsHoused r.1 q
  pub others : (q : Ptr) → count q ps ≡ 0 → r.0 q ≡ h q
  pub unmarked : (q : Ptr) → (h q).in_use ≡ false → (r.0 q).in_use ≡ false

module _ (h : Heap) (a : Allocator) (frees : List Ptr) (p : Ptr) (v : IsAllocator h a frees)
    (ne : p ≢ null) (absent : count p frees ≡ 0) (used : IsFresh a.current p → ⊥)
    (within : IsHoused a p) where
  abbrev freed : Heap
  freed =
      let h1 =
        write h p (record (h p) { low = null; high = null; in_use = false; ref_count = 0 }) in
      write h1 p (record (h1 p) { next_free = a.free_list })

  freed-Chain : Chain freed p (p ∷ frees)
  freed-Chain =
      let next : (freed p).next_free ≡ a.free_list = ground arith in
      (
        refl,
        ne,
        absent,
        rw next (Chain-frame h freed a.free_list frees (λ q c. ground arith) v.chain),
      )

  free-Released : Released h a (p ∷ []) frees (free h a p)
  unfolding free push_free
  free-Released =
      let test : (p == null) ≡ false = ground (arith, ne) in
      rw test (record {
        allocates = record {
          chain = freed-Chain;
          based = v.based;
          apart = λ q f. elim (eq_cases q p) [
            | inl e ↦ absurd (used (subst (IsFresh a.current) e f))
            | inr n ↦ ground (arith, v.apart q f, n)
          ];
          housed = λ q c. elim (eq_cases q p) [
            | inl e ↦ subst (IsHoused a) (sym e) within
            | inr n ↦ v.housed q (ground (arith, n))
          ];
          grows = v.grows;
        };
        current = refl;
        houses = λ q i. i;
        others = λ q n. ground arith;
        unmarked = λ q e. ground arith;
      })

-- Distinct cells, in use and not null, come back in order.
pub free_all-Released :
    (h : Heap) (a : Allocator) (frees ps : List Ptr)
    → IsAllocator h a frees
    → ((q : Ptr) → count q ps + count q frees ≤ 1)
    → count null ps ≡ 0
    → ((q : Ptr) → 0 < count q ps → IsFresh a.current q → ⊥)
    → ((q : Ptr) → 0 < count q ps → IsHoused a q)
    → Released h a ps frees (free_all h a ps)
unfolding free_all
free_all-Released h a frees [] v once no_null used within = record {
  allocates = v;
  current = refl;
  houses = λ q i. i;
  others = λ q n. refl;
  unmarked = λ q e. e;
}
free_all-Released h a frees (p ∷ ps) v once no_null used within =
    let one =
      free-Released h a frees p v (λ e. absurd (ground (arith, e))) (ground (arith, once p))
        (used p (ground arith)) (within p (ground arith)) in
    let rest =
      free_all-Released (free h a p).0 (free h a p).1 (p ∷ frees) ps one.allocates
        (λ q. ground (arith, once q)) (ground arith)
        (λ q c f. used q (omega arith) (subst (λ s. IsFresh s q) one.current f))
        (λ q c. one.houses q (within q (omega arith))) in
    record {
      allocates = rest.allocates;
      current = rest.current ∙ one.current;
      houses = λ q i. rest.houses q (one.houses q i);
      others = λ q n. rest.others q (omega arith) ∙ one.others q (omega arith);
      unmarked = λ q e. rest.unmarked q (one.unmarked q e);
    }
