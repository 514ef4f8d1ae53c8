-- ===== src/Concurrent/FreeList/PopOnce.antt =====
-- While no thread frees a cell, no cell is taken twice.
use nanobdd.Base.{
  ℕ, ◌+◌, ◌≤◌, ◌<◌, ◌≡◌, ◌≢◌, ◌⊎◌, ◌==◌, true, false, inl, inr, eq_cases, List, [], ◌∷◌, count,
  arith, refl, sym, ap, ◌∙◌, subst,
}
use nanobdd.Node.{Ptr, null, Heap}
use nanobdd.Allocator.FreeList.{Chain, Chain-frame}
use nanobdd.Allocator.Release.{Chain-once}
use nanobdd.Concurrent.Threads.{update}
use nanobdd.Concurrent.FreeList.{
  Shared, Pc, idle, loaded, linked, taken, freeing, pushing, joined, set_next, Pop, none_left, load,
  read_next, win, lose, lose_last, unlink, System, moved, Pops, here, pop,
}

-- What a thread knows, where `xs` is the free list.
abbrev pub Knows : Shared → List Ptr → Pc → Type 0
Knows m xs (loaded p) = (p ≢ null) × ((p ≡ m.free_list) ⊎ (count p xs ≡ 0))
Knows m xs (linked p next) =
    (p ≢ null) × (((p ≡ m.free_list) × (next ≡ (m.heap p).next_free)) ⊎ (count p xs ≡ 0))
Knows m xs (taken p) = count p xs ≡ 0
Knows m xs _ = Unit

pub record Inv (base : List Ptr) (s : System) : Type 0 where
  pub xs : List Ptr
  pub chain : Chain s.shared.heap s.shared.free_list xs
  pub once : (q : Ptr) → count q s.shared.handed + count q xs ≡ count q base
  pub knows : (i : ℕ) → Knows s.shared xs (s.pc i)

-- The head of the list, if there is one, is in the list.
head-count : (h : Heap) (p : Ptr) (xs : List Ptr) → Chain h p xs → p ≢ null → 0 < count p xs
head-count h p [] c ne = absurd (ne c)
head-count h p (x ∷ xs) c ne = ground (arith, c.0)

module _ (m : Shared) where
  -- The cell at the head is taken.
  abbrev shorter : Ptr → Ptr → Shared
  shorter p next = record m { free_list = next; handed = p ∷ m.handed }

  Knows-shorter :
      (p next : Ptr) (xs : List Ptr)
      → m.free_list ≡ p
      → count p xs ≡ 0
      → (q : Pc) → Knows m (p ∷ xs) q
      → Knows (shorter p next) xs q
  Knows-shorter p next xs e none (loaded r) (ne, inl k) = (ne, inr (rw (k ∙ e) none))
  Knows-shorter p next xs e none (loaded r) (ne, inr k) = (ne, inr (omega arith))
  Knows-shorter p next xs e none (linked r n) (ne, inl (k, l)) = (ne, inr (rw (k ∙ e) none))
  Knows-shorter p next xs e none (linked r n) (ne, inr k) = (ne, inr (omega arith))
  Knows-shorter p next xs e none (taken r) k = omega arith
  Knows-shorter p next xs e none idle k = tt
  Knows-shorter p next xs e none (freeing r) k = tt
  Knows-shorter p next xs e none (pushing r n) k = tt
  Knows-shorter p next xs e none (joined r n) k = tt

  -- The link of a taken cell is cleared.
  Knows-unlinked :
      (p : Ptr) (xs : List Ptr)
      → Chain m.heap m.free_list xs
      → count p xs ≡ 0
      → (q : Pc) → Knows m xs q
      → Knows (set_next m p null) xs q
  Knows-unlinked p xs c none (linked r n) (ne, inl (k, l)) =
      let there = head-count m.heap m.free_list xs c (λ e. ne (k ∙ e)) in
      let apart : r ≢ p =
        λ e. absurd (omega (arith, subst (λ z. 0 < count z xs) (sym k ∙ e) there)) in
      (ne, inl (k, ground (arith, apart)))
  Knows-unlinked p xs c none (linked r n) (ne, inr k) = (ne, inr k)
  Knows-unlinked p xs c none (loaded r) k = k
  Knows-unlinked p xs c none (taken r) k = k
  Knows-unlinked p xs c none idle k = tt
  Knows-unlinked p xs c none (freeing r) k = tt
  Knows-unlinked p xs c none (pushing r n) k = tt
  Knows-unlinked p xs c none (joined r n) k = tt

-- All threads know what they know if the mover does and the others do.
everyone :
    (m : Shared) (xs : List Ptr) (pc : ℕ → Pc) (i : ℕ) (p : Pc)
    → Knows m xs p
    → ((j : ℕ) → Knows m xs (pc j))
    → (j : ℕ) → Knows m xs (update pc i p j)
everyone m xs pc i p own others j = elim (eq_cases j i) [
  | inl e ↦ let b : (j == i) ≡ true = ground arith in rw b own
  | inr ne ↦ let b : (j == i) ≡ false = ground (arith, ne) in rw b (others j)
]

won :
    (base : List Ptr) (s : System) (i : ℕ) (p next : Ptr) (xs : List Ptr)
    → Chain s.shared.heap s.shared.free_list xs
    → ((q : Ptr) → count q s.shared.handed + count q xs ≡ count q base)
    → ((j : ℕ) → Knows s.shared xs (s.pc j))
    → s.shared.free_list ≡ p
    → Knows s.shared xs (linked p next)
    → Inv base (moved s i (shorter s.shared p next) (taken p))
won base s i p next xs c once knows e (ne, inr none) = absurd (
    omega (
      arith,
      subst (λ z. 0 < count z xs) e
          (head-count s.shared.heap s.shared.free_list xs c (λ z. ne (sym e ∙ z))),
    ))
won base s i p next [] c once knows e (ne, inl (k, l)) = absurd (ne (sym e ∙ c))
won base s i p next (x ∷ xs) c once knows e (ne, inl (k, l)) =
    let same : x ≡ p = sym c.0 ∙ e in
    let none : count p xs ≡ 0 = subst (λ z. count z xs ≡ 0) same c.2 in
    record {
      xs = xs;
      chain =
          subst (λ z. Chain s.shared.heap z xs) (ap (λ z. (s.shared.heap z).next_free) same ∙ sym l)
            c.3;
      once = λ q. ground (arith, once q, same);
      knows = everyone (shorter s.shared p next) xs s.pc i (taken p) none (λ j.
          Knows-shorter s.shared p next xs e none (s.pc j)
            (subst (λ z. Knows s.shared (z ∷ xs) (s.pc j)) same (knows j)));
    }

Pop-Inv :
    (base : List Ptr) (s : System) (i : ℕ) {m : Shared} {q p : Pc}
    → s.pc i ≡ q
    → Pop s.shared q m p
    → Inv base s
    → Inv base (moved s i m p)
Pop-Inv base s i stands (none_left z) inv = record {
  xs = inv.xs;
  chain = inv.chain;
  once = inv.once;
  knows = everyone s.shared inv.xs s.pc i idle tt inv.knows;
}
Pop-Inv base s i stands (load ne) inv = record {
  xs = inv.xs;
  chain = inv.chain;
  once = inv.once;
  knows = everyone s.shared inv.xs s.pc i (loaded s.shared.free_list) (ne, inl refl) inv.knows;
}
Pop-Inv base s i stands (read_next {p}) inv =
    let (ne, k) : Knows s.shared inv.xs (loaded p) =
      subst (Knows s.shared inv.xs) stands (inv.knows i) in
    record {
      xs = inv.xs;
      chain = inv.chain;
      once = inv.once;
      knows =
          everyone s.shared inv.xs s.pc i (linked p (s.shared.heap p).next_free)
            (ne, elim k [ inl e ↦ inl (e, refl) | inr none ↦ inr none ]) inv.knows;
    }
Pop-Inv base s i stands (win {p} {next} e) inv =
    won base s i p next inv.xs inv.chain inv.once inv.knows e
      (subst (Knows s.shared inv.xs) stands (inv.knows i))
Pop-Inv base s i stands (lose ne) inv = record {
  xs = inv.xs;
  chain = inv.chain;
  once = inv.once;
  knows = everyone s.shared inv.xs s.pc i (loaded s.shared.free_list) (ne, inl refl) inv.knows;
}
Pop-Inv base s i stands (lose_last z) inv = record {
  xs = inv.xs;
  chain = inv.chain;
  once = inv.once;
  knows = everyone s.shared inv.xs s.pc i idle tt inv.knows;
}
Pop-Inv base s i stands (unlink {p}) inv =
    let none : count p inv.xs ≡ 0 = subst (Knows s.shared inv.xs) stands (inv.knows i) in
    record {
      xs = inv.xs;
      chain =
          Chain-frame s.shared.heap (set_next s.shared p null).heap s.shared.free_list inv.xs
            (λ q c. ground arith) inv.chain;
      once = inv.once;
      knows =
          everyone (set_next s.shared p null) inv.xs s.pc i idle tt
            (λ j. Knows-unlinked s.shared p inv.xs inv.chain none (s.pc j) (inv.knows j));
    }

Pops-Inv : (base : List Ptr) (s t : System) → Inv base s → Pops s t → Inv base t
Pops-Inv base s t inv here = inv
Pops-Inv base s t inv (pop {t = t'} r i mv) = Pop-Inv base t' i refl mv (Pops-Inv base s t' inv r)

-- From a state with a free list through the cells `xs`, nothing taken and all threads idle, while the
-- threads allocate and none frees, no cell is taken twice, and none that is not in the list; what is
-- left in the list are the other cells.
pub taken_once :
    (s t : System) (xs : List Ptr)
    → Chain s.shared.heap s.shared.free_list xs
    → s.shared.handed ≡ []
    → ((i : ℕ) → s.pc i ≡ idle)
    → Pops s t
    → (ys : List Ptr) × Chain t.shared.heap t.shared.free_list ys
      × ((q : Ptr) → (count q t.shared.handed + count q ys ≡ count q xs) × (count q xs ≤ 1))
taken_once s t xs c none quiet r =
    let first : Inv xs s = record {
      xs = xs;
      chain = c;
      once = λ q. rw none (omega arith);
      knows = λ i. rw (quiet i) tt;
    } in
    let inv = Pops-Inv xs s t first r in
    (inv.xs, inv.chain, λ q. (inv.once q, Chain-once s.shared.heap s.shared.free_list xs q c))
