-- ===== src/Concurrent/Slab/Once.antt =====
-- Each cell of a slab is handed out once.
use nanobdd.Base.{
  ℕ, zero, suc, ◌+◌, ◌≤◌, ◌<◌, ◌≡◌, ◌≢◌, inl, inr, eq_cases, List, [], ◌∷◌, arith, refl, sym, ap,
  subst, ◌∙◌,
}
use nanobdd.Concurrent.Threads.{update, update_here, update_there}
use nanobdd.Concurrent.Slab.{
  Shared, Pc, idle, looping, took, failed, Move, load, win, lose, full, return, give_up, System,
  Reach, start, later,
}

-- The numbers below `n`, the largest first.
abbrev pub down_from : ℕ → List ℕ
down_from zero = []
down_from (suc n) = n ∷ down_from n

abbrev Knows : ℕ → Shared → Pc → Type 0
Knows capacity m idle = Unit
Knows capacity m (looping idx) = idx ≤ m.next
Knows capacity m (took idx) = idx < m.next
Knows capacity m failed = capacity ≤ m.next

record Inv (capacity : ℕ) (s : System) : Type 0 where
  in_order : s.shared.handed ≡ down_from s.shared.next
  bounded : s.shared.next ≤ capacity
  knows : (i : ℕ) → Knows capacity s.shared (s.pc i)
  apart : (i j idx : ℕ) → s.pc i ≡ took idx → s.pc j ≡ took idx → i ≡ j

one_more : (n : ℕ) → suc n ≡ n + 1
one_more n = omega arith

took_injective : (a b : ℕ) → took a ≡ took b → a ≡ b
took_injective a b e = cc e

Knows-more :
    (capacity : ℕ) (m m' : Shared) (p : Pc)
    → m.next ≤ m'.next
    → Knows capacity m p
    → Knows capacity m' p
Knows-more capacity m m' idle le k = tt
Knows-more capacity m m' (looping idx) le k = omega arith
Knows-more capacity m m' (took idx) le k = omega arith
Knows-more capacity m m' failed le k = omega arith

module _ (capacity : ℕ) (s : System) (i : ℕ) (inv : Inv capacity s) where
  abbrev After : Shared → Pc → Type 0
  After m p = Inv capacity (record { shared = m; pc = update s.pc i p })

  -- The counter does not fall, and the mover has taken no index that another thread has.
  next-Inv :
      (m : Shared) (p : Pc)
      → m.handed ≡ down_from m.next
      → m.next ≤ capacity
      → s.shared.next ≤ m.next
      → Knows capacity m p
      → ((idx : ℕ) → p ≡ took idx → s.shared.next ≤ idx)
      → After m p
  next-Inv m p order bound le own new =
      let alone : (j idx : ℕ) → p ≡ took idx → s.pc j ≡ took idx → ⊥ = λ j idx e e'.
        let k : idx < s.shared.next = subst (Knows capacity s.shared) e' (inv.knows j) in
        absurd (omega (arith, k, new idx e)) in
      record {
        in_order = order;
        bounded = bound;
        knows = λ j. elim (eq_cases j i) [
          | inl e ↦ subst (Knows capacity m) (sym (update_here s.pc i j p e)) own
          | inr ne ↦
              subst (Knows capacity m) (sym (update_there s.pc i j p ne))
                (Knows-more capacity s.shared m (s.pc j) le (inv.knows j))
        ];
        apart = λ j k idx x y. elim (eq_cases j i) [
          | inl e ↦ elim (eq_cases k i) [
            | inl e' ↦ e ∙ sym e'
            | inr ne' ↦ absurd (
                alone k idx (sym (update_here s.pc i j p e) ∙ x)
                  (sym (update_there s.pc i k p ne') ∙ y))
          ]
          | inr ne ↦ elim (eq_cases k i) [
            | inl e' ↦ absurd (
                alone j idx (sym (update_here s.pc i k p e') ∙ y)
                  (sym (update_there s.pc i j p ne) ∙ x))
            | inr ne' ↦
                inv.apart j k idx (sym (update_there s.pc i j p ne) ∙ x)
                  (sym (update_there s.pc i k p ne') ∙ y)
          ]
        ];
      }

  stay : (p : Pc) → Knows capacity s.shared p → ((idx : ℕ) → p ≢ took idx) → After s.shared p
  stay p own other =
      next-Inv s.shared p inv.in_order inv.bounded (omega arith) own (λ idx e. absurd (other idx e))

  step-Inv :
      {q : Pc} {m : Shared} {p : Pc}
      → Knows capacity s.shared q
      → Move capacity s.shared q m p
      → After m p
  step-Inv k load = stay (looping s.shared.next) (omega arith) (λ idx e. cc e)
  step-Inv k (win {idx} lt e) =
      next-Inv (record { next = idx + 1; handed = idx ∷ s.shared.handed }) (took idx)
        (ap (λ l. idx ∷ l) (inv.in_order ∙ ap down_from e) ∙ ap down_from (one_more idx))
        (omega arith) (omega (arith, e)) (omega arith)
        (λ j z. omega (arith, e, took_injective idx j z))
  step-Inv k (lose lt) = stay (looping s.shared.next) (omega arith) (λ idx e. cc e)
  step-Inv k (full {idx} le) = stay failed (omega (arith, k, le)) (λ idx e. cc e)
  step-Inv k return = stay idle tt (λ idx e. cc e)
  step-Inv k give_up = stay idle tt (λ idx e. cc e)

Reach-Inv : {capacity : ℕ} {s : System} → Reach capacity s → Inv capacity s
Reach-Inv start = record {
  in_order = refl;
  bounded = omega arith;
  knows = λ i. tt;
  apart = λ i j idx e. absurd (cc e);
}
Reach-Inv (later {s} r i mv) = let inv = Reach-Inv r in step-Inv _ s i inv (inv.knows i) mv

-- However threads that allocate from a slab are interleaved, the indices that they take are those from
-- 0 up to the counter, in this order and each once; the counter does not exceed the capacity; two
-- threads never have the same cell; and one that gets none has found the slab full.
pub slab_once :
    {capacity : ℕ} {s : System}
    → Reach capacity s
    → (s.shared.handed ≡ down_from s.shared.next)
      × (s.shared.next ≤ capacity)
      × ((i j idx : ℕ) → s.pc i ≡ took idx → s.pc j ≡ took idx → i ≡ j)
      × ((i : ℕ) → s.pc i ≡ failed → s.shared.next ≡ capacity)
slab_once {capacity} {s} r =
    let inv = Reach-Inv r in
    (
      inv.in_order,
      inv.bounded,
      inv.apart,
      λ i e.
          let k : capacity ≤ s.shared.next = subst (Knows capacity s.shared) e (inv.knows i) in
          omega (arith, k, inv.bounded),
    )
