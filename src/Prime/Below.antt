-- ===== src/Prime/Below.antt =====
-- src/Prime.h: bdd_prime_lte, the search downwards.
use nanobdd.Base.{ℕ, zero, suc, ◌+◌, ◌-◌, ◌*◌, ◌/◌, ◌%◌, ◌^◌, ◌≤◌, ◌<◌, ◌≡◌, ap, sym, subst, ◌∙◌}
use nanobdd.Base.{inl, inr, Bool-cases, Returns, Returns_map, arith}
use nanobdd.Prime.{search, minus_two_32, pred_32, bdd_prime_lte, is_even}
use nanobdd.Prime.Witness.{InRange}
use nanobdd.Prime.Judge.{Rejected, Passes, Accepted}
use nanobdd.Prime.Search.{iterate, Found, search-Found}

-- steps of 2 downwards
iterate-down : (src j : ℕ) → src < 2 ^ 32 → 2 * j ≤ src → iterate minus_two_32 j src ≡ src - 2 * j
unfolding iterate
iterate-down src zero h low = omega arith
iterate-down src (suc j) h low =
    ap (λ (t : ℕ). iterate minus_two_32 j t) {x = minus_two_32 src} {y = src - 2} (omega arith)
    ∙ iterate-down (src - 2) j (omega arith) (omega arith)
    ∙ omega arith

module _ (rand : ℕ → ℕ) where
  -- An accepted odd number from `low` to `high`; the odd numbers above it up to `high` are rejected.
  pub record PrimeBelow (low high : ℕ) (r : ℕ × ℕ) : Type 0 where
    pub above : low ≤ r.0
    pub below : r.0 ≤ high
    pub odd : r.0 % 2 ≡ 1
    pub accepted : Accepted rand r.0
    pub skipped : (s : ℕ) → r.0 < s → s ≤ high → s % 2 ≡ 1 → Rejected s

  Found-PrimeBelow :
      (low src high : ℕ) (a : ℕ × ℕ)
      → src ≤ high
      → high ≤ src + 1
      → src % 2 ≡ 1
      → low ≤ src
      → src ≤ 3037000500
      → Found rand minus_two_32 src ((src - low) / 2) a
      → PrimeBelow low high a
  unfolding Found
  Found-PrimeBelow low src high (r, k) h1 h2 odd h3 h4 (j, near, e, accepted, skipped) =
      let place : r ≡ src - 2 * j = e ∙ iterate-down src j (omega arith) (omega arith) in
      record {
        above = omega arith;
        below = omega arith;
        odd = omega arith;
        accepted = accepted;
        skipped = λ s h5 h6 h7.
            subst Rejected
              (iterate-down src ((src - s) / 2) (omega arith) (omega arith) ∙ omega arith)
              (skipped ((src - s) / 2) (omega arith));
      }

  search-PrimeBelow :
      (fuel low src high k : ℕ)
      → 1 < low
      → src ≤ high
      → high ≤ src + 1
      → src % 2 ≡ 1
      → low ≤ src
      → low % 2 ≡ 1
      → src ≤ 3037000500
      → Passes low
      → src - low < fuel
      → Returns (search rand minus_two_32 fuel src k) (PrimeBelow low high)
  search-PrimeBelow fuel low src high k h1 h2 h3 h4 h5 h6 h7 passes enough =
      Returns_map _ (λ a. Found-PrimeBelow low src high a h2 h3 h4 h5 h7)
        (search-Found rand minus_two_32 fuel ((src - low) / 2) src k (omega arith)
          (λ j h.
            subst InRange (sym (iterate-down src j (omega arith) (omega arith)))
              (record { large = omega arith; small = omega arith }))
          (subst Passes
            (sym (iterate-down src ((src - low) / 2) (omega arith) (omega arith) ∙ omega arith))
            passes))

  -- For `src` up to 3037000500, and an odd number `low` above 1 and up to `src` that no test rejects,
  -- and fuel for `src - low + 1` tests, bdd_prime_lte ends without a fault, whatever rand() returns.
  -- It finds an odd number from `low` to `src` that has no easy factor and that 20 tests in a row
  -- accepted; each odd number above it up to `src` has an easy factor or a witness against it.
  pub bdd_prime_lte-PrimeBelow :
      (fuel low src k : ℕ)
      → 1 < low
      → low ≤ src
      → low % 2 ≡ 1
      → src ≤ 3037000500
      → Passes low
      → src - low < fuel
      → Returns (bdd_prime_lte rand fuel src k) (PrimeBelow low src)
  unfolding bdd_prime_lte is_even
  bdd_prime_lte-PrimeBelow fuel low src k h1 h2 h3 h4 passes enough =
      elim (Bool-cases (is_even src)) [
        | inl even ↦
            let before : pred_32 src ≡ src - 1 = omega arith in
            rw (even, before)
              (search-PrimeBelow fuel low (src - 1) src k h1 (omega arith) (omega arith)
                (ground arith) (ground arith) h3 (omega arith) passes (omega arith))
        | inr odd ↦ rw odd (
            search-PrimeBelow fuel low src src k h1 (omega arith) (omega arith) (ground arith) h2 h3
              h4 passes enough)
      ]
