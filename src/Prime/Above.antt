-- ===== src/Prime/Above.antt =====
-- src/Prime.h: bdd_prime_gte, the search upwards.
use nanobdd.Base.{ℕ, zero, suc, ◌+◌, ◌-◌, ◌*◌, ◌/◌, ◌%◌, ◌^◌, ◌≤◌, ◌<◌, ◌≡◌, ap, sym, subst, ◌∙◌}
use nanobdd.Base.{inl, inr, Bool-cases, Returns, Returns_map, arith}
use native.Mathlib.Nat.{mod-eq_of_lt}
use nanobdd.Hash.{u32}
use nanobdd.Prime.{search, bdd_prime_gte, is_even}
use nanobdd.Prime.Witness.{InRange}
use nanobdd.Prime.Judge.{Rejected, Passes, Accepted}
use nanobdd.Prime.Search.{iterate, Found, search-Found}

-- steps of 2 upwards
iterate-up : (src j : ℕ) → src + 2 * j < 2 ^ 32 → iterate (λ s. u32 (s + 2)) j src ≡ src + 2 * j
unfolding iterate
iterate-up src zero h = omega arith
iterate-up src (suc j) h =
    ap (λ (t : ℕ). iterate (λ s. u32 (s + 2)) j t) {x = u32 (src + 2)} {y = src + 2} (omega arith)
    ∙ iterate-up (src + 2) j (omega arith)
    ∙ omega arith

module _ (rand : ℕ → ℕ) where
  -- An accepted odd number from `low` to `high`; the odd numbers from `low` up to it are rejected.
  pub record PrimeAbove (low high : ℕ) (r : ℕ × ℕ) : Type 0 where
    pub above : low ≤ r.0
    pub below : r.0 ≤ high
    pub odd : r.0 % 2 ≡ 1
    pub accepted : Accepted rand r.0
    pub skipped : (s : ℕ) → low ≤ s → s < r.0 → s % 2 ≡ 1 → Rejected s

  Found-PrimeAbove :
      (low src high : ℕ) (a : ℕ × ℕ)
      → low ≤ src
      → src ≤ low + 1
      → src % 2 ≡ 1
      → src ≤ high
      → high ≤ 3037000500
      → Found rand (λ s. u32 (s + 2)) src ((high - src) / 2) a
      → PrimeAbove low high a
  unfolding Found
  Found-PrimeAbove low src high (r, k) h1 h2 odd h3 h4 (j, near, e, accepted, skipped) =
      let place : r ≡ src + 2 * j = e ∙ iterate-up src j (omega arith) in
      record {
        above = omega arith;
        below = omega arith;
        odd = omega arith;
        accepted = accepted;
        skipped = λ s h5 h6 h7.
            subst Rejected (iterate-up src ((s - src) / 2) (omega arith) ∙ omega arith)
              (skipped ((s - src) / 2) (omega arith));
      }

  search-PrimeAbove :
      (fuel low src high k : ℕ)
      → 1 < src
      → low ≤ src
      → src ≤ low + 1
      → src % 2 ≡ 1
      → src ≤ high
      → high % 2 ≡ 1
      → high ≤ 3037000500
      → Passes high
      → high - src < fuel
      → Returns (search rand (λ s. u32 (s + 2)) fuel src k) (PrimeAbove low high)
  search-PrimeAbove fuel low src high k h1 h2 h3 h4 h5 h6 h7 passes enough =
      Returns_map _ (λ a. Found-PrimeAbove low src high a h2 h3 h4 h5 h7)
        (search-Found rand (λ s. u32 (s + 2)) fuel ((high - src) / 2) src k (omega arith)
          (λ j h.
            subst InRange (sym (iterate-up src j (omega arith)))
              (record { large = omega arith; small = omega arith }))
          (subst Passes (sym (iterate-up src ((high - src) / 2) (omega arith) ∙ omega arith))
            passes))

  -- For `src` above 1, and an odd number `high` from `src` to 3037000500 that no test rejects, and
  -- fuel for `high - src + 1` tests, bdd_prime_gte ends without a fault, whatever rand() returns. It
  -- finds an odd number from `src` to `high` that has no easy factor and that 20 tests in a row
  -- accepted; each odd number from `src` up to it has an easy factor or a witness against it.
  pub bdd_prime_gte-PrimeAbove :
      (fuel src high k : ℕ)
      → 1 < src
      → src ≤ high
      → high % 2 ≡ 1
      → high ≤ 3037000500
      → Passes high
      → high - src < fuel
      → Returns (bdd_prime_gte rand fuel src k) (PrimeAbove src high)
  unfolding bdd_prime_gte is_even
  bdd_prime_gte-PrimeAbove fuel src high k h1 h2 h3 h4 passes enough =
      elim (Bool-cases (is_even src)) [
        | inl even ↦
            rw (even, mod-eq_of_lt {n = src + 1} {m = 2 ^ 32} (omega arith))
              (search-PrimeAbove fuel src (src + 1) high k (omega arith) (omega arith) (omega arith)
                (ground arith) (ground arith) h3 h4 passes (omega arith))
        | inr odd ↦ rw odd (
            search-PrimeAbove fuel src src high k h1 (omega arith) (omega arith) (ground arith) h2
              h3 h4 passes enough)
      ]
