-- ===== src/Prime/Search.antt =====
-- src/Prime.h: what bdd_prime_gte and bdd_prime_lte find, and that they end.
use nanobdd.Base.{ℕ, zero, suc, ◌≤◌, ◌<◌, ◌≡◌, refl}
use nanobdd.Base.{Bool, true, false, if◌then◌else◌, ok, Returns, Returns_map, arith}
use nanobdd.Prime.{is_prime, search}
use nanobdd.Prime.Witness.{InRange}
use nanobdd.Prime.Judge.{Rejected, Passes, Accepted, Judged, is_prime-Judged, is_prime-Passes}

-- `next` done `n` times
unfoldable pub iterate : (ℕ → ℕ) → ℕ → ℕ → ℕ
iterate next zero src = src
iterate next (suc n) src = iterate next n (next src)

module _ (rand : ℕ → ℕ) (next : ℕ → ℕ) where
  -- The first accepted number among `src`, `next src`, ..., at most `n` steps away.
  unfoldable pub Found : ℕ → ℕ → ℕ × ℕ → Type 0
  Found src n (r, k) =
      (j : ℕ) × j ≤ n
      × (r ≡ iterate next j src)
      × Accepted rand r
      × ((i : ℕ) → i < j → Rejected (iterate next i src))

  Found-next : (src n : ℕ) (a : ℕ × ℕ) → Rejected src → Found (next src) n a → Found src (suc n) a
  unfolding Found iterate
  Found-next src n (r, k) rejected (j, near, e, accepted, skipped) =
      (suc j, omega arith, e, accepted, earlier)
    where
      earlier : (i : ℕ) → i < suc j → Rejected (iterate next i src)
      earlier zero h = rejected
      earlier (suc i) h = skipped i (omega arith)

  Accepted-Found : (src n after : ℕ) → Accepted rand src → Returns (ok (src, after)) (Found src n)
  unfolding Found iterate
  Accepted-Found src n after accepted =
      ((src, after), refl, (0, omega arith, refl, accepted, λ i h. absurd (omega arith)))

  step-Found :
      (fuel n src after : ℕ) (found : Bool)
      → Judged rand src (found, after)
      → Returns (search rand next fuel (next src) after) (Found (next src) n)
      → Returns
          (if found then ok (src, after) else search rand next fuel (next src) after)
          (Found src (suc n))
  unfolding Judged
  step-Found fuel n src after true judged rest = Accepted-Found src (suc n) after judged
  step-Found fuel n src after false judged rest =
      Returns_map _ (λ a. Found-next src n a judged) rest

  last-Found :
      (fuel src k after : ℕ) (found : Bool)
      → is_prime rand src k ≡ ok (found, after)
      → Judged rand src (found, after)
      → InRange src
      → Passes src
      → Returns
          (if found then ok (src, after) else search rand next fuel (next src) after)
          (Found src 0)
  unfolding Judged
  last-Found fuel src k after true run judged r passes = Accepted-Found src 0 after judged
  last-Found fuel src k after false run judged r passes =
      absurd (cc (run, is_prime-Passes rand src k r passes))

  -- If the `n`-th number passes every test, then `n + 1` tests are enough.
  pub search-Found :
      (fuel n src k : ℕ)
      → n < fuel
      → ((j : ℕ) → j ≤ n → InRange (iterate next j src))
      → Passes (iterate next n src)
      → Returns (search rand next fuel src k) (Found src n)
  unfolding search iterate
  search-Found zero n src k enough in_range passes = absurd (omega arith)
  search-Found (suc fuel) zero src k enough in_range passes =
      let r : InRange src = in_range 0 (omega arith) in
      let ((found, after), run, judged) = is_prime-Judged rand src k r in
      rw run (last-Found fuel src k after found run judged r passes)
  search-Found (suc fuel) (suc n) src k enough in_range passes =
      let r : InRange src = in_range 0 (omega arith) in
      let ((found, after), run, judged) = is_prime-Judged rand src k r in
      rw run (
        step-Found fuel n src after found judged (
          search-Found fuel n (next src) after (omega arith) (λ j h. in_range (suc j) (omega arith))
            passes))
