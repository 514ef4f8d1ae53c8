-- ===== src/Prime/Judge.antt =====
-- src/Prime.h: what the answer of isPrime means, for any values of `rand()`.
use nanobdd.Base.{ℕ, zero, suc, ◌+◌, ◌-◌, ◌%◌, ◌^◌, ◌<◌, ◌≡◌, refl, ap, ◌∙◌}
use nanobdd.Base.{
  ◌⊎◌, inl, inr, Bool, true, false, Bool-cases, if◌then◌else◌, ok, Returns, Returns_map, arith,
}
use nanobdd.Prime.{random, is_witness, miller_rabin_loop, is_miller_rabin_prime, has_easy_factors}
use nanobdd.Prime.{is_prime, pred_32}
use nanobdd.Prime.Witness.{InRange, Verdict, is_witness-Verdict, pred_32-eq}
use native.Mathlib.Nat.{mod-lt}

-- The number is divisible by 3, 5, 7, 11 or 13 and not that prime, or has a witness against it.
pub Rejected : ℕ → Type 0
Rejected src = (has_easy_factors src ≡ true) ⊎ ((w : ℕ) × 0 < w × w < src × Verdict w src true)

-- No number from 1 to `src - 1` is a witness against `src`, and it has no easy factor.
pub record Passes (src : ℕ) : Type 0 where
  pub no_factor : has_easy_factors src ≡ false
  pub no_witness : (w : ℕ) → 0 < w → w < src → is_witness w src ≡ ok false

module _ (rand : ℕ → ℕ) where
  -- the witness that the test number `k` of `src` draws
  draw : ℕ → ℕ → ℕ
  draw src k = rand k % (src - 1) + 1

  -- The `n` tests from number `k` on find no witness: each power is 1.
  pub AcceptedBy : ℕ → ℕ → ℕ → Type 0
  AcceptedBy src n k = (j : ℕ) → j < n → draw src (k + j) ^ (src - 1) % src ≡ 1

  -- No easy factor, and 20 tests in a row that find no witness.
  pub Accepted : ℕ → Type 0
  Accepted src = (has_easy_factors src ≡ false) × ((k : ℕ) × AcceptedBy src 20 k)

  unfoldable pub Judged : ℕ → Bool × ℕ → Type 0
  Judged src (true, k) = Accepted src
  Judged src (false, k) = Rejected src

  Tested : ℕ → ℕ → ℕ → Bool × ℕ → Type 0
  Tested src n k (true, after) = AcceptedBy src n k
  Tested src n k (false, after) = (w : ℕ) × 0 < w × w < src × Verdict w src true

  random-draw : (src k : ℕ) → InRange src → random (rand k) (pred_32 src) ≡ ok (draw src k)
  unfolding random draw
  random-draw src k r = ground (arith, pred_32-eq src r, r.large)

  draw-pos : (src k : ℕ) → 0 < draw src k
  unfolding draw
  draw-pos src k = omega arith

  draw-less : (src k : ℕ) → InRange src → draw src k < src
  unfolding draw
  draw-less src k r = omega (arith, r.large, mod-lt (rand k) {m = src - 1} (omega (arith, r.large)))

  AcceptedBy-suc :
      (src n k : ℕ)
      → draw src k ^ (src - 1) % src ≡ 1
      → AcceptedBy src n (k + 1)
      → AcceptedBy src (suc n) k
  unfolding AcceptedBy
  AcceptedBy-suc src n k first rest zero h =
      ap (λ (t : ℕ). draw src t ^ (src - 1) % src) {x = k + 0} {y = k} (omega arith) ∙ first
  AcceptedBy-suc src n k first rest (suc j) h =
      ap (λ (t : ℕ). draw src t ^ (src - 1) % src) {x = k + suc j} {y = k + 1 + j} (omega arith)
      ∙ rest j (omega arith)

  Tested-suc :
      (src n k : ℕ) (a : Bool × ℕ)
      → Verdict (draw src k) src false
      → Tested src n (k + 1) a
      → Tested src (suc n) k a
  unfolding Tested Verdict
  Tested-suc src n k (true, after) first rest = AcceptedBy-suc src n k first rest
  Tested-suc src n k (false, after) first rest = rest

  test-Tested :
      (src n k : ℕ) (found : Bool)
      → InRange src
      → Verdict (draw src k) src found
      → Returns (miller_rabin_loop rand src n (k + 1)) (Tested src n (k + 1))
      → Returns
          (if found then ok (false, k + 1) else miller_rabin_loop rand src n (k + 1))
          (Tested src (suc n) k)
  unfolding Tested
  test-Tested src n k true r verdict rest =
      ((false, k + 1), refl, (draw src k, draw-pos src k, draw-less src k r, verdict))
  test-Tested src n k false r verdict rest = Returns_map _ (λ a. Tested-suc src n k a verdict) rest

  loop-Tested :
      (src n k : ℕ) → InRange src → Returns (miller_rabin_loop rand src n k) (Tested src n k)
  unfolding miller_rabin_loop Tested AcceptedBy
  loop-Tested src zero k r = ((true, k), refl, λ j h. absurd (omega arith))
  loop-Tested src (suc n) k r =
      let (found, run, verdict) = is_witness-Verdict (draw src k) src r (draw-less src k r) in
      rw (random-draw src k r, run)
        (test-Tested src n k found r verdict (loop-Tested src n (k + 1) r))

  Tested-Judged :
      (src k : ℕ) (a : Bool × ℕ) → has_easy_factors src ≡ false → Tested src 20 k a → Judged src a
  unfolding Tested Judged Accepted Rejected
  Tested-Judged src k (true, after) none_easy tested = (none_easy, (k, tested))
  Tested-Judged src k (false, after) none_easy tested = inr tested

  pub is_prime-Judged : (src k : ℕ) → InRange src → Returns (is_prime rand src k) (Judged src)
  unfolding is_prime is_miller_rabin_prime
  is_prime-Judged src k r = elim (Bool-cases (has_easy_factors src)) [
    | inl easy ↦ rw easy ((false, k), refl, unfold Judged Rejected in inl easy)
    | inr none_easy ↦
        rw none_easy (Returns_map _ (λ a. Tested-Judged src k a none_easy) (loop-Tested src 20 k r))
  ]

  -- A number that no witness rejects is found prime.
  loop-Passes :
      (src n k : ℕ) → InRange src → Passes src → miller_rabin_loop rand src n k ≡ ok (true, k + n)
  unfolding miller_rabin_loop
  loop-Passes src zero k r p = ap (λ (t : ℕ). ok (true, t)) (omega arith)
  loop-Passes src (suc n) k r p =
      rw (random-draw src k r, p.no_witness (draw src k) (draw-pos src k) (draw-less src k r))
        (loop-Passes src n (k + 1) r p ∙ ap (λ (t : ℕ). ok (true, t)) (omega arith))

  pub is_prime-Passes :
      (src k : ℕ) → InRange src → Passes src → is_prime rand src k ≡ ok (true, k + 20)
  unfolding is_prime is_miller_rabin_prime
  is_prime-Passes src k r p = rw p.no_factor (loop-Passes src 20 k r p)
