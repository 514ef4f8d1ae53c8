-- ===== src/Prime/Witness.antt =====
-- src/Prime.h: what isWitness tells of a number, by the power that it computes.
use nanobdd.Base.{ℕ, zero, suc, ◌-◌, ◌*◌, ◌/◌, ◌%◌, ◌^◌, ◌≤◌, ◌<◌, ◌==◌, ==→eq}
use nanobdd.Base.{◌≡◌, refl, sym, ap, ◌∙◌, ◌≢◌, ◌⊎◌, inl, inr, arith}
use nanobdd.Base.{Bool, true, false, ◌&&◌, not, Bool-cases, ok, Returns}
use native.Mathlib.Nat.{mod-lt, mod-eq_of_lt, mul-le-mul, div-one, pow-zero, div-eq_of_lt}
use nanobdd.Prime.{bit_is_set, mulmod, pred_32, witness_loop, is_witness, number_of_bits}
use nanobdd.Prime.Bits.{number_of_bits-bounds}
use nanobdd.Prime.Powers.{div-two_pow, square-mod, times-mod}

-- A square root of 1 modulo `src` besides 1 and `src - 1`, which a prime number does not have.
pub ExtraRoot : ℕ → Type 0
ExtraRoot src = (x : ℕ) × x < src × (x * x % src ≡ 1) × (x ≢ 1) × (x ≢ src - 1)

-- What the answer of isWitness means.
unfoldable pub Verdict : ℕ → ℕ → Bool → Type 0
Verdict w src true = (w ^ (src - 1) % src ≢ 1) ⊎ ExtraRoot src
Verdict w src false = w ^ (src - 1) % src ≡ 1

-- The numbers for which no product of two remainders reaches `2 ^ 63`.
pub record InRange (src : ℕ) : Type 0 where
  pub large : 1 < src
  pub small : src ≤ 3037000500

pub pred_32-eq : (src : ℕ) → InRange src → pred_32 src ≡ src - 1
pred_32-eq src r = omega (arith, r.large, r.small)

mulmod-eq : (a b src : ℕ) → InRange src → a < src → b < src → mulmod a b src ≡ ok (a * b % src)
unfolding mulmod
mulmod-eq a b src r ha hb = ground (
  arith,
  r.large,
  r.small,
  mul-le-mul {n₁ = a} {m₁ = b} {n₂ = 3037000499} {m₂ = 3037000499} (omega (arith, r.small))
      (omega (arith, r.small)),
  mod-lt (a * b) {m = src} (omega (arith, r.large)),
)

module _ (w src : ℕ) (r : InRange src) (w_small : w < src) where
  -- what the loop's `d` is with `i` rounds left
  power : ℕ → ℕ
  power i = w ^ ((src - 1) / 2 ^ i) % src

  power-less : (i : ℕ) → power i < src
  unfolding power
  power-less i = mod-lt _ (omega (arith, r.large))

  power-square :
      (i : ℕ) → power (suc i) * power (suc i) % src ≡ w ^ (2 * ((src - 1) / 2 ^ suc i)) % src
  unfolding power
  power-square i = square-mod w ((src - 1) / 2 ^ suc i) src

  power-even :
      (i : ℕ) → bit_is_set (pred_32 src) i ≡ false → power (suc i) * power (suc i) % src ≡ power i
  unfolding power bit_is_set
  power-even i clear =
      power-square i
      ∙ ap (λ (t : ℕ). w ^ t % src) (ground (arith, div-two_pow (src - 1) i, pred_32-eq src r))

  power-odd :
      (i : ℕ)
      → bit_is_set (pred_32 src) i ≡ true
      → (power (suc i) * power (suc i) % src) * w % src ≡ power i
  unfolding power bit_is_set
  power-odd i set =
      ap (λ (t : ℕ). t * w % src) (power-square i)
      ∙ times-mod w (2 * ((src - 1) / 2 ^ suc i)) src
      ∙ ap (λ (t : ℕ). w ^ t % src) (ground (arith, div-two_pow (src - 1) i, pred_32-eq src r))

  last-Verdict : (x : ℕ) → x ≡ power 0 → Returns (ok (not (x == 1))) (Verdict w src)
  unfolding power Verdict
  last-Verdict x e =
      let last : x ≡ w ^ (src - 1) % src = e ∙ ap (λ (t : ℕ). w ^ t % src) (div-one (src - 1)) in
      elim (Bool-cases (x == 1)) [
        | inl one ↦ (false, rw one refl, sym last ∙ ==→eq x 1 one)
        | inr other ↦ (true, rw other refl, inl (λ h. ground (arith, h, last)))
      ]

  loop-Verdict : (i x : ℕ) → x ≡ power i → Returns (witness_loop w src i x) (Verdict w src)
  unfolding witness_loop Verdict ExtraRoot
  loop-Verdict zero x e = last-Verdict x e
  loop-Verdict (suc i) x e =
      let x_small : x < src = rw e (power-less (suc i)) in
      rw (mulmod-eq x x src r x_small x_small)
        (elim (Bool-cases ((x * x % src == 1) && not (x == 1) && not (x == pred_32 src))) [
          | inl root ↦ rw root (
            true,
            refl,
            inr (x, x_small, ground arith, ground arith, ground (arith, pred_32-eq src r)),
          )
          | inr none_yet ↦ rw none_yet (elim (Bool-cases (bit_is_set (pred_32 src) i)) [
            | inl set ↦
                rw
                  (set, mulmod-eq (x * x % src) w src r (mod-lt _ (omega (arith, r.large))) w_small)
                  (loop-Verdict i _ (rw e (power-odd i set)))
            | inr clear ↦ rw clear (loop-Verdict i _ (rw e (power-even i clear)))
          ])
        ])

  start-power : 1 ≡ power (number_of_bits (pred_32 src))
  unfolding power
  start-power =
      let no_digits : (src - 1) / 2 ^ number_of_bits (pred_32 src) ≡ 0 = div-eq_of_lt (
        omega (
          arith,
          (number_of_bits-bounds (pred_32 src) (omega (arith, r.large, r.small))).0,
          pred_32-eq src r,
        )) in
      rw (no_digits, pow-zero w, mod-eq_of_lt r.large) refl

-- For `src` from 2 to 3037000500 and a witness below it, isWitness ends without overflow. If it finds
-- no witness then w ^ (src - 1) is 1 modulo src; if it finds one then this power is not 1, or 1 has a
-- square root besides 1 and src - 1.
pub is_witness-Verdict :
    (w src : ℕ) → InRange src → w < src → Returns (is_witness w src) (Verdict w src)
unfolding is_witness
is_witness-Verdict w src r w_small =
    loop-Verdict w src r w_small (number_of_bits (pred_32 src)) 1 (start-power w src r w_small)
