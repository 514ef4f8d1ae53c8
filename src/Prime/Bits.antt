-- ===== src/Prime/Bits.antt =====
-- src/Prime.h: what numberOfBits counts.
use nanobdd.Base.{ℕ, zero, suc, ◌+◌, ◌*◌, ◌/◌, ◌^◌, ◌≤◌, ◌<◌}
use nanobdd.Base.{◌≡◌, ap, refl, ◌⊎◌, inl, inr, true, false, Bool-cases, arith}
use native.Mathlib.Nat.{div-lt_iff_lt-mul, le-div_iff_mul-le, pow-suc, one-le-pow, pow-le-pow_right}
use nanobdd.Prime.{bit_is_set, top_bit, number_of_bits}

-- The highest bit of a number below `2 ^ (b + 1)` tells whether it is below `2 ^ b`.
bit_is_set-cases :
    (src b : ℕ)
    → src < 2 ^ suc b
    → ((bit_is_set src b ≡ true) × 2 ^ b ≤ src) ⊎ ((bit_is_set src b ≡ false) × src < 2 ^ b)
unfolding bit_is_set
bit_is_set-cases src b below =
    let quotient_small : src / 2 ^ b < 2 =
      (div-lt_iff_lt-mul two_pow_pos).1 (omega (arith, pow-suc 2 b)) in
    elim (Bool-cases (bit_is_set src b)) [
      | inl set ↦
          inl
            (set, omega (arith, (le-div_iff_mul-le {x = 1} {y = src} two_pow_pos).0 (ground arith)))
      | inr clear ↦
          inr (
            clear,
            omega (arith, (div-lt_iff_lt-mul {x = src} {y = 1} two_pow_pos).0 (ground arith)),
          )
    ]
  where
    two_pow_pos : 0 < 2 ^ b
    two_pow_pos = one-le-pow b 2 (omega arith)

top_bit-lem :
    (src b : ℕ) → 0 < src → src < 2 ^ suc b → 2 ^ top_bit src b ≤ 2 * src × src < 2 ^ top_bit src b
unfolding top_bit
top_bit-lem src zero pos below = (omega (arith), below)
top_bit-lem src (suc b) pos below = elim (bit_is_set-cases src (suc b) below) [
  | inl (set, high) ↦
      rw set (omega (arith, ap (λ (t : ℕ). 2 ^ t) {x = suc b + 1} {y = suc (suc b)} (omega arith)))
  | inr (clear, low) ↦ rw clear (top_bit-lem src b pos low)
]

-- A number of bits that is exact, but for 0.
exact_bits :
    (src : ℕ)
    → src < 2 ^ 32
    → src < 2 ^ number_of_bits src × ((number_of_bits src ≡ 0) ⊎ (2 ^ number_of_bits src ≤ 2 * src))
unfolding number_of_bits
exact_bits zero below = (omega arith, inl refl)
exact_bits (suc src) below = ground (arith, top_bit-lem (suc src) 31)

-- For every unsigned int, numberOfBits(src) is the least number b of bits with src < 2 ^ b; so it is 0
-- for 0.
pub number_of_bits-bounds :
    (src : ℕ)
    → src < 2 ^ 32
    → src < 2 ^ number_of_bits src × ((k : ℕ) → src < 2 ^ k → number_of_bits src ≤ k)
number_of_bits-bounds src below =
    let (fits, least) = exact_bits src below in
    (
      fits,
      λ k small. elim least [
        | inl e ↦ omega (arith, e)
        | inr half ↦ elim (at_most_or_above (number_of_bits src) k) [
          | inl le ↦ le
          | inr more ↦
              absurd (
                omega
                  (arith, pow-le-pow_right {n = 2} (omega arith) more, pow-suc 2 k, half, small))
        ]
      ],
    )
  where
    at_most_or_above : (b k : ℕ) → (b ≤ k) ⊎ (suc k ≤ b)
    at_most_or_above b k = omega arith
