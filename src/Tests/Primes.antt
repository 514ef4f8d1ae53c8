-- ===== src/Tests/Primes.antt =====
-- The search for a prime from 14 up to 17.
use nanobdd.Base.{◌%◌, ◌+◌, ℕ, zero, suc, ◌*◌, ◌<◌, ◌^◌, ◌≤◌, Bool, true, false, ◌&&◌, arith}
use nanobdd.Base.{◌≡◌, refl, ap, ◌∙◌, inl, inr, Run, no_fuel, fault, ok, Returns, trichotomy}
use nanobdd.Prime.{mulmod, number_of_bits, top_bit, bit_is_set, is_witness, witness_loop, random}
use nanobdd.Prime.{has_factor, has_easy_factors, is_even, bdd_prime_gte, search}
use nanobdd.Prime.{is_prime, is_miller_rabin_prime, miller_rabin_loop}
use nanobdd.Prime.Bits.{number_of_bits-bounds}
use nanobdd.Prime.Witness.{Verdict, is_witness-Verdict}
use nanobdd.Prime.Words.{u64_mul, u64_mod, mod_loop, u64_shl}
use nanobdd.Prime.Words.Remainder.{u64_mod-mul}
use nanobdd.Prime.Judge.{Passes}
use nanobdd.Prime.Above.{PrimeAbove, bdd_prime_gte-PrimeAbove}

-- `rand()` counting up from 0
abbrev counting : ℕ → ℕ
counting k = k

abbrev accepts : Run Bool → Bool
accepts (ok false) = true
accepts _ = false

accepts-eq : (r : Run Bool) → accepts r ≡ true → r ≡ ok false
accepts-eq (ok false) e = refl
accepts-eq (ok true) e = absurd (cc e)
accepts-eq no_fuel e = absurd (cc e)
accepts-eq fault e = absurd (cc e)

-- No number from 1 to `n` is a witness against `src`.
accepted_by : ℕ → ℕ → Bool
accepted_by src zero = true
accepted_by src (suc n) = accepts (is_witness (suc n) src) && accepted_by src n

accepted_by-at :
    (src n w : ℕ) → accepted_by src n ≡ true → 0 < w → w ≤ n → is_witness w src ≡ ok false
unfolding accepted_by
accepted_by-at src zero w all pos low = absurd (omega arith)
accepted_by-at src (suc n) w all pos low = elim (trichotomy w (suc n)) [
  | inl less ↦ accepted_by-at src n w (ground arith) pos (omega arith)
  | inr (inl e) ↦ ap (λ (t : ℕ). is_witness t src) e ∙ accepts-eq _ (ground arith)
  | inr (inr more) ↦ absurd (omega arith)
]

seventeen : accepted_by 17 16 ≡ true
unfolding accepted_by is_witness witness_loop mulmod number_of_bits top_bit bit_is_set
seventeen = refl

Passes-17 : Passes 17
unfolding has_easy_factors has_factor
Passes-17 = record {
  no_factor = refl;
  no_witness = λ w pos low. accepted_by-at 17 16 w seventeen pos (omega arith);
}

number_of_bits-bounds_example :
    5 < 2 ^ number_of_bits 5 × ((k : ℕ) → 5 < 2 ^ k → number_of_bits 5 ≤ k)
number_of_bits-bounds_example = number_of_bits-bounds 5 (omega arith)

-- 2 ^ 14 is 4 modulo 15.
is_witness-Verdict_example : Returns (is_witness 2 15) (Verdict 2 15)
is_witness-Verdict_example =
    is_witness-Verdict 2 15 (record { large = omega arith; small = omega arith }) (omega arith)

bdd_prime_gte-PrimeAbove_example :
    Returns (bdd_prime_gte counting 4 14 0) (PrimeAbove counting 14 17)
bdd_prime_gte-PrimeAbove_example =
    bdd_prime_gte-PrimeAbove counting 4 14 17 0 (omega arith) (omega arith) refl (omega arith)
      Passes-17 (omega arith)

prime_after_14 : bdd_prime_gte counting 2 14 0 ≡ ok (17, 20)
unfolding bdd_prime_gte is_even search is_prime has_easy_factors has_factor is_miller_rabin_prime
    miller_rabin_loop random is_witness witness_loop mulmod number_of_bits top_bit bit_is_set
prime_after_14 = refl

-- From 0 and 1 the first number tested is 1, for which `Random` divides by 0.
no_prime_after_0 : (rand : ℕ → ℕ) (k : ℕ) → bdd_prime_gte rand 1 0 k ≡ fault
unfolding bdd_prime_gte is_even search is_prime has_easy_factors has_factor is_miller_rabin_prime
    miller_rabin_loop random
no_prime_after_0 rand k = refl

-- For numbers of 32 bits the product can overflow.
product_overflows : mulmod 3037000500 3037000500 4294967291 ≡ fault
unfolding mulmod
product_overflows = refl

u64_mod-mul_example : u64_mod (u64_mul 123456789 4000000000) 97 ≡ 123456789 * 4000000000 % 97
u64_mod-mul_example =
    u64_mod-mul 123456789 4000000000 97 (omega arith) (omega arith) (omega arith) (omega arith)

-- By a divisor above 2 ^ 31 the carry does not fit: the remainder of 2 ^ 31 should be 2 ^ 31.
remainder_lost : u64_mod (record { hi = 0; lo = 2 ^ 31 }) (2 ^ 31 + 1) ≡ 0
unfolding u64_mod mod_loop u64_shl
remainder_lost = refl
