-- ===== src/Prime.antt =====
-- src/Prime.h: the search for the next prime, by the test of Miller and Rabin. `unsigned int` has 32
-- bits. The 64-bit product is the branch `typedef long long UINT64` that GCC and Clang compile.
pub mod Bits
pub mod Powers
pub mod Witness
pub mod Words
pub mod Judge
pub mod Search
pub mod Above
pub mod Below
use nanobdd.Base.{ℕ, zero, suc, ◌+◌, ◌-◌, ◌*◌, ◌/◌, ◌%◌, ◌^◌, ltb, ◌==◌, if◌then◌else◌}
use nanobdd.Base.{Bool, true, false, ◌&&◌, ◌||◌, not, Run, no_fuel, fault, ok, ◌>>=◌}
use nanobdd.Hash.{u32}

-- `src - 1` and `src - 2` on `unsigned int`, which wrap around below 0
abbrev pub pred_32 : ℕ → ℕ
pred_32 src = u32 (src + (2 ^ 32 - 1))

abbrev pub minus_two_32 : ℕ → ℕ
minus_two_32 src = u32 (src + (2 ^ 32 - 2))

unfoldable pub is_even : ℕ → Bool
is_even src = src % 2 == 0

unfoldable pub has_factor : ℕ → ℕ → Bool
has_factor src n = not (src == n) && (src % n == 0)

unfoldable pub bit_is_set : ℕ → ℕ → Bool
bit_is_set src b = src / 2 ^ b % 2 == 1

-- `u64_mulmod`: the product is signed, so from `2 ^ 63` on it is undefined.
unfoldable pub mulmod : ℕ → ℕ → ℕ → Run ℕ
mulmod a b c =
    if ltb (a * b) (2 ^ 63) then (if c == 0 then fault else ok (u32 (a * b % c))) else fault

-- the loop of `numberOfBits`, from bit `b` down to bit 1
unfoldable pub top_bit : ℕ → ℕ → ℕ
top_bit src zero = 1
top_bit src (suc b) = let rest = top_bit src b in if bit_is_set src (suc b) then suc b + 1 else rest

unfoldable pub number_of_bits : ℕ → ℕ
number_of_bits src = if src == 0 then 0 else top_bit src 31

-- the loop of `isWitness` with `n` rounds left, which are for the bits `n - 1` to 0
unfoldable pub witness_loop : ℕ → ℕ → ℕ → ℕ → Run Bool
witness_loop witness src zero d = ok (not (d == 1))
witness_loop witness src (suc i) x = mulmod x x src >>= λ d.
    if (d == 1) && not (x == 1) && not (x == pred_32 src)
    then ok true
    else ((if bit_is_set (pred_32 src) i then mulmod d witness src else ok d) >>= λ d2.
        witness_loop witness src i d2)

-- `bitNum` is one less than the number of bits, as an `int`: the loop has as many rounds as bits.
unfoldable pub is_witness : ℕ → ℕ → Run Bool
is_witness witness src = witness_loop witness src (number_of_bits (pred_32 src)) 1

unfoldable pub has_easy_factors : ℕ → Bool
has_easy_factors src =
    has_factor src 3
    || has_factor src 5
    || has_factor src 7
    || has_factor src 11
    || has_factor src 13

-- `Random(i)` at a value of `rand()`; with `i` = 0 it divides by 0.
unfoldable pub random : ℕ → ℕ → Run ℕ
random value i = if i == 0 then fault else ok (value % i + 1)

-- `rand k` is the value of the call number `k` of `rand()`; a result comes with the next number.
module _ (rand : ℕ → ℕ) where
  -- the loop of `isMillerRabinPrime` with `n` rounds left
  unfoldable pub miller_rabin_loop : ℕ → ℕ → ℕ → Run (Bool × ℕ)
  miller_rabin_loop src zero k = ok (true, k)
  miller_rabin_loop src (suc n) k = random (rand k) (pred_32 src) >>= λ witness.
      is_witness witness src >>= λ found.
      if found then ok (false, k + 1) else miller_rabin_loop src n (k + 1)

  unfoldable pub is_miller_rabin_prime : ℕ → ℕ → Run (Bool × ℕ)
  is_miller_rabin_prime src k = miller_rabin_loop src 20 k

  unfoldable pub is_prime : ℕ → ℕ → Run (Bool × ℕ)
  is_prime src k = if has_easy_factors src then ok (false, k) else is_miller_rabin_prime src k

  -- `while (!isPrime(src)) src = next(src);` with at most `fuel` tests
  unfoldable pub search : (ℕ → ℕ) → ℕ → ℕ → ℕ → Run (ℕ × ℕ)
  search next zero src k = no_fuel
  search next (suc fuel) src k =
      is_prime src k >>= λ r. if r.0 then ok (src, r.1) else search next fuel (next src) r.1

  unfoldable pub bdd_prime_gte : ℕ → ℕ → ℕ → Run (ℕ × ℕ)
  bdd_prime_gte fuel src k =
      search (λ s. u32 (s + 2)) fuel (if is_even src then u32 (src + 1) else src) k

  unfoldable pub bdd_prime_lte : ℕ → ℕ → ℕ → Run (ℕ × ℕ)
  bdd_prime_lte fuel src k = search minus_two_32 fuel (if is_even src then pred_32 src else src) k
