-- ===== src/Prime/Words/Remainder.antt =====
-- src/Prime.h: u64_mod takes the remainder, by a divisor up to `2 ^ 31`.
use nanobdd.Base.{
  ℕ, zero, suc, ◌+◌, ◌-◌, ◌*◌, ◌/◌, ◌%◌, ◌^◌, ◌≤◌, ◌<◌, ◌≡◌, refl, arith, ap, sym, ◌∙◌, subst,
  Bool-cases, inl, inr, ok, leb,
}
use nanobdd.Prime.{mulmod}
use nanobdd.Prime.Words.{U64, Shifted, u64_shl, reduce, mod_loop, u64_mod, u64_mul}
use nanobdd.Prime.Words.Product.{IsValue, double-IsValue, u64_mul-IsValue}
use nanobdd.Prime.Powers.{mul-mod_left}
use native.Mathlib.Nat.{
  mul-le-mul, div-lt_iff_lt-mul, pow-suc, mod-eq_of_lt, mod-lt, mul-le-mul_right, div-add-mod,
  mod-add-mod, mod-eq-sub-mod, one-le-pow,
}

-- A number of `n + 1` digits, aligned to the top of 64 digits: its first digit and the rest.
record IsSplit (n b k : ℕ) : Type 0 where
  sum : b * k ≡ b / 2 ^ n * 2 ^ 63 + b % 2 ^ n * k
  rest_less : b % 2 ^ n * k < 2 ^ 63
  digit_less : b / 2 ^ n < 2

split : (n b k : ℕ) → 2 ^ suc n * k ≡ 2 ^ 64 → b < 2 ^ suc n → IsSplit n b k
split n b zero aligned less = absurd (omega (arith, aligned))
split n b (suc k) aligned less =
    let scale : 2 ^ n * suc k ≡ 2 ^ 63 =
      omega (arith, aligned, ap (λ (t : ℕ). t * suc k) (pow-suc 2 n)) in
    record {
      sum = omega (
        arith,
        ap (λ (t : ℕ). t * suc k) (div-add-mod b (2 ^ n)),
        ap (λ (t : ℕ). b / 2 ^ n * t) scale,
      );
      rest_less = omega (
        arith,
        scale,
        mul-le-mul_right {m = b % 2 ^ n + 1} {n = 2 ^ n} (suc k)
            (omega (arith, mod-lt b (one-le-pow n 2 (omega arith)))),
      );
      digit_less =
          (div-lt_iff_lt-mul (one-le-pow n 2 (omega arith))).1 (omega (arith, pow-suc 2 n));
    }

shl-carry :
    (n b k d : ℕ) (s : Shifted)
    → IsValue (b * k) s.a
    → IsSplit n b k
    → d ≤ 2 ^ 31
    → s.carry_out < d
    → (u64_shl s).carry_out ≡ 2 * s.carry_out + b / 2 ^ n
unfolding u64_shl
shl-carry n b k d s a split small low =
    omega (arith, a.hi_less, a.lo_less, a.value_eq, split.sum, split.rest_less, split.digit_less)

shl-IsValue : (t : ℕ) (s : Shifted) → IsValue t s.a → IsValue (t * 2 % 2 ^ 64) (u64_shl s).a
unfolding u64_shl
shl-IsValue t s a = double-IsValue t s.a.hi s.a.lo a

reduce-eq :
    (d : ℕ) (s : Shifted)
    → s.carry_out < 2 * d
    → reduce d s ≡ record s { carry_out = s.carry_out % d }
reduce-eq d s low = elim (Bool-cases (leb d s.carry_out)) [
  | inl more ↦
      let le : d ≤ s.carry_out = ground arith in
      let once : s.carry_out - d ≡ s.carry_out % d =
        sym (mod-eq-sub-mod le ∙ mod-eq_of_lt {n = s.carry_out - d} {m = d} (omega (arith, le))) in
      rw more (ap (λ (t : ℕ). record s { carry_out = t }) once)
  | inr less ↦
      let none : s.carry_out ≡ s.carry_out % d = sym (mod-eq_of_lt (ground arith)) in
      rw less (ap (λ (t : ℕ). record s { carry_out = t }) none)
]

last-eq :
    (b k d : ℕ) (s : Shifted)
    → IsValue (b * k) s.a
    → b < 1
    → d ≤ 2 ^ 31
    → s.carry_out < d
    → (u64_shl s).carry_out / 2 ≡ (s.carry_out * 1 + b) % d
unfolding u64_shl
last-eq zero k d s a less small low = omega (
  arith,
  a.value_eq,
  mod-eq_of_lt low,
  ap (λ (t : ℕ). t % d) {x = s.carry_out * 1 + 0} {y = s.carry_out} (omega arith),
)
last-eq (suc b) k d s a less small low = absurd (omega arith)

-- One round on the carry and on the digits gives the same remainder.
round-eq :
    (n b c d : ℕ) → ((2 * c + b / 2 ^ n) % d * 2 ^ n + b % 2 ^ n) % d ≡ (c * 2 ^ suc n + b) % d
round-eq n b c d =
    let next = 2 * c + b / 2 ^ n in
    sym (mod-add-mod (next % d * 2 ^ n) d (b % 2 ^ n))
    ∙ ap (λ (t : ℕ). (t + b % 2 ^ n) % d) (mul-mod_left next (2 ^ n) d)
    ∙ mod-add-mod (next * 2 ^ n) d (b % 2 ^ n)
    ∙ ap (λ (t : ℕ). t % d)
        (omega (arith, ap (λ (t : ℕ). c * t) (pow-suc 2 n), div-add-mod b (2 ^ n)))

-- While `n` digits are left in the dividend, aligned to its top.
mod_loop-eq :
    (n b k d : ℕ) (s : Shifted)
    → IsValue (b * k) s.a
    → 2 ^ n * k ≡ 2 ^ 64
    → b < 2 ^ n
    → d ≤ 2 ^ 31
    → s.carry_out < d
    → (mod_loop d n (u64_shl s)).carry_out / 2 ≡ (s.carry_out * 2 ^ n + b) % d
unfolding mod_loop
mod_loop-eq zero b k d s a aligned less small low = last-eq b k d s a less small low
mod_loop-eq (suc n) b k d s a aligned less small low =
    let sp = split n b k aligned less in
    let carry = shl-carry n b k d s a sp small low in
    let step : Shifted = record (u64_shl s) { carry_out = (2 * s.carry_out + b / 2 ^ n) % d } in
    let reduced : reduce d (u64_shl s) ≡ step =
      reduce-eq d (u64_shl s) (omega (arith, carry, sp.digit_less))
      ∙ ap (λ (t : ℕ). record (u64_shl s) { carry_out = t % d }) carry in
    ap (λ q. (mod_loop d n (u64_shl q)).carry_out / 2) reduced
    ∙ mod_loop-eq n (b % 2 ^ n) (2 * k) d step
        (subst (λ t. IsValue t (u64_shl s).a) (omega (arith, sp.sum, sp.rest_less, sp.digit_less))
          (shl-IsValue (b * k) s a))
        (omega (arith, aligned, ap (λ (t : ℕ). t * k) (pow-suc 2 n)))
        (mod-lt b (one-le-pow n 2 (omega arith))) small (mod-lt _ (omega arith))
    ∙ round-eq n b s.carry_out d

pub u64_mod-eq :
    (d t : ℕ) (a : U64) → IsValue t a → t < 2 ^ 64 → 0 < d → d ≤ 2 ^ 31 → u64_mod a d ≡ t % d
unfolding u64_mod
u64_mod-eq d t a v fits pos small =
    mod_loop-eq 64 t 1 d (record { a = a; carry_out = 0 })
      (subst (λ u. IsValue u a) (omega arith) v) refl fits small pos
    ∙ ap (λ (u : ℕ). u % d) (omega arith)

-- For two words, and a divisor from 1 to 2 ^ 31, the word arithmetic computes the remainder of the
-- product.
pub u64_mod-mul :
    (a b c : ℕ) → a < 2 ^ 32 → b < 2 ^ 32 → 0 < c → c ≤ 2 ^ 31 → u64_mod (u64_mul a b) c ≡ a * b % c
u64_mod-mul a b c ha hb pos small =
    u64_mod-eq c (a * b) (u64_mul a b) (u64_mul-IsValue a b ha hb)
      (omega (
        arith,
        mul-le-mul {n₁ = a} {m₁ = b} {n₂ = 2 ^ 32 - 1} {m₂ = 2 ^ 32 - 1} (omega arith)
            (omega arith),
      ))
      pos small

-- Below 2 ^ 63 the two branches of u64_mulmod agree.
mulmod-eq_words :
    (a b c : ℕ)
    → a < 2 ^ 32
    → b < 2 ^ 32
    → 0 < c
    → c ≤ 2 ^ 31
    → a * b < 2 ^ 63
    → mulmod a b c ≡ ok (u64_mod (u64_mul a b) c)
unfolding mulmod
mulmod-eq_words a b c ha hb pos small fits =
    ground (arith, u64_mod-mul a b c ha hb pos small, mod-lt (a * b) pos)
