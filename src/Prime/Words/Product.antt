-- ===== src/Prime/Words/Product.antt =====
-- src/Prime.h: u64_mul multiplies.
use nanobdd.Base.{
  ℕ, zero, suc, ◌+◌, ◌-◌, ◌*◌, ◌/◌, ◌%◌, ◌^◌, ◌<◌, ◌≡◌, refl, arith, ap, subst, eq_cases, ◌==◌,
  Bool-cases, inl, inr,
}
use nanobdd.Hash.{u32}
use nanobdd.Prime.Words.{U64, mul_loop, u64_mul, top_of, add_shifted}
use native.Mathlib.Nat.{pow-suc, mod-eq_of_lt, mul-le-mul_right, mul-le-mul}

abbrev pub value : ℕ → ℕ → ℕ
value hi lo = hi * 2 ^ 32 + lo

-- The two words stand for `t`.
pub record IsValue (t : ℕ) (a : U64) : Type 0 where
  pub hi_less : a.hi < 2 ^ 32
  pub lo_less : a.lo < 2 ^ 32
  pub value_eq : value a.hi a.lo ≡ t

abbrev pub words : ℕ → ℕ → U64
words hi lo = record { hi = hi; lo = lo }

-- a shift by one place, which drops the highest bit
pub double-IsValue :
    (t yh yl : ℕ)
    → IsValue t (words yh yl)
    → IsValue (t * 2 % 2 ^ 64) (words (u32 (yh * 2) + top_of yl) (u32 (yl * 2)))
double-IsValue t yh yl y = record {
  hi_less = omega (arith, y.lo_less);
  lo_less = omega arith;
  value_eq = omega (arith, y.hi_less, y.lo_less, y.value_eq);
}

add_shifted-IsValue :
    (t u yh yl : ℕ) (res : U64)
    → IsValue t res
    → IsValue u (words yh yl)
    → t + u < 2 ^ 64
    → IsValue (t + u) (add_shifted res yh yl)
add_shifted-IsValue t u yh yl res r y fits = record {
  hi_less = omega arith;
  lo_less = omega arith;
  value_eq = ground (arith, r.hi_less, r.lo_less, r.value_eq, y.hi_less, y.lo_less, y.value_eq);
}

-- The digits of `x` above the lowest one, times twice `u`, which may lose its highest bit if there are
-- none.
rest_times : (x u : ℕ) → x * u < 2 ^ 64 → (x / 2) * (u * 2 % 2 ^ 64) + (x % 2) * u ≡ x * u
rest_times x u fits =
    let digits : x * u ≡ (x / 2 * 2 + x % 2) * u = ap (λ (t : ℕ). t * u) (omega arith) in
    elim (eq_cases (x / 2) 0) [
      | inl none_left ↦
          rw none_left (omega (arith, ap (λ (t : ℕ). t * u) {x = x % 2} {y = x} (omega arith)))
      | inr some_left ↦
          let twice_fits : u * 2 < 2 ^ 64 =
            omega (arith, digits, mul-le-mul_right {m = 1} {n = x / 2} (u * 2) (omega arith)) in
          rw (mod-eq_of_lt {n = u * 2} {m = 2 ^ 64} twice_fits) (omega (arith, digits))
    ]

times-small : (x u : ℕ) → x < 1 → x * u ≡ 0
times-small zero u small = omega arith
times-small (suc x) u small = absurd (omega arith)

-- While `n` digits of `x` are left, their product is still to be added.
mul_loop-IsValue :
    (n x t u yh yl : ℕ) (res : U64)
    → IsValue t res
    → IsValue u (words yh yl)
    → x < 2 ^ n
    → t + x * u < 2 ^ 64
    → IsValue (t + x * u) (mul_loop n x yh yl res)
unfolding mul_loop
mul_loop-IsValue zero x t u yh yl res r y small fits =
    subst (λ s. IsValue s res) (ground (arith, times-small x u small)) r
mul_loop-IsValue (suc n) x t u yh yl res r y small fits = elim (Bool-cases (x % 2 == 1)) [
  | inl odd ↦
      let one : x % 2 ≡ 1 = ground arith in
      let total : t + u + (x / 2) * (u * 2 % 2 ^ 64) ≡ t + x * u =
        omega (arith, rest_times x u (omega arith), ap (λ (s : ℕ). s * u) one) in
      rw odd (
        subst
          (λ s.
            IsValue s (
              mul_loop n (x / 2) (u32 (yh * 2) + top_of yl) (u32 (yl * 2)) (add_shifted res yh yl)))
          total
          (mul_loop-IsValue n (x / 2) (t + u) (u * 2 % 2 ^ 64) _ _ _
            (add_shifted-IsValue t u yh yl res r y (omega (arith, total)))
            (double-IsValue u yh yl y) (omega (arith, pow-suc 2 n)) (omega (arith, total))))
  | inr even ↦
      let zero_digit : x % 2 ≡ 0 = ground arith in
      let total : t + (x / 2) * (u * 2 % 2 ^ 64) ≡ t + x * u =
        omega (arith, rest_times x u (omega arith), ap (λ (s : ℕ). s * u) zero_digit) in
      rw even (
        subst (λ s. IsValue s (mul_loop n (x / 2) (u32 (yh * 2) + top_of yl) (u32 (yl * 2)) res))
          total
          (mul_loop-IsValue n (x / 2) t (u * 2 % 2 ^ 64) _ _ _ r (double-IsValue u yh yl y)
            (omega (arith, pow-suc 2 n)) (omega (arith, total))))
]

pub u64_mul-IsValue : (x y : ℕ) → x < 2 ^ 32 → y < 2 ^ 32 → IsValue (x * y) (u64_mul x y)
unfolding u64_mul
u64_mul-IsValue x y hx hy =
    subst (λ s. IsValue s (mul_loop 32 x 0 y (words 0 0))) {x = 0 + x * y} (omega arith)
      (mul_loop-IsValue 32 x 0 y 0 y (words 0 0)
        (record { hi_less = omega arith; lo_less = omega arith; value_eq = refl })
        (record { hi_less = omega arith; lo_less = hy; value_eq = omega arith }) hx
        (omega (
          arith,
          mul-le-mul {n₁ = x} {m₁ = y} {n₂ = 2 ^ 32 - 1} {m₂ = 2 ^ 32 - 1} (omega arith)
              (omega arith),
        )))
