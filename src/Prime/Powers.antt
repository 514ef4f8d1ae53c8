-- ===== src/Prime/Powers.antt =====
-- src/Prime.h: powers modulo a number.
use nanobdd.Base.{ℕ, zero, suc, ◌+◌, ◌*◌, ◌/◌, ◌%◌, ◌^◌}
use nanobdd.Base.{◌≡◌, refl, sym, ap, ◌∙◌, arith}
use native.Mathlib.Nat.{div-add-mod, div-div-eq-div-mul, pow-suc, pow-zero, mul-add-mod_self_left}

pub pow_double : (w e : ℕ) → w ^ (e + e) ≡ w ^ e * w ^ e
pow_double w zero = rw (pow-zero w) refl
pow_double w (suc e) =
    ap (λ (t : ℕ). w ^ t) {x = suc e + suc e} {y = suc (suc (e + e))} (omega arith)
    ∙ rw (pow-suc w (suc (e + e)), pow-suc w (e + e), pow-suc w e, pow_double w e) (omega arith)

pub mul-mod_left : (a b m : ℕ) → (a % m) * b % m ≡ a * b % m
mul-mod_left a b m =
    sym (mul-add-mod_self_left m (a / m * b) (a % m * b))
    ∙ ap (λ (t : ℕ). t % m) (omega (arith, ap (λ (t : ℕ). t * b) (div-add-mod a m)))

pub mul-mod_right : (a b m : ℕ) → a * (b % m) % m ≡ a * b % m
mul-mod_right a b m =
    sym (mul-add-mod_self_left m (a * (b / m)) (a * (b % m)))
    ∙ ap (λ (t : ℕ). t % m) (omega (arith, ap (λ (t : ℕ). a * t) (div-add-mod b m)))

-- the next binary digit of `n`
pub div-two_pow : (n i : ℕ) → n / 2 ^ i ≡ 2 * (n / 2 ^ suc i) + n / 2 ^ i % 2
div-two_pow n i =
    omega (arith, pow-suc 2 i, div-div-eq-div-mul n (2 ^ i) 2, ap (λ (t : ℕ). n / t) (pow-suc 2 i))

pub square-mod : (w e m : ℕ) → (w ^ e % m) * (w ^ e % m) % m ≡ w ^ (2 * e) % m
square-mod w e m =
    mul-mod_left (w ^ e) (w ^ e % m) m
    ∙ mul-mod_right (w ^ e) (w ^ e) m
    ∙ ap (λ (t : ℕ). t % m) (sym (pow_double w e) ∙ ap (λ (t : ℕ). w ^ t) (omega arith))

pub times-mod : (w e m : ℕ) → (w ^ e % m) * w % m ≡ w ^ (e + 1) % m
times-mod w e m =
    mul-mod_left (w ^ e) w m
    ∙ ap (λ (t : ℕ). t % m)
        (omega (arith, pow-suc w e, ap (λ (t : ℕ). w ^ t) {x = e + 1} {y = suc e} (omega arith)))
