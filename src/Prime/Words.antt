-- ===== src/Prime/Words.antt =====
-- src/Prime.h: the 64-bit arithmetic for compilers that have no such type, in two words. Where a bit
-- is or'ed into a word that was shifted, it is added, since the lowest bit is 0.
pub mod Product
pub mod Remainder
use nanobdd.Base.{ℕ, zero, suc, ◌+◌, ◌-◌, ◌*◌, ◌/◌, ◌%◌, ◌^◌, max, ltb, leb, ◌==◌}
use nanobdd.Base.{Bool, if◌then◌else◌}
use nanobdd.Hash.{u32}

pub record U64 : Type 0 where
  pub hi : ℕ
  pub lo : ℕ

-- `a & 0x80000000 ? 1 : 0` of a word
abbrev pub top_of : ℕ → ℕ
top_of a = a / 2 ^ 31

abbrev pub get_carry : ℕ → ℕ → ℕ
get_carry a b = if ltb (u32 (a + b)) (max a b) then 1 else 0

abbrev pub add_shifted : U64 → ℕ → ℕ → U64
add_shifted res yh yl = record {
  lo = u32 (res.lo + yl);
  hi = u32 (res.hi + (yh + get_carry res.lo yl));
}

-- the loop of `u64_mul` with `n` rounds left
unfoldable pub mul_loop : ℕ → ℕ → ℕ → ℕ → U64 → U64
mul_loop zero x yh yl res = res
mul_loop (suc n) x yh yl res =
    mul_loop n (x / 2) (u32 (yh * 2) + top_of yl) (u32 (yl * 2))
      (if x % 2 == 1 then add_shifted res yh yl else res)

unfoldable pub u64_mul : ℕ → ℕ → U64
u64_mul x y = mul_loop 32 x 0 y (record { hi = 0; lo = 0 })

-- The dividend and the word that takes its carry.
pub record Shifted : Type 0 where
  pub a : U64
  pub carry_out : ℕ

unfoldable pub u64_shl : Shifted → Shifted
u64_shl s = record {
  carry_out = u32 (s.carry_out * 2) + top_of s.a.hi;
  a = record { hi = u32 (s.a.hi * 2) + top_of s.a.lo; lo = u32 (s.a.lo * 2) };
}

abbrev pub reduce : ℕ → Shifted → Shifted
reduce divisor s =
    if leb divisor s.carry_out then record s { carry_out = s.carry_out - divisor } else s

-- the loop of `u64_mod` with `n` rounds left
unfoldable pub mod_loop : ℕ → ℕ → Shifted → Shifted
mod_loop divisor zero s = s
mod_loop divisor (suc n) s = mod_loop divisor n (u64_shl (reduce divisor s))

unfoldable pub u64_mod : U64 → ℕ → ℕ
u64_mod dividend divisor =
    (mod_loop divisor 64 (u64_shl (record { a = dividend; carry_out = 0 }))).carry_out / 2
