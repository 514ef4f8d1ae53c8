-- ===== src/Hash.antt =====
-- src/Hash.h: the hash macros. All arithmetic is on `uint32_t`, so it wraps around at 2 ^ 32.
pub mod Laws
use nanobdd.Base.{ℕ, ◌+◌, ◌*◌, ◌/◌, ◌%◌, ◌^◌}

-- `(uint32_t)a`
abbrev pub u32 : ℕ → ℕ
u32 a = a % 2 ^ 32

-- `((s) * (s + 1) >> 1)` with s = `(uint32_t)a + (uint32_t)b`
triangle : ℕ → ℕ → ℕ
triangle a b = let s = u32 (u32 a + u32 b) in u32 (s * u32 (s + 1)) / 2

unfoldable pub hash_o_2 : ℕ → ℕ → ℕ
unfolding triangle
hash_o_2 a b = u32 (triangle a b + u32 a)

unfoldable pub hash_uo_2 : ℕ → ℕ → ℕ
unfolding triangle
hash_uo_2 a b = u32 (triangle a b + 1)

unfoldable pub hash_o_3 : ℕ → ℕ → ℕ → ℕ
unfolding hash_o_2
hash_o_3 a b c = hash_o_2 c (hash_o_2 a b)

unfoldable pub hash_uo_3 : ℕ → ℕ → ℕ → ℕ
unfolding hash_uo_2
hash_uo_3 a b c = hash_uo_2 c (hash_uo_2 a b)

unfoldable pub hash_uo_o_3 : ℕ → ℕ → ℕ → ℕ
unfolding hash_o_2 hash_uo_2
hash_uo_o_3 a b c = hash_o_2 c (hash_uo_2 a b)
