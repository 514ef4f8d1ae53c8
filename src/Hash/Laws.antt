-- ===== src/Hash/Laws.antt =====
-- The unordered hash does not depend on the order of the two operands.
use nanobdd.Base.{ℕ, ◌≡◌}
use nanobdd.Hash.{u32, triangle, hash_uo_2, hash_uo_o_3}
use native.Mathlib.Nat.{add_comm}

triangle_comm : (a b : ℕ) → triangle a b ≡ triangle b a
unfolding triangle
triangle_comm a b = rw (add_comm (u32 a) (u32 b))

hash_uo_2_comm : (a b : ℕ) → hash_uo_2 a b ≡ hash_uo_2 b a
unfolding hash_uo_2
hash_uo_2_comm a b = rw (triangle_comm a b)

-- The cache key of a commutative operation is the same for both orders of its operands.
hash_uo_o_3_comm : (a b c : ℕ) → hash_uo_o_3 a b c ≡ hash_uo_o_3 b a c
unfolding hash_uo_o_3
hash_uo_o_3_comm a b c = rw (hash_uo_2_comm a b)
