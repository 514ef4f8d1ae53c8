-- ===== src/Tests/Interface.antt =====
-- The theorems on the C interface, at sessions of two objects.
use nanobdd.Base.{◌≡◌, ◌↔◌, true, some, [], ◌∷◌, ok, refl, Returns}
use nanobdd.Tree.{Assignment}
use nanobdd.Capi.{Session, root_of, c_eq}
use nanobdd.Capi.Objects.{c_eq_iff}
use nanobdd.Tests.Sample.{bump, library, t, free_cells, t-IsValid, x, y, x_means, y_means}

abbrev session : Session
session = record { library = library; objects = some x ∷ some y ∷ [] }

first_root : root_of 1 session ≡ ok x
unfolding root_of
first_root = refl

second_root : root_of 2 session ≡ ok y
unfolding root_of
second_root = refl

c_eq_iff_example : Returns (c_eq 1 2 session) (λ b. (b ≡ true) ↔ ((e : Assignment) → e 0 ≡ e 1))
c_eq_iff_example =
    c_eq_iff 2 session t free_cells 1 2 x y (λ e. e 0) (λ e. e 1) first_root second_root t-IsValid
      x_means y_means
