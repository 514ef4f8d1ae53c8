-- ===== src/Base/Lists.antt =====
-- Lists measured and indexed by native numbers, and Boolean membership of a number.
use Prim.Native.Nat.{ℕ, zero, suc, ◌+◌, ◌<◌}
use mathlib.Core.Path.{◌≡◌, refl, ap}
use mathlib.Core.Logic.{◌≢◌}
use mathlib.Core.List.{List, [], ◌∷◌, ◌++◌}
use native.Mathlib.Omega.{arith}
use nanobdd.Base.Tests.{◌==◌, if◌then◌else◌}

module _ {ℓ} {A : Type ℓ} where
  abbrev pub length : List A → ℕ
  length [] = 0
  length (x ∷ xs) = suc (length xs)

  abbrev pub get_or : List A → ℕ → A → A
  get_or [] i d = d
  get_or (x ∷ xs) zero d = x
  get_or (x ∷ xs) (suc i) d = get_or xs i d

  -- A write out of bounds changes nothing.
  abbrev pub set : List A → ℕ → A → List A
  set [] i v = []
  set (x ∷ xs) zero v = v ∷ xs
  set (x ∷ xs) (suc i) v = x ∷ set xs i v

  abbrev pub replicate : ℕ → A → List A
  replicate zero a = []
  replicate (suc n) a = a ∷ replicate n a

  pub length-append : (xs ys : List A) → length (xs ++ ys) ≡ length xs + length ys
  length-append [] ys = omega arith
  length-append (x ∷ xs) ys = omega (arith, length-append xs ys)

  pub get_or-append_last : (xs : List A) (x d : A) → get_or (xs ++ x ∷ []) (length xs) d ≡ x
  get_or-append_last [] x d = refl
  get_or-append_last (y ∷ xs) x d = get_or-append_last xs x d

  pub get_or-append_left :
      (xs : List A) (x d : A) (i : ℕ) → i < length xs → get_or (xs ++ x ∷ []) i d ≡ get_or xs i d
  get_or-append_left [] x d i lt = absurd (omega arith)
  get_or-append_left (y ∷ xs) x d zero lt = refl
  get_or-append_left (y ∷ xs) x d (suc i) lt = get_or-append_left xs x d i (omega arith)

  pub length-set : (xs : List A) (i : ℕ) (v : A) → length (set xs i v) ≡ length xs
  length-set [] i v = refl
  length-set (x ∷ xs) zero v = refl
  length-set (x ∷ xs) (suc i) v = ap suc (length-set xs i v)

  pub length-replicate : (n : ℕ) (a : A) → length (replicate n a) ≡ n
  length-replicate zero a = refl
  length-replicate (suc n) a = ap suc (length-replicate n a)

  pub get_or-replicate : (n i : ℕ) (a : A) → get_or (replicate n a) i a ≡ a
  get_or-replicate zero i a = refl
  get_or-replicate (suc n) zero a = refl
  get_or-replicate (suc n) (suc i) a = get_or-replicate n i a

  pub get_or-set :
      (xs : List A) (i j : ℕ) (v d : A)
      → i < length xs
      → get_or (set xs i v) j d ≡ (if i == j then v else get_or xs j d)
  get_or-set [] i j v d h = absurd (omega arith)
  get_or-set (x ∷ xs) zero zero v d h = ground arith
  get_or-set (x ∷ xs) zero (suc j) v d h = ground arith
  get_or-set (x ∷ xs) (suc i) zero v d h = ground arith
  get_or-set (x ∷ xs) (suc i) (suc j) v d h = ground (arith, get_or-set xs i j v d)

-- How often a number stands in a list.
abbrev pub count : ℕ → List ℕ → ℕ
count q [] = 0
count q (x ∷ xs) = (if q == x then 1 else 0) + count q xs

pub count-append : (q : ℕ) (xs ys : List ℕ) → count q (xs ++ ys) ≡ count q xs + count q ys
count-append q [] ys = omega arith
count-append q (x ∷ xs) ys = omega (arith, count-append q xs ys)

-- The same for a list of lists.
abbrev pub count_all : ℕ → List (List ℕ) → ℕ
count_all q [] = 0
count_all q (b ∷ bs) = count q b + count_all q bs

abbrev pub total : List (List ℕ) → ℕ
total [] = 0
total (b ∷ bs) = length b + total bs

count_all-nowhere :
    (q : ℕ) (bs : List (List ℕ)) → ((i : ℕ) → count q (get_or bs i []) ≡ 0) → count_all q bs ≡ 0
count_all-nowhere q [] h = refl
count_all-nowhere q (b ∷ bs) h = omega (arith, h 0, count_all-nowhere q bs (λ i. h (suc i)))

pub count_all-only :
    (q : ℕ) (bs : List (List ℕ)) (j : ℕ)
    → ((i : ℕ) → i ≢ j → count q (get_or bs i []) ≡ 0)
    → count_all q bs ≡ count q (get_or bs j [])
count_all-only q [] j h = refl
count_all-only q (b ∷ bs) zero h =
    omega (arith, count_all-nowhere q bs (λ i. h (suc i) (omega arith)))
count_all-only q (b ∷ bs) (suc j) h =
    omega (arith, h 0 (omega arith), count_all-only q bs j (λ i n. h (suc i) (omega arith)))

pub count_all-set :
    (q : ℕ) (bs : List (List ℕ)) (i : ℕ) (c : List ℕ)
    → i < length bs
    → count_all q (set bs i c) + count q (get_or bs i []) ≡ count_all q bs + count q c
count_all-set q [] i c h = absurd (omega arith)
count_all-set q (b ∷ bs) zero c h = omega arith
count_all-set q (b ∷ bs) (suc i) c h = omega (arith, count_all-set q bs i c (omega arith))

pub total-set :
    (bs : List (List ℕ)) (i : ℕ) (c : List ℕ)
    → i < length bs
    → total (set bs i c) + length (get_or bs i []) ≡ total bs + length c
total-set [] i c h = absurd (omega arith)
total-set (b ∷ bs) zero c h = omega arith
total-set (b ∷ bs) (suc i) c h = omega (arith, total-set bs i c (omega arith))

pub total-replicate : (n : ℕ) → total (replicate n []) ≡ 0
total-replicate zero = refl
total-replicate (suc n) = omega (arith, total-replicate n)
