-- ===== src/Concurrent/Threads.antt =====
-- The threads are a function from their numbers to where they stand. Sums over the first `n` of them
-- count those in a critical section.
use nanobdd.Base.{
  true, false, ℕ, zero, suc, ◌+◌, ◌≤◌, ◌<◌, ◌≡◌, ◌≢◌, ◌==◌, if◌then◌else◌, eq_cases, inl, inr,
  arith, refl, sym,
}

-- Thread `i` moves on.
abbrev pub update {ℓ} : {A : Type ℓ} → (ℕ → A) → ℕ → A → ℕ → A
update f i a j = if j == i then a else f j

module _ {ℓ} {A : Type ℓ} (f : ℕ → A) (i j : ℕ) (a : A) where
  pub update_here : j ≡ i → update f i a j ≡ a
  update_here e = let b : (j == i) ≡ true = ground arith in rw b refl

  pub update_there : j ≢ i → update f i a j ≡ f j
  update_there ne = let b : (j == i) ≡ false = ground (arith, ne) in rw b refl

module _ {ℓ} {A : Type ℓ} (weight : A → ℕ) where
  abbrev pub sum : ℕ → (ℕ → A) → ℕ
  sum zero f = 0
  sum (suc n) f = weight (f n) + sum n f

  sum-update_above : (n : ℕ) (f : ℕ → A) (i : ℕ) (a : A) → n ≤ i → sum n (update f i a) ≡ sum n f
  sum-update_above zero f i a above = refl
  sum-update_above (suc n) f i a above = ground (arith, sum-update_above n f i a)

  pub sum-update :
      (n : ℕ) (f : ℕ → A) (i : ℕ) (a : A)
      → i < n
      → weight (f i) + sum n (update f i a) ≡ weight a + sum n f
  sum-update zero f i a lt = absurd (omega arith)
  sum-update (suc n) f i a lt = elim (eq_cases n i) [
    | inl e ↦ let rest = sum-update_above n f i a (omega arith) in ground (arith, e, rest)
    | inr k ↦ let rest = sum-update n f i a (omega arith) in ground (arith, k, rest)
  ]

  pub weight-le_sum : (n : ℕ) (f : ℕ → A) (i : ℕ) → i < n → weight (f i) ≤ sum n f
  weight-le_sum zero f i lt = absurd (omega arith)
  weight-le_sum (suc n) f i lt = elim (eq_cases n i) [
    | inl e ↦ rw (sym e) (omega arith)
    | inr k ↦ omega (arith, weight-le_sum n f i (omega arith))
  ]

  -- Two different threads count twice.
  pub weights-le_sum :
      (n : ℕ) (f : ℕ → A) (i j : ℕ) → i < n → j < n → i ≢ j → weight (f i) + weight (f j) ≤ sum n f
  weights-le_sum zero f i j lt lt' ne = absurd (omega arith)
  weights-le_sum (suc n) f i j lt lt' ne = elim (eq_cases n i) [
    | inl e ↦ rw (sym e) (omega (arith, weight-le_sum n f j (omega arith)))
    | inr k ↦ elim (eq_cases n j) [
      | inl e ↦ rw (sym e) (omega (arith, weight-le_sum n f i (omega arith)))
      | inr l ↦ omega (arith, weights-le_sum n f i j (omega arith) (omega arith) ne)
    ]
  ]

  pub sum-le : ((a : A) → weight a ≤ 1) → (n : ℕ) (f : ℕ → A) → sum n f ≤ n
  sum-le small zero f = omega arith
  sum-le small (suc n) f = omega (arith, small (f n), sum-le small n f)

  pub sum-eq_zero : (n : ℕ) (f : ℕ → A) → ((i : ℕ) → weight (f i) ≡ 0) → sum n f ≡ 0
  sum-eq_zero zero f none = refl
  sum-eq_zero (suc n) f none = omega (arith, none n, sum-eq_zero n f none)
