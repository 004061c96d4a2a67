-- ===== src/Platform/Order/Total.antt =====
-- How many devices an order of `Platform::connect` in src/platform.cpp can hold.
use verilator_axi_testbench.Common.{
  ℕ, zero, suc, ◌+◌, ◌<◌, ◌≤◌, ◌≡◌, refl, ◌∙◌, ◌==◌, ltb, if◌then◌else◌, List, [], ◌∷◌, length,
  arith, Bool-cases, inl, inr,
}
use verilator_axi_testbench.Platform.Order.Count.{occurs, AllBelow}

unfoldable sum_to : ℕ → (ℕ → ℕ) → ℕ
sum_to zero f = 0
sum_to (suc n) f = sum_to n f + f n

sum_to-add :
    (n x : ℕ) (f : ℕ → ℕ)
    → sum_to n (λ v. (if x == v then 1 else 0) + f v) ≡ (if ltb x n then 1 else 0) + sum_to n f
unfolding sum_to
sum_to-add zero x f = ground arith
sum_to-add (suc n) x f = ground (arith, sum_to-add n x f)

sum_to-zero : (n : ℕ) → sum_to n (λ v. 0) ≡ 0
unfolding sum_to
sum_to-zero zero = refl
sum_to-zero (suc n) = omega (arith, sum_to-zero n)

sum_to-length : (n : ℕ) (xs : List ℕ) → AllBelow n xs → sum_to n (λ v. occurs v xs) ≡ length xs
unfolding occurs
sum_to-length n [] below = sum_to-zero n
sum_to-length n (x ∷ xs) below =
    ground (arith, sum_to-add n x (λ v. occurs v xs), sum_to-length n xs below.1, below.0)

module _ (f : ℕ → ℕ) where
  sum_to-le : (n : ℕ) → ((v : ℕ) → v < n → f v ≤ 1) → sum_to n f ≤ n
  unfolding sum_to
  sum_to-le zero once = omega arith
  sum_to-le (suc n) once =
      omega (arith, sum_to-le n (λ v h. once v (omega arith)), once n (omega arith))

  sum_to-all : (n : ℕ) → ((v : ℕ) → v < n → f v ≤ 1) → sum_to n f ≡ n → (v : ℕ) → v < n → f v ≡ 1
  unfolding sum_to
  sum_to-all zero once full v h = elim h [ ]
  sum_to-all (suc n) once full v h =
      let fewer = sum_to-le n (λ w hw. once w (omega arith)) in
      let last : f n ≡ 1 = omega (arith, fewer, once n (omega arith)) in
      elim (Bool-cases (ltb v n)) [
        | inl inside ↦ sum_to-all n (λ w hw. once w (omega arith)) (omega arith) v (ground arith)
        | inr outside ↦ let e : v ≡ n = ground arith in rw e last
      ]

  sum_to-gap : (n : ℕ) → sum_to n f < n → (v : ℕ) × (v < n) × (f v ≡ 0)
  unfolding sum_to
  sum_to-gap zero less = absurd (omega arith)
  sum_to-gap (suc n) less = elim (Bool-cases (f n == 0)) [
    | inl gap ↦ (n, omega arith, ground arith)
    | inr none_here ↦ let (v, h, e) = sum_to-gap n (ground arith) in (v, omega arith, e)
  ]

-- An order without repetition is no longer than the devices are many.
pub length-once :
    (n : ℕ) (xs : List ℕ) → AllBelow n xs → ((v : ℕ) → v < n → occurs v xs ≤ 1) → length xs ≤ n
length-once n xs below once =
    omega (arith, sum_to-length n xs below, sum_to-le (λ v. occurs v xs) n once)

pub full-occurs :
    (n : ℕ) (xs : List ℕ)
    → AllBelow n xs
    → ((v : ℕ) → v < n → occurs v xs ≤ 1)
    → length xs ≡ n
    → (v : ℕ) → v < n
    → occurs v xs ≡ 1
full-occurs n xs below once full =
    sum_to-all (λ v. occurs v xs) n once (sum_to-length n xs below ∙ full)

pub short-occurs :
    (n : ℕ) (xs : List ℕ) → AllBelow n xs → length xs < n → (v : ℕ) × (v < n) × (occurs v xs ≡ 0)
short-occurs n xs below short =
    sum_to-gap (λ v. occurs v xs) n (omega (arith, sum_to-length n xs below))
