-- ===== src/Encoder/Parallel/Total.antt =====
-- Sums over the threads.
use rasterm.Base.{
  ℕ, zero, suc, ◌+◌, ◌≤◌, ◌<◌, ◌≡◌, ◌≢◌, refl, ap, ◌==◌, update, Bool-cases, inl, inr, arith,
}

pub sum : ℕ → (ℕ → ℕ) → ℕ
sum zero terms = 0
sum (suc n) terms = terms n + sum n terms

sum-same : (n : ℕ) (old new : ℕ → ℕ) → ((j : ℕ) → j < n → old j ≡ new j) → sum n old ≡ sum n new
unfolding sum
sum-same zero old new same = refl
sum-same (suc n) old new same =
    omega (arith, same n (omega arith), sum-same n old new (λ j lt. same j (omega arith)))

-- One term changes.
sum-change :
    (n i : ℕ) (old new : ℕ → ℕ)
    → i < n
    → ((j : ℕ) → j ≢ i → old j ≡ new j)
    → sum n new + old i ≡ sum n old + new i
unfolding sum
sum-change zero i old new lt same = absurd (omega arith)
sum-change (suc n) i old new lt same = elim (Bool-cases (i == n)) [
  | inl top ↦
      let e : i ≡ n = ground arith in
      omega (
        arith,
        ap old e,
        ap new e,
        sum-same n old new (λ j below. same j (λ k. absurd (omega (arith, k)))),
      )
  | inr inside ↦
      omega (
        arith,
        same n (λ k. absurd (ground (arith, k))),
        sum-change n i old new (ground arith) same,
      )
]

module _ {ℓ} {A : Type ℓ} (weight : A → ℕ) where
  abbrev pub total : ℕ → (ℕ → A) → ℕ
  total n threads = sum n (λ i. weight (threads i))

  pub total-update :
      (n i : ℕ) (threads : ℕ → A) (a : A)
      → i < n
      → total n (update threads i a) + weight (threads i) ≡ total n threads + weight a
  total-update n i threads a lt =
      let here : weight (update threads i a i) ≡ weight a = ground arith in
      omega (
        arith,
        here,
        sum-change n i (λ j. weight (threads j)) (λ j. weight (update threads i a j)) lt
            (λ j other. ground (arith, other)),
      )

pub sum-le : (n i : ℕ) (terms : ℕ → ℕ) → i < n → terms i ≤ sum n terms
unfolding sum
sum-le zero i terms lt = absurd (omega arith)
sum-le (suc n) i terms lt = elim (Bool-cases (i == n)) [
  | inl top ↦ let e : i ≡ n = ground arith in omega (arith, ap terms e)
  | inr inside ↦ omega (arith, sum-le n i terms (ground arith))
]

pub sum-zero : (n : ℕ) (terms : ℕ → ℕ) → ((i : ℕ) → i < n → terms i ≡ 0) → sum n terms ≡ 0
unfolding sum
sum-zero zero terms h = refl
sum-zero (suc n) terms h =
    omega (arith, h n (omega arith), sum-zero n terms (λ i lt. h i (omega arith)))

pub sum-one : (n : ℕ) (terms : ℕ → ℕ) → ((i : ℕ) → i < n → terms i ≡ 1) → sum n terms ≡ n
unfolding sum
sum-one zero terms h = refl
sum-one (suc n) terms h =
    omega (arith, h n (omega arith), sum-one n terms (λ i lt. h i (omega arith)))

-- A sum that is not zero has a term that is not.
pub sum-some : (n : ℕ) (terms : ℕ → ℕ) → 0 < sum n terms → (i : ℕ) × (i < n) × (0 < terms i)
unfolding sum
sum-some zero terms h = absurd (omega arith)
sum-some (suc n) terms h = elim (Bool-cases (terms n == 0)) [
  | inl none ↦ let r = sum-some n terms (ground (arith, none)) in (r.0, omega (arith, r.1), r.2)
  | inr last ↦ (n, omega arith, ground arith)
]
