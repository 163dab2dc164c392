-- ===== src/Decimal.antt =====
-- Decimal numerals as `std::to_chars` and `%d` print them (src/encoder/SixelWriter.cpp,
-- src/output/TerminalRenderer.cpp), and readers that go through a text byte by byte.
use rasterm.Base.{
  ℕ, zero, suc, ◌+◌, ◌*◌, ◌/◌, ◌%◌, ◌<◌, ◌≡◌, refl, ◌∙◌, ap, List, [], ◌∷◌, ◌++◌, ltb,
  if◌then◌else◌, arith, Bool-cases, inl, inr, ltb→lt, ◌≤◌, All,
}

-- The digits of `n` in front of `acc`. Each round divides by ten, so `n + 1` rounds are enough.
to_digits : ℕ → ℕ → List ℕ → List ℕ
to_digits zero n acc = acc
to_digits (suc fuel) n acc =
    let rest = to_digits fuel (n / 10) ((48 + n % 10) ∷ acc) in
    if ltb n 10 then (48 + n) ∷ acc else rest

unfoldable pub decimal : ℕ → List ℕ
unfolding to_digits
decimal n = to_digits (n + 1) n []

abbrev pub IsDigit : ℕ → Type 0
IsDigit c = (48 ≤ c) × (c < 58)

to_digits-All : (fuel n : ℕ) (acc : List ℕ) → All IsDigit acc → All IsDigit (to_digits fuel n acc)
unfolding to_digits
to_digits-All zero n acc h = h
to_digits-All (suc fuel) n acc h = elim (Bool-cases (ltb n 10)) [
  | inl small ↦ rw small ((omega arith, omega (arith, ltb→lt n 10 small)), h)
  | inr large ↦
      rw large (to_digits-All fuel (n / 10) ((48 + n % 10) ∷ acc) ((omega arith, omega arith), h))
]

pub decimal-All : (n : ℕ) → All IsDigit (decimal n)
unfolding decimal
decimal-All n = to_digits-All (n + 1) n [] tt

-- A reader goes from state to state, a byte at a time.
module _ {ℓ} {S : Type ℓ} where
  abbrev pub scan : (ℕ → S → S) → List ℕ → S → S
  scan step [] s = s
  scan step (c ∷ cs) s = scan step cs (step c s)

  pub scan-append :
      (step : ℕ → S → S) (xs ys : List ℕ) (s : S)
      → scan step (xs ++ ys) s ≡ scan step ys (scan step xs s)
  scan-append step [] ys s = refl
  scan-append step (x ∷ xs) ys s = scan-append step xs ys (step x s)

  scan-to_digits :
      (step : ℕ → S → S) (value : ℕ → S)
      → ((n d : ℕ) → d < 10 → step (48 + d) (value n) ≡ value (n * 10 + d))
      → (fuel n : ℕ) (acc : List ℕ) → n < fuel
      → scan step (to_digits fuel n acc) (value 0) ≡ scan step acc (value n)
  unfolding to_digits
  scan-to_digits step value law zero n acc h = absurd (omega arith)
  scan-to_digits step value law (suc fuel) n acc h = elim (Bool-cases (ltb n 10)) [
    | inl small ↦
        rw small (ap (scan step acc) (law 0 n (ltb→lt n 10 small) ∙ ap value (omega arith)))
    | inr large ↦ rw large (
        scan-to_digits step value law fuel (n / 10) ((48 + n % 10) ∷ acc) (ground arith)
        ∙ ap (scan step acc) (law (n / 10) (n % 10) (omega arith) ∙ ap value (omega arith)))
  ]

  -- A reader that takes each digit into a value reads back a printed number.
  pub scan-decimal :
      (step : ℕ → S → S) (value : ℕ → S)
      → ((n d : ℕ) → d < 10 → step (48 + d) (value n) ≡ value (n * 10 + d))
      → (n : ℕ) → scan step (decimal n) (value 0) ≡ value n
  unfolding decimal
  scan-decimal step value law n = scan-to_digits step value law (n + 1) n [] (omega arith)
