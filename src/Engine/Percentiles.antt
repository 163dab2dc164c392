-- ===== src/Engine/Percentiles.antt =====
-- The ring of presentation times, and the percentiles taken from it.
use rasterm.Base.{
  ℕ, zero, suc, ◌+◌, ◌-◌, ◌%◌, ◌≤◌, ◌<◌, min, ◌≡◌, refl, sym, ap, ◌∙◌, inl, inr, Bool, true, false,
  ◌||◌, member, Bool-cases, List, [], ◌∷◌, ltb, leb, ◌==◌, if◌then◌else◌, get_or, take, length,
  length-take, length-set, All, arith,
}
use rasterm.Renderer.State.{RenderResult}
use rasterm.Engine.Statistics.{Samples, insert_time, sort_times, write_percentiles, count_result}

-- The ring has places, the cursor is one of them, and no more of them are counted than there are.
pub record IsRing (m : Samples) : Type 0 where
  pub places : 0 < length m.terminal_write_samples
  pub cursor : m.write_sample_cursor < length m.terminal_write_samples
  pub count : m.write_sample_count ≤ length m.terminal_write_samples

mod-bound : (a n : ℕ) → 0 < n → a % n < n
mod-bound a n pos = omega arith

count_result-IsRing :
    (is_late : ℕ → Bool) (result : RenderResult) (time : ℕ) (m : Samples)
    → IsRing m
    → IsRing (count_result is_late result time m)
unfolding count_result
count_result-IsRing is_late result time m v = elim (Bool-cases (ltb 0 time)) [
  | inr untimed ↦
      rw (untimed, count_result) (record { places = v.places; cursor = v.cursor; count = v.count })
  | inl timed ↦
      let same = length-set m.terminal_write_samples m.write_sample_cursor time in
      rw (timed, count_result)
        (record {
          places = omega (arith, same, v.places);
          cursor = omega (
            arith,
            same,
            mod-bound (m.write_sample_cursor + 1) (length m.terminal_write_samples) v.places,
          );
          count = omega (arith, same);
        })
]

-- Times in their order.
abbrev IsSorted : List ℕ → Type 0
IsSorted [] = Unit {0}
IsSorted (x ∷ xs) = All (λ (y : ℕ). x ≤ y) xs × IsSorted xs

All-insert_time : (P : ℕ → Type 0) (x : ℕ) (ys : List ℕ) → P x → All P ys → All P (insert_time x ys)
All-insert_time P x [] p q = (p, tt)
All-insert_time P x (y ∷ ys) p q = elim (Bool-cases (leb x y)) [
  | inl first ↦ rw first (p, q)
  | inr later ↦ rw later (q.0, All-insert_time P x ys p q.1)
]

All-below :
    (x y : ℕ) → x ≤ y → (zs : List ℕ) → All (λ (z : ℕ). y ≤ z) zs → All (λ (z : ℕ). x ≤ z) zs
All-below x y h [] a = tt
All-below x y h (z ∷ zs) a = (omega (arith, h, a.0), All-below x y h zs a.1)

insert_time-IsSorted : (x : ℕ) (ys : List ℕ) → IsSorted ys → IsSorted (insert_time x ys)
insert_time-IsSorted x [] s = (tt, tt)
insert_time-IsSorted x (y ∷ ys) s = elim (Bool-cases (leb x y)) [
  | inl first ↦ rw first ((ground arith, All-below x y (ground arith) ys s.0), s)
  | inr later ↦
      rw later (All-insert_time (λ z. y ≤ z) x ys (ground arith) s.0, insert_time-IsSorted x ys s.1)
]

sort_times-IsSorted : (xs : List ℕ) → IsSorted (sort_times xs)
sort_times-IsSorted [] = tt
sort_times-IsSorted (x ∷ xs) = insert_time-IsSorted x (sort_times xs) (sort_times-IsSorted xs)

length-insert_time : (x : ℕ) (ys : List ℕ) → length (insert_time x ys) ≡ suc (length ys)
length-insert_time x [] = refl
length-insert_time x (y ∷ ys) = elim (Bool-cases (leb x y)) [
  | inl first ↦ rw first
  | inr later ↦ rw later (ap suc (length-insert_time x ys))
]

length-sort_times : (xs : List ℕ) → length (sort_times xs) ≡ length xs
length-sort_times [] = refl
length-sort_times (x ∷ xs) = length-insert_time x (sort_times xs) ∙ ap suc (length-sort_times xs)

-- Sorting keeps the times that there are.
same_choice : (a b c : Bool) → (a || (b || c)) ≡ (b || (a || c))
same_choice true true c = refl
same_choice true false c = refl
same_choice false b c = refl

member-insert_time : (z x : ℕ) (ys : List ℕ) → member z (insert_time x ys) ≡ member z (x ∷ ys)
member-insert_time z x [] = refl
member-insert_time z x (y ∷ ys) = elim (Bool-cases (leb x y)) [
  | inl first ↦ rw first
  | inr later ↦ rw later (
      ap (λ b. (z == y) || b) (member-insert_time z x ys)
      ∙ same_choice (z == y) (z == x) (member z ys))
]

member-sort_times : (z : ℕ) (xs : List ℕ) → member z (sort_times xs) ≡ member z xs
member-sort_times z [] = refl
member-sort_times z (x ∷ xs) =
    member-insert_time z x (sort_times xs) ∙ ap (λ b. (z == x) || b) (member-sort_times z xs)

get_or-member : (xs : List ℕ) (i : ℕ) → i < length xs → member (get_or xs i 0) xs ≡ true
get_or-member [] i h = absurd (omega arith)
get_or-member (x ∷ xs) zero h = ground arith
get_or-member (x ∷ xs) (suc i) h = or_true (get_or xs i 0 == x) _ (get_or-member xs i (omega arith))
  where
    or_true : (a b : Bool) → b ≡ true → (a || b) ≡ true
    or_true true b e = refl
    or_true false b e = e

-- How many of the times are at most a bound.
abbrev pub count_at_most : ℕ → List ℕ → ℕ
count_at_most bound [] = 0
count_at_most bound (x ∷ xs) = (if leb x bound then 1 else 0) + count_at_most bound xs

count_at_most-insert_time :
    (bound x : ℕ) (ys : List ℕ)
    → count_at_most bound (insert_time x ys) ≡ count_at_most bound (x ∷ ys)
count_at_most-insert_time bound x [] = refl
count_at_most-insert_time bound x (y ∷ ys) = elim (Bool-cases (leb x y)) [
  | inl first ↦ rw first
  | inr later ↦ rw later (omega (arith, count_at_most-insert_time bound x ys))
]

count_at_most-sort_times :
    (bound : ℕ) (xs : List ℕ) → count_at_most bound (sort_times xs) ≡ count_at_most bound xs
count_at_most-sort_times bound [] = refl
count_at_most-sort_times bound (x ∷ xs) =
    count_at_most-insert_time bound x (sort_times xs)
    ∙ ap (λ n. (if leb x bound then 1 else 0) + n) (count_at_most-sort_times bound xs)

All-get_or : (P : ℕ → Type 0) (ys : List ℕ) (j : ℕ) → All P ys → j < length ys → P (get_or ys j 0)
All-get_or P [] j a k = absurd (omega arith)
All-get_or P (y ∷ ys) zero a k = a.0
All-get_or P (y ∷ ys) (suc j) a k = All-get_or P ys j a.1 (omega arith)

-- In a sorted list at least `i + 1` times are at most the one at `i`.
sorted-count :
    (xs : List ℕ) (i : ℕ) → IsSorted xs → i < length xs → i < count_at_most (get_or xs i 0) xs
sorted-count [] i s h = absurd (omega arith)
sorted-count (x ∷ xs) zero s h = ground arith
sorted-count (x ∷ xs) (suc i) s h = omega (
  arith,
  sorted-count xs i s.1 (omega arith),
  at-most (All-get_or (λ y. x ≤ y) xs i s.0 (omega arith)),
)
  where
    at-most : {y : ℕ} → x ≤ y → suc zero ≡ (if leb x y then 1 else 0)
    at-most h = ground arith

sorted-order :
    (xs : List ℕ) (i j : ℕ) → IsSorted xs → i ≤ j → j < length xs → get_or xs i 0 ≤ get_or xs j 0
sorted-order [] i j s h k = absurd (omega arith)
sorted-order (x ∷ xs) zero zero s h k = omega arith
sorted-order (x ∷ xs) zero (suc j) s h k = All-get_or (λ y. x ≤ y) xs j s.0 (omega arith)
sorted-order (x ∷ xs) (suc i) zero s h k = absurd (omega arith)
sorted-order (x ∷ xs) (suc i) (suc j) s h k = sorted-order xs i j s.1 (omega arith) (omega arith)

-- The times that are counted.
abbrev pub counted : Samples → List ℕ
counted m = take m.write_sample_count m.terminal_write_samples

module _ (m : Samples) (v : IsRing m) where
  sorted_times : List ℕ
  sorted_times = sort_times (counted m)

  length-sorted_times : length sorted_times ≡ m.write_sample_count
  unfolding sorted_times
  length-sorted_times = omega (
    arith,
    v.count,
    length-sort_times (counted m),
    length-take m.write_sample_count m.terminal_write_samples,
  )

  -- The time at an index of the sorted ones.
  time_at-count :
      (i : ℕ) → i < m.write_sample_count → i < count_at_most (get_or sorted_times i 0) (counted m)
  unfolding sorted_times
  time_at-count i h = omega (
    arith,
    count_at_most-sort_times (get_or sorted_times i 0) (counted m),
    sorted-count sorted_times i (sort_times-IsSorted (counted m))
        (omega (arith, h, length-sorted_times)),
  )

  time_at-member :
      (i : ℕ) → i < m.write_sample_count → member (get_or sorted_times i 0) (counted m) ≡ true
  unfolding sorted_times
  time_at-member i h =
      sym (member-sort_times (get_or sorted_times i 0) (counted m))
      ∙ get_or-member sorted_times i (omega (arith, h, length-sorted_times))

  time_at-order :
      (i j : ℕ)
      → i ≤ j
      → j < m.write_sample_count
      → get_or sorted_times i 0 ≤ get_or sorted_times j 0
  unfolding sorted_times
  time_at-order i j h k =
      sorted-order sorted_times i j (sort_times-IsSorted (counted m)) h
        (omega (arith, k, length-sorted_times))

  percentiles-counted :
      (index_of_95 index_of_99 : ℕ → ℕ)
      → 0 < m.write_sample_count
      → let (p95, p99) = write_percentiles index_of_95 index_of_99 m in
        let last = m.write_sample_count - 1 in
        (member p95 (counted m) ≡ true)
        × (member p99 (counted m) ≡ true)
        × (min (index_of_95 m.write_sample_count) last < count_at_most p95 (counted m))
        × (min (index_of_99 m.write_sample_count) last < count_at_most p99 (counted m))
        × (index_of_95 m.write_sample_count ≤ index_of_99 m.write_sample_count → p95 ≤ p99)
  unfolding write_percentiles sorted_times
  percentiles-counted index_of_95 index_of_99 pos =
      rw (some_counted, write_percentiles)
        (
          time_at-member (min (index_of_95 m.write_sample_count) (m.write_sample_count - 1))
              (omega (arith, pos)),
          time_at-member (min (index_of_99 m.write_sample_count) (m.write_sample_count - 1))
              (omega (arith, pos)),
          time_at-count (min (index_of_95 m.write_sample_count) (m.write_sample_count - 1))
              (omega (arith, pos)),
          time_at-count (min (index_of_99 m.write_sample_count) (m.write_sample_count - 1))
              (omega (arith, pos)),
          λ h. time_at-order _ _ (omega (arith, h)) (omega (arith, pos)),
        )
    where
      some_counted : (m.write_sample_count == 0) ≡ false
      some_counted = ground (arith, pos)

-- After any result was recorded the cursor is a place of the ring, and no more places are counted than it
-- has. If some are counted, the two percentiles are times that are counted there: each is one of them,
-- and at least as large as more of them than its index, which is kept below their number; and they are
-- in order if their indices are.
pub write_percentiles_lem :
    (is_late : ℕ → Bool) (index_of_95 index_of_99 : ℕ → ℕ) (result : RenderResult) (time : ℕ)
    (m : Samples)
    → IsRing m
    → 0 < (count_result is_late result time m).write_sample_count
    → let m' = count_result is_late result time m in
      let (p95, p99) = write_percentiles index_of_95 index_of_99 m' in
      let last = m'.write_sample_count - 1 in
      IsRing m'
      × (member p95 (counted m') ≡ true)
      × (member p99 (counted m') ≡ true)
      × (min (index_of_95 m'.write_sample_count) last < count_at_most p95 (counted m'))
      × (min (index_of_99 m'.write_sample_count) last < count_at_most p99 (counted m'))
      × (index_of_95 m'.write_sample_count ≤ index_of_99 m'.write_sample_count → p95 ≤ p99)
write_percentiles_lem is_late index_of_95 index_of_99 result time m v pos =
    let ring = count_result-IsRing is_late result time m v in
    let (in_95, in_99, of_95, of_99, order) =
      percentiles-counted (count_result is_late result time m) ring index_of_95 index_of_99 pos in
    (ring, in_95, in_99, of_95, of_99, order)
