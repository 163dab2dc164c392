-- ===== src/Damage/Rows.antt =====
-- Comparing and copying rows of bytes. `rowsEqual` compares sixteen bytes at a time.
use native.Mathlib.Decide.{dec_lt}
use native.Mathlib.Nat.{add-zero}
use rasterm.Base.{
  ℕ, zero, suc, ◌+◌, ◌-◌, ◌*◌, ◌≤◌, ◌<◌, ◌≡◌, refl, ◌∙◌, ap, sym, Bool, true, false, ◌&&◌, ◌||◌,
  leb, ltb, ◌==◌, if◌then◌else◌, Bool-cases, inl, inr, arith,
}

-- `std::memcmp(current + a, previous + b, n) == 0`, and `_mm_cmpeq_epi8` on sixteen bytes.
unfoldable pub bytes_equal : (ℕ → ℕ) → (ℕ → ℕ) → ℕ → ℕ → ℕ → Bool
bytes_equal current previous a b zero = true
bytes_equal current previous a b (suc n) =
    (current a == previous b) && bytes_equal current previous (suc a) (suc b) n

-- The loop of `rowsEqual` from `offset` on, then the rest of the row. Fuel: a round passes sixteen
-- bytes.
block_loop : ℕ → (ℕ → ℕ) → (ℕ → ℕ) → ℕ → ℕ → ℕ → ℕ → Bool
block_loop zero current previous a b bytes offset = true
block_loop (suc fuel) current previous a b bytes offset =
    let rest = block_loop fuel current previous a b bytes (offset + 16) in
    let tail =
      (offset == bytes)
      || bytes_equal current previous (a + offset) (b + offset) (bytes - offset) in
    if leb (offset + 16) bytes
    then (if bytes_equal current previous (a + offset) (b + offset) 16 then rest else false)
    else tail

-- `rowsEqual(current + a, previous + b, bytes)`.
unfoldable pub rows_equal : (ℕ → ℕ) → (ℕ → ℕ) → ℕ → ℕ → ℕ → Bool
unfolding block_loop bytes_equal
rows_equal current previous a b bytes = block_loop (bytes + 1) current previous a b bytes 0

-- `memcpy` of a row into the copy of the frame.
abbrev copy_row : ℕ → (ℕ → ℕ) → ℕ → ℕ → (ℕ → ℕ) → ℕ → ℕ
copy_row row source stride row_bytes copy i =
    if leb (row * row_bytes) i && ltb i (row * row_bytes + row_bytes)
    then source (row * stride + (i - row * row_bytes))
    else copy i

-- The loop of `copyFrame`, `rows` rows from `row` on.
unfoldable pub copy_rows : ℕ → ℕ → (ℕ → ℕ) → ℕ → ℕ → (ℕ → ℕ) → ℕ → ℕ
copy_rows zero row source stride row_bytes copy = copy
copy_rows (suc rows) row source stride row_bytes copy =
    copy_rows rows (suc row) source stride row_bytes (copy_row row source stride row_bytes copy)

bytes_equal-add :
    (current previous : ℕ → ℕ) (a b m n : ℕ)
    → bytes_equal current previous a b (m + n)
      ≡ (bytes_equal current previous a b m && bytes_equal current previous (a + m) (b + m) n)
unfolding bytes_equal
bytes_equal-add current previous a b zero n =
    let e : zero + n ≡ n = omega arith in
    let ea : a + zero ≡ a = omega arith in let eb : b + zero ≡ b = omega arith in rw (e, ea, eb)
bytes_equal-add current previous a b (suc m) n =
    let e : suc m + n ≡ suc (m + n) = omega arith in
    let ea : a + suc m ≡ suc a + m = omega arith in
    let eb : b + suc m ≡ suc b + m = omega arith in
    rw (e, ea, eb, bytes_equal)
      (ground (arith, bytes_equal-add current previous (suc a) (suc b) m n))

block_loop_lem :
    (fuel : ℕ) (current previous : ℕ → ℕ) (a b bytes offset : ℕ)
    → offset ≤ bytes
    → bytes - offset < fuel
    → block_loop fuel current previous a b bytes offset
      ≡ bytes_equal current previous (a + offset) (b + offset) (bytes - offset)
unfolding block_loop bytes_equal
block_loop_lem zero current previous a b bytes offset le enough = absurd (omega arith)
block_loop_lem (suc fuel) current previous a b bytes offset le enough =
    elim (Bool-cases (leb (offset + 16) bytes)) [
      | inl block ↦
          let left : bytes - offset ≡ 16 + (bytes - (offset + 16)) = ground arith in
          let ea : a + offset + 16 ≡ a + (offset + 16) = omega arith in
          let eb : b + offset + 16 ≡ b + (offset + 16) = omega arith in
          let ih =
            block_loop_lem fuel current previous a b bytes (offset + 16) (ground arith)
              (ground arith) in
          let split =
            bytes_equal-add current previous (a + offset) (b + offset) 16 (bytes - (offset + 16)) in
          rw (block, left, split, ea, eb) (ground (arith, ih))
      | inr tail ↦ rw tail (elim (Bool-cases (offset == bytes)) [
        | inl done ↦ let none_left : bytes - offset ≡ 0 = ground arith in rw (done, none_left)
        | inr more ↦ rw more
      ])
    ]

-- Sixteen bytes at a time, `rowsEqual` finds what a comparison byte by byte finds, for every length.
pub rows_equal-bytes_equal :
    (current previous : ℕ → ℕ) (a b bytes : ℕ)
    → rows_equal current previous a b bytes ≡ bytes_equal current previous a b bytes
unfolding rows_equal
rows_equal-bytes_equal current previous a b bytes =
    let ea : a + 0 ≡ a = omega arith in
    let eb : b + 0 ≡ b = omega arith in
    let all : bytes - 0 ≡ bytes = omega arith in
    block_loop_lem (bytes + 1) current previous a b bytes 0 (omega arith) (omega arith)
    ∙ rw (ea, eb, all)

-- Bytes that compare equal are equal one by one.
pub bytes_equal-at :
    (current previous : ℕ → ℕ) (a b n k : ℕ)
    → bytes_equal current previous a b n ≡ true
    → k < n
    → current (a + k) ≡ previous (b + k)
unfolding bytes_equal
bytes_equal-at current previous a b zero k e h = absurd (omega arith)
bytes_equal-at current previous a b (suc n) zero e h =
    let ea : a + 0 ≡ a = omega arith in
    let eb : b + 0 ≡ b = omega arith in rw (ea, eb) (ground arith)
bytes_equal-at current previous a b (suc n) (suc k) e h =
    let ea : a + suc k ≡ suc a + k = omega arith in
    let eb : b + suc k ≡ suc b + k = omega arith in
    rw (ea, eb) (bytes_equal-at current previous (suc a) (suc b) n k (ground arith) (omega arith))

pub bytes_equal_of :
    (current previous : ℕ → ℕ) (a b n : ℕ)
    → ((k : ℕ) → k < n → current (a + k) ≡ previous (b + k))
    → bytes_equal current previous a b n ≡ true
unfolding bytes_equal
bytes_equal_of current previous a b zero h = refl
bytes_equal_of current previous a b (suc n) h = ground (
  arith,
  h 0 (omega arith),
  ap current (add-zero a),
  ap previous (add-zero b),
  bytes_equal_of current previous (suc a) (suc b) n
      λ k lt. ap current (suc-add a k) ∙ h (suc k) (omega arith) ∙ ap previous (sym (suc-add b k)),
)
  where
    suc-add : (m k : ℕ) → suc m + k ≡ m + suc k
    suc-add m k = omega arith

-- The rows from `row` on leave the bytes before them.
copy_rows-before :
    (rows row : ℕ) (source : ℕ → ℕ) (stride row_bytes : ℕ) (copy : ℕ → ℕ) (i : ℕ)
    → i < row * row_bytes
    → copy_rows rows row source stride row_bytes copy i ≡ copy i
unfolding copy_rows
copy_rows-before zero row source stride row_bytes copy i h = refl
copy_rows-before (suc rows) row source stride row_bytes copy i h =
    copy_rows-before rows (suc row) source stride row_bytes
      (copy_row row source stride row_bytes copy) i (omega arith)
    ∙ ground arith

-- The copy holds, row behind row, the bytes of each row of the source.
pub copy_rows_lem :
    (rows row : ℕ) (source : ℕ → ℕ) (stride row_bytes : ℕ) (copy : ℕ → ℕ) (r k : ℕ)
    → row ≤ r
    → r < row + rows
    → k < row_bytes
    → copy_rows rows row source stride row_bytes copy (r * row_bytes + k) ≡ source (r * stride + k)
unfolding copy_rows
copy_rows_lem zero row source stride row_bytes copy r k lo hi lt = absurd (omega arith)
copy_rows_lem (suc rows) row source stride row_bytes copy r k lo hi lt = elim (dec_lt row r) [
  | yes later ↦
      copy_rows_lem rows (suc row) source stride row_bytes
        (copy_row row source stride row_bytes copy) r k later (omega arith) lt
  | no first ↦
      let here : row ≡ r = omega arith in
      let i = r * row_bytes + k in
      let k_again : i - r * row_bytes ≡ k = omega arith in
      let inside : (leb (r * row_bytes) i && ltb i (r * row_bytes + row_bytes)) ≡ true =
        ground arith in
      rw here (
        copy_rows-before rows (suc r) source stride row_bytes
          (copy_row r source stride row_bytes copy) i (omega arith)
        ∙ rw (inside, k_again))
]
