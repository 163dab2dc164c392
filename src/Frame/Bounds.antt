-- ===== src/Frame/Bounds.antt =====
-- What the validation of a view guarantees: no offset into the frame overflows, no index leaves the
-- palette, and an owned frame has the bytes that its view reaches.
use rasterm.Base.{
  ℕ, zero, suc, ◌+◌, ◌-◌, ◌*◌, ◌/◌, ◌≤◌, ◌<◌, ◌≡◌, Bool, true, false, ◌||◌, ◌&&◌, List, [], ◌∷◌,
  leb, ltb, length, Bool-cases, inl, inr, arith,
}
use native.Mathlib.Nat.{div-mul-le_self, mul-le-mul_right, mul-le-mul_left, mul_comm, le_trans}
use rasterm.Base.Int.{pos_part}
use rasterm.Frame.{
  DamageRect, all_inside, is_valid_for, FrameView, bytes_per_pixel, int_max, ptrdiff_max, size_max,
  fits_memory, is_valid_frame, IndexedFrameView, is_valid_indexed, row_in_palette, rows_in_palette,
  has_valid_indices, is_valid_owned,
}

-- The bound of a product, from the division that the code makes.
div-bound : (m h w : ℕ) → w ≤ m / h → w * h ≤ m
div-bound m h w le = le_trans (mul-le-mul_right h le) (div-mul-le_self m h)

-- An offset within the frame, from the last row's.
offset-bound :
    (height stride row_bytes row k limit : ℕ)
    → row < height
    → k < row_bytes
    → stride * (height - 1) + row_bytes ≤ limit
    → row * stride + k < limit
offset-bound height stride row_bytes row k limit hr hk le =
    let rows : stride * row ≤ stride * (height - 1) = mul-le-mul_left stride (omega arith) in
    let swap : row * stride ≡ stride * row = omega arith in omega arith

fits_memory-offset :
    (row_bytes height stride row k : ℕ)
    → fits_memory row_bytes height stride ≡ true
    → row_bytes ≤ ptrdiff_max
    → row < height
    → k < row_bytes
    → row * stride + k < ptrdiff_max
unfolding fits_memory
fits_memory-offset row_bytes zero stride row k e small hr hk = absurd (omega arith)
fits_memory-offset row_bytes (suc zero) stride zero k e small hr hk =
    let none_before : 0 * stride ≡ 0 = omega arith in rw none_before (omega arith)
fits_memory-offset row_bytes (suc zero) stride (suc row) k e small hr hk = absurd (omega arith)
fits_memory-offset row_bytes (suc (suc n)) stride row k e small hr hk =
    let gap : suc (suc n) - 1 ≡ suc n = omega arith in
    let quotient : stride ≤ (ptrdiff_max - row_bytes) / suc n = ground (arith, gap) in
    let product = div-bound (ptrdiff_max - row_bytes) (suc n) stride quotient in
    offset-bound (suc (suc n)) stride row_bytes row k ptrdiff_max hr hk
      (rw gap (omega (arith, product)))

fits_memory-size :
    (row_bytes height stride : ℕ)
    → fits_memory row_bytes height stride ≡ true
    → (row_bytes ≤ stride) × (row_bytes * height ≤ size_max)
unfolding fits_memory
fits_memory-size row_bytes height stride e =
    (ground arith, div-bound size_max height row_bytes (ground arith))

-- What a valid view guarantees of its sizes, in plain numbers.
pub record IsBounded (width height row_bytes stride : ℕ) : Type 0 where
  pub positive : (0 < width) × (0 < height)
  pub pixels : width * height ≤ int_max
  pub rows : row_bytes ≤ stride
  pub size : row_bytes * height ≤ size_max
  pub offsets : (row k : ℕ) → row < height → k < row_bytes → row * stride + k < ptrdiff_max

-- A valid packed frame has at least one pixel and at most 2^31 - 1, each byte of a row within its
-- stride; every offset of a byte from the first one is below 2^63 - 1, and the size of a copy without
-- gaps is below 2^64.
pub is_valid_frame-IsBounded :
    (f : FrameView)
    → is_valid_frame f ≡ true
    → IsBounded
        (pos_part f.width)
        (pos_part f.height)
        (pos_part f.width * bytes_per_pixel f.format)
        (pos_part f.stride)
unfolding is_valid_frame
is_valid_frame-IsBounded f e =
    let w = pos_part f.width in
    let h = pos_part f.height in
    let row_bytes = w * bytes_per_pixel f.format in
    let fits : fits_memory row_bytes h (pos_part f.stride) ≡ true = ground arith in
    let narrow : w ≤ ptrdiff_max / bytes_per_pixel f.format = ground arith in
    let few : w ≤ int_max / h = ground arith in
    let size = fits_memory-size row_bytes h (pos_part f.stride) fits in
    record {
      positive = ground arith;
      pixels = div-bound int_max h w few;
      rows = size.0;
      size = size.1;
      offsets = λ row k hr hk.
          fits_memory-offset row_bytes h (pos_part f.stride) row k fits
            (div-bound ptrdiff_max (bytes_per_pixel f.format) w narrow) hr hk;
    }

-- The pixels that a rectangle of a view covers.
abbrev pub is_damaged : List DamageRect → ℕ → ℕ → Bool
is_damaged [] x y = false
is_damaged (r ∷ rs) x y =
    ((leb (pos_part r.x) x && ltb x (pos_part r.x + pos_part r.width))
      && (leb (pos_part r.y) y && ltb y (pos_part r.y + pos_part r.height)))
    || is_damaged rs x y

all_inside-is_damaged :
    (w h : ℕ) (rs : List DamageRect) (x y : ℕ)
    → all_inside w h rs ≡ true
    → is_damaged rs x y ≡ true
    → (x < w) × (y < h)
all_inside-is_damaged w h [] x y e d = ground arith
all_inside-is_damaged w h (r ∷ rs) x y e d = ground (arith, all_inside-is_damaged w h rs x y)

-- The damage of a valid packed frame covers pixels of the frame only.
pub is_valid_frame-is_damaged :
    (f : FrameView) (x y : ℕ)
    → is_valid_frame f ≡ true
    → f.damage.supplied ≡ true
    → is_damaged f.damage.rectangles x y ≡ true
    → (x < pos_part f.width) × (y < pos_part f.height)
unfolding is_valid_frame is_valid_for
is_valid_frame-is_damaged f x y e supplied d =
    all_inside-is_damaged (pos_part f.width) (pos_part f.height) f.damage.rectangles x y
      (ground arith) d

row_in_palette-at :
    (columns size : ℕ) (indices : ℕ → ℕ) (offset k : ℕ)
    → row_in_palette columns size indices offset ≡ true
    → k < columns
    → indices (offset + k) < size
row_in_palette-at zero size indices offset k e h = absurd (omega arith)
row_in_palette-at (suc columns) size indices offset zero e h =
    let here : offset + 0 ≡ offset = omega arith in rw here (ground arith)
row_in_palette-at (suc columns) size indices offset (suc k) e h =
    let next : offset + suc k ≡ suc offset + k = omega arith in
    rw next (row_in_palette-at columns size indices (suc offset) k (ground arith) (omega arith))

rows_in_palette-at :
    (rows width size : ℕ) (indices : ℕ → ℕ) (stride row r k : ℕ)
    → rows_in_palette rows width size indices stride row ≡ true
    → row ≤ r
    → r < row + rows
    → k < width
    → indices (r * stride + k) < size
rows_in_palette-at zero width size indices stride row r k e lo hi hk = absurd (omega arith)
rows_in_palette-at (suc rows) width size indices stride row r k e lo hi hk =
    elim (Bool-cases (ltb row r)) [
      | inl later ↦
          rows_in_palette-at rows width size indices stride (suc row) r k (ground arith)
            (ground arith) (omega arith) hk
      | inr first ↦
          let same : r ≡ row = ground arith in
          rw same (row_in_palette-at width size indices (row * stride) k (ground arith) hk)
    ]

-- A valid indexed frame has the bounds of a packed one with a byte to the pixel, and when its indices
-- are valid too, the index of every pixel names a colour of its palette.
pub is_valid_indexed-IsBounded :
    (f : IndexedFrameView)
    → is_valid_indexed f ≡ true
    → IsBounded (pos_part f.width) (pos_part f.height) (pos_part f.width) (pos_part f.stride)
      × (has_valid_indices f ≡ true
          → (row column : ℕ) → row < pos_part f.height
          → column < pos_part f.width
          → f.indices (row * pos_part f.stride + column) < length f.palette.colors)
unfolding has_valid_indices is_valid_indexed
is_valid_indexed-IsBounded f e =
    let w = pos_part f.width in
    let h = pos_part f.height in
    let fits : fits_memory w h (pos_part f.stride) ≡ true = ground arith in
    let few : w ≤ int_max / h = ground arith in
    let pixels = div-bound int_max h w few in
    let size = fits_memory-size w h (pos_part f.stride) fits in
    let positive : (0 < w) × (0 < h) = ground arith in
    let wider : w * 1 ≤ w * h = mul-le-mul_left w positive.1 in
    let narrow : w ≤ ptrdiff_max = omega (arith, pixels) in
    (
      record {
        positive = positive;
        pixels = pixels;
        rows = size.0;
        size = size.1;
        offsets = λ row k hr hk. fits_memory-offset w h (pos_part f.stride) row k fits narrow hr hk;
      },
      λ valid row column hr hc.
          rows_in_palette-at h w (length f.palette.colors) f.indices (pos_part f.stride) 0 row
            column (ground arith) (omega arith) (omega arith) hc,
    )

-- An owned frame that is valid holds each byte that its view reaches.
pub is_valid_owned-offset :
    (valid : Bool) (size row_bytes height stride row k : ℕ)
    → is_valid_owned valid size row_bytes height stride ≡ true
    → row < height
    → k < row_bytes
    → row * stride + k < size
unfolding is_valid_owned
is_valid_owned-offset valid size row_bytes height stride row k e hr hk =
    let commuted : stride * (height - 1) ≡ (height - 1) * stride = mul_comm stride (height - 1) in
    offset-bound height stride row_bytes row k size hr hk (rw commuted (ground arith))
