-- ===== src/Damage/Cover.antt =====
-- A pixel of which a byte changed lies in a changed tile.
use native.Mathlib.Decide.{ℕ_discrete}
use rasterm.Base.{
  ℕ, zero, suc, ◌+◌, ◌-◌, ◌*◌, ◌/◌, ◌%◌, ◌<◌, ◌≤◌, min, ◌≡◌, refl, sym, ap, ◌∙◌, Bool, true, false,
  ◌&&◌, leb, ltb, arith,
}
use mathlib.Core.Path.{subst₂}
use rasterm.Damage.Rows.{bytes_equal_of, rows_equal, rows_equal-bytes_equal, bytes_equal-at}
use rasterm.Damage.{
  Tracker, Source, tile_differs, tile_changed, tile_left, tile_top, width_at, height_at, tile_count,
  advance,
}
use rasterm.Damage.Strips.{in_changed_tile, in_changed_row, in_changed_rows}

pub row_fits : (d n p j : ℕ) → d < n → j < p → d * p + j < n * p
row_fits d n p j h h' = grind arith

first_false : (a b c : Bool) → (a && (b && c)) ≡ false → b ≡ true → c ≡ true → a ≡ false
first_false a b c h hb hc = ground arith

within : (l p w : ℕ) → l ≤ p → p - l < w → (leb l p && ltb p (l + w)) ≡ true
within l p w h h' = ground arith

-- The rows of a frame are shorter than an `int` can count.
abbrev pub RowFits : Source → Type 0
RowFits f = f.width * f.pixel_bytes < 2147483648

advance-add : (base product : ℕ) → product < 2147483648 → advance base product ≡ base + product
unfolding advance
advance-add base product h = ground (arith, h)

product-le : (x n p : ℕ) → x < n → n * p < 2147483648 → x * p < 2147483648
product-le x n p lt h = grind arith

module _ (t : Tracker) (f : Source) where
  -- The byte `k` of a pixel, in the frame and in the copy of the one before.
  abbrev pub byte_at : ℕ → ℕ → ℕ → ℕ
  byte_at px py k = f.bytes (py * f.stride + (px * f.pixel_bytes + k))

  abbrev pub previous_at : ℕ → ℕ → ℕ → ℕ
  previous_at px py k = t.previous (py * (f.width * f.pixel_bytes) + (px * f.pixel_bytes + k))

  tile_differs-row :
      (rows row x y w r : ℕ)
      → tile_differs t f rows row x y w ≡ false
      → row ≤ r
      → r < row + rows
      → rows_equal f.bytes t.previous
          (advance ((y + r) * f.stride) (x * f.pixel_bytes))
          (((y + r) * f.width + x) * f.pixel_bytes)
          (w * f.pixel_bytes)
        ≡ true
  unfolding tile_differs
  tile_differs-row zero row x y w r e lo hi = absurd (omega arith)
  tile_differs-row (suc rows) row x y w r e lo hi = elim (ℕ_discrete row r) [
    | yes here ↦ rw (← here) (ground arith)
    | no later ↦ tile_differs-row rows (suc row) x y w r (ground arith) (omega arith) (omega arith)
  ]

  -- A pixel of a tile that did not change has not changed.
  tile_same :
      (tile_x tile_y dx dy k : ℕ)
      → tile_changed t f tile_x tile_y ≡ false
      → RowFits f
      → dx < width_at t f tile_x
      → dy < height_at t f tile_y
      → k < f.pixel_bytes
      → byte_at (tile_left t f tile_x + dx) (tile_top t f tile_y + dy) k
        ≡ previous_at (tile_left t f tile_x + dx) (tile_top t f tile_y + dy) k
  unfolding tile_changed
  tile_same tile_x tile_y dx dy k same fits hx hy hk =
      let x = tile_left t f tile_x in
      let y = tile_top t f tile_y in
      let w = width_at t f tile_x in
      let a = advance ((y + dy) * f.stride) (x * f.pixel_bytes) in
      let straight =
        advance-add ((y + dy) * f.stride) (x * f.pixel_bytes)
          (product-le x f.width f.pixel_bytes (omega arith) fits) in
      let b = ((y + dy) * f.width + x) * f.pixel_bytes in
      let i = dx * f.pixel_bytes + k in
      let inside : i < w * f.pixel_bytes = row_fits dx w f.pixel_bytes k hx hk in
      let equal =
        tile_differs-row (height_at t f tile_y) 0 x y w dy same (omega arith) (omega arith) in
      ap f.bytes (omega (arith, straight))
      ∙ bytes_equal-at f.bytes t.previous a b (w * f.pixel_bytes) i
          (sym (rows_equal-bytes_equal f.bytes t.previous a b (w * f.pixel_bytes)) ∙ equal) inside
      ∙ ap t.previous (omega arith)

  in_changed_row-false :
      (px py tiles from ty tx : ℕ)
      → in_changed_row t f px py tiles from ty ≡ false
      → from ≤ tx
      → tx < from + tiles
      → in_changed_tile t f px py tx ty ≡ false
  in_changed_row-false px py zero from ty tx e lo hi = absurd (omega arith)
  in_changed_row-false px py (suc tiles) from ty tx e lo hi = elim (ℕ_discrete from tx) [
    | yes here ↦ rw (← here) (ground arith)
    | no later ↦
        in_changed_row-false px py tiles (suc from) ty tx (ground arith) (omega arith) (omega arith)
  ]

  in_changed_rows-false :
      (px py rows tiles from ty : ℕ)
      → in_changed_rows t f px py rows tiles from ≡ false
      → from ≤ ty
      → ty < from + rows
      → in_changed_row t f px py tiles 0 ty ≡ false
  in_changed_rows-false px py zero tiles from ty e lo hi = absurd (omega arith)
  in_changed_rows-false px py (suc rows) tiles from ty e lo hi = elim (ℕ_discrete from ty) [
    | yes here ↦ rw (← here) (ground arith)
    | no later ↦
        in_changed_rows-false px py rows tiles (suc from) ty (ground arith) (omega arith)
          (omega arith)
  ]

  -- The tile in which a coordinate lies.
  tile_of :
      (p tile extent : ℕ)
      → 0 < tile
      → p < extent
      → (p / tile * tile ≤ p)
        × (p - p / tile * tile < min tile (extent - p / tile * tile))
        × (p / tile < tile_count extent tile)
  tile_of p tile extent pos h = (below, omega (arith, below, above), smaller)
    where
      below : p / tile * tile ≤ p
      below = omega arith

      above : p < p / tile * tile + tile
      above = omega arith

      smaller : p / tile < (extent - 1) / tile + 1
      smaller = grind arith

  -- A pixel outside all changed tiles has kept its bytes.
  pub outside_same :
      (px py k : ℕ)
      → RowFits f
      → 0 < t.options.tile_width
      → 0 < t.options.tile_height
      → px < f.width
      → py < f.height
      → k < f.pixel_bytes
      → in_changed_rows t f px py
          (tile_count f.height t.options.tile_height)
          (tile_count f.width t.options.tile_width)
          0
        ≡ false
      → byte_at px py k ≡ previous_at px py k
  outside_same px py k fits posw posh hx hy hk e =
      let tx = px / t.options.tile_width in
      let ty = py / t.options.tile_height in
      let ox = tile_of px t.options.tile_width f.width posw hx in
      let oy = tile_of py t.options.tile_height f.height posh hy in
      let row =
        in_changed_rows-false px py (tile_count f.height t.options.tile_height)
          (tile_count f.width t.options.tile_width) 0 ty e (omega arith) (omega (arith, oy.2)) in
      let tile =
        in_changed_row-false px py (tile_count f.width t.options.tile_width) 0 ty tx row
          (omega arith) (omega (arith, ox.2)) in
      let same : tile_changed t f tx ty ≡ false =
        first_false (tile_changed t f tx ty) _ _ tile
          (within (tile_left t f tx) px (width_at t f tx) ox.0 ox.1)
          (within (tile_top t f ty) py (height_at t f ty) oy.0 oy.1) in
      let ex : tile_left t f tx + (px - tile_left t f tx) ≡ px = omega (arith, ox.0) in
      let ey : tile_top t f ty + (py - tile_top t f ty) ≡ py = omega (arith, oy.0) in
      subst₂ (λ x y. byte_at x y k ≡ previous_at x y k) ex ey
        (tile_same tx ty (px - tile_left t f tx) (py - tile_top t f ty) k same fits ox.1 oy.1 hk)

  tile_differs-false :
      (rows row x y w : ℕ)
      → ((r : ℕ)
          → r < row + rows
          → rows_equal f.bytes t.previous
              (advance ((y + r) * f.stride) (x * f.pixel_bytes))
              (((y + r) * f.width + x) * f.pixel_bytes)
              (w * f.pixel_bytes)
            ≡ true)
      → tile_differs t f rows row x y w ≡ false
  unfolding tile_differs
  tile_differs-false zero row x y w h = refl
  tile_differs-false (suc rows) row x y w h =
      rw (h row (omega arith)) (tile_differs-false rows (suc row) x y w λ r lt. h r (omega arith))

  -- Frames that agree have no changed tile.
  pub same_unchanged :
      (tile_x tile_y : ℕ)
      → RowFits f
      → ((px py k : ℕ)
          → px < f.width
          → py < f.height
          → k < f.pixel_bytes
          → byte_at px py k ≡ previous_at px py k)
      → tile_changed t f tile_x tile_y ≡ false
  unfolding tile_changed
  same_unchanged tile_x tile_y fits same = tile_differs-false (height_at t f tile_y) 0 x y w λ r lt.
      rows_equal-bytes_equal f.bytes t.previous _ _ _
      ∙ bytes_equal_of f.bytes t.previous _ _ _ λ i inside.
        let p = f.pixel_bytes in
        let pos : 0 < p = grind arith in
        let split : i / p * p + i % p ≡ i = omega arith in
        let d_in : i / p < w = quotient_lt i w p inside in
        let straight =
          advance-add ((y + r) * f.stride) (x * p) (product-le x f.width p (omega arith) fits) in
        ap f.bytes (omega (arith, straight))
        ∙ same (x + i / p) (y + r) (i % p) (omega arith) (omega arith) (omega arith)
        ∙ ap t.previous (omega arith)
    where
      x : ℕ
      x = tile_left t f tile_x

      y : ℕ
      y = tile_top t f tile_y

      w : ℕ
      w = width_at t f tile_x

      quotient_lt : (i n p : ℕ) → i < n * p → i / p < n
      quotient_lt i n p h = grind arith
