-- ===== src/Encoder/Mapping/Vector.antt =====
-- The vector routines map a row as the plain loop does.
use rasterm.Base.{
  ℕ, zero, suc, ◌+◌, ◌-◌, ◌%◌, ◌≤◌, ◌<◌, ◌≡◌, sym, ap, ◌∙◌, Bool, true, ◌&&◌, leb, ltb, Bool-cases,
  inl, inr, if◌then◌else◌, arith, update,
}
use rasterm.Encoder.Pixels.{PixelChannels}
use rasterm.Encoder.Mapping.{
  lookup_place, map_row_from, map_row, fill_offsets, gather, store_lanes, finish_row, vector_row,
  map_palette_row_avx2, map_palette_row_avx512,
}

-- Whether a column is one of `n` from `x` on.
abbrev within : ℕ → ℕ → ℕ → Bool
within x n j = leb x j && ltb j (x + n)

fill_offsets-at :
    (left lane x : ℕ) (pixel : ℕ → PixelChannels) (offsets : ℕ → ℕ) (j : ℕ)
    → fill_offsets left lane x pixel offsets j
      ≡ (if within lane left j then lookup_place (pixel (x + j)) else offsets j)
unfolding fill_offsets
fill_offsets-at zero lane x pixel offsets j = ground arith
fill_offsets-at (suc left) lane x pixel offsets j = ground (
  arith,
  fill_offsets-at left (suc lane) x pixel (update offsets lane (lookup_place (pixel (x + lane)))) j,
  here,
)
  where
    here : j ≡ lane → lookup_place (pixel (x + lane)) ≡ lookup_place (pixel (x + j))
    here e = ap (λ k. lookup_place (pixel (x + k))) (sym e)

store_lanes-at :
    (left lane x : ℕ) (mapped output : ℕ → ℕ) (j : ℕ)
    → store_lanes left lane x mapped output j
      ≡ (if within (x + lane) left j then mapped (j - x) % 256 else output j)
unfolding store_lanes
store_lanes-at zero lane x mapped output j = ground arith
store_lanes-at (suc left) lane x mapped output j = ground (
  arith,
  store_lanes-at left (suc lane) x mapped (update output (x + lane) (mapped lane % 256)) j,
  here,
)
  where
    here : j ≡ x + lane → mapped (j - x) ≡ mapped lane
    here e = ap mapped (omega arith)

finish_row-at :
    (left x : ℕ) (lookup : ℕ → ℕ) (pixel : ℕ → PixelChannels) (output : ℕ → ℕ) (j : ℕ)
    → finish_row left x lookup pixel output j
      ≡ (if within x left j then lookup (lookup_place (pixel j)) % 256 else output j)
unfolding finish_row
finish_row-at zero x lookup pixel output j = ground arith
finish_row-at (suc left) x lookup pixel output j = ground (
  arith,
  finish_row-at left (suc x) lookup pixel (update output x (lookup (lookup_place (pixel x)) % 256))
      j,
  here,
)
  where
    here : j ≡ x → lookup (lookup_place (pixel x)) ≡ lookup (lookup_place (pixel j))
    here e = ap (λ k. lookup (lookup_place (pixel k))) (sym e)

map_row_from-at :
    (left x : ℕ) (lookup : ℕ → ℕ) (pixel : ℕ → PixelChannels) (mapped : ℕ → ℕ) (j : ℕ)
    → map_row_from left x lookup pixel mapped j
      ≡ (if within x left j then lookup (lookup_place (pixel j)) else mapped j)
unfolding map_row_from
map_row_from-at zero x lookup pixel mapped j = ground arith
map_row_from-at (suc left) x lookup pixel mapped j = ground (
  arith,
  map_row_from-at left (suc x) lookup pixel (update mapped x (lookup (lookup_place (pixel x)))) j,
  here,
)
  where
    here : j ≡ x → lookup (lookup_place (pixel x)) ≡ lookup (lookup_place (pixel j))
    here e = ap (λ k. lookup (lookup_place (pixel k))) (sym e)

pub map_row-at :
    (width : ℕ) (lookup : ℕ → ℕ) (pixel : ℕ → PixelChannels) (mapped : ℕ → ℕ) (j : ℕ)
    → map_row width lookup pixel mapped j
      ≡ (if ltb j width then lookup (lookup_place (pixel j)) else mapped j)
unfolding map_row
map_row-at width lookup pixel mapped j =
    map_row_from-at width 0 lookup pixel mapped j ∙ ground arith

module _ (lanes width : ℕ) (wide : 0 < lanes) (lookup : ℕ → ℕ) (pixel : ℕ → PixelChannels) where
  -- One vector.
  vector-at :
      (x : ℕ) (offsets output : ℕ → ℕ) (j : ℕ)
      → store_lanes lanes 0 x (gather lookup (fill_offsets lanes 0 x pixel offsets)) output j
        ≡ (if within x lanes j then lookup (lookup_place (pixel j)) % 256 else output j)
  unfolding gather
  vector-at x offsets output j =
      store_lanes-at lanes 0 x (gather lookup (fill_offsets lanes 0 x pixel offsets)) output j
      ∙ elim (Bool-cases (within x lanes j)) [
        | inl inside ↦
            let back : x + (j - x) ≡ j = ground arith in
            let from_zero : x + 0 ≡ x = omega arith in
            let lane : within 0 lanes (j - x) ≡ true = ground arith in
            rw (from_zero, inside, fill_offsets-at lanes 0 x pixel offsets (j - x), lane, back)
        | inr outside ↦ let from_zero : x + 0 ≡ x = omega arith in rw (from_zero, outside)
      ]

  vector_row-at :
      (fuel x : ℕ) (offsets output : ℕ → ℕ) (j : ℕ)
      → width < x + fuel
      → x ≤ width
      → vector_row fuel lanes width x lookup pixel offsets output j
        ≡ (if leb x j && ltb j width then lookup (lookup_place (pixel j)) % 256 else output j)
  unfolding vector_row
  vector_row-at zero x offsets output j enough le = absurd (omega arith)
  vector_row-at (suc fuel) x offsets output j enough le =
      elim (Bool-cases (leb (x + lanes) width)) [
        | inl more ↦
            let filled = fill_offsets lanes 0 x pixel offsets in
            let stored = store_lanes lanes 0 x (gather lookup filled) output in
            rw more (
              vector_row-at fuel (x + lanes) filled stored j (omega arith) (ground arith)
              ∙ ground (arith, vector-at x offsets output j))
        | inr rest ↦ rw rest (finish_row-at (width - x) x lookup pixel output j ∙ ground arith)
      ]

-- The AVX2 and the AVX-512 routine write the same row as the plain loop, at every column and nowhere
-- else, whatever their arrays held, where the table of 32 bits that they read holds the same numbers
-- as the table of bytes.
pub map_palette_row-map_row :
    (width : ℕ) (lookup32 lookup : ℕ → ℕ) (pixel : ℕ → PixelChannels) (offsets output : ℕ → ℕ)
    (j : ℕ)
    → ((place : ℕ) → lookup place ≡ lookup32 place % 256)
    → (map_palette_row_avx2 width lookup32 pixel offsets output j
        ≡ map_row width lookup pixel output j)
      × (map_palette_row_avx512 width lookup32 pixel offsets output j
          ≡ map_row width lookup pixel output j)
unfolding map_palette_row_avx2 map_palette_row_avx512
map_palette_row-map_row width lookup32 lookup pixel offsets output j same = (
  vector_row-at 8 width (omega arith) lookup32 pixel (width + 1) 0 offsets output j (omega arith)
        (omega arith)
      ∙ ground (arith, same (lookup_place (pixel j)), map_row-at width lookup pixel output j),
  vector_row-at 16 width (omega arith) lookup32 pixel (width + 1) 0 offsets output j (omega arith)
        (omega arith)
      ∙ ground (arith, same (lookup_place (pixel j)), map_row-at width lookup pixel output j),
)
