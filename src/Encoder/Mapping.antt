-- ===== src/Encoder/Mapping.antt =====
-- The rows of a frame mapped to palette indices: the loop of `encodeView` in
-- src/encoder/SixelEncoder.cpp, and the vector routines of src/encoder/SixelSimdAvx2.cpp and
-- src/encoder/SixelSimdAvx512.cpp. `pixel` gives the channels at a column, as `readPixel` reads them;
-- arrays are functions of the index. The loads, the gather and the store of the vectors copy lanes.
pub mod Vector
use rasterm.Base.{ℕ, zero, suc, ◌+◌, ◌-◌, ◌*◌, ◌/◌, ◌%◌, leb, if◌then◌else◌, update}
use rasterm.Encoder.Pixels.{PixelChannels}

-- The place of a colour in the lookup table, five bits for each channel.
unfoldable pub lookup_place : PixelChannels → ℕ
lookup_place c =
    let lr = (c.red * 31 + 127) / 255 in
    let lg = (c.green * 31 + 127) / 255 in
    let lb = (c.blue * 31 + 127) / 255 in (lr * 32 + lg) * 32 + lb

-- `mapped[x] = rgbLookup[...]` from column `x` on.
pub map_row_from : ℕ → ℕ → (ℕ → ℕ) → (ℕ → PixelChannels) → (ℕ → ℕ) → ℕ → ℕ
unfolding lookup_place
map_row_from zero x lookup pixel mapped = mapped
map_row_from (suc left) x lookup pixel mapped =
    map_row_from left (suc x) lookup pixel (update mapped x (lookup (lookup_place (pixel x))))

unfoldable pub map_row : ℕ → (ℕ → ℕ) → (ℕ → PixelChannels) → (ℕ → ℕ) → ℕ → ℕ
unfolding map_row_from
map_row width lookup pixel mapped = map_row_from width 0 lookup pixel mapped

-- The first loop over the lanes, from `lane` on.
pub fill_offsets : ℕ → ℕ → ℕ → (ℕ → PixelChannels) → (ℕ → ℕ) → ℕ → ℕ
unfolding lookup_place
fill_offsets zero lane x pixel offsets = offsets
fill_offsets (suc left) lane x pixel offsets =
    fill_offsets left (suc lane) x pixel (update offsets lane (lookup_place (pixel (x + lane))))

-- `_mm256_i32gather_epi32` and `_mm512_i32gather_epi32`.
unfoldable pub gather : (ℕ → ℕ) → (ℕ → ℕ) → ℕ → ℕ
gather lookup indices lane = lookup (indices lane)

-- The second loop over the lanes.
pub store_lanes : ℕ → ℕ → ℕ → (ℕ → ℕ) → (ℕ → ℕ) → ℕ → ℕ
store_lanes zero lane x mapped output = output
store_lanes (suc left) lane x mapped output =
    store_lanes left (suc lane) x mapped (update output (x + lane) (mapped lane % 256))

-- The loop that finishes a row, a pixel at a time.
pub finish_row : ℕ → ℕ → (ℕ → ℕ) → (ℕ → PixelChannels) → (ℕ → ℕ) → ℕ → ℕ
unfolding lookup_place
finish_row zero x lookup pixel output = output
finish_row (suc left) x lookup pixel output =
    finish_row left (suc x) lookup pixel (update output x (lookup (lookup_place (pixel x)) % 256))

-- The loop over whole vectors, from column `x` on, then the rest of the row. The offsets are what the
-- last round left there.
pub vector_row : ℕ → ℕ → ℕ → ℕ → (ℕ → ℕ) → (ℕ → PixelChannels) → (ℕ → ℕ) → (ℕ → ℕ) → ℕ → ℕ
unfolding fill_offsets gather store_lanes finish_row
vector_row zero lanes width x lookup pixel offsets output = output
vector_row (suc fuel) lanes width x lookup pixel offsets output =
    let filled = fill_offsets lanes 0 x pixel offsets in
    let stored = store_lanes lanes 0 x (gather lookup filled) output in
    let rest = vector_row fuel lanes width (x + lanes) lookup pixel filled stored in
    if leb (x + lanes) width then rest else finish_row (width - x) x lookup pixel output

-- The arrays start with any content. A round takes at least one column of the row, and one more round
-- leaves the loop.
unfoldable pub map_palette_row_avx2 : ℕ → (ℕ → ℕ) → (ℕ → PixelChannels) → (ℕ → ℕ) → (ℕ → ℕ) → ℕ → ℕ
unfolding vector_row
map_palette_row_avx2 width lookup pixel offsets output =
    vector_row (width + 1) 8 width 0 lookup pixel offsets output

unfoldable pub map_palette_row_avx512 :
    ℕ → (ℕ → ℕ) → (ℕ → PixelChannels) → (ℕ → ℕ) → (ℕ → ℕ) → ℕ → ℕ
unfolding vector_row
map_palette_row_avx512 width lookup pixel offsets output =
    vector_row (width + 1) 16 width 0 lookup pixel offsets output
