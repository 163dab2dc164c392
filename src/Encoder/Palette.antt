-- ===== src/Encoder/Palette.antt =====
-- `FastColorMapper` of src/encoder/SixelPalette.{hpp,cpp}: the palette of fixed colours, its lookup table
-- and the colours that a frame uses. What floating point computes is a parameter: `hues` are the
-- colours of `hslColor` in the order of the loops, `distance` the perceptual distance of two colours.
-- A distance is not negative; it stands as the number of its bits, which order as it does.
pub mod Distinct
pub mod Nearest
pub mod Used
use rasterm.Base.{
  ℕ, zero, suc, ◌+◌, ◌-◌, ◌*◌, ◌/◌, ◌%◌, Bool, true, false, not, ◌&&◌, ◌||◌, List, [], ◌∷◌, leb,
  ltb, ◌==◌, if◌then◌else◌, update,
}

pub record FastColorMapper : Type 0 where
  pub color_num_to_rgb : ℕ → ℕ
  pub color_used : ℕ → Bool
  pub rgb_lookup : ℕ → ℕ
  pub rgb_lookup32 : ℕ → ℕ
  pub next_color_num : ℕ
  pub used_color_count : ℕ
  pub max_colors : ℕ

-- `std::find` over `left` registers from `color` on.
abbrev pub is_listed : ℕ → ℕ → (ℕ → ℕ) → ℕ → Bool
is_listed zero color palette rgb = false
is_listed (suc left) color palette rgb =
    (palette color == rgb) || is_listed left (suc color) palette rgb

-- The lambda `appendColor`.
unfoldable pub append_color : ℕ → FastColorMapper → FastColorMapper
append_color rgb m =
    if not (is_listed (m.next_color_num - 1) 1 m.color_num_to_rgb rgb)
      && ltb m.next_color_num m.max_colors
    then record m {
      color_num_to_rgb = update m.color_num_to_rgb m.next_color_num rgb;
      next_color_num = m.next_color_num + 1;
    }
    else m

-- The grayscale ramp from `level` on.
abbrev pub grayscale_levels : ℕ
grayscale_levels = 24

unfoldable pub append_grays : ℕ → ℕ → FastColorMapper → FastColorMapper
unfolding append_color
append_grays zero level m = m
append_grays (suc left) level m =
    let value = (level * 255 + (grayscale_levels - 1) / 2) / (grayscale_levels - 1) in
    append_grays left (suc level) (append_color (value * 65536 + value * 256 + value) m)

unfoldable pub append_hues : List ℕ → FastColorMapper → FastColorMapper
unfolding append_color
append_hues [] m = m
append_hues (rgb ∷ hues) m = append_hues hues (append_color rgb m)

-- The search for the colour at the least distance, from `color` on, and the distance of the best one.
unfoldable pub nearest_from : ℕ → ℕ → (ℕ → ℕ) → ℕ → ℕ → ℕ
nearest_from zero color distance best best_distance = best
nearest_from (suc left) color distance best best_distance =
    let closer = ltb (distance color) best_distance in
    nearest_from left (suc color) distance (if closer then color else best)
      (if closer then distance color else best_distance)

-- The bits of `std::numeric_limits<double>::max()`.
abbrev pub double_max : ℕ
double_max = 9218868437227405311

unfoldable pub nearest : ℕ → (ℕ → ℕ) → ℕ
unfolding nearest_from
nearest next_color_num distance = nearest_from (next_color_num - 1) 1 distance 1 double_max

-- The colour in the middle of a cell of the lookup table.
abbrev pub cell_channel : ℕ → ℕ
cell_channel level = (level * 255 + 15) / 31

abbrev pub cell_color : ℕ → ℕ
cell_color place =
    cell_channel (place / 1024) * 65536
    + cell_channel (place / 32 % 32) * 256
    + cell_channel (place % 32)

-- The loops that fill the lookup tables, as functions of the place.
unfoldable pub fill_lookups : (ℕ → ℕ → ℕ) → FastColorMapper → FastColorMapper
unfolding nearest
fill_lookups distance m =
    let best = λ (place : ℕ).
      nearest m.next_color_num (λ color. distance (cell_color place) (m.color_num_to_rgb color)) in
    record m { rgb_lookup = λ place. best place % 256; rgb_lookup32 = best }

-- `FastColorMapper(int, int)`.
unfoldable pub construct : (ℕ → ℕ → ℕ) → List ℕ → ℕ → FastColorMapper
unfolding append_grays append_hues fill_lookups
construct distance hues max_colors = fill_lookups distance (
    append_hues hues (
      append_grays grayscale_levels 0 (record {
        color_num_to_rgb = λ color. 0;
        color_used = λ color. false;
        rgb_lookup = λ place. 0;
        rgb_lookup32 = λ place. 0;
        next_color_num = 1;
        used_color_count = 0;
        max_colors = max_colors;
      })))

-- `reset`.
unfoldable pub reset : FastColorMapper → FastColorMapper
reset m = record m { color_used = λ color. false; used_color_count = 0 }

-- The body of the loop of `encodeView` that notes the colours used, and of `getColorNumber`.
unfoldable pub use_color : ℕ → FastColorMapper → FastColorMapper
use_color color m =
    if not (m.color_used color)
    then record m {
      color_used = update m.color_used color true;
      used_color_count = m.used_color_count + 1;
    }
    else m

-- The loop over `left` pixels from `pixel` on.
unfoldable pub use_colors : ℕ → ℕ → (ℕ → ℕ) → FastColorMapper → FastColorMapper
unfolding use_color
use_colors zero pixel indices m = m
use_colors (suc left) pixel indices m =
    use_colors left (suc pixel) indices (use_color (indices pixel) m)
