-- ===== src/Encoder/Adaptive.antt =====
-- `FastAdaptiveColorMapper` of src/encoder/SixelPalette.{hpp,cpp}: a palette made for a scene, and the
-- register of a colour. The map `rgbToColorNum` and the table `quantizedLookup` are functions, `none`
-- for a key that is not there and for -1. `distance` is the perceptual distance of two colours, as for
-- the fixed palette; a histogram, in floating point, is of a type of its own.
pub mod Lookup
pub mod Build
use rasterm.Base.{
  ℕ, zero, suc, ◌+◌, ◌-◌, ◌*◌, ◌/◌, ◌%◌, min, Bool, true, false, not, ◌&&◌, ◌||◌, Option, none,
  some, List, [], ◌∷◌, leb, ltb, ◌==◌, if◌then◌else◌, update, take,
}
use rasterm.Encoder.Pixels.{PixelChannels}
use rasterm.Encoder.Palette.{nearest}

abbrev pub q6 : ℕ → ℕ
q6 channel = (channel * 5 + 127) / 255

-- `(r << 16) | (g << 8) | b`.
abbrev pub rgb_word : PixelChannels → ℕ
rgb_word c = c.red * 65536 + c.green * 256 + c.blue

abbrev pub quantized_index : PixelChannels → ℕ
quantized_index c = (q6 c.red * 6 + q6 c.green) * 6 + q6 c.blue

-- The channels of a colour, in the conversions of the code.
abbrev pub channels_of : ℕ → PixelChannels
channels_of rgb = record { red = rgb / 65536 % 256; green = rgb / 256 % 256; blue = rgb % 256 }

-- `std::abs` of a difference of two channels.
abbrev pub distance_of : ℕ → ℕ → ℕ
distance_of a b = (a - b) + (b - a)

pub record FastAdaptiveColorMapper (Histogram : Type 0) : Type 0 where
  pub palette : ℕ → ℕ
  pub rgb_to_color_num : ℕ → Option ℕ
  pub quantized_lookup : ℕ → Option ℕ
  pub next_color_num : ℕ
  pub max_colors : ℕ
  pub previous_histogram : Histogram
  pub has_histogram : Bool

abbrev pub or_else : Option ℕ → ℕ → ℕ
or_else (some n) d = n
or_else none d = d

-- The loop over the first colours of the palette, from `i` on.
unfoldable pub search_from : ℕ → ℕ → (ℕ → ℕ) → PixelChannels → ℕ → ℕ → ℕ
search_from zero i palette c best_match best_difference = best_match
search_from (suc left) i palette c best_match best_difference =
    let p = channels_of (palette i) in
    let difference =
      distance_of c.red p.red + distance_of c.green p.green + distance_of c.blue p.blue in
    let closer = ltb difference best_difference in
    let rest =
      search_from left (suc i) palette c (if closer then i else best_match)
        (if closer then difference else best_difference) in
    if ltb 256 best_difference then rest else best_match

abbrev pub int_max : ℕ
int_max = 2147483647

module _ {Histogram : Type 0} where
  -- What is found without the map.
  unfoldable pub look_up : FastAdaptiveColorMapper Histogram → PixelChannels → ℕ
  unfolding search_from
  look_up m c =
      or_else (m.quantized_lookup (quantized_index c))
        (search_from (min 32 m.next_color_num - 1) 1 m.palette c 1 int_max)

  -- `getColorNumberReadOnly`.
  unfoldable pub get_color_number_read_only : FastAdaptiveColorMapper Histogram → PixelChannels → ℕ
  unfolding look_up
  get_color_number_read_only m c = or_else (m.rgb_to_color_num (rgb_word c)) (look_up m c)

  -- `getColorNumber`: the number, and the mapper with the number in its map if the call may write.
  unfoldable pub get_color_number :
      Bool
      → PixelChannels
      → FastAdaptiveColorMapper Histogram
      → ℕ × FastAdaptiveColorMapper Histogram
  unfolding look_up
  get_color_number allow_cache_write c m = elim (m.rgb_to_color_num (rgb_word c)) [
    | some color_number ↦ (color_number, m)
    | none ↦
        let color_number = look_up m c in
        (
          color_number,
          if allow_cache_write
              then record m {
                rgb_to_color_num = update m.rgb_to_color_num (rgb_word c) (some color_number);
              }
              else m,
        )
  ]

  -- The body of the loop of `buildOptimalPalette` over the frequent colours.
  unfoldable pub add_color :
      ℕ → FastAdaptiveColorMapper Histogram → FastAdaptiveColorMapper Histogram
  add_color rgb m =
      let index = quantized_index (channels_of rgb) in
      record m {
        palette = update m.palette m.next_color_num rgb;
        rgb_to_color_num = update m.rgb_to_color_num rgb (some m.next_color_num);
        quantized_lookup =
            update m.quantized_lookup index
              (some (or_else (m.quantized_lookup index) m.next_color_num));
        next_color_num = m.next_color_num + 1;
      }

  unfoldable pub add_colors :
      List ℕ → FastAdaptiveColorMapper Histogram → FastAdaptiveColorMapper Histogram
  unfolding add_color
  add_colors [] m = m
  add_colors (rgb ∷ colors) m =
      let rest = add_colors colors (add_color rgb m) in
      if leb m.max_colors m.next_color_num then m else rest

  -- The three loops that fill the table, as a function of the place.
  unfoldable pub fill_quantized :
      (ℕ → ℕ → ℕ) → FastAdaptiveColorMapper Histogram → FastAdaptiveColorMapper Histogram
  unfolding nearest
  fill_quantized distance m = record m {
    quantized_lookup = λ index.
        let source = index / 36 * 51 * 65536 + index / 6 % 6 * 51 * 256 + index % 6 * 51 in
        some (nearest m.next_color_num (λ color. distance source (m.palette color)));
  }

  -- `buildOptimalPalette`, of the frequent colours and the histogram that the analyzer gives.
  unfoldable pub build_optimal_palette :
      (ℕ → ℕ → ℕ)
      → List ℕ
      → Histogram
      → FastAdaptiveColorMapper Histogram
      → FastAdaptiveColorMapper Histogram
  unfolding add_colors fill_quantized
  build_optimal_palette distance frequent_colors histogram m =
      let cleared : FastAdaptiveColorMapper Histogram = record m {
        rgb_to_color_num = λ rgb. none;
        quantized_lookup = λ index. none;
        next_color_num = 1;
      } in
      let filled = fill_quantized distance (add_colors frequent_colors cleared) in
      record filled { previous_histogram = histogram; has_histogram = true }
