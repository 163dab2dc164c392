-- ===== src/Encoder/Packed.antt =====
-- src/encoder/SixelEncoder.cpp: the image of a packed frame and what prepares for it. Parameters stand for
-- what is computed in floating point or with the standard containers: `analyze` for the analyzer,
-- `is_scene_cut` for the comparison of its histogram with the mapper's earlier one, `distance` for the
-- perceptual distance, `percent` for a byte as a rounded percentage, `ordered` for the ordered dithering.
-- The rows of a frame are mapped one by one or by the executor, each of them once.
pub mod Image
pub mod Prepared
pub mod Picture
pub mod Serving
use rasterm.Base.{
  ℕ, zero, suc, ◌+◌, ◌-◌, ◌*◌, ◌/◌, ◌%◌, min, max, Bool, true, false, not, ◌&&◌, ◌||◌, none, List,
  [], ◌∷◌, leb, ltb, ◌==◌, if◌then◌else◌, length,
}
use rasterm.Base.Int.{ℤ, pos, pos_part}
use rasterm.Engine.Options.{DitherMode}
use rasterm.Frame.{PixelFormat, FrameView, is_valid_frame, bytes_per_pixel}
use rasterm.Damage.Rect.{DamageRegion, is_valid}
use rasterm.Sixel.{HeaderOptions, append_palette}
use rasterm.Sixel.Output.{SixelOutput}
use rasterm.Sixel.Indexed.{Scratch}
use rasterm.Sixel.Image.{write_image}
use rasterm.Encoder.{SixelOptions, PaletteState, begin_logical_frame, should_emit_palette}
use rasterm.Encoder.Indexed.{VideoSixelEncoder, mapper_hash, is_outside}
use rasterm.Encoder.Pixels.{
  PixelLayout, rgb, PixelChannels, pixel_stride, pixel_layout, read_pixel, pixel_at,
}
use rasterm.Encoder.Mapping.{map_row, map_palette_row_avx2, map_palette_row_avx512}
use rasterm.Encoder.Palette.{FastColorMapper}
use rasterm.Encoder
use rasterm.Encoder.Adaptive.{
  FastAdaptiveColorMapper, get_color_number_read_only, build_optimal_palette,
}
use rasterm.Encoder.Dither.{apply_floyd_steinberg}

-- `SixelOptions`, the fields that the encoder reads.
pub record EncoderOptions : Type 0 where
  pub header : HeaderOptions
  pub registers : SixelOptions
  pub palette_levels_per_channel : ℤ
  pub dither : DitherMode
  pub max_colors : ℤ
  pub max_frame_colors : ℤ
  pub use_adaptive_palette : Bool
  pub adaptive_palette_lock_frames : ℤ
  pub independent_region_quantization : Bool

-- `std::clamp` into bounds that are not negative.
abbrev pub clamp : ℤ → ℕ → ℕ → ℕ
clamp value low high = min (max (pos_part value) low) high

-- The options as the constructor leaves them, and the colours of its two mappers.
unfoldable pub clamp_options : EncoderOptions → EncoderOptions
clamp_options o =
    let max_colors = clamp o.max_colors 2 256 in
    record o {
      max_colors = pos max_colors;
      max_frame_colors = pos (clamp o.max_frame_colors 1 (max_colors - 1));
    }

unfoldable pub active_color_slots : EncoderOptions → ℕ
unfolding clamp_options
active_color_slots o = pos_part (clamp_options o).max_frame_colors + 1

-- What the analyzer makes of a frame: its most frequent colours, as many as asked for at most, and the
-- histogram of its luminance.
pub record Analysis (Histogram : Type 0) : Type 0 where
  pub most_frequent_colors : ℕ → List ℕ
  pub luminance_histogram : Histogram

-- The members of `VideoSixelEncoder` for packed frames. `output` has the ones that an indexed frame
-- reads and writes too.
pub record PackedEncoder (Histogram : Type 0) : Type 0 where
  pub output : VideoSixelEncoder
  pub color_mapper : FastAdaptiveColorMapper Histogram
  pub fast_color_mapper : FastColorMapper
  pub palette_age : ℕ
  pub has_adaptive_palette : Bool
  pub adaptive_frame_prepared : Bool

-- `reset`.
unfoldable pub reset : {Histogram : Type 0} → PackedEncoder Histogram → PackedEncoder Histogram
unfolding Encoder.reset
reset e = record e {
  output = record e.output { registers = Encoder.reset e.output.registers };
  color_mapper = record e.color_mapper { has_histogram = false; rgb_to_color_num = λ rgb. none };
  palette_age = 0;
  has_adaptive_palette = false;
  adaptive_frame_prepared = false;
}

-- `paletteIndices` and the like before a call: a vector with any content, as are the lanes.
abbrev pub junk : ℕ → ℕ
junk place = 0

-- The colours of a mapper's vector from `color` on.
abbrev pub words_from : ℕ → (ℕ → ℕ) → ℕ → List ℕ
words_from zero palette color = []
words_from (suc left) palette color = palette color ∷ words_from left palette (suc color)

-- The view of a region.
unfoldable pub crop_frame : DamageRegion → FrameView → FrameView
unfolding bytes_per_pixel
crop_frame r f = record {
  has_data = f.has_data;
  bytes = λ i. f.bytes (r.y * pos_part f.stride + r.x * bytes_per_pixel f.format + i);
  width = pos r.width;
  height = pos r.height;
  stride = f.stride;
  format = f.format;
  damage = record { has_rectangles = false; rectangles = []; supplied = false };
}

-- `workingBuffer` as the loops of `encodeView` fill it: red, green and blue of each pixel.
unfoldable pub working_buffer : FrameView → PixelLayout → ℕ → ℕ
unfolding read_pixel pixel_stride
working_buffer f layout place =
    let row_bytes = pos_part f.width * 3 in
    let column = place % row_bytes / 3 in
    let channels = read_pixel (pixel_at f layout column (place / row_bytes)) layout in
    let channel = place % row_bytes % 3 in
    if channel == 0 then channels.red else if channel == 1 then channels.green else channels.blue

module _ {Histogram : Type 0} (o : EncoderOptions)
    (analyze : FrameView → PixelLayout → Analysis Histogram)
    (is_scene_cut : Histogram → FastAdaptiveColorMapper Histogram → Bool)
    (distance : ℕ → ℕ → ℕ) where
  -- `buildOptimalPalette` of an analysis, and what its callers note.
  unfoldable pub rebuild : Analysis Histogram → PackedEncoder Histogram → PackedEncoder Histogram
  unfolding build_optimal_palette
  rebuild a e = record e {
    color_mapper =
        build_optimal_palette distance
          (a.most_frequent_colors (min 128 (e.color_mapper.max_colors - 1))) a.luminance_histogram
          e.color_mapper;
    palette_age = 0;
    has_adaptive_palette = true;
  }

  -- The part that `prepareFrame` and `encodeView` share: a new palette, or an older one.
  unfoldable pub refresh :
      FrameView → PixelLayout → PackedEncoder Histogram → PackedEncoder Histogram
  unfolding rebuild
  refresh f layout e =
      let a = analyze f layout in
      if not e.has_adaptive_palette
        || (leb (pos_part o.adaptive_palette_lock_frames) e.palette_age
            || is_scene_cut a.luminance_histogram e.color_mapper)
      then rebuild a e
      else record e { palette_age = e.palette_age + 1 }

  -- `beginLogicalFrame`, and no palette prepared.
  unfoldable pub begin_frame : PackedEncoder Histogram → PackedEncoder Histogram
  unfolding begin_logical_frame
  begin_frame e = record e {
    output = record e.output { registers = begin_logical_frame o.registers e.output.registers };
    adaptive_frame_prepared = false;
  }

  -- `prepareFrame(const FrameView&)`.
  unfoldable pub prepare_frame : FrameView → PackedEncoder Histogram → PackedEncoder Histogram
  unfolding begin_frame refresh is_valid_frame pixel_layout
  prepare_frame f e =
      if not o.use_adaptive_palette || not (is_valid_frame f)
      then begin_frame e
      else record (refresh f (pixel_layout f.format) (begin_frame e)) {
        adaptive_frame_prepared = true;
      }

  -- `prepareFrame(const IndexedFrameView&)`.
  unfoldable pub prepare_indexed_frame : PackedEncoder Histogram → PackedEncoder Histogram
  unfolding begin_frame
  prepare_indexed_frame e = begin_frame e

  -- `prepareRegionalFrame(const FrameView&)`.
  unfoldable pub prepare_regional_frame :
      FrameView → PackedEncoder Histogram → PackedEncoder Histogram
  unfolding begin_frame prepare_frame
  prepare_regional_frame f e =
      if o.use_adaptive_palette && o.independent_region_quantization
      then begin_frame e
      else prepare_frame f e

  -- `prepareRegion(const FrameView&, const DamageRegion&)`.
  unfoldable pub prepare_region :
      FrameView → DamageRegion → PackedEncoder Histogram → PackedEncoder Histogram
  unfolding is_valid_frame crop_frame rebuild pixel_layout
  prepare_region f r e =
      if not o.use_adaptive_palette
        || (not o.independent_region_quantization || (not (is_valid_frame f) || not (is_valid r)))
      then e
      else (let view = crop_frame r f in
          record (rebuild (analyze view (pixel_layout view.format)) e) {
            adaptive_frame_prepared = true;
          })
