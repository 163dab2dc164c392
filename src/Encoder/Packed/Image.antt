-- ===== src/Encoder/Packed/Image.antt =====
-- `encodeView(const FrameView&, PixelLayout)` of src/encoder/SixelEncoder.cpp and its callers. `avx2` and
-- `avx512` tell what the machine supports.
use rasterm.Base.{
  ℕ, ◌-◌, ◌*◌, ◌/◌, ◌%◌, Bool, true, false, not, ◌&&◌, ◌||◌, List, [], leb, if◌then◌else◌,
}
use rasterm.Base.Int.{pos, pos_part}
use rasterm.Engine.Options.{no_dither, floyd_steinberg}
use rasterm.Frame.{DamageRect, PixelFormat, FrameView, is_valid_frame}
use rasterm.Sixel.{append_palette}
use rasterm.Sixel.Output.{SixelOutput}
use rasterm.Sixel.Indexed.{Scratch}
use rasterm.Sixel.Image.{write_image}
use rasterm.Encoder.{should_emit_palette}
use rasterm.Encoder.Indexed.{mapper_hash, is_outside, region_of}
use rasterm.Encoder.Pixels.{
  PixelLayout, rgb, PixelChannels, pixel_stride, pixel_layout, read_pixel, pixel_at,
}
use rasterm.Encoder.Mapping.{map_row, map_palette_row_avx2, map_palette_row_avx512}
use rasterm.Encoder.Palette.{FastColorMapper, reset, use_colors}
use rasterm.Encoder.Adaptive.{FastAdaptiveColorMapper, get_color_number_read_only}
use rasterm.Encoder.Dither.{apply_floyd_steinberg}
use rasterm.Encoder.Packed.{
  EncoderOptions, Analysis, PackedEncoder, junk, words_from, crop_frame, working_buffer, refresh,
}

-- The frame whose pixels are mapped, with its layout: the caller's, or the dithered copy.
unfoldable pub dithered : FrameView → (ℕ → ℕ) → FrameView
dithered f buffer = record {
  has_data = true;
  bytes = buffer;
  width = f.width;
  height = f.height;
  stride = pos (pos_part f.width * 3);
  format = PixelFormat.rgb24;
  damage = record { has_rectangles = false; rectangles = []; supplied = false };
}

unfoldable pub source_of :
    EncoderOptions
    → (ℕ → ℕ → ℕ → (ℕ → ℕ) → ℕ → ℕ)
    → FrameView
    → PixelLayout
    → FrameView × PixelLayout
unfolding dithered working_buffer apply_floyd_steinberg
source_of o ordered f layout =
    let levels = pos_part o.palette_levels_per_channel in
    let width = pos_part f.width in
    let height = pos_part f.height in
    elim o.dither [
      | no_dither ↦ (f, layout)
      | floyd_steinberg ↦
          (dithered f (apply_floyd_steinberg levels width height (working_buffer f layout)), rgb)
      | _ ↦ (dithered f (ordered levels width height (working_buffer f layout)), rgb)
    ]

-- The channels of the source at a column and a row.
abbrev pub source_pixel : FrameView × PixelLayout → ℕ → ℕ → PixelChannels
source_pixel (f, layout) x y = read_pixel (pixel_at f layout x y) layout

-- One row by the routine that the machine and the frame allow.
unfoldable pub fixed_row : Bool → Bool → FrameView × PixelLayout → FastColorMapper → ℕ → ℕ → ℕ
unfolding map_row map_palette_row_avx2 map_palette_row_avx512 pixel_stride read_pixel
fixed_row avx2 avx512 source m y =
    let width = pos_part source.0.width in
    let pixel : ℕ → PixelChannels = λ x. source_pixel source x y in
    let eligible = leb 3 (pixel_stride source.1) && leb 64 width in
    if eligible && avx512
    then map_palette_row_avx512 width m.rgb_lookup32 pixel junk junk
    else if eligible && avx2
    then map_palette_row_avx2 width m.rgb_lookup32 pixel junk junk
    else map_row width m.rgb_lookup pixel junk

-- The vectors of indices, as functions of the place.
unfoldable pub fixed_indices : Bool → Bool → FrameView × PixelLayout → FastColorMapper → ℕ → ℕ
unfolding fixed_row
fixed_indices avx2 avx512 source m place =
    fixed_row avx2 avx512 source m (place / pos_part source.0.width)
      (place % pos_part source.0.width)

unfoldable pub adaptive_indices :
    {Histogram : Type 0} → FrameView × PixelLayout → FastAdaptiveColorMapper Histogram → ℕ → ℕ
unfolding get_color_number_read_only read_pixel
adaptive_indices source m place =
    get_color_number_read_only m
      (source_pixel source (place % pos_part source.0.width) (place / pos_part source.0.width))
    % 256

-- What an image is written with: its indices, the colours and which of them the palette defines, their
-- number, the signature, and the number of colours that is reported.
pub record Mapped : Type 0 where
  pub indices : ℕ → ℕ
  pub palette : ℕ → ℕ
  pub defined : ℕ → Bool
  pub color_count : ℕ
  pub signature : ℕ
  pub reported : ℕ

abbrev pub nothing_encoded :
    {Histogram : Type 0} → PackedEncoder Histogram → List ℕ × PackedEncoder Histogram
nothing_encoded e = ([], e)

module _ {Histogram : Type 0} (o : EncoderOptions)
    (analyze : FrameView → PixelLayout → Analysis Histogram)
    (is_scene_cut : Histogram → FastAdaptiveColorMapper Histogram → Bool)
    (distance : ℕ → ℕ → ℕ) where
  -- The mapping of the pixels to registers.
  unfoldable pub map_adaptive :
      FrameView × PixelLayout → PackedEncoder Histogram → Mapped × PackedEncoder Histogram
  unfolding refresh adaptive_indices mapper_hash
  map_adaptive source e =
      let e1 =
        if not e.adaptive_frame_prepared
        then refresh o analyze is_scene_cut distance source.0 source.1 e
        else e in
      let m = e1.color_mapper in
      (
        record {
          indices = adaptive_indices source m;
          palette = m.palette;
          defined = λ color. true;
          color_count = m.next_color_num;
          signature = mapper_hash (words_from m.next_color_num m.palette 0);
          reported = m.next_color_num - 1;
        },
        e1,
      )

module _ {Histogram : Type 0} (o : EncoderOptions) (avx2 avx512 : Bool) where
  unfoldable pub map_fixed :
      FrameView × PixelLayout → PackedEncoder Histogram → Mapped × PackedEncoder Histogram
  unfolding reset fixed_indices use_colors mapper_hash
  map_fixed source e =
      let indices = fixed_indices avx2 avx512 source e.fast_color_mapper in
      let pixels = pos_part source.0.width * pos_part source.0.height in
      let m = use_colors pixels 0 indices (reset e.fast_color_mapper) in
      (
        record {
          indices = indices;
          palette = m.color_num_to_rgb;
          defined = if o.registers.persist_palette_registers then (λ color. true) else m.color_used;
          color_count = m.next_color_num;
          signature = mapper_hash (words_from m.next_color_num m.color_num_to_rgb 0);
          reported = m.used_color_count;
        },
        record e { fast_color_mapper = m },
      )

module _ {Histogram : Type 0} (o : EncoderOptions) (percent : ℕ → ℕ) where
  -- The image, and the encoder behind it.
  unfoldable pub write_mapped :
      ℕ → ℕ → Scratch → Mapped × PackedEncoder Histogram → List ℕ × PackedEncoder Histogram
  unfolding should_emit_palette write_image append_palette
  write_mapped width height b (m, e) =
      let (define_palette, registers) =
        should_emit_palette o.registers m.signature e.output.registers in
      let palette = λ (out : SixelOutput).
        if define_palette
        then append_palette percent m.palette m.defined m.color_count out
        else out in
      let out = write_image o.header width height palette m.indices b e.output.output_limit in
      (
        if out.limit_exceeded then [] else out.storage,
        record e {
          output = record e.output {
            limit_exceeded = out.limit_exceeded;
            output_buffer = out.storage;
            last_color_count = m.reported;
            registers = registers;
          };
        },
      )

module _ {Histogram : Type 0} (o : EncoderOptions)
    (analyze : FrameView → PixelLayout → Analysis Histogram)
    (is_scene_cut : Histogram → FastAdaptiveColorMapper Histogram → Bool) (distance : ℕ → ℕ → ℕ)
    (percent : ℕ → ℕ) (ordered : ℕ → ℕ → ℕ → (ℕ → ℕ) → ℕ → ℕ) (avx2 avx512 : Bool) where
  -- `encodeView(const FrameView&, PixelLayout)`.
  unfoldable pub encode_view :
      FrameView → PixelLayout → Scratch → PackedEncoder Histogram → List ℕ × PackedEncoder Histogram
  unfolding source_of map_adaptive map_fixed write_mapped
  encode_view f layout b e =
      let source = source_of o ordered f layout in
      let mapped =
        if o.use_adaptive_palette
        then map_adaptive o analyze is_scene_cut distance source e
        else map_fixed o avx2 avx512 source e in
      write_mapped o percent (pos_part source.0.width) (pos_part source.0.height) b mapped

  -- `encodeFrame(const FrameView&)`.
  unfoldable pub encode_frame :
      FrameView → Scratch → PackedEncoder Histogram → List ℕ × PackedEncoder Histogram
  unfolding is_valid_frame encode_view pixel_layout
  encode_frame f b e =
      if is_valid_frame f then encode_view f (pixel_layout f.format) b e else nothing_encoded e

  -- `encodeRegion(const FrameView&, const DamageRegion&)`.
  unfoldable pub encode_region :
      FrameView → DamageRect → Scratch → PackedEncoder Histogram → List ℕ × PackedEncoder Histogram
  unfolding is_valid_frame crop_frame encode_view pixel_layout
  encode_region f r b e =
      if not (is_valid_frame f) || is_outside r (pos_part f.width) (pos_part f.height)
      then nothing_encoded e
      else encode_view (crop_frame (region_of r) f) (pixel_layout f.format) b e
