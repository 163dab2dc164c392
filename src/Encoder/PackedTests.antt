-- ===== src/Encoder/PackedTests.antt =====
-- A frame of two pixels through the encoder for packed frames.
use rasterm.Base.{
  ℕ, ◌+◌, ◌*◌, ◌/◌, ◌%◌, ◌≤◌, ◌<◌, min, ◌≡◌, refl, Bool, true, false, [], ◌∷◌, none, some, get_or,
  take, arith,
}
use rasterm.Base.Int.{pos, pos_part}
use rasterm.Engine.Options.{floyd_steinberg}
use rasterm.Frame.{PixelFormat, FrameView, is_valid_frame}
use rasterm.Sixel.Indexed.{Scratch}
use rasterm.Encoder.{no_palette}
use rasterm.Encoder.Indexed.Picture.{IsEncoded}
use rasterm.Encoder.Pixels.{PixelLayout, PixelChannels, pixel_layout, unpack}
use rasterm.Encoder.Pixels.Unpacked.{channels_at, channels_at-unpack}
use rasterm.Encoder.Mapping.{lookup_place, map_row, map_palette_row_avx2, map_palette_row_avx512}
use rasterm.Encoder.Mapping.Vector.{map_palette_row-map_row}
use rasterm.Encoder.Palette.{double_max, construct}
use rasterm.Encoder.Palette.Distinct.{IsTabled, construct-IsTabled}
use rasterm.Encoder.Adaptive.{
  FastAdaptiveColorMapper, distance_of, get_color_number, get_color_number_read_only,
  build_optimal_palette,
}
use rasterm.Encoder.Adaptive.Lookup.{get_color_number-read_only}
use rasterm.Encoder.Adaptive.Build.{IsBuilt, build_optimal_palette-IsBuilt}
use rasterm.Encoder.Packed.{EncoderOptions, Analysis, PackedEncoder, prepare_frame}
use rasterm.Encoder.Packed.Image.{source_of, source_pixel, map_fixed, map_adaptive, encode_frame}
use rasterm.Encoder.Packed.Picture.{
  mapped_palette, output_of, encode_frame-fixed, encode_frame-adaptive,
}
use rasterm.Encoder.Packed.Serving.{IsServing}
use rasterm.Encoder.Packed.Prepared.{IsPrepared, prepare_frame-IsPrepared}

abbrev bounded : ℕ → ℕ → ℕ
bounded a b = min (distance_of a b) double_max

bounded-le : (a b : ℕ) → bounded a b ≤ double_max
bounded-le a b = omega arith

construct-IsTabled_example :
    IsTabled 64 bounded (construct bounded (16711680 ∷ 255 ∷ 16711680 ∷ []) 64)
construct-IsTabled_example =
    construct-IsTabled bounded (16711680 ∷ 255 ∷ 16711680 ∷ []) 64 (omega arith) (omega arith)
      bounded-le

abbrev mapper : FastAdaptiveColorMapper ℕ
mapper = record {
  palette = λ color. 0;
  rgb_to_color_num = λ rgb. none;
  quantized_lookup = λ index. some 3;
  next_color_num = 4;
  max_colors = 65;
  previous_histogram = 0;
  has_histogram = true;
}

build_optimal_palette-IsBuilt_example :
    IsBuilt (16711680 ∷ 255 ∷ []) (build_optimal_palette bounded (16711680 ∷ 255 ∷ []) 7 mapper)
build_optimal_palette-IsBuilt_example =
    build_optimal_palette-IsBuilt bounded 16711680 (255 ∷ []) 7 mapper (omega arith) bounded-le

abbrev gray : ℕ → PixelChannels
gray x = record { red = x % 256; green = x % 256; blue = x % 256 }

map_palette_row-map_row_example :
    (map_palette_row_avx2 100 (λ place. place) gray (λ i. 5) (λ i. 6) 77
      ≡ map_row 100 (λ place. place % 256) gray (λ i. 6) 77)
    × (map_palette_row_avx512 100 (λ place. place) gray (λ i. 5) (λ i. 6) 77
        ≡ map_row 100 (λ place. place % 256) gray (λ i. 6) 77)
map_palette_row-map_row_example =
    map_palette_row-map_row 100 (λ place. place) (λ place. place % 256) gray (λ i. 5) (λ i. 6) 77
      (λ place. refl)

-- Two pixels of 16 bits.
abbrev frame : FrameView
frame = record {
  has_data = true;
  bytes = λ i. get_or (31 ∷ 248 ∷ 224 ∷ 7 ∷ []) i 0;
  width = pos 2;
  height = pos 1;
  stride = pos 4;
  format = PixelFormat.rgb565;
  damage = record { has_rectangles = false; rectangles = []; supplied = false };
}

frame-valid : is_valid_frame frame ≡ true
unfolding is_valid_frame
frame-valid = refl

channels_at-unpack_example : channels_at (unpack true frame) 1 0 ≡ channels_at frame 1 0
channels_at-unpack_example = channels_at-unpack true frame 1 0 (omega arith)

green_pixel : channels_at frame 1 0 ≡ record { red = 0; green = 255; blue = 0 }
unfolding channels_at
green_pixel = refl

abbrev options : Bool → EncoderOptions
options adaptive = record {
  header = record { pixel_aspect_ratio = 1; transparent_background = true };
  registers = record { persist_palette_registers = false; palette_refresh_frames = pos 0 };
  palette_levels_per_channel = pos 8;
  dither = floyd_steinberg;
  max_colors = pos 256;
  max_frame_colors = pos 64;
  use_adaptive_palette = adaptive;
  adaptive_palette_lock_frames = pos 12;
  independent_region_quantization = false;
}

abbrev scratch : Scratch
scratch = record {
  colors_in_band = [];
  color_slot = λ c. none;
  first_column = λ c. 0;
  last_column = λ c. 0;
  band_masks = λ slot x. 0;
}

abbrev encoder : PackedEncoder ℕ
encoder = record {
  output = record {
    output_limit = 100;
    limit_exceeded = false;
    output_buffer = [];
    last_color_count = 0;
    registers = no_palette;
  };
  color_mapper = mapper;
  fast_color_mapper = record {
    color_num_to_rgb = λ color. color;
    color_used = λ color. false;
    rgb_lookup = λ place. place % 7 + 1;
    rgb_lookup32 = λ place. place % 7 + 1;
    next_color_num = 8;
    used_color_count = 0;
    max_colors = 65;
  };
  palette_age = 3;
  has_adaptive_palette = true;
  adaptive_frame_prepared = true;
}

abbrev analyze : FrameView → PixelLayout → Analysis ℕ
analyze f layout = record {
  most_frequent_colors = λ n. take n (16711680 ∷ 65280 ∷ []);
  luminance_histogram = pos_part f.width;
}

abbrev never : ℕ → FastAdaptiveColorMapper ℕ → Bool
never histogram m = false

abbrev percent : ℕ → ℕ
percent value = (value * 100 + 127) / 255

abbrev ordered : ℕ → ℕ → ℕ → (ℕ → ℕ) → ℕ → ℕ
ordered levels width height pixels = pixels

encode_frame-fixed_example :
    let source = source_of (options false) ordered frame (pixel_layout PixelFormat.rgb565) in
    let mapped = map_fixed (options false) true false source encoder in
    IsEncoded
      (options false).header
      (mapped_palette (options false) percent mapped.0 mapped.1)
      2
      1
      (λ x y. lookup_place (source_pixel source x y) % 7 + 1)
      100
      (output_of (options false) percent (
        encode_frame
          (options false)
          analyze
          never
          bounded
          percent
          ordered
          true
          false
          frame
          scratch
          encoder))
encode_frame-fixed_example =
    encode_frame-fixed (options false) analyze never bounded percent ordered true false frame
      scratch encoder refl frame-valid (λ place. omega arith)

three : (c : PixelChannels) → get_color_number_read_only mapper c < 256
unfolding get_color_number_read_only
three c = omega arith

encoder-IsServing : IsServing encoder
unfolding get_color_number_read_only
encoder-IsServing = record { room = omega arith; registers = λ h c. three c; prepared = λ h. refl }

encode_frame-adaptive_example :
    let source = source_of (options true) ordered frame (pixel_layout PixelFormat.rgb565) in
    let mapped = map_adaptive (options true) analyze never bounded source encoder in
    let outcome =
      encode_frame
        (options true)
        analyze
        never
        bounded
        percent
        ordered
        true
        true
        frame
        scratch
        encoder in
    IsEncoded
      (options true).header
      (mapped_palette (options true) percent mapped.0 mapped.1)
      2
      1
      (λ x y. get_color_number_read_only mapped.1.color_mapper (source_pixel source x y))
      mapped.1.output.output_limit
      (output_of (options true) percent outcome)
    × IsServing outcome.1
encode_frame-adaptive_example =
    encode_frame-adaptive (options true) analyze never bounded percent ordered true true frame
      scratch encoder refl frame-valid encoder-IsServing

prepare_frame-IsPrepared_example :
    IsPrepared
      (options true)
      analyze
      never
      bounded
      frame
      encoder
      (prepare_frame (options true) analyze never bounded frame encoder)
    × ((source : FrameView × PixelLayout)
        → (map_adaptive
            (options true)
            analyze
            never
            bounded
            source
            (prepare_frame (options true) analyze never bounded frame encoder)).1
          ≡ prepare_frame (options true) analyze never bounded frame encoder)
prepare_frame-IsPrepared_example =
    prepare_frame-IsPrepared (options true) analyze never bounded frame encoder refl frame-valid

abbrev red_pixel : PixelChannels
red_pixel = record { red = 255; green = 0; blue = 0 }

abbrev blue_pixel : PixelChannels
blue_pixel = record { red = 0; green = 0; blue = 255 }

get_color_number-read_only_example :
    ((get_color_number true red_pixel mapper).0 ≡ get_color_number_read_only mapper red_pixel)
    × ((get_color_number true red_pixel mapper).1.palette ≡ mapper.palette)
    × (get_color_number_read_only (get_color_number true red_pixel mapper).1 blue_pixel
        ≡ get_color_number_read_only mapper blue_pixel)
get_color_number-read_only_example =
    get_color_number-read_only true red_pixel blue_pixel mapper (omega arith) (omega arith)
      (omega arith) (omega arith)
