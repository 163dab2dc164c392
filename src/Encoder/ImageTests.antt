-- ===== src/Encoder/ImageTests.antt =====
-- Small frames through the encoder.
use rasterm.Base.{◌+◌, ◌*◌, ◌≡◌, refl, true, false, [], ◌∷◌, none, get_or, arith}
use rasterm.Base.Int.{pos}
use rasterm.Frame.{DamageRect, IndexedFrameView, has_valid_indices}
use rasterm.Sixel.{HeaderOptions}
use rasterm.Sixel.Indexed.{Scratch}
use rasterm.Encoder.{SixelOptions, no_palette}
use rasterm.Encoder.Indexed.{
  VideoSixelEncoder, register_offset, encode_indexed_frame, encode_indexed_region,
}
use rasterm.Encoder.Indexed.Picture.{
  IsEncoded, IsInside, palette_text, encode_indexed_frame-IsEncoded,
  encode_indexed_region-IsEncoded,
}

abbrev header : HeaderOptions
header = record { pixel_aspect_ratio = 1; transparent_background = false }

abbrev options : SixelOptions
options = record { persist_palette_registers = true; palette_refresh_frames = pos 120 }

abbrev scratch : Scratch
scratch = record {
  colors_in_band = [];
  color_slot = λ c. none;
  first_column = λ c. 0;
  last_column = λ c. 0;
  band_masks = λ slot x. 0;
}

abbrev encoder : VideoSixelEncoder
encoder = record {
  output_limit = 4096;
  limit_exceeded = false;
  output_buffer = [];
  last_color_count = 0;
  registers = no_palette;
}

-- Two colours, two rows of two pixels, three bytes apart.
abbrev indexed : IndexedFrameView
indexed = record {
  has_indices = true;
  indices = λ i. get_or (0 ∷ 1 ∷ 9 ∷ 1 ∷ 1 ∷ []) i 0;
  width = pos 2;
  height = pos 2;
  stride = pos 3;
  palette = record { has_colors = true; colors = 0 ∷ 16711680 ∷ [] };
  damage = record { has_rectangles = false; rectangles = []; supplied = false };
}

indexed-valid : has_valid_indices indexed ≡ true
unfolding has_valid_indices
indexed-valid = refl

encode_indexed_frame-IsEncoded_example :
    IsEncoded header
      (palette_text options indexed encoder)
      2
      2
      (λ x y. indexed.indices (y * 3 + x) + register_offset indexed.palette)
      4096
      (encode_indexed_frame header options indexed scratch encoder)
encode_indexed_frame-IsEncoded_example =
    encode_indexed_frame-IsEncoded header options indexed scratch encoder indexed-valid

abbrev corner : DamageRect
corner = record { x = pos 1; y = pos 0; width = pos 1; height = pos 2 }

encode_indexed_region-IsEncoded_example :
    (IsInside corner 2 2
      → IsEncoded header
          (palette_text options indexed encoder)
          1
          2
          (λ x y. indexed.indices ((0 + y) * 3 + (1 + x)) + register_offset indexed.palette)
          4096
          (encode_indexed_region header options indexed corner scratch encoder))
    × ((IsInside corner 2 2 → ⊥)
        → encode_indexed_region header options indexed corner scratch encoder ≡ ([], encoder))
encode_indexed_region-IsEncoded_example =
    encode_indexed_region-IsEncoded header options indexed corner scratch encoder indexed-valid
      (omega arith, omega arith)
