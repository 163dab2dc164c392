-- ===== src/Encoder/Pixels.antt =====
-- The channels of a pixel: `readPixel` of src/encoder/SixelEncoder.hpp, and the unpacking of frames of 16
-- bits in src/engine/Engine.cpp. What data points to is a function of the place; a pixel of 16 bits has
-- its low byte first, and a mask `& 0x1F` is the remainder by 32.
pub mod Unpacked
use rasterm.Base.{ℕ, ◌+◌, ◌*◌, ◌/◌, ◌%◌, Bool, true, false, ◌||◌, ◌==◌, if◌then◌else◌}
use rasterm.Base.Int.{ℤ, pos, pos_part}
use Prim.Native.Nat.{bit_or}
use rasterm.Frame.{PixelFormat, FrameView, bytes_per_pixel}

pub data PixelLayout : Type 0 where
  rgb bgr rgba bgra rgb565 xrgb1555 rgba4444 : PixelLayout

unfoldable pub pixel_stride : PixelLayout → ℕ
pixel_stride rgba = 4
pixel_stride bgra = 4
pixel_stride rgb = 3
pixel_stride bgr = 3
pixel_stride _ = 2

unfoldable pub pixel_layout : PixelFormat → PixelLayout
pixel_layout PixelFormat.rgb24 = rgb
pixel_layout PixelFormat.bgr24 = bgr
pixel_layout PixelFormat.rgba32 = rgba
pixel_layout PixelFormat.bgra32 = bgra
pixel_layout PixelFormat.rgb565 = rgb565
pixel_layout PixelFormat.xrgb1555 = xrgb1555
pixel_layout PixelFormat.rgba4444 = rgba4444
pixel_layout PixelFormat.unnamed = rgb

pub record PixelChannels : Type 0 where
  pub red : ℕ
  pub green : ℕ
  pub blue : ℕ

-- The expansions, cut to a byte.
abbrev pub expand4 : ℕ → ℕ
expand4 value = bit_or (value * 16) value % 256

abbrev pub expand5 : ℕ → ℕ
expand5 value = bit_or (value * 8) (value / 4) % 256

abbrev pub expand6 : ℕ → ℕ
expand6 value = bit_or (value * 4) (value / 16) % 256

-- The two bytes of a pixel.
abbrev pub packed_pixel : (ℕ → ℕ) → ℕ
packed_pixel pixel = pixel 0 + pixel 1 * 256

unfoldable pub read_pixel : (ℕ → ℕ) → PixelLayout → PixelChannels
read_pixel pixel rgb = record { red = pixel 0; green = pixel 1; blue = pixel 2 }
read_pixel pixel rgba = record { red = pixel 0; green = pixel 1; blue = pixel 2 }
read_pixel pixel bgr = record { red = pixel 2; green = pixel 1; blue = pixel 0 }
read_pixel pixel bgra = record { red = pixel 2; green = pixel 1; blue = pixel 0 }
read_pixel pixel rgb565 = record {
  red = expand5 (packed_pixel pixel / 2048 % 32);
  green = expand6 (packed_pixel pixel / 32 % 64);
  blue = expand5 (packed_pixel pixel % 32);
}
read_pixel pixel xrgb1555 = record {
  red = expand5 (packed_pixel pixel / 1024 % 32);
  green = expand5 (packed_pixel pixel / 32 % 32);
  blue = expand5 (packed_pixel pixel % 32);
}
read_pixel pixel rgba4444 = record {
  red = expand4 (packed_pixel pixel / 4096 % 16);
  green = expand4 (packed_pixel pixel / 256 % 16);
  blue = expand4 (packed_pixel pixel / 16 % 16);
}

-- The pixel of a frame at a column and a row, as the rows of the encoder read it.
abbrev pub pixel_at : FrameView → PixelLayout → ℕ → ℕ → ℕ → ℕ
pixel_at f layout x y i = f.bytes (y * pos_part f.stride + x * pixel_stride layout + i)

-- The three bytes that the engine makes of a pixel of 16 bits.
unfoldable pub unpack_pixel : PixelFormat → ℕ → ℕ → ℕ
unpack_pixel PixelFormat.rgb565 pixel channel =
    if channel == 0
    then expand5 (pixel / 2048 % 32)
    else if channel == 1
    then expand6 (pixel / 32 % 64)
    else expand5 (pixel % 32)
unpack_pixel PixelFormat.xrgb1555 pixel channel =
    if channel == 0
    then expand5 (pixel / 1024 % 32)
    else if channel == 1
    then expand5 (pixel / 32 % 32)
    else expand5 (pixel % 32)
unpack_pixel _ pixel channel =
    if channel == 0
    then expand4 (pixel / 4096 % 16)
    else if channel == 1
    then expand4 (pixel / 256 % 16)
    else expand4 (pixel / 16 % 16)

-- `convertedFrame`, which the two loops fill: the byte at `place`.
unfoldable pub converted_frame : FrameView → ℕ → ℕ
unfolding unpack_pixel
converted_frame f place =
    let output_stride = pos_part f.width * 3 in
    let row = place / output_stride in
    let column = place % output_stride / 3 in
    let source = row * pos_part f.stride + column * 2 in
    unpack_pixel f.format (f.bytes source + f.bytes (source + 1) * 256) (place % output_stride % 3)

-- The frame that the engine hands on: unpacked if its pixels have 16 bits and need another colour
-- space, else itself.
unfoldable pub unpack : Bool → FrameView → FrameView
unfolding converted_frame bytes_per_pixel
unpack needs_conversion f =
    if bytes_per_pixel f.format == 2
    then (if needs_conversion
        then record f {
          has_data = true;
          bytes = converted_frame f;
          stride = pos (pos_part f.width * 3);
          format = PixelFormat.rgb24;
        }
        else f)
    else f
