-- ===== src/Encoder/Pixels/Unpacked.antt =====
-- Unpacking a frame of 16 bits changes no pixel that the encoder reads.
use rasterm.Base.{
  ℕ, ◌+◌, ◌*◌, ◌/◌, ◌%◌, ◌<◌, ◌≡◌, refl, sym, ap, ◌∙◌, Bool, true, false, ◌==◌, Bool-cases, inl,
  inr, arith,
}
use native.Mathlib.Nat.{mul-add-div_right, mul-add-mod_self_right, div-eq_of_lt, mod-eq_of_lt}
use rasterm.Base.Int.{pos_part}
use rasterm.Frame.{PixelFormat, FrameView, bytes_per_pixel}
use rasterm.Encoder.Pixels.{
  rgb, pixel_stride, pixel_layout, PixelChannels, packed_pixel, read_pixel, pixel_at, unpack_pixel,
  converted_frame, unpack,
}

-- The place of a channel in a buffer of three bytes to the pixel.
channel_place :
    (width x y i : ℕ)
    → x < width
    → i < 3
    → ((y * (width * 3) + x * 3 + i) / (width * 3) ≡ y)
      × ((y * (width * 3) + x * 3 + i) % (width * 3) ≡ x * 3 + i)
channel_place width x y i lt few =
    let inside : x * 3 + i < width * 3 = omega arith in
    let wide : 0 < width * 3 = omega arith in
    let whole : y * (width * 3) + x * 3 + i ≡ y * (width * 3) + (x * 3 + i) = omega arith in
    rw whole (
      mul-add-div_right wide y (x * 3 + i) ∙ omega (arith, div-eq_of_lt inside),
      mul-add-mod_self_right y (width * 3) (x * 3 + i) ∙ mod-eq_of_lt inside,
    )

converted_frame-at :
    (f : FrameView) (x y i : ℕ)
    → x < pos_part f.width
    → i < 3
    → converted_frame f (y * (pos_part f.width * 3) + x * 3 + i)
      ≡ unpack_pixel f.format
          (f.bytes (y * pos_part f.stride + x * 2)
            + f.bytes (y * pos_part f.stride + x * 2 + 1) * 256)
          i
unfolding converted_frame
converted_frame-at f x y i lt few =
    let place = channel_place (pos_part f.width) x y i lt few in
    let column : (x * 3 + i) / 3 ≡ x = omega arith in
    let channel : (x * 3 + i) % 3 ≡ i = omega arith in rw (place.0, place.1, column, channel)

same_channels : (c d : PixelChannels) → c.red ≡ d.red → c.green ≡ d.green → c.blue ≡ d.blue → c ≡ d
same_channels c d r g b = λ i. record { red = r i; green = g i; blue = b i }

-- The two readings of a pixel of 16 bits.
read_unpacked :
    (format : PixelFormat) (bytes pixel : ℕ → ℕ)
    → bytes_per_pixel format ≡ 2
    → ((i : ℕ) → i < 3 → bytes i ≡ unpack_pixel format (packed_pixel pixel) i)
    → read_pixel bytes rgb ≡ read_pixel pixel (pixel_layout format)
unfolding bytes_per_pixel unpack_pixel read_pixel pixel_layout
read_unpacked PixelFormat.rgb565 bytes pixel two h =
    same_channels _ _ (h 0 (omega arith)) (h 1 (omega arith)) (h 2 (omega arith))
read_unpacked PixelFormat.xrgb1555 bytes pixel two h =
    same_channels _ _ (h 0 (omega arith)) (h 1 (omega arith)) (h 2 (omega arith))
read_unpacked PixelFormat.rgba4444 bytes pixel two h =
    same_channels _ _ (h 0 (omega arith)) (h 1 (omega arith)) (h 2 (omega arith))
read_unpacked PixelFormat.rgb24 bytes pixel two h = absurd (omega (arith, two))
read_unpacked PixelFormat.bgr24 bytes pixel two h = absurd (omega (arith, two))
read_unpacked PixelFormat.rgba32 bytes pixel two h = absurd (omega (arith, two))
read_unpacked PixelFormat.bgra32 bytes pixel two h = absurd (omega (arith, two))
read_unpacked PixelFormat.unnamed bytes pixel two h = absurd (omega (arith, two))

stride_of_two :
    (format : PixelFormat) → bytes_per_pixel format ≡ 2 → pixel_stride (pixel_layout format) ≡ 2
unfolding bytes_per_pixel pixel_stride pixel_layout
stride_of_two PixelFormat.rgb565 two = refl
stride_of_two PixelFormat.xrgb1555 two = refl
stride_of_two PixelFormat.rgba4444 two = refl
stride_of_two PixelFormat.rgb24 two = absurd (omega (arith, two))
stride_of_two PixelFormat.bgr24 two = absurd (omega (arith, two))
stride_of_two PixelFormat.rgba32 two = absurd (omega (arith, two))
stride_of_two PixelFormat.bgra32 two = absurd (omega (arith, two))
stride_of_two PixelFormat.unnamed two = absurd (omega (arith, two))

-- The channels that the encoder reads at a column and a row of a frame.
unfoldable pub channels_at : FrameView → ℕ → ℕ → PixelChannels
unfolding read_pixel pixel_stride pixel_layout
channels_at f x y = read_pixel (pixel_at f (pixel_layout f.format) x y) (pixel_layout f.format)

-- The encoder reads the same red, green and blue at every pixel of the unpacked frame, which the engine
-- makes of one with 16 bits to the pixel before it converts the colours, as at that pixel of the
-- application's frame. A frame of another format, or one that needs no conversion, is left as it is.
pub channels_at-unpack :
    (needs_conversion : Bool) (f : FrameView) (x y : ℕ)
    → x < pos_part f.width
    → channels_at (unpack needs_conversion f) x y ≡ channels_at f x y
unfolding channels_at unpack
channels_at-unpack false f x y lt = elim (Bool-cases (bytes_per_pixel f.format == 2)) [
  | inl two ↦ rw two
  | inr other ↦ rw other
]
channels_at-unpack true f x y lt = elim (Bool-cases (bytes_per_pixel f.format == 2)) [
  | inl two ↦
      let size : bytes_per_pixel f.format ≡ 2 = ground arith in
      let stride = stride_of_two f.format size in
      let first = y * pos_part f.stride + x * 2 in
      let start : first ≡ first + 0 = omega arith in
      rw two (
        read_unpacked f.format (λ i. converted_frame f (y * (pos_part f.width * 3) + x * 3 + i))
          (λ i. f.bytes (first + i)) size
          (λ i few.
            converted_frame-at f x y i lt few
            ∙ ap (λ k. unpack_pixel f.format (f.bytes k + f.bytes (first + 1) * 256) i) start)
        ∙ ap
            (λ k.
              read_pixel (λ i. f.bytes (y * pos_part f.stride + x * k + i)) (pixel_layout f.format))
            (sym stride))
  | inr other ↦ rw other
]
