-- ===== src/Encoder/Packed/Picture.antt =====
-- What the terminal draws for a packed frame.
use mathlib.Core.Path.{subst}
use rasterm.Base.{
  ℕ, ◌+◌, ◌-◌, ◌*◌, ◌%◌, ◌<◌, ◌≡◌, refl, sym, ap, ◌∙◌, Bool, true, false, not, List, [],
  if◌then◌else◌, arith,
}
use native.Mathlib.Nat.{mod-eq_of_lt}
use rasterm.Base.Int.{pos_part}
use rasterm.Engine.Options.{DitherMode, no_dither, ordered_bayer, floyd_steinberg, unnamed_dither}
use rasterm.Frame.{FrameView, is_valid_frame}
use rasterm.Sixel.{append_palette}
use rasterm.Sixel.Output.{SixelOutput, Emits, Emits-nil}
use rasterm.Sixel.Palette.{used_bytes, append_palette-Emits}
use rasterm.Sixel.Indexed.{Scratch}
use rasterm.Sixel.Image.Picture.{IsQuiet, IsQuiet-nil, IsQuiet-used_bytes, write_image-IsImage}
use rasterm.Encoder.{should_emit_palette}
use rasterm.Encoder.Indexed.{VideoSixelEncoder}
use rasterm.Encoder.Indexed.Picture.{IsEncoded, IsImage-same, row_place}
use rasterm.Encoder.Pixels.{PixelLayout, PixelChannels, pixel_layout}
use rasterm.Encoder.Mapping.{lookup_place}
use rasterm.Encoder.Mapping.Vector.{map_row-at, map_palette_row-map_row}
use rasterm.Encoder.Palette.{FastColorMapper}
use rasterm.Encoder.Adaptive.{FastAdaptiveColorMapper, get_color_number_read_only}
use rasterm.Encoder.Packed.{EncoderOptions, Analysis, PackedEncoder, junk, refresh}
use rasterm.Encoder.Packed.Serving.{IsServing, refresh-IsServing}
use rasterm.Encoder.Packed.Image.{
  dithered, source_of, source_pixel, fixed_row, fixed_indices, adaptive_indices, Mapped,
  map_adaptive, map_fixed, nothing_encoded, write_mapped, encode_view, encode_frame,
}

-- Whichever routine maps it, a row has the registers that the table gives its pixels.
fixed_row-at :
    (avx2 avx512 : Bool) (source : FrameView × PixelLayout) (m : FastColorMapper) (x y : ℕ)
    → x < pos_part source.0.width
    → ((place : ℕ) → m.rgb_lookup place ≡ m.rgb_lookup32 place % 256)
    → fixed_row avx2 avx512 source m y x ≡ m.rgb_lookup (lookup_place (source_pixel source x y))
unfolding fixed_row
fixed_row-at avx2 avx512 source m x y lt same =
    let width = pos_part source.0.width in
    let pixel : ℕ → PixelChannels = λ x. source_pixel source x y in
    let plain = map_row-at width m.rgb_lookup pixel junk x in
    let vectors =
      map_palette_row-map_row width m.rgb_lookup32 m.rgb_lookup pixel junk junk x same in
    ground (arith, plain, vectors)

fixed_indices-at :
    (avx2 avx512 : Bool) (source : FrameView × PixelLayout) (m : FastColorMapper) (x y : ℕ)
    → x < pos_part source.0.width
    → ((place : ℕ) → m.rgb_lookup place ≡ m.rgb_lookup32 place % 256)
    → fixed_indices avx2 avx512 source m (y * pos_part source.0.width + x)
      ≡ m.rgb_lookup (lookup_place (source_pixel source x y))
unfolding fixed_indices
fixed_indices-at avx2 avx512 source m x y lt same =
    let place = row_place (pos_part source.0.width) x y lt in
    rw (place.0, place.1) (fixed_row-at avx2 avx512 source m x y lt same)

adaptive_indices-at :
    {Histogram : Type 0} (source : FrameView × PixelLayout) (m : FastAdaptiveColorMapper Histogram)
    (x y : ℕ)
    → x < pos_part source.0.width
    → ((c : PixelChannels) → get_color_number_read_only m c < 256)
    → adaptive_indices source m (y * pos_part source.0.width + x)
      ≡ get_color_number_read_only m (source_pixel source x y)
unfolding adaptive_indices
adaptive_indices-at source m x y lt byte =
    let place = row_place (pos_part source.0.width) x y lt in
    rw (place.0, place.1) (mod-eq_of_lt (byte (source_pixel source x y)))

IsQuiet-mapped :
    (percent : ℕ → ℕ) (b : Bool) (m : Mapped)
    → IsQuiet (if b then used_bytes percent m.palette m.defined (m.color_count - 1) 1 else [])
IsQuiet-mapped percent true m = IsQuiet-used_bytes percent m.palette m.defined (m.color_count - 1) 1
IsQuiet-mapped percent false m = IsQuiet-nil

mapped-Emits :
    (percent : ℕ → ℕ) (b : Bool) (m : Mapped) (out : SixelOutput)
    → Emits
        (if b then used_bytes percent m.palette m.defined (m.color_count - 1) 1 else [])
        out
        (if b then append_palette percent m.palette m.defined m.color_count out else out)
mapped-Emits percent true m out = append_palette-Emits percent m.palette m.defined m.color_count out
mapped-Emits percent false m out = Emits-nil out

module _ {Histogram : Type 0} (o : EncoderOptions) (percent : ℕ → ℕ) where
  -- The definition of the palette, where the image has one.
  pub mapped_palette : Mapped → PackedEncoder Histogram → List ℕ
  mapped_palette m e =
      if (should_emit_palette o.registers m.signature e.output.registers).0
      then used_bytes percent m.palette m.defined (m.color_count - 1) 1
      else []

  abbrev pub output_of : List ℕ × PackedEncoder Histogram → List ℕ × VideoSixelEncoder
  output_of r = (r.0, r.1.output)

  -- An image is written with the registers of its indices.
  write_mapped-IsEncoded :
      (width height : ℕ) (b : Scratch) (m : Mapped) (e : PackedEncoder Histogram)
      (register : ℕ → ℕ → ℕ)
      → ((x y : ℕ) → x < width → y < height → m.indices (y * width + x) ≡ register x y)
      → IsEncoded o.header
          (mapped_palette m e)
          width
          height
          register
          e.output.output_limit
          (output_of (write_mapped o percent width height b (m, e)))
  unfolding write_mapped mapped_palette
  write_mapped-IsEncoded width height b m e register same =
      let defined = (should_emit_palette o.registers m.signature e.output.registers).0 in
      let (bytes, image, sent) =
        write_image-IsImage o.header width height
          (λ (out : SixelOutput).
            if defined then append_palette percent m.palette m.defined m.color_count out else out)
          _ m.indices b e.output.output_limit (IsQuiet-mapped percent defined m)
          (mapped-Emits percent defined m) in
      record {
        bytes = bytes;
        image = IsImage-same o.header _ width height _ register bytes same image;
        sent = λ fine. ground (arith, fine, (sent.sent fine).1);
        over = λ full.
            let limit = sent.over refl full in
            (ground (arith, full), limit.0, omega (arith, limit.1));
      }

source_of-size :
    (o : EncoderOptions) (ordered : ℕ → ℕ → ℕ → (ℕ → ℕ) → ℕ → ℕ) (f : FrameView)
    (layout : PixelLayout)
    → ((source_of o ordered f layout).0.width ≡ f.width)
      × ((source_of o ordered f layout).0.height ≡ f.height)
unfolding source_of dithered
source_of-size o ordered f layout = size o.dither refl
  where
    size :
        (d : DitherMode)
        → d ≡ o.dither
        → ((source_of o ordered f layout).0.width ≡ f.width)
          × ((source_of o ordered f layout).0.height ≡ f.height)
    size no_dither e = rw (sym e, source_of) (refl, refl)
    size ordered_bayer e = rw (sym e, source_of) (refl, refl)
    size unnamed_dither e = rw (sym e, source_of) (refl, refl)
    size floyd_steinberg e = rw (sym e, source_of) (refl, refl)

module _ {Histogram : Type 0} (o : EncoderOptions)
    (analyze : FrameView → PixelLayout → Analysis Histogram)
    (is_scene_cut : Histogram → FastAdaptiveColorMapper Histogram → Bool) (distance : ℕ → ℕ → ℕ)
    (percent : ℕ → ℕ) (ordered : ℕ → ℕ → ℕ → (ℕ → ℕ) → ℕ → ℕ) (avx2 avx512 : Bool) where
  mapped_by :
      Bool → FrameView × PixelLayout → PackedEncoder Histogram → Mapped × PackedEncoder Histogram
  mapped_by adaptive source e =
      if adaptive
      then map_adaptive o analyze is_scene_cut distance source e
      else map_fixed o avx2 avx512 source e

  encode_frame-mapped :
      (f : FrameView) (b : Scratch) (e : PackedEncoder Histogram) (adaptive : Bool)
      → o.use_adaptive_palette ≡ adaptive
      → is_valid_frame f ≡ true
      → encode_frame o analyze is_scene_cut distance percent ordered avx2 avx512 f b e
        ≡ write_mapped o percent
            (pos_part f.width)
            (pos_part f.height)
            b
            (mapped_by adaptive (source_of o ordered f (pixel_layout f.format)) e)
  unfolding encode_frame encode_view mapped_by
  encode_frame-mapped f b e adaptive kind valid =
      let source = source_of o ordered f (pixel_layout f.format) in
      let size = source_of-size o ordered f (pixel_layout f.format) in
      let whole = mapped_by o.use_adaptive_palette source e in
      ap
        (λ (v : Bool).
          if v
          then write_mapped o percent (pos_part source.0.width) (pos_part source.0.height) b whole
          else nothing_encoded e)
        valid
      ∙ ap (λ w. write_mapped o percent (pos_part w) (pos_part source.0.height) b whole) size.0
      ∙ ap (λ h. write_mapped o percent (pos_part f.width) (pos_part h) b whole) size.1
      ∙ ap
          (λ a.
            write_mapped o percent (pos_part f.width) (pos_part f.height) b (mapped_by a source e))
          kind

  -- Without an adaptive palette a valid frame is encoded as an image of its size, in which the decoder
  -- draws each pixel, as it is after the dithering that the options ask for, with the register that the
  -- lookup table gives the cell of its colour. That holds whichever of the vector routines or the plain
  -- loop maps the rows, where the two tables hold the same registers. The palette stands before it
  -- where the registers may not hold it. The call returns the image whole, or nothing, and then only
  -- because the image is longer than the limit.
  pub encode_frame-fixed :
      (f : FrameView) (b : Scratch) (e : PackedEncoder Histogram)
      → o.use_adaptive_palette ≡ false
      → is_valid_frame f ≡ true
      → ((place : ℕ)
          → e.fast_color_mapper.rgb_lookup place ≡ e.fast_color_mapper.rgb_lookup32 place % 256)
      → let source = source_of o ordered f (pixel_layout f.format) in
        let mapped = map_fixed o avx2 avx512 source e in
        IsEncoded o.header
          (mapped_palette o percent mapped.0 mapped.1)
          (pos_part f.width)
          (pos_part f.height)
          (λ x y. e.fast_color_mapper.rgb_lookup (lookup_place (source_pixel source x y)))
          e.output.output_limit
          (output_of o percent
            (encode_frame o analyze is_scene_cut distance percent ordered avx2 avx512 f b e))
  unfolding map_fixed mapped_by
  encode_frame-fixed f b e fixed valid same =
      let source = source_of o ordered f (pixel_layout f.format) in
      let size = source_of-size o ordered f (pixel_layout f.format) in
      let mapped = map_fixed o avx2 avx512 source e in
      subst
        (λ r.
          IsEncoded o.header (mapped_palette o percent mapped.0 mapped.1) (pos_part f.width)
            (pos_part f.height)
            (λ x y. e.fast_color_mapper.rgb_lookup (lookup_place (source_pixel source x y)))
            e.output.output_limit (output_of o percent r))
        (sym (encode_frame-mapped f b e false fixed valid))
        (write_mapped-IsEncoded o percent (pos_part f.width) (pos_part f.height) b mapped.0 mapped.1
          _
          (λ x y lt below.
            ap (λ w. fixed_indices avx2 avx512 source e.fast_color_mapper (y * pos_part w + x))
              (sym size.0)
            ∙ fixed_indices-at avx2 avx512 source e.fast_color_mapper x y
                (omega (arith, ap pos_part size.0)) same))

  -- The encoder whose mapper is used: the one that was prepared, or refreshed for this image.
  map_adaptive-IsServing :
      (source : FrameView × PixelLayout) (e : PackedEncoder Histogram)
      → IsServing e
      → IsServing (map_adaptive o analyze is_scene_cut distance source e).1
        × ((map_adaptive o analyze is_scene_cut distance source e).1.has_adaptive_palette ≡ true)
  unfolding map_adaptive
  map_adaptive-IsServing source e v = go e.adaptive_frame_prepared refl
    where
      used : Bool → PackedEncoder Histogram
      used prepared =
          if not prepared then refresh o analyze is_scene_cut distance source.0 source.1 e else e

      go :
          (prepared : Bool)
          → prepared ≡ e.adaptive_frame_prepared
          → IsServing (used prepared) × ((used prepared).has_adaptive_palette ≡ true)
      go true h = (v, v.prepared (sym h))
      go false h = refresh-IsServing o analyze is_scene_cut distance source.0 source.1 e v

  write_mapped-IsServing :
      (width height : ℕ) (b : Scratch) (m : Mapped) (e : PackedEncoder Histogram)
      → IsServing e
      → IsServing (write_mapped o percent width height b (m, e)).1
  unfolding write_mapped
  write_mapped-IsServing width height b m e v = record {
    room = v.room;
    registers = v.registers;
    prepared = v.prepared;
  }

  -- With an adaptive palette a valid frame is encoded as an image of its size, in which the decoder
  -- draws each pixel, as it is after the dithering that the options ask for, with the register that the
  -- mapper gives its colour: the mapper that was prepared or, where none was, the one that this call
  -- leaves. The call returns the image whole, or nothing, and then only because the image is longer than
  -- the limit. Before the call the mapper has room for 256 colours at most, a palette that was built
  -- gives every colour a byte, and none is prepared that was not built; that holds after the call too.
  pub encode_frame-adaptive :
      (f : FrameView) (b : Scratch) (e : PackedEncoder Histogram)
      → o.use_adaptive_palette ≡ true
      → is_valid_frame f ≡ true
      → IsServing e
      → let source = source_of o ordered f (pixel_layout f.format) in
        let mapped = map_adaptive o analyze is_scene_cut distance source e in
        let outcome =
          encode_frame o analyze is_scene_cut distance percent ordered avx2 avx512 f b e in
        IsEncoded o.header
          (mapped_palette o percent mapped.0 mapped.1)
          (pos_part f.width)
          (pos_part f.height)
          (λ x y. get_color_number_read_only mapped.1.color_mapper (source_pixel source x y))
          mapped.1.output.output_limit
          (output_of o percent outcome)
        × IsServing outcome.1
  unfolding map_adaptive mapped_by
  encode_frame-adaptive f b e adaptive valid v =
      let source = source_of o ordered f (pixel_layout f.format) in
      let size = source_of-size o ordered f (pixel_layout f.format) in
      let mapped = map_adaptive o analyze is_scene_cut distance source e in
      let (serving, built) = map_adaptive-IsServing source e v in
      subst
        (λ r.
          IsEncoded o.header (mapped_palette o percent mapped.0 mapped.1) (pos_part f.width)
            (pos_part f.height)
            (λ x y. get_color_number_read_only mapped.1.color_mapper (source_pixel source x y))
            mapped.1.output.output_limit (output_of o percent r)
          × IsServing r.1)
        (sym (encode_frame-mapped f b e true adaptive valid))
        (
          write_mapped-IsEncoded o percent (pos_part f.width) (pos_part f.height) b mapped.0
              mapped.1 _
              (λ x y lt below.
                ap (λ w. adaptive_indices source mapped.1.color_mapper (y * pos_part w + x))
                  (sym size.0)
                ∙ adaptive_indices-at source mapped.1.color_mapper x y
                    (omega (arith, ap pos_part size.0)) (serving.registers built)),
          write_mapped-IsServing (pos_part f.width) (pos_part f.height) b mapped.0 mapped.1 serving,
        )
