-- ===== src/Encoder/Indexed/Picture.antt =====
-- What the terminal draws for an indexed frame, or for a region of one.
use rasterm.Base.{
  ℕ, ◌+◌, ◌*◌, ◌/◌, ◌%◌, ◌≤◌, ◌<◌, ◌≡◌, refl, ap, ◌∙◌, inl, inr, Bool, true, false, not, ◌&&◌, ◌||◌,
  ltb, Bool-cases, List, [], map, ◌==◌, if◌then◌else◌, length, arith,
}
use native.Mathlib.Nat.{
  add-mul, mul-add-div_right, mul-add-mod_self_right, div-eq_of_lt, mod-eq_of_lt,
}
use rasterm.Base.Int.{pos_part, is_positive, is_negative}
use rasterm.Frame.{
  DamageRect, IndexedFrameView, is_valid_indexed, is_valid_palette, has_valid_indices,
}
use rasterm.Frame.Bounds.{is_valid_indexed-IsBounded}
use rasterm.Sixel.{HeaderOptions, RgbColor, emit_palette_from}
use rasterm.Sixel.Output.{SixelOutput, Emits, Emits-nil}
use rasterm.Sixel.Palette.{palette_bytes, emit_palette_from-Emits}
use rasterm.Sixel.Indexed.{Scratch}
use rasterm.Sixel.Image.Picture.{
  IsImage, IsQuiet, IsQuiet-nil, IsQuiet-palette_bytes, write_image-IsImage,
}
use rasterm.Encoder.{SixelOptions, should_emit_palette}
use rasterm.Encoder.Indexed.{
  VideoSixelEncoder, rgb_color, palette_hash, register_offset, palette_indices, encode_indexed_view,
  encode_indexed_frame, crop_indexed, region_of, sum_exceeds, is_outside, encode_indexed_region,
}

-- Nothing of the image depends on what the function says to the right of it.
pub IsImage-same :
    (options : HeaderOptions) (palette : List ℕ) (width height : ℕ) (p q : ℕ → ℕ → ℕ)
    (bytes : List ℕ)
    → ((x y : ℕ) → x < width → y < height → p x y ≡ q x y)
    → IsImage options palette width height p bytes
    → IsImage options palette width height q bytes
IsImage-same options palette width height p q bytes same i = record {
  frame = i.frame;
  framed = i.framed;
  pixels = λ s x y ready edge top. i.pixels s x y ready edge top ∙ ground (arith, same x y);
}

-- What a call that makes an image gives: the image whole, or nothing because it does not fit.
pub record IsEncoded (options : HeaderOptions) (palette : List ℕ) (width height : ℕ)
    (register : ℕ → ℕ → ℕ) (limit : ℕ) (r : List ℕ × VideoSixelEncoder) : Type 0 where
  pub bytes : List ℕ
  pub image : IsImage options palette width height register bytes
  pub sent : r.1.limit_exceeded ≡ false → r.0 ≡ bytes
  pub over : r.1.limit_exceeded ≡ true → (r.0 ≡ []) × (0 < limit) × (limit < length bytes)

-- The definition of the palette, where the image has one.
pub palette_text : SixelOptions → IndexedFrameView → VideoSixelEncoder → List ℕ
palette_text options f e =
    let offset = register_offset f.palette in
    let colors = map rgb_color f.palette.colors in
    if (should_emit_palette options (palette_hash colors offset) e.registers).0
    then palette_bytes offset colors
    else []

IsQuiet-palette :
    (b : Bool) (offset : ℕ) (colors : List RgbColor)
    → IsQuiet (if b then palette_bytes offset colors else [])
IsQuiet-palette true offset colors = IsQuiet-palette_bytes offset colors
IsQuiet-palette false offset colors = IsQuiet-nil

palette-Emits :
    (b : Bool) (offset : ℕ) (colors : List RgbColor) (o : SixelOutput)
    → Emits
        (if b then palette_bytes offset colors else [])
        o
        (if b then emit_palette_from offset colors o else o)
palette-Emits true offset colors o = emit_palette_from-Emits offset colors o
palette-Emits false offset colors o = Emits-nil o

pub row_place :
    (width x y : ℕ) → x < width → ((y * width + x) / width ≡ y) × ((y * width + x) % width ≡ x)
row_place width x y lt = (
  mul-add-div_right (omega arith) y x ∙ omega (arith, div-eq_of_lt lt),
  mul-add-mod_self_right y width x ∙ mod-eq_of_lt lt,
)

palette_indices-at :
    (offset : ℕ) (f : IndexedFrameView) (x y : ℕ)
    → x < pos_part f.width
    → palette_indices offset f (y * pos_part f.width + x)
      ≡ (f.indices (y * pos_part f.stride + x) + offset) % 256
unfolding palette_indices
palette_indices-at offset f x y lt =
    let place = row_place (pos_part f.width) x y lt in rw (place.0, place.1)

-- `encodeView` draws each pixel of the view with the register of its index.
encode_indexed_view-IsEncoded :
    (header : HeaderOptions) (options : SixelOptions) (f : IndexedFrameView) (b : Scratch)
    (e : VideoSixelEncoder)
    → IsEncoded header
        (palette_text options f e)
        (pos_part f.width)
        (pos_part f.height)
        (λ x y. (f.indices (y * pos_part f.stride + x) + register_offset f.palette) % 256)
        e.output_limit
        (encode_indexed_view header options f b e)
unfolding encode_indexed_view palette_text
encode_indexed_view-IsEncoded header options f b e =
    let w = pos_part f.width in
    let offset = register_offset f.palette in
    let colors = map rgb_color f.palette.colors in
    let defined = (should_emit_palette options (palette_hash colors offset) e.registers).0 in
    let (bytes, image, sent) =
      write_image-IsImage header w (pos_part f.height)
        (λ (o : SixelOutput). if defined then emit_palette_from offset colors o else o) _
        (palette_indices offset f) b e.output_limit (IsQuiet-palette defined offset colors)
        (palette-Emits defined offset colors) in
    record {
      bytes = bytes;
      image =
          IsImage-same header _ w (pos_part f.height) _ _ bytes
            (λ x y lt below. palette_indices-at offset f x y lt) image;
      sent = λ fine. ground (arith, fine, (sent.sent fine).1);
      over = λ full. let o = sent.over refl full in (ground (arith, full), o.0, omega (arith, o.1));
    }

IsEncoded-same :
    (header : HeaderOptions) (palette : List ℕ) (width height : ℕ) (p q : ℕ → ℕ → ℕ) (limit : ℕ)
    (r : List ℕ × VideoSixelEncoder)
    → ((x y : ℕ) → x < width → y < height → p x y ≡ q x y)
    → IsEncoded header palette width height p limit r
    → IsEncoded header palette width height q limit r
IsEncoded-same header palette width height p q limit r same i = record {
  bytes = i.bytes;
  image = IsImage-same header palette width height p q i.bytes same i.image;
  sent = i.sent;
  over = i.over;
}

-- The register of an index, which does not wrap around.
register_of :
    (size i : ℕ)
    → i < size
    → size ≤ 256
    → (i + (if size == 256 then 0 else 1)) % 256 ≡ i + (if size == 256 then 0 else 1)
register_of size i lt le = mod-eq_of_lt (ground arith)

is_valid_from_indices :
    (f : IndexedFrameView)
    → has_valid_indices f ≡ true
    → (is_valid_indexed f ≡ true) × (length f.palette.colors ≤ 256)
unfolding has_valid_indices is_valid_indexed is_valid_palette
is_valid_from_indices f h = (ground arith, ground arith)

-- An indexed frame whose indices are valid is encoded as an image of its size, with its palette before
-- it where the registers may not hold it, in which the decoder draws each pixel with the register of
-- its index: the index itself for a palette of 256 colours and the next register for a smaller one.
-- The call returns that image whole, or nothing, and then only because the image is longer than the
-- limit.
pub encode_indexed_frame-IsEncoded :
    (header : HeaderOptions) (options : SixelOptions) (f : IndexedFrameView) (b : Scratch)
    (e : VideoSixelEncoder)
    → has_valid_indices f ≡ true
    → IsEncoded header
        (palette_text options f e)
        (pos_part f.width)
        (pos_part f.height)
        (λ x y. f.indices (y * pos_part f.stride + x) + register_offset f.palette)
        e.output_limit
        (encode_indexed_frame header options f b e)
unfolding encode_indexed_frame register_offset
encode_indexed_frame-IsEncoded header options f b e h =
    let valid = is_valid_from_indices f h in
    rw (valid.0, is_valid_indexed)
      (IsEncoded-same header _ _ _ _ _ e.output_limit _
        (λ x y lt below.
          register_of (length f.palette.colors) _
            ((is_valid_indexed-IsBounded f valid.0).1 h y x below lt) valid.1)
        (encode_indexed_view-IsEncoded header options f b e))

crop_place :
    (stride x0 y0 x y : ℕ) → y0 * stride + x0 + (y * stride + x) ≡ (y0 + y) * stride + (x0 + x)
crop_place stride x0 y0 x y = omega (arith, add-mul y0 y stride)

-- Whether a region has pixels, and all of them in a frame of the size given.
pub record IsInside (r : DamageRect) (frame_width frame_height : ℕ) : Type 0 where
  pub width : is_positive r.width ≡ true
  pub height : is_positive r.height ≡ true
  pub x : is_negative r.x ≡ false
  pub y : is_negative r.y ≡ false
  pub right : pos_part r.x + pos_part r.width ≤ frame_width
  pub bottom : pos_part r.y + pos_part r.height ≤ frame_height

-- The right and the bottom edge of the region are numbers of an `int`.
abbrev pub EdgesFit : DamageRect → Type 0
EdgesFit r =
    (pos_part r.x + pos_part r.width < 2147483648) × (pos_part r.y + pos_part r.height < 2147483648)

sum_exceeds_lem : (a b limit : ℕ) → a + b < 2147483648 → sum_exceeds a b limit ≡ ltb limit (a + b)
sum_exceeds_lem a b limit fits = ground (arith, fits)

is_outside-false :
    (r : DamageRect) (w h : ℕ) → EdgesFit r → is_outside r w h ≡ false → IsInside r w h
is_outside-false r w h fits e =
    let right = sum_exceeds_lem (pos_part r.x) (pos_part r.width) w fits.0 in
    let bottom = sum_exceeds_lem (pos_part r.y) (pos_part r.height) h fits.1 in
    let (sized, placed, ends, stops) =
      all_false (is_positive r.width) (is_positive r.height) (is_negative r.x) (is_negative r.y)
        (sum_exceeds (pos_part r.x) (pos_part r.width) w)
        (sum_exceeds (pos_part r.y) (pos_part r.height) h) e in
    record {
      width = sized.0;
      height = sized.1;
      x = placed.0;
      y = placed.1;
      right = ground (arith, right, ends);
      bottom = ground (arith, bottom, stops);
    }
  where
    all_false :
        (a b c d e f : Bool)
        → (not (a && b) || ((c || d) || (e || f))) ≡ false
        → ((a ≡ true) × (b ≡ true)) × ((c ≡ false) × (d ≡ false)) × (e ≡ false) × (f ≡ false)
    all_false true true false false false false e = ((refl, refl), (refl, refl), refl, refl)
    all_false a b c d e f h = ground (arith, h)

IsInside-is_outside :
    (r : DamageRect) (w h : ℕ) → EdgesFit r → IsInside r w h → is_outside r w h ≡ false
IsInside-is_outside r w h fits i =
    let right = sum_exceeds_lem (pos_part r.x) (pos_part r.width) w fits.0 in
    let bottom = sum_exceeds_lem (pos_part r.y) (pos_part r.height) h fits.1 in
    ground (arith, right, bottom, i.width, i.height, i.x, i.y, i.right, i.bottom)

-- A region that has pixels, all of them in the frame, of an indexed frame whose indices are valid is
-- encoded as an image of the region's size, in which the decoder draws each pixel with the register of
-- the index at that place of the frame, behind the region's corner. The call returns that image whole,
-- or nothing if it is longer than the limit. Any other region gives nothing and changes nothing. The
-- region's right and bottom edges are taken to be below 2^31, where the `int` sums do not overflow.
pub encode_indexed_region-IsEncoded :
    (header : HeaderOptions) (options : SixelOptions) (f : IndexedFrameView) (r : DamageRect)
    (b : Scratch) (e : VideoSixelEncoder)
    → has_valid_indices f ≡ true
    → EdgesFit r
    → (IsInside r (pos_part f.width) (pos_part f.height)
        → IsEncoded header
            (palette_text options f e)
            (pos_part r.width)
            (pos_part r.height)
            (λ x y.
              f.indices ((pos_part r.y + y) * pos_part f.stride + (pos_part r.x + x))
              + register_offset f.palette)
            e.output_limit
            (encode_indexed_region header options f r b e))
      × ((IsInside r (pos_part f.width) (pos_part f.height) → ⊥)
          → encode_indexed_region header options f r b e ≡ ([], e))
unfolding encode_indexed_region register_offset crop_indexed palette_text
encode_indexed_region-IsEncoded header options f r b e h fits =
    let valid = is_valid_from_indices f h in
    (
      λ i.
          rw (valid.0, IsInside-is_outside r (pos_part f.width) (pos_part f.height) fits i)
            (IsEncoded-same header _ (pos_part r.width) (pos_part r.height) _ _ e.output_limit _
              (λ x y lt below.
                ap (λ i. (f.indices i + (if length f.palette.colors == 256 then 0 else 1)) % 256)
                  (crop_place (pos_part f.stride) (pos_part r.x) (pos_part r.y) x y)
                ∙ register_of (length f.palette.colors) _
                    ((is_valid_indexed-IsBounded f valid.0).1 h (pos_part r.y + y)
                      (pos_part r.x + x) (omega (arith, i.bottom)) (omega (arith, i.right)))
                    valid.1)
              (encode_indexed_view-IsEncoded header options (crop_indexed (region_of r) f) b e)),
      λ left. elim (Bool-cases (is_outside r (pos_part f.width) (pos_part f.height))) [
        | inl outside ↦ rw (valid.0, outside)
        | inr inside ↦ absurd (left (is_outside-false r _ _ fits inside))
      ],
    )
