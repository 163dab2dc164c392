-- ===== src/Frame.antt =====
-- include/rasterm/PixelFormat.hpp, Damage.hpp, Frame.hpp, IndexedFrame.hpp and Buffer.hpp: the views of
-- a frame that an application hands over, and their validation. Sizes are `int`, a stride is
-- `std::ptrdiff_t`: both may be negative. A pointer is whether it is null, with what it points to.
pub mod Bounds
mod Tests
use rasterm.Base.{
  ℕ, zero, suc, ◌+◌, ◌-◌, ◌*◌, ◌/◌, ◌^◌, Bool, true, false, not, ◌||◌, ◌&&◌, List, [], ◌∷◌, leb,
  ltb, ◌==◌, if◌then◌else◌, length,
}
use rasterm.Base.Int.{ℤ, pos_part, is_positive, is_negative}

-- `unnamed` is any other value that the enumeration's integer can have.
pub data PixelFormat : Type 0 where
  rgb24 bgr24 rgba32 bgra32 rgb565 xrgb1555 rgba4444 unnamed : PixelFormat

unfoldable pub is_valid_pixel_format : PixelFormat → Bool
is_valid_pixel_format unnamed = false
is_valid_pixel_format _ = true

unfoldable pub bytes_per_pixel : PixelFormat → ℕ
bytes_per_pixel rgb24 = 3
bytes_per_pixel bgr24 = 3
bytes_per_pixel rgba32 = 4
bytes_per_pixel bgra32 = 4
bytes_per_pixel rgb565 = 2
bytes_per_pixel xrgb1555 = 2
bytes_per_pixel rgba4444 = 2
bytes_per_pixel unnamed = 0

pub record DamageRect : Type 0 where
  pub x : ℤ
  pub y : ℤ
  pub width : ℤ
  pub height : ℤ

-- `count` is the length of the list, also when `has_rectangles` says that the pointer is null.
pub record DamageView : Type 0 where
  pub has_rectangles : Bool
  pub rectangles : List DamageRect
  pub supplied : Bool

-- The condition of the loop, negated. Its comparisons are reached with sizes that are not negative.
abbrev pub is_inside : ℕ → ℕ → DamageRect → Bool
is_inside frame_width frame_height r =
    (is_positive r.width && is_positive r.height)
    && ((not (is_negative r.x) && not (is_negative r.y))
        && ((leb (pos_part r.x) frame_width && leb (pos_part r.y) frame_height)
            && (leb (pos_part r.width) (frame_width - pos_part r.x)
                && leb (pos_part r.height) (frame_height - pos_part r.y))))

abbrev pub all_inside : ℕ → ℕ → List DamageRect → Bool
all_inside frame_width frame_height [] = true
all_inside frame_width frame_height (r ∷ rs) =
    is_inside frame_width frame_height r && all_inside frame_width frame_height rs

-- `DamageView::isValidFor`.
unfoldable pub is_valid_for : ℤ → ℤ → DamageView → Bool
is_valid_for frame_width frame_height v =
    if not (is_positive frame_width) || not (is_positive frame_height)
    then false
    else if not v.supplied
    then not v.has_rectangles && (length v.rectangles == 0)
    else if ltb 0 (length v.rectangles) && not v.has_rectangles
    then false
    else all_inside (pos_part frame_width) (pos_part frame_height) v.rectangles

abbrev pub int_max : ℕ
int_max = 2147483647

abbrev pub ptrdiff_max : ℕ
ptrdiff_max = 9223372036854775807

abbrev pub size_max : ℕ
size_max = 18446744073709551615

-- `bytes` is what `data` points to.
pub record FrameView : Type 0 where
  pub has_data : Bool
  pub bytes : ℕ → ℕ
  pub width : ℤ
  pub height : ℤ
  pub stride : ℤ
  pub format : PixelFormat
  pub damage : DamageView

-- The tests on sizes that the two kinds of view share: a row of `row_bytes`, `height` rows, no overflow.
unfoldable pub fits_memory : ℕ → ℕ → ℕ → Bool
fits_memory row_bytes height stride =
    not (
      ltb stride row_bytes
      || (ltb 1 height && ltb ((ptrdiff_max - row_bytes) / (height - 1)) stride))
    && leb row_bytes (size_max / height)

-- `FrameView::isValid`.
unfoldable pub is_valid_frame : FrameView → Bool
unfolding fits_memory is_valid_for bytes_per_pixel
is_valid_frame f =
    let pixel_bytes = bytes_per_pixel f.format in
    let w = pos_part f.width in
    let h = pos_part f.height in
    if not f.has_data
      || (not (is_positive f.width)
          || (not (is_positive f.height) || ((pixel_bytes == 0) || not (is_positive f.stride))))
    then false
    else if ltb (int_max / h) w
    then false
    else if ltb (ptrdiff_max / pixel_bytes) w
    then false
    else fits_memory (w * pixel_bytes) h (pos_part f.stride)
      && is_valid_for f.width f.height f.damage

-- The palette's colours are numbers; its size is the length of the list.
pub record PaletteView : Type 0 where
  pub has_colors : Bool
  pub colors : List ℕ

unfoldable pub is_valid_palette : PaletteView → Bool
is_valid_palette p = p.has_colors && (ltb 0 (length p.colors) && leb (length p.colors) 256)

pub record IndexedFrameView : Type 0 where
  pub has_indices : Bool
  pub indices : ℕ → ℕ
  pub width : ℤ
  pub height : ℤ
  pub stride : ℤ
  pub palette : PaletteView
  pub damage : DamageView

-- `IndexedFrameView::isValid`.
unfoldable pub is_valid_indexed : IndexedFrameView → Bool
unfolding fits_memory is_valid_for is_valid_palette
is_valid_indexed f =
    let w = pos_part f.width in
    let h = pos_part f.height in
    if not f.has_indices
      || (not (is_positive f.width)
          || (not (is_positive f.height)
              || (not (is_positive f.stride)
                  || (ltb (pos_part f.stride) w || not (is_valid_palette f.palette)))))
    then false
    else if ltb (int_max / h) w
    then false
    else fits_memory w h (pos_part f.stride) && is_valid_for f.width f.height f.damage

-- The loops of `hasValidIndices`: over `columns` indices from `offset` on, and over the rows.
abbrev pub row_in_palette : ℕ → ℕ → (ℕ → ℕ) → ℕ → Bool
row_in_palette zero size indices offset = true
row_in_palette (suc columns) size indices offset =
    not (leb size (indices offset)) && row_in_palette columns size indices (suc offset)

abbrev pub rows_in_palette : ℕ → ℕ → ℕ → (ℕ → ℕ) → ℕ → ℕ → Bool
rows_in_palette zero width size indices stride row = true
rows_in_palette (suc rows) width size indices stride row =
    row_in_palette width size indices (row * stride)
    && rows_in_palette rows width size indices stride (suc row)

-- `IndexedFrameView::hasValidIndices`.
unfoldable pub has_valid_indices : IndexedFrameView → Bool
unfolding is_valid_indexed
has_valid_indices f =
    if not (is_valid_indexed f)
    then false
    else rows_in_palette (pos_part f.height) (pos_part f.width) (length f.palette.colors) f.indices
        (pos_part f.stride) 0

-- `OwnedFrame::isValid` and `OwnedIndexedFrame::isValid` of a storage of `size` bytes, whose view is
-- `f` with the validity `valid`. The conversions to `std::size_t` are of numbers that are not negative.
unfoldable pub is_valid_owned : Bool → ℕ → ℕ → ℕ → ℕ → Bool
is_valid_owned valid size row_bytes height stride =
    valid
    && (leb (height - 1) ((size_max - row_bytes) / stride)
        && leb ((height - 1) * stride + row_bytes) size)
