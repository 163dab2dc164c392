-- ===== src/Encoder/Indexed.antt =====
-- src/encoder/SixelEncoder.cpp: the image of an indexed frame. A colour of a palette is its number of 24
-- bits, red first.
pub mod Picture
use rasterm.Base.{
  ℕ, zero, suc, ◌+◌, ◌*◌, ◌/◌, ◌%◌, ◌^◌, Bool, true, false, not, ◌&&◌, ◌||◌, List, [], ◌∷◌, leb,
  ltb, ◌==◌, map, if◌then◌else◌, length,
}
use rasterm.Base.Int.{ℤ, pos, pos_part, is_positive, is_negative}
use Prim.Native.Nat.{bit_xor}
use rasterm.Frame.{DamageRect, PaletteView, IndexedFrameView, is_valid_indexed}
use rasterm.Damage.Rect.{DamageRegion}
use rasterm.Sixel.{HeaderOptions, RgbColor, emit_palette_from}
use rasterm.Sixel.Output.{SixelOutput}
use rasterm.Sixel.Indexed.{Scratch}
use rasterm.Sixel.Image.{write_image}
use rasterm.Encoder.{SixelOptions, PaletteState, should_emit_palette}

-- The members of `VideoSixelEncoder` that the image of an indexed frame reads or writes.
pub record VideoSixelEncoder : Type 0 where
  pub output_limit : ℕ
  pub limit_exceeded : Bool
  pub output_buffer : List ℕ
  pub last_color_count : ℕ
  pub registers : PaletteState

-- A colour of 24 bits, and back.
abbrev pub rgb_color : ℕ → RgbColor
rgb_color c = record { red = c / 65536 % 256; green = c / 256 % 256; blue = c % 256 }

abbrev pub color_word : RgbColor → ℕ
color_word c = c.red * 65536 + c.green * 256 + c.blue

-- A round of the hash, in 64 bits.
unfoldable pub hash_round : ℕ → ℕ → ℕ
hash_round hash word = bit_xor hash word * 1099511628211 % 2 ^ 64

unfoldable pub hash_words : ℕ → List ℕ → ℕ
unfolding hash_round
hash_words hash [] = hash
hash_words hash (word ∷ words) = hash_words (hash_round hash word) words

-- `paletteHash(PaletteView, int)`.
unfoldable pub palette_hash : List RgbColor → ℕ → ℕ
unfolding hash_words hash_round
palette_hash colors first_register =
    hash_round (hash_words (bit_xor 1469598103934665603 first_register) (map color_word colors))
      (length colors)

-- `paletteHash(const std::uint32_t*, std::size_t)`.
unfoldable pub mapper_hash : List ℕ → ℕ
unfolding hash_words hash_round
mapper_hash words = hash_round (hash_words 1469598103934665603 words) (length words)

unfoldable pub register_offset : PaletteView → ℕ
register_offset palette = if length palette.colors == 256 then 0 else 1

-- The vector that the two loops fill, `width` indices for each row.
unfoldable pub palette_indices : ℕ → IndexedFrameView → ℕ → ℕ
palette_indices offset f place =
    let width = pos_part f.width in
    (f.indices (place / width * pos_part f.stride + place % width) + offset) % 256

-- `encodeView(const IndexedFrameView&)`: the view that it returns, and the encoder.
unfoldable pub encode_indexed_view :
    HeaderOptions
    → SixelOptions
    → IndexedFrameView
    → Scratch
    → VideoSixelEncoder
    → List ℕ × VideoSixelEncoder
unfolding register_offset palette_indices palette_hash write_image should_emit_palette
encode_indexed_view header options f b e =
    let offset = register_offset f.palette in
    let colors = map rgb_color f.palette.colors in
    let (define_palette, registers) =
      should_emit_palette options (palette_hash colors offset) e.registers in
    let palette =
      λ (o : SixelOutput). if define_palette then emit_palette_from offset colors o else o in
    let o =
      write_image header (pos_part f.width) (pos_part f.height) palette (palette_indices offset f) b
        e.output_limit in
    (
      if o.limit_exceeded then [] else o.storage,
      record e {
        limit_exceeded = o.limit_exceeded;
        output_buffer = o.storage;
        last_color_count = length f.palette.colors;
        registers = registers;
      },
    )

-- `encodeFrame(const IndexedFrameView&)`.
unfoldable pub encode_indexed_frame :
    HeaderOptions
    → SixelOptions
    → IndexedFrameView
    → Scratch
    → VideoSixelEncoder
    → List ℕ × VideoSixelEncoder
unfolding is_valid_indexed encode_indexed_view
encode_indexed_frame header options f b e =
    if is_valid_indexed f then encode_indexed_view header options f b e else ([], e)

-- The view of a region, with no damage.
unfoldable pub crop_indexed : DamageRegion → IndexedFrameView → IndexedFrameView
crop_indexed r f = record {
  has_indices = f.has_indices;
  indices = λ i. f.indices (r.y * pos_part f.stride + r.x + i);
  width = pos r.width;
  height = pos r.height;
  stride = f.stride;
  palette = f.palette;
  damage = record { has_rectangles = false; rectangles = []; supplied = false };
}

-- `a + b > limit` for a sum of two numbers of an `int`, neither negative: past 2^31 it wraps to a negative
-- number, which is not above the limit.
abbrev pub sum_exceeds : ℕ → ℕ → ℕ → Bool
sum_exceeds a b limit = ltb ((a + b) % 4294967296) 2147483648 && ltb limit ((a + b) % 4294967296)

-- Whether a region is empty or leaves a frame of the size given.
abbrev pub is_outside : DamageRect → ℕ → ℕ → Bool
is_outside r width height =
    not (is_positive r.width && is_positive r.height)
    || ((is_negative r.x || is_negative r.y)
        || (sum_exceeds (pos_part r.x) (pos_part r.width) width
            || sum_exceeds (pos_part r.y) (pos_part r.height) height))

-- A region that has passed these tests, of which no number is negative.
abbrev pub region_of : DamageRect → DamageRegion
region_of r = record {
  x = pos_part r.x;
  y = pos_part r.y;
  width = pos_part r.width;
  height = pos_part r.height;
}

-- `encodeRegion(const IndexedFrameView&, const DamageRegion&)`.
unfoldable pub encode_indexed_region :
    HeaderOptions
    → SixelOptions
    → IndexedFrameView
    → DamageRect
    → Scratch
    → VideoSixelEncoder
    → List ℕ × VideoSixelEncoder
unfolding is_valid_indexed crop_indexed encode_indexed_view
encode_indexed_region header options f r b e =
    if not (is_valid_indexed f) || is_outside r (pos_part f.width) (pos_part f.height)
    then ([], e)
    else encode_indexed_view header options (crop_indexed (region_of r) f) b e
