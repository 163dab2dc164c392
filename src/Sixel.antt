-- ===== src/Sixel.antt =====
-- src/encoder/SixelWriter.cpp: the bytes of a SIXEL image. The output is a bounded string; an emitter
-- takes it to what it leaves. A `std::vector` that an emitter only reads at an index is a list, or a
-- function of the index where it is one slice of a larger array.
pub mod Output
pub mod Repeat
pub mod Decoder
pub mod Columns
pub mod Band
pub mod Palette
pub mod Indexed
pub mod Image
mod Tests
use rasterm.Base.{
  ℕ, zero, suc, ◌+◌, ◌-◌, ◌*◌, ◌/◌, ◌%◌, ◌^◌, min, max, Bool, true, false, not, ◌&&◌, ◌||◌, Option,
  none, some, List, [], ◌∷◌, ◌++◌, leb, ◌==◌, ltb, if◌then◌else◌, length, get_or, codes,
}
use Prim.Native.Nat.{bit_or}
use rasterm.Decimal.{decimal}
use Output.{SixelOutput, append, append_byte, append_number}

-- `SixelOptions`, the fields that the writer reads.
pub record HeaderOptions : Type 0 where
  pub pixel_aspect_ratio : ℕ
  pub transparent_background : Bool

pub macro_parameter_for_aspect_ratio : ℕ → ℕ
macro_parameter_for_aspect_ratio ratio =
    if ratio == 2 then 0 else if ratio == 3 then 3 else if ratio == 5 then 2 else 7

pub begin_sixel : HeaderOptions → SixelOutput → SixelOutput
begin_sixel options o =
    let o1 = (append (27 ∷ codes "P") o).1 in
    let o2 = (append_number (macro_parameter_for_aspect_ratio options.pixel_aspect_ratio) o1).1 in
    (append (if options.transparent_background then codes ";1;0q" else codes ";2;0q") o2).1

pub emit_raster_attributes : ℕ → ℕ → SixelOutput → SixelOutput
emit_raster_attributes width height o =
    let o1 = (append (codes "\"1;1;") o).1 in
    let o2 = (append_number width o1).1 in
    let o3 = (append_byte b';' o2).1 in (append_number height o3).1

-- A colour of a palette.
pub record RgbColor : Type 0 where
  pub red : ℕ
  pub green : ℕ
  pub blue : ℕ

-- The lambda `to100` of the indexed palette.
abbrev pub to100 : ℕ → ℕ
to100 value = (value * 100 + 127) / 255

-- The definition of one register, `#n;2;r;g;b`, with the percentages given.
pub emit_register : ℕ → ℕ → ℕ → ℕ → SixelOutput → SixelOutput
emit_register number red green blue o =
    let o1 = (append_byte b'#' o).1 in
    let o2 = (append_number number o1).1 in
    let o3 = (append (codes ";2;") o2).1 in
    let o4 = (append_number red o3).1 in
    let o5 = (append_byte b';' o4).1 in
    let o6 = (append_number green o5).1 in
    let o7 = (append_byte b';' o6).1 in (append_number blue o7).1

-- `emitPalette(SixelOutput&, PaletteView, int)`, from the register `index + firstRegister` on.
pub emit_palette_from : ℕ → List RgbColor → SixelOutput → SixelOutput
unfolding emit_register
emit_palette_from number [] o = o
emit_palette_from number (c ∷ cs) o =
    let rest =
      emit_palette_from (suc number) cs
        (emit_register number (to100 c.red) (to100 c.green) (to100 c.blue) o) in
    if o.limit_exceeded then o else rest

-- The palettes of the colour mappers: `palette` is the colour of each register as a number of 24 bits,
-- `used` whether the register is written, and `percent` the rounding in floating point.
pub append_palette_from : (ℕ → ℕ) → (ℕ → ℕ) → (ℕ → Bool) → ℕ → ℕ → SixelOutput → SixelOutput
unfolding emit_register
append_palette_from percent palette used zero i o = o
append_palette_from percent palette used (suc left) i o =
    let rgb = palette i in
    let emitted =
      if used i
      then emit_register i (percent (rgb / 65536 % 256)) (percent (rgb / 256 % 256))
          (percent (rgb % 256)) o
      else o in
    let rest = append_palette_from percent palette used left (suc i) emitted in
    if o.limit_exceeded then o else rest

unfoldable pub append_palette : (ℕ → ℕ) → (ℕ → ℕ) → (ℕ → Bool) → ℕ → SixelOutput → SixelOutput
unfolding append_palette_from
append_palette percent palette used color_count o =
    append_palette_from percent palette used (color_count - 1) 1 o

-- `static_cast<char>('?' + std::clamp(value, 0, 63))`.
abbrev pub sixel_character : ℕ → ℕ
sixel_character value = b'?' + min value 63

abbrev pub maximum_repeat : ℕ
maximum_repeat = 65535

-- The loop of `emitRepeat`. A round emits at least one column, so `count + 1` rounds are enough.
pub repeat_loop : ℕ → ℕ → ℕ → SixelOutput → SixelOutput
repeat_loop zero character remaining o = o
repeat_loop (suc fuel) character remaining o =
    let run = min remaining maximum_repeat in
    let emitted =
      if run == 1
      then (append_byte character o).1
      else if run == 2
      then (append_byte character (append_byte character o).1).1
      else (append_byte character (append_number run (append_byte b'!' o).1).1).1 in
    let rest = repeat_loop fuel character (remaining - run) emitted in
    if (remaining == 0) || o.limit_exceeded then o else rest

pub emit_repeat : ℕ → ℕ → SixelOutput → SixelOutput
unfolding repeat_loop
emit_repeat count value o = repeat_loop (count + 1) (sixel_character value) count o

-- `while (column + run <= lastColumn && masks[column + run] == bits) ++run`, with the columns left
-- behind `column + run` as fuel.
pub extend_run : ℕ → (ℕ → ℕ) → ℕ → ℕ → ℕ
extend_run zero masks column run = run
extend_run (suc left) masks column run =
    let more = extend_run left masks column (suc run) in
    if masks (column + run) == masks column then more else run

-- The loop of `emitColorBand` from `column` on. A round emits at least one column.
pub band_loop : ℕ → (ℕ → ℕ) → ℕ → ℕ → SixelOutput → SixelOutput
unfolding extend_run emit_repeat
band_loop zero masks last column o = o
band_loop (suc fuel) masks last column o =
    let run = extend_run (last - column) masks column 1 in
    let rest = band_loop fuel masks last (column + run) (emit_repeat run (masks column) o) in
    if leb column last && not o.limit_exceeded then rest else o

pub emit_color_band : (ℕ → ℕ) → ℕ → ℕ → ℕ → SixelOutput → SixelOutput
unfolding band_loop emit_repeat
emit_color_band masks first last color o =
    let o1 = (append_byte b'#' o).1 in
    let o2 = (append_number color o1).1 in
    let o3 = if ltb 0 first then emit_repeat first 0 o2 else o2 in
    band_loop (suc last - first) masks last first o3
