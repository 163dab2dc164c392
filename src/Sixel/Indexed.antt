-- ===== src/Sixel/Indexed.antt =====
-- `emitIndexedFrame` of src/encoder/SixelWriter.cpp. The palette indices are a function of their place
-- in the vector. The thread-local vectors are a record: `masks` gives row `slot` of `bandMasks` as a
-- function of the column, and `slot` is `none` for the code's -1. `colorCount` only sizes them.
mod Scan
mod Picture
pub mod Frame
mod Tests
use rasterm.Base.{
  ℕ, zero, suc, ◌+◌, ◌-◌, ◌*◌, ◌^◌, min, max, Bool, not, ◌&&◌, ◌||◌, Option, none, some, List, [],
  ◌∷◌, ◌++◌, leb, ltb, if◌then◌else◌, length, update,
}
use Prim.Native.Nat.{bit_or}
use rasterm.Sixel.Output.{SixelOutput, append_byte}
use rasterm.Sixel.{emit_color_band}

pub record Scratch : Type 0 where
  pub colors_in_band : List ℕ
  pub color_slot : ℕ → Option ℕ
  pub first_column : ℕ → ℕ
  pub last_column : ℕ → ℕ
  pub band_masks : ℕ → ℕ → ℕ

unfoldable pub clear_band : Scratch → Scratch
clear_band b = record b { colors_in_band = []; color_slot = λ c. none }

-- A colour that the band has not shown yet.
unfoldable pub open_slot : ℕ → ℕ → Scratch → Scratch
open_slot color x b =
    let slot = length b.colors_in_band in
    record b {
      colors_in_band = b.colors_in_band ++ (color ∷ []);
      color_slot = update b.color_slot color (some slot);
      first_column = update b.first_column color x;
      last_column = update b.last_column color x;
      band_masks = update b.band_masks slot (λ c. 0);
    }

unfoldable pub widen : ℕ → ℕ → Scratch → Scratch
widen color x b = record b {
  first_column = update b.first_column color (min (b.first_column color) x);
  last_column = update b.last_column color (max (b.last_column color) x);
}

unfoldable pub set_bit : ℕ → ℕ → ℕ → Scratch → Scratch
set_bit slot x k b = record b {
  band_masks =
      update b.band_masks slot
        (update (b.band_masks slot) x (bit_or (b.band_masks slot x) (2 ^ k)));
}

unfoldable pub mark_at : Option ℕ → ℕ → ℕ → ℕ → Scratch → Scratch
unfolding open_slot widen set_bit
mark_at none color x k b = set_bit (length b.colors_in_band) x k (open_slot color x b)
mark_at (some slot) color x k b = set_bit slot x k (widen color x b)

-- The body of the loop over the columns, at row `k` of the band.
unfoldable pub mark_pixel : ℕ → ℕ → ℕ → Scratch → Scratch
unfolding mark_at
mark_pixel color x k b = mark_at (b.color_slot color) color x k b

pub scan_row : ℕ → (ℕ → ℕ) → ℕ → ℕ → Scratch → Scratch
unfolding mark_pixel
scan_row zero row x k b = b
scan_row (suc left) row x k b = scan_row left row (suc x) k (mark_pixel (row x) x k b)

pub scan_rows : ℕ → (ℕ → ℕ) → ℕ → ℕ → ℕ → Scratch → Scratch
unfolding scan_row
scan_rows zero indices width band y b = b
scan_rows (suc left) indices width band y b =
    scan_rows left indices width band (suc y)
      (scan_row width (λ x. indices (y * width + x)) 0 (y - band) b)

-- The registers of a band from number `index` on; `last` tells the last band of the image.
pub emit_colors : Bool → Scratch → ℕ → List ℕ → SixelOutput → SixelOutput
unfolding emit_color_band
emit_colors last b index [] o = o
emit_colors last b index (color ∷ colors) o =
    let o1 =
      emit_color_band (b.band_masks index) (b.first_column color) (b.last_column color) color o in
    let o2 =
      if ltb (index + 1) (length b.colors_in_band) || last then (append_byte b'$' o1).1 else o1 in
    let rest = emit_colors last b (suc index) colors o2 in if o.limit_exceeded then o else rest

-- The loop over the bands from row `band` on. A round takes at least one row.
pub frame_loop : ℕ → (ℕ → ℕ) → ℕ → ℕ → ℕ → Scratch → SixelOutput → SixelOutput
unfolding clear_band scan_rows emit_colors
frame_loop zero indices width height band b o = o
frame_loop (suc fuel) indices width height band b o =
    let b1 = scan_rows (min (band + 6) height - band) indices width band band (clear_band b) in
    let o1 = emit_colors (leb height (band + 6)) b1 0 b1.colors_in_band o in
    let o2 = if ltb (band + 6) height then (append_byte b'-' o1).1 else o1 in
    let rest = frame_loop fuel indices width height (band + 6) b1 o2 in
    if ltb band height && not o.limit_exceeded then rest else o

unfoldable pub emit_indexed_frame : (ℕ → ℕ) → ℕ → ℕ → Scratch → SixelOutput → SixelOutput
unfolding frame_loop
emit_indexed_frame indices width height b o =
    let written = frame_loop height indices width height 0 b o in
    if o.limit_exceeded then o else written
