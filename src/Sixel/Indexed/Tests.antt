-- ===== src/Sixel/Indexed/Tests.antt =====
-- A frame of two colours, three pixels wide and two high.
use rasterm.Base.{
  ℕ, ◌+◌, ◌*◌, ◌≡◌, refl, false, ◌&&◌, List, [], ◌∷◌, some, ltb, if◌then◌else◌, codes, get_or,
}
use rasterm.Decimal.{decimal}
use rasterm.Sixel.Output.{SixelOutput, append, append_byte, append_number, Emits}
use rasterm.Sixel.{emit_color_band}
use rasterm.Sixel.Decoder.{Screen, IsReady, decode}
use rasterm.Sixel.Indexed.{
  Scratch, clear_band, mark_pixel, scan_row, scan_rows, emit_colors, frame_loop, emit_indexed_frame,
}
use rasterm.Sixel.Indexed.Frame.{emit_indexed_frame-picture}

abbrev empty : SixelOutput
empty = record { storage = []; maximum_bytes = 0; limit_exceeded = false }

-- What an earlier frame may have left.
abbrev left_over : Scratch
left_over = record {
  colors_in_band = 9 ∷ [];
  color_slot = λ c. some 4;
  first_column = λ c. 7;
  last_column = λ c. 8;
  band_masks = λ slot x. 63;
}

abbrev pixels : ℕ → ℕ
pixels place = get_or (1 ∷ 2 ∷ 2 ∷ 1 ∷ 1 ∷ 2 ∷ []) place 0

emitted : (emit_indexed_frame pixels 3 2 left_over empty).storage ≡ codes "#1BA$#2?@B$"
unfolding emit_indexed_frame frame_loop scan_rows scan_row mark_pixel clear_band emit_colors
    emit_color_band append append_byte append_number decimal
emitted = refl

emit_indexed_frame-picture_example :
    (bytes : List ℕ) × Emits bytes empty (emit_indexed_frame pixels 3 2 left_over empty)
    × ((s : Screen) (x y : ℕ)
        → IsReady s
        → s.column ≡ 0
        → s.row ≡ 0
        → (decode bytes s).picture x y
          ≡ (if ltb x 3 && ltb y 2 then some (pixels (y * 3 + x)) else s.picture x y))
emit_indexed_frame-picture_example = emit_indexed_frame-picture pixels 3 2 left_over empty
