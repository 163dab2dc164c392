-- ===== src/Frame/Tests.antt =====
-- A packed and an indexed view, and the theorems at them.
use rasterm.Base.{ℕ, ◌+◌, ◌*◌, ◌<◌, ◌≡◌, refl, true, false, [], ◌∷◌, length}
use rasterm.Base.Int.{pos, negsuc}
use rasterm.Frame.{
  FrameView, rgb24, rgba32, IndexedFrameView, is_valid_frame, bytes_per_pixel, fits_memory,
  is_valid_for, is_valid_indexed, is_valid_palette, has_valid_indices, is_valid_owned,
}
use rasterm.Frame.Bounds.{IsBounded, is_valid_frame-IsBounded, is_valid_indexed-IsBounded}

-- 4 by 3 pixels, padded rows, and one rectangle at the right edge.
abbrev packed_view : FrameView
packed_view = record {
  has_data = true;
  bytes = λ i. i;
  width = pos 4;
  height = pos 3;
  stride = pos 16;
  format = rgb24;
  damage = record {
    has_rectangles = true;
    rectangles = record { x = pos 3; y = pos 1; width = pos 1; height = pos 2 } ∷ [];
    supplied = true;
  };
}

packed_view-is_valid : is_valid_frame packed_view ≡ true
unfolding is_valid_frame fits_memory is_valid_for bytes_per_pixel
packed_view-is_valid = refl

-- The rectangle one pixel further right leaves the frame, and a row of four-byte pixels its stride.
refused_views :
    (is_valid_frame (record packed_view {
      damage = record packed_view.damage {
        rectangles = record { x = pos 4; y = pos 1; width = pos 1; height = pos 2 } ∷ [];
      };
    })
      ≡ false)
    × (is_valid_frame (record packed_view { format = rgba32; stride = pos 15 }) ≡ false)
    × (is_valid_frame (record packed_view { stride = negsuc 15 }) ≡ false)
unfolding is_valid_frame fits_memory is_valid_for bytes_per_pixel
refused_views = (refl, refl, refl)

is_valid_frame-IsBounded_example : IsBounded 4 3 (4 * bytes_per_pixel rgb24) 16
is_valid_frame-IsBounded_example = is_valid_frame-IsBounded packed_view packed_view-is_valid

abbrev indexed_view : IndexedFrameView
indexed_view = record {
  has_indices = true;
  indices = λ i. 1;
  width = pos 2;
  height = pos 2;
  stride = pos 3;
  palette = record { has_colors = true; colors = 0 ∷ 16777215 ∷ [] };
  damage = record { has_rectangles = false; rectangles = []; supplied = false };
}

indexed_view-is_valid : is_valid_indexed indexed_view ≡ true
unfolding is_valid_indexed fits_memory is_valid_for is_valid_palette
indexed_view-is_valid = refl

is_valid_indexed-IsBounded_example :
    IsBounded 2 2 2 3
    × (has_valid_indices indexed_view ≡ true
        → (row column : ℕ) → row < 2
        → column < 2
        → indexed_view.indices (row * 3 + column) < length indexed_view.palette.colors)
is_valid_indexed-IsBounded_example = is_valid_indexed-IsBounded indexed_view indexed_view-is_valid

owned_fits : is_valid_owned true 44 12 3 16 ≡ true
unfolding is_valid_owned
owned_fits = refl
