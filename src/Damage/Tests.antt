-- ===== src/Damage/Tests.antt =====
-- A run of the tracker, and its theorems at concrete inputs.
use rasterm.Base.{ℕ, ◌<◌, ◌≡◌, refl, Bool, false, [], ◌∷◌, ◌==◌, if◌then◌else◌, arith}
use rasterm.Damage.Rect.{covered, merge_all}
use rasterm.Damage.{Tracker, Source, no_changes, has_same_shape, scan_rows, compare_and_update}
use rasterm.Damage.Cover.{byte_at, previous_at}
use rasterm.Damage.Update.{IsComparable, in_change, covered-compare_and_update, compare_again}

-- A frame of 5 by 4 bytes in tiles of 2 by 2, the frame before, and one pixel that changed.
abbrev black : Source
black = record {
  bytes = λ i. 0;
  width = 5;
  height = 4;
  stride = 8;
  pixel_bytes = 1;
  format_tag = 100;
  palette = 7 ∷ [];
}

abbrev dot : Source
dot = record black { bytes = λ i. if i == 17 then 1 else 0 }

abbrev tracker : Tracker
tracker = record {
  options = record { tile_width = 2; tile_height = 2 };
  previous = λ i. 0;
  previous_size = 20;
  previous_palette = 7 ∷ [];
  previous_width = 5;
  previous_height = 4;
  previous_pixel_bytes = 1;
  previous_tag = 101;
}

abbrev never_large : ℕ → ℕ → Bool
never_large changed total = false

dot_found :
    (compare_and_update never_large dot tracker).0.regions
    ≡ record { x = 0; y = 2; width = 2; height = 2 } ∷ []
unfolding compare_and_update has_same_shape scan_rows merge_all
dot_found = refl

tracker-IsComparable : IsComparable tracker dot
unfolding has_same_shape
tracker-IsComparable = ground arith

covered-compare_and_update_example :
    (covered (compare_and_update never_large dot tracker).0.regions 0 3 ≡ in_change tracker dot 0 3)
    × ((k : ℕ)
        → 0 < dot.width
        → 3 < dot.height
        → k < dot.pixel_bytes
        → covered (compare_and_update never_large dot tracker).0.regions 0 3 ≡ false
        → byte_at tracker dot 0 3 k ≡ previous_at tracker dot 0 3 k)
unfolding compare_and_update has_same_shape scan_rows
covered-compare_and_update_example =
    covered-compare_and_update never_large tracker dot tracker-IsComparable 0 3 refl

compare_again_example :
    (compare_and_update never_large dot (compare_and_update never_large dot tracker).1).0
    ≡ no_changes
compare_again_example = compare_again never_large tracker dot (omega arith)
