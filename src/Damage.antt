-- ===== src/Damage.antt =====
-- src/damage/DamageTracker.cpp: which parts of a frame differ from the frame before.
-- A frame's bytes are a function of the offset from its first byte; of the previous frame the tracker
-- keeps its own copy, as a function and a size. Widths, heights and strides are those of a valid
-- frame, so they are not negative. The product `x * pixelBytes`, an `int`, wraps at 32 bits here
-- (`advance`); the other offsets have the width of a pointer, in which those of a valid frame do not wrap
-- (`rasterm.Frame.Bounds`).
-- The test of the changed area against the threshold is on floats: it is the parameter `is_large`.
pub mod Rect
pub mod Rows
pub mod Strips
pub mod Merge
pub mod Cover
pub mod Update
pub mod Origins
mod Tests
use rasterm.Base.{
  ℕ, zero, suc, ◌+◌, ◌-◌, ◌*◌, ◌/◌, ◌%◌, min, max, Bool, true, false, not, ◌&&◌, ◌||◌, List, [],
  ◌∷◌, ◌++◌, leb, ltb, ◌==◌, if◌then◌else◌, length, get_or,
}
use Rect.{DamageRegion, is_valid, no_region, covers, merge_all}
use Rows.{rows_equal, copy_rows}

pub record DamageOptions : Type 0 where
  pub tile_width : ℕ
  pub tile_height : ℕ

-- The constructor's clamping; a negative size is 0 here.
unfoldable pub clamp_options : DamageOptions → DamageOptions
clamp_options o = record { tile_width = max 1 o.tile_width; tile_height = max 1 o.tile_height }

-- A frame as the private `compareAndUpdate` takes it. A colour of the palette is one number.
pub record Source : Type 0 where
  pub bytes : ℕ → ℕ
  pub width : ℕ
  pub height : ℕ
  pub stride : ℕ
  pub pixel_bytes : ℕ
  pub format_tag : ℕ
  pub palette : List ℕ

-- The members of `DamageTracker`. `previous_tag` is `previousFormatTag + 1`, so that -1 is 0.
pub record Tracker : Type 0 where
  pub options : DamageOptions
  pub previous : ℕ → ℕ
  pub previous_size : ℕ
  pub previous_palette : List ℕ
  pub previous_width : ℕ
  pub previous_height : ℕ
  pub previous_pixel_bytes : ℕ
  pub previous_tag : ℕ

-- `changedAreaRatio` is `changed` out of `total`.
pub record DamageResult : Type 0 where
  pub is_full_frame : Bool
  pub has_changes : Bool
  pub changed : ℕ
  pub total : ℕ
  pub regions : List DamageRegion

abbrev pub full_frame : DamageResult
full_frame = record {
  is_full_frame = true;
  has_changes = true;
  changed = 1;
  total = 1;
  regions = [];
}

abbrev pub no_changes : DamageResult
no_changes = record {
  is_full_frame = false;
  has_changes = false;
  changed = 0;
  total = 1;
  regions = [];
}

-- `data + product` for a product that was computed as an `int`: it is cut to 32 bits, and a negative one
-- steps back.
unfoldable pub advance : ℕ → ℕ → ℕ
advance base product =
    if ltb (product % 4294967296) 2147483648
    then base + product % 4294967296
    else base - (4294967296 - product % 4294967296)

abbrev pub same_list : List ℕ → List ℕ → Bool
same_list [] [] = true
same_list (x ∷ xs) (y ∷ ys) = (x == y) && same_list xs ys
same_list _ _ = false

unfoldable pub has_same_shape : Tracker → Source → Bool
has_same_shape t f =
    ((f.width == t.previous_width) && (f.height == t.previous_height))
    && (((f.pixel_bytes == t.previous_pixel_bytes) && (suc f.format_tag == t.previous_tag))
        && ((t.previous_size == f.width * f.height * f.pixel_bytes)
            && same_list t.previous_palette f.palette))

unfoldable pub copy_frame : Source → Tracker → Tracker
unfolding copy_rows
copy_frame f t = record t {
  previous = copy_rows f.height 0 f.bytes f.stride (f.width * f.pixel_bytes) t.previous;
  previous_size = f.width * f.pixel_bytes * f.height;
  previous_palette = f.palette;
  previous_width = f.width;
  previous_height = f.height;
  previous_pixel_bytes = f.pixel_bytes;
  previous_tag = suc f.format_tag;
}

unfoldable pub reset : Tracker → Tracker
reset t = record t {
  previous_size = 0;
  previous_palette = [];
  previous_width = 0;
  previous_height = 0;
  previous_pixel_bytes = 0;
  previous_tag = 0;
}

module _ (t : Tracker) (f : Source) where
  -- The loop over the rows of the tile at `(x, y)`: whether one of `rows` rows from `row` on differs.
  pub tile_differs : ℕ → ℕ → ℕ → ℕ → ℕ → Bool
  unfolding rows_equal advance
  tile_differs zero row x y tile_width = false
  tile_differs (suc rows) row x y tile_width =
      let rest = tile_differs rows (suc row) x y tile_width in
      if rows_equal f.bytes t.previous (advance ((y + row) * f.stride) (x * f.pixel_bytes))
        (((y + row) * f.width + x) * f.pixel_bytes) (tile_width * f.pixel_bytes)
      then rest
      else true

  abbrev pub tile_left : ℕ → ℕ
  tile_left tile_x = tile_x * t.options.tile_width

  abbrev pub tile_top : ℕ → ℕ
  tile_top tile_y = tile_y * t.options.tile_height

  abbrev pub width_at : ℕ → ℕ
  width_at tile_x = min t.options.tile_width (f.width - tile_left tile_x)

  abbrev pub height_at : ℕ → ℕ
  height_at tile_y = min t.options.tile_height (f.height - tile_top tile_y)

  pub tile_changed : ℕ → ℕ → Bool
  unfolding tile_differs
  tile_changed tile_x tile_y =
      tile_differs (height_at tile_y) 0 (tile_left tile_x) (tile_top tile_y) (width_at tile_x)

  -- What one tile does to the strip under way, and to the regions found.
  pub next_active : ℕ → ℕ → DamageRegion → DamageRegion
  unfolding tile_changed
  next_active tile_x tile_y active =
      if tile_changed tile_x tile_y
      then (if is_valid active
          then record active { width = active.width + width_at tile_x }
          else record {
            x = tile_left tile_x;
            y = tile_top tile_y;
            width = width_at tile_x;
            height = height_at tile_y;
          })
      else if is_valid active
      then no_region
      else active

  pub next_regions : ℕ → ℕ → List DamageRegion → DamageRegion → List DamageRegion
  unfolding tile_changed
  next_regions tile_x tile_y regions active =
      if not (tile_changed tile_x tile_y) && is_valid active
      then regions ++ active ∷ []
      else regions

  -- The loop over the tiles of one row, `tiles` of them from `tile_x` on: the regions found, the strip
  -- under way, and the changed pixels.
  pub scan_row :
      ℕ → ℕ → ℕ → List DamageRegion → DamageRegion → ℕ → List DamageRegion × DamageRegion × ℕ
  unfolding next_active next_regions tile_changed
  scan_row zero tile_x tile_y regions active changed = (regions, active, changed)
  scan_row (suc tiles) tile_x tile_y regions active changed =
      scan_row tiles (suc tile_x) tile_y (next_regions tile_x tile_y regions active)
        (next_active tile_x tile_y active)
        (if tile_changed tile_x tile_y
          then changed + width_at tile_x * height_at tile_y
          else changed)

  -- The loop over the rows of tiles, `rows` of them from `tile_y` on.
  pub scan_rows : ℕ → ℕ → ℕ → List DamageRegion → ℕ → List DamageRegion × ℕ
  unfolding scan_row
  scan_rows zero tiles_x tile_y regions changed = (regions, changed)
  scan_rows (suc rows) tiles_x tile_y regions changed =
      let (found, active, changed') = scan_row tiles_x 0 tile_y regions no_region changed in
      scan_rows rows tiles_x (suc tile_y) (if is_valid active then found ++ active ∷ [] else found)
        changed'

-- `(extent - 1) / tile + 1`, for an extent that is not zero.
abbrev pub tile_count : ℕ → ℕ → ℕ
tile_count extent tile = (extent - 1) / tile + 1

-- The private `compareAndUpdate`.
unfoldable pub compare_and_update : (ℕ → ℕ → Bool) → Source → Tracker → DamageResult × Tracker
compare_and_update is_large f t =
    if not (has_same_shape t f)
    then (full_frame, copy_frame f t)
    else (let (regions, changed) =
          scan_rows t f (tile_count f.height t.options.tile_height)
            (tile_count f.width t.options.tile_width) 0 [] 0 in
        let t' = copy_frame f t in
        if length regions == 0
        then (no_changes, t')
        else (let total = f.width * f.height in
            if is_large changed total
            then (record full_frame { changed = changed; total = total }, t')
            else (
              record {
                is_full_frame = false;
                has_changes = true;
                changed = changed;
                total = total;
                regions = merge_all regions;
              },
              t',
            )))

-- The public `compareAndUpdate` of a packed and of an indexed frame: `valid` is the validation of its
-- view, and the frame what it passes on.
unfoldable pub compare_view : (ℕ → ℕ → Bool) → Bool → Source → Tracker → DamageResult × Tracker
unfolding compare_and_update
compare_view is_large valid f t =
    if not valid then (no_changes, t) else compare_and_update is_large f t
