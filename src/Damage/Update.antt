-- ===== src/Damage/Update.antt =====
-- `compareAndUpdate` as a whole: no change is missed, nothing unchanged is drawn again, and the frame is
-- kept for the next comparison.
use rasterm.Base.{
  ℕ, zero, suc, ◌+◌, ◌*◌, ◌<◌, ◌≡◌, ◌≢◌, refl, sym, ◌∙◌, Bool, true, false, List, [], ◌∷◌,
  Bool-cases, inl, inr, length, arith,
}
use rasterm.Damage.Rect.{DamageRegion, no_region, covered}
use rasterm.Damage.Rows.{copy_rows_lem}
use rasterm.Damage.Merge.{merge_all-covered}
use rasterm.Damage.{
  Tracker, Source, no_changes, same_list, has_same_shape, copy_frame, tile_changed, next_active,
  next_regions, scan_row, scan_rows, tile_count, compare_and_update,
}
use rasterm.Damage.Strips.{in_changed_rows, scan_rows-covered}
use rasterm.Damage.Cover.{RowFits, byte_at, previous_at, row_fits, outside_same, same_unchanged}

-- The tiles of a tracker have a size, as the constructor sees to, and the frame has pixels, in rows that an
-- `int` can count.
pub record IsComparable (t : Tracker) (f : Source) : Type 0 where
  pub tile_width : 0 < t.options.tile_width
  pub tile_height : 0 < t.options.tile_height
  pub width : 0 < f.width
  pub height : 0 < f.height
  pub same_shape : has_same_shape t f ≡ true
  pub row_fits : RowFits f

-- Whether the pixel lies in one of the frame's tiles that changed.
abbrev pub in_change : Tracker → Source → ℕ → ℕ → Bool
in_change t f px py =
    in_changed_rows t f px py (tile_count f.height t.options.tile_height)
      (tile_count f.width t.options.tile_width) 0

tile_count-fits :
    (extent tile : ℕ) → 0 < extent → 0 < tile → tile_count extent tile * tile < extent + tile
tile_count-fits extent tile pos post = omega arith

module _ (is_large : ℕ → ℕ → Bool) (t : Tracker) (f : Source) (c : IsComparable t f) where
  covered-in_change :
      (px py : ℕ)
      → (compare_and_update is_large f t).0.is_full_frame ≡ false
      → covered (compare_and_update is_large f t).0.regions px py ≡ in_change t f px py
  unfolding compare_and_update
  covered-in_change px py partial =
      ground (arith, c.same_shape, empty found, merge_all-covered found px py, scan)
    where
      found : List DamageRegion
      found =
          (scan_rows t f (tile_count f.height t.options.tile_height)
            (tile_count f.width t.options.tile_width) 0 [] 0).0

      empty : (rs : List DamageRegion) → length rs ≡ 0 → covered rs px py ≡ false
      empty [] h = refl
      empty (r ∷ rs) h = absurd (omega arith)

      scan : covered found px py ≡ in_change t f px py
      scan =
          scan_rows-covered t f px py _ _ 0 [] 0 c.tile_width
            (tile_count-fits f.width t.options.tile_width c.width c.tile_width)

  -- For a frame of the same shape that has pixels, with rows of less than 2^31 bytes and tiles that have
  -- a size, unless the whole frame is to be drawn, the regions reported cover a pixel exactly if it lies
  -- in a tile with a changed row, after the merging of strips too; and a pixel that they do not cover
  -- has each of its bytes as in the frame before.
  pub covered-compare_and_update :
      (px py : ℕ)
      → (compare_and_update is_large f t).0.is_full_frame ≡ false
      → (covered (compare_and_update is_large f t).0.regions px py ≡ in_change t f px py)
        × ((k : ℕ)
            → px < f.width
            → py < f.height
            → k < f.pixel_bytes
            → covered (compare_and_update is_large f t).0.regions px py ≡ false
            → byte_at t f px py k ≡ previous_at t f px py k)
  covered-compare_and_update px py partial =
      let exact = covered-in_change px py partial in
      (
        exact,
        λ k hx hy hk outside.
            outside_same t f px py k c.row_fits c.tile_width c.tile_height hx hy hk
              (sym exact ∙ outside),
      )

  -- So no change is missed: if a byte of a pixel differs from the frame before, either the whole frame
  -- is to be drawn or a region reported covers the pixel.
  pub change_covered :
      (px py k : ℕ)
      → px < f.width
      → py < f.height
      → k < f.pixel_bytes
      → byte_at t f px py k ≢ previous_at t f px py k
      → (compare_and_update is_large f t).0.is_full_frame ≡ false
      → covered (compare_and_update is_large f t).0.regions px py ≡ true
  change_covered px py k hx hy hk differs partial =
      elim (Bool-cases (covered (compare_and_update is_large f t).0.regions px py)) [
        | inl e ↦ e
        | inr e ↦ absurd (differs ((covered-compare_and_update px py partial).1 k hx hy hk e))
      ]

-- With no tile changed the scan finds nothing.
module _ (t : Tracker) (f : Source)
    (same : (tile_x tile_y : ℕ) → tile_changed t f tile_x tile_y ≡ false) where
  scan_row-same :
      (tiles tile_x tile_y changed : ℕ)
      → scan_row t f tiles tile_x tile_y [] no_region changed ≡ ([], no_region, changed)
  unfolding scan_row next_regions next_active
  scan_row-same zero tile_x tile_y changed = refl
  scan_row-same (suc tiles) tile_x tile_y changed =
      rw (same tile_x tile_y) (scan_row-same tiles (suc tile_x) tile_y changed)

  scan_rows-same :
      (rows tiles_x tile_y changed : ℕ)
      → scan_rows t f rows tiles_x tile_y [] changed ≡ ([], changed)
  unfolding scan_rows
  scan_rows-same zero tiles_x tile_y changed = refl
  scan_rows-same (suc rows) tiles_x tile_y changed =
      rw (scan_row-same tiles_x 0 tile_y changed) (scan_rows-same rows tiles_x (suc tile_y) changed)

same_list_refl : (xs : List ℕ) → same_list xs xs ≡ true
same_list_refl [] = refl
same_list_refl (x ∷ xs) = ground (arith, same_list_refl xs)

has_same_shape-copy_frame : (f : Source) (t : Tracker) → has_same_shape (copy_frame f t) f ≡ true
unfolding has_same_shape copy_frame
has_same_shape-copy_frame f t =
    ground (arith, same_list_refl f.palette, sizes f.width f.height f.pixel_bytes)
  where
    sizes : (w h p : ℕ) → w * p * h ≡ w * h * p
    sizes w h p = omega arith

pub tracker-compare_and_update :
    (is_large : ℕ → ℕ → Bool) (t : Tracker) (f : Source)
    → (compare_and_update is_large f t).1 ≡ copy_frame f t
unfolding compare_and_update
tracker-compare_and_update is_large t f = ground arith

-- The tracker's copy of a frame has each of its bytes, whatever the stride.
pub byte_at-copy_frame :
    (f : Source) (t : Tracker) (px py k : ℕ)
    → px < f.width
    → py < f.height
    → k < f.pixel_bytes
    → byte_at (copy_frame f t) f px py k ≡ previous_at (copy_frame f t) f px py k
unfolding copy_frame
byte_at-copy_frame f t px py k hx hy hk = sym (
    copy_rows_lem f.height 0 f.bytes f.stride (f.width * f.pixel_bytes) t.previous py
      (px * f.pixel_bytes + k) (omega arith) (omega arith)
      (row_fits px f.width f.pixel_bytes k hx hk))

-- After a frame with rows of less than 2^31 bytes was compared, whatever the tracker held before, the same frame compared again has no
-- changes: the tracker has kept each of its bytes, its shape and its palette.
pub compare_again :
    (is_large : ℕ → ℕ → Bool) (t : Tracker) (f : Source)
    → RowFits f
    → (compare_and_update is_large f (compare_and_update is_large f t).1).0 ≡ no_changes
unfolding compare_and_update
compare_again is_large t f fits = rw (
  tracker-compare_and_update is_large t f,
  has_same_shape-copy_frame f t,
  scan_rows-same (copy_frame f t) f unchanged,
)
  where
    unchanged : (tile_x tile_y : ℕ) → tile_changed (copy_frame f t) f tile_x tile_y ≡ false
    unchanged tile_x tile_y =
        same_unchanged (copy_frame f t) f tile_x tile_y fits (byte_at-copy_frame f t)
