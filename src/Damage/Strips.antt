-- ===== src/Damage/Strips.antt =====
-- The scan of the tiles: the strips that it finds cover exactly the changed tiles.
use rasterm.Base.{
  ℕ, zero, suc, ◌+◌, ◌*◌, ◌<◌, min, ◌≡◌, refl, ◌∙◌, Bool, true, false, ◌&&◌, ◌||◌, List, [], ◌∷◌,
  ◌++◌, leb, ltb, if◌then◌else◌, arith,
}
use rasterm.Damage.Rect.{DamageRegion, is_valid, no_region, covers, covered}
use rasterm.Damage.{
  Tracker, Source, tile_changed, tile_left, tile_top, width_at, height_at, next_active,
  next_regions, scan_row, scan_rows,
}

covered-append :
    (rs ss : List DamageRegion) (px py : ℕ)
    → covered (rs ++ ss) px py ≡ (covered rs px py || covered ss px py)
covered-append [] ss px py = refl
covered-append (r ∷ rs) ss px py = ground (arith, covered-append rs ss px py)

module _ (t : Tracker) (f : Source) (px py : ℕ) where
  -- Whether the pixel lies in a tile that changed.
  abbrev pub in_changed_tile : ℕ → ℕ → Bool
  in_changed_tile tile_x tile_y =
      tile_changed t f tile_x tile_y
      && ((leb (tile_left t f tile_x) px && ltb px (tile_left t f tile_x + width_at t f tile_x))
          && (leb (tile_top t f tile_y) py && ltb py (tile_top t f tile_y + height_at t f tile_y)))

  -- The same for one of `tiles` tiles from `tile_x` on, and for `rows` rows of them.
  abbrev pub in_changed_row : ℕ → ℕ → ℕ → Bool
  in_changed_row zero tile_x tile_y = false
  in_changed_row (suc tiles) tile_x tile_y =
      in_changed_tile tile_x tile_y || in_changed_row tiles (suc tile_x) tile_y

  abbrev pub in_changed_rows : ℕ → ℕ → ℕ → Bool
  in_changed_rows zero tiles_x tile_y = false
  in_changed_rows (suc rows) tiles_x tile_y =
      in_changed_row tiles_x 0 tile_y || in_changed_rows rows tiles_x (suc tile_y)

  -- A strip under way ends where the next tile begins.
  abbrev Grows : DamageRegion → ℕ → ℕ → Type 0
  Grows active tile_x tile_y =
      is_valid active ≡ true
      → (active.x + active.width ≡ min (tile_left t f tile_x) f.width)
        × (active.y ≡ tile_top t f tile_y)
        × (active.height ≡ height_at t f tile_y)

  -- The strips of a row with the one under way at its end.
  abbrev close : List DamageRegion × DamageRegion × ℕ → List DamageRegion
  close (found, active, changed) = if is_valid active then found ++ active ∷ [] else found

  next-covered :
      (tile_x tile_y : ℕ) (regions : List DamageRegion) (active : DamageRegion)
      → tile_left t f tile_x < f.width
      → Grows active tile_x tile_y
      → (covered (next_regions t f tile_x tile_y regions active) px py
          || covers (next_active t f tile_x tile_y active) px py)
        ≡ ((covered regions px py || covers active px py) || in_changed_tile tile_x tile_y)
  unfolding next_regions next_active
  next-covered tile_x tile_y regions active inside g =
      ground (arith, covered-append regions (active ∷ []) px py)

  next-Grows :
      (tile_x tile_y : ℕ) (active : DamageRegion)
      → tile_left t f tile_x < f.width
      → Grows active tile_x tile_y
      → Grows (next_active t f tile_x tile_y active) (suc tile_x) tile_y
  unfolding next_active
  next-Grows tile_x tile_y active inside g = ground arith

  scan_row-covered :
      (tiles tile_x tile_y : ℕ) (regions : List DamageRegion) (active : DamageRegion) (changed : ℕ)
      → 0 < t.options.tile_width
      → (tile_x + tiles) * t.options.tile_width < f.width + t.options.tile_width
      → Grows active tile_x tile_y
      → covered (close (scan_row t f tiles tile_x tile_y regions active changed)) px py
        ≡ ((covered regions px py || covers active px py) || in_changed_row tiles tile_x tile_y)
  unfolding scan_row
  scan_row-covered zero tile_x tile_y regions active changed pos fits g =
      ground (arith, covered-append regions (active ∷ []) px py)
  scan_row-covered (suc tiles) tile_x tile_y regions active changed pos fits g =
      let inside : tile_left t f tile_x < f.width = grind arith in
      scan_row-covered tiles (suc tile_x) tile_y (next_regions t f tile_x tile_y regions active)
        (next_active t f tile_x tile_y active) _ pos (omega arith)
        (next-Grows tile_x tile_y active inside g)
      ∙ ground (arith, next-covered tile_x tile_y regions active inside g)

  pub scan_rows-covered :
      (rows tiles_x tile_y : ℕ) (regions : List DamageRegion) (changed : ℕ)
      → 0 < t.options.tile_width
      → tiles_x * t.options.tile_width < f.width + t.options.tile_width
      → covered (scan_rows t f rows tiles_x tile_y regions changed).0 px py
        ≡ (covered regions px py || in_changed_rows rows tiles_x tile_y)
  unfolding scan_rows
  scan_rows-covered zero tiles_x tile_y regions changed pos fits = ground arith
  scan_rows-covered (suc rows) tiles_x tile_y regions changed pos fits =
      let r = scan_row t f tiles_x 0 tile_y regions no_region changed in
      scan_rows-covered rows tiles_x (suc tile_y) (close r) r.2 pos fits
      ∙ ground (
        arith,
        scan_row-covered tiles_x 0 tile_y regions no_region changed pos (omega arith) (λ h. cc),
      )
