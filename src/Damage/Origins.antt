-- ===== src/Damage/Origins.antt =====
-- Where the regions of a comparison begin: at the corners of tiles. With tiles that are whole cells, at
-- the corners of cells.
use native.Mathlib.Nat.{mul-mod_left}
use rasterm.Base.{
  ℕ, zero, suc, ◌+◌, ◌*◌, ◌/◌, ◌%◌, ◌<◌, ◌≡◌, ap, ◌∙◌, inl, inr, Bool, true, false, not, ◌&&◌, List,
  [], ◌∷◌, ◌++◌, Bool-cases, if◌then◌else◌, length, ◌==◌, All, arith,
}
use rasterm.Damage.Rect.{
  DamageRegion, is_valid, no_region, stands_on, merge_into, merge_loop, merge_all,
}
use rasterm.Damage.{
  DamageResult, Tracker, Source, full_frame, no_changes, has_same_shape, copy_frame, tile_count,
  tile_changed, next_active, next_regions, scan_row, scan_rows, compare_and_update,
}

-- The region begins at the corner of a cell of `width` by `height` pixels.
abbrev pub IsAligned : ℕ → ℕ → DamageRegion → Type 0
IsAligned width height r = (r.x % width ≡ 0) × (r.y % height ≡ 0)

pub mul-multiple : (k n c : ℕ) → 0 < c → n % c ≡ 0 → k * n % c ≡ 0
mul-multiple k n c pos h =
    let whole : n ≡ n / c * c = omega (arith, h) in
    let again : k * n ≡ k * (n / c) * c = ap (λ m. k * m) whole ∙ omega arith in
    ap (λ m. m % c) again ∙ mul-mod_left (k * (n / c)) c

zero-multiple : (c : ℕ) → 0 < c → 0 % c ≡ 0
zero-multiple c pos = omega arith

module _ (P : DamageRegion → Type 0) where
  All-snoc : (rs : List DamageRegion) (r : DamageRegion) → All P rs → P r → All P (rs ++ r ∷ [])
  All-snoc [] r a p = (p, tt)
  All-snoc (s ∷ rs) r a p = (a.0, All-snoc rs r a.1 p)

  All-if :
      (b : Bool) (rs ss : List DamageRegion) → All P rs → All P ss → All P (if b then rs else ss)
  All-if true rs ss p q = p
  All-if false rs ss p q = q

  if-either : (b : Bool) (r s : DamageRegion) → P r → P s → P (if b then r else s)
  if-either true r s p q = p
  if-either false r s p q = q

module _ (width height : ℕ) (w : 0 < width) (h : 0 < height) where
  merge_into-IsAligned :
      (r : DamageRegion) (rs : List DamageRegion)
      → IsAligned width height r
      → All (IsAligned width height) rs
      → IsAligned width height (merge_into r rs).0
        × All (IsAligned width height) (merge_into r rs).1
  unfolding merge_into
  merge_into-IsAligned r [] p a = (p, a)
  merge_into-IsAligned r (s ∷ rs) p a = elim (Bool-cases (stands_on r s)) [
    | inl taken ↦
        rw (taken, merge_into)
          (merge_into-IsAligned (record r { height = r.height + s.height }) rs p a.1)
    | inr kept ↦
        let ih = merge_into-IsAligned r rs p a.1 in rw (kept, merge_into) (ih.0, (a.0, ih.1))
  ]

  merge_loop-IsAligned :
      (fuel : ℕ) (rs : List DamageRegion)
      → All (IsAligned width height) rs
      → All (IsAligned width height) (merge_loop fuel rs)
  unfolding merge_loop
  merge_loop-IsAligned zero rs a = a
  merge_loop-IsAligned (suc fuel) [] a = a
  merge_loop-IsAligned (suc fuel) (r ∷ rs) a =
      let m = merge_into-IsAligned r rs a.0 a.1 in
      (m.0, merge_loop-IsAligned fuel (merge_into r rs).1 m.1)

  module _ (t : Tracker) (f : Source) (tw : t.options.tile_width % width ≡ 0)
      (th : t.options.tile_height % height ≡ 0) where
    next_active-IsAligned :
        (tile_x tile_y : ℕ) (active : DamageRegion)
        → IsAligned width height active
        → IsAligned width height (next_active t f tile_x tile_y active)
    unfolding next_active
    next_active-IsAligned tile_x tile_y active p =
        if-either (IsAligned width height) (tile_changed t f tile_x tile_y) _ _
          (if-either (IsAligned width height) (is_valid active) _ _ p
            (mul-multiple tile_x _ width w tw, mul-multiple tile_y _ height h th))
          (if-either (IsAligned width height) (is_valid active) _ _
            (zero-multiple width w, zero-multiple height h) p)

    next_regions-IsAligned :
        (tile_x tile_y : ℕ) (rs : List DamageRegion) (active : DamageRegion)
        → All (IsAligned width height) rs
        → IsAligned width height active
        → All (IsAligned width height) (next_regions t f tile_x tile_y rs active)
    unfolding next_regions
    next_regions-IsAligned tile_x tile_y rs active a p =
        All-if (IsAligned width height) (not (tile_changed t f tile_x tile_y) && is_valid active) _
          _ (All-snoc (IsAligned width height) rs active a p) a

    scan_row-IsAligned :
        (tiles tile_x tile_y : ℕ) (rs : List DamageRegion) (active : DamageRegion) (changed : ℕ)
        → All (IsAligned width height) rs
        → IsAligned width height active
        → All (IsAligned width height) (scan_row t f tiles tile_x tile_y rs active changed).0
          × IsAligned width height (scan_row t f tiles tile_x tile_y rs active changed).1
    unfolding scan_row
    scan_row-IsAligned zero tile_x tile_y rs active changed a p = (a, p)
    scan_row-IsAligned (suc tiles) tile_x tile_y rs active changed a p =
        scan_row-IsAligned tiles (suc tile_x) tile_y _ _ _
          (next_regions-IsAligned tile_x tile_y rs active a p)
          (next_active-IsAligned tile_x tile_y active p)

    scan_rows-IsAligned :
        (rows tiles_x tile_y : ℕ) (rs : List DamageRegion) (changed : ℕ)
        → All (IsAligned width height) rs
        → All (IsAligned width height) (scan_rows t f rows tiles_x tile_y rs changed).0
    unfolding scan_rows
    scan_rows-IsAligned zero tiles_x tile_y rs changed a = a
    scan_rows-IsAligned (suc rows) tiles_x tile_y rs changed a =
        let row = scan_row t f tiles_x 0 tile_y rs no_region changed in
        let found =
          scan_row-IsAligned tiles_x 0 tile_y rs no_region changed a
            (zero-multiple width w, zero-multiple height h) in
        scan_rows-IsAligned rows tiles_x (suc tile_y) _ row.2 (
          All-if (IsAligned width height) (is_valid row.1) _ _
            (All-snoc (IsAligned width height) row.0 row.1 found.0 found.1) found.0)

    -- With tiles of whole cells, every region that a comparison reports begins at the corner of a cell.
    pub compare_and_update-IsAligned :
        (is_large : ℕ → ℕ → Bool)
        → All (IsAligned width height) (compare_and_update is_large f t).0.regions
    unfolding compare_and_update merge_all
    compare_and_update-IsAligned is_large =
        picked (has_same_shape t f) (length found == 0) (is_large changed (f.width * f.height))
      where
        scanned : List DamageRegion × ℕ
        scanned =
            scan_rows t f (tile_count f.height t.options.tile_height)
              (tile_count f.width t.options.tile_width) 0 [] 0

        found : List DamageRegion
        found = scanned.0

        changed : ℕ
        changed = scanned.1

        pick : Bool → Bool → Bool → DamageResult × Tracker
        pick a b c =
            if not a
            then (full_frame, copy_frame f t)
            else if b
            then (no_changes, copy_frame f t)
            else if c
            then (
              record full_frame { changed = changed; total = f.width * f.height },
              copy_frame f t,
            )
            else (
              record {
                is_full_frame = false;
                has_changes = true;
                changed = changed;
                total = f.width * f.height;
                regions = merge_all found;
              },
              copy_frame f t,
            )

        picked : (a b c : Bool) → All (IsAligned width height) (pick a b c).0.regions
        picked false b c = tt
        picked true true c = tt
        picked true false true = tt
        picked true false false =
            merge_loop-IsAligned (length found) found (scan_rows-IsAligned _ _ 0 [] 0 tt)
