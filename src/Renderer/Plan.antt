-- ===== src/Renderer/Plan.antt =====
-- The regions that are drawn: their alignment to the terminal's cells, their merging, and the choice
-- between regions, one box around them and the whole frame. The regions lie within a frame, so none of
-- the sums overflows. The comparison of an area with a share of the frame's, in floating point, is the
-- parameter `is_large`.
use rasterm.Base.{
  ℕ, zero, suc, ◌+◌, ◌-◌, ◌*◌, ◌/◌, min, max, Bool, true, false, not, ◌&&◌, Option, none, some,
  List, [], ◌∷◌, ltb, leb, ◌==◌, if◌then◌else◌, length,
}
use rasterm.Damage.Rect.{DamageRegion}

pub record TerminalCellPixels : Type 0 where
  pub cell_width : ℕ
  pub cell_height : ℕ

-- `alignToTerminalCells`.
unfoldable pub align_to_terminal_cells : DamageRegion → ℕ → ℕ → TerminalCellPixels → DamageRegion
align_to_terminal_cells region frame_width frame_height cells =
    let x = region.x / cells.cell_width * cells.cell_width in
    let y = region.y / cells.cell_height * cells.cell_height in
    let right = region.x + region.width in
    let bottom = region.y + region.height in
    let aligned_right = (right + cells.cell_width - 1) / cells.cell_width * cells.cell_width in
    let aligned_bottom = (bottom + cells.cell_height - 1) / cells.cell_height * cells.cell_height in
    record {
      x = x;
      y = y;
      width = min frame_width aligned_right - x;
      height = min frame_height aligned_bottom - y;
    }

abbrev pub area : DamageRegion → ℕ
area region = region.width * region.height

-- The smallest box around two regions, and the extents of their overlap.
abbrev pub bounds : DamageRegion → DamageRegion → DamageRegion
bounds left right =
    let x1 = min left.x right.x in
    let y1 = min left.y right.y in
    let x2 = max (left.x + left.width) (right.x + right.width) in
    let y2 = max (left.y + left.height) (right.y + right.height) in
    record { x = x1; y = y1; width = x2 - x1; height = y2 - y1 }

abbrev pub overlap_width : DamageRegion → DamageRegion → ℕ
overlap_width left right = min (left.x + left.width) (right.x + right.width) - max left.x right.x

abbrev pub overlap_height : DamageRegion → DamageRegion → ℕ
overlap_height left right = min (left.y + left.height) (right.y + right.height) - max left.y right.y

-- `mergeWithoutInflation`: what the left region becomes, if the two are merged.
unfoldable pub merge_without_inflation : DamageRegion → DamageRegion → Option DamageRegion
merge_without_inflation left right =
    let union_area =
      area left + area right - overlap_width left right * overlap_height left right in
    if not (area (bounds left right) == union_area) then none else some (bounds left right)

-- The inner loop of `normalizeDamage`: the first later region that `region` merges with is erased.
unfoldable pub merge_with :
    DamageRegion → List DamageRegion → Option (DamageRegion × List DamageRegion)
unfolding merge_without_inflation
merge_with region [] = none
merge_with region (other ∷ rest) = elim (merge_without_inflation region other) [
  | some merged ↦ some (merged, rest)
  | none ↦ elim (merge_with region rest) [
    | none ↦ none
    | some (merged, rest') ↦ some (merged, other ∷ rest')
  ]
]

-- The outer loop: the first region that merges with a later one.
unfoldable pub merge_once : List DamageRegion → Option (List DamageRegion)
unfolding merge_with
merge_once [] = none
merge_once (region ∷ rest) = elim (merge_with region rest) [
  | some (merged, rest') ↦ some (merged ∷ rest')
  | none ↦ elim (merge_once rest) [ none ↦ none | some rest' ↦ some (region ∷ rest') ]
]

-- `while (merged)`. Each merge erases a region, so their number of rounds is enough.
unfoldable pub merge_rounds : ℕ → List DamageRegion → List DamageRegion
unfolding merge_once
merge_rounds zero regions = regions
merge_rounds (suc fuel) regions = elim (merge_once regions) [
  | none ↦ regions
  | some regions' ↦ merge_rounds fuel regions'
]

-- The order of `std::sort`, by rows and then by columns, and the sort.
abbrev pub is_before : DamageRegion → DamageRegion → Bool
is_before left right = if not (left.y == right.y) then ltb left.y right.y else ltb left.x right.x

abbrev pub insert_region : DamageRegion → List DamageRegion → List DamageRegion
insert_region region [] = region ∷ []
insert_region region (other ∷ rest) =
    if is_before region other then region ∷ other ∷ rest else other ∷ insert_region region rest

abbrev pub sort_regions : List DamageRegion → List DamageRegion
sort_regions [] = []
sort_regions (region ∷ rest) = insert_region region (sort_regions rest)

unfoldable pub normalize_damage : List DamageRegion → List DamageRegion
unfolding merge_rounds
normalize_damage regions = sort_regions (merge_rounds (length regions) regions)

-- `canPresentWithoutBottomScroll`.
unfoldable pub can_present_without_bottom_scroll : List DamageRegion → ℕ → Bool
can_present_without_bottom_scroll [] frame_height = true
can_present_without_bottom_scroll (region ∷ rest) frame_height =
    not (region.y + region.height == frame_height)
    && can_present_without_bottom_scroll rest frame_height

-- The loop of `planDamagePresentation`: the sum of the areas and the box around the regions.
abbrev pub total_area : List DamageRegion → ℕ
total_area [] = 0
total_area (region ∷ rest) = area region + total_area rest

abbrev pub box_around : DamageRegion → List DamageRegion → DamageRegion
box_around box [] = box
box_around box (region ∷ rest) = box_around (bounds box region) rest

-- `planDamagePresentation` after the regions were normalized.
unfoldable pub plan_normal :
    (ℕ → ℕ → Bool) → List DamageRegion → ℕ → TerminalCellPixels → Bool × List DamageRegion
plan_normal is_large [] frame_area cells = (false, [])
plan_normal is_large (front ∷ rest) frame_area cells =
    let regions = front ∷ rest in
    let changed = total_area regions in
    let box = box_around front regions in
    let count = length regions in
    let cost = cells.cell_width * cells.cell_height * 2 * (count - 1) in
    let allowance = changed / (if leb 8 count then 4 else 8) in
    if is_large changed frame_area
    then (true, regions)
    else if count == 1
    then (false, regions)
    else if leb (area box) (changed + max cost allowance)
    then (is_large (area box) frame_area, box ∷ [])
    else (false, regions)

-- `planDamagePresentation`: whether the whole frame is drawn, and the regions it leaves.
unfoldable pub plan_damage_presentation :
    (ℕ → ℕ → Bool) → List DamageRegion → ℕ → ℕ → TerminalCellPixels → Bool × List DamageRegion
unfolding normalize_damage plan_normal
plan_damage_presentation is_large regions frame_width frame_height cells =
    if length regions == 0
    then (false, [])
    else plan_normal is_large (normalize_damage regions) (frame_width * frame_height) cells
