-- ===== src/Renderer/Lossless.antt =====
-- No step between the damage and the presentation loses a pixel: neither the alignment to cells nor the
-- plan.
use rasterm.Base.{
  ℕ, ◌+◌, ◌-◌, ◌*◌, ◌/◌, ◌%◌, ◌≤◌, ◌<◌, max, ◌≡◌, refl, ◌∙◌, inl, inr, Bool, true, false, ◌||◌,
  List, [], ◌∷◌, map, leb, ◌==◌, if◌then◌else◌, Bool-cases, length, arith,
}
use native.Mathlib.Nat.{mul-mod_left}
use rasterm.Damage.Rect.{DamageRegion, covers, covered}
use rasterm.Renderer.Plan.{
  TerminalCellPixels, align_to_terminal_cells, area, bounds, total_area, box_around,
  normalize_damage, plan_normal, plan_damage_presentation,
}
use rasterm.Renderer.Normalize.{normalize_damage-covered}

-- Rounding down and up to a multiple.
round_down : (x c : ℕ) → 0 < c → x / c * c ≤ x
round_down x c pos = omega arith

round_up : (x c : ℕ) → 0 < c → x ≤ (x + c - 1) / c * c
round_up x c pos = omega arith

-- The region aligned to cells begins at a cell, ends at a cell or with the frame, does not leave the
-- frame, and has each pixel of the region that is inside the frame.
pub align_to_terminal_cells_lem :
    (region : DamageRegion) (frame_width frame_height : ℕ) (cells : TerminalCellPixels)
    → 0 < cells.cell_width
    → 0 < cells.cell_height
    → let aligned = align_to_terminal_cells region frame_width frame_height cells in
      ((px py : ℕ)
        → px < frame_width
        → py < frame_height
        → covers region px py ≡ true
        → covers aligned px py ≡ true)
      × ((px py : ℕ) → covers aligned px py ≡ true → (px < frame_width) × (py < frame_height))
      × (aligned.x % cells.cell_width ≡ 0)
      × (aligned.y % cells.cell_height ≡ 0)
unfolding align_to_terminal_cells
align_to_terminal_cells_lem region frame_width frame_height cells posw posh = (
  (λ px py hx hy h. inside px py hx hy h),
  (λ px py h. (ground arith, ground arith)),
  mul-mod_left (region.x / cells.cell_width) cells.cell_width,
  mul-mod_left (region.y / cells.cell_height) cells.cell_height,
)
  where
    inside :
        (px py : ℕ)
        → px < frame_width
        → py < frame_height
        → covers region px py ≡ true
        → covers (align_to_terminal_cells region frame_width frame_height cells) px py ≡ true
    inside px py hx hy h = ground (
      arith,
      h,
      round_down region.x cells.cell_width posw,
      round_down region.y cells.cell_height posh,
      round_up (region.x + region.width) cells.cell_width posw,
      round_up (region.y + region.height) cells.cell_height posh,
    )

or_right : (a b : Bool) → b ≡ true → (a || b) ≡ true
or_right true b e = refl
or_right false b e = e

pub aligned-covered :
    (regions : List DamageRegion) (frame_width frame_height : ℕ) (cells : TerminalCellPixels)
    (px py : ℕ)
    → 0 < cells.cell_width
    → 0 < cells.cell_height
    → px < frame_width
    → py < frame_height
    → covered regions px py ≡ true
    → covered
        (map (λ region. align_to_terminal_cells region frame_width frame_height cells) regions)
        px
        py
      ≡ true
aligned-covered [] w h cells px py posw posh hx hy c = c
aligned-covered (r ∷ rs) w h cells px py posw posh hx hy c = elim (Bool-cases (covers r px py)) [
  | inl here ↦ rw ((align_to_terminal_cells_lem r w h cells posw posh).0 px py hx hy here)
  | inr later ↦ or_right _ _ (aligned-covered rs w h cells px py posw posh hx hy (rw later at c))
]

-- The box around regions covers each of them.
box-covers :
    (px py : ℕ) (box : DamageRegion) (rs : List DamageRegion)
    → (covers box px py || covered rs px py) ≡ true
    → covers (box_around box rs) px py ≡ true
box-covers px py box [] h = ground (arith, h)
box-covers px py box (r ∷ rs) h =
    box-covers px py (bounds box r) rs (wider box r (covered rs px py) h)
  where
    wider :
        (l m : DamageRegion) (rest : Bool)
        → (covers l px py || (covers m px py || rest)) ≡ true
        → (covers (bounds l m) px py || rest) ≡ true
    wider l m rest e = ground (arith, e)

plan_normal-covered :
    (is_large : ℕ → ℕ → Bool) (rs : List DamageRegion) (frame_area : ℕ) (cells : TerminalCellPixels)
    (px py : ℕ)
    → covered rs px py ≡ true
    → (plan_normal is_large rs frame_area cells).0 ≡ false
    → covered (plan_normal is_large rs frame_area cells).1 px py ≡ true
unfolding plan_normal
plan_normal-covered is_large [] frame_area cells px py h partial = h
plan_normal-covered is_large (r ∷ rs) frame_area cells px py h partial =
    let changed = total_area (r ∷ rs) in
    let box = box_around r (r ∷ rs) in
    let cost = cells.cell_width * cells.cell_height * 2 * (length (r ∷ rs) - 1) in
    let allowance = changed / (if leb 8 (length (r ∷ rs)) then 4 else 8) in
    picked (is_large changed frame_area) (length (r ∷ rs) == 1)
      (leb (area box) (changed + max cost allowance)) (is_large (area box) frame_area) partial
  where
    pick : Bool → Bool → Bool → Bool → Bool × List DamageRegion
    pick a b c d =
        if a
        then (true, r ∷ rs)
        else if b
        then (false, r ∷ rs)
        else if c
        then (d, box_around r (r ∷ rs) ∷ [])
        else (false, r ∷ rs)

    picked : (a b c d : Bool) → (pick a b c d).0 ≡ false → covered (pick a b c d).1 px py ≡ true
    picked true b c d e = h
    picked false true c d e = h
    picked false false true d e = rw (box-covers px py r (r ∷ rs) (or_right (covers r px py) _ h))
    picked false false false d e = h

-- The plan covers each pixel of the regions that it is given, unless it is to draw the whole frame.
pub plan_damage_presentation-covered :
    (is_large : ℕ → ℕ → Bool) (rs : List DamageRegion) (w h : ℕ) (cells : TerminalCellPixels)
    (px py : ℕ)
    → covered rs px py ≡ true
    → (plan_damage_presentation is_large rs w h cells).0 ≡ false
    → covered (plan_damage_presentation is_large rs w h cells).1 px py ≡ true
unfolding plan_damage_presentation
plan_damage_presentation-covered is_large [] w h cells px py c partial = c
plan_damage_presentation-covered is_large (r ∷ rs) w h cells px py c partial = rw nonzero_length (
    plan_normal-covered is_large (normalize_damage (r ∷ rs)) (w * h) cells px py
      (normalize_damage-covered px py (r ∷ rs) ∙ c) (rw nonzero_length at partial))
  where
    nonzero_length : (length (r ∷ rs) == 0) ≡ false
    nonzero_length = ground arith
