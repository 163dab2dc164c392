-- ===== src/Renderer/Aligned.antt =====
-- What `renderFrame` chooses to draw begins at the corners of cells, where the terminal can put it: the
-- tiles of the tracker are whole cells, regions that are supplied are aligned, and no merge moves a
-- corner to a place between cells.
use native.Mathlib.Nat.{mul-mod_left}
use rasterm.Base.{
  ℕ, zero, suc, ◌+◌, ◌-◌, ◌*◌, ◌/◌, ◌%◌, min, max, ◌≡◌, inl, inr, Bool, true, false, not, Option,
  none, some, List, [], ◌∷◌, map, Bool-cases, Option-cases, if◌then◌else◌, length, ◌==◌, leb, All,
  arith,
}
use rasterm.Damage.Rect.{DamageRegion}
use rasterm.Damage.Origins.{IsAligned}
use rasterm.Renderer.Plan.{
  TerminalCellPixels, align_to_terminal_cells, area, bounds, merge_without_inflation, merge_with,
  merge_once, merge_rounds, is_before, insert_region, sort_regions, normalize_damage, total_area,
  box_around, plan_normal, plan_damage_presentation,
}

min-multiple : (a b c : ℕ) → a % c ≡ 0 → b % c ≡ 0 → min a b % c ≡ 0
min-multiple a b c h h' = ground (arith, h, h')

module _ (cells : TerminalCellPixels) where
  abbrev pub InCells : DamageRegion → Type 0
  InCells r = IsAligned cells.cell_width cells.cell_height r

  pub align-InCells :
      (w h : ℕ) (rs : List DamageRegion)
      → All InCells (map (λ r. align_to_terminal_cells r w h cells) rs)
  unfolding align_to_terminal_cells
  align-InCells w h [] = tt
  align-InCells w h (r ∷ rs) = (
    (
      mul-mod_left (r.x / cells.cell_width) cells.cell_width,
      mul-mod_left (r.y / cells.cell_height) cells.cell_height,
    ),
    align-InCells w h rs,
  )

  bounds-InCells : (l r : DamageRegion) → InCells l → InCells r → InCells (bounds l r)
  bounds-InCells l r p q = (
    min-multiple l.x r.x cells.cell_width p.0 q.0,
    min-multiple l.y r.y cells.cell_height p.1 q.1,
  )

  box-InCells :
      (box : DamageRegion) (rs : List DamageRegion)
      → InCells box
      → All InCells rs
      → InCells (box_around box rs)
  box-InCells box [] p a = p
  box-InCells box (r ∷ rs) p a = box-InCells (bounds box r) rs (bounds-InCells box r p a.0) a.1

  -- What a merge gives, if it merges.
  abbrev Given : {A : Type 0} → (A → Type 0) → Option A → Type 0
  Given P none = Unit {0}
  Given P (some x) = P x

  merge_without_inflation-InCells :
      (l r : DamageRegion) → InCells l → InCells r → Given InCells (merge_without_inflation l r)
  unfolding merge_without_inflation
  merge_without_inflation-InCells l r p q = given _
    where
      given : (b : Bool) → Given InCells (if not b then none else some (bounds l r))
      given true = bounds-InCells l r p q
      given false = tt

  merge_with-InCells :
      (r : DamageRegion) (rs : List DamageRegion)
      → InCells r
      → All InCells rs
      → Given
          (λ (m : DamageRegion × List DamageRegion). InCells m.0 × All InCells m.1)
          (merge_with r rs)
  unfolding merge_with
  merge_with-InCells r [] p a = tt
  merge_with-InCells r (s ∷ rs) p a = elim (Option-cases (merge_without_inflation r s)) [
    | inr (m, merged) ↦
        let q : InCells m = rw merged at (merge_without_inflation-InCells r s p a.0) in
        rw (merged, merge_with) (q, a.1)
    | inl kept ↦ elim (Option-cases (merge_with r rs)) [
      | inl none_found ↦ rw (kept, none_found, merge_with) tt
      | inr ((m, rest), found) ↦
          let ih : InCells m × All InCells rest = rw found at (merge_with-InCells r rs p a.1) in
          rw (kept, found, merge_with) (ih.0, (a.0, ih.1))
    ]
  ]

  merge_once-InCells :
      (rs : List DamageRegion) → All InCells rs → Given (All InCells) (merge_once rs)
  unfolding merge_once
  merge_once-InCells [] a = tt
  merge_once-InCells (r ∷ rs) a = elim (Option-cases (merge_with r rs)) [
    | inr ((m, rest), found) ↦
        let ih : InCells m × All InCells rest = rw found at (merge_with-InCells r rs a.0 a.1) in
        rw (found, merge_once) ih
    | inl none_found ↦ elim (Option-cases (merge_once rs)) [
      | inl done ↦ rw (none_found, done, merge_once) tt
      | inr (rest, found) ↦
          let ih : All InCells rest = rw found at (merge_once-InCells rs a.1) in
          rw (none_found, found, merge_once) (a.0, ih)
    ]
  ]

  merge_rounds-InCells :
      (fuel : ℕ) (rs : List DamageRegion) → All InCells rs → All InCells (merge_rounds fuel rs)
  unfolding merge_rounds
  merge_rounds-InCells zero rs a = a
  merge_rounds-InCells (suc fuel) rs a = elim (Option-cases (merge_once rs)) [
    | inl done ↦ rw (done, merge_rounds) a
    | inr (rs', found) ↦
        let m : All InCells rs' = rw found at (merge_once-InCells rs a) in
        rw (found, merge_rounds) (merge_rounds-InCells fuel rs' m)
  ]

  insert_region-InCells :
      (r : DamageRegion) (rs : List DamageRegion)
      → InCells r
      → All InCells rs
      → All InCells (insert_region r rs)
  insert_region-InCells r [] p a = (p, tt)
  insert_region-InCells r (s ∷ rs) p a = elim (Bool-cases (is_before r s)) [
    | inl first ↦ rw first (p, a)
    | inr later ↦ rw later (a.0, insert_region-InCells r rs p a.1)
  ]

  sort_regions-InCells : (rs : List DamageRegion) → All InCells rs → All InCells (sort_regions rs)
  sort_regions-InCells [] a = tt
  sort_regions-InCells (r ∷ rs) a =
      insert_region-InCells r (sort_regions rs) a.0 (sort_regions-InCells rs a.1)

  pub normalize_damage-InCells :
      (rs : List DamageRegion) → All InCells rs → All InCells (normalize_damage rs)
  unfolding normalize_damage
  normalize_damage-InCells rs a =
      sort_regions-InCells (merge_rounds (length rs) rs) (merge_rounds-InCells (length rs) rs a)

  plan_normal-InCells :
      (is_large : ℕ → ℕ → Bool) (rs : List DamageRegion) (frame_area : ℕ)
      → All InCells rs
      → All InCells (plan_normal is_large rs frame_area cells).1
  unfolding plan_normal
  plan_normal-InCells is_large [] frame_area a = tt
  plan_normal-InCells is_large (r ∷ rs) frame_area a =
      let changed = total_area (r ∷ rs) in
      let box = box_around r (r ∷ rs) in
      let cost = cells.cell_width * cells.cell_height * 2 * (length (r ∷ rs) - 1) in
      let allowance = changed / (if leb 8 (length (r ∷ rs)) then 4 else 8) in
      picked (is_large changed frame_area) (length (r ∷ rs) == 1)
        (leb (area box) (changed + max cost allowance)) (is_large (area box) frame_area)
    where
      pick : Bool → Bool → Bool → Bool → Bool × List DamageRegion
      pick b c d e =
          if b
          then (true, r ∷ rs)
          else if c
          then (false, r ∷ rs)
          else if d
          then (e, box_around r (r ∷ rs) ∷ [])
          else (false, r ∷ rs)

      picked : (b c d e : Bool) → All InCells (pick b c d e).1
      picked true c d e = a
      picked false true d e = a
      picked false false true e = (box-InCells r (r ∷ rs) a.0 a, tt)
      picked false false false e = a

  pub plan_damage_presentation-InCells :
      (is_large : ℕ → ℕ → Bool) (rs : List DamageRegion) (w h : ℕ)
      → All InCells rs
      → All InCells (plan_damage_presentation is_large rs w h cells).1
  unfolding plan_damage_presentation
  plan_damage_presentation-InCells is_large [] w h a = tt
  plan_damage_presentation-InCells is_large (r ∷ rs) w h a = rw nonzero_length (
      plan_normal-InCells is_large (normalize_damage (r ∷ rs)) (w * h)
        (normalize_damage-InCells (r ∷ rs) a))
    where
      nonzero_length : (length (r ∷ rs) == 0) ≡ false
      nonzero_length = ground arith
