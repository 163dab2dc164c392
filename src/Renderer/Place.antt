-- ===== src/Renderer/Place.antt =====
-- Where the terminal puts what is drawn: the image of a region begins at the cell that `drawAtCell` moves
-- the cursor to, its y and x divided by the size of a cell. What is chosen lands where it belongs.
use mathlib.Core.Path.{subst}
use rasterm.Base.{
  ℕ, ◌+◌, ◌-◌, ◌*◌, ◌/◌, ◌%◌, ◌<◌, ◌≡◌, refl, sym, ap, ◌∙◌, inl, inr, Bool, true, false, not, ◌||◌,
  List, [], ◌∷◌, Bool-cases, if◌then◌else◌, All, arith,
}
use rasterm.Damage.Rect.{DamageRegion, covers, covered}
use rasterm.Damage.{DamageResult, Source, Tracker, compare_view}
use rasterm.Damage as Damage
use rasterm.Damage.Origins.{compare_and_update-IsAligned}
use rasterm.Renderer.Plan.{TerminalCellPixels, plan_damage_presentation}
use rasterm.Renderer.Aligned.{
  InCells, align-InCells, normalize_damage-InCells, plan_damage_presentation-InCells,
}
use rasterm.Renderer.State.{Frame, RendererOptions, Renderer}
use rasterm.Renderer.Render.{
  Choice, nothing, whole, parts, forget, supplied_damage, supplied_difference, compared_difference,
  planned, choose, cell_row, cell_column,
}
use rasterm.Renderer.Screen.{Screen, pixel, paint}
use rasterm.Renderer.Synced.{IsSized}
use rasterm.Renderer.Shown.{SameSizes, SameSizes-IsSized, forget-SameSizes}

module _ (cells : TerminalCellPixels) (f : Source) where
  -- The image of a region of the frame, drawn from the cell at a row and a column on.
  abbrev draw_at : ℕ → ℕ → DamageRegion → Screen → Screen
  draw_at row column r s px py k =
      let top = row * cells.cell_height in
      let left = column * cells.cell_width in
      if covers (record r { x = left; y = top }) px py
      then pixel f (r.x + (px - left)) (r.y + (py - top)) k
      else s px py k

  unfoldable draw_all : List DamageRegion → Screen → Screen
  draw_all [] s = s
  draw_all (r ∷ rs) s = draw_all rs (draw_at (cell_row cells r) (cell_column cells r) r s)

  -- The screen after a choice was drawn. A whole frame is drawn from the first cell on.
  unfoldable pub display : Choice → Screen → Screen
  unfolding draw_all
  display nothing s = s
  display whole s = pixel f
  display (parts regions) s = draw_all regions s

  draw_at-InCells :
      (r : DamageRegion) (s : Screen) (px py k : ℕ)
      → 0 < cells.cell_width
      → 0 < cells.cell_height
      → InCells cells r
      → draw_at (cell_row cells r) (cell_column cells r) r s px py k
        ≡ (if covers r px py then pixel f px py k else s px py k)
  draw_at-InCells r s px py k w h p =
      let left : r.x / cells.cell_width * cells.cell_width ≡ r.x = omega (arith, p.0) in
      let top : r.y / cells.cell_height * cells.cell_height ≡ r.y = omega (arith, p.1) in
      rw (left, top)
        (elim (Bool-cases (covers r px py)) [
          | inl here ↦
              let ex : r.x + (px - r.x) ≡ px = ground (arith, here) in
              let ey : r.y + (py - r.y) ≡ py = ground (arith, here) in rw (here, ex, ey)
          | inr none_here ↦ rw none_here
        ])

  draw_all-InCells :
      (rs : List DamageRegion) (s : Screen) (px py k : ℕ)
      → 0 < cells.cell_width
      → 0 < cells.cell_height
      → All (InCells cells) rs
      → draw_all rs s px py k ≡ (if covered rs px py then pixel f px py k else s px py k)
  unfolding draw_all
  draw_all-InCells [] s px py k w h a = refl
  draw_all-InCells (r ∷ rs) s px py k w h a =
      draw_all-InCells rs _ px py k w h a.1
      ∙ ap (λ v. if covered rs px py then pixel f px py k else v)
          (draw_at-InCells r s px py k w h a.0)
      ∙ either (covers r px py) (covered rs px py) (pixel f px py k) (s px py k)
    where
      either :
          (a b : Bool) (x y : ℕ) → (if b then x else if a then x else y) ≡ (if a || b then x else y)
      either true true x y = refl
      either true false x y = refl
      either false true x y = refl
      either false false x y = refl

-- The regions of a choice begin at the corners of cells.
abbrev ChoiceInCells : TerminalCellPixels → Choice → Type 0
ChoiceInCells cells nothing = Unit {0}
ChoiceInCells cells whole = Unit {0}
ChoiceInCells cells (parts regions) = All (InCells cells) regions

compare_view-InCells :
    (is_large : ℕ → ℕ → Bool) (valid : Bool) (f : Source) (t : Tracker) (cells : TerminalCellPixels)
    → 0 < cells.cell_width
    → 0 < cells.cell_height
    → t.options.tile_width % cells.cell_width ≡ 0
    → t.options.tile_height % cells.cell_height ≡ 0
    → All (InCells cells) (compare_view is_large valid f t).0.regions
unfolding compare_view
compare_view-InCells is_large false f t cells w h tw th = tt
compare_view-InCells is_large true f t cells w h tw th =
    compare_and_update-IsAligned cells.cell_width cells.cell_height w h t f tw th is_large

module _ {S : Type 0} (is_large is_large_plan : ℕ → ℕ → Bool) where
  planned-InCells :
      (d : DamageResult) (f : Frame) (r : Renderer S)
      → All (InCells r.options.cell_pixels) d.regions
      → ChoiceInCells r.options.cell_pixels (planned is_large is_large_plan d f r)
  unfolding planned
  planned-InCells d f r a = picked d.has_changes d.is_full_frame _
    where
      plan : Bool × List DamageRegion
      plan =
          plan_damage_presentation is_large_plan d.regions f.source.width f.source.height
            r.options.cell_pixels

      pick : Bool → Bool → Bool → Choice
      pick x y z = if not x then nothing else if y then whole else if z then whole else parts plan.1

      picked : (x y z : Bool) → ChoiceInCells r.options.cell_pixels (pick x y z)
      picked false y z = tt
      picked true true z = tt
      picked true false true = tt
      picked true false false =
          plan_damage_presentation-InCells r.options.cell_pixels is_large_plan d.regions _ _ a

  compared-InCells :
      (f : Frame) (r : Renderer S)
      → IsSized r
      → All (InCells r.options.cell_pixels) (compared_difference is_large f r).0.regions
  unfolding compared_difference Damage.reset
  compared-InCells f r z = go r.using_supplied
    where
      cleared : Renderer S
      cleared = record r { damage = Damage.reset r.damage; using_supplied = false }

      go :
          (using : Bool)
          → let r' = if using then cleared else r in
            All
              (InCells r.options.cell_pixels)
              (compare_view is_large f.is_valid f.source r'.damage).0.regions
      go true =
          compare_view-InCells is_large f.is_valid f.source cleared.damage r.options.cell_pixels
            z.cell_width z.cell_height z.whole_width z.whole_height
      go false =
          compare_view-InCells is_large f.is_valid f.source r.damage r.options.cell_pixels
            z.cell_width z.cell_height z.whole_width z.whole_height

  compared-options :
      (f : Frame) (r : Renderer S) → (compared_difference is_large f r).1.options ≡ r.options
  unfolding compared_difference
  compared-options f r = ground arith

  supplied-options : (f : Frame) (r : Renderer S) → (supplied_difference f r).1.options ≡ r.options
  unfolding supplied_difference
  supplied-options f r = ground arith

  supplied-InCells :
      (f : Frame) (r : Renderer S)
      → All (InCells r.options.cell_pixels) (supplied_difference f r).0.regions
  unfolding supplied_difference supplied_damage
  supplied-InCells f r =
      normalize_damage-InCells r.options.cell_pixels _
        (align-InCells r.options.cell_pixels f.source.width f.source.height f.rectangles)

  choose-InCells :
      (f : Frame) (r : Renderer S)
      → IsSized r
      → ChoiceInCells r.options.cell_pixels (choose is_large is_large_plan f r).0
  unfolding choose
  choose-InCells f r z =
      subst
        (λ (o : RendererOptions). ChoiceInCells o.cell_pixels (choose is_large is_large_plan f r).0)
        same.0 (go r0.options.enable_dirty_regions f.supplied)
    where
      r0 : Renderer S
      r0 = forget f r

      same : SameSizes r r0
      same = forget-SameSizes f r

      z0 : IsSized r0
      z0 = SameSizes-IsSized r r0 same z

      moved :
          (d : DamageResult) (r' : Renderer S)
          → r'.options ≡ r0.options
          → All (InCells r0.options.cell_pixels) d.regions
          → ChoiceInCells r0.options.cell_pixels (planned is_large is_large_plan d f r')
      moved d r' e a =
          subst
            (λ (o : RendererOptions).
              ChoiceInCells o.cell_pixels (planned is_large is_large_plan d f r'))
            e
            (planned-InCells d f r'
              (subst (λ (o : RendererOptions). All (InCells o.cell_pixels) d.regions) (sym e) a))

      decided : Bool → Bool → Choice × Renderer S
      decided enabled given =
          if not enabled
          then (whole, r0)
          else (let (difference, r1) =
                if given then supplied_difference f r0 else compared_difference is_large f r0 in
              (planned is_large is_large_plan difference f r1, r1))

      go : (enabled given : Bool) → ChoiceInCells r0.options.cell_pixels (decided enabled given).0
      go false given = tt
      go true true =
          moved (supplied_difference f r0).0 (supplied_difference f r0).1 (supplied-options f r0)
            (supplied-InCells f r0)
      go true false =
          moved (compared_difference is_large f r0).0 (compared_difference is_large f r0).1
            (compared-options f r0) (compared-InCells f r0 z0)

  -- With cells and tiles that have a size, each tile made of whole cells, the images that are chosen to
  -- be drawn of any frame land where the frame has them: drawn from the cells on that the cursor is
  -- moved to, one after the other, they leave the screen as it was with the bytes of the frame in
  -- exactly the pixels of the regions chosen.
  pub choose-display :
      (f : Frame) (r : Renderer S) (s : Screen)
      → IsSized r
      → display r.options.cell_pixels f.source (choose is_large is_large_plan f r).0 s
        ≡ paint (choose is_large is_large_plan f r).0 f.source s
  unfolding display
  choose-display f r s z = go (choose is_large is_large_plan f r).0 (choose-InCells f r z)
    where
      go :
          (choice : Choice)
          → ChoiceInCells r.options.cell_pixels choice
          → display r.options.cell_pixels f.source choice s ≡ paint choice f.source s
      go nothing a = refl
      go whole a = refl
      go (parts regions) a = λ i px py k.
          draw_all-InCells r.options.cell_pixels f.source regions s px py k z.cell_width
            z.cell_height a i
