-- ===== src/Renderer/Synced.antt =====
-- The renderer and the screen stay together: what the tracker has kept is what the screen shows, through
-- frames drawn, presentations that failed half-way, resets and changes of the cell size.
use rasterm.Base.{
  ℕ, ◌%◌, ◌<◌, ◌≡◌, refl, sym, ◌∙◌, inl, inr, Bool, true, false, ◌||◌, ◌==◌, if◌then◌else◌,
  Bool-cases, arith,
}
use mathlib.Core.Path.{subst}
use rasterm.Damage.Rect.{covered}
use rasterm.Damage.{
  DamageResult, Source, Tracker, has_same_shape, copy_frame, compare_and_update, compare_view,
}
use rasterm.Damage as Damage
use rasterm.Damage.Cover.{RowFits, previous_at}
use rasterm.Damage.Update.{byte_at-copy_frame, tracker-compare_and_update}
use rasterm.Renderer.State.{Frame, Backend, Renderer, reset}
use rasterm.Renderer.Render.{
  dimensions_changed, identity_changed, forget, supplied_difference, compared_difference, planned,
}
use rasterm.Renderer.Screen.{Screen, pixel, paint, Shows, compared-Shows, supplied-Shows}

-- The cells and the tiles have a size, and a tile is made of whole cells.
pub record IsSized {S : Type 0} (r : Renderer S) : Type 0 where
  pub cell_width : 0 < r.options.cell_pixels.cell_width
  pub cell_height : 0 < r.options.cell_pixels.cell_height
  pub tile_width : 0 < r.damage.options.tile_width
  pub tile_height : 0 < r.damage.options.tile_height
  pub whole_width : r.damage.options.tile_width % r.options.cell_pixels.cell_width ≡ 0
  pub whole_height : r.damage.options.tile_height % r.options.cell_pixels.cell_height ≡ 0

-- What the tracker has kept of a frame is what the screen shows, for every frame that it would compare
-- with it.
abbrev pub Agrees : Tracker → Screen → Type 0
Agrees t s =
    (f : Source)
    → has_same_shape t f ≡ true
    → (px py k : ℕ) → px < f.width
    → py < f.height
    → k < f.pixel_bytes
    → previous_at t f px py k ≡ s px py k

-- The tracker agrees with the screen. While damage is supplied, or regions are turned off, it has kept nothing.
pub record IsSynced {S : Type 0} (r : Renderer S) (s : Screen) : Type 0 where
  pub copy : Agrees r.damage s
  pub supplied : r.using_supplied ≡ true → r.damage.previous_width ≡ 0
  pub disabled : r.options.enable_dirty_regions ≡ false → r.damage.previous_width ≡ 0

-- Nothing outside the damage supplied with a frame differs from what the screen shows, when the frame
-- before had its size, its format and its palette.
abbrev pub IsTruthful : {S : Type 0} → Frame → Renderer S → Screen → Type 0
IsTruthful f r s =
    f.supplied ≡ true
    → (r.previous_width == 0) ≡ false
    → dimensions_changed f r ≡ false
    → identity_changed f r ≡ false
    → (px py k : ℕ) → px < f.source.width
    → py < f.source.height
    → k < f.source.pixel_bytes
    → covered f.rectangles px py ≡ false
    → s px py k ≡ pixel f.source px py k

-- A tracker that keeps nothing agrees with every screen.
pub nothing_kept : (t : Tracker) (s : Screen) → t.previous_width ≡ 0 → Agrees t s
unfolding has_same_shape
nothing_kept t s e f same px py k hx hy hk = absurd (ground arith)

-- A tracker that keeps a frame agrees with a screen that shows it.
frame_kept : (t : Tracker) (f : Source) (s : Screen) → Shows f s → Agrees (copy_frame f t) s
unfolding has_same_shape copy_frame
frame_kept t f s shown g same px py k hx hy hk =
    let w : g.width ≡ f.width = ground (arith, same) in
    let h : g.height ≡ f.height = ground (arith, same) in
    let b : g.pixel_bytes ≡ f.pixel_bytes = ground (arith, same) in
    rw (w, b)
      (sym (byte_at-copy_frame f t px py k (rw w at hx) (rw h at hy) (rw b at hk))
        ∙ sym (shown px py k (rw w at hx) (rw h at hy) (rw b at hk)))

module _ {S : Type 0} where
  pub reset-IsSynced : (b : Backend S) (r : Renderer S) (s : Screen) → IsSynced (reset b r) s
  unfolding reset Damage.reset
  reset-IsSynced b r s = record {
    copy = nothing_kept (reset b r).damage s refl;
    supplied = λ h. refl;
    disabled = λ h. refl;
  }

  pub forget-IsSynced :
      (f : Frame) (r : Renderer S) (s : Screen) → IsSynced r s → IsSynced (forget f r) s
  unfolding forget Damage.reset
  forget-IsSynced f r s v = elim (Bool-cases (dimensions_changed f r || identity_changed f r)) [
    | inl changed ↦
        rw (changed, forget)
          (record {
            copy = nothing_kept (Damage.reset r.damage) s refl;
            supplied = λ h. refl;
            disabled = λ h. refl;
          })
    | inr same ↦ rw (same, forget) v
  ]

  -- What is chosen of a frame shows it, and leaves the tracker in agreement with what is shown.
  module _ (is_large is_large_plan : ℕ → ℕ → Bool) (f : Frame) (r : Renderer S) (s : Screen)
      (sized : IsSized r) (w : 0 < f.source.width) (h : 0 < f.source.height)
      (fits : RowFits f.source) (valid : f.is_valid ≡ true) where
    -- The outcome of a comparison `compared` with the tracker of `r1`.
    abbrev Kept : Renderer S → DamageResult × Tracker → Type 0
    Kept r1 compared =
        let r2 = record r1 { damage = compared.1 } in
        let s' = paint (planned is_large is_large_plan compared.0 f r2) f.source s in
        Shows f.source s' × IsSynced r2 s'

    kept :
        (r1 : Renderer S)
        → IsSized r1
        → IsSynced r1 s
        → r1.using_supplied ≡ false
        → r1.options.enable_dirty_regions ≡ true
        → Kept r1 (compare_view is_large f.is_valid f.source r1.damage)
    unfolding compare_view
    kept r1 z v off enabled = subst (Kept r1) (sym seen) (
      shown,
      record {
        copy =
            subst (λ (t : Tracker). Agrees t s')
              (sym (tracker-compare_and_update is_large r1.damage f.source))
              (frame_kept r1.damage f.source s' shown);
        supplied = λ e. absurd (differ e off);
        disabled = λ e. absurd (differ enabled e);
      },
    )
      where
        compared : DamageResult × Tracker
        compared = compare_and_update is_large f.source r1.damage

        s' : Screen
        s' =
            paint (planned is_large is_large_plan compared.0 f (record r1 { damage = compared.1 }))
              f.source s

        differ : {b : Bool} → b ≡ true → b ≡ false → ⊥
        differ e e' = ground arith

        seen : compare_view is_large f.is_valid f.source r1.damage ≡ compared
        seen = rw (valid, compare_view)

        shown : Shows f.source s'
        shown =
            compared-Shows is_large is_large_plan r1.damage f (record r1 { damage = compared.1 }) s
              z.tile_width z.tile_height w h fits (λ same. v.copy f.source same)

    abbrev cleared : Renderer S
    cleared = record r { damage = Damage.reset r.damage; using_supplied = false }

    kept_after :
        (using : Bool)
        → using ≡ r.using_supplied
        → IsSynced r s
        → r.options.enable_dirty_regions ≡ true
        → let r1 = if using then cleared else r in
          Kept r1 (compare_view is_large f.is_valid f.source r1.damage)
    unfolding Damage.reset
    kept_after false e v enabled = kept r sized v (sym e) enabled
    kept_after true e v enabled =
        kept cleared
          (record {
            cell_width = sized.cell_width;
            cell_height = sized.cell_height;
            tile_width = sized.tile_width;
            tile_height = sized.tile_height;
            whole_width = sized.whole_width;
            whole_height = sized.whole_height;
          })
          (record {
            copy = nothing_kept cleared.damage s refl;
            supplied = λ e. refl;
            disabled = λ e. refl;
          })
          refl enabled

    pub compared-Shows-IsSynced :
        IsSynced r s
        → r.options.enable_dirty_regions ≡ true
        → let (difference, r') = compared_difference is_large f r in
          let s' = paint (planned is_large is_large_plan difference f r') f.source s in
          Shows f.source s' × IsSynced r' s'
    unfolding compared_difference
    compared-Shows-IsSynced v enabled = kept_after r.using_supplied refl v enabled

    pub supplied-Shows-IsSynced :
        IsSynced r s
        → f.supplied ≡ true
        → IsTruthful f r s
        → let (difference, r') = supplied_difference f r in
          let s' = paint (planned is_large is_large_plan difference f r') f.source s in
          Shows f.source s' × IsSynced r' s'
    unfolding supplied_difference Damage.reset
    supplied-Shows-IsSynced v given truth = (
      supplied-Shows is_large is_large_plan f r (supplied_difference f r).1 s sized.cell_width
          sized.cell_height (truth given),
      record {
        copy = nothing_kept _ _ kept_none;
        supplied = λ e. kept_none;
        disabled = λ e. kept_none;
      },
    )
      where
        kept_none : (supplied_difference f r).1.damage.previous_width ≡ 0
        kept_none = elim (Bool-cases r.using_supplied) [
          | inl using ↦ rw (using, supplied_difference) (v.supplied using)
          | inr fresh ↦ rw (fresh, supplied_difference)
        ]
