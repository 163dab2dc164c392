-- ===== src/Renderer/Shown.antt =====
-- What `renderFrame` chooses to draw of a frame shows it, on a screen that the renderer is synced with.
use rasterm.Base.{
  ℕ, ◌<◌, ◌≡◌, refl, sym, ap, ◌∙◌, inl, inr, Bool, true, false, not, ◌||◌, if◌then◌else◌,
  Bool-cases,
}
use rasterm.Damage.{
  DamageResult, DamageOptions, Source, Tracker, has_same_shape, clamp_options, copy_frame,
  compare_and_update, compare_view,
}
use rasterm.Damage as Damage
use rasterm.Damage.Cover.{RowFits}
use rasterm.Damage.Update.{tracker-compare_and_update}
use rasterm.Renderer.State.{Frame, Renderer}
use rasterm.Renderer.Render.{
  Choice, whole, dimensions_changed, identity_changed, forget, supplied_difference,
  compared_difference, planned, choose,
}
use rasterm.Renderer.Screen.{Screen, paint, Shows}
use rasterm.Renderer.Synced.{
  IsSized, IsSynced, IsTruthful, nothing_kept, forget-IsSynced, compared-Shows-IsSynced,
  supplied-Shows-IsSynced,
}

-- A frame that passed its validation, and so has pixels.
pub record IsDrawable (f : Frame) : Type 0 where
  pub valid : f.is_valid ≡ true
  pub width : 0 < f.source.width
  pub height : 0 < f.source.height

-- The same options, and a tracker with the same tiles.
abbrev pub SameSizes : {S : Type 0} → Renderer S → Renderer S → Type 0
SameSizes r r' = (r'.options ≡ r.options) × (r'.damage.options ≡ r.damage.options)

compare_view-options :
    (is_large : ℕ → ℕ → Bool) (valid : Bool) (f : Source) (t : Tracker)
    → (compare_view is_large valid f t).1.options ≡ t.options
unfolding compare_view copy_frame
compare_view-options is_large false f t = refl
compare_view-options is_large true f t =
    ap (λ (t' : Tracker). t'.options) (tracker-compare_and_update is_large t f)

module _ {S : Type 0} where
  pub SameSizes-IsSized : (r r' : Renderer S) → SameSizes r r' → IsSized r → IsSized r'
  SameSizes-IsSized r r' e z = record {
    cell_width = rw e.0 z.cell_width;
    cell_height = rw e.0 z.cell_height;
    tile_width = rw e.1 z.tile_width;
    tile_height = rw e.1 z.tile_height;
    whole_width = rw (e.0, e.1) z.whole_width;
    whole_height = rw (e.0, e.1) z.whole_height;
  }

  pub forget-SameSizes : (f : Frame) (r : Renderer S) → SameSizes r (forget f r)
  unfolding forget Damage.reset
  forget-SameSizes f r = elim (Bool-cases (dimensions_changed f r || identity_changed f r)) [
    | inl changed ↦ rw (changed, forget) (refl, refl)
    | inr same ↦ rw (same, forget) (refl, refl)
  ]

  forget-IsTruthful :
      (f : Frame) (r : Renderer S) (s : Screen) → IsTruthful f r s → IsTruthful f (forget f r) s
  unfolding forget
  forget-IsTruthful f r s truth =
      elim (Bool-cases (dimensions_changed f r || identity_changed f r)) [
        | inl changed ↦ rw (changed, forget) truth
        | inr same ↦ rw (same, forget) truth
      ]

  module _ (is_large is_large_plan : ℕ → ℕ → Bool) (f : Frame) (drawable : IsDrawable f)
      (fits : RowFits f.source) where
    abbrev pub Shown : Screen → Choice × Renderer S → Type 0
    Shown s (choice, r) =
        Shows f.source (paint choice f.source s) × IsSynced r (paint choice f.source s)

    -- What `renderFrame` chooses shows the frame.
    pub choose-Shown :
        (r : Renderer S) (s : Screen)
        → IsSized r
        → IsSynced r s
        → IsTruthful f r s
        → Shown s (choose is_large is_large_plan f r)
    unfolding choose
    choose-Shown r s z v truth = go r0.options.enable_dirty_regions f.supplied refl refl
      where
        r0 : Renderer S
        r0 = forget f r

        z0 : IsSized r0
        z0 = SameSizes-IsSized r r0 (forget-SameSizes f r) z

        v0 : IsSynced r0 s
        v0 = forget-IsSynced f r s v

        go :
            (enabled given : Bool)
            → enabled ≡ r0.options.enable_dirty_regions
            → given ≡ f.supplied
            → Shown s (
                if not enabled
                then (whole, r0)
                else (let (difference, r1) =
                      if given
                      then supplied_difference f r0
                      else compared_difference is_large f r0 in
                    (planned is_large is_large_plan difference f r1, r1)))
        go false given e e' = (
          λ px py k hx hy hk. refl,
          record {
            copy = nothing_kept r0.damage (paint whole f.source s) (v0.disabled (sym e));
            supplied = v0.supplied;
            disabled = v0.disabled;
          },
        )
        go true true e e' =
            supplied-Shows-IsSynced is_large is_large_plan f r0 s z0 drawable.width drawable.height
              fits drawable.valid v0 (sym e') (forget-IsTruthful f r s truth)
        go true false e e' =
            compared-Shows-IsSynced is_large is_large_plan f r0 s z0 drawable.width drawable.height
              fits drawable.valid v0 (sym e)

  -- Nothing that is chosen changes the options.
  compared_difference-SameSizes :
      (is_large : ℕ → ℕ → Bool) (f : Frame) (r : Renderer S)
      → SameSizes r (compared_difference is_large f r).1
  unfolding compared_difference Damage.reset
  compared_difference-SameSizes is_large f r = go r.using_supplied
    where
      cleared : Renderer S
      cleared = record r { damage = Damage.reset r.damage; using_supplied = false }

      go :
          (using : Bool)
          → let r1 = if using then cleared else r in
            SameSizes r
              (record r1 { damage = (compare_view is_large f.is_valid f.source r1.damage).1 })
      go true = (refl, compare_view-options is_large f.is_valid f.source cleared.damage)
      go false = (refl, compare_view-options is_large f.is_valid f.source r.damage)

  supplied_difference-SameSizes :
      (f : Frame) (r : Renderer S) → SameSizes r (supplied_difference f r).1
  unfolding supplied_difference Damage.reset
  supplied_difference-SameSizes f r = elim (Bool-cases r.using_supplied) [
    | inl using ↦ rw (using, supplied_difference) (refl, refl)
    | inr fresh ↦ rw (fresh, supplied_difference) (refl, refl)
  ]

  pub SameSizes-trans :
      (r r' r'' : Renderer S) → SameSizes r r' → SameSizes r' r'' → SameSizes r r''
  SameSizes-trans r r' r'' e e' = (e'.0 ∙ e.0, e'.1 ∙ e.1)

  pub choose-SameSizes :
      (is_large is_large_plan : ℕ → ℕ → Bool) (f : Frame) (r : Renderer S)
      → SameSizes r (choose is_large is_large_plan f r).1
  unfolding choose
  choose-SameSizes is_large is_large_plan f r = go r0.options.enable_dirty_regions f.supplied
    where
      r0 : Renderer S
      r0 = forget f r

      decided : Bool → Bool → Choice × Renderer S
      decided enabled given =
          if not enabled
          then (whole, r0)
          else (let (difference, r1) =
                if given then supplied_difference f r0 else compared_difference is_large f r0 in
              (planned is_large is_large_plan difference f r1, r1))

      go : (enabled given : Bool) → SameSizes r (decided enabled given).1
      go false given = forget-SameSizes f r
      go true true =
          SameSizes-trans r r0 (supplied_difference f r0).1 (forget-SameSizes f r)
            (supplied_difference-SameSizes f r0)
      go true false =
          SameSizes-trans r r0 (compared_difference is_large f r0).1 (forget-SameSizes f r)
            (compared_difference-SameSizes is_large f r0)
