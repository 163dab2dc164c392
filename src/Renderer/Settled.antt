-- ===== src/Renderer/Settled.antt =====
-- What each operation of the renderer leaves: a frame drawn and kept, or nothing remembered.
use mathlib.Core.Path.{subst}
use rasterm.Base.{
  ℕ, ◌*◌, ◌/◌, ◌%◌, ◌<◌, max, ◌≡◌, ◌≢◌, refl, sym, ap, ◌∙◌, inl, inr, Bool, true, false, not, ◌||◌,
  ◌&&◌, ◌==◌, if◌then◌else◌, Bool-cases, arith,
}
use native.Mathlib.Nat.{mul-mod_left}
use rasterm.Error.{no_error}
use rasterm.Damage.{
  DamageOptions, Source, Tracker, has_same_shape, clamp_options, compare_and_update, compare_view,
}
use rasterm.Damage as Damage
use rasterm.Damage.Cover.{RowFits}
use rasterm.Terminal.{clear_and_home}
use rasterm.Renderer.Plan.{TerminalCellPixels}
use rasterm.Renderer.State.{
  Frame, Backend, RendererOptions, RenderResult, no_result, Renderer, tile_options, new_tracker,
  construct, reset, clear, update_cell_pixels,
}
use rasterm.Renderer.Render.{
  Choice, nothing, whole, parts, dimensions_changed, choose, remember, present, render_frame,
}
use rasterm.Renderer.Screen.{Screen, paint, Shows}
use rasterm.Renderer.Outcome.{IsSettled, remembered, forgotten, present-IsSettled}
use rasterm.Renderer.Synced.{IsSized, IsSynced, IsTruthful, Agrees, nothing_kept, reset-IsSynced}
use rasterm.Renderer.Shown.{
  IsDrawable, SameSizes, SameSizes-IsSized, SameSizes-trans, Shown, choose-Shown, choose-SameSizes,
}

module _ {S : Type 0} (answers : ℕ → Bool) (b : Backend S)
    (is_large is_large_plan : ℕ → ℕ → Bool) where
  -- What a settled presentation leaves of the agreement with the screen.
  abbrev pub Settles : Screen → Renderer S → RenderResult × Renderer S → Type 0
  Settles s r (result, r') =
      SameSizes r r'
      × (result.error ≡ no_error → IsSynced r' s)
      × (result.error ≢ no_error → (s' : Screen) → IsSynced r' s')

  IsSettled-Settles :
      (f : Frame) (r : Renderer S) (s : Screen) (outcome : RenderResult × Renderer S)
      → IsSynced r s
      → IsSettled answers b f r outcome
      → Settles s r outcome
  unfolding remember reset Damage.reset
  IsSettled-Settles f r s _ v (remembered result r' e e' o d u) = (
    (o, ap (λ (t : Tracker). t.options) d),
    (λ h. record {
      copy = subst (λ (t : Tracker). Agrees t s) (sym d) v.copy;
      supplied = λ h'. ap (λ (t : Tracker). t.previous_width) d ∙ v.supplied (sym u ∙ h');
      disabled = λ h'.
          ap (λ (t : Tracker). t.previous_width) d
          ∙ v.disabled (ap (λ (o' : RendererOptions). o'.enable_dirty_regions) (sym o) ∙ h');
    }),
    λ h. absurd (h e),
  )
  IsSettled-Settles f r s _ v (forgotten result r' e e' o d) =
      ((o, ap (λ (t : Tracker). t.options) d), (λ h. absurd (e h)), λ h s'. reset-IsSynced b r' s')

  present-Settles :
      (choice : Choice) (resized : Bool) (f : Frame) (r : Renderer S) (s : Screen)
      → IsSynced r s
      → Settles s r (present answers b choice resized f r)
  unfolding present
  present-Settles nothing resized f r s v = ((refl, refl), (λ h. v), λ h. absurd (h refl))
  present-Settles whole resized f r s v =
      IsSettled-Settles f r s (present answers b whole resized f r) v
        (present-IsSettled answers b whole resized f r (λ e. ground (arith, e)))
  present-Settles (parts regions) resized f r s v =
      IsSettled-Settles f r s (present answers b (parts regions) resized f r) v
        (present-IsSettled answers b (parts regions) resized f r (λ e. ground (arith, e)))

  Settles-trans :
      (s : Screen) (r r' : Renderer S) (outcome : RenderResult × Renderer S)
      → SameSizes r r'
      → Settles s r' outcome
      → Settles s r outcome
  Settles-trans s r r' outcome e p = (SameSizes-trans r r' outcome.1 e p.0, p.1, p.2)

  pub render_frame-Settles :
      (f : Frame) (r : Renderer S) (s : Screen)
      → IsSized r
      → IsSynced r s
      → IsDrawable f
      → RowFits f.source
      → IsTruthful f r s
      → let s' = paint (choose is_large is_large_plan f r).0 f.source s in
        Shows f.source s' × Settles s' r (render_frame answers b is_large is_large_plan f r)
  unfolding render_frame
  render_frame-Settles f r s z v drawable fits truth = (shown.0, go f.is_valid drawable.valid)
    where
      chosen : Choice × Renderer S
      chosen = choose is_large is_large_plan f r

      shown : Shown is_large is_large_plan f drawable fits s chosen
      shown = choose-Shown is_large is_large_plan f drawable fits r s z v truth

      go :
          (valid : Bool)
          → valid ≡ true
          → Settles (paint chosen.0 f.source s) r (
              if not valid
              then (no_result, r)
              else present answers b chosen.0 (dimensions_changed f r) f chosen.1)
      go false e = absurd (ground (arith, e))
      go true e =
          Settles-trans (paint chosen.0 f.source s) r chosen.1
            (present answers b chosen.0 (dimensions_changed f r) f chosen.1)
            (choose-SameSizes is_large is_large_plan f r)
            (present-Settles chosen.0 (dimensions_changed f r) f chosen.1
              (paint chosen.0 f.source s) shown.1)

  pub clear-Settles :
      (r : Renderer S) (s : Screen)
      → SameSizes r (clear answers b r).1 × IsSynced (clear answers b r).1 s
  unfolding clear reset Damage.reset
  clear-Settles r s = (
    (refl, refl),
    reset-IsSynced b (record r { terminal = (clear_and_home answers r.terminal).1 }) s,
  )

  -- A failure leaves nothing that the renderer remembers of a frame, and the sizes as they were.
  abbrev pub Forgets : Renderer S → RenderResult × Renderer S → Type 0
  Forgets r (result, r') =
      result.error ≢ no_error → (r'' : Renderer S) × ((r' ≡ reset b r'') × SameSizes r r'')

  IsSettled-Forgets :
      (f : Frame) (r : Renderer S) (outcome : RenderResult × Renderer S)
      → IsSettled answers b f r outcome
      → Forgets r outcome
  IsSettled-Forgets f r _ (remembered result r' e e' o d u) wrong = absurd (wrong e)
  IsSettled-Forgets f r _ (forgotten result r' e e' o d) wrong =
      (r', (refl, (o, ap (λ (t : Tracker). t.options) d)))

  present-Forgets :
      (choice : Choice) (resized : Bool) (f : Frame) (r : Renderer S)
      → Forgets r (present answers b choice resized f r)
  unfolding present
  present-Forgets nothing resized f r = λ wrong. absurd (wrong refl)
  present-Forgets whole resized f r =
      IsSettled-Forgets f r (present answers b whole resized f r)
        (present-IsSettled answers b whole resized f r (λ e. ground (arith, e)))
  present-Forgets (parts regions) resized f r =
      IsSettled-Forgets f r (present answers b (parts regions) resized f r)
        (present-IsSettled answers b (parts regions) resized f r (λ e. ground (arith, e)))

  pub render_frame-Forgets :
      (f : Frame) (r : Renderer S) → Forgets r (render_frame answers b is_large is_large_plan f r)
  unfolding render_frame
  render_frame-Forgets f r = go f.is_valid
    where
      chosen : Choice × Renderer S
      chosen = choose is_large is_large_plan f r

      go :
          (valid : Bool)
          → Forgets r (
              if not valid
              then (no_result, r)
              else present answers b chosen.0 (dimensions_changed f r) f chosen.1)
      go false wrong = absurd (wrong refl)
      go true wrong =
          let (r'', (e, same)) =
            present-Forgets chosen.0 (dimensions_changed f r) f chosen.1 wrong in
          (
            r'',
            (e, SameSizes-trans r chosen.1 r'' (choose-SameSizes is_large is_large_plan f r) same),
          )

  pub reset-IsSized : (r : Renderer S) → IsSized r → IsSized (reset b r)
  unfolding reset Damage.reset
  reset-IsSized r z = SameSizes-IsSized r (reset b r) (refl, refl) z

  tile-positive : (tile cell : ℕ) → 0 < max 1 tile
  tile-positive tile cell = omega arith

  new_tracker-IsSynced :
      (r : Renderer S) (config : DamageOptions) (s : Screen)
      → r.damage ≡ new_tracker config
      → IsSynced r s
  unfolding new_tracker
  new_tracker-IsSynced r config s e =
      let none_kept = ap (λ (t : Tracker). t.previous_width) e in
      record {
        copy = nothing_kept r.damage s none_kept;
        supplied = λ h. none_kept;
        disabled = λ h. none_kept;
      }

  whole_tile : (tile cell : ℕ) → 0 < cell → max 1 (max tile cell / cell * cell) % cell ≡ 0
  whole_tile tile cell pos =
      let count = max tile cell / cell in
      let some_cells : 0 < count * cell = grind arith in
      let same : max 1 (count * cell) ≡ count * cell = omega (arith, some_cells) in
      ap (λ n. n % cell) same ∙ mul-mod_left count cell

  new_tracker-IsSized :
      (r : Renderer S) (config : DamageOptions)
      → r.damage ≡ new_tracker (tile_options config r.options.cell_pixels)
      → 0 < r.options.cell_pixels.cell_width
      → 0 < r.options.cell_pixels.cell_height
      → IsSized r
  unfolding new_tracker tile_options clamp_options
  new_tracker-IsSized r config e w h = record {
    cell_width = w;
    cell_height = h;
    tile_width = rw (ap (λ (t : Tracker). t.options.tile_width) e) (omega arith);
    tile_height = rw (ap (λ (t : Tracker). t.options.tile_height) e) (omega arith);
    whole_width =
        rw (ap (λ (t : Tracker). t.options.tile_width) e)
          (whole_tile config.tile_width r.options.cell_pixels.cell_width w);
    whole_height =
        rw (ap (λ (t : Tracker). t.options.tile_height) e)
          (whole_tile config.tile_height r.options.cell_pixels.cell_height h);
  }

  pub update_cell_pixels-Run :
      (cells : TerminalCellPixels) (r : Renderer S) (s : Screen)
      → IsSized r
      → IsSynced r s
      → IsSized (update_cell_pixels cells r) × IsSynced (update_cell_pixels cells r) s
  unfolding update_cell_pixels
  update_cell_pixels-Run cells r s z v =
      elim (Bool-cases (
        (cells.cell_width == 0)
        || ((cells.cell_height == 0)
            || ((cells.cell_width == r.options.cell_pixels.cell_width)
                && (cells.cell_height == r.options.cell_pixels.cell_height))))) [
                  | inl ignored ↦ rw (ignored, update_cell_pixels) (z, v)
                  | inr changed ↦
                      let config = tile_options r.options.damage cells in
                      rw (changed, update_cell_pixels)
                        (
                          new_tracker-IsSized _ r.options.damage refl (ground arith) (ground arith),
                          new_tracker-IsSynced _ config s refl,
                        )
                ]

  pub started-IsSynced :
      (backend : S) (options : RendererOptions) (s : Screen)
      → 0 < options.cell_pixels.cell_width
      → 0 < options.cell_pixels.cell_height
      → IsSized (construct answers backend options) × IsSynced (construct answers backend options) s
  unfolding construct
  started-IsSynced backend options s w h =
      let r = construct answers backend options in
      let config = tile_options options.damage options.cell_pixels in
      (new_tracker-IsSized r options.damage refl w h, new_tracker-IsSynced r config s refl)
