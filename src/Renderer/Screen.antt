-- ===== src/Renderer/Screen.antt =====
-- What the screen shows: of each pixel the bytes that were drawn there last. What `renderFrame` chooses
-- to draw is enough to show the frame, when the screen shows what the tracker has kept of the frame
-- before, or what the application says did not change.
use rasterm.Base.{
  ℕ, ◌+◌, ◌*◌, ◌<◌, ◌≡◌, ◌≢◌, refl, ◌∙◌, inl, inr, Bool, true, false, ◌||◌, List, [], ◌∷◌, map,
  ◌==◌, if◌then◌else◌, Bool-cases, length, arith,
}
use rasterm.Damage.Rect.{DamageRegion, covered}
use rasterm.Damage.{Source, Tracker, DamageResult, has_same_shape, compare_and_update}
use rasterm.Damage.Cover.{RowFits, previous_at}
use rasterm.Damage.Update.{change_covered}
use rasterm.Renderer.Plan.{
  align_to_terminal_cells, plan_damage_presentation, can_present_without_bottom_scroll,
}
use rasterm.Renderer.Normalize.{normalize_damage-covered}
use rasterm.Renderer.Lossless.{aligned-covered, plan_damage_presentation-covered}
use rasterm.Renderer.State.{Frame, Renderer}
use rasterm.Renderer.Render.{
  Choice, nothing, whole, parts, dimensions_changed, identity_changed, supplied_damage,
  supplied_difference, planned,
}

-- The byte `k` of the pixel at a column and a row.
abbrev pub Screen : Type 0
Screen = ℕ → ℕ → ℕ → ℕ

abbrev pub pixel : Source → Screen
pixel f px py k = f.bytes (py * f.stride + (px * f.pixel_bytes + k))

abbrev pub drawn : Choice → ℕ → ℕ → Bool
drawn nothing px py = false
drawn whole px py = true
drawn (parts regions) px py = covered regions px py

abbrev pub paint : Choice → Source → Screen → Screen
paint choice f s px py k = if drawn choice px py then pixel f px py k else s px py k

-- The screen shows the frame.
abbrev pub Shows : Source → Screen → Type 0
Shows f s =
    (px py k : ℕ) → px < f.width → py < f.height → k < f.pixel_bytes → s px py k ≡ pixel f px py k

if-true : (b : Bool) (x y : ℕ) → b ≡ true → (if b then x else y) ≡ x
if-true true x y e = refl
if-true false x y e = absurd (ground arith)

if-same : (b : Bool) (x y : ℕ) → y ≡ x → (if b then x else y) ≡ x
if-same true x y e = refl
if-same false x y e = e

full-has_changes :
    (is_large : ℕ → ℕ → Bool) (t : Tracker) (f : Source)
    → (compare_and_update is_large f t).0.is_full_frame ≡ true
    → (compare_and_update is_large f t).0.has_changes ≡ true
unfolding compare_and_update
full-has_changes is_large t f h = ground (arith, h)

covered-has_changes :
    (is_large : ℕ → ℕ → Bool) (t : Tracker) (f : Source) (px py : ℕ)
    → covered (compare_and_update is_large f t).0.regions px py ≡ true
    → (compare_and_update is_large f t).0.has_changes ≡ true
unfolding compare_and_update
covered-has_changes is_large t f px py h = ground (arith, h)

other_shape-is_full_frame :
    (is_large : ℕ → ℕ → Bool) (t : Tracker) (f : Source)
    → has_same_shape t f ≡ false
    → (compare_and_update is_large f t).0.is_full_frame ≡ true
unfolding compare_and_update
other_shape-is_full_frame is_large t f h = ground (arith, h)

covered-nonempty :
    (rs : List DamageRegion) (px py : ℕ) → covered rs px py ≡ true → (length rs == 0) ≡ false
covered-nonempty [] px py c = absurd (ground arith)
covered-nonempty (x ∷ rs) px py c = ground arith

or-true : (a b : Bool) → a ≡ true → (a || b) ≡ true
or-true true b e = refl
or-true false b e = absurd (ground arith)

or-first : (a b : Bool) → (a || b) ≡ false → a ≡ false
or-first true b e = e
or-first false b e = refl

or-second : (a b : Bool) → (a || b) ≡ false → b ≡ false
or-second true b e = absurd (ground arith)
or-second false b e = e

always : (a : Bool) → (a || true) ≡ true
always true = refl
always false = refl

differ : {b : Bool} → b ≡ true → b ≡ false → ⊥
differ e e' = ground arith

module _ {S : Type 0} (is_large is_large_plan : ℕ → ℕ → Bool) where
  -- What covers a pixel in the damage covers it in the choice.
  planned-drawn :
      (d : DamageResult) (f : Frame) (r : Renderer S) (px py : ℕ)
      → d.has_changes ≡ true
      → (d.is_full_frame ≡ false → covered d.regions px py ≡ true)
      → drawn (planned is_large is_large_plan d f r) px py ≡ true
  unfolding planned
  planned-drawn d f r px py changes h = elim (Bool-cases d.is_full_frame) [
    | inl full ↦ rw (changes, full, planned)
    | inr partial ↦ elim (Bool-cases plan.0) [
      | inl all ↦ rw (changes, partial, all, planned)
      | inr some_parts ↦
          elim (Bool-cases (can_present_without_bottom_scroll plan.1 f.source.height)) [
            | inr scrolls ↦ rw (changes, partial, some_parts, scrolls, planned)
            | inl stays ↦
                rw (changes, partial, some_parts, stays, planned)
                  (plan_damage_presentation-covered is_large_plan d.regions f.source.width
                    f.source.height r.options.cell_pixels px py (h partial) some_parts)
          ]
    ]
  ]
    where
      plan : Bool × List DamageRegion
      plan =
          plan_damage_presentation is_large_plan d.regions f.source.width f.source.height
            r.options.cell_pixels

  -- After a comparison the choice shows the frame, on a screen that shows what the tracker had kept.
  pub compared-Shows :
      (t : Tracker) (f : Frame) (r : Renderer S) (s : Screen)
      → 0 < t.options.tile_width
      → 0 < t.options.tile_height
      → 0 < f.source.width
      → 0 < f.source.height
      → RowFits f.source
      → (has_same_shape t f.source ≡ true
          → (px py k : ℕ) → px < f.source.width
          → py < f.source.height
          → k < f.source.pixel_bytes
          → previous_at t f.source px py k ≡ s px py k)
      → Shows f.source (
          paint
            (planned is_large is_large_plan (compare_and_update is_large f.source t).0 f r)
            f.source
            s)
  compared-Shows t f r s tw th w h fits copy px py k hx hy hk =
      elim (Bool-cases (compare_and_update is_large f.source t).0.is_full_frame) [
        | inl full ↦ if-true _ _ _ (
            planned-drawn d f r px py (full-has_changes is_large t f.source full)
              (λ e. absurd (differ full e)))
        | inr partial ↦ elim (Bool-cases (has_same_shape t f.source)) [
          | inr other ↦
              absurd (differ (other_shape-is_full_frame is_large t f.source other) partial)
          | inl same ↦ elim (Bool-cases (pixel f.source px py k == s px py k)) [
            | inl equal ↦ if-same _ (pixel f.source px py k) (s px py k) (ground arith)
            | inr unequal ↦
                let c : covered d.regions px py ≡ true =
                  change_covered is_large t f.source
                    (record {
                      tile_width = tw;
                      tile_height = th;
                      width = w;
                      height = h;
                      same_shape = same;
                      row_fits = fits;
                    })
                    px py k hx hy hk
                    (changed (pixel f.source px py k) (s px py k) _ unequal
                      (copy same px py k hx hy hk))
                    partial in
                if-true _ _ _ (
                  planned-drawn d f r px py (covered-has_changes is_large t f.source px py c)
                    (λ e. c))
          ]
        ]
      ]
    where
      d : DamageResult
      d = (compare_and_update is_large f.source t).0

      changed : (a b c : ℕ) → (a == b) ≡ false → c ≡ b → a ≢ c
      changed a b c e e' = ground arith

  -- So does the choice after damage was supplied, when nothing outside of it changed.
  pub supplied-Shows :
      (f : Frame) (r r' : Renderer S) (s : Screen)
      → 0 < r.options.cell_pixels.cell_width
      → 0 < r.options.cell_pixels.cell_height
      → ((r.previous_width == 0) ≡ false
          → dimensions_changed f r ≡ false
          → identity_changed f r ≡ false
          → (px py k : ℕ) → px < f.source.width
          → py < f.source.height
          → k < f.source.pixel_bytes
          → covered f.rectangles px py ≡ false
          → s px py k ≡ pixel f.source px py k)
      → Shows f.source
          (paint (planned is_large is_large_plan (supplied_difference f r).0 f r') f.source s)
  unfolding supplied_difference supplied_damage
  supplied-Shows f r r' s cw ch truth px py k hx hy hk = elim (Bool-cases d.is_full_frame) [
    | inl full ↦
        if-true _ _ _ (planned-drawn d f r' px py (or-true _ _ full) (λ e. absurd (differ full e)))
    | inr partial ↦ elim (Bool-cases (covered f.rectangles px py)) [
      | inr outside ↦ if-same _ (pixel f.source px py k) (s px py k) (
          truth (or-first _ _ partial) (or-first _ _ (or-second _ _ partial))
            (or-first _ _ (or-second _ _ (or-second _ _ partial))) px py k hx hy hk outside)
      | inl inside ↦
          let c : covered (supplied_damage f r) px py ≡ true =
            normalize_damage-covered px py aligned
            ∙ aligned-covered f.rectangles f.source.width f.source.height r.options.cell_pixels px
                py cw ch hx hy inside in
          if-true _ _ _ (
            planned-drawn d f r' px py (changes (covered-nonempty (supplied_damage f r) px py c))
              (λ e. c))
    ]
  ]
    where
      d : DamageResult
      d = (supplied_difference f r).0

      aligned : List DamageRegion
      aligned =
          map
            (λ region.
              align_to_terminal_cells region f.source.width f.source.height r.options.cell_pixels)
            f.rectangles

      changes : (length (supplied_damage f r) == 0) ≡ false → d.has_changes ≡ true
      changes e = rw e (always d.is_full_frame)
