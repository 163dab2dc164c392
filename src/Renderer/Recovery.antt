-- ===== src/Renderer/Recovery.antt =====
-- After a failure the next frame is drawn in full.
use rasterm.Base.{ℕ, ◌≡◌, ◌≢◌, refl, ap, ◌∙◌, Bool, true, false, not, if◌then◌else◌, arith}
use rasterm.Error.{no_error}
use rasterm.Damage.{
  Tracker, DamageResult, full_frame, has_same_shape, compare_and_update, compare_view,
}
use rasterm.Damage as Damage
use rasterm.Renderer.State.{Frame, Backend, Renderer, reset}
use rasterm.Renderer.Render.{
  Choice, whole, forget, supplied_difference, compared_difference, planned, choose, render_frame,
}
use rasterm.Renderer.Shown.{IsDrawable}
use rasterm.Renderer.Settled.{render_frame-Forgets}

module _ {S : Type 0} (is_large is_large_plan : ℕ → ℕ → Bool) (f : Frame)
    (drawable : IsDrawable f) where
  full-planned :
      (d : DamageResult) (r : Renderer S)
      → d.has_changes ≡ true
      → d.is_full_frame ≡ true
      → planned is_large is_large_plan d f r ≡ whole
  unfolding planned
  full-planned d r changes full = rw (changes, full, planned)

  blank_supplied :
      (r : Renderer S)
      → r.previous_width ≡ 0
      → planned is_large is_large_plan (supplied_difference f r).0 f (supplied_difference f r).1
        ≡ whole
  unfolding supplied_difference
  blank_supplied r e =
      full-planned (supplied_difference f r).0 (supplied_difference f r).1 (ground (arith, e))
        (ground (arith, e))

  blank_compared :
      (t : Tracker) (r : Renderer S)
      → t.previous_width ≡ 0
      → planned is_large is_large_plan (compare_view is_large f.is_valid f.source t).0 f r ≡ whole
  unfolding compare_view has_same_shape compare_and_update
  blank_compared t r e =
      full-planned (compare_view is_large f.is_valid f.source t).0 r
        (ap (λ (d : DamageResult). d.has_changes) full)
        (ap (λ (d : DamageResult). d.is_full_frame) full)
    where
      other : has_same_shape t f.source ≡ false
      other = ground (arith, e, drawable.width)

      full : (compare_view is_large f.is_valid f.source t).0 ≡ full_frame
      full = rw (drawable.valid, other, compare_view, compare_and_update)

  pub choose-reset :
      (b : Backend S) (r : Renderer S) → (choose is_large is_large_plan f (reset b r)).0 ≡ whole
  unfolding choose forget compared_difference reset Damage.reset
  choose-reset b r = go r.options.enable_dirty_regions f.supplied
    where
      forgotten : Renderer S
      forgotten = reset b r

      decided : Bool → Bool → Choice × Renderer S
      decided enabled given =
          if not enabled
          then (whole, forgotten)
          else (let (difference, r1) =
                if given
                then supplied_difference f forgotten
                else compared_difference is_large f forgotten in
              (planned is_large is_large_plan difference f r1, r1))

      go : (enabled given : Bool) → (decided enabled given).0 ≡ whole
      go false given = refl
      go true true = blank_supplied forgotten refl
      go true false =
          blank_compared forgotten.damage (compared_difference is_large f forgotten).1 refl

  -- After a frame was rendered with an error, whatever part of it reached the terminal, the next frame is
  -- drawn as a whole.
  pub failed-whole :
      (answers : ℕ → Bool) (b : Backend S) (before : Frame) (r : Renderer S)
      → (render_frame answers b is_large is_large_plan before r).0.error ≢ no_error
      → (choose is_large is_large_plan f
          (render_frame answers b is_large is_large_plan before r).1).0
        ≡ whole
  failed-whole answers b before r wrong =
      let (r', (e, same)) = render_frame-Forgets answers b is_large is_large_plan before r wrong in
      ap (λ (r'' : Renderer S). (choose is_large is_large_plan f r'').0) e ∙ choose-reset b r'
