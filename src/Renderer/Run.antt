-- ===== src/Renderer/Run.antt =====
-- A frame that `renderFrame` draws without an error is on the screen, whatever happened before: frames,
-- failures half-way, resets, clears and changes of the cell size.
use rasterm.Base.{ℕ, ◌<◌, ◌≡◌, ◌≢◌, Bool}
use rasterm.Damage.Cover.{RowFits}
use rasterm.Error.{no_error}
use rasterm.Renderer.Plan.{TerminalCellPixels}
use rasterm.Renderer.State.{
  Frame, Backend, RendererOptions, Renderer, construct, reset, clear, update_cell_pixels,
}
use rasterm.Renderer.Render.{choose, render_frame}
use rasterm.Renderer.Screen.{Screen}
use rasterm.Renderer.Place.{display}
use rasterm.Renderer.Synced.{IsTruthful}
use rasterm.Renderer.Shown.{IsDrawable}

module _ {S : Type 0} (answers : ℕ → Bool) (b : Backend S)
    (is_large is_large_plan : ℕ → ℕ → Bool) where
  -- A renderer, and the screen that it draws on. The screen is anything at the start, after a failure, a
  -- clear or a reset.
  pub data Run : Renderer S → Screen → Type 0 where
    started :
        (backend : S) (options : RendererOptions) (s : Screen)
        → 0 < options.cell_pixels.cell_width
        → 0 < options.cell_pixels.cell_height
        → Run (construct answers backend options) s
    rendered :
        (r : Renderer S) (s : Screen) (f : Frame)
        → Run r s
        → IsDrawable f
        → RowFits f.source
        → IsTruthful f r s
        → (render_frame answers b is_large is_large_plan f r).0.error ≡ no_error
        → Run
            (render_frame answers b is_large is_large_plan f r).1
            (display r.options.cell_pixels f.source (choose is_large is_large_plan f r).0 s)
    failed :
        (r : Renderer S) (s s' : Screen) (f : Frame)
        → Run r s
        → IsDrawable f
        → (render_frame answers b is_large is_large_plan f r).0.error ≢ no_error
        → Run (render_frame answers b is_large is_large_plan f r).1 s'
    was_cleared : (r : Renderer S) (s s' : Screen) → Run r s → Run (clear answers b r).1 s'
    was_reset : (r : Renderer S) (s s' : Screen) → Run r s → Run (reset b r) s'
    cells_changed :
        (r : Renderer S) (s : Screen) (cells : TerminalCellPixels)
        → Run r s
        → Run (update_cell_pixels cells r) s
