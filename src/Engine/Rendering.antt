-- ===== src/Engine/Rendering.antt =====
-- The engine while it is initialised: frames, the size of the terminal, `clear` and `reset`.
use rasterm.Base.{ℕ, Bool, false, not, ◌||◌, ◌&&◌, none, some, if◌then◌else◌, ◌==◌}
use rasterm.Base.Int.{ℤ, pos, negsuc, pos_part, is_positive}
use rasterm.Error.{ErrorCode, invalid_argument}
use rasterm.Renderer.State as State
use rasterm.Renderer.State.{Frame, Backend, Renderer, update_cell_pixels}
use rasterm.Renderer.Render.{render_frame}
use rasterm.Engine.Options.{TerminalGeometry, apply_overrides}
use rasterm.Engine.Statistics.{RenderStats, no_stats, record_result}
use rasterm.Engine.{Engine, rendering_code, Thrown, not_thrown, thrown}

abbrev same_int : ℤ → ℤ → Bool
same_int (pos m) (pos n) = m == n
same_int (negsuc m) (negsuc n) = m == n
same_int _ _ = false

abbrev same_geometry : TerminalGeometry → TerminalGeometry → Bool
same_geometry g h =
    (same_int g.columns h.columns && same_int g.rows h.rows)
    && (same_int g.cell_pixel_width h.cell_pixel_width
        && same_int g.cell_pixel_height h.cell_pixel_height)

abbrev error_stats : ErrorCode → RenderStats
error_stats code = record no_stats { error = code }

-- What the rest of the system answers: the sink, the comparisons of areas, and those of times.
pub record Environment : Type 0 where
  pub sink : ℕ → Bool
  pub is_large : ℕ → ℕ → Bool
  pub is_large_plan : ℕ → ℕ → Bool
  pub is_late : ℕ → Bool
  pub index_of_95 : ℕ → ℕ
  pub index_of_99 : ℕ → ℕ

module _ {S : Type 0} where
  -- `invalidFrame` and `renderFailure`.
  unfoldable pub render_failure : ErrorCode → Engine S → RenderStats × Engine S
  render_failure code e =
      (error_stats code, record e { latest_status = code; latest_stats = error_stats code })

  module _ (b : Backend S) where
    -- `refreshTerminalGeometry` with the renderer `r`: `current` is what the console answers.
    unfoldable pub refresh_terminal_geometry :
        TerminalGeometry → Engine S → Renderer S → Engine S × Renderer S
    refresh_terminal_geometry current e r =
        let detected = e.detected_capabilities in
        let g =
          (apply_overrides e.options.terminal_overrides
            (record detected { geometry = current })).geometry in
        if e.options.has_output
        then (e, r)
        else if not (is_positive g.columns)
            || (not (is_positive g.rows) || same_geometry g detected.geometry)
        then (e, r)
        else (
          record e { detected_capabilities = record detected { geometry = g } },
          State.reset b (
              update_cell_pixels
                (record {
                  cell_width = pos_part g.cell_pixel_width;
                  cell_height = pos_part g.cell_pixel_height;
                })
                r),
        )

    -- `clear`.
    unfoldable pub clear : (ℕ → Bool) → Engine S → ErrorCode × Engine S
    clear sink e = elim e.renderer [
      | none ↦ (invalid_argument, record e { latest_status = invalid_argument })
      | some r ↦
          let (code, r') = State.clear sink b r in
          if not e.initialized
          then (invalid_argument, record e { latest_status = invalid_argument })
          else (code, record e { renderer = some r'; latest_status = code })
    ]

    -- `reset`.
    unfoldable pub reset : Engine S → Engine S
    reset e = record e {
      renderer = elim e.renderer [ none ↦ none | some r ↦ some (State.reset b r) ];
      latest_stats = no_stats;
    }

    -- The drawing of a frame and its record: `time` is how long the presentation took.
    unfoldable pub draw_frame :
        Environment → ℕ → Thrown S → Frame → Engine S → Renderer S → RenderStats × Engine S
    unfolding render_failure
    draw_frame env time (thrown exception left) f e r =
        render_failure (rendering_code exception)
          (record e { renderer = some (State.reset b left) })
    draw_frame env time not_thrown f e r =
        let (result, r') = render_frame env.sink b env.is_large env.is_large_plan f r in
        let (stats, samples) =
          record_result env.is_late env.index_of_95 env.index_of_99 result time f.source.width
            f.source.height e.samples in
        (
          stats,
          record e {
            renderer = some r';
            samples = samples;
            latest_stats = stats;
            latest_status = result.error;
          },
        )

    -- `renderFrame`, of a packed and of an indexed frame: `accepted` is the validation of the frame and of
    -- its metadata, and `f` the frame after the conversion of its colours.
    unfoldable pub render_view :
        Environment
        → TerminalGeometry
        → ℕ
        → Thrown S
        → Bool
        → Frame
        → Engine S
        → RenderStats × Engine S
    unfolding draw_frame refresh_terminal_geometry
    render_view env current time outcome accepted f e = elim e.renderer [
      | none ↦ render_failure invalid_argument e
      | some r ↦
          let (e', r') = refresh_terminal_geometry current e r in
          if not e.initialized || not accepted
          then render_failure invalid_argument e
          else draw_frame env time outcome f e' r'
    ]
