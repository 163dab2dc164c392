-- ===== src/Engine/Failures.antt =====
-- A frame that the engine did not present: what it leaves for the next one.
use rasterm.Base.{
  ℕ, ◌≡◌, ◌≢◌, refl, Bool, true, false, not, ◌||◌, Option, none, some, if◌then◌else◌, arith,
}
use rasterm.Error.{no_error, invalid_argument}
use rasterm.Renderer.State as State
use rasterm.Renderer.State.{Frame, Backend, Renderer}
use rasterm.Renderer.Render.{whole, choose}
use rasterm.Renderer.Shown.{IsDrawable}
use rasterm.Renderer.Recovery.{choose-reset, failed-whole}
use rasterm.Engine.Options.{TerminalGeometry}
use rasterm.Engine.Statistics.{RenderStats, record_result}
use rasterm.Engine.{Engine, Thrown, not_thrown, thrown}
use rasterm.Engine.Rendering.{
  Environment, render_failure, refresh_terminal_geometry, draw_frame, render_view,
}

module _ {S : Type 0} (b : Backend S) (env : Environment) (next : Frame)
    (drawable : IsDrawable next) where
  -- The engine has a renderer that will draw the next frame as a whole.
  abbrev pub DrawsWhole : Engine S → Type 0
  DrawsWhole e =
      (r : Renderer S) × ((e.renderer ≡ some r)
        × ((choose env.is_large env.is_large_plan next r).0 ≡ whole))

  draw_frame-DrawsWhole :
      (time : ℕ) (outcome : Thrown S) (f : Frame) (e : Engine S) (r : Renderer S)
      → (draw_frame b env time outcome f e r).0.error ≢ no_error
      → DrawsWhole (draw_frame b env time outcome f e r).1
  unfolding draw_frame render_failure record_result
  draw_frame-DrawsWhole time (thrown exception left) f e r wrong =
      (State.reset b left, (refl, choose-reset env.is_large env.is_large_plan next drawable b left))
  draw_frame-DrawsWhole time not_thrown f e r wrong =
      (_, (refl, failed-whole env.is_large env.is_large_plan next drawable env.sink b f r wrong))

  -- When an initialised engine was handed a frame that passed its validation and reports an error, from
  -- the encoder's limit, from the sink or by an exception at any point of the rendering, the next frame
  -- is drawn as a whole.
  pub render_view-DrawsWhole :
      (current : TerminalGeometry) (time : ℕ) (outcome : Thrown S) (f : Frame) (e : Engine S)
      (r : Renderer S)
      → e.initialized ≡ true
      → e.renderer ≡ some r
      → (render_view b env current time outcome true f e).0.error ≢ no_error
      → DrawsWhole (render_view b env current time outcome true f e).1
  unfolding render_view
  render_view-DrawsWhole current time outcome f e r on there = go e.renderer e.initialized there on
    where
      viewed : Bool → Renderer S → RenderStats × Engine S
      viewed initialized r0 =
          let (e', r') = refresh_terminal_geometry b current e r0 in
          if not initialized || not true
          then render_failure invalid_argument e
          else draw_frame b env time outcome f e' r'

      view : Option (Renderer S) → Bool → RenderStats × Engine S
      view o initialized = elim o [
        | none ↦ render_failure invalid_argument e
        | some r0 ↦ viewed initialized r0
      ]

      go :
          (o : Option (Renderer S)) (initialized : Bool)
          → o ≡ some r
          → initialized ≡ true
          → (view o initialized).0.error ≢ no_error
          → DrawsWhole (view o initialized).1
      go none initialized e1 e2 wrong = absurd (ground (arith, e1))
      go (some r0) false e1 e2 wrong = absurd (ground (arith, e2))
      go (some r0) true e1 e2 wrong =
          let (e', r') = refresh_terminal_geometry b current e r0 in
          draw_frame-DrawsWhole time outcome f e' r' wrong
