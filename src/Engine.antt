-- ===== src/Engine.antt =====
-- src/engine/Engine.cpp: the engine owns the console session and the renderer, and passes frames on.
-- The console, the sink, the backend and the conversion of colours answer as in the components below it, and
-- an exception may be thrown where the source catches one: `Thrown` is its outcome, with the renderer in
-- any state. Diagnostics and events, which only report, are left out; so is the assignment of an engine,
-- which moves the pointer to `Engine::Impl`. What the destructor of the renderer writes is
-- `Terminal.destruct`.
pub mod Options
pub mod Statistics
pub mod Rendering
pub mod Restores
pub mod Life
pub mod Failures
pub mod Percentiles
mod Tests
use rasterm.Base.{
  ℕ, zero, suc, Bool, true, false, not, ◌||◌, ◌&&◌, Option, none, some, if◌then◌else◌, ◌==◌,
}
use rasterm.Base.Int.{ℤ, pos_part, is_positive}
use rasterm.Error.{
  ErrorCode, is_none, no_error, invalid_argument, unsupported_terminal, output_write_failed,
  out_of_memory, initialization_exception, rendering_exception,
}
use rasterm.Terminal.{good}
use rasterm.Console as Console
use rasterm.Console.{System, Session, activate}
use rasterm.Renderer.Plan.{TerminalCellPixels}
use rasterm.Renderer.State as State
use rasterm.Renderer.State.{
  Frame, Backend, RendererOptions, RenderResult, Renderer, update_cell_pixels,
}
use rasterm.Renderer.Render.{render_frame}
use Options.{
  CapabilitySupport, unsupported, supported, TerminalGeometry, no_geometry, TerminalCapabilities,
  no_capabilities, EngineOptions, valid_options, apply_overrides,
}
use Statistics.{RenderStats, no_stats, Samples, clear_samples, record_result}

-- The members of `Engine::Impl`.
pub record Engine (S : Type 0) : Type 0 where
  pub options : EngineOptions
  pub latest_stats : RenderStats
  pub console : Session
  pub detected_capabilities : TerminalCapabilities
  pub latest_status : ErrorCode
  pub renderer : Option (Renderer S)
  pub samples : Samples
  pub initialized : Bool

-- What is caught: `std::bad_alloc` or anything else, and the codes that stand for it.
pub data Exception : Type 0 where
  bad_alloc other_exception : Exception

abbrev pub initialization_code : Exception → ErrorCode
initialization_code bad_alloc = out_of_memory
initialization_code other_exception = initialization_exception

abbrev pub rendering_code : Exception → ErrorCode
rendering_code bad_alloc = out_of_memory
rendering_code other_exception = rendering_exception

-- Where an exception leaves `initialize`: before or after the console was activated.
pub data Raised : Type 0 where
  not_raised : Raised
  raised_before : Exception → Raised
  raised_after : Exception → Raised

-- How a call of the renderer ends: as it does, or by an exception that leaves it in some state.
pub data Thrown (S : Type 0) : Type 0 where
  not_thrown : Thrown S
  thrown : Exception → Renderer S → Thrown S

abbrev pub is_supported : CapabilitySupport → Bool
is_supported supported = true
is_supported _ = false

abbrev pub is_unsupported : CapabilitySupport → Bool
is_unsupported unsupported = true
is_unsupported _ = false

abbrev pub has_renderer : {S : Type 0} → Option (Renderer S) → Bool
has_renderer none = false
has_renderer (some r) = true

-- The options of the renderer: a cell has 10 by 20 pixels by default, a tile 40 by 20.
unfoldable pub renderer_options : EngineOptions → TerminalCapabilities → RendererOptions
renderer_options o c = record {
  use_alternate_screen = o.use_alternate_screen;
  preserve_cursor = o.preserve_cursor;
  enable_dirty_regions = o.enable_dirty_regions;
  use_synchronized_output = o.use_synchronized_output && not (is_unsupported c.synchronized_output);
  maximum_output_bytes = o.maximum_output_bytes;
  output_chunk_bytes = o.output_chunk_bytes;
  cell_pixels =
      if is_positive c.geometry.cell_pixel_width && is_positive c.geometry.cell_pixel_height
      then (record {
        cell_width = pos_part c.geometry.cell_pixel_width;
        cell_height = pos_part c.geometry.cell_pixel_height;
      })
      else record { cell_width = 10; cell_height = 20 };
  damage = record { tile_width = 40; tile_height = 20 };
}

module _ {S : Type 0} (answers : Console.Answers) where
  -- `shutdown`.
  unfoldable pub shutdown : Engine S → System → Engine S × System
  shutdown e w =
      let (session, w') = Console.restore answers e.console w in
      (record e { renderer = none; console = session; initialized = false }, w')

  -- A failure of `initialize` after the console may have been activated: `fail`.
  unfoldable pub abandon : ErrorCode → Engine S → System → ErrorCode × Engine S × System
  abandon code e w =
      let (session, w') = Console.restore answers e.console w in
      (code, record e { renderer = none; console = session; latest_status = code }, w')

  module _ (enable : ℕ → ℕ) (binary : ℕ) where
    -- The capabilities, by an activation of the console or for the application's own sink.
    unfoldable pub take_output :
        TerminalCapabilities → EngineOptions → Engine S → System → ErrorCode × Engine S × System
    take_output detected o e w =
        if not o.has_output
        then (let (code, session, w') =
              activate enable binary answers o.use_alternate_screen e.console w in
            (
              code,
              record e {
                console = session;
                detected_capabilities = detected;
                latest_status = code;
              },
              w',
            ))
        else (
          no_error,
          record e { detected_capabilities = record no_capabilities { custom_output = true } },
          w,
        )

  -- The rest of `initialize`: `sink` answers the renderer's calls.
  unfoldable pub start_renderer :
      (ℕ → Bool) → S → Raised → Engine S → System → ErrorCode × Engine S × System
  unfolding abandon
  start_renderer sink backend raised e0 w =
      let capabilities = apply_overrides e0.options.terminal_overrides e0.detected_capabilities in
      let e = record e0 { detected_capabilities = capabilities } in
      let renderer = State.construct sink backend (renderer_options e.options capabilities) in
      if e.options.require_sixel_support && not (is_supported capabilities.sixel)
      then abandon unsupported_terminal e w
      else elim raised [
        | raised_after exception ↦ abandon (initialization_code exception) e w
        | _ ↦ if not (good renderer.terminal) then abandon output_write_failed e w else (
          no_error,
          record e {
            renderer = some renderer;
            initialized = true;
            latest_stats = no_stats;
            samples = clear_samples e.samples;
            latest_status = no_error;
          },
          w,
        )
      ]

  module _ (enable : ℕ → ℕ) (binary : ℕ) where
    -- `initialize` with options that are valid. `configured` is what the diagnostics answer.
    unfoldable pub initialize_valid :
        (ℕ → Bool)
        → TerminalCapabilities
        → ErrorCode
        → Raised
        → S
        → EngineOptions
        → Engine S
        → System
        → ErrorCode × Engine S × System
    unfolding abandon take_output start_renderer
    initialize_valid sink detected configured raised backend o e w = elim raised [
      | raised_before exception ↦
          abandon (initialization_code exception) (record e { options = o }) w
      | later ↦
          let configured_engine = record e { options = o; latest_status = configured } in
          let (code, e', w') = take_output enable binary detected o configured_engine w in
          if not (is_none configured)
          then (configured, configured_engine, w)
          else if not (is_none code)
          then (code, e', w')
          else start_renderer sink backend later e' w'
    ]

    -- `initialize`.
    unfoldable pub initialize :
        (ℕ → Bool)
        → TerminalCapabilities
        → ErrorCode
        → Raised
        → S
        → EngineOptions
        → Engine S
        → System
        → ErrorCode × Engine S × System
    unfolding shutdown initialize_valid
    initialize sink detected configured raised backend o e w =
        let (e', w') = shutdown e w in
        if not (valid_options o)
        then (invalid_argument, record e' { latest_status = invalid_argument }, w')
        else initialize_valid sink detected configured raised backend o e' w'
