-- ===== src/Engine/Tests.antt =====
-- An engine over a sink of the application, and the theorems at it.
use rasterm.Base.{
  ℕ, ◌+◌, ◌-◌, ◌<◌, ◌≤◌, min, refl, Bool, true, false, none, some, List, [], ◌∷◌, ◌≡◌, member,
  arith,
}
use rasterm.Base.Int.{pos}
use rasterm.Error.{no_error}
use rasterm.Console as Console
use rasterm.Console.{System, new_session}
use rasterm.Console.Restore.{IsClean, SameConsole}
use rasterm.Renderer.State as State
use rasterm.Renderer.State.{Frame, Backend, Renderer}
use rasterm.Renderer.Shown.{IsDrawable}
use rasterm.Engine.Options.{
  realtime, aces, no_dither, supported, unknown, no_geometry, no_capabilities, EngineOptions,
}
use rasterm.Engine.Statistics.{no_stats, Samples, write_percentiles, count_result}
use rasterm.Engine.{
  Engine, bad_alloc, raised_after, not_raised, thrown, shutdown, initialize, renderer_options,
}
use rasterm.Engine.Rendering.{
  Environment, render_failure, refresh_terminal_geometry, draw_frame, render_view,
}
use rasterm.Engine.Restores.{IsStarted, clean-IsRestorable, initialize-IsStarted}
use rasterm.Engine.Life.{Operation, initializes, resets, run, IsPaired, run-shutdown}
use rasterm.Engine.Failures.{DrawsWhole, render_view-DrawsWhole}
use rasterm.Engine.Percentiles.{IsRing, counted, count_at_most, write_percentiles_lem}

abbrev console : System
console = record {
  console_mode = 3;
  stdout_mode = 2;
  handlers = 0;
  active_owner = none;
  active_handle = false;
  active_original_mode = 0;
  active_alternate = false;
}

abbrev answers : Console.Answers
answers = record {
  valid_handle = true;
  is_console = true;
  has_size = true;
  mode_read = true;
  mode_set = true;
  mode_verified = true;
  stdout_set = true;
  handler_set = true;
  restores = true;
}

abbrev enable : ℕ → ℕ
enable mode = mode + 4

abbrev backend : Backend ℕ
backend = record {
  prepare_frame = λ f s. s;
  prepare_regional_frame = λ f s. s;
  prepare_region = λ f region s. s;
  set_output_limit = λ limit s. limit;
  encode_frame = λ f s. (5 ∷ 6 ∷ [], s);
  encode_region = λ f region s. (5 ∷ 6 ∷ [], s);
  output_limit_exceeded = λ s. false;
  last_color_count = λ s. 1;
  reset = λ s. 0;
}

abbrev options : EngineOptions
options = record {
  quality = realtime;
  use_alternate_screen = false;
  preserve_cursor = true;
  enable_dirty_regions = true;
  require_sixel_support = false;
  use_synchronized_output = true;
  maximum_output_bytes = 0;
  output_chunk_bytes = 0;
  has_output = false;
  convert_to_srgb = true;
  tone_map = aces;
  realtime_dither = no_dither;
  palette_refresh_frames = pos 120;
  maximum_threads = pos 0;
  adaptive_palette_lock_frames = pos 12;
  terminal_overrides = record {
    sixel = supported;
    synchronized_output = unknown;
    geometry = no_geometry;
  };
  threshold_is_valid = true;
  peak_is_valid = true;
  scene_cut_is_valid = true;
}

abbrev samples : Samples
samples = record {
  terminal_write_samples = 0 ∷ 0 ∷ 0 ∷ [];
  write_sample_count = 0;
  write_sample_cursor = 0;
  output_failures = 0;
  backpressure_events = 0;
  payload_limit_drops = 0;
}

abbrev new_engine : Engine ℕ
new_engine = record {
  options = options;
  latest_stats = no_stats;
  console = new_session 8;
  detected_capabilities = no_capabilities;
  latest_status = no_error;
  renderer = none;
  samples = samples;
  initialized = false;
}

clean : IsClean (new_session 8)
clean = record { handle = refl; stdout = refl; unregistered = refl; unowned = refl }

same : SameConsole console console
same = record { console = refl; stdout = refl; handlers = refl; owner = refl; handle = refl }

abbrev accepts : ℕ → Bool
accepts call = true

-- Out of memory once the console is active.
initialize-IsStarted_example : IsStarted console refl refl answers refl (
    initialize answers enable 1 accepts no_capabilities no_error
      (raised_after bad_alloc)
      0
      options
      new_engine
      console)
initialize-IsStarted_example =
    initialize-IsStarted console refl refl answers refl enable 1 no_capabilities accepts no_error
      (raised_after bad_alloc) 0 options new_engine console
      (clean-IsRestorable (new_session 8) console console clean same refl)

abbrev ops : List (Operation ℕ)
ops = initializes answers accepts no_capabilities no_error not_raised 0 options ∷ resets ∷ []

run-shutdown_example :
    let (e', w') = run backend enable 1 ops (new_engine, console) in
    let (e'', w'') = shutdown answers e' w' in
    IsPaired e' × IsClean e''.console × SameConsole w'' console
run-shutdown_example =
    run-shutdown backend enable 1 console refl refl ops answers new_engine refl clean

abbrev environment : Environment
environment = record {
  sink = accepts;
  is_large = λ changed total. false;
  is_large_plan = λ changed total. false;
  is_late = λ time. false;
  index_of_95 = λ n. 1;
  index_of_99 = λ n. 2;
}

abbrev frame : Frame
frame = record {
  source = record {
    bytes = λ i. i;
    width = 5;
    height = 4;
    stride = 8;
    pixel_bytes = 1;
    format_tag = 100;
    palette = 7 ∷ [];
  };
  is_indexed = true;
  is_valid = true;
  has_valid_indices = true;
  supplied = false;
  rectangles = [];
}

frame-IsDrawable : IsDrawable frame
frame-IsDrawable = record { valid = refl; width = omega arith; height = omega arith }

abbrev renderer : Renderer ℕ
renderer = State.construct accepts 0 (renderer_options options no_capabilities)

abbrev running : Engine ℕ
running = record new_engine { renderer = some renderer; initialized = true }

render_view-DrawsWhole_example :
    DrawsWhole backend environment frame frame-IsDrawable
      (render_view backend environment no_geometry 0
        (thrown bad_alloc renderer)
        true
        frame
        running).1
unfolding render_view render_failure refresh_terminal_geometry draw_frame
render_view-DrawsWhole_example =
    render_view-DrawsWhole backend environment frame frame-IsDrawable no_geometry 0
      (thrown bad_alloc renderer) frame running renderer refl refl (λ e. absurd (ground (arith, e)))

samples-IsRing : IsRing samples
samples-IsRing = record { places = omega arith; cursor = omega arith; count = omega arith }

write_percentiles_lem_example :
    let m' = count_result environment.is_late State.no_result 40 samples in
    let (p95, p99) = write_percentiles environment.index_of_95 environment.index_of_99 m' in
    let last = m'.write_sample_count - 1 in
    IsRing m'
    × (member p95 (counted m') ≡ true)
    × (member p99 (counted m') ≡ true)
    × (min 1 last < count_at_most p95 (counted m'))
    × (min 2 last < count_at_most p99 (counted m'))
    × (1 ≤ 2 → p95 ≤ p99)
unfolding count_result
write_percentiles_lem_example =
    write_percentiles_lem environment.is_late environment.index_of_95 environment.index_of_99
      State.no_result 40 samples samples-IsRing (omega arith)
