-- ===== src/Renderer/State.antt =====
-- The members of `Renderer` (src/render/Renderer.hpp), the interface of the backend that encodes
-- (src/backend/GraphicsBackend.hpp), and the operations that change the state without drawing. What a
-- frame's validation answers is in the frame; the durations and capacities that a result reports are
-- left out.
use rasterm.Base.{ℕ, ◌*◌, ◌/◌, max, Bool, false, ◌||◌, ◌&&◌, List, [], ◌==◌, if◌then◌else◌}
use rasterm.Error.{ErrorCode, no_error}
use rasterm.Damage.Rect.{DamageRegion}
use rasterm.Damage.{Source, Tracker, DamageOptions, clamp_options, same_list}
use rasterm.Damage as Damage
use rasterm.Terminal.{Terminal, clear_and_home}
use rasterm.Terminal as Terminal
use rasterm.Renderer.Plan.{TerminalCellPixels}

-- A frame as `renderFrame` takes it: packed, with its `PixelFormat` as tag, or indexed, with tag 100.
pub record Frame : Type 0 where
  pub source : Source
  pub is_indexed : Bool
  pub is_valid : Bool
  pub has_valid_indices : Bool
  pub supplied : Bool
  pub rectangles : List DamageRegion

-- `GraphicsBackend`, of the state `S`: `SixelBackend` is the one that the library has.
pub record Backend (S : Type 0) : Type 0 where
  pub prepare_frame : Frame → S → S
  pub prepare_regional_frame : Frame → S → S
  pub prepare_region : Frame → DamageRegion → S → S
  pub set_output_limit : ℕ → S → S
  pub encode_frame : Frame → S → List ℕ × S
  pub encode_region : Frame → DamageRegion → S → List ℕ × S
  pub output_limit_exceeded : S → Bool
  pub last_color_count : S → ℕ
  pub reset : S → S

pub record RendererOptions : Type 0 where
  pub use_alternate_screen : Bool
  pub preserve_cursor : Bool
  pub enable_dirty_regions : Bool
  pub use_synchronized_output : Bool
  pub maximum_output_bytes : ℕ
  pub output_chunk_bytes : ℕ
  pub cell_pixels : TerminalCellPixels
  pub damage : DamageOptions

pub record RenderResult : Type 0 where
  pub error : ErrorCode
  pub rendered : Bool
  pub used_full_frame : Bool
  pub output_bytes : ℕ
  pub wire_bytes : ℕ
  pub dirty_region_count : ℕ
  pub colors_used : ℕ

-- `RenderResult{}`.
abbrev pub no_result : RenderResult
no_result = record {
  error = no_error;
  rendered = false;
  used_full_frame = false;
  output_bytes = 0;
  wire_bytes = 0;
  dirty_region_count = 0;
  colors_used = 0;
}

-- `previous_tag` is `previousFormatTag + 1`, so that -1 is 0.
pub record Renderer (S : Type 0) : Type 0 where
  pub options : RendererOptions
  pub terminal : Terminal
  pub backend : S
  pub damage : Tracker
  pub using_supplied : Bool
  pub previous_width : ℕ
  pub previous_height : ℕ
  pub previous_tag : ℕ
  pub previous_palette : List ℕ

-- The tiles of the tracker: as large as the options say and a cell at least, in whole cells.
unfoldable pub tile_options : DamageOptions → TerminalCellPixels → DamageOptions
tile_options config cells = record {
  tile_width = max config.tile_width cells.cell_width / cells.cell_width * cells.cell_width;
  tile_height = max config.tile_height cells.cell_height / cells.cell_height * cells.cell_height;
}

-- The members of a new `DamageTracker`.
unfoldable pub new_tracker : DamageOptions → Tracker
unfolding clamp_options
new_tracker config = record {
  options = clamp_options config;
  previous = λ i. 0;
  previous_size = 0;
  previous_palette = [];
  previous_width = 0;
  previous_height = 0;
  previous_pixel_bytes = 0;
  previous_tag = 0;
}

module _ {S : Type 0} where
  -- The constructor.
  unfoldable pub construct : (ℕ → Bool) → S → RendererOptions → Renderer S
  construct answers backend options = record {
    options = options;
    terminal = Terminal.construct answers options.use_alternate_screen;
    backend = backend;
    damage = new_tracker (tile_options options.damage options.cell_pixels);
    using_supplied = false;
    previous_width = 0;
    previous_height = 0;
    previous_tag = 0;
    previous_palette = [];
  }

  -- `reset`.
  unfoldable pub reset : Backend S → Renderer S → Renderer S
  reset b r = record r {
    backend = b.reset r.backend;
    damage = Damage.reset r.damage;
    using_supplied = false;
    previous_width = 0;
    previous_height = 0;
    previous_tag = 0;
    previous_palette = [];
  }

  -- `clear`.
  unfoldable pub clear : (ℕ → Bool) → Backend S → Renderer S → ErrorCode × Renderer S
  unfolding reset
  clear answers b r =
      let (cleared, terminal) = clear_and_home answers r.terminal in
      let r' = reset b (record r { terminal = terminal }) in
      ((if cleared then no_error else r'.terminal.last_error), r')

  -- `updateCellPixels`.
  unfoldable pub update_cell_pixels : TerminalCellPixels → Renderer S → Renderer S
  update_cell_pixels cells r =
      let now = r.options.cell_pixels in
      if (cells.cell_width == 0)
        || ((cells.cell_height == 0)
            || ((cells.cell_width == now.cell_width) && (cells.cell_height == now.cell_height)))
      then r
      else record r {
        options = record r.options { cell_pixels = cells };
        damage = new_tracker (tile_options r.options.damage cells);
        using_supplied = false;
        previous_width = 0;
        previous_height = 0;
        previous_tag = 0;
        previous_palette = [];
      }
