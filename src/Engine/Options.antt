-- ===== src/Engine/Options.antt =====
-- What the engine is configured with (include/rasterm/Config.hpp, Capabilities.hpp, Color.hpp), its
-- validation, and the overrides of what was detected of the terminal. An enumeration has `unnamed` for
-- any other value of its integer; what a test on a floating-point option answers is a field.
use rasterm.Base.{ℕ, Bool, true, false, not, ◌||◌, ◌&&◌, ◌==◌, length, if◌then◌else◌}
use rasterm.Frame.{DamageView}
use rasterm.Base.Int.{ℤ, pos, is_positive, is_negative}

pub data QualityProfile : Type 0 where
  realtime adaptive_video high_quality unnamed_quality : QualityProfile

pub data ToneMapOperator : Type 0 where
  no_tone_map reinhard hable aces unnamed_tone_map : ToneMapOperator

pub data DitherMode : Type 0 where
  no_dither ordered_bayer floyd_steinberg unnamed_dither : DitherMode

pub data CapabilitySupport : Type 0 where
  unknown unsupported supported unnamed_support : CapabilitySupport

pub data ColorPrimaries : Type 0 where
  unspecified_primaries bt709_primaries bt2020_primaries display_p3 unnamed_primaries :
      ColorPrimaries

pub data TransferFunction : Type 0 where
  unspecified_transfer srgb linear bt709_transfer gamma22 pq hlg unnamed_transfer : TransferFunction

pub data MatrixCoefficients : Type 0 where
  unspecified_matrix identity bt601 bt709_matrix bt2020_non_constant unnamed_matrix :
      MatrixCoefficients

pub data ColorRange : Type 0 where
  unspecified_range limited full unnamed_range : ColorRange

pub record TerminalGeometry : Type 0 where
  pub columns : ℤ
  pub rows : ℤ
  pub pixel_width : ℤ
  pub pixel_height : ℤ
  pub cell_pixel_width : ℤ
  pub cell_pixel_height : ℤ

pub record TerminalCapabilities : Type 0 where
  pub custom_output : Bool
  pub sixel : CapabilitySupport
  pub synchronized_output : CapabilitySupport
  pub geometry : TerminalGeometry

abbrev pub no_geometry : TerminalGeometry
no_geometry = record {
  columns = pos 0;
  rows = pos 0;
  pixel_width = pos 0;
  pixel_height = pos 0;
  cell_pixel_width = pos 0;
  cell_pixel_height = pos 0;
}

abbrev pub no_capabilities : TerminalCapabilities
no_capabilities = record {
  custom_output = false;
  sixel = unknown;
  synchronized_output = unknown;
  geometry = no_geometry;
}

pub record TerminalOverrides : Type 0 where
  pub sixel : CapabilitySupport
  pub synchronized_output : CapabilitySupport
  pub geometry : TerminalGeometry

-- `has_output` is whether the application gives a sink of its own; `threshold_is_valid` and the two after
-- it are the tests of `validOptions` on numbers in floating point.
pub record EngineOptions : Type 0 where
  pub quality : QualityProfile
  pub use_alternate_screen : Bool
  pub preserve_cursor : Bool
  pub enable_dirty_regions : Bool
  pub require_sixel_support : Bool
  pub use_synchronized_output : Bool
  pub maximum_output_bytes : ℕ
  pub output_chunk_bytes : ℕ
  pub has_output : Bool
  pub convert_to_srgb : Bool
  pub tone_map : ToneMapOperator
  pub realtime_dither : DitherMode
  pub palette_refresh_frames : ℤ
  pub maximum_threads : ℤ
  pub adaptive_palette_lock_frames : ℤ
  pub terminal_overrides : TerminalOverrides
  pub threshold_is_valid : Bool
  pub peak_is_valid : Bool
  pub scene_cut_is_valid : Bool

abbrev is_named_quality : QualityProfile → Bool
is_named_quality unnamed_quality = false
is_named_quality _ = true

abbrev is_named_tone_map : ToneMapOperator → Bool
is_named_tone_map unnamed_tone_map = false
is_named_tone_map _ = true

abbrev is_named_dither : DitherMode → Bool
is_named_dither unnamed_dither = false
is_named_dither _ = true

abbrev is_named_support : CapabilitySupport → Bool
is_named_support unnamed_support = false
is_named_support _ = true

abbrev is_zero : ℤ → Bool
is_zero n = not (is_positive n) && not (is_negative n)

abbrev same_bool : Bool → Bool → Bool
same_bool true b = b
same_bool false b = not b

abbrev pub is_valid_geometry : TerminalGeometry → Bool
is_valid_geometry g =
    not (is_negative g.columns)
    && (not (is_negative g.rows)
        && (not (is_negative g.pixel_width)
            && (not (is_negative g.pixel_height)
                && (not (is_negative g.cell_pixel_width)
                    && (not (is_negative g.cell_pixel_height)
                        && same_bool (is_zero g.cell_pixel_width) (is_zero g.cell_pixel_height))))))

-- `validOptions`.
unfoldable pub valid_options : EngineOptions → Bool
valid_options o =
    is_named_quality o.quality
    && (is_named_tone_map o.tone_map
        && (is_named_dither o.realtime_dither
            && (is_valid_geometry o.terminal_overrides.geometry
                && (not (is_negative o.palette_refresh_frames)
                    && (not (is_negative o.maximum_threads)
                        && (is_named_support o.terminal_overrides.sixel
                            && (is_named_support o.terminal_overrides.synchronized_output
                                && (o.threshold_is_valid
                                    && (o.peak_is_valid
                                        && (not (is_negative o.adaptive_palette_lock_frames)
                                            && o.scene_cut_is_valid))))))))))

-- `white_is_valid` and `peak_is_valid` are the tests on the two luminances.
pub record ColorMetadata : Type 0 where
  pub primaries : ColorPrimaries
  pub transfer : TransferFunction
  pub matrix : MatrixCoefficients
  pub range : ColorRange
  pub white_is_valid : Bool
  pub peak_is_valid : Bool

abbrev is_named_primaries : ColorPrimaries → Bool
is_named_primaries unnamed_primaries = false
is_named_primaries _ = true

abbrev is_named_transfer : TransferFunction → Bool
is_named_transfer unnamed_transfer = false
is_named_transfer _ = true

abbrev is_named_matrix : MatrixCoefficients → Bool
is_named_matrix unnamed_matrix = false
is_named_matrix _ = true

abbrev is_named_range : ColorRange → Bool
is_named_range unnamed_range = false
is_named_range _ = true

-- `validColorMetadata`.
unfoldable pub valid_color_metadata : ColorMetadata → Bool
valid_color_metadata c =
    is_named_primaries c.primaries
    && (is_named_transfer c.transfer
        && (is_named_matrix c.matrix
            && (is_named_range c.range && (c.white_is_valid && c.peak_is_valid))))

-- `validMetadata`.
unfoldable pub valid_metadata : ColorMetadata → ColorMetadata → DamageView → Bool
unfolding valid_color_metadata
valid_metadata color source_color damage =
    valid_color_metadata color
    && (valid_color_metadata source_color
        && (((length damage.rectangles == 0) || damage.has_rectangles)
            && (damage.supplied || ((length damage.rectangles == 0) && not damage.has_rectangles))))

abbrev overridden : CapabilitySupport → CapabilitySupport → CapabilitySupport
overridden unknown detected = detected
overridden given detected = given

abbrev replaced : ℤ → ℤ → ℤ
replaced given detected = if is_positive given then given else detected

-- `applyOverrides`.
unfoldable pub apply_overrides : TerminalOverrides → TerminalCapabilities → TerminalCapabilities
apply_overrides o c = record {
  custom_output = c.custom_output;
  sixel = overridden o.sixel c.sixel;
  synchronized_output = overridden o.synchronized_output c.synchronized_output;
  geometry = record {
    columns = replaced o.geometry.columns c.geometry.columns;
    rows = replaced o.geometry.rows c.geometry.rows;
    pixel_width = replaced o.geometry.pixel_width c.geometry.pixel_width;
    pixel_height = replaced o.geometry.pixel_height c.geometry.pixel_height;
    cell_pixel_width = replaced o.geometry.cell_pixel_width c.geometry.cell_pixel_width;
    cell_pixel_height =
        if is_positive o.geometry.cell_pixel_width
        then o.geometry.cell_pixel_height
        else c.geometry.cell_pixel_height;
  };
}
