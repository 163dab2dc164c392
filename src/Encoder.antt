-- ===== src/Encoder.antt =====
-- src/encoder/SixelEncoder.cpp: when an image defines the palette that it is drawn with. A terminal keeps
-- the colour registers of earlier images, so the encoder leaves the palette out while it is the one that
-- was sent last, and sends it again after a number of frames. A palette is known by its signature.
pub mod Registers
pub mod Indexed
pub mod Pixels
pub mod Mapping
pub mod Palette
pub mod Parallel
pub mod Adaptive
pub mod Dither
pub mod Packed
mod Tests
mod ImageTests
mod PackedTests
mod ThreadTests
use rasterm.Base.{
  ℕ, zero, suc, ◌+◌, Bool, true, false, not, ◌||◌, ◌&&◌, ltb, leb, ◌==◌, if◌then◌else◌,
}
use rasterm.Base.Int.{ℤ, pos_part, is_positive}

pub record SixelOptions : Type 0 where
  pub persist_palette_registers : Bool
  pub palette_refresh_frames : ℤ

-- The members of `VideoSixelEncoder` that remember the palette sent.
pub record PaletteState : Type 0 where
  pub palette_registers_valid : Bool
  pub palette_signature : ℕ
  pub frames_since_palette_refresh : ℕ

abbrev pub no_palette : PaletteState
no_palette = record {
  palette_registers_valid = false;
  palette_signature = 0;
  frames_since_palette_refresh = 0;
}

-- `beginLogicalFrame`.
unfoldable pub begin_logical_frame : SixelOptions → PaletteState → PaletteState
begin_logical_frame o s =
    if s.palette_registers_valid
      && (is_positive o.palette_refresh_frames
          && ltb s.frames_since_palette_refresh (pos_part o.palette_refresh_frames))
    then record s { frames_since_palette_refresh = s.frames_since_palette_refresh + 1 }
    else s

-- `shouldEmitPalette`.
unfoldable pub should_emit_palette : SixelOptions → ℕ → PaletteState → Bool × PaletteState
should_emit_palette o signature s =
    let refresh_due =
      is_positive o.palette_refresh_frames
      && leb (pos_part o.palette_refresh_frames) s.frames_since_palette_refresh in
    if not o.persist_palette_registers
    then (true, s)
    else if not s.palette_registers_valid || (not (signature == s.palette_signature) || refresh_due)
    then (
      true,
      record {
        palette_registers_valid = true;
        palette_signature = signature;
        frames_since_palette_refresh = 0;
      },
    )
    else (false, s)

-- The part of `reset` that is about the palette sent.
unfoldable pub reset : PaletteState → PaletteState
reset s = no_palette
