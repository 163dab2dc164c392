-- ===== src/Sixel/Image.antt =====
-- The bytes of a whole image, as both `encodeView` of src/encoder/SixelEncoder.cpp put them together:
-- the header, the raster attributes, the palette, the frame and the terminator. `palette` is the
-- emitter of the palette, or the identity where the image defines none.
pub mod Picture
use rasterm.Base.{ℕ, List, [], ◌∷◌, false}
use rasterm.Sixel.Output.{SixelOutput, append}
use rasterm.Sixel.{HeaderOptions, begin_sixel, emit_raster_attributes}
use rasterm.Sixel.Indexed.{Scratch, emit_indexed_frame}

unfoldable pub write_image :
    HeaderOptions → ℕ → ℕ → (SixelOutput → SixelOutput) → (ℕ → ℕ) → Scratch → ℕ → SixelOutput
unfolding emit_indexed_frame begin_sixel emit_raster_attributes
write_image options width height palette indices b limit =
    let o : SixelOutput = record { storage = []; maximum_bytes = limit; limit_exceeded = false } in
    let o1 = begin_sixel options o in
    let o2 = emit_raster_attributes width height o1 in
    let o3 = palette o2 in
    let o4 = emit_indexed_frame indices width height b o3 in (append (27 ∷ b'\\' ∷ []) o4).1
