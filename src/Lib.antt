-- ===== src/Lib.antt =====
-- rasterm presents pixels in a terminal by the SIXEL protocol. An application hands frames to a
-- presenter, whose worker passes them to an engine; a damage tracker finds what changed since the frame
-- before, an encoder turns regions into SIXEL bytes, and a terminal renderer sends these with the
-- terminal's control sequences to an output sink. On Windows a console session owns the terminal
-- meanwhile.
--
-- Base: shared names, Boolean tests, lists and signed integers. Decimal: the digits that numbers are
-- written with. Error: the codes of include/rasterm/Error.hpp.
--
-- Frame: the views of include/rasterm (PixelFormat.hpp, Damage.hpp, Frame.hpp, IndexedFrame.hpp,
-- Buffer.hpp) and their validation; `is_valid_frame` is FrameView::isValid, `has_valid_indices` is
-- IndexedFrameView::hasValidIndices. Its sizes are signed integers, and the maxima of the machine's
-- types are written out.
--
-- Presenter: src/engine/Presenter.cpp. State has the members of Presenter::Impl; Submit the submissions,
-- `invalidate` and `waitUntilIdle`; Worker the parts of `presentLoop` between two locks, `initialize` and
-- `shutdown`; Steps the relation in which the threads take these steps in any order. Each function
-- holds the mutex from its beginning to its end, as the code does. The engine's results, failures of
-- the allocator and the clock are arguments of the steps.
--
-- Damage: src/damage/DamageTracker.cpp; `compare_and_update` is its private compareAndUpdate. The
-- comparison of the changed area with the threshold, on floats, is the parameter `is_large`.
--
-- Sixel: src/encoder/SixelWriter.cpp. Output is the bounded string SixelOutput; the emitters keep the
-- source's names. Indexed is emitIndexedFrame, with the thread-local vectors as a record; Image is what
-- both kinds of frame share from the header to the terminator. Decoder reads the bytes back into a
-- picture: it is the independent description that the images are compared with.
--
-- Terminal: src/output/TerminalRenderer.cpp. Each method is a function of the answers that the sink
-- gives to its calls in their order, and keeps the list of these calls.
--
-- Renderer: src/render/Renderer.cpp. Plan has the functions that merge regions and choose between regions,
-- a box and the whole frame; State the members, the interface of the backend and the operations that do
-- not draw; Render is `renderFrame`, whose first half, up to the encoding, is `choose`. The backend
-- (src/backend/GraphicsBackend.hpp) is a parameter, as are the two comparisons of areas in floating
-- point. Screen gives each pixel the bytes that were drawn there last; Place puts the image of a region
-- at the cell that the cursor is moved to for it; Run has the sequences of operations.
--
-- Encoder: src/encoder/SixelEncoder.cpp. Its root decides when an image defines its palette, which is
-- known by its signature. Indexed encodes an indexed frame or a region of one. Pixels has `readPixel`
-- and the unpacking of 16-bit frames in the engine; Mapping the rows of palette indices, by the plain
-- loop and by src/encoder/SixelSimdAvx2.cpp and SixelSimdAvx512.cpp; Palette and Adaptive the two
-- mappers of src/encoder/SixelPalette.cpp; Dither applyFloydSteinberg; Parallel the threads of
-- EncoderParallelExecutor as a step relation. Packed puts these together: it prepares palettes, and its
-- Image is `encodeView` for packed frames. Perceptual distances, the colours of hues, the analyzer, the
-- comparison of histograms and the ordered dithering, in floating point, are parameters.
--
-- Engine: src/engine/Engine.cpp. Options has the options, their validation and the overrides of what was
-- detected; Statistics the times and counters of `record`; Rendering the calls of an initialised engine.
-- `initialize`, `shutdown` and `render_view` use the console session and the renderer as modelled above; an
-- exception is an argument that says where it is thrown. Life has the calls in any order.
--
-- Console: src/platform/windows/TerminalOwner.cpp and ConsoleSession.cpp. Each call of the operating
-- system has an answer in `Answers`.
--
-- Bounds and fuel: counters of 64 bits wrap in the model, and so do the product and the sums of an `int`
-- that a frame admitted by its validation can overflow in the damage tracker and in the test of a
-- region. The encoder's product of a column with the bytes of a pixel does not: it is that of the code
-- for rows of less than 2^31 bytes, as the number of the next row is for less than 2^31 rows. A loop whose rounds each consume input runs
-- on fuel, a round for each element of the input or one more (`chunk_loop`, `repeat_loop`, `band_loop`,
-- `frame_loop`, `vector_row`, `merge_loop`, `merge_rounds`); the theorems about these loops are for the fuel that the functions
-- around them give, so that the fuel is enough is part of them.
--
-- Not modelled: the conversion of colours (src/color), which is arithmetic in floating point, as is what
-- the encoder takes as parameters; the C interface (src/capi) and the backend
-- (src/backend/SixelBackend.cpp), which forward calls; the sinks and the diagnostics, which are input
-- and output; the end of the encoder's threads.
pub mod Base
pub mod Error
pub mod Decimal
pub mod Terminal
pub mod Sixel
pub mod Damage
pub mod Presenter
pub mod Console
pub mod Frame
pub mod Renderer
pub mod Engine
pub mod Encoder
