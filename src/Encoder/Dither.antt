-- ===== src/Encoder/Dither.antt =====
-- `applyFloydSteinberg` of src/encoder/SixelEncoder.cpp, on a buffer of three bytes to the pixel, a
-- function of the place. An error is its size and whether it is added: a division of C++ rounds both
-- signs towards zero, so the four shares have the sign of the error. The products of the quantisation have an
-- `int`, and are as here for up to 8421505 levels, past which they overflow; the presets of the
-- options have 5, 6 and 8.
use rasterm.Base.{ℕ, zero, suc, ◌+◌, ◌-◌, ◌*◌, ◌/◌, min, Bool, leb, ltb, if◌then◌else◌, update}

unfoldable pub quantize_channel : ℕ → ℕ → ℕ
quantize_channel channel levels = if leb levels 1 then 0 else (channel * (levels - 1) + 127) / 255

-- `quantizedValues[value]`.
unfoldable pub quantized_value : ℕ → ℕ → ℕ
unfolding quantize_channel
quantized_value levels value =
    if ltb 1 levels then quantize_channel value levels * 255 / (levels - 1) else 0

-- `clampChannel(value + share)`, for the share of an error that is added or taken away.
unfoldable pub clamp_channel : Bool → ℕ → ℕ → ℕ
clamp_channel added value share = if added then min 255 (value + share) else value - share

unfoldable pub add_error : Bool → ℕ → ℕ → (ℕ → ℕ) → ℕ → ℕ
unfolding clamp_channel
add_error added place share pixels = update pixels place (clamp_channel added (pixels place) share)

-- The body of the innermost loop.
unfoldable pub diffuse : ℕ → ℕ → ℕ → ℕ → ℕ → ℕ → (ℕ → ℕ) → ℕ → ℕ
unfolding quantized_value add_error
diffuse levels width height y x channel pixels =
    let stride = width * 3 in
    let offset = y * stride + (x * 3 + channel) in
    let old_value = pixels offset in
    let new_value = quantized_value levels old_value in
    let added = leb new_value old_value in
    let error = if added then old_value - new_value else new_value - old_value in
    let error7 = error * 7 / 16 in
    let error5 = error * 5 / 16 in
    let error3 = error * 3 / 16 in
    let error1 = error - error7 - error5 - error3 in
    let p1 = update pixels offset new_value in
    let p2 = if ltb (x + 1) width then add_error added (offset + 3) error7 p1 else p1 in
    let p3 = if ltb 0 x then add_error added (offset + stride - 3) error3 p2 else p2 in
    let p4 = add_error added (offset + stride) error5 p3 in
    let p5 = if ltb (x + 1) width then add_error added (offset + stride + 3) error1 p4 else p4 in
    if ltb (y + 1) height then p5 else p2

pub diffuse_channels : ℕ → ℕ → ℕ → ℕ → ℕ → ℕ → ℕ → (ℕ → ℕ) → ℕ → ℕ
unfolding diffuse
diffuse_channels zero levels width height y x channel pixels = pixels
diffuse_channels (suc left) levels width height y x channel pixels =
    diffuse_channels left levels width height y x (suc channel)
      (diffuse levels width height y x channel pixels)

pub diffuse_row : ℕ → ℕ → ℕ → ℕ → ℕ → ℕ → (ℕ → ℕ) → ℕ → ℕ
unfolding diffuse_channels
diffuse_row zero levels width height y x pixels = pixels
diffuse_row (suc left) levels width height y x pixels =
    diffuse_row left levels width height y (suc x)
      (diffuse_channels 3 levels width height y x 0 pixels)

pub diffuse_rows : ℕ → ℕ → ℕ → ℕ → ℕ → (ℕ → ℕ) → ℕ → ℕ
unfolding diffuse_row
diffuse_rows zero levels width height y pixels = pixels
diffuse_rows (suc left) levels width height y pixels =
    diffuse_rows left levels width height (suc y) (diffuse_row width levels width height y 0 pixels)

unfoldable pub apply_floyd_steinberg : ℕ → ℕ → ℕ → (ℕ → ℕ) → ℕ → ℕ
unfolding diffuse_rows
apply_floyd_steinberg levels width height pixels = diffuse_rows height levels width height 0 pixels
