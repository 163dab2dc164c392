-- ===== src/Sixel/Tests.antt =====
-- Runs of the writer and its theorems at concrete inputs.
use rasterm.Base.{ℕ, ◌<◌, ◌≡◌, refl, false, List, [], ◌∷◌, ltb, if◌then◌else◌, codes, arith}
use rasterm.Decimal.{decimal}
use rasterm.Sixel.Output.{SixelOutput, append, append_byte, append_number}
use rasterm.Sixel.{emit_color_band}
use rasterm.Sixel.{RgbColor}

-- An output of at most `limit` bytes, or without a limit for 0.
abbrev empty : ℕ → SixelOutput
empty limit = record { storage = []; maximum_bytes = limit; limit_exceeded = false }

-- Two pixels in the top row, then four in the row below it.
abbrev masks : ℕ → ℕ
masks x = if ltb x 4 then 1 else 2

masks-six : (x : ℕ) → masks x < 64
masks-six x = ground arith

band_bytes : (emit_color_band masks 2 7 5 (empty 0)).storage ≡ codes "#5??@@!4A"
unfolding emit_color_band append_number append append_byte decimal
band_bytes = refl

-- The fourth piece does not fit, and nothing follows it.
band_limited : (emit_color_band masks 2 7 5 (empty 3)).storage ≡ codes "#5?"
unfolding emit_color_band append_number append append_byte decimal
band_limited = refl

abbrev two_colors : List RgbColor
two_colors =
    record { red = 0; green = 0; blue = 0 } ∷ record { red = 255; green = 128; blue = 1 } ∷ []
