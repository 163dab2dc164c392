-- ===== src/Encoder/Tests.antt =====
-- An encoder that refreshes its palette every second frame.
use rasterm.Base.{ℕ, ◌≡◌, refl, true, none, List, [], ◌∷◌, arith}
use rasterm.Base.Int.{pos}
use rasterm.Encoder.{SixelOptions, PaletteState}
use rasterm.Encoder.Registers.{
  Call, begins, encodes, loses, resets, some_frame_emits, refresh-some_frame_emits,
}

abbrev options : SixelOptions
options = record { persist_palette_registers = true; palette_refresh_frames = pos 2 }

abbrev calls : List Call
calls = begins ∷ encodes 7 ∷ encodes 7 ∷ begins ∷ encodes 9 ∷ loses 4 none ∷ resets ∷ encodes 9 ∷ []

-- A palette was sent just before.
abbrev sent_now : PaletteState
sent_now = record {
  palette_registers_valid = true;
  palette_signature = 7;
  frames_since_palette_refresh = 0;
}

abbrev two_frames : List (List ℕ)
two_frames = (7 ∷ []) ∷ (7 ∷ 7 ∷ []) ∷ []

refresh-some_frame_emits_example : some_frame_emits options two_frames sent_now ≡ true
refresh-some_frame_emits_example =
    refresh-some_frame_emits options two_frames sent_now refl (omega arith, (omega arith, tt))
      (omega arith)
