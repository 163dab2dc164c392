-- ===== src/Encoder/Registers.antt =====
-- The colour registers of the terminal: an image that leaves its palette out finds it there, and the palette
-- is sent again in time. A palette is known by its signature.
use mathlib.Core.Path.{subst}
use rasterm.Base.{
  ℕ, ◌+◌, ◌≤◌, ◌<◌, ◌≡◌, refl, sym, ◌∙◌, inl, inr, Bool, true, false, ◌||◌, Bool-cases, Option,
  some, List, [], ◌∷◌, if◌then◌else◌, length, All, arith,
}
use rasterm.Base.Int.{ℤ, pos_part, is_positive}
use rasterm.Encoder.{SixelOptions, PaletteState, begin_logical_frame, should_emit_palette, reset}

-- What the encoder is asked for.
pub data Call : Type 0 where
  begins : Call
  encodes : ℕ → Call
  -- An image that was not delivered: longer than its limit, so that nothing was sent, or cut off on its
  -- way. The registers hold anything then.
  loses : ℕ → Option ℕ → Call
  resets : Call

-- The encoder, the palette in the registers of the terminal, and the images so far, newest first: the palette
-- that each was to be drawn with and the one that it found there.
pub record Drawing : Type 0 where
  pub encoder : PaletteState
  pub registers : Option ℕ
  pub images : List (ℕ × Option ℕ)

abbrev is_loss : Call → Bool
is_loss begins = false
is_loss (encodes signature) = false
is_loss resets = false
is_loss (loses signature registers) = true

-- A reset follows each image that was not delivered.
abbrev pub IsAnswered : List Call → Type 0
IsAnswered [] = Unit {0}
IsAnswered (begins ∷ calls) = IsAnswered calls
IsAnswered (encodes signature ∷ calls) = IsAnswered calls
IsAnswered (resets ∷ calls) = IsAnswered calls
IsAnswered (loses signature registers ∷ resets ∷ calls) = IsAnswered calls
IsAnswered (loses signature registers ∷ calls) = ⊥

or-first : (a b : Bool) → (a || b) ≡ false → a ≡ false
or-first true b h = h
or-first false b h = refl

or-second : (a b : Bool) → (a || b) ≡ false → b ≡ false
or-second true b h = absurd (ground (arith, h))
or-second false b h = h

module _ (o : SixelOptions) where
  pub step : Call → Drawing → Drawing
  step begins d = record d { encoder = begin_logical_frame o d.encoder }
  step resets d = record d { encoder = reset d.encoder }
  step (loses signature registers) d = record d {
    encoder = (should_emit_palette o signature d.encoder).1;
    registers = registers;
  }
  step (encodes signature) d =
      let (emitted, encoder) = should_emit_palette o signature d.encoder in
      let registers = if emitted then some signature else d.registers in
      record {
        encoder = encoder;
        registers = registers;
        images = (signature, registers) ∷ d.images;
      }

  pub run : List Call → Drawing → Drawing
  run [] d = d
  run (call ∷ calls) d = run calls (step call d)

  -- The encoder's memory is what the registers hold, and every image found its palette.
  record IsHeld (d : Drawing) : Type 0 where
    held : d.encoder.palette_registers_valid ≡ true → d.registers ≡ some d.encoder.palette_signature
    forgetful : o.persist_palette_registers ≡ false → d.encoder.palette_registers_valid ≡ false
    found : All (λ (image : ℕ × Option ℕ). image.1 ≡ some image.0) d.images

  -- A palette that is left out is the one that the encoder remembers.
  left_out :
      (signature : ℕ) (e : PaletteState)
      → (should_emit_palette o signature e).0 ≡ false
      → ((should_emit_palette o signature e).1 ≡ e)
        × (e.palette_registers_valid ≡ true)
        × (signature ≡ e.palette_signature)
  unfolding should_emit_palette
  left_out signature e h = (ground (arith, h), ground (arith, h), ground (arith, h))

  -- Whether one of the images of a logical frame defines its palette, and the encoder after them.
  pub frame_emits : List ℕ → PaletteState → Bool × PaletteState
  frame_emits [] e = (false, e)
  frame_emits (signature ∷ rest) e =
      let (emitted, e') = should_emit_palette o signature e in
      let (later, e'') = frame_emits rest e' in (emitted || later, e'')

  -- Whether one of several logical frames does.
  pub some_frame_emits : List (List ℕ) → PaletteState → Bool
  some_frame_emits [] e = false
  some_frame_emits (signatures ∷ frames) e =
      let (emitted, e') = frame_emits signatures (begin_logical_frame o e) in
      emitted || some_frame_emits frames e'

  frame_emits-same :
      (signatures : List ℕ) (e : PaletteState)
      → (frame_emits signatures e).0 ≡ false
      → (frame_emits signatures e).1 ≡ e
  unfolding frame_emits
  frame_emits-same [] e h = refl
  frame_emits-same (signature ∷ rest) e h =
      let e' = (should_emit_palette o signature e).1 in
      let same = (left_out signature e (or-first _ _ h)).0 in
      frame_emits-same rest e' (or-second _ _ h) ∙ same

  -- A palette left out was not due, and the frame had been counted.
  left_out-counted :
      (signature : ℕ) (e : PaletteState)
      → is_positive o.palette_refresh_frames ≡ true
      → (should_emit_palette o signature (begin_logical_frame o e)).0 ≡ false
      → (e.frames_since_palette_refresh + 1 < pos_part o.palette_refresh_frames)
        × ((begin_logical_frame o e).frames_since_palette_refresh
            ≡ e.frames_since_palette_refresh + 1)
  unfolding should_emit_palette begin_logical_frame
  left_out-counted signature e positive h = ground (arith, positive, h)

  frames_left-emit :
      (frames : List (List ℕ)) (e : PaletteState)
      → is_positive o.palette_refresh_frames ≡ true
      → All (λ (signatures : List ℕ). 0 < length signatures) frames
      → 0 < length frames
      → pos_part o.palette_refresh_frames ≤ e.frames_since_palette_refresh + length frames
      → some_frame_emits frames e ≡ true
  unfolding some_frame_emits frame_emits
  frames_left-emit [] e positive drawn some_left enough = absurd (omega arith)
  frames_left-emit (signatures ∷ frames) e positive drawn some_left enough =
      elim (Bool-cases (frame_emits signatures (begin_logical_frame o e)).0) [
        | inl emitted ↦ or-left _ _ emitted
        | inr none_emitted ↦
            let begun = begin_logical_frame o e in
            let counted = first_left_out signatures drawn.0 none_emitted in
            or-right _ _ (
              subst (λ e'. some_frame_emits frames e' ≡ true)
                (sym (frame_emits-same signatures begun none_emitted))
                (frames_left-emit frames begun positive drawn.1 (omega (arith, counted.0, enough))
                  (omega (arith, counted.1, enough))))
      ]
    where
      or-left : (a b : Bool) → a ≡ true → (a || b) ≡ true
      or-left true b h = refl
      or-left false b h = absurd (ground (arith, h))

      or-right : (a b : Bool) → b ≡ true → (a || b) ≡ true
      or-right true b h = refl
      or-right false b h = h

      first_left_out :
          (given : List ℕ)
          → 0 < length given
          → (frame_emits given (begin_logical_frame o e)).0 ≡ false
          → (e.frames_since_palette_refresh + 1 < pos_part o.palette_refresh_frames)
            × ((begin_logical_frame o e).frames_since_palette_refresh
                ≡ e.frames_since_palette_refresh + 1)
      first_left_out [] some_given h = absurd (omega arith)
      first_left_out (signature ∷ rest) some_given h =
          left_out-counted signature e positive (or-first _ _ h)

  -- Among as many logical frames in a row as the refresh is set to, in each of which something is encoded,
  -- one defines a palette, whatever the encoder has sent before: a terminal that lost its registers
  -- does not keep wrong colours for longer.
  pub refresh-some_frame_emits :
      (frames : List (List ℕ)) (e : PaletteState)
      → is_positive o.palette_refresh_frames ≡ true
      → All (λ (signatures : List ℕ). 0 < length signatures) frames
      → pos_part o.palette_refresh_frames ≤ length frames
      → some_frame_emits frames e ≡ true
  refresh-some_frame_emits frames e positive drawn enough =
      frames_left-emit frames e positive drawn
        (omega (arith, some_frames o.palette_refresh_frames positive, enough))
        (omega (arith, enough))
    where
      some_frames : (n : ℤ) → is_positive n ≡ true → 0 < pos_part n
      some_frames n h = ground (arith, h)
