-- ===== src/Sixel/Indexed/Frame.antt =====
-- `emitIndexedFrame` against the decoder: the bands together make the image.
use rasterm.Base.{
  ℕ, zero, suc, ◌+◌, ◌-◌, ◌*◌, ◌≤◌, ◌<◌, min, ◌≡◌, refl, ap, ◌∙◌, Bool, true, false, not, ◌&&◌,
  some, List, leb, ltb, if◌then◌else◌, Bool-cases, inl, inr, arith,
}
use native.Mathlib.Decide.{dec_lt, dec_le}
use rasterm.Sixel.Output.{SixelOutput, append_byte, Emits}
use rasterm.Sixel.Decoder.{Screen, IsReady, decode, next_band, decode-next_band}
use rasterm.Sixel.Repeat.{Draws, Draws-append, Draws-unless}
use rasterm.Sixel.Band.{Draws-id}
use rasterm.Sixel.Indexed.Scan.{Scanned, band_pixel, in_rows, scan_rows-Scanned}
use rasterm.Sixel.Indexed.Picture.{
  when, byte-Draws, IsReady-when, colors_draw, emit_colors-Draws, IsReady-colors_draw,
  row-colors_draw, band_colors-picture,
}
use rasterm.Sixel.Indexed.{
  Scratch, clear_band, scan_rows, emit_colors, frame_loop, emit_indexed_frame,
}

module _ (indices : ℕ → ℕ) (width height : ℕ) where
  abbrev rows_from : ℕ → ℕ
  rows_from band = min (band + 6) height - band

  abbrev scanned : ℕ → Scratch → Scratch
  scanned band b = scan_rows (rows_from band) indices width band band (clear_band b)

  scanned-Scanned :
      (band : ℕ) (b : Scratch)
      → Scanned (band_pixel indices width band) (in_rows width (rows_from band)) (scanned band b)
  scanned-Scanned band b = scan_rows-Scanned indices width band (rows_from band) b (omega arith)

  -- One band, and the step to the next one.
  band_draw : ℕ → Scratch → Screen → Screen
  band_draw band b s =
      when (ltb (band + 6) height) next_band
        (colors_draw (leb height (band + 6)) (scanned band b) 0 (scanned band b).colors_in_band s)

  frame_draw : ℕ → ℕ → Scratch → Screen → Screen
  frame_draw zero band b s = s
  frame_draw (suc fuel) band b s =
      let rest = frame_draw fuel (band + 6) (scanned band b) (band_draw band b s) in
      if ltb band height then rest else s

  band-Draws :
      (band : ℕ) (b : Scratch) (o : SixelOutput)
      → Draws (band_draw band b) o (
          let o1 =
            emit_colors
              (leb height (band + 6))
              (scanned band b)
              0
              (scanned band b).colors_in_band
              o in
          if ltb (band + 6) height then (append_byte b'-' o1).1 else o1)
  unfolding band_draw
  band-Draws band b o =
      let s = scanned-Scanned band b in
      let final = leb height (band + 6) in
      let b1 = scanned band b in
      let o1 = emit_colors final b1 0 b1.colors_in_band o in
      Draws-append _ (when (ltb (band + 6) height) next_band) o o1 _
        (λ t r.
          IsReady-colors_draw (band_pixel indices width band) (in_rows width (rows_from band)) b1 s
            final 0 b1.colors_in_band t r)
        (emit_colors-Draws (band_pixel indices width band) (in_rows width (rows_from band)) b1 s
          final 0 b1.colors_in_band o (λ i c e. s.listed c i e ∙ ap some (omega arith)))
        (byte-Draws b'-' next_band (ltb (band + 6) height) o1 decode-next_band)

  IsReady-band_draw :
      (band : ℕ) (b : Scratch) (t : Screen) → IsReady t → IsReady (band_draw band b t)
  unfolding band_draw
  IsReady-band_draw band b t r =
      IsReady-when (ltb (band + 6) height) next_band _ (λ u. refl)
        (IsReady-colors_draw (band_pixel indices width band) (in_rows width (rows_from band))
          (scanned band b) (scanned-Scanned band b) (leb height (band + 6)) 0
          (scanned band b).colors_in_band t r)

  unless-and :
      (b : Bool) (o o' : SixelOutput) → (if true && not b then o' else o) ≡ (if b then o else o')
  unless-and true o o' = refl
  unless-and false o o' = refl

  frame_loop-Draws :
      (fuel band : ℕ) (b : Scratch) (o : SixelOutput)
      → Draws (frame_draw fuel band b) o (frame_loop fuel indices width height band b o)
  unfolding frame_loop frame_draw
  frame_loop-Draws zero band b o = Draws-id o
  frame_loop-Draws (suc fuel) band b o =
      let b1 = scanned band b in
      let o1 = emit_colors (leb height (band + 6)) b1 0 b1.colors_in_band o in
      let o2 = if ltb (band + 6) height then (append_byte b'-' o1).1 else o1 in
      elim (Bool-cases (ltb band height)) [
        | inl more ↦
            rw (more, unless-and o.limit_exceeded o)
              (Draws-unless _ o _ (
                Draws-append (band_draw band b) (frame_draw fuel (band + 6) b1) o o2 _
                  (IsReady-band_draw band b) (band-Draws band b o)
                  (frame_loop-Draws fuel (band + 6) b1 o2)))
        | inr done ↦ rw done (Draws-id o)
      ]

  when-next :
      (more : Bool) (t : Screen) (x y : ℕ)
      → ((when more next_band t).picture x y ≡ t.picture x y)
        × ((when more next_band t).row ≡ (if more then t.row + 6 else t.row))
        × (more ≡ true → (when more next_band t).column ≡ 0)
  when-next true t x y = (refl, refl, λ h. refl)
  when-next false t x y = (refl, refl, λ h. cc)

  band_draw-picture :
      (band : ℕ) (b : Scratch) (t : Screen) (x y : ℕ)
      → t.column ≡ 0
      → t.row ≡ band
      → (band_draw band b t).picture x y ≡ (
          if ltb x width && (leb band y && (ltb y (band + 6) && ltb y height))
          then some (indices (y * width + x))
          else t.picture x y)
  unfolding band_draw
  band_draw-picture band b t x y edge at =
      (when-next (ltb (band + 6) height) _ x y).0
      ∙ band_colors-picture (band_pixel indices width band) (in_rows width (rows_from band))
          (scanned band b) (scanned-Scanned band b) (leb height (band + 6)) t x y edge
      ∙ rw at (elim (dec_le band y) [
        | yes below ↦ let e : band + (y - band) ≡ y = omega arith in rw e (ground arith)
        | no above ↦ ground arith
      ])

  band_draw-next :
      (band : ℕ) (b : Scratch) (t : Screen)
      → band + 6 < height
      → t.row ≡ band
      → ((band_draw band b t).column ≡ 0) × ((band_draw band b t).row ≡ band + 6)
  unfolding band_draw
  band_draw-next band b t more at =
      let step =
        when-next (ltb (band + 6) height)
          (colors_draw (leb height (band + 6)) (scanned band b) 0 (scanned band b).colors_in_band t)
          0 0 in
      let row =
        row-colors_draw (band_pixel indices width band) (in_rows width (rows_from band))
          (scanned band b) (scanned-Scanned band b) (leb height (band + 6)) 0
          (scanned band b).colors_in_band t in
      (step.2 (ground arith), ground (arith, step.1, row))

  frame_draw-done :
      (fuel band : ℕ) (b : Scratch) (t : Screen) → height ≤ band → frame_draw fuel band b t ≡ t
  unfolding frame_draw
  frame_draw-done zero band b t le = refl
  frame_draw-done (suc fuel) band b t le = ground arith

  frame_draw-picture :
      (fuel band : ℕ) (b : Scratch) (t : Screen) (x y : ℕ)
      → height ≤ band + fuel
      → t.column ≡ 0
      → t.row ≡ band
      → (frame_draw fuel band b t).picture x y ≡ (
          if ltb x width && (leb band y && ltb y height)
          then some (indices (y * width + x))
          else t.picture x y)
  unfolding frame_draw
  frame_draw-picture zero band b t x y enough edge at = ground arith
  frame_draw-picture (suc fuel) band b t x y enough edge at =
      let now = band_draw-picture band b t x y edge at in
      let t1 = band_draw band b t in
      elim (dec_lt (band + 6) height) [
        | yes more ↦
            let next = band_draw-next band b t more at in
            ground (
              arith,
              now,
              frame_draw-picture fuel (band + 6) (scanned band b) t1 x y (omega arith) next.0
                  next.1,
            )
        | no final ↦
            ground (arith, now, frame_draw-done fuel (band + 6) (scanned band b) t1 (omega arith))
      ]

-- The bytes that `emitIndexedFrame` writes are decoded, from the top left corner on, to exactly the
-- image: each of its pixels is drawn in the register that its palette index names, and no other pixel
-- changes, whatever the scratch arrays held. The output takes the bytes whole or is left over its
-- limit, which happens only if they do not fit.
pub emit_indexed_frame-picture :
    (indices : ℕ → ℕ) (width height : ℕ) (b : Scratch) (o : SixelOutput)
    → (bytes : List ℕ) × Emits bytes o (emit_indexed_frame indices width height b o)
      × ((s : Screen) (x y : ℕ)
          → IsReady s
          → s.column ≡ 0
          → s.row ≡ 0
          → (decode bytes s).picture x y ≡ (
              if ltb x width && ltb y height
              then some (indices (y * width + x))
              else s.picture x y))
unfolding emit_indexed_frame
emit_indexed_frame-picture indices width height b o =
    let d =
      Draws-unless (frame_draw indices width height height 0 b) o _
        (frame_loop-Draws indices width height height 0 b o) in
    (
      d.0,
      d.1,
      λ s x y ready edge top.
          ap (λ (u : Screen). u.picture x y) (d.2 s ready)
          ∙ frame_draw-picture indices width height height 0 b s x y (omega arith) edge top
          ∙ ground arith,
    )
