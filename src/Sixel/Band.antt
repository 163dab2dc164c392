-- ===== src/Sixel/Band.antt =====
-- `emitColorBand`: the columns of one register in one band, against the decoder.
use rasterm.Base.{
  ℕ, zero, suc, ◌+◌, ◌-◌, ◌≤◌, ◌<◌, min, ◌≡◌, refl, sym, ap, ◌∙◌, inl, inr, Bool, true, false, not,
  ◌&&◌, List, [], ◌∷◌, some, ltb, leb, if◌then◌else◌, Bool-cases, ltb→lt, arith,
}
use native.Mathlib.Decide.{dec_lt}
use rasterm.Decimal.{decimal}
use rasterm.Sixel.Output.{SixelOutput, append_byte, append_number, Emits, Emits-append, Emits-nil}
use rasterm.Sixel.{emit_repeat, extend_run, band_loop, emit_color_band}
use rasterm.Sixel.Decoder.{
  Screen, selecting, IsReady, decode, paint, IsReady-paint, decode-select, test_bit, picture-paint,
  column-paint, row-paint, color-paint,
}
use rasterm.Sixel.Repeat.{
  Draws, Draws-append, Draws-unless, Draws-same, emit_repeat-Draws, append_byte-Emits,
  append_number-Emits,
}
use rasterm.Sixel.Columns.{
  paint_each, paint_each-add, SameMask, paint_run, extend_run_lem, IsReady-paint_each,
  picture-paint_each, row-paint_each,
}

unless-and :
    (b : Bool) (o o' : SixelOutput) → (if true && not b then o' else o) ≡ (if b then o else o')
unless-and true o o' = refl
unless-and false o o' = refl

module _ (masks : ℕ → ℕ) (six : (x : ℕ) → masks x < 64) (last : ℕ) where
  -- One round draws a run of columns.
  round-Draws :
      (x r : ℕ) (o : SixelOutput)
      → 0 < r
      → SameMask masks (masks x) x r
      → Draws (paint_each masks x r) o (emit_repeat r (masks x) o)
  round-Draws x zero o pos h = absurd (omega arith)
  round-Draws x (suc r) o pos h =
      let six_bits : min (masks x) 63 ≡ masks x = omega (arith, six x) in
      Draws-same (paint (suc r) (min (masks x) 63)) (paint_each masks x (suc r)) o _
        (λ s. ap (λ b. paint (suc r) b s) six_bits ∙ sym (paint_run masks (masks x) x r s h))
        (emit_repeat-Draws (suc r) (masks x) o (omega arith))

  band_loop-done : (fuel x : ℕ) (o : SixelOutput) → last < x → band_loop fuel masks last x o ≡ o
  unfolding band_loop
  band_loop-done zero x o h = refl
  band_loop-done (suc fuel) x o h = let e : leb x last ≡ false = ground arith in rw (e, band_loop)

  -- The rounds from column `x` on draw the columns up to the last one.
  band_loop-Draws :
      (fuel x n : ℕ) (o : SixelOutput)
      → x + n ≡ suc last
      → 0 < n
      → n ≤ fuel
      → Draws (paint_each masks x n) o (band_loop fuel masks last x o)
  unfolding band_loop SameMask
  band_loop-Draws zero x n o e pos enough = absurd (omega arith)
  band_loop-Draws (suc fuel) x n o e pos enough =
      let run = extend_run (last - x) masks x 1 in
      let found = extend_run_lem (last - x) masks x 1 (refl, tt) in
      let o1 = emit_repeat run (masks x) o in
      let first = round-Draws x run o found.0 found.2 in
      let going : leb x last ≡ true = ground arith in
      rw (going, unless-and o.limit_exceeded o)
        (Draws-unless (paint_each masks x n) o (band_loop fuel masks last (x + run) o1)
          (elim (dec_lt 0 (n - run)) [
            | yes more ↦
                let whole : run + (n - run) ≡ n = omega (arith, found.1) in
                Draws-same _ (paint_each masks x n) o _
                  (λ s.
                    paint_each-add masks x run (n - run) s ∙ ap (λ k. paint_each masks x k s) whole)
                  (Draws-append (paint_each masks x run) (paint_each masks (x + run) (n - run)) o o1
                    _ (IsReady-paint_each masks x run) first
                    (band_loop-Draws fuel (x + run) (n - run) o1 (omega (arith, found.1)) more
                      (omega (arith, found.0))))
            | no done ↦
                let whole : run ≡ n = omega (arith, found.1) in
                rw (band_loop-done fuel (x + run) o1 (omega (arith, found.1)), whole)
                  (rw (← whole) first)
          ]))

abbrev pub select : ℕ → Screen → Screen
select color s = record s { mode = selecting; color = color }

abbrev pub skip_to : ℕ → Screen → Screen
skip_to first s = if ltb 0 first then paint first 0 s else s

select-Draws :
    (color : ℕ) (o : SixelOutput)
    → Draws (select color) o (append_number color (append_byte b'#' o).1).1
select-Draws color o = (
  b'#' ∷ decimal color,
  Emits-append (b'#' ∷ []) (decimal color) o (append_byte b'#' o).1 _ (append_byte-Emits b'#' o)
      (append_number-Emits color (append_byte b'#' o).1),
  λ s ready. decode-select color s ready,
)

pub Draws-id : (o : SixelOutput) → Draws (λ s. s) o o
Draws-id o = ([], Emits-nil o, λ s ready. refl)

skip_to-Draws :
    (first : ℕ) (o : SixelOutput)
    → Draws (skip_to first) o (if ltb 0 first then emit_repeat first 0 o else o)
skip_to-Draws first o = elim (Bool-cases (ltb 0 first)) [
  | inl some_left ↦ rw some_left (emit_repeat-Draws first 0 o (ltb→lt 0 first some_left))
  | inr at_edge ↦ rw at_edge (Draws-id o)
]

IsReady-skip_to : (first : ℕ) (s : Screen) → IsReady s → IsReady (skip_to first s)
IsReady-skip_to first s h = elim (Bool-cases (ltb 0 first)) [
  | inl some_left ↦ rw some_left (IsReady-paint first 0 s)
  | inr at_edge ↦ rw at_edge h
]

-- The empty columns move the decoder and draw nothing.
skip_to_lem :
    (first : ℕ) (s : Screen)
    → ((skip_to first s).column ≡ s.column + first)
      × ((skip_to first s).row ≡ s.row)
      × ((skip_to first s).color ≡ s.color)
      × ((x y : ℕ) → (skip_to first s).picture x y ≡ s.picture x y)
skip_to_lem first s = elim (Bool-cases (ltb 0 first)) [
  | inl some_left ↦ rw some_left (
    column-paint first 0 s,
    row-paint first 0 s,
    color-paint first 0 s,
    λ x y. picture-paint first 0 s x y ∙ ground (arith, no_bits (y - s.row)),
  )
  | inr at_edge ↦ rw at_edge (ground arith, refl, refl, λ x y. refl)
]
  where
    no_bits : (k : ℕ) → test_bit 0 k ≡ false
    no_bits k = ground arith

-- What the decoder does with the bytes of a band's register.
abbrev pub band_draw : (ℕ → ℕ) → ℕ → ℕ → ℕ → Screen → Screen
band_draw masks first last color s =
    paint_each masks first (suc last - first) (skip_to first (select color s))

pub emit_color_band-Draws :
    (masks : ℕ → ℕ) (first last color : ℕ) (o : SixelOutput)
    → ((x : ℕ) → masks x < 64)
    → first ≤ last
    → Draws (band_draw masks first last color) o (emit_color_band masks first last color o)
unfolding emit_color_band
emit_color_band-Draws masks first last color o six le =
    let o2 = (append_number color (append_byte b'#' o).1).1 in
    let o3 = if ltb 0 first then emit_repeat first 0 o2 else o2 in
    Draws-append (λ s. skip_to first (select color s)) (paint_each masks first (suc last - first)) o
      o3 _ (λ s r. IsReady-skip_to first (select color s) refl)
      (Draws-append (select color) (skip_to first) o o2 o3 (λ s r. refl) (select-Draws color o)
        (skip_to-Draws first o2))
      (band_loop-Draws masks six last (suc last - first) first (suc last - first) o3 (omega arith)
        (omega arith) (omega arith))

-- A register's pixels, and those alone, take its colour.
pub band_draw-picture :
    (masks : ℕ → ℕ) (first last color : ℕ) (s : Screen) (x y : ℕ)
    → s.column ≡ 0
    → (band_draw masks first last color s).picture x y ≡ (
        if (leb first x && leb x last)
          && ((leb s.row y && ltb y (s.row + 6)) && test_bit (masks x) (y - s.row))
        then some color
        else s.picture x y)
band_draw-picture masks first last color s x y edge =
    let s1 = select color s in
    let skip = skip_to_lem first s1 in
    ground (
      arith,
      picture-paint_each masks first (suc last - first) (skip_to first s1) x y
          (skip.0 ∙ ap (λ k. k + first) edge ∙ omega arith),
      skip.1,
      skip.2,
      skip.3 x y,
    )

-- The bytes that `emitColorBand` writes for a register, whatever its masks of six bits, are decoded to
-- exactly those pixels of the columns `first` to `last` whose bit is set, in that register, and no
-- other pixel changes. The output takes the bytes whole or is left over its limit, which happens only
-- if they do not fit.
pub emit_color_band-picture :
    (masks : ℕ → ℕ) (first last color : ℕ) (o : SixelOutput)
    → ((x : ℕ) → masks x < 64)
    → first ≤ last
    → (bytes : List ℕ) × Emits bytes o (emit_color_band masks first last color o)
      × ((s : Screen) (x y : ℕ)
          → IsReady s
          → s.column ≡ 0
          → (decode bytes s).picture x y ≡ (
              if (leb first x && leb x last)
                && ((leb s.row y && ltb y (s.row + 6)) && test_bit (masks x) (y - s.row))
              then some color
              else s.picture x y))
emit_color_band-picture masks first last color o six le =
    let d = emit_color_band-Draws masks first last color o six le in
    (
      d.0,
      d.1,
      λ s x y ready edge.
          ap (λ (u : Screen). u.picture x y) (d.2 s ready)
          ∙ band_draw-picture masks first last color s x y edge,
    )

pub row-band_draw :
    (masks : ℕ → ℕ) (first last color : ℕ) (s : Screen)
    → (band_draw masks first last color s).row ≡ s.row
row-band_draw masks first last color s =
    row-paint_each masks first (suc last - first) (skip_to first (select color s))
    ∙ (skip_to_lem first (select color s)).1

pub IsReady-band_draw :
    (masks : ℕ → ℕ) (first last color : ℕ) (s : Screen)
    → IsReady (band_draw masks first last color s)
IsReady-band_draw masks first last color s =
    IsReady-paint_each masks first (suc last - first) (skip_to first (select color s))
      (IsReady-skip_to first (select color s) refl)
