-- ===== src/Sixel/Indexed/Picture.antt =====
-- What the decoder draws for the bytes of an indexed frame.
use rasterm.Base.{
  ℕ, suc, ◌+◌, ◌-◌, ◌<◌, ◌≡◌, refl, ap, ◌∙◌, Bool, true, false, ◌&&◌, ◌||◌, some, List, [], ◌∷◌,
  ◌==◌, leb, ltb, if◌then◌else◌, length, get_elem?, Option-cases, member, member-get, inl, inr,
  arith,
}
use rasterm.Sixel.Output.{SixelOutput, append_byte}
use rasterm.Sixel.{emit_color_band}
use rasterm.Sixel.Decoder.{Screen, IsReady, decode, home, decode-home}
use rasterm.Sixel.Repeat.{Draws, Draws-append, Draws-unless, append_byte-Emits}
use rasterm.Sixel.Band.{
  Draws-id, band_draw, emit_color_band-Draws, band_draw-picture, row-band_draw, IsReady-band_draw,
}
use rasterm.Sixel.Indexed.Scan.{Scanned}
use rasterm.Sixel.Indexed.{Scratch, emit_colors}

abbrev pub when : Bool → (Screen → Screen) → Screen → Screen
when b f s = if b then f s else s

pub IsReady-when :
    (b : Bool) (f : Screen → Screen) (s : Screen)
    → ((s : Screen) → IsReady (f s))
    → IsReady s
    → IsReady (when b f s)
IsReady-when true f s h r = h s
IsReady-when false f s h r = r

pub byte-Draws :
    (byte : ℕ) (f : Screen → Screen) (b : Bool) (o : SixelOutput)
    → ((s : Screen) → IsReady s → decode (byte ∷ []) s ≡ f s)
    → Draws (when b f) o (if b then (append_byte byte o).1 else o)
byte-Draws byte f true o h = (byte ∷ [], append_byte-Emits byte o, h)
byte-Draws byte f false o h = Draws-id o

-- One register, and the return to the left edge behind it.
abbrev color_draw : Bool → Scratch → ℕ → ℕ → Screen → Screen
color_draw back b index color s =
    when back home
      (band_draw (b.band_masks index) (b.first_column color) (b.last_column color) color s)

abbrev goes_back : Bool → Scratch → ℕ → Bool
goes_back last b index = ltb (index + 1) (length b.colors_in_band) || last

pub colors_draw : Bool → Scratch → ℕ → List ℕ → Screen → Screen
colors_draw last b index [] s = s
colors_draw last b index (color ∷ colors) s =
    colors_draw last b (suc index) colors (color_draw (goes_back last b index) b index color s)

-- The colours left are those of the slots from `index` on.
abbrev pub Slots : Scratch → ℕ → List ℕ → Type 0
Slots b index colors = (i c : ℕ) → get_elem? colors i ≡ some c → b.color_slot c ≡ some (index + i)

Slots-tail :
    (b : Scratch) (index color : ℕ) (colors : List ℕ)
    → Slots b index (color ∷ colors)
    → Slots b (suc index) colors
Slots-tail b index color colors h i c e = h (suc i) c e ∙ ap some (omega arith)

Slots-head :
    (b : Scratch) (index color : ℕ) (colors : List ℕ)
    → Slots b index (color ∷ colors)
    → b.color_slot color ≡ some index
Slots-head b index color colors h = h 0 color refl ∙ ap some (omega arith)

module _ (pixel : ℕ → ℕ → ℕ) (seen : ℕ → ℕ → Bool) (b : Scratch) (s : Scanned pixel seen b)
    (last : Bool) where
  IsReady-color_draw :
      (back : Bool) (index color : ℕ) (t : Screen) → IsReady (color_draw back b index color t)
  IsReady-color_draw back index color t =
      IsReady-when back home _ (λ u. refl)
        (IsReady-band_draw (b.band_masks index) (b.first_column color) (b.last_column color) color
          t)

  pub emit_colors-Draws :
      (index : ℕ) (colors : List ℕ) (o : SixelOutput)
      → Slots b index colors
      → Draws (colors_draw last b index colors) o (emit_colors last b index colors o)
  unfolding emit_colors colors_draw
  emit_colors-Draws index [] o h = Draws-id o
  emit_colors-Draws index (color ∷ colors) o h =
      let slot = Slots-head b index color colors h in
      let back = goes_back last b index in
      let o1 =
        emit_color_band (b.band_masks index) (b.first_column color) (b.last_column color) color o in
      let o2 = if back then (append_byte b'$' o1).1 else o1 in
      Draws-unless (colors_draw last b index (color ∷ colors)) o
        (emit_colors last b (suc index) colors o2)
        (Draws-append (color_draw back b index color) (colors_draw last b (suc index) colors) o o2 _
          (λ t r. IsReady-color_draw back index color t)
          (Draws-append _ (when back home) o o1 o2
            (λ t r.
              IsReady-band_draw (b.band_masks index) (b.first_column color) (b.last_column color)
                color t)
            (emit_color_band-Draws (b.band_masks index) (b.first_column color) (b.last_column color)
              color o (λ x. s.six color index x slot) (s.ordered color index slot))
            (byte-Draws b'$' home back o1 decode-home))
          (emit_colors-Draws (suc index) colors o2 (Slots-tail b index color colors h)))

  when-home :
      (back : Bool) (t : Screen) (x y : ℕ)
      → ((when back home t).picture x y ≡ t.picture x y)
        × ((when back home t).row ≡ t.row)
        × (back ≡ true → (when back home t).column ≡ 0)
  when-home true t x y = (refl, refl, λ h. refl)
  when-home false t x y = (refl, refl, λ h. cc)

  color_draw-picture :
      (back : Bool) (index color : ℕ) (t : Screen) (x y : ℕ)
      → b.color_slot color ≡ some index
      → t.column ≡ 0
      → (color_draw back b index color t).picture x y ≡ (
          if (leb t.row y && ltb y (t.row + 6))
            && (seen x (y - t.row) && (pixel x (y - t.row) == color))
          then some color
          else t.picture x y)
  color_draw-picture back index color t x y slot edge =
      let first = b.first_column color in
      let final = b.last_column color in
      (when-home back (band_draw (b.band_masks index) first final color t) x y).0
      ∙ band_draw-picture (b.band_masks index) first final color t x y edge
      ∙ ground
          (arith, s.bits color index x (y - t.row) slot, s.spans color index x (y - t.row) slot)

  row-color_draw :
      (back : Bool) (index color : ℕ) (t : Screen) → (color_draw back b index color t).row ≡ t.row
  row-color_draw back index color t =
      (when-home back _ 0 0).1
      ∙ row-band_draw (b.band_masks index) (b.first_column color) (b.last_column color) color t

  colors_draw-picture :
      (index : ℕ) (colors : List ℕ) (t : Screen) (x y : ℕ)
      → Slots b index colors
      → index + length colors ≡ length b.colors_in_band
      → (0 < length colors → t.column ≡ 0)
      → (colors_draw last b index colors t).picture x y ≡ (
          if (leb t.row y && ltb y (t.row + 6))
            && (seen x (y - t.row) && member (pixel x (y - t.row)) colors)
          then some (pixel x (y - t.row))
          else t.picture x y)
  unfolding colors_draw
  colors_draw-picture index [] t x y h e edge = ground arith
  colors_draw-picture index (color ∷ colors) t x y h e edge =
      let back = goes_back last b index in
      let t1 = color_draw back b index color t in
      let here : (index + 1) + length colors ≡ length b.colors_in_band = omega (arith, e) in
      let back_if : 0 < length colors → back ≡ true = λ more. ground (arith, here) in
      let now =
        color_draw-picture back index color t x y (Slots-head b index color colors h)
          (edge (omega arith)) in
      let ih =
        colors_draw-picture (suc index) colors t1 x y (Slots-tail b index color colors h)
          (omega (arith, e)) (λ more. (when-home back _ x y).2 (back_if more)) in
      rw (row-color_draw back index color t) at ih ∙ ground (arith, now)

  pub row-colors_draw :
      (index : ℕ) (colors : List ℕ) (t : Screen) → (colors_draw last b index colors t).row ≡ t.row
  unfolding colors_draw
  row-colors_draw index [] t = refl
  row-colors_draw index (color ∷ colors) t =
      row-colors_draw (suc index) colors (color_draw (goes_back last b index) b index color t)
      ∙ row-color_draw (goes_back last b index) index color t

  pub IsReady-colors_draw :
      (index : ℕ) (colors : List ℕ) (t : Screen)
      → IsReady t
      → IsReady (colors_draw last b index colors t)
  unfolding colors_draw
  IsReady-colors_draw index [] t r = r
  IsReady-colors_draw index (color ∷ colors) t r =
      IsReady-colors_draw (suc index) colors _
        (IsReady-color_draw (goes_back last b index) index color t)

  -- A whole band: each pixel that the scan has seen is drawn in its colour.
  pub band_colors-picture :
      (t : Screen) (x y : ℕ)
      → t.column ≡ 0
      → (colors_draw last b 0 b.colors_in_band t).picture x y ≡ (
          if (leb t.row y && ltb y (t.row + 6)) && seen x (y - t.row)
          then some (pixel x (y - t.row))
          else t.picture x y)
  band_colors-picture t x y edge =
      colors_draw-picture 0 b.colors_in_band t x y (λ i c e. s.listed c i e ∙ ap some (omega arith))
        (omega arith) (λ h. edge)
      ∙ elim (Option-cases (b.color_slot (pixel x (y - t.row)))) [
        | inl missing ↦ ground (arith, s.covered x (y - t.row))
        | inr (i, here) ↦
            ground (arith, member-get (pixel x (y - t.row)) i b.colors_in_band (s.found _ i here))
      ]
