-- ===== src/Sixel/Palette.antt =====
-- The registers that the palettes define, byte by byte.
use rasterm.Base.{
  ℕ, zero, suc, ◌-◌, ◌/◌, ◌%◌, refl, Bool, List, [], ◌∷◌, ◌++◌, codes, if◌then◌else◌, Bool-cases,
  inl, inr,
}
use rasterm.Decimal.{decimal}
use rasterm.Sixel.Output.{
  SixelOutput, append, append_byte, append_number, Emits, append-Emits, Emits-append, Emits-nil,
}
use rasterm.Sixel.{
  RgbColor, to100, emit_register, emit_palette_from, append_palette_from, append_palette,
}
use rasterm.Sixel.Repeat.{append_byte-Emits, append_number-Emits, Emits-unless}

-- `#n;2;r;g;b`.
unfoldable pub register_bytes : ℕ → ℕ → ℕ → ℕ → List ℕ
register_bytes number red green blue =
    (b'#' ∷ [])
    ++ (decimal number
        ++ (codes ";2;"
            ++ (decimal red ++ ((b';' ∷ []) ++ (decimal green ++ ((b';' ∷ []) ++ decimal blue))))))

emit_register-Emits :
    (number red green blue : ℕ) (o : SixelOutput)
    → Emits (register_bytes number red green blue) o (emit_register number red green blue o)
unfolding emit_register register_bytes
emit_register-Emits number red green blue o =
    let o1 = (append_byte b'#' o).1 in
    let o2 = (append_number number o1).1 in
    let o3 = (append (codes ";2;") o2).1 in
    let o4 = (append_number red o3).1 in
    let o5 = (append_byte b';' o4).1 in
    let o6 = (append_number green o5).1 in
    let o7 = (append_byte b';' o6).1 in
    Emits-append _ _ o o1 _ (append_byte-Emits b'#' o) (
      Emits-append _ _ o1 o2 _ (append_number-Emits number o1) (
        Emits-append _ _ o2 o3 _ (append-Emits (codes ";2;") o2) (
          Emits-append _ _ o3 o4 _ (append_number-Emits red o3) (
            Emits-append _ _ o4 o5 _ (append_byte-Emits b';' o4) (
              Emits-append _ _ o5 o6 _ (append_number-Emits green o5) (
                Emits-append _ _ o6 o7 _ (append_byte-Emits b';' o6)
                  (append_number-Emits blue o7)))))))

-- The registers of a palette in their order.
unfoldable pub palette_bytes : ℕ → List RgbColor → List ℕ
unfolding register_bytes
palette_bytes number [] = []
palette_bytes number (c ∷ cs) =
    register_bytes number (to100 c.red) (to100 c.green) (to100 c.blue)
    ++ palette_bytes (suc number) cs

-- `emitPalette` of an indexed frame appends the definition of each register in its order, from the
-- first one on, with the percentages of its colour. The output takes the bytes whole or is left over
-- its limit, which happens only if they do not fit.
pub emit_palette_from-Emits :
    (number : ℕ) (palette : List RgbColor) (o : SixelOutput)
    → Emits (palette_bytes number palette) o (emit_palette_from number palette o)
unfolding emit_palette_from palette_bytes
emit_palette_from-Emits number [] o = Emits-nil o
emit_palette_from-Emits number (c ∷ cs) o =
    let o1 = emit_register number (to100 c.red) (to100 c.green) (to100 c.blue) o in
    Emits-unless _ o.limit_exceeded o _ refl (
      Emits-append _ (palette_bytes (suc number) cs) o o1 _
        (emit_register-Emits number (to100 c.red) (to100 c.green) (to100 c.blue) o)
        (emit_palette_from-Emits (suc number) cs o1))

module _ (percent palette : ℕ → ℕ) (used : ℕ → Bool) where
  -- The registers in use among `left` of them from `i` on.
  unfoldable pub used_bytes : ℕ → ℕ → List ℕ
  unfolding register_bytes
  used_bytes zero i = []
  used_bytes (suc left) i =
      (if used i
        then register_bytes i (percent (palette i / 65536 % 256)) (percent (palette i / 256 % 256))
            (percent (palette i % 256))
        else [])
      ++ used_bytes left (suc i)

  append_palette_from-Emits :
      (left i : ℕ) (o : SixelOutput)
      → Emits (used_bytes left i) o (append_palette_from percent palette used left i o)
  unfolding append_palette_from used_bytes
  append_palette_from-Emits zero i o = Emits-nil o
  append_palette_from-Emits (suc left) i o = elim (Bool-cases (used i)) [
    | inl is_used ↦ rw is_used (
        Emits-unless _ o.limit_exceeded o _ refl (
          Emits-append _ (used_bytes left (suc i)) o _ _ (emit_register-Emits i _ _ _ o)
            (append_palette_from-Emits left (suc i) _)))
    | inr unused ↦
        rw unused
          (Emits-unless _ o.limit_exceeded o _ refl (append_palette_from-Emits left (suc i) o))
  ]

  -- `appendPalette` appends the definitions of the registers in use below the count of colours, in
  -- their order and never that of register 0, with the red, green and blue bytes of the colour as
  -- percentages, however these are rounded. The output takes the bytes whole or is left over its limit,
  -- which happens only if they do not fit.
  pub append_palette-Emits :
      (color_count : ℕ) (o : SixelOutput)
      → Emits (used_bytes (color_count - 1) 1) o (append_palette percent palette used color_count o)
  unfolding append_palette
  append_palette-Emits color_count o = append_palette_from-Emits (color_count - 1) 1 o
