-- ===== src/Sixel/Image/Picture.antt =====
-- A whole image, against the decoder.
use mathlib.Core.Path.{subst}
use rasterm.Base.{
  ℕ, zero, suc, ◌+◌, ◌*◌, ◌≡◌, refl, sym, ap, ◌∙◌, Bool, true, false, ◌&&◌, Option, some, List, [],
  ◌∷◌, ◌++◌, ltb, if◌then◌else◌, codes, All, Bool-cases, inl, inr, arith, append_assoc,
}
use rasterm.Decimal.{decimal, IsDigit, decimal-All, scan-append}
use rasterm.Sixel.Output.{
  SixelOutput, append, append_byte, append_number, Emits, append-Emits, Emits-append,
}
use rasterm.Sixel.{
  HeaderOptions, RgbColor, to100, macro_parameter_for_aspect_ratio, begin_sixel,
  emit_raster_attributes,
}
use rasterm.Sixel.Repeat.{append_byte-Emits, append_number-Emits}
use rasterm.Sixel.Palette.{register_bytes, palette_bytes, used_bytes}
use rasterm.Sixel.Decoder.{Screen, IsReady, IsKept, is_quiet, decode, read_byte, read_byte-quiet}
use rasterm.Sixel.Indexed.{Scratch, emit_indexed_frame}
use rasterm.Sixel.Indexed.Frame.{emit_indexed_frame-picture}
use rasterm.Sixel.Image.{write_image}

-- `ESC P`, the parameters and `q`.
unfoldable pub introducer : HeaderOptions → List ℕ
introducer options =
    (27 ∷ codes "P")
    ++ (decimal (macro_parameter_for_aspect_ratio options.pixel_aspect_ratio)
        ++ (if options.transparent_background then codes ";1;0q" else codes ";2;0q"))

begin_sixel-Emits :
    (options : HeaderOptions) (o : SixelOutput)
    → Emits (introducer options) o (begin_sixel options o)
unfolding introducer begin_sixel
begin_sixel-Emits options o =
    let o1 = (append (27 ∷ codes "P") o).1 in
    let o2 = (append_number (macro_parameter_for_aspect_ratio options.pixel_aspect_ratio) o1).1 in
    Emits-append _ _ o o1 _ (append-Emits _ o)
      (Emits-append _ _ o1 o2 _ (append_number-Emits _ o1) (append-Emits _ o2))

pub raster_bytes : ℕ → ℕ → List ℕ
raster_bytes width height = codes "\"1;1;" ++ (decimal width ++ ((b';' ∷ []) ++ decimal height))

emit_raster_attributes-Emits :
    (width height : ℕ) (o : SixelOutput)
    → Emits (raster_bytes width height) o (emit_raster_attributes width height o)
unfolding raster_bytes emit_raster_attributes
emit_raster_attributes-Emits width height o =
    let o1 = (append (codes "\"1;1;") o).1 in
    let o2 = (append_number width o1).1 in
    let o3 = (append_byte b';' o2).1 in
    Emits-append _ _ o o1 _ (append-Emits _ o) (
      Emits-append _ _ o1 o2 _ (append_number-Emits width o1)
        (Emits-append _ _ o2 o3 _ (append_byte-Emits b';' o2) (append_number-Emits height o3)))

pub record IsQuiet (bytes : List ℕ) : Type 0 where
  pub stays : (s : Screen) → IsReady s → IsKept s (decode bytes s)

IsKept-trans : (s t u : Screen) → IsKept s t → IsKept t u → IsKept s u
IsKept-trans s t u a b = record {
  ready = b.ready;
  column = b.column ∙ a.column;
  row = b.row ∙ a.row;
  picture = b.picture ∙ a.picture;
}

IsQuiet-append : (xs ys : List ℕ) → IsQuiet xs → IsQuiet ys → IsQuiet (xs ++ ys)
IsQuiet-append xs ys h k = record {
  stays = λ s r.
      let a = h.stays s r in
      let b = k.stays (decode xs s) a.ready in
      subst (IsKept s) (sym (scan-append read_byte xs ys s)) (IsKept-trans s _ _ a b);
}

IsQuiet-All : (xs : List ℕ) → All (λ c. is_quiet c ≡ true) xs → IsQuiet xs
IsQuiet-All [] h = record {
  stays = λ s r. record { ready = r; column = refl; row = refl; picture = refl };
}
IsQuiet-All (c ∷ cs) h = record {
  stays = λ s r.
      let a = read_byte-quiet c s h.0 r in
      IsKept-trans s _ _ a ((IsQuiet-All cs h.1).stays (read_byte c s) a.ready);
}

digits_quiet : (xs : List ℕ) → All IsDigit xs → All (λ c. is_quiet c ≡ true) xs
digits_quiet [] h = tt
digits_quiet (c ∷ cs) h = (ground (arith, h.0), digits_quiet cs h.1)

IsQuiet-decimal : (n : ℕ) → IsQuiet (decimal n)
IsQuiet-decimal n = IsQuiet-All (decimal n) (digits_quiet (decimal n) (decimal-All n))

IsQuiet-raster : (width height : ℕ) → IsQuiet (raster_bytes width height)
unfolding raster_bytes
IsQuiet-raster width height =
    IsQuiet-append _ _ (IsQuiet-All (codes "\"1;1;") (refl, (refl, (refl, (refl, (refl, tt)))))) (
      IsQuiet-append _ _ (IsQuiet-decimal width)
        (IsQuiet-append _ _ (IsQuiet-All (b';' ∷ []) (refl, tt)) (IsQuiet-decimal height)))

IsQuiet-register : (number red green blue : ℕ) → IsQuiet (register_bytes number red green blue)
unfolding register_bytes
IsQuiet-register number red green blue =
    let separator = IsQuiet-All (b';' ∷ []) (refl, tt) in
    IsQuiet-append _ _ (IsQuiet-All (b'#' ∷ []) (refl, tt)) (
      IsQuiet-append _ _ (IsQuiet-decimal number) (
        IsQuiet-append _ _ (IsQuiet-All (codes ";2;") (refl, (refl, (refl, tt)))) (
          IsQuiet-append _ _ (IsQuiet-decimal red) (
            IsQuiet-append _ _ separator (
              IsQuiet-append _ _ (IsQuiet-decimal green)
                (IsQuiet-append _ _ separator (IsQuiet-decimal blue)))))))

pub IsQuiet-palette_bytes :
    (number : ℕ) (palette : List RgbColor) → IsQuiet (palette_bytes number palette)
unfolding palette_bytes
IsQuiet-palette_bytes number [] = IsQuiet-All [] tt
IsQuiet-palette_bytes number (c ∷ cs) =
    IsQuiet-append _ _ (IsQuiet-register number (to100 c.red) (to100 c.green) (to100 c.blue))
      (IsQuiet-palette_bytes (suc number) cs)

pub IsQuiet-nil : IsQuiet []
IsQuiet-nil = IsQuiet-All [] tt

abbrev pub terminator : List ℕ
terminator = 27 ∷ b'\\' ∷ []

-- A SIXEL image of the options given: between the introducer and the terminator, with what defines
-- the palette inside, stand bytes that the decoder draws as exactly the pixels of the register
-- function.
pub record IsImage (options : HeaderOptions) (palette : List ℕ) (width height : ℕ)
    (register : ℕ → ℕ → ℕ) (bytes : List ℕ) : Type 0 where
  pub frame : List ℕ
  pub framed :
      bytes
      ≡ introducer options ++ ((raster_bytes width height ++ (palette ++ frame)) ++ terminator)
  pub pixels :
      (s : Screen) (x y : ℕ)
      → IsReady s
      → s.column ≡ 0
      → s.row ≡ 0
      → (decode (raster_bytes width height ++ (palette ++ frame)) s).picture x y
        ≡ (if ltb x width && ltb y height then some (register x y) else s.picture x y)

abbrev pub fresh : ℕ → SixelOutput
fresh limit = record { storage = []; maximum_bytes = limit; limit_exceeded = false }

-- `write_image` writes an image, or goes over its limit because the image does not fit.
pub write_image-IsImage :
    (options : HeaderOptions) (width height : ℕ) (palette : SixelOutput → SixelOutput)
    (palette_text : List ℕ) (indices : ℕ → ℕ) (b : Scratch) (limit : ℕ)
    → IsQuiet palette_text
    → ((o : SixelOutput) → Emits palette_text o (palette o))
    → (bytes : List ℕ) × IsImage options palette_text width height
        (λ x y. indices (y * width + x))
        bytes
      × Emits bytes (fresh limit) (write_image options width height palette indices b limit)
unfolding write_image
write_image-IsImage options width height palette palette_text indices b limit quiet sent =
    let o1 = begin_sixel options (fresh limit) in
    let o2 = emit_raster_attributes width height o1 in
    let o3 = palette o2 in
    let o4 = emit_indexed_frame indices width height b o3 in
    let drawn = emit_indexed_frame-picture indices width height b o3 in
    let body = raster_bytes width height ++ (palette_text ++ drawn.0) in
    (
      introducer options ++ (body ++ terminator),
      record {
        frame = drawn.0;
        framed = refl;
        pixels = λ s x y ready edge top. pixels_at drawn.0 drawn.2 s x y ready edge top;
      },
      Emits-append _ _ (fresh limit) o1 _ (begin_sixel-Emits options (fresh limit)) (
          Emits-append _ _ o1 o4 _
            (Emits-append _ _ o1 o2 _ (emit_raster_attributes-Emits width height o1)
              (Emits-append _ _ o2 o3 _ (sent o2) drawn.1))
            (append-Emits terminator o4)),
    )
  where
    pixels_at :
        (frame : List ℕ)
        → ((s : Screen) (x y : ℕ)
            → IsReady s
            → s.column ≡ 0
            → s.row ≡ 0
            → (decode frame s).picture x y ≡ (
                if ltb x width && ltb y height
                then some (indices (y * width + x))
                else s.picture x y))
        → (s : Screen) (x y : ℕ) → IsReady s
        → s.column ≡ 0
        → s.row ≡ 0
        → (decode (raster_bytes width height ++ (palette_text ++ frame)) s).picture x y
          ≡ (if ltb x width && ltb y height then some (indices (y * width + x)) else s.picture x y)
    pixels_at frame h s x y ready edge top =
        let front = IsQuiet-append _ _ (IsQuiet-raster width height) quiet in
        let kept = front.stays s ready in
        let s1 = decode (raster_bytes width height ++ palette_text) s in
        ap (λ bytes. (decode bytes s).picture x y)
          (sym (append_assoc (raster_bytes width height) palette_text frame))
        ∙ ap (λ (u : Screen). u.picture x y)
            (scan-append read_byte (raster_bytes width height ++ palette_text) frame s)
        ∙ h s1 x y kept.ready (kept.column ∙ edge) (kept.row ∙ top)
        ∙ ap
            (λ (p : ℕ → ℕ → Option ℕ).
              if ltb x width && ltb y height then some (indices (y * width + x)) else p x y)
            kept.picture

pub IsQuiet-used_bytes :
    (percent palette : ℕ → ℕ) (used : ℕ → Bool) (left i : ℕ)
    → IsQuiet (used_bytes percent palette used left i)
unfolding used_bytes
IsQuiet-used_bytes percent palette used zero i = IsQuiet-All [] tt
IsQuiet-used_bytes percent palette used (suc left) i = elim (Bool-cases (used i)) [
  | inl is_used ↦ rw is_used (
      IsQuiet-append _ _ (IsQuiet-register i _ _ _)
        (IsQuiet-used_bytes percent palette used left (suc i)))
  | inr unused ↦ rw unused (IsQuiet-used_bytes percent palette used left (suc i))
]
