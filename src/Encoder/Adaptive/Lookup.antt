-- ===== src/Encoder/Adaptive/Lookup.antt =====
-- The map of a mapper only remembers what a look-up finds.
use rasterm.Base.{
  ◌<◌, ◌≡◌, refl, sym, ap, ◌∙◌, Bool, ◌==◌, Option-cases, Bool-cases, inl, inr, arith,
}
use rasterm.Encoder.Pixels.{PixelChannels}
use rasterm.Encoder.Adaptive.{
  FastAdaptiveColorMapper, or_else, rgb_word, look_up, get_color_number_read_only, get_color_number,
}

same_word :
    (c d : PixelChannels)
    → c.green < 256
    → c.blue < 256
    → d.green < 256
    → d.blue < 256
    → rgb_word c ≡ rgb_word d
    → c ≡ d
same_word c d cg cb dg db e = λ i. record { red = red i; green = green i; blue = blue i }
  where
    red : c.red ≡ d.red
    red = omega arith

    green : c.green ≡ d.green
    green = omega arith

    blue : c.blue ≡ d.blue
    blue = omega arith

-- A look-up that may write to the map gives the number of the one that may not, which the threads use;
-- it leaves the palette alone, and every later look-up of either kind gives what it would have given
-- before. Colours are of three bytes.
pub get_color_number-read_only :
    {Histogram : Type 0} (allow : Bool) (c d : PixelChannels)
    (m : FastAdaptiveColorMapper Histogram)
    → c.green < 256
    → c.blue < 256
    → d.green < 256
    → d.blue < 256
    → ((get_color_number allow c m).0 ≡ get_color_number_read_only m c)
      × ((get_color_number allow c m).1.palette ≡ m.palette)
      × (get_color_number_read_only (get_color_number allow c m).1 d
          ≡ get_color_number_read_only m d)
unfolding get_color_number get_color_number_read_only look_up
get_color_number-read_only allow c d m cg cb dg db =
    elim (Option-cases (m.rgb_to_color_num (rgb_word c))) [
      | inl missing ↦ elim (Bool-cases allow) [
        | inl writes ↦
            rw (missing, get_color_number, writes)
              (
                refl,
                refl,
                elim (Bool-cases (rgb_word d == rgb_word c)) [
                  | inl same ↦
                      let e = same_word c d cg cb dg db (ground arith) in
                      rw same (
                        ap (look_up m) e
                        ∙ sym (
                            ap (λ o. or_else o (look_up m d))
                              (ap (λ k. m.rgb_to_color_num (rgb_word k)) (sym e) ∙ missing)))
                  | inr other ↦ rw other
                ],
              )
        | inr reads ↦ rw (missing, get_color_number, reads) (refl, refl, refl)
      ]
      | inr (n, found) ↦ rw (found, get_color_number) (refl, refl, refl)
    ]
