-- ===== src/Encoder/Adaptive/Build.antt =====
-- The palette made for a scene: its colours are found exactly, and every colour finds a register.
use rasterm.Base.{
  ℕ, ◌+◌, ◌*◌, ◌/◌, ◌%◌, ◌≤◌, ◌<◌, max, ◌≡◌, ◌≢◌, refl, ◌⊎◌, inl, inr, true, false, none, some,
  List, [], ◌∷◌, leb, ◌==◌, length, member, Option-cases, Bool-cases, arith,
}
use rasterm.Encoder.Pixels.{PixelChannels}
use rasterm.Encoder.Palette.{double_max}
use rasterm.Encoder.Palette.Nearest.{nearest-least, nearest-lt}
use rasterm.Encoder.Adaptive.{
  FastAdaptiveColorMapper, or_else, rgb_word, quantized_index, look_up, get_color_number_read_only,
  add_color, add_colors, fill_quantized, build_optimal_palette,
}

module _ {Histogram : Type 0} where
  -- The map names registers that hold its colours.
  record IsMapped (m : FastAdaptiveColorMapper Histogram) : Type 0 where
    positive : 1 ≤ m.next_color_num
    limited : m.next_color_num ≤ max 1 m.max_colors
    mapped :
        (rgb i : ℕ)
        → m.rgb_to_color_num rgb ≡ some i
        → (1 ≤ i) × (i < m.next_color_num) × (m.palette i ≡ rgb)

  add_color-IsMapped :
      (rgb : ℕ) (m : FastAdaptiveColorMapper Histogram)
      → m.next_color_num < m.max_colors
      → IsMapped m
      → IsMapped (add_color rgb m)
  unfolding add_color
  add_color-IsMapped rgb m room s = record {
    positive = omega arith;
    limited = omega arith;
    mapped = λ c i e. elim (Bool-cases (c == rgb)) [
      | inl new ↦ let found : m.next_color_num ≡ i = ground arith in ground (arith, s.positive)
      | inr old ↦ ground (arith, s.mapped c i)
    ];
  }

  add_colors-IsMapped :
      (colors : List ℕ) (m : FastAdaptiveColorMapper Histogram)
      → IsMapped m
      → IsMapped (add_colors colors m)
  unfolding add_colors
  add_colors-IsMapped [] m s = s
  add_colors-IsMapped (rgb ∷ colors) m s = elim (Bool-cases (leb m.max_colors m.next_color_num)) [
    | inl full ↦ rw full s
    | inr room ↦
        rw room
          (add_colors-IsMapped colors (add_color rgb m) (add_color-IsMapped rgb m (ground arith) s))
  ]

  -- Every colour that there is room for gets a place in the map, and keeps one.
  add_colors-mapped :
      (colors : List ℕ) (m : FastAdaptiveColorMapper Histogram) (c : ℕ)
      → m.next_color_num + length colors ≤ m.max_colors
      → (member c colors ≡ true) ⊎ (m.rgb_to_color_num c ≢ none)
      → (add_colors colors m).rgb_to_color_num c ≢ none
  unfolding add_colors
  add_colors-mapped [] m c room (inl here) = cc
  add_colors-mapped [] m c room (inr before) = before
  add_colors-mapped (rgb ∷ colors) m c room h =
      let open_still : leb m.max_colors m.next_color_num ≡ false = ground arith in
      rw open_still
        (add_colors-mapped colors (add_color rgb m) c (unfold add_color in omega arith) (step h))
    where
      step :
          (member c (rgb ∷ colors) ≡ true) ⊎ (m.rgb_to_color_num c ≢ none)
          → (member c colors ≡ true) ⊎ ((add_color rgb m).rgb_to_color_num c ≢ none)
      step k = elim (Bool-cases (c == rgb)) [
        | inl new ↦ inr (unfold add_color in ground arith)
        | inr old ↦ other k old
      ]
        where
          other :
              (member c (rgb ∷ colors) ≡ true) ⊎ (m.rgb_to_color_num c ≢ none)
              → (c == rgb) ≡ false
              → (member c colors ≡ true) ⊎ ((add_color rgb m).rgb_to_color_num c ≢ none)
          other (inl here) old = inl (ground arith)
          other (inr before) old = inr (unfold add_color in ground (arith, before))

  add_colors-kept :
      (colors : List ℕ) (m : FastAdaptiveColorMapper Histogram)
      → ((add_colors colors m).max_colors ≡ m.max_colors)
        × (m.next_color_num ≤ (add_colors colors m).next_color_num)
  unfolding add_colors
  add_colors-kept [] m = (refl, omega arith)
  add_colors-kept (rgb ∷ colors) m =
      let r = add_colors-kept colors (add_color rgb m) in
      elim (Bool-cases (leb m.max_colors m.next_color_num)) [
        | inl full ↦ rw full (refl, omega arith)
        | inr room ↦ rw room (unfold add_color in (r.0, omega (arith, r.1)))
      ]

  -- A colour to work with: the palette has one if a colour was given and there is room for it.
  add_colors-some :
      (rgb : ℕ) (colors : List ℕ) (m : FastAdaptiveColorMapper Histogram)
      → m.next_color_num < m.max_colors
      → m.next_color_num < (add_colors (rgb ∷ colors) m).next_color_num
  unfolding add_colors
  add_colors-some rgb colors m room =
      let open_still : leb m.max_colors m.next_color_num ≡ false = ground arith in
      let r = add_colors-kept colors (add_color rgb m) in
      rw open_still (unfold add_color in omega (arith, r.1))

  -- What a built mapper promises.
  pub record IsBuilt (frequent : List ℕ) (m : FastAdaptiveColorMapper Histogram) : Type 0 where
    pub limited : m.next_color_num ≤ m.max_colors
    pub registered :
        (c : PixelChannels)
        → (1 ≤ get_color_number_read_only m c) × (get_color_number_read_only m c < m.next_color_num)
    pub exact :
        (c : PixelChannels)
        → member (rgb_word c) frequent ≡ true
        → m.palette (get_color_number_read_only m c) ≡ rgb_word c

  abbrev cleared : FastAdaptiveColorMapper Histogram → FastAdaptiveColorMapper Histogram
  cleared m = record m {
    rgb_to_color_num = λ rgb. none;
    quantized_lookup = λ index. none;
    next_color_num = 1;
  }

  -- The palette that is built for a scene of at least one colour, and of no more colours than the limit
  -- leaves room for, which is what the analyzer gives: every colour of a frame is mapped to a register of
  -- the palette, none of them the background, and each of the frequent colours to a register that holds
  -- exactly it. A distance is a finite number.
  pub build_optimal_palette-IsBuilt :
      (distance : ℕ → ℕ → ℕ) (rgb : ℕ) (colors : List ℕ) (histogram : Histogram)
      (m : FastAdaptiveColorMapper Histogram)
      → length (rgb ∷ colors) < m.max_colors
      → ((source candidate : ℕ) → distance source candidate ≤ double_max)
      → IsBuilt (rgb ∷ colors) (build_optimal_palette distance (rgb ∷ colors) histogram m)
  unfolding build_optimal_palette get_color_number_read_only look_up fill_quantized
  build_optimal_palette-IsBuilt distance rgb colors histogram m room finite = record {
    limited = omega (arith, added.limited, kept.0);
    registered = λ c. elim (Option-cases (built.rgb_to_color_num (rgb_word c))) [
      | inl missing ↦ rw missing (registered_quantized (quantized_index c))
      | inr (i, found) ↦ let at = added.mapped (rgb_word c) i found in rw found (at.0, at.1)
    ];
    exact = λ c here. elim (Option-cases (built.rgb_to_color_num (rgb_word c))) [
      | inl missing ↦ absurd (
          add_colors-mapped (rgb ∷ colors) (cleared m) (rgb_word c) (omega arith) (inl here)
            missing)
      | inr (i, found) ↦ rw found ((added.mapped (rgb_word c) i found).2)
    ];
  }
    where
      built : FastAdaptiveColorMapper Histogram
      built = add_colors (rgb ∷ colors) (cleared m)

      added : IsMapped built
      added =
          add_colors-IsMapped (rgb ∷ colors) (cleared m)
            (record { positive = omega arith; limited = omega arith; mapped = λ c i e. cc })

      kept : (built.max_colors ≡ m.max_colors) × (1 ≤ built.next_color_num)
      kept = add_colors-kept (rgb ∷ colors) (cleared m)

      registered_quantized :
          (index : ℕ)
          → (1 ≤ or_else ((fill_quantized distance built).quantized_lookup index) 0)
            × (or_else ((fill_quantized distance built).quantized_lookup index) 0
                < built.next_color_num)
      registered_quantized index =
          let source = index / 36 * 51 * 65536 + index / 6 % 6 * 51 * 256 + index % 6 * 51 in
          let r =
            nearest-least built.next_color_num (λ color. distance source (built.palette color))
              (add_colors-some rgb colors (cleared m) (omega arith))
              (λ c. finite source (built.palette c)) in
          (r.0, r.1)

  -- Whatever colours a palette is built of, its limit stays; and if that is 256 colours at most, the
  -- register of every colour is a byte.
  pub build_optimal_palette-byte :
      (distance : ℕ → ℕ → ℕ) (colors : List ℕ) (histogram : Histogram)
      (m : FastAdaptiveColorMapper Histogram)
      → m.max_colors ≤ 256
      → ((build_optimal_palette distance colors histogram m).max_colors ≡ m.max_colors)
        × ((c : PixelChannels)
            → get_color_number_read_only (build_optimal_palette distance colors histogram m) c
              < 256)
  unfolding build_optimal_palette get_color_number_read_only look_up fill_quantized
  build_optimal_palette-byte distance colors histogram m limit = (
    kept.0,
    λ c. elim (Option-cases (built.rgb_to_color_num (rgb_word c))) [
      | inl missing ↦ rw missing (quantized (quantized_index c))
      | inr (i, found) ↦
          let at = added.mapped (rgb_word c) i found in
          rw found (omega (arith, at.1, added.limited, kept.0))
    ],
  )
    where
      built : FastAdaptiveColorMapper Histogram
      built = add_colors colors (cleared m)

      added : IsMapped built
      added =
          add_colors-IsMapped colors (cleared m)
            (record { positive = omega arith; limited = omega arith; mapped = λ c i e. cc })

      kept : (built.max_colors ≡ m.max_colors) × (1 ≤ built.next_color_num)
      kept = add_colors-kept colors (cleared m)

      quantized :
          (index : ℕ) → or_else ((fill_quantized distance built).quantized_lookup index) 0 < 256
      quantized index =
          let source = index / 36 * 51 * 65536 + index / 6 % 6 * 51 * 256 + index % 6 * 51 in
          let r =
            nearest-lt built.next_color_num (λ color. distance source (built.palette color)) in
          omega (arith, r, added.limited, kept.0)
