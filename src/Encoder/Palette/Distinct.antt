-- ===== src/Encoder/Palette/Distinct.antt =====
-- The palette that the constructor builds, and the tables over it.
use rasterm.Base.{
  ℕ, zero, suc, ◌+◌, ◌-◌, ◌*◌, ◌/◌, ◌%◌, ◌≤◌, ◌<◌, max, ◌≡◌, ◌≢◌, refl, sym, ap, ◌∙◌, inl, inr,
  false, not, ◌&&◌, List, [], ◌∷◌, ltb, ◌==◌, Bool-cases, arith,
}
use rasterm.Encoder.Palette.{
  FastColorMapper, is_listed, append_color, append_grays, append_hues, grayscale_levels, nearest,
  double_max, cell_color, fill_lookups, construct,
}
use rasterm.Encoder.Palette.Nearest.{nearest-least}

-- The registers from 1 on have colours of their own, and are no more than the limit.
pub record IsDistinct (limit : ℕ) (m : FastColorMapper) : Type 0 where
  pub positive : 1 ≤ m.next_color_num
  pub limited : m.next_color_num ≤ max 1 limit
  pub kept : m.max_colors ≡ limit
  pub distinct :
      (i j : ℕ) → 1 ≤ i → i < j → j < m.next_color_num → m.color_num_to_rgb i ≢ m.color_num_to_rgb j

is_listed-false :
    (left color : ℕ) (palette : ℕ → ℕ) (rgb : ℕ)
    → is_listed left color palette rgb ≡ false
    → (c : ℕ) → color ≤ c
    → c < color + left
    → palette c ≢ rgb
is_listed-false zero color palette rgb h c le lt e = absurd (omega arith)
is_listed-false (suc left) color palette rgb h c le lt e = elim (Bool-cases (c == color)) [
  | inl first ↦ ground (arith, here (ground arith))
  | inr later ↦
      is_listed-false left (suc color) palette rgb (ground (arith, h)) c (ground arith)
        (omega arith) e
]
  where
    here : c ≡ color → palette color ≡ rgb
    here k = ap palette (sym k) ∙ e

module _ (limit : ℕ) where
  append_color-IsDistinct :
      (rgb : ℕ) (m : FastColorMapper) → IsDistinct limit m → IsDistinct limit (append_color rgb m)
  unfolding append_color
  append_color-IsDistinct rgb m s =
      let n = m.next_color_num in
      elim (Bool-cases (not (is_listed (n - 1) 1 m.color_num_to_rgb rgb) && ltb n m.max_colors)) [
        | inl added ↦
            let missing : is_listed (n - 1) 1 m.color_num_to_rgb rgb ≡ false = ground arith in
            let room : n < limit = ground (arith, s.kept) in
            rw added (record {
              positive = omega arith;
              limited = omega arith;
              kept = s.kept;
              distinct = λ i j pos lt below e. ground (
                arith,
                s.distinct i j pos lt,
                is_listed-false (n - 1) 1 m.color_num_to_rgb rgb missing i pos,
                s.positive,
              );
            })
        | inr refused ↦ rw refused s
      ]

  append_grays-IsDistinct :
      (left level : ℕ) (m : FastColorMapper)
      → IsDistinct limit m
      → IsDistinct limit (append_grays left level m)
  unfolding append_grays
  append_grays-IsDistinct zero level m s = s
  append_grays-IsDistinct (suc left) level m s =
      append_grays-IsDistinct left (suc level) _ (append_color-IsDistinct _ m s)

  append_hues-IsDistinct :
      (hues : List ℕ) (m : FastColorMapper)
      → IsDistinct limit m
      → IsDistinct limit (append_hues hues m)
  unfolding append_hues
  append_hues-IsDistinct [] m s = s
  append_hues-IsDistinct (rgb ∷ hues) m s =
      append_hues-IsDistinct hues _ (append_color-IsDistinct rgb m s)

-- Colours are only added.
append_color-le :
    (rgb : ℕ) (m : FastColorMapper) → m.next_color_num ≤ (append_color rgb m).next_color_num
unfolding append_color
append_color-le rgb m = ground arith

append_grays-le :
    (left level : ℕ) (m : FastColorMapper)
    → m.next_color_num ≤ (append_grays left level m).next_color_num
unfolding append_grays
append_grays-le zero level m = omega arith
append_grays-le (suc left) level m =
    let value = (level * 255 + (grayscale_levels - 1) / 2) / (grayscale_levels - 1) in
    let rgb = value * 65536 + value * 256 + value in
    omega (arith, append_color-le rgb m, append_grays-le left (suc level) (append_color rgb m))

append_hues-le :
    (hues : List ℕ) (m : FastColorMapper) → m.next_color_num ≤ (append_hues hues m).next_color_num
unfolding append_hues
append_hues-le [] m = omega arith
append_hues-le (rgb ∷ hues) m =
    omega (arith, append_color-le rgb m, append_hues-le hues (append_color rgb m))

abbrev empty : ℕ → FastColorMapper
empty limit = record {
  color_num_to_rgb = λ color. 0;
  color_used = λ color. false;
  rgb_lookup = λ place. 0;
  rgb_lookup32 = λ place. 0;
  next_color_num = 1;
  used_color_count = 0;
  max_colors = limit;
}

first_gray :
    (limit : ℕ) → 2 ≤ limit → 2 ≤ (append_grays grayscale_levels 0 (empty limit)).next_color_num
unfolding append_grays append_color
first_gray limit two =
    let m = append_color 0 (empty limit) in
    let start : m.next_color_num ≡ 2 = ground arith in omega (arith, start, append_grays-le 23 1 m)

-- The palette with the tables that go with it.
pub record IsTabled (limit : ℕ) (distance : ℕ → ℕ → ℕ) (m : FastColorMapper) : Type 0 where
  pub distinct : IsDistinct limit m
  pub same : (place : ℕ) → m.rgb_lookup place ≡ m.rgb_lookup32 place
  pub registered : (place : ℕ) → (1 ≤ m.rgb_lookup place) × (m.rgb_lookup place < m.next_color_num)
  pub least :
      (place color : ℕ)
      → 1 ≤ color
      → color < m.next_color_num
      → distance (cell_color place) (m.color_num_to_rgb (m.rgb_lookup place))
        ≤ distance (cell_color place) (m.color_num_to_rgb color)

abbrev to_cell : (ℕ → ℕ → ℕ) → FastColorMapper → ℕ → ℕ → ℕ
to_cell distance m place color = distance (cell_color place) (m.color_num_to_rgb color)

fill_lookups-IsTabled :
    (limit : ℕ) (distance : ℕ → ℕ → ℕ) (m : FastColorMapper)
    → limit ≤ 256
    → ((source candidate : ℕ) → distance source candidate ≤ double_max)
    → 2 ≤ m.next_color_num
    → IsDistinct limit m
    → IsTabled limit distance (fill_lookups distance m)
unfolding fill_lookups
fill_lookups-IsTabled limit distance m small finite some_color s = record {
  distinct = record {
    positive = s.positive;
    limited = s.limited;
    kept = s.kept;
    distinct = s.distinct;
  };
  same = λ place. byte place;
  registered = λ place. rw (byte place) ((found place).0, (found place).1);
  least = λ place color pos lt. rw (byte place) ((found place).2 color pos lt);
}
  where
    found :
        (place : ℕ)
        → (1 ≤ nearest m.next_color_num (to_cell distance m place))
          × (nearest m.next_color_num (to_cell distance m place) < m.next_color_num)
          × ((c : ℕ)
              → 1 ≤ c
              → c < m.next_color_num
              → to_cell distance m place (nearest m.next_color_num (to_cell distance m place))
                ≤ to_cell distance m place c)
    found place =
        nearest-least m.next_color_num (to_cell distance m place) (omega arith)
          (λ c. finite (cell_color place) (m.color_num_to_rgb c))

    byte :
        (place : ℕ)
        → nearest m.next_color_num (to_cell distance m place) % 256
          ≡ nearest m.next_color_num (to_cell distance m place)
    byte place = omega (arith, (found place).1, s.limited)

-- The constructor gives a palette of at most the colours allowed, no two of them the same behind the
-- background, and tables of bytes and of 32 bits that hold the same registers: for each of the cells a
-- register of the palette whose colour is at the least distance from the middle of the cell. The
-- limit is one that the encoder passes, from 2 to 256, and a distance is a finite number.
pub construct-IsTabled :
    (distance : ℕ → ℕ → ℕ) (hues : List ℕ) (limit : ℕ)
    → 2 ≤ limit
    → limit ≤ 256
    → ((source candidate : ℕ) → distance source candidate ≤ double_max)
    → IsTabled limit distance (construct distance hues limit)
unfolding construct
construct-IsTabled distance hues limit two small finite =
    let grays = append_grays grayscale_levels 0 (empty limit) in
    fill_lookups-IsTabled limit distance (append_hues hues grays) small finite
      (omega (arith, first_gray limit two, append_hues-le hues grays))
      (append_hues-IsDistinct limit hues grays (
        append_grays-IsDistinct limit grayscale_levels 0 (empty limit) (record {
          positive = omega arith;
          limited = omega arith;
          kept = refl;
          distinct = λ i j pos lt below. absurd (omega arith);
        })))
