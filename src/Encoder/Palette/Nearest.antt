-- ===== src/Encoder/Palette/Nearest.antt =====
-- The lookup tables hold, for each cell, the colour of the palette that is nearest to it.
use rasterm.Base.{
  ℕ, zero, suc, ◌+◌, ◌-◌, ◌≤◌, ◌<◌, max, ◌≡◌, refl, ◌⊎◌, inl, inr, ltb, Bool-cases, arith,
}
use mathlib.Core.Path.{subst}
use rasterm.Encoder.Palette.{nearest_from, nearest, double_max}

-- The search has seen the colours before `color`.
record IsBest (distance : ℕ → ℕ) (color best best_distance : ℕ) : Type 0 where
  least : (c : ℕ) → 1 ≤ c → c < color → best_distance ≤ distance c
  limited : best_distance ≤ double_max
  reached : (best_distance ≡ double_max) ⊎ (distance best ≡ best_distance)
  inside : (best ≡ 1) ⊎ (best < color)
  positive : 1 ≤ best

nearest_from-IsBest :
    (left color : ℕ) (distance : ℕ → ℕ) (best best_distance : ℕ)
    → 1 ≤ color
    → IsBest distance color best best_distance
    → (d : ℕ) × IsBest distance
        (color + left)
        (nearest_from left color distance best best_distance)
        d
unfolding nearest_from
nearest_from-IsBest zero color distance best best_distance pos b =
    let e : color ≡ color + zero = omega arith in
    (best_distance, subst (λ k. IsBest distance k best best_distance) e b)
nearest_from-IsBest (suc left) color distance best best_distance pos b =
    let e : suc color + left ≡ color + suc left = omega arith in
    elim (Bool-cases (ltb (distance color) best_distance)) [
      | inl closer ↦
          let d = distance color in
          rw (closer, ← e)
            (nearest_from-IsBest left (suc color) distance color d (omega arith) (record {
              least = λ c pos lt. ground (arith, b.least c);
              limited = ground (arith, b.limited);
              reached = inr refl;
              inside = inr (omega arith);
              positive = pos;
            }))
      | inr farther ↦
          rw (farther, ← e)
            (nearest_from-IsBest left (suc color) distance best best_distance (omega arith)
              (record {
                least = λ c pos lt. ground (arith, b.least c);
                limited = b.limited;
                reached = b.reached;
                inside = ground (arith, b.inside);
                positive = b.positive;
              }))
    ]

-- The search finds a colour of the palette at the least distance.
pub nearest-least :
    (next_color_num : ℕ) (distance : ℕ → ℕ)
    → 1 < next_color_num
    → ((c : ℕ) → distance c ≤ double_max)
    → (1 ≤ nearest next_color_num distance)
      × (nearest next_color_num distance < next_color_num)
      × ((c : ℕ)
          → 1 ≤ c
          → c < next_color_num
          → distance (nearest next_color_num distance) ≤ distance c)
unfolding nearest
nearest-least next_color_num distance some_color finite =
    let (d, b) =
      nearest_from-IsBest (next_color_num - 1) 1 distance 1 double_max (omega arith) (record {
        least = λ c pos lt. absurd (omega arith);
        limited = omega arith;
        reached = inl refl;
        inside = inl refl;
        positive = omega arith;
      }) in
    (
      b.positive,
      ground (arith, b.inside),
      λ c pos lt. ground (
        arith,
        b.reached,
        b.least c pos,
        finite (nearest_from (next_color_num - 1) 1 distance 1 double_max),
      ),
    )

-- Whatever the distances are, the search finds one of the colours, or the first place.
pub nearest-lt :
    (next_color_num : ℕ) (distance : ℕ → ℕ) → nearest next_color_num distance < max 2 next_color_num
unfolding nearest
nearest-lt next_color_num distance =
    let (d, b) =
      nearest_from-IsBest (next_color_num - 1) 1 distance 1 double_max (omega arith) (record {
        least = λ c pos lt. absurd (omega arith);
        limited = omega arith;
        reached = inl refl;
        inside = inl refl;
        positive = omega arith;
      }) in
    ground (arith, b.inside)
