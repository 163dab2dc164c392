-- ===== src/Renderer/Exact.antt =====
-- `mergeWithoutInflation` is exact: a box is taken for two regions only if it covers the pixels of the
-- two and no other.
use rasterm.Base.{
  ℕ, zero, suc, ◌+◌, ◌-◌, ◌*◌, ◌≤◌, min, max, ◌≡◌, ◌≢◌, refl, sym, ap, ◌⊎◌, inl, inr, Bool, true,
  false, ◌||◌, ◌&&◌, some, ltb, leb, Bool-cases, arith,
}
use native.Mathlib.Nat.{mul-le-mul}
use rasterm.Damage.Rect.{DamageRegion, covers}
use rasterm.Renderer.Plan.{bounds, overlap_width, overlap_height, merge_without_inflation}

-- The area of a box of `n1 + n2 + both + gap` rows, as the area of the two regions and what is left
-- out: beside the one, beside the other, beside both, and the rows of neither.
box_area :
    (W w v o n1 n2 both gap e1 e2 e3 : ℕ)
    → w + e1 ≡ W
    → v + e2 ≡ W
    → w + v + e3 ≡ W + o
    → W * (n1 + n2 + both + gap) + o * both
      ≡ w * (n1 + both) + v * (n2 + both) + (e1 * n1 + e2 * n2 + e3 * both + W * gap)
box_area W w v o n1 n2 both gap e1 e2 e3 p q r =
    omega (arith, ap (λ (t : ℕ). t * n1) p, ap (λ (t : ℕ). t * n2) q, ap (λ (t : ℕ). t * both) r)

-- A product that is zero.
zero-cases : (m n : ℕ) → m * n ≡ 0 → (m ≡ 0) ⊎ (n ≡ 0)
zero-cases zero n h = inl refl
zero-cases (suc m) zero h = inr refl
zero-cases (suc m) (suc n) h = absurd (omega arith)

-- What an exact box means for its extents.
record IsTight (W w v o H h g i : ℕ) : Type 0 where
  left_rows : (W ≡ w) ⊎ (h ≡ i)
  right_rows : (W ≡ v) ⊎ (g ≡ i)
  both_rows : (w + v ≡ W + o) ⊎ (i ≡ 0)
  no_gap : (W ≡ 0) ⊎ (h + g ≡ H + i)

tight :
    (W w v o H h g i : ℕ)
    → w ≤ W
    → v ≤ W
    → w + v ≤ W + o
    → o ≤ w
    → o ≤ v
    → i ≤ h
    → i ≤ g
    → h + g ≤ H + i
    → W * H ≡ w * h + v * g - o * i
    → IsTight W w v o H h g i
tight W w v o H h g i p q r s s' t t' u e = record {
  left_rows = elim (zero-cases (W - w) (h - i) (omega (arith, none_left))) [
    | inl none_right ↦ inl (omega arith)
    | inr none_here ↦ inr (omega arith)
  ];
  right_rows = elim (zero-cases (W - v) (g - i) (omega (arith, none_left))) [
    | inl none_right ↦ inl (omega arith)
    | inr none_here ↦ inr (omega arith)
  ];
  both_rows = elim (zero-cases (W + o - (w + v)) i (omega (arith, none_left))) [
    | inl none_right ↦ inl (omega arith)
    | inr none_here ↦ inr none_here
  ];
  no_gap = elim (zero-cases W (H + i - (h + g)) (omega (arith, none_left))) [
    | inl empty ↦ inl empty
    | inr none_here ↦ inr (omega arith)
  ];
}
  where
    rest : ℕ
    rest = (W - w) * (h - i) + (W - v) * (g - i) + (W + o - (w + v)) * i + W * (H + i - (h + g))

    whole : W * H + o * i ≡ w * h + v * g + rest
    whole =
        let rows : h - i + (g - i) + i + (H + i - (h + g)) ≡ H = omega arith in
        let left : h - i + i ≡ h = omega arith in
        let right : g - i + i ≡ g = omega arith in
        rw (rows, left, right) at
          (box_area W w v o (h - i) (g - i) i (H + i - (h + g)) (W - w) (W - v) (W + o - (w + v))
            (omega arith) (omega arith) (omega arith))

    none_left : rest ≡ 0
    none_left = omega (arith, whole, mul-le-mul s t)

merge_without_inflation-IsTight :
    (l r b : DamageRegion)
    → merge_without_inflation l r ≡ some b
    → (b ≡ bounds l r)
      × IsTight
          (bounds l r).width
          l.width
          r.width
          (overlap_width l r)
          (bounds l r).height
          l.height
          r.height
          (overlap_height l r)
unfolding merge_without_inflation
merge_without_inflation-IsTight l r b e = (
  ground arith,
  tight _ l.width r.width _ _ l.height r.height _ (omega arith) (omega arith) (omega arith)
      (omega arith) (omega arith) (omega arith) (omega arith) (omega arith) (ground arith),
)

-- One extent of a region, and that of the box around two regions.
abbrev within : ℕ → ℕ → ℕ → Bool
within a w p = leb a p && ltb p (a + w)

abbrev in_box : ℕ → ℕ → ℕ → ℕ → ℕ → Bool
in_box a w c v p = within (min a c) (max (a + w) (c + v) - min a c) p

-- Where a point may lie, from the facts about one extent: the box's is `B`, the overlap's is `o`.
module _ (a w c v p : ℕ) where
  abbrev B : ℕ
  B = max (a + w) (c + v) - min a c

  abbrev o : ℕ
  o = min (a + w) (c + v) - max a c

  in_left : B ≡ w → in_box a w c v p ≡ true → within a w p ≡ true
  in_left e h = ground arith

  in_right : B ≡ v → in_box a w c v p ≡ true → within c v p ≡ true
  in_right e h = ground arith

  in_either : w + v ≡ B + o → in_box a w c v p ≡ true → (within a w p || within c v p) ≡ true
  in_either e h = ground arith

  only_left : within a w p ≡ true → within c v p ≡ false → w ≢ o
  only_left h k e = ground arith

  only_right : within a w p ≡ false → within c v p ≡ true → v ≢ o
  only_right h k e = ground arith

  in_both : within a w p ≡ true → within c v p ≡ true → o ≢ 0
  in_both h k e = ground arith

  in_neither : within a w p ≡ false → within c v p ≡ false → in_box a w c v p ≡ true → w + v ≢ B + o
  in_neither h k l e = ground arith

  not_empty : in_box a w c v p ≡ true → B ≢ 0
  not_empty h e = ground arith

  box_left : within a w p ≡ true → in_box a w c v p ≡ true
  box_left h = ground arith

  box_right : within c v p ≡ true → in_box a w c v p ≡ true
  box_right h = ground arith

-- The point of a conjunction, and a conjunction with what else is known.
both-true : (a b : Bool) → (a && b) ≡ true → (a ≡ true) × (b ≡ true)
both-true true true h = (refl, refl)
both-true true false h = (refl, h)
both-true false b h = (h, absurd (false-true h))
  where
    false-true : false ≢ true
    false-true e = ground arith

either-covers : (a b c d : Bool) → (a && b) ≡ true ⊎ (c && d) ≡ true → ((a && b) || (c && d)) ≡ true
either-covers a b c d (inl h) = rw h
either-covers a b c d (inr h) = elim (Bool-cases (a && b)) [ inl e ↦ rw e | inr e ↦ rw (e, h) ]

exact-covers :
    (l r : DamageRegion) (px py : ℕ)
    → IsTight
        (bounds l r).width
        l.width
        r.width
        (overlap_width l r)
        (bounds l r).height
        l.height
        r.height
        (overlap_height l r)
    → covers (bounds l r) px py ≡ true
    → (covers l px py || covers r px py) ≡ true
exact-covers l r px py t h =
    either-covers (within l.x l.width px) _ (within r.x r.width px) _
      (elim (Bool-cases (within l.y l.height py)) [
        | inl here ↦ elim (Bool-cases (within r.y r.height py)) [
          | inl there ↦ elim t.both_rows [
            | inl e ↦ elim (Bool-cases (within l.x l.width px)) [
              | inl at ↦ inl (rw (at, here))
              | inr past ↦
                  inr (rw (rw past at (in_either l.x l.width r.x r.width px e at_x), there))
            ]
            | inr e ↦ absurd (in_both l.y l.height r.y r.height py here there e)
          ]
          | inr none_there ↦ elim t.left_rows [
            | inl e ↦ inl (rw (in_left l.x l.width r.x r.width px e at_x, here))
            | inr e ↦ absurd (only_left l.y l.height r.y r.height py here none_there e)
          ]
        ]
        | inr none_here ↦ elim (Bool-cases (within r.y r.height py)) [
          | inl there ↦ elim t.right_rows [
            | inl e ↦ inr (rw (in_right l.x l.width r.x r.width px e at_x, there))
            | inr e ↦ absurd (only_right l.y l.height r.y r.height py none_here there e)
          ]
          | inr none_there ↦ elim t.no_gap [
            | inl e ↦ absurd (not_empty l.x l.width r.x r.width px at_x e)
            | inr e ↦ absurd (in_neither l.y l.height r.y r.height py none_here none_there at_y e)
          ]
        ]
      ])
  where
    at_x : in_box l.x l.width r.x r.width px ≡ true
    at_x = (both-true (in_box l.x l.width r.x r.width px) (in_box l.y l.height r.y r.height py) h).0

    at_y : in_box l.y l.height r.y r.height py ≡ true
    at_y = (both-true (in_box l.x l.width r.x r.width px) (in_box l.y l.height r.y r.height py) h).1

box-covers :
    (l r : DamageRegion) (px py : ℕ)
    → (covers l px py || covers r px py) ≡ true
    → covers (bounds l r) px py ≡ true
box-covers l r px py h = elim (Bool-cases (covers l px py)) [
  | inl here ↦
      let (x, y) = both-true (within l.x l.width px) _ here in
      rw (box_left l.x l.width r.x r.width px x, box_left l.y l.height r.y r.height py y)
  | inr none_here ↦
      let (x, y) = both-true (within r.x r.width px) _ (rw none_here at h) in
      rw (box_right l.x l.width r.x r.width px x, box_right l.y l.height r.y r.height py y)
]

Bool-ext : (b c : Bool) → (b ≡ true → c ≡ true) → (c ≡ true → b ≡ true) → b ≡ c
Bool-ext true c f g = sym (f refl)
Bool-ext false true f g = g refl
Bool-ext false false f g = refl

-- Two regions that `mergeWithoutInflation` merges become a region that covers exactly the pixels that one
-- of the two covers.
pub merge_without_inflation-covers :
    (l r b : DamageRegion) (px py : ℕ)
    → merge_without_inflation l r ≡ some b
    → covers b px py ≡ (covers l px py || covers r px py)
merge_without_inflation-covers l r b px py e =
    let (same, t) = merge_without_inflation-IsTight l r b e in
    rw same (Bool-ext _ _ (exact-covers l r px py t) (box-covers l r px py))
