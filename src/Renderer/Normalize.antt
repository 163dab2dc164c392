-- ===== src/Renderer/Normalize.antt =====
-- `normalizeDamage`: the pixels stay covered, nothing is left to merge, and the order is that of rows.
use rasterm.Base.{
  ℕ, zero, suc, ◌≤◌, ◌≡◌, ◌≢◌, refl, ap, ◌∙◌, inl, inr, Bool, true, false, ◌||◌, Option, none, some,
  List, [], ◌∷◌, Bool-cases, Option-cases, length, All, arith,
}
use rasterm.Damage.Rect.{DamageRegion, covers, covered}
use rasterm.Renderer.Plan.{
  merge_without_inflation, merge_with, merge_once, merge_rounds, is_before, insert_region,
  sort_regions, normalize_damage,
}
use rasterm.Renderer.Exact.{merge_without_inflation-covers}

-- No two regions of the list can be merged.
abbrev pub IsUnmergeable : List DamageRegion → Type 0
IsUnmergeable [] = Unit {0}
IsUnmergeable (r ∷ rs) =
    All (λ (s : DamageRegion). merge_without_inflation r s ≡ none) rs × IsUnmergeable rs

-- No region comes before an earlier one.
abbrev pub IsOrdered : List DamageRegion → Type 0
IsOrdered [] = Unit {0}
IsOrdered (r ∷ rs) = All (λ (s : DamageRegion). is_before s r ≡ false) rs × IsOrdered rs

or_assoc : (a b c : Bool) → ((a || b) || c) ≡ (a || (b || c))
or_assoc true b c = refl
or_assoc false b c = refl

or_swap : (a b c : Bool) → (a || (b || c)) ≡ (b || (a || c))
or_swap true true c = refl
or_swap true false c = refl
or_swap false b c = refl

module _ (px py : ℕ) where
  -- A merge leaves the pixels covered as they were, and one region less.
  abbrev Merges : List DamageRegion → Option (List DamageRegion) → Type 0
  Merges rs none = Unit {0}
  Merges rs (some rs') = (covered rs' px py ≡ covered rs px py) × (length rs ≡ suc (length rs'))

  abbrev joined : Option (DamageRegion × List DamageRegion) → Option (List DamageRegion)
  joined none = none
  joined (some (b, rest)) = some (b ∷ rest)

  merge_with-Merges :
      (r : DamageRegion) (rs : List DamageRegion) → Merges (r ∷ rs) (joined (merge_with r rs))
  unfolding merge_with
  merge_with-Merges r [] = tt
  merge_with-Merges r (s ∷ rs) = elim (Option-cases (merge_without_inflation r s)) [
    | inr (m, merged) ↦
        rw (merged, merge_with)
          (
            ap (λ b. b || covered rs px py) (merge_without_inflation-covers r s m px py merged)
                ∙ or_assoc (covers r px py) (covers s px py) (covered rs px py),
            refl,
          )
    | inl kept ↦ elim (Option-cases (merge_with r rs)) [
      | inl none_found ↦ rw (kept, none_found, merge_with) tt
      | inr ((m, rest), found) ↦
          let ih : Merges (r ∷ rs) (some (m ∷ rest)) = rw found at (merge_with-Merges r rs) in
          rw (kept, found, merge_with)
            (
              or_swap (covers m px py) (covers s px py) (covered rest px py)
                  ∙ ap (λ b. covers s px py || b) ih.0
                  ∙ or_swap (covers s px py) (covers r px py) (covered rs px py),
              omega (arith, ih.1),
            )
    ]
  ]

  merge_once-Merges : (rs : List DamageRegion) → Merges rs (merge_once rs)
  unfolding merge_once
  merge_once-Merges [] = tt
  merge_once-Merges (r ∷ rs) = elim (Option-cases (merge_with r rs)) [
    | inr ((m, rest), found) ↦
        let ih : Merges (r ∷ rs) (some (m ∷ rest)) = rw found at (merge_with-Merges r rs) in
        rw (found, merge_once) ih
    | inl none_found ↦ elim (Option-cases (merge_once rs)) [
      | inl done ↦ rw (none_found, done, merge_once) tt
      | inr (rest, found) ↦
          let ih : Merges rs (some rest) = rw found at (merge_once-Merges rs) in
          rw (none_found, found, merge_once)
            (ap (λ b. covers r px py || b) ih.0, omega (arith, ih.1))
    ]
  ]

  merge_rounds-covered :
      (fuel : ℕ) (rs : List DamageRegion) → covered (merge_rounds fuel rs) px py ≡ covered rs px py
  unfolding merge_rounds
  merge_rounds-covered zero rs = refl
  merge_rounds-covered (suc fuel) rs = elim (Option-cases (merge_once rs)) [
    | inl done ↦ rw (done, merge_rounds)
    | inr (rs', found) ↦
        let m : Merges rs (some rs') = rw found at (merge_once-Merges rs) in
        rw (found, merge_rounds) (merge_rounds-covered fuel rs' ∙ m.0)
  ]

  insert_region-covered :
      (r : DamageRegion) (rs : List DamageRegion)
      → covered (insert_region r rs) px py ≡ covered (r ∷ rs) px py
  insert_region-covered r [] = refl
  insert_region-covered r (s ∷ rs) = elim (Bool-cases (is_before r s)) [
    | inl first ↦ rw first
    | inr later ↦ rw later (
        ap (λ b. covers s px py || b) (insert_region-covered r rs)
        ∙ or_swap (covers s px py) (covers r px py) (covered rs px py))
  ]

  sort_regions-covered :
      (rs : List DamageRegion) → covered (sort_regions rs) px py ≡ covered rs px py
  sort_regions-covered [] = refl
  sort_regions-covered (r ∷ rs) =
      insert_region-covered r (sort_regions rs)
      ∙ ap (λ b. covers r px py || b) (sort_regions-covered rs)

  -- `normalizeDamage` leaves the pixels covered exactly as they were.
  pub normalize_damage-covered :
      (rs : List DamageRegion) → covered (normalize_damage rs) px py ≡ covered rs px py
  unfolding normalize_damage
  normalize_damage-covered rs =
      sort_regions-covered (merge_rounds (length rs) rs) ∙ merge_rounds-covered (length rs) rs

-- When no merge is found there is none.
merge_with-none :
    (r : DamageRegion) (rs : List DamageRegion)
    → merge_with r rs ≡ none
    → All (λ (s : DamageRegion). merge_without_inflation r s ≡ none) rs
unfolding merge_with
merge_with-none r [] e = tt
merge_with-none r (s ∷ rs) e = elim (Option-cases (merge_without_inflation r s)) [
  | inr (m, merged) ↦ absurd (some-none (rw (merged, merge_with) at e))
  | inl kept ↦ elim (Option-cases (merge_with r rs)) [
    | inl none_found ↦ (kept, merge_with-none r rs none_found)
    | inr ((m, rest), found) ↦ absurd (some-none (rw (kept, found, merge_with) at e))
  ]
]
  where
    some-none : {a : DamageRegion × List DamageRegion} → some a ≢ none
    some-none h = ground arith

merge_once-none : (rs : List DamageRegion) → merge_once rs ≡ none → IsUnmergeable rs
unfolding merge_once
merge_once-none [] e = tt
merge_once-none (r ∷ rs) e = elim (Option-cases (merge_with r rs)) [
  | inr ((m, rest), found) ↦ absurd (some-none (rw (found, merge_once) at e))
  | inl none_found ↦ elim (Option-cases (merge_once rs)) [
    | inl done ↦ (merge_with-none r rs none_found, merge_once-none rs done)
    | inr (rest, found) ↦ absurd (some-none (rw (none_found, found, merge_once) at e))
  ]
]
  where
    some-none : {a : List DamageRegion} → some a ≢ none
    some-none h = ground arith

-- With a round for each region the loop ends by its test.
merge_rounds-IsUnmergeable :
    (fuel : ℕ) (rs : List DamageRegion) → length rs ≤ fuel → IsUnmergeable (merge_rounds fuel rs)
unfolding merge_rounds
merge_rounds-IsUnmergeable zero [] h = tt
merge_rounds-IsUnmergeable zero (r ∷ rs) h = absurd (omega arith)
merge_rounds-IsUnmergeable (suc fuel) rs h = elim (Option-cases (merge_once rs)) [
  | inl done ↦ rw (done, merge_rounds) (merge_once-none rs done)
  | inr (rs', found) ↦
      let m : Merges 0 0 rs (some rs') = rw found at (merge_once-Merges 0 0 rs) in
      rw (found, merge_rounds) (merge_rounds-IsUnmergeable fuel rs' (omega (arith, m.1)))
]

merge-symmetric :
    (r s : DamageRegion) → merge_without_inflation r s ≡ none → merge_without_inflation s r ≡ none
unfolding merge_without_inflation
merge-symmetric r s h = ground arith

-- Insertion and a property of every region.
All-insert_region :
    (P : DamageRegion → Type 0) (r : DamageRegion) (rs : List DamageRegion)
    → P r
    → All P rs
    → All P (insert_region r rs)
All-insert_region P r [] h k = (h, tt)
All-insert_region P r (s ∷ rs) h k = elim (Bool-cases (is_before r s)) [
  | inl first ↦ rw first (h, k)
  | inr later ↦ rw later (k.0, All-insert_region P r rs h k.1)
]

All-map :
    (P Q : DamageRegion → Type 0)
    → ((s : DamageRegion) → P s → Q s)
    → (rs : List DamageRegion) → All P rs
    → All Q rs
All-map P Q f [] h = tt
All-map P Q f (r ∷ rs) h = (f r h.0, All-map P Q f rs h.1)

All-sort_regions :
    (P : DamageRegion → Type 0) (rs : List DamageRegion) → All P rs → All P (sort_regions rs)
All-sort_regions P [] h = tt
All-sort_regions P (r ∷ rs) h =
    All-insert_region P r (sort_regions rs) h.0 (All-sort_regions P rs h.1)

insert_region-IsUnmergeable :
    (r : DamageRegion) (rs : List DamageRegion)
    → All (λ (s : DamageRegion). merge_without_inflation r s ≡ none) rs
    → IsUnmergeable rs
    → IsUnmergeable (insert_region r rs)
insert_region-IsUnmergeable r [] h k = (tt, tt)
insert_region-IsUnmergeable r (s ∷ rs) h k = elim (Bool-cases (is_before r s)) [
  | inl first ↦ rw first (h, k)
  | inr later ↦ rw later (
    All-insert_region (λ t. merge_without_inflation s t ≡ none) r rs (merge-symmetric r s h.0) k.0,
    insert_region-IsUnmergeable r rs h.1 k.1,
  )
]

sort_regions-IsUnmergeable :
    (rs : List DamageRegion) → IsUnmergeable rs → IsUnmergeable (sort_regions rs)
sort_regions-IsUnmergeable [] h = tt
sort_regions-IsUnmergeable (r ∷ rs) h =
    insert_region-IsUnmergeable r (sort_regions rs)
      (All-sort_regions (λ s. merge_without_inflation r s ≡ none) rs h.0)
      (sort_regions-IsUnmergeable rs h.1)

is_before_asymmetric : (r s : DamageRegion) → is_before r s ≡ true → is_before s r ≡ false
is_before_asymmetric r s h = ground arith

is_before_trans :
    (r s t : DamageRegion) → is_before r s ≡ true → is_before t s ≡ false → is_before t r ≡ false
is_before_trans r s t h k = ground arith

insert_region-IsOrdered :
    (r : DamageRegion) (rs : List DamageRegion) → IsOrdered rs → IsOrdered (insert_region r rs)
insert_region-IsOrdered r [] k = (tt, tt)
insert_region-IsOrdered r (s ∷ rs) k = elim (Bool-cases (is_before r s)) [
  | inl first ↦ rw first (
    (
      is_before_asymmetric r s first,
      All-map (λ t. is_before t s ≡ false) (λ t. is_before t r ≡ false)
          (λ t. is_before_trans r s t first) rs k.0,
    ),
    k,
  )
  | inr later ↦ rw later (
    All-insert_region (λ t. is_before t s ≡ false) r rs later k.0,
    insert_region-IsOrdered r rs k.1,
  )
]

sort_regions-IsOrdered : (rs : List DamageRegion) → IsOrdered (sort_regions rs)
sort_regions-IsOrdered [] = tt
sort_regions-IsOrdered (r ∷ rs) =
    insert_region-IsOrdered r (sort_regions rs) (sort_regions-IsOrdered rs)

-- `normalizeDamage` comes to its end, for every list of regions: in what it leaves no two regions can be
-- merged, the regions are in the order of their rows and then of their columns, and a pixel is covered
-- exactly if it was.
pub normalize_damage_lem :
    (rs : List DamageRegion)
    → IsUnmergeable (normalize_damage rs)
      × IsOrdered (normalize_damage rs)
      × ((px py : ℕ) → covered (normalize_damage rs) px py ≡ covered rs px py)
unfolding normalize_damage
normalize_damage_lem rs =
    let merged = merge_rounds (length rs) rs in
    (
      sort_regions-IsUnmergeable merged (merge_rounds-IsUnmergeable (length rs) rs (omega arith)),
      sort_regions-IsOrdered merged,
      λ px py. normalize_damage-covered px py rs,
    )
