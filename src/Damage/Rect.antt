-- ===== src/Damage/Rect.antt =====
-- `DamageRegion`, and the merging of strips that stand on each other.
use rasterm.Base.{
  ℕ, zero, suc, ◌+◌, Bool, true, false, ◌&&◌, ◌||◌, List, [], ◌∷◌, leb, ltb, ◌==◌, length,
}

pub record DamageRegion : Type 0 where
  pub x : ℕ
  pub y : ℕ
  pub width : ℕ
  pub height : ℕ

abbrev pub is_valid : DamageRegion → Bool
is_valid r = ltb 0 r.width && ltb 0 r.height

abbrev pub no_region : DamageRegion
no_region = record { x = 0; y = 0; width = 0; height = 0 }

-- Whether a pixel lies in a region, and in one of several.
abbrev pub covers : DamageRegion → ℕ → ℕ → Bool
covers r px py = (leb r.x px && ltb px (r.x + r.width)) && (leb r.y py && ltb py (r.y + r.height))

abbrev pub covered : List DamageRegion → ℕ → ℕ → Bool
covered [] px py = false
covered (r ∷ rs) px py = covers r px py || covered rs px py

-- The condition of the merge loop.
abbrev pub stands_on : DamageRegion → DamageRegion → Bool
stands_on r s = (r.x == s.x) && ((r.width == s.width) && (r.y + r.height == s.y))

-- The inner loop: `regions[i]` takes in each later region that stands on it, which is erased.
unfoldable pub merge_into : DamageRegion → List DamageRegion → DamageRegion × List DamageRegion
merge_into r [] = (r, [])
merge_into r (s ∷ rs) = elim (stands_on r s) [
  | true ↦ merge_into (record r { height = r.height + s.height }) rs
  | false ↦ let (r', rs') = merge_into r rs in (r', s ∷ rs')
]

-- The outer loop. It visits at most each region, so their number of rounds is enough.
unfoldable pub merge_loop : ℕ → List DamageRegion → List DamageRegion
merge_loop zero rs = rs
merge_loop (suc fuel) [] = []
merge_loop (suc fuel) (r ∷ rs) = let (r', rs') = merge_into r rs in r' ∷ merge_loop fuel rs'

unfoldable pub merge_all : List DamageRegion → List DamageRegion
unfolding merge_loop merge_into
merge_all rs = merge_loop (length rs) rs
