-- ===== src/Damage/Merge.antt =====
-- Merging strips that stand on each other changes no pixel of what they cover.
use rasterm.Base.{
  ℕ, zero, suc, ◌+◌, ◌≡◌, refl, ap, ◌∙◌, true, ◌||◌, List, [], ◌∷◌, Bool-cases, inl, inr, length,
  arith,
}
use rasterm.Damage.Rect.{
  DamageRegion, covers, covered, stands_on, merge_into, merge_loop, merge_all,
}

-- Two regions of which the second stands on the first make one.
stands_on-covers :
    (r s : DamageRegion) (px py : ℕ)
    → stands_on r s ≡ true
    → covers (record r { height = r.height + s.height }) px py ≡ (covers r px py || covers s px py)
stands_on-covers r s px py h = ground arith

merge_into-covered :
    (r : DamageRegion) (rs : List DamageRegion) (px py : ℕ)
    → let (r', rs') = merge_into r rs in
      (covers r' px py || covered rs' px py) ≡ (covers r px py || covered rs px py)
unfolding merge_into
merge_into-covered r [] px py = refl
merge_into-covered r (s ∷ rs) px py = elim (Bool-cases (stands_on r s)) [
  | inl taken ↦
      let r1 = record r { height = r.height + s.height } in
      rw (taken, merge_into)
        (ground (arith, merge_into-covered r1 rs px py, stands_on-covers r s px py))
  | inr kept ↦ rw (kept, merge_into) (ground (arith, merge_into-covered r rs px py))
]

merge_loop-covered :
    (fuel : ℕ) (rs : List DamageRegion) (px py : ℕ)
    → covered (merge_loop fuel rs) px py ≡ covered rs px py
unfolding merge_loop
merge_loop-covered zero rs px py = refl
merge_loop-covered (suc fuel) [] px py = refl
merge_loop-covered (suc fuel) (r ∷ rs) px py =
    let m = merge_into r rs in
    ap (λ b. covers m.0 px py || b) (merge_loop-covered fuel m.1 px py)
    ∙ merge_into-covered r rs px py

pub merge_all-covered :
    (rs : List DamageRegion) (px py : ℕ) → covered (merge_all rs) px py ≡ covered rs px py
unfolding merge_all
merge_all-covered rs px py = merge_loop-covered (length rs) rs px py
