-- ===== src/Presenter/Regions.antt =====
-- The damage rectangles of a frame that replaces another one.
use rasterm.Base.{◌≡◌, Bool, true, not, ◌||◌, ◌&&◌}
use rasterm.Presenter.State.{View, Presenter, has_pending}
use rasterm.Presenter.Submit.{merge_pending_damage, is_compatible}

-- The rectangles that wait after `q`, from those of `p` and of the frame.
record IsMerged (v : View) (p q : Presenter) : Type 0 where
  damage :
      q.waiting_slot.damage
      ≡ (merge_pending_damage true v (has_pending p) (is_compatible v p) p.waiting_slot).damage
  supplied :
      q.waiting_slot.damage_supplied
      ≡ (merge_pending_damage true v
          (has_pending p)
          (is_compatible v p)
          p.waiting_slot).damage_supplied

-- Whether the damage of both frames is known: damage is supplied for the new one, and, if it replaces
-- another, for that one too, and both have one size.
abbrev pub is_known : View → Presenter → Bool
is_known v p =
    v.damage_supplied
    && (not (has_pending p) || (is_compatible v p && p.waiting_slot.damage_supplied))
