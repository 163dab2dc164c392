-- ===== src/Encoder/Palette/Used.antt =====
-- The colours that a frame uses.
use mathlib.Core.Path.{fun_ext}
use rasterm.Base.{
  ℕ, zero, suc, ◌+◌, ◌<◌, ◌≡◌, refl, sym, ap, ◌∙◌, inl, inr, Bool, true, false, ◌||◌, ltb, ◌==◌,
  if◌then◌else◌, Bool-cases, update, arith,
}
use rasterm.Encoder.Palette.{FastColorMapper, reset, use_color, use_colors}

-- How many of the registers below `n` are used.
pub used_below : ℕ → (ℕ → Bool) → ℕ
used_below zero used = 0
used_below (suc n) used = used_below n used + (if used n then 1 else 0)

used_below-update :
    (n color : ℕ) (used : ℕ → Bool)
    → used color ≡ false
    → used_below n (update used color true) ≡ used_below n used + (if ltb color n then 1 else 0)
unfolding used_below
used_below-update zero color used h = ground arith
used_below-update (suc n) color used h = ground (arith, used_below-update n color used h)

use_color_lem :
    (limit color : ℕ) (m : FastColorMapper)
    → color < limit
    → m.used_color_count ≡ used_below limit m.color_used
    → ((use_color color m).used_color_count ≡ used_below limit (use_color color m).color_used)
      × ((c : ℕ) → (use_color color m).color_used c ≡ ((c == color) || m.color_used c))
unfolding use_color
use_color_lem limit color m lt h = elim (Bool-cases (m.color_used color)) [
  | inl before ↦ rw before (h, λ c. ground (arith, ap m.color_used))
  | inr first ↦
      rw first (ground (arith, used_below-update limit color m.color_used first), λ c. ground arith)
]

-- Whether one of the pixels from `pixel` on has the colour.
pub shows : ℕ → ℕ → (ℕ → ℕ) → ℕ → Bool
shows zero pixel indices color = false
shows (suc left) pixel indices color =
    (color == indices pixel) || shows left (suc pixel) indices color

use_colors-from :
    (limit left pixel : ℕ) (indices : ℕ → ℕ) (m : FastColorMapper)
    → ((p : ℕ) → indices p < limit)
    → m.used_color_count ≡ used_below limit m.color_used
    → ((use_colors left pixel indices m).used_color_count
        ≡ used_below limit (use_colors left pixel indices m).color_used)
      × ((c : ℕ)
          → (use_colors left pixel indices m).color_used c
            ≡ (shows left pixel indices c || m.color_used c))
unfolding use_colors shows
use_colors-from limit zero pixel indices m inside h = (h, λ c. refl)
use_colors-from limit (suc left) pixel indices m inside h =
    let now = use_color_lem limit (indices pixel) m (inside pixel) h in
    let rest =
      use_colors-from limit left (suc pixel) indices (use_color (indices pixel) m) inside now.0 in
    (rest.0, λ c. ground (arith, rest.1 c, now.1 c))

used_below-none : (n : ℕ) → used_below n (λ c. false) ≡ 0
unfolding used_below
used_below-none zero = refl
used_below-none (suc n) = omega (arith, used_below-none n)

-- After the loop over a frame's pixels the colours noted as used are exactly those that some pixel
-- shows, and their count is their number, where the indices are registers below the limit.
pub use_colors-reset :
    (limit pixels : ℕ) (indices : ℕ → ℕ) (m : FastColorMapper)
    → ((p : ℕ) → indices p < limit)
    → ((use_colors pixels 0 indices (reset m)).used_color_count
        ≡ used_below limit (shows pixels 0 indices))
      × ((c : ℕ) → (use_colors pixels 0 indices (reset m)).color_used c ≡ shows pixels 0 indices c)
unfolding reset
use_colors-reset limit pixels indices m inside =
    let r = use_colors-from limit pixels 0 indices (reset m) inside (sym (used_below-none limit)) in
    let used : (c : ℕ)
        → (use_colors pixels 0 indices (reset m)).color_used c ≡ shows pixels 0 indices c =
      λ c. r.1 c ∙ ground arith in
    (r.0 ∙ ap (used_below limit) (fun_ext used), used)
