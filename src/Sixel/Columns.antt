-- ===== src/Sixel/Columns.antt =====
-- Columns of a band, each with its own mask, as the decoder paints them.
use rasterm.Base.{
  ℕ, zero, suc, ◌+◌, ◌-◌, ◌≤◌, ◌≡◌, refl, sym, ap, ◌∙◌, inl, inr, ◌&&◌, some, ◌==◌, ltb, leb,
  if◌then◌else◌, Bool-cases, arith,
}
use rasterm.Sixel.{extend_run}
use rasterm.Sixel.Decoder.{
  Screen, IsReady, paint, paint-paint, IsReady-paint, test_bit, picture-paint, column-paint,
  row-paint, color-paint,
}

-- The columns from `x` on, `n` of them, each with its own mask.
unfoldable pub paint_each : (ℕ → ℕ) → ℕ → ℕ → Screen → Screen
paint_each masks x zero s = s
paint_each masks x (suc n) s = paint_each masks (suc x) n (paint 1 (masks x) s)

pub paint_each-add :
    (masks : ℕ → ℕ) (x m n : ℕ) (s : Screen)
    → paint_each masks (x + m) n (paint_each masks x m s) ≡ paint_each masks x (m + n) s
unfolding paint_each
paint_each-add masks x zero n s =
    let e : x + zero ≡ x = omega arith in let e' : zero + n ≡ n = omega arith in rw (e, e')
paint_each-add masks x (suc m) n s =
    let e : x + suc m ≡ suc x + m = omega arith in
    let e' : suc m + n ≡ suc (m + n) = omega arith in
    rw (e, e') (paint_each-add masks (suc x) m n (paint 1 (masks x) s))

-- The columns of a run all have the mask of its first.
unfoldable pub SameMask : (ℕ → ℕ) → ℕ → ℕ → ℕ → Type 0
SameMask masks bits x zero = Unit {0}
SameMask masks bits x (suc n) = (masks x ≡ bits) × SameMask masks bits (suc x) n

pub paint_run :
    (masks : ℕ → ℕ) (bits x n : ℕ) (s : Screen)
    → SameMask masks bits x (suc n)
    → paint_each masks x (suc n) s ≡ paint (suc n) bits s
unfolding paint_each SameMask
paint_run masks bits x zero s h = ap (λ b. paint 1 b s) h.0
paint_run masks bits x (suc n) s h =
    ap (λ b. paint_each masks (suc x) (suc n) (paint 1 b s)) h.0
    ∙ paint_run masks bits (suc x) n (paint 1 bits s) h.1
    ∙ paint-paint 1 (suc n) bits s
    ∙ ap (λ k. paint k bits s) (omega arith)

SameMask-snoc :
    (masks : ℕ → ℕ) (bits x n : ℕ)
    → SameMask masks bits x n
    → masks (x + n) ≡ bits
    → SameMask masks bits x (suc n)
unfolding SameMask
SameMask-snoc masks bits x zero h e = (ap masks (omega arith) ∙ e, tt)
SameMask-snoc masks bits x (suc n) h e =
    (h.0, SameMask-snoc masks bits (suc x) n h.1 (ap masks (omega arith) ∙ e))

-- The inner loop finds a run of equal masks within the columns that are left.
pub extend_run_lem :
    (left : ℕ) (masks : ℕ → ℕ) (x run : ℕ)
    → SameMask masks (masks x) x run
    → let r = extend_run left masks x run in
      (run ≤ r) × (r ≤ run + left) × SameMask masks (masks x) x r
unfolding extend_run
extend_run_lem zero masks x run h = (omega arith, omega arith, h)
extend_run_lem (suc left) masks x run h = elim (Bool-cases (masks (x + run) == masks x)) [
  | inl more ↦
      let r =
        extend_run_lem left masks x (suc run)
          (SameMask-snoc masks (masks x) x run h (ground arith)) in
      rw (more, extend_run) (omega (arith, r.0), omega (arith, r.1), r.2)
  | inr stop ↦ rw (stop, extend_run) (omega arith, omega arith, h)
]

pub IsReady-paint_each :
    (masks : ℕ → ℕ) (x n : ℕ) (s : Screen) → IsReady s → IsReady (paint_each masks x n s)
unfolding paint_each
IsReady-paint_each masks x zero s h = h
IsReady-paint_each masks x (suc n) s h =
    IsReady-paint_each masks (suc x) n (paint 1 (masks x) s) (IsReady-paint 1 (masks x) s)

-- What columns drawn from `x0` on look like, pixel by pixel.
pub picture-paint_each :
    (masks : ℕ → ℕ) (x0 n : ℕ) (s : Screen) (x y : ℕ)
    → s.column ≡ x0
    → (paint_each masks x0 n s).picture x y ≡ (
        if (leb x0 x && ltb x (x0 + n))
          && ((leb s.row y && ltb y (s.row + 6)) && test_bit (masks x) (y - s.row))
        then some s.color
        else s.picture x y)
unfolding paint_each
picture-paint_each masks x0 zero s x y e = ground arith
picture-paint_each masks x0 (suc n) s x y e =
    let s1 = paint 1 (masks x0) s in
    ground (
      arith,
      picture-paint_each masks (suc x0) n s1 x y
          (column-paint 1 (masks x0) s ∙ ap (λ k. k + 1) e ∙ omega arith),
      picture-paint 1 (masks x0) s x y,
      row-paint 1 (masks x0) s,
      color-paint 1 (masks x0) s,
      masks_at,
    )
  where
    masks_at : x ≡ x0 → test_bit (masks x0) (y - s.row) ≡ test_bit (masks x) (y - s.row)
    masks_at h = ap (λ k. test_bit (masks k) (y - s.row)) (sym h)

pub row-paint_each : (masks : ℕ → ℕ) (x n : ℕ) (s : Screen) → (paint_each masks x n s).row ≡ s.row
unfolding paint_each
row-paint_each masks x zero s = refl
row-paint_each masks x (suc n) s =
    row-paint_each masks (suc x) n (paint 1 (masks x) s) ∙ row-paint 1 (masks x) s
