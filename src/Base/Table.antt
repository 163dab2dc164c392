-- ===== src/Base/Table.antt =====
-- A Boolean test that evaluation finds true from 0 up to a number.
use Prim.Native.Nat.{ℕ, zero, suc, ◌≤◌}
use mathlib.Core.Path.{◌≡◌}
use mathlib.Core.Bool.{Bool, true, ◌&&◌}
use native.Mathlib.Omega.{arith}

module _ (test : ℕ → Bool) where
  unfoldable pub holds_to : ℕ → Bool
  holds_to zero = test 0
  holds_to (suc top) = holds_to top && test (suc top)

  pub holds_at : (k top : ℕ) → k ≤ top → holds_to top ≡ true → test k ≡ true
  unfolding holds_to
  holds_at zero zero le h = h
  holds_at (suc k) zero le h = absurd (omega arith)
  holds_at k (suc top) le h = ground (arith, holds_at k top)
