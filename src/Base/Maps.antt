-- ===== src/Base/Maps.antt =====
-- Arrays that are only read and written at an index, as functions.
use Prim.Native.Nat.{ℕ}
use rasterm.Base.Tests.{◌==◌, if◌then◌else◌}

module _ {ℓ} {A : Type ℓ} where
  -- `slots[place] = v`.
  abbrev pub update : (slots : ℕ → A) (place : ℕ) (v : A) → ℕ → A
  update slots place v k = if k == place then v else slots k
