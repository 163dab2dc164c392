-- ===== src/Sixel/Indexed/Scan.antt =====
-- What a band's scan leaves in the vectors, after any set `seen` of its pixels.
use rasterm.Base.{
  ℕ, zero, suc, ◌+◌, ◌-◌, ◌*◌, ◌^◌, ◌≤◌, ◌<◌, ◌≡◌, refl, ap, ◌∙◌, ◌≢◌, Bool, true, false, ◌&&◌,
  ◌||◌, none, some, ◌==◌, ltb, length, get_elem?, get_elem?-snoc, get_elem?-lt, Option-cases, inl,
  inr, holds_to, holds_at, arith,
}
use Prim.Native.Nat.{bit_or}
use mathlib.Core.Path.{fun_ext, subst}
use rasterm.Sixel.Decoder.{test_bit}
use rasterm.Sixel.Indexed.{
  Scratch, clear_band, open_slot, widen, set_bit, mark_at, mark_pixel, scan_row, scan_rows,
}

abbrev same_bit : Bool → Bool → Bool
same_bit true b = b
same_bit false true = false
same_bit false false = true

same_bit_sound : (a b : Bool) → same_bit a b ≡ true → a ≡ b
same_bit_sound true true h = refl
same_bit_sound true false h = cc
same_bit_sound false true h = cc
same_bit_sound false false h = refl

abbrev or_row : ℕ → ℕ → ℕ → Bool
or_row m k j = same_bit (test_bit (bit_or m (2 ^ k)) j) (test_bit m j || (j == k))

or_table : holds_to (λ m. holds_to (λ k. holds_to (or_row m k) 5) 5) 63 ≡ true
unfolding holds_to
or_table = refl

test_bit-bit_or :
    (m k j : ℕ)
    → m < 64
    → k < 6
    → j < 6
    → test_bit (bit_or m (2 ^ k)) j ≡ (test_bit m j || (j == k))
test_bit-bit_or m k j hm hk hj =
    let of_mask =
      holds_at (λ m. holds_to (λ k. holds_to (or_row m k) 5) 5) m 63 (omega arith) or_table in
    let of_bit = holds_at (λ k. holds_to (or_row m k) 5) k 5 (omega arith) of_mask in
    same_bit_sound _ _ (holds_at (or_row m k) j 5 (omega arith) of_bit)

or_bound : holds_to (λ m. holds_to (λ k. ltb (bit_or m (2 ^ k)) 64) 5) 63 ≡ true
unfolding holds_to
or_bound = refl

bit_or-lt : (m k : ℕ) → m < 64 → k < 6 → bit_or m (2 ^ k) < 64
bit_or-lt m k hm hk =
    let of_mask =
      holds_at (λ m. holds_to (λ k. ltb (bit_or m (2 ^ k)) 64) 5) m 63 (omega arith) or_bound in
    let of_bit = holds_at (λ k. ltb (bit_or m (2 ^ k)) 64) k 5 (omega arith) of_mask in
    ground (arith, of_bit)

-- Each colour seen has one slot, its mask has exactly the pixels seen in that colour, and these lie
-- between its first and its last column.
pub record Scanned (pixel : ℕ → ℕ → ℕ) (seen : ℕ → ℕ → Bool) (b : Scratch) : Type 0 where
  pub found : (c i : ℕ) → b.color_slot c ≡ some i → get_elem? b.colors_in_band i ≡ some c
  pub listed : (c i : ℕ) → get_elem? b.colors_in_band i ≡ some c → b.color_slot c ≡ some i
  pub six : (c i x : ℕ) → b.color_slot c ≡ some i → b.band_masks i x < 64
  pub bits :
      (c i x k : ℕ)
      → b.color_slot c ≡ some i
      → k < 6
      → test_bit (b.band_masks i x) k ≡ (seen x k && (pixel x k == c))
  pub ordered : (c i : ℕ) → b.color_slot c ≡ some i → b.first_column c ≤ b.last_column c
  pub spans :
      (c i x k : ℕ)
      → b.color_slot c ≡ some i
      → seen x k ≡ true
      → k < 6
      → pixel x k ≡ c
      → (b.first_column c ≤ x) × (x ≤ b.last_column c)
  pub covered : (x k : ℕ) → seen x k ≡ true → k < 6 → b.color_slot (pixel x k) ≢ none

abbrev pub and_also : (ℕ → ℕ → Bool) → ℕ → ℕ → ℕ → ℕ → Bool
and_also seen x0 k0 x k = seen x k || ((x == x0) && (k == k0))

clear_band-Scanned : (pixel : ℕ → ℕ → ℕ) (b : Scratch) → Scanned pixel (λ x k. false) (clear_band b)
unfolding clear_band
clear_band-Scanned pixel b = record {
  found = λ c i h. cc;
  listed = λ c i h. cc;
  six = λ c i x h. cc;
  bits = λ c i x k h. cc;
  ordered = λ c i h. cc;
  spans = λ c i x k h. cc;
  covered = λ x k h. cc;
}

module _ (pixel : ℕ → ℕ → ℕ) (seen : ℕ → ℕ → Bool) (b : Scratch) (x0 k0 : ℕ)
    (s : Scanned pixel seen b) (in_band : k0 < 6) where
  open_slot-Scanned :
      b.color_slot (pixel x0 k0) ≡ none
      → Scanned pixel
          (and_also seen x0 k0)
          (set_bit (length b.colors_in_band) x0 k0 (open_slot (pixel x0 k0) x0 b))
  unfolding open_slot set_bit
  open_slot-Scanned fresh = record {
    found = λ c i h. ground (
      arith,
      s.found c i,
      get_elem?-snoc b.colors_in_band (pixel x0 k0) i,
      get_elem?-lt b.colors_in_band i c,
    );
    listed = λ c i h. ground (arith, s.listed c i, get_elem?-snoc b.colors_in_band (pixel x0 k0) i);
    six = λ c i x h.
        ground (arith, s.six c i x, bit_or-lt 0 k0, s.found c i, get_elem?-lt b.colors_in_band i c);
    bits = λ c i x k h in_range. ground (
      arith,
      s.bits c i x k,
      test_bit-bit_or 0 k0 k,
      s.found c i,
      get_elem?-lt b.colors_in_band i c,
      s.covered x k,
    );
    ordered = λ c i h. ground (arith, s.ordered c i);
    spans = λ c i x k h sn lt e. ground (arith, s.spans c i x k, s.covered x k);
    covered = λ x k h lt e. ground (arith, s.covered x k);
  }

  widen-Scanned :
      (slot : ℕ)
      → b.color_slot (pixel x0 k0) ≡ some slot
      → Scanned pixel (and_also seen x0 k0) (set_bit slot x0 k0 (widen (pixel x0 k0) x0 b))
  unfolding widen set_bit
  widen-Scanned slot old = record {
    found = s.found;
    listed = s.listed;
    six = λ c i x h. ground (arith, s.six c i x, bit_or-lt (b.band_masks slot x0) k0);
    bits = λ c i x k h in_range. ground (
      arith,
      s.bits c i x k,
      test_bit-bit_or (b.band_masks slot x0) k0 k,
      s.six c i x0,
      s.found c i,
      s.found (pixel x0 k0) slot,
    );
    ordered = λ c i h. ground (arith, s.ordered c i);
    spans = λ c i x k h sn lt e. ground (arith, s.spans c i x k);
    covered = λ x k h lt e. ground (arith, s.covered x k);
  }

  mark_pixel-Scanned : Scanned pixel (and_also seen x0 k0) (mark_pixel (pixel x0 k0) x0 k0 b)
  unfolding mark_pixel mark_at
  mark_pixel-Scanned = elim (Option-cases (b.color_slot (pixel x0 k0))) [
    | inl fresh ↦ rw (fresh, mark_at) (open_slot-Scanned fresh)
    | inr (slot, old) ↦ rw (old, mark_at) (widen-Scanned slot old)
  ]

-- The pixels before column `x` of row `k`, in the order of the scan.
abbrev before : ℕ → ℕ → ℕ → ℕ → ℕ → Bool
before width k x x' k' = ltb x' width && (ltb k' k || ((k' == k) && ltb x' x))

before-mark : (width k x : ℕ) → x < width → and_also (before width k x) x k ≡ before width k (suc x)
before-mark width k x lt = fun_ext λ x'. fun_ext λ k'. ground arith

before-row : (width k : ℕ) → before width k width ≡ before width (suc k) 0
before-row width k = fun_ext λ x'. fun_ext λ k'. ground arith

scan_row-Scanned :
    (pixel : ℕ → ℕ → ℕ) (width k left x : ℕ) (b : Scratch)
    → x + left ≡ width
    → k < 6
    → Scanned pixel (before width k x) b
    → Scanned pixel (before width (suc k) 0) (scan_row left (λ x. pixel x k) x k b)
unfolding scan_row
scan_row-Scanned pixel width k zero x b e lt s =
    let all : x ≡ width = omega arith in
    subst (λ d. Scanned pixel d b) (ap (before width k) all ∙ before-row width k) s
scan_row-Scanned pixel width k (suc left) x b e lt s =
    scan_row-Scanned pixel width k left (suc x) (mark_pixel (pixel x k) x k b) (omega arith) lt (
      subst (λ d. Scanned pixel d (mark_pixel (pixel x k) x k b))
        (before-mark width k x (omega arith))
        (mark_pixel-Scanned pixel (before width k x) b x k s lt))

-- The pixel in column `x` of row `k` of the band.
abbrev pub band_pixel : (ℕ → ℕ) → ℕ → ℕ → ℕ → ℕ → ℕ
band_pixel indices width band x k = indices ((band + k) * width + x)

scan_rows-from :
    (indices : ℕ → ℕ) (width band left k : ℕ) (b : Scratch)
    → k + left ≤ 6
    → Scanned (band_pixel indices width band) (before width k 0) b
    → Scanned
        (band_pixel indices width band)
        (before width (k + left) 0)
        (scan_rows left indices width band (band + k) b)
unfolding scan_rows
scan_rows-from indices width band zero k b le s =
    let e : k ≡ k + zero = omega arith in
    subst (λ n. Scanned (band_pixel indices width band) (before width n 0) b) e s
scan_rows-from indices width band (suc left) k b le s =
    let row : band + k - band ≡ k = omega arith in
    let below : suc (band + k) ≡ band + suc k = omega arith in
    let total : k + suc left ≡ suc k + left = omega arith in
    rw (row, below, total)
      (scan_rows-from indices width band left (suc k) _ (omega arith) (
        scan_row-Scanned (band_pixel indices width band) width k width 0 b (omega arith)
          (omega arith) s))

-- The pixels of a band of `rows` rows.
abbrev pub in_rows : ℕ → ℕ → ℕ → ℕ → Bool
in_rows width rows x k = ltb x width && ltb k rows

pub scan_rows-Scanned :
    (indices : ℕ → ℕ) (width band rows : ℕ) (b : Scratch)
    → rows ≤ 6
    → Scanned
        (band_pixel indices width band)
        (in_rows width rows)
        (scan_rows rows indices width band band (clear_band b))
scan_rows-Scanned indices width band rows b le =
    let start : band + 0 ≡ band = omega arith in
    subst
      (λ d.
        Scanned (band_pixel indices width band) d
          (scan_rows rows indices width band band (clear_band b)))
      whole
      (subst
        (λ n.
          Scanned (band_pixel indices width band) (before width (0 + rows) 0)
            (scan_rows rows indices width band n (clear_band b)))
        start
        (scan_rows-from indices width band rows 0 (clear_band b) (omega arith) (
          subst (λ d. Scanned (band_pixel indices width band) d (clear_band b)) none_seen
            (clear_band-Scanned (band_pixel indices width band) b))))
  where
    none_seen : ◌≡◌ {A = ℕ → ℕ → Bool} (λ x k. false) (before width 0 0)
    none_seen = fun_ext λ x. fun_ext λ k. ground arith

    whole : before width (0 + rows) 0 ≡ in_rows width rows
    whole = fun_ext λ x. fun_ext λ k. ground arith
