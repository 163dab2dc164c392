-- ===== src/Sixel/Decoder.antt =====
-- What a terminal makes of the bytes of a SIXEL image: an independent reading of the format, against
-- which the writer is proved. `#n` selects a register, `!n` repeats the next column, a byte from `?`
-- to `~` draws a column of six pixels, `$` returns to the left edge and `-` goes to the next band.
use rasterm.Base.{
  ℕ, ◌+◌, ◌-◌, ◌*◌, ◌/◌, ◌%◌, ◌^◌, ◌<◌, ◌≤◌, ◌≡◌, refl, ◌∙◌, ap, Bool, true, false, ◌&&◌, Option,
  some, List, [], ◌∷◌, ◌++◌, leb, ltb, ◌==◌, if◌then◌else◌, arith, not, Bool-cases, inl, inr,
}
use mathlib.Core.Path.{fun_ext}
use rasterm.Decimal.{decimal, scan, scan-append, scan-decimal}

-- What the next byte belongs to.
pub data Mode : Type 0 where
  idle : Mode
  selecting : Mode
  repeating : ℕ → Mode

-- The picture gives the register that each pixel (column, row) was last drawn with.
pub record Screen : Type 0 where
  pub mode : Mode
  pub column : ℕ
  pub row : ℕ
  pub color : ℕ
  pub picture : ℕ → ℕ → Option ℕ

abbrev pub test_bit : ℕ → ℕ → Bool
test_bit value k = (value / 2 ^ k) % 2 == 1

-- Whether a run of `count` columns drawn at `s` with the bits of `value` covers a pixel.
abbrev pub covers : ℕ → ℕ → Screen → ℕ → ℕ → Bool
covers count value s x y =
    (leb s.column x && ltb x (s.column + count))
    && ((leb s.row y && ltb y (s.row + 6)) && test_bit value (y - s.row))

pub paint : ℕ → ℕ → Screen → Screen
paint count value s = record s {
  mode = idle;
  column = s.column + count;
  picture = λ x y. if covers count value s x y then some s.color else s.picture x y;
}

abbrev is_digit : ℕ → Bool
is_digit c = leb 48 c && ltb c 58

abbrev is_sixel : ℕ → Bool
is_sixel c = leb b'?' c && ltb c 127

-- A byte that continues no number.
command : ℕ → Screen → Screen
unfolding paint
command c s =
    if is_sixel c
    then paint 1 (c - b'?') s
    else if c == b'#'
    then record s { mode = selecting; color = 0 }
    else if c == b'!'
    then record s { mode = repeating 0 }
    else if c == b'$'
    then record s { mode = idle; column = 0 }
    else if c == b'-'
    then record s { mode = idle; column = 0; row = s.row + 6 }
    else record s { mode = idle }

-- In the middle of a number.
read_in : Mode → ℕ → Screen → Screen
unfolding command paint
read_in idle c s = command c s
read_in selecting c s =
    if is_digit c then record s { color = s.color * 10 + (c - 48) } else command c s
read_in (repeating n) c s =
    if is_digit c
    then record s { mode = repeating (n * 10 + (c - 48)) }
    else if is_sixel c
    then paint n (c - b'?') s
    else command c s

pub read_byte : ℕ → Screen → Screen
unfolding read_in
read_byte c s = read_in s.mode c s

abbrev pub decode : List ℕ → Screen → Screen
decode = scan read_byte

abbrev is_ready : Mode → Bool
is_ready (repeating n) = false
is_ready _ = true

-- The decoder is not in the middle of a repeat.
abbrev pub IsReady : Screen → Type 0
IsReady s = is_ready s.mode ≡ true

pub IsReady-paint : (n v : ℕ) (s : Screen) → IsReady (paint n v s)
unfolding paint
IsReady-paint n v s = refl

-- Two runs of one column make one run.
pub paint-paint : (m n v : ℕ) (s : Screen) → paint n v (paint m v s) ≡ paint (m + n) v s
unfolding paint
paint-paint m n v s = λ i. record {
  mode = idle;
  column = columns i;
  row = s.row;
  color = s.color;
  picture = pictures i;
}
  where
    columns : s.column + m + n ≡ s.column + (m + n)
    columns = omega arith

    pictures : (paint n v (paint m v s)).picture ≡ (paint (m + n) v s).picture
    pictures = fun_ext λ x. fun_ext λ y. ground arith

add-sub : (k v : ℕ) → k + v - k ≡ v
add-sub k v = omega arith

command-column : (v : ℕ) (s : Screen) → v < 64 → command (b'?' + v) s ≡ paint 1 v s
unfolding command
command-column v s h = ground (arith, add-sub b'?' v)

read_in-ready :
    (m : Mode) (c : ℕ) (s : Screen) → is_ready m ≡ true → 58 ≤ c → read_in m c s ≡ command c s
unfolding read_in
read_in-ready idle c s ready h = refl
read_in-ready selecting c s ready h = ground arith
read_in-ready (repeating n) c s ready h = cc

-- A column.
pub read_byte-column :
    (v : ℕ) (s : Screen) → v < 64 → IsReady s → read_byte (b'?' + v) s ≡ paint 1 v s
unfolding read_byte
read_byte-column v s h ready =
    read_in-ready s.mode (b'?' + v) s ready (omega arith) ∙ command-column v s h

read_in-sign :
    (m : Mode) (c : ℕ) (s : Screen) → is_ready m ≡ true → c < 48 → read_in m c s ≡ command c s
unfolding read_in
read_in-sign idle c s ready h = refl
read_in-sign selecting c s ready h = ground arith
read_in-sign (repeating n) c s ready h = cc

-- `#n`
pub decode-select :
    (n : ℕ) (s : Screen)
    → IsReady s
    → decode (b'#' ∷ decimal n) s ≡ record s { mode = selecting; color = n }
decode-select n s ready =
    ap (decode (decimal n)) first
    ∙ scan-decimal read_byte (λ k. record s { mode = selecting; color = k }) law n
  where
    law :
        (k d : ℕ)
        → d < 10
        → read_byte (48 + d) (record s { mode = selecting; color = k })
          ≡ record s { mode = selecting; color = k * 10 + d }
    law k d h = unfold read_byte in ground (arith, add-sub 48 d)

    first : read_byte b'#' s ≡ record s { mode = selecting; color = 0 }
    first = unfold read_byte in read_in-sign s.mode b'#' s ready (omega arith)

-- `!n` and a column
pub decode-repeat :
    (n v : ℕ) (s : Screen)
    → v < 64
    → IsReady s
    → decode (b'!' ∷ (decimal n ++ (b'?' + v) ∷ [])) s ≡ paint n v s
decode-repeat n v s h ready =
    ap (decode (decimal n ++ (b'?' + v) ∷ [])) first
    ∙ scan-append read_byte (decimal n) ((b'?' + v) ∷ []) _
    ∙ ap (read_byte (b'?' + v))
        (scan-decimal read_byte (λ k. record s { mode = repeating k }) law n)
    ∙ last
  where
    law :
        (k d : ℕ)
        → d < 10
        → read_byte (48 + d) (record s { mode = repeating k })
          ≡ record s { mode = repeating (k * 10 + d) }
    law k d h = unfold read_byte in ground (arith, add-sub 48 d)

    first : read_byte b'!' s ≡ record s { mode = repeating 0 }
    first = unfold read_byte in read_in-sign s.mode b'!' s ready (omega arith)

    last : read_byte (b'?' + v) (record s { mode = repeating n }) ≡ paint n v s
    last = unfold read_byte in ground (arith, add-sub b'?' v)

abbrev pub home : Screen → Screen
home s = record s { mode = idle; column = 0 }

abbrev pub next_band : Screen → Screen
next_band s = record s { mode = idle; column = 0; row = s.row + 6 }

-- `$`
pub decode-home : (s : Screen) → IsReady s → decode (b'$' ∷ []) s ≡ home s
decode-home s ready = unfold read_byte in read_in-sign s.mode b'$' s ready (omega arith)

-- `-`
pub decode-next_band : (s : Screen) → IsReady s → decode (b'-' ∷ []) s ≡ next_band s
decode-next_band s ready = unfold read_byte in read_in-sign s.mode b'-' s ready (omega arith)

-- The decoder draws nothing and stays where it is.
pub record IsKept (s t : Screen) : Type 0 where
  pub ready : IsReady t
  pub column : t.column ≡ s.column
  pub row : t.row ≡ s.row
  pub picture : t.picture ≡ s.picture

-- A byte that draws nothing and moves nowhere.
abbrev pub is_quiet : ℕ → Bool
is_quiet c = ltb c 63 && (not (c == b'!') && (not (c == b'$') && not (c == b'-')))

command-quiet : (c : ℕ) (s : Screen) → is_quiet c ≡ true → IsKept s (command c s)
unfolding command
command-quiet c s h = elim (Bool-cases (c == b'#')) [
  | inl sign ↦ quiet_to (command c s) selecting refl (ground arith)
  | inr other ↦ quiet_to (command c s) idle refl (ground arith)
]
  where
    quiet_to :
        (t : Screen) (m : Mode)
        → is_ready m ≡ true
        → (t.mode ≡ m) × (t.column ≡ s.column) × (t.row ≡ s.row) × (t.picture ≡ s.picture)
        → IsKept s t
    quiet_to t m ready e = record {
      ready = ap is_ready e.0 ∙ ready;
      column = e.1;
      row = e.2;
      picture = e.3;
    }

pub read_byte-quiet :
    (c : ℕ) (s : Screen) → is_quiet c ≡ true → IsReady s → IsKept s (read_byte c s)
unfolding read_byte
read_byte-quiet c s h ready = kept s.mode refl ready
  where
    number : IsKept s (record s { color = s.color * 10 + (c - 48) })
    number = record { ready = ready; column = refl; row = refl; picture = refl }

    kept : (m : Mode) → m ≡ s.mode → is_ready m ≡ true → IsKept s (read_in m c s)
    kept idle e r = unfold read_in in command-quiet c s h
    kept selecting e r =
        unfold read_in in
        elim (Bool-cases (is_digit c)) [
          | inl digit ↦ rw digit number
          | inr sign ↦ rw sign (command-quiet c s h)
        ]
    kept (repeating n) e r = absurd (ground (arith, r))

module _ (n v : ℕ) (s : Screen) where
  pub picture-paint :
      (x y : ℕ)
      → (paint n v s).picture x y ≡ (if covers n v s x y then some s.color else s.picture x y)
  unfolding paint
  picture-paint x y = refl

  pub column-paint : (paint n v s).column ≡ s.column + n
  unfolding paint
  column-paint = refl

  pub row-paint : (paint n v s).row ≡ s.row
  unfolding paint
  row-paint = refl

  pub color-paint : (paint n v s).color ≡ s.color
  unfolding paint
  color-paint = refl
