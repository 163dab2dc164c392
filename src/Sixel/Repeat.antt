-- ===== src/Sixel/Repeat.antt =====
-- `emitRepeat`: the run-length code of a column, against the decoder.
use rasterm.Base.{
  ℕ, zero, suc, ◌+◌, ◌-◌, ◌<◌, min, ◌≡◌, refl, ap, ◌∙◌, Bool, true, false, ◌||◌, List, [], ◌∷◌,
  ◌++◌, ◌==◌, if◌then◌else◌, arith,
}
use native.Mathlib.Decide.{dec_lt}
use rasterm.Decimal.{decimal, scan-append}
use rasterm.Sixel.Output.{
  SixelOutput, append_byte, append_number, Emits, append-Emits, Emits-append,
}
use rasterm.Sixel.{maximum_repeat, repeat_loop, emit_repeat}
use rasterm.Sixel.Decoder.{
  Screen, IsReady, decode, read_byte, paint, paint-paint, IsReady-paint, decode-repeat,
  read_byte-column,
}

-- `o'` is `o` with bytes that the decoder takes to `draw`.
abbrev pub Draws : (Screen → Screen) → SixelOutput → SixelOutput → Type 0
Draws draw o o' =
    (bytes : List ℕ) × Emits bytes o o' × ((s : Screen) → IsReady s → decode bytes s ≡ draw s)

-- An output over its limit takes no bytes.
pub Emits-exceeded : (bytes : List ℕ) (o : SixelOutput) → o.limit_exceeded ≡ true → Emits bytes o o
Emits-exceeded bytes o h = record {
  kept = refl;
  stuck = λ k. (k, refl);
  sent = λ k. cc;
  over = λ k l. cc;
  within = λ k l. l;
}

pub append_byte-Emits : (byte : ℕ) (o : SixelOutput) → Emits (byte ∷ []) o (append_byte byte o).1
unfolding append_byte
append_byte-Emits byte o = append-Emits (byte ∷ []) o

pub append_number-Emits : (n : ℕ) (o : SixelOutput) → Emits (decimal n) o (append_number n o).1
unfolding append_number
append_number-Emits n o = append-Emits (decimal n) o

-- What one round of the loop emits.
emit_run : ℕ → ℕ → SixelOutput → SixelOutput
emit_run character run o =
    if run == 1
    then (append_byte character o).1
    else if run == 2
    then (append_byte character (append_byte character o).1).1
    else (append_byte character (append_number run (append_byte b'!' o).1).1).1

emit_run-many :
    (c k : ℕ) (o : SixelOutput)
    → emit_run c (suc (suc (suc k))) o
      ≡ (append_byte c (append_number (suc (suc (suc k))) (append_byte b'!' o).1).1).1
unfolding emit_run
emit_run-many c k o = ground arith

emit_run-Draws :
    (v run : ℕ) (o : SixelOutput)
    → v < 64
    → 0 < run
    → Draws (paint run v) o (emit_run (b'?' + v) run o)
unfolding emit_run
emit_run-Draws v zero o h pos = absurd (omega arith)
emit_run-Draws v (suc zero) o h pos =
    (c ∷ [], append_byte-Emits c o, λ s ready. read_byte-column v s h ready)
  where
    c : ℕ
    c = b'?' + v
emit_run-Draws v (suc (suc zero)) o h pos = (
  c ∷ c ∷ [],
  Emits-append (c ∷ []) (c ∷ []) o o1 _ (append_byte-Emits c o) (append_byte-Emits c o1),
  λ s ready.
      ap (read_byte c) (read_byte-column v s h ready)
      ∙ read_byte-column v (paint 1 v s) h (IsReady-paint 1 v s)
      ∙ paint-paint 1 1 v s,
)
  where
    c : ℕ
    c = b'?' + v

    o1 : SixelOutput
    o1 = (append_byte c o).1
emit_run-Draws v (suc (suc (suc k))) o h pos = rw (emit_run-many c k o) (
  b'!' ∷ (decimal run ++ c ∷ []),
  Emits-append (b'!' ∷ []) (decimal run ++ c ∷ []) o o1 o3 (append_byte-Emits b'!' o) (
      Emits-append (decimal run) (c ∷ []) o1 o2 o3 (append_number-Emits run o1)
        (append_byte-Emits c o2)),
  λ s ready. decode-repeat run v s h ready,
)
  where
    c : ℕ
    c = b'?' + v

    run : ℕ
    run = suc (suc (suc k))

    o1 : SixelOutput
    o1 = (append_byte b'!' o).1

    o2 : SixelOutput
    o2 = (append_number run o1).1

    o3 : SixelOutput
    o3 = (append_byte c o2).1

repeat_loop-step :
    (fuel c remaining : ℕ) (o : SixelOutput)
    → repeat_loop (suc fuel) c remaining o ≡ (
        if (remaining == 0) || o.limit_exceeded
        then o
        else repeat_loop fuel c
            (remaining - min remaining maximum_repeat)
            (emit_run c (min remaining maximum_repeat) o))
unfolding repeat_loop emit_run
repeat_loop-step fuel c remaining o = refl

repeat_loop-zero : (fuel c : ℕ) (o : SixelOutput) → repeat_loop fuel c 0 o ≡ o
unfolding repeat_loop
repeat_loop-zero zero c o = refl
repeat_loop-zero (suc fuel) c o = refl

-- A loop that goes on or stops at the limit.
pub Emits-unless :
    (bytes : List ℕ) (b : Bool) (o o' : SixelOutput)
    → o.limit_exceeded ≡ b
    → Emits bytes o o'
    → Emits bytes o (if b then o else o')
Emits-unless bytes true o o' over e = Emits-exceeded bytes o over
Emits-unless bytes false o o' fine e = e

-- Two pieces, one after the other, with the second one's bytes made whatever the limit.
pub Draws-append :
    (f g : Screen → Screen) (o p q : SixelOutput)
    → ((s : Screen) → IsReady s → IsReady (f s))
    → Draws f o p
    → Draws g p q
    → Draws (λ s. g (f s)) o q
Draws-append f g o p q ready (xs, e, d) (ys, e', d') = (
  xs ++ ys,
  Emits-append xs ys o p q e e',
  λ s r. scan-append read_byte xs ys s ∙ ap (decode ys) (d s r) ∙ d' (f s) (ready s r),
)

pub Draws-unless :
    (f : Screen → Screen) (o o' : SixelOutput)
    → Draws f o o'
    → Draws f o (if o.limit_exceeded then o else o')
Draws-unless f o o' (xs, e, d) = (xs, Emits-unless xs o.limit_exceeded o o' refl e, d)

pub Draws-same :
    (f g : Screen → Screen) (o o' : SixelOutput)
    → ((s : Screen) → f s ≡ g s)
    → Draws f o o'
    → Draws g o o'
Draws-same f g o o' same (xs, e, d) = (xs, e, λ s r. d s r ∙ same s)

repeat_loop-Draws :
    (v fuel remaining : ℕ) (o : SixelOutput)
    → v < 64
    → 0 < remaining
    → remaining < fuel
    → Draws (paint remaining v) o (repeat_loop fuel (b'?' + v) remaining o)
repeat_loop-Draws v zero remaining o h pos enough = absurd (omega arith)
repeat_loop-Draws v (suc fuel) remaining o h pos enough =
    let going : (remaining == 0) ≡ false = ground arith in
    rw (repeat_loop-step fuel (b'?' + v) remaining o, going)
      (elim (dec_lt maximum_repeat remaining) [
        | yes large ↦
            let run = maximum_repeat in
            let o1 = emit_run (b'?' + v) run o in
            let part : min remaining maximum_repeat ≡ maximum_repeat = omega arith in
            let sum : maximum_repeat + (remaining - maximum_repeat) ≡ remaining = omega arith in
            rw part (
              Draws-unless (paint remaining v) o _ (
                Draws-same _ (paint remaining v) o _
                  (λ s. paint-paint run (remaining - run) v s ∙ ap (λ k. paint k v s) sum)
                  (Draws-append (paint run v) (paint (remaining - run) v) o o1 _
                    (λ s _. IsReady-paint run v s) (emit_run-Draws v run o h (omega arith))
                    (repeat_loop-Draws v fuel (remaining - run) o1 h (omega arith) (omega arith)))))
        | no small ↦
            let whole : min remaining maximum_repeat ≡ remaining = omega arith in
            let none_left : remaining - remaining ≡ 0 = omega arith in
            rw (whole, none_left, repeat_loop-zero)
              (Draws-unless (paint remaining v) o _ (emit_run-Draws v remaining o h pos))
      ])

-- `emitRepeat` appends bytes that the decoder takes to `count` columns of the value, whatever the
-- count above zero: the value is cut to six bits. The output takes the bytes whole, or is left over
-- its limit.
pub emit_repeat-Draws :
    (count value : ℕ) (o : SixelOutput)
    → 0 < count
    → Draws (paint count (min value 63)) o (emit_repeat count value o)
unfolding emit_repeat
emit_repeat-Draws count value o pos =
    repeat_loop-Draws (min value 63) (count + 1) count o (omega arith) pos (omega arith)
