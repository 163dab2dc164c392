-- ===== src/Sixel/Output.antt =====
-- `SixelOutput` of src/encoder/SixelWriter.{hpp,cpp}: a string that takes a write whole or not at
-- all, and stops at a limit.
use rasterm.Base.{
  ℕ, ◌+◌, ◌-◌, ◌≤◌, ◌<◌, ◌≡◌, refl, sym, Bool, true, false, ◌&&◌, ◌||◌, List, [], ◌∷◌, ◌++◌, ltb,
  if◌then◌else◌, length, length-append, append_assoc, append-nil, arith,
}
use rasterm.Decimal.{decimal}

pub record SixelOutput : Type 0 where
  pub storage : List ℕ
  pub maximum_bytes : ℕ
  pub limit_exceeded : Bool

unfoldable pub append : List ℕ → SixelOutput → Bool × SixelOutput
append bytes o =
    if o.limit_exceeded
    then (false, o)
    else if ltb 0 o.maximum_bytes
        && (ltb o.maximum_bytes (length o.storage)
            || ltb (o.maximum_bytes - length o.storage) (length bytes))
    then (false, record o { limit_exceeded = true })
    else (true, record o { storage = o.storage ++ bytes })

unfoldable pub append_byte : ℕ → SixelOutput → Bool × SixelOutput
append_byte byte o = append (byte ∷ []) o

-- `std::to_chars` into sixteen bytes does not fail on a 32-bit number.
unfoldable pub append_number : ℕ → SixelOutput → Bool × SixelOutput
append_number value o = append (decimal value) o

-- `o'` is `o` after the writes that make up `bytes`. An output that is over its limit is left alone;
-- one that ends within it has taken all the bytes; it goes over the limit only if they do not fit,
-- and its string never does.
pub record Emits (bytes : List ℕ) (o o' : SixelOutput) : Type 0 where
  pub kept : o'.maximum_bytes ≡ o.maximum_bytes
  pub stuck : o.limit_exceeded ≡ true → (o'.limit_exceeded ≡ true) × (o'.storage ≡ o.storage)
  pub sent :
      o'.limit_exceeded ≡ false → (o.limit_exceeded ≡ false) × (o'.storage ≡ o.storage ++ bytes)
  pub over :
      o.limit_exceeded ≡ false
      → o'.limit_exceeded ≡ true
      → (0 < o.maximum_bytes) × (o.maximum_bytes < length o.storage + length bytes)
  pub within :
      0 < o.maximum_bytes → length o.storage ≤ o.maximum_bytes → length o'.storage ≤ o.maximum_bytes

pub append-Emits : (bytes : List ℕ) (o : SixelOutput) → Emits bytes o (append bytes o).1
unfolding append
append-Emits bytes o = ground (arith, length-append o.storage bytes)

pub Emits-nil : (o : SixelOutput) → Emits [] o o
Emits-nil o = record {
  kept = refl;
  stuck = λ h. (h, refl);
  sent = λ h. (h, sym (append-nil o.storage));
  over = λ h k. cc;
  within = λ h k. k;
}

pub Emits-append :
    (xs ys : List ℕ) (o p q : SixelOutput) → Emits xs o p → Emits ys p q → Emits (xs ++ ys) o q
Emits-append xs ys o p q e f =
    ground (arith, append_assoc o.storage xs ys, length-append xs ys, length-append o.storage xs)
