-- ===== src/Terminal/Wire.antt =====
-- What the sink has accepted, and the state that every method of the renderer keeps.
use rasterm.Base.{
  ℕ, ◌+◌, ◌%◌, ◌^◌, ◌≡◌, refl, Bool, true, false, List, [], ◌∷◌, ◌++◌, length, length-append, arith,
  Bool-cases, inl, inr, suc,
}
use rasterm.Terminal.{
  Call, wrote, retried, flushed, Terminal, write, flush, recovery_write, recovery_flush,
}

-- The accepted bytes, in order.
abbrev pub wire_of : List Call → List ℕ
wire_of [] = []
wire_of (wrote bytes true ∷ cs) = wire_of cs ++ bytes
wire_of (retried bytes true ∷ cs) = wire_of cs ++ bytes
wire_of (c ∷ cs) = wire_of cs

abbrev pub wire : Terminal → List ℕ
wire t = wire_of t.calls

-- How many bytes the sink accepted at a first try, and at a second.
abbrev pub first_tries : List Call → ℕ
first_tries [] = 0
first_tries (wrote bytes true ∷ cs) = first_tries cs + length bytes
first_tries (c ∷ cs) = first_tries cs

abbrev pub second_tries : List Call → ℕ
second_tries [] = 0
second_tries (retried bytes true ∷ cs) = second_tries cs + length bytes
second_tries (c ∷ cs) = second_tries cs

pub length-wire_of : (cs : List Call) → length (wire_of cs) ≡ first_tries cs + second_tries cs
length-wire_of [] = refl
length-wire_of (wrote bytes true ∷ cs) =
    omega (arith, length-append (wire_of cs) bytes, length-wire_of cs)
length-wire_of (retried bytes true ∷ cs) =
    omega (arith, length-append (wire_of cs) bytes, length-wire_of cs)
length-wire_of (wrote bytes false ∷ cs) = length-wire_of cs
length-wire_of (retried bytes false ∷ cs) = length-wire_of cs
length-wire_of (flushed reply ∷ cs) = length-wire_of cs

-- The counter follows the first tries modulo 2^64, and what an update set up is set up only within
-- one.
pub record IsConsistent (t : Terminal) : Type 0 where
  pub counted : t.accepted ≡ first_tries t.calls % 2 ^ 64
  pub cursor : t.restore_cursor ≡ true → t.update_active ≡ true
  pub synchronized : t.synchronized_active ≡ true → t.update_active ≡ true

module _ (answers : ℕ → Bool) where
  pub write-IsConsistent :
      (bytes : List ℕ) (t : Terminal) → IsConsistent t → IsConsistent (write answers bytes t).1
  unfolding write
  write-IsConsistent bytes t v = ground arith

  pub recovery_write-IsConsistent :
      (bytes : List ℕ) (t : Terminal)
      → IsConsistent t
      → IsConsistent (recovery_write answers bytes t).1
  unfolding recovery_write
  recovery_write-IsConsistent bytes t v = elim (Bool-cases (answers (length t.calls))) [
    | inl e ↦ rw e (ground arith)
    | inr e ↦ elim (Bool-cases (answers (suc (length t.calls)))) [
      | inl e' ↦ rw (e, e') (ground arith)
      | inr e' ↦ rw (e, e') (ground arith)
    ]
  ]

  pub flush-IsConsistent : (t : Terminal) → IsConsistent t → IsConsistent (flush answers t).1
  unfolding flush
  flush-IsConsistent t v = ground arith

  pub recovery_flush-IsConsistent :
      (t : Terminal) → IsConsistent t → IsConsistent (recovery_flush answers t).1
  unfolding recovery_flush
  recovery_flush-IsConsistent t v = ground arith
