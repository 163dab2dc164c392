-- ===== src/Terminal/Chunks.antt =====
-- `writeChunks`: what the sink has accepted when it returns.
use rasterm.Base.{
  ℕ, zero, suc, ◌+◌, ◌-◌, ◌≤◌, ◌<◌, min, ◌≡◌, refl, sym, ap, ◌∙◌, ◌⊎◌, inl, inr, Bool, true, false,
  List, [], ◌∷◌, ◌++◌, append-nil, append_assoc, ltb, leb, ◌==◌, if◌then◌else◌, ltb→lt, Bool-cases,
  length, take, drop, take-append-drop, length-drop, arith, ◌||◌,
}
use rasterm.Error.{is_none}
use rasterm.Terminal.{Terminal, write, recovery_write, chunk_loop, write_chunks, string_terminator}
use rasterm.Terminal.Wire.{wire}

drop-drop : (m n : ℕ) (xs : List ℕ) → drop (m + n) xs ≡ drop n (drop m xs)
drop-drop zero n xs = ap (λ k. drop k xs) (omega arith)
drop-drop (suc m) n [] = drop_nil (suc m + n) ∙ sym (drop_nil n)
  where
    drop_nil : (k : ℕ) → drop {A = ℕ} k [] ≡ []
    drop_nil zero = refl
    drop_nil (suc k) = refl
drop-drop (suc m) n (x ∷ xs) =
    let e : suc m + n ≡ suc (m + n) = omega arith in rw e (drop-drop m n xs)

drop_all : (n : ℕ) (xs : List ℕ) → length xs ≤ n → drop n xs ≡ []
drop_all zero [] h = refl
drop_all zero (x ∷ xs) h = absurd (omega arith)
drop_all (suc n) [] h = refl
drop_all (suc n) (x ∷ xs) h = drop_all n xs (omega arith)

take-add : (m n : ℕ) (xs : List ℕ) → take (m + n) xs ≡ take m xs ++ take n (drop m xs)
take-add zero n xs = ap (λ k. take k xs) (omega arith)
take-add (suc m) n [] = let e : suc m + n ≡ suc (m + n) = omega arith in rw e (take_nil n)
  where
    take_nil : (k : ℕ) → [] ≡ take {A = ℕ} k []
    take_nil zero = refl
    take_nil (suc k) = refl
take-add (suc m) n (x ∷ xs) =
    let e : suc m + n ≡ suc (m + n) = omega arith in rw e (ap (◌∷◌ x) (take-add m n xs))

-- How a run of writes of `bytes` from `t` ended, `offset` bytes being sent before: all of them
-- accepted and no error set, or the first `n` accepted, then at most a string terminator, with an
-- error set. The terminator stands only behind some bytes of the run.
abbrev pub SentFrom : ℕ → List ℕ → Terminal → Bool × Terminal → Type 0
SentFrom offset bytes t (r, t') =
    ((r ≡ true) × (wire t' ≡ wire t ++ bytes) × (t'.last_error ≡ t.last_error))
    ⊎ ((n : ℕ) × (tail : List ℕ) × (r ≡ false)
        × (n ≤ length bytes)
        × (wire t' ≡ (wire t ++ take n bytes) ++ tail)
        × ((tail ≡ []) ⊎ ((tail ≡ string_terminator) × (0 < offset + n)))
        × (is_none t'.last_error ≡ false))

module _ (answers : ℕ → Bool) where
  write-Sent :
      (offset : ℕ) (bytes : List ℕ) (t : Terminal) → SentFrom offset bytes t (write answers bytes t)
  unfolding write
  write-Sent offset bytes t = elim (Bool-cases (answers (length t.calls))) [
    | inl e ↦ rw (e, write) (inl (refl, refl, refl))
    | inr e ↦ rw (e, write) (inr (0, [], refl, omega arith, simp append-nil, inl refl, refl))
  ]

  -- The terminator is accepted at the first try, at the second, or not at all.
  recovery_write-cases :
      (bytes : List ℕ) (t : Terminal)
      → is_none t.last_error ≡ false
      → let t' = (recovery_write answers bytes t).1 in
        (is_none t'.last_error ≡ false) × ((wire t' ≡ wire t) ⊎ (wire t' ≡ wire t ++ bytes))
  unfolding recovery_write
  recovery_write-cases bytes t h = elim (Bool-cases (answers (length t.calls))) [
    | inl e ↦ rw (e, recovery_write) (h, inr refl)
    | inr e ↦ elim (Bool-cases (answers (suc (length t.calls)))) [
      | inl e' ↦ rw (e, e', h, recovery_write) (h, inr refl)
      | inr e' ↦ rw (e, e', h, recovery_write) (h, inl refl)
    ]
  ]

  write-false :
      (bytes : List ℕ) (t : Terminal)
      → (write answers bytes t).0 ≡ false
      → (wire (write answers bytes t).1 ≡ wire t)
        × (is_none (write answers bytes t).1.last_error ≡ false)
  unfolding write
  write-false bytes t = ground arith

  write-true :
      (bytes : List ℕ) (t : Terminal)
      → (write answers bytes t).0 ≡ true
      → (wire (write answers bytes t).1 ≡ wire t ++ bytes)
        × ((write answers bytes t).1.last_error ≡ t.last_error)
  unfolding write
  write-true bytes t = ground arith

  -- The round that sends `count` bytes of `xs`, and the rounds after it.
  SentFrom-cons :
      (offset count : ℕ) (xs : List ℕ) (t t1 : Terminal) (r : Bool × Terminal)
      → count ≤ length xs
      → wire t1 ≡ wire t ++ take count xs
      → t1.last_error ≡ t.last_error
      → SentFrom (offset + count) (drop count xs) t1 r
      → SentFrom offset xs t r
  SentFrom-cons offset count xs t t1 (r, t') h w e (inl (ok, w', e')) = inl (
    ok,
    w'
        ∙ ap (λ z. z ++ drop count xs) w
        ∙ append_assoc (wire t) _ _
        ∙ ap (◌++◌ (wire t)) (take-append-drop count xs),
    e' ∙ e,
  )
  SentFrom-cons offset count xs t t1 (r, t') h w e (inr (n, tail, bad, le, w', ends, err)) = inr (
    count + n,
    tail,
    bad,
    omega (arith, length-drop count xs),
    w'
        ∙ ap (λ z. (z ++ take n (drop count xs)) ++ tail) w
        ∙ ap (λ z. z ++ tail)
            (append_assoc (wire t) _ _ ∙ ap (◌++◌ (wire t)) (sym (take-add count n xs))),
    ends',
    err,
  )
    where
      ends' : (tail ≡ []) ⊎ ((tail ≡ string_terminator) × (0 < offset + (count + n)))
      ends' = elim ends [ inl z ↦ inl z | inr z ↦ inr (z.0, omega arith) ]

  refused-SentFrom :
      (offset : ℕ) (xs : List ℕ) (t t1 : Terminal)
      → wire t1 ≡ wire t
      → is_none t1.last_error ≡ false
      → SentFrom offset xs t
          (false, if ltb 0 offset then (recovery_write answers string_terminator t1).1 else t1)
  refused-SentFrom offset xs t t1 w e = elim (Bool-cases (ltb 0 offset)) [
    | inr first ↦ rw first (inr (0, [], refl, omega arith, w ∙ simp append-nil, inl refl, e))
    | inl later ↦
        rw later (recovered (ltb→lt 0 offset later) (recovery_write-cases string_terminator t1 e))
  ]
    where
      t2 : Terminal
      t2 = (recovery_write answers string_terminator t1).1

      recovered :
          0 < offset
          → (is_none t2.last_error ≡ false)
            × ((wire t2 ≡ wire t1) ⊎ (wire t2 ≡ wire t1 ++ string_terminator))
          → SentFrom offset xs t (false, t2)
      recovered pos (err, inl same) =
          inr (0, [], refl, omega arith, same ∙ w ∙ simp append-nil, inl refl, err)
      recovered pos (err, inr more) = inr (
        0,
        string_terminator,
        refl,
        omega arith,
        more ∙ ap (λ z. z ++ string_terminator) (w ∙ simp append-nil),
        inr (refl, omega arith),
        err,
      )

  chunk_loop-SentFrom :
      (fuel : ℕ) (bytes : List ℕ) (chunk offset : ℕ) (t : Terminal)
      → 0 < chunk
      → offset ≤ length bytes
      → length bytes - offset < fuel
      → SentFrom offset (drop offset bytes) t (chunk_loop answers fuel bytes chunk offset t)
  unfolding chunk_loop
  chunk_loop-SentFrom zero bytes chunk offset t pos le enough = absurd (omega arith)
  chunk_loop-SentFrom (suc fuel) bytes chunk offset t pos le enough =
      let count = min chunk (length bytes - offset) in
      let rest = drop offset bytes in
      let left : length rest ≡ length bytes - offset = length-drop offset bytes in
      elim (Bool-cases (ltb offset (length bytes))) [
        | inr done ↦
            rw (done, chunk_loop)
              (inl
                (refl, rw (drop_all offset bytes (ground arith)) (sym (append-nil (wire t))), refl))
        | inl more ↦ elim (Bool-cases (write answers (take count rest) t).0) [
          | inr refused ↦
              let failed = write-false (take count rest) t refused in
              rw (more, refused, chunk_loop) (refused-SentFrom offset rest t _ failed.0 failed.1)
          | inl sent ↦
              let accepted = write-true (take count rest) t sent in
              let t1 = (write answers (take count rest) t).1 in
              let more' = ltb→lt offset (length bytes) more in
              rw (more, sent, chunk_loop)
                (SentFrom-cons offset count rest t t1
                  (chunk_loop answers fuel bytes chunk (offset + count) t1) (omega arith) accepted.0
                  accepted.1
                  (rw (← drop-drop offset count bytes) (
                    chunk_loop-SentFrom fuel bytes chunk (offset + count) t1 pos (omega arith)
                      (omega arith))))
        ]
      ]

  -- `writeChunks` ends, whatever the sink answers and however the image is split. When it returns
  -- true the wire has gained the image's bytes, in order, and the error is as it was. When it returns
  -- false an error is set, and the wire has gained a first part of the image and, only behind a part
  -- that is not empty, at most one string terminator.
  pub write_chunks-SentFrom :
      (bytes : List ℕ) (chunk : ℕ) (t : Terminal)
      → SentFrom 0 bytes t (write_chunks answers bytes chunk t)
  unfolding write_chunks
  write_chunks-SentFrom bytes chunk t =
      elim (Bool-cases ((chunk == 0) || leb (length bytes) chunk)) [
        | inl whole ↦ rw whole (write-Sent 0 bytes t)
        | inr split ↦ rw split (
            chunk_loop-SentFrom (length bytes + 1) bytes chunk 0 t (ground arith) (omega arith)
              (omega arith))
      ]
