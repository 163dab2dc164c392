-- ===== src/Terminal/Errors.antt =====
-- Every method of the renderer that returns false leaves an error code, and no method but the beginning
-- of an update takes an error away.
use rasterm.Base.{
  ℕ, zero, suc, ◌+◌, ◌-◌, ◌<◌, min, ◌≡◌, refl, Bool, true, false, not, ◌&&◌, ◌||◌, List, Bool-cases,
  inl, inr, ltb, leb, ◌==◌, length, if◌then◌else◌, take, drop, arith,
}
use rasterm.Terminal.Closure.{draw_at_home-closed, draw_at_cell-closed, end-closed}
use rasterm.Terminal.{
  Terminal, good, write, flush, recovery_write, recovery_flush, chunk_loop, write_chunks,
  clear_and_home, draw_at_home, draw_at_cell, begin_synchronized_update, end_synchronized_update,
  end_update, string_terminator, display_mode_on, display_mode_off, save_cursor, load_cursor,
  cursor_home, clear_and_home_bytes, cursor_position,
}

-- A failure so far has left an error code.
abbrev pub IsReported : Bool → Terminal → Type 0
IsReported ok t = ok ≡ false → good t ≡ false

either :
    (b acc : Bool) (x : Bool × Terminal) (t : Terminal)
    → IsReported acc t
    → IsReported (x.0 && acc) x.1
    → IsReported ((if b then x else (true, t)).0 && acc) (if b then x else (true, t)).1
either true acc x t p q = q
either false acc x t p q = p

neither :
    (b acc : Bool) (x : Bool × Terminal) (t : Terminal)
    → IsReported acc t
    → IsReported (x.0 && acc) x.1
    → IsReported ((if b then (true, t) else x).0 && acc) (if b then (true, t) else x).1
neither true acc x t p q = p
neither false acc x t p q = q

with_earlier :
    (x : Bool × Terminal) (acc : Bool) (t : Terminal)
    → IsReported x.0 x.1
    → (good t ≡ false → good x.1 ≡ false)
    → IsReported acc t
    → IsReported (x.0 && acc) x.1
with_earlier (false, t') acc t now keeps before failed = now refl
with_earlier (true, t') acc t now keeps before failed = keeps (before failed)

module _ (answers : ℕ → Bool) where
  by_write :
      (bytes : List ℕ) (acc : Bool) (t : Terminal)
      → IsReported acc t
      → IsReported ((write answers bytes t).0 && acc) (write answers bytes t).1
  unfolding write good
  by_write bytes acc t p failed = ground (arith, p)

  by_flush :
      (acc : Bool) (t : Terminal)
      → IsReported acc t
      → IsReported ((flush answers t).0 && acc) (flush answers t).1
  unfolding flush good
  by_flush acc t p failed = ground (arith, p)

  by_recovery_write :
      (bytes : List ℕ) (acc : Bool) (t : Terminal)
      → IsReported acc t
      → IsReported ((recovery_write answers bytes t).0 && acc) (recovery_write answers bytes t).1
  unfolding recovery_write good
  by_recovery_write bytes acc t p failed = ground (arith, p)

  by_recovery_flush :
      (acc : Bool) (t : Terminal)
      → IsReported acc t
      → IsReported ((recovery_flush answers t).0 && acc) (recovery_flush answers t).1
  unfolding recovery_flush good
  by_recovery_flush acc t p failed = ground (arith, p)

  and_false : (b : Bool) → (b && false) ≡ false
  and_false true = refl
  and_false false = refl

  keeps_write :
      (bytes : List ℕ) (t : Terminal) → good t ≡ false → good (write answers bytes t).1 ≡ false
  keeps_write bytes t bad = by_write bytes false t (λ h. bad) (and_false (write answers bytes t).0)

  keeps_flush : (t : Terminal) → good t ≡ false → good (flush answers t).1 ≡ false
  keeps_flush t bad = by_flush false t (λ h. bad) (and_false (flush answers t).0)

  keeps_recovery_write :
      (bytes : List ℕ) (t : Terminal)
      → good t ≡ false
      → good (recovery_write answers bytes t).1 ≡ false
  keeps_recovery_write bytes t bad =
      by_recovery_write bytes false t (λ h. bad) (and_false (recovery_write answers bytes t).0)

  keeps_recovery_flush : (t : Terminal) → good t ≡ false → good (recovery_flush answers t).1 ≡ false
  keeps_recovery_flush t bad =
      by_recovery_flush false t (λ h. bad) (and_false (recovery_flush answers t).0)

  -- With a round for each byte left the loop does not run out of fuel.
  by_chunk_loop :
      (fuel : ℕ) (bytes : List ℕ) (chunk offset : ℕ) (acc : Bool) (t : Terminal)
      → length bytes - offset < fuel
      → 0 < chunk
      → IsReported acc t
      → IsReported
          ((chunk_loop answers fuel bytes chunk offset t).0 && acc)
          (chunk_loop answers fuel bytes chunk offset t).1
  unfolding chunk_loop
  by_chunk_loop zero bytes chunk offset acc t enough pos p = absurd (omega arith)
  by_chunk_loop (suc fuel) bytes chunk offset acc t enough pos p =
      let count = min chunk (length bytes - offset) in
      let piece = take count (drop offset bytes) in
      let p' = by_write piece acc t p in
      elim (Bool-cases (ltb offset (length bytes))) [
        | inr done ↦ rw (done, chunk_loop) p
        | inl more ↦ elim (Bool-cases (write answers piece t).0) [
          | inl sent ↦
              rw (more, sent, chunk_loop)
                (by_chunk_loop fuel bytes chunk (offset + count) acc (write answers piece t).1
                  (ground arith) pos (rw sent at p'))
          | inr refused ↦
              let p0 : IsReported false (write answers piece t).1 = rw refused at p' in
              elim (Bool-cases (ltb 0 offset)) [
                | inl later ↦
                    rw (more, refused, later, chunk_loop) (after_retry (write answers piece t).1 p0)
                | inr first ↦ rw (more, refused, first, chunk_loop) p0
              ]
        ]
      ]
    where
      after_retry :
          (t' : Terminal)
          → IsReported false t'
          → IsReported false (recovery_write answers string_terminator t').1
      after_retry t' q failed =
          by_recovery_write string_terminator false t' q
            (and_false (recovery_write answers string_terminator t').0)

  by_write_chunks :
      (bytes : List ℕ) (chunk : ℕ) (acc : Bool) (t : Terminal)
      → IsReported acc t
      → IsReported
          ((write_chunks answers bytes chunk t).0 && acc)
          (write_chunks answers bytes chunk t).1
  unfolding write_chunks
  by_write_chunks bytes chunk acc t p =
      elim (Bool-cases ((chunk == 0) || leb (length bytes) chunk)) [
        | inl whole ↦ rw (whole, write_chunks) (by_write bytes acc t p)
        | inr parts ↦
            rw (parts, write_chunks)
              (by_chunk_loop (length bytes + 1) bytes chunk 0 acc t (omega arith) (ground arith) p)
      ]

  -- A refused clearing of the screen is reported.
  pub by_clear_and_home :
      (acc : Bool) (t : Terminal)
      → IsReported acc t
      → IsReported ((clear_and_home answers t).0 && acc) (clear_and_home answers t).1
  unfolding clear_and_home
  by_clear_and_home acc t p =
      elim (Bool-cases (write answers clear_and_home_bytes t).1.update_active) [
        | inl active ↦ rw (active, clear_and_home) (by_write clear_and_home_bytes acc t p)
        | inr outside ↦
            let p1 = by_write clear_and_home_bytes acc t p in
            rw (outside, clear_and_home)
              (associate _ (write answers clear_and_home_bytes t).0 acc _ (by_flush _ _ p1))
      ]
    where
      associate :
          (a b c : Bool) (t' : Terminal)
          → IsReported (a && (b && c)) t'
          → IsReported ((a && b) && c) t'
      associate true b c t' q = q
      associate false b c t' q = q

  -- So is a refused beginning of an update, whatever the error before.
  pub by_begin :
      (preserve synchronized : Bool) (t : Terminal)
      → IsReported
          (begin_synchronized_update answers preserve synchronized t).0
          (begin_synchronized_update answers preserve synchronized t).1
  unfolding begin_synchronized_update write good
  by_begin preserve synchronized t failed = ground arith

  saved :
      (save : Bool) (t : Terminal)
      → IsReported
          (if save then write answers save_cursor t else (true, t)).0
          (if save then write answers save_cursor t else (true, t)).1
  unfolding write good
  saved true t failed = ground arith
  saved false t failed = ground arith

  -- Drawing: each part that fails leaves its error, and the later parts keep it.
  pub by_draw_at_home :
      (sixel : List ℕ) (restore : Bool) (chunk : ℕ) (acc : Bool) (t : Terminal)
      → IsReported acc t
      → IsReported
          ((draw_at_home answers sixel restore chunk t).0 && acc)
          (draw_at_home answers sixel restore chunk t).1
  unfolding draw_at_home
  by_draw_at_home sixel restore chunk acc t p =
      with_earlier (draw_at_home answers sixel restore chunk t) acc t drawn
        (draw_at_home-closed (λ t'. good t' ≡ false) answers (keeps_write) (keeps_flush)
          (keeps_recovery_write) sixel restore chunk t)
        p
    where
      drawn :
          IsReported
            (draw_at_home answers sixel restore chunk t).0
            (draw_at_home answers sixel restore chunk t).1
      drawn =
          let save = restore && not t.update_active in
          let p1 = by_write display_mode_on _ _ (saved save t) in
          let p2 = by_write cursor_home _ _ p1 in
          let p3 = by_write_chunks sixel chunk _ _ p2 in
          let p4 = by_recovery_write display_mode_off _ _ p3 in
          let p5 = either save _ _ _ p4 (by_recovery_write load_cursor _ _ p4) in
          neither _ _ _ _ p5 (by_flush _ _ p5)

  pub by_draw_at_cell :
      (row column : ℕ) (sixel : List ℕ) (restore : Bool) (chunk : ℕ) (acc : Bool) (t : Terminal)
      → IsReported acc t
      → IsReported
          ((draw_at_cell answers row column sixel restore chunk t).0 && acc)
          (draw_at_cell answers row column sixel restore chunk t).1
  unfolding draw_at_cell
  by_draw_at_cell row column sixel restore chunk acc t p =
      with_earlier (draw_at_cell answers row column sixel restore chunk t) acc t drawn
        (draw_at_cell-closed (λ t'. good t' ≡ false) answers (keeps_write) (keeps_flush)
          (keeps_recovery_write) row column sixel restore chunk t)
        p
    where
      drawn :
          IsReported
            (draw_at_cell answers row column sixel restore chunk t).0
            (draw_at_cell answers row column sixel restore chunk t).1
      drawn =
          let save = restore && not t.update_active in
          let p1 = by_write (cursor_position row column) _ _ (saved save t) in
          let p2 = by_write_chunks sixel chunk _ _ p1 in
          let p3 = either save _ _ _ p2 (by_recovery_write load_cursor _ _ p2) in
          neither _ _ _ _ p3 (by_flush _ _ p3)

  -- The end of an update.
  pub by_end :
      (acc : Bool) (t : Terminal)
      → IsReported acc t
      → IsReported
          ((end_synchronized_update answers t).0 && acc)
          (end_synchronized_update answers t).1
  unfolding end_synchronized_update good
  by_end acc t p =
      with_earlier (end_synchronized_update answers t) acc t ended
        (end-closed (λ t'. good t' ≡ false) answers keeps_write keeps_flush keeps_recovery_write
          keeps_recovery_flush (λ t' q. q) t)
        p
    where
      once : (x : Bool × Terminal) → IsReported (x.0 && true) x.1 → IsReported x.0 x.1
      once (true, t') q = λ h. absurd (ground arith)
      once (false, t') q = λ h. q refl

      loaded :
          (b : Bool)
          → IsReported
              (if b then recovery_write answers load_cursor t else (true, t)).0
              (if b then recovery_write answers load_cursor t else (true, t)).1
      loaded true =
          once (recovery_write answers load_cursor t)
            (by_recovery_write load_cursor true t (λ h. absurd (ground arith)))
      loaded false = λ h. absurd (ground arith)

      outcome :
          (x y : Bool × Terminal) (b : Bool)
          → IsReported x.0 x.1
          → IsReported y.0 y.1
          → IsReported (if b then x else y).0 (if b then x else y).1
      outcome x y true q r = q
      outcome x y false q r = r

      ended : IsReported (end_synchronized_update answers t).0 (end_synchronized_update answers t).1
      ended =
          let p2 =
            either _ _ _ _ (loaded t.restore_cursor)
              (by_recovery_write end_update _ _ (loaded t.restore_cursor)) in
          outcome _ _ (not t.update_active) (λ h. h) (by_recovery_flush _ _ p2)
