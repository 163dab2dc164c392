-- ===== src/Terminal/Closure.antt =====
-- A property of the renderer's state that every write and flush keeps is kept by drawing, clearing
-- and writing in chunks, which change the state by those calls alone.
use rasterm.Base.{
  ℕ, zero, suc, ◌+◌, ◌-◌, min, ◌≡◌, Bool, true, false, not, ◌&&◌, ◌||◌, List, Bool-cases, inl, inr,
  ltb, leb, ◌==◌, length, if◌then◌else◌, take, drop,
}
use rasterm.Terminal.{
  Terminal, write, flush, recovery_write, recovery_flush, chunk_loop, write_chunks, clear_and_home,
  draw_at_home, draw_at_cell, end_synchronized_update, end_update, string_terminator,
  display_mode_on, display_mode_off, save_cursor, load_cursor, cursor_home, clear_and_home_bytes,
  cursor_position,
}

-- The renderer outside an update.
abbrev pub closed : Terminal → Terminal
closed t = record t { update_active = false; restore_cursor = false; synchronized_active = false }

pub if-either {ℓ} :
    (P : Terminal → Type ℓ) (b : Bool) (x y : Bool × Terminal)
    → P x.1
    → P y.1
    → P (if b then x else y).1
if-either P true x y p q = p
if-either P false x y p q = q

pub if-first {ℓ} :
    (P : Terminal → Type ℓ) (b : Bool) (x y : Bool × Terminal)
    → b ≡ true
    → P x.1
    → P (if b then x else y).1
if-first P true x y e p = p
if-first P false x y e p = cc

pub if-second {ℓ} :
    (P : Terminal → Type ℓ) (b : Bool) (x y : Bool × Terminal)
    → b ≡ false
    → P y.1
    → P (if b then x else y).1
if-second P true x y e p = cc
if-second P false x y e p = p

module _ {ℓ} (P : Terminal → Type ℓ) (answers : ℕ → Bool)
    (by_write : (bytes : List ℕ) (t : Terminal) → P t → P (write answers bytes t).1)
    (by_flush : (t : Terminal) → P t → P (flush answers t).1)
    (by_recovery_write : (bytes : List ℕ) (t : Terminal)
      → P t
      → P (recovery_write answers bytes t).1) where
  chunk_loop-closed :
      (fuel : ℕ) (bytes : List ℕ) (chunk offset : ℕ) (t : Terminal)
      → P t
      → P (chunk_loop answers fuel bytes chunk offset t).1
  unfolding chunk_loop
  chunk_loop-closed zero bytes chunk offset t p = p
  chunk_loop-closed (suc fuel) bytes chunk offset t p =
      let count = min chunk (length bytes - offset) in
      let piece = take count (drop offset bytes) in
      let p' = by_write piece t p in
      elim (Bool-cases (ltb offset (length bytes))) [
        | inr done ↦ rw (done, chunk_loop) p
        | inl more ↦ elim (Bool-cases (write answers piece t).0) [
          | inl sent ↦
              rw (more, sent, chunk_loop)
                (chunk_loop-closed fuel bytes chunk (offset + count) (write answers piece t).1 p')
          | inr refused ↦ elim (Bool-cases (ltb 0 offset)) [
            | inl later ↦
                rw (more, refused, later, chunk_loop) (by_recovery_write string_terminator _ p')
            | inr first ↦ rw (more, refused, first, chunk_loop) p'
          ]
        ]
      ]

  pub write_chunks-closed :
      (bytes : List ℕ) (chunk : ℕ) (t : Terminal) → P t → P (write_chunks answers bytes chunk t).1
  unfolding write_chunks
  write_chunks-closed bytes chunk t p =
      if-either P ((chunk == 0) || leb (length bytes) chunk) _ _ (by_write bytes t p)
        (chunk_loop-closed (length bytes + 1) bytes chunk 0 t p)

  pub clear_and_home-closed : (t : Terminal) → P t → P (clear_and_home answers t).1
  unfolding clear_and_home
  clear_and_home-closed t p =
      let p' = by_write clear_and_home_bytes t p in
      let t' = (write answers clear_and_home_bytes t).1 in
      if-either P t'.update_active _ _ p' (by_flush t' p')

  pub draw_at_home-closed :
      (sixel : List ℕ) (restore : Bool) (chunk : ℕ) (t : Terminal)
      → P t
      → P (draw_at_home answers sixel restore chunk t).1
  unfolding draw_at_home
  draw_at_home-closed sixel restore chunk t p =
      let save = restore && not t.update_active in
      let p0 =
        if-either P save (write answers save_cursor t) (true, t) (by_write save_cursor t p) p in
      let p1 = by_write display_mode_on _ p0 in
      let p2 = by_write cursor_home _ p1 in
      let p3 = write_chunks-closed sixel chunk _ p2 in
      let p4 = by_recovery_write display_mode_off _ p3 in
      let p5 = if-either P save _ (true, _) (by_recovery_write load_cursor _ p4) p4 in
      if-either P _ (true, _) _ p5 (by_flush _ p5)

  pub draw_at_cell-closed :
      (row column : ℕ) (sixel : List ℕ) (restore : Bool) (chunk : ℕ) (t : Terminal)
      → P t
      → P (draw_at_cell answers row column sixel restore chunk t).1
  unfolding draw_at_cell
  draw_at_cell-closed row column sixel restore chunk t p =
      let save = restore && not t.update_active in
      let p0 =
        if-either P save (write answers save_cursor t) (true, t) (by_write save_cursor t p) p in
      let p1 = by_write (cursor_position row column) _ p0 in
      let p2 = write_chunks-closed sixel chunk _ p1 in
      let p3 = if-either P save _ (true, _) (by_recovery_write load_cursor _ p2) p2 in
      if-either P _ (true, _) _ p3 (by_flush _ p3)

  pub end-closed :
      ((t : Terminal) → P t → P (recovery_flush answers t).1)
      → ((t : Terminal) → P t → P (closed t))
      → (t : Terminal) → P t
      → P (end_synchronized_update answers t).1
  unfolding end_synchronized_update
  end-closed by_recovery_flush by_close t p =
      let p1 = if-either P t.restore_cursor _ (true, t) (by_recovery_write load_cursor t p) p in
      let p2 = if-either P _ _ (true, _) (by_recovery_write end_update _ p1) p1 in
      if-either P (not t.update_active) _ _ p (by_close _ (by_recovery_flush _ p2))
