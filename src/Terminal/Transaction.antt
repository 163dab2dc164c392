-- ===== src/Terminal/Transaction.antt =====
-- One frame on a sink that accepts all: the exact bytes of an update around a drawing.
use rasterm.Base.{
  ℕ, ◌≡◌, refl, ap, ◌∙◌, inl, inr, Bool, true, false, ◌&&◌, List, [], ◌++◌, append-nil,
  append_assoc, if◌then◌else◌, arith, length, suc,
}
use rasterm.Error.{is_none}
use rasterm.Terminal.{
  Terminal, write, flush, recovery_write, recovery_flush, write_chunks, begin_synchronized_update,
  end_synchronized_update, draw_at_home, display_mode_on, display_mode_off, save_cursor,
  load_cursor, cursor_home, begin_update, end_update, good,
}
use rasterm.Terminal.Closure.{write_chunks-closed}
use rasterm.Terminal.Chunks.{write_chunks-SentFrom}
use rasterm.Terminal.Wire.{wire}

-- `bytes` if they are asked for.
abbrev pub only_if : Bool → List ℕ → List ℕ
only_if b bytes = if b then bytes else []

-- The bytes of a frame: the image drawn at home in display mode, within what the update asks for.
abbrev pub frame_bytes : Bool → Bool → List ℕ → List ℕ
frame_bytes preserve synchronized sixel =
    only_if synchronized begin_update
    ++ (only_if preserve save_cursor
        ++ (display_mode_on
            ++ (cursor_home
                ++ (sixel
                    ++ (display_mode_off
                        ++ (only_if preserve load_cursor ++ only_if synchronized end_update))))))

-- `u` is `t` with `bytes` more on the wire, and neither errors nor marks changed.
record Gains (bytes : List ℕ) (t u : Terminal) : Type 0 where
  wire_lem : wire u ≡ wire t ++ bytes
  error : u.last_error ≡ t.last_error
  active : u.update_active ≡ t.update_active
  cursor : u.restore_cursor ≡ t.restore_cursor
  synchronized : u.synchronized_active ≡ t.synchronized_active

Gains-trans :
    (xs ys : List ℕ) (t u v : Terminal) → Gains xs t u → Gains ys u v → Gains (xs ++ ys) t v
Gains-trans xs ys t u v g h = record {
  wire_lem = h.wire_lem ∙ ap (λ z. z ++ ys) g.wire_lem ∙ append_assoc (wire t) xs ys;
  error = h.error ∙ g.error;
  active = h.active ∙ g.active;
  cursor = h.cursor ∙ g.cursor;
  synchronized = h.synchronized ∙ g.synchronized;
}

module _ (answers : ℕ → Bool) (accepting : (n : ℕ) → answers n ≡ true) where
  write-Gains : (bytes : List ℕ) (t : Terminal) → Gains bytes t (write answers bytes t).1
  unfolding write
  write-Gains bytes t = rw (accepting (length t.calls), write) (ground arith)

  recovery_write-Gains :
      (bytes : List ℕ) (t : Terminal) → Gains bytes t (recovery_write answers bytes t).1
  unfolding recovery_write
  recovery_write-Gains bytes t = rw (accepting (length t.calls), recovery_write) (ground arith)

  flush-Gains : (t : Terminal) → Gains [] t (flush answers t).1
  unfolding flush
  flush-Gains t = rw (accepting (length t.calls), flush) (ground (arith, append-nil (wire t)))

  recovery_flush-Gains : (t : Terminal) → Gains [] t (recovery_flush answers t).1
  unfolding recovery_flush
  recovery_flush-Gains t =
      rw (accepting (length t.calls), recovery_flush) (ground (arith, append-nil (wire t)))

  write-true : (bytes : List ℕ) (t : Terminal) → (write answers bytes t).0 ≡ true
  unfolding write
  write-true bytes t = ground (arith, accepting (length t.calls))

  recovery_write-true : (bytes : List ℕ) (t : Terminal) → (recovery_write answers bytes t).0 ≡ true
  unfolding recovery_write
  recovery_write-true bytes t = ground (arith, accepting (length t.calls))

  recovery_flush-true : (t : Terminal) → (recovery_flush answers t).0 ≡ true
  unfolding recovery_flush
  recovery_flush-true t = ground (arith, accepting (length t.calls))

  abbrev GainsSome : Terminal → Terminal → Type 0
  GainsSome t u = (bytes : List ℕ) × Gains bytes t u

  GainsSome-trans :
      (bytes : List ℕ) (t u v : Terminal) → Gains bytes u v → GainsSome t u → GainsSome t v
  GainsSome-trans bytes t u v h (xs, g) = (xs ++ bytes, Gains-trans xs bytes t u v g h)

  write_chunks-Gains :
      (bytes : List ℕ) (chunk : ℕ) (t : Terminal)
      → is_none t.last_error ≡ true
      → ((write_chunks answers bytes chunk t).0 ≡ true)
        × Gains bytes t (write_chunks answers bytes chunk t).1
  write_chunks-Gains bytes chunk t fine = elim (write_chunks-SentFrom answers bytes chunk t) [
    | inl (ok, w, e) ↦ (
      ok,
      record {
        wire_lem = w;
        error = e;
        active = some_gain.1.active;
        cursor = some_gain.1.cursor;
        synchronized = some_gain.1.synchronized;
      },
    )
    | inr (n, tail, bad, le, w, ends, err) ↦ cc (some_gain.1.error)
  ]
    where
      some_gain : GainsSome t (write_chunks answers bytes chunk t).1
      some_gain =
          write_chunks-closed (GainsSome t) answers
            (λ b u. GainsSome-trans b t u (write answers b u).1 (write-Gains b u))
            (λ u. GainsSome-trans [] t u (flush answers u).1 (flush-Gains u))
            (λ b u. GainsSome-trans b t u (recovery_write answers b u).1 (recovery_write-Gains b u))
            bytes chunk t ([], ground (arith, append-nil (wire t)))

  -- A drawing within an update, which saves no cursor and does not flush.
  draw-within :
      (sixel : List ℕ) (restore : Bool) (chunk : ℕ) (t : Terminal)
      → is_none t.last_error ≡ true
      → t.update_active ≡ true
      → let t1 = (write answers display_mode_on t).1 in
        let t2 = (write answers cursor_home t1).1 in
        let t3 = (write_chunks answers sixel chunk t2).1 in
        let t4 = (recovery_write answers display_mode_off t3).1 in
        (is_none t2.last_error ≡ true) × (draw_at_home answers sixel restore chunk t ≡ (true, t4))
  unfolding draw_at_home
  draw-within sixel restore chunk t fine active =
      let t1 = (write answers display_mode_on t).1 in
      let t2 = (write answers cursor_home t1).1 in
      let t3 = (write_chunks answers sixel chunk t2).1 in
      let t4 = (recovery_write answers display_mode_off t3).1 in
      let g1 = write-Gains display_mode_on t in
      let g2 = write-Gains cursor_home t1 in
      let fine2 : is_none t2.last_error ≡ true = ap is_none (g2.error ∙ g1.error) ∙ fine in
      let g3 = write_chunks-Gains sixel chunk t2 fine2 in
      let g4 = recovery_write-Gains display_mode_off t3 in
      let active4 : t4.update_active ≡ true =
        g4.active ∙ g3.1.active ∙ g2.active ∙ g1.active ∙ active in
      (
        fine2,
        ground (
          arith,
          active4,
          g3.0,
          write-true display_mode_on t,
          write-true cursor_home t1,
          recovery_write-true display_mode_off t3,
        ),
      )

  -- What `begin_synchronized_update` gives outside an update.
  abbrev Begun : Bool → Bool → Terminal → Bool × Terminal → Type 0
  Begun preserve synchronized t (r, u) =
      (r ≡ true)
      × (wire u ≡ wire t ++ (only_if synchronized begin_update ++ only_if preserve save_cursor))
      × (is_none u.last_error ≡ true)
      × (u.update_active ≡ true)
      × (u.restore_cursor ≡ preserve)
      × (u.synchronized_active ≡ synchronized)

  begin-Begun :
      (preserve synchronized : Bool) (t : Terminal)
      → t.update_active ≡ false
      → Begun preserve synchronized t (begin_synchronized_update answers preserve synchronized t)
  unfolding begin_synchronized_update write
  begin-Begun true true t closed = ground (
    arith,
    accepting (length t.calls),
    accepting (suc (length t.calls)),
    append_assoc (wire t) begin_update save_cursor,
  )
  begin-Begun true false t closed = ground (arith, accepting (length t.calls))
  begin-Begun false true t closed = ground (arith, accepting (length t.calls))
  begin-Begun false false t closed = ground (arith, append-nil (wire t))

  end-Gains :
      (preserve synchronized : Bool) (t : Terminal)
      → t.update_active ≡ true
      → t.restore_cursor ≡ preserve
      → t.synchronized_active ≡ synchronized
      → let r = end_synchronized_update answers t in
        (r.0 ≡ true)
        × (wire r.1 ≡ wire t ++ (only_if preserve load_cursor ++ only_if synchronized end_update))
        × (r.1.last_error ≡ t.last_error)
        × (r.1.update_active ≡ false)
  unfolding end_synchronized_update recovery_write recovery_flush
  end-Gains true true t active cursor sync = ground (
    arith,
    accepting (length t.calls),
    accepting (suc (length t.calls)),
    accepting (suc (suc (length t.calls))),
    append_assoc (wire t) load_cursor end_update,
  )
  end-Gains true false t active cursor sync =
      ground (arith, accepting (length t.calls), accepting (suc (length t.calls)))
  end-Gains false true t active cursor sync =
      ground (arith, accepting (length t.calls), accepting (suc (length t.calls)))
  end-Gains false false t active cursor sync =
      ground (arith, accepting (length t.calls), append-nil (wire t))

  draw-Gains :
      (sixel : List ℕ) (restore : Bool) (chunk : ℕ) (t : Terminal)
      → is_none t.last_error ≡ true
      → t.update_active ≡ true
      → let r = draw_at_home answers sixel restore chunk t in
        (r.0 ≡ true) × Gains (display_mode_on ++ (cursor_home ++ (sixel ++ display_mode_off))) t r.1
  draw-Gains sixel restore chunk t fine active =
      let t1 = (write answers display_mode_on t).1 in
      let t2 = (write answers cursor_home t1).1 in
      let t3 = (write_chunks answers sixel chunk t2).1 in
      let t4 = (recovery_write answers display_mode_off t3).1 in
      let w = draw-within sixel restore chunk t fine active in
      let g3 = write_chunks-Gains sixel chunk t2 w.0 in
      rw w.1 (
        refl,
        Gains-trans display_mode_on _ t t1 t4 (write-Gains display_mode_on t) (
            Gains-trans cursor_home _ t1 t2 t4 (write-Gains cursor_home t1) (
              Gains-trans sixel display_mode_off t2 t3 t4 g3.1
                (recovery_write-Gains display_mode_off t3))),
      )

  -- On a sink that accepts every call, an update around a drawing succeeds: it puts exactly the bytes
  -- of the frame on the wire, in order, whatever the size of the chunks, and leaves no update active
  -- and no error.
  pub frame_transaction :
      (preserve synchronized restore : Bool) (sixel : List ℕ) (chunk : ℕ) (t : Terminal)
      → t.update_active ≡ false
      → let (begun, t1) = begin_synchronized_update answers preserve synchronized t in
        let (drawn, t2) = draw_at_home answers sixel restore chunk t1 in
        let (ended, t3) = end_synchronized_update answers t2 in
        ((begun && (drawn && ended)) ≡ true)
        × (wire t3 ≡ wire t ++ frame_bytes preserve synchronized sixel)
        × (t3.update_active ≡ false)
        × (good t3 ≡ true)
  unfolding good
  frame_transaction preserve synchronized restore sixel chunk t closed =
      let b = begin-Begun preserve synchronized t closed in
      let t1 = (begin_synchronized_update answers preserve synchronized t).1 in
      let d = draw-Gains sixel restore chunk t1 b.2 b.3 in
      let t2 = (draw_at_home answers sixel restore chunk t1).1 in
      let g = d.1 in
      let e =
        end-Gains preserve synchronized t2 (g.active ∙ b.3) (g.cursor ∙ b.4)
          (g.synchronized ∙ b.5) in
      (
        ground (arith, b.0, d.0, e.0),
        simp (e.1, g.wire_lem, b.1, append_assoc),
        e.3,
        ap is_none (e.2 ∙ g.error) ∙ b.2,
      )
