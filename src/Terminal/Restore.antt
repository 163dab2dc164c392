-- ===== src/Terminal/Restore.antt =====
-- What the renderer tries to undo, whatever the sink answers: the modes that a drawing or an update
-- switches on are switched off again, or the sink was asked to and refused.
use rasterm.Base.{
  ℕ, ◌≡◌, refl, sym, ap, ◌∙◌, ◌⊎◌, inl, inr, Bool, true, false, not, ◌&&◌, List, [], ◌∷◌, ◌++◌,
  append_assoc, Bool-cases, length, if◌then◌else◌, arith, suc,
}
use rasterm.Terminal.{
  Terminal, Call, wrote, retried, flushed, write, flush, recovery_write, recovery_flush,
  write_chunks, draw_at_home, end_synchronized_update, display_mode_on, display_mode_off,
  save_cursor, load_cursor, cursor_home, end_update,
}
use rasterm.Terminal.Closure.{closed, if-either, if-first, if-second, write_chunks-closed}

-- The sink was given `bytes` in one of these calls.
abbrev pub Tried : List ℕ → List Call → Type 0
Tried bytes [] = ⊥
Tried bytes (wrote b reply ∷ cs) = (b ≡ bytes) ⊎ Tried bytes cs
Tried bytes (retried b reply ∷ cs) = (b ≡ bytes) ⊎ Tried bytes cs
Tried bytes (flushed reply ∷ cs) = Tried bytes cs

-- The calls of `t'` are those of `t` and later ones, and one of the later ones has `bytes`.
abbrev pub TriedSince : List ℕ → Terminal → Terminal → Type 0
TriedSince bytes t t' = (new : List Call) × (t'.calls ≡ new ++ t.calls) × Tried bytes new

abbrev Later : Terminal → Terminal → Type 0
Later t t' = (new : List Call) × (t'.calls ≡ new ++ t.calls)

Tried-append-right : (bytes : List ℕ) (xs ys : List Call) → Tried bytes ys → Tried bytes (xs ++ ys)
Tried-append-right bytes [] ys h = h
Tried-append-right bytes (wrote b reply ∷ xs) ys h = inr (Tried-append-right bytes xs ys h)
Tried-append-right bytes (retried b reply ∷ xs) ys h = inr (Tried-append-right bytes xs ys h)
Tried-append-right bytes (flushed reply ∷ xs) ys h = Tried-append-right bytes xs ys h

Tried-append-left : (bytes : List ℕ) (xs ys : List Call) → Tried bytes xs → Tried bytes (xs ++ ys)
Tried-append-left bytes [] ys h = absurd h
Tried-append-left bytes (wrote b reply ∷ xs) ys (inl e) = inl e
Tried-append-left bytes (wrote b reply ∷ xs) ys (inr h) = inr (Tried-append-left bytes xs ys h)
Tried-append-left bytes (retried b reply ∷ xs) ys (inl e) = inl e
Tried-append-left bytes (retried b reply ∷ xs) ys (inr h) = inr (Tried-append-left bytes xs ys h)
Tried-append-left bytes (flushed reply ∷ xs) ys h = Tried-append-left bytes xs ys h

Later-trans : (t u v : Terminal) → Later t u → Later u v → Later t v
Later-trans t u v (xs, e) (ys, f) = (ys ++ xs, f ∙ ap (◌++◌ ys) e ∙ sym (append_assoc ys xs _))

TriedSince-Later :
    (bytes : List ℕ) (t u v : Terminal) → TriedSince bytes t u → Later u v → TriedSince bytes t v
TriedSince-Later bytes t u v (xs, e, h) (ys, f) =
    (ys ++ xs, f ∙ ap (◌++◌ ys) e ∙ sym (append_assoc ys xs _), Tried-append-right bytes ys xs h)

Later-TriedSince :
    (bytes : List ℕ) (t u v : Terminal) → Later t u → TriedSince bytes u v → TriedSince bytes t v
Later-TriedSince bytes t u v (xs, e) (ys, f, h) =
    (ys ++ xs, f ∙ ap (◌++◌ ys) e ∙ sym (append_assoc ys xs _), Tried-append-left bytes ys xs h)

module _ (answers : ℕ → Bool) where
  write-Later : (bytes : List ℕ) (t : Terminal) → Later t (write answers bytes t).1
  unfolding write
  write-Later bytes t = (wrote bytes (answers (length t.calls)) ∷ [], ground arith)

  flush-Later : (t : Terminal) → Later t (flush answers t).1
  unfolding flush
  flush-Later t = (flushed (answers (length t.calls)) ∷ [], ground arith)

  recovery_flush-Later : (t : Terminal) → Later t (recovery_flush answers t).1
  unfolding recovery_flush
  recovery_flush-Later t = elim (Bool-cases (answers (length t.calls))) [
    | inl e ↦ rw (e, recovery_flush) (flushed true ∷ [], refl)
    | inr e ↦
        rw (e, recovery_flush) (flushed (answers (suc (length t.calls))) ∷ flushed false ∷ [], refl)
  ]

  recovery_write-TriedSince :
      (bytes : List ℕ) (t : Terminal) → TriedSince bytes t (recovery_write answers bytes t).1
  unfolding recovery_write
  recovery_write-TriedSince bytes t = elim (Bool-cases (answers (length t.calls))) [
    | inl e ↦ rw (e, recovery_write) (wrote bytes true ∷ [], refl, inl refl)
    | inr e ↦
        rw (e, recovery_write)
          (retried bytes (answers (suc (length t.calls))) ∷ wrote bytes false ∷ [], refl, inl refl)
  ]

  synchronized-recovery_write :
      (bytes : List ℕ) (t : Terminal)
      → (recovery_write answers bytes t).1.synchronized_active ≡ t.synchronized_active
  unfolding recovery_write
  synchronized-recovery_write bytes t = ground arith

  recovery_write-Later :
      (bytes : List ℕ) (t : Terminal) → Later t (recovery_write answers bytes t).1
  recovery_write-Later bytes t = let h = recovery_write-TriedSince bytes t in (h.0, h.1)

  step-Later : (t0 t u : Terminal) → Later t u → Later t0 t → Later t0 u
  step-Later t0 t u h p = Later-trans t0 t u p h

  write_chunks-Later :
      (bytes : List ℕ) (chunk : ℕ) (t : Terminal) → Later t (write_chunks answers bytes chunk t).1
  write_chunks-Later bytes chunk t =
      write_chunks-closed (Later t) answers
        (λ b u. step-Later t u (write answers b u).1 (write-Later b u))
        (λ u. step-Later t u (flush answers u).1 (flush-Later u))
        (λ b u. step-Later t u (recovery_write answers b u).1 (recovery_write-Later b u)) bytes
        chunk t ([], refl)

  -- Whatever the sink answers to the calls before, the sink is asked to leave the display mode after
  -- every drawing at home, and to restore the cursor too where the drawing itself saved it, which it
  -- does only outside an update.
  pub draw_at_home-TriedSince :
      (sixel : List ℕ) (restore : Bool) (chunk : ℕ) (t : Terminal)
      → let t' = (draw_at_home answers sixel restore chunk t).1 in
        TriedSince display_mode_off t t'
        × ((restore && not t.update_active) ≡ true → TriedSince load_cursor t t')
  unfolding draw_at_home
  draw_at_home-TriedSince sixel restore chunk t = (
    Later-TriedSince display_mode_off t t3 t6 begun (
        TriedSince-Later display_mode_off t3 t4 t6 left
          (Later-trans t4 t5 t6 maybe_loaded flushed_after)),
    λ h.
        Later-TriedSince load_cursor t t4 t6 (Later-trans t t3 t4 begun (left.0, left.1))
          (TriedSince-Later load_cursor t4 t5 t6 (loaded h) flushed_after),
  )
    where
      save : Bool
      save = restore && not t.update_active

      t0 : Terminal
      t0 = (if save then write answers save_cursor t else (true, t)).1

      t1 : Terminal
      t1 = (write answers display_mode_on t0).1

      t2 : Terminal
      t2 = (write answers cursor_home t1).1

      t3 : Terminal
      t3 = (write_chunks answers sixel chunk t2).1

      t4 : Terminal
      t4 = (recovery_write answers display_mode_off t3).1

      t5 : Terminal
      t5 = (if save then recovery_write answers load_cursor t4 else (true, t4)).1

      t6 : Terminal
      t6 = (draw_at_home answers sixel restore chunk t).1

      begun : Later t t3
      begun =
          Later-trans t t2 t3
            (Later-trans t t1 t2
              (Later-trans t t0 t1
                (if-either (Later t) save _ (true, t) (write-Later save_cursor t) ([], refl))
                (write-Later display_mode_on t0))
              (write-Later cursor_home t1))
            (write_chunks-Later sixel chunk t2)

      left : TriedSince display_mode_off t3 t4
      left = recovery_write-TriedSince display_mode_off t3

      maybe_loaded : Later t4 t5
      maybe_loaded =
          if-either (Later t4) save _ (true, t4) (recovery_write-Later load_cursor t4) ([], refl)

      loaded : save ≡ true → TriedSince load_cursor t4 t5
      loaded h =
          if-first (TriedSince load_cursor t4) save _ (true, t4) h
            (recovery_write-TriedSince load_cursor t4)

      flushed_after : Later t5 t6
      flushed_after = if-either (Later t5) t5.update_active (true, t5) _ ([], refl) (flush-Later t5)

  -- Whatever the sink answers, the end of an update leaves no update active, and has asked the sink
  -- to restore the cursor if the update saved it, and to end the synchronized update if one was begun.
  pub end-TriedSince :
      (t : Terminal)
      → t.update_active ≡ true
      → let t' = (end_synchronized_update answers t).1 in
        (t'.update_active ≡ false)
        × (t.restore_cursor ≡ true → TriedSince load_cursor t t')
        × (t.synchronized_active ≡ true → TriedSince end_update t t')
  unfolding end_synchronized_update
  end-TriedSince t active =
      if-second
        (λ u.
          (u.update_active ≡ false)
          × (t.restore_cursor ≡ true → TriedSince load_cursor t u)
          × (t.synchronized_active ≡ true → TriedSince end_update t u))
        (not t.update_active) _ _ (ap not active)
        (
          refl,
          (λ h. TriedSince-Later load_cursor t t1 t3 (loaded h) after),
          λ h.
              Later-TriedSince end_update t t1 t3 maybe_loaded
                (TriedSince-Later end_update t1 t2 t3 (ended (kept h)) flushed_after),
        )
    where
      t1 : Terminal
      t1 = (if t.restore_cursor then recovery_write answers load_cursor t else (true, t)).1

      t2 : Terminal
      t2 = (if t1.synchronized_active then recovery_write answers end_update t1 else (true, t1)).1

      t3 : Terminal
      t3 = closed (recovery_flush answers t2).1

      maybe_loaded : Later t t1
      maybe_loaded =
          if-either (Later t) t.restore_cursor _ (true, t) (recovery_write-Later load_cursor t)
            ([], refl)

      loaded : t.restore_cursor ≡ true → TriedSince load_cursor t t1
      loaded h =
          if-first (TriedSince load_cursor t) t.restore_cursor _ (true, t) h
            (recovery_write-TriedSince load_cursor t)

      kept : t.synchronized_active ≡ true → t1.synchronized_active ≡ true
      kept h =
          if-either (λ u. u.synchronized_active ≡ true) t.restore_cursor _ (true, t)
            (synchronized-recovery_write load_cursor t ∙ h) h

      ended : t1.synchronized_active ≡ true → TriedSince end_update t1 t2
      ended h =
          if-first (TriedSince end_update t1) t1.synchronized_active _ (true, t1) h
            (recovery_write-TriedSince end_update t1)

      flushed_after : Later t2 t3
      flushed_after = recovery_flush-Later t2

      after : Later t1 t3
      after =
          Later-trans t1 t2 t3
            (if-either (Later t1) t1.synchronized_active _ (true, t1)
              (recovery_write-Later end_update t1) ([], refl))
            flushed_after
