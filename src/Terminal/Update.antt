-- ===== src/Terminal/Update.antt =====
-- The methods of the renderer one after another: the state that they keep, whatever the sink answers.
use rasterm.Base.{ℕ, Bool, true, false, List, [], ◌∷◌, arith, if◌then◌else◌}
use rasterm.Terminal.{
  Terminal, write, clear_and_home, begin_synchronized_update, end_synchronized_update, draw_at_home,
  draw_at_cell, construct, fresh, hide_cursor, enter_alternate, display_mode_off,
}
use rasterm.Terminal.Closure.{
  clear_and_home-closed, draw_at_home-closed, draw_at_cell-closed, end-closed,
}
use rasterm.Terminal.Wire.{
  IsConsistent, write-IsConsistent, flush-IsConsistent, recovery_write-IsConsistent,
  recovery_flush-IsConsistent,
}

-- A call of a public method.
pub data Operation : Type 0 where
  clears : Operation
  begins : Bool → Bool → Operation
  ends : Operation
  draws_at_home : List ℕ → Bool → ℕ → Operation
  draws_at_cell : ℕ → ℕ → List ℕ → Bool → ℕ → Operation

module _ (answers : ℕ → Bool) where
  pub step : Operation → Terminal → Bool × Terminal
  step clears t = clear_and_home answers t
  step (begins preserve synchronized) t = begin_synchronized_update answers preserve synchronized t
  step ends t = end_synchronized_update answers t
  step (draws_at_home sixel restore chunk) t = draw_at_home answers sixel restore chunk t
  step (draws_at_cell row column sixel restore chunk) t =
      draw_at_cell answers row column sixel restore chunk t

  pub run : List Operation → Terminal → Terminal
  run [] t = t
  run (op ∷ ops) t = run ops (step op t).1

  begin-IsConsistent :
      (preserve synchronized : Bool) (t : Terminal)
      → IsConsistent t
      → IsConsistent (begin_synchronized_update answers preserve synchronized t).1
  unfolding begin_synchronized_update write
  begin-IsConsistent preserve synchronized t v = ground arith

  end-IsConsistent :
      (t : Terminal) → IsConsistent t → IsConsistent (end_synchronized_update answers t).1
  end-IsConsistent =
      end-closed IsConsistent answers (write-IsConsistent answers) (flush-IsConsistent answers)
        (recovery_write-IsConsistent answers) (recovery_flush-IsConsistent answers)
        (λ t v. ground arith)

  -- Every method keeps the state consistent, whatever the sink answers.
  pub step-IsConsistent :
      (op : Operation) (t : Terminal) → IsConsistent t → IsConsistent (step op t).1
  unfolding step
  step-IsConsistent clears t v =
      clear_and_home-closed IsConsistent answers (write-IsConsistent answers)
        (flush-IsConsistent answers) (recovery_write-IsConsistent answers) t v
  step-IsConsistent (begins preserve synchronized) t v =
      begin-IsConsistent preserve synchronized t v
  step-IsConsistent ends t v = end-IsConsistent t v
  step-IsConsistent (draws_at_home sixel restore chunk) t v =
      draw_at_home-closed IsConsistent answers (write-IsConsistent answers)
        (flush-IsConsistent answers) (recovery_write-IsConsistent answers) sixel restore chunk t v
  step-IsConsistent (draws_at_cell row column sixel restore chunk) t v =
      draw_at_cell-closed IsConsistent answers (write-IsConsistent answers)
        (flush-IsConsistent answers) (recovery_write-IsConsistent answers) row column sixel restore
        chunk t v

  construct-IsConsistent : (alternate : Bool) → IsConsistent (construct answers alternate)
  unfolding construct
  construct-IsConsistent alternate = flush-IsConsistent answers _ (
      write-IsConsistent answers display_mode_off _
        (write-IsConsistent answers hide_cursor _ (start alternate)))
    where
      start :
          (b : Bool)
          → IsConsistent (if b then (write answers enter_alternate (fresh b)).1 else fresh b)
      start true = write-IsConsistent answers enter_alternate (fresh true) (ground arith)
      start false = ground arith

  run-IsConsistent :
      (ops : List Operation) (t : Terminal) → IsConsistent t → IsConsistent (run ops t)
  unfolding run
  run-IsConsistent [] t v = v
  run-IsConsistent (op ∷ ops) t v = run-IsConsistent ops (step op t).1 (step-IsConsistent op t v)

  -- The renderer is consistent after its construction and any calls of its methods, whatever the
  -- sink answers: its counter is the number of bytes that the sink accepted at a first try, modulo
  -- 2^64, and the marks of a saved cursor and of a synchronized update are set only inside an update.
  pub run-construct-IsConsistent :
      (alternate : Bool) (ops : List Operation)
      → IsConsistent (run ops (construct answers alternate))
  run-construct-IsConsistent alternate ops =
      run-IsConsistent ops _ (construct-IsConsistent alternate)
