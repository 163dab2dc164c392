-- ===== src/Terminal/Tests.antt =====
-- Runs of the renderer, and its theorems at concrete inputs.
use rasterm.Base.{ℕ, ◌≡◌, refl, Bool, true, false, List, [], ◌∷◌, ltb, codes}
use rasterm.Terminal.{
  Terminal, fresh, write_chunks, draw_at_home, begin_synchronized_update, end_synchronized_update,
}
use rasterm.Terminal.Chunks.{SentFrom, write_chunks-SentFrom}
use rasterm.Terminal.Restore.{end-TriedSince}
use rasterm.Terminal.Transaction.{frame_bytes, frame_transaction}
use rasterm.Terminal.Update.{begins, draws_at_home, ends, run, run-construct-IsConsistent}
use rasterm.Terminal.Wire.{IsConsistent, wire}
use rasterm.Terminal.{construct}

abbrev always : ℕ → Bool
always n = true

-- A sink that refuses its first two calls, and then accepts.
abbrev refuses_two : ℕ → Bool
refuses_two n = ltb 1 n

abbrev image : List ℕ
image = codes "abcdefg"

abbrev updating : Terminal
updating = record (fresh false) { update_active = true; restore_cursor = true }

chunks_run : wire (write_chunks always image 3 (fresh false)).1 ≡ image
unfolding write_chunks
chunks_run = refl

-- The sink takes the first chunk and refuses the second.
chunks_refused : wire (write_chunks (λ n. ltb n 1) image 3 (fresh false)).1 ≡ codes "abc"
unfolding write_chunks
chunks_refused = refl

run-construct-IsConsistent_example : IsConsistent (
    run refuses_two
      (begins true true ∷ draws_at_home image false 3 ∷ ends ∷ [])
      (construct refuses_two true))
run-construct-IsConsistent_example =
    run-construct-IsConsistent refuses_two true
      (begins true true ∷ draws_at_home image false 3 ∷ ends ∷ [])

write_chunks-SentFrom_example :
    SentFrom 0 image (fresh false) (write_chunks always image 3 (fresh false))
write_chunks-SentFrom_example = write_chunks-SentFrom always image 3 (fresh false)

end-TriedSince_example : (end_synchronized_update refuses_two updating).1.update_active ≡ false
end-TriedSince_example = (end-TriedSince refuses_two updating refl).0

frame_transaction_example :
    wire
      (end_synchronized_update always
        (draw_at_home always image false 3
          (begin_synchronized_update always true true (fresh false)).1).1).1
    ≡ frame_bytes true true image
frame_transaction_example =
    (frame_transaction always (λ n. refl) true true false image 3 (fresh false) refl).1
