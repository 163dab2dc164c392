-- ===== src/Encoder/Parallel/Once.antt =====
-- What `run` promises its caller.
use mathlib.Core.Path.{subst}
use rasterm.Base.{ℕ, ◌+◌, ◌≤◌, ◌<◌, ◌≡◌, ◌≢◌, refl, sym, ap, ◌∙◌, ltb, if◌then◌else◌, arith}
use native.Mathlib.Decide.{dec_lt}
use rasterm.Encoder.Parallel.{
  Place, waiting, claiming, calling, leaving, Caller, outside, taking, running, awaiting, System,
  Step, take, take_none, call, return, wake, claim, claim_none, process, finish, Reach,
}
use rasterm.Encoder.Parallel.Total.{total, sum-zero, sum-some}
use rasterm.Encoder.Parallel.Moves.{Reach-Inv}
use rasterm.Encoder.Parallel.Invariant.{
  owes, on_row, caller_on_row, Inv, at_rest, on_place, owes_at, CallerFits,
}

-- When the calling thread has seen that no worker remains, and so when `run` returns, the row function
-- has been called exactly once with each row of the frame, with no other number, and every worker is
-- back in its wait, whatever the order in which the threads ran, in this run and in the runs before it.
pub run-once :
    {n : ℕ} {s : System}
    → Reach n s
    → s.caller ≡ awaiting
    → s.remaining_workers ≡ 0
    → ((row : ℕ) → s.processed row ≡ (if ltb row s.row_count then 1 else 0))
      × ((i : ℕ) → i < n → (s.worker i).place ≡ waiting)
run-once {n} {s} r e none =
    let v = Reach-Inv r in
    let quiet = at_rest n s v none in
    let all_taken : s.row_count ≤ s.next_row = subst (CallerFits s) e v.caller_fits in
    (
      λ row. ground (
        arith,
        v.counted row,
        ap (caller_on_row row) e,
        sum-zero n (λ k. on_row row (s.worker k)) (λ i lt. ap (on_place row) (quiet i lt).0),
      ),
      λ i lt. (quiet i lt).0,
    )

-- No thread ever works on a row that another one works on or that is done, and no row outside of the
-- frame is taken.
pub rows_apart :
    {n : ℕ} {s : System}
    → Reach n s
    → (row : ℕ)
    → s.processed row + total (on_row row) n s.worker + caller_on_row row s.caller
      ≤ (if ltb row s.row_count then 1 else 0)
rows_apart r row = ground (arith, (Reach-Inv r).counted row)

-- In every state of a run some thread can take a step: there is no deadlock.
pub some_step : {n : ℕ} {s : System} → Reach n s → s.caller ≢ outside → (t : System) × Step n s t
some_step {n} {s} r inside = caller_step s.caller refl
  where
    v : Inv n s
    v = Reach-Inv r

    worker_step :
        (i : ℕ)
        → i < n
        → 0 < owes s.generation (s.worker i)
        → (p : Place) → p ≡ (s.worker i).place
        → (t : System) × Step n s t
    worker_step i lt owed waiting e =
        (_, wake i lt (sym e) (λ same. absurd (ground (arith, owed, sym e, owes_none i e same))))
      where
        owes_none :
            (i : ℕ)
            → waiting ≡ (s.worker i).place
            → s.generation ≡ (s.worker i).observed_generation
            → owes s.generation (s.worker i) ≡ 0
        owes_none i e same =
            ap (owes_at s.generation (s.worker i).observed_generation) (sym e)
            ∙ ground (arith, same)
    worker_step i lt owed (claiming rows) e = elim (dec_lt s.next_row rows) [
      | yes more ↦ (_, claim i rows lt (sym e) more)
      | no none ↦ (_, claim_none i rows lt (sym e) (omega arith))
    ]
    worker_step i lt owed (calling rows row) e = (_, process i rows row lt (sym e))
    worker_step i lt owed leaving e = (_, finish i lt (sym e))

    caller_step : (c : Caller) → c ≡ s.caller → (t : System) × Step n s t
    caller_step outside e = absurd (inside (sym e))
    caller_step taking e = elim (dec_lt s.next_row s.row_count) [
      | yes more ↦ (_, take (sym e) more)
      | no none ↦ (_, take_none (sym e) (omega arith))
    ]
    caller_step (running row) e = (_, call row (sym e))
    caller_step awaiting e = elim (dec_lt 0 s.remaining_workers) [
      | yes left ↦
          let some_worker =
            sum-some n (λ k. owes s.generation (s.worker k)) (omega (arith, v.owed)) in
          worker_step some_worker.0 some_worker.1 some_worker.2 (s.worker some_worker.0).place refl
      | no none ↦ (_, return (sym e) (omega arith))
    ]
