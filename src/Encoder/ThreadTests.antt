-- ===== src/Encoder/ThreadTests.antt =====
-- One worker and the calling thread share a frame of two rows.
use rasterm.Base.{ℕ, ◌<◌, ◌≡◌, refl, ltb, if◌then◌else◌, arith}
use rasterm.Encoder.Parallel.{
  waiting, awaiting, System, start, Step, publish, take, publish_rows, take_none, call, wake, claim,
  claim_none, process, finish, Reach, begin, later,
}
use rasterm.Encoder.Parallel.Once.{run-once, some_step}

-- The caller takes row 0, the worker row 1; both find that no row is left, and the worker reports.
finished :
    (s : System) × Reach 1 s × (s.caller ≡ awaiting) × (s.remaining_workers ≡ 0) × (s.row_count ≡ 2)
finished =
    let r1 : Reach 1 (publish_rows 1 2 start) = later begin (publish 2 refl) in
    let r2 = later r1 (take refl (omega arith)) in
    let r3 = later r2 (wake 0 (omega arith) refl (ground arith)) in
    let r4 = later r3 (claim 0 2 (omega arith) refl (omega arith)) in
    let r5 = later r4 (call 0 refl) in
    let r6 = later r5 (process 0 2 1 (omega arith) refl) in
    let r7 = later r6 (take_none refl (omega arith)) in
    let r8 = later r7 (claim_none 0 2 (omega arith) refl (omega arith)) in
    let r9 = later r8 (finish 0 (omega arith) refl) in (_, r9, refl, refl, refl)

run-once_example :
    ((row : ℕ) → finished.0.processed row ≡ (if ltb row finished.0.row_count then 1 else 0))
    × ((i : ℕ) → i < 1 → (finished.0.worker i).place ≡ waiting)
run-once_example = run-once finished.1 finished.2 finished.3

some_step_example : (t : System) × Step 1 finished.0 t
some_step_example = some_step finished.1 (λ e. cc (finished.2, e))
