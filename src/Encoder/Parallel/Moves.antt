-- ===== src/Encoder/Parallel/Moves.antt =====
-- Every step of the threads keeps the count of who works on which row.
use mathlib.Core.Path.{subst}
use rasterm.Base.{
  ℕ, ◌+◌, ◌-◌, ◌≤◌, ◌<◌, ◌≡◌, ◌≢◌, refl, sym, ap, ◌∙◌, ◌&&◌, ltb, if◌then◌else◌, update, arith,
}
use rasterm.Encoder.Parallel.Total.{total-update, sum-le, sum-zero, sum-one}
use rasterm.Encoder.Parallel.{
  Place, waiting, claiming, calling, leaving, Worker, Caller, outside, taking, running, awaiting,
  System, move, next_generation, publish_rows, Step, publish, take, take_none, call, return, wake,
  claim, claim_none, process, finish, Reach, begin, later,
}
use rasterm.Encoder.Parallel.Invariant.{
  owes_at, owes, on_place, on_row, caller_on_row, IsCurrentAt, IsCurrent, CallerFits, Inv,
  start-Inv, IsCurrent-update, at_rest,
}

module _ (n : ℕ) (s : System) (v : Inv n s) where
  publish-Inv : (rows : ℕ) → s.caller ≡ outside → Inv n (publish_rows n rows s)
  publish-Inv rows e = record {
    owed = sym (sum-one n (λ k. owes next (s.worker k)) (λ i lt. all_owe i lt));
    current = λ i lt.
        subst (IsCurrentAt next rows (s.worker i).observed_generation) (sym (rest i lt).0) tt;
    caller_fits = tt;
    counted = λ row. ground (
      arith,
      sum-zero n (λ k. on_row row (s.worker k)) (λ i lt. ap (on_place row) (rest i lt).0),
    );
  }
    where
      next : ℕ
      next = next_generation s.generation

      rest :
          (i : ℕ)
          → i < n
          → ((s.worker i).place ≡ waiting) × ((s.worker i).observed_generation ≡ s.generation)
      rest i lt = at_rest n s v (subst (CallerFits s) e v.caller_fits) i lt

      all_owe : (i : ℕ) → i < n → owes next (s.worker i) ≡ 1
      all_owe i lt =
          ap (owes_at next (s.worker i).observed_generation) (rest i lt).0
          ∙ ground (arith, (rest i lt).1, changed s.generation)
        where
          changed : (g : ℕ) → next_generation g ≢ g
          changed g h = absurd (omega (arith, h))

  take-Inv :
      s.caller ≡ taking
      → s.next_row < s.row_count
      → Inv n (record s { caller = running s.next_row; next_row = s.next_row + 1 })
  take-Inv e lt = record {
    owed = v.owed;
    current = v.current;
    caller_fits = lt;
    counted = λ row. ground (arith, v.counted row, ap (caller_on_row row) e);
  }

  take_none-Inv :
      s.caller ≡ taking
      → s.row_count ≤ s.next_row
      → Inv n (record s { caller = awaiting; next_row = s.next_row + 1 })
  take_none-Inv e le = record {
    owed = v.owed;
    current = v.current;
    caller_fits = omega arith;
    counted = λ row. ground (arith, v.counted row, ap (caller_on_row row) e);
  }

  call-Inv :
      (row : ℕ)
      → s.caller ≡ running row
      → Inv n
          (record s { caller = taking; processed = update s.processed row (s.processed row + 1) })
  call-Inv row e = record {
    owed = v.owed;
    current = v.current;
    caller_fits = tt;
    counted = λ k. ground (arith, v.counted k, ap (caller_on_row k) e, same k);
  }
    where
      same : (k : ℕ) → k ≡ row → s.processed row ≡ s.processed k
      same k h = ap s.processed (sym h)

  return-Inv : s.caller ≡ awaiting → s.remaining_workers ≡ 0 → Inv n (record s { caller = outside })
  return-Inv e none = record {
    owed = v.owed;
    current = v.current;
    caller_fits = none;
    counted = λ row. ground (arith, v.counted row, ap (caller_on_row row) e);
  }

  -- A worker that goes elsewhere, with the counters as it leaves them.
  abbrev moved : ℕ → Worker → ℕ → ℕ → (ℕ → ℕ) → System
  moved i a next remaining processed = record s {
    worker = update s.worker i a;
    next_row = next;
    remaining_workers = remaining;
    processed = processed;
  }

  abbrev handed_out : ℕ → ℕ → ℕ
  handed_out next row = if ltb row next && ltb row s.row_count then 1 else 0

  CallerFits-moved :
      (i : ℕ) (a : Worker) (next remaining : ℕ) (processed : ℕ → ℕ) (c : Caller)
      → s.next_row ≤ next
      → remaining ≤ s.remaining_workers
      → CallerFits s c
      → CallerFits (moved i a next remaining processed) c
  CallerFits-moved i a next remaining processed outside le few h = omega (arith, h)
  CallerFits-moved i a next remaining processed taking le few h = tt
  CallerFits-moved i a next remaining processed (running row) le few h = h
  CallerFits-moved i a next remaining processed awaiting le few h = omega (arith, h)

  moved-Inv :
      (i : ℕ) (a : Worker) (next remaining : ℕ) (processed : ℕ → ℕ) (p : Place)
      → i < n
      → (s.worker i).place ≡ p
      → s.next_row ≤ next
      → remaining ≤ s.remaining_workers
      → remaining + owes_at s.generation (s.worker i).observed_generation p
        ≡ s.remaining_workers + owes s.generation a
      → IsCurrent s.generation s.row_count a
      → ((row : ℕ)
          → processed row + on_row row a + handed_out s.next_row row
            ≡ s.processed row + on_place row p + handed_out next row)
      → Inv n (moved i a next remaining processed)
  moved-Inv i a next remaining processed p lt e le few owed current counted = record {
    owed = omega (
      arith,
      v.owed,
      owed,
      total-update (owes s.generation) n i s.worker a lt,
      ap (owes_at s.generation (s.worker i).observed_generation) e,
    );
    current = IsCurrent-update s.generation s.row_count s.worker i a n v.current current;
    caller_fits = CallerFits-moved i a next remaining processed s.caller le few v.caller_fits;
    counted = λ row. omega (
      arith,
      v.counted row,
      counted row,
      total-update (on_row row) n i s.worker a lt,
      ap (on_place row) e,
    );
  }

  -- What the place of a worker says of the run.
  current_at :
      (i : ℕ) (p : Place)
      → i < n
      → (s.worker i).place ≡ p
      → IsCurrentAt s.generation s.row_count (s.worker i).observed_generation p
  current_at i p lt e =
      subst (IsCurrentAt s.generation s.row_count (s.worker i).observed_generation) e
        (v.current i lt)

  wake-Inv :
      (i : ℕ)
      → i < n
      → (s.worker i).place ≡ waiting
      → s.generation ≢ (s.worker i).observed_generation
      → Inv n (record s {
        worker =
            update s.worker i
              (record { observed_generation = s.generation; place = claiming s.row_count });
      })
  wake-Inv i lt e changed =
      moved-Inv i (record { observed_generation = s.generation; place = claiming s.row_count })
        s.next_row s.remaining_workers s.processed waiting lt e (omega arith) (omega arith)
        (ground arith) (refl, refl) (λ row. omega arith)

  abbrev at_place : ℕ → Place → Worker
  at_place i p = record { observed_generation = (s.worker i).observed_generation; place = p }

  claim-Inv :
      (i rows : ℕ)
      → i < n
      → (s.worker i).place ≡ claiming rows
      → s.next_row < rows
      → Inv n (record (move s i (calling rows s.next_row)) { next_row = s.next_row + 1 })
  claim-Inv i rows lt e some_left =
      let now = current_at i (claiming rows) lt e in
      moved-Inv i (at_place i (calling rows s.next_row)) (s.next_row + 1) s.remaining_workers
        s.processed (claiming rows) lt e (omega arith) (omega arith) (omega arith)
        (now.0, now.1, omega (arith, now.1)) (λ row. ground (arith, now.1))

  claim_none-Inv :
      (i rows : ℕ)
      → i < n
      → (s.worker i).place ≡ claiming rows
      → rows ≤ s.next_row
      → Inv n (record (move s i leaving) { next_row = s.next_row + 1 })
  claim_none-Inv i rows lt e none_left =
      let now = current_at i (claiming rows) lt e in
      moved-Inv i (at_place i leaving) (s.next_row + 1) s.remaining_workers s.processed
        (claiming rows) lt e (omega arith) (omega arith) (omega arith) now.0
        (λ row. ground (arith, now.1))

  process-Inv :
      (i rows row : ℕ)
      → i < n
      → (s.worker i).place ≡ calling rows row
      → Inv n (record (move s i (claiming rows)) {
        processed = update s.processed row (s.processed row + 1);
      })
  process-Inv i rows row lt e =
      let now = current_at i (calling rows row) lt e in
      moved-Inv i (at_place i (claiming rows)) s.next_row s.remaining_workers
        (update s.processed row (s.processed row + 1)) (calling rows row) lt e (omega arith)
        (omega arith) (omega arith) (now.0, now.1) (λ k. ground (arith, same k))
    where
      same : (k : ℕ) → k ≡ row → s.processed row ≡ s.processed k
      same k h = ap s.processed (sym h)

  finish-Inv :
      (i : ℕ)
      → i < n
      → (s.worker i).place ≡ leaving
      → Inv n (record (move s i waiting) { remaining_workers = s.remaining_workers - 1 })
  finish-Inv i lt e =
      let now = current_at i leaving lt e in
      let some_left : 1 ≤ s.remaining_workers = omega (
        arith,
        v.owed,
        sum-le n i (λ k. owes s.generation (s.worker k)) lt,
        ap (owes_at s.generation (s.worker i).observed_generation) e,
      ) in
      moved-Inv i (at_place i waiting) s.next_row (s.remaining_workers - 1) s.processed leaving lt e
        (omega arith) (omega arith) (last_one some_left now) tt (λ row. omega arith)
    where
      last_one :
          1 ≤ s.remaining_workers
          → (s.worker i).observed_generation ≡ s.generation
          → s.remaining_workers - 1 + 1
            ≡ s.remaining_workers + owes_at s.generation (s.worker i).observed_generation waiting
      last_one some now = ground (arith, some, now)

-- Every step of every thread keeps the invariant.
Step-Inv : {n : ℕ} {s t : System} → Step n s t → Inv n s → Inv n t
Step-Inv {n} {s} (publish rows e) v = publish-Inv n s v rows e
Step-Inv {n} {s} (take e lt) v = take-Inv n s v e lt
Step-Inv {n} {s} (take_none e le) v = take_none-Inv n s v e le
Step-Inv {n} {s} (call row e) v = call-Inv n s v row e
Step-Inv {n} {s} (return e none) v = return-Inv n s v e none
Step-Inv {n} {s} (wake i lt e changed) v = wake-Inv n s v i lt e changed
Step-Inv {n} {s} (claim i rows lt e left) v = claim-Inv n s v i rows lt e left
Step-Inv {n} {s} (claim_none i rows lt e left) v = claim_none-Inv n s v i rows lt e left
Step-Inv {n} {s} (process i rows row lt e) v = process-Inv n s v i rows row lt e
Step-Inv {n} {s} (finish i lt e) v = finish-Inv n s v i lt e

pub Reach-Inv : {n : ℕ} {s : System} → Reach n s → Inv n s
Reach-Inv {n} begin = start-Inv n
Reach-Inv (later r step) = Step-Inv step (Reach-Inv r)
