-- ===== src/Encoder/Parallel.antt =====
-- `EncoderParallelExecutor` of src/encoder/SixelEncoder.cpp: the rows of a frame, taken by the calling
-- thread and `n` workers from one counter. A step is what a thread does between two points where
-- others may run: under the lock, at the atomic counter, or in the row function. `processed` counts how
-- often the function was called with each row in the current run. `notify_one` and `notify_all` may
-- wake a thread at any time, and a wait looks at its condition first.
mod Total
pub mod Invariant
mod Moves
pub mod Once
use rasterm.Base.{
  ℕ, zero, suc, ◌+◌, ◌-◌, ◌*◌, ◌%◌, ◌^◌, ◌≤◌, ◌<◌, min, max, ◌≡◌, ◌≢◌, Bool, true, false, not, ◌&&◌,
  ◌||◌, leb, ltb, if◌then◌else◌, update,
}
use rasterm.Base.Int.{ℤ, pos, pos_part, is_positive}

-- What the object keeps for itself; `workers` is the size of its vector.
pub record Executor : Type 0 where
  pub thread_count : ℕ
  pub workers : ℕ
  pub started : Bool

-- The constructor, where the machine reports `hardware` threads.
unfoldable pub construct : ℤ → ℕ → Executor
construct requested_threads hardware = record {
  thread_count =
      if is_positive requested_threads
      then min (pos_part requested_threads) 16
      else min 4 (max 1 hardware);
  workers = 0;
  started = false;
}

-- `ensureWorkers`, where the system starts at most `available` more threads before it throws.
unfoldable pub ensure_workers : ℕ → Executor → Executor
ensure_workers available e =
    if e.started || leb e.thread_count 1
    then e
    else (let wanted = e.thread_count - 1 in
        if leb wanted available
        then record e { started = true; workers = wanted }
        else record { started = true; workers = available; thread_count = available + 1 })

-- `usefulFor`.
unfoldable pub useful_for : ℕ → ℕ → Executor → Bool
useful_for rows pixels e =
    ltb 1 e.thread_count && (leb (e.thread_count * 4) rows && leb (128 * 128) pixels)

-- Where a worker is: in `start.wait`, before the counter, in the row function, or before it reports
-- that it has finished. `rows` is its own copy.
pub data Place : Type 0 where
  waiting : Place
  claiming : ℕ → Place
  calling : ℕ → ℕ → Place
  leaving : Place

pub record Worker : Type 0 where
  pub observed_generation : ℕ
  pub place : Place

-- Where the caller of `run` is.
pub data Caller : Type 0 where
  outside : Caller
  taking : Caller
  running : ℕ → Caller
  awaiting : Caller

pub record System : Type 0 where
  pub next_row : ℕ
  pub row_count : ℕ
  pub remaining_workers : ℕ
  pub generation : ℕ
  pub caller : Caller
  pub worker : ℕ → Worker
  pub processed : ℕ → ℕ

abbrev pub start : System
start = record {
  next_row = 0;
  row_count = 0;
  remaining_workers = 0;
  generation = 0;
  caller = outside;
  worker = λ i. record { observed_generation = 0; place = waiting };
  processed = λ row. 0;
}

-- A worker at another place.
abbrev pub move : System → ℕ → Place → System
move s i place = record s {
  worker =
      update s.worker i
        (record { observed_generation = (s.worker i).observed_generation; place = place });
}

abbrev pub next_generation : ℕ → ℕ
next_generation g = (g + 1) % 2 ^ 64

abbrev pub publish_rows : ℕ → ℕ → System → System
publish_rows n rows s = record {
  next_row = 0;
  row_count = rows;
  remaining_workers = n;
  generation = next_generation s.generation;
  caller = taking;
  worker = s.worker;
  processed = λ row. 0;
}

-- `run` and `processRows` in the calling thread, `workerLoop` and `processRows` in the workers.
pub data Step (n : ℕ) (s : System) : System → Type 0 where
  publish : (rows : ℕ) → s.caller ≡ outside → Step n s (publish_rows n rows s)
  take :
      s.caller ≡ taking
      → s.next_row < s.row_count
      → Step n s (record s { caller = running s.next_row; next_row = s.next_row + 1 })
  take_none :
      s.caller ≡ taking
      → s.row_count ≤ s.next_row
      → Step n s (record s { caller = awaiting; next_row = s.next_row + 1 })
  call :
      (row : ℕ)
      → s.caller ≡ running row
      → Step n s
          (record s { caller = taking; processed = update s.processed row (s.processed row + 1) })
  return : s.caller ≡ awaiting → s.remaining_workers ≡ 0 → Step n s (record s { caller = outside })
  wake :
      (i : ℕ)
      → i < n
      → (s.worker i).place ≡ waiting
      → s.generation ≢ (s.worker i).observed_generation
      → Step n s (record s {
        worker =
            update s.worker i
              (record { observed_generation = s.generation; place = claiming s.row_count });
      })
  claim :
      (i rows : ℕ)
      → i < n
      → (s.worker i).place ≡ claiming rows
      → s.next_row < rows
      → Step n s (record (move s i (calling rows s.next_row)) { next_row = s.next_row + 1 })
  claim_none :
      (i rows : ℕ)
      → i < n
      → (s.worker i).place ≡ claiming rows
      → rows ≤ s.next_row
      → Step n s (record (move s i leaving) { next_row = s.next_row + 1 })
  process :
      (i rows row : ℕ)
      → i < n
      → (s.worker i).place ≡ calling rows row
      → Step n s (record (move s i (claiming rows)) {
        processed = update s.processed row (s.processed row + 1);
      })
  finish :
      (i : ℕ)
      → i < n
      → (s.worker i).place ≡ leaving
      → Step n s (record (move s i waiting) { remaining_workers = s.remaining_workers - 1 })

pub data Reach (n : ℕ) : System → Type 0 where
  begin : Reach n start
  later : {s t : System} → Reach n s → Step n s t → Reach n t
