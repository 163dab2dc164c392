-- ===== src/Encoder/Parallel/Invariant.antt =====
-- Who works on which row, in every state that the threads can reach.
use rasterm.Base.{
  ℕ, ◌+◌, ◌≤◌, ◌<◌, ◌≡◌, refl, sym, ap, ◌&&◌, ltb, ◌==◌, Bool-cases, inl, inr, if◌then◌else◌,
  update, arith,
}
use rasterm.Encoder.Parallel.Total.{total, sum-le, sum-zero}
use rasterm.Encoder.Parallel.{
  Place, waiting, claiming, calling, leaving, Worker, Caller, outside, taking, running, awaiting,
  System, start,
}

-- 1 for a worker that has not finished the run of `generation` yet.
abbrev pub owes_at : ℕ → ℕ → Place → ℕ
owes_at generation observed waiting = if generation == observed then 0 else 1
owes_at generation observed (claiming rows) = 1
owes_at generation observed (calling rows row) = 1
owes_at generation observed leaving = 1

abbrev pub owes : ℕ → Worker → ℕ
owes generation w = owes_at generation w.observed_generation w.place

-- 1 for a worker that is in the row function with `row`.
abbrev pub on_place : ℕ → Place → ℕ
on_place row waiting = 0
on_place row (claiming rows) = 0
on_place row (calling rows taken) = if taken == row then 1 else 0
on_place row leaving = 0

abbrev pub on_row : ℕ → Worker → ℕ
on_row row w = on_place row w.place

abbrev pub caller_on_row : ℕ → Caller → ℕ
caller_on_row row outside = 0
caller_on_row row taking = 0
caller_on_row row (running taken) = if taken == row then 1 else 0
caller_on_row row awaiting = 0

-- A worker that is in a run is in the current one.
abbrev pub IsCurrentAt : ℕ → ℕ → ℕ → Place → Type 0
IsCurrentAt generation rows observed waiting = Unit {0}
IsCurrentAt generation rows observed (claiming copied) = (observed ≡ generation) × (copied ≡ rows)
IsCurrentAt generation rows observed (calling copied row) =
    (observed ≡ generation) × (copied ≡ rows) × (row < rows)
IsCurrentAt generation rows observed leaving = observed ≡ generation

abbrev pub IsCurrent : ℕ → ℕ → Worker → Type 0
IsCurrent generation rows w = IsCurrentAt generation rows w.observed_generation w.place

abbrev pub CallerFits : System → Caller → Type 0
CallerFits s outside = s.remaining_workers ≡ 0
CallerFits s taking = Unit {0}
CallerFits s (running row) = row < s.row_count
CallerFits s awaiting = s.row_count ≤ s.next_row

-- The count of workers left is right, and each row handed out is counted as done or is with one thread.
pub record Inv (n : ℕ) (s : System) : Type 0 where
  pub owed : s.remaining_workers ≡ total (owes s.generation) n s.worker
  pub current : (i : ℕ) → i < n → IsCurrent s.generation s.row_count (s.worker i)
  pub caller_fits : CallerFits s s.caller
  pub counted :
      (row : ℕ)
      → s.processed row + total (on_row row) n s.worker + caller_on_row row s.caller
        ≡ (if ltb row s.next_row && ltb row s.row_count then 1 else 0)

pub start-Inv : (n : ℕ) → Inv n start
start-Inv n = record {
  owed = sym (sum-zero n (λ k. owes 0 (start.worker k)) (λ i lt. refl));
  current = λ i lt. tt;
  caller_fits = refl;
  counted = λ row. ground (arith, sum-zero n (λ k. on_row row (start.worker k)) (λ i lt. refl));
}

pub IsCurrent-update :
    (generation rows : ℕ) (f : ℕ → Worker) (i : ℕ) (a : Worker) (n : ℕ)
    → ((j : ℕ) → j < n → IsCurrent generation rows (f j))
    → IsCurrent generation rows a
    → (j : ℕ) → j < n
    → IsCurrent generation rows (update f i a j)
IsCurrent-update generation rows f i a n h now j lt = elim (Bool-cases (j == i)) [
  | inl moved ↦ rw moved now
  | inr other ↦ rw other (h j lt)
]

module _ (n : ℕ) (s : System) (v : Inv n s) where
  -- Outside of a run every worker waits for the next one.
  pub at_rest :
      s.remaining_workers ≡ 0
      → (i : ℕ) → i < n
      → ((s.worker i).place ≡ waiting) × ((s.worker i).observed_generation ≡ s.generation)
  at_rest none i lt =
      rests (s.worker i).place refl
        (omega (arith, sum-le n i (λ k. owes s.generation (s.worker k)) lt, v.owed))
    where
      rests :
          (p : Place)
          → p ≡ (s.worker i).place
          → owes s.generation (s.worker i) ≡ 0
          → ((s.worker i).place ≡ waiting) × ((s.worker i).observed_generation ≡ s.generation)
      rests waiting e zero_owed =
          (sym e, ground (arith, ap (owes_at s.generation (s.worker i).observed_generation) e))
      rests (claiming rows) e zero_owed =
          absurd (omega (arith, ap (owes_at s.generation (s.worker i).observed_generation) e))
      rests (calling rows row) e zero_owed =
          absurd (omega (arith, ap (owes_at s.generation (s.worker i).observed_generation) e))
      rests leaving e zero_owed =
          absurd (omega (arith, ap (owes_at s.generation (s.worker i).observed_generation) e))
