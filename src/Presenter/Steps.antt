-- ===== src/Presenter/Steps.antt =====
-- The steps of the threads, in any order, and the runs that they make.
use rasterm.Base.{ℕ, suc, ◌≡◌, Bool, true, false, ◌⊎◌}
use rasterm.Error.{ErrorCode}
use rasterm.Presenter.State.{
  Presenter, absent, looping, limiting, resetting, rendering, returned, has_pending,
  fresh_presenter,
}
use rasterm.Presenter.Submit.{Submission, all_fits, submit, invalidate, finish_wait}
use rasterm.Presenter.Worker.{
  stop_worker, take_reset, finish_reset, start_limit, take_frame, finish_frame, shutdown_in_worker,
  start_shutdown, finish_shutdown, Start, initialize,
}

-- Whether the worker can take the frame that waits: at the top of its loop without a frame rate limit
-- and without a request to reset, or at the end of its wait for the next frame's time.
pub data CanTake (p : Presenter) : Type 0 where
  at_top :
      p.phase ≡ looping
      → p.reset_requested ≡ false
      → has_pending p ≡ true
      → p.limited ≡ false
      → CanTake p
  after_limit : p.phase ≡ limiting → CanTake p

-- A step other than a submission. A status that a thread only reads or overwrites is `reports`.
pub data Step (p : Presenter) : Presenter → Type 0 where
  invalidates : Step p (invalidate p).1
  reports : (code : ErrorCode) → Step p (record p { latest_status = code })
  drains : Step p (finish_wait p).1
  stops : (p.phase ≡ looping) ⊎ (p.phase ≡ limiting) → p.stopping ≡ true → Step p (stop_worker p)
  resets : p.phase ≡ looping → p.stopping ≡ false → p.reset_requested ≡ true → Step p (take_reset p)
  has_reset : p.phase ≡ resetting → Step p (finish_reset p)
  limits :
      p.phase ≡ looping
      → p.stopping ≡ false
      → p.reset_requested ≡ false
      → has_pending p ≡ true
      → p.limited ≡ true
      → Step p (start_limit p)
  takes : CanTake p → p.stopping ≡ false → Step p (take_frame p).1
  finishes :
      p.phase ≡ rendering
      → (error : ErrorCode) (rendered : Bool) (status : ErrorCode)
      → Step p (finish_frame error rendered status p)
  shuts_itself : p.phase ≡ rendering → Step p (shutdown_in_worker p)
  shuts : p.joining ≡ false → Step p (start_shutdown p)
  joins : p.joining ≡ true → (p.phase ≡ absent) ⊎ (p.phase ≡ returned) → Step p (finish_shutdown p)
  initializes :
      p.phase ≡ absent
      → p.joining ≡ false
      → p.running ≡ false
      → (start : Start) (listening limited : Bool) → Step p (initialize start listening limited p).1

-- A run of `n` steps, in which memory does not run out.
pub data Run : ℕ → Presenter → Type 0 where
  begins : Run 0 fresh_presenter
  submits :
      {n : ℕ} {p : Presenter} → (s : Submission) → Run n p → Run (suc n) (submit all_fits s p).1
  steps : {n : ℕ} {p q : Presenter} → Step p q → Run n p → Run (suc n) q
