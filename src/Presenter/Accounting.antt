-- ===== src/Presenter/Accounting.antt =====
-- The frames that the statistics count, over every interleaving of the threads.
use rasterm.Base.{
  ℕ, suc, ◌+◌, ◌^◌, ◌≤◌, ◌<◌, ◌≡◌, refl, Bool, true, false, ◌⊎◌, inl, inr, if◌then◌else◌,
  Bool-cases, arith,
}
use rasterm.Error.{ErrorCode, presenter_stopped, invalid_argument}
use rasterm.Presenter.State.{
  View, FrameKind, packed, indexed, Stats, absent, limiting, rendering, returned, Presenter,
  increment, has_pending, is_closed,
}
use rasterm.Presenter.Submit.{
  Submission, Method, copies, shares, owns, all_fits, Outcome, accepted, refused, reject,
  merge_step, publish, submit_copy, submit_shared, submit_owned, submit, invalidate, finish_wait,
}
use rasterm.Presenter.Worker.{
  stop_worker, take_reset, finish_reset, start_limit, take_frame, finish_frame, shutdown_in_worker,
  start_shutdown, finish_shutdown, Start, rate_invalid, engine_failed, memory_failed, thread_failed,
  started, initialize,
}
use rasterm.Presenter.Steps.{
  CanTake, at_top, after_limit, Step, invalidates, reports, drains, stops, resets, has_reset,
  limits, takes, finishes, shuts_itself, shuts, joins, initializes, Run, begins, submits, steps,
}

-- What a submission that is taken changes of the counters and of the threads' state.
pub record IsCounted (p q : Presenter) : Type 0 where
  pub is_open : is_closed p ≡ false
  pub submitted : q.statistics.submitted ≡ increment p.statistics.submitted
  pub replaced :
      q.statistics.replaced
      ≡ (if has_pending p then increment p.statistics.replaced else p.statistics.replaced)
  pub presented : q.statistics.presented ≡ p.statistics.presented
  pub unchanged : q.statistics.unchanged ≡ p.statistics.unchanged
  pub failed : q.statistics.failed ≡ p.statistics.failed
  pub rejected : q.statistics.rejected ≡ p.statistics.rejected
  pub cancelled : q.statistics.cancelled ≡ p.statistics.cancelled
  pub generation : q.pending_generation ≡ increment p.pending_generation
  pub consumed : q.consumed_generation ≡ p.consumed_generation
  pub active : q.rendering_active ≡ p.rendering_active
  pub phase : q.phase ≡ p.phase
  pub running : q.running ≡ p.running
  pub stopping : q.stopping ≡ p.stopping
  pub joining : q.joining ≡ p.joining

-- A submission is taken, or rejected with a code.
abbrev pub Effect : Presenter → Outcome × Presenter → Type 0
Effect p r =
    ((r.0 ≡ accepted) × IsCounted p r.1)
    ⊎ ((r.0 ≡ refused) × (code : ErrorCode) × (r.1 ≡ reject code p))

pub submit_copy-Effect :
    (kind : FrameKind) (v : View) (p : Presenter) → Effect p (submit_copy all_fits kind v p)
unfolding submit_copy merge_step publish
submit_copy-Effect packed v p = elim (Bool-cases (is_closed p)) [
  | inl closed ↦ rw closed (inr (refl, presenter_stopped, refl))
  | inr opened ↦ elim (Bool-cases (has_pending p)) [
    | inl e ↦ rw (opened, e) (inl (refl, ground arith))
    | inr e ↦ rw (opened, e) (inl (refl, ground arith))
  ]
]
submit_copy-Effect indexed v p = elim (Bool-cases (is_closed p)) [
  | inl closed ↦ rw closed (inr (refl, presenter_stopped, refl))
  | inr opened ↦ elim (Bool-cases (has_pending p)) [
    | inl e ↦ rw (opened, e) (inl (refl, ground arith))
    | inr e ↦ rw (opened, e) (inl (refl, ground arith))
  ]
]

pub submit_shared-Effect :
    (kind : FrameKind) (v : View) (lifetime : ℕ) (trusted : Bool) (p : Presenter)
    → Effect p (submit_shared all_fits kind v lifetime trusted p)
unfolding submit_shared merge_step publish
submit_shared-Effect packed v lifetime trusted p = elim (Bool-cases (is_closed p)) [
  | inl closed ↦ rw closed (inr (refl, presenter_stopped, refl))
  | inr opened ↦ elim (Bool-cases (has_pending p)) [
    | inl e ↦ rw (opened, e) (inl (refl, ground arith))
    | inr e ↦ rw (opened, e) (inl (refl, ground arith))
  ]
]
submit_shared-Effect indexed v lifetime trusted p = elim (Bool-cases (is_closed p)) [
  | inl closed ↦ rw closed (inr (refl, presenter_stopped, refl))
  | inr opened ↦ elim (Bool-cases (has_pending p)) [
    | inl e ↦ rw (opened, e) (inl (refl, ground arith))
    | inr e ↦ rw (opened, e) (inl (refl, ground arith))
  ]
]

submit_owned-Effect :
    (kind : FrameKind) (v : View) (lifetime : ℕ) (p : Presenter)
    → Effect p (submit_owned all_fits kind v lifetime p)
unfolding submit_owned
submit_owned-Effect kind v lifetime p = elim (submit_shared-Effect kind v lifetime true p) [
  | inl (e, c) ↦ rw e (inl (refl, c))
  | inr (e, code, r) ↦ rw e (inr (refl, code, r))
]

-- Every submission, when memory suffices, is taken or rejected.
pub submit-Effect : (s : Submission) (p : Presenter) → Effect p (submit all_fits s p)
unfolding submit
submit-Effect s p = elim (Bool-cases s.valid) [
  | inr invalid ↦ rw invalid (inr (refl, invalid_argument, refl))
  | inl valid ↦ rw valid (by_method s.method)
]
  where
    by_method :
        (m : Method)
        → Effect p (elim m [
          | copies ↦ submit_copy all_fits s.kind s.view p
          | shares lifetime ↦ submit_shared all_fits s.kind s.view lifetime false p
          | owns lifetime ↦ submit_owned all_fits s.kind s.view lifetime p
        ])
    by_method copies = submit_copy-Effect s.kind s.view p
    by_method (shares lifetime) = submit_shared-Effect s.kind s.view lifetime false p
    by_method (owns lifetime) = submit_owned-Effect s.kind s.view lifetime p

-- The frames that wait, and those with the engine: one or none.
abbrev pub waiting : Presenter → ℕ
waiting p = if has_pending p then 1 else 0

abbrev pub in_engine : Presenter → ℕ
in_engine p = if p.rendering_active then 1 else 0

-- The frames whose end the statistics count.
abbrev pub ended : Stats → ℕ
ended s = s.presented + s.unchanged + s.failed + s.replaced + s.cancelled

-- The state of a presenter after `n` steps: each frame that was taken has ended, waits or is with the
-- engine, and the flags agree with where the worker is.
pub record IsAccounted (n : ℕ) (p : Presenter) : Type 0 where
  pub total : p.statistics.submitted ≡ ended p.statistics + waiting p + in_engine p
  pub submissions : p.statistics.submitted ≤ n
  pub rejections : p.statistics.rejected ≤ n
  pub generations : p.pending_generation ≤ n
  pub order : p.consumed_generation ≤ p.pending_generation
  pub closing : p.joining ≡ true → (has_pending p ≡ false) × (is_closed p ≡ true)
  pub stopped : p.running ≡ false → has_pending p ≡ false
  pub limit : p.phase ≡ limiting → p.stopping ≡ false → has_pending p ≡ true
  pub working : p.rendering_active ≡ true → p.phase ≡ rendering
  pub active : p.phase ≡ rendering → p.rendering_active ≡ true

increment-small : (n : ℕ) → suc n < 2 ^ 64 → increment n ≡ suc n
increment-small n h = omega arith

reject-IsAccounted :
    (code : ErrorCode) (n : ℕ) (p : Presenter)
    → suc n < 2 ^ 64
    → IsAccounted n p
    → IsAccounted (suc n) (reject code p)
unfolding reject
reject-IsAccounted code n p h v = ground arith

counted-IsAccounted :
    (n : ℕ) (p q : Presenter)
    → suc n < 2 ^ 64
    → IsCounted p q
    → IsAccounted n p
    → IsAccounted (suc n) q
counted-IsAccounted n p q h c v = ground arith

submit-IsAccounted :
    (s : Submission) (n : ℕ) (p : Presenter)
    → suc n < 2 ^ 64
    → IsAccounted n p
    → IsAccounted (suc n) (submit all_fits s p).1
submit-IsAccounted s n p h v = elim (submit-Effect s p) [
  | inl (e, c) ↦ counted-IsAccounted n p _ h c v
  | inr (e, code, r) ↦ rw r (reject-IsAccounted code n p h v)
]

take_frame-IsAccounted :
    (n : ℕ) (p : Presenter)
    → CanTake p
    → p.stopping ≡ false
    → IsAccounted n p
    → IsAccounted (suc n) (take_frame p).1
unfolding take_frame
take_frame-IsAccounted n p (at_top top asked pending free) h v = ground arith
take_frame-IsAccounted n p (after_limit limit) h v = ground arith

finish_frame-IsAccounted :
    (n : ℕ) (p : Presenter) (error : ErrorCode) (rendered : Bool) (status : ErrorCode)
    → suc n < 2 ^ 64
    → p.phase ≡ rendering
    → IsAccounted n p
    → IsAccounted (suc n) (finish_frame error rendered status p)
unfolding finish_frame
finish_frame-IsAccounted n p error rendered status h e v = ground arith

start_shutdown-IsAccounted :
    (n : ℕ) (p : Presenter)
    → suc n < 2 ^ 64
    → IsAccounted n p
    → IsAccounted (suc n) (start_shutdown p)
unfolding start_shutdown
start_shutdown-IsAccounted n p h v = elim (Bool-cases p.running) [
  | inl up ↦ elim (Bool-cases (has_pending p)) [
    | inl e ↦ rw (up, e) (ground arith)
    | inr e ↦ rw (up, e) (ground arith)
  ]
  | inr down ↦ rw down (ground arith)
]

finish_shutdown-IsAccounted :
    (n : ℕ) (p : Presenter)
    → p.joining ≡ true
    → (p.phase ≡ absent) ⊎ (p.phase ≡ returned)
    → IsAccounted n p
    → IsAccounted (suc n) (finish_shutdown p)
unfolding finish_shutdown
finish_shutdown-IsAccounted n p j (inl e) v = ground arith
finish_shutdown-IsAccounted n p j (inr e) v = ground arith

initialize-IsAccounted :
    (n : ℕ) (p : Presenter) (start : Start) (listening limited : Bool)
    → p.phase ≡ absent
    → p.joining ≡ false
    → p.running ≡ false
    → IsAccounted n p
    → IsAccounted (suc n) (initialize start listening limited p).1
unfolding initialize
initialize-IsAccounted n p rate_invalid listening limited e j r v = ground arith
initialize-IsAccounted n p (engine_failed code) listening limited e j r v = ground arith
initialize-IsAccounted n p memory_failed listening limited e j r v = ground arith
initialize-IsAccounted n p thread_failed listening limited e j r v = ground arith
initialize-IsAccounted n p started listening limited e j r v = ground arith

invalidate-IsAccounted :
    (n : ℕ) (p : Presenter)
    → suc n < 2 ^ 64
    → IsAccounted n p
    → IsAccounted (suc n) (invalidate p).1
unfolding invalidate
invalidate-IsAccounted n p h v = elim (Bool-cases (is_closed p)) [
  | inl closed ↦ rw closed (reject-IsAccounted presenter_stopped n p h v)
  | inr opened ↦ rw opened (ground arith)
]

Step-IsAccounted :
    {p q : Presenter}
    → (n : ℕ) → suc n < 2 ^ 64
    → Step p q
    → IsAccounted n p
    → IsAccounted (suc n) q
unfolding stop_worker take_reset finish_reset start_limit shutdown_in_worker finish_wait
Step-IsAccounted {p} n h invalidates v = invalidate-IsAccounted n p h v
Step-IsAccounted n h (reports code) v = ground arith
Step-IsAccounted n h drains v = ground arith
Step-IsAccounted n h (stops at stopping) v = ground arith
Step-IsAccounted n h (resets at going asked) v = ground arith
Step-IsAccounted n h (has_reset at) v = ground arith
Step-IsAccounted n h (limits at going asked pending limited) v = ground arith
Step-IsAccounted {p} n h (takes can going) v = take_frame-IsAccounted n p can going v
Step-IsAccounted {p} n h (finishes at error rendered status) v =
    finish_frame-IsAccounted n p error rendered status h at v
Step-IsAccounted n h (shuts_itself at) v = ground arith
Step-IsAccounted {p} n h (shuts free) v = start_shutdown-IsAccounted n p h v
Step-IsAccounted {p} n h (joins joining at) v = finish_shutdown-IsAccounted n p joining at v
Step-IsAccounted {p} n h (initializes at free down start listening limited) v =
    initialize-IsAccounted n p start listening limited at free down v

-- In every run of fewer than 2^64 steps in which memory suffices, whatever the interleaving of the
-- threads: the frames that were taken are those that were presented, left unchanged, failed, replaced
-- or cancelled, with the one that waits and the one with the engine.
pub Run-IsAccounted : {n : ℕ} {p : Presenter} → n < 2 ^ 64 → Run n p → IsAccounted n p
Run-IsAccounted h begins = ground arith
Run-IsAccounted h (submits {n} {p} s r) =
    submit-IsAccounted s n p h (Run-IsAccounted (omega arith) r)
Run-IsAccounted h (steps {n} st r) = Step-IsAccounted n h st (Run-IsAccounted (omega arith) r)

-- When the condition of `waitUntilIdle` holds in such a run, every frame that was taken has ended, and
-- none waits or is with the engine.
pub finish_wait-ended :
    {n : ℕ} {p : Presenter}
    → n < 2 ^ 64
    → Run n p
    → (finish_wait p).0 ≡ true
    → p.statistics.submitted ≡ ended p.statistics
unfolding finish_wait
finish_wait-ended {n} {p} h r idle = let v = Run-IsAccounted h r in ground arith
