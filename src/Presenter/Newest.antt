-- ===== src/Presenter/Newest.antt =====
-- Which frame the worker takes: the newest that was accepted, with its own pixels.
use rasterm.Base.{◌≡◌, sym, ◌∙◌, Bool, true, inl, inr, Bool-cases, arith}
use rasterm.Error.{ErrorCode, presenter_stopped}
use rasterm.Presenter.State.{Presenter, has_pending, is_closed, waiting_view}
use rasterm.Presenter.Submit.{
  Submission, all_fits, accepted, refused, reject, submit, invalidate, finish_wait,
}
use rasterm.Presenter.Worker.{
  stop_worker, take_reset, finish_reset, start_limit, take_frame, finish_frame, shutdown_in_worker,
  start_shutdown, finish_shutdown, Start, rate_invalid, engine_failed, memory_failed, thread_failed,
  started, initialize,
}
use rasterm.Presenter.Accounting.{submit-Effect}
use rasterm.Presenter.Steps.{
  Step, invalidates, reports, drains, stops, resets, has_reset, limits, takes, finishes,
  shuts_itself, shuts, joins, initializes,
}
use rasterm.Presenter.Handed.{Shows, refused-accepted, handed, submit-Shows}

-- The presenter after the submission `s` was accepted, and after any steps and refused submissions.
pub data Since (s : Submission) : Presenter → Type 0 where
  accepts : (p : Presenter) → (submit all_fits s p).0 ≡ accepted → Since s (submit all_fits s p).1
  refuses :
      {p : Presenter}
      → (other : Submission) → (submit all_fits other p).0 ≡ refused
      → Since s p
      → Since s (submit all_fits other p).1
  goes_on : {p q : Presenter} → Step p q → Since s p → Since s q

-- A step leaves the frame that waits as it is, or no frame waits after it.
record Keeps (p q : Presenter) : Type 0 where
  waits : has_pending q ≡ true → has_pending p ≡ true
  kind : has_pending q ≡ true → q.pending_kind ≡ p.pending_kind
  packed_view : has_pending q ≡ true → q.pending_frame ≡ p.pending_frame
  indexed_view : has_pending q ≡ true → q.pending_indexed ≡ p.pending_indexed
  slot : has_pending q ≡ true → q.waiting_slot ≡ p.waiting_slot

reject-Keeps : (code : ErrorCode) (p : Presenter) → Keeps p (reject code p)
unfolding reject
reject-Keeps code p = ground arith

initialize-Keeps :
    (start : Start) (listening limited : Bool) (p : Presenter)
    → Keeps p (initialize start listening limited p).1
unfolding initialize
initialize-Keeps rate_invalid listening limited p = ground arith
initialize-Keeps (engine_failed code) listening limited p = ground arith
initialize-Keeps memory_failed listening limited p = ground arith
initialize-Keeps thread_failed listening limited p = ground arith
initialize-Keeps started listening limited p = ground arith

invalidate-Keeps : (p : Presenter) → Keeps p (invalidate p).1
unfolding invalidate
invalidate-Keeps p = elim (Bool-cases (is_closed p)) [
  | inl closed ↦ rw closed (reject-Keeps presenter_stopped p)
  | inr opened ↦ rw opened (ground arith)
]

start_shutdown-Keeps : (p : Presenter) → Keeps p (start_shutdown p)
unfolding start_shutdown
start_shutdown-Keeps p = elim (Bool-cases p.running) [
  | inl up ↦ elim (Bool-cases (has_pending p)) [
    | inl e ↦ rw (up, e) (ground arith)
    | inr e ↦ rw (up, e) (ground arith)
  ]
  | inr down ↦ rw down (ground arith)
]

finish_frame-Keeps :
    (error : ErrorCode) (rendered : Bool) (status : ErrorCode) (p : Presenter)
    → Keeps p (finish_frame error rendered status p)
unfolding finish_frame
finish_frame-Keeps error rendered status p = ground arith

Step-Keeps : {p q : Presenter} → Step p q → Keeps p q
unfolding stop_worker take_reset finish_reset start_limit shutdown_in_worker finish_wait take_frame
    finish_shutdown
Step-Keeps {p} invalidates = invalidate-Keeps p
Step-Keeps (reports code) = ground arith
Step-Keeps drains = ground arith
Step-Keeps (stops at stopping) = ground arith
Step-Keeps (resets at going asked) = ground arith
Step-Keeps (has_reset at) = ground arith
Step-Keeps (limits at going asked pending limited) = ground arith
Step-Keeps (takes can going) = ground arith
Step-Keeps {p} (finishes at error rendered status) = finish_frame-Keeps error rendered status p
Step-Keeps (shuts_itself at) = ground arith
Step-Keeps {p} (shuts free) = start_shutdown-Keeps p
Step-Keeps (joins joining at) = ground arith
Step-Keeps {p} (initializes at free down start listening limited) =
    initialize-Keeps start listening limited p

Keeps-handed : (p q : Presenter) → Keeps p q → has_pending q ≡ true → handed q ≡ handed p
Keeps-handed p q k h =
    let view : waiting_view q ≡ waiting_view p =
      ground (arith, k.kind h, k.packed_view h, k.indexed_view h) in
    cc (k.kind h, k.slot h, view)

-- When a frame waits, whatever the threads did since the submission of a frame was accepted, as long as
-- no other was accepted and there was memory for each that was submitted, what the worker takes shows that frame: its shape and identity, each of its
-- bytes, and its palette if it is indexed.
pub Since-Shows :
    {s : Submission} {q : Presenter}
    → Since s q
    → has_pending q ≡ true
    → Shows s.kind s.view (take_frame q).0
unfolding take_frame
Since-Shows {s} (accepts p e) h = submit-Shows s p e
Since-Shows (refuses {p} other e r) h = elim (submit-Effect other p) [
  | inl (yes_taken, c) ↦ absurd (refused-accepted (sym e ∙ yes_taken))
  | inr (not_taken, code, same) ↦
      let k : Keeps p (submit all_fits other p).1 = rw same (reject-Keeps code p) in
      rw (Keeps-handed p _ k h) (Since-Shows r (k.waits h))
]
Since-Shows {s} (goes_on {p} {q} st r) h =
    let k = Step-Keeps st in rw (Keeps-handed p q k h) (Since-Shows r (k.waits h))
