-- ===== src/Presenter/Worker.antt =====
-- The worker's loop `presentLoop`, one function for each part between two locks, and `initialize` and
-- `shutdown`.
use rasterm.Base.{Bool, true, false, not, none, some, [], if◌then◌else◌}
use rasterm.Error.{
  ErrorCode, no_error, invalid_argument, out_of_memory, presenter_thread_start_failed, is_none,
}
use rasterm.Presenter.State.{
  View, FrameKind, is_packed, waiting_view, Slot, absent, looping, limiting, resetting, rendering,
  returned, Presenter, no_stats, increment, has_pending,
}

-- `if (stopping) return;`.
unfoldable pub stop_worker : Presenter → Presenter
stop_worker p = record p { phase = returned }

-- `resetRequested = false`, and then `engine.reset()` without the lock.
unfoldable pub take_reset : Presenter → Presenter
take_reset p = record p { reset_requested = false; phase = resetting }

unfoldable pub finish_reset : Presenter → Presenter
finish_reset p = record p { phase = looping }

-- The wait for the time of the next frame, which gives the lock up.
unfoldable pub start_limit : Presenter → Presenter
start_limit p = record p { phase = limiting }

-- The view that the engine is handed: copied pixels are those of the slot.
unfoldable pub handed_view : FrameKind → View → Slot → View
handed_view kind v s =
    let own : View =
      if is_packed kind
      then record v { bytes = s.pixels }
      else record v { bytes = s.pixels; palette = s.palette } in
    record (elim s.lifetime [ none ↦ own | some lifetime ↦ v ]) {
      damage = s.damage;
      damage_supplied = s.damage_supplied;
    }

-- The swaps, the frame's view and the generation: the frame handed to the engine, and the presenter.
unfoldable pub take_frame : Presenter → View × Presenter
unfolding handed_view
take_frame p = (
  handed_view p.pending_kind (waiting_view p) p.waiting_slot,
  record p {
    rendering_slot = p.waiting_slot;
    waiting_slot = p.rendering_slot;
    rendering_trusted = p.pending_trusted;
    consumed_generation = p.pending_generation;
    rendering_active = true;
    phase = rendering;
  },
)

-- The end of a round: `error` and `rendered` are the engine's `RenderStats`, and `status` is
-- `engine.status()`.
unfoldable pub finish_frame : ErrorCode → Bool → ErrorCode → Presenter → Presenter
finish_frame error rendered status p =
    let s = p.statistics in
    let p' = record p { rendering_active = false; phase = looping } in
    if not (is_none error)
    then record p' { latest_status = status; statistics = record s { failed = increment s.failed } }
    else if rendered
    then record p' {
      latest_status = no_error;
      statistics = record s { presented = increment s.presented };
    }
    else record p' {
      latest_status = no_error;
      statistics = record s { unchanged = increment s.unchanged };
    }

-- `shutdown` on the worker's own thread.
unfoldable pub shutdown_in_worker : Presenter → Presenter
shutdown_in_worker p = record p { stopping = true; latest_status = invalid_argument }

-- `shutdown` on another thread, before it joins the worker.
unfoldable pub start_shutdown : Presenter → Presenter
start_shutdown p =
    let cancelled =
      if has_pending p
      then record p {
        statistics = record p.statistics { cancelled = increment p.statistics.cancelled };
        consumed_generation = p.pending_generation;
      }
      else p in
    record (if p.running then record cancelled { stopping = true } else p) { joining = true }

-- What `clear()` and `reset()` leave of a slot.
abbrev pub clear_slot : Slot → Slot
clear_slot s = record s {
  size = 0;
  palette = [];
  damage = [];
  damage_supplied = false;
  lifetime = none;
}

-- `shutdown` on another thread, after the worker was joined.
unfoldable pub finish_shutdown : Presenter → Presenter
finish_shutdown p = record p {
  running = false;
  stopping = false;
  pending_generation = 0;
  consumed_generation = 0;
  waiting_slot = clear_slot p.waiting_slot;
  rendering_slot = clear_slot p.rendering_slot;
  rendering_active = false;
  reset_requested = false;
  phase = absent;
  joining = false;
}

-- How `initialize` ends after its call of `shutdown`.
pub data Start : Type 0 where
  rate_invalid : Start
  engine_failed : ErrorCode → Start
  memory_failed : Start
  thread_failed : Start
  started : Start

unfoldable pub initialize : Start → Bool → Bool → Presenter → ErrorCode × Presenter
initialize rate_invalid listening limited p =
    (invalid_argument, record p { latest_status = invalid_argument })
initialize (engine_failed code) listening limited p = (code, record p { latest_status = code })
initialize memory_failed listening limited p = (
  out_of_memory,
  record p {
    latest_status = out_of_memory;
    listening = listening;
    limited = limited;
    statistics = no_stats;
    pending_generation = 0;
    consumed_generation = 0;
    stopping = false;
    running = false;
    rendering_active = false;
    reset_requested = false;
  },
)
initialize thread_failed listening limited p = (
  presenter_thread_start_failed,
  record p {
    latest_status = presenter_thread_start_failed;
    listening = listening;
    limited = limited;
    statistics = no_stats;
    pending_generation = 0;
    consumed_generation = 0;
    stopping = false;
    running = false;
    rendering_active = false;
    reset_requested = false;
  },
)
initialize started listening limited p = (
  no_error,
  record p {
    latest_status = no_error;
    listening = listening;
    limited = limited;
    statistics = no_stats;
    pending_generation = 0;
    consumed_generation = 0;
    stopping = false;
    running = true;
    rendering_active = false;
    reset_requested = false;
    phase = looping;
  },
)
