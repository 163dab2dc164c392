-- ===== src/Presenter/State.antt =====
-- The members of `Presenter::Impl`.
use rasterm.Base.{
  ℕ, ◌+◌, ◌%◌, ◌^◌, Bool, true, false, not, ◌||◌, ◌&&◌, Option, none, List, [], ◌==◌, if◌then◌else◌,
}
use rasterm.Damage.Rect.{DamageRegion}
use rasterm.Error.{ErrorCode, no_error}

-- `FrameView` and `IndexedFrameView` together: a packed frame has no palette, and an indexed one has a
-- single byte to the pixel. The pixels are a function of the offset; a colour is one number.
pub record View : Type 0 where
  pub bytes : ℕ → ℕ
  pub width : ℕ
  pub height : ℕ
  pub stride : ℕ
  pub pixel_bytes : ℕ
  pub format_tag : ℕ
  pub palette : List ℕ
  pub frame_id : ℕ
  pub timestamp : ℕ
  pub damage : List DamageRegion
  pub damage_supplied : Bool

pub data FrameKind : Type 0 where
  packed : FrameKind
  indexed : FrameKind

abbrev pub is_packed : FrameKind → Bool
is_packed packed = true
is_packed indexed = false

-- What the presenter keeps twice, of the frame that waits and of the frame that is rendered. A
-- lifetime is the identity of the object that is kept alive.
pub record Slot : Type 0 where
  pub pixels : ℕ → ℕ
  pub size : ℕ
  pub palette : List ℕ
  pub damage : List DamageRegion
  pub damage_supplied : Bool
  pub lifetime : Option ℕ

-- `PresenterStats`, without the numbers of the latest render.
pub record Stats : Type 0 where
  pub submitted : ℕ
  pub presented : ℕ
  pub replaced : ℕ
  pub unchanged : ℕ
  pub failed : ℕ
  pub rejected : ℕ
  pub cancelled : ℕ

-- Where the worker is: not started, at the top of its loop, waiting for the time of its next frame,
-- in `engine.reset()`, in `engine.renderFrame()`, or returned.
pub data Phase : Type 0 where
  absent : Phase
  looping : Phase
  limiting : Phase
  resetting : Phase
  rendering : Phase
  returned : Phase

-- `listening` is whether a callback of events is set, `limited` whether frames have a minimum interval.
-- `joining` is whether a thread is in `worker.join()`, and `dropped` lists the frames, newest first,
-- that a `FrameDropped` event was emitted for.
pub record Presenter : Type 0 where
  pub waiting_slot : Slot
  pub rendering_slot : Slot
  pub pending_frame : View
  pub pending_indexed : View
  pub pending_kind : FrameKind
  pub pending_trusted : Bool
  pub rendering_trusted : Bool
  pub pending_generation : ℕ
  pub consumed_generation : ℕ
  pub statistics : Stats
  pub latest_status : ErrorCode
  pub running : Bool
  pub stopping : Bool
  pub rendering_active : Bool
  pub reset_requested : Bool
  pub listening : Bool
  pub limited : Bool
  pub phase : Phase
  pub joining : Bool
  pub dropped : List (ℕ × ℕ)

abbrev pub no_stats : Stats
no_stats = record {
  submitted = 0;
  presented = 0;
  replaced = 0;
  unchanged = 0;
  failed = 0;
  rejected = 0;
  cancelled = 0;
}

abbrev pub no_view : View
no_view = record {
  bytes = λ i. 0;
  width = 0;
  height = 0;
  stride = 0;
  pixel_bytes = 3;
  format_tag = 0;
  palette = [];
  frame_id = 0;
  timestamp = 0;
  damage = [];
  damage_supplied = false;
}

abbrev pub no_slot : Slot
no_slot = record {
  pixels = λ i. 0;
  size = 0;
  palette = [];
  damage = [];
  damage_supplied = false;
  lifetime = none;
}

-- The members as they are initialised.
abbrev pub fresh_presenter : Presenter
fresh_presenter = record {
  waiting_slot = no_slot;
  rendering_slot = no_slot;
  pending_frame = no_view;
  pending_indexed = no_view;
  pending_kind = packed;
  pending_trusted = false;
  rendering_trusted = false;
  pending_generation = 0;
  consumed_generation = 0;
  statistics = no_stats;
  latest_status = no_error;
  running = false;
  stopping = false;
  rendering_active = false;
  reset_requested = false;
  listening = false;
  limited = false;
  phase = absent;
  joining = false;
  dropped = [];
}

-- `++counter` on a `std::uint64_t`.
abbrev pub increment : ℕ → ℕ
increment n = (n + 1) % 2 ^ 64

-- `pendingGeneration != consumedGeneration`.
abbrev pub has_pending : Presenter → Bool
has_pending p = not (p.pending_generation == p.consumed_generation)

-- `!running || stopping`.
abbrev pub is_closed : Presenter → Bool
is_closed p = not p.running || p.stopping

-- The view of the frame that waits.
abbrev pub waiting_view : Presenter → View
waiting_view p = if is_packed p.pending_kind then p.pending_frame else p.pending_indexed

-- The condition of `waitUntilIdle`.
abbrev pub is_idle : Presenter → Bool
is_idle p =
    (p.pending_generation == p.consumed_generation)
    && (not p.rendering_active && not p.reset_requested)
