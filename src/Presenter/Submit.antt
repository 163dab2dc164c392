-- ===== src/Presenter/Submit.antt =====
-- The submissions, `invalidate` and `waitUntilIdle`.
use rasterm.Base.{
  ℕ, ◌*◌, Bool, true, false, not, ◌||◌, ◌&&◌, Option, none, some, List, [], ◌∷◌, ◌++◌, ◌==◌,
  if◌then◌else◌, length, ltb,
}
use rasterm.Damage.Rect.{DamageRegion}
use rasterm.Damage.Rows.{copy_rows}
use rasterm.Error.{
  ErrorCode, no_error, invalid_argument, out_of_memory, presenter_stopped, timed_out,
}
use rasterm.Presenter.State.{
  View, FrameKind, is_packed, packed, indexed, Slot, Presenter, increment, has_pending, is_closed,
  waiting_view, is_idle,
}

-- How a frame is handed over: its pixels are copied, or shared with an object that is kept alive; an
-- owned frame is moved into such an object first.
pub data Method : Type 0 where
  copies : Method
  shares : ℕ → Method
  owns : ℕ → Method

-- `valid` is the answer of the validation that the method makes (`FrameView::isValid`,
-- `IndexedFrameView::hasValidIndices`, and `isValid` of an owned or a shared frame).
pub record Submission : Type 0 where
  pub method : Method
  pub kind : FrameKind
  pub view : View
  pub valid : Bool

-- Which allocations succeed: that of the owner of an owned frame, of the pixels, of the palette, and
-- of the damage rectangles.
pub record Allocation : Type 0 where
  pub owner_fits : Bool
  pub pixels_fit : Bool
  pub palette_fits : Bool
  pub damage_fits : Bool

abbrev pub all_fits : Allocation
all_fits = record { owner_fits = true; pixels_fit = true; palette_fits = true; damage_fits = true }

-- What the caller sees: true, false, or the exception, which `submitShared` does not catch.
pub data Outcome : Type 0 where
  accepted : Outcome
  refused : Outcome
  threw : Outcome

unfoldable pub reject : ErrorCode → Presenter → Presenter
reject code p = record p {
  statistics = record p.statistics { rejected = increment p.statistics.rejected };
  latest_status = code;
}

-- `compatibleDamage`: nothing is replaced, or a frame of the same size is.
abbrev pub is_compatible : View → Presenter → Bool
is_compatible v p =
    not (has_pending p)
    || (((waiting_view p).width == v.width) && ((waiting_view p).height == v.height))

-- `++statistics.replacedFrames`, when a frame waits.
abbrev pub count_replaced : Presenter → Presenter
count_replaced p =
    if has_pending p
    then record p {
      statistics = record p.statistics { replaced = increment p.statistics.replaced };
    }
    else p

-- The rows of the frame, one behind the other.
abbrev pub copy_pixels : View → Slot → Slot
copy_pixels v s = record s {
  pixels = copy_rows v.height 0 v.bytes v.stride (v.width * v.pixel_bytes) s.pixels;
  size = v.width * v.pixel_bytes * v.height;
}

-- The view of the copy.
abbrev pub copied_view : View → Slot → View
copied_view v s = record v { bytes = s.pixels; stride = v.width * v.pixel_bytes }

abbrev pub put_view : FrameKind → View → Presenter → Presenter
put_view packed v p = record p { pending_frame = v }
put_view indexed v p = record p { pending_indexed = v }

-- `mergePendingDamage` up to its insertion: the rectangles kept, and whether damage is supplied.
unfoldable pub kept_damage : View → Bool → Bool → Slot → List DamageRegion × Bool
kept_damage v replaced compatible s =
    if not replaced
    then ([], v.damage_supplied)
    else if not compatible || (not s.damage_supplied || not v.damage_supplied)
    then ([], false)
    else (s.damage, s.damage_supplied)

-- Whether rectangles are inserted.
abbrev pub inserts : View → Bool → Bool
inserts v supplied = supplied && ltb 0 (length v.damage)

-- The slot after `mergePendingDamage`, whose insertion takes place if `fit`.
unfoldable pub merge_pending_damage : Bool → View → Bool → Bool → Slot → Slot
unfolding kept_damage
merge_pending_damage fit v replaced compatible s =
    let (kept, supplied) = kept_damage v replaced compatible s in
    record s {
      damage = if inserts v supplied && fit then kept ++ v.damage else kept;
      damage_supplied = supplied;
    }

-- `mergePendingDamage` and the view it completes; whether its memory sufficed.
unfoldable pub merge_step : Bool → FrameKind → View → Bool → Bool → Presenter → Bool × Presenter
unfolding merge_pending_damage kept_damage
merge_step fit kind v replaced compatible p =
    let slot = merge_pending_damage fit v replaced compatible p.waiting_slot in
    if not fit && inserts v slot.damage_supplied
    then (false, record (put_view kind v p) { waiting_slot = slot })
    else (
      true,
      record (put_view kind
          (record v { damage = slot.damage; damage_supplied = slot.damage_supplied }) p) {
            waiting_slot = slot;
          },
    )

-- The end of a submission: the generation and the statistics, and the event of a dropped frame.
unfoldable pub publish : FrameKind → View → Bool → Presenter → Presenter
publish kind old replaced p = record p {
  pending_kind = kind;
  pending_generation = increment p.pending_generation;
  statistics = record p.statistics { submitted = increment p.statistics.submitted };
  latest_status = no_error;
  dropped =
      if replaced && p.listening then (old.frame_id, old.timestamp) ∷ p.dropped else p.dropped;
}

-- `submit(const FrameView&)` and `submit(const IndexedFrameView&)` after the validation.
unfoldable pub submit_copy : Allocation → FrameKind → View → Presenter → Outcome × Presenter
unfolding merge_step publish copy_rows reject
submit_copy allocation kind v p =
    let replaced = has_pending p in
    let compatible = is_compatible v p in
    let old = waiting_view p in
    let p0 = count_replaced p in
    let p1 = record p0 { waiting_slot = copy_pixels v p0.waiting_slot } in
    let p2 : Presenter =
      if is_packed kind
      then p1
      else record p1 { waiting_slot = record p1.waiting_slot { palette = v.palette } } in
    let (merged, p3) =
      merge_step allocation.damage_fits kind (copied_view v p2.waiting_slot) replaced compatible
        p2 in
    let p4 : Presenter =
      if is_packed kind
      then record p3 { waiting_slot = record p3.waiting_slot { palette = []; lifetime = none } }
      else record p3 {
        pending_trusted = true;
        waiting_slot = record p3.waiting_slot { lifetime = none };
      } in
    if is_closed p
    then (refused, reject presenter_stopped p)
    else if not allocation.pixels_fit
    then (refused, record p0 { latest_status = out_of_memory })
    else if not (is_packed kind) && not allocation.palette_fits
    then (refused, record p1 { latest_status = out_of_memory })
    else if merged
    then (accepted, publish kind old replaced p4)
    else (refused, record p3 { latest_status = out_of_memory })

-- `submitShared` and `submitSharedIndexed` after the validation.
unfoldable pub submit_shared :
    Allocation → FrameKind → View → ℕ → Bool → Presenter → Outcome × Presenter
unfolding merge_step publish reject
submit_shared allocation kind v lifetime trusted p =
    let replaced = has_pending p in
    let compatible = is_compatible v p in
    let old = waiting_view p in
    let p0 = count_replaced p in
    let p1 = record p0 { waiting_slot = record p0.waiting_slot { size = 0; palette = [] } } in
    let (merged, p2) = merge_step allocation.damage_fits kind v replaced compatible p1 in
    let p3 = record p2 { waiting_slot = record p2.waiting_slot { lifetime = some lifetime } } in
    let p4 : Presenter = if is_packed kind then p3 else record p3 { pending_trusted = trusted } in
    if is_closed p
    then (refused, reject presenter_stopped p)
    else if merged
    then (accepted, publish kind old replaced p4)
    else (threw, p2)

-- `allocationFailure`.
abbrev pub allocation_failure : Presenter → Outcome × Presenter
allocation_failure p = (refused, reject out_of_memory p)

-- `submit(OwnedFrame&&)` and `submit(OwnedIndexedFrame&&)` after the validation.
unfoldable pub submit_owned : Allocation → FrameKind → View → ℕ → Presenter → Outcome × Presenter
unfolding submit_shared reject
submit_owned allocation kind v lifetime p =
    let (outcome, p') = submit_shared allocation kind v lifetime true p in
    if not allocation.owner_fits then allocation_failure p else elim outcome [
      | threw ↦ allocation_failure p'
      | accepted ↦ (accepted, p')
      | refused ↦ (refused, p')
    ]

-- The six public submissions.
unfoldable pub submit : Allocation → Submission → Presenter → Outcome × Presenter
unfolding submit_copy submit_shared submit_owned reject
submit allocation s p =
    if not s.valid then (refused, reject invalid_argument p) else elim s.method [
      | copies ↦ submit_copy allocation s.kind s.view p
      | shares lifetime ↦ submit_shared allocation s.kind s.view lifetime false p
      | owns lifetime ↦ submit_owned allocation s.kind s.view lifetime p
    ]

unfoldable pub invalidate : Presenter → Bool × Presenter
unfolding reject
invalidate p =
    if is_closed p
    then (false, reject presenter_stopped p)
    else (true, record p { reset_requested = true; latest_status = no_error })

-- `waitUntilIdle` up to its wait: the error, if it does not wait.
unfoldable pub start_wait : Bool → Bool → Presenter → Option ErrorCode
start_wait in_worker negative p =
    if in_worker
    then some invalid_argument
    else if is_closed p
    then some presenter_stopped
    else if negative
    then some invalid_argument
    else none

-- The end of the wait, when the condition holds or the time is up.
unfoldable pub finish_wait : Presenter → Bool × Presenter
finish_wait p = (is_idle p, record p { latest_status = if is_idle p then no_error else timed_out })
