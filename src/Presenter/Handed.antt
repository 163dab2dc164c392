-- ===== src/Presenter/Handed.antt =====
-- What the worker would be handed after a submission: the frame submitted.
use rasterm.Base.{
  ℕ, ◌+◌, ◌*◌, ◌<◌, ◌≡◌, ◌≢◌, sym, ap, ◌∙◌, Bool, true, false, inl, inr, none, some, Bool-cases,
  arith,
}
use rasterm.Damage.Rows.{copy_rows, copy_rows_lem}
use rasterm.Presenter.State.{
  View, FrameKind, packed, indexed, Slot, Presenter, has_pending, is_closed, waiting_view,
}
use rasterm.Presenter.Submit.{
  Submission, Method, copies, shares, owns, all_fits, Outcome, accepted, refused, merge_step,
  publish, submit_copy, submit_shared, submit_owned, submit,
}
use rasterm.Presenter.Worker.{handed_view}
use rasterm.Presenter.Accounting.{Effect, submit_copy-Effect, submit_shared-Effect}

-- `w` shows the frame `v` of a kind: its shape and identity, each of its bytes, and the palette of an
-- indexed frame.
pub record Shows (kind : FrameKind) (v w : View) : Type 0 where
  pub width : w.width ≡ v.width
  pub height : w.height ≡ v.height
  pub pixel_bytes : w.pixel_bytes ≡ v.pixel_bytes
  pub format : w.format_tag ≡ v.format_tag
  pub frame_id : w.frame_id ≡ v.frame_id
  pub timestamp : w.timestamp ≡ v.timestamp
  pub palette : kind ≡ indexed → w.palette ≡ v.palette
  pub bytes :
      (row k : ℕ)
      → row < v.height
      → k < v.width * v.pixel_bytes
      → w.bytes (row * w.stride + k) ≡ v.bytes (row * v.stride + k)

pub refused-accepted : refused ≢ accepted
refused-accepted k = ground arith

-- What was accepted was accepted by an open presenter.
pub accepted-is_open :
    (p : Presenter) (r : Outcome × Presenter) → Effect p r → r.0 ≡ accepted → is_closed p ≡ false
accepted-is_open p r (inl (e, c)) h = c.is_open
accepted-is_open p r (inr (e, code, same)) h = absurd (refused-accepted (sym e ∙ h))

-- What the worker would be handed now.
abbrev pub handed : Presenter → View
handed p = handed_view p.pending_kind (waiting_view p) p.waiting_slot

-- A slot that holds a copy of the frame, and a presenter whose waiting frame is that copy.
record IsCopied (kind : FrameKind) (v : View) (pixels : ℕ → ℕ) (q : Presenter) : Type 0 where
  kind_kept : q.pending_kind ≡ kind
  width : (waiting_view q).width ≡ v.width
  height : (waiting_view q).height ≡ v.height
  pixel_bytes : (waiting_view q).pixel_bytes ≡ v.pixel_bytes
  format : (waiting_view q).format_tag ≡ v.format_tag
  frame_id : (waiting_view q).frame_id ≡ v.frame_id
  timestamp : (waiting_view q).timestamp ≡ v.timestamp
  stride : (waiting_view q).stride ≡ v.width * v.pixel_bytes
  lifetime : q.waiting_slot.lifetime ≡ none
  palette : kind ≡ indexed → q.waiting_slot.palette ≡ v.palette
  copied :
      q.waiting_slot.pixels ≡ copy_rows v.height 0 v.bytes v.stride (v.width * v.pixel_bytes) pixels

submit_copy-IsCopied :
    (kind : FrameKind) (v : View) (p : Presenter)
    → is_closed p ≡ false
    → IsCopied kind v p.waiting_slot.pixels (submit_copy all_fits kind v p).1
unfolding submit_copy merge_step publish
submit_copy-IsCopied packed v p opened = elim (Bool-cases (has_pending p)) [
  | inl e ↦ rw (opened, e) (ground arith)
  | inr e ↦ rw (opened, e) (ground arith)
]
submit_copy-IsCopied indexed v p opened = elim (Bool-cases (has_pending p)) [
  | inl e ↦ rw (opened, e) (ground arith)
  | inr e ↦ rw (opened, e) (ground arith)
]

-- A copy is handed over with the pixels and the palette of its slot, and the rest of its view.
handed_view-copy :
    (kind : FrameKind) (w : View) (s : Slot)
    → s.lifetime ≡ none
    → Shows kind (record w { bytes = s.pixels; palette = s.palette }) (handed_view kind w s)
unfolding handed_view
handed_view-copy packed w s h = rw h (ground arith)
handed_view-copy indexed w s h = rw h (ground arith)

handed_view-stride :
    (kind : FrameKind) (w : View) (s : Slot) → (handed_view kind w s).stride ≡ w.stride
unfolding handed_view
handed_view-stride kind w s = ground arith

-- A shared frame is handed over as it is.
handed_view-share :
    (kind : FrameKind) (w : View) (s : Slot) (lifetime : ℕ)
    → s.lifetime ≡ some lifetime
    → Shows kind w (handed_view kind w s)
unfolding handed_view
handed_view-share kind w s lifetime h = rw h (ground arith)

IsCopied-Shows :
    (kind : FrameKind) (v : View) (pixels : ℕ → ℕ) (q : Presenter)
    → IsCopied kind v pixels q
    → Shows kind v (handed q)
IsCopied-Shows kind v pixels q c =
    let h = handed_view-copy q.pending_kind (waiting_view q) q.waiting_slot c.lifetime in
    record {
      width = h.width ∙ c.width;
      height = h.height ∙ c.height;
      pixel_bytes = h.pixel_bytes ∙ c.pixel_bytes;
      format = h.format ∙ c.format;
      frame_id = h.frame_id ∙ c.frame_id;
      timestamp = h.timestamp ∙ c.timestamp;
      palette = λ k. h.palette (c.kind_kept ∙ k) ∙ c.palette k;
      bytes = λ row k hr hk.
          h.bytes row k (rw c.height hr) (rw (c.width, c.pixel_bytes) hk)
          ∙ ap (λ f. f (row * (waiting_view q).stride + k)) c.copied
          ∙ ap
              (λ n.
                copy_rows v.height 0 v.bytes v.stride (v.width * v.pixel_bytes) pixels
                  (row * n + k))
              c.stride
          ∙ copy_rows_lem v.height 0 v.bytes v.stride (v.width * v.pixel_bytes) pixels row k
              (omega arith) (omega arith) hk;
    }

-- A presenter whose waiting frame is shared.
record IsShared (kind : FrameKind) (v : View) (q : Presenter) : Type 0 where
  kind_kept : q.pending_kind ≡ kind
  width : (waiting_view q).width ≡ v.width
  height : (waiting_view q).height ≡ v.height
  pixel_bytes : (waiting_view q).pixel_bytes ≡ v.pixel_bytes
  format : (waiting_view q).format_tag ≡ v.format_tag
  frame_id : (waiting_view q).frame_id ≡ v.frame_id
  timestamp : (waiting_view q).timestamp ≡ v.timestamp
  stride : (waiting_view q).stride ≡ v.stride
  palette : (waiting_view q).palette ≡ v.palette
  bytes : (waiting_view q).bytes ≡ v.bytes
  kept_alive : (lifetime : ℕ) × (q.waiting_slot.lifetime ≡ some lifetime)

submit_shared-IsShared :
    (kind : FrameKind) (v : View) (lifetime : ℕ) (trusted : Bool) (p : Presenter)
    → is_closed p ≡ false
    → IsShared kind v (submit_shared all_fits kind v lifetime trusted p).1
unfolding submit_shared merge_step publish
submit_shared-IsShared packed v lifetime trusted p opened = elim (Bool-cases (has_pending p)) [
  | inl e ↦ rw (opened, e) (ground arith)
  | inr e ↦ rw (opened, e) (ground arith)
]
submit_shared-IsShared indexed v lifetime trusted p opened = elim (Bool-cases (has_pending p)) [
  | inl e ↦ rw (opened, e) (ground arith)
  | inr e ↦ rw (opened, e) (ground arith)
]

IsShared-Shows :
    (kind : FrameKind) (v : View) (q : Presenter) → IsShared kind v q → Shows kind v (handed q)
IsShared-Shows kind v q c =
    let (lifetime, alive) = c.kept_alive in
    let h = handed_view-share q.pending_kind (waiting_view q) q.waiting_slot lifetime alive in
    record {
      width = h.width ∙ c.width;
      height = h.height ∙ c.height;
      pixel_bytes = h.pixel_bytes ∙ c.pixel_bytes;
      format = h.format ∙ c.format;
      frame_id = h.frame_id ∙ c.frame_id;
      timestamp = h.timestamp ∙ c.timestamp;
      palette = λ k. h.palette (c.kind_kept ∙ k) ∙ c.palette;
      bytes = λ row k hr hk.
          h.bytes row k (rw c.height hr) (rw (c.width, c.pixel_bytes) hk)
          ∙ ap (λ f. f (row * (waiting_view q).stride + k)) c.bytes
          ∙ ap (λ n. v.bytes (row * n + k)) c.stride;
    }

-- What holds after the copy and after the sharing of a frame holds after each submission accepted.
module _ (P : Presenter → Type 0) (s : Submission) (p : Presenter)
    (copied : is_closed p ≡ false → P (submit_copy all_fits s.kind s.view p).1)
    (shared : (lifetime : ℕ) (trusted : Bool)
      → is_closed p ≡ false
      → P (submit_shared all_fits s.kind s.view lifetime trusted p).1) where
  owned-accepted :
      (lifetime : ℕ)
      → (submit_owned all_fits s.kind s.view lifetime p).0 ≡ accepted
      → P (submit_owned all_fits s.kind s.view lifetime p).1
  unfolding submit_owned
  owned-accepted lifetime e = elim (submit_shared-Effect s.kind s.view lifetime true p) [
    | inl (taken, c) ↦ rw taken (shared lifetime true c.is_open)
    | inr (not_taken, code, same) ↦ absurd (refused-accepted (rw not_taken at e))
  ]

  pub submit-accepted : (submit all_fits s p).0 ≡ accepted → P (submit all_fits s p).1
  unfolding submit
  submit-accepted e = elim (Bool-cases s.valid) [
    | inr invalid ↦ absurd (refused-accepted (rw invalid at e))
    | inl valid ↦ rw valid (by_method s.method (rw valid at e))
  ]
    where
      result : Method → Outcome × Presenter
      result m = elim m [
        | copies ↦ submit_copy all_fits s.kind s.view p
        | shares lifetime ↦ submit_shared all_fits s.kind s.view lifetime false p
        | owns lifetime ↦ submit_owned all_fits s.kind s.view lifetime p
      ]

      by_method : (m : Method) → (result m).0 ≡ accepted → P (result m).1
      by_method copies h = copied (accepted-is_open p _ (submit_copy-Effect s.kind s.view p) h)
      by_method (shares lifetime) h =
          shared lifetime false
            (accepted-is_open p _ (submit_shared-Effect s.kind s.view lifetime false p) h)
      by_method (owns lifetime) h = owned-accepted lifetime h

pub submit-Shows :
    (s : Submission) (p : Presenter)
    → (submit all_fits s p).0 ≡ accepted
    → Shows s.kind s.view (handed (submit all_fits s p).1)
submit-Shows s p =
    submit-accepted (λ q. Shows s.kind s.view (handed q)) s p
      (λ opened.
        IsCopied-Shows s.kind s.view p.waiting_slot.pixels _
          (submit_copy-IsCopied s.kind s.view p opened))
      (λ lifetime trusted opened.
        IsShared-Shows s.kind s.view _
          (submit_shared-IsShared s.kind s.view lifetime trusted p opened))
