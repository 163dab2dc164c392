-- ===== src/Renderer/Outcome.antt =====
-- The outcome of a presentation: a synchronized update that failed has left an error code, so that the
-- result tells a frame that was drawn from one that was not; and only a frame that was drawn is
-- remembered.
use rasterm.Base.{
  ℕ, ◌/◌, ◌≡◌, ◌≢◌, refl, Bool, true, false, ◌&&◌, Option, List, [], ◌∷◌, Bool-cases, Option-cases,
  inl, inr, if◌then◌else◌, take, drop, arith,
}
use rasterm.Error.{no_error, output_buffer_limit_exceeded}
use rasterm.Terminal.{
  Terminal, good, clear_and_home, begin_synchronized_update, end_synchronized_update, draw_at_home,
  draw_at_cell,
}
use rasterm.Terminal.Errors.{
  IsReported, by_clear_and_home, by_begin, by_draw_at_home, by_draw_at_cell, by_end,
}
use rasterm.Damage.Rect.{DamageRegion}
use rasterm.Renderer.Plan.{TerminalCellPixels}
use rasterm.Renderer.State.{Frame, Backend, RendererOptions, RenderResult, Renderer, reset}
use rasterm.Renderer.Render.{
  Choice, nothing, whole, parts, EncodedRegion, remember, in_update, settle, draw_whole,
  draw_regions, encode_regions, draw_encoded, present_whole, present_regions, present,
}

-- A drawing that reports its failures and keeps those before it.
abbrev Reporting : (Bool → Terminal → Bool × Terminal) → Type 0
Reporting draw =
    (acc ok : Bool) (t : Terminal)
    → IsReported (ok && acc) t
    → IsReported ((draw ok t).0 && acc) (draw ok t).1

last_error-good : (t : Terminal) → good t ≡ false → t.last_error ≢ no_error
unfolding good
last_error-good t bad none_left = ground (arith, bad, none_left)

and_assoc :
    (a b c : Bool) (t : Terminal) → IsReported (a && (b && c)) t → IsReported ((a && b) && c) t
and_assoc true b c t p = p
and_assoc false b c t p = p

and_swap :
    (a b c : Bool) (t : Terminal) → IsReported (a && (b && c)) t → IsReported ((a && c) && b) t
and_swap false b c t p = p
and_swap true true true t p = p
and_swap true true false t p = p
and_swap true false true t p = p
and_swap true false false t p = p

module _ (answers : ℕ → Bool) where
  draw_whole-Reporting : (sixel : List ℕ) (chunk : ℕ) → Reporting (draw_whole answers sixel chunk)
  draw_whole-Reporting sixel chunk acc ok t p =
      let home = draw_at_home answers sixel false chunk t in
      and_assoc home.0 ok acc home.1 (by_draw_at_home answers sixel false chunk (ok && acc) t p)

  draw_regions-Reporting :
      (entries : List EncodedRegion) (bytes : List ℕ) (cells : TerminalCellPixels) (chunk : ℕ)
      → Reporting (draw_regions answers entries bytes cells chunk)
  unfolding draw_regions
  draw_regions-Reporting [] bytes cells chunk acc ok t p = p
  draw_regions-Reporting (entry ∷ rest) bytes cells chunk acc ok t p =
      let row = entry.region.y / cells.cell_height in
      let column = entry.region.x / cells.cell_width in
      let piece = take entry.size (drop entry.offset bytes) in
      let cell = draw_at_cell answers row column piece false chunk t in
      draw_regions-Reporting rest bytes cells chunk acc (cell.0 && ok) cell.1 (
        and_assoc cell.0 ok acc cell.1
          (by_draw_at_cell answers row column piece false chunk (ok && acc) t p))

  -- A synchronized update that did not succeed has left an error code.
  in_update-IsReported :
      (resized : Bool) (options : RendererOptions) (draw : Bool → Terminal → Bool × Terminal)
      (t : Terminal)
      → Reporting draw
      → IsReported
          (in_update answers resized options draw t).0
          (in_update answers resized options draw t).1
  unfolding in_update
  in_update-IsReported resized options draw t reports = and_swap ended.0 drawn.0 begun.0 ended.1 (
      by_end answers (drawn.0 && begun.0) drawn.1
        (reports begun.0 cleared.0 cleared.1 (clears resized)))
    where
      begun : Bool × Terminal
      begun =
          begin_synchronized_update answers options.preserve_cursor options.use_synchronized_output
            t

      cleared : Bool × Terminal
      cleared = if resized then clear_and_home answers begun.1 else (true, begun.1)

      drawn : Bool × Terminal
      drawn = draw cleared.0 cleared.1

      ended : Bool × Terminal
      ended = end_synchronized_update answers drawn.1

      clears :
          (r : Bool)
          → let c = if r then clear_and_home answers begun.1 else (true, begun.1) in
            IsReported (c.0 && begun.0) c.1
      clears true =
          by_clear_and_home answers begun.0 begun.1
            (by_begin answers options.preserve_cursor options.use_synchronized_output t)
      clears false = by_begin answers options.preserve_cursor options.use_synchronized_output t

  module _ {S : Type 0} (b : Backend S) where
    -- What a presentation of the renderer `r` leaves: the frame is remembered with what the tracker had, or
    -- everything is forgotten and the result has an error code.
    pub data IsSettled (f : Frame) (r : Renderer S) : RenderResult × Renderer S → Type 0 where
      remembered :
          (result : RenderResult) (r' : Renderer S)
          → result.error ≡ no_error
          → result.rendered ≡ true
          → r'.options ≡ r.options
          → r'.damage ≡ r.damage
          → r'.using_supplied ≡ r.using_supplied
          → IsSettled f r (result, remember f r')
      forgotten :
          (result : RenderResult) (r' : Renderer S)
          → result.error ≢ no_error
          → result.rendered ≡ false
          → r'.options ≡ r.options
          → r'.damage ≡ r.damage
          → IsSettled f r (result, reset b r')

    limit_error : output_buffer_limit_exceeded ≢ no_error
    limit_error e = ground (arith, e)

    settle-IsSettled :
        (f : Frame) (r r' : Renderer S) (succeeded : Bool) (t : Terminal) (result : RenderResult)
        → IsReported succeeded t
        → result.error ≡ (if succeeded then no_error else t.last_error)
        → result.rendered ≡ succeeded
        → r'.options ≡ r.options
        → r'.damage ≡ r.damage
        → r'.using_supplied ≡ r.using_supplied
        → IsSettled f r (result, settle b succeeded f r')
    unfolding settle
    settle-IsSettled f r r' true t result p e e' o d u = remembered result r' e e' o d u
    settle-IsSettled f r r' false t result p e e' o d u =
        forgotten result r' (λ h. last_error-good t (p refl) (cc)) e' o d

    present_whole-IsSettled :
        (resized : Bool) (f : Frame) (r : Renderer S)
        → IsSettled f r (present_whole answers b resized f r)
    unfolding present_whole
    present_whole-IsSettled resized f r = elim (Bool-cases (b.output_limit_exceeded encoded.1)) [
      | inl exceeded ↦
          rw (exceeded, present_whole)
            (forgotten _ (record r { backend = encoded.1 }) limit_error refl refl refl)
      | inr within ↦
          rw (within, present_whole)
            (settle-IsSettled f r (record r { backend = encoded.1; terminal = update.1 }) update.0
              update.1 _
              (in_update-IsReported resized r.options
                (draw_whole answers encoded.0 r.options.output_chunk_bytes) r.terminal
                (draw_whole-Reporting encoded.0 r.options.output_chunk_bytes))
              refl refl refl refl refl)
    ]
      where
        encoded : List ℕ × S
        encoded =
            b.encode_frame f
              (b.set_output_limit r.options.maximum_output_bytes (b.prepare_frame f r.backend))

        update : Bool × Terminal
        update =
            in_update answers resized r.options
              (draw_whole answers encoded.0 r.options.output_chunk_bytes) r.terminal

    draw_encoded-IsSettled :
        (resized : Bool) (f : Frame) (bytes : List ℕ) (entries : List EncodedRegion) (colors : ℕ)
        (r : Renderer S) (backend : S)
        → IsSettled f r
            (draw_encoded answers b resized f bytes entries colors (record r { backend = backend }))
    unfolding draw_encoded
    draw_encoded-IsSettled resized f bytes entries colors r backend =
        settle-IsSettled f r (record r { backend = backend; terminal = update.1 }) update.0 update.1
          _
          (in_update-IsReported resized r.options draw r.terminal (
            draw_regions-Reporting entries bytes r.options.cell_pixels
              r.options.output_chunk_bytes))
          refl refl refl refl refl
      where
        draw : Bool → Terminal → Bool × Terminal
        draw = draw_regions answers entries bytes r.options.cell_pixels r.options.output_chunk_bytes

        update : Bool × Terminal
        update = in_update answers resized r.options draw r.terminal

    present_regions-IsSettled :
        (resized : Bool) (f : Frame) (regions : List DamageRegion) (r : Renderer S)
        → IsSettled f r (present_regions answers b resized f regions r)
    unfolding present_regions
    present_regions-IsSettled resized f regions r = elim (Option-cases encoded.0) [
      | inl none_left ↦
          rw (none_left, present_regions)
            (forgotten _ (record r { backend = encoded.1 }) limit_error refl refl refl)
      | inr ((bytes, entries, colors), done) ↦
          rw (done, present_regions)
            (draw_encoded-IsSettled resized f bytes entries colors r encoded.1)
    ]
      where
        encoded : Option (List ℕ × List EncodedRegion × ℕ) × S
        encoded =
            encode_regions b f r.options.maximum_output_bytes regions [] [] 0
              (b.prepare_regional_frame f r.backend)

    -- Whatever is to be drawn, its presentation is settled.
    pub present-IsSettled :
        (choice : Choice) (resized : Bool) (f : Frame) (r : Renderer S)
        → choice ≢ nothing
        → IsSettled f r (present answers b choice resized f r)
    unfolding present
    present-IsSettled nothing resized f r something = absurd (something refl)
    present-IsSettled whole resized f r something = present_whole-IsSettled resized f r
    present-IsSettled (parts regions) resized f r something =
        present_regions-IsSettled resized f regions r
