-- ===== src/Renderer/Render.antt =====
-- `renderFrame`: what of a frame is to be drawn, and the drawing inside one synchronized update.
use rasterm.Base.{
  ℕ, suc, ◌+◌, ◌-◌, ◌/◌, ◌%◌, ◌^◌, max, Bool, true, false, not, ◌||◌, ◌&&◌, Option, none, some,
  List, [], ◌∷◌, ◌++◌, map, ltb, leb, ◌==◌, if◌then◌else◌, length, take, drop,
}
use rasterm.Error.{no_error, output_buffer_limit_exceeded}
use rasterm.Damage.Rect.{DamageRegion}
use rasterm.Damage.{Source, Tracker, DamageResult, same_list, compare_view}
use rasterm.Damage as Damage
use rasterm.Terminal.{
  Terminal, clear_and_home, begin_synchronized_update, end_synchronized_update, draw_at_home,
  draw_at_cell,
}
use rasterm.Renderer.Plan.{
  TerminalCellPixels, align_to_terminal_cells, normalize_damage, can_present_without_bottom_scroll,
  plan_damage_presentation,
}
use rasterm.Renderer.State.{
  Frame, Backend, RendererOptions, RenderResult, no_result, Renderer, reset,
}

-- What is drawn of a frame.
pub data Choice : Type 0 where
  nothing whole : Choice
  parts : List DamageRegion → Choice

-- `EncodedRegion`: where the bytes of a region stand among those of the transaction.
pub record EncodedRegion : Type 0 where
  pub region : DamageRegion
  pub offset : ℕ
  pub size : ℕ
  pub colors_used : ℕ

-- `std::size_t` subtraction, of numbers below 2^64.
abbrev pub sub_size : ℕ → ℕ → ℕ
sub_size a b = (a + 2 ^ 64 - b) % 2 ^ 64

-- One region that is the whole frame.
abbrev pub is_whole : List DamageRegion → Source → Bool
is_whole (region ∷ []) f =
    ((region.x == 0) && (region.y == 0))
    && ((region.width == f.width) && (region.height == f.height))
is_whole _ f = false

abbrev pub limit_result : RenderResult
limit_result = record no_result { error = output_buffer_limit_exceeded }

-- The cell at which the image of a region begins.
abbrev pub cell_row : TerminalCellPixels → DamageRegion → ℕ
cell_row cells region = region.y / cells.cell_height

abbrev pub cell_column : TerminalCellPixels → DamageRegion → ℕ
cell_column cells region = region.x / cells.cell_width

module _ (answers : ℕ → Bool) where
  -- The synchronized update: `draw` has the outcome so far, and `UpdateScope` the first and the last call.
  unfoldable pub in_update :
      Bool → RendererOptions → (Bool → Terminal → Bool × Terminal) → Terminal → Bool × Terminal
  in_update resized options draw t =
      let (begun, t1) =
        begin_synchronized_update answers options.preserve_cursor options.use_synchronized_output
          t in
      let (cleared, t2) = if resized then clear_and_home answers t1 else (true, t1) in
      let (drawn, t3) = draw cleared t2 in
      let (ended, t4) = end_synchronized_update answers t3 in ((ended && begun) && drawn, t4)

  abbrev pub draw_whole : List ℕ → ℕ → Bool → Terminal → Bool × Terminal
  draw_whole sixel chunk succeeded t =
      let (drawn, t') = draw_at_home answers sixel false chunk t in (drawn && succeeded, t')

  -- The loop that draws the encoded regions.
  unfoldable pub draw_regions :
      List EncodedRegion → List ℕ → TerminalCellPixels → ℕ → Bool → Terminal → Bool × Terminal
  draw_regions [] bytes cells chunk succeeded t = (succeeded, t)
  draw_regions (entry ∷ rest) bytes cells chunk succeeded t =
      let (drawn, t') =
        draw_at_cell answers (cell_row cells entry.region) (cell_column cells entry.region)
          (take entry.size (drop entry.offset bytes)) false chunk t in
      draw_regions rest bytes cells chunk (drawn && succeeded) t'

module _ {S : Type 0} where
  abbrev pub dimensions_changed : Frame → Renderer S → Bool
  dimensions_changed f r =
      ltb 0 r.previous_width
      && (not (f.source.width == r.previous_width) || not (f.source.height == r.previous_height))

  abbrev pub palette_changed : Frame → Renderer S → Bool
  palette_changed f r = f.is_indexed && not (same_list r.previous_palette f.source.palette)

  abbrev pub identity_changed : Frame → Renderer S → Bool
  identity_changed f r =
      ltb 0 r.previous_tag
      && (not (suc f.source.format_tag == r.previous_tag) || palette_changed f r)

  -- The tracker forgets a frame of another size, format or palette.
  unfoldable pub forget : Frame → Renderer S → Renderer S
  forget f r =
      if dimensions_changed f r || identity_changed f r
      then record r { damage = Damage.reset r.damage; using_supplied = false }
      else r

  -- The damage that the application supplies, in whole cells.
  unfoldable pub supplied_damage : Frame → Renderer S → List DamageRegion
  supplied_damage f r = normalize_damage (
      map
        (λ region.
          align_to_terminal_cells region f.source.width f.source.height r.options.cell_pixels)
        f.rectangles)

  unfoldable pub supplied_difference : Frame → Renderer S → DamageResult × Renderer S
  unfolding supplied_damage
  supplied_difference f r =
      let r' =
        if not r.using_supplied
        then record r { damage = Damage.reset r.damage; using_supplied = true }
        else r in
      let regions = supplied_damage f r in
      let covers_frame =
        (r.previous_width == 0)
        || (dimensions_changed f r || (identity_changed f r || is_whole regions f.source)) in
      (
        record {
          is_full_frame = covers_frame;
          has_changes = covers_frame || not (length regions == 0);
          changed = if covers_frame then 1 else 0;
          total = 1;
          regions = regions;
        },
        r',
      )

  unfoldable pub compared_difference :
      (ℕ → ℕ → Bool) → Frame → Renderer S → DamageResult × Renderer S
  compared_difference is_large f r =
      let r' =
        if r.using_supplied
        then record r { damage = Damage.reset r.damage; using_supplied = false }
        else r in
      let (difference, tracker) = compare_view is_large f.is_valid f.source r'.damage in
      (difference, record r' { damage = tracker })

  -- `is_large` compares areas for the tracker, `is_large_plan` for the plan of the presentation.
  module _ (is_large is_large_plan : ℕ → ℕ → Bool) where
    unfoldable pub planned : DamageResult → Frame → Renderer S → Choice
    planned difference f r =
        if not difference.has_changes
        then nothing
        else if difference.is_full_frame
        then whole
        else (let (full, regions) =
              plan_damage_presentation is_large_plan difference.regions f.source.width
                f.source.height r.options.cell_pixels in
            if full || not (can_present_without_bottom_scroll regions f.source.height)
            then whole
            else parts regions)

    -- What `renderFrame` decides on, of a valid frame, before it encodes.
    unfoldable pub choose : Frame → Renderer S → Choice × Renderer S
    unfolding forget supplied_difference compared_difference planned
    choose f r =
        let r' = forget f r in
        if not r'.options.enable_dirty_regions
        then (whole, r')
        else (let (difference, r'') =
              if f.supplied then supplied_difference f r' else compared_difference is_large f r' in
            (planned difference f r'', r''))

  -- What the renderer remembers of a frame that was drawn.
  unfoldable pub remember : Frame → Renderer S → Renderer S
  remember f r = record r {
    previous_width = f.source.width;
    previous_height = f.source.height;
    previous_tag = suc f.source.format_tag;
    previous_palette = if f.is_indexed then f.source.palette else [];
  }

  module _ (b : Backend S) where
    -- The state after the update: the frame is remembered, or all is forgotten.
    unfoldable pub settle : Bool → Frame → Renderer S → Renderer S
    unfolding remember
    settle succeeded f r = if succeeded then remember f r else reset b r

    -- The loop that encodes the regions one after another, each within what the limit leaves.
    unfoldable pub encode_regions :
        Frame
        → ℕ
        → List DamageRegion
        → List ℕ
        → List EncodedRegion
        → ℕ
        → S
        → Option (List ℕ × List EncodedRegion × ℕ) × S
    encode_regions f limit [] bytes encoded colors s = (some (bytes, encoded, colors), s)
    encode_regions f limit (region ∷ rest) bytes encoded colors s =
        let remaining = if limit == 0 then 0 else limit - length bytes in
        let limited = b.set_output_limit remaining (b.prepare_region f region s) in
        let (sixel, s') = b.encode_region f region limited in
        let entry : EncodedRegion = record {
          region = region;
          offset = length bytes;
          size = length sixel;
          colors_used = b.last_color_count s';
        } in
        elim (ltb 0 limit && leb limit (length bytes)) [
          | true ↦ (none, s)
          | false ↦ elim (b.output_limit_exceeded s') [
            | true ↦ (none, s')
            | false ↦
                encode_regions f limit rest (bytes ++ sixel) (encoded ++ entry ∷ [])
                  (max colors (b.last_color_count s')) s'
          ]
        ]

  module _ (answers : ℕ → Bool) (b : Backend S) where
    -- The presentation of the whole frame.
    unfoldable pub present_whole : Bool → Frame → Renderer S → RenderResult × Renderer S
    unfolding in_update settle
    present_whole resized f r =
        let limited =
          b.set_output_limit r.options.maximum_output_bytes (b.prepare_frame f r.backend) in
        let (sixel, backend) = b.encode_frame f limited in
        if b.output_limit_exceeded backend
        then (limit_result, reset b (record r { backend = backend }))
        else (let (succeeded, t) =
              in_update answers resized r.options
                (draw_whole answers sixel r.options.output_chunk_bytes) r.terminal in
            let r' = settle b succeeded f (record r { backend = backend; terminal = t }) in
            (
              record {
                error = if succeeded then no_error else t.last_error;
                rendered = succeeded;
                used_full_frame = true;
                output_bytes = if succeeded then length sixel else 0;
                wire_bytes = sub_size t.accepted r.terminal.accepted;
                dirty_region_count = 0;
                colors_used = b.last_color_count r'.backend;
              },
              r',
            ))

    -- The drawing of regions that were encoded.
    unfoldable pub draw_encoded :
        Bool → Frame → List ℕ → List EncodedRegion → ℕ → Renderer S → RenderResult × Renderer S
    unfolding draw_regions in_update settle
    draw_encoded resized f bytes encoded colors r =
        let (succeeded, t) =
          in_update answers resized r.options
            (draw_regions answers encoded bytes r.options.cell_pixels r.options.output_chunk_bytes)
            r.terminal in
        (
          record {
            error = if succeeded then no_error else t.last_error;
            rendered = succeeded;
            used_full_frame = false;
            output_bytes = if succeeded then length bytes else 0;
            wire_bytes = sub_size t.accepted r.terminal.accepted;
            dirty_region_count = length encoded % 2 ^ 32;
            colors_used = colors;
          },
          settle b succeeded f (record r { terminal = t }),
        )

    -- The presentation of regions.
    unfoldable pub present_regions :
        Bool → Frame → List DamageRegion → Renderer S → RenderResult × Renderer S
    unfolding encode_regions draw_encoded
    present_regions resized f regions r =
        let (outcome, backend) =
          encode_regions b f r.options.maximum_output_bytes regions [] [] 0
            (b.prepare_regional_frame f r.backend) in
        let r' = record r { backend = backend } in
        elim outcome [
          | none ↦ (limit_result, reset b r')
          | some (bytes, encoded, colors) ↦ draw_encoded resized f bytes encoded colors r'
        ]

    unfoldable pub present : Choice → Bool → Frame → Renderer S → RenderResult × Renderer S
    unfolding present_whole present_regions
    present nothing resized f r = (no_result, r)
    present whole resized f r = present_whole resized f r
    present (parts regions) resized f r = present_regions resized f regions r

    module _ (is_large is_large_plan : ℕ → ℕ → Bool) where
      -- `renderFrame`.
      unfoldable pub render_frame : Frame → Renderer S → RenderResult × Renderer S
      unfolding choose present
      render_frame f r =
          if not f.is_valid
          then (no_result, r)
          else (let (choice, r') = choose is_large is_large_plan f r in
              present choice (dimensions_changed f r) f r')

      -- The public `render`: the indices of an indexed frame are validated first.
      unfoldable pub render : Frame → Renderer S → RenderResult × Renderer S
      unfolding render_frame
      render f r =
          if f.is_indexed && not f.has_valid_indices then (no_result, r) else render_frame f r
