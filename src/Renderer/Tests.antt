-- ===== src/Renderer/Tests.antt =====
-- A renderer over a small backend and a sink that takes everything, and the theorems at it.
use rasterm.Base.{
  ℕ, ◌<◌, ◌≤◌, ◌≡◌, refl, Bool, true, false, ◌&&◌, List, [], ◌∷◌, map, ltb, if◌then◌else◌, length,
  All, arith,
}
use rasterm.Terminal as Terminal
use rasterm.Damage.Rect.{DamageRegion, covered}
use rasterm.Damage.{Source, compare_view, compare_and_update, copy_frame, has_same_shape}
use rasterm.Damage as Damage
use rasterm.Renderer.Plan.{normalize_damage}
use rasterm.Renderer.Normalize.{IsUnmergeable, IsOrdered, normalize_damage_lem}
use rasterm.Renderer.State.{
  Frame, Backend, RendererOptions, Renderer, tile_options, new_tracker, construct,
}
use rasterm.Renderer.Render.{
  whole, EncodedRegion, choose, planned, forget, compared_difference, remember, settle, in_update,
  present_whole, present, encode_regions, render_frame,
}
use rasterm.Renderer.Screen.{Screen, paint}
use rasterm.Renderer.Place.{display, choose-display}
use rasterm.Renderer.Synced.{IsSized}
use rasterm.Renderer.Shown.{IsDrawable}
use rasterm.Renderer.Recovery.{failed-whole}
use rasterm.Renderer.Regions.{IsEncoded, region_of, encode_regions-IsEncoded}

abbrev never_large : ℕ → ℕ → Bool
never_large changed total = false

abbrev accepts : ℕ → Bool
accepts call = true

abbrev refuses : ℕ → Bool
refuses call = false

-- A backend whose state is its limit, and which encodes anything as two bytes.
abbrev too_large : ℕ → Bool
too_large limit = ltb 0 limit && ltb limit 2

abbrev encode : ℕ → List ℕ × ℕ
encode limit = (if too_large limit then [] else 5 ∷ 6 ∷ [], limit)

abbrev backend : Backend ℕ
backend = record {
  prepare_frame = λ f s. s;
  prepare_regional_frame = λ f s. s;
  prepare_region = λ f region s. s;
  set_output_limit = λ limit s. limit;
  encode_frame = λ f s. encode s;
  encode_region = λ f region s. encode s;
  output_limit_exceeded = too_large;
  last_color_count = λ s. 1;
  reset = λ s. 0;
}

abbrev options : RendererOptions
options = record {
  use_alternate_screen = false;
  preserve_cursor = true;
  enable_dirty_regions = true;
  use_synchronized_output = true;
  maximum_output_bytes = 100;
  output_chunk_bytes = 0;
  cell_pixels = record { cell_width = 2; cell_height = 3 };
  damage = record { tile_width = 4; tile_height = 4 };
}

abbrev frame : Frame
frame = record {
  source = record {
    bytes = λ i. i;
    width = 5;
    height = 4;
    stride = 8;
    pixel_bytes = 1;
    format_tag = 100;
    palette = 7 ∷ [];
  };
  is_indexed = true;
  is_valid = true;
  has_valid_indices = true;
  supplied = false;
  rectangles = [];
}

frame-IsDrawable : IsDrawable frame
frame-IsDrawable = record { valid = refl; width = omega arith; height = omega arith }

abbrev blank : Screen
blank px py k = 0

abbrev fresh : Renderer ℕ
fresh = construct accepts 0 options

-- The sink refuses every byte of the first frame.
abbrev refused : Renderer ℕ
refused = construct refuses 0 options

failed-whole_example :
    (choose never_large never_large frame
      (render_frame refuses backend never_large never_large frame refused).1).0
    ≡ whole
unfolding construct new_tracker render_frame choose forget compared_difference planned compare_view
    compare_and_update has_same_shape present present_whole in_update settle remember tile_options
    Damage.clamp_options Terminal.construct Terminal.sink_write Terminal.sink_retry
    Terminal.sink_flush Terminal.write Terminal.flush Terminal.recovery_write
    Terminal.recovery_flush Terminal.write_chunks Terminal.clear_and_home
    Terminal.begin_synchronized_update Terminal.end_synchronized_update Terminal.draw_at_home
failed-whole_example =
    failed-whole never_large never_large frame frame-IsDrawable refuses backend frame refused
      (λ e. absurd (ground (arith, e)))

abbrev left_region : DamageRegion
left_region = record { x = 1; y = 1; width = 2; height = 2 }

abbrev right_region : DamageRegion
right_region = record { x = 3; y = 1; width = 2; height = 2 }

-- The two regions after one another in the bytes of the transaction.
abbrev two_images : List ℕ
two_images = 5 ∷ 6 ∷ 5 ∷ 6 ∷ []

abbrev two_entries : List EncodedRegion
two_entries =
    record { region = left_region; offset = 0; size = 2; colors_used = 1 }
    ∷ record { region = right_region; offset = 2; size = 2; colors_used = 1 }
    ∷ []

encode-limited : (limit : ℕ) → 0 < limit → too_large limit ≡ false → length (encode limit).0 ≤ limit
encode-limited limit pos fits = ground arith

encode_regions-IsEncoded_example :
    All (IsEncoded backend frame two_images) two_entries
    × (map region_of two_entries ≡ left_region ∷ right_region ∷ [])
    × (0 < 4 → length two_images ≤ 4)
unfolding encode_regions
encode_regions-IsEncoded_example =
    encode_regions-IsEncoded backend frame (λ limit region s. encode-limited limit) 4
      (left_region ∷ right_region ∷ []) 0 two_images two_entries 1 refl

normalize_damage_lem_example :
    let rs = right_region ∷ left_region ∷ [] in
    IsUnmergeable (normalize_damage rs)
    × IsOrdered (normalize_damage rs)
    × ((px py : ℕ) → covered (normalize_damage rs) px py ≡ covered rs px py)
normalize_damage_lem_example = normalize_damage_lem (right_region ∷ left_region ∷ [])

fresh-IsSized : IsSized fresh
unfolding construct new_tracker tile_options Damage.clamp_options
fresh-IsSized = record {
  cell_width = omega arith;
  cell_height = omega arith;
  tile_width = omega arith;
  tile_height = omega arith;
  whole_width = refl;
  whole_height = refl;
}

choose-display_example :
    display fresh.options.cell_pixels frame.source
      (choose never_large never_large frame fresh).0
      blank
    ≡ paint (choose never_large never_large frame fresh).0 frame.source blank
choose-display_example = choose-display never_large never_large frame fresh blank fresh-IsSized
