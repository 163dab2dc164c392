-- ===== src/Encoder/Packed/Serving.antt =====
-- The registers of the adaptive palette are bytes: before any image, after each operation.
use rasterm.Base.{
  ℕ, ◌≤◌, ◌<◌, min, ◌≡◌, refl, inl, inr, Bool, true, false, not, ◌&&◌, ◌||◌, leb, ◌-◌, Bool-cases,
  if◌then◌else◌, arith,
}
use rasterm.Base.Int.{pos_part}
use rasterm.Frame.{FrameView, is_valid_frame}
use rasterm.Damage.Rect.{DamageRegion, is_valid}
use rasterm.Encoder.Pixels.{PixelLayout, PixelChannels, pixel_layout}
use rasterm.Encoder.Adaptive.{FastAdaptiveColorMapper, get_color_number_read_only}
use rasterm.Encoder.Adaptive.Build.{build_optimal_palette-byte}
use rasterm.Encoder.Packed.{
  EncoderOptions, Analysis, PackedEncoder, active_color_slots, clamp_options, crop_frame, rebuild,
  refresh, begin_frame, prepare_frame, prepare_regional_frame, prepare_region, reset,
}

-- The mapper has room for 256 colours at most, and a palette that was built has a byte for every colour.
-- Nothing is prepared without a palette.
pub record IsServing {Histogram : Type 0} (e : PackedEncoder Histogram) : Type 0 where
  pub room : e.color_mapper.max_colors ≤ 256
  pub registers :
      e.has_adaptive_palette ≡ true
      → (c : PixelChannels) → get_color_number_read_only e.color_mapper c < 256
  pub prepared : e.adaptive_frame_prepared ≡ true → e.has_adaptive_palette ≡ true

-- The constructor gives the mapper that room.
pub active_color_slots-le : (o : EncoderOptions) → active_color_slots o ≤ 256
unfolding active_color_slots clamp_options
active_color_slots-le o = omega arith

module _ {Histogram : Type 0} (o : EncoderOptions)
    (analyze : FrameView → PixelLayout → Analysis Histogram)
    (is_scene_cut : Histogram → FastAdaptiveColorMapper Histogram → Bool)
    (distance : ℕ → ℕ → ℕ) where
  -- A new encoder has no palette, so it serves as soon as its mapper has that room.
  pub no_palette-IsServing :
      (e : PackedEncoder Histogram)
      → e.color_mapper.max_colors ≡ active_color_slots o
      → e.has_adaptive_palette ≡ false
      → e.adaptive_frame_prepared ≡ false
      → IsServing e
  no_palette-IsServing e room none_built none_prepared = record {
    room = rw room (active_color_slots-le o);
    registers = λ h. absurd (ground (arith, h, none_built));
    prepared = λ h. absurd (ground (arith, h, none_prepared));
  }

  rebuild-IsServing :
      (a : Analysis Histogram) (e : PackedEncoder Histogram)
      → IsServing e
      → IsServing (rebuild o analyze is_scene_cut distance a e)
  unfolding rebuild
  rebuild-IsServing a e v =
      let (same, byte) =
        build_optimal_palette-byte distance
          (a.most_frequent_colors (min 128 (e.color_mapper.max_colors - 1))) a.luminance_histogram
          e.color_mapper v.room in
      record { room = omega (arith, same, v.room); registers = λ h. byte; prepared = λ h. refl }

  -- After a new palette or with an older one, the palette is there.
  pub refresh-IsServing :
      (f : FrameView) (layout : PixelLayout) (e : PackedEncoder Histogram)
      → IsServing e
      → IsServing (refresh o analyze is_scene_cut distance f layout e)
        × ((refresh o analyze is_scene_cut distance f layout e).has_adaptive_palette ≡ true)
  unfolding refresh
  refresh-IsServing f layout e v = elim (Bool-cases e.has_adaptive_palette) [
    | inr none_built ↦
        rw (none_built, refresh) (rebuild-IsServing (analyze f layout) e v, unfold rebuild in refl)
    | inl built ↦ elim (Bool-cases late) [
      | inl new ↦
          rw (built, new, refresh)
            (rebuild-IsServing (analyze f layout) e v, unfold rebuild in refl)
      | inr kept ↦
          rw (built, kept, refresh)
            (
              record { room = v.room; registers = λ h. v.registers built; prepared = λ h. refl },
              refl,
            )
    ]
  ]
    where
      late : Bool
      late =
          leb (pos_part o.adaptive_palette_lock_frames) e.palette_age
          || is_scene_cut (analyze f layout).luminance_histogram e.color_mapper

  begin_frame-IsServing :
      (e : PackedEncoder Histogram)
      → IsServing e
      → IsServing (begin_frame o analyze is_scene_cut distance e)
  unfolding begin_frame
  begin_frame-IsServing e v = record {
    room = v.room;
    registers = v.registers;
    prepared = λ h. absurd (ground (arith, h));
  }

  -- Every operation between images keeps the registers bytes.
  pub prepare_frame-IsServing :
      (f : FrameView) (e : PackedEncoder Histogram)
      → IsServing e
      → IsServing (prepare_frame o analyze is_scene_cut distance f e)
  unfolding prepare_frame
  prepare_frame-IsServing f e v = go (not o.use_adaptive_palette || not (is_valid_frame f))
    where
      begun : PackedEncoder Histogram
      begun = begin_frame o analyze is_scene_cut distance e

      next : PackedEncoder Histogram
      next = refresh o analyze is_scene_cut distance f (pixel_layout f.format) begun

      go :
          (fixed : Bool)
          → IsServing (if fixed then begun else record next { adaptive_frame_prepared = true })
      go true = begin_frame-IsServing e v
      go false =
          let (r, built) =
            refresh-IsServing f (pixel_layout f.format) begun (begin_frame-IsServing e v) in
          record { room = r.room; registers = r.registers; prepared = λ h. built }

  pub prepare_regional_frame-IsServing :
      (f : FrameView) (e : PackedEncoder Histogram)
      → IsServing e
      → IsServing (prepare_regional_frame o analyze is_scene_cut distance f e)
  unfolding prepare_regional_frame
  prepare_regional_frame-IsServing f e v =
      go (o.use_adaptive_palette && o.independent_region_quantization)
    where
      go :
          (alone : Bool)
          → IsServing (
              if alone
              then begin_frame o analyze is_scene_cut distance e
              else prepare_frame o analyze is_scene_cut distance f e)
      go true = begin_frame-IsServing e v
      go false = prepare_frame-IsServing f e v

  pub prepare_region-IsServing :
      (f : FrameView) (r : DamageRegion) (e : PackedEncoder Histogram)
      → IsServing e
      → IsServing (prepare_region o analyze is_scene_cut distance f r e)
  unfolding prepare_region
  prepare_region-IsServing f r e v = go (
      not o.use_adaptive_palette
      || (not o.independent_region_quantization || (not (is_valid_frame f) || not (is_valid r))))
    where
      next : PackedEncoder Histogram
      next =
          let view = crop_frame r f in
          rebuild o analyze is_scene_cut distance (analyze view (pixel_layout view.format)) e

      go :
          (skipped : Bool)
          → IsServing (if skipped then e else record next { adaptive_frame_prepared = true })
      go true = v
      go false =
          let r = rebuild-IsServing (analyze (crop_frame r f) (pixel_layout f.format)) e v in
          record { room = r.room; registers = r.registers; prepared = λ h. unfold rebuild in refl }

pub reset-IsServing :
    {Histogram : Type 0} (e : PackedEncoder Histogram) → IsServing e → IsServing (reset e)
unfolding reset
reset-IsServing e v = record {
  room = v.room;
  registers = λ h. absurd (ground (arith, h));
  prepared = λ h. absurd (ground (arith, h));
}
