-- ===== src/Encoder/Packed/Prepared.antt =====
-- The palette that a frame or a region is prepared with.
use mathlib.Core.Path.{subst}
use rasterm.Base.{
  ℕ, ◌+◌, ◌-◌, ◌≤◌, min, ◌≡◌, refl, sym, ap, ◌∙◌, ◌⊎◌, inl, inr, Bool, true, false, not, ◌&&◌, ◌||◌,
  leb, if◌then◌else◌, arith,
}
use rasterm.Base.Int.{pos_part}
use rasterm.Frame.{FrameView, is_valid_frame}
use rasterm.Damage.Rect.{DamageRegion, is_valid}
use rasterm.Encoder.Pixels.{PixelLayout, pixel_layout}
use rasterm.Encoder.Adaptive.{FastAdaptiveColorMapper, build_optimal_palette}
use rasterm.Encoder.Packed.{
  EncoderOptions, Analysis, PackedEncoder, crop_frame, rebuild, refresh, begin_frame, prepare_frame,
  prepare_regional_frame, prepare_region,
}
use rasterm.Encoder.Packed.Image.{map_adaptive}

module _ {Histogram : Type 0} (o : EncoderOptions)
    (analyze : FrameView → PixelLayout → Analysis Histogram)
    (is_scene_cut : Histogram → FastAdaptiveColorMapper Histogram → Bool)
    (distance : ℕ → ℕ → ℕ) where
  abbrev lock : ℕ
  lock = pos_part o.adaptive_palette_lock_frames

  -- The mapper that is built for a frame.
  pub built_for : FrameView → PackedEncoder Histogram → FastAdaptiveColorMapper Histogram
  built_for f e =
      let a = analyze f (pixel_layout f.format) in
      build_optimal_palette distance
        (a.most_frequent_colors (min 128 (e.color_mapper.max_colors - 1))) a.luminance_histogram
        e.color_mapper

  -- The encoder `t` after a frame prepared from `e`.
  pub record IsPrepared (f : FrameView) (e t : PackedEncoder Histogram) : Type 0 where
    pub prepared : t.adaptive_frame_prepared ≡ true
    pub has_palette : t.has_adaptive_palette ≡ true
    pub young : t.palette_age ≤ lock
    pub palette :
        ((t.color_mapper ≡ built_for f e) × (t.palette_age ≡ 0))
        ⊎ ((t.color_mapper ≡ e.color_mapper)
            × (t.palette_age ≡ e.palette_age + 1)
            × (e.has_adaptive_palette ≡ true)
            × (is_scene_cut (analyze f (pixel_layout f.format)).luminance_histogram e.color_mapper
                ≡ false))

  abbrev prepared_by : FrameView → PackedEncoder Histogram → PackedEncoder Histogram
  prepared_by f e =
      record (refresh o analyze is_scene_cut distance f (pixel_layout f.format)
        (begin_frame o analyze is_scene_cut distance e)) { adaptive_frame_prepared = true }

  prepare_frame-refresh :
      (f : FrameView) (e : PackedEncoder Histogram)
      → o.use_adaptive_palette ≡ true
      → is_valid_frame f ≡ true
      → prepare_frame o analyze is_scene_cut distance f e ≡ prepared_by f e
  unfolding prepare_frame
  prepare_frame-refresh f e adaptive valid =
      let test : (not o.use_adaptive_palette || not (is_valid_frame f)) ≡ false =
        ground (arith, adaptive, valid) in
      ap
        (λ (b : Bool). if b then begin_frame o analyze is_scene_cut distance e else prepared_by f e)
        test

  refresh-IsPrepared :
      (f : FrameView) (e : PackedEncoder Histogram) → IsPrepared f e (prepared_by f e)
  unfolding refresh rebuild begin_frame built_for
  refresh-IsPrepared f e =
      either
        (not e.has_adaptive_palette
          || (leb lock e.palette_age
              || is_scene_cut (analyze f (pixel_layout f.format)).luminance_histogram
                  e.color_mapper))
        refl
    where
      begun : PackedEncoder Histogram
      begun = begin_frame o analyze is_scene_cut distance e

      either :
          (b : Bool)
          → b ≡ (
              not e.has_adaptive_palette
              || (leb lock e.palette_age
                  || is_scene_cut
                      (analyze f (pixel_layout f.format)).luminance_histogram
                      e.color_mapper))
          → IsPrepared f e
              (record (if b
                then rebuild o analyze is_scene_cut distance
                    (analyze f (pixel_layout f.format))
                    begun
                else record begun { palette_age = begun.palette_age + 1 }) {
                  adaptive_frame_prepared = true;
                })
      either true h = record {
        prepared = refl;
        has_palette = refl;
        young = omega arith;
        palette = inl (refl, refl);
      }
      either false h = record {
        prepared = refl;
        has_palette = ground (arith, h);
        young = ground (arith, h);
        palette = inr (refl, refl, ground (arith, h), ground (arith, h));
      }

  map_adaptive-prepared :
      (source : FrameView × PixelLayout) (e : PackedEncoder Histogram)
      → e.adaptive_frame_prepared ≡ true
      → (map_adaptive o analyze is_scene_cut distance source e).1 ≡ e
  unfolding map_adaptive
  map_adaptive-prepared source e h =
      ap
        (λ (b : Bool).
          if not b then refresh o analyze is_scene_cut distance source.0 source.1 e else e)
        h

  -- A valid frame of an encoder with adaptive palettes is prepared with a palette that was built for it,
  -- or with the encoder's palette, if there is one, the frame is no scene cut, and fewer frames than the
  -- lock allows have used it since it was built. The next image does not build another one.
  pub prepare_frame-IsPrepared :
      (f : FrameView) (e : PackedEncoder Histogram)
      → o.use_adaptive_palette ≡ true
      → is_valid_frame f ≡ true
      → IsPrepared f e (prepare_frame o analyze is_scene_cut distance f e)
        × ((source : FrameView × PixelLayout)
            → (map_adaptive o analyze is_scene_cut distance source
                (prepare_frame o analyze is_scene_cut distance f e)).1
              ≡ prepare_frame o analyze is_scene_cut distance f e)
  prepare_frame-IsPrepared f e adaptive valid =
      let as_prepared = prepare_frame-refresh f e adaptive valid in
      (
        subst (IsPrepared f e) (sym as_prepared) (refresh-IsPrepared f e),
        λ source. map_adaptive-prepared source _ (ap (λ t. t.adaptive_frame_prepared) as_prepared),
      )

  -- When regions are quantised on their own, the frame prepares no palette, and each valid region of a
  -- valid frame is drawn with the palette that is built for the region alone, whatever was prepared
  -- before it.
  pub prepare_region-built :
      (f g : FrameView) (r : DamageRegion) (e : PackedEncoder Histogram)
      (source : FrameView × PixelLayout)
      → o.use_adaptive_palette ≡ true
      → o.independent_region_quantization ≡ true
      → is_valid_frame f ≡ true
      → is_valid r ≡ true
      → ((prepare_regional_frame o analyze is_scene_cut distance g e).adaptive_frame_prepared
          ≡ false)
        × ((map_adaptive o analyze is_scene_cut distance source
              (prepare_region o analyze is_scene_cut distance f r e)).1.color_mapper
            ≡ built_for (crop_frame r f) e)
  unfolding prepare_regional_frame prepare_region begin_frame rebuild built_for
  prepare_region-built f g r e source adaptive independent valid some_pixels =
      let region =
        record (rebuild o analyze is_scene_cut distance
          (analyze (crop_frame r f) (pixel_layout (crop_frame r f).format)) e) {
            adaptive_frame_prepared = true;
          } in
      let both : (o.use_adaptive_palette && o.independent_region_quantization) ≡ true =
        ground (arith, adaptive, independent) in
      let test : (not o.use_adaptive_palette
            || (not o.independent_region_quantization
                || (not (is_valid_frame f) || not (is_valid r))))
          ≡ false =
        ground (arith, adaptive, independent, valid, some_pixels) in
      let as_built : prepare_region o analyze is_scene_cut distance f r e ≡ region =
        ap (λ (b : Bool). if b then e else region) test in
      (
        ap
            (λ (b : Bool).
              (if b
                then begin_frame o analyze is_scene_cut distance e
                else prepare_frame o analyze is_scene_cut distance g e).adaptive_frame_prepared)
            both,
        ap (λ t. (map_adaptive o analyze is_scene_cut distance source t).1.color_mapper) as_built
            ∙ ap (λ t. t.color_mapper) (map_adaptive-prepared source region refl),
      )
