-- ===== src/Engine/Statistics.antt =====
-- The statistics of the engine: the ring of the latest 256 presentation times, their percentiles and the
-- counters. Times are in microseconds. The index of a percentile, computed in floating point, the
-- comparison of a time with the threshold, and the rates per second are not arithmetic on integers: the
-- first two are parameters, the rates are left out.
use rasterm.Base.{
  ℕ, ◌+◌, ◌-◌, ◌%◌, ◌^◌, min, Bool, true, false, List, [], ◌∷◌, ltb, leb, ◌==◌, if◌then◌else◌,
  get_or, set, take, length,
}
use rasterm.Error.{
  ErrorCode, no_error, output_write_failed, output_flush_failed, output_buffer_limit_exceeded,
}
use rasterm.Renderer.State.{RenderResult}

pub record RenderStats : Type 0 where
  pub error : ErrorCode
  pub rendered : Bool
  pub full_frame : Bool
  pub payload_bytes : ℕ
  pub dirty_regions : ℕ
  pub width : ℕ
  pub height : ℕ
  pub colors_used : ℕ
  pub present_time : ℕ
  pub p95 : ℕ
  pub p99 : ℕ
  pub output_failures : ℕ
  pub backpressure_events : ℕ
  pub payload_limit_drops : ℕ
  pub wire_bytes : ℕ

abbrev pub no_stats : RenderStats
no_stats = record {
  error = no_error;
  rendered = false;
  full_frame = false;
  payload_bytes = 0;
  dirty_regions = 0;
  width = 0;
  height = 0;
  colors_used = 0;
  present_time = 0;
  p95 = 0;
  p99 = 0;
  output_failures = 0;
  backpressure_events = 0;
  payload_limit_drops = 0;
  wire_bytes = 0;
}

-- The members `terminalWriteSamples` to `payloadLimitDrops`.
pub record Samples : Type 0 where
  pub terminal_write_samples : List ℕ
  pub write_sample_count : ℕ
  pub write_sample_cursor : ℕ
  pub output_failures : ℕ
  pub backpressure_events : ℕ
  pub payload_limit_drops : ℕ

-- The start of `initialize`: the times themselves are kept.
abbrev pub clear_samples : Samples → Samples
clear_samples m = record m {
  write_sample_count = 0;
  write_sample_cursor = 0;
  output_failures = 0;
  backpressure_events = 0;
  payload_limit_drops = 0;
}

abbrev pub insert_time : ℕ → List ℕ → List ℕ
insert_time x [] = x ∷ []
insert_time x (y ∷ ys) = if leb x y then x ∷ y ∷ ys else y ∷ insert_time x ys

abbrev pub sort_times : List ℕ → List ℕ
sort_times [] = []
sort_times (x ∷ xs) = insert_time x (sort_times xs)

-- `writePercentiles`: `index_of_95 n` is the truncation of 0.95 * (n - 1), and so for 99.
unfoldable pub write_percentiles : (ℕ → ℕ) → (ℕ → ℕ) → Samples → ℕ × ℕ
write_percentiles index_of_95 index_of_99 m =
    let count = m.write_sample_count in
    let sorted = sort_times (take count m.terminal_write_samples) in
    if count == 0 then (0, 0) else (
      get_or sorted (min (index_of_95 count) (count - 1)) 0,
      get_or sorted (min (index_of_99 count) (count - 1)) 0,
    )

abbrev is_output_failure : ErrorCode → Bool
is_output_failure output_write_failed = true
is_output_failure output_flush_failed = true
is_output_failure _ = false

abbrev is_limit : ErrorCode → Bool
is_limit output_buffer_limit_exceeded = true
is_limit _ = false

abbrev increment : Bool → ℕ → ℕ
increment counts n = if counts then (n + 1) % 2 ^ 64 else n

-- The part of `record` that changes the samples and the counters.
unfoldable pub count_result : (ℕ → Bool) → RenderResult → ℕ → Samples → Samples
count_result is_late result time m =
    let size = length m.terminal_write_samples in
    let timed = ltb 0 time in
    record {
      terminal_write_samples =
          if timed
          then set m.terminal_write_samples m.write_sample_cursor time
          else m.terminal_write_samples;
      write_sample_count =
          if timed then min (m.write_sample_count + 1) size else m.write_sample_count;
      write_sample_cursor =
          if timed then (m.write_sample_cursor + 1) % size else m.write_sample_cursor;
      output_failures = increment (is_output_failure result.error) m.output_failures;
      backpressure_events = increment (is_late time) m.backpressure_events;
      payload_limit_drops = increment (is_limit result.error) m.payload_limit_drops;
    }

-- `record`: the samples and the latest statistics.
unfoldable pub record_result :
    (ℕ → Bool) → (ℕ → ℕ) → (ℕ → ℕ) → RenderResult → ℕ → ℕ → ℕ → Samples → RenderStats × Samples
unfolding count_result write_percentiles
record_result is_late index_of_95 index_of_99 result time width height m =
    let m' = count_result is_late result time m in
    let (p95, p99) = write_percentiles index_of_95 index_of_99 m' in
    (
      record {
        error = result.error;
        rendered = result.rendered;
        full_frame = result.used_full_frame;
        payload_bytes = result.output_bytes;
        dirty_regions = result.dirty_region_count;
        width = width;
        height = height;
        colors_used = result.colors_used;
        present_time = time;
        p95 = p95;
        p99 = p99;
        output_failures = m'.output_failures;
        backpressure_events = m'.backpressure_events;
        payload_limit_drops = m'.payload_limit_drops;
        wire_bytes = result.wire_bytes;
      },
      m',
    )
