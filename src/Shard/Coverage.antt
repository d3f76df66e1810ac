-- ===== src/Shard/Coverage.antt =====
-- crates/offf-core/src/shard.rs, `compute_coverage_report`.
use openforensicfileformat.Prelude.{◌+◌, ◌%◌, ◌^◌, ◌≡◌, List, [], ◌∷◌, length, arith, All}
use openforensicfileformat.Words.{add64}
use openforensicfileformat.Shard.{
  AnalysisInputObject, ShardPlanRecord, ShardResultManifest, ShardStatistics, CoverageReport,
}

-- The five counters of the loop.
unfoldable pub add_statistics : ShardStatistics → ShardStatistics → ShardStatistics
add_statistics t s = record {
  objects_in_scope = add64 t.objects_in_scope s.objects_in_scope;
  objects_processed = add64 t.objects_processed s.objects_processed;
  objects_success = add64 t.objects_success s.objects_success;
  objects_error = add64 t.objects_error s.objects_error;
  objects_skipped = add64 t.objects_skipped s.objects_skipped;
}

unfoldable pub sum_statistics : List ShardResultManifest → ShardStatistics → ShardStatistics
sum_statistics [] t = t
sum_statistics (r ∷ rest) t = sum_statistics rest (add_statistics t r.statistics)

abbrev pub no_statistics : ShardStatistics
no_statistics = record {
  objects_in_scope = 0;
  objects_processed = 0;
  objects_success = 0;
  objects_error = 0;
  objects_skipped = 0;
}

unfoldable pub compute_coverage_report :
    ShardPlanRecord → List ShardResultManifest → List AnalysisInputObject → CoverageReport
compute_coverage_report plan shard_results inputs =
    let t = sum_statistics shard_results no_statistics in
    record {
      parent_job_id = plan.parent_job_id;
      input_scope_hash = plan.input_scope_hash;
      objects_in_scope = length inputs;
      objects_assigned_to_shards = t.objects_in_scope;
      objects_processed = t.objects_processed;
      objects_success = t.objects_success;
      objects_error = t.objects_error;
      objects_skipped = t.objects_skipped;
      duplicates_detected = 0;
      missing_inputs = 0;
    }

-- A worker's counters add up: every processed object succeeded, failed or was skipped.
abbrev pub AddsUp : ShardResultManifest → Type 0
AddsUp r =
    r.statistics.objects_processed
    ≡ r.statistics.objects_success + r.statistics.objects_error + r.statistics.objects_skipped

sum_statistics-AddsUp :
    (rs : List ShardResultManifest) (t : ShardStatistics)
    → All AddsUp rs
    → t.objects_processed ≡ (t.objects_success + t.objects_error + t.objects_skipped) % 2 ^ 64
    → (sum_statistics rs t).objects_processed
      ≡ ((sum_statistics rs t).objects_success
          + (sum_statistics rs t).objects_error
          + (sum_statistics rs t).objects_skipped)
        % 2 ^ 64
unfolding sum_statistics add_statistics
sum_statistics-AddsUp [] t h e = e
sum_statistics-AddsUp (r ∷ rs) t (h, hs) e =
    sum_statistics-AddsUp rs (add_statistics t r.statistics) hs (omega arith)

-- If the counters of every shard add up, so do those of the report, as 64-bit numbers.
pub compute_coverage_report-AddsUp :
    (plan : ShardPlanRecord) (rs : List ShardResultManifest) (inputs : List AnalysisInputObject)
    → All AddsUp rs
    → (compute_coverage_report plan rs inputs).objects_processed
      ≡ ((compute_coverage_report plan rs inputs).objects_success
          + (compute_coverage_report plan rs inputs).objects_error
          + (compute_coverage_report plan rs inputs).objects_skipped)
        % 2 ^ 64
unfolding compute_coverage_report
compute_coverage_report-AddsUp plan rs inputs h =
    sum_statistics-AddsUp rs no_statistics h (omega arith)
