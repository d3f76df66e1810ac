-- ===== src/Tests/ShardRuns.antt =====
-- Runs of crates/offf-core/src/shard.rs with three inputs and two shards.
use openforensicfileformat.Prelude.{
  ◌+◌, ◌%◌, ◌^◌, ◌≡◌, refl, none, some, List, [], ◌∷◌, ◌++◌, if◌then◌else◌, get_elem?, arith,
}
use openforensicfileformat.Bytes.{Bytes, codes, bytes_eq}
use openforensicfileformat.Outcome.{ok}
use openforensicfileformat.Words.{decimal}
use openforensicfileformat.Shard.{
  deterministic_object_id_range, deterministic_round_robin, deterministic_hash_modulo,
  AnalysisInputObject, ShardInputRef, ShardPlanRecord, ShardManifest, ShardResultManifest,
  ParentResultManifest,
}
use openforensicfileformat.Shard.Plan.{input_ref, plan_record, shard_id_of, plan_shards}
use openforensicfileformat.Shard.Plan.Assigned.{
  IsPlanFor, plan_shards-IsPlanFor, plan_shards_interleaves,
}
use openforensicfileformat.Shard.Coverage.{
  add_statistics, sum_statistics, compute_coverage_report, compute_coverage_report-AddsUp,
}
use openforensicfileformat.Shard.Parent.{
  ResultFile, missing, parsed, collect_one, collect_results, status_of, IsVerdict,
  build_parent_result_manifest, build_parent_result_manifest_counts,
}
use openforensicfileformat.Tests.{checksum}

abbrev input : Bytes → AnalysisInputObject
input id = record {
  input_id = id;
  input_type = codes "file";
  object_id = codes "o-" ++ id;
  source_refs = record { root_id = none; sha256 = none; storage_ref = none };
  metadata = record { name = none; extension = none; size_bytes = none; media_type = none };
}

abbrev three_inputs : List AnalysisInputObject
three_inputs = input (codes "a") ∷ input (codes "b") ∷ input (codes "c") ∷ []

plan_shards-IsPlanFor_example :
    (plan : ShardPlanRecord) × (ms : List ShardManifest) × (plan_shards checksum
        (codes "now")
        three_inputs
        (codes "j")
        deterministic_hash_modulo
        2
        (codes "h")
      ≡ ok (plan, ms))
    × IsPlanFor checksum deterministic_hash_modulo 2 three_inputs ms
plan_shards-IsPlanFor_example =
    plan_shards-IsPlanFor checksum (codes "now") three_inputs (codes "j") deterministic_hash_modulo
      2 (codes "h") (omega arith)

plan_shards_interleaves_example :
    (plan : ShardPlanRecord) × (ms : List ShardManifest) × (m₀ m₁ : ShardManifest) × (xs ys : List
      ShardInputRef)
    × (plan_shards checksum
          (codes "now")
          three_inputs
          (codes "j")
          deterministic_object_id_range
          2
          (codes "h")
        ≡ ok (plan, ms))
    × (get_elem? ms 0 ≡ some m₀)
    × (m₀.input_objects ≡ input_ref (input (codes "a")) ∷ input_ref (input (codes "c")) ∷ xs)
    × (get_elem? ms 1 ≡ some m₁)
    × (m₁.input_objects ≡ input_ref (input (codes "b")) ∷ ys)
plan_shards_interleaves_example =
    plan_shards_interleaves checksum (codes "now") (input (codes "a")) (input (codes "b"))
      (input (codes "c")) [] (codes "j") (codes "h")

abbrev plan : ShardPlanRecord
plan = plan_record (codes "now") (codes "j") deterministic_round_robin 2 3 (codes "h")

abbrev result : ShardResultManifest
result = record {
  job_id = codes "r";
  parent_job_id = codes "j";
  shard_id = codes "j-shard-00";
  status = codes "completed";
  worker = record {
    tool_id = codes "t";
    name = codes "w";
    version = codes "1";
    binary_sha256 = none;
  };
  input = record { input_scope_hash = codes "h"; objects_in_shard = 2 };
  outputs = [];
  statistics = record {
    objects_in_scope = 2;
    objects_processed = 2;
    objects_success = 1;
    objects_error = 1;
    objects_skipped = 0;
  };
  created_at = codes "now";
  completed_at = none;
}

compute_coverage_report-AddsUp_example :
    (compute_coverage_report plan (result ∷ []) three_inputs).objects_processed
    ≡ ((compute_coverage_report plan (result ∷ []) three_inputs).objects_success
        + (compute_coverage_report plan (result ∷ []) three_inputs).objects_error
        + (compute_coverage_report plan (result ∷ []) three_inputs).objects_skipped)
      % 2 ^ 64
compute_coverage_report-AddsUp_example =
    compute_coverage_report-AddsUp plan (result ∷ []) three_inputs (refl, tt)

abbrev first_only : Bytes → ResultFile
first_only id =
    if bytes_eq id (codes "j-shard-00") then parsed result (codes "p") (codes "s") else missing

abbrev parent : ParentResultManifest
parent = record {
  job_id = codes "j";
  status = codes "partial";
  parallelization = record {
    mode = codes "sharded";
    shard_count = 2;
    shards_completed = 1;
    shards_failed = 1;
  };
  shard_results =
      record { shard_id = codes "j-shard-00"; result_manifest_path = codes "p"; sha256 = codes "s" }
      ∷ [];
  coverage = record {
    parent_job_id = codes "j";
    input_scope_hash = codes "h";
    objects_in_scope = 3;
    objects_assigned_to_shards = 2;
    objects_processed = 2;
    objects_success = 1;
    objects_error = 1;
    objects_skipped = 0;
    duplicates_detected = 0;
    missing_inputs = 0;
  };
  created_at = codes "now";
}

parent_run :
    build_parent_result_manifest first_only 0 (codes "now") plan (codes "j") three_inputs
    ≡ ok parent
unfolding build_parent_result_manifest collect_results collect_one status_of compute_coverage_report
    sum_statistics add_statistics shard_id_of decimal bytes_eq
parent_run = refl

build_parent_result_manifest_counts_example :
    (parent.parallelization.shards_completed + parent.parallelization.shards_failed
      ≡ plan.shard_count)
    × IsVerdict parent.parallelization.shards_completed parent.parallelization.shards_failed
        parent.status
build_parent_result_manifest_counts_example =
    build_parent_result_manifest_counts first_only 0 (codes "now") plan (codes "j") three_inputs
      parent parent_run
