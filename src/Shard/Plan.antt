-- ===== src/Shard/Plan.antt =====
-- crates/offf-core/src/shard.rs, `plan_shards`. SHA-256 and the time are parameters.
pub mod Assigned
use openforensicfileformat.Prelude.{
  ℕ, zero, suc, ◌+◌, ◌%◌, Bool, true, false, not, Option, none, some, List, [], ◌∷◌, ◌++◌, ltb,
  ◌==◌, if◌then◌else◌, length, replicate,
}
use openforensicfileformat.Bytes.{Bytes, codes}
use openforensicfileformat.Outcome.{
  Result, ok, err, panic, stuck, shard_processing_failed, ◌>>=◌, ◌>>◌, ensure,
}
use openforensicfileformat.Words.{byte_at, decimal}
use openforensicfileformat.Shard.{
  ShardStrategy, deterministic_object_id_range, deterministic_round_robin,
  deterministic_hash_modulo, AnalysisInputObject, ShardInputRef, ShardPlanRecord, ShardManifest,
}

-- `shard_inputs[j].push(x)`
unfoldable pub push_at :
    List (List ShardInputRef) → ℕ → ShardInputRef → Result (List (List ShardInputRef))
push_at [] j x = panic
push_at (shard ∷ shards) zero x = ok ((shard ++ (x ∷ [])) ∷ shards)
push_at (shard ∷ shards) (suc j) x = do shards' ← push_at shards j x; ok (shard ∷ shards')

abbrev pub input_ref : AnalysisInputObject → ShardInputRef
input_ref obj = record { input_id = obj.input_id; object_id = obj.object_id }

-- `format!("{parent_job_id}-shard-{idx:02}")`
unfoldable pub shard_id_of : Bytes → ℕ → Bytes
shard_id_of job idx =
    job ++ (codes "-shard-" ++ (if ltb idx 10 then b'0' ∷ decimal idx else decimal idx))

-- The manifests from the shard `idx` on.
unfoldable pub manifests_from :
    Bytes → ℕ → Bytes → ℕ → List (List ShardInputRef) → List ShardManifest
manifests_from job shard_count scope_hash idx [] = []
manifests_from job shard_count scope_hash idx (inputs ∷ shards) =
    record {
      shard_id = shard_id_of job idx;
      parent_job_id = job;
      shard_index = idx;
      shard_count = shard_count;
      input_scope_hash = scope_hash;
      input_objects = inputs;
      output_base_path =
          codes "analysis/jobs/" ++ (job ++ (codes "/shards/" ++ shard_id_of job idx));
      status = codes "planned";
    }
    ∷ manifests_from job shard_count scope_hash (idx + 1) shards

abbrev pub plan_record : Bytes → Bytes → ShardStrategy → ℕ → ℕ → Bytes → ShardPlanRecord
plan_record now job strategy shard_count input_count scope_hash = record {
  parent_job_id = job;
  shard_plan_id = codes "shardplan-" ++ job;
  strategy = strategy;
  shard_count = shard_count;
  input_count = input_count;
  input_scope_hash = scope_hash;
  created_at = now;
  created_by = codes "offf-jobs";
}

module _ (sha256 : Bytes → Bytes) where
  unfoldable pub assign_shard : ℕ → AnalysisInputObject → ShardStrategy → ℕ → ℕ
  assign_shard index obj deterministic_object_id_range shard_count = index % shard_count
  assign_shard index obj deterministic_round_robin shard_count = index % shard_count
  assign_shard index obj deterministic_hash_modulo shard_count =
      byte_at (sha256 obj.object_id) 0 % shard_count

  -- The loop that puts the inputs from number `i` on into their shards.
  unfoldable pub group :
      ShardStrategy
      → ℕ
      → ℕ
      → List AnalysisInputObject
      → List (List ShardInputRef)
      → Result (List (List ShardInputRef))
  group strategy shard_count i [] shards = ok shards
  group strategy shard_count i (obj ∷ rest) shards = do
    shards' ← push_at shards (assign_shard i obj strategy shard_count) (input_ref obj)
    group strategy shard_count (i + 1) rest shards'

  module _ (now : Bytes) where
    unfoldable pub plan_shards :
        List AnalysisInputObject
        → Bytes
        → ShardStrategy
        → ℕ
        → Bytes
        → Result (ShardPlanRecord × List ShardManifest)
    plan_shards inputs job strategy shard_count scope_hash = do
      ensure (not (shard_count == 0)) (shard_processing_failed (codes "plan"))
      shards ← group strategy shard_count 0 inputs (replicate shard_count [])
      ok (
        plan_record now job strategy shard_count (length inputs) scope_hash,
        manifests_from job shard_count scope_hash 0 shards,
      )
