-- ===== src/Shard.antt =====
-- crates/offf-core/src/shard.rs: dividing the inputs of a job among shards, and putting the results
-- of the shards together.
pub mod Plan
pub mod Coverage
pub mod Parent
use openforensicfileformat.Prelude.{ℕ, Option, List}
use openforensicfileformat.Bytes.{Bytes}

-- crates/offf-core/src/types.rs
pub data ShardStrategy : Type 0 where
  deterministic_object_id_range deterministic_round_robin deterministic_hash_modulo : ShardStrategy

pub record InputSourceRefs : Type 0 where
  pub root_id : Option Bytes
  pub sha256 : Option Bytes
  pub storage_ref : Option Bytes

pub record InputObjectMetadata : Type 0 where
  pub name : Option Bytes
  pub extension : Option Bytes
  pub size_bytes : Option ℕ
  pub media_type : Option Bytes

pub record AnalysisInputObject : Type 0 where
  pub input_id : Bytes
  pub input_type : Bytes
  pub object_id : Bytes
  pub source_refs : InputSourceRefs
  pub metadata : InputObjectMetadata

pub record ShardInputRef : Type 0 where
  pub input_id : Bytes
  pub object_id : Bytes

pub record ShardPlanRecord : Type 0 where
  pub parent_job_id : Bytes
  pub shard_plan_id : Bytes
  pub strategy : ShardStrategy
  pub shard_count : ℕ
  pub input_count : ℕ
  pub input_scope_hash : Bytes
  pub created_at : Bytes
  pub created_by : Bytes

pub record ShardManifest : Type 0 where
  pub shard_id : Bytes
  pub parent_job_id : Bytes
  pub shard_index : ℕ
  pub shard_count : ℕ
  pub input_scope_hash : Bytes
  pub input_objects : List ShardInputRef
  pub output_base_path : Bytes
  pub status : Bytes

pub record ShardInputSummary : Type 0 where
  pub input_scope_hash : Bytes
  pub objects_in_shard : ℕ

pub record WorkerIdentity : Type 0 where
  pub tool_id : Bytes
  pub name : Bytes
  pub version : Bytes
  pub binary_sha256 : Option Bytes

pub record ArtifactRef : Type 0 where
  pub path : Bytes
  pub sha256 : Bytes
  pub schema_ref : Option Bytes

pub record ShardStatistics : Type 0 where
  pub objects_in_scope : ℕ
  pub objects_processed : ℕ
  pub objects_success : ℕ
  pub objects_error : ℕ
  pub objects_skipped : ℕ

pub record ShardResultManifest : Type 0 where
  pub job_id : Bytes
  pub parent_job_id : Bytes
  pub shard_id : Bytes
  pub status : Bytes
  pub worker : WorkerIdentity
  pub input : ShardInputSummary
  pub outputs : List ArtifactRef
  pub statistics : ShardStatistics
  pub created_at : Bytes
  pub completed_at : Option Bytes

pub record ParallelizationSummary : Type 0 where
  pub mode : Bytes
  pub shard_count : ℕ
  pub shards_completed : ℕ
  pub shards_failed : ℕ

pub record ShardResultRef : Type 0 where
  pub shard_id : Bytes
  pub result_manifest_path : Bytes
  pub sha256 : Bytes

pub record CoverageReport : Type 0 where
  pub parent_job_id : Bytes
  pub input_scope_hash : Bytes
  pub objects_in_scope : ℕ
  pub objects_assigned_to_shards : ℕ
  pub objects_processed : ℕ
  pub objects_success : ℕ
  pub objects_error : ℕ
  pub objects_skipped : ℕ
  pub duplicates_detected : ℕ
  pub missing_inputs : ℕ

pub record ParentResultManifest : Type 0 where
  pub job_id : Bytes
  pub status : Bytes
  pub parallelization : ParallelizationSummary
  pub shard_results : List ShardResultRef
  pub coverage : CoverageReport
  pub created_at : Bytes
