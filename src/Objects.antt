-- ===== src/Objects.antt =====
-- crates/offf-core/src/types.rs: the rows of the object index and the input scope of a job.
use openforensicfileformat.Prelude.{ℕ, Option, List}
use openforensicfileformat.Bytes.{Bytes}

pub record ObjectContentRef : Type 0 where
  pub ref_type : Bytes
  pub root_id : Option Bytes
  pub filesystem_id : Option Bytes
  pub file_id : Option Bytes
  pub file_index_path : Option Bytes
  pub storage_ref : Option Bytes

pub record DiscoveredObjectRow : Type 0 where
  pub object_id : Bytes
  pub object_type : Bytes
  pub name : Option Bytes
  pub logical_path : Option Bytes
  pub media_type : Option Bytes
  pub size_bytes : Option ℕ
  pub sha256 : Option Bytes
  pub source_layer : Bytes
  pub storage_ref : Option Bytes
  pub content_ref : Option ObjectContentRef
  pub content_hash_status : Option Bytes
  pub root_source_ref : Option Bytes
  pub root_id : Option Bytes
  pub collection_relative_path : Option Bytes
  pub created_by_job_id : Option Bytes
  pub parser_status : Bytes
  pub provenance_ref : Option Bytes
  pub schema_version : Bytes
  pub original_created_at : Option Bytes
  pub original_modified_at : Option Bytes
  pub original_accessed_at : Option Bytes

pub record JobInputSelectors : Type 0 where
  pub object_ids : List Bytes
  pub file_ids : List Bytes
  pub artifact_ids : List Bytes

pub record JobInputInclude : Type 0 where
  pub object_types : List Bytes
  pub extensions : List Bytes
  pub media_types : List Bytes
  pub parser_statuses : List Bytes

pub record JobInputExclude : Type 0 where
  pub labels : List Bytes
  pub sets : List Bytes

pub record JobInputLimits : Type 0 where
  pub max_object_size_bytes : Option ℕ
  pub min_object_size_bytes : Option ℕ

pub record JobInputScope : Type 0 where
  pub target_types : List Bytes
  pub selectors : JobInputSelectors
  pub include : Option JobInputInclude
  pub exclude : JobInputExclude
  pub limits : Option JobInputLimits

pub record ObjectEdgeRow : Type 0 where
  pub edge_id : Bytes
  pub parent_object_id : Bytes
  pub child_object_id : Bytes
  pub parent_root_id : Option Bytes
  pub child_root_id : Option Bytes
  pub relation_type : Bytes
  pub method : Option Bytes
  pub logical_path : Option Bytes
  pub sequence : Option ℕ
  pub created_by_job_id : Option Bytes
  pub provenance_ref : Option Bytes
  pub schema_version : Bytes

pub record DerivationRow : Type 0 where
  pub derivation_id : Bytes
  pub parent_object_id : Bytes
  pub child_object_id : Bytes
  pub parent_root_id : Option Bytes
  pub child_root_id : Option Bytes
  pub job_id : Bytes
  pub method : Bytes
  pub tool_id : Bytes
  pub tool_name : Bytes
  pub tool_version : Bytes
  pub parameters_hash : Option Bytes
  pub input_sha256 : Option Bytes
  pub output_sha256 : Option Bytes
  pub storage_mode : Bytes
  pub provenance_ref : Option Bytes
  pub created_at : Bytes
  pub schema_version : Bytes
