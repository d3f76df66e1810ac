-- ===== src/Tests/ScopeRuns.antt =====
-- Runs of crates/offf-core/src/scope.rs on an index of three rows.
use openforensicfileformat.Prelude.{
  arith, ℕ, ◌≡◌, ◌⊎◌, refl, none, some, Option, List, [], ◌∷◌, All,
}
use openforensicfileformat.Bytes.{Bytes, codes, bytes_eq}
use openforensicfileformat.Bytes.Order.{bytes_le}
use openforensicfileformat.Outcome.{ok}
use openforensicfileformat.Words.{decimal}
use openforensicfileformat.Maps.Sorting.{sort_by, insert_sorted}
use openforensicfileformat.Merkle.Binding.{IsClash}
use openforensicfileformat.Objects.{DiscoveredObjectRow, JobInputScope}
use openforensicfileformat.Shard.{AnalysisInputObject}
use openforensicfileformat.Scope.{
  has_text, lets_pass, included, limit, allowed_ids, or_zero, or_empty, within_max, within_min,
  trim_dots, last_dot, object_type_to_input_type, input_number, renumber, behind_dot,
  extension_of_path, extract_extension_opt, extract_extension, lower_extension, is_in_scope,
  input_of, scan, resolve_analysis_scope, joined_ids, compute_input_scope_hash,
}
use openforensicfileformat.Scope.Resolved.{
  times, object_ids, ids_in_scope, IsOrdered, resolve_analysis_scope-IsOrdered,
  resolve_analysis_scope_counts,
}
use openforensicfileformat.Scope.Binding.{IsPlainId, compute_input_scope_hash_binding}
use openforensicfileformat.Tests.{checksum, checksum-IsDigest}

abbrev row : Bytes → Bytes → ℕ → DiscoveredObjectRow
row id name size = record {
  object_id = id;
  object_type = codes "file";
  name = some name;
  logical_path = none;
  media_type = none;
  size_bytes = some size;
  sha256 = none;
  source_layer = codes "analysis";
  storage_ref = none;
  content_ref = none;
  content_hash_status = none;
  root_source_ref = none;
  root_id = none;
  collection_relative_path = none;
  created_by_job_id = none;
  parser_status = codes "ok";
  provenance_ref = none;
  schema_version = codes "1";
  original_created_at = none;
  original_modified_at = none;
  original_accessed_at = none;
}

-- Files with the extension pdf and at most 100 bytes.
abbrev small_pdfs : JobInputScope
small_pdfs = record {
  target_types = [];
  selectors = record { object_ids = []; file_ids = []; artifact_ids = [] };
  include = some (record {
    object_types = [];
    extensions = codes ".pdf" ∷ [];
    media_types = [];
    parser_statuses = [];
  });
  exclude = record { labels = []; sets = [] };
  limits = some (record { max_object_size_bytes = some 100; min_object_size_bytes = none });
}

abbrev index_rows : List DiscoveredObjectRow
index_rows =
    row (codes "c") (codes "x.pdf") 100
    ∷ row (codes "b") (codes "y.txt") 5
    ∷ row (codes "a") (codes "z.pdf") 7
    ∷ []

abbrev same_text : Bytes → Bytes
same_text s = s

abbrev whole_name : Bytes → Option Bytes
whole_name s = some s

abbrev input : Bytes → Bytes → Bytes → ℕ → AnalysisInputObject
input number id name size = record {
  input_id = number;
  input_type = codes "file";
  object_id = id;
  source_refs = record { root_id = none; sha256 = none; storage_ref = none };
  metadata = record {
    name = some name;
    extension = some (codes "pdf");
    size_bytes = some size;
    media_type = none;
  };
}

abbrev inputs : List AnalysisInputObject
inputs =
    input (codes "input-000001") (codes "a") (codes "z.pdf") 7
    ∷ input (codes "input-000002") (codes "c") (codes "x.pdf") 100
    ∷ []

resolved_run :
    resolve_analysis_scope same_text whole_name (some (ok index_rows)) (some small_pdfs) ≡ ok inputs
unfolding resolve_analysis_scope scan is_in_scope input_of has_text lets_pass included limit
    allowed_ids or_zero or_empty within_max within_min trim_dots last_dot object_type_to_input_type
    input_number renumber behind_dot extension_of_path extract_extension_opt extract_extension
    lower_extension sort_by insert_sorted bytes_le bytes_eq decimal
resolved_run = refl

resolve_analysis_scope-IsOrdered_example :
    (found : List AnalysisInputObject) × (resolve_analysis_scope same_text whole_name
        (some (ok index_rows))
        (some small_pdfs)
      ≡ ok found)
    × IsOrdered found
resolve_analysis_scope-IsOrdered_example =
    resolve_analysis_scope-IsOrdered same_text whole_name index_rows (some small_pdfs)

resolve_analysis_scope_counts_example :
    times (codes "c") (object_ids inputs)
    ≡ times (codes "c") (ids_in_scope same_text whole_name (some small_pdfs) index_rows)
resolve_analysis_scope_counts_example =
    resolve_analysis_scope_counts same_text whole_name index_rows (some small_pdfs) inputs
      (codes "c") resolved_run

-- One id with a line break in it hashes as the two ids around the break.
broken_id_run :
    compute_input_scope_hash checksum (input [] (97 ∷ 10 ∷ 98 ∷ []) [] 0 ∷ [])
    ≡ compute_input_scope_hash checksum (input [] (codes "a") [] 0 ∷ input [] (codes "b") [] 0 ∷ [])
unfolding compute_input_scope_hash joined_ids
broken_id_run = refl

inputs-IsPlainId : All IsPlainId inputs
inputs-IsPlainId =
    ((omega arith, ((λ e. omega arith), tt)), ((omega arith, ((λ e. omega arith), tt)), tt))

compute_input_scope_hash_binding_example :
    (object_ids inputs ≡ object_ids inputs)
    ⊎ IsClash checksum (joined_ids inputs) (joined_ids inputs)
compute_input_scope_hash_binding_example =
    compute_input_scope_hash_binding checksum checksum-IsDigest inputs inputs inputs-IsPlainId
      inputs-IsPlainId refl
