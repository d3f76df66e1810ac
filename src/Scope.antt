-- ===== src/Scope.antt =====
-- crates/offf-core/src/scope.rs. Of a job only the input scope is read. The rows of the Parquet index,
-- in the order of its batches, `to_lowercase` and `Path::file_name` are parameters.
pub mod Resolved
pub mod Binding
use openforensicfileformat.Prelude.{
  ℕ, zero, suc, ◌+◌, ◌-◌, Bool, true, false, ◌&&◌, not, ltb, leb, ◌==◌, if◌then◌else◌, length,
  replicate, drop, Option, none, some, List, [], ◌∷◌, ◌++◌, map,
}
use openforensicfileformat.Bytes.{Bytes, codes, bytes_eq}
use openforensicfileformat.Bytes.Order.{bytes_le}
use openforensicfileformat.Outcome.{Result, ok, err, panic, stuck, ◌>>=◌}
use openforensicfileformat.Hex.{hex_from_bytes32}
use openforensicfileformat.Words.{decimal, add64}
use openforensicfileformat.Maps.Sorting.{sort_by}
use openforensicfileformat.Objects.{
  DiscoveredObjectRow, JobInputScope, JobInputInclude, JobInputLimits,
}
use openforensicfileformat.Shard.{AnalysisInputObject}

unfoldable pub has_text : Bytes → List Bytes → Bool
has_text x [] = false
has_text x (y ∷ ys) = if bytes_eq y x then true else has_text x ys

-- A list of the scope that is empty excludes nothing.
unfoldable pub lets_pass : List Bytes → Bytes → Bool
lets_pass [] x = true
lets_pass (y ∷ ys) x = has_text x (y ∷ ys)

-- The lists of the scope, each empty where its part is missing.
unfoldable pub included : (JobInputInclude → List Bytes) → Option JobInputScope → List Bytes
included f none = []
included f (some s) = elim s.include [ some inc ↦ f inc | none ↦ [] ]

unfoldable pub limit : (JobInputLimits → Option ℕ) → Option JobInputScope → Option ℕ
limit f none = none
limit f (some s) = elim s.limits [ some l ↦ f l | none ↦ none ]

unfoldable pub allowed_ids : Option JobInputScope → List Bytes
allowed_ids none = []
allowed_ids (some s) = s.selectors.object_ids

unfoldable pub or_zero : Option ℕ → ℕ
or_zero none = 0
or_zero (some n) = n

unfoldable pub or_empty : Option Bytes → Bytes
or_empty none = []
or_empty (some b) = b

unfoldable pub within_max : Option ℕ → ℕ → Bool
within_max none size = true
within_max (some most) size = not (ltb most size)

unfoldable pub within_min : Option ℕ → ℕ → Bool
within_min none size = true
within_min (some least) size = not (ltb size least)

-- `trim_start_matches('.')`
unfoldable pub trim_dots : Bytes → Bytes
trim_dots [] = []
trim_dots (c ∷ rest) = if c == b'.' then trim_dots rest else c ∷ rest

-- `rfind('.')`
unfoldable pub last_dot : Bytes → Option ℕ
last_dot [] = none
last_dot (c ∷ rest) = elim (last_dot rest) [
  | some n ↦ some (suc n)
  | none ↦ if c == b'.' then some 0 else none
]

unfoldable pub object_type_to_input_type : Bytes → Bytes
object_type_to_input_type t =
    if bytes_eq t (codes "evidence_file")
    then codes "evidence_file"
    else if bytes_eq t (codes "derived_object")
    then codes "derived_object"
    else if bytes_eq t (codes "artifact")
    then codes "artifact"
    else if bytes_eq t (codes "file")
    then codes "file"
    else codes "object"

-- `format!("input-{n:06}")`
unfoldable pub input_number : ℕ → Bytes
input_number n = codes "input-" ++ (replicate (6 - length (decimal n)) b'0' ++ decimal n)

abbrev pub by_object_id : AnalysisInputObject → AnalysisInputObject → Bool
by_object_id a b = bytes_le a.object_id b.object_id

-- The numbers given again, in the sorted order.
unfoldable pub renumber : ℕ → List AnalysisInputObject → List AnalysisInputObject
renumber i [] = []
renumber i (obj ∷ objs) = record obj { input_id = input_number (i + 1) } ∷ renumber (i + 1) objs

module _ (to_lowercase : Bytes → Bytes) (file_name : Bytes → Option Bytes) where
  -- The text behind the last dot, unless the name begins with it.
  unfoldable pub behind_dot : Bytes → Option ℕ → Option Bytes
  behind_dot fname none = none
  behind_dot fname (some zero) = none
  behind_dot fname (some (suc n)) = some (to_lowercase (drop (n + 2) fname))

  unfoldable pub extension_of_path : Option Bytes → Option Bytes
  extension_of_path none = none
  extension_of_path (some s) = elim (file_name s) [
    | none ↦ none
    | some fname ↦ behind_dot fname (last_dot fname)
  ]

  unfoldable pub extract_extension_opt : Option Bytes → Option Bytes → Option Bytes
  extract_extension_opt (some name) path = extension_of_path (some name)
  extract_extension_opt none path = extension_of_path path

  unfoldable pub extract_extension : Option Bytes → Option Bytes → Bytes
  extract_extension name path = or_empty (extract_extension_opt name path)

  unfoldable pub lower_extension : Bytes → Bytes
  lower_extension e = to_lowercase (trim_dots e)

  -- The filters of the loop over the rows.
  unfoldable pub is_in_scope : Option JobInputScope → DiscoveredObjectRow → Bool
  is_in_scope scope row =
      lets_pass (allowed_ids scope) row.object_id
      && (lets_pass (included (λ inc. inc.object_types) scope) row.object_type
          && (lets_pass (map lower_extension (included (λ inc. inc.extensions) scope))
                (extract_extension row.name row.logical_path)
              && (lets_pass (included (λ inc. inc.media_types) scope) (or_empty row.media_type)
                  && (lets_pass (included (λ inc. inc.parser_statuses) scope) row.parser_status
                      && (within_max (limit (λ l. l.max_object_size_bytes) scope)
                            (or_zero row.size_bytes)
                          && within_min (limit (λ l. l.min_object_size_bytes) scope)
                              (or_zero row.size_bytes))))))

  unfoldable pub input_of : ℕ → DiscoveredObjectRow → AnalysisInputObject
  input_of counter row = record {
    input_id = input_number counter;
    input_type = object_type_to_input_type row.object_type;
    object_id = row.object_id;
    source_refs = record {
      root_id = row.root_id;
      sha256 = row.sha256;
      storage_ref = row.storage_ref;
    };
    metadata = record {
      name = row.name;
      extension = extract_extension_opt row.name row.logical_path;
      size_bytes = row.size_bytes;
      media_type = row.media_type;
    };
  }

  -- The loop over the rows.
  unfoldable pub scan :
      Option JobInputScope → ℕ → List DiscoveredObjectRow → List AnalysisInputObject
  scan scope counter [] = []
  scan scope counter (row ∷ rows) =
      let kept = input_of (add64 counter 1) row ∷ scan scope (add64 counter 1) rows in
      let left_out = scan scope counter rows in if is_in_scope scope row then kept else left_out

  -- `none` where the index does not exist.
  unfoldable pub resolve_analysis_scope :
      Option (Result (List DiscoveredObjectRow))
      → Option JobInputScope
      → Result (List AnalysisInputObject)
  resolve_analysis_scope none scope = ok []
  resolve_analysis_scope (some index) scope = do
    rows ← index
    ok (renumber 0 (sort_by by_object_id (scan scope 0 rows)))

-- The newline-joined ids.
unfoldable pub joined_ids : List AnalysisInputObject → Bytes
joined_ids [] = []
joined_ids (obj ∷ []) = obj.object_id
joined_ids (obj ∷ next ∷ rest) = obj.object_id ++ (10 ∷ joined_ids (next ∷ rest))

unfoldable pub compute_input_scope_hash : (Bytes → Bytes) → List AnalysisInputObject → Bytes
compute_input_scope_hash sha256 inputs =
    codes "sha256:" ++ hex_from_bytes32 (sha256 (joined_ids inputs))
