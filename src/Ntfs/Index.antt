-- ===== src/Ntfs/Index.antt =====
-- crates/offf-core/src/ntfs.rs, `index_ntfs`. The order in which the hash map gives its keys, the
-- JSON texts of serde_json and `to_lowercase` of strings are parameters, as are the reading of a
-- chunk, the conversion of a timestamp and the version of the tool.
pub mod Ends
pub mod Rows
pub mod Keys
pub mod Rising
use openforensicfileformat.Prelude.{
  ℕ, zero, suc, ◌+◌, ◌-◌, ◌*◌, ◌/◌, ◌%◌, Bool, true, false, ◌&&◌, not, ltb, leb, ◌==◌,
  if◌then◌else◌, length, take, drop, Option, none, some, List, [], ◌∷◌, ◌++◌, map,
}
use openforensicfileformat.Bytes.{Bytes, codes, bytes_eq}
use openforensicfileformat.Bytes.Order.{bytes_le}
use openforensicfileformat.Outcome.{Result, ok, err, panic, stuck, ◌>>=◌, bind_state}
use openforensicfileformat.Chunk.{ChunkMetadata}
use openforensicfileformat.Words.{add64, mul64, decimal}
use openforensicfileformat.Maps.{lookup, insert, keys}
use openforensicfileformat.Maps.Sorting.{sort_by, dedup}
use openforensicfileformat.Partition.Range.{chunk_refs_for_range}
use openforensicfileformat.Ntfs.{
  NtfsVbr, DataRun, DateTime, StdInfo, FileName, AdsEntry, MftRecord, slice,
}
use openforensicfileformat.Ntfs.Vbr.{parse_vbr}
use openforensicfileformat.Ntfs.Attributes.{best_file_name}
use openforensicfileformat.Ntfs.Record.{max_ads_per_file, parse_mft_record}
use openforensicfileformat.Ntfs.AttrList.{parse_attr_list_mft_refs}
use openforensicfileformat.Ntfs.Cache.{ChunkCache, empty_cache, read_at}
use openforensicfileformat.Ntfs.Mft.{is_sparse_run, read_mft}
use openforensicfileformat.Ntfs.Resolve.{Records, resolve_all}
use openforensicfileformat.Ntfs.Paths.{build_paths, backslash}

-- crates/offf-core/src/types.rs
pub record FileIndexRow : Type 0 where
  pub file_id : ℕ
  pub filesystem_id : Bytes
  pub partition_id : Bytes
  pub path : Bytes
  pub filename : Bytes
  pub extension : Bytes
  pub size_bytes : ℕ
  pub created_at : Option DateTime
  pub modified_at : Option DateTime
  pub accessed_at : Option DateTime
  pub changed_at : Option DateTime
  pub physical_extents : Bytes
  pub chunk_refs : Bytes
  pub is_directory : Bool
  pub is_deleted : Bool
  pub is_sparse : Bool
  pub is_compressed : Bool
  pub is_encrypted : Bool
  pub ads_streams : Bytes
  pub parser : Bytes
  pub parser_version : Bytes
  pub parser_status : Bytes
  pub parser_error : Bytes

-- The text behind the last dot.
unfoldable pub after_last_dot : Bytes → Option Bytes
after_last_dot [] = none
after_last_dot (c ∷ rest) = elim (after_last_dot rest) [
  | some ext ↦ some ext
  | none ↦ if c == b'.' then some rest else none
]

unfoldable pub extents_of : ℕ → ℕ → List DataRun → List (ℕ × ℕ)
extents_of volume_offset bpc [] = []
extents_of volume_offset bpc (r ∷ runs) =
    let rest = extents_of volume_offset bpc runs in
    if is_sparse_run r
    then rest
    else (add64 volume_offset (mul64 r.lcn_start bpc), mul64 r.cluster_count bpc) ∷ rest

unfoldable pub refs_of : List ChunkMetadata → List (ℕ × ℕ) → List Bytes
refs_of chunks [] = []
refs_of chunks ((o, l) ∷ extents) = chunk_refs_for_range chunks o l ++ refs_of chunks extents

unfoldable pub status_of : MftRecord → Bytes × Bytes
status_of rec = elim rec.parse_error [
  | some e ↦ (codes "error", e)
  | none ↦
      if rec.has_attr_list
      then (codes "partial", codes "$ATTRIBUTE_LIST present; only primary attributes parsed")
      else (codes "ok", [])
]

-- `if let Ok(bytes) = got { buf.extend_from_slice(&bytes) }`, and the rest of the loop.
unfoldable pub extend_if_ok :
    Result Bytes × ChunkCache → (ChunkCache → Result Bytes × ChunkCache) → Result Bytes × ChunkCache
extend_if_ok (ok bytes, s) rest = bind_state (rest s) (λ more s'. (ok (bytes ++ more), s'))
extend_if_ok (err e, s) rest = rest s
extend_if_ok (panic, s) rest = (panic, s)
extend_if_ok (stuck, s) rest = (stuck, s)

unfoldable pub resident_or :
    Option Bytes
    → Result (Option Bytes) × ChunkCache
    → ChunkCache
    → Result (Option Bytes) × ChunkCache
resident_or (some bytes) away s = (ok (some bytes), s)
resident_or none away s = away

-- `if let Some(bytes) = bytes_opt { work.push((i, bytes)) }`
unfoldable pub with_work : ℕ → Option Bytes → List (ℕ × Bytes) → List (ℕ × Bytes)
with_work i (some bytes) rest = (i, bytes) ∷ rest
with_work i none rest = rest

-- One entry of the map, and the rest of the loop.
unfoldable pub work_step :
    ℕ
    → Option MftRecord
    → (MftRecord → ChunkCache → Result (Option Bytes) × ChunkCache)
    → (ChunkCache → Result (List (ℕ × Bytes)) × ChunkCache)
    → ChunkCache
    → Result (List (ℕ × Bytes)) × ChunkCache
work_step i none list rest s = rest s
work_step i (some rec) list rest s =
    bind_state (list rec s)
      (λ found s'. bind_state (rest s') (λ work s''. (ok (with_work i found work), s'')))

abbrev std_field : (StdInfo → Option DateTime) → Option StdInfo → Option DateTime
std_field f none = none
std_field f (some si) = f si

module _ (read : ChunkMetadata → Result Bytes) (timestamp_opt : ℕ → ℕ → Option DateTime)
    (iteration : List ℕ → List ℕ) where
  -- The loop over the records of the table, from the record `i` on. A slot without the signature
  -- is skipped.
  unfoldable pub parse_records : ℕ → ℕ → ℕ → Bytes → Records → Result Records
  parse_records rec_size zero i mft_data records = ok records
  parse_records rec_size (suc count) i mft_data records = do
    bytes ← slice mft_data (i * rec_size) ((i + 1) * rec_size)
    magic ← slice bytes 0 4
    let skip = parse_records rec_size count (i + 1) mft_data records
    let keep = (do
      rec ← parse_mft_record timestamp_opt bytes rec_size
      parse_records rec_size count (i + 1) mft_data (insert i rec records))
    if not (bytes_eq magic (codes "FILE")) then skip else keep

  -- What of a non-resident attribute list can be read.
  unfoldable pub list_data :
      List ChunkMetadata → ℕ → ℕ → List DataRun → ChunkCache → Result Bytes × ChunkCache
  list_data chunks volume_offset bpc [] s = (ok [], s)
  list_data chunks volume_offset bpc (run ∷ runs) s =
      let skip = list_data chunks volume_offset bpc runs s in
      let got =
        read_at read chunks (add64 volume_offset (mul64 run.lcn_start bpc))
          (mul64 run.cluster_count bpc) s in
      if is_sparse_run run
      then skip
      else extend_if_ok got (λ s'. list_data chunks volume_offset bpc runs s')

  -- The attribute list of one record, if it has one with any content.
  unfoldable pub list_of :
      List ChunkMetadata → ℕ → ℕ → MftRecord → ChunkCache → Result (Option Bytes) × ChunkCache
  list_of chunks volume_offset bpc rec s =
      let away =
        bind_state (list_data chunks volume_offset bpc rec.attr_list_runs s)
          (λ buf s'. (ok (if length buf == 0 then none else some buf), s')) in
      if not rec.has_attr_list then (ok none, s) else resident_or rec.attr_list_resident away s

  -- The list `work`, over the entries in the order of the hash map.
  unfoldable pub work_of :
      List ChunkMetadata
      → ℕ
      → ℕ
      → Records
      → List ℕ
      → ChunkCache
      → Result (List (ℕ × Bytes)) × ChunkCache
  work_of chunks volume_offset bpc records [] s = (ok [], s)
  work_of chunks volume_offset bpc records (i ∷ ids) s =
      work_step i (lookup i records) (list_of chunks volume_offset bpc)
        (λ s'. work_of chunks volume_offset bpc records ids s') s

  module _ (to_lowercase : Bytes → Bytes) (json_extents : List (ℕ × ℕ) → Bytes)
      (json_refs : List Bytes → Bytes) (json_streams : List AdsEntry → Bytes)
      (version : Bytes) where
    filename_of : ℕ → Option FileName → Bytes
    filename_of entry none = (b'[' ∷ []) ++ (decimal entry ++ (b']' ∷ []))
    filename_of entry (some f) = f.name

    extension_of : Bool → Bytes → Bytes
    extension_of true filename = []
    extension_of false filename = elim (after_last_dot filename) [
      | some ext ↦ to_lowercase ext
      | none ↦ []
    ]

    path_of : Option Bytes → Bytes → Bytes
    path_of (some path) filename = path
    path_of none filename = codes "[orphan]" ++ (backslash ++ filename)

    streams_text : List AdsEntry → Bytes
    streams_text [] = codes "[]"
    streams_text (a ∷ rest) = json_streams (a ∷ rest)

    unfoldable pub row_of :
        List ChunkMetadata
        → ℕ
        → ℕ
        → Bytes
        → Bytes
        → Bytes
        → List (ℕ × Bytes)
        → ℕ
        → MftRecord
        → FileIndexRow
    unfolding filename_of extension_of path_of streams_text
    row_of chunks volume_offset bpc partition_id filesystem_id tool_name paths entry rec =
        let is_directory = rec.flags / 2 % 2 == 1 in
        let filename = filename_of entry (best_file_name rec.file_names) in
        let extents = extents_of volume_offset bpc rec.data_runs in
        let status = status_of rec in
        record {
          file_id = entry;
          filesystem_id = filesystem_id;
          partition_id = partition_id;
          path = path_of (lookup entry paths) filename;
          filename = filename;
          extension = extension_of is_directory filename;
          size_bytes = rec.data_size;
          created_at = std_field (λ si. si.created_at) rec.std_info;
          modified_at = std_field (λ si. si.modified_at) rec.std_info;
          accessed_at = std_field (λ si. si.accessed_at) rec.std_info;
          changed_at = std_field (λ si. si.changed_at) rec.std_info;
          physical_extents = json_extents extents;
          chunk_refs = json_refs (dedup bytes_eq (sort_by bytes_le (refs_of chunks extents)));
          is_directory = is_directory;
          is_deleted = rec.flags % 2 == 0;
          is_sparse = rec.is_sparse;
          is_compressed = rec.is_compressed;
          is_encrypted = rec.is_encrypted;
          ads_streams = streams_text rec.ads_streams;
          parser = tool_name;
          parser_version = version;
          parser_status = status.0;
          parser_error = status.1;
        }

    unfoldable pub rows_of :
        List ChunkMetadata
        → ℕ
        → ℕ
        → Bytes
        → Bytes
        → Bytes
        → List (ℕ × Bytes)
        → Records
        → List ℕ
        → List FileIndexRow
    rows_of chunks volume_offset bpc partition_id filesystem_id tool_name paths records [] = []
    rows_of chunks volume_offset bpc partition_id filesystem_id tool_name paths records (i ∷ ids) =
        let rest =
          rows_of chunks volume_offset bpc partition_id filesystem_id tool_name paths records ids in
        elim (lookup i records) [
          | some rec ↦
              row_of chunks volume_offset bpc partition_id filesystem_id tool_name paths i rec
              ∷ rest
          | none ↦ rest
        ]

    abbrev pub by_file_id : FileIndexRow → FileIndexRow → Bool
    by_file_id a b = leb a.file_id b.file_id

    -- The part of `index_ntfs` behind the reading of the table.
    unfoldable pub index_records :
        List ChunkMetadata
        → ℕ
        → NtfsVbr
        → Bytes
        → Bytes
        → Bytes
        → Bytes
        → ChunkCache
        → Result (List FileIndexRow) × ChunkCache
    index_records chunks volume_offset vbr partition_id filesystem_id tool_name mft_data s =
        let bpc = vbr.bytes_per_cluster in
        bind_state
          (
            parse_records vbr.bytes_per_record (length mft_data / vbr.bytes_per_record) 0 mft_data
                [],
            s,
          )
          (λ records s₁.
            bind_state (work_of chunks volume_offset bpc records (iteration (keys records)) s₁)
              (λ work s₂.
                let resolved = resolve_all work records in
                let ids = iteration (keys resolved) in
                bind_state (build_paths resolved ids, s₂)
                  (λ paths s₃. (
                    ok (
                        sort_by by_file_id (
                          rows_of chunks volume_offset bpc partition_id filesystem_id tool_name
                            paths resolved ids)),
                    s₃,
                  ))))

    unfoldable pub index_ntfs :
        List ChunkMetadata → ℕ → Bytes → Bytes → Bytes → Result (List FileIndexRow)
    index_ntfs chunks volume_offset partition_id filesystem_id tool_name =
        (bind_state (read_at read chunks volume_offset 512 empty_cache) (λ vbr_data s.
          bind_state (parse_vbr vbr_data, s)
            (λ vbr s₁. bind_state (read_mft read chunks volume_offset vbr s₁) (λ mft_data s₂.
              index_records chunks volume_offset vbr partition_id filesystem_id tool_name mft_data
                s₂)))).0
