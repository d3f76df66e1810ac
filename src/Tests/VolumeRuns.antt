-- ===== src/Tests/VolumeRuns.antt =====
-- A run of `index_ntfs` of crates/offf-core/src/ntfs.rs on a volume of 768 bytes, and of its parser on
-- records that are cut short.
use openforensicfileformat.Prelude.{
  sym, ℕ, ◌≡◌, refl, Bool, true, false, none, Option, List, [], ◌∷◌, ◌++◌, replicate,
}
use openforensicfileformat.Bytes.{Bytes, codes}
use openforensicfileformat.Bytes.Order.{bytes_le}
use openforensicfileformat.Outcome.{Result, ok, panic}
use openforensicfileformat.Chunk.{ChunkMetadata}
use openforensicfileformat.Ntfs.{DateTime}
use openforensicfileformat.Ntfs.Index.Keys.{Lacks, AllDistinct}
use openforensicfileformat.Ntfs.Index.Rising.{IsRising}
use openforensicfileformat.Ntfs.Index.{FileIndexRow}
use openforensicfileformat.Ntfs.Index.Rows.{index_ntfs-IsRising}
use openforensicfileformat.Ntfs.{slice, index}
use openforensicfileformat.Maps.{lookup, insert, remove, contains_key, contains}
use openforensicfileformat.Maps.Sorting.{insert_sorted, sort_by, dedup}
use openforensicfileformat.Partition.Range.{
  copy_slice, overlaps, fill, fill_all, read_bytes_at, chunk_refs_for_range,
}
use openforensicfileformat.Partition.Volume.{range, detect_fat16, detect_volume_type}
use openforensicfileformat.Words.{
  byte_at, le16, le32, le64, decimal, hex_padded, upper_digit, hex_byte_upper, utf8,
  from_utf16_lossy, utf16_units,
}
use openforensicfileformat.Bytes.{bytes_eq, be_bytes32, from_be32}
use openforensicfileformat.Ntfs.Runs.{
  shl64, join_bytes, bit_is_set, sign_extend, runs_loop, parse_data_runs,
}
use openforensicfileformat.Ntfs.AttrList.{
  max_attr_list_entries, attr_list_loop, parse_attr_list_mft_refs,
}
use openforensicfileformat.Ntfs.Resolve.{
  has_stream, merge_streams, has_name, merge_names, streams_of, names_of, resolve_one, resolve_all,
}
use openforensicfileformat.Ntfs.Index.{
  after_last_dot, extents_of, refs_of, status_of, extend_if_ok, resident_or, with_work, work_step,
  parse_records, list_data, list_of, work_of, row_of, rows_of, index_records, index_ntfs,
}
use openforensicfileformat.Ntfs.Fixup.{fixup_loop, apply_fixup}
use openforensicfileformat.Ntfs.Record.{
  max_ads_per_file, with_std_info, with_file_name, runs_at, attribute_list, data_stream,
  stream_size, named_stream, attribute, attribute_loop, with_name_size, parse_attributes,
  parse_mft_record,
}
use openforensicfileformat.Ntfs.Cache.{
  max_cached_chunks, drop_oldest, evict, keep_read, copy_if_fits, copy_part, finish, fetched, fetch,
  read_loop, read_at,
}
use openforensicfileformat.Ntfs.Mft.{
  data_at, find_data, locate_mft, max_mft_bytes, mft_size_of, is_sparse_run, runs_data, read_mft,
}
use openforensicfileformat.Ntfs.Paths.{
  root_mft, join_path, name_of, place_under, place_named, place, visit, visit_all, paths_loop,
  build_paths,
}
use openforensicfileformat.Ntfs.Vbr.{record_bytes, parse_vbr}
use openforensicfileformat.Ntfs.Attributes.{
  filetime_to_datetime, parse_std_info, parse_file_name, priority, better_of, best_file_name,
}
use openforensicfileformat.Ntfs.Paths.{backslash}
use openforensicfileformat.Tests.PartitionRuns.{chunk}

-- Sectors and clusters of 128 bytes, records of one cluster, the table from cluster 4 on.
abbrev boot_sector : Bytes
boot_sector =
    replicate 3 0
    ++ (codes "NTFS    "
        ++ (128 ∷ 0 ∷ 1 ∷ replicate 34 0 ++ (4 ∷ replicate 15 0 ++ (1 ∷ replicate 447 0))))

-- Record 0, with its data in two clusters from cluster 4 on.
abbrev first_record : Bytes
first_record =
    codes "FILE"
    ++ (replicate 16 0
        ++ (56 ∷ 0 ∷ 1 ∷ 0 ∷ 128 ∷ replicate 31 0
            ++ (0x80 ∷ 0 ∷ 0 ∷ 0 ∷ 68 ∷ 0 ∷ 0 ∷ 0 ∷ 1 ∷ replicate 23 0
                ++ (64 ∷ replicate 8 0
                    ++ (1 ∷ replicate 14 0
                        ++ (0 ∷ 1 ∷ replicate 6 0 ++ (0x11 ∷ 2 ∷ 4 ∷ 0 ∷ replicate 4 0)))))))

-- Record 1, without attributes and not in use.
abbrev second_record : Bytes
second_record =
    codes "FILE"
    ++ (replicate 16 0
        ++ (56 ∷ 0 ∷ 0 ∷ 0 ∷ 128 ∷ replicate 31 0 ++ (0xFF ∷ 0xFF ∷ 0xFF ∷ 0xFF ∷ replicate 68 0)))

abbrev volume : Bytes
volume = boot_sector ++ (first_record ++ second_record)

abbrev whole_volume : ChunkMetadata → Result Bytes
whole_volume c = ok volume

abbrev no_time : ℕ → ℕ → Option DateTime
no_time secs nanos = none

abbrev backwards : List ℕ → List ℕ
backwards [] = []
backwards (i ∷ ids) = backwards ids ++ (i ∷ [])

abbrev indexed : Result (List FileIndexRow)
indexed =
    index_ntfs whole_volume no_time backwards (λ name. name) (λ extents. []) (λ refs. [])
      (λ streams. []) (codes "1.0") (chunk (codes "a") 0 768 ∷ []) 0 (codes "volume-1")
      (codes "ntfs-volume-1") (codes "offf-index")

abbrev row : ℕ → Bytes → ℕ → Bool → FileIndexRow
row entry name size deleted = record {
  file_id = entry;
  filesystem_id = codes "ntfs-volume-1";
  partition_id = codes "volume-1";
  path = codes "[orphan]" ++ (backslash ++ name);
  filename = name;
  extension = [];
  size_bytes = size;
  created_at = none;
  modified_at = none;
  accessed_at = none;
  changed_at = none;
  physical_extents = [];
  chunk_refs = [];
  is_directory = false;
  is_deleted = deleted;
  is_sparse = false;
  is_compressed = false;
  is_encrypted = false;
  ads_streams = codes "[]";
  parser = codes "offf-index";
  parser_version = codes "1.0";
  parser_status = codes "ok";
  parser_error = [];
}

abbrev rows : List FileIndexRow
rows = row 0 (codes "[0]") 256 false ∷ row 1 (codes "[1]") 0 true ∷ []

indexed_run : indexed ≡ ok rows
unfolding slice index lookup insert remove contains_key contains insert_sorted sort_by dedup
    copy_slice overlaps fill fill_all read_bytes_at chunk_refs_for_range range detect_fat16
    detect_volume_type byte_at le16 le32 le64 decimal hex_padded upper_digit hex_byte_upper utf8
    from_utf16_lossy utf16_units bytes_eq be_bytes32 from_be32 shl64 join_bytes bit_is_set
    sign_extend runs_loop parse_data_runs max_attr_list_entries attr_list_loop
    parse_attr_list_mft_refs has_stream merge_streams has_name merge_names streams_of names_of
    resolve_one resolve_all after_last_dot bytes_le extents_of refs_of status_of extend_if_ok
    resident_or with_work work_step parse_records list_data list_of work_of row_of rows_of
    index_records index_ntfs fixup_loop apply_fixup max_ads_per_file with_std_info with_file_name
    runs_at attribute_list data_stream stream_size named_stream attribute attribute_loop
    with_name_size parse_attributes parse_mft_record max_cached_chunks drop_oldest evict keep_read
    copy_if_fits copy_part finish fetched fetch read_loop read_at data_at find_data locate_mft
    max_mft_bytes mft_size_of is_sparse_run runs_data read_mft root_mft join_path name_of
    place_under place_named place visit visit_all paths_loop build_paths record_bytes parse_vbr
    filetime_to_datetime parse_std_info parse_file_name priority better_of best_file_name
indexed_run = refl

Lacks-append : (n : ℕ) (ids js : List ℕ) → Lacks n ids → Lacks n js → Lacks n (ids ++ js)
Lacks-append n [] js p q = q
Lacks-append n (i ∷ ids) js (d, p) q = (d, Lacks-append n ids js p q)

Lacks-backwards : (n : ℕ) (ids : List ℕ) → Lacks n ids → Lacks n (backwards ids)
Lacks-backwards n [] p = tt
Lacks-backwards n (i ∷ ids) (d, p) =
    Lacks-append n (backwards ids) (i ∷ []) (Lacks-backwards n ids p) (d, tt)

AllDistinct-snoc :
    (ids : List ℕ) (i : ℕ) → AllDistinct ids → Lacks i ids → AllDistinct (ids ++ (i ∷ []))
AllDistinct-snoc [] i h l = (tt, tt)
AllDistinct-snoc (j ∷ ids) i (p, h) (d, l) =
    (Lacks-append j ids (i ∷ []) p (λ e. d (sym e), tt), AllDistinct-snoc ids i h l)

AllDistinct-backwards : (ids : List ℕ) → AllDistinct ids → AllDistinct (backwards ids)
AllDistinct-backwards [] h = tt
AllDistinct-backwards (i ∷ ids) (p, h) =
    AllDistinct-snoc (backwards ids) i (AllDistinct-backwards ids h) (Lacks-backwards i ids p)

index_ntfs-IsRising_example : IsRising rows
index_ntfs-IsRising_example =
    index_ntfs-IsRising whole_volume no_time backwards (λ name. name) (λ extents. []) (λ refs. [])
      (λ streams. []) (codes "1.0") (chunk (codes "a") 0 768 ∷ []) 0 (codes "volume-1")
      (codes "ntfs-volume-1") (codes "offf-index") rows AllDistinct-backwards indexed_run

-- An attribute whose eight bytes end the record: the flag behind them is read all the same.
abbrev cut_record : Bytes
cut_record =
    codes "FILE"
    ++ (replicate 16 0
        ++ (56 ∷ 0 ∷ 1 ∷ 0 ∷ 64 ∷ replicate 31 0 ++ (0x90 ∷ 0 ∷ 0 ∷ 0 ∷ 8 ∷ 0 ∷ 0 ∷ 0 ∷ [])))

cut_run : parse_mft_record no_time cut_record 64 ≡ panic
unfolding parse_mft_record parse_attributes attribute_loop index slice apply_fixup bytes_eq le16
    byte_at le32
cut_run = refl

-- A run list that is said to begin behind its own attribute, but not behind the record.
abbrev crossed_record : Bytes
crossed_record =
    codes "FILE"
    ++ (replicate 16 0
        ++ (56 ∷ 0 ∷ 1 ∷ 0 ∷ 128 ∷ replicate 31 0
            ++ (0x80 ∷ 0 ∷ 0 ∷ 0 ∷ 64 ∷ 0 ∷ 0 ∷ 0 ∷ 1 ∷ replicate 23 0 ++ (68 ∷ replicate 39 0))))

crossed_run : parse_mft_record no_time crossed_record 128 ≡ panic
unfolding parse_mft_record parse_attributes attribute_loop attribute data_stream runs_at index slice
    apply_fixup bytes_eq le16 byte_at le32
crossed_run = refl
