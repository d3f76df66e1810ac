-- ===== src/Tests/NtfsRuns.antt =====
-- Runs of crates/offf-core/src/ntfs.rs on small buffers and records.
use openforensicfileformat.Prelude.{
  arith, ℕ, ◌-◌, ◌*◌, ◌<◌, ◌^◌, ◌≤◌, ◌≡◌, ◌≢◌, inl, inr, refl, ap, ◌/◌, min, ltb, true, some,
  Option, List, [], ◌∷◌, ◌++◌, All, replicate, length, if◌then◌else◌, ◌==◌,
}
use openforensicfileformat.Bytes.{Bytes, codes}
use openforensicfileformat.Outcome.{Result, ok, panic, stuck}
use openforensicfileformat.Outcome.Ends.{if-Ends}
use openforensicfileformat.Chunk.{ChunkMetadata}
use openforensicfileformat.Words.{byte_at, le16}
use openforensicfileformat.Partition.Range.Image.{Tiles}
use openforensicfileformat.Partition.Range.{read_bytes_at, fill_all, fill, copy_slice, overlaps}
use openforensicfileformat.Ntfs.{DataRun, DateTime, MftRecord}
use openforensicfileformat.Ntfs.Runs.{
  no_lcn, shl64, join_bytes, bit_is_set, sign_extend, runs_loop, parse_data_runs,
}
use openforensicfileformat.Ntfs.Runs.RoundTrip.{
  RunSpec, allocated, sparse, encode, decoded, parse_data_runs-encode, parse_data_runs_total,
}
use openforensicfileformat.Ntfs.Fixup.{apply_fixup, fixup_loop}
use openforensicfileformat.Ntfs.Fixup.Sectors.{apply_fixup_keeps, apply_fixup_checked}
use openforensicfileformat.Ntfs.AttrList.{parse_attr_list_mft_refs}
use openforensicfileformat.Ntfs.AttrList.Refs.{IsExtension, parse_attr_list_mft_refs-IsExtension}
use openforensicfileformat.Maps.Sorting.{Sorted}
use openforensicfileformat.Ntfs.Record.{empty_record}
use openforensicfileformat.Ntfs.Cache.{empty_cache, read_at}
use openforensicfileformat.Ntfs.Cache.Kept.{IsCache, empty-IsCache, read_at-IsCache}
use openforensicfileformat.Ntfs.Cache.Reads.{read_at-read_bytes_at, read_at-Tiles}
use openforensicfileformat.Ntfs.Paths.{build_paths}
use openforensicfileformat.Ntfs.Paths.Placed.{IsPathMap, build_paths-IsPathMap}
use openforensicfileformat.Ntfs.Index.{index_ntfs}
use openforensicfileformat.Ntfs.Index.Ends.{index_ntfs_ends}
use openforensicfileformat.Tests.PartitionRuns.{chunk}

abbrev some_runs : List RunSpec
some_runs = allocated 1 2 5 300 ∷ sparse 1 7 ∷ allocated 2 1 256 (2 ^ 64 - 3) ∷ []

parse_data_runs-encode_example :
    parse_data_runs (encode some_runs ++ (9 ∷ [])) ≡ ok (decoded 0 some_runs)
parse_data_runs-encode_example = parse_data_runs-encode some_runs (9 ∷ []) (
  (omega arith, (omega arith, (omega arith, (omega arith, (omega arith, inl (omega arith)))))),
  (
    (omega arith, (omega arith, omega arith)),
    (
      (
        omega arith,
        (omega arith, (omega arith, (omega arith, (omega arith, inr (omega arith, omega arith))))),
      ),
      tt,
    ),
  ),
)

parse_data_runs_total_example :
    (runs : List DataRun) × (parse_data_runs (0x11 ∷ 8 ∷ 32 ∷ 0xFF ∷ []) ≡ ok runs)
    × (2 * length runs ≤ 4)
parse_data_runs_total_example = parse_data_runs_total (0x11 ∷ 8 ∷ 32 ∷ 0xFF ∷ [])

-- A negative distance in eight bytes: the sign is extended by a shift of 64 places, which shifts by
-- none in a release build, and -2 becomes -1, which marks a sparse run.
wide_run :
    parse_data_runs (0x81 ∷ 1 ∷ 0xFE ∷ 0xFF ∷ 0xFF ∷ 0xFF ∷ 0xFF ∷ 0xFF ∷ 0xFF ∷ 0xFF ∷ [])
    ≡ ok (record { lcn_start = no_lcn; cluster_count = 1 } ∷ [])
unfolding parse_data_runs runs_loop join_bytes sign_extend bit_is_set shl64 byte_at
wide_run = refl

abbrev numbered : List ChunkMetadata
numbered = chunk (codes "a") 0 3 ∷ record (chunk (codes "b") 3 3) { sequence = 1 } ∷ []

abbrev by_sequence : ChunkMetadata → Result Bytes
by_sequence c = if c.sequence == 0 then ok (codes "abc") else ok (codes "def")

abbrev Any : ChunkMetadata → Type 0
Any c = Unit {0}

same_bytes :
    (c d : ChunkMetadata) → Any c → Any d → c.sequence ≡ d.sequence → by_sequence c ≡ by_sequence d
same_bytes c d h k e = ap (λ n. if n == 0 then ok (codes "abc") else ok (codes "def")) e

read_at-IsCache_example :
    IsCache by_sequence Any same_bytes (read_at by_sequence numbered 1 4 empty_cache).1
read_at-IsCache_example =
    read_at-IsCache by_sequence Any same_bytes numbered 1 4 empty_cache (tt, (tt, tt))
      (empty-IsCache by_sequence Any same_bytes)

safe_range : read_bytes_at by_sequence numbered 1 4 ≢ panic
unfolding read_bytes_at fill_all fill copy_slice overlaps
safe_range = λ e. cc

read_at-read_bytes_at_example :
    (read_at by_sequence numbered 1 4 empty_cache).0 ≡ read_bytes_at by_sequence numbered 1 4
read_at-read_bytes_at_example =
    read_at-read_bytes_at by_sequence Any same_bytes numbered 1 4 empty_cache (tt, (tt, tt))
      (empty-IsCache by_sequence Any same_bytes) safe_range

numbered-Tiles : Tiles by_sequence 0 numbered (codes "abcdef")
numbered-Tiles = (
  codes "abc",
  codes "def",
  refl,
  refl,
  refl,
  refl,
  (codes "def", [], refl, refl, refl, refl, refl),
)

read_at-Tiles_example : (read_at by_sequence numbered 1 4 empty_cache).0 ≡ ok (codes "bcde")
read_at-Tiles_example =
    read_at-Tiles by_sequence Any same_bytes numbered (codes "abcdef") 1 4 empty_cache
      (tt, (tt, tt)) (empty-IsCache by_sequence Any same_bytes) numbered-Tiles (omega arith)
      (omega arith)

abbrev named_record : Bytes → ℕ → MftRecord
named_record name parent = record empty_record {
  file_names = record { parent_mft = parent; name = name; namespace = 1; real_size = 0 } ∷ [];
}

-- A file in a directory below the root, one with no parent, and two that name each other.
abbrev some_records : List (ℕ × MftRecord)
some_records =
    (12, named_record (codes "file") 13)
    ∷ (13, named_record (codes "dir") 5)
    ∷ (14, named_record (codes "lost") 99)
    ∷ (15, named_record (codes "a") 16)
    ∷ (16, named_record (codes "b") 15)
    ∷ []

abbrev entries : List ℕ
entries = 12 ∷ 13 ∷ 14 ∷ 15 ∷ 16 ∷ []

build_paths-IsPathMap_example :
    (paths : List (ℕ × Bytes)) × (build_paths some_records entries ≡ ok paths)
    × IsPathMap some_records entries paths
build_paths-IsPathMap_example = build_paths-IsPathMap some_records entries

abbrev at_secs : ℕ → ℕ → Option DateTime
at_secs secs nanos = some (record { secs = secs; nanos = nanos })

index_ntfs_ends_example :
    index_ntfs by_sequence at_secs
      (λ ids. ids)
      (λ name. name)
      (λ extents. [])
      (λ refs. [])
      (λ streams. [])
      (codes "1.0")
      numbered
      0
      (codes "volume-1")
      (codes "ntfs-volume-1")
      (codes "offf-index")
    ≢ stuck
index_ntfs_ends_example =
    index_ntfs_ends by_sequence (λ c. if-Ends (c.sequence == 0) _ _ tt tt) at_secs (λ ids. ids)
      (λ name. name) (λ extents. []) (λ refs. []) (λ streams. []) (codes "1.0") numbered 0
      (codes "volume-1") (codes "ntfs-volume-1") (codes "offf-index")

-- A record of one sector that ends in the update sequence number.
abbrev sector_record : Bytes
sector_record =
    codes "FILE"
    ++ (48 ∷ 0 ∷ 2 ∷ 0 ∷ replicate 40 0
        ++ (0xEF ∷ 0xBE ∷ 0x11 ∷ 0x12 ∷ replicate 458 0 ++ (0xEF ∷ 0xBE ∷ [])))

apply_fixup_keeps_example :
    (length (apply_fixup sector_record).1 ≡ length sector_record)
    × (byte_at (apply_fixup sector_record).1 48 ≡ byte_at sector_record 48)
apply_fixup_keeps_example = apply_fixup_keeps sector_record 48 (omega arith)

applied_run : (apply_fixup sector_record).0 ≡ true
unfolding apply_fixup fixup_loop le16 byte_at
applied_run = refl

one_sector : 0 < min (length sector_record / 512) (le16 sector_record 6 - 1)
unfolding le16 byte_at
one_sector = omega arith

apply_fixup_checked_example : le16 sector_record 510 ≡ le16 sector_record (le16 sector_record 4)
apply_fixup_checked_example = apply_fixup_checked sector_record 0 applied_run one_sector

-- Two entries of an attribute list, for the records 40 and 20.
abbrev entry_of : ℕ → Bytes
entry_of i = replicate 4 0 ++ (26 ∷ replicate 11 0 ++ (i ∷ replicate 9 0))

parse_attr_list_mft_refs-IsExtension_example :
    Sorted ltb (parse_attr_list_mft_refs (entry_of 40 ++ entry_of 20) 12)
    × All (IsExtension 12) (parse_attr_list_mft_refs (entry_of 40 ++ entry_of 20) 12)
parse_attr_list_mft_refs-IsExtension_example =
    parse_attr_list_mft_refs-IsExtension (entry_of 40 ++ entry_of 20) 12
