-- ===== src/Tests/PartitionRuns.antt =====
-- Runs of crates/offf-core/src/partition.rs on small images.
use openforensicfileformat.Prelude.{
  arith, ℕ, ◌≤◌, ◌≡◌, refl, true, none, some, List, [], ◌∷◌, ◌++◌, All, replicate, length,
  if◌then◌else◌, ◌==◌,
}
use openforensicfileformat.Bytes.{Bytes, codes, bytes_eq}
use openforensicfileformat.Outcome.{Result, ok, err, panic, invalid_container}
use openforensicfileformat.Chunk.{ChunkMetadata}
use openforensicfileformat.Words.{byte_at, le16, le32, decimal, upper_digit, hex_byte_upper}
use openforensicfileformat.Partition.{PartitionTableJson}
use openforensicfileformat.Partition.Range.{
  copy_slice, overlaps, fill, fill_all, read_bytes_at, chunk_refs_for_range,
}
use openforensicfileformat.Partition.Range.Image.{Tiles}
use openforensicfileformat.Partition.Range.Reads.{read_bytes_at-Tiles, read_bytes_at_past_end}
use openforensicfileformat.Partition.Range.Local.{read_bytes_at_local}
use openforensicfileformat.Partition.Names.{mbr_type_name}
use openforensicfileformat.Partition.Volume.{range}
use openforensicfileformat.Partition.Mbr.{
  type_text, mbr_entry, primary_round, primary_entries, logical_entries, parse_mbr,
}
use openforensicfileformat.Partition.Mbr.Bound.{parse_mbr_bound}
use openforensicfileformat.Partition.Mbr.Linked.{IsLinked}
use openforensicfileformat.Partition.Volume.{detect_volume_type, detect_fat16}
use openforensicfileformat.Partition.Detect.{
  has_mbr_sig, is_gpt, fall_back, classify, detect_and_parse,
}
use openforensicfileformat.Partition.Detect.Linked.{detect_and_parse-IsLinked}

abbrev pub chunk : Bytes → ℕ → ℕ → ChunkMetadata
chunk id at len = record {
  sequence = 0;
  chunk_id = id;
  source_offset = at;
  source_length = len;
  stored_length = len;
  compression = codes "none";
  plaintext_sha256 = id;
  stored_sha256 = id;
  read_errors = [];
}

abbrev two_chunks : List ChunkMetadata
two_chunks = chunk (codes "a") 0 3 ∷ chunk (codes "b") 3 3 ∷ []

abbrev letters : ChunkMetadata → Result Bytes
letters c = if c.source_offset == 0 then ok (codes "abc") else ok (codes "def")

abbrev only_first : ChunkMetadata → Result Bytes
only_first c = if c.source_offset == 0 then ok (codes "abc") else err invalid_container

-- A chunk that is listed twice makes up for one that is missing.
doubled_run :
    read_bytes_at letters (chunk (codes "a") 0 3 ∷ chunk (codes "a") 0 3 ∷ []) 0 6
    ≡ ok (codes "abc" ++ (0 ∷ 0 ∷ 0 ∷ []))
unfolding read_bytes_at fill_all fill copy_slice overlaps
doubled_run = refl

-- A chunk whose metadata claim more bytes than it holds.
overstated_run : read_bytes_at letters (chunk (codes "a") 0 9 ∷ []) 0 9 ≡ panic
unfolding read_bytes_at fill_all fill copy_slice overlaps
overstated_run = refl

letters-Tiles : Tiles letters 0 two_chunks (codes "abcdef")
letters-Tiles = (
  codes "abc",
  codes "def",
  refl,
  refl,
  refl,
  refl,
  (codes "def", [], refl, refl, refl, refl, refl),
)

read_bytes_at-Tiles_example : read_bytes_at letters two_chunks 1 4 ≡ ok (codes "bcde")
read_bytes_at-Tiles_example =
    read_bytes_at-Tiles letters two_chunks (codes "abcdef") 1 4 letters-Tiles (omega arith)
      (omega arith)

read_bytes_at_past_end_example : read_bytes_at letters two_chunks 4 4 ≡ err invalid_container
read_bytes_at_past_end_example =
    read_bytes_at_past_end letters two_chunks (codes "abcdef") 4 4 letters-Tiles (omega arith)
      (omega arith) (omega arith) (omega arith)

read_bytes_at_local_example :
    read_bytes_at letters two_chunks 1 2 ≡ read_bytes_at only_first two_chunks 1 2
unfolding overlaps
read_bytes_at_local_example =
    read_bytes_at_local letters only_first two_chunks 1 2 ((λ e. refl), ((λ e. cc), tt))

abbrev mbr_sector : Bytes
mbr_sector =
    replicate 446 0
    ++ ((128 ∷ 0 ∷ 0 ∷ 0 ∷ 7 ∷ [])
        ++ (replicate 4 0 ++ ((8 ∷ 0 ∷ 0 ∷ 0 ∷ 1 ∷ []) ++ (replicate 50 0 ++ ((85 ∷ 170 ∷ []))))))

abbrev mbr_table : PartitionTableJson
mbr_table = record {
  generated_at = codes "now";
  generated_by_tool = record { name = codes "t"; version = codes "1" };
  container_id = codes "c";
  sector_size = 512;
  partition_table_type = codes "mbr";
  disk_guid = none;
  partitions =
      record {
        partition_id = codes "mbr-1";
        name = none;
        partition_type = codes "NTFS / exFAT (0x07)";
        type_guid = none;
        unique_guid = none;
        start_offset = 1048576;
        length = 131072;
        first_lba = 2048;
        last_lba = 2303;
        attributes = none;
        bootable = some true;
        chunk_refs = codes "disk" ∷ [];
        filesystem_type = none;
      }
      ∷ [];
}

mbr_run :
    parse_mbr letters
      (codes "now")
      (codes "1")
      (chunk (codes "disk") 0 2097152 ∷ [])
      mbr_sector
      512
      (codes "c")
      (codes "t")
    ≡ ok mbr_table
unfolding parse_mbr logical_entries primary_entries primary_round mbr_entry type_text mbr_type_name
    hex_byte_upper upper_digit decimal byte_at le16 le32 chunk_refs_for_range overlaps
mbr_run = refl

parse_mbr_bound_example : length mbr_table.partitions ≤ 260
parse_mbr_bound_example =
    parse_mbr_bound letters (codes "now") (codes "1") (chunk (codes "disk") 0 2097152 ∷ [])
      mbr_sector 512 (codes "c") (codes "t") mbr_table mbr_run

abbrev whole_disk : ChunkMetadata → Result Bytes
whole_disk c = ok mbr_sector

abbrev disk_table : PartitionTableJson
disk_table = record {
  generated_at = codes "now";
  generated_by_tool = record { name = codes "t"; version = codes "1" };
  container_id = codes "c";
  sector_size = 512;
  partition_table_type = codes "mbr";
  disk_guid = none;
  partitions =
      record {
        partition_id = codes "mbr-1";
        name = none;
        partition_type = codes "NTFS / exFAT (0x07)";
        type_guid = none;
        unique_guid = none;
        start_offset = 1048576;
        length = 131072;
        first_lba = 2048;
        last_lba = 2303;
        attributes = none;
        bootable = some true;
        chunk_refs = codes "data" ∷ [];
        filesystem_type = none;
      }
      ∷ [];
}

disk_run :
    detect_and_parse whole_disk
      (codes "now")
      (codes "1")
      (chunk (codes "boot") 0 512 ∷ chunk (codes "data") 1048576 512 ∷ [])
      512
      (codes "c")
      (codes "t")
    ≡ ok disk_table
unfolding detect_and_parse classify is_gpt has_mbr_sig fall_back detect_volume_type detect_fat16
    range bytes_eq read_bytes_at fill_all fill copy_slice parse_mbr logical_entries primary_entries
    primary_round mbr_entry type_text mbr_type_name hex_byte_upper upper_digit decimal byte_at le16
    le32 chunk_refs_for_range overlaps
disk_run = refl

detect_and_parse-IsLinked_example :
    All
      (IsLinked (chunk (codes "boot") 0 512 ∷ chunk (codes "data") 1048576 512 ∷ []))
      disk_table.partitions
detect_and_parse-IsLinked_example =
    detect_and_parse-IsLinked whole_disk (codes "now") (codes "1")
      (chunk (codes "boot") 0 512 ∷ chunk (codes "data") 1048576 512 ∷ []) 512 (codes "c")
      (codes "t") disk_table disk_run
