-- ===== src/Tests/GptRuns.antt =====
-- A run of `parse_gpt` of crates/offf-core/src/partition.rs on a header with one entry.
use openforensicfileformat.Prelude.{◌≡◌, refl, none, some, [], ◌∷◌, ◌++◌, All, replicate}
use openforensicfileformat.Bytes.{Bytes, codes, bytes_eq}
use openforensicfileformat.Outcome.{Result, ok}
use openforensicfileformat.Chunk.{ChunkMetadata}
use openforensicfileformat.Words.{
  byte_at, le16, le32, le64, decimal, hex_padded, utf8, utf16_units, from_utf16_lossy,
}
use openforensicfileformat.Hex.{hex_digit}
use openforensicfileformat.Partition.{PartitionTableJson}
use openforensicfileformat.Partition.Range.{
  copy_slice, overlaps, fill, fill_all, read_bytes_at, chunk_refs_for_range,
}
use openforensicfileformat.Partition.Names.{
  crc_bits, crc32, lookup_type_guid, format_gpt_guid, parse_utf16le_name,
}
use openforensicfileformat.Partition.Volume.{range}
use openforensicfileformat.Partition.Gpt.{
  header_for_crc, all_zero, gpt_entry, gpt_entries, parse_gpt,
}
use openforensicfileformat.Partition.Gpt.Ordered.{IsExtent, parse_gpt-IsExtent}
use openforensicfileformat.Tests.PartitionRuns.{chunk}

abbrev gpt_header : Bytes
gpt_header =
    (69 ∷ 70 ∷ 73 ∷ 32 ∷ 80 ∷ 65 ∷ 82 ∷ 84 ∷ 0 ∷ 0 ∷ 1 ∷ 0 ∷ 92 ∷ 0 ∷ 0 ∷ 0 ∷ 190 ∷ 106 ∷ 167 ∷ 47
      ∷ [])
    ++ (replicate 4 0
        ++ ((1 ∷ [])
            ++ (replicate 15 0
                ++ ((34 ∷ [])
                    ++ (replicate 15 0
                        ++ ((1 ∷ 2 ∷ 3 ∷ 4 ∷ 5 ∷ 6 ∷ 7 ∷ 8 ∷ 9 ∷ 10 ∷ 11 ∷ 12 ∷ 13 ∷ 14 ∷ 15 ∷ 16
                              ∷ 2 ∷ [])
                            ++ (replicate 7 0
                                ++ ((1 ∷ 0 ∷ 0 ∷ 0 ∷ 128 ∷ []) ++ (replicate 7 0)))))))))

abbrev gpt_array : Bytes
gpt_array =
    (162 ∷ 160 ∷ 208 ∷ 235 ∷ 229 ∷ 185 ∷ 51 ∷ 68 ∷ 135 ∷ 192 ∷ 104 ∷ 182 ∷ 183 ∷ 38 ∷ 153 ∷ 199 ∷ 0
      ∷ 1 ∷ 2 ∷ 3 ∷ 4 ∷ 5 ∷ 6 ∷ 7 ∷ 8 ∷ 9 ∷ 10 ∷ 11 ∷ 12 ∷ 13 ∷ 14 ∷ 15 ∷ 40 ∷ [])
    ++ (replicate 7 0 ++ ((47 ∷ []) ++ (replicate 15 0 ++ ((68 ∷ []) ++ (replicate 71 0)))))

abbrev from_array : ChunkMetadata → Result Bytes
from_array c = ok gpt_array

abbrev gpt_table : PartitionTableJson
gpt_table = record {
  generated_at = codes "now";
  generated_by_tool = record { name = codes "t"; version = codes "1" };
  container_id = codes "c";
  sector_size = 512;
  partition_table_type = codes "gpt";
  disk_guid = some (codes "04030201-0605-0807-090a-0b0c0d0e0f10");
  partitions =
      record {
        partition_id = codes "gpt-1";
        name = some (codes "D");
        partition_type = codes "Basic Data Partition";
        type_guid = some (codes "ebd0a0a2-b9e5-4433-87c0-68b6b72699c7");
        unique_guid = some (codes "03020100-0504-0706-0809-0a0b0c0d0e0f");
        start_offset = 20480;
        length = 4096;
        first_lba = 40;
        last_lba = 47;
        attributes = some 0;
        bootable = none;
        chunk_refs = codes "data" ∷ [];
        filesystem_type = none;
      }
      ∷ [];
}

gpt_run :
    parse_gpt from_array
      (codes "now")
      (codes "1")
      (chunk (codes "array") 1024 128 ∷ chunk (codes "data") 20480 512 ∷ [])
      gpt_header
      512
      (codes "c")
      (codes "t")
    ≡ ok gpt_table
unfolding parse_gpt header_for_crc crc32 crc_bits read_bytes_at fill_all fill copy_slice overlaps
    gpt_entries gpt_entry all_zero format_gpt_guid lookup_type_guid parse_utf16le_name utf16_units
    from_utf16_lossy utf8 hex_padded hex_digit decimal byte_at le16 le32 le64 range
    chunk_refs_for_range bytes_eq
gpt_run = refl

parse_gpt-IsExtent_example :
    All
      (IsExtent (chunk (codes "array") 1024 128 ∷ chunk (codes "data") 20480 512 ∷ []) 512)
      gpt_table.partitions
parse_gpt-IsExtent_example =
    parse_gpt-IsExtent from_array (codes "now") (codes "1")
      (chunk (codes "array") 1024 128 ∷ chunk (codes "data") 20480 512 ∷ []) gpt_header 512
      (codes "c") (codes "t") gpt_table gpt_run
