-- ===== src/Partition/Gpt.antt =====
-- crates/offf-core/src/partition.rs, `parse_gpt`.
pub mod Ordered
use openforensicfileformat.Prelude.{
  ℕ, zero, suc, ◌+◌, ◌-◌, ◌*◌, Bool, true, false, ◌&&◌, not, Option, none, some, List, [], ◌∷◌,
  ◌++◌, ltb, leb, ◌==◌, if◌then◌else◌, length, take, drop, min,
}
use openforensicfileformat.Bytes.{Bytes, codes, bytes_eq}
use openforensicfileformat.Outcome.{
  Result, ok, err, panic, stuck, invalid_container, ◌>>=◌, ◌>>◌, ensure,
}
use openforensicfileformat.Chunk.{ChunkMetadata}
use openforensicfileformat.Words.{add64, sub64, mul64, byte_at, le32, le64, decimal}
use openforensicfileformat.Partition.{PartitionEntry, PartitionTableJson, ToolInfo}
use openforensicfileformat.Partition.Names.{
  crc32, format_gpt_guid, lookup_type_guid, parse_utf16le_name,
}
use openforensicfileformat.Partition.Range.{read_bytes_at, chunk_refs_for_range}
use openforensicfileformat.Partition.Volume.{range}

-- The header with its own checksum set to zero.
unfoldable pub header_for_crc : Bytes → Bytes
header_for_crc header = take 16 header ++ (0 ∷ 0 ∷ 0 ∷ 0 ∷ range header 20 92)

unfoldable pub all_zero : Bytes → Bool
all_zero [] = true
all_zero (b ∷ bs) = (b == 0) && all_zero bs

named : Bytes → Option Bytes
named [] = none
named (c ∷ name) = some (c ∷ name)

-- The partition of one entry of the array, if it is not skipped.
unfoldable pub gpt_entry : List ChunkMetadata → ℕ → ℕ → ℕ → Bytes → Option PartitionEntry
unfolding named
gpt_entry chunks sector_size entry_size gpt_index e =
    let first_lba = le64 e 32 in
    let last_lba = le64 e 40 in
    let start_offset = mul64 first_lba sector_size in
    let bytes = mul64 (add64 (last_lba - first_lba) 1) sector_size in
    let type_guid = format_gpt_guid (take 16 e) in
    if all_zero (take 16 e)
    then none
    else if ltb last_lba first_lba
    then none
    else some (record {
      partition_id = codes "gpt-" ++ decimal gpt_index;
      name = named (parse_utf16le_name (range e 56 (min 128 entry_size)));
      partition_type = lookup_type_guid type_guid;
      type_guid = some type_guid;
      unique_guid = some (format_gpt_guid (range e 16 32));
      start_offset = start_offset;
      length = bytes;
      first_lba = first_lba;
      last_lba = last_lba;
      attributes = some (le64 e 48);
      bootable = none;
      chunk_refs = chunk_refs_for_range chunks start_offset bytes;
      filesystem_type = none;
    })

-- The loop over the array: `count` entries are left, and `gpt_index` counts those that are kept.
unfoldable pub gpt_entries : List ChunkMetadata → ℕ → ℕ → ℕ → ℕ → Bytes → List PartitionEntry
gpt_entries chunks sector_size entry_size zero gpt_index array = []
gpt_entries chunks sector_size entry_size (suc count) gpt_index array =
    elim (gpt_entry chunks sector_size entry_size gpt_index (take entry_size array)) [
      | none ↦ gpt_entries chunks sector_size entry_size count gpt_index (drop entry_size array)
      | some p ↦
          p
          ∷ gpt_entries chunks sector_size entry_size count (gpt_index + 1) (drop entry_size array)
    ]

module _ (read : ChunkMetadata → Result Bytes) (now version : Bytes) where
  unfoldable pub parse_gpt :
      List ChunkMetadata → Bytes → ℕ → Bytes → Bytes → Result PartitionTableJson
  parse_gpt chunks header sector_size container_id tool_name = do
    ensure (leb 92 (length header)) invalid_container
    ensure (bytes_eq (take 8 header) (codes "EFI PART")) invalid_container
    ensure (crc32 (header_for_crc header) == le32 header 16) invalid_container
    let entry_count = le32 header 80
    let entry_size = le32 header 84
    ensure (leb 128 entry_size) invalid_container
    entries ←
        read_bytes_at read chunks (mul64 (le64 header 72) sector_size)
          (mul64 entry_count entry_size)
    ok (record {
      generated_at = now;
      generated_by_tool = record { name = tool_name; version = version };
      container_id = container_id;
      sector_size = sector_size;
      partition_table_type = codes "gpt";
      disk_guid = some (format_gpt_guid (range header 56 72));
      partitions = gpt_entries chunks sector_size entry_size entry_count 1 entries;
    })
