-- ===== src/Partition/Detect.antt =====
-- crates/offf-core/src/partition.rs, `detect_and_parse`: a volume image, a GPT with its backup, an
-- MBR, or nothing that is known, tried in this order.
pub mod Linked
use openforensicfileformat.Prelude.{
  Option, ℕ, ◌+◌, ◌*◌, ◌/◌, Bool, ◌&&◌, ◌||◌, none, some, List, [], ◌∷◌, ◌++◌, ltb, leb, ◌==◌,
  if◌then◌else◌, length, max,
}
use openforensicfileformat.Bytes.{Bytes, codes}
use openforensicfileformat.Outcome.{Result, ok, err, panic, stuck, ◌>>=◌}
use openforensicfileformat.Chunk.{ChunkMetadata}
use openforensicfileformat.Words.{add64, mul64, byte_at, le64}
use openforensicfileformat.Partition.{PartitionEntry, PartitionTableJson}
use openforensicfileformat.Partition.Range.{read_bytes_at, chunk_refs_for_range}
use openforensicfileformat.Partition.Volume.{detect_volume_type}
use openforensicfileformat.Partition.Mbr.{parse_mbr}
use openforensicfileformat.Partition.Gpt.{parse_gpt}

-- The end of the image: `max` over the chunks, or 0.
unfoldable pub total_size : List ChunkMetadata → ℕ
total_size [] = 0
total_size (c ∷ chunks) = max (add64 c.source_offset c.source_length) (total_size chunks)

unfoldable pub has_mbr_sig : Bytes → Bool
has_mbr_sig sector0 =
    leb 512 (length sector0) && ((byte_at sector0 510 == 0x55) && (byte_at sector0 511 == 0xAA))

-- One of the four entries has the type of a protective MBR.
unfoldable pub is_gpt : Bytes → Bool
unfolding has_mbr_sig
is_gpt sector0 =
    let protective = λ (i : ℕ). byte_at sector0 (0x1BE + i * 16 + 4) == 0xEE in
    has_mbr_sig sector0 && (protective 0 || (protective 1 || (protective 2 || protective 3)))

unfoldable pub volume_entry : List ChunkMetadata → ℕ → Bytes → PartitionEntry
volume_entry chunks sector_size fs_type = record {
  partition_id = codes "volume-1";
  name = some (fs_type ++ codes " volume");
  partition_type = fs_type;
  type_guid = none;
  unique_guid = none;
  start_offset = 0;
  length = total_size chunks;
  first_lba = 0;
  last_lba = if ltb 0 sector_size then total_size chunks / sector_size else 0;
  attributes = none;
  bootable = none;
  chunk_refs = chunk_refs_for_range chunks 0 (total_size chunks);
  filesystem_type = some fs_type;
}

-- What the attempts at a GPT come to: a table, nothing, or a panic or a lack of fuel.
pub data Attempt : Type 0 where
  found : PartitionTableJson → Attempt
  nothing : Attempt
  breaks : Result PartitionTableJson → Attempt

abbrev pub attempt : Result PartitionTableJson → Attempt → Attempt
attempt (ok t) other = found t
attempt (err e) other = other
attempt panic other = breaks panic
attempt stuck other = breaks stuck

-- As `attempt`, for a sector that has to be read first.
abbrev pub with_sector : Result Bytes → (Bytes → Attempt) → Attempt
with_sector (ok sector) k = k sector
with_sector (err e) k = nothing
with_sector panic k = breaks panic
with_sector stuck k = breaks stuck

abbrev pub settle : Attempt → Result PartitionTableJson → Result PartitionTableJson
settle (found t) other = ok t
settle nothing other = other
settle (breaks r) other = r

module _ (read : ChunkMetadata → Result Bytes) (now version : Bytes) where
  abbrev pub table : Bytes → ℕ → Bytes → Bytes → List PartitionEntry → PartitionTableJson
  table container_id sector_size tool_name table_type partitions = record {
    generated_at = now;
    generated_by_tool = record { name = tool_name; version = version };
    container_id = container_id;
    sector_size = sector_size;
    partition_table_type = table_type;
    disk_guid = none;
    partitions = partitions;
  }

  -- The backup header, at the address that the primary header names.
  unfoldable pub backup_gpt : List ChunkMetadata → ℕ → Bytes → Bytes → Bytes → Attempt
  backup_gpt chunks ss sector1 container_id tool_name =
      if leb 40 (length sector1) && ltb 1 (le64 sector1 32)
      then with_sector (read_bytes_at read chunks (mul64 (le64 sector1 32) ss) ss) (λ backup.
        attempt (parse_gpt read now version chunks backup ss container_id tool_name) nothing)
      else nothing

  unfoldable pub try_gpt : List ChunkMetadata → ℕ → Bytes → Bytes → Bytes → Attempt
  try_gpt chunks ss sector1 container_id tool_name =
      attempt (parse_gpt read now version chunks sector1 ss container_id tool_name)
        (backup_gpt chunks ss sector1 container_id tool_name)

  -- The end of the function: an MBR or nothing that is known.
  unfoldable pub fall_back :
      List ChunkMetadata → ℕ → Bytes → Bytes → Bytes → Result PartitionTableJson
  fall_back chunks sector_size sector0 container_id tool_name =
      if has_mbr_sig sector0
      then parse_mbr read now version chunks sector0 sector_size container_id tool_name
      else ok (table container_id sector_size tool_name (codes "unknown") [])

  -- The function behind the reading of sector 0, by what `detect_volume_type` says of it.
  unfoldable pub classify :
      List ChunkMetadata → ℕ → Bytes → Bytes → Bytes → Option Bytes → Result PartitionTableJson
  classify chunks sector_size container_id tool_name sector0 (some fs_type) = ok (
      table container_id sector_size tool_name (codes "volume_image")
        (volume_entry chunks sector_size fs_type ∷ []))
  classify chunks sector_size container_id tool_name sector0 none =
      if is_gpt sector0
      then (do
        sector1 ← read_bytes_at read chunks sector_size sector_size
        settle (try_gpt chunks sector_size sector1 container_id tool_name)
            (fall_back chunks sector_size sector0 container_id tool_name))
      else fall_back chunks sector_size sector0 container_id tool_name

  unfoldable pub detect_and_parse :
      List ChunkMetadata → ℕ → Bytes → Bytes → Result PartitionTableJson
  detect_and_parse chunks sector_size container_id tool_name = do
    sector0 ← read_bytes_at read chunks 0 sector_size
    classify chunks sector_size container_id tool_name sector0 (detect_volume_type sector0)
