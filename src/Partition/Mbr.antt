-- ===== src/Partition/Mbr.antt =====
-- crates/offf-core/src/partition.rs, `parse_mbr`: the four entries of sector 0 and the chain of
-- extended boot records.
pub mod Bound
pub mod Linked
use openforensicfileformat.Prelude.{
  ℕ, zero, suc, ◌+◌, ◌-◌, ◌*◌, Bool, true, false, ◌&&◌, ◌||◌, not, Option, none, some, List, [],
  ◌∷◌, ◌++◌, ltb, leb, ◌==◌, if◌then◌else◌, length,
}
use openforensicfileformat.Bytes.{Bytes, codes}
use openforensicfileformat.Outcome.{
  Result, ok, err, panic, stuck, invalid_container, ◌>>=◌, ◌>>◌, ensure,
}
use openforensicfileformat.Chunk.{ChunkMetadata}
use openforensicfileformat.Words.{add64, sub64, mul64, byte_at, le32, decimal, hex_byte_upper}
use openforensicfileformat.Partition.{PartitionEntry, PartitionTableJson, ToolInfo}
use openforensicfileformat.Partition.Names.{mbr_type_name}
use openforensicfileformat.Partition.Range.{read_bytes_at, chunk_refs_for_range}

-- `format!("{} (0x{:02X})", mbr_type_name(t), t)`
unfoldable pub type_text : ℕ → Bytes
type_text t = mbr_type_name t ++ (codes " (0x" ++ (hex_byte_upper t ++ codes ")"))

-- The places of one 16-byte entry that begins at `at` in a sector.
abbrev pub entry_type : Bytes → ℕ → ℕ
entry_type sector at = byte_at sector (at + 4)

abbrev pub entry_start : Bytes → ℕ → ℕ
entry_start sector at = le32 sector (at + 8)

abbrev pub entry_count : Bytes → ℕ → ℕ
entry_count sector at = le32 sector (at + 12)

-- The entry that is pushed for a partition of `count` sectors from `lba` on.
unfoldable pub mbr_entry : List ChunkMetadata → ℕ → Bytes → ℕ → ℕ → ℕ → Option Bool → PartitionEntry
mbr_entry chunks sector_size id part_type lba count bootable = record {
  partition_id = id;
  name = none;
  partition_type = type_text part_type;
  type_guid = none;
  unique_guid = none;
  start_offset = mul64 lba sector_size;
  length = mul64 count sector_size;
  first_lba = lba;
  last_lba = add64 lba count - 1;
  attributes = none;
  bootable = bootable;
  chunk_refs = chunk_refs_for_range chunks (mul64 lba sector_size) (mul64 count sector_size);
  filesystem_type = none;
}

-- What the loop over the four entries has found: the partitions in order, the index of the next,
-- and where the last extended partition begins.
pub record Primary : Type 0 where
  pub partitions : List PartitionEntry
  pub mbr_index : ℕ
  pub extended_lba : Option ℕ

-- One round of the loop, at the entry that begins at `at`.
unfoldable pub primary_round : List ChunkMetadata → ℕ → Bytes → ℕ → Primary → Primary
primary_round chunks sector_size sector0 at p =
    let t = entry_type sector0 at in
    let lba = entry_start sector0 at in
    let count = entry_count sector0 at in
    if t == 0x00
    then p
    else if count == 0
    then p
    else if (t == 0x05) || (t == 0x0F)
    then record p { extended_lba = some lba }
    else record p {
      partitions =
          p.partitions
          ++ (mbr_entry chunks sector_size (codes "mbr-" ++ decimal p.mbr_index) t lba count
                (some (byte_at sector0 at == 0x80))
              ∷ []);
      mbr_index = p.mbr_index + 1;
    }

unfoldable pub primary_entries : List ChunkMetadata → ℕ → Bytes → Primary
primary_entries chunks sector_size sector0 =
    let round = primary_round chunks sector_size sector0 in
    round (0x1BE + 48) (
      round (0x1BE + 32) (
        round (0x1BE + 16)
          (round 0x1BE (record { partitions = []; mbr_index = 1; extended_lba = none }))))

-- The logical partition in the first entry of a boot record at `ebr_lba`.
unfoldable pub logical_entry : List ChunkMetadata → ℕ → Bytes → ℕ → ℕ → List PartitionEntry
logical_entry chunks sector_size ebr ebr_lba ebr_index =
    let t = entry_type ebr 0x1BE in
    let count = entry_count ebr 0x1BE in
    if ltb 0 count && not (t == 0x00)
    then mbr_entry chunks sector_size (codes "ebr-" ++ decimal ebr_index) t
        (add64 ebr_lba (entry_start ebr 0x1BE)) count none
      ∷ []
    else []

module _ (read : ChunkMetadata → Result Bytes) (chunks : List ChunkMetadata)
    (sector_size ext_lba : ℕ) where
  -- The chain, with the rounds that `MAX_EBR_CHAIN` leaves. A sector that cannot be read ends it.
  unfoldable pub ebr_chain : ℕ → ℕ → ℕ → Result (List PartitionEntry)
  ebr_chain zero ebr_lba ebr_index = ok []
  ebr_chain (suc rounds) ebr_lba ebr_index =
      elim (read_bytes_at read chunks (mul64 ebr_lba sector_size) sector_size) [
        | err e ↦ ok []
        | panic ↦ panic
        | stuck ↦ stuck
        | ok ebr ↦
            let here = logical_entry chunks sector_size ebr ebr_lba ebr_index in
            let more = (do
              rest ← ebr_chain rounds (add64 ext_lba (entry_start ebr 0x1CE)) (ebr_index + 1)
              ok (here ++ rest)) in
            if ltb (length ebr) 512
            then ok []
            else if (entry_count ebr 0x1CE == 0) || (entry_type ebr 0x1CE == 0x00)
            then ok here
            else more
      ]

unfoldable pub max_ebr_chain : ℕ
max_ebr_chain = 256

module _ (read : ChunkMetadata → Result Bytes) where
  unfoldable pub logical_entries : List ChunkMetadata → ℕ → Option ℕ → Result (List PartitionEntry)
  logical_entries chunks sector_size none = ok []
  logical_entries chunks sector_size (some ext_lba) =
      ebr_chain read chunks sector_size ext_lba max_ebr_chain ext_lba 1

module _ (read : ChunkMetadata → Result Bytes) (now version : Bytes) where
  unfoldable pub parse_mbr :
      List ChunkMetadata → Bytes → ℕ → Bytes → Bytes → Result PartitionTableJson
  parse_mbr chunks sector0 sector_size container_id tool_name = do
    ensure (leb 512 (length sector0)) invalid_container
    let primary = primary_entries chunks sector_size sector0
    logical ← logical_entries read chunks sector_size primary.extended_lba
    ok (record {
      generated_at = now;
      generated_by_tool = record { name = tool_name; version = version };
      container_id = container_id;
      sector_size = sector_size;
      partition_table_type = codes "mbr";
      disk_guid = none;
      partitions = primary.partitions ++ logical;
    })
