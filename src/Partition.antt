-- ===== src/Partition.antt =====
-- crates/offf-core/src/partition.rs: reading byte ranges of the image out of the chunks, and the
-- MBR and GPT partition tables.
pub mod Range
pub mod Names
pub mod Volume
pub mod Mbr
pub mod Gpt
pub mod Detect
use openforensicfileformat.Prelude.{ℕ, Bool, Option, List}
use openforensicfileformat.Bytes.{Bytes}

-- crates/offf-core/src/types.rs
pub record ToolInfo : Type 0 where
  pub name : Bytes
  pub version : Bytes

pub record PartitionEntry : Type 0 where
  pub partition_id : Bytes
  pub name : Option Bytes
  pub partition_type : Bytes
  pub type_guid : Option Bytes
  pub unique_guid : Option Bytes
  pub start_offset : ℕ
  pub length : ℕ
  pub first_lba : ℕ
  pub last_lba : ℕ
  pub attributes : Option ℕ
  pub bootable : Option Bool
  pub chunk_refs : List Bytes
  pub filesystem_type : Option Bytes

pub record PartitionTableJson : Type 0 where
  pub generated_at : Bytes
  pub generated_by_tool : ToolInfo
  pub container_id : Bytes
  pub sector_size : ℕ
  pub partition_table_type : Bytes
  pub disk_guid : Option Bytes
  pub partitions : List PartitionEntry
