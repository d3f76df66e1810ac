-- ===== src/Ntfs.antt =====
-- crates/offf-core/src/ntfs.rs: the index of the files of an NTFS volume.
pub mod Vbr
pub mod Runs
pub mod Fixup
pub mod Attributes
pub mod Record
pub mod AttrList
pub mod Cache
pub mod Mft
pub mod Paths
pub mod Resolve
pub mod Index
use openforensicfileformat.Prelude.{
  ℕ, Bool, Option, List, ◌&&◌, leb, if◌then◌else◌, length, take, drop, ◌-◌, none, some, get_elem?,
}
use openforensicfileformat.Bytes.{Bytes}
use openforensicfileformat.Outcome.{Result, ok, panic}

pub record NtfsVbr : Type 0 where
  pub bytes_per_cluster : ℕ
  pub bytes_per_record : ℕ
  pub mft_lcn : ℕ

-- `lcn_start` is an `i64`, kept as the `u64` with the same bits: a negative number is 2 ^ 63 or more.
pub record DataRun : Type 0 where
  pub lcn_start : ℕ
  pub cluster_count : ℕ

-- A `DateTime<Utc>`, by its seconds and nanoseconds.
pub record DateTime : Type 0 where
  pub secs : ℕ
  pub nanos : ℕ

pub record StdInfo : Type 0 where
  pub created_at : Option DateTime
  pub modified_at : Option DateTime
  pub changed_at : Option DateTime
  pub accessed_at : Option DateTime
  pub file_attributes : ℕ

pub record FileName : Type 0 where
  pub parent_mft : ℕ
  pub name : Bytes
  pub namespace : ℕ
  pub real_size : ℕ

pub record AdsEntry : Type 0 where
  pub name : Bytes
  pub size : ℕ

pub record MftRecord : Type 0 where
  pub flags : ℕ
  pub std_info : Option StdInfo
  pub file_names : List FileName
  pub data_size : ℕ
  pub data_runs : List DataRun
  pub ads_streams : List AdsEntry
  pub is_sparse : Bool
  pub is_compressed : Bool
  pub is_encrypted : Bool
  pub has_attr_list : Bool
  pub attr_list_resident : Option Bytes
  pub attr_list_runs : List DataRun
  pub parse_error : Option Bytes

-- `d[a..b]` and `d[i]`, which panic out of range.
unfoldable pub slice : Bytes → ℕ → ℕ → Result Bytes
slice d a b = if leb a b && leb b (length d) then ok (take (b - a) (drop a d)) else panic

unfoldable pub index : Bytes → ℕ → Result ℕ
index d i = elim (get_elem? d i) [ some b ↦ ok b | none ↦ panic ]
