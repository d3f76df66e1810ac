-- ===== src/Ntfs/AttrList.antt =====
-- crates/offf-core/src/ntfs.rs, `parse_attr_list_mft_refs`.
pub mod Refs
use openforensicfileformat.Prelude.{
  ℕ, zero, suc, ◌+◌, ◌%◌, ◌^◌, Bool, ◌&&◌, ◌||◌, not, ltb, leb, ◌==◌, if◌then◌else◌, length, List,
  [], ◌∷◌, drop,
}
use openforensicfileformat.Bytes.{Bytes}
use openforensicfileformat.Words.{le16, le64}
use openforensicfileformat.Maps.Sorting.{sort_by, dedup}

unfoldable pub max_attr_list_entries : ℕ
max_attr_list_entries = 4_096

-- The loop, on what is left of the content; `rounds` entries are left of the limit.
unfoldable pub attr_list_loop : ℕ → ℕ → Bytes → List ℕ
attr_list_loop base_entry zero buf = []
attr_list_loop base_entry (suc rounds) buf =
    let record_len = le16 buf 4 in
    let mft_ref = le64 buf 16 % 2 ^ 48 in
    let rest = attr_list_loop base_entry rounds (drop record_len buf) in
    if ltb (length buf) 26
    then []
    else if ltb record_len 26 || ltb (length buf) record_len
    then []
    else if not (mft_ref == base_entry) && ltb 11 mft_ref
    then mft_ref ∷ rest
    else rest

unfoldable pub parse_attr_list_mft_refs : Bytes → ℕ → List ℕ
parse_attr_list_mft_refs buf base_entry =
    dedup ◌==◌ (sort_by leb (attr_list_loop base_entry max_attr_list_entries buf))
