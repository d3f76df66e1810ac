-- ===== src/Ntfs/Attributes.antt =====
-- crates/offf-core/src/ntfs.rs: `filetime_to_datetime`, `parse_std_info`, `parse_file_name` and
-- `best_file_name`. `timestamp_opt` of the crate chrono is a parameter.
use openforensicfileformat.Prelude.{
  ℕ, ◌+◌, ◌-◌, ◌*◌, ◌/◌, ◌%◌, ◌^◌, ltb, leb, ◌==◌, if◌then◌else◌, length, Option, none, some, List,
  [], ◌∷◌,
}
use openforensicfileformat.Bytes.{Bytes}
use openforensicfileformat.Words.{byte_at, le32, le64, utf16_units, from_utf16_lossy}
use openforensicfileformat.Partition.Volume.{range}
use openforensicfileformat.Ntfs.{DateTime, StdInfo, FileName}

abbrev pub epoch_diff_100ns : ℕ
epoch_diff_100ns = 116_444_736_000_000_000

module _ (timestamp_opt : ℕ → ℕ → Option DateTime) where
  unfoldable pub filetime_to_datetime : ℕ → Option DateTime
  filetime_to_datetime ft =
      let since_unix = ft - epoch_diff_100ns in
      if ft == 0
      then none
      else if ltb ft epoch_diff_100ns
      then none
      else timestamp_opt (since_unix / 10_000_000) (since_unix % 10_000_000 * 100)

  unfoldable pub parse_std_info : Bytes → Option StdInfo
  parse_std_info content =
      if ltb (length content) 32
      then none
      else some (record {
        created_at = filetime_to_datetime (le64 content 0);
        modified_at = filetime_to_datetime (le64 content 8);
        changed_at = filetime_to_datetime (le64 content 16);
        accessed_at = filetime_to_datetime (le64 content 24);
        file_attributes = if leb 36 (length content) then le32 content 32 else 0;
      })

unfoldable pub parse_file_name : Bytes → Option FileName
parse_file_name content =
    let name_len = byte_at content 64 in
    if ltb (length content) 66
    then none
    else if ltb (length content) (66 + name_len * 2)
    then none
    else some (record {
      parent_mft = le64 content 0 % 2 ^ 48;
      name = from_utf16_lossy (utf16_units (range content 66 (66 + name_len * 2)));
      namespace = byte_at content 65;
      real_size = le64 content 48;
    })

unfoldable pub priority : ℕ → ℕ
priority ns =
    if ns == 1 then 0 else if ns == 3 then 1 else if ns == 0 then 2 else if ns == 2 then 3 else 4

-- `min_by_key`: the first of those with the least key.
unfoldable pub better_of : FileName → List FileName → FileName
better_of best [] = best
better_of best (f ∷ names) =
    better_of (if ltb (priority f.namespace) (priority best.namespace) then f else best) names

unfoldable pub best_file_name : List FileName → Option FileName
best_file_name [] = none
best_file_name (f ∷ names) = some (better_of f names)
