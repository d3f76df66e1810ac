-- ===== src/Partition/Volume.antt =====
-- crates/offf-core/src/partition.rs, `detect_volume_type`.
use openforensicfileformat.Prelude.{
  ℕ, ◌&&◌, Option, none, some, ltb, leb, if◌then◌else◌, length, take, drop,
}
use openforensicfileformat.Bytes.{Bytes, codes, bytes_eq}

-- `&d[a..b]`, where the code has made sure that `d` is long enough.
unfoldable pub range : Bytes → ℕ → ℕ → Bytes
range d a b = drop a (take b d)

unfoldable pub detect_fat16 : Bytes → Option Bytes
detect_fat16 sector0 =
    let ft = range sector0 54 59 in
    if bytes_eq ft (codes "FAT16")
    then some (codes "FAT16")
    else if bytes_eq ft (codes "FAT12")
    then some (codes "FAT12")
    else if bytes_eq ft (codes "FAT  ")
    then some (codes "FAT")
    else none

unfoldable pub detect_volume_type : Bytes → Option Bytes
detect_volume_type sector0 =
    if ltb (length sector0) 11
    then none
    else if bytes_eq (range sector0 3 11) (codes "NTFS    ")
    then some (codes "NTFS")
    else if bytes_eq (range sector0 3 11) (codes "EXFAT   ")
    then some (codes "exFAT")
    else if leb 90 (length sector0) && bytes_eq (range sector0 82 87) (codes "FAT32")
    then some (codes "FAT32")
    else if leb 62 (length sector0)
    then detect_fat16 sector0
    else none
