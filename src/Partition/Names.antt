-- ===== src/Partition/Names.antt =====
-- crates/offf-core/src/partition.rs: the tables of type names, the CRC and the text forms.
use Prim.Native.Nat.{bit_xor}
use openforensicfileformat.Prelude.{
  ℕ, zero, suc, ◌/◌, ◌%◌, List, [], ◌∷◌, ◌++◌, ◌==◌, if◌then◌else◌,
}
use openforensicfileformat.Bytes.{Bytes, codes, bytes_eq}
use openforensicfileformat.Words.{byte_at, le16, le32, hex_padded, utf16_units, from_utf16_lossy}

-- Eight rounds for each byte.
unfoldable pub crc_bits : ℕ → ℕ → ℕ
crc_bits zero crc = crc
crc_bits (suc rounds) crc =
    crc_bits rounds (if crc % 2 == 1 then bit_xor (crc / 2) 0xEDB8_8320 else crc / 2)

crc_bytes : Bytes → ℕ → ℕ
crc_bytes [] crc = crc
crc_bytes (b ∷ bs) crc = crc_bytes bs (crc_bits 8 (bit_xor crc b))

unfoldable pub crc32 : Bytes → ℕ
unfolding crc_bytes
crc32 bytes = bit_xor (crc_bytes bytes 0xFFFF_FFFF) 0xFFFF_FFFF

abbrev pub known_type_guids : List (Bytes × Bytes)
known_type_guids =
    (codes "c12a7328-f81f-11d2-ba4b-00a0c93ec93b", codes "EFI System Partition")
    ∷ (codes "21686148-6449-6e6f-744e-656564454649", codes "BIOS Boot Partition")
    ∷ (codes "e3c9e316-0b5c-4db8-817d-f92df00215ae", codes "Microsoft Reserved")
    ∷ (codes "ebd0a0a2-b9e5-4433-87c0-68b6b72699c7", codes "Basic Data Partition")
    ∷ (codes "de94bba4-06d1-4d40-a16a-bfd50179d6ac", codes "Windows Recovery Environment")
    ∷ (codes "0fc63daf-8483-4772-8e79-3d69d8477de4", codes "Linux Filesystem Data")
    ∷ (codes "0657fd6d-a4ab-43c4-84e5-0933c84b4f4f", codes "Linux Swap")
    ∷ (codes "e6d6d379-f507-44c2-a23c-238f2a3df928", codes "Linux LVM")
    ∷ (codes "48465300-0000-11aa-aa11-00306543ecac", codes "Apple HFS+")
    ∷ (codes "7c3457ef-0000-11aa-aa11-00306543ecac", codes "Apple APFS")
    ∷ []

find_guid : Bytes → List (Bytes × Bytes) → Bytes
find_guid guid [] = codes "Unknown"
find_guid guid ((g, name) ∷ rest) = if bytes_eq g guid then name else find_guid guid rest

unfoldable pub lookup_type_guid : Bytes → Bytes
unfolding find_guid
lookup_type_guid guid = find_guid guid known_type_guids

abbrev pub mbr_types : List (ℕ × Bytes)
mbr_types =
    (0x00, codes "Empty")
    ∷ (0x01, codes "FAT12")
    ∷ (0x04, codes "FAT16 < 32 MiB")
    ∷ (0x05, codes "Extended (CHS)")
    ∷ (0x06, codes "FAT16")
    ∷ (0x07, codes "NTFS / exFAT")
    ∷ (0x0B, codes "FAT32 (CHS)")
    ∷ (0x0C, codes "FAT32 (LBA)")
    ∷ (0x0E, codes "FAT16 (LBA)")
    ∷ (0x0F, codes "Extended (LBA)")
    ∷ (0x11, codes "Hidden FAT12")
    ∷ (0x14, codes "Hidden FAT16 < 32 MiB")
    ∷ (0x16, codes "Hidden FAT16")
    ∷ (0x17, codes "Hidden NTFS")
    ∷ (0x1B, codes "Hidden FAT32 (CHS)")
    ∷ (0x1C, codes "Hidden FAT32 (LBA)")
    ∷ (0x1E, codes "Hidden FAT16 (LBA)")
    ∷ (0x42, codes "Dynamic Disk")
    ∷ (0x82, codes "Linux Swap")
    ∷ (0x83, codes "Linux Filesystem")
    ∷ (0x85, codes "Linux Extended")
    ∷ (0x8E, codes "Linux LVM")
    ∷ (0xA5, codes "FreeBSD")
    ∷ (0xA8, codes "Apple macOS")
    ∷ (0xEE, codes "GPT Protective MBR")
    ∷ (0xEF, codes "EFI System Partition (FAT)")
    ∷ (0xFB, codes "VMware VMFS")
    ∷ (0xFC, codes "VMware kcore crash protection")
    ∷ []

find_type : ℕ → List (ℕ × Bytes) → Bytes
find_type t [] = codes "Unknown"
find_type t ((k, name) ∷ rest) = if k == t then name else find_type t rest

unfoldable pub mbr_type_name : ℕ → Bytes
unfolding find_type
mbr_type_name t = find_type t mbr_types

abbrev dash : Bytes
dash = b'-' ∷ []

-- The first three parts are little-endian, the last two are bytes in order.
unfoldable pub format_gpt_guid : Bytes → Bytes
format_gpt_guid b =
    let byte = λ (i : ℕ). hex_padded 2 (byte_at b i) in
    hex_padded 8 (le32 b 0)
    ++ (dash
        ++ (hex_padded 4 (le16 b 4)
            ++ (dash
                ++ (hex_padded 4 (le16 b 6)
                    ++ (dash
                        ++ (byte 8
                            ++ (byte 9
                                ++ (dash
                                    ++ (byte 10
                                        ++ (byte 11
                                            ++ (byte 12
                                                ++ (byte 13 ++ (byte 14 ++ byte 15)))))))))))))

until_nul : List ℕ → List ℕ
until_nul [] = []
until_nul (u ∷ rest) = if u == 0 then [] else u ∷ until_nul rest

unfoldable pub parse_utf16le_name : Bytes → Bytes
unfolding until_nul
parse_utf16le_name bytes = from_utf16_lossy (until_nul (utf16_units bytes))
