-- ===== src/Ntfs/Vbr.antt =====
-- crates/offf-core/src/ntfs.rs, `parse_vbr`.
use openforensicfileformat.Prelude.{
  ℕ, ◌-◌, ◌%◌, ◌^◌, ◌||◌, not, ltb, leb, ◌==◌, if◌then◌else◌, length,
}
use openforensicfileformat.Bytes.{Bytes, codes, bytes_eq}
use openforensicfileformat.Outcome.{Result, ok, invalid_container, ◌>>◌, ensure}
use openforensicfileformat.Words.{mul64, byte_at, le16, le64}
use openforensicfileformat.Partition.Volume.{range}
use openforensicfileformat.Ntfs.{NtfsVbr}

-- The size of a record, of the byte `cpfr` read as an `i8`: the exponent is negated as an `i8`, so
-- that -128 stays -128, and a shift counts modulo 64.
unfoldable pub record_bytes : ℕ → ℕ → ℕ
record_bytes cpfr bytes_per_cluster =
    if ltb cpfr 128
    then mul64 cpfr bytes_per_cluster
    else if cpfr == 128
    then 2 ^ ((2 ^ 64 - 128) % 64)
    else 2 ^ ((256 - cpfr) % 64)

unfoldable pub parse_vbr : Bytes → Result NtfsVbr
parse_vbr buf = do
  ensure (leb 84 (length buf)) invalid_container
  ensure (bytes_eq (range buf 3 11) (codes "NTFS    ")) invalid_container
  let bytes_per_sector = le16 buf 11
  let sectors_per_cluster = byte_at buf 13
  ensure (not ((bytes_per_sector == 0) || (sectors_per_cluster == 0))) invalid_container
  let bytes_per_cluster = mul64 bytes_per_sector sectors_per_cluster
  let bytes_per_record = record_bytes (byte_at buf 64) bytes_per_cluster
  ensure (not (bytes_per_record == 0)) invalid_container
  ok (record {
    bytes_per_cluster = bytes_per_cluster;
    bytes_per_record = bytes_per_record;
    mft_lcn = le64 buf 48;
  })
