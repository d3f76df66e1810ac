-- ===== src/Ntfs/Fixup.antt =====
-- crates/offf-core/src/ntfs.rs, `apply_fixup`: the flag that it returns, and the buffer afterwards.
pub mod Sectors
use openforensicfileformat.Prelude.{
  ℕ, zero, suc, ◌+◌, ◌-◌, ◌*◌, ◌/◌, Bool, true, false, ◌||◌, ltb, ◌==◌, if◌then◌else◌, length, set,
  min, not,
}
use openforensicfileformat.Bytes.{Bytes}
use openforensicfileformat.Words.{byte_at, le16}

-- The loop over the sectors from `i` on, with `rounds` left.
unfoldable pub fixup_loop : ℕ → ℕ → ℕ → ℕ → Bytes → Bool × Bytes
fixup_loop usa_offset usn zero i buf = (true, buf)
fixup_loop usa_offset usn (suc rounds) i buf =
    let sector_end = (i + 1) * 512 - 2 in
    let saved_idx = usa_offset + 2 + i * 2 in
    let buf' =
      set (set buf sector_end (byte_at buf saved_idx)) (sector_end + 1)
        (byte_at buf (saved_idx + 1)) in
    let rest = fixup_loop usa_offset usn rounds (i + 1) buf' in
    if ltb (length buf) (sector_end + 2)
    then (true, buf)
    else if not (le16 buf sector_end == usn)
    then (false, buf)
    else rest

unfoldable pub apply_fixup : Bytes → Bool × Bytes
apply_fixup buf =
    let usa_offset = le16 buf 4 in
    let usa_size = le16 buf 6 in
    if ltb (length buf) 8
    then (false, buf)
    else if ltb usa_size 2 || ltb (length buf) (usa_offset + usa_size * 2)
    then (false, buf)
    else fixup_loop usa_offset (le16 buf usa_offset) (min (length buf / 512) (usa_size - 1)) 0 buf
