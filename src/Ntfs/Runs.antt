-- ===== src/Ntfs/Runs.antt =====
-- crates/offf-core/src/ntfs.rs, `parse_data_runs`. In a release build a shift counts modulo 64.
pub mod Encoding
pub mod RoundTrip
use Prim.Native.Nat.{bit_or}
use openforensicfileformat.Prelude.{
  ℕ, zero, suc, ◌+◌, ◌-◌, ◌*◌, ◌/◌, ◌%◌, ◌^◌, Bool, true, false, ◌||◌, ltb, leb, ◌==◌,
  if◌then◌else◌, length, List, [], ◌∷◌, drop,
}
use openforensicfileformat.Bytes.{Bytes}
use openforensicfileformat.Outcome.{Result, ok, err, panic, stuck, ◌>>=◌}
use openforensicfileformat.Words.{add64, byte_at}
use openforensicfileformat.Ntfs.{DataRun}

-- `a << n` on a `u64` or an `i64`.
unfoldable pub shl64 : ℕ → ℕ → ℕ
shl64 a n = a * 2 ^ (n % 64) % 2 ^ 64

-- The loop over `i` that joins the bytes from `at + i` on, with `rounds` bytes left.
unfoldable pub join_bytes : Bytes → ℕ → ℕ → ℕ → ℕ → ℕ
join_bytes buf at zero i acc = acc
join_bytes buf at (suc rounds) i acc =
    join_bytes buf at rounds (i + 1) (bit_or acc (shl64 (byte_at buf (at + i)) (i * 8)))

-- `delta & (1 << n) != 0`
unfoldable pub bit_is_set : ℕ → ℕ → Bool
bit_is_set delta n = delta / 2 ^ (n % 64) % 2 == 1

unfoldable pub sign_extend : ℕ → ℕ → ℕ
sign_extend delta off_len =
    if bit_is_set delta (off_len * 8 - 1)
    then bit_or delta (shl64 (2 ^ 64 - 1) (off_len * 8))
    else delta

-- `-1` as an `i64`.
abbrev pub no_lcn : ℕ
no_lcn = 2 ^ 64 - 1

-- The loop, on what is left of the buffer.
unfoldable pub runs_loop : ℕ → ℕ → Bytes → Result (List DataRun)
runs_loop zero current_lcn buf = stuck
runs_loop (suc fuel) current_lcn [] = ok []
runs_loop (suc fuel) current_lcn (header ∷ buf) =
    let len_len = header % 16 in
    let off_len = header / 16 % 16 in
    let cluster_count = join_bytes buf 0 len_len 0 0 in
    let lcn = add64 current_lcn (sign_extend (join_bytes buf len_len off_len 0 0) off_len) in
    let sparse = (do
      rest ← runs_loop fuel current_lcn (drop len_len buf)
      ok (record { lcn_start = no_lcn; cluster_count = cluster_count } ∷ rest)) in
    let allocated = (do
      rest ← runs_loop fuel lcn (drop (len_len + off_len) buf)
      ok (record { lcn_start = lcn; cluster_count = cluster_count } ∷ rest)) in
    if header == 0
    then ok []
    else if (len_len == 0) || ltb (length buf) (len_len + off_len)
    then ok []
    else if off_len == 0
    then sparse
    else allocated

unfoldable pub parse_data_runs : Bytes → Result (List DataRun)
parse_data_runs buf = runs_loop (length buf + 1) 0 buf
