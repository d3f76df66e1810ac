-- ===== src/Ntfs/Mft.antt =====
-- crates/offf-core/src/ntfs.rs, `read_mft`.
pub mod Ends
use openforensicfileformat.Prelude.{
  ℕ, zero, suc, ◌+◌, ◌-◌, ◌*◌, ◌^◌, Bool, ◌&&◌, ◌||◌, not, ltb, leb, ◌==◌, if◌then◌else◌, length,
  take, replicate, min, List, [], ◌∷◌, ◌++◌,
}
use openforensicfileformat.Bytes.{Bytes, codes, bytes_eq}
use openforensicfileformat.Outcome.{
  Result, ok, err, panic, stuck, invalid_container, bind_state, ◌>>=◌, ◌>>◌, ensure,
}
use openforensicfileformat.Chunk.{ChunkMetadata}
use openforensicfileformat.Words.{add64, mul64, le16, le32, le64}
use openforensicfileformat.Ntfs.{NtfsVbr, DataRun, slice, index}
use openforensicfileformat.Ntfs.Runs.{parse_data_runs}
use openforensicfileformat.Ntfs.Fixup.{apply_fixup}
use openforensicfileformat.Ntfs.Cache.{ChunkCache, read_at}

-- Where $MFT lies: its runs, and the allocated and the real size of its $DATA.
pub record MftData : Type 0 where
  pub mft_runs : List DataRun
  pub mft_allocated : ℕ
  pub mft_real_size : ℕ

abbrev pub no_data : MftData
no_data = record { mft_runs = []; mft_allocated = 0; mft_real_size = 0 }

-- The non-resident $DATA at `pos`.
unfoldable pub data_at : Bytes → ℕ → ℕ → Result MftData
data_at rec0 pos attr_len =
    let from = pos + le16 rec0 (pos + 32) in
    let located = (do
      bytes ← slice rec0 from (pos + attr_len)
      runs ← parse_data_runs bytes
      ok (record {
        mft_runs = runs;
        mft_allocated = le64 rec0 (pos + 40);
        mft_real_size = le64 rec0 (pos + 56);
      })) in
    if ltb (length rec0) (pos + 64)
    then ok no_data
    else if ltb from (length rec0)
    then located
    else ok (record {
      mft_runs = [];
      mft_allocated = le64 rec0 (pos + 40);
      mft_real_size = le64 rec0 (pos + 56);
    })

-- The loop over the attributes of record 0.
unfoldable pub find_data : Bytes → ℕ → ℕ → Result MftData
find_data rec0 zero pos = stuck
find_data rec0 (suc fuel) pos =
    let attr_type = le32 rec0 pos in
    let attr_len = le32 rec0 (pos + 4) in
    let here = data_at rec0 pos attr_len in
    let next = find_data rec0 fuel (pos + attr_len) in
    let data_or_next = (do flag ← index rec0 (pos + 8); if flag == 0 then next else here) in
    if ltb (length rec0) (pos + 8)
    then ok no_data
    else if attr_type == 0xFFFF_FFFF
    then ok no_data
    else if (attr_len == 0) || ltb (length rec0) (pos + attr_len)
    then ok no_data
    else if attr_type == 0x80
    then data_or_next
    else next

-- Record 0, from the signature on.
unfoldable pub locate_mft : Bytes → Result MftData
locate_mft rec0 = do
  magic ← slice rec0 0 4
  ensure (bytes_eq magic (codes "FILE")) invalid_container
  let fixed = (apply_fixup rec0).1
  first ← slice fixed 20 22
  find_data fixed (length fixed + 1) (le16 first 0)

unfoldable pub max_mft_bytes : ℕ
max_mft_bytes = 2 * 1024 * 1024 * 1024

unfoldable pub mft_size_of : MftData → Result ℕ
mft_size_of m = do
  ensure (ltb 0 (length m.mft_runs)) invalid_container
  let mft_size = min (min m.mft_real_size m.mft_allocated) max_mft_bytes
  ensure (ltb 0 mft_size) invalid_container
  ok mft_size

-- `lcn_start < 0`
unfoldable pub is_sparse_run : DataRun → Bool
is_sparse_run run = leb (2 ^ 63) run.lcn_start

module _ (read : ChunkMetadata → Result Bytes) (chunks : List ChunkMetadata) where
  -- The loop over the runs, with what has been read so far.
  unfoldable pub runs_data :
      ℕ → ℕ → ℕ → List DataRun → Bytes → ChunkCache → Result Bytes × ChunkCache
  runs_data volume_offset bpc mft_size [] mft_data s = (ok (take mft_size mft_data), s)
  runs_data volume_offset bpc mft_size (run ∷ runs) mft_data s =
      let run_bytes = min (mul64 run.cluster_count bpc) (mft_size - length mft_data) in
      let run_offset = add64 volume_offset (mul64 run.lcn_start bpc) in
      let zeros = runs_data volume_offset bpc mft_size runs (mft_data ++ replicate run_bytes 0) s in
      let stored =
        bind_state (read_at read chunks run_offset run_bytes s)
          (λ bytes s'. runs_data volume_offset bpc mft_size runs (mft_data ++ bytes) s') in
      if leb mft_size (length mft_data)
      then (ok (take mft_size mft_data), s)
      else if is_sparse_run run
      then zeros
      else stored

  unfoldable pub read_mft : ℕ → NtfsVbr → ChunkCache → Result Bytes × ChunkCache
  read_mft volume_offset vbr s =
      bind_state
        (read_at read chunks (add64 volume_offset (mul64 vbr.mft_lcn vbr.bytes_per_cluster))
          vbr.bytes_per_record s)
        (λ rec0 s₁.
          bind_state (locate_mft rec0, s₁)
            (λ m s₂.
              bind_state (mft_size_of m, s₂)
                (λ mft_size s₃.
                  runs_data volume_offset vbr.bytes_per_cluster mft_size m.mft_runs [] s₃)))
