-- ===== src/Ntfs/Mft/Ends.antt =====
-- crates/offf-core/src/ntfs.rs: the ends of the loops that read chunks and the table of records.
use openforensicfileformat.Prelude.{
  ℕ, zero, suc, ◌+◌, ◌-◌, ◌≤◌, ◌<◌, ◌||◌, Option, none, some, List, [], ◌∷◌, ◌++◌, arith, length,
  ltb, leb, ◌==◌, min, replicate, Bool-cases, inl, inr,
}
use openforensicfileformat.Bytes.{Bytes, codes, bytes_eq}
use openforensicfileformat.Outcome.{Result, ok, err, panic, stuck, invalid_container, ensure}
use openforensicfileformat.Outcome.Ends.{Ends, >>=-Ends, ensure-Ends, if-Ends, bind_state-Ends}
use openforensicfileformat.Chunk.{ChunkMetadata}
use openforensicfileformat.Words.{le16, le32, add64, mul64}
use openforensicfileformat.Ntfs.{DataRun, NtfsVbr, slice, index}
use openforensicfileformat.Ntfs.Runs.{parse_data_runs}
use openforensicfileformat.Ntfs.Fixup.{apply_fixup}
use openforensicfileformat.Maps.{lookup}
use openforensicfileformat.Partition.Range.{overlaps}
use openforensicfileformat.Ntfs.Cache.{
  ChunkCache, evict, keep_read, copy_part, finish, fetched, fetch, read_loop, read_at,
}
use openforensicfileformat.Ntfs.Mft.{
  MftData, data_at, find_data, locate_mft, max_mft_bytes, mft_size_of, is_sparse_run, runs_data,
  read_mft,
}
use openforensicfileformat.Ntfs.Record.Ends.{slice-Ends, index-Ends, parse_data_runs-Ends}

data_at-Ends : (rec0 : Bytes) (pos attr_len : ℕ) → Ends (data_at rec0 pos attr_len)
unfolding data_at
data_at-Ends rec0 pos attr_len = if-Ends (ltb (length rec0) (pos + 64)) _ _ tt (
    if-Ends (ltb (pos + le16 rec0 (pos + 32)) (length rec0)) _ _
      (>>=-Ends (slice rec0 (pos + le16 rec0 (pos + 32)) (pos + attr_len)) _ (slice-Ends rec0 _ _)
        (λ bytes. >>=-Ends (parse_data_runs bytes) _ (parse_data_runs-Ends bytes) (λ runs. tt)))
      tt)

find_data-Ends :
    (rec0 : Bytes) (fuel pos : ℕ)
    → 0 < fuel
    → length rec0 < fuel + pos
    → Ends (find_data rec0 fuel pos)
unfolding find_data
find_data-Ends rec0 zero pos h k = absurd (omega arith)
find_data-Ends rec0 (suc fuel) pos h k = if-Ends (ltb (length rec0) (pos + 8)) _ _ tt (
    if-Ends (le32 rec0 pos == 0xFFFF_FFFF) _ _ tt
      (elim (Bool-cases
        ((le32 rec0 (pos + 4) == 0) || ltb (length rec0) (pos + le32 rec0 (pos + 4)))) [
          | inl t ↦ rw t tt
          | inr f ↦
              let (longer, inside) : (0 < le32 rec0 (pos + 4))
                  × (pos + le32 rec0 (pos + 4) ≤ length rec0) =
                ground arith in
              let next =
                find_data-Ends rec0 fuel (pos + le32 rec0 (pos + 4)) (omega arith) (omega arith) in
              rw f (
                if-Ends (le32 rec0 pos == 0x80) _ _
                  (>>=-Ends (index rec0 (pos + 8)) _ (index-Ends rec0 (pos + 8)) (λ flag.
                    if-Ends (flag == 0) _ _ next (data_at-Ends rec0 pos (le32 rec0 (pos + 4)))))
                  next)
        ]))

locate_mft-Ends : (rec0 : Bytes) → Ends (locate_mft rec0)
unfolding locate_mft
locate_mft-Ends rec0 =
    let fixed = (apply_fixup rec0).1 in
    >>=-Ends (slice rec0 0 4) _ (slice-Ends rec0 0 4) (λ magic.
      >>=-Ends (ensure (bytes_eq magic (codes "FILE")) invalid_container) _ (ensure-Ends _ _) (λ _.
        >>=-Ends (slice fixed 20 22) _ (slice-Ends fixed 20 22) (λ first.
          find_data-Ends fixed (length fixed + 1) (le16 first 0) (omega arith) (omega arith))))

mft_size_of-Ends : (m : MftData) → Ends (mft_size_of m)
unfolding mft_size_of
mft_size_of-Ends m =
    >>=-Ends (ensure (ltb 0 (length m.mft_runs)) invalid_container) _ (ensure-Ends _ _) (λ _.
      >>=-Ends
        (ensure (ltb 0 (min (min m.mft_real_size m.mft_allocated) max_mft_bytes)) invalid_container)
        _ (ensure-Ends _ _) (λ _. tt))

module _ (read : ChunkMetadata → Result Bytes) (reads : (c : ChunkMetadata) → Ends (read c)) where
  fetch-Ends : (c : ChunkMetadata) (s : ChunkCache) → Ends (fetch read c s).0
  unfolding fetch fetched keep_read
  fetch-Ends c s = found (lookup c.sequence s.cache)
    where
      kept : (r : Result Bytes) → Ends r → Ends (keep_read c.sequence (evict s) r).0
      kept (ok plain) h = tt
      kept (err e) h = tt
      kept panic h = tt
      kept stuck h = h

      found : (o : Option Bytes) → Ends (fetched read c s o).0
      found (some plain) = tt
      found none = kept (read c) (reads c)

  finish-Ends : (len : ℕ) (result : Bytes) (filled : ℕ) → Ends (finish len result filled)
  unfolding finish
  finish-Ends len result filled = if-Ends (ltb filled len) _ _ tt tt

  read_loop-Ends :
      (chunks : List ChunkMetadata) (offset end len : ℕ) (result : Bytes) (filled : ℕ)
      (s : ChunkCache)
      → Ends (read_loop read chunks offset end len result filled s).0
  unfolding read_loop
  read_loop-Ends [] offset end len result filled s = finish-Ends len result filled
  read_loop-Ends (c ∷ chunks) offset end len result filled s =
      elim (Bool-cases (overlaps c offset end)) [
        | inl t ↦ rw t (
            bind_state-Ends (fetch read c s) _ (fetch-Ends c s) (λ plain s'.
              read_loop-Ends chunks offset end len (copy_part c offset end result plain).0
                (add64 filled (copy_part c offset end result plain).1) s'))
        | inr f ↦ rw f (read_loop-Ends chunks offset end len result filled s)
      ]

  pub read_at-Ends :
      (chunks : List ChunkMetadata) (offset len : ℕ) (s : ChunkCache)
      → Ends (read_at read chunks offset len s).0
  unfolding read_at
  read_at-Ends chunks offset len s = elim (Bool-cases (len == 0)) [
    | inl t ↦ rw t tt
    | inr f ↦ rw f (read_loop-Ends chunks offset (add64 offset len) len (replicate len 0) 0 s)
  ]

  module _ (chunks : List ChunkMetadata) where
    runs_data-Ends :
        (vo bpc size : ℕ) (runs : List DataRun) (bytes : Bytes) (s : ChunkCache)
        → Ends (runs_data read chunks vo bpc size runs bytes s).0
    unfolding runs_data
    runs_data-Ends vo bpc size [] bytes s = tt
    runs_data-Ends vo bpc size (run ∷ runs) bytes s =
        let count = min (mul64 run.cluster_count bpc) (size - length bytes) in
        elim (Bool-cases (leb size (length bytes))) [
          | inl t ↦ rw t tt
          | inr f ↦ elim (Bool-cases (is_sparse_run run)) [
            | inl t ↦ rw (f, t) (runs_data-Ends vo bpc size runs (bytes ++ replicate count 0) s)
            | inr f' ↦
                rw (f, f')
                  (bind_state-Ends
                    (read_at read chunks (add64 vo (mul64 run.lcn_start bpc)) count s) _
                    (read_at-Ends chunks (add64 vo (mul64 run.lcn_start bpc)) count s)
                    (λ more s'. runs_data-Ends vo bpc size runs (bytes ++ more) s'))
          ]
        ]

    pub read_mft-Ends :
        (vo : ℕ) (vbr : NtfsVbr) (s : ChunkCache) → Ends (read_mft read chunks vo vbr s).0
    unfolding read_mft
    read_mft-Ends vo vbr s =
        bind_state-Ends
          (read_at read chunks (add64 vo (mul64 vbr.mft_lcn vbr.bytes_per_cluster))
            vbr.bytes_per_record s)
          _ (read_at-Ends chunks _ vbr.bytes_per_record s)
          (λ rec0 s₁.
            bind_state-Ends (locate_mft rec0, s₁) _ (locate_mft-Ends rec0)
              (λ m s₂.
                bind_state-Ends (mft_size_of m, s₂) _ (mft_size_of-Ends m)
                  (λ size s₃. runs_data-Ends vo vbr.bytes_per_cluster size m.mft_runs [] s₃)))
