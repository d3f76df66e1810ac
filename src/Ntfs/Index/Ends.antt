-- ===== src/Ntfs/Index/Ends.antt =====
-- crates/offf-core/src/ntfs.rs: the ends of the loops of `index_ntfs`.
use openforensicfileformat.Prelude.{
  ℕ, zero, suc, ◌+◌, ◌*◌, ◌/◌, ◌≢◌, ◌||◌, not, Option, none, some, List, [], ◌∷◌, length, leb, ◌==◌,
  Bool-cases, inl, inr,
}
use openforensicfileformat.Bytes.{Bytes, codes, bytes_eq}
use openforensicfileformat.Outcome.{Result, ok, err, panic, stuck}
use openforensicfileformat.Outcome.Ends.{Ends, Ends-ne_stuck, >>=-Ends, if-Ends, bind_state-Ends}
use openforensicfileformat.Chunk.{ChunkMetadata}
use openforensicfileformat.Words.{byte_at, le16, add64, mul64}
use openforensicfileformat.Ntfs.{DataRun, DateTime, MftRecord, AdsEntry, slice}
use openforensicfileformat.Ntfs.Vbr.{parse_vbr}
use openforensicfileformat.Maps.{lookup, insert, keys}
use openforensicfileformat.Ntfs.Cache.{ChunkCache, empty_cache, read_at}
use openforensicfileformat.Ntfs.Mft.{is_sparse_run, read_mft}
use openforensicfileformat.Ntfs.Paths.{build_paths}
use openforensicfileformat.Ntfs.Paths.Placed.{build_paths-IsPathMap}
use openforensicfileformat.Ntfs.Resolve.{Records, resolve_all}
use openforensicfileformat.Ntfs.Index.{
  parse_records, list_data, list_of, work_of, index_records, index_ntfs, extend_if_ok, resident_or,
  work_step,
}
use openforensicfileformat.Ntfs.Record.{parse_mft_record}
use openforensicfileformat.Partition.Volume.{range}
use openforensicfileformat.Ntfs.Vbr.{record_bytes}
use openforensicfileformat.Outcome.Ends.{ensure_first-Ends}
use openforensicfileformat.Ntfs.Record.Ends.{slice-Ends, parse_mft_record-Ends}
use openforensicfileformat.Ntfs.Mft.Ends.{read_at-Ends, read_mft-Ends}

extend_if_ok-Ends :
    (got : Result Bytes × ChunkCache) (rest : ChunkCache → Result Bytes × ChunkCache)
    → Ends got.0
    → ((s : ChunkCache) → Ends (rest s).0)
    → Ends (extend_if_ok got rest).0
unfolding extend_if_ok
extend_if_ok-Ends (ok bytes, s) rest h k = bind_state-Ends (rest s) _ (k s) (λ more s'. tt)
extend_if_ok-Ends (err e, s) rest h k = k s
extend_if_ok-Ends (panic, s) rest h k = tt
extend_if_ok-Ends (stuck, s) rest h k = h

resident_or-Ends :
    (o : Option Bytes) (away : Result (Option Bytes) × ChunkCache) (s : ChunkCache)
    → Ends away.0
    → Ends (resident_or o away s).0
unfolding resident_or
resident_or-Ends (some bytes) away s h = tt
resident_or-Ends none away s h = h

work_step-Ends :
    (i : ℕ) (o : Option MftRecord)
    (list : MftRecord → ChunkCache → Result (Option Bytes) × ChunkCache)
    (rest : ChunkCache → Result (List (ℕ × Bytes)) × ChunkCache) (s : ChunkCache)
    → ((rec : MftRecord) (t : ChunkCache) → Ends (list rec t).0)
    → ((t : ChunkCache) → Ends (rest t).0)
    → Ends (work_step i o list rest s).0
unfolding work_step
work_step-Ends i none list rest s h k = k s
work_step-Ends i (some rec) list rest s h k =
    bind_state-Ends (list rec s) _ (h rec s)
      (λ found t. bind_state-Ends (rest t) _ (k t) (λ work u. tt))

build_paths-Ends : (records : Records) (ids : List ℕ) → Ends (build_paths records ids)
build_paths-Ends records ids = let (paths, e, _) = build_paths-IsPathMap records ids in rw e tt

parse_vbr-Ends : (buf : Bytes) → Ends (parse_vbr buf)
unfolding parse_vbr
parse_vbr-Ends buf = ensure_first-Ends (leb 84 (length buf)) _ _ (
    ensure_first-Ends (bytes_eq (range buf 3 11) (codes "NTFS    ")) _ _ (
      ensure_first-Ends (not ((le16 buf 11 == 0) || (byte_at buf 13 == 0))) _ _ (
        ensure_first-Ends
          (not (record_bytes (byte_at buf 64) (mul64 (le16 buf 11) (byte_at buf 13)) == 0)) _ _
          tt)))

module _ (read : ChunkMetadata → Result Bytes) (reads : (c : ChunkMetadata) → Ends (read c))
    (timestamp_opt : ℕ → ℕ → Option DateTime) where
  parse_records-Ends :
      (iteration : List ℕ → List ℕ) (size count i : ℕ) (bytes : Bytes) (records : Records)
      → Ends (parse_records read timestamp_opt iteration size count i bytes records)
  unfolding parse_records
  parse_records-Ends iteration size zero i bytes records = tt
  parse_records-Ends iteration size (suc count) i bytes records =
      >>=-Ends (slice bytes (i * size) ((i + 1) * size)) _ (slice-Ends bytes _ _) (λ raw.
        >>=-Ends (slice raw 0 4) _ (slice-Ends raw 0 4) (λ magic.
          if-Ends (not (bytes_eq magic (codes "FILE"))) _ _
            (parse_records-Ends iteration size count (i + 1) bytes records)
            (>>=-Ends (parse_mft_record timestamp_opt raw size) _
              (parse_mft_record-Ends timestamp_opt raw size)
              (λ rec.
                parse_records-Ends iteration size count (i + 1) bytes (insert i rec records)))))

  module _ (iteration : List ℕ → List ℕ) (chunks : List ChunkMetadata) (vo bpc : ℕ) where
    list_data-Ends :
        (runs : List DataRun) (s : ChunkCache)
        → Ends (list_data read timestamp_opt iteration chunks vo bpc runs s).0
    unfolding list_data
    list_data-Ends [] s = tt
    list_data-Ends (run ∷ runs) s = elim (Bool-cases (is_sparse_run run)) [
      | inl t ↦ rw t (list_data-Ends runs s)
      | inr f ↦ rw f (
          extend_if_ok-Ends _ _
            (read_at-Ends read reads chunks (add64 vo (mul64 run.lcn_start bpc))
              (mul64 run.cluster_count bpc) s)
            (list_data-Ends runs))
    ]

    list_of-Ends :
        (rec : MftRecord) (s : ChunkCache)
        → Ends (list_of read timestamp_opt iteration chunks vo bpc rec s).0
    unfolding list_of
    list_of-Ends rec s = elim (Bool-cases (not rec.has_attr_list)) [
      | inl t ↦ rw t tt
      | inr f ↦ rw f (
          resident_or-Ends rec.attr_list_resident _ s (
            bind_state-Ends
              (list_data read timestamp_opt iteration chunks vo bpc rec.attr_list_runs s) _
              (list_data-Ends rec.attr_list_runs s) (λ buf s'. tt)))
    ]

    work_of-Ends :
        (records : Records) (ids : List ℕ) (s : ChunkCache)
        → Ends (work_of read timestamp_opt iteration chunks vo bpc records ids s).0
    unfolding work_of
    work_of-Ends records [] s = tt
    work_of-Ends records (i ∷ ids) s =
        work_step-Ends i (lookup i records) _ _ s (list_of-Ends) (work_of-Ends records ids)

  module _ (iteration : List ℕ → List ℕ) (to_lowercase : Bytes → Bytes)
      (json_extents : List (ℕ × ℕ) → Bytes) (json_refs : List Bytes → Bytes)
      (json_streams : List AdsEntry → Bytes) (version : Bytes) where
    -- The indexing of a volume ends, whatever its bytes are, when the reading of a chunk ends: the
    -- loops over runs, attributes, records and parents all come to their end.
    pub index_ntfs_ends :
        (chunks : List ChunkMetadata) (volume_offset : ℕ)
        (partition_id filesystem_id tool_name : Bytes)
        → index_ntfs read timestamp_opt iteration to_lowercase json_extents json_refs json_streams
            version chunks volume_offset partition_id filesystem_id tool_name
          ≢ stuck
    unfolding index_ntfs index_records
    index_ntfs_ends chunks vo partition_id filesystem_id tool_name = Ends-ne_stuck _ (
        bind_state-Ends (read_at read chunks vo 512 empty_cache) _
          (read_at-Ends read reads chunks vo 512 empty_cache)
          (λ head s.
            bind_state-Ends (parse_vbr head, s) _ (parse_vbr-Ends head)
              (λ vbr s₁.
                bind_state-Ends (read_mft read chunks vo vbr s₁) _
                  (read_mft-Ends read reads chunks vo vbr s₁)
                  (λ table s₂.
                    let size = vbr.bytes_per_record in
                    bind_state-Ends
                      (
                        parse_records read timestamp_opt iteration size (length table / size) 0
                            table [],
                        s₂,
                      )
                      _ (parse_records-Ends iteration size (length table / size) 0 table [])
                      (λ records s₃.
                        bind_state-Ends
                          (work_of read timestamp_opt iteration chunks vo vbr.bytes_per_cluster
                            records (iteration (keys records)) s₃)
                          _
                          (work_of-Ends iteration chunks vo vbr.bytes_per_cluster records
                            (iteration (keys records)) s₃)
                          (λ work s₄.
                            bind_state-Ends
                              (
                                build_paths (resolve_all work records)
                                    (iteration (keys (resolve_all work records))),
                                s₄,
                              )
                              _
                              (build_paths-Ends (resolve_all work records)
                                (iteration (keys (resolve_all work records))))
                              (λ paths s₅. tt)))))))
