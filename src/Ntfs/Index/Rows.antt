-- ===== src/Ntfs/Index/Rows.antt =====
-- crates/offf-core/src/ntfs.rs: the order of the rows of `index_ntfs`.
use openforensicfileformat.Prelude.{refl, subst, ℕ, ◌≡◌, length, ◌/◌, Option, List, []}
use openforensicfileformat.Bytes.{Bytes}
use openforensicfileformat.Outcome.{Result, ok, err, panic, stuck, bind_state, ok_injective}
use openforensicfileformat.Chunk.{ChunkMetadata}
use openforensicfileformat.Maps.{keys}
use openforensicfileformat.Maps.Sorting.{sort_by-Sorted, leb_total}
use openforensicfileformat.Ntfs.{DateTime, AdsEntry}
use openforensicfileformat.Ntfs.Vbr.{parse_vbr}
use openforensicfileformat.Ntfs.Cache.{empty_cache, read_at}
use openforensicfileformat.Ntfs.Mft.{read_mft}
use openforensicfileformat.Ntfs.Paths.{build_paths}
use openforensicfileformat.Ntfs.Resolve.{resolve_all}
use openforensicfileformat.Ntfs.Index.Keys.{
  AllDistinct, parse_records-AllDistinct, resolve_all-AllDistinct,
}
use openforensicfileformat.Ntfs.Index.Rising.{IsRising, rows_of-IsRising}
use openforensicfileformat.Ntfs.Index.{
  FileIndexRow, parse_records, work_of, index_records, index_ntfs,
}

ok_of_bind_state {ℓ κ μ} :
    {A : Type ℓ} {B : Type κ} {S : Type μ} (m : Result A × S) (f : A → S → Result B × S) {out : B}
    → (bind_state m f).0 ≡ ok out
    → (a : A) × (s : S) × (m.0 ≡ ok a) × ((f a s).0 ≡ ok out)
ok_of_bind_state (ok a, s) f h = (a, s, refl, h)
ok_of_bind_state (err e, s) f h = cc
ok_of_bind_state (panic, s) f h = cc
ok_of_bind_state (stuck, s) f h = cc

module _ (read : ChunkMetadata → Result Bytes) (timestamp_opt : ℕ → ℕ → Option DateTime)
    (iteration : List ℕ → List ℕ) (to_lowercase : Bytes → Bytes)
    (json_extents : List (ℕ × ℕ) → Bytes) (json_refs : List Bytes → Bytes)
    (json_streams : List AdsEntry → Bytes) (version : Bytes) where
  -- The entry numbers of an indexed volume's rows rise from each row to the next, if the iteration
  -- over a hash map gives no key twice: no entry has two rows, and the rows do not depend in their
  -- order on the one that the map gives its keys in.
  pub index_ntfs-IsRising :
      (chunks : List ChunkMetadata) (volume_offset : ℕ)
      (partition_id filesystem_id tool_name : Bytes) (rows : List FileIndexRow)
      → ((ids : List ℕ) → AllDistinct ids → AllDistinct (iteration ids))
      → index_ntfs read timestamp_opt iteration to_lowercase json_extents json_refs json_streams
          version chunks volume_offset partition_id filesystem_id tool_name
        ≡ ok rows
      → IsRising rows
  unfolding index_ntfs index_records
  index_ntfs-IsRising chunks vo partition_id filesystem_id tool_name rows once h =
      let (head, s, _, h₁) = ok_of_bind_state (read_at read chunks vo 512 empty_cache) _ h in
      let (vbr, s₁, _, h₂) = ok_of_bind_state (parse_vbr head, s) _ h₁ in
      let (table, s₂, _, h₃) = ok_of_bind_state (read_mft read chunks vo vbr s₁) _ h₂ in
      let size = vbr.bytes_per_record in
      let (records, s₃, p₄, h₄) =
        ok_of_bind_state
          (parse_records read timestamp_opt iteration size (length table / size) 0 table [], s₂) _
          h₃ in
      let (work, s₄, _, h₅) =
        ok_of_bind_state
          (work_of read timestamp_opt iteration chunks vo vbr.bytes_per_cluster records
            (iteration (keys records)) s₃)
          _ h₄ in
      let (paths, s₅, _, h₆) =
        ok_of_bind_state
          (build_paths (resolve_all work records) (iteration (keys (resolve_all work records))), s₄)
          _ h₅ in
      let e = ok_injective h₆ in
      let found =
        parse_records-AllDistinct read timestamp_opt iteration size (length table / size) 0 table []
          records p₄ tt in
      let resolved = resolve_all work records in
      subst IsRising e (
        rows_of-IsRising read timestamp_opt iteration to_lowercase json_extents json_refs
          json_streams version chunks vo vbr.bytes_per_cluster partition_id filesystem_id tool_name
          paths resolved (iteration (keys resolved))
          (once (keys resolved) (resolve_all-AllDistinct work records found))
          (sort_by-Sorted _ (λ a b f. leb_total a.file_id b.file_id f)))
